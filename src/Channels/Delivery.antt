-- ===== src/Channels/Delivery.antt =====
-- The consumer of a flow of src/registry/reverse-channel.mjs gets the body as it came.
use dsh_orbit.Common.{◌≡◌, sym, ap, ◌∙◌, List, [], ◌∷◌, ◌++◌}
use mathlib.Core.List.{append_assoc, append-nil}
use dsh_orbit.Wire.{Octets}
use dsh_orbit.Channels.{Limits}
use dsh_orbit.Channels.Body.{Flow, Done, Input, step, run}
use dsh_orbit.Channels.Steps.{handed, taken_by, NoLostWaiter, handed-append, step_by-Keeps}

unfoldable pub taken : Limits → Flow → List Input → List Octets
unfolding step
taken l f [] = []
taken l f (i ∷ is) = taken_by l f i.call ++ taken l (step l f i).0 is

two_steps :
    (given given' queue queue' queue'' chunks chunks' : List Octets)
    → given ++ queue' ≡ queue ++ chunks
    → given' ++ queue'' ≡ queue' ++ chunks'
    → (given ++ given') ++ queue'' ≡ queue ++ (chunks ++ chunks')
two_steps given given' queue queue' queue'' chunks chunks' e e' =
    append_assoc given given' queue''
    ∙ ap (λ z. given ++ z) e'
    ∙ sym (append_assoc given queue' chunks')
    ∙ ap (λ z. z ++ chunks') e
    ∙ append_assoc queue chunks chunks'

abbrev pub Delivered : Flow → List Octets → Done → Type 0
Delivered f chunks d = (handed d.1 ++ d.0.body_queue ≡ f.body_queue ++ chunks) × NoLostWaiter d.0

-- In every order of calls: the chunks that the consumer has got, in their order, and then those in the queue
-- are the chunks that were queued before and then those that the flow has taken; and nobody waits while a
-- chunk is queued or after the end. Nobody waited so before the calls.
pub run-Delivered :
    (l : Limits) (f : Flow) (is : List Input)
    → NoLostWaiter f
    → Delivered f (taken l f is) (run l f is)
unfolding run taken step
run-Delivered l f [] w = (sym (append-nil f.body_queue), w)
run-Delivered l f (i ∷ is) w =
    let (e, w') = step_by-Keeps l i.paused i.now f w i.call in
    let (e', w'') = run-Delivered l (step l f i).0 is w' in
    (
      rw (handed-append (step l f i).1 (run l (step l f i).0 is).1) (
          two_steps (handed (step l f i).1) (handed (run l (step l f i).0 is).1) f.body_queue
            (step l f i).0.body_queue (run l (step l f i).0 is).0.body_queue (taken_by l f i.call)
            (taken l (step l f i).0 is) e e'),
      w'',
    )
