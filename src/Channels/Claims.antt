-- ===== src/Channels/Claims.antt =====
-- A channel of src/registry/reverse-channel.mjs has one holder, and a node has at most the maximum of them.
use dsh_orbit.Common.{
  ◌≡◌, ◌≢◌, refl, sym, ap, ◌∙◌, Bool, true, false, ◌&&◌, Option, none, some, List, [], ◌∷◌, ◌++◌,
  map, leb, length, All, inl, inr, Bool-cases, arith,
}
use dsh_orbit.Common.Text.{Text, text_eq}
use mathlib.Core.Option.{some-injective}
use dsh_orbit.Fleet.Resolution.{text_eq_self}
use dsh_orbit.Flows.Scope.{text_eq→eq}
use dsh_orbit.Channels.Pool.{
  ChannelState, idle, busy, Channel, Pool, is_idle, of_session, of_node, keep, channels_of,
  is_claimable, new_channel, register_channel, claim_first, claim_idle_channel, change, mark_busy,
  mark_idle, close, close_channels_for_node, close_channels_for_session,
  close_channels_for_credential, close_all, Operation, registers, claims, starts, releases, closes,
  closes_node, closes_session, closes_credential, closes_all, apply, apply_all,
}

-- Every channel with this id is busy.
abbrev pub Held : Text → Channel → Type 0
Held id c = text_eq c.id id ≡ true → c.state ≡ busy

abbrev pub IsHeld : Text → Pool → Type 0
IsHeld id m = All (Held id) m.channels

-- Neither released by its holder nor registered anew.
abbrev pub Leaves : Text → Operation → Type 0
Leaves id (registers id' node key session) = text_eq id' id ≡ false
Leaves id (releases id') = text_eq id' id ≡ false
Leaves id _ = Unit

abbrev pub LeaveIt : Text → List Operation → Type 0
LeaveIt id os = All (Leaves id) os

keep-All :
    (P : Channel → Type 0) (p : Channel → Bool) (cs : List Channel) → All P cs → All P (keep p cs)
unfolding keep
keep-All P p [] h = tt
keep-All P p (c ∷ cs) (h, hs) = elim (Bool-cases (p c)) [
  | inl e ↦ rw e (h, keep-All P p cs hs)
  | inr e ↦ rw e (keep-All P p cs hs)
]

snoc-All :
    (P : Channel → Type 0) (cs : List Channel) (c : Channel) → All P cs → P c → All P (cs ++ c ∷ [])
snoc-All P [] c h k = (k, tt)
snoc-All P (x ∷ cs) c (h, hs) k = (h, snoc-All P cs c hs k)

map-All :
    (P : Channel → Type 0) (f : Channel → Channel) (cs : List Channel)
    → ((c : Channel) → P c → P (f c))
    → All P cs
    → All P (map f cs)
map-All P f [] k h = tt
map-All P f (c ∷ cs) k (h, hs) = (k c h, map-All P f cs k hs)

claim_first-Held :
    (id node : Text) (session : Option Text) (cs : List Channel)
    → All (Held id) cs
    → All (Held id) (claim_first node session cs).1
unfolding claim_first
claim_first-Held id node session [] h = tt
claim_first-Held id node session (c ∷ cs) (h, hs) =
    elim (Bool-cases (is_claimable node session c)) [
      | inl e ↦ rw e ((λ k. refl), hs)
      | inr e ↦ rw e (h, claim_first-Held id node session cs hs)
    ]

mark_busy-Held :
    (id id' request : Text) (c : Channel)
    → Held id c
    → Held id (change id' (λ x. record x { state = busy; flow = some request }) c)
mark_busy-Held id id' request c h = elim (Bool-cases (text_eq c.id id')) [
  | inl e ↦ rw e (λ k. refl)
  | inr e ↦ rw e h
]

mark_idle-Held :
    (id id' : Text) (c : Channel)
    → text_eq id' id ≡ false
    → Held id c
    → Held id (change id' (λ x. record x { state = idle; flow = none }) c)
mark_idle-Held id id' c other h = elim (Bool-cases (text_eq c.id id')) [
  | inl e ↦ rw e (λ k. absurd (contrary (sym (ap (λ z. text_eq z id) (text_eq→eq c.id id' e)) ∙ k)))
  | inr e ↦ rw e h
]
  where
    contrary : text_eq id' id ≡ true → ⊥
    contrary k = ground arith

register_channel-IsHeld :
    (id id' node key session : Text) (m : Pool)
    → text_eq id' id ≡ false
    → IsHeld id m
    → IsHeld id (register_channel id' node key session m).1
unfolding register_channel
register_channel-IsHeld id id' node key session m other h =
    elim (Bool-cases (leb m.max_channels (length (channels_of node m)))) [
      | inl e ↦ rw e h
      | inr e ↦ rw e (
          snoc-All (Held id) m.channels (new_channel id' node key session) h
            (λ k. absurd (contrary k)))
    ]
  where
    contrary : text_eq id' id ≡ true → ⊥
    contrary k = ground arith

apply-IsHeld :
    (id : Text) (m : Pool) (o : Operation) → Leaves id o → IsHeld id m → IsHeld id (apply m o)
unfolding apply register_channel claim_idle_channel mark_busy mark_idle close
    close_channels_for_node close_channels_for_session close_channels_for_credential close_all
apply-IsHeld id m (registers id' node key session) other h =
    register_channel-IsHeld id id' node key session m other h
apply-IsHeld id m (claims node session) other h = claim_first-Held id node session m.channels h
apply-IsHeld id m (starts id' request) other h =
    map-All (Held id) _ m.channels (mark_busy-Held id id' request) h
apply-IsHeld id m (releases id') other h =
    map-All (Held id) _ m.channels (λ c k. mark_idle-Held id id' c other k) h
apply-IsHeld id m (closes id') other h = keep-All (Held id) _ m.channels h
apply-IsHeld id m (closes_node node) other h = keep-All (Held id) _ m.channels h
apply-IsHeld id m (closes_session session) other h = keep-All (Held id) _ m.channels h
apply-IsHeld id m (closes_credential node key) other h = keep-All (Held id) _ m.channels h
apply-IsHeld id m closes_all other h = tt

apply_all-IsHeld :
    (id : Text) (m : Pool) (os : List Operation)
    → LeaveIt id os
    → IsHeld id m
    → IsHeld id (apply_all m os)
unfolding apply_all
apply_all-IsHeld id m [] l h = h
apply_all-IsHeld id m (o ∷ os) (l, ls) h =
    apply_all-IsHeld id (apply m o) os ls (apply-IsHeld id m o l h)

-- What is claimed was idle.
claimable-other :
    (id node : Text) (session : Option Text) (x : Channel)
    → is_claimable node session x ≡ true
    → Held id x
    → text_eq x.id id ≡ false
claimable-other id node session x k h = elim (Bool-cases (text_eq x.id id)) [
  | inl same ↦ absurd (
      busy_is_idle (x.state) (h same)
        (idle_part (of_node node x) (is_idle x.state) (of_session session x) k))
  | inr other ↦ other
]
  where
    idle_part : (a b c : Bool) → (a && (b && c)) ≡ true → b ≡ true
    idle_part a b c e = ground arith

    busy_is_idle : (s : ChannelState) → s ≡ busy → is_idle s ≡ true → ⊥
    busy_is_idle idle e e' = cc
    busy_is_idle busy e e' = ground arith

same_id : (x c : Channel) → some (record x { state = busy }) ≡ some c → c.id ≡ x.id
same_id x c e = sym (ap (λ z. z.id) (some-injective (record x { state = busy }) c e))

none_claimed : (c : Channel) → none ≡ some c → ⊥
none_claimed c e = cc

claim_first-other :
    (id node : Text) (session : Option Text) (cs : List Channel) (c : Channel)
    → All (Held id) cs
    → (claim_first node session cs).0 ≡ some c
    → text_eq c.id id ≡ false
unfolding claim_first
claim_first-other id node session [] c h e = absurd (none_claimed c e)
claim_first-other id node session (x ∷ cs) c (h, hs) e =
    elim (Bool-cases (is_claimable node session x)) [
      | inl k ↦
          let same : some (record x { state = busy }) ≡ some c = rw k at e in
          ap (λ z. text_eq z id) (same_id x c same) ∙ claimable-other id node session x k h
      | inr k ↦ claim_first-other id node session cs c hs (rw k at e)
    ]

-- No two channels of the list have this id.
abbrev pub IsAlone : Text → List Channel → Type 0
IsAlone id [] = Unit
IsAlone id (c ∷ cs) =
    (text_eq c.id id ≡ true → All (λ d. text_eq d.id id ≡ false) cs) × IsAlone id cs

others-Held :
    (id : Text) (cs : List Channel) → All (λ d. text_eq d.id id ≡ false) cs → All (Held id) cs
others-Held id [] h = tt
others-Held id (c ∷ cs) (h, hs) = ((λ k. absurd (contrary (sym h ∙ k))), others-Held id cs hs)
  where
    contrary : false ≡ true → ⊥
    contrary k = ground arith

claim_first-holds :
    (node : Text) (session : Option Text) (cs : List Channel) (c : Channel)
    → IsAlone c.id cs
    → (claim_first node session cs).0 ≡ some c
    → All (Held c.id) (claim_first node session cs).1
unfolding claim_first
claim_first-holds node session [] c a e = tt
claim_first-holds node session (x ∷ cs) c (a, as') e =
    elim (Bool-cases (is_claimable node session x)) [
      | inl k ↦
          let same : some (record x { state = busy }) ≡ some c = rw k at e in
          rw k (
            (λ h. refl),
            others-Held c.id cs
                (a (ap (λ z. text_eq z c.id) (sym (same_id x c same)) ∙ text_eq_self c.id)),
          )
      | inr k ↦ rw k (early (rw k at e), claim_first-holds node session cs c as' (rw k at e))
    ]
  where
    contrary : false ≡ true → ⊥
    contrary h = ground arith

    early : (claim_first node session cs).0 ≡ some c → Held c.id x
    early e' h = absurd (
        contrary (
          sym (claim_first-other c.id node session cs c (others-Held c.id cs (a h)) e')
          ∙ text_eq_self c.id))

-- A channel that has been claimed is not claimed again, for whatever node or session, until it has been
-- released, or its id has been given to a new channel; whatever else is done in between, and in whatever order.
-- No two channels had its id.
pub one_holder :
    (m : Pool) (node node' : Text) (session session' : Option Text) (c d : Channel)
    (os : List Operation)
    → IsAlone c.id m.channels
    → (claim_idle_channel node session m).0 ≡ some c
    → LeaveIt c.id os
    → (claim_idle_channel node' session' (apply_all (claim_idle_channel node session m).1 os)).0
      ≡ some d
    → d.id ≢ c.id
unfolding claim_idle_channel
one_holder m node node' session session' c d os alone e leave e' same =
    contrary (sym other ∙ (ap (λ z. text_eq z c.id) same ∙ text_eq_self c.id))
  where
    held : IsHeld c.id (apply_all (claim_idle_channel node session m).1 os)
    held =
        apply_all-IsHeld c.id (claim_idle_channel node session m).1 os leave
          (claim_first-holds node session m.channels c alone e)

    other : text_eq d.id c.id ≡ false
    other =
        claim_first-other c.id node' session'
          (apply_all (claim_idle_channel node session m).1 os).channels d held e'

    contrary : false ≡ true → ⊥
    contrary h = ground arith
