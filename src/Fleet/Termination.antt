-- ===== src/Fleet/Termination.antt =====
-- A job of src/registry/fleet-scheduler.mjs starts well, ends after a bounded number of steps, and its
-- end passes the checks of `executeJob`.
use dsh_orbit.Common.{
  ℕ, suc, ◌≤◌, ◌<◌, ◌≡◌, refl, ap, inl, inr, false, Option, some, List, [], ◌∷◌, arith, length,
  Option-cases, map,
}
use dsh_orbit.Common.Text.{Text, Text-discrete}
use dsh_orbit.Common.JsMap.{get}
use dsh_orbit.Fleet.{FleetJobStatus, Job, Registry}
use dsh_orbit.Fleet.Execute.{
  Execution, blank, filter_nodes, skip_node, skip_reason, start_job, pool, begin_execution,
  computed_total, terminal_status, finish_job, finished,
}
use dsh_orbit.Fleet.Submit.{blank_results, new_job, Request}
use dsh_orbit.Fleet.Counting.{open_count, occurrences, Core, IsOpenIn, close, regroup}
use dsh_orbit.Fleet.Accounting.{Inv, length-flying, occurrences-move}
use dsh_orbit.Fleet.Runs.{Runs, Runs-Inv}

-- At the end of a run, when every worker has left and nothing is in flight.
pub record IsQuiet (x : Execution) : Type 0 where
  pub no_worker : x.free ≡ 0
  pub no_flight : x.in_flight ≡ []

abbrev pub Settled : Job → Type 0
Settled j =
    (computed_total j.summary ≡ j.summary.total_targets)
    × (length j.results ≡ j.summary.total_targets)

finish_job-Settled :
    (j : Job) (later : ℕ)
    → Settled j
    → finish_job j later
      ≡ finished (record j { finished_at = some later; status = terminal_status j })
unfolding finish_job
finish_job-Settled j later (balanced, complete) = ground arith

no_queue :
    (limit : ℕ) (x : Execution) → Inv limit x → IsQuiet x → x.job.aborted ≡ false → x.queue ≡ []
no_queue limit x v q going = elim v.attended [
  | inl empty ↦ empty
  | inr rest ↦ elim rest [
    | inl aborted ↦ cc
    | inr busy ↦
        let no_flight = ap length q.no_flight in let no_worker = q.no_worker in absurd (omega arith)
  ]
]

quiet-Settled :
    (limit : ℕ) (x : Execution)
    → Inv limit x
    → IsQuiet x
    → Settled x.job × (open_count x.job.results ≡ 0)
quiet-Settled limit x v q = elim v.phase [
  | inr s ↦ ((s.balanced, s.complete), s.nothing_open)
  | inl r ↦
      let empty = ap length (no_queue limit x v q r.going) in
      let quiet = ap length q.no_flight in
      let counted = r.core.counted in
      let balanced = r.core.balanced in
      let none_open : open_count x.job.results ≡ 0 = omega (arith, length-flying x.in_flight) in
      ((omega arith, r.core.complete), none_open)
]

-- The start of a job.
module _ (registry : Option Registry) (now : ℕ) where
  filter-Core :
      (job : Job) (nodes flying_ : List Text)
      → Core job.results job.summary nodes flying_
      → Core
          (filter_nodes registry now job nodes).0.results
          (filter_nodes registry now job nodes).0.summary
          (filter_nodes registry now job nodes).1
          flying_
        × ((filter_nodes registry now job nodes).0.aborted ≡ job.aborted)
        × ((filter_nodes registry now job nodes).0.status ≡ job.status)
  unfolding filter_nodes skip_node computed_total
  filter-Core job [] flying_ c = (c, refl, refl)
  filter-Core job (node ∷ nodes) flying_ c =
      elim (Option-cases (skip_reason registry job.required_capabilities node)) [
        | inl stays_in ↦
            let (c', aborted, status) = filter-Core job nodes (node ∷ flying_) (
              regroup job.results job.summary (node ∷ nodes) flying_ nodes (node ∷ flying_)
                (λ n. omega (arith, occurrences-move n node nodes flying_)) (omega arith) c) in
            let (job', eligible) = filter_nodes registry now job nodes in
            rw (stays_in, filter_nodes)
              (
                regroup job'.results job'.summary eligible (node ∷ flying_) (node ∷ eligible)
                    flying_ (λ n. omega (arith, occurrences-move n node eligible flying_))
                    (omega arith) c',
                aborted,
                status,
              )
        | inr (why, skipped) ↦
            rw (skipped, filter_nodes)
              (filter-Core (skip_node job node why now) nodes flying_
                (close job.results job.summary node nodes flying_ c _ _ refl (omega arith) refl))
      ]

open_count-blank : (nodes : List Text) → open_count (blank_results nodes) ≡ length nodes
unfolding open_count
open_count-blank [] = refl
open_count-blank (n ∷ ns) = omega (arith, open_count-blank ns)

blank-IsOpenIn :
    (n : Text) (nodes : List Text) → 0 < occurrences n nodes → IsOpenIn n (blank_results nodes)
unfolding occurrences get
blank-IsOpenIn n [] h = absurd (omega arith)
blank-IsOpenIn n (m ∷ ms) h = elim (Text-discrete m n) [
  | yes e ↦ (blank m, ground arith, refl)
  | no e ↦ let (r, there, opened) = blank-IsOpenIn n ms (ground arith) in (r, ground arith, opened)
]

length-blank_results : (nodes : List Text) → length (blank_results nodes) ≡ length nodes
length-blank_results [] = refl
length-blank_results (n ∷ ns) = ap suc (length-blank_results ns)

keys-blank_results : (nodes : List Text) → map (λ r. r.0) (blank_results nodes) ≡ nodes
keys-blank_results [] = refl
keys-blank_results (n ∷ ns) = ap (◌∷◌ n) (keys-blank_results ns)

pool-Inv :
    (limit : ℕ) (p : Job × List Text)
    → 0 < limit
    → Core p.0.results p.0.summary p.1 []
    → p.0.aborted ≡ false
    → p.0.status ≡ FleetJobStatus.running
    → Inv limit (pool limit p)
pool-Inv limit (job, []) some_worker c going status = record {
  phase = inl (record { core = c; going = going; status = status });
  bounded = ground arith;
  attended = inl refl;
}
pool-Inv limit (job, n ∷ ns) some_worker c going status = record {
  phase = inl (record { core = c; going = going; status = status });
  bounded = ground arith;
  attended = inr (inr (ground arith));
}

-- A submitted job at its start.
module _ (registry : Option Registry) (limit now : ℕ) (r : Request) (id : Text) (nodes : List Text)
    (created : ℕ) (single : (n : Text) → occurrences n nodes ≤ 1) where
  abbrev begun : Job
  begun = start_job (new_job r id nodes created) now

  submitted-Core : Core begun.results begun.summary nodes []
  unfolding computed_total occurrences new_job
  submitted-Core = record {
    single = λ n. omega (arith, single n);
    are_open = λ n more. blank-IsOpenIn n nodes (omega arith);
    counted = omega (arith, open_count-blank nodes);
    balanced = omega (arith, open_count-blank nodes);
    complete = length-blank_results nodes;
  }

  pub begin_execution-Inv :
      0 < limit → Inv limit (begin_execution registry limit (new_job r id nodes created) now)
  unfolding begin_execution new_job
  begin_execution-Inv some_worker =
      let (c, going, status) = filter-Core registry now begun nodes [] submitted-Core in
      rw (keys-blank_results nodes)
        (pool-Inv limit (filter_nodes registry now begun nodes) some_worker c going status)

-- Every run of a submitted job, whatever the order of its events, that comes to rest ends without a
-- violation of the accounting or of the completeness: the numbers of the summary add up to the number
-- of the targets, and each target has a final result. The ids of the nodes are distinct, there is a
-- worker, and transports answer with no `pending` or `running`.
pub every_run_balances :
    (registry : Option Registry) (limit now : ℕ) (r : Request) (id : Text) (nodes : List Text)
    (created : ℕ)
    → ((n : Text) → occurrences n nodes ≤ 1)
    → 0 < limit
    → (y : Execution) (events later : ℕ)
    → Runs (begin_execution registry limit (new_job r id nodes created) now) y events
    → IsQuiet y
    → (finish_job y.job later
        ≡ finished (record (y.job) { finished_at = some later; status = terminal_status y.job }))
      × (open_count y.job.results ≡ 0)
every_run_balances registry limit now r id nodes created single some_worker y events later run q =
    let start = begin_execution-Inv registry limit now r id nodes created single some_worker in
    let (settled, none_open) = quiet-Settled limit y (Runs-Inv limit _ y events start run) q in
    (finish_job-Settled y.job later settled, none_open)
