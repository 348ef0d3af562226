-- ===== src/Fleet/Accounting.antt =====
-- The invariant of a running job of src/registry/fleet-scheduler.mjs, for every interleaving of its
-- workers, of their dispatches and of a cancellation.
use dsh_orbit.Common.{
  ℕ, zero, suc, ◌+◌, ◌-◌, ◌≤◌, ◌<◌, ◌≡◌, refl, ap, ◌∙◌, ◌⊎◌, inl, inr, true, false, none, some,
  List, [], ◌∷◌, arith, length, Option-cases, Bool-cases,
}
use mathlib.Core.Option.{some-injective}
use dsh_orbit.Common.Text.{Text, Text-discrete}
use dsh_orbit.Common.JsMap.{put}
use dsh_orbit.Fleet.{NodeTaskStatus, FleetJobStatus, NodeResult, Job, Outcome}
use dsh_orbit.Fleet.Dispatch.{Ending}
use dsh_orbit.Fleet.Execute.{
  Flight, Execution, is_open, is_failed, task_of, mark_running, claim_next, count_outcome,
  outcome_of, record_outcome, pick, settle, cancel_results, cancel_job, computed_total,
}
use dsh_orbit.Fleet.Counting.{
  open_count, occurrences, IsOpenIn, Core, computed_total-count_outcome, close, lift, regroup,
  head_open,
}

abbrev pub flying : List Flight → List Text
flying [] = []
flying (f ∷ fs) = f.node ∷ flying fs

pub length-flying : (fs : List Flight) → length (flying fs) ≡ length fs
length-flying [] = refl
length-flying (f ∷ fs) = ap suc (length-flying fs)

-- No cancellation yet: what is queued or in flight is what is open.
pub record Running (x : Execution) : Type 0 where
  pub core : Core x.job.results x.job.summary x.queue (flying x.in_flight)
  pub going : x.job.aborted ≡ false
  pub status : x.job.status ≡ FleetJobStatus.running

-- After a cancellation nothing is open.
pub record Stopped (x : Execution) : Type 0 where
  pub aborted : x.job.aborted ≡ true
  pub nothing_open : open_count x.job.results ≡ 0
  pub balanced : computed_total x.job.summary ≡ x.job.summary.total_targets
  pub complete : length x.job.results ≡ x.job.summary.total_targets
  pub status : x.job.status ≡ FleetJobStatus.failed

pub record Inv (limit : ℕ) (x : Execution) : Type 0 where
  pub phase : Running x ⊎ Stopped x
  pub bounded : x.free + length x.in_flight ≤ limit
  pub attended : (x.queue ≡ []) ⊎ (x.job.aborted ≡ true) ⊎ (0 < x.free + length x.in_flight)

task_of-open :
    (job : Job) (n : Text)
    → IsOpenIn n job.results
    → is_failed (task_of job n).outcome.status ≡ false
unfolding task_of
task_of-open job n (r, there, opened) = rw there (go r.outcome.status opened)
  where
    go : (s : NodeTaskStatus) → is_open s ≡ true → is_failed s ≡ false
    go NodeTaskStatus.failed h = cc
    go _ h = refl

mark_running-Running :
    (x : Execution) (node : Text) (queue : List Text) (others now : ℕ)
    → x.queue ≡ node ∷ queue
    → Running x
    → Running (record x {
      job = mark_running x.job node now;
      queue = queue;
      in_flight = record { node = node; start_ms = now } ∷ x.in_flight;
      free = others;
    })
unfolding mark_running
mark_running-Running x node queue others now e v = record {
  core = lift x.job.results x.job.summary node queue (flying x.in_flight) (rw e at (v.core)) _ refl;
  going = v.going;
  status = v.status;
}

claim_next_stopped :
    (x : Execution) (now others : ℕ) (node : Text) (queue : List Text)
    → x.job.aborted ≡ true
    → claim_next x now others (node ∷ queue) ≡ record x { free = others }
claim_next_stopped x now others node queue h = ground arith

claim_next_running :
    (x : Execution) (now others : ℕ) (node : Text) (queue : List Text)
    → x.job.aborted ≡ false
    → is_failed (task_of x.job node).outcome.status ≡ false
    → claim_next x now others (node ∷ queue) ≡ record x {
      job = mark_running x.job node now;
      queue = queue;
      in_flight = record { node = node; start_ms = now } ∷ x.in_flight;
      free = others;
    }
claim_next_running x now others node queue h k = ground arith

pub claim_next-Inv :
    (limit : ℕ) (x : Execution) (now others : ℕ) (queue : List Text)
    → x.queue ≡ queue
    → x.free ≡ suc others
    → Inv limit x
    → Inv limit (claim_next x now others queue)
claim_next-Inv limit x now others [] e f v = record {
  phase = elim v.phase [
    | inl r ↦ inl (record { core = r.core; going = r.going; status = r.status })
    | inr s ↦ inr (record {
      aborted = s.aborted;
      nothing_open = s.nothing_open;
      balanced = s.balanced;
      complete = s.complete;
      status = s.status;
    })
  ];
  bounded = omega (arith, v.bounded);
  attended = inl e;
}
claim_next-Inv limit x now others (node ∷ queue) e f v = elim v.phase [
  | inl r ↦
      let c = rw e at (r.core) in
      let free_node =
        task_of-open x.job node
          (head_open x.job.results x.job.summary node queue (flying x.in_flight) c) in
      rw (claim_next_running x now others node queue r.going free_node) (record {
        phase = inl (mark_running-Running x node queue others now e r);
        bounded = omega (arith, v.bounded);
        attended = inr (inr (omega arith));
      })
  | inr s ↦ rw (claim_next_stopped x now others node queue s.aborted) (record {
    phase = inr (record {
      aborted = s.aborted;
      nothing_open = s.nothing_open;
      balanced = s.balanced;
      complete = s.complete;
      status = s.status;
    });
    bounded = omega (arith, v.bounded);
    attended = inr (inl s.aborted);
  })
]

-- The flight that settles, and the others.
pub pick-occurrences :
    (p : ℕ) (fs : List Flight) (f : Flight) (gs : List Flight) (n : Text)
    → pick p fs ≡ some (f, gs)
    → (occurrences n (f.node ∷ flying gs) ≡ occurrences n (flying fs))
      × (length fs ≡ suc (length gs))
unfolding pick occurrences
pick-occurrences p [] f gs n h = cc
pick-occurrences zero (g ∷ fs) f gs n h = ground arith
pick-occurrences (suc p) (g ∷ fs) f gs n h = elim (Option-cases (pick p fs)) [
  | inl missing ↦ ground arith
  | inr ((f', gs'), found) ↦ ground (arith, pick-occurrences p fs f' gs' n found)
]

pub occurrences-move :
    (n a : Text) (xs ys : List Text)
    → occurrences n (a ∷ xs) + occurrences n ys ≡ occurrences n xs + occurrences n (a ∷ ys)
unfolding occurrences
occurrences-move n a xs ys = omega arith

record_outcome_going :
    (job : Job) (f : Flight) (o : Outcome) (now : ℕ)
    → job.aborted ≡ false
    → is_failed (task_of job f.node).outcome.status ≡ false
    → record_outcome job f o now ≡ record job {
      results =
          put Text-discrete f.node
            (record (task_of job f.node) {
              outcome = o;
              finished_at = some now;
              duration_ms = some (now - f.start_ms);
            })
            job.results;
      summary = count_outcome o.status job.summary;
    }
unfolding record_outcome
record_outcome_going job f o now h k = ground arith

record_outcome_aborted :
    (job : Job) (f : Flight) (o : Outcome) (now : ℕ)
    → job.aborted ≡ true
    → record_outcome job f o now ≡ job
unfolding record_outcome
record_outcome_aborted job f o now h = ground arith

abbrev pub settled : Execution → Flight → List Flight → Ending → ℕ → Execution
settled x f gs ending now = record x {
  job = record_outcome x.job f (outcome_of ending) now;
  in_flight = gs;
  free = x.free + 1;
}

pub settle_lem :
    (x y : Execution) (position now : ℕ) (ending : Ending)
    → settle x position ending now ≡ some y
    → (f : Flight) × (gs : List Flight) × (pick position x.in_flight ≡ some (f, gs))
      × (settled x f gs ending now ≡ y)
unfolding settle
settle_lem x y position now ending h = elim (Option-cases (pick position x.in_flight)) [
  | inl missing ↦ let bad : none ≡ some y = rw (missing, settle) at h in cc
  | inr ((f, gs), found) ↦ (f, gs, found, some-injective _ _ (rw (found, settle) at h))
]

settled-Running :
    (x : Execution) (f : Flight) (gs : List Flight) (ending : Ending) (now : ℕ)
    → is_open (outcome_of ending).status ≡ false
    → Core x.job.results x.job.summary (f.node ∷ x.queue) (flying gs)
    → Running x
    → Running (settled x f gs ending now)
settled-Running x f gs ending now shut c r =
    let open_node =
      task_of-open x.job f.node
        (head_open x.job.results x.job.summary f.node x.queue (flying gs) c) in
    let (one_more, same) = computed_total-count_outcome (outcome_of ending).status x.job.summary in
    let job = record_outcome_going x.job f (outcome_of ending) now r.going open_node in
    record {
      core =
          rw job
            (close x.job.results x.job.summary f.node x.queue (flying gs) c _ _ shut one_more same);
      going = rw job r.going;
      status = rw job r.status;
    }

settled-Stopped :
    (x : Execution) (f : Flight) (gs : List Flight) (ending : Ending) (now : ℕ)
    → Stopped x
    → Stopped (settled x f gs ending now)
settled-Stopped x f gs ending now s =
    let job = record_outcome_aborted x.job f (outcome_of ending) now s.aborted in
    record {
      aborted = rw job s.aborted;
      nothing_open = rw job s.nothing_open;
      balanced = rw job s.balanced;
      complete = rw job s.complete;
      status = rw job s.status;
    }

pub settle-Inv :
    (limit : ℕ) (x y : Execution) (position now : ℕ) (ending : Ending)
    → is_open (outcome_of ending).status ≡ false
    → settle x position ending now ≡ some y
    → Inv limit x
    → Inv limit y
settle-Inv limit x y position now ending shut h v =
    let (f, gs, found, same) = settle_lem x y position now ending h in
    let size = (pick-occurrences position x.in_flight f gs [] found).1 in
    rw (← same) (record {
      phase = elim v.phase [
        | inl r ↦ inl (
            settled-Running x f gs ending now shut
              (regroup x.job.results x.job.summary x.queue (flying x.in_flight) (f.node ∷ x.queue)
                (flying gs)
                (λ n. omega (
                  arith,
                  occurrences-move n f.node x.queue (flying gs),
                  (pick-occurrences position x.in_flight f gs n found).0,
                ))
                (omega (arith, length-flying gs, length-flying x.in_flight)) r.core)
              r)
        | inr s ↦ inr (settled-Stopped x f gs ending now s)
      ];
      bounded = omega (arith, v.bounded);
      attended = inr (inr (omega arith));
    })

cancel_results_lem :
    (results : List (Text × NodeResult)) (now : ℕ)
    → (open_count (cancel_results results now).0 ≡ 0)
      × ((cancel_results results now).1 ≡ open_count results)
      × (length (cancel_results results now).0 ≡ length results)
unfolding cancel_results open_count
cancel_results_lem [] now = (refl, refl, refl)
cancel_results_lem ((node, r) ∷ rs) now =
    let (none_left, number, size) = cancel_results_lem rs now in
    elim (Bool-cases (is_open r.outcome.status)) [
      | inl e ↦ rw (e, cancel_results) (ground arith, ground arith, ground arith)
      | inr e ↦ rw (e, cancel_results) (ground arith, ground arith, ground arith)
    ]

unfoldable pub cancel : Execution → ℕ → Execution
cancel x now = record x { job = (cancel_job x.job now).0 }

cancel_job_running :
    (job : Job) (now : ℕ)
    → job.status ≡ FleetJobStatus.running
    → (cancel_job job now).0 ≡ record job {
      aborted = true;
      status = FleetJobStatus.failed;
      finished_at = some now;
      results = (cancel_results job.results now).0;
      summary = record (job.summary) {
        failed = job.summary.failed + (cancel_results job.results now).1;
      };
    }
unfolding cancel_job
cancel_job_running job now h = ground arith

cancel_job_failed :
    (job : Job) (now : ℕ) → job.status ≡ FleetJobStatus.failed → (cancel_job job now).0 ≡ job
unfolding cancel_job
cancel_job_failed job now h = ground arith

cancel-Stopped : (x : Execution) (now : ℕ) → Running x → Stopped (cancel x now)
unfolding cancel computed_total
cancel-Stopped x now r =
    let (none_left, number, size) = cancel_results_lem x.job.results now in
    let job = cancel_job_running x.job now r.status in
    let balance = r.core.balanced in
    record {
      aborted = rw job refl;
      nothing_open = rw job none_left;
      balanced = rw job (omega arith);
      complete = rw job (size ∙ r.core.complete);
      status = rw job refl;
    }

pub cancel-Inv : (limit : ℕ) (x : Execution) (now : ℕ) → Inv limit x → Inv limit (cancel x now)
unfolding cancel
cancel-Inv limit x now v = elim v.phase [
  | inl r ↦
      let s = cancel-Stopped x now r in
      record { phase = inr s; bounded = v.bounded; attended = inr (inl s.aborted) }
  | inr s ↦ rw (cancel_job_failed x.job now s.status) v
]
