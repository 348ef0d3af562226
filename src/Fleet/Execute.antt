-- ===== src/Fleet/Execute.antt =====
-- `executeJob` and `cancelJob` of src/registry/fleet-scheduler.mjs. The workers of a job run as
-- interleaved steps: a free worker claims the next node, a dispatch that is in flight settles, a worker
-- without work leaves, the operator cancels, and the job ends when every worker has left.
use dsh_orbit.Common.{
  ℕ, zero, suc, ◌+◌, ◌-◌, min, Bool, true, false, ◌||◌, not, Option, none, some, List, [], ◌∷◌,
  ◌==◌, if◌then◌else◌, length, any, all, map,
}
use dsh_orbit.Common.Text.{Text, Text-discrete, text, text_eq}
use dsh_orbit.Common.JsMap.{get, put}
use dsh_orbit.Fleet.{
  NodeTaskStatus, FleetJobStatus, Outcome, bare, NodeResult, Summary, Job, NodeRow, Registry,
}
use dsh_orbit.Fleet.Dispatch.{Ending, resolves, throws}

abbrev pub blank : Text → NodeResult
blank node = record {
  node_id = node;
  outcome = bare NodeTaskStatus.pending none;
  reason = none;
  started_at = none;
  finished_at = none;
  duration_ms = none;
}

unfoldable pub has_all : List Text → Option (List Text) → Bool
has_all required none = false
has_all required (some stored) = all (λ req. any (text_eq req) stored) required

-- `none` if the row qualifies, the reason to skip the node otherwise.
unfoldable pub row_skip_reason : List Text → Option NodeRow → Option Text
unfolding has_all
row_skip_reason required none = some (text "target-not-found")
row_skip_reason required (some row) =
    if row.capabilities_stale
    then some (text "capability-evidence-stale")
    else if has_all required row.capabilities
    then none
    else some (text "lacks-capability")

unfoldable pub skip_reason : Option Registry → List Text → Text → Option Text
unfolding row_skip_reason
skip_reason registry [] node = none
skip_reason none (c ∷ cs) node = some (text "capability-evidence-stale")
skip_reason (some r) (c ∷ cs) node = row_skip_reason (c ∷ cs) (r.get_node_row node)

unfoldable pub skip_node : Job → Text → Text → ℕ → Job
skip_node job node why now = record job {
  results =
      put Text-discrete node
        (record (blank node) {
          outcome = bare NodeTaskStatus.skipped none;
          reason = some why;
          finished_at = some now;
        })
        job.results;
  summary = record (job.summary) { skipped = job.summary.skipped + 1 };
}

-- Step A: the nodes that stay eligible, in order, and the job with the others skipped. The step runs
-- before anything can abort the job.
unfoldable pub filter_nodes : Option Registry → ℕ → Job → List Text → Job × List Text
unfolding skip_reason skip_node
filter_nodes registry now job [] = (job, [])
filter_nodes registry now job (node ∷ nodes) =
    elim (skip_reason registry job.required_capabilities node) [
      | some why ↦ filter_nodes registry now (skip_node job node why now) nodes
      | none ↦ let (job', eligible) = filter_nodes registry now job nodes in (job', node ∷ eligible)
    ]

pub record Flight : Type 0 where
  pub node : Text
  pub start_ms : ℕ

-- A job with its queue, the dispatches in flight and the workers at the head of their loop.
pub record Execution : Type 0 where
  pub job : Job
  pub queue : List Text
  pub in_flight : List Flight
  pub free : ℕ

abbrev pub start_job : Job → ℕ → Job
start_job job now = record job { status = FleetJobStatus.running; started_at = some now }

abbrev pub pool : ℕ → Job × List Text → Execution
pool max_dispatches (job, eligible) = record {
  job = job;
  queue = eligible;
  in_flight = [];
  free = min max_dispatches (length eligible);
}

unfoldable pub begin_execution : Option Registry → ℕ → Job → ℕ → Execution
unfolding filter_nodes
begin_execution registry max_dispatches job now =
    pool max_dispatches (filter_nodes registry now (start_job job now) (map (λ r. r.0) job.results))

abbrev pub is_failed : NodeTaskStatus → Bool
is_failed NodeTaskStatus.failed = true
is_failed _ = false

abbrev pub or_blank : Text → Option NodeResult → NodeResult
or_blank node none = blank node
or_blank node (some r) = r

unfoldable pub task_of : Job → Text → NodeResult
task_of job node = or_blank node (get Text-discrete node job.results)

unfoldable pub mark_running : Job → Text → ℕ → Job
unfolding task_of
mark_running job node now = record job {
  results =
      put Text-discrete node
        (record (task_of job node) {
          outcome = record ((task_of job node).outcome) { status = NodeTaskStatus.running };
          started_at = some now;
        })
        job.results;
}

-- A free worker: it leaves if the queue is empty or the job is aborted. A node whose result has
-- failed is dropped, and the worker stays free.
abbrev pub claim_next : Execution → ℕ → ℕ → List Text → Execution
claim_next x now others [] = record x { free = others }
claim_next x now others (node ∷ queue) =
    if x.job.aborted
    then record x { free = others }
    else if is_failed (task_of x.job node).outcome.status
    then record x { queue = queue }
    else record x {
      job = mark_running x.job node now;
      queue = queue;
      in_flight = record { node = node; start_ms = now } ∷ x.in_flight;
      free = others;
    }

unfoldable pub claim : Execution → ℕ → Option Execution
unfolding mark_running task_of
claim x now = elim x.free [ zero ↦ none | suc others ↦ some (claim_next x now others x.queue) ]

-- The summary, by the outcome of a dispatch.
unfoldable pub count_outcome : NodeTaskStatus → Summary → Summary
count_outcome NodeTaskStatus.completed s = record s { completed = s.completed + 1 }
count_outcome NodeTaskStatus.timeout s = record s { timeout = s.timeout + 1 }
count_outcome NodeTaskStatus.unreachable s = record s { unreachable = s.unreachable + 1 }
count_outcome _ s = record s { failed = s.failed + 1 }

abbrev pub or_dispatch_error : Option Text → Text
or_dispatch_error none = text "dispatch-error"
or_dispatch_error (some code) = code

abbrev pub outcome_of : Ending → Outcome
outcome_of (resolves o) = o
outcome_of (throws code) = bare NodeTaskStatus.failed (some (or_dispatch_error code))

-- The answer of a dispatch is recorded, unless the job was aborted or the node has failed meanwhile.
unfoldable pub record_outcome : Job → Flight → Outcome → ℕ → Job
unfolding count_outcome task_of
record_outcome job flight o now =
    if job.aborted || is_failed (task_of job flight.node).outcome.status then job else record job {
      results =
          put Text-discrete flight.node
            (record (task_of job flight.node) {
              outcome = o;
              finished_at = some now;
              duration_ms = some (now - flight.start_ms);
            })
            job.results;
      summary = count_outcome o.status job.summary;
    }

abbrev pub settle_flight : Execution → Ending → ℕ → Option (Flight × List Flight) → Option Execution
settle_flight x ending now none = none
settle_flight x ending now (some (flight, others)) = some (record x {
  job = record_outcome x.job flight (outcome_of ending) now;
  in_flight = others;
  free = x.free + 1;
})

-- The flight at a position, and the other flights.
unfoldable pub pick : ℕ → List Flight → Option (Flight × List Flight)
pick n [] = none
pick zero (f ∷ fs) = some (f, fs)
pick (suc n) (f ∷ fs) = elim (pick n fs) [ none ↦ none | some (g, gs) ↦ some (g, f ∷ gs) ]

unfoldable pub settle : Execution → ℕ → Ending → ℕ → Option Execution
unfolding record_outcome pick
settle x position ending now = settle_flight x ending now (pick position x.in_flight)

abbrev pub is_open : NodeTaskStatus → Bool
is_open NodeTaskStatus.pending = true
is_open NodeTaskStatus.running = true
is_open _ = false

abbrev pub cancelled : NodeResult → ℕ → NodeResult
cancelled r now = record r {
  outcome = record (r.outcome) {
    status = NodeTaskStatus.failed;
    error = some (text "job-cancelled");
  };
  finished_at = some now;
}

-- The loop of `cancelJob` over the results: the new results, and how many it has failed.
unfoldable pub cancel_results : List (Text × NodeResult) → ℕ → List (Text × NodeResult) × ℕ
cancel_results [] now = ([], 0)
cancel_results ((node, r) ∷ rs) now =
    let (rs', n) = cancel_results rs now in
    if is_open r.outcome.status
    then ((node, cancelled r now) ∷ rs', n + 1)
    else ((node, r) ∷ rs', n)

abbrev pub is_over : FleetJobStatus → Bool
is_over FleetJobStatus.pending = false
is_over FleetJobStatus.running = false
is_over _ = true

unfoldable pub cancel_job : Job → ℕ → Job × Bool
unfolding cancel_results
cancel_job job now =
    if is_over job.status
    then (job, false)
    else let (results, n) = cancel_results job.results now in
      (
        record job {
          aborted = true;
          status = FleetJobStatus.failed;
          finished_at = some now;
          results = results;
          summary = record (job.summary) { failed = job.summary.failed + n };
        },
        true,
      )

abbrev pub is_failed_job : FleetJobStatus → Bool
is_failed_job FleetJobStatus.failed = true
is_failed_job _ = false

unfoldable pub terminal_status : Job → FleetJobStatus
terminal_status job =
    if job.aborted || is_failed_job job.status
    then FleetJobStatus.failed
    else if job.summary.completed == job.summary.total_targets
    then FleetJobStatus.completed
    else if job.summary.completed == 0
    then FleetJobStatus.failed
    else FleetJobStatus.partial

unfoldable pub computed_total : Summary → ℕ
computed_total s = s.completed + s.failed + s.skipped + s.timeout + s.unreachable

pub data Finish : Type 0 where
  finished : Job → Finish
  accounting_violation completeness_violation : Job → Finish

-- Step C, with the two checks that throw.
unfoldable pub finish_job : Job → ℕ → Finish
unfolding terminal_status computed_total
finish_job job now =
    let done : Job = record job { finished_at = some now; status = terminal_status job } in
    if not (computed_total job.summary == job.summary.total_targets)
    then accounting_violation (record done { status = FleetJobStatus.failed })
    else if not (length job.results == job.summary.total_targets)
    then completeness_violation (record done { status = FleetJobStatus.failed })
    else finished done
