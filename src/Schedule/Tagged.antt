-- ===== src/Schedule/Tagged.antt =====
-- The job that `dispatchScheduleRun` of src/registry/schedule-engine.mjs submits carries the schedule's id, where
-- `hasActiveJobForSchedule` of src/registry/fleet-scheduler.mjs reads it.
use dsh_orbit.Common.{
  ℕ, ◌≡◌, refl, sym, ap, ◌∙◌, inl, inr, true, false, Option, some, map, List, [], ◌∷◌, Bool-cases,
  Option-cases, arith,
}
use dsh_orbit.Common.Text.{Text, text, text_eq}
use dsh_orbit.Flows.Scope.{text_eq→eq}
use dsh_orbit.Fleet.{Job, Registry}
use dsh_orbit.Fleet.Payload.{
  JsValue, string, JsFields, end, field, clone_fields, json_clone, find_field, get_field,
}
use dsh_orbit.Fleet.Execute.{skip_reason, skip_node, start_job, filter_nodes, begin_execution}
use dsh_orbit.Schedule.{Schedule}
use dsh_orbit.Schedule.Dispatch.{set_field, fields_of, tagged_payload}

-- The field of a cloned object.
abbrev cloned : Text → JsFields → Option JsValue
cloned k fs = find_field k (clone_fields fs)

cloned-string :
    (k j : Text) (t : Text) (fs : JsFields)
    → text_eq j k ≡ true
    → cloned k (field j (string t) fs) ≡ some (string t)
unfolding find_field clone_fields
cloned-string k j t fs h = rw h refl

cloned-other :
    (k j : Text) (w : JsValue) (fs : JsFields)
    → text_eq j k ≡ false
    → cloned k (field j w fs) ≡ cloned k fs
unfolding find_field clone_fields
cloned-other k j JsValue.undefined fs h = refl
cloned-other k j JsValue.function fs h = refl
cloned-other k j JsValue.symbol fs h = refl
cloned-other k j JsValue.null fs h = rw h refl
cloned-other k j JsValue.not_finite fs h = rw h refl
cloned-other k j (JsValue.boolean b) fs h = rw h refl
cloned-other k j (JsValue.number n) fs h = rw h refl
cloned-other k j (JsValue.string s) fs h = rw h refl
cloned-other k j (JsValue.array xs) fs h = rw h refl
cloned-other k j (JsValue.object gs) fs h = rw h refl

cloned-cong :
    (k j : Text) (w : JsValue) (fs gs : JsFields)
    → cloned k fs ≡ cloned k gs
    → cloned k (field j w fs) ≡ cloned k (field j w gs)
unfolding find_field clone_fields
cloned-cong k j JsValue.undefined fs gs h = h
cloned-cong k j JsValue.function fs gs h = h
cloned-cong k j JsValue.symbol fs gs h = h
cloned-cong k j JsValue.null fs gs h = rw h refl
cloned-cong k j JsValue.not_finite fs gs h = rw h refl
cloned-cong k j (JsValue.boolean b) fs gs h = rw h refl
cloned-cong k j (JsValue.number n) fs gs h = rw h refl
cloned-cong k j (JsValue.string s) fs gs h = rw h refl
cloned-cong k j (JsValue.array xs) fs gs h = rw h refl
cloned-cong k j (JsValue.object os) fs gs h = rw h refl

pub text_eq_same : (s : Text) → text_eq s s ≡ true
unfolding text_eq
text_eq_same [] = refl
text_eq_same (c ∷ s) = ground (arith, text_eq_same s)

cloned-set : (k t : Text) (fs : JsFields) → cloned k (set_field k (string t) fs) ≡ some (string t)
unfolding set_field
cloned-set k t end = cloned-string k k t end (text_eq_same k)
cloned-set k t (field j w fs) = elim (Bool-cases (text_eq j k)) [
  | inl e ↦ rw e (cloned-string k j t fs e)
  | inr e ↦ rw e (cloned-other k j w (set_field k (string t) fs) e ∙ cloned-set k t fs)
]

cloned-set_other :
    (k i t : Text) (fs : JsFields)
    → text_eq i k ≡ false
    → cloned k (set_field i (string t) fs) ≡ cloned k fs
unfolding set_field
cloned-set_other k i t end h = cloned-other k i (string t) end h
cloned-set_other k i t (field j w fs) h = elim (Bool-cases (text_eq j i)) [
  | inl e ↦
      let differs : text_eq j k ≡ false = ap (λ n. text_eq n k) (text_eq→eq j i e) ∙ h in
      rw e (cloned-other k j (string t) fs differs ∙ sym (cloned-other k j w fs differs))
  | inr e ↦ rw e (cloned-cong k j w (set_field i (string t) fs) fs (cloned-set_other k i t fs h))
]

differ : text_eq (text "_fleetScheduleRunId") (text "_fleetScheduleId") ≡ false
unfolding text_eq
differ = refl

-- The payload of the job carries the schedule's id, whatever the schedule's own payload is.
pub tagged_payload-carries :
    (s : Schedule) (run_id : Text)
    → get_field (text "_fleetScheduleId") (json_clone (tagged_payload s run_id))
      ≡ some (string s.schedule_id)
unfolding tagged_payload get_field json_clone
tagged_payload-carries s run_id =
    cloned-set_other (text "_fleetScheduleId") (text "_fleetScheduleRunId") run_id
      (set_field (text "_fleetScheduleId") (string s.schedule_id) (fields_of s.payload)) differ
    ∙ cloned-set (text "_fleetScheduleId") s.schedule_id (fields_of s.payload)

-- A job that is started keeps its id and its payload.
pub record IsOf (job x : Job) : Type 0 where
  pub same_id : x.job_id ≡ job.job_id
  pub same_payload : x.payload ≡ job.payload

filter_nodes-IsOf :
    (registry : Option Registry) (now : ℕ) (job : Job) (nodes : List Text)
    → IsOf job (filter_nodes registry now job nodes).0
unfolding filter_nodes skip_node
filter_nodes-IsOf registry now job [] = record { same_id = refl; same_payload = refl }
filter_nodes-IsOf registry now job (node ∷ nodes) =
    elim (Option-cases (skip_reason registry job.required_capabilities node)) [
      | inl stays_in ↦
          let rest = filter_nodes-IsOf registry now job nodes in
          rw (stays_in, filter_nodes)
            (record { same_id = rest.same_id; same_payload = rest.same_payload })
      | inr (why, skipped) ↦
          let rest = filter_nodes-IsOf registry now (skip_node job node why now) nodes in
          rw (skipped, filter_nodes)
            (record { same_id = rest.same_id; same_payload = rest.same_payload })
    ]

pub begin_execution-IsOf :
    (registry : Option Registry) (dispatches : ℕ) (job : Job) (now : ℕ)
    → IsOf job (begin_execution registry dispatches job now).job
unfolding begin_execution
begin_execution-IsOf registry dispatches job now =
    let filtered =
      filter_nodes-IsOf registry now (start_job job now) (map (λ r. r.0) job.results) in
    record { same_id = filtered.same_id; same_payload = filtered.same_payload }
