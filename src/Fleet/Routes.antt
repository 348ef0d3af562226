-- ===== src/Fleet/Routes.antt =====
-- When a dispatch of src/registry/fleet-scheduler.mjs to a node on a reverse route is taken for done.
use dsh_orbit.Common.{
  ℕ, ◌*◌, ◌≤◌, ◌≡◌, inl, inr, Bool, true, Option, some, arith, ltb, Option-cases, Bool-cases,
}
use dsh_orbit.Common.Text.{Text, text, text_eq}
use dsh_orbit.Fleet.{NodeTaskStatus, NodeRow, Registry}
use dsh_orbit.Fleet.Dispatch.{
  SessionInfo, Managers, on_session, reverse_checks, dispatch_to_row, default_dispatch,
}

-- A session that is ready, with a channel.
abbrev pub Reaches : (Text → Option SessionInfo) → (Text → Text → Bool) → Text → Type 0
Reaches get_info has node =
    (info : SessionInfo) × (get_info node ≡ some info)
    × (info.route_ready ≡ true)
    × (has node info.reverse_session_id ≡ true)

module _ (get_info : Text → Option SessionInfo) (has : Text → Text → Bool) (node : Text) where
  abbrev both : Managers
  both = record { get_session_info = some get_info; has_channel_for_session = some has }

  on_session-Reaches :
      (info : SessionInfo)
      → get_info node ≡ some info
      → (on_session both node (some info)).status ≡ NodeTaskStatus.completed
      → Reaches get_info has node
  unfolding on_session
  on_session-Reaches info there h = elim (Bool-cases (info.route_ready)) [
    | inr unready ↦
        let bad : NodeTaskStatus.unreachable ≡ NodeTaskStatus.completed = rw unready at h in cc
    | inl ready ↦ elim (Bool-cases (has node info.reverse_session_id)) [
      | inr full ↦
          let bad : NodeTaskStatus.unreachable ≡ NodeTaskStatus.completed = rw (ready, full) at h in
          cc
      | inl free ↦ (info, there, ready, free)
    ]
  ]

  reverse_checks-Reaches :
      (reverse_checks both node).status ≡ NodeTaskStatus.completed → Reaches get_info has node
  unfolding reverse_checks on_session
  reverse_checks-Reaches h = elim (Option-cases (get_info node)) [
    | inl offline ↦
        let bad : NodeTaskStatus.unreachable ≡ NodeTaskStatus.completed = rw offline at h in cc
    | inr (info, there) ↦ on_session-Reaches info there (rw there at h)
  ]

  dispatch_to_row-checked :
      (payload_bytes : ℕ) (row : NodeRow)
      → text_eq row.route_mode (text "reverse") ≡ true
      → (dispatch_to_row both node payload_bytes row).status ≡ NodeTaskStatus.completed
      → (payload_bytes ≤ 32 * 1024) × Reaches get_info has node
  unfolding dispatch_to_row
  dispatch_to_row-checked payload_bytes row reverse h =
      elim (Bool-cases (ltb (32 * 1024) payload_bytes)) [
        | inl large ↦
            let bad : NodeTaskStatus.failed ≡ NodeTaskStatus.completed = rw (reverse, large) at h in
            cc
        | inr small ↦ (ground arith, reverse_checks-Reaches (rw (reverse, small) at h))
      ]

-- With both managers, a dispatch to a node on a reverse route completes only if the payload has at most
-- 32 KiB and the node has a session that is ready and a channel for it.
pub reverse_dispatch :
    (r : Registry) (row : NodeRow) (get_info : Text → Option SessionInfo) (has : Text → Text → Bool)
    (node : Text) (payload_bytes : ℕ)
    → r.get_node_row node ≡ some row
    → text_eq row.route_mode (text "reverse") ≡ true
    → (default_dispatch
        (some r)
        (record { get_session_info = some get_info; has_channel_for_session = some has })
        node
        payload_bytes).status
      ≡ NodeTaskStatus.completed
    → (payload_bytes ≤ 32 * 1024) × Reaches get_info has node
unfolding default_dispatch
reverse_dispatch r row get_info has node payload_bytes there reverse h =
    dispatch_to_row-checked get_info has node payload_bytes row reverse (rw there at h)
