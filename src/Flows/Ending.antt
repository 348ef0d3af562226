-- ===== src/Flows/Ending.antt =====
-- `endFlow` of src/registry/flow-tracker.mjs keeps the accounts.
use dsh_orbit.Common.{
  ◌+◌, ◌<◌, ◌≡◌, ◌≢◌, ◌⊎◌, inl, inr, some, List, arith, length, ite, if_pos, if_neg,
}
use dsh_orbit.Common.Text.{Text, Text-discrete}
use dsh_orbit.Common.JsMap.{get, put, remove, get-put, get-remove}
use dsh_orbit.Common.JsMap.Keys.{
  put-Distinct, remove-Distinct, length-remove, total, total-put, total-remove, size_of,
}
use dsh_orbit.Flows.{or_empty, drop_flow}
use dsh_orbit.Flows.Accounting.{Flows, Accounts, nil_of_length}

-- The end of a flow, where `s` is the set of its node.
module _ (active : List (Text × Flows)) (owner : List (Text × Text)) (node flow : Text)
    (v : Accounts active owner) (held : get Text-discrete flow owner ≡ some node) (s : Flows)
    (found : get Text-discrete node active ≡ some s) where
  abbrev left : Flows
  left = remove Text-discrete flow s

  drop_flow_cases :
      ((length left ≡ 0) × (drop_flow node flow active ≡ remove Text-discrete node active))
      ⊎ ((0 < length left) × (drop_flow node flow active ≡ put Text-discrete node left active))
  unfolding drop_flow
  drop_flow_cases = ground arith

  set_after_drop :
      (n : Text)
      → or_empty (get Text-discrete n (drop_flow node flow active))
        ≡ ite (Text-discrete node n) left (or_empty (get Text-discrete n active))
  set_after_drop n = elim drop_flow_cases [
    | inl (empty, gone) ↦
        rw gone (ground (arith, get-remove Text-discrete node n active, nil_of_length left empty))
    | inr (pos, kept) ↦ rw kept (ground (arith, get-put Text-discrete node n left active))
  ]

  sizes :
      (length left + 1 ≡ length s)
      × (size_of Text-discrete (get Text-discrete node active) ≡ length s)
  sizes =
      let e = v.owned flow node held in
      let d = v.sets_distinct node in
      (length-remove Text-discrete flow tt s (rw found at d) (rw found at e), rw found)

  drop-counted :
      total Text-discrete (drop_flow node flow active) ≡ length (remove Text-discrete flow owner)
  drop-counted =
      let (one_less, size) = sizes in
      let owners = length-remove Text-discrete flow node owner v.flows_distinct held in
      elim drop_flow_cases [
        | inl (empty, gone) ↦
            rw gone
              (omega (arith, total-remove Text-discrete node active v.nodes_distinct, v.counted))
        | inr (pos, kept) ↦
            rw kept (omega (arith, total-put Text-discrete node left active, v.counted))
      ]

  drop-owned :
      (f n : Text)
      → get Text-discrete f (remove Text-discrete flow owner) ≡ some n
      → get Text-discrete f (or_empty (get Text-discrete n (drop_flow node flow active))) ≡ some tt
  drop-owned f n h =
      let had : get Text-discrete f owner ≡ some n =
        ground (arith, get-remove Text-discrete flow f owner) in
      let other : f ≢ flow = λ e. ground (arith, get-remove Text-discrete flow f owner) in
      elim (Text-discrete node n) [
        | yes same ↦
            let inside = v.owned f n had in
            rw (set_after_drop n, if_pos (Text-discrete node n) same)
              (ground (arith, get-remove Text-discrete flow f s))
        | no differs ↦
            rw (set_after_drop n, if_neg (Text-discrete node n) differs) (v.owned f n had)
      ]

  drop-owner_of :
      (f n : Text)
      → get Text-discrete f (or_empty (get Text-discrete n (drop_flow node flow active))) ≡ some tt
      → get Text-discrete f (remove Text-discrete flow owner) ≡ some n
  drop-owner_of f n h = elim (Text-discrete node n) [
    | yes same ↦
        let h' = rw (set_after_drop n, if_pos (Text-discrete node n) same) at h in
        ground (
          arith,
          get-remove Text-discrete flow f s,
          get-remove Text-discrete flow f owner,
          v.owner_of f n,
        )
    | no differs ↦
        let h' = rw (set_after_drop n, if_neg (Text-discrete node n) differs) at h in
        ground (arith, get-remove Text-discrete flow f owner, v.owner_of f n)
  ]

  pub drop-Accounts : Accounts (drop_flow node flow active) (remove Text-discrete flow owner)
  drop-Accounts = record {
    nodes_distinct = elim drop_flow_cases [
      | inl (empty, gone) ↦ rw gone (remove-Distinct Text-discrete node active v.nodes_distinct)
      | inr (pos, kept) ↦ rw kept (put-Distinct Text-discrete node left active v.nodes_distinct)
    ];
    flows_distinct = remove-Distinct Text-discrete flow owner v.flows_distinct;
    sets_distinct = λ n. rw (set_after_drop n) (elim (Text-discrete node n) [
      | yes same ↦
          let d = v.sets_distinct node in
          rw (if_pos (Text-discrete node n) same)
            (remove-Distinct Text-discrete flow s (rw found at d))
      | no other ↦ rw (if_neg (Text-discrete node n) other) (v.sets_distinct n)
    ]);
    owned = drop-owned;
    owner_of = drop-owner_of;
    never_empty = λ n t e. elim drop_flow_cases [
      | inl (empty, gone) ↦
          let e' = rw gone at e in
          ground (arith, get-remove Text-discrete node n active, v.never_empty n t)
      | inr (pos, kept) ↦
          let e' = rw kept at e in
          ground (arith, get-put Text-discrete node n left active, v.never_empty n t)
    ];
    counted = drop-counted;
  }
