-- ===== src/Flows/Accounting.antt =====
-- The two maps of src/registry/flow-tracker.mjs agree, and the counts of flows are right.
use dsh_orbit.Common.{
  ℕ, ◌≤◌, ◌<◌, ◌≡◌, refl, inl, inr, Option, none, some, List, [], ◌∷◌, arith, length, Option-cases,
  ite, if_pos, if_neg,
}
use dsh_orbit.Common.Text.{Text, Text-discrete}
use dsh_orbit.Common.JsMap.{get, put, get-put, length-put_new}
use dsh_orbit.Common.JsMap.Keys.{Distinct, put-Distinct, total, total-put, size_of}
use dsh_orbit.Flows.{Tracker, Limit, at, infinity, or_empty}

abbrev pub Flows : Type 0
Flows = List (Text × Unit {0})

abbrev pub WithinLimit : ℕ → Limit → Type 0
WithinLimit n infinity = Unit
WithinLimit n (at m) = n ≤ m

-- What is to hold between calls, over the two maps.
pub record Accounts (active : List (Text × Flows)) (owner : List (Text × Text)) : Type 0 where
  pub nodes_distinct : Distinct Text-discrete active
  pub flows_distinct : Distinct Text-discrete owner
  pub sets_distinct :
      (node : Text) → Distinct Text-discrete (or_empty (get Text-discrete node active))
  pub owned :
      (flow node : Text)
      → get Text-discrete flow owner ≡ some node
      → get Text-discrete flow (or_empty (get Text-discrete node active)) ≡ some tt
  pub owner_of :
      (flow node : Text)
      → get Text-discrete flow (or_empty (get Text-discrete node active)) ≡ some tt
      → get Text-discrete flow owner ≡ some node
  pub never_empty :
      (node : Text) (s : Flows) → get Text-discrete node active ≡ some s → 0 < length s
  pub counted : total Text-discrete active ≡ length owner

abbrev pub Inv : Tracker → Type 0
Inv t = Accounts t.active_flows_by_node t.flow_to_node

pub size_of-or_empty : (o : Option Flows) → size_of Text-discrete o ≡ length (or_empty o)
size_of-or_empty none = refl
size_of-or_empty (some s) = refl

pub length-put_pos : (k : Text) (s : Flows) → 0 < length (put Text-discrete k tt s)
unfolding put
length-put_pos k [] = omega arith
length-put_pos k ((j, w) ∷ s) = ground arith

module _ (active : List (Text × Flows)) (owner : List (Text × Text)) (node flow : Text)
    (v : Accounts active owner) (fresh : get Text-discrete flow owner ≡ none) where
  pub not_listed :
      (n : Text) → get Text-discrete flow (or_empty (get Text-discrete n active)) ≡ none
  not_listed n =
      elim (Option-cases (get Text-discrete flow (or_empty (get Text-discrete n active)))) [
        | inl missing ↦ missing
        | inr (u, found) ↦ let e = v.owner_of flow n found in cc
      ]

  add-counted :
      total Text-discrete (
        put Text-discrete node
          (put Text-discrete flow tt (or_empty (get Text-discrete node active)))
          active)
      ≡ length (put Text-discrete flow node owner)
  add-counted = omega (
    arith,
    total-put Text-discrete node
        (put Text-discrete flow tt (or_empty (get Text-discrete node active))) active,
    size_of-or_empty (get Text-discrete node active),
    length-put_new Text-discrete flow tt _ (not_listed node),
    length-put_new Text-discrete flow node owner fresh,
    v.counted,
  )

  set_after_add : Text → Flows
  set_after_add n = or_empty (
      get Text-discrete n (
        put Text-discrete node
          (put Text-discrete flow tt (or_empty (get Text-discrete node active))) active))

  set_after_add_lem :
      (n : Text)
      → set_after_add n
        ≡ ite
            (Text-discrete node n)
            (put Text-discrete flow tt (or_empty (get Text-discrete node active)))
            (or_empty (get Text-discrete n active))
  unfolding set_after_add
  set_after_add_lem n = ground (
    arith,
    get-put Text-discrete node n
        (put Text-discrete flow tt (or_empty (get Text-discrete node active))) active,
  )

  add-owned :
      (f n : Text)
      → get Text-discrete f (put Text-discrete flow node owner) ≡ some n
      → get Text-discrete f (set_after_add n) ≡ some tt
  add-owned f n h = elim (Text-discrete node n) [
    | yes same ↦
        rw (set_after_add_lem n, if_pos (Text-discrete node n) same)
          (ground (
            arith,
            get-put Text-discrete flow f tt (or_empty (get Text-discrete node active)),
            get-put Text-discrete flow f node owner,
            v.owned f n,
          ))
    | no other ↦
        rw (set_after_add_lem n, if_neg (Text-discrete node n) other)
          (ground (arith, get-put Text-discrete flow f node owner, v.owned f n))
  ]

  add-owner_of :
      (f n : Text)
      → get Text-discrete f (set_after_add n) ≡ some tt
      → get Text-discrete f (put Text-discrete flow node owner) ≡ some n
  add-owner_of f n h = elim (Text-discrete node n) [
    | yes same ↦
        let h' = rw (set_after_add_lem n, if_pos (Text-discrete node n) same) at h in
        ground (
          arith,
          get-put Text-discrete flow f tt (or_empty (get Text-discrete node active)),
          get-put Text-discrete flow f node owner,
          v.owner_of f n,
        )
    | no other ↦
        let h' = rw (set_after_add_lem n, if_neg (Text-discrete node n) other) at h in
        ground (arith, get-put Text-discrete flow f node owner, v.owner_of f n, not_listed n)
  ]

  pub add-Accounts :
      Accounts
        (put Text-discrete node
          (put Text-discrete flow tt (or_empty (get Text-discrete node active)))
          active)
        (put Text-discrete flow node owner)
  unfolding set_after_add
  add-Accounts = record {
    nodes_distinct = put-Distinct Text-discrete node _ active v.nodes_distinct;
    flows_distinct = put-Distinct Text-discrete flow node owner v.flows_distinct;
    sets_distinct = λ n. rw (set_after_add_lem n) (elim (Text-discrete node n) [
      | yes same ↦
          rw (if_pos (Text-discrete node n) same)
            (put-Distinct Text-discrete flow tt _ (v.sets_distinct node))
      | no other ↦ rw (if_neg (Text-discrete node n) other) (v.sets_distinct n)
    ]);
    owned = add-owned;
    owner_of = add-owner_of;
    never_empty = λ n s e. ground (
      arith,
      get-put Text-discrete node n
          (put Text-discrete flow tt (or_empty (get Text-discrete node active))) active,
      length-put_pos flow (or_empty (get Text-discrete node active)),
      v.never_empty n s,
    );
    counted = add-counted;
  }

pub set_held :
    (active : List (Text × Flows)) (owner : List (Text × Text)) (node flow : Text)
    → Accounts active owner
    → get Text-discrete flow owner ≡ some node
    → (s : Flows) × (get Text-discrete node active ≡ some s)
unfolding get
set_held active owner node flow v held = elim (Option-cases (get Text-discrete node active)) [
  | inl missing ↦
      let e = v.owned flow node held in
      let bad : get Text-discrete flow [] ≡ some tt = rw missing at e in cc
  | inr (s, found) ↦ (s, found)
]

pub nil_of_length : (s : Flows) → length s ≡ 0 → s ≡ []
nil_of_length [] h = refl
nil_of_length (x ∷ s) h = absurd (omega arith)
