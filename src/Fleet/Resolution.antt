-- ===== src/Fleet/Resolution.antt =====
-- What the target specifications of src/registry/fleet-scheduler.mjs resolve to.
use dsh_orbit.Common.{
  ◌+◌, ◌≤◌, ◌≡◌, refl, sym, ◌∙◌, inl, inr, true, false, ◌||◌, Option, List, [], ◌∷◌, ◌++◌, arith,
  any, Bool-cases, All,
}
use dsh_orbit.Common.Text.{Text, Text-discrete, text_eq, text}
use dsh_orbit.Flows.{Target, ScopeResult, in_scope, invalid_target_scope, validate_target_scope}
use dsh_orbit.Flows.Scope.{IsNodeId, validate_target_scope-IsNodeId}
use dsh_orbit.Fleet.{Registry}
use dsh_orbit.Fleet.Target.{
  NodeIds, star, no_array, array, Spec, spec, resolved, rejected, invalid_target_node,
  target_not_found, wildcard_prohibited, is_found, add_clean, resolve_explicit, explicit_mode,
  is_wildcard, validate_fleet_target_spec,
}
use dsh_orbit.Fleet.Counting.{occurrences, occurrences-head, occurrences-ne}

pub text_eq_self : (s : Text) → text_eq s s ≡ true
unfolding text_eq
text_eq_self [] = refl
text_eq_self (c ∷ s) = ground (arith, text_eq_self s)

occurrences-append_one :
    (n m : Text) (ns : List Text)
    → occurrences n (ns ++ m ∷ []) ≡ occurrences n (m ∷ []) + occurrences n ns
unfolding occurrences
occurrences-append_one n m [] = omega arith
occurrences-append_one n m (k ∷ ns) = omega (arith, occurrences-append_one n m ns)

not_any-occurrences :
    (n : Text) (ns : List Text) → any (text_eq n) ns ≡ false → occurrences n ns ≡ 0
unfolding occurrences
not_any-occurrences n [] h = refl
not_any-occurrences n (m ∷ ns) h = elim (Text-discrete m n) [
  | yes e ↦
      let same = text_eq_self n in
      let h' : text_eq n n || any (text_eq n) ns ≡ false = rw e at h in absurd (ground arith)
  | no e ↦ ground (arith, not_any-occurrences n ns)
]

-- The nodes that a specification names one by one.
pub record IsTargetSet (registry : Option Registry) (nodes : List Text) : Type 0 where
  pub single : (n : Text) → occurrences n nodes ≤ 1
  pub valid : All IsNodeId nodes
  pub present : All (λ n. is_found registry n ≡ true) nodes

All-append_one :
    (P : Text → Type 0) (n : Text) (ns : List Text) → All P ns → P n → All P (ns ++ n ∷ [])
All-append_one P n [] h p = (p, tt)
All-append_one P n (m ∷ ns) (q, h) p = (q, All-append_one P n ns h p)

add_clean-IsTargetSet :
    (registry : Option Registry) (n : Text) (clean : List Text)
    → IsNodeId n
    → is_found registry n ≡ true
    → IsTargetSet registry clean
    → IsTargetSet registry (add_clean n clean)
unfolding occurrences
add_clean-IsTargetSet registry n clean id found s = elim (Bool-cases (any (text_eq n) clean)) [
  | inl e ↦ rw e s
  | inr e ↦ rw e (record {
    single = λ m. elim (Text-discrete n m) [
      | yes same ↦
          let none_yet = not_any-occurrences n clean e in
          rw (← same)
            (omega (arith, occurrences-append_one n n clean, occurrences-head n n [] refl))
      | no differs ↦
          omega (arith, s.single m, occurrences-append_one m n clean, occurrences-ne m n [] differs)
    ];
    valid = All-append_one IsNodeId n clean s.valid id;
    present = All-append_one (λ m. is_found registry m ≡ true) n clean s.present found;
  })
]

-- One round of the loop: it ends, or it goes on with a node that is valid and found.
resolve_explicit_step :
    (registry : Option Registry) (raw : Target) (raws : List Target) (clean nodes : List Text)
    → resolve_explicit registry clean (raw ∷ raws) ≡ resolved nodes
    → (n : Text) × IsNodeId n
      × (is_found registry n ≡ true)
      × (resolve_explicit registry (add_clean n clean) raws ≡ resolved nodes)
unfolding resolve_explicit
resolve_explicit_step registry raw raws clean nodes h = go (validate_target_scope raw) refl h
  where
    go :
        (scope : ScopeResult)
        → validate_target_scope raw ≡ scope
        → elim scope [
          | invalid_target_scope ↦ rejected invalid_target_node
          | in_scope node ↦ elim (is_found registry node) [
            | false ↦ rejected target_not_found
            | true ↦ resolve_explicit registry (add_clean node clean) raws
          ]
        ]
          ≡ resolved nodes
        → (n : Text) × IsNodeId n
          × (is_found registry n ≡ true)
          × (resolve_explicit registry (add_clean n clean) raws ≡ resolved nodes)
    go invalid_target_scope e h' = cc
    go (in_scope n) e h' = elim (Bool-cases (is_found registry n)) [
      | inl found ↦ (n, validate_target_scope-IsNodeId raw n e, found, rw found at h')
      | inr missing ↦ let bad : rejected target_not_found ≡ resolved nodes = rw missing at h' in cc
    ]

resolve_explicit-IsTargetSet :
    (registry : Option Registry) (raws : List Target) (clean nodes : List Text)
    → IsTargetSet registry clean
    → resolve_explicit registry clean raws ≡ resolved nodes
    → IsTargetSet registry nodes
unfolding resolve_explicit
resolve_explicit-IsTargetSet registry [] clean nodes s h = ground arith
resolve_explicit-IsTargetSet registry (raw ∷ raws) clean nodes s h =
    let (n, id, found, rest) = resolve_explicit_step registry raw raws clean nodes h in
    resolve_explicit-IsTargetSet registry raws (add_clean n clean) nodes
      (add_clean-IsTargetSet registry n clean id found s) rest

empty-IsTargetSet : (registry : Option Registry) → IsTargetSet registry []
unfolding occurrences
empty-IsTargetSet registry = record { single = λ n. omega arith; valid = tt; present = tt }

explicit_mode-IsTargetSet :
    (registry : Option Registry) (ids : NodeIds) (nodes : List Text)
    → explicit_mode registry ids ≡ resolved nodes
    → IsTargetSet registry nodes
explicit_mode-IsTargetSet registry star nodes h = cc
explicit_mode-IsTargetSet registry no_array nodes h = cc
explicit_mode-IsTargetSet registry (array []) nodes h = cc
explicit_mode-IsTargetSet registry (array (t ∷ ts)) nodes h =
    resolve_explicit-IsTargetSet registry (t ∷ ts) [] nodes (empty-IsTargetSet registry) h

explicit_of :
    (registry : Option Registry) (s : Spec)
    → s.mode ≡ text "explicit"
    → is_wildcard s ≡ false
    → validate_fleet_target_spec registry (spec s) ≡ explicit_mode registry s.node_ids
unfolding validate_fleet_target_spec
explicit_of registry s mode tame =
    let same = text_eq_self (text "explicit") in
    let is_explicit : text_eq s.mode (text "explicit") ≡ true = rw mode same in
    rw (tame, is_explicit) refl

-- The nodes of a specification in the explicit mode that is accepted are distinct, each is `node_` and
-- 32 hexadecimal digits, and each is in the registry (if there is one) and no tombstone.
pub explicit_targets :
    (registry : Option Registry) (s : Spec) (nodes : List Text)
    → s.mode ≡ text "explicit"
    → validate_fleet_target_spec registry (spec s) ≡ resolved nodes
    → IsTargetSet registry nodes
unfolding validate_fleet_target_spec
explicit_targets registry s nodes mode h = elim (Bool-cases (is_wildcard s)) [
  | inl wild ↦ let bad : rejected wildcard_prohibited ≡ resolved nodes = rw wild at h in cc
  | inr tame ↦
      explicit_mode-IsTargetSet registry s.node_ids nodes
        (sym (explicit_of registry s mode tame) ∙ h)
]
