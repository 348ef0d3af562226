-- ===== src/Flows/Scope.antt =====
-- What `validateTargetScope` of src/registry/flow-tracker.mjs accepts.
use dsh_orbit.Common.{
  ℕ, ◌≡◌, refl, true, false, some, [], ◌∷◌, ◌++◌, arith, length, all, any, Option-cases, inl, inr,
  ◌==◌,
}
use dsh_orbit.Common.Text.{Text, trim, text, text_eq, starts_with, includes, to_lower, is_space}
use dsh_orbit.Common.Text.Trim.{trim-no_space}
use dsh_orbit.Flows.{
  is_hex, hex_tail, strip_node, matches_node_id, Target, string, nothing, other, in_scope,
  is_broadcast, normalized, scope_of_trimmed, validate_target_scope,
}

-- The text is `node_` and 32 lower-case hexadecimal digits.
abbrev pub IsNodeId : Text → Type 0
IsNodeId n = (h : Text) × (n ≡ text "node_" ++ h) × (length h ≡ 32) × (all is_hex h ≡ true)

pub text_eq→eq : (s t : Text) → text_eq s t ≡ true → s ≡ t
unfolding text_eq
text_eq→eq [] [] h = refl
text_eq→eq [] (b ∷ t) h = cc
text_eq→eq (a ∷ s) [] h = cc
text_eq→eq (a ∷ s) (b ∷ t) h = ground (arith, text_eq→eq s t)

strip_node_lem : (n h : Text) → strip_node n ≡ some h → n ≡ text "node_" ++ h
unfolding strip_node
strip_node_lem (a ∷ b ∷ c ∷ d ∷ e ∷ s) h eq =
    ground (arith, text_eq→eq (a ∷ b ∷ c ∷ d ∷ e ∷ []) (text "node_"))
strip_node_lem [] h eq = cc
strip_node_lem _ h eq = cc

pub matches_node_id-IsNodeId : (n : Text) → matches_node_id n ≡ true → IsNodeId n
unfolding matches_node_id hex_tail
matches_node_id-IsNodeId n m = elim (Option-cases (strip_node n)) [
  | inl missing ↦ let bad : false ≡ true = rw (missing, matches_node_id) at m in cc
  | inr (h, found) ↦
      let m' : hex_tail h ≡ true = rw (found, matches_node_id) at m in
      (h, strip_node_lem n h found, ground arith, ground arith)
]

hex-plain :
    (c : ℕ)
    → is_hex c ≡ true
    → (is_space c ≡ false) × ((c == b',') ≡ false) × ((c == b' ') ≡ false) × ((c == b';') ≡ false)
unfolding is_hex is_space
hex-plain c h = ground arith

scope_of_trimmed-IsNodeId : (u n : Text) → scope_of_trimmed u ≡ in_scope n → IsNodeId n
unfolding scope_of_trimmed
scope_of_trimmed-IsNodeId [] n h = cc
scope_of_trimmed-IsNodeId (c ∷ u) n h =
    let (m, same) : (matches_node_id (normalized (c ∷ u)) ≡ true) × (normalized (c ∷ u) ≡ n) =
      (ground arith, ground arith) in
    rw (← same) (matches_node_id-IsNodeId (normalized (c ∷ u)) m)

pub hex-no_space : (h : Text) → all is_hex h ≡ true → any is_space h ≡ false
hex-no_space [] p = refl
hex-no_space (c ∷ h) p = ground (arith, hex-plain c, hex-no_space h)

module _ (sep : ℕ) (apart : (c : ℕ) → is_hex c ≡ true → (c == sep) ≡ false) where
  hex-includes : (h : Text) → all is_hex h ≡ true → includes sep h ≡ false
  unfolding includes
  hex-includes [] p = refl
  hex-includes (c ∷ h) p = ground (arith, apart c, hex-includes h)

node_id-accepted :
    (h : Text)
    → length h ≡ 32
    → all is_hex h ≡ true
    → scope_of_trimmed (text "node_" ++ h) ≡ in_scope (text "node_" ++ h)
unfolding scope_of_trimmed is_broadcast normalized matches_node_id strip_node hex_tail includes
    to_lower text_eq starts_with
node_id-accepted h len hex =
    let comma = hex-includes b',' (λ c p. (hex-plain c p).1) h hex in
    let space = hex-includes b' ' (λ c p. (hex-plain c p).2) h hex in
    let semi = hex-includes b';' (λ c p. (hex-plain c p).3) h hex in ground arith

-- Every target that is accepted is one node id.
pub validate_target_scope-IsNodeId :
    (target : Target) (n : Text) → validate_target_scope target ≡ in_scope n → IsNodeId n
unfolding validate_target_scope
validate_target_scope-IsNodeId nothing n h = cc
validate_target_scope-IsNodeId other n h = cc
validate_target_scope-IsNodeId (string s) n h = scope_of_trimmed-IsNodeId (trim s) n h

-- Every node id is accepted as it stands.
pub validate_target_scope_complete :
    (n : Text) → IsNodeId n → validate_target_scope (string n) ≡ in_scope n
unfolding validate_target_scope is_space
validate_target_scope_complete n (h, same, len, hex) =
    let clean = hex-no_space h hex in
    rw (same, trim-no_space (text "node_" ++ h) (ground arith)) (node_id-accepted h len hex)

-- `validateTargetScope` answers a node id and nothing else, and it accepts its own answers: they are
-- `node_` with 32 lower-case hexadecimal digits, and are answered again as they are.
pub validate_target_scope_idempotent :
    (target : Target) (n : Text)
    → validate_target_scope target ≡ in_scope n
    → IsNodeId n × (validate_target_scope (string n) ≡ in_scope n)
validate_target_scope_idempotent target n h =
    let id = validate_target_scope-IsNodeId target n h in (id, validate_target_scope_complete n id)
