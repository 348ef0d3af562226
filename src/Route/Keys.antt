-- ===== src/Route/Keys.antt =====
-- `validateHubRouteKeySet` of src/registry/hub-route-keys.mjs. The reasons are left out, but for their kind.
use dsh_orbit.Common.{
  ℕ, not, Option, none, some, List, [], ◌∷◌, ◌++◌, ltb, leb, if◌then◌else◌, length, any,
}
use dsh_orbit.Common.Text.{Text, text_eq}
use dsh_orbit.Route.{matches_hex}

-- `overlapUntil`: null or undefined, no string or no time, or a time.
pub data Overlap : Type 0 where
  no_overlap no_time : Overlap
  until : ℕ → Overlap

-- A state that is none of these is `other`.
pub data HubKeyState : Type 0 where
  provisioned active rotating other : HubKeyState

-- An entry, `none` where it is no object; a blank key id or key stands for one that is no string.
pub record HubKey : Type 0 where
  pub key_id : Text
  pub public_key : Text
  pub state : HubKeyState
  pub overlap_until : Overlap

pub data KeySetError : Type 0 where
  no_array no_keys too_many_keys no_object bad_key_id bad_public_key key_id_mismatch : KeySetError
  duplicate_key_id duplicate_public_key bad_state overlap_given bad_overlap overlap_over :
      KeySetError
  bad_single bad_pair : KeySetError

pub data KeySet : Type 0 where
  valid_set : (form : ℕ) (keys : List HubKey) → KeySet
  invalid_set : KeySetError → KeySet

abbrev pub state_check : HubKeyState → Overlap → ℕ → Option KeySetError
state_check provisioned no_overlap now = none
state_check provisioned _ now = some overlap_given
state_check active no_overlap now = none
state_check active _ now = some overlap_given
state_check rotating (until t) now = if leb t now then some overlap_over else none
state_check rotating _ now = some bad_overlap
state_check other o now = some bad_state

-- The forms: one provisioned or active key; an active one with a provisioned or a rotating one.
abbrev pub single_form : HubKey → HubKeyState → KeySet
single_form k provisioned = valid_set 1 (k ∷ [])
single_form k active = valid_set 2 (k ∷ [])
single_form k _ = invalid_set bad_single

abbrev pub pair_form : HubKey → HubKey → HubKeyState → HubKeyState → KeySet
pair_form j k active provisioned = valid_set 3 (j ∷ k ∷ [])
pair_form j k provisioned active = valid_set 3 (j ∷ k ∷ [])
pair_form j k active rotating = valid_set 4 (j ∷ k ∷ [])
pair_form j k rotating active = valid_set 4 (j ∷ k ∷ [])
pair_form j k _ _ = invalid_set bad_pair

unfoldable pub form_of : List (Option HubKey) → KeySet
form_of (some k ∷ []) = single_form k k.state
form_of (some j ∷ some k ∷ []) = pair_form j k j.state k.state
form_of _ = invalid_set bad_pair

-- The checks of one entry, after the entries that were seen.
module _ (derive_key_id : Text → Text) where
  unfoldable pub entry_error : List HubKey → HubKey → ℕ → Option KeySetError
  unfolding matches_hex text_eq
  entry_error before k now =
      if not (matches_hex 32 k.key_id)
      then some bad_key_id
      else if not (matches_hex 64 k.public_key)
      then some bad_public_key
      else if not (text_eq (derive_key_id k.public_key) k.key_id)
      then some key_id_mismatch
      else if any (λ j. text_eq j.key_id k.key_id) before
      then some duplicate_key_id
      else if any (λ j. text_eq j.public_key k.public_key) before
      then some duplicate_public_key
      else state_check k.state k.overlap_until now

  unfoldable pub entries_error : List HubKey → List (Option HubKey) → ℕ → Option KeySetError
  unfolding entry_error
  entries_error before [] now = none
  entries_error before (none ∷ ks) now = some no_object
  entries_error before (some k ∷ ks) now = elim (entry_error before k now) [
    | some e ↦ some e
    | none ↦ entries_error (before ++ k ∷ []) ks now
  ]

  abbrev pub checked : List (Option HubKey) → Option KeySetError → KeySet
  checked ks (some e) = invalid_set e
  checked ks none = form_of ks

  -- `none` for a value that is no array.
  unfoldable pub validate_hub_route_key_set : Option (List (Option HubKey)) → ℕ → KeySet
  unfolding entries_error form_of
  validate_hub_route_key_set none now = invalid_set no_array
  validate_hub_route_key_set (some []) now = invalid_set no_keys
  validate_hub_route_key_set (some (k ∷ ks)) now =
      if ltb 2 (length (k ∷ ks))
      then invalid_set too_many_keys
      else checked (k ∷ ks) (entries_error [] (k ∷ ks) now)
