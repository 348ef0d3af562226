-- ===== src/Fleet/Payload.antt =====
-- Payloads of src/registry/fleet-scheduler.mjs: JavaScript values, and which of them a job takes.
-- A number is a natural number or not finite.
use dsh_orbit.Common.{ℕ, ◌+◌, Bool, true, false, ◌&&◌, not, Option, none, some, ltb, if◌then◌else◌}
use dsh_orbit.Common.Text.{Text, text, text_eq}

mutual
  pub data JsValue : Type 0 where
    null undefined function symbol not_finite : JsValue
    boolean : Bool → JsValue
    number : ℕ → JsValue
    string : Text → JsValue
    array : JsItems → JsValue
    object : JsFields → JsValue

  pub data JsItems : Type 0 where
    nil : JsItems
    cons : JsValue → JsItems → JsItems

  pub data JsFields : Type 0 where
    end : JsFields
    field : Text → JsValue → JsFields → JsFields

-- `assertValidJsonPayload`, false where it throws: deeper than 64, a function or a symbol.
unfoldable mutual
  pub valid_json_payload : ℕ → JsValue → Bool
  valid_json_payload depth null = not (ltb 64 depth)
  valid_json_payload depth undefined = not (ltb 64 depth)
  valid_json_payload depth function = false
  valid_json_payload depth symbol = false
  valid_json_payload depth not_finite = not (ltb 64 depth)
  valid_json_payload depth (boolean b) = not (ltb 64 depth)
  valid_json_payload depth (number n) = not (ltb 64 depth)
  valid_json_payload depth (string s) = not (ltb 64 depth)
  valid_json_payload depth (array xs) = not (ltb 64 depth) && valid_items (depth + 1) xs
  valid_json_payload depth (object fs) = not (ltb 64 depth) && valid_fields (depth + 1) fs

  pub valid_items : ℕ → JsItems → Bool
  valid_items depth nil = true
  valid_items depth (cons v xs) = valid_json_payload depth v && valid_items depth xs

  pub valid_fields : ℕ → JsFields → Bool
  valid_fields depth end = true
  valid_fields depth (field k v fs) = valid_json_payload depth v && valid_fields depth fs

-- `JSON.parse(JSON.stringify(v))`: fields that are undefined go, items become null.
unfoldable mutual
  pub json_clone : JsValue → JsValue
  json_clone null = null
  json_clone undefined = undefined
  json_clone function = undefined
  json_clone symbol = undefined
  json_clone not_finite = null
  json_clone (boolean b) = boolean b
  json_clone (number n) = number n
  json_clone (string s) = string s
  json_clone (array xs) = array (clone_items xs)
  json_clone (object fs) = object (clone_fields fs)

  pub clone_items : JsItems → JsItems
  clone_items nil = nil
  clone_items (cons undefined xs) = cons null (clone_items xs)
  clone_items (cons function xs) = cons null (clone_items xs)
  clone_items (cons symbol xs) = cons null (clone_items xs)
  clone_items (cons v xs) = cons (json_clone v) (clone_items xs)

  pub clone_fields : JsFields → JsFields
  clone_fields end = end
  clone_fields (field k undefined fs) = clone_fields fs
  clone_fields (field k function fs) = clone_fields fs
  clone_fields (field k symbol fs) = clone_fields fs
  clone_fields (field k v fs) = field k (json_clone v) (clone_fields fs)

-- `payload?.key`
unfoldable pub find_field : Text → JsFields → Option JsValue
find_field k end = none
find_field k (field j v fs) = if text_eq j k then some v else find_field k fs

unfoldable pub get_field : Text → JsValue → Option JsValue
unfolding find_field
get_field k (object fs) = find_field k fs
get_field k _ = none

-- A field that is a number greater than 0.
abbrev pub positive : Option JsValue → Option ℕ
positive (some (number n)) = if ltb 0 n then some n else none
positive _ = none

unfoldable pub payload_timeout : JsValue → Option ℕ
unfolding get_field
payload_timeout v = positive (get_field (text "timeoutMs") v)
