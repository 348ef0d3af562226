-- ===== src/Fleet/Scrub.antt =====
-- `isSensitiveKey` and `scrubSensitiveCredentials` of src/registry/fleet-scheduler.mjs. The patterns of
-- `scrubString` are an argument; `to_lower` is exact on ASCII, and no other letter but the Kelvin sign
-- has a lower case that stands in the words below.
use dsh_orbit.Common.{
  ◌≡◌, refl, ◌⊎◌, inl, inr, Bool, true, false, ◌||◌, List, [], ◌∷◌, if◌then◌else◌, any, Bool-cases,
}
use dsh_orbit.Common.Text.{Text, text, text_eq, to_lower, starts_with}
use mathlib.Core.List.{reverse}
use dsh_orbit.Fleet.Payload.{
  JsValue, string, array, object, JsItems, nil, cons, JsFields, end, field,
}

unfoldable pub contains : Text → Text → Bool
contains s [] = starts_with s []
contains s (c ∷ t) = starts_with s (c ∷ t) || contains s t

unfoldable pub ends_with : Text → Text → Bool
ends_with s t = starts_with (reverse s) (reverse t)

abbrev harmless_ids : List Text
harmless_ids =
    text "keyid"
    ∷ text "tokenid"
    ∷ text "nodeid"
    ∷ text "requestid"
    ∷ text "currentkeyid"
    ∷ text "newkeyid"
    ∷ []

abbrev harmless_words : List Text
harmless_words =
    text "monkey"
    ∷ text "hockey"
    ∷ text "author"
    ∷ text "authority"
    ∷ text "routeauthority"
    ∷ text "route_authority"
    ∷ text "sessioncount"
    ∷ text "session_count"
    ∷ text "sessionstate"
    ∷ text "session_state"
    ∷ []

abbrev sensitive_parts : List Text
sensitive_parts =
    text "secret"
    ∷ text "password"
    ∷ text "passwd"
    ∷ text "token"
    ∷ text "apikey"
    ∷ text "api_key"
    ∷ text "api-key"
    ∷ text "credential"
    ∷ text "privatekey"
    ∷ text "private_key"
    ∷ text "private-key"
    ∷ text "session"
    ∷ text "cookie"
    ∷ text "csrf"
    ∷ []

unfoldable pub is_sensitive_lower : Text → Bool
unfolding ends_with contains starts_with text_eq
is_sensitive_lower lower =
    if any (text_eq lower) harmless_ids
    then false
    else if any (text_eq lower) harmless_words
    then false
    else any (λ part. contains part lower) sensitive_parts
      || text_eq lower (text "key")
      || ends_with (text "_key") lower
      || ends_with (text "-key") lower
      || text_eq lower (text "auth")
      || text_eq lower (text "authorization")
      || starts_with (text "auth") lower
      || ends_with (text "auth") lower

unfoldable pub is_sensitive_key : Text → Bool
unfolding is_sensitive_lower to_lower
is_sensitive_key k = is_sensitive_lower (to_lower k)

abbrev pub redacted : JsValue
redacted = string (text "[REDACTED]")

module _ (scrub_string : Text → Text) where
  unfoldable mutual
    pub scrub_sensitive_credentials : JsValue → JsValue
    scrub_sensitive_credentials (string s) = string (scrub_string s)
    scrub_sensitive_credentials (array xs) = array (scrub_items xs)
    scrub_sensitive_credentials (object fs) = object (scrub_fields fs)
    scrub_sensitive_credentials v = v

    pub scrub_items : JsItems → JsItems
    scrub_items nil = nil
    scrub_items (cons v xs) = cons (scrub_sensitive_credentials v) (scrub_items xs)

    pub scrub_fields : JsFields → JsFields
    scrub_fields end = end
    scrub_fields (field k v fs) =
        let rest = scrub_fields fs in
        let inner = scrub_sensitive_credentials v in
        field k (if is_sensitive_key k then redacted else inner) rest

-- Every field with a sensitive key, at every depth, is redacted.
mutual
  pub IsClean : JsValue → Type 0
  IsClean (array xs) = AreClean xs
  IsClean (object fs) = FieldsClean fs
  IsClean _ = Unit

  pub AreClean : JsItems → Type 0
  AreClean nil = Unit
  AreClean (cons v xs) = IsClean v × AreClean xs

  pub FieldsClean : JsFields → Type 0
  FieldsClean end = Unit
  FieldsClean (field k v fs) =
      (((is_sensitive_key k ≡ true) × (v ≡ redacted)) ⊎ ((is_sensitive_key k ≡ false) × IsClean v))
      × FieldsClean fs

module _ (scrub_string : Text → Text) where
  mutual
    unfolding scrub_sensitive_credentials IsClean

    scrub-IsClean : (v : JsValue) → IsClean (scrub_sensitive_credentials scrub_string v)
    scrub-IsClean (array xs) = scrub-AreClean xs
    scrub-IsClean (object fs) = scrub-FieldsClean fs
    scrub-IsClean _ = tt

    scrub-AreClean : (xs : JsItems) → AreClean (scrub_items scrub_string xs)
    scrub-AreClean nil = tt
    scrub-AreClean (cons v xs) = (scrub-IsClean v, scrub-AreClean xs)

    scrub-FieldsClean : (fs : JsFields) → FieldsClean (scrub_fields scrub_string fs)
    scrub-FieldsClean end = tt
    scrub-FieldsClean (field k v fs) = elim (Bool-cases (is_sensitive_key k)) [
      | inl e ↦ rw e (inl (refl, refl), scrub-FieldsClean fs)
      | inr e ↦ rw e (inr (refl, scrub-IsClean v), scrub-FieldsClean fs)
    ]

-- What the scrubber returns has no sensitive key, at any depth, with another value than `[REDACTED]`.
pub scrubbed-IsClean :
    (scrub_string : Text → Text) (v : JsValue)
    → IsClean (scrub_sensitive_credentials scrub_string v)
scrubbed-IsClean scrub_string v = scrub-IsClean scrub_string v
