-- ===== src/Pairing/Shrinks.antt =====
-- What the calls of src/registry/pairing-code.mjs leave of the two maps of codes.
use dsh_orbit.Common.{
  ℕ, ◌≡◌, refl, sym, ◌∙◌, ◌⊎◌, inl, inr, none, some, [], ◌∷◌, arith, length, Option-cases,
  Bool-cases, ltb,
}
use dsh_orbit.Common.Text.{Text, Text-discrete, trim}
use dsh_orbit.Common.JsMap.{get, get-remove}
use dsh_orbit.Pairing.{
  Engine, PairingRecord, Timer, Draw, record_failure, check_ip_lockout, verify_code, look_up,
  redeem, destroy, find_record, fire_timer, check_stat, forget_failures, Lock, locked, unlocked,
  after_lock,
}

-- Codes have six characters and tokens 48, so that no text is both; each record stands under its own
-- code and its own token.
pub record Inv (e : Engine) : Type 0 where
  pub codes_linked :
      (k : Text) (r : PairingRecord)
      → get Text-discrete k e.codes ≡ some r
      → (r.code ≡ k) × (length k ≡ 6) × (length r.pairing_token ≡ 48)
  pub tokens_linked :
      (k : Text) (r : PairingRecord)
      → get Text-discrete k e.tokens ≡ some r
      → (r.pairing_token ≡ k) × (length k ≡ 48) × (length r.code ≡ 6)

abbrev pub IsDraw : Draw → Type 0
IsDraw d = (length d.code ≡ 6) × (length d.pairing_token ≡ 48)

-- What calls other than `generateCode` do to the two maps: entries only go.
pub record Shrinks (e f : Engine) : Type 0 where
  pub codes :
      (k : Text)
      → (get Text-discrete k f.codes ≡ get Text-discrete k e.codes)
        ⊎ (get Text-discrete k f.codes ≡ none)
  pub tokens :
      (k : Text)
      → (get Text-discrete k f.tokens ≡ get Text-discrete k e.tokens)
        ⊎ (get Text-discrete k f.tokens ≡ none)

pub Shrinks-Inv : (e f : Engine) → Shrinks e f → Inv e → Inv f
Shrinks-Inv e f s v = record {
  codes_linked =
      λ k r h. elim (s.codes k) [ inl same ↦ v.codes_linked k r (sym same ∙ h) | inr gone ↦ cc ];
  tokens_linked =
      λ k r h. elim (s.tokens k) [ inl same ↦ v.tokens_linked k r (sym same ∙ h) | inr gone ↦ cc ];
}

pub fire_timer-Shrinks : (e : Engine) (t : Timer) → Shrinks e (fire_timer e t)
unfolding fire_timer
fire_timer-Shrinks e t = record {
  codes = λ k. ground (arith, get-remove Text-discrete t.code k e.codes);
  tokens = λ k. ground (arith, get-remove Text-discrete t.pairing_token k e.tokens);
}

record_failure-Shrinks : (e : Engine) (ip : Text) (now : ℕ) → Shrinks e (record_failure e ip now)
unfolding record_failure
record_failure-Shrinks e [] now = record { codes = λ k. inl refl; tokens = λ k. inl refl }
record_failure-Shrinks e (c ∷ ip) now = record { codes = λ k. inl refl; tokens = λ k. inl refl }

pub destroy-Shrinks : (e : Engine) (r : PairingRecord) → Shrinks e (destroy e r)
unfolding destroy
destroy-Shrinks e r = record {
  codes = λ k. ground (arith, get-remove Text-discrete r.code k e.codes);
  tokens = λ k. ground (arith, get-remove Text-discrete r.pairing_token k e.tokens);
}

pub forget_failures-Shrinks : (e : Engine) (ip : Text) → Shrinks e (forget_failures e ip)
unfolding forget_failures
forget_failures-Shrinks e [] = record { codes = λ k. inl refl; tokens = λ k. inl refl }
forget_failures-Shrinks e (c ∷ ip) = record { codes = λ k. inl refl; tokens = λ k. inl refl }

pub Shrinks-trans : (e f g : Engine) → Shrinks e f → Shrinks f g → Shrinks e g
Shrinks-trans e f g s t = record {
  codes = λ k. elim (t.codes k) [
    | inl same ↦ elim (s.codes k) [ inl same' ↦ inl (same ∙ same') | inr gone ↦ inr (same ∙ gone) ]
    | inr gone ↦ inr gone
  ];
  tokens = λ k. elim (t.tokens k) [
    | inl same ↦ elim (s.tokens k) [ inl same' ↦ inl (same ∙ same') | inr gone ↦ inr (same ∙ gone) ]
    | inr gone ↦ inr gone
  ];
}

pub check_ip_lockout-Shrinks :
    (e : Engine) (ip : Text) (now : ℕ) → Shrinks e (check_ip_lockout e ip now).0
unfolding check_ip_lockout check_stat
check_ip_lockout-Shrinks e [] now = record { codes = λ k. inl refl; tokens = λ k. inl refl }
check_ip_lockout-Shrinks e (c ∷ ip) now = record {
  codes = λ k. ground arith;
  tokens = λ k. ground arith;
}

pub look_up-Shrinks : (e : Engine) (k ip : Text) (now : ℕ) → Shrinks e (look_up e k ip now).0
unfolding look_up redeem
look_up-Shrinks e [] ip now = record_failure-Shrinks e ip now
look_up-Shrinks e (x ∷ k) ip now = elim (Option-cases (find_record e (x ∷ k))) [
  | inl missing ↦ rw (missing, look_up) (record_failure-Shrinks e ip now)
  | inr (r, found) ↦ elim (Bool-cases (ltb r.expires_at now)) [
    | inl late ↦
        rw (found, look_up)
          (rw (late, redeem)
            (Shrinks-trans e (destroy e r) _ (destroy-Shrinks e r)
              (record_failure-Shrinks (destroy e r) ip now)))
    | inr in_time ↦
        rw (found, look_up)
          (rw (in_time, redeem)
            (Shrinks-trans e (destroy e r) _ (destroy-Shrinks e r)
              (forget_failures-Shrinks (destroy e r) ip)))
  ]
]

pub after_lock-Shrinks :
    (e : Engine) (p : Engine × Lock) (k ip : Text) (now : ℕ)
    → Shrinks e p.0
    → Shrinks e (after_lock p k ip now).0
after_lock-Shrinks e (f, locked n) k ip now s = s
after_lock-Shrinks e (f, unlocked) k ip now s =
    Shrinks-trans e f _ s (look_up-Shrinks f (trim k) ip now)

pub verify_code-Shrinks :
    (e : Engine) (k ip : Text) (now : ℕ) → Shrinks e (verify_code e k ip now).0
unfolding verify_code
verify_code-Shrinks e k ip now =
    after_lock-Shrinks e (check_ip_lockout e ip now) k ip now (check_ip_lockout-Shrinks e ip now)

-- A text that is no key of either map is never accepted.
pub find_record-Shrinks :
    (e f : Engine) (k : Text) → Shrinks e f → find_record e k ≡ none → find_record f k ≡ none
unfolding find_record
find_record-Shrinks e f k s h = ground (arith, s.codes k, s.tokens k)
