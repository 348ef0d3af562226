-- ===== src/Pairing/SingleUse.antt =====
-- Codes of src/registry/pairing-code.mjs are accepted once.
use dsh_orbit.Common.{
  ℕ, ◌≤◌, ◌≡◌, refl, sym, ap, ◌∙◌, ◌⊎◌, inl, inr, ◌≢◌, none, some, List, [], ◌∷◌, arith, length,
  Option-cases,
}
use mathlib.Core.Option.{some-injective}
use dsh_orbit.Common.Text.{Text, Text-discrete, trim}
use dsh_orbit.Common.JsMap.{get, get-remove}
use dsh_orbit.Pairing.{
  Engine, PairingRecord, Timer, valid, check_ip_lockout, verify_code, look_up, redeem, destroy,
  find_record, fire_timer, check_stat, forget_failures, Lock, locked, unlocked, after_lock,
  code_unknown,
}
use dsh_orbit.Pairing.Shrinks.{
  Inv, Shrinks, Shrinks-Inv, fire_timer-Shrinks, forget_failures-Shrinks, Shrinks-trans,
  check_ip_lockout-Shrinks, verify_code-Shrinks, find_record-Shrinks,
}

redeem_valid :
    (e : Engine) (r : PairingRecord) (ip : Text) (now : ℕ) (p : Text)
    → (redeem e r ip now).1 ≡ valid p
    → (now ≤ r.expires_at)
      × (r.operator_principal ≡ p)
      × ((redeem e r ip now).0 ≡ forget_failures (destroy e r) ip)
unfolding redeem
redeem_valid e r ip now p h = ground arith

look_up_valid :
    (e : Engine) (k ip : Text) (now : ℕ) (p : Text)
    → (look_up e k ip now).1 ≡ valid p
    → (r : PairingRecord) × (find_record e k ≡ some r)
      × (now ≤ r.expires_at)
      × (r.operator_principal ≡ p)
      × ((look_up e k ip now).0 ≡ forget_failures (destroy e r) ip)
unfolding look_up
look_up_valid e [] ip now p h = cc
look_up_valid e (x ∷ k) ip now p h = elim (Option-cases (find_record e (x ∷ k))) [
  | inl missing ↦ let bad : code_unknown ≡ valid p = rw (missing, look_up) at h in cc
  | inr (r, found) ↦
      let (early, same, state) = redeem_valid e r ip now p (rw (found, look_up) at h) in
      (r, found, early, same, rw (found, look_up) state)
]

-- Neither key of a record is left once it is destroyed.
module _ (e : Engine) (v : Inv e) (r : PairingRecord) where
  find_record-keys :
      (k : Text)
      → find_record e k ≡ some r
      → (length r.code ≡ 6) × (length r.pairing_token ≡ 48) × ((k ≡ r.code) ⊎ (k ≡ r.pairing_token))
  unfolding find_record
  find_record-keys k h = elim (Option-cases (get Text-discrete k e.codes)) [
    | inl missing ↦
        let (own, long, short) = v.tokens_linked k r (rw missing at h) in
        (short, ap length own ∙ long, inr (sym own))
    | inr (r', found) ↦
        let same : some r' ≡ some r = rw found at h in
        let (own, short, long) = v.codes_linked k r (found ∙ same) in
        (ap length own ∙ short, long, inl (sym own))
  ]

  tokens-none : length r.code ≡ 6 → get Text-discrete r.code e.tokens ≡ none
  tokens-none short = elim (Option-cases (get Text-discrete r.code e.tokens)) [
    | inl missing ↦ missing
    | inr (r', found) ↦ let (own, long, s) = v.tokens_linked r.code r' found in absurd (omega arith)
  ]

  codes-none : length r.pairing_token ≡ 48 → get Text-discrete r.pairing_token e.codes ≡ none
  codes-none long = elim (Option-cases (get Text-discrete r.pairing_token e.codes)) [
    | inl missing ↦ missing
    | inr (r', found) ↦
        let (own, short, s) = v.codes_linked r.pairing_token r' found in absurd (omega arith)
  ]

  find_record-destroy :
      length r.code ≡ 6
      → length r.pairing_token ≡ 48
      → (find_record (destroy e r) r.code ≡ none)
        × (find_record (destroy e r) r.pairing_token ≡ none)
  unfolding find_record destroy
  find_record-destroy short long = (
    ground (
      arith,
      tokens-none short,
      get-remove Text-discrete r.code r.code e.codes,
      get-remove Text-discrete r.pairing_token r.code e.tokens,
    ),
    ground (
      arith,
      codes-none long,
      get-remove Text-discrete r.code r.pairing_token e.codes,
      get-remove Text-discrete r.pairing_token r.pairing_token e.tokens,
    ),
  )

-- Everything that can happen to an engine but the generation of a code.
pub data Call : Type 0 where
  verifies : (code ip : Text) (now : ℕ) → Call
  checks : (ip : Text) (now : ℕ) → Call
  fires : Timer → Call

unfoldable pub step : Engine → Call → Engine
step e (verifies k ip now) = (verify_code e k ip now).0
step e (checks ip now) = (check_ip_lockout e ip now).0
step e (fires t) = fire_timer e t

unfoldable pub run : Engine → List Call → Engine
run e [] = e
run e (c ∷ cs) = run (step e c) cs

pub step-Shrinks : (e : Engine) (c : Call) → Shrinks e (step e c)
unfolding step
step-Shrinks e (verifies k ip now) = verify_code-Shrinks e k ip now
step-Shrinks e (checks ip now) = check_ip_lockout-Shrinks e ip now
step-Shrinks e (fires t) = fire_timer-Shrinks e t

run-Shrinks : (e : Engine) (cs : List Call) → Shrinks e (run e cs)
unfolding run
run-Shrinks e [] = record { codes = λ k. inl refl; tokens = λ k. inl refl }
run-Shrinks e (c ∷ cs) = Shrinks-trans e (step e c) _ (step-Shrinks e c) (run-Shrinks (step e c) cs)

after_lock_valid :
    (e : Engine) (q : Engine × Lock) (k ip : Text) (now : ℕ) (p : Text)
    → Shrinks e q.0
    → (after_lock q k ip now).1 ≡ valid p
    → (r : PairingRecord) × (find_record q.0 (trim k) ≡ some r)
      × (now ≤ r.expires_at)
      × (r.operator_principal ≡ p)
      × ((after_lock q k ip now).0 ≡ forget_failures (destroy q.0 r) ip)
after_lock_valid e (f, locked n) k ip now p s h = cc
after_lock_valid e (f, unlocked) k ip now p s h = look_up_valid f (trim k) ip now p h

refused_when_missing :
    (e : Engine) (k ip : Text) (now : ℕ) (p : Text)
    → find_record e (trim k) ≡ none
    → (verify_code e k ip now).1 ≢ valid p
unfolding verify_code
refused_when_missing e k ip now p h ok =
    let s = check_ip_lockout-Shrinks e ip now in
    let (r, found, early, same, state) =
      after_lock_valid e (check_ip_lockout e ip now) k ip now p s ok in
    let missing = find_record-Shrinks e (check_ip_lockout e ip now).0 (trim k) s h in cc

find_record-check_ip_lockout :
    (e : Engine) (ip : Text) (now : ℕ) (k : Text)
    → find_record (check_ip_lockout e ip now).0 k ≡ find_record e k
unfolding find_record check_ip_lockout check_stat
find_record-check_ip_lockout e [] now k = refl
find_record-check_ip_lockout e (c ∷ ip) now k = ground arith

missing_forever :
    (e f : Engine) (cs : List Call) (j k ip : Text) (now : ℕ) (p : Text)
    → Shrinks e f
    → find_record e j ≡ none
    → trim k ≡ j
    → (verify_code (run f cs) k ip now).1 ≢ valid p
missing_forever e f cs j k ip now p s h same =
    refused_when_missing (run f cs) k ip now p
      (rw same (find_record-Shrinks e (run f cs) j (Shrinks-trans e f _ s (run-Shrinks f cs)) h))

-- `verifyCode` accepts a text only if it is, up to white space at its ends, the code or the token of
-- a stored record that has not expired, and it answers with that record's principal.
pub verify_code_sound :
    (e : Engine) (k ip : Text) (now : ℕ) (p : Text)
    → Inv e
    → (verify_code e k ip now).1 ≡ valid p
    → (r : PairingRecord) × (find_record e (trim k) ≡ some r)
      × ((trim k ≡ r.code) ⊎ (trim k ≡ r.pairing_token))
      × (now ≤ r.expires_at)
      × (r.operator_principal ≡ p)
unfolding verify_code
verify_code_sound e k ip now p v ok =
    let q = check_ip_lockout e ip now in
    let s = check_ip_lockout-Shrinks e ip now in
    let (r, found, early, same, state) = after_lock_valid e q k ip now p s ok in
    let (short, long, named) = find_record-keys q.0 (Shrinks-Inv e q.0 s v) r (trim k) found in
    (r, sym (find_record-check_ip_lockout e ip now (trim k)) ∙ found, named, early, same)

-- Once `verifyCode` has accepted a text that stands for the stored record `r`, neither the code nor
-- the token of `r` is accepted again, at any time and from any address, after any further
-- verifications, lockout checks and timers (all that can happen but another `generateCode`).
pub verify_code_single_use :
    (e : Engine) (k ip : Text) (now : ℕ) (p : Text) (r : PairingRecord) (cs : List Call)
    (k' ip' : Text) (now' : ℕ) (p' : Text)
    → Inv e
    → (verify_code e k ip now).1 ≡ valid p
    → find_record e (trim k) ≡ some r
    → (trim k' ≡ r.code) ⊎ (trim k' ≡ r.pairing_token)
    → (verify_code (run (verify_code e k ip now).0 cs) k' ip' now').1 ≢ valid p'
unfolding verify_code
verify_code_single_use e k ip now p r cs k' ip' now' p' v ok stored which =
    let q = check_ip_lockout e ip now in
    let s = check_ip_lockout-Shrinks e ip now in
    let (r', found, early, same, state) = after_lock_valid e q k ip now p s ok in
    let one : r' ≡ r =
      some-injective _ _ (sym found ∙ find_record-check_ip_lockout e ip now (trim k) ∙ stored) in
    let (short, long, named) = find_record-keys q.0 (Shrinks-Inv e q.0 s v) r' (trim k) found in
    let (no_code, no_token) = find_record-destroy q.0 (Shrinks-Inv e q.0 s v) r' short long in
    let after = forget_failures-Shrinks (destroy q.0 r') ip in
    let gone : Shrinks (destroy q.0 r') (after_lock q k ip now).0 = rw state after in
    elim which [
      | inl is_code ↦
          missing_forever (destroy q.0 r') _ cs r'.code k' ip' now' p' gone no_code (rw one is_code)
      | inr is_token ↦
          missing_forever (destroy q.0 r') _ cs r'.pairing_token k' ip' now' p' gone no_token
            (rw one is_token)
    ]
