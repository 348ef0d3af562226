-- ===== src/Pairing/Lockout.antt =====
-- The lockout of client addresses in src/registry/pairing-code.mjs.
use dsh_orbit.Common.{
  ℕ, suc, ◌+◌, ◌-◌, ◌/◌, ◌≤◌, ◌<◌, ◌≡◌, refl, ◌∙◌, ◌⊎◌, inl, inr, ◌≢◌, none, some, List, [], ◌∷◌,
  arith, length, Option-cases, Bool-cases, ltb,
}
use dsh_orbit.Common.Text.{Text, Text-discrete, trim}
use dsh_orbit.Common.JsMap.{get, get-put_self, get-retain, get-retain-none}
use dsh_orbit.Pairing.{
  Engine, Attempts, valid, rate_limited, is_recent, cleaned, stat_or_new, count_failure,
  record_failure, check_ip_lockout, verify_code, look_up, redeem, destroy, find_record,
}

module _ (e : Engine) (c : ℕ) (ip : Text) (now : ℕ) where
  cleaned_keeps :
      (stat : Attempts)
      → get Text-discrete (c ∷ ip) e.ip_attempts ≡ some stat
      → now - stat.last_attempt_at ≤ e.lock_duration_ms
      → get Text-discrete (c ∷ ip) (cleaned e now) ≡ some stat
  unfolding cleaned
  cleaned_keeps stat h recent =
      ground (arith, get-retain Text-discrete (is_recent e now) (c ∷ ip) stat e.ip_attempts)

  cleaned-none :
      get Text-discrete (c ∷ ip) e.ip_attempts ≡ none
      → get Text-discrete (c ∷ ip) (cleaned e now) ≡ none
  unfolding cleaned
  cleaned-none h =
      ground (arith, get-retain-none Text-discrete (is_recent e now) (c ∷ ip) e.ip_attempts)

  record_failure_known :
      (stat : Attempts)
      → get Text-discrete (c ∷ ip) e.ip_attempts ≡ some stat
      → now - stat.last_attempt_at ≤ e.lock_duration_ms
      → get Text-discrete (c ∷ ip) (record_failure e (c ∷ ip) now).ip_attempts
        ≡ some (count_failure e stat now)
  unfolding record_failure
  record_failure_known stat h recent =
      rw (cleaned_keeps stat h recent) (get-put_self Text-discrete (c ∷ ip) _ _)

  record_failure_new :
      get Text-discrete (c ∷ ip) e.ip_attempts ≡ none
      → get Text-discrete (c ∷ ip) (record_failure e (c ∷ ip) now).ip_attempts
        ≡ some (count_failure e (stat_or_new none now) now)
  unfolding record_failure
  record_failure_new h = rw (cleaned-none h) (get-put_self Text-discrete (c ∷ ip) _ _)

-- Where an address stands within a window of `lock_duration_ms` that begins at `start`: after `n`
-- refused calls it is locked to the end of the window, or has `n` failures on record.
data Standing (e : Engine) (c : ℕ) (ip : Text) (start n : ℕ) : Type 0 where
  unknown : get Text-discrete (c ∷ ip) e.ip_attempts ≡ none → n ≡ 0 → Standing e c ip start n
  counted :
      (stat : Attempts)
      → get Text-discrete (c ∷ ip) e.ip_attempts ≡ some stat
      → stat.locked_until ≡ 0
      → n ≤ stat.failed_attempts
      → stat.failed_attempts < e.max_failed_attempts
      → start ≤ stat.last_attempt_at
      → Standing e c ip start n
  shut_out :
      (stat : Attempts)
      → get Text-discrete (c ∷ ip) e.ip_attempts ≡ some stat
      → start + e.lock_duration_ms ≤ stat.locked_until
      → Standing e c ip start n

count_failure_lem :
    (e : Engine) (stat : Attempts) (now : ℕ)
    → now - stat.last_attempt_at ≤ e.lock_duration_ms
    → stat.locked_until ≡ 0
    → ((count_failure e stat now).failed_attempts ≡ stat.failed_attempts + 1)
      × ((count_failure e stat now).last_attempt_at ≡ now)
      × (((count_failure e stat now).locked_until ≡ 0)
            × (stat.failed_attempts + 1 < e.max_failed_attempts)
          ⊎ ((count_failure e stat now).locked_until ≡ now + e.lock_duration_ms))
unfolding count_failure
count_failure_lem e stat now recent fresh = (ground arith, refl, ground arith)

-- The counters that one refused look-up of a code leaves.
look_up_refused :
    (e : Engine) (k ip : Text) (now : ℕ)
    → ((p : Text) → (look_up e k ip now).1 ≢ valid p)
    → (e' : Engine) × ((look_up e k ip now).0 ≡ record_failure e' ip now)
      × (e'.ip_attempts ≡ e.ip_attempts)
      × (e'.lock_duration_ms ≡ e.lock_duration_ms)
      × (e'.max_failed_attempts ≡ e.max_failed_attempts)
unfolding look_up redeem
look_up_refused e [] ip now bad = (e, refl, refl, refl, refl)
look_up_refused e (x ∷ k) ip now bad = elim (Option-cases (find_record e (x ∷ k))) [
  | inl missing ↦ (e, rw (missing, look_up), refl, refl, refl)
  | inr (r, found) ↦ elim (Bool-cases (ltb r.expires_at now)) [
    | inl late ↦ (destroy e r, rw (found, look_up) (rw (late, redeem)), refl, refl, refl)
    | inr in_time ↦ absurd (bad r.operator_principal (rw (found, look_up) (rw (in_time, redeem))))
  ]
]

-- The rest of a `verify_code` call that finds the address unlocked and leaves its entry alone.
module _ (e : Engine) (c : ℕ) (ip k : Text) (now : ℕ) where
  verify_unknown :
      get Text-discrete (c ∷ ip) e.ip_attempts ≡ none
      → verify_code e k (c ∷ ip) now ≡ look_up e (trim k) (c ∷ ip) now
  unfolding verify_code check_ip_lockout
  verify_unknown h = rw (h, check_ip_lockout)

  verify_counted :
      (stat : Attempts)
      → get Text-discrete (c ∷ ip) e.ip_attempts ≡ some stat
      → stat.locked_until ≡ 0
      → now - stat.last_attempt_at ≤ e.lock_duration_ms
      → verify_code e k (c ∷ ip) now ≡ look_up e (trim k) (c ∷ ip) now
  unfolding verify_code check_ip_lockout
  verify_counted stat h fresh recent = ground arith

  -- A locked address is refused before the code is looked at, and nothing changes.
  pub verify_code_locked :
      (stat : Attempts)
      → get Text-discrete (c ∷ ip) e.ip_attempts ≡ some stat
      → now < stat.locked_until
      → verify_code e k (c ∷ ip) now ≡ (e, rate_limited ((stat.locked_until - now + 999) / 1000))
  unfolding verify_code check_ip_lockout
  verify_code_locked stat h early = ground arith

-- One more failure on record, for an address that is not locked.
module _ (e : Engine) (c : ℕ) (ip : Text) (now start : ℕ) where
  stat_Standing :
      (n : ℕ) (stat : Attempts)
      → get Text-discrete (c ∷ ip) (record_failure e (c ∷ ip) now).ip_attempts
        ≡ some (count_failure e stat now)
      → stat.locked_until ≡ 0
      → n ≤ stat.failed_attempts
      → start ≤ now
      → now - stat.last_attempt_at ≤ e.lock_duration_ms
      → Standing (record_failure e (c ∷ ip) now) c ip start (suc n)
  unfolding record_failure
  stat_Standing n stat kept fresh some_ from recent =
      let (failed, last, fate) = count_failure_lem e stat now recent fresh in
      elim fate [
        | inl (zero_, below) ↦
            counted (count_failure e stat now) kept zero_ (omega arith) (omega arith) (omega arith)
        | inr until ↦ shut_out (count_failure e stat now) kept (omega arith)
      ]

  failure_Standing :
      (n : ℕ)
      → Standing e c ip start n
      → start ≤ now
      → now < start + e.lock_duration_ms
      → ((stat : Attempts)
          → get Text-discrete (c ∷ ip) e.ip_attempts ≡ some stat
          → stat.locked_until ≡ 0)
      → Standing (record_failure e (c ∷ ip) now) c ip start (suc n)
  failure_Standing n (unknown h none_yet) from until open_ =
      stat_Standing n (stat_or_new none now) (record_failure_new e c ip now h) refl (omega arith)
        from (omega arith)
  failure_Standing n (counted stat h fresh some_ below since) from until open_ =
      stat_Standing n stat (record_failure_known e c ip now stat h (omega arith)) fresh some_ from
        (omega arith)
  failure_Standing n (shut_out stat h long) from until open_ =
      let zero_ = open_ stat h in absurd (omega arith)

Standing-same :
    (e e' : Engine) (c : ℕ) (ip : Text) (start n : ℕ)
    → e'.ip_attempts ≡ e.ip_attempts
    → e'.lock_duration_ms ≡ e.lock_duration_ms
    → e'.max_failed_attempts ≡ e.max_failed_attempts
    → Standing e c ip start n
    → Standing e' c ip start n
Standing-same e e' c ip start n a l m (unknown h none_yet) = unknown (rw a h) none_yet
Standing-same e e' c ip start n a l m (counted stat h fresh some_ below since) =
    counted stat (rw a h) fresh some_ (rw m below) since
Standing-same e e' c ip start n a l m (shut_out stat h long) = shut_out stat (rw a h) (rw l long)

-- What a step of the induction carries over.
abbrev Next : Engine → Engine → ℕ → Text → ℕ → ℕ → Type 0
Next e f c ip start n =
    Standing f c ip start n
    × (f.lock_duration_ms ≡ e.lock_duration_ms)
    × (f.max_failed_attempts ≡ e.max_failed_attempts)

module _ (e : Engine) (c : ℕ) (ip k : Text) (now start n : ℕ) where
  look_up-Next :
      Standing e c ip start n
      → start ≤ now
      → now < start + e.lock_duration_ms
      → ((stat : Attempts)
          → get Text-discrete (c ∷ ip) e.ip_attempts ≡ some stat
          → stat.locked_until ≡ 0)
      → ((p : Text) → (look_up e (trim k) (c ∷ ip) now).1 ≢ valid p)
      → Next e (look_up e (trim k) (c ∷ ip) now).0 c ip start (suc n)
  unfolding record_failure
  look_up-Next s from until open_ bad =
      let (e', same, a, l, m) = look_up_refused e (trim k) (c ∷ ip) now bad in
      rw same (
        failure_Standing e' c ip now start n (Standing-same e e' c ip start n a l m s) from
            (omega arith) (λ stat h. open_ stat (rw a at h)),
        l,
        m,
      )

  verify_Next :
      Standing e c ip start n
      → start ≤ now
      → now < start + e.lock_duration_ms
      → ((p : Text) → (verify_code e k (c ∷ ip) now).1 ≢ valid p)
      → Next e (verify_code e k (c ∷ ip) now).0 c ip start (suc n)
  verify_Next (unknown h none_yet) from until bad =
      let same = verify_unknown e c ip k now h in
      rw same (look_up-Next (unknown h none_yet) from until (λ stat g. cc) (rw same at bad))
  verify_Next (counted stat h fresh some_ below since) from until bad =
      let same = verify_counted e c ip k now stat h fresh (omega arith) in
      rw same (
        look_up-Next (counted stat h fresh some_ below since) from until (λ stat g. ground arith)
          (rw same at bad))
  verify_Next (shut_out stat h long) from until bad =
      rw (verify_code_locked e c ip k now stat h (omega arith)) (shut_out stat h long, refl, refl)

-- A client's calls, each a text and a time, and that none of them is accepted.
unfoldable pub guesses : Engine → Text → List (Text × ℕ) → Engine
guesses e ip [] = e
guesses e ip ((k, now) ∷ gs) = guesses (verify_code e k ip now).0 ip gs

abbrev pub AllRefused : Engine → Text → List (Text × ℕ) → Type 0
AllRefused e ip [] = Unit
AllRefused e ip ((k, now) ∷ gs) =
    ((p : Text) → (verify_code e k ip now).1 ≢ valid p)
    × AllRefused (verify_code e k ip now).0 ip gs

abbrev pub Within : ℕ → ℕ → List (Text × ℕ) → Type 0
Within start end [] = Unit
Within start end ((k, now) ∷ gs) = (start ≤ now) × (now < end) × Within start end gs

guesses-Next :
    (e : Engine) (c : ℕ) (ip : Text) (gs : List (Text × ℕ)) (start n m : ℕ)
    → n + length gs ≡ m
    → Standing e c ip start n
    → Within start (start + e.lock_duration_ms) gs
    → AllRefused e (c ∷ ip) gs
    → Next e (guesses e (c ∷ ip) gs) c ip start m
unfolding guesses
guesses-Next e c ip [] start n m count s w bad =
    let same : n ≡ m = omega arith in rw (← same) (s, refl, refl)
guesses-Next e c ip ((k, now) ∷ gs) start n m count s (from, until, w) (bad, rest) =
    let (s', l, x) = verify_Next e c ip k now start n s from until bad in
    let (s'', l', x') =
      guesses-Next (verify_code e k (c ∷ ip) now).0 c ip gs start (suc n) m (omega arith) s'
        (rw l w) rest in
    (s'', l' ∙ l, x' ∙ x)

locked_out :
    (e f : Engine) (c : ℕ) (ip k : Text) (now start n : ℕ)
    → Next e f c ip start n
    → 0 < e.max_failed_attempts
    → e.max_failed_attempts ≤ n
    → now < start + e.lock_duration_ms
    → (seconds : ℕ) × (verify_code f k (c ∷ ip) now ≡ (f, rate_limited seconds))
locked_out e f c ip k now start n (unknown h none_yet, l, x) pos enough until = absurd (omega arith)
locked_out e f c ip k now start n (counted stat h fresh some_ below since, l, x) pos enough until =
    absurd (omega arith)
locked_out e f c ip k now start n (shut_out stat h long, l, x) pos enough until =
    (_, verify_code_locked f c ip k now stat h (omega arith))

-- Take an address that has no entry, and a list of calls from it, all within one lock duration and
-- none of them accepted, whatever codes they name. If there are at least `max_failed_attempts` of
-- them, then every call from that address up to the end of that duration is answered
-- `rate-limited`, and changes nothing.
pub guesses_end_in_lockout :
    (e : Engine) (c : ℕ) (ip : Text) (gs : List (Text × ℕ)) (k : Text) (start now : ℕ)
    → 0 < e.max_failed_attempts
    → get Text-discrete (c ∷ ip) e.ip_attempts ≡ none
    → Within start (start + e.lock_duration_ms) gs
    → AllRefused e (c ∷ ip) gs
    → e.max_failed_attempts ≤ length gs
    → now < start + e.lock_duration_ms
    → (seconds : ℕ) × (verify_code (guesses e (c ∷ ip) gs) k (c ∷ ip) now
        ≡ (guesses e (c ∷ ip) gs, rate_limited seconds))
guesses_end_in_lockout e c ip gs k start now pos h w bad enough until =
    locked_out e (guesses e (c ∷ ip) gs) c ip k now start (length gs)
      (guesses-Next e c ip gs start 0 (length gs) (omega arith) (unknown h refl) w bad) pos enough
      until
