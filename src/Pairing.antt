-- ===== src/Pairing.antt =====
-- src/registry/pairing-code.mjs: six-digit pairing codes, verified once, with a lockout for each
-- client address. One call reads one value of the clock. What `node:crypto` draws and what the `URL`
-- constructor answers are arguments.
pub mod Lockout
pub mod Shrinks
pub mod SingleUse
pub mod RoundTrip
mod Tests
use dsh_orbit.Common.{
  ℕ, ◌+◌, ◌-◌, ◌/◌, Bool, true, false, ◌&&◌, ◌||◌, not, Option, none, some, List, [], ◌∷◌, min, max,
  ltb, leb, ◌==◌, if◌then◌else◌, length,
}
use dsh_orbit.Common.Text.{Text, Text-discrete, text, trim, text_eq}
use dsh_orbit.Common.JsMap.{get, put, remove, retain}

pub record PairingRecord : Type 0 where
  pub code : Text
  pub pairing_token : Text
  pub operator_principal : Text
  pub created_at : ℕ
  pub expires_at : ℕ

pub record Attempts : Type 0 where
  pub failed_attempts : ℕ
  pub locked_until : ℕ
  pub last_attempt_at : ℕ

-- A timer set by `generateCode`.
pub record Timer : Type 0 where
  pub due : ℕ
  pub code : Text
  pub pairing_token : Text

pub record Engine : Type 0 where
  pub ttl_ms : ℕ
  pub max_failed_attempts : ℕ
  pub lock_duration_ms : ℕ
  pub codes : List (Text × PairingRecord)
  pub tokens : List (Text × PairingRecord)
  pub ip_attempts : List (Text × Attempts)
  pub timers : List Timer

-- The constructor.
unfoldable pub create : (ttl_ms max_failed_attempts lock_duration_ms : ℕ) → Engine
create ttl attempts lock = record {
  ttl_ms = max 10_000 (min 600_000 ttl);
  max_failed_attempts = max 1 attempts;
  lock_duration_ms = max 10_000 lock;
  codes = [];
  tokens = [];
  ip_attempts = [];
  timers = [];
}

-- What the crypto module draws for one code: a number of six digits, and 24 bytes in hexadecimal.
pub record Draw : Type 0 where
  pub code : Text
  pub pairing_token : Text

-- What the `URL` constructor makes of `/auth` on the base, with the code as its `token`.
pub record Url : Type 0 where
  pub protocol : Text
  pub href : Text

pub data PairingCodeError : Type 0 where
  invalid_hub_url insecure_scheme : PairingCodeError

pub record Generated : Type 0 where
  pub code : Text
  pub pairing_token : Text
  pub expires_at : ℕ
  pub url : Text

pub data Generate : Type 0 where
  generated : Engine → Generated → Generate
  failed : PairingCodeError → Generate

unfoldable pub or_operator : Text → Text
or_operator [] = text "operator"
or_operator (c ∷ s) = c ∷ s

unfoldable pub new_record : Engine → Draw → Text → ℕ → PairingRecord
unfolding or_operator
new_record e draw principal now = record {
  code = draw.code;
  pairing_token = draw.pairing_token;
  operator_principal = or_operator principal;
  created_at = now;
  expires_at = now + e.ttl_ms;
}

unfoldable pub new_timer : Engine → Draw → ℕ → Timer
new_timer e draw now = record {
  due = now + e.ttl_ms + 1000;
  code = draw.code;
  pairing_token = draw.pairing_token;
}

-- The record is stored under its code and its token, with a timer that drops both.
unfoldable pub store_code : Engine → Draw → Text → ℕ → Engine
unfolding new_record new_timer
store_code e draw principal now = record e {
  codes = put Text-discrete draw.code (new_record e draw principal now) e.codes;
  tokens = put Text-discrete draw.pairing_token (new_record e draw principal now) e.tokens;
  timers = new_timer e draw now ∷ e.timers;
}

module _ (auth_url : Text → Text → Option Url) where
  -- `none` for a `hubBaseUrl` that is not a string.
  unfoldable pub generate_code : Engine → Option Text → Text → Draw → ℕ → Generate
  unfolding store_code
  generate_code e none principal draw now = failed invalid_hub_url
  generate_code e (some []) principal draw now = failed invalid_hub_url
  generate_code e (some (c ∷ base)) principal draw now = elim (auth_url (c ∷ base) draw.code) [
    | none ↦ failed invalid_hub_url
    | some url ↦
        if text_eq url.protocol (text "https:")
        then generated (store_code e draw principal now) (record {
          code = draw.code;
          pairing_token = draw.pairing_token;
          expires_at = now + e.ttl_ms;
          url = url.href;
        })
        else failed insecure_scheme
  ]

unfoldable pub fire_timer : Engine → Timer → Engine
fire_timer e t = record e {
  codes = remove Text-discrete t.code e.codes;
  tokens = remove Text-discrete t.pairing_token e.tokens;
}

pub data Lock : Type 0 where
  unlocked : Lock
  locked : (remaining_seconds : ℕ) → Lock

-- `locked_until` is 0 for an address that was never locked.
unfoldable pub check_stat : Engine → Text → Attempts → ℕ → Engine × Lock
check_stat e ip stat now =
    if not (stat.locked_until == 0) && ltb now stat.locked_until
    then (e, locked ((stat.locked_until - now + 999) / 1000))
    else if ltb e.lock_duration_ms (now - stat.last_attempt_at)
        || not (stat.locked_until == 0) && leb stat.locked_until now
    then (record e { ip_attempts = remove Text-discrete ip e.ip_attempts }, unlocked)
    else (e, unlocked)

unfoldable pub check_ip_lockout : Engine → Text → ℕ → Engine × Lock
unfolding check_stat
check_ip_lockout e [] now = (e, unlocked)
check_ip_lockout e (c ∷ ip) now = elim (get Text-discrete (c ∷ ip) e.ip_attempts) [
  | none ↦ (e, unlocked)
  | some stat ↦ check_stat e (c ∷ ip) stat now
]

unfoldable pub is_recent : Engine → ℕ → Attempts → Bool
is_recent e now v = not (ltb e.lock_duration_ms (now - v.last_attempt_at))

-- The map after the clean-up that runs above 500 addresses.
unfoldable pub cleaned : Engine → ℕ → List (Text × Attempts)
unfolding is_recent
cleaned e now =
    if ltb 500 (length e.ip_attempts) then retain (is_recent e now) e.ip_attempts else e.ip_attempts

abbrev pub stat_or_new : Option Attempts → ℕ → Attempts
stat_or_new none now = record { failed_attempts = 0; locked_until = 0; last_attempt_at = now }
stat_or_new (some stat) now = stat

unfoldable pub count_failure : Engine → Attempts → ℕ → Attempts
count_failure e stat now =
    let before : ℕ =
      if ltb e.lock_duration_ms (now - stat.last_attempt_at) && stat.locked_until == 0
      then 0
      else stat.failed_attempts in
    record {
      failed_attempts = before + 1;
      locked_until =
          if leb e.max_failed_attempts (before + 1)
          then now + e.lock_duration_ms
          else stat.locked_until;
      last_attempt_at = now;
    }

unfoldable pub record_failure : Engine → Text → ℕ → Engine
unfolding cleaned count_failure
record_failure e [] now = e
record_failure e (c ∷ ip) now =
    let kept = cleaned e now in
    let stat = stat_or_new (get Text-discrete (c ∷ ip) kept) now in
    record e { ip_attempts = put Text-discrete (c ∷ ip) (count_failure e stat now) kept }

pub data Verdict : Type 0 where
  valid : (operator_principal : Text) → Verdict
  rate_limited : (retry_in : ℕ) → Verdict
  code_required code_unknown code_expired : Verdict

abbrev or_else : Option PairingRecord → Option PairingRecord → Option PairingRecord
or_else none b = b
or_else (some r) b = some r

unfoldable pub find_record : Engine → Text → Option PairingRecord
find_record e k = or_else (get Text-discrete k e.codes) (get Text-discrete k e.tokens)

-- Both entries of a record go on the first access, whatever follows.
unfoldable pub destroy : Engine → PairingRecord → Engine
destroy e r = record e {
  codes = remove Text-discrete r.code e.codes;
  tokens = remove Text-discrete r.pairing_token e.tokens;
}

unfoldable pub forget_failures : Engine → Text → Engine
forget_failures e [] = e
forget_failures e (c ∷ ip) = record e { ip_attempts = remove Text-discrete (c ∷ ip) e.ip_attempts }

unfoldable pub redeem : Engine → PairingRecord → Text → ℕ → Engine × Verdict
unfolding destroy forget_failures record_failure
redeem e r ip now =
    if ltb r.expires_at now
    then (record_failure (destroy e r) ip now, code_expired)
    else (forget_failures (destroy e r) ip, valid r.operator_principal)

unfoldable pub look_up : Engine → Text → Text → ℕ → Engine × Verdict
unfolding find_record redeem record_failure
look_up e [] ip now = (record_failure e ip now, code_required)
look_up e (c ∷ k) ip now = elim (find_record e (c ∷ k)) [
  | none ↦ (record_failure e ip now, code_unknown)
  | some r ↦ redeem e r ip now
]

abbrev after_lock : Engine × Lock → Text → Text → ℕ → Engine × Verdict
after_lock (e, locked seconds) input ip now = (e, rate_limited seconds)
after_lock (e, unlocked) input ip now = look_up e (trim input) ip now

unfoldable pub verify_code : Engine → Text → Text → ℕ → Engine × Verdict
unfolding check_ip_lockout look_up
verify_code e input ip now = after_lock (check_ip_lockout e ip now) input ip now

pub get_active_code_count : Engine → ℕ
get_active_code_count e = length e.codes
