-- ===== src/Pairing/Tests.antt =====
-- Runs of the pairing engine, and the theorems at concrete inputs.
use dsh_orbit.Common.{ℕ, ◌⊎◌, ◌≡◌, ◌≢◌, refl, inl, inr, some, List, [], ◌∷◌, arith, Option, ◌≤◌}
use dsh_orbit.Common.Text.{Text, text, Text-discrete, trim, text_eq}
use dsh_orbit.Common.JsMap.{get, put, remove, retain}
use dsh_orbit.Pairing.{
  Engine, PairingRecord, Draw, Url, Generated, Verdict, valid, rate_limited, create, new_record,
  store_code, generate_code, verify_code, find_record, or_operator,
}
use dsh_orbit.Pairing.Lockout.{guesses, guesses_end_in_lockout}
use dsh_orbit.Pairing.Shrinks.{Inv}
use dsh_orbit.Pairing.SingleUse.{Call, verifies, run, verify_code_sound, verify_code_single_use}
use dsh_orbit.Pairing.RoundTrip.{created, stored, Reachable-Inv, verify_code-generate_code}

pairing : Unit {0}
unfolding create store_code verify_code find_record get put remove retain generate_code guesses
    Text-discrete trim run
pairing = tt

abbrev draw : Draw
draw = record {
  code = text "482913";
  pairing_token = text "00112233445566778899aabbccddeeff0011223344556677";
}

abbrev ip : Text
ip = text "203.0.113.9"

abbrev empty_engine : Engine
empty_engine = create 300_000 2 900_000

-- One code made at time 1000 for "ann".
abbrev engine : Engine
engine = store_code empty_engine draw (text "ann") 1000

abbrev https : Text → Text → Option Url
https base code = some (record { protocol = text "https:"; href = base })

abbrev made : Generated
made = record {
  code = draw.code;
  pairing_token = draw.pairing_token;
  expires_at = 301_000;
  url = text "https://hub";
}

engine-Inv : Inv engine
engine-Inv =
    Reachable-Inv engine (stored draw (text "ann") 1000 (created 300_000 2 900_000) (refl, refl))

Reachable-Inv_example : Inv engine
Reachable-Inv_example =
    Reachable-Inv (store_code (create 300_000 2 900_000) draw (text "ann") 1000)
      (stored draw (text "ann") 1000 (created 300_000 2 900_000) (refl, refl))

accepted : (verify_code engine (text " 482913 ") ip 2000).1 ≡ valid (text "ann")
unfolding pairing
accepted = refl

late : (verify_code engine (text "482913") ip 301_001).1 ≡ Verdict.code_expired
unfolding pairing
late = refl

verify_code_sound_example :
    (r : PairingRecord) × (find_record engine (trim (text " 482913 ")) ≡ some r)
    × ((trim (text " 482913 ") ≡ r.code) ⊎ (trim (text " 482913 ") ≡ r.pairing_token))
    × (2000 ≤ r.expires_at)
    × (r.operator_principal ≡ text "ann")
verify_code_sound_example =
    verify_code_sound engine (text " 482913 ") ip 2000 (text "ann") engine-Inv accepted

abbrev later_calls : List Call
later_calls = verifies (text "111111") ip 2500 ∷ []

stored_record :
    find_record engine (trim (text " 482913 "))
    ≡ some (new_record empty_engine draw (text "ann") 1000)
unfolding pairing
stored_record = refl

verify_code_single_use_example :
    (verify_code
      (run (verify_code engine (text " 482913 ") ip 2000).0 later_calls)
      draw.pairing_token
      (text "198.51.100.7")
      3000).1
    ≢ valid (text "ann")
unfolding pairing
verify_code_single_use_example =
    verify_code_single_use engine (text " 482913 ") ip 2000 (text "ann")
      (new_record empty_engine draw (text "ann") 1000) later_calls draw.pairing_token
      (text "198.51.100.7") 3000 (text "ann") engine-Inv accepted stored_record (inr refl)

abbrev wrong_codes : List (Text × ℕ)
wrong_codes = (text "000001", 2000) ∷ (text "000002", 2100) ∷ []

guesses_end_in_lockout_example :
    (seconds : ℕ) × (verify_code (guesses engine ip wrong_codes) (text "482913") ip 2200
      ≡ (guesses engine ip wrong_codes, rate_limited seconds))
unfolding pairing
guesses_end_in_lockout_example =
    guesses_end_in_lockout engine b'2' (text "03.0.113.9") wrong_codes (text "482913") 2000 2200
      (omega arith) refl (omega arith) ((λ p h. cc), ((λ p h. cc), tt)) (omega arith) (omega arith)

verify_code-generate_code_example :
    (verify_code engine (text "482913") ip 301_000).1 ≡ valid (text "ann")
unfolding pairing or_operator text_eq
verify_code-generate_code_example =
    verify_code-generate_code https empty_engine engine (some (text "https://hub")) (text "ann") ip
      (text "482913") draw 1000 301_000 made
      (Reachable-Inv empty_engine (created 300_000 2 900_000)) (refl, refl) refl (inl refl) refl
      (omega arith)
