-- ===== src/Route/Tests.antt =====
-- Runs of the checks of routed requests, and the theorems at concrete requests.
use dsh_orbit.Common.{
  ℕ, zero, suc, ◌*◌, ◌/◌, ◌%◌, ◌-◌, ◌<◌, all, ◌∙◌, inl, inr, Bool-cases, length-append, ◌+◌, ◌≡◌,
  refl, Bool, true, Option, none, some, [], ◌∷◌, ◌++◌, arith, ℕ_discrete, length, if◌then◌else◌,
  ltb,
}
use dsh_orbit.Common.Text.{Text, Text-discrete, text, text_eq, trim, is_space, to_lower}
use dsh_orbit.Common.JsMap.{get, put, retain}
use dsh_orbit.Flows.{is_hex, matches_node_id, hex_tail, strip_node}
use dsh_orbit.Route.{
  RouteNonceCache, RouteKey, active, Headers, matches_hex, matches_digits, is_digit, number_from,
  number, norm_headers, header, purge, check_and_reserve, hostname,
}
use dsh_orbit.Route.Auth.{
  accepted, Request, signed, sign_route_request, stamp_of, malformed, out_of_skew, key_error,
  authority_differs, incoming_authority, verify_stamp, verify_route_request,
}
use dsh_orbit.Route.Cache.{young}
use dsh_orbit.Route.Replay.{at_once, then_checks, stamp, no_replay, purge_removes_all_old}
use dsh_orbit.Route.Sound.{IsAuthentic, IsFresh, verify_route_request_sound}
use dsh_orbit.Route.Signed.{Signing, verify-sign}
use dsh_orbit.Route.Keys.{
  Overlap, HubKeyState, HubKey, valid_set, entry_error, entries_error, form_of,
  validate_hub_route_key_set,
}
use dsh_orbit.Route.Trust.{IsTrustSet, validate_hub_route_key_set-IsTrustSet}

abbrev hex32 : Text
hex32 = text "00112233445566778899aabbccddeeff"

abbrev hex128 : Text
hex128 = hex32 ++ hex32 ++ hex32 ++ hex32

-- A scheme with one signature, and a clock that always shows 100.
sign : Text → Text → Text
sign k t = hex128

verify : Text → Text → Text → Bool
verify k t s = true

abbrev key : RouteKey
key = record { public_key = []; state = active; overlap_until = none }

keys : Text → Option RouteKey
keys id = some key

abbrev node : Text
node = text "node_" ++ hex32

abbrev headers : Headers
headers =
    (text "x-orbit-route-node", some node)
    ∷ (text "x-orbit-route-key", some hex32)
    ∷ (text "x-orbit-route-timestamp", some (text "100"))
    ∷ (text "x-orbit-route-nonce", some hex32)
    ∷ (text "x-orbit-route-signature", some hex128)
    ∷ []

abbrev empty : RouteNonceCache
empty = record { retention_ms = 60000; nonces = [] }

abbrev asks : Request
asks = record {
  headers = headers;
  method = text "GET";
  raw_target = text "/";
  expected_node_id = node;
  expected_route_authority = text "n.example.com";
}

routes : Unit {0}
unfolding is_hex matches_node_id hex_tail strip_node matches_hex matches_digits number norm_headers
    header purge check_and_reserve hostname sign_route_request stamp_of malformed out_of_skew
    key_error authority_differs incoming_authority verify_stamp verify_route_request get put
    Text-discrete ℕ_discrete text_eq trim is_space to_lower sign verify keys entry_error
    entries_error form_of validate_hub_route_key_set
routes = tt

is_accepted : (verify_route_request verify keys empty asks 200 200).0 ≡ accepted node hex32
unfolding routes
is_accepted = refl

verify_route_request_sound_example :
    IsAuthentic verify keys asks (stamp asks) 200
    × IsFresh verify keys empty
        (verify_route_request verify keys empty asks 200 200).1
        (stamp asks).nonce
        200
verify_route_request_sound_example =
    verify_route_request_sound verify keys empty asks 200 200 node hex32 is_accepted

no_replay_example :
    ¬ (verify_route_request verify keys
      (verify_route_request verify keys empty asks 200 200).1
      asks
      30000
      30000).0
    ≡ accepted node hex32
no_replay_example =
    no_replay verify keys 0 empty (verify_route_request verify keys empty asks 200 200).1 asks asks
      200 200 200 30000 30000 node hex32 node hex32 (omega arith) (omega arith) is_accepted at_once
      (omega arith) (omega arith) refl refl

-- With the default of a minute, a cache that reads its clock a millisecond after the request was given its
-- time has let go of the nonce of a request that is still within the skew.
abbrev early : Request
early = record asks {
  headers =
      (text "x-orbit-route-node", some node)
      ∷ (text "x-orbit-route-key", some hex32)
      ∷ (text "x-orbit-route-timestamp", some (text "30100"))
      ∷ (text "x-orbit-route-nonce", some hex32)
      ∷ (text "x-orbit-route-signature", some hex128)
      ∷ [];
}

early_request : (verify_route_request verify keys empty early 100 100).0 ≡ accepted node hex32
unfolding routes
early_request = refl

replayed_request :
    (verify_route_request verify keys
      (verify_route_request verify keys empty early 100 100).1
      early
      60100
      60101).0
    ≡ accepted node hex32
unfolding routes
replayed_request = refl

purge_removes_all_old_example :
    (purge (verify_route_request verify keys empty asks 200 200).1 70000).nonces
    ≡ retain
        (young (verify_route_request verify keys empty asks 200 200).1.retention_ms 70000)
        (verify_route_request verify keys empty asks 200 200).1.nonces
purge_removes_all_old_example =
    purge_removes_all_old verify keys 60000 0
      (verify_route_request verify keys empty asks 200 200).1 200 70000
      (then_checks asks 200 200 at_once (omega arith))

-- Decimal digits, one division for each unit of fuel.
print_from : ℕ → ℕ → Text
print_from zero n = b'0' ∷ []
print_from (suc fuel) n =
    let front = print_from fuel (n / 10) in
    if ltb n 10 then (b'0' + n) ∷ [] else front ++ (b'0' + n % 10) ∷ []

print : ℕ → Text
print n = print_from (suc n) n

number_from-append :
    (m : ℕ) (s : Text) (c : ℕ) → number_from m (s ++ c ∷ []) ≡ number_from m s * 10 + (c - b'0')
unfolding number_from
number_from-append m [] c = refl
number_from-append m (d ∷ s) c = number_from-append (m * 10 + (d - b'0')) s c

all-append_one :
    (s : Text) (c : ℕ)
    → all is_digit s ≡ true
    → is_digit c ≡ true
    → all is_digit (s ++ c ∷ []) ≡ true
all-append_one [] c h k = ground arith
all-append_one (d ∷ s) c h k = ground (arith, all-append_one s c)

print_from_lem :
    (fuel n : ℕ)
    → n < fuel
    → (all is_digit (print_from fuel n) ≡ true) × (number_from 0 (print_from fuel n) ≡ n)
unfolding print_from number_from
print_from_lem zero n h = absurd (omega arith)
print_from_lem (suc fuel) n h = elim (Bool-cases (ltb n 10)) [
  | inl small ↦ rw small (ground arith, ground arith)
  | inr large ↦
      let (digits, exact) = print_from_lem fuel (n / 10) (ground arith) in
      rw large (
        all-append_one (print_from fuel (n / 10)) (b'0' + n % 10) digits (ground arith),
        number_from-append 0 (print_from fuel (n / 10)) (b'0' + n % 10) ∙ ground arith,
      )
]

matches_digits_of : (s : Text) → all is_digit s ≡ true → 0 < length s → matches_digits s ≡ true
unfolding matches_digits
matches_digits_of [] h k = absurd (omega arith)
matches_digits_of (c ∷ s) h k = h

print_from-length : (fuel n : ℕ) → 0 < length (print_from fuel n)
unfolding print_from
print_from-length zero n = omega arith
print_from-length (suc fuel) n = elim (Bool-cases (ltb n 10)) [
  | inl small ↦ rw small (omega arith)
  | inr large ↦
      rw large (omega (arith, length-append (print_from fuel (n / 10)) ((b'0' + n % 10) ∷ [])))
]

signing : Signing sign verify print [] []
unfolding sign verify print number matches_hex is_hex
signing = record {
  verifies = λ t. refl;
  sized = λ t. refl;
  digits = λ n.
      matches_digits_of (print n) (print_from_lem (suc n) n (omega arith)).0
        (print_from-length (suc n) n);
  exact = λ n. (print_from_lem (suc n) n (omega arith)).1;
}

signs :
    sign_route_request sign print [] hex32 node
      (text "n.example.com")
      (text "GET")
      (text "/")
      hex32
      100
    ≡ signed headers
unfolding routes print print_from
signs = refl

verify-sign_example : (verify_route_request verify keys empty asks 200 200).0 ≡ accepted node hex32
unfolding routes
verify-sign_example =
    verify-sign sign verify print [] hex32 node (text "n.example.com") (text "GET") (text "/") hex32
      100 200 200 headers keys key empty signing signs refl refl refl refl

-- An active and a rotating key.
abbrev old_key : HubKey
old_key = record {
  key_id = hex32;
  public_key = hex32 ++ hex32;
  state = HubKeyState.rotating;
  overlap_until = Overlap.until 9;
}

abbrev ids : Text
ids = text "ffeeddccbbaa99887766554433221100"

abbrev new_key : HubKey
new_key = record {
  key_id = ids;
  public_key = ids ++ ids;
  state = HubKeyState.active;
  overlap_until = Overlap.no_overlap;
}

-- The first half of a key.
half : ℕ → Text → Text
half zero s = []
half (suc n) [] = []
half (suc n) (c ∷ s) = c ∷ half n s

valid_pair :
    validate_hub_route_key_set (half 32) (some (some old_key ∷ some new_key ∷ [])) 5
    ≡ valid_set 4 (old_key ∷ new_key ∷ [])
unfolding routes half
valid_pair = refl

validate_hub_route_key_set-IsTrustSet_example : IsTrustSet (half 32) 5 4 (old_key ∷ new_key ∷ [])
validate_hub_route_key_set-IsTrustSet_example =
    validate_hub_route_key_set-IsTrustSet (half 32) (some (some old_key ∷ some new_key ∷ [])) 5 4
      (old_key ∷ new_key ∷ []) valid_pair
