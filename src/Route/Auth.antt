-- ===== src/Route/Auth.antt =====
-- `verifyRouteRequest` and `signRouteRequest` of src/registry/route-auth.mjs. The messages of errors are
-- left out, the HTTP status follows from the code.
use dsh_orbit.Common.{
  ℕ, ◌+◌, ◌-◌, Bool, true, false, ◌&&◌, ◌||◌, not, Option, none, some, List, [], ◌∷◌, ltb, leb,
  if◌then◌else◌, any,
}
use dsh_orbit.Common.Text.{Text, text, text_eq}
use dsh_orbit.Flows.{matches_node_id}
use dsh_orbit.Route.{
  matches_hex, matches_digits, number, RouteNonceCache, check_and_reserve, Headers, norm_headers,
  header, hostname, KeyState, provisioned, revoked, other_state, RouteKey,
  build_route_signing_string, is_blank,
}

pub data RouteError : Type 0 where
  bad_request timestamp_out_of_skew node_mismatch unknown_key key_not_active key_revoked :
      RouteError
  authority_mismatch signature_invalid replay : RouteError

pub data Verdict : Type 0 where
  accepted : (node_id key_id : Text) → Verdict
  denied : RouteError → Verdict

-- A request with what the node expects; a blank expectation is none.
pub record Request : Type 0 where
  pub headers : Headers
  pub method : Text
  pub raw_target : Text
  pub expected_node_id : Text
  pub expected_route_authority : Text

-- The five headers after normalization.
pub record Stamp : Type 0 where
  pub node_id : Text
  pub key_id : Text
  pub timestamp : Text
  pub nonce : Text
  pub signature : Text

unfoldable pub stamp_of : List (Text × Text) → Stamp
unfolding header
stamp_of m = record {
  node_id = header m (text "x-orbit-route-node");
  key_id = header m (text "x-orbit-route-key");
  timestamp = header m (text "x-orbit-route-timestamp");
  nonce = header m (text "x-orbit-route-nonce");
  signature = header m (text "x-orbit-route-signature");
}

unfoldable pub malformed : Stamp → Bool
unfolding matches_node_id matches_hex matches_digits
malformed s =
    any is_blank (s.node_id ∷ s.key_id ∷ s.timestamp ∷ s.nonce ∷ s.signature ∷ [])
    || not (matches_node_id s.node_id)
    || not (matches_hex 32 s.key_id)
    || not (matches_hex 32 s.nonce)
    || not (matches_hex 128 s.signature)
    || not (matches_digits s.timestamp)

-- `Math.abs(nowMs - timestamp) > ROUTE_SKEW_MS`
unfoldable pub out_of_skew : ℕ → ℕ → Bool
out_of_skew now t = ltb 30000 ((now - t) + (t - now))

abbrev pub state_error : KeyState → Option RouteError
state_error provisioned = some key_not_active
state_error revoked = some key_revoked
state_error other_state = some key_not_active
state_error _ = none

abbrev pub overlap_error : Option (Option ℕ) → ℕ → Option RouteError
overlap_error (some (some t)) now = if leb t now then some key_revoked else none
overlap_error _ now = none

abbrev pub or_else : Option RouteError → Option RouteError → Option RouteError
or_else none e = e
or_else (some e) _ = some e

unfoldable pub key_error : RouteKey → ℕ → Option RouteError
key_error k now = or_else (state_error k.state) (overlap_error k.overlap_until now)

abbrev pub or_host : Text → Text → Text
or_host [] host = host
or_host (c ∷ s) host = c ∷ s

unfoldable pub incoming_authority : List (Text × Text) → Text
unfolding hostname header
incoming_authority m =
    hostname (or_host (header m (text "x-orbit-route-authority")) (header m (text "host")))

unfoldable pub authority_differs : Text → Text → Bool
unfolding hostname
authority_differs incoming expected =
    not (is_blank (hostname expected))
    && not (is_blank incoming)
    && not (text_eq incoming (hostname expected))

unfoldable pub signed_text : Request → Stamp → Text
unfolding build_route_signing_string
signed_text r s =
    build_route_signing_string s.node_id r.expected_route_authority r.method r.raw_target
      s.timestamp s.nonce

module _ (verify : (public_key signing_string signature : Text) → Bool) where
  abbrev pub finish : RouteNonceCache → Stamp → Bool × RouteNonceCache → Verdict × RouteNonceCache
  finish c s (true, c') = (accepted s.node_id s.key_id, c')
  finish c s (false, c') = (denied replay, c')

  abbrev pub with_key :
      RouteNonceCache
      → Request
      → List (Text × Text)
      → Stamp
      → ℕ
      → ℕ
      → RouteKey
      → Option RouteError
      → Verdict × RouteNonceCache
  with_key c r m s now at k (some e) = (denied e, c)
  with_key c r m s now at k none =
      if authority_differs (incoming_authority m) r.expected_route_authority
      then (denied authority_mismatch, c)
      else if verify k.public_key (signed_text r s) s.signature
      then finish c s (check_and_reserve c s.nonce at)
      else (denied signature_invalid, c)

  abbrev pub look_up :
      RouteNonceCache
      → Request
      → List (Text × Text)
      → Stamp
      → ℕ
      → ℕ
      → Option RouteKey
      → Verdict × RouteNonceCache
  look_up c r m s now at none = (denied unknown_key, c)
  look_up c r m s now at (some k) = with_key c r m s now at k (key_error k now)

  unfoldable pub verify_stamp :
      (Text → Option RouteKey)
      → RouteNonceCache
      → Request
      → List (Text × Text)
      → Stamp
      → ℕ
      → ℕ
      → Verdict × RouteNonceCache
  unfolding malformed out_of_skew key_error authority_differs incoming_authority signed_text
      check_and_reserve number
  verify_stamp get_public_key c r m s now at =
      if malformed s
      then (denied bad_request, c)
      else if out_of_skew now (number s.timestamp)
      then (denied timestamp_out_of_skew, c)
      else if not (is_blank r.expected_node_id) && not (text_eq s.node_id r.expected_node_id)
      then (denied node_mismatch, c)
      else look_up c r m s now at (get_public_key s.key_id)

  -- `now` is the parameter nowMs; `at` is the time that the cache reads of its own clock, later.
  unfoldable pub verify_route_request :
      (Text → Option RouteKey) → RouteNonceCache → Request → ℕ → ℕ → Verdict × RouteNonceCache
  unfolding verify_stamp norm_headers stamp_of
  verify_route_request get_public_key c r now at =
      let m = norm_headers [] r.headers in verify_stamp get_public_key c r m (stamp_of m) now at

pub data Signed : Type 0 where
  signed : Headers → Signed
  bad_node_id bad_key_id bad_nonce : Signed

-- `print` is `String` of a number. A blank nonce is refused as well as one that is not 32 digits.
module _ (sign : (private_key signing_string : Text) → Text) (print : ℕ → Text) where
  unfoldable pub sign_route_request :
      (private_key key_id node_id route_authority method raw_target nonce : Text) → ℕ → Signed
  unfolding matches_node_id matches_hex build_route_signing_string
  sign_route_request private_key key_id node_id route_authority method raw_target nonce now =
      if not (matches_node_id node_id)
      then bad_node_id
      else if not (matches_hex 32 key_id)
      then bad_key_id
      else if not (matches_hex 32 nonce)
      then bad_nonce
      else signed (
          (text "x-orbit-route-node", some node_id)
          ∷ (text "x-orbit-route-key", some key_id)
          ∷ (text "x-orbit-route-timestamp", some (print now))
          ∷ (text "x-orbit-route-nonce", some nonce)
          ∷ (
            text "x-orbit-route-signature",
            some (
                sign private_key (
                  build_route_signing_string node_id route_authority method raw_target (print now)
                    nonce)),
          )
          ∷ [])
