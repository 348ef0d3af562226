-- ===== src/Route/Signed.antt =====
-- What `signRouteRequest` of src/registry/route-auth.mjs signs, `verifyRouteRequest` accepts.
use dsh_orbit.Common.{
  ℕ, ◌≡◌, refl, inl, inr, Bool, true, false, not, ◌&&◌, Option, none, some, List, [], ◌∷◌, ◌++◌,
  arith, Bool-cases, all, any, ℕ_discrete,
}
use dsh_orbit.Common.Text.{Text, Text-discrete, text, text_eq, trim, is_space, to_lower}
use dsh_orbit.Common.Text.Trim.{trim-no_space}
use dsh_orbit.Common.JsMap.{get, put}
use dsh_orbit.Flows.{matches_node_id}
use dsh_orbit.Fleet.Resolution.{text_eq_self}
use dsh_orbit.Flows.Scope.{hex-no_space, matches_node_id-IsNodeId}
use dsh_orbit.Route.{
  RouteNonceCache, RouteKey, Headers, matches_hex, matches_digits, number, norm_headers, header,
  check_and_reserve, is_blank, is_digit, hostname, build_route_signing_string,
}
use dsh_orbit.Route.Auth.{
  accepted, Request, Stamp, stamp_of, malformed, out_of_skew, key_error, incoming_authority,
  authority_differs, signed_text, finish, verify_stamp, verify_route_request, Signed, signed,
  sign_route_request,
}

-- What the code relies on: a signature verifies under the public key and has 64 bytes, and a number is
-- printed in decimal digits.
pub record Signing (sign : (private_key signing_string : Text) → Text)
    (verify : (public_key signing_string signature : Text) → Bool) (print : ℕ → Text)
    (private_key public_key : Text) : Type 0 where
  pub verifies : (t : Text) → verify public_key t (sign private_key t) ≡ true
  pub sized : (t : Text) → matches_hex 128 (sign private_key t) ≡ true
  pub digits : (n : ℕ) → matches_digits (print n) ≡ true
  pub exact : (n : ℕ) → number (print n) ≡ n

digits-no_space : (s : Text) → all is_digit s ≡ true → any is_space s ≡ false
unfolding is_space
digits-no_space [] h = refl
digits-no_space (c ∷ s) h = ground (arith, digits-no_space s)

matches_digits-trim : (s : Text) → matches_digits s ≡ true → trim s ≡ s
unfolding matches_digits
matches_digits-trim [] h = cc
matches_digits-trim (c ∷ s) h = trim-no_space (c ∷ s) (digits-no_space (c ∷ s) h)

matches_hex-trim : (n : ℕ) (s : Text) → matches_hex n s ≡ true → trim s ≡ s
unfolding matches_hex
matches_hex-trim n s h = trim-no_space s (hex-no_space s (ground arith))

node_id-trim : (s : Text) → matches_node_id s ≡ true → trim s ≡ s
unfolding is_space
node_id-trim s h =
    let (t, same, len, hex) = matches_node_id-IsNodeId s h in
    let clean = hex-no_space t hex in rw same (trim-no_space (text "node_" ++ t) (ground arith))

-- The five headers, read back.
module _ (node key timestamp nonce signature : Text) where
  abbrev five : Headers
  five =
      (text "x-orbit-route-node", some node)
      ∷ (text "x-orbit-route-key", some key)
      ∷ (text "x-orbit-route-timestamp", some timestamp)
      ∷ (text "x-orbit-route-nonce", some nonce)
      ∷ (text "x-orbit-route-signature", some signature)
      ∷ []

  stamp_five : stamp_of (norm_headers [] five) ≡ record {
    node_id = trim node;
    key_id = trim key;
    timestamp = trim timestamp;
    nonce = trim nonce;
    signature = trim signature;
  }
  unfolding stamp_of norm_headers header to_lower get put Text-discrete ℕ_discrete
  stamp_five = refl

  no_authority : incoming_authority (norm_headers [] five) ≡ []
  unfolding incoming_authority norm_headers header hostname to_lower get put Text-discrete
      ℕ_discrete
  no_authority = refl

signed_headers : (hs ks : Headers) → signed hs ≡ signed ks → hs ≡ ks
signed_headers hs ks p = cc

signed_lem :
    (sign : (private_key signing_string : Text) → Text) (print : ℕ → Text)
    (private_key key_id node_id authority method target nonce : Text) (now : ℕ) (hs : Headers)
    → sign_route_request sign print private_key key_id node_id authority method target nonce now
      ≡ signed hs
    → (matches_node_id node_id ≡ true)
      × (matches_hex 32 key_id ≡ true)
      × (matches_hex 32 nonce ≡ true)
      × (five node_id key_id (print now) nonce (
            sign private_key
              (build_route_signing_string node_id authority method target (print now) nonce))
          ≡ hs)
unfolding sign_route_request
signed_lem sign print private_key key_id node_id authority method target nonce now hs h =
    elim (Bool-cases (matches_node_id node_id)) [
      | inr bad ↦ let no : Signed.bad_node_id ≡ signed hs = rw bad at h in cc
      | inl node ↦ elim (Bool-cases (matches_hex 32 key_id)) [
        | inr bad ↦ let no : Signed.bad_key_id ≡ signed hs = rw (node, bad) at h in cc
        | inl key ↦ elim (Bool-cases (matches_hex 32 nonce)) [
          | inr bad ↦ let no : Signed.bad_nonce ≡ signed hs = rw (node, key, bad) at h in cc
          | inl n ↦ (node, key, n, signed_headers _ hs (rw (node, key, n) at h))
        ]
      ]
    ]

well_formed :
    (node key timestamp nonce signature : Text)
    → matches_node_id node ≡ true
    → matches_hex 32 key ≡ true
    → matches_digits timestamp ≡ true
    → matches_hex 32 nonce ≡ true
    → matches_hex 128 signature ≡ true
    → malformed (record {
      node_id = node;
      key_id = key;
      timestamp = timestamp;
      nonce = nonce;
      signature = signature;
    })
      ≡ false
unfolding malformed matches_hex matches_digits
well_formed [] key t n s a b c d e = ground (arith, matches_node_id-IsNodeId [])
well_formed (x ∷ node) [] t n s a b c d e = ground arith
well_formed (x ∷ node) (y ∷ key) [] n s a b c d e = cc
well_formed (x ∷ node) (y ∷ key) (z ∷ t) [] s a b c d e = ground arith
well_formed (x ∷ node) (y ∷ key) (z ∷ t) (v ∷ n) [] a b c d e = ground arith
well_formed (x ∷ node) (y ∷ key) (z ∷ t) (v ∷ n) (w ∷ s) a b c d e = ground arith

-- A request that passes each check is accepted.
module _ (verify : (public_key signing_string signature : Text) → Bool)
    (get_public_key : Text → Option RouteKey) (c : RouteNonceCache) (r : Request)
    (m : List (Text × Text)) (s : Stamp) (now at : ℕ) (k : RouteKey) where
  passes :
      malformed s ≡ false
      → out_of_skew now (number s.timestamp) ≡ false
      → (not (is_blank r.expected_node_id) && not (text_eq s.node_id r.expected_node_id)) ≡ false
      → get_public_key s.key_id ≡ some k
      → key_error k now ≡ none
      → authority_differs (incoming_authority m) r.expected_route_authority ≡ false
      → verify k.public_key (signed_text r s) s.signature ≡ true
      → (check_and_reserve c s.nonce at).0 ≡ true
      → (verify_stamp verify get_public_key c r m s now at).0 ≡ accepted s.node_id s.key_id
  unfolding verify_stamp
  passes fine timely right_node known usable agrees genuine free =
      rw (fine, timely, right_node, known, usable, agrees, genuine)
        (finishes (check_and_reserve c s.nonce at) free)
    where
      finishes :
          (p : Bool × RouteNonceCache)
          → p.0 ≡ true
          → (finish verify c s p).0 ≡ accepted s.node_id s.key_id
      finishes (true, c') h = refl
      finishes (false, c') h = cc

same_node : (s : Text) → (not (is_blank s) && not (text_eq s s)) ≡ false
same_node s = rw (text_eq_self s) (not_and (is_blank s))
  where
    not_and : (b : Bool) → (not b && false) ≡ false
    not_and true = refl
    not_and false = refl

authority_blank : (expected : Text) → authority_differs [] expected ≡ false
unfolding authority_differs
authority_blank expected = ground arith

module _ (sign : (private_key signing_string : Text) → Text)
    (verify : (public_key signing_string signature : Text) → Bool) (print : ℕ → Text)
    (private_key key_id node_id authority method target nonce : Text) (now later at : ℕ)
    (hs : Headers) (get_public_key : Text → Option RouteKey) (k : RouteKey) (c : RouteNonceCache)
    (law : Signing sign verify print private_key k.public_key)
    (h : sign_route_request sign print private_key key_id node_id authority method target nonce now
      ≡ signed hs)
    (known : get_public_key key_id ≡ some k) (usable : key_error k later ≡ none)
    (timely : out_of_skew later now ≡ false) (free : (check_and_reserve c nonce at).0 ≡ true) where
  abbrev request : Request
  request = record {
    headers = hs;
    method = method;
    raw_target = target;
    expected_node_id = node_id;
    expected_route_authority = authority;
  }

  verify_stamp-sign :
      (verify_stamp verify get_public_key c request
        (norm_headers [] hs)
        (stamp_of (norm_headers [] hs))
        later
        at).0
      ≡ accepted node_id key_id
  unfolding build_route_signing_string signed_text
  verify_stamp-sign =
      let (node, key, n, same) =
        signed_lem sign print private_key key_id node_id authority method target nonce now hs h in
      let t : Text = print now in
      let sig : Text =
        sign private_key (build_route_signing_string node_id authority method target t nonce) in
      let s : Stamp = record {
        node_id = node_id;
        key_id = key_id;
        timestamp = t;
        nonce = nonce;
        signature = sig;
      } in
      let fine = well_formed node_id key_id t nonce sig node key (law.digits now) n (law.sized _) in
      let read : stamp_of (norm_headers [] hs) ≡ s =
        rw
          (
            ← same,
            stamp_five node_id key_id t nonce sig,
            node_id-trim node_id node,
            matches_hex-trim 32 key_id key,
            matches_hex-trim 32 nonce n,
            matches_digits-trim t (law.digits now),
            matches_hex-trim 128 sig (law.sized _),
          )
          refl in
      let host : incoming_authority (norm_headers [] hs) ≡ [] =
        rw (← same) (no_authority node_id key_id t nonce sig) in
      rw read (
        passes verify get_public_key c request (norm_headers [] hs) s later at k fine
          (rw (law.exact now) timely) (same_node node_id) known usable
          (rw host (authority_blank authority)) (law.verifies _) free)

  -- A request that the Hub signs, with the five headers of the signature and no other, is accepted by the
  -- node for which it is signed, under the key that belongs to the private key, where that key is usable, the
  -- skew is kept, the nonce is free and the node expects the same method, target and authority.
  pub verify-sign :
      (verify_route_request verify get_public_key c request later at).0 ≡ accepted node_id key_id
  unfolding verify_route_request
  verify-sign = verify_stamp-sign
