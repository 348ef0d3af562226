-- ===== src/Route/Sound.antt =====
-- What a request has that `verifyRouteRequest` of src/registry/route-auth.mjs accepts.
use dsh_orbit.Common.{
  ℕ, ◌+◌, ◌≤◌, ◌<◌, ◌≡◌, refl, sym, ◌∙◌, ◌⊎◌, inl, inr, Bool, true, false, ◌&&◌, not, Option, none,
  some, [], ◌∷◌, arith, Bool-cases, ltb,
}
use dsh_orbit.Common.Text.{Text, Text-discrete, text_eq}
use dsh_orbit.Common.JsMap.{get}
use dsh_orbit.Flows.{matches_node_id}
use dsh_orbit.Flows.Scope.{text_eq→eq}
use dsh_orbit.Route.{
  RouteNonceCache, RouteKey, KeyState, active, rotating, provisioned, revoked, other_state, number,
  norm_headers, check_and_reserve, is_blank, matches_hex, matches_digits, hostname,
  build_route_signing_string,
}
use dsh_orbit.Route.Auth.{
  RouteError, accepted, Request, Stamp, malformed, out_of_skew, key_error, state_error,
  overlap_error, or_else, incoming_authority, authority_differs, signed_text, verify_route_request,
}
use dsh_orbit.Route.Cache.{check_and_reserve-seen, check_and_reserve-new}
use dsh_orbit.Route.Replay.{stamp, accepted-IsChecked}

-- The forms of the five headers.
pub record HasForm (s : Stamp) : Type 0 where
  pub node_form : matches_node_id s.node_id ≡ true
  pub key_form : matches_hex 32 s.key_id ≡ true
  pub nonce_form : matches_hex 32 s.nonce ≡ true
  pub signature_form : matches_hex 128 s.signature ≡ true
  pub timestamp_form : matches_digits s.timestamp ≡ true

malformed-HasForm : (s : Stamp) → malformed s ≡ false → HasForm s
unfolding malformed
malformed-HasForm s h = record {
  node_form = ground arith;
  key_form = ground arith;
  nonce_form = ground arith;
  signature_form = ground arith;
  timestamp_form = ground arith;
}

-- A key that may be used at a time.
pub record IsUsable (key : RouteKey) (now : ℕ) : Type 0 where
  pub in_use : (key.state ≡ active) ⊎ (key.state ≡ rotating)
  pub overlap : (t : ℕ) → key.overlap_until ≡ some (some t) → now < t

state_in_use :
    (s : KeyState) (e : Option RouteError)
    → or_else (state_error s) e ≡ none
    → (s ≡ active) ⊎ (s ≡ rotating)
state_in_use active e h = inl refl
state_in_use rotating e h = inr refl
state_in_use provisioned e h = absurd cc
state_in_use revoked e h = absurd cc
state_in_use other_state e h = absurd cc

second_none : (e e' : Option RouteError) → or_else e e' ≡ none → e' ≡ none
second_none none e' h = h
second_none (some e) e' h = absurd cc

overlap_lasts :
    (o : Option (Option ℕ)) (now t : ℕ) → overlap_error o now ≡ none → o ≡ some (some t) → now < t
overlap_lasts o now t h e = ground arith

key_error-IsUsable : (k : RouteKey) (now : ℕ) → key_error k now ≡ none → IsUsable k now
unfolding key_error
key_error-IsUsable k now h = record {
  in_use = state_in_use k.state (overlap_error k.overlap_until now) h;
  overlap = λ t.
      overlap_lasts k.overlap_until now t
        (second_none (state_error k.state) (overlap_error k.overlap_until now) h);
}

blank_lem : (s : Text) → is_blank s ≡ true → s ≡ []
blank_lem [] h = refl
blank_lem (c ∷ s) h = absurd (ground arith)

right_node :
    (node expected : Text)
    → (not (is_blank expected) && not (text_eq node expected)) ≡ false
    → (expected ≡ []) ⊎ (node ≡ expected)
right_node node expected h = elim (Bool-cases (is_blank expected)) [
  | inl e ↦ inl (blank_lem expected e)
  | inr e ↦ inr (text_eq→eq node expected (ground arith))
]

right_host :
    (incoming host : Text)
    → (not (is_blank host) && not (is_blank incoming) && not (text_eq incoming host)) ≡ false
    → (host ≡ []) ⊎ (incoming ≡ []) ⊎ (incoming ≡ host)
right_host incoming host h = elim (Bool-cases (is_blank host)) [
  | inl e ↦ inl (blank_lem host e)
  | inr e ↦ elim (Bool-cases (is_blank incoming)) [
    | inl e' ↦ inr (inl (blank_lem incoming e'))
    | inr e' ↦ inr (inr (text_eq→eq incoming host (ground arith)))
  ]
]

skew : (now t : ℕ) → out_of_skew now t ≡ false → (t ≤ now + 30000) × (now ≤ t + 30000)
unfolding out_of_skew
skew now t h = (ground arith, ground arith)

module _ (verify : (public_key signing_string signature : Text) → Bool)
    (get_public_key : Text → Option RouteKey) where
  pub record IsAuthentic (r : Request) (s : Stamp) (now : ℕ) : Type 0 where
    pub form : HasForm s
    pub not_early : number s.timestamp ≤ now + 30000
    pub not_late : now ≤ number s.timestamp + 30000
    pub node : (r.expected_node_id ≡ []) ⊎ (s.node_id ≡ r.expected_node_id)
    pub authority :
        (hostname r.expected_route_authority ≡ [])
        ⊎ (incoming_authority (norm_headers [] r.headers) ≡ [])
        ⊎ (incoming_authority (norm_headers [] r.headers) ≡ hostname r.expected_route_authority)
    pub key : RouteKey
    pub known : get_public_key s.key_id ≡ some key
    pub usable : IsUsable key now
    pub signs :
        verify key.public_key
          (build_route_signing_string s.node_id r.expected_route_authority r.method r.raw_target
            s.timestamp s.nonce)
          s.signature
        ≡ true

  -- The nonce was not there, or was there for longer than it is kept; and it is there now.
  pub record IsFresh (c c' : RouteNonceCache) (nonce : Text) (at : ℕ) : Type 0 where
    pub gone :
        (seen : ℕ) → get Text-discrete nonce c.nonces ≡ some seen → seen + c.retention_ms < at
    pub held : get Text-discrete nonce c'.nonces ≡ some at

  free-gone :
      (c : RouteNonceCache) (nonce : Text) (at seen : ℕ)
      → (check_and_reserve c nonce at).0 ≡ true
      → get Text-discrete nonce c.nonces ≡ some seen
      → seen + c.retention_ms < at
  free-gone c nonce at seen free there = elim (Bool-cases (ltb (seen + c.retention_ms) at)) [
    | inl old ↦ ground arith
    | inr young ↦
        absurd (contrary (sym (check_and_reserve-seen c nonce seen at there (ground arith)) ∙ free))
  ]
    where
      contrary : false ≡ true → ⊥
      contrary e = cc

  -- A request that is accepted has the five headers in their forms, is at most 30 seconds old or early, is for
  -- the node and the authority that are expected, where both name one, and is signed, for its target, by a key
  -- that is known and in use and whose overlap has not ended; its nonce had not been seen, or longer ago than
  -- nonces are kept, and it is kept from then on.
  pub verify_route_request_sound :
      (c : RouteNonceCache) (r : Request) (now at : ℕ) (node_id key_id : Text)
      → (verify_route_request verify get_public_key c r now at).0 ≡ accepted node_id key_id
      → IsAuthentic r (stamp r) now
        × IsFresh c (verify_route_request verify get_public_key c r now at).1 (stamp r).nonce at
  unfolding authority_differs signed_text
  verify_route_request_sound c r now at node_id key_id h =
      let (g, (free, reserved)) =
        accepted-IsChecked verify get_public_key c r now at node_id key_id h in
      (
        record {
          form = malformed-HasForm (stamp r) g.well_formed;
          not_early = (skew now (number (stamp r).timestamp) g.in_time).0;
          not_late = (skew now (number (stamp r).timestamp) g.in_time).1;
          node = right_node (stamp r).node_id r.expected_node_id g.right_node;
          authority =
              right_host (incoming_authority (norm_headers [] r.headers))
                (hostname r.expected_route_authority) g.right_authority;
          key = g.key;
          known = g.known;
          usable = key_error-IsUsable g.key now g.usable;
          signs = g.verified;
        },
        record {
          gone = λ seen. free-gone c (stamp r).nonce at seen free;
          held = rw reserved (check_and_reserve-new c (stamp r).nonce at free);
        },
      )
