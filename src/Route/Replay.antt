-- ===== src/Route/Replay.antt =====
-- Requests to a node, checked one after the other by src/registry/route-auth.mjs: which are accepted, and
-- that none is accepted twice.
use dsh_orbit.Common.{
  ℕ, ◌+◌, ◌≤◌, ◌≡◌, refl, ◌∙◌, ◌⊎◌, inl, inr, Bool, true, false, ◌&&◌, not, Option, none, some,
  List, [], arith, Bool-cases, Option-cases,
}
use dsh_orbit.Common.Text.{Text, Text-discrete, text_eq}
use dsh_orbit.Common.JsMap.{get, retain}
use dsh_orbit.Route.{
  RouteNonceCache, RouteKey, number, norm_headers, check_and_reserve, purge, is_blank,
}
use dsh_orbit.Route.Auth.{
  RouteError, Verdict, accepted, denied, Request, Stamp, stamp_of, malformed, out_of_skew,
  key_error, incoming_authority, authority_differs, signed_text, finish, with_key, look_up,
  verify_stamp, verify_route_request,
}
use dsh_orbit.Route.Cache.{
  check_and_reserve-keeps, check_and_reserve-seen, check_and_reserve-new,
  check_and_reserve-retention, IsOrdered, no_nonce, young, purge_is_filter, ArePast, ArePast-later,
  check_and_reserve-IsOrdered,
}

in_skew :
    (now later t : ℕ)
    → out_of_skew now t ≡ false
    → out_of_skew later t ≡ false
    → later ≤ now + 60000
unfolding out_of_skew
in_skew now later t h k = ground arith

-- The headers of a request that are checked.
abbrev pub stamp : Request → Stamp
stamp r = stamp_of (norm_headers [] r.headers)

module _ (verify : (public_key signing_string signature : Text) → Bool)
    (get_public_key : Text → Option RouteKey) where
  -- What a request has that is accepted.
  pub record IsChecked (r : Request) (m : List (Text × Text)) (s : Stamp) (now : ℕ) : Type 0 where
    pub well_formed : malformed s ≡ false
    pub right_node :
        (not (is_blank r.expected_node_id) && not (text_eq s.node_id r.expected_node_id)) ≡ false
    pub right_authority :
        authority_differs (incoming_authority m) r.expected_route_authority ≡ false
    pub in_time : out_of_skew now (number s.timestamp) ≡ false
    pub key : RouteKey
    pub known : get_public_key s.key_id ≡ some key
    pub usable : key_error key now ≡ none
    pub verified : verify key.public_key (signed_text r s) s.signature ≡ true

  abbrev pub Reserves : RouteNonceCache → Stamp → ℕ → Verdict × RouteNonceCache → Type 0
  Reserves c s at v =
      ((check_and_reserve c s.nonce at).0 ≡ true) × (v.1 ≡ (check_and_reserve c s.nonce at).1)

  -- The cache is as it was, or a nonce was looked up in it.
  abbrev pub Touches : RouteNonceCache → Stamp → ℕ → RouteNonceCache → Type 0
  Touches c s at c' = (c' ≡ c) ⊎ (c' ≡ (check_and_reserve c s.nonce at).1)

  finish-Touches :
      (c : RouteNonceCache) (s : Stamp) (now : ℕ) (p : Bool × RouteNonceCache)
      → (finish verify c s p).1 ≡ p.1
  finish-Touches c s now (true, c') = refl
  finish-Touches c s now (false, c') = refl

  finish-Reserves :
      (c : RouteNonceCache) (s : Stamp) (p : Bool × RouteNonceCache) (n k : Text)
      → (finish verify c s p).0 ≡ accepted n k
      → (p.0 ≡ true) × ((finish verify c s p).1 ≡ p.1)
  finish-Reserves c s (true, c') n k h = (refl, refl)
  finish-Reserves c s (false, c') n k h = cc

  -- What is known when the key has been found.
  abbrev Checks :
      RouteNonceCache
      → Request
      → List (Text × Text)
      → Stamp
      → ℕ
      → ℕ
      → RouteKey
      → Verdict × RouteNonceCache
      → Type 0
  Checks c r m s now at k v =
      Touches c s at v.1
      × ((a b : Text)
          → v.0 ≡ accepted a b
          → (key_error k now ≡ none)
            × (authority_differs (incoming_authority m) r.expected_route_authority ≡ false)
            × (verify k.public_key (signed_text r s) s.signature ≡ true)
            × Reserves c s at v)

  with_key-Checks :
      (c : RouteNonceCache) (r : Request) (m : List (Text × Text)) (s : Stamp) (now at : ℕ)
      (k : RouteKey) (e : Option RouteError)
      → key_error k now ≡ e
      → Checks c r m s now at k (with_key verify c r m s now at k e)
  with_key-Checks c r m s now at k (some e) h = (inl refl, λ a b p. cc)
  with_key-Checks c r m s now at k none h =
      elim (Bool-cases (authority_differs (incoming_authority m) r.expected_route_authority)) [
        | inl differs ↦ rw differs (inl refl, λ a b p. absurd (denied_not _ a b p))
        | inr agrees ↦ elim (Bool-cases (verify k.public_key (signed_text r s) s.signature)) [
          | inr forged ↦ rw (agrees, forged) (inl refl, λ a b p. absurd (denied_not _ a b p))
          | inl genuine ↦
              rw (agrees, genuine)
                (
                  inr (finish-Touches c s at (check_and_reserve c s.nonce at)),
                  λ a b p.
                      (h, refl, refl, finish-Reserves c s (check_and_reserve c s.nonce at) a b p),
                )
        ]
      ]
    where
      denied_not : (e : RouteError) (a b : Text) → denied e ≡ accepted a b → ⊥
      denied_not e a b p = cc

  abbrev Outcome :
      RouteNonceCache
      → Request
      → List (Text × Text)
      → Stamp
      → ℕ
      → ℕ
      → Verdict × RouteNonceCache
      → Type 0
  Outcome c r m s now at v =
      Touches c s at v.1
      × ((a b : Text) → v.0 ≡ accepted a b → IsChecked r m s now × Reserves c s at v)

  refused-Outcome :
      (c : RouteNonceCache) (r : Request) (m : List (Text × Text)) (s : Stamp) (now at : ℕ)
      (e : RouteError)
      → Outcome c r m s now at (denied e, c)
  refused-Outcome c r m s now at e = (inl refl, λ a b p. cc)

  verify_stamp-Outcome :
      (c : RouteNonceCache) (r : Request) (m : List (Text × Text)) (s : Stamp) (now at : ℕ)
      → Outcome c r m s now at (verify_stamp verify get_public_key c r m s now at)
  unfolding verify_stamp
  verify_stamp-Outcome c r m s now at = elim (Bool-cases (malformed s)) [
    | inl bad ↦ rw bad (refused-Outcome c r m s now at RouteError.bad_request)
    | inr good ↦ elim (Bool-cases (out_of_skew now (number s.timestamp))) [
      | inl late ↦ rw (good, late) (refused-Outcome c r m s now at RouteError.timestamp_out_of_skew)
      | inr timely ↦
          elim (Bool-cases
            (not (is_blank r.expected_node_id) && not (text_eq s.node_id r.expected_node_id))) [
              | inl other ↦
                  rw (good, timely, other) (refused-Outcome c r m s now at RouteError.node_mismatch)
              | inr same ↦ rw (good, timely, same) (looked_up good timely same)
            ]
    ]
  ]
    where
      looked_up :
          malformed s ≡ false
          → out_of_skew now (number s.timestamp) ≡ false
          → (not (is_blank r.expected_node_id) && not (text_eq s.node_id r.expected_node_id))
            ≡ false
          → Outcome c r m s now at (look_up verify c r m s now at (get_public_key s.key_id))
      looked_up good timely right = elim (Option-cases (get_public_key s.key_id)) [
        | inl missing ↦ rw missing (refused-Outcome c r m s now at RouteError.unknown_key)
        | inr (k, found) ↦
            let (touches, checks) = with_key-Checks c r m s now at k (key_error k now) refl in
            rw found (
              touches,
              λ a b p.
                  let (usable, agrees, genuine, reserves) = checks a b p in
                  (
                    record {
                      well_formed = good;
                      right_node = right;
                      right_authority = agrees;
                      in_time = timely;
                      key = k;
                      known = found;
                      usable = usable;
                      verified = genuine;
                    },
                    reserves,
                  ),
            )
      ]

  pub accepted-IsChecked :
      (c : RouteNonceCache) (r : Request) (now at : ℕ) (node_id key_id : Text)
      → (verify_route_request verify get_public_key c r now at).0 ≡ accepted node_id key_id
      → IsChecked r (norm_headers [] r.headers) (stamp r) now
        × Reserves c (stamp r) at (verify_route_request verify get_public_key c r now at)
  unfolding verify_route_request
  accepted-IsChecked c r now at node_id key_id h =
      (verify_stamp-Outcome c r (norm_headers [] r.headers) (stamp r) now at).1 node_id key_id h

  touched :
      (c : RouteNonceCache) (r : Request) (now at : ℕ)
      → Touches c (stamp r) at (verify_route_request verify get_public_key c r now at).1
  unfolding verify_route_request
  touched c r now at = (verify_stamp-Outcome c r (norm_headers [] r.headers) (stamp r) now at).0

  -- The cache after some more requests; its own clock does not go back.
  pub data Later (c : RouteNonceCache) (start : ℕ) : RouteNonceCache → ℕ → Type 0 where
    at_once : Later c start c start
    then_checks :
        {c' : RouteNonceCache} {time : ℕ} (r : Request) (now at : ℕ)
        → Later c start c' time
        → time ≤ at
        → Later c start (verify_route_request verify get_public_key c' r now at).1 at

  keeps :
      (c : RouteNonceCache) (r : Request) (now at : ℕ) (nonce : Text) (seen : ℕ)
      → get Text-discrete nonce c.nonces ≡ some seen
      → at ≤ seen + c.retention_ms
      → (get Text-discrete nonce (verify_route_request verify get_public_key c r now at).1.nonces
          ≡ some seen)
        × ((verify_route_request verify get_public_key c r now at).1.retention_ms ≡ c.retention_ms)
  keeps c r now at nonce seen h young_ = elim (touched c r now at) [
    | inl same ↦ rw same (h, refl)
    | inr reserves ↦ rw reserves (
      check_and_reserve-keeps c nonce (stamp r).nonce seen at h young_,
      check_and_reserve-retention c (stamp r).nonce at,
    )
  ]

  Later-keeps :
      (c : RouteNonceCache) (start : ℕ) (c' : RouteNonceCache) (time : ℕ) (nonce : Text) (seen : ℕ)
      → get Text-discrete nonce c.nonces ≡ some seen
      → Later c start c' time
      → time ≤ seen + c.retention_ms
      → (get Text-discrete nonce c'.nonces ≡ some seen) × (c'.retention_ms ≡ c.retention_ms)
  Later-keeps c start _ _ nonce seen h at_once young_ = (h, refl)
  Later-keeps c start _ _ nonce seen h (then_checks {c'} {time} r now at l le) young_ =
      let (there, same) = Later-keeps c start c' time nonce seen h l (omega arith) in
      let (still, same') = keeps c' r now at nonce seen there (omega arith) in (still, same' ∙ same)

  -- A request that was accepted is not accepted again, nor is any other with its nonce and its timestamp,
  -- however many requests come in between, where a node keeps nonces for a minute and `lag` longer: the
  -- cache reads its clock after the first request was given its time, and at most `lag` after the second was.
  -- The clock of the cache does not go back.
  pub no_replay :
      (lag : ℕ) (c c' : RouteNonceCache) (r again : Request) (now at time later again_at : ℕ)
      (a b d e : Text)
      → 60000 + lag ≤ c.retention_ms
      → now ≤ at
      → (verify_route_request verify get_public_key c r now at).0 ≡ accepted a b
      → Later (verify_route_request verify get_public_key c r now at).1 at c' time
      → time ≤ again_at
      → again_at ≤ later + lag
      → (stamp again).nonce ≡ (stamp r).nonce
      → (stamp again).timestamp ≡ (stamp r).timestamp
      → ¬ (verify_route_request verify get_public_key c' again later again_at).0 ≡ accepted d e
  no_replay lag c c' r again now at time later again_at a b d e long read first l le soon nonce
        timestamp second =
      let (g, (free, reserved)) = accepted-IsChecked c r now at a b first in
      let (g', (free', reserved')) = accepted-IsChecked c' again later again_at d e second in
      let seen : get Text-discrete (stamp r).nonce
            (verify_route_request verify get_public_key c r now at).1.nonces
          ≡ some at =
        rw reserved (check_and_reserve-new c (stamp r).nonce at free) in
      let kept : (verify_route_request verify get_public_key c r now at).1.retention_ms
          ≡ c.retention_ms =
        rw reserved (check_and_reserve-retention c (stamp r).nonce at) in
      let near : later ≤ now + 60000 =
        in_skew now later (number (stamp r).timestamp) g.in_time (rw timestamp at g'.in_time) in
      let (still, same) = Later-keeps _ at c' time (stamp r).nonce at seen l (omega arith) in
      let refused = check_and_reserve-seen c' (stamp r).nonce at again_at still (omega arith) in
      let free'' : (check_and_reserve c' (stamp r).nonce again_at).0 ≡ true = rw nonce at free' in
      cc

  Later-IsOrdered :
      (c : RouteNonceCache) (start : ℕ) (c' : RouteNonceCache) (time : ℕ)
      → IsOrdered c.nonces
      → ArePast start c.nonces
      → Later c start c' time
      → IsOrdered c'.nonces × ArePast time c'.nonces
  Later-IsOrdered c start _ _ o p at_once = (o, p)
  Later-IsOrdered c start _ _ o p (then_checks {c'} {time} r now at l le) =
      let (o', p') = Later-IsOrdered c start c' time o p l in
      let p'' = ArePast-later time at c'.nonces le p' in
      elim (touched c' r now at) [
        | inl same ↦ rw same (o', p'')
        | inr reserves ↦ rw reserves (check_and_reserve-IsOrdered c' (stamp r).nonce at o' p'')
      ]

  -- After any number of requests to a node that starts with no nonces, `purge`, which stops at the first
  -- nonce that is young enough, removes every nonce that is too old. The clock does not go back.
  pub purge_removes_all_old :
      (retention start : ℕ) (c' : RouteNonceCache) (time at : ℕ)
      → Later (record { retention_ms = retention; nonces = [] }) start c' time
      → (purge c' at).nonces ≡ retain (young c'.retention_ms at) c'.nonces
  purge_removes_all_old retention start c' time at l =
      purge_is_filter c' at
        (Later-IsOrdered (record { retention_ms = retention; nonces = [] }) start c' time no_nonce
          tt l).0
