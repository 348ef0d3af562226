-- ===== src/Route/Cache.antt =====
-- The cache of nonces of src/registry/route-auth.mjs under a clock that does not go back.
use dsh_orbit.Common.{
  ℕ, ◌+◌, ◌≤◌, ◌≡◌, ◌≢◌, refl, inl, inr, Bool, true, false, not, none, some, List, [], ◌∷◌, arith,
  ltb, Bool-cases, Option-cases,
}
use mathlib.Core.Option.{some-injective}
use dsh_orbit.Common.Text.{Text, Text-discrete}
use dsh_orbit.Common.JsMap.{get, put, get-put, retain}
use dsh_orbit.Route.{RouteNonceCache, purge_from, purge, check_and_reserve}

-- What was seen a retention ago or later is kept.
purge_from-keeps :
    (retention at : ℕ) (nonce : Text) (seen : ℕ) (m : List (Text × ℕ))
    → get Text-discrete nonce m ≡ some seen
    → at ≤ seen + retention
    → get Text-discrete nonce (purge_from retention at m) ≡ some seen
unfolding purge_from get
purge_from-keeps retention at nonce seen [] h young = h
purge_from-keeps retention at nonce seen ((j, t) ∷ m) h young =
    ground (arith, some-injective t seen, purge_from-keeps retention at nonce seen m)

pub check_and_reserve-keeps :
    (c : RouteNonceCache) (nonce other : Text) (seen at : ℕ)
    → get Text-discrete nonce c.nonces ≡ some seen
    → at ≤ seen + c.retention_ms
    → get Text-discrete nonce (check_and_reserve c other at).1.nonces ≡ some seen
unfolding check_and_reserve purge
check_and_reserve-keeps c nonce other seen at h young =
    let kept = purge_from-keeps c.retention_ms at nonce seen c.nonces h young in
    elim (Option-cases (get Text-discrete other (purge_from c.retention_ms at c.nonces))) [
      | inr (t, found) ↦ rw found kept
      | inl missing ↦ rw missing (
          ground
            (arith, get-put Text-discrete other nonce at (purge_from c.retention_ms at c.nonces)))
    ]

-- A nonce that is there is refused.
pub check_and_reserve-seen :
    (c : RouteNonceCache) (nonce : Text) (seen at : ℕ)
    → get Text-discrete nonce c.nonces ≡ some seen
    → at ≤ seen + c.retention_ms
    → (check_and_reserve c nonce at).0 ≡ false
unfolding check_and_reserve purge
check_and_reserve-seen c nonce seen at h young =
    rw (purge_from-keeps c.retention_ms at nonce seen c.nonces h young) refl

pub check_and_reserve-new :
    (c : RouteNonceCache) (nonce : Text) (at : ℕ)
    → (check_and_reserve c nonce at).0 ≡ true
    → get Text-discrete nonce (check_and_reserve c nonce at).1.nonces ≡ some at
unfolding check_and_reserve purge
check_and_reserve-new c nonce at h =
    elim (Option-cases (get Text-discrete nonce (purge_from c.retention_ms at c.nonces))) [
      | inr (t, found) ↦ let bad : false ≡ true = rw found at h in cc
      | inl missing ↦ rw missing (
          ground
            (arith, get-put Text-discrete nonce nonce at (purge_from c.retention_ms at c.nonces)))
    ]

pub check_and_reserve-retention :
    (c : RouteNonceCache) (nonce : Text) (at : ℕ)
    → (check_and_reserve c nonce at).1.retention_ms ≡ c.retention_ms
unfolding check_and_reserve purge
check_and_reserve-retention c nonce at =
    elim (Option-cases (get Text-discrete nonce (purge_from c.retention_ms at c.nonces))) [
      | inr (t, found) ↦ rw found refl
      | inl missing ↦ rw missing refl
    ]

-- Nonces in the order of their times.
pub data IsOrdered : List (Text × ℕ) → Type 0 where
  no_nonce : IsOrdered []
  one_nonce : (n : Text) (t : ℕ) → IsOrdered ((n, t) ∷ [])
  then_nonce :
      {n k : Text} {t u : ℕ} {m : List (Text × ℕ)}
      → t ≤ u
      → IsOrdered ((k, u) ∷ m)
      → IsOrdered ((n, t) ∷ (k, u) ∷ m)

abbrev pub young : ℕ → ℕ → ℕ → Bool
young retention at seen = not (ltb (seen + retention) at)

retain-young :
    (retention at : ℕ) (n : Text) (t : ℕ) (m : List (Text × ℕ))
    → IsOrdered ((n, t) ∷ m)
    → at ≤ t + retention
    → retain (young retention at) ((n, t) ∷ m) ≡ (n, t) ∷ m
unfolding retain
retain-young retention at _ _ _ (one_nonce n t) h = ground arith
retain-young retention at _ _ _ (then_nonce {n} {k} {t} {u} {m} le o) h =
    ground (arith, retain-young retention at k u m o)

tail-IsOrdered : (n : Text) (t : ℕ) (m : List (Text × ℕ)) → IsOrdered ((n, t) ∷ m) → IsOrdered m
tail-IsOrdered n t _ (one_nonce _ _) = no_nonce
tail-IsOrdered n t _ (then_nonce le o) = o

purge_from_filter :
    (retention at : ℕ) (m : List (Text × ℕ))
    → IsOrdered m
    → purge_from retention at m ≡ retain (young retention at) m
unfolding purge_from retain
purge_from_filter retention at [] o = refl
purge_from_filter retention at ((n, t) ∷ m) o = elim (Bool-cases (ltb (t + retention) at)) [
  | inl old ↦ rw old (purge_from_filter retention at m (tail-IsOrdered n t m o))
  | inr recent ↦ ground (arith, retain-young retention at n t m o)
]

pub purge_is_filter :
    (c : RouteNonceCache) (at : ℕ)
    → IsOrdered c.nonces
    → (purge c at).nonces ≡ retain (young c.retention_ms at) c.nonces
unfolding purge
purge_is_filter c at o = purge_from_filter c.retention_ms at c.nonces o

-- No time is later than a time.
abbrev pub ArePast : ℕ → List (Text × ℕ) → Type 0
ArePast now [] = Unit
ArePast now ((n, t) ∷ m) = (t ≤ now) × ArePast now m

pub ArePast-later :
    (now later : ℕ) (m : List (Text × ℕ)) → now ≤ later → ArePast now m → ArePast later m
ArePast-later now later [] le p = tt
ArePast-later now later ((n, t) ∷ m) le (before, p) = (omega arith, ArePast-later now later m le p)

purge_from-IsOrdered :
    (retention at now : ℕ) (m : List (Text × ℕ))
    → IsOrdered m
    → ArePast now m
    → IsOrdered (purge_from retention at m) × ArePast now (purge_from retention at m)
unfolding purge_from
purge_from-IsOrdered retention at now [] o p = (o, p)
purge_from-IsOrdered retention at now ((n, t) ∷ m) o (before, p) =
    elim (Bool-cases (ltb (t + retention) at)) [
      | inl old ↦ rw old (purge_from-IsOrdered retention at now m (tail-IsOrdered n t m o) p)
      | inr recent ↦ rw recent (o, (before, p))
    ]

put_ne :
    (n k : Text) (at u : ℕ) (m : List (Text × ℕ))
    → k ≢ n
    → put Text-discrete n at ((k, u) ∷ m) ≡ (k, u) ∷ put Text-discrete n at m
unfolding put
put_ne n k at u m e = ground arith

get-none_ne :
    (n k : Text) (u : ℕ) (m : List (Text × ℕ))
    → get Text-discrete n ((k, u) ∷ m) ≡ none
    → (k ≢ n) × (get Text-discrete n m ≡ none)
unfolding get
get-none_ne n k u m h = elim (Text-discrete k n) [
  | yes e ↦ let bad : some u ≡ none = ground arith in cc
  | no e ↦ (e, ground arith)
]

put-IsOrdered :
    (n : Text) (at : ℕ) (m : List (Text × ℕ))
    → get Text-discrete n m ≡ none
    → IsOrdered m
    → ArePast at m
    → IsOrdered (put Text-discrete n at m) × ArePast at (put Text-discrete n at m)
unfolding put
put-IsOrdered n at [] h o p = (one_nonce n at, (omega arith, tt))
put-IsOrdered n at ((k, u) ∷ []) h o (before, p) =
    let (other, rest) = get-none_ne n k u [] h in
    rw (put_ne n k at u [] other) (then_nonce before (one_nonce n at), (before, (omega arith, tt)))
put-IsOrdered n at ((k, u) ∷ (j, v) ∷ m) h (then_nonce le o) (before, p) =
    let (other, rest) = get-none_ne n k u ((j, v) ∷ m) h in
    let (differs, none_there) = get-none_ne n j v m rest in
    let (o', p') = put-IsOrdered n at ((j, v) ∷ m) rest o p in
    let o'' : IsOrdered ((j, v) ∷ put Text-discrete n at m) =
      rw (put_ne n j at v m differs) at o' in
    rw (put_ne n k at u ((j, v) ∷ m) other)
      (rw (put_ne n j at v m differs) (then_nonce le o''), (before, p'))

pub check_and_reserve-IsOrdered :
    (c : RouteNonceCache) (nonce : Text) (at : ℕ)
    → IsOrdered c.nonces
    → ArePast at c.nonces
    → IsOrdered (check_and_reserve c nonce at).1.nonces
      × ArePast at (check_and_reserve c nonce at).1.nonces
unfolding check_and_reserve purge
check_and_reserve-IsOrdered c nonce at o p =
    let (o', p') = purge_from-IsOrdered c.retention_ms at at c.nonces o p in
    elim (Option-cases (get Text-discrete nonce (purge_from c.retention_ms at c.nonces))) [
      | inr (t, found) ↦ rw found (o', p')
      | inl missing ↦
          rw missing (put-IsOrdered nonce at (purge_from c.retention_ms at c.nonces) missing o' p')
    ]
