-- ===== src/Route.antt =====
-- src/registry/route-auth.mjs and src/registry/hub-route-keys.mjs: the requests that the Hub signs for a
-- node, the cache of nonces and the keys that a node trusts. Times are milliseconds. The signature scheme
-- of node:crypto is an argument, and so are `Date.parse` and the hash of a key: a key has the time of its
-- overlap parsed.
pub mod Auth
pub mod Keys
pub mod Cache
pub mod Replay
pub mod Sound
pub mod Signed
pub mod Trust
mod Tests
use dsh_orbit.Common.{
  ℕ, ◌+◌, ◌*◌, ◌-◌, Bool, true, false, ◌&&◌, Option, none, some, List, [], ◌∷◌, ◌++◌, ltb, leb,
  ◌==◌, if◌then◌else◌, length, all,
}
use dsh_orbit.Common.Text.{Text, Text-discrete, text, trim, to_lower, split}
use dsh_orbit.Common.JsMap.{get, put}
use dsh_orbit.Flows.{is_hex}

-- `^[0-9a-f]{n}$`
unfoldable pub matches_hex : ℕ → Text → Bool
unfolding is_hex
matches_hex n s = length s == n && all is_hex s

abbrev pub is_digit : ℕ → Bool
is_digit c = leb b'0' c && leb c b'9'

abbrev pub is_blank : Text → Bool
is_blank [] = true
is_blank (c ∷ s) = false

-- `^\d+$`, and the number that such a text stands for.
unfoldable pub matches_digits : Text → Bool
matches_digits [] = false
matches_digits (c ∷ s) = all is_digit (c ∷ s)

unfoldable pub number_from : ℕ → Text → ℕ
number_from n [] = n
number_from n (c ∷ s) = number_from (n * 10 + (c - b'0')) s

unfoldable pub number : Text → ℕ
unfolding number_from
number s = number_from 0 s

-- A nonce with the time at which it was seen, in the order of arrival.
pub record RouteNonceCache : Type 0 where
  pub retention_ms : ℕ
  pub nonces : List (Text × ℕ)

-- `purge` stops at the first nonce that is young enough.
unfoldable pub purge_from : ℕ → ℕ → List (Text × ℕ) → List (Text × ℕ)
purge_from retention at [] = []
purge_from retention at ((nonce, seen) ∷ m) =
    let rest = purge_from retention at m in
    if ltb (seen + retention) at then rest else (nonce, seen) ∷ m

unfoldable pub purge : RouteNonceCache → ℕ → RouteNonceCache
unfolding purge_from
purge c at = record c { nonces = purge_from c.retention_ms at c.nonces }

abbrev pub reserve : RouteNonceCache → Text → ℕ → Option ℕ → Bool × RouteNonceCache
reserve c nonce at none = (true, record c { nonces = put Text-discrete nonce at c.nonces })
reserve c nonce at (some seen) = (false, c)

unfoldable pub check_and_reserve : RouteNonceCache → Text → ℕ → Bool × RouteNonceCache
unfolding purge
check_and_reserve c nonce at =
    reserve (purge c at) nonce at (get Text-discrete nonce (purge c at).nonces)

-- The values of headers that are no string count as empty; a later value replaces an earlier one.
abbrev pub Headers : Type 0
Headers = List (Text × Option Text)

abbrev pub trimmed : Option Text → Text
trimmed none = []
trimmed (some v) = trim v

unfoldable pub norm_headers : List (Text × Text) → Headers → List (Text × Text)
unfolding trim to_lower
norm_headers m [] = m
norm_headers m ((k, v) ∷ hs) = norm_headers (put Text-discrete (to_lower k) (trimmed v) m) hs

abbrev pub or_blank : Option Text → Text
or_blank none = []
or_blank (some v) = v

unfoldable pub header : List (Text × Text) → Text → Text
header m name = or_blank (get Text-discrete name m)

abbrev pub head_of : List Text → Text
head_of [] = []
head_of (s ∷ ss) = s

-- `authority.split(":")[0].toLowerCase()`
unfoldable pub hostname : Text → Text
unfolding split to_lower
hostname s = to_lower (head_of (split b':' s))

pub data KeyState : Type 0 where
  provisioned active rotating revoked other_state : KeyState

-- `overlap_until` is `none` for no time, and `some none` for a text that is no time.
pub record RouteKey : Type 0 where
  pub public_key : Text
  pub state : KeyState
  pub overlap_until : Option (Option ℕ)

-- `[label, nodeId, ...].join("\n")`
unfoldable pub join_lines : List Text → Text
join_lines [] = []
join_lines (s ∷ []) = s
join_lines (s ∷ t ∷ ss) = s ++ 10 ∷ join_lines (t ∷ ss)

unfoldable pub build_route_signing_string :
    (node_id route_authority method raw_target timestamp nonce : Text) → Text
unfolding join_lines
build_route_signing_string node_id route_authority method raw_target timestamp nonce = join_lines (
    text "ORBIT-ROUTE-V1"
    ∷ node_id
    ∷ route_authority
    ∷ method
    ∷ raw_target
    ∷ timestamp
    ∷ nonce
    ∷ [])
