-- ===== src/Common/JsMap/Keys.antt =====
-- Maps with distinct keys, which is what the operations make, and the sizes of what they hold.
use Prim.Native.Nat.{ℕ, ◌+◌}
use mathlib.Core.Path.{◌≡◌, refl}
use mathlib.Core.Option.{Option, none, some}
use mathlib.Core.List.{List, [], ◌∷◌}
use native.Mathlib.Omega.{arith}
use dsh_orbit.Common.Lists.{length}
use dsh_orbit.Common.JsMap.{get, put, remove, get-put, get-remove}

module _ {K V : Type 0} (d : Discrete K) where
  abbrev pub Distinct : List (K × V) → Type 0
  Distinct [] = Unit
  Distinct ((k, v) ∷ m) = (get d k m ≡ none) × Distinct m

  pub put-Distinct : (k : K) (v : V) (m : List (K × V)) → Distinct m → Distinct (put d k v m)
  unfolding put get
  put-Distinct k v [] h = (refl, tt)
  put-Distinct k v ((j, w) ∷ m) (fresh, h) = ground (arith, put-Distinct k v m h, get-put d k j v m)

  pub remove-Distinct : (k : K) (m : List (K × V)) → Distinct m → Distinct (remove d k m)
  unfolding remove
  remove-Distinct k [] h = tt
  remove-Distinct k ((j, w) ∷ m) (fresh, h) =
      ground (arith, remove-Distinct k m h, get-remove d k j m)

  pub remove-none : (k : K) (m : List (K × V)) → get d k m ≡ none → remove d k m ≡ m
  unfolding remove get
  remove-none k [] h = refl
  remove-none k ((j, w) ∷ m) h = ground (arith, remove-none k m)

  pub remove-put_new :
      (k : K) (v : V) (m : List (K × V)) → get d k m ≡ none → remove d k (put d k v m) ≡ m
  unfolding remove get put
  remove-put_new k v [] h = ground arith
  remove-put_new k v ((j, w) ∷ m) h = ground (arith, remove-put_new k v m)

  pub put-put_self :
      (k : K) (v w : V) (m : List (K × V)) → get d k m ≡ some w → put d k w (put d k v m) ≡ m
  unfolding get put
  put-put_self k v w [] h = cc
  put-put_self k v w ((j, x) ∷ m) h = ground (arith, put-put_self k v w m)

  pub length-remove :
      (k : K) (v : V) (m : List (K × V))
      → Distinct m
      → get d k m ≡ some v
      → length (remove d k m) + 1 ≡ length m
  unfolding remove get
  length-remove k v [] h e = cc
  length-remove k v ((j, w) ∷ m) (fresh, h) e =
      ground (arith, length-remove k v m h, remove-none k m)

-- Maps from keys to collections, and the number of elements in all of them.
module _ {K X : Type 0} (d : Discrete K) where
  abbrev pub size_of : Option (List X) → ℕ
  size_of none = 0
  size_of (some s) = length s

  unfoldable pub total : List (K × List X) → ℕ
  total [] = 0
  total ((k, s) ∷ m) = length s + total m

  pub total-put :
      (k : K) (s : List X) (m : List (K × List X))
      → total (put d k s m) + size_of (get d k m) ≡ total m + length s
  unfolding total put get
  total-put k s [] = omega arith
  total-put k s ((j, w) ∷ m) = ground (arith, total-put k s m)

  pub total-remove :
      (k : K) (m : List (K × List X))
      → Distinct d m
      → total (remove d k m) + size_of (get d k m) ≡ total m
  unfolding total remove get
  total-remove k [] h = omega arith
  total-remove k ((j, w) ∷ m) (fresh, h) = ground (arith, total-remove k m h, remove-none d k m)

-- The sum of a weight over the values of a map.
module _ {K V : Type 0} (d : Discrete K) (w : V → ℕ) where
  unfoldable pub weigh : List (K × V) → ℕ
  weigh [] = 0
  weigh ((k, v) ∷ m) = w v + weigh m

  abbrev pub weight_at : Option V → ℕ
  weight_at none = 0
  weight_at (some v) = w v

  pub weigh-put :
      (k : K) (v : V) (m : List (K × V))
      → weigh (put d k v m) + weight_at (get d k m) ≡ weigh m + w v
  unfolding weigh put get
  weigh-put k v [] = omega arith
  weigh-put k v ((j, x) ∷ m) = ground (arith, weigh-put k v m)

module _ {K V : Type 0} (d : Discrete K) where
  pub length-put_old :
      (k : K) (v w : V) (m : List (K × V)) → get d k m ≡ some w → length (put d k v m) ≡ length m
  unfolding get put
  length-put_old k v w [] h = cc
  length-put_old k v w ((j, x) ∷ m) h = ground (arith, length-put_old k v w m)
