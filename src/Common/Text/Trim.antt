-- ===== src/Common/Text/Trim.antt =====
-- `trim` leaves a text without white space alone.
use mathlib.Core.Path.{◌≡◌, refl}
use mathlib.Core.Bool.{Bool, false, ◌||◌}
use mathlib.Core.List.{List, [], ◌∷◌, ◌++◌, reverse, reverse-cons, reverse-reverse}
use native.Mathlib.Omega.{arith}
use dsh_orbit.Common.Lists.{any}
use dsh_orbit.Common.Text.{Text, is_space, trim_start, trim}

pub any-append {ℓ} :
    {A : Type ℓ} (p : A → Bool) (xs ys : List A) → any p (xs ++ ys) ≡ any p xs || any p ys
any-append p [] ys = refl
any-append p (x ∷ xs) ys = ground (arith, any-append p xs ys)

pub any-reverse {ℓ} :
    {A : Type ℓ} (p : A → Bool) (xs : List A) → any p xs ≡ false → any p (reverse xs) ≡ false
any-reverse p [] h = refl
any-reverse p (x ∷ xs) h =
    rw (reverse-cons x xs, any-append p (reverse xs) (x ∷ [])) (ground (arith, any-reverse p xs))

pub trim_start-no_space : (s : Text) → any is_space s ≡ false → trim_start s ≡ s
unfolding trim_start
trim_start-no_space [] h = refl
trim_start-no_space (c ∷ s) h = ground arith

pub trim-no_space : (s : Text) → any is_space s ≡ false → trim s ≡ s
unfolding trim
trim-no_space s h =
    rw (trim_start-no_space s h, trim_start-no_space (reverse s) (any-reverse is_space s h))
      (reverse-reverse s)
