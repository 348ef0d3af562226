-- ===== src/Schedule/Cron/Steps.antt =====
-- Sets of numbers and the numbers that a range with a step names, in src/registry/schedule-parser.mjs.
use dsh_orbit.Common.{
  ℕ, zero, suc, ◌+◌, ◌*◌, ◌≤◌, ◌<◌, ◌≡◌, refl, sym, ap, ◌∙◌, ◌↔◌, ◌⊎◌, inl, inr, Bool, true, false,
  ◌&&◌, ◌||◌, List, [], ◌∷◌, ◌++◌, leb, ◌==◌, Bool-cases, arith, leb→le, ==→≡,
}
use native.Mathlib.Nat.{suc-mul, zero-mul}
use dsh_orbit.Schedule.Cron.{has, add, wrap_sunday, add_within, add_steps}

abbrev pub IsIn : ℕ → List ℕ → Type 0
IsIn v xs = has v xs ≡ true

has-snoc : (v x : ℕ) (xs : List ℕ) → has v (xs ++ x ∷ []) ≡ (has v xs || x == v)
has-snoc v x [] = or_false (x == v)
  where
    or_false : (b : Bool) → (b || false) ≡ b
    or_false true = refl
    or_false false = refl
has-snoc v x (y ∷ xs) = rw (has-snoc v x xs) (or_assoc (y == v) (has v xs) (x == v))
  where
    or_assoc : (a b c : Bool) → (a || (b || c)) ≡ ((a || b) || c)
    or_assoc true b c = refl
    or_assoc false b c = refl

pub or-split : (a b : Bool) → (a || b) ≡ true → (a ≡ true) ⊎ (b ≡ true)
or-split true b h = inl refl
or-split false b h = inr h

pub add-↔ : (v x : ℕ) (xs : List ℕ) → IsIn v (add x xs) ↔ (IsIn v xs ⊎ (x ≡ v))
add-↔ v x xs = elim (Bool-cases (has x xs)) [
  | inl e ↦ rw e ((λ h. inl h), (λ o. old e o))
  | inr e ↦ rw (e, has-snoc v x xs) ((λ h. new (or-split (has v xs) (x == v) h)), (λ o. joined o))
]
  where
    old : has x xs ≡ true → IsIn v xs ⊎ (x ≡ v) → IsIn v xs
    old e (inl h) = h
    old e (inr h) = rw⁻¹ h e

    new : IsIn v xs ⊎ ((x == v) ≡ true) → IsIn v xs ⊎ (x ≡ v)
    new (inl h) = inl h
    new (inr h) = inr (==→≡ x v h)

    joined : IsIn v xs ⊎ (x ≡ v) → (has v xs || x == v) ≡ true
    joined (inl h) = rw h refl
    joined (inr h) = ground arith

-- The numbers first, first + step, … up to last, 7 wrapped to 0 on request, that lie within the bounds.
abbrev pub Named : (lo hi : ℕ) → Bool → (first last step : ℕ) → ℕ → Type 0
Named lo hi allow first last step v =
    (n : ℕ) × (first + n * step ≤ last)
    × (wrap_sunday allow (first + n * step) ≡ v)
    × (lo ≤ v)
    × (v ≤ hi)

add_within-↔ :
    (lo hi v x : ℕ) (xs : List ℕ)
    → IsIn v (add_within lo hi x xs) ↔ (IsIn v xs ⊎ ((x ≡ v) × (lo ≤ v) × (v ≤ hi)))
add_within-↔ lo hi v x xs = elim (Bool-cases (leb lo x && leb x hi)) [
  | inl e ↦ rw e ((λ h. new e ((add-↔ v x xs).0 h)), (λ o. (add-↔ v x xs).1 (old o)))
  | inr e ↦ rw e ((λ h. inl h), (λ o. not_new e o))
]
  where
    new :
        (leb lo x && leb x hi) ≡ true
        → IsIn v xs ⊎ (x ≡ v)
        → IsIn v xs ⊎ ((x ≡ v) × (lo ≤ v) × (v ≤ hi))
    new e (inl h) = inl h
    new e (inr h) = inr (h, ground arith, ground arith)

    old : IsIn v xs ⊎ ((x ≡ v) × (lo ≤ v) × (v ≤ hi)) → IsIn v xs ⊎ (x ≡ v)
    old (inl h) = inl h
    old (inr (h, l, k)) = inr h

    not_new :
        (leb lo x && leb x hi) ≡ false → IsIn v xs ⊎ ((x ≡ v) × (lo ≤ v) × (v ≤ hi)) → IsIn v xs
    not_new e (inl h) = h
    not_new e (inr (h, l, k)) = absurd (ground arith)

module _ (lo hi : ℕ) (allow : Bool) (last step v : ℕ) where
  abbrev Here : ℕ → Type 0
  Here first = (wrap_sunday allow first ≡ v) × (lo ≤ v) × (v ≤ hi)

  at_zero : (first : ℕ) → first + 0 * step ≡ first
  at_zero first = omega (arith, zero-mul step)

  at_suc : (first n : ℕ) → first + suc n * step ≡ (first + step) + n * step
  at_suc first n = omega (arith, suc-mul n step)

  Named-Here : (first : ℕ) → first ≤ last → Here first → Named lo hi allow first last step v
  Named-Here first h (e, l, k) = (0, rw (at_zero first) h, rw (at_zero first) e, l, k)

  Named-later :
      (first : ℕ)
      → Named lo hi allow (first + step) last step v
      → Named lo hi allow first last step v
  Named-later first (n, h, e, l, k) = (suc n, rw (at_suc first n) h, rw (at_suc first n) e, l, k)

  Named-split :
      (first : ℕ)
      → Named lo hi allow first last step v
      → Here first ⊎ Named lo hi allow (first + step) last step v
  Named-split first (zero, h, e, l, k) =
      inl (ap (wrap_sunday allow) (sym (at_zero first)) ∙ e, l, k)
  Named-split first (suc n, h, e, l, k) =
      inr (n, rw⁻¹ (at_suc first n) h, rw⁻¹ (at_suc first n) e, l, k)

  pub add_steps-↔ :
      (fuel first : ℕ) (xs : List ℕ)
      → 0 < step
      → last < first + fuel
      → IsIn v (add_steps fuel lo hi allow first last step xs)
        ↔ (IsIn v xs ⊎ Named lo hi allow first last step v)
  unfolding add_steps
  add_steps-↔ zero first xs p h = ((λ i. inl i), (λ o. old o))
    where
      old : IsIn v xs ⊎ Named lo hi allow first last step v → IsIn v xs
      old (inl i) = i
      old (inr (n, le, w, l, k)) = absurd (omega arith)
  add_steps-↔ (suc fuel) first xs p h = elim (Bool-cases (leb first last)) [
    | inl e ↦ rw e (
        round e (
          add_steps-↔ fuel (first + step) (add_within lo hi (wrap_sunday allow first) xs) p
            (omega arith)))
    | inr e ↦ rw e ((λ i. inl i), (λ o. past e o))
  ]
    where
      past : leb first last ≡ false → IsIn v xs ⊎ Named lo hi allow first last step v → IsIn v xs
      past e (inl i) = i
      past e (inr (n, le, w, l, k)) = absurd (ground arith)

      round :
          leb first last ≡ true
          → {T : Type 0}
          → T ↔ (
              IsIn v (add_within lo hi (wrap_sunday allow first) xs)
              ⊎ Named lo hi allow (first + step) last step v)
          → T ↔ (IsIn v xs ⊎ Named lo hi allow first last step v)
      round e (f, g) = ((λ t. forth (f t)), (λ o. g (back o)))
        where
          within : IsIn v (add_within lo hi (wrap_sunday allow first) xs) ↔ (IsIn v xs ⊎ Here first)
          within = add_within-↔ lo hi v (wrap_sunday allow first) xs

          forth :
              IsIn v (add_within lo hi (wrap_sunday allow first) xs)
                ⊎ Named lo hi allow (first + step) last step v
              → IsIn v xs ⊎ Named lo hi allow first last step v
          forth (inl i) = elim (within.0 i) [
            | inl j ↦ inl j
            | inr j ↦ inr (Named-Here first (leb→le first last e) j)
          ]
          forth (inr n) = inr (Named-later first n)

          back :
              IsIn v xs ⊎ Named lo hi allow first last step v
              → IsIn v (add_within lo hi (wrap_sunday allow first) xs)
                ⊎ Named lo hi allow (first + step) last step v
          back (inl i) = inl (within.1 (inl i))
          back (inr n) = elim (Named-split first n) [
            | inl j ↦ inl (within.1 (inr j))
            | inr m ↦ inr m
          ]
