-- ===== src/Schedule/Cron/Fields.antt =====
-- Which numbers a field of a cron expression names, in src/registry/schedule-parser.mjs.
use dsh_orbit.Common.{
  ℕ, zero, suc, ◌+◌, ◌-◌, ◌≤◌, ◌<◌, ◌≡◌, ◌↔◌, ◌⊎◌, inl, inr, Bool, true, false, ◌||◌, List, [], ◌∷◌,
  ltb, ◌==◌, if◌then◌else◌, Bool-cases, arith, ==→≡,
}
use mathlib.Core.Sum.{inr-injective}
use dsh_orbit.Common.Text.{Text, text, text_eq, trim, split}
use dsh_orbit.Schedule.Cron.{
  ParseError, Numeral, no_integer, negative, natural, add, add_all, Parsed, blank, range_of,
  add_range, with_step, step_parts, add_part, add_parts, nonempty, parse_cron_field,
  invalid_cron_field,
}
use dsh_orbit.Schedule.Cron.Steps.{IsIn, add-↔, Named, add_steps-↔}

-- `*` on its own names every number of the field.
add_all-↔ :
    (n i v : ℕ) (xs : List ℕ) → IsIn v (add_all n i xs) ↔ (IsIn v xs ⊎ ((i ≤ v) × (v < i + n)))
add_all-↔ zero i v xs = ((λ h. inl h), old)
  where
    old : IsIn v xs ⊎ ((i ≤ v) × (v < i + 0)) → IsIn v xs
    old (inl h) = h
    old (inr (l, k)) = absurd (omega arith)
add_all-↔ (suc n) i v xs = (
  (λ h. new ((add_all-↔ n (i + 1) v (add i xs)).0 h)),
  (λ o. (add_all-↔ n (i + 1) v (add i xs)).1 (old o)),
)
  where
    new :
        IsIn v (add i xs) ⊎ ((i + 1 ≤ v) × (v < i + 1 + n))
        → IsIn v xs ⊎ ((i ≤ v) × (v < i + suc n))
    new (inl h) = elim ((add-↔ v i xs).0 h) [
      | inl j ↦ inl j
      | inr e ↦ inr (omega arith, omega arith)
    ]
    new (inr (l, k)) = inr (omega arith, omega arith)

    old :
        IsIn v xs ⊎ ((i ≤ v) × (v < i + suc n))
        → IsIn v (add i xs) ⊎ ((i + 1 ≤ v) × (v < i + 1 + n))
    old (inl h) = inl ((add-↔ v i xs).1 (inl h))
    old (inr (l, k)) = elim (Bool-cases (i == v)) [
      | inl e ↦ inl ((add-↔ v i xs).1 (inr (==→≡ i v e)))
      | inr e ↦ inr (ground arith, omega arith)
    ]

module _ (number : Text → Numeral) (lo hi : ℕ) (allow : Bool) where
  -- What a range and a step name.
  abbrev pub RangeNames : ℕ → ParseError ⊎ (Numeral × Numeral) → ℕ → Type 0
  RangeNames step (inr (natural first, natural last)) v = Named lo hi allow first last step v
  RangeNames step _ v = ⊥

  abbrev pub StepNames : Text → Numeral → ℕ → Type 0
  StepNames range (natural step) v = RangeNames step (range_of number lo hi true range) v
  StepNames range _ v = ⊥

  abbrev pub PartsName : List Text → ℕ → Type 0
  PartsName (range ∷ []) v = RangeNames 1 (range_of number lo hi false range) v
  PartsName (range ∷ step ∷ []) v = StepNames range (number step) v
  PartsName _ v = ⊥

  -- What a part between commas names: `*` alone, or a range, with a step or without.
  abbrev pub StarNames : Bool → List Text → ℕ → Type 0
  StarNames true parts v = (lo ≤ v) × (v ≤ hi)
  StarNames false parts v = PartsName parts v

  abbrev pub PartNames : Text → ℕ → Type 0
  PartNames part v = StarNames (text_eq part (text "*")) (split b'/' part) v

  abbrev pub SomeNames : List Text → ℕ → Type 0
  SomeNames [] v = ⊥
  SomeNames (part ∷ parts) v = PartNames part v ⊎ SomeNames parts v

  abbrev Adds : List ℕ → Parsed → (ℕ → Type 0) → Type 0
  Adds values (inl e) names = Unit
  Adds values (inr out) names = (v : ℕ) → IsIn v out ↔ (IsIn v values ⊎ names v)

  add_range-Adds :
      (step : ℕ) (values : List ℕ) (range : ParseError ⊎ (Numeral × Numeral))
      → 0 < step
      → Adds values (add_range lo hi allow step values range) (RangeNames step range)
  unfolding add_range
  add_range-Adds step values (inl e) p = tt
  add_range-Adds step values (inr (natural first, natural last)) p =
      elim (Bool-cases
        (ltb first lo || ltb (if allow then hi + 1 else hi) last || ltb last first)) [
          | inl e ↦ rw e tt
          | inr e ↦
              rw e
                (λ v. add_steps-↔ lo hi allow last step v (last + 1) first values p (omega arith))
        ]
  add_range-Adds step values (inr (natural first, negative)) p = tt
  add_range-Adds step values (inr (natural first, no_integer)) p = tt
  add_range-Adds step values (inr (negative, last)) p = tt
  add_range-Adds step values (inr (no_integer, last)) p = tt

  step_parts-Adds :
      (values : List ℕ) (parts : List Text)
      → Adds values (step_parts number lo hi allow values parts) (PartsName parts)
  step_parts-Adds values [] = tt
  step_parts-Adds values (range ∷ []) =
      add_range-Adds 1 values (range_of number lo hi false range) (omega arith)
  step_parts-Adds values (range ∷ step ∷ []) = go (number step)
    where
      go :
          (n : Numeral)
          → Adds values (with_step number lo hi allow range values n) (StepNames range n)
      go no_integer = tt
      go negative = tt
      go (natural zero) = tt
      go (natural (suc n)) =
          add_range-Adds (suc n) values (range_of number lo hi true range) (omega arith)
  step_parts-Adds values (range ∷ step ∷ more ∷ parts) = tt

  star-Adds :
      (values : List ℕ) (v : ℕ)
      → lo ≤ hi
      → IsIn v (add_all (hi + 1 - lo) lo values) ↔ (IsIn v values ⊎ ((lo ≤ v) × (v ≤ hi)))
  star-Adds values v h = (
    (λ i. new ((add_all-↔ (hi + 1 - lo) lo v values).0 i)),
    (λ o. (add_all-↔ (hi + 1 - lo) lo v values).1 (old o)),
  )
    where
      new :
          IsIn v values ⊎ ((lo ≤ v) × (v < lo + (hi + 1 - lo)))
          → IsIn v values ⊎ ((lo ≤ v) × (v ≤ hi))
      new (inl i) = inl i
      new (inr (l, k)) = inr (l, omega arith)

      old :
          IsIn v values ⊎ ((lo ≤ v) × (v ≤ hi))
          → IsIn v values ⊎ ((lo ≤ v) × (v < lo + (hi + 1 - lo)))
      old (inl i) = inl i
      old (inr (l, k)) = inr (l, omega arith)

  add_part-Adds :
      (values : List ℕ) (part : Text)
      → lo ≤ hi
      → Adds values (add_part number lo hi allow values part) (PartNames part)
  unfolding add_part
  add_part-Adds values part h = go (text_eq part (text "*"))
    where
      go :
          (star : Bool)
          → Adds values
              (if star
                then inr (add_all (hi + 1 - lo) lo values)
                else step_parts number lo hi allow values (split b'/' part))
              (StarNames star (split b'/' part))
      go true = λ v. star-Adds values v h
      go false = step_parts-Adds values (split b'/' part)

  Adds-trans :
      (values out : List ℕ) (parsed : Parsed) (names later : ℕ → Type 0)
      → Adds values (inr out) names
      → Adds out parsed later
      → Adds values parsed (λ v. names v ⊎ later v)
  Adds-trans values out (inl e) names later f g = tt
  Adds-trans values out (inr last) names later f g =
      λ v. ((λ i. new v ((g v).0 i)), (λ o. (g v).1 (old v o)))
    where
      new : (v : ℕ) → IsIn v out ⊎ later v → IsIn v values ⊎ (names v ⊎ later v)
      new v (inl i) = elim ((f v).0 i) [ inl j ↦ inl j | inr n ↦ inr (inl n) ]
      new v (inr n) = inr (inr n)

      old : (v : ℕ) → IsIn v values ⊎ (names v ⊎ later v) → IsIn v out ⊎ later v
      old v (inl i) = inl ((f v).1 (inl i))
      old v (inr (inl n)) = inl ((f v).1 (inr n))
      old v (inr (inr n)) = inr n

  with_part :
      (values : List ℕ) (part : Text) (parts : List Text) (out : Parsed)
      → Adds values out (PartNames part)
      → ((values' : List ℕ)
          → Adds values' (add_parts number lo hi allow (inr values') parts) (SomeNames parts))
      → Adds values (add_parts number lo hi allow out parts) (SomeNames (part ∷ parts))
  unfolding add_parts
  with_part values part parts (inl e) a ih = tt
  with_part values part parts (inr out) a ih =
      Adds-trans values out (add_parts number lo hi allow (inr out) parts) (PartNames part)
        (SomeNames parts) a (ih out)

  add_parts-Adds :
      (values : List ℕ) (parts : List Text)
      → lo ≤ hi
      → Adds values (add_parts number lo hi allow (inr values) parts) (SomeNames parts)
  unfolding add_parts
  add_parts-Adds values [] h = λ v. ((λ i. inl i), (λ o. none_more v o))
    where
      none_more : (v : ℕ) → IsIn v values ⊎ ⊥ → IsIn v values
      none_more v (inl i) = i
      none_more v (inr n) = absurd n
  add_parts-Adds values (part ∷ parts) h =
      with_part values part parts (add_part number lo hi allow values part)
        (add_part-Adds values part h) (λ values'. add_parts-Adds values' parts h)

  nonempty-inr :
      (parsed : Parsed) (values : List ℕ) → nonempty parsed ≡ inr values → parsed ≡ inr values
  nonempty-inr (inl e) values h = cc
  nonempty-inr (inr []) values h = absurd cc
  nonempty-inr (inr (x ∷ xs)) values h = h

  Adds-of :
      (parsed : Parsed) (values : List ℕ) (names : ℕ → Type 0)
      → parsed ≡ inr values
      → Adds [] parsed names
      → (v : ℕ) → IsIn v values ↔ names v
  Adds-of (inl e) values names h a v = absurd cc
  Adds-of (inr out) values names h a v =
      rw⁻¹ (inr-injective out values h) ((λ i. new ((a v).0 i)), (λ n. (a v).1 (inr n)))
    where
      new : IsIn v [] ⊎ names v → names v
      new (inl i) = absurd (ground arith)
      new (inr n) = n

  -- In the terms of the parser; Meaning says independently what a part names.
  pub parse_cron_field_names :
      (field : Text) (values : List ℕ)
      → lo ≤ hi
      → parse_cron_field number field lo hi allow ≡ inr values
      → (v : ℕ) → IsIn v values ↔ SomeNames (split b',' (trim field)) v
  unfolding parse_cron_field
  parse_cron_field_names field values h e = elim (Bool-cases (blank field)) [
    | inl b ↦ let bad : inl invalid_cron_field ≡ inr values = rw b at e in absurd cc
    | inr b ↦
        let parsed : nonempty (add_parts number lo hi allow (inr []) (split b',' (trim field)))
            ≡ inr values =
          rw b at e in
        Adds-of (add_parts number lo hi allow (inr []) (split b',' (trim field))) values
          (SomeNames (split b',' (trim field))) (nonempty-inr _ values parsed)
          (add_parts-Adds [] (split b',' (trim field)) h)
  ]
