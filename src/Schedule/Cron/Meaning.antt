-- ===== src/Schedule/Cron/Meaning.antt =====
-- What a field of a cron expression of src/registry/schedule-parser.mjs names, said of its text and not in the
-- terms of the parser.
use dsh_orbit.Common.{
  ℕ, ◌≤◌, ◌≡◌, ◌≢◌, refl, ◌↔◌, ◌⊎◌, inl, inr, Bool, true, false, List, [], ◌∷◌, Bool-cases,
}
use dsh_orbit.Common.Text.{Text, text, text_eq, trim, split}
use dsh_orbit.Flows.Scope.{text_eq→eq}
use dsh_orbit.Schedule.Cron.{
  ParseError, Numeral, no_integer, negative, natural, range_of, parse_cron_field,
}
use dsh_orbit.Schedule.Cron.Steps.{IsIn}
use dsh_orbit.Schedule.Cron.Fields.{
  RangeNames, StepNames, PartsName, PartNames, SomeNames, parse_cron_field_names,
}
use dsh_orbit.Schedule.Cron.Ranges.{
  text_eq_refl, differ→false, false→differ, Reaches, Reaches-↔, Spans, Spans-sound, Spans-complete,
}

module _ (number : Text → Numeral) (lo hi : ℕ) (allow : Bool) where
  -- A range, with a step.
  pub record RangeMeans (stepped : Bool) (range : Text) (step v : ℕ) : Type 0 where
    pub first : ℕ
    pub last : ℕ
    pub spans : Spans number lo hi stepped range first last
    pub reaches : Reaches lo hi allow first last step v

  -- A part between commas.
  pub data PartMeans (part : Text) (v : ℕ) : Type 0 where
    every : part ≡ text "*" → lo ≤ v → v ≤ hi → PartMeans part v
    plain :
        (range : Text)
        → part ≢ text "*"
        → split b'/' part ≡ range ∷ []
        → RangeMeans false range 1 v
        → PartMeans part v
    with_step :
        (range step : Text) (k : ℕ)
        → part ≢ text "*"
        → split b'/' part ≡ range ∷ step ∷ []
        → number step ≡ natural k
        → RangeMeans true range k v
        → PartMeans part v

  abbrev pub SomeMeans : List Text → ℕ → Type 0
  SomeMeans [] v = ⊥
  SomeMeans (part ∷ parts) v = PartMeans part v ⊎ SomeMeans parts v

  range_means :
      (stepped : Bool) (range : Text) (step v : ℕ) (read : ParseError ⊎ (Numeral × Numeral))
      → range_of number lo hi stepped range ≡ read
      → RangeNames number lo hi allow step read v
      → RangeMeans stepped range step v
  range_means stepped range step v (inr (natural f, natural l)) e h = record {
    first = f;
    last = l;
    spans = Spans-sound number lo hi stepped range f l e;
    reaches = (Reaches-↔ lo hi allow f l step v).0 h;
  }
  range_means stepped range step v (inr (natural f, negative)) e h = absurd h
  range_means stepped range step v (inr (natural f, no_integer)) e h = absurd h
  range_means stepped range step v (inr (negative, l)) e h = absurd h
  range_means stepped range step v (inr (no_integer, l)) e h = absurd h
  range_means stepped range step v (inl why) e h = absurd h

  means_range :
      (stepped : Bool) (range : Text) (step v : ℕ)
      → RangeMeans stepped range step v
      → RangeNames number lo hi allow step (range_of number lo hi stepped range) v
  means_range stepped range step v m =
      rw (Spans-complete number lo hi stepped range m.first m.last m.spans)
        ((Reaches-↔ lo hi allow m.first m.last step v).1 m.reaches)

  step_means :
      (part range step : Text) (v : ℕ) (n : Numeral)
      → part ≢ text "*"
      → split b'/' part ≡ range ∷ step ∷ []
      → number step ≡ n
      → StepNames number lo hi allow range n v
      → PartMeans part v
  step_means part range step v (natural k) other e p h =
      with_step range step k other e p (range_means true range k v _ refl h)
  step_means part range step v negative other e p h = absurd h
  step_means part range step v no_integer other e p h = absurd h

  parts_mean :
      (part : Text) (v : ℕ) (parts : List Text)
      → part ≢ text "*"
      → split b'/' part ≡ parts
      → PartsName number lo hi allow parts v
      → PartMeans part v
  parts_mean part v [] other e h = absurd h
  parts_mean part v (range ∷ []) other e h =
      plain range other e (range_means false range 1 v _ refl h)
  parts_mean part v (range ∷ step ∷ []) other e h =
      step_means part range step v (number step) other e refl h
  parts_mean part v (range ∷ step ∷ more ∷ parts) other e h = absurd h

  part_means : (part : Text) (v : ℕ) → PartNames number lo hi allow part v → PartMeans part v
  part_means part v h = elim (Bool-cases (text_eq part (text "*"))) [
    | inl e ↦ let (least, most) = star e h in every (text_eq→eq part (text "*") e) least most
    | inr e ↦ parts_mean part v (split b'/' part) (false→differ part (text "*") e) refl (rw e at h)
  ]
    where
      star :
          text_eq part (text "*") ≡ true → PartNames number lo hi allow part v → (lo ≤ v) × (v ≤ hi)
      star e h = rw e at h

  means_part : (part : Text) (v : ℕ) → PartMeans part v → PartNames number lo hi allow part v
  means_part part v (every e least most) = rw (e, text_eq_refl (text "*")) (least, most)
  means_part part v (plain range other e m) =
      rw (differ→false part (text "*") other, e) (means_range false range 1 v m)
  means_part part v (with_step range step k other e p m) =
      rw (differ→false part (text "*") other, e, p) (means_range true range k v m)

  some_mean : (parts : List Text) (v : ℕ) → SomeNames number lo hi allow parts v → SomeMeans parts v
  some_mean [] v h = h
  some_mean (part ∷ parts) v (inl h) = inl (part_means part v h)
  some_mean (part ∷ parts) v (inr h) = inr (some_mean parts v h)

  mean_some : (parts : List Text) (v : ℕ) → SomeMeans parts v → SomeNames number lo hi allow parts v
  mean_some [] v h = h
  mean_some (part ∷ parts) v (inl h) = inl (means_part part v h)
  mean_some (part ∷ parts) v (inr h) = inr (mean_some parts v h)

  -- If a field parses, the set holds the numbers that its parts between commas mean, and no other: a part is
  -- `*`, or a range with a step or without; a range is `*`, two numbers, or one number, which with a step begins
  -- a range up to the end of the field and without one is alone; 7 stands for 0 where Sunday may be 7.
  pub parse_cron_field_lem :
      (field : Text) (values : List ℕ)
      → lo ≤ hi
      → parse_cron_field number field lo hi allow ≡ inr values
      → (v : ℕ) → IsIn v values ↔ SomeMeans (split b',' (trim field)) v
  parse_cron_field_lem field values h e v =
      let names = parse_cron_field_names number lo hi allow field values h e v in
      let parts = split b',' (trim field) in
      ((λ i. some_mean parts v (names.0 i)), (λ m. names.1 (mean_some parts v m)))
