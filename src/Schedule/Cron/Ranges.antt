-- ===== src/Schedule/Cron/Ranges.antt =====
-- What a range in a cron expression of src/registry/schedule-parser.mjs covers, said of its text and not in the
-- terms of the parser.
use dsh_orbit.Common.{
  ℕ, ◌+◌, ◌*◌, ◌≤◌, ◌≡◌, ◌≢◌, refl, ◌∙◌, ◌↔◌, ◌⊎◌, inl, inr, Bool, true, false, List, [], ◌∷◌, ◌==◌,
  Bool-cases, arith, ==→≡,
}
use dsh_orbit.Common.Text.{Text, text, text_eq, trim, split}
use dsh_orbit.Flows.Scope.{text_eq→eq}
use dsh_orbit.Schedule.Cron.{
  ParseError, Numeral, no_integer, negative, natural, wrap_sunday, blank, bounds_of, two_bounds,
  one_bound, invalid_cron_range, range_of,
}
use dsh_orbit.Schedule.Cron.Steps.{Named}

pub text_eq_refl : (s : Text) → text_eq s s ≡ true
unfolding text_eq
text_eq_refl [] = refl
text_eq_refl (c ∷ s) = ground (arith, text_eq_refl s)

pub differ→false : (s t : Text) → s ≢ t → text_eq s t ≡ false
differ→false s t d = elim (Bool-cases (text_eq s t)) [
  | inl e ↦ absurd (d (text_eq→eq s t e))
  | inr e ↦ e
]

pub false→differ : (s t : Text) → text_eq s t ≡ false → s ≢ t
false→differ s t e same =
    let bad : text_eq t t ≡ false = rw same at e in let good = text_eq_refl t in cc

-- A written number stands for itself, but 7 for 0 where Sunday may be 7.
abbrev pub Stands : Bool → ℕ → ℕ → Type 0
Stands allow w v = ((allow ≡ true) × (w ≡ 7) × (v ≡ 0)) ⊎ ((allow ≡ true → w ≢ 7) × (w ≡ v))

Stands-↔ : (allow : Bool) (w v : ℕ) → (wrap_sunday allow w ≡ v) ↔ Stands allow w v
Stands-↔ false w v = ((λ h. inr ((λ e. cc), h)), (λ o. back o))
  where
    back : Stands false w v → w ≡ v
    back (inl (e, s, z)) = cc
    back (inr (d, h)) = h
Stands-↔ true w v = (forth, back)
  where
    forth : wrap_sunday true w ≡ v → Stands true w v
    forth h = elim (Bool-cases (w == 7)) [
      | inl e ↦ inl (refl, ==→≡ w 7 e, ground arith)
      | inr e ↦ inr ((λ t same. ground arith), ground arith)
    ]

    back : Stands true w v → wrap_sunday true w ≡ v
    back (inl (t, e, h)) = ground arith
    back (inr (d, h)) = elim (Bool-cases (w == 7)) [
      | inl e ↦ absurd (d refl (==→≡ w 7 e))
      | inr e ↦ ground arith
    ]

-- The number stands for one of first, first + step, … up to last, and is one of the field.
pub record Reaches (lo hi : ℕ) (allow : Bool) (first last step v : ℕ) : Type 0 where
  pub rounds : ℕ
  pub up_to : first + rounds * step ≤ last
  pub stands : Stands allow (first + rounds * step) v
  pub least : lo ≤ v
  pub most : v ≤ hi

pub Reaches-↔ :
    (lo hi : ℕ) (allow : Bool) (first last step v : ℕ)
    → Named lo hi allow first last step v ↔ Reaches lo hi allow first last step v
Reaches-↔ lo hi allow first last step v = (
  (λ (n, h, e, l, k). record {
    rounds = n;
    up_to = h;
    stands = (Stands-↔ allow (first + n * step) v).0 e;
    least = l;
    most = k;
  }),
  (λ r. (
    r.rounds,
    r.up_to,
    (Stands-↔ allow (first + r.rounds * step) v).1 r.stands,
    r.least,
    r.most,
  )),
)

abbrev the_error : ParseError → ParseError ⊎ (Numeral × Numeral)
the_error why = inl why

abbrev ends : ℕ → ℕ → ParseError ⊎ (Numeral × Numeral)
ends first last = inr (natural first, natural last)

-- The two ends of a range that was read.
same_ends : (f l first last : ℕ) → ends f l ≡ ends first last → (f ≡ first) × (l ≡ last)
same_ends f l first last h = (cc, cc)

module _ (number : Text → Numeral) (lo hi : ℕ) where
  -- The first and the last number of a range; `stepped` says whether a step follows.
  pub data Spans (stepped : Bool) (range : Text) : ℕ → ℕ → Type 0 where
    whole : range ≡ text "*" → Spans stepped range lo hi
    pair :
        {first last : ℕ} (a b : Text)
        → split b'-' range ≡ a ∷ b ∷ []
        → range ≢ text "*"
        → trim a ≢ []
        → trim b ≢ []
        → number a ≡ natural first
        → number b ≡ natural last
        → Spans stepped range first last
    alone :
        {n : ℕ} (a : Text)
        → stepped ≡ false
        → split b'-' range ≡ a ∷ []
        → range ≢ text "*"
        → trim a ≢ []
        → number a ≡ natural n
        → Spans stepped range n n
    onwards :
        {n : ℕ} (a : Text)
        → stepped ≡ true
        → split b'-' range ≡ a ∷ []
        → range ≢ text "*"
        → trim a ≢ []
        → number a ≡ natural n
        → Spans stepped range n hi

  failed :
      {X : Type 0} (why : ParseError) (first last : ℕ)
      → (the_error why ≡ inr (natural first, natural last))
      → X
  failed why first last h = cc

  not_blank : (s : Text) → blank s ≡ false → trim s ≢ []
  not_blank s h = false→differ (trim s) [] h

  module _ (stepped : Bool) (range : Text) (other : text_eq range (text "*") ≡ false) where
    two-Spans :
        (a b : Text) (m n : Numeral) (first last : ℕ)
        → split b'-' range ≡ a ∷ b ∷ []
        → trim a ≢ []
        → trim b ≢ []
        → number a ≡ m
        → number b ≡ n
        → two_bounds m n ≡ inr (natural first, natural last)
        → Spans stepped range first last
    two-Spans a b (natural f) (natural l) first last e full full' p q h =
        let same_first : natural f ≡ natural first = cc in
        let same_last : natural l ≡ natural last = cc in
        pair a b e (false→differ range (text "*") other) full full' (p ∙ same_first) (q ∙ same_last)
    two-Spans a b (natural f) negative first last e full full' p q h = cc
    two-Spans a b (natural f) no_integer first last e full full' p q h = cc
    two-Spans a b negative (natural l) first last e full full' p q h = cc
    two-Spans a b negative negative first last e full full' p q h = cc
    two-Spans a b negative no_integer first last e full full' p q h = cc
    two-Spans a b no_integer n first last e full full' p q h = cc

    one-Spans :
        (a : Text) (m : Numeral) (first last : ℕ)
        → split b'-' range ≡ a ∷ []
        → trim a ≢ []
        → number a ≡ m
        → one_bound hi stepped m ≡ inr (natural first, natural last)
        → Spans stepped range first last
    one-Spans a (natural n) first last e full p h = elim (Bool-cases stepped) [
      | inl s ↦
          let (same_first, same_last) = same_ends n hi first last (rw s at h) in
          rw (← same_first, ← same_last)
            (onwards a s e (false→differ range (text "*") other) full p)
      | inr s ↦
          let (same_first, same_last) = same_ends n n first last (rw s at h) in
          rw (← same_first, ← same_last) (alone a s e (false→differ range (text "*") other) full p)
    ]
    one-Spans a negative first last e full p h = cc
    one-Spans a no_integer first last e full p h = cc

    bounds-Spans :
        (parts : List Text) (first last : ℕ)
        → split b'-' range ≡ parts
        → bounds_of number hi stepped parts ≡ inr (natural first, natural last)
        → Spans stepped range first last
    bounds-Spans [] first last e h = cc
    bounds-Spans (a ∷ []) first last e h = elim (Bool-cases (blank a)) [
      | inl empty ↦ failed invalid_cron_range first last (rw empty at h)
      | inr full ↦ one-Spans a (number a) first last e (not_blank a full) refl (rw full at h)
    ]
    bounds-Spans (a ∷ b ∷ []) first last e h = elim (Bool-cases (blank a)) [
      | inl empty ↦ failed invalid_cron_range first last (rw empty at h)
      | inr full ↦ elim (Bool-cases (blank b)) [
        | inl empty ↦ failed invalid_cron_range first last (rw (full, empty) at h)
        | inr full' ↦
            two-Spans a b (number a) (number b) first last e (not_blank a full) (not_blank b full')
              refl refl (rw (full, full') at h)
      ]
    ]
    bounds-Spans (a ∷ b ∷ c ∷ parts) first last e h = cc

  pub Spans-sound :
      (stepped : Bool) (range : Text) (first last : ℕ)
      → range_of number lo hi stepped range ≡ inr (natural first, natural last)
      → Spans stepped range first last
  unfolding range_of
  Spans-sound stepped range first last h = elim (Bool-cases (text_eq range (text "*"))) [
    | inl e ↦
        let (same_first, same_last) = same_ends lo hi first last (rw e at h) in
        rw (← same_first, ← same_last) (whole (text_eq→eq range (text "*") e))
    | inr e ↦ bounds-Spans stepped range e (split b'-' range) first last refl (rw e at h)
  ]

  pub Spans-complete :
      (stepped : Bool) (range : Text) (first last : ℕ)
      → Spans stepped range first last
      → range_of number lo hi stepped range ≡ inr (natural first, natural last)
  unfolding range_of
  Spans-complete stepped range _ _ (whole e) = rw (e, text_eq_refl (text "*")) refl
  Spans-complete stepped range _ _ (pair a b e other full full' p q) =
      rw
        (
          differ→false range (text "*") other,
          e,
          differ→false (trim a) [] full,
          differ→false (trim b) [] full',
          p,
          q,
        )
        refl
  Spans-complete stepped range _ _ (alone a plain e other full p) =
      rw (differ→false range (text "*") other, e, differ→false (trim a) [] full, p, plain) refl
  Spans-complete stepped range _ _ (onwards a step e other full p) =
      rw (differ→false range (text "*") other, e, differ→false (trim a) [] full, p, step) refl
