-- ===== src/Wire/Bounds.antt =====
-- What a parser of src/registry/reverse-ws.mjs keeps is bounded.
use dsh_orbit.Common.{
  ℕ, zero, suc, ◌+◌, ◌%◌, ◌≤◌, ◌<◌, ◌≡◌, refl, inl, inr, Bool, false, not, ◌&&◌, Option, none, some,
  [], ◌∷◌, ltb, ◌==◌, length, arith, Bool-cases,
}
use dsh_orbit.Wire.{Octets, number_of}
use dsh_orbit.Wire.Numbers.{length-mask_with}
use dsh_orbit.Wire.Parse.{
  Config, split_at, Next, waits, fails, frame, Length, no_length, too_long, length_is, short_length,
  long_length, read_length, plain_payload, unmasked, keyed_payload, read_payload, next_frame,
}

abbrev SplitBound : ℕ → Octets → Option (Octets × Octets) → Type 0
SplitBound n bs none = length bs < n
SplitBound n bs (some (front, rest)) = (length front ≡ n) × (length bs ≡ n + length rest)

split_at-bound : (n : ℕ) (bs : Octets) → SplitBound n bs (split_at n bs)
unfolding split_at
split_at-bound zero bs = (refl, omega arith)
split_at-bound (suc n) [] = omega arith
split_at-bound (suc n) (b ∷ bs) = go (split_at n bs) (split_at-bound n bs)
  where
    go :
        (o : Option (Octets × Octets))
        → SplitBound n bs o
        → SplitBound
            (suc n)
            (b ∷ bs)
            (elim o [ none ↦ none | some (front, rest) ↦ some (b ∷ front, rest) ])
    go none h = omega arith
    go (some (front, rest)) (e, d) = (omega arith, omega arith)

-- Of the bytes after the two first, eight at most are the length.
abbrev LengthBound : Octets → Length → Type 0
LengthBound bs no_length = length bs < 8
LengthBound bs too_long = Unit
LengthBound bs (length_is n rest) = length bs ≤ 8 + length rest

short_length-bound :
    (bs : Octets) (o : Option (Octets × Octets))
    → SplitBound 2 bs o
    → LengthBound bs (short_length o)
short_length-bound bs none h = omega arith
short_length-bound bs (some (bytes, rest)) (e, d) = omega arith

long_length-bound :
    (cap : ℕ) (bs : Octets) (o : Option (Octets × Octets))
    → SplitBound 8 bs o
    → LengthBound bs (long_length cap o)
long_length-bound cap bs none h = h
long_length-bound cap bs (some (bytes, rest)) (e, d) =
    elim (Bool-cases (ltb cap (number_of 0 bytes))) [
      | inl large ↦ rw large tt
      | inr fits ↦ rw fits (omega arith)
    ]

read_length-bound : (cap short : ℕ) (bs : Octets) → LengthBound bs (read_length cap short bs)
unfolding read_length
read_length-bound cap short bs = elim (Bool-cases (short == 126)) [
  | inl e ↦ rw e (short_length-bound bs (split_at 2 bs) (split_at-bound 2 bs))
  | inr d ↦ elim (Bool-cases (short == 127)) [
    | inl e ↦ rw (d, e) (long_length-bound cap bs (split_at 8 bs) (split_at-bound 8 bs))
    | inr e ↦ rw (d, e) (omega arith)
  ]
]

-- Bytes that wait are fewer than a key and the cap; a payload is within the cap.
abbrev PayloadBound : ℕ → Octets → Next → Type 0
PayloadBound cap rest waits = length rest < 4 + cap
PayloadBound cap rest (fails why) = Unit
PayloadBound cap rest (frame fin opcode payload rest') = length payload ≤ cap

module _ (cap : ℕ) (fin : Bool) (opcode n : ℕ) (fits : ltb cap n ≡ false) where
  plain-bound :
      (rest : Octets) (o : Option (Octets × Octets))
      → SplitBound n rest o
      → PayloadBound cap rest (plain_payload fin opcode o)
  plain-bound rest none h = ground arith
  plain-bound rest (some (payload, rest')) (e, d) = ground arith

  keyed-bound :
      (rest : Octets) (o : Option (Octets × Octets))
      → SplitBound 4 rest o
      → PayloadBound cap rest (keyed_payload fin opcode n o)
  keyed-bound rest none h = omega arith
  keyed-bound rest (some (key, rest')) (e, d) = go (split_at n rest') (split_at-bound n rest')
    where
      go :
          (o : Option (Octets × Octets))
          → SplitBound n rest' o
          → PayloadBound cap rest (unmasked fin opcode key o)
      go none h = ground arith
      go (some (payload, rest'')) (e', d') = ground (arith, length-mask_with key payload)

read_payload-bound :
    (cap : ℕ) (fin masked : Bool) (opcode n : ℕ) (rest : Octets)
    → PayloadBound cap rest (read_payload cap fin masked opcode (length_is n rest))
unfolding read_payload
read_payload-bound cap fin masked opcode n rest = elim (Bool-cases (ltb cap n)) [
  | inl large ↦ rw large tt
  | inr fits ↦ elim (Bool-cases masked) [
    | inl e ↦
        rw (fits, e)
          (keyed-bound cap fin opcode n fits rest (split_at 4 rest) (split_at-bound 4 rest))
    | inr e ↦
        rw (fits, e)
          (plain-bound cap fin opcode n fits rest (split_at n rest) (split_at-bound n rest))
  ]
]

abbrev pub NextBound : ℕ → Octets → Next → Type 0
NextBound cap bs waits = length bs < 14 + cap
NextBound cap bs (fails why) = Unit
NextBound cap bs (frame fin opcode payload rest) = length payload ≤ cap

module _ (cap : ℕ) (fin masked : Bool) (opcode : ℕ) (a b : ℕ) (bs : Octets) where
  widen :
      (rest : Octets) (x : Next)
      → length bs ≤ 8 + length rest
      → PayloadBound cap rest x
      → NextBound cap (a ∷ b ∷ bs) x
  widen rest waits le h = omega arith
  widen rest (fails why) le h = tt
  widen rest (frame f o payload rest') le h = h

  read-bound :
      (l : Length)
      → LengthBound bs l
      → NextBound cap (a ∷ b ∷ bs) (read_payload cap fin masked opcode l)
  unfolding read_payload
  read-bound no_length h = omega arith
  read-bound too_long h = tt
  read-bound (length_is n rest) h =
      widen rest (read_payload cap fin masked opcode (length_is n rest)) h
        (read_payload-bound cap fin masked opcode n rest)

pub next_frame-bound :
    (c : Config) (bs : Octets) → NextBound c.max_message_bytes bs (next_frame c bs)
unfolding next_frame
next_frame-bound c [] = omega arith
next_frame-bound c (a ∷ []) = omega arith
next_frame-bound c (a ∷ b ∷ rest) = elim (Bool-cases (c.is_client && ltb 127 b)) [
  | inl e ↦ rw e tt
  | inr d ↦ elim (Bool-cases (not c.is_client && not (ltb 127 b))) [
    | inl e ↦ rw (d, e) tt
    | inr e ↦
        rw (d, e)
          (read-bound c.max_message_bytes (ltb 127 a) (ltb 127 b) (a % 16) a b rest
            (read_length c.max_message_bytes (b % 128) rest)
            (read_length-bound c.max_message_bytes (b % 128) rest))
  ]
]
