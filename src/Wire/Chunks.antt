-- ===== src/Wire/Chunks.antt =====
-- The parser of src/registry/reverse-ws.mjs does not depend on how the bytes are cut into chunks.
use dsh_orbit.Common.{
  ℕ, zero, suc, ◌%◌, ◌≤◌, ◌<◌, ◌≡◌, refl, inl, inr, Bool, true, false, ◌&&◌, not, Option, none,
  some, [], ◌∷◌, ◌++◌, ltb, ◌==◌, length, arith, Bool-cases,
}
use dsh_orbit.Wire.{Octets, number_of}
use dsh_orbit.Wire.Parse.{
  Config, split_at, Next, waits, fails, frame, Length, no_length, too_long, length_is, short_length,
  long_length, read_length, plain_payload, unmasked, keyed_payload, read_payload, next_frame,
}

abbrev pair : Octets × Octets → Octets → Octets × Octets
pair (front, rest) more = (front, rest ++ more)

abbrev SplitsOn : ℕ → Octets → Octets → Option (Octets × Octets) → Type 0
SplitsOn n bs more none = Unit
SplitsOn n bs more (some p) =
    (split_at n (bs ++ more) ≡ some (pair p more)) × (length p.1 ≤ length bs)

split_at-more : (n : ℕ) (bs more : Octets) → SplitsOn n bs more (split_at n bs)
unfolding split_at
split_at-more zero bs more = (refl, omega arith)
split_at-more (suc n) [] more = tt
split_at-more (suc n) (b ∷ bs) more = go (split_at n bs) (split_at-more n bs more)
  where
    go :
        (o : Option (Octets × Octets))
        → SplitsOn n bs more o
        → SplitsOn
            (suc n)
            (b ∷ bs)
            more
            (elim o [ none ↦ none | some (front, rest) ↦ some (b ∷ front, rest) ])
    go none h = tt
    go (some (front, rest)) (h, le) = (rw h refl, omega arith)

-- The length of a frame, when more bytes follow.
abbrev LengthOn : ℕ → ℕ → Octets → Octets → Length → Type 0
LengthOn cap short bs more no_length = Unit
LengthOn cap short bs more too_long = read_length cap short (bs ++ more) ≡ too_long
LengthOn cap short bs more (length_is n rest) =
    (read_length cap short (bs ++ more) ≡ length_is n (rest ++ more)) × (length rest ≤ length bs)

short_length-more :
    (cap short : ℕ) (bs more : Octets)
    → (short == 126) ≡ true
    → LengthOn cap short bs more (short_length (split_at 2 bs))
unfolding read_length
short_length-more cap short bs more e = go (split_at 2 bs) (split_at-more 2 bs more)
  where
    go :
        (o : Option (Octets × Octets))
        → SplitsOn 2 bs more o
        → LengthOn cap short bs more (short_length o)
    go none h = tt
    go (some (bytes, rest)) (h, le) = (rw (e, h) refl, le)

long_length-more :
    (cap short : ℕ) (bs more : Octets)
    → (short == 126) ≡ false
    → (short == 127) ≡ true
    → LengthOn cap short bs more (long_length cap (split_at 8 bs))
unfolding read_length
long_length-more cap short bs more d e = go (split_at 8 bs) (split_at-more 8 bs more)
  where
    go :
        (o : Option (Octets × Octets))
        → SplitsOn 8 bs more o
        → LengthOn cap short bs more (long_length cap o)
    go none h = tt
    go (some (bytes, rest)) (h, le) = elim (Bool-cases (ltb cap (number_of 0 bytes))) [
      | inl large ↦ rw large (rw (d, e, h, large) refl)
      | inr fits ↦ rw fits (rw (d, e, h, fits) refl, le)
    ]

read_length-more :
    (cap short : ℕ) (bs more : Octets) → LengthOn cap short bs more (read_length cap short bs)
unfolding read_length
read_length-more cap short bs more = elim (Bool-cases (short == 126)) [
  | inl e ↦ rw e (short_length-more cap short bs more e)
  | inr d ↦ elim (Bool-cases (short == 127)) [
    | inl e ↦ rw (d, e) (long_length-more cap short bs more d e)
    | inr e ↦ rw (d, e) (rw (d, e) refl, omega arith)
  ]
]

abbrev PayloadOn : ℕ → Bool → Bool → ℕ → Octets → Octets → Length → Next → Type 0
PayloadOn cap fin masked opcode bs more l waits = Unit
PayloadOn cap fin masked opcode bs more l (fails why) =
    read_payload cap fin masked opcode l ≡ fails why
PayloadOn cap fin masked opcode bs more l (frame f o payload rest) =
    (read_payload cap fin masked opcode l ≡ frame f o payload (rest ++ more))
    × (length rest ≤ length bs)

module _ (cap : ℕ) (fin : Bool) (opcode n : ℕ) (bs more : Octets) (fits : ltb cap n ≡ false) where
  plain-more :
      PayloadOn cap fin false opcode bs more
        (length_is n (bs ++ more))
        (plain_payload fin opcode (split_at n bs))
  unfolding read_payload
  plain-more = go (split_at n bs) (split_at-more n bs more)
    where
      go :
          (o : Option (Octets × Octets))
          → SplitsOn n bs more o
          → PayloadOn cap fin false opcode bs more
              (length_is n (bs ++ more))
              (plain_payload fin opcode o)
      go none h = tt
      go (some (payload, rest)) (h, le) = (rw (fits, h) refl, le)

  keyed-more :
      PayloadOn cap fin true opcode bs more
        (length_is n (bs ++ more))
        (keyed_payload fin opcode n (split_at 4 bs))
  unfolding read_payload
  keyed-more = go (split_at 4 bs) (split_at-more 4 bs more)
    where
      with_key :
          (key rest : Octets)
          → split_at 4 (bs ++ more) ≡ some (key, rest ++ more)
          → length rest ≤ length bs
          → (o : Option (Octets × Octets)) → SplitsOn n rest more o
          → PayloadOn cap fin true opcode bs more
              (length_is n (bs ++ more))
              (unmasked fin opcode key o)
      with_key key rest e le none h = tt
      with_key key rest e le (some (payload, rest')) (h, le') = (rw (fits, e, h) refl, omega arith)

      go :
          (o : Option (Octets × Octets))
          → SplitsOn 4 bs more o
          → PayloadOn cap fin true opcode bs more
              (length_is n (bs ++ more))
              (keyed_payload fin opcode n o)
      go none h = tt
      go (some (key, rest)) (h, le) =
          with_key key rest h le (split_at n rest) (split_at-more n rest more)

length-PayloadOn :
    (cap : ℕ) (fin masked : Bool) (opcode n : ℕ) (bs more : Octets)
    → PayloadOn cap fin masked opcode bs more
        (length_is n (bs ++ more))
        (read_payload cap fin masked opcode (length_is n bs))
unfolding read_payload
length-PayloadOn cap fin masked opcode n bs more = elim (Bool-cases (ltb cap n)) [
  | inl large ↦ rw large (rw large refl)
  | inr fits ↦ elim (Bool-cases masked) [
    | inl e ↦ rw (fits, e) (keyed-more cap fin opcode n bs more fits)
    | inr e ↦ rw (fits, e) (plain-more cap fin opcode n bs more fits)
  ]
]

module _ (cap : ℕ) (fin masked : Bool) (opcode short : ℕ) (bs more : Octets) where
  abbrev Whole : Next → Type 0
  Whole = PayloadOn cap fin masked opcode bs more (read_length cap short (bs ++ more))

  carry :
      (n : ℕ) (rest : Octets)
      → read_length cap short (bs ++ more) ≡ length_is n (rest ++ more)
      → length rest ≤ length bs
      → (x : Next) → PayloadOn cap fin masked opcode rest more (length_is n (rest ++ more)) x
      → Whole x
  carry n rest e le waits h = tt
  carry n rest e le (fails why) h = rw e h
  carry n rest e le (frame f o payload rest') (h, le') = (rw e h, omega arith)

  read-Whole :
      (l : Length) → LengthOn cap short bs more l → Whole (read_payload cap fin masked opcode l)
  unfolding read_payload
  read-Whole no_length h = tt
  read-Whole too_long h = rw h refl
  read-Whole (length_is n rest) (e, le) =
      carry n rest e le (read_payload cap fin masked opcode (length_is n rest))
        (length-PayloadOn cap fin masked opcode n rest more)

-- The head of the buffer, when more bytes follow.
abbrev pub NextOn : Config → Octets → Octets → Next → Type 0
NextOn c bs more waits = Unit
NextOn c bs more (fails why) = next_frame c (bs ++ more) ≡ fails why
NextOn c bs more (frame f o payload rest) =
    (next_frame c (bs ++ more) ≡ frame f o payload (rest ++ more)) × (length rest < length bs)

pub next_frame-more : (c : Config) (bs more : Octets) → NextOn c bs more (next_frame c bs)
unfolding next_frame
next_frame-more c [] more = tt
next_frame-more c (a ∷ []) more = tt
next_frame-more c (a ∷ b ∷ rest) more = elim (Bool-cases (c.is_client && ltb 127 b)) [
  | inl e ↦ rw e (rw e refl)
  | inr d ↦ elim (Bool-cases (not c.is_client && not (ltb 127 b))) [
    | inl e ↦ rw (d, e) (rw (d, e) refl)
    | inr e ↦
        rw (d, e)
          (go d e _ (
            read-Whole c.max_message_bytes (ltb 127 a) (ltb 127 b) (a % 16) (b % 128) rest more
              (read_length c.max_message_bytes (b % 128) rest)
              (read_length-more c.max_message_bytes (b % 128) rest more)))
  ]
]
  where
    go :
        (c.is_client && ltb 127 b) ≡ false
        → (not c.is_client && not (ltb 127 b)) ≡ false
        → (x : Next)
        → Whole c.max_message_bytes (ltb 127 a) (ltb 127 b) (a % 16) (b % 128) rest more x
        → NextOn c (a ∷ b ∷ rest) more x
    go d e waits h = tt
    go d e (fails why) h = rw (d, e) h
    go d e (frame f o payload rest') (h, le) = (rw (d, e) h, omega arith)
