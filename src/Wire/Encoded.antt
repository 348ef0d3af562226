-- ===== src/Wire/Encoded.antt =====
-- What `encodeFrame` of src/registry/reverse-ws.mjs writes, its parser reads.
use dsh_orbit.Common.{
  ℕ, ◌+◌, ◌%◌, ◌^◌, ◌≤◌, ◌<◌, ◌≡◌, refl, ap, ◌∙◌, Bool, true, false, not, ◌&&◌, Option, none, some,
  ◌∷◌, ◌++◌, ltb, length, arith, Bool-cases, inl, inr, le→ltb, lt→ltb, ≢→==, ltb→lt,
}
use mathlib.Core.List.{append_assoc}
use dsh_orbit.Wire.{Octets, big_endian, mask_with, mask_bit, length_header, is_some, encode_frame}
use dsh_orbit.Wire.Parse.{
  Config, Next, frame, Length, length_is, read_length, read_payload, next_frame,
}
use dsh_orbit.Wire.Numbers.{
  two_bytes, eight_bytes, AreBytes, mask_with-twice, length-mask_with, length-big_endian,
  split_at-append,
}

abbrev pub IsKey : Option Octets → Type 0
IsKey none = Unit
IsKey (some key) = (length key ≡ 4) × AreBytes key

read_payload-plain :
    (cap opcode : ℕ) (payload more : Octets)
    → length payload ≤ cap
    → read_payload cap true false opcode (length_is (length payload) (payload ++ more))
      ≡ frame true opcode payload more
unfolding read_payload
read_payload-plain cap opcode payload more h =
    rw (le→ltb cap (length payload) h, split_at-append (length payload) payload more refl) refl

read_payload-keyed :
    (cap opcode : ℕ) (key payload more : Octets)
    → length payload ≤ cap
    → length key ≡ 4
    → AreBytes key
    → AreBytes payload
    → read_payload cap true true opcode
        (length_is (length payload) ((key ++ mask_with key payload) ++ more))
      ≡ frame true opcode payload more
unfolding read_payload
read_payload-keyed cap opcode key payload more h four k b =
    rw
      (
        le→ltb cap (length payload) h,
        append_assoc key (mask_with key payload) more,
        split_at-append 4 key (mask_with key payload ++ more) four,
        split_at-append (length payload) (mask_with key payload) more
            (length-mask_with key payload),
        mask_with-twice key payload k b,
      )
      refl

masked_bit : (masked : Bool) (n : ℕ) → n < 128 → ltb 127 (mask_bit masked + n) ≡ masked
masked_bit true n h = lt→ltb 127 (128 + n) (omega arith)
masked_bit false n h = le→ltb 127 (0 + n) (omega arith)

length_bits : (masked : Bool) (n : ℕ) → n < 128 → (mask_bit masked + n) % 128 ≡ n
length_bits true n h = omega arith
length_bits false n h = omega arith

no_server_error : (masked : Bool) → (not masked && masked) ≡ false
no_server_error true = refl
no_server_error false = refl

no_client_error : (masked : Bool) → (not (not masked) && not masked) ≡ false
no_client_error true = refl
no_client_error false = refl

read_length-short :
    (cap n : ℕ) (rest : Octets) → n < 126 → read_length cap n rest ≡ length_is n rest
unfolding read_length
read_length-short cap n rest h =
    rw (≢→== n 126 (λ e. omega arith), ≢→== n 127 (λ e. omega arith)) refl

read_length-two :
    (cap n : ℕ) (rest : Octets)
    → n < 65536
    → read_length cap 126 (big_endian 2 n ++ rest) ≡ length_is n rest
unfolding read_length
read_length-two cap n rest h =
    rw (split_at-append 2 (big_endian 2 n) rest (length-big_endian 2 n), two_bytes n h) refl

read_length-eight :
    (cap n : ℕ) (rest : Octets)
    → n ≤ cap
    → n < 2 ^ 64
    → read_length cap 127 (big_endian 8 n ++ rest) ≡ length_is n rest
unfolding read_length
read_length-eight cap n rest h k =
    rw
      (
        split_at-append 8 (big_endian 8 n) rest (length-big_endian 8 n),
        eight_bytes n k,
        le→ltb cap n h,
      )
      refl

-- A frame of the side that the parser listens to.
module _ (c : Config) (masked : Bool) (side : c.is_client ≡ not masked) (opcode : ℕ)
    (small : opcode < 16) where
  head-lem :
      (short : ℕ) (rest : Octets)
      → short < 128
      → next_frame c ((0x80 + opcode) ∷ (mask_bit masked + short) ∷ rest)
        ≡ read_payload c.max_message_bytes true masked opcode
            (read_length c.max_message_bytes short rest)
  unfolding next_frame
  head-lem short rest h =
      rw
        (
          masked_bit masked short h,
          length_bits masked short h,
          side,
          no_server_error masked,
          no_client_error masked,
          lt→ltb 127 (0x80 + opcode) (omega arith),
          opcode_bits,
        )
        refl
    where
      opcode_bits : (0x80 + opcode) % 16 ≡ opcode
      opcode_bits = omega arith

  header-lem :
      (n : ℕ) (rest : Octets)
      → n ≤ c.max_message_bytes
      → n < 2 ^ 64
      → next_frame c ((0x80 + opcode) ∷ length_header masked n ++ rest)
        ≡ read_payload c.max_message_bytes true masked opcode (length_is n rest)
  unfolding length_header
  header-lem n rest h k = elim (Bool-cases (ltb n 126)) [
    | inl e ↦ rw e (
        head-lem n rest (omega (arith, ltb→lt n 126 e))
        ∙ ap read (read_length-short cap n rest (ltb→lt n 126 e)))
    | inr d ↦ rw d (elim (Bool-cases (ltb n 65536)) [
      | inl e ↦ rw e (
          head-lem 126 (big_endian 2 n ++ rest) (omega arith)
          ∙ ap read (read_length-two cap n rest (ltb→lt n 65536 e)))
      | inr e ↦ rw e (
          head-lem 127 (big_endian 8 n ++ rest) (omega arith)
          ∙ ap read (read_length-eight cap n rest h k))
    ])
  ]
    where
      cap : ℕ
      cap = c.max_message_bytes

      read : Length → Next
      read = read_payload cap true masked opcode

-- A frame is read back, whatever follows it.
module _ (c : Config) (opcode : ℕ) (payload more : Octets) (small : opcode < 16) where
  pub next_frame-encode_frame :
      (key : Option Octets)
      → c.is_client ≡ not (is_some key)
      → length payload ≤ c.max_message_bytes
      → length payload < 2 ^ 64
      → AreBytes payload
      → IsKey key
      → next_frame c (encode_frame opcode payload key ++ more) ≡ frame true opcode payload more
  unfolding encode_frame
  next_frame-encode_frame none side fits far bytes k =
      ap (λ z. next_frame c ((0x80 + opcode) ∷ z))
        (append_assoc (length_header false n) payload more)
      ∙ header-lem c false side opcode small n (payload ++ more) fits far
      ∙ read_payload-plain c.max_message_bytes opcode payload more fits
    where
      n : ℕ
      n = length payload
  next_frame-encode_frame (some key) side fits far bytes (four, k) =
      ap (λ z. next_frame c ((0x80 + opcode) ∷ z))
        (append_assoc (length_header true n) (key ++ mask_with key payload) more)
      ∙ header-lem c true side opcode small n ((key ++ mask_with key payload) ++ more) fits far
      ∙ read_payload-keyed c.max_message_bytes opcode key payload more fits four k bytes
    where
      n : ℕ
      n = length payload
