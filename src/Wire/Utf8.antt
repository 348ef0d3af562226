-- ===== src/Wire/Utf8.antt =====
-- `payload.toString("utf8")` of a Buffer, which src/registry/reverse-ws.mjs calls: the UTF-16 code units of the
-- text; what is not well formed becomes U+FFFD, once for each longest part that begins a character.
use dsh_orbit.Common.{
  ℕ, zero, suc, ◌+◌, ◌-◌, ◌*◌, ◌/◌, ◌%◌, ◌≤◌, Bool, true, false, ◌&&◌, [], ◌∷◌, ◌++◌, ltb, leb,
  ◌==◌, if◌then◌else◌, length, length-append, arith,
}
use dsh_orbit.Common.Text.{Text}
use dsh_orbit.Wire.{Octets}

-- Between characters, or within one: how many bytes are to come, the bounds of the next, and the bits so far.
pub data Decoding : Type 0 where
  between : Decoding
  within : (needed low high bits : ℕ) → Decoding

-- A code point as code units.
abbrev pub units : ℕ → Text
units c =
    if ltb c 0x10000
    then c ∷ []
    else (0xd800 + (c - 0x10000) / 0x400) ∷ (0xdc00 + (c - 0x10000) % 0x400) ∷ []

abbrev pub first : ℕ → Text × Decoding
first b =
    if ltb b 0x80
    then (b ∷ [], between)
    else if leb 0xc2 b && leb b 0xdf
    then ([], within 1 0x80 0xbf (b - 0xc0))
    else if leb 0xe0 b && leb b 0xef
    then (
      [],
      within 2 (if b == 0xe0 then 0xa0 else 0x80) (if b == 0xed then 0x9f else 0xbf) (b - 0xe0),
    )
    else if leb 0xf0 b && leb b 0xf4
    then (
      [],
      within 3 (if b == 0xf0 then 0x90 else 0x80) (if b == 0xf4 then 0x8f else 0xbf) (b - 0xf0),
    )
    else (0xfffd ∷ [], between)

abbrev pub broken : Text × Decoding → Text × Decoding
broken (text, d) = (0xfffd ∷ text, d)

abbrev pub continued_with : ℕ → ℕ → Text × Decoding
continued_with (suc (suc n)) bits = ([], within (suc n) 0x80 0xbf bits)
continued_with n bits = (units bits, between)

abbrev pub take : Decoding → ℕ → Text × Decoding
take between b = first b
take (within n low high bits) b =
    if leb low b && leb b high then continued_with n (bits * 64 + (b - 0x80)) else broken (first b)

unfoldable pub decode : Decoding → Octets → Text
decode between [] = []
decode (within n low high bits) [] = 0xfffd ∷ []
decode d (b ∷ bs) = (take d b).0 ++ decode (take d b).1 bs

unfoldable pub to_string : Octets → Text
unfolding decode
to_string bs = decode between bs

-- A character that has begun may still give a unit.
abbrev due : Decoding → ℕ
due between = 0
due (within n low high bits) = 1

abbrev AtMost : ℕ → Text × Decoding → Type 0
AtMost n (text, d) = length text + due d ≤ n

AtMost-if :
    (n : ℕ) (b : Bool) (p q : Text × Decoding)
    → AtMost n p
    → AtMost n q
    → AtMost n (if b then p else q)
AtMost-if n true p q h k = h
AtMost-if n false p q h k = k

units-length : (c : ℕ) → length (units c) ≤ 2
units-length c = ground arith

first-AtMost : (b : ℕ) → AtMost 1 (first b)
first-AtMost b = AtMost-if 1 (ltb b 0x80) _ _ (omega arith) (
    AtMost-if 1 (leb 0xc2 b && leb b 0xdf) _ _ (omega arith) (
      AtMost-if 1 (leb 0xe0 b && leb b 0xef) _ _ (omega arith)
        (AtMost-if 1 (leb 0xf0 b && leb b 0xf4) _ _ (omega arith) (omega arith))))

broken-AtMost : (p : Text × Decoding) → AtMost 1 p → AtMost 2 (broken p)
broken-AtMost (text, d) h = omega arith

continued_with-AtMost : (n bits : ℕ) → AtMost 2 (continued_with n bits)
continued_with-AtMost zero bits = omega (arith, units-length bits)
continued_with-AtMost (suc zero) bits = omega (arith, units-length bits)
continued_with-AtMost (suc (suc n)) bits = omega arith

take-AtMost : (d : Decoding) (b : ℕ) → AtMost (1 + due d) (take d b)
take-AtMost between b = first-AtMost b
take-AtMost (within n low high bits) b =
    AtMost-if 2 (leb low b && leb b high) _ _ (continued_with-AtMost n (bits * 64 + (b - 0x80)))
      (broken-AtMost (first b) (first-AtMost b))

decode-length : (d : Decoding) (bs : Octets) → length (decode d bs) ≤ length bs + due d
unfolding decode
decode-length between [] = omega arith
decode-length (within n low high bits) [] = omega arith
decode-length d (b ∷ bs) = omega (
  arith,
  length-append (take d b).0 (decode (take d b).1 bs),
  take-AtMost d b,
  decode-length (take d b).1 bs,
)

pub length-to_string : (bs : Octets) → length (to_string bs) ≤ length bs
unfolding to_string
length-to_string bs = omega (arith, decode-length between bs)
