-- ===== src/Wire/Numbers.antt =====
-- Numbers of several bytes and masked payloads, as src/registry/reverse-ws.mjs writes and reads them.
use Prim.Native.Nat.{bit_xor}
use dsh_orbit.Common.{
  false, Bool-cases, inl, inr, if◌then◌else◌, ℕ, zero, suc, ◌^◌, ◌<◌, ◌≡◌, refl, Bool, true, some,
  [], ◌∷◌, ◌++◌, ◌==◌, length, arith, ==→≡,
}
use dsh_orbit.Wire.{Octets, big_endian, number_of, rotate, first_byte, mask_with}
use dsh_orbit.Wire.Parse.{split_at}

pub two_bytes : (n : ℕ) → n < 65536 → number_of 0 (big_endian 2 n) ≡ n
unfolding number_of big_endian
two_bytes n h = omega arith

pub eight_bytes : (n : ℕ) → n < 2 ^ 64 → number_of 0 (big_endian 8 n) ≡ n
unfolding number_of big_endian
eight_bytes n h = omega arith

-- Whether a test holds of the octets below a bound.
test_octets : (ℕ → Bool) → ℕ → Bool
test_octets test zero = true
test_octets test (suc top) = let lower = test_octets test top in if test top then lower else false

tested :
    (test : ℕ → Bool) (octet bound : ℕ)
    → octet < bound
    → test_octets test bound ≡ true
    → test octet ≡ true
unfolding test_octets
tested test octet zero less passed = absurd (omega arith)
tested test octet (suc top) less passed = elim (Bool-cases (test top)) [
  | inr fails ↦ let bad : false ≡ true = rw fails at passed in absurd (ground arith)
  | inl holds ↦ elim (Bool-cases (octet == top)) [
    | inl same ↦ rw (==→≡ octet top same) holds
    | inr other ↦ tested test octet top (ground arith) (rw holds at passed)
  ]
]

abbrev unmasks : ℕ → ℕ → Bool
unmasks key octet = bit_xor (bit_xor octet key) key == octet

-- All pairs of a key and an octet, by evaluation.
octets_unmask : test_octets (λ key. test_octets (unmasks key) 256) 256 ≡ true
unfolding test_octets
octets_unmask = refl

mask_twice : (octet key : ℕ) → octet < 256 → key < 256 → bit_xor (bit_xor octet key) key ≡ octet
mask_twice octet key below key_below = ==→≡ _ octet (
    tested (unmasks key) octet 256 below
      (tested (λ key. test_octets (unmasks key) 256) key 256 key_below octets_unmask))

abbrev pub AreBytes : Octets → Type 0
AreBytes [] = Unit
AreBytes (b ∷ bs) = (b < 256) × AreBytes bs

AreBytes-snoc : (bs : Octets) (b : ℕ) → AreBytes bs → b < 256 → AreBytes (bs ++ b ∷ [])
AreBytes-snoc [] b h l = (l, tt)
AreBytes-snoc (x ∷ bs) b (l', h) l = (l', AreBytes-snoc bs b h l)

AreBytes-rotate : (key : Octets) → AreBytes key → AreBytes (rotate key)
AreBytes-rotate [] h = tt
AreBytes-rotate (k ∷ ks) (l, h) = AreBytes-snoc ks k h l

first_byte_below : (key : Octets) → AreBytes key → first_byte key < 256
first_byte_below [] h = omega arith
first_byte_below (k ∷ ks) (l, h) = l

pub mask_with-twice :
    (key bs : Octets) → AreBytes key → AreBytes bs → mask_with key (mask_with key bs) ≡ bs
unfolding mask_with
mask_with-twice key [] h l = refl
mask_with-twice key (b ∷ bs) h (l, ls) =
    rw
      (
        mask_twice b (first_byte key) l (first_byte_below key h),
        mask_with-twice (rotate key) bs (AreBytes-rotate key h) ls,
      )
      refl

pub length-mask_with : (key bs : Octets) → length (mask_with key bs) ≡ length bs
unfolding mask_with
length-mask_with key [] = refl
length-mask_with key (b ∷ bs) = omega (arith, length-mask_with (rotate key) bs)

pub length-big_endian : (n x : ℕ) → length (big_endian n x) ≡ n
unfolding big_endian
length-big_endian zero x = refl
length-big_endian (suc n) x = omega (arith, length-big_endian n x)

split_at-length :
    (front rest : Octets) → split_at (length front) (front ++ rest) ≡ some (front, rest)
unfolding split_at
split_at-length [] rest = refl
split_at-length (b ∷ front) rest = rw (split_at-length front rest) refl

pub split_at-append :
    (n : ℕ) (front rest : Octets)
    → length front ≡ n
    → split_at n (front ++ rest) ≡ some (front, rest)
split_at-append n front rest e = rw⁻¹ e (split_at-length front rest)
