-- ===== src/Wire.antt =====
-- src/registry/reverse-ws.mjs: frames of WebSocket messages, as lists of bytes. `bit_and` and `bit_or` with
-- a power of two are written as `/`, `%` and `+`; a masking key is an argument.
pub mod Utf8
pub mod Parse
pub mod Chunks
pub mod Streams
pub mod Numbers
pub mod Encoded
pub mod Bounds
pub mod Kept
pub mod Messages
mod Tests
use Prim.Native.Nat.{bit_xor}
use dsh_orbit.Common.{
  ℕ, zero, suc, ◌+◌, ◌*◌, ◌/◌, ◌%◌, ◌^◌, Bool, true, false, Option, none, some, List, [], ◌∷◌, ◌++◌,
  ltb, if◌then◌else◌, length,
}

abbrev pub Octets : Type 0
Octets = List ℕ

-- `writeUInt16BE` and `writeBigUInt64BE`: the last n bytes of a number, the highest first.
unfoldable pub big_endian : ℕ → ℕ → Octets
big_endian zero x = []
big_endian (suc n) x = x / 256 ^ n % 256 ∷ big_endian n x

-- `readUInt16BE` and `readBigUInt64BE`
unfoldable pub number_of : ℕ → Octets → ℕ
number_of acc [] = acc
number_of acc (b ∷ bs) = number_of (acc * 256 + b) bs

-- `payload[i] ^ maskingKey[i % 4]`: the key goes round.
abbrev pub rotate : Octets → Octets
rotate [] = []
rotate (k ∷ ks) = ks ++ k ∷ []

abbrev pub first_byte : Octets → ℕ
first_byte [] = 0
first_byte (k ∷ ks) = k

unfoldable pub mask_with : Octets → Octets → Octets
mask_with key [] = []
mask_with key (b ∷ bs) = bit_xor b (first_byte key) ∷ mask_with (rotate key) bs

abbrev pub mask_bit : Bool → ℕ
mask_bit true = 0x80
mask_bit false = 0

-- The second byte, and the bytes of a longer length.
unfoldable pub length_header : Bool → ℕ → Octets
unfolding big_endian
length_header masked n =
    if ltb n 126
    then (mask_bit masked + n) ∷ []
    else if ltb n 65536
    then (mask_bit masked + 126) ∷ big_endian 2 n
    else (mask_bit masked + 127) ∷ big_endian 8 n

abbrev pub is_some : Option Octets → Bool
is_some none = false
is_some (some k) = true

abbrev pub body : Option Octets → Octets → Octets
body none payload = payload
body (some key) payload = key ++ mask_with key payload

-- `key` is the masking key of a frame that is masked. The opcode is below 16.
unfoldable pub encode_frame : ℕ → Octets → Option Octets → Octets
unfolding length_header mask_with
encode_frame opcode payload key =
    (0x80 + opcode) ∷ length_header (is_some key) (length payload) ++ body key payload
