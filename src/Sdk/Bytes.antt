-- ===== src/Sdk/Bytes.antt =====
-- packages/sdk/src/bytes.ts: bytes and numbers. A byte is a number below 256; `none` is a RangeError.
pub mod Base64
pub mod Digits
pub mod Fields
mod Tests
use Prim.Native.Char.{Char}
use Prim.Native.String.{◌∷◌ as prepend, char_at}
use vera_key.Prelude.{
  ℕ, zero, suc, ◌+◌, ◌*◌, ◌/◌, ◌%◌, ◌^◌, String, List, [], ◌∷◌, ◌++◌, Option, none, some, ltb,
  nat_beq, if◌then◌else◌, length,
}

-- `concatBytes(...parts)`
unfoldable pub concat_bytes : List (List ℕ) → List ℕ
concat_bytes [] = []
concat_bytes (p ∷ parts) = p ++ concat_bytes parts

abbrev pub hex_digit : ℕ → Char
hex_digit d = char_at "0123456789abcdef" d

-- `value.toString(16).padStart(digits, "0")`, of a value of at most that many digits.
unfoldable pub padded_hex : (digits n : ℕ) → String → String
padded_hex zero n tail = tail
padded_hex (suc digits) n tail = padded_hex digits (n / 16) (prepend (hex_digit (n % 16)) tail)

-- `toFieldHex(value)`, of a value below 2^256.
unfoldable pub to_field_hex : ℕ → String
unfolding padded_hex
to_field_hex n = prepend "0" (prepend "x" (padded_hex 64 n ""))

-- The number that bytes write, the highest first.
unfoldable pub number_from : ℕ → List ℕ → ℕ
number_from acc [] = acc
number_from acc (b ∷ bs) = number_from (acc * 256 + b) bs

-- `bytesToBigint(bytes)`: BigInt reads the bytes' hexadecimal digits.
unfoldable pub bytes_to_bigint : List ℕ → ℕ
unfolding number_from
bytes_to_bigint bs = number_from 0 bs

-- The bytes of a number, the highest first.
unfoldable pub big_endian : (count n : ℕ) → List ℕ → List ℕ
big_endian zero n tail = tail
big_endian (suc count) n tail = big_endian count (n / 256) (n % 256 ∷ tail)

-- `bigintToBytes32(value)`, of a value that is not negative.
unfoldable pub bigint_to_bytes32 : ℕ → Option (List ℕ)
unfolding big_endian
bigint_to_bytes32 n = if ltb n (2 ^ 256) then some (big_endian 32 n []) else none

-- `bytes.subarray(0, n)` and `bytes.subarray(n)`
abbrev pub first : ℕ → List ℕ → List ℕ
first zero bs = []
first (suc n) [] = []
first (suc n) (b ∷ bs) = b ∷ first n bs

abbrev pub from : ℕ → List ℕ → List ℕ
from zero bs = bs
from (suc n) [] = []
from (suc n) (b ∷ bs) = from n bs

-- `limbs(bytes32)`
unfoldable pub limbs : List ℕ → Option (ℕ × ℕ)
unfolding bytes_to_bigint
limbs bs =
    if nat_beq (length bs) 32
    then some (bytes_to_bigint (first 16 bs), bytes_to_bigint (from 16 bs))
    else none
