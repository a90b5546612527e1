-- ===== src/Prelude/Text.antt =====
-- What the source uses of JavaScript's texts and BigInts: toLowerCase on ASCII texts (it is called on
-- hexadecimal texts), slice from a position, and BigInt(text).
use Prim.Native.Char.{Char, code}
use Prim.Native.String.{String, [], ◌∷◌, char_at}
use Prim.Native.Nat.{ℕ, zero, suc, ◌+◌, ◌-◌, ◌*◌, ◌/◌, ◌%◌, compare, Ordering}
use mathlib.Core.Bool.{Bool, ◌&&◌, ◌||◌}
use mathlib.Core.Option.{Option, none, some}
use mathlib.Core.List.{List, [], ◌∷◌, reverse}
use vera_key.Prelude.{leb, ltb, nat_beq, if◌then◌else◌}

unfoldable pub lower_char : Char → Char
lower_char c =
    if leb b'A' (code c) && leb (code c) b'Z'
    then char_at "abcdefghijklmnopqrstuvwxyz" (code c - b'A')
    else c

unfoldable pub lower : String → String
unfolding lower_char
lower [] = ""
lower (c ∷ s) = lower_char c ∷ lower s

-- `text.slice(n)`, which counts characters here: it is called on ASCII texts.
unfoldable pub slice_from : ℕ → String → String
slice_from zero s = s
slice_from (suc n) [] = ""
slice_from (suc n) (c ∷ s) = slice_from n s

abbrev pub codes : String → List ℕ
codes String.[] = []
codes (String.◌∷◌ c s) = code c ∷ codes s

-- `negsuc n` is -(n + 1).
pub data ℤ : Type 0 where
  pos : ℕ → ℤ
  negsuc : ℕ → ℤ

abbrev pub neg_ℕ : ℕ → ℤ
neg_ℕ zero = pos 0
neg_ℕ (suc n) = negsuc n

-- White space and line ends, which BigInt trims.
unfoldable pub is_white : ℕ → Bool
is_white c =
    (leb 9 c && leb c 13)
    || nat_beq c 32
    || nat_beq c 160
    || nat_beq c 0x1680
    || (leb 0x2000 c && leb c 0x200a)
    || nat_beq c 0x2028
    || nat_beq c 0x2029
    || nat_beq c 0x202f
    || nat_beq c 0x205f
    || nat_beq c 0x3000
    || nat_beq c 0xfeff

unfoldable pub trim_start : List ℕ → List ℕ
unfolding is_white
trim_start [] = []
trim_start (c ∷ s) = if is_white c then trim_start s else c ∷ s

-- A digit's value, or a value too large for any base.
unfoldable pub digit_value : ℕ → ℕ
digit_value c =
    if leb b'0' c && leb c b'9'
    then c - b'0'
    else if leb b'a' c && leb c b'z'
    then c - 87
    else if leb b'A' c && leb c b'Z'
    then c - 55
    else 36

unfoldable pub digits_from : ℕ → ℕ → List ℕ → Option ℕ
unfolding digit_value
digits_from base acc [] = some acc
digits_from base acc (c ∷ s) =
    let rest = digits_from base (acc * base + digit_value c) s in
    if ltb (digit_value c) base then rest else none

-- At least one digit.
unfoldable pub digits : ℕ → List ℕ → Option ℕ
unfolding digits_from
digits base [] = none
digits base (c ∷ s) = digits_from base 0 (c ∷ s)

abbrev pub signed : (ℕ → ℤ) → Option ℕ → Option ℤ
signed sign none = none
signed sign (some n) = some (sign n)

unfoldable pub numeral : List ℕ → Option ℤ
unfolding digits
numeral [] = some (pos 0)
numeral (c ∷ []) = signed pos (digits 10 (c ∷ []))
numeral (c ∷ d ∷ s) =
    if nat_beq c b'0' && (nat_beq d b'x' || nat_beq d b'X')
    then signed pos (digits 16 s)
    else if nat_beq c b'0' && (nat_beq d b'o' || nat_beq d b'O')
    then signed pos (digits 8 s)
    else if nat_beq c b'0' && (nat_beq d b'b' || nat_beq d b'B')
    then signed pos (digits 2 s)
    else if nat_beq c b'-'
    then signed neg_ℕ (digits 10 (d ∷ s))
    else if nat_beq c b'+'
    then signed pos (digits 10 (d ∷ s))
    else signed pos (digits 10 (c ∷ d ∷ s))

-- `BigInt(text)`; `none` is the SyntaxError.
unfoldable pub big_int : String → Option ℤ
unfolding numeral trim_start
big_int s = numeral (reverse (trim_start (reverse (trim_start (codes s)))))

abbrev pub decimal_digit : ℕ → Char
decimal_digit d = char_at "0123456789" d

unfoldable pub decimal_from : (fuel n : ℕ) → String → String
decimal_from zero n tail = tail
decimal_from (suc fuel) n tail = elim (compare n 10) [
  | Ordering.lt ↦ String.◌∷◌ (decimal_digit n) tail
  | _ ↦ decimal_from fuel (n / 10) (String.◌∷◌ (decimal_digit (n % 10)) tail)
]

-- `n.toString()`, of a number below 10^80.
unfoldable pub decimal : ℕ → String
unfolding decimal_from
decimal n = decimal_from 80 n ""
