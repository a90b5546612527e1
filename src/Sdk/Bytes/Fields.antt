-- ===== src/Sdk/Bytes/Fields.antt =====
-- packages/sdk/src/bytes.ts: what toFieldHex writes, and what BigInt reads of it.
use Prim.Native.Char.{Char, code}
use Prim.Native.String.{String, ◌∷◌}
use mathlib.Core.List.{reverse, reverse-reverse, reverse-cons}
use vera_key.Prelude.{
  ℕ, zero, suc, ◌+◌, ◌*◌, ◌/◌, ◌%◌, ◌^◌, ◌<◌, ◌≡◌, refl, sym, ap, ◌∙◌, subst, false, List, some,
  arith, lt→ltb, ◌++◌,
}
use vera_key.Prelude.Text.{
  codes, is_white, trim_start, digit_value, digits_from, digits, numeral, big_int, signed, pos,
}
use vera_key.Sdk.Values.{length16}
use vera_key.Sdk.Bytes.{hex_digit, padded_hex, to_field_hex}
use vera_key.Sdk.Bytes.Digits.{hex_digit-ReadsBack}

unfoldable Plain : List ℕ → Type 0
Plain List.[] = Unit
Plain (List.◌∷◌ c cs) = (is_white c ≡ false) × Plain cs

padded_hex-Plain :
    (k n : ℕ) (tail : String) → Plain (codes tail) → Plain (codes (padded_hex k n tail))
unfolding padded_hex Plain
padded_hex-Plain zero n tail h = h
padded_hex-Plain (suc k) n tail h =
    padded_hex-Plain k (n / 16) _ ((hex_digit-ReadsBack (n % 16) (omega arith)).plain, h)

trim_start-Plain : (cs : List ℕ) → Plain cs → trim_start cs ≡ cs
unfolding trim_start Plain
trim_start-Plain List.[] h = refl
trim_start-Plain (List.◌∷◌ c cs) (w, h) = simp w refl

Plain-◌++◌ : (cs ds : List ℕ) → Plain cs → Plain ds → Plain (cs ++ ds)
unfolding Plain
Plain-◌++◌ List.[] ds h k = k
Plain-◌++◌ (List.◌∷◌ c cs) ds (w, h) k = (w, Plain-◌++◌ cs ds h k)

reverse-Plain : (cs : List ℕ) → Plain cs → Plain (reverse cs)
unfolding Plain
reverse-Plain List.[] h = tt
reverse-Plain (List.◌∷◌ c cs) (w, h) =
    subst Plain (sym (reverse-cons c cs))
      (Plain-◌++◌ (reverse cs) (List.◌∷◌ c List.[]) (reverse-Plain cs h) (w, tt))

-- A text without white space is read whole.
big_int-Plain : (s : String) → Plain (codes s) → big_int s ≡ numeral (codes s)
unfolding big_int
big_int-Plain s h = ap numeral (
    ap (λ x. reverse (trim_start (reverse x))) (trim_start-Plain (codes s) h)
    ∙ ap reverse (trim_start-Plain (reverse (codes s)) (reverse-Plain (codes s) h))
    ∙ reverse-reverse (codes s))

pow_suc : (k : ℕ) → 16 ^ suc k ≡ 16 ^ k * 16
pow_suc k = omega arith

last_digit : (a n p : ℕ) → (a * p + n / 16) * 16 + n % 16 ≡ a * (p * 16) + n
last_digit a n p = ground arith

shorter : (n p : ℕ) → n < p * 16 → n / 16 < p
shorter n p h = omega (arith, h)

digits_from-digit :
    (c acc : ℕ) (cs : List ℕ)
    → digit_value c < 16
    → digits_from 16 acc (List.◌∷◌ c cs) ≡ digits_from 16 (acc * 16 + digit_value c) cs
unfolding digits_from
digits_from-digit c acc cs h = simp (lt→ltb (digit_value c) 16 h) refl

digits_from-padded_hex :
    (k n acc : ℕ) (tail : String)
    → n < 16 ^ k
    → digits_from 16 acc (codes (padded_hex k n tail))
      ≡ digits_from 16 (acc * 16 ^ k + n) (codes tail)
unfolding digits_from padded_hex
digits_from-padded_hex zero n acc tail h =
    ap (λ x. digits_from 16 x (codes tail)) (omega (arith, h))
digits_from-padded_hex (suc k) n acc tail h =
    let d = hex_digit-ReadsBack (n % 16) (omega arith) in
    let rest =
      digits_from-padded_hex k (n / 16) acc (hex_digit (n % 16) ∷ tail)
        (shorter n (16 ^ k) (subst (λ x. n < x) (pow_suc k) h)) in
    rest
    ∙ digits_from-digit (code (hex_digit (n % 16))) _ (codes tail)
        (subst (λ x. x < 16) (sym d.value) (omega arith))
    ∙ ap (λ x. digits_from 16 x (codes tail))
        (ap (λ x. (acc * 16 ^ k + n / 16) * 16 + x) d.value
          ∙ last_digit acc n (16 ^ k)
          ∙ ap (λ x. acc * x + n) (sym (pow_suc k)))

-- Some number is read, whatever of the value the digits hold.
digits_from-readable :
    (k n acc : ℕ) (tail : String)
    → ((a : ℕ) → (m : ℕ) × (digits_from 16 a (codes tail) ≡ some m))
    → (m : ℕ) × (digits_from 16 acc (codes (padded_hex k n tail)) ≡ some m)
unfolding digits_from padded_hex
digits_from-readable zero n acc tail h = h acc
digits_from-readable (suc k) n acc tail h =
    let d = hex_digit-ReadsBack (n % 16) (omega arith) in
    digits_from-readable k (n / 16) acc (hex_digit (n % 16) ∷ tail) (λ a.
      let (m, e) = h (a * 16 + digit_value (code (hex_digit (n % 16)))) in
      (
        m,
        digits_from-digit (code (hex_digit (n % 16))) a (codes tail)
              (subst (λ x. x < 16) (sym d.value) (omega arith))
            ∙ e,
      ))

digits-padded_hex :
    (k n : ℕ) (c : Char) (tail : String)
    → digits 16 (codes (padded_hex k n (c ∷ tail)))
      ≡ digits_from 16 0 (codes (padded_hex k n (c ∷ tail)))
unfolding padded_hex digits
digits-padded_hex zero n c tail = refl
digits-padded_hex (suc k) n c tail = digits-padded_hex k (n / 16) (hex_digit (n % 16)) (c ∷ tail)

to_field_hex-Plain : (n : ℕ) → Plain (codes (to_field_hex n))
unfolding to_field_hex Plain is_white
to_field_hex-Plain n = (refl, (refl, padded_hex-Plain 64 n "" tt))

length16-padded_hex : (k n : ℕ) (tail : String) → length16 (padded_hex k n tail) ≡ k + length16 tail
unfolding padded_hex length16
length16-padded_hex zero n tail = omega arith
length16-padded_hex (suc k) n tail =
    let d = hex_digit-ReadsBack (n % 16) (omega arith) in
    let rest = length16-padded_hex k (n / 16) (hex_digit (n % 16) ∷ tail) in
    rest ∙ simp d.single (omega arith)

pub length16-to_field_hex : (n : ℕ) → length16 (to_field_hex n) ≡ 66
unfolding to_field_hex length16
length16-to_field_hex n = ap (λ x. 1 + (1 + x)) (length16-padded_hex 64 n "")

-- BigInt reads back what toFieldHex writes for a number below 2^256, 16^64: its 64 hexadecimal
-- digits after the prefix, 66 characters in all.
pub big_int-to_field_hex :
    (n : ℕ)
    → n < 16 ^ 64
    → (big_int (to_field_hex n) ≡ some (pos n)) × (length16 (to_field_hex n) ≡ 66)
unfolding to_field_hex numeral length16
big_int-to_field_hex n h = (
  big_int-Plain (to_field_hex n) (to_field_hex-Plain n)
      ∙ ap (signed pos) (
          digits-padded_hex 63 (n / 16) (hex_digit (n % 16)) ""
          ∙ digits_from-padded_hex 64 n 0 "" h)
      ∙ ap (λ x. some (pos x)) (omega arith),
  length16-to_field_hex n,
)

pub to_field_hex-readable : (n : ℕ) → (m : ℕ) × (big_int (to_field_hex n) ≡ some (pos m))
unfolding to_field_hex numeral digits_from
to_field_hex-readable n =
    let (m, e) = digits_from-readable 64 n 0 "" (λ a. (a, refl)) in
    (
      m,
      big_int-Plain (to_field_hex n) (to_field_hex-Plain n)
          ∙ ap (signed pos) (digits-padded_hex 63 (n / 16) (hex_digit (n % 16)) "" ∙ e),
    )
