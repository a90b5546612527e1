-- ===== src/Sdk/Values.antt =====
-- JavaScript values as the SDK's protocol reads them, and the lengths and patterns that it tests.
use Prim.Native.Char.{code}
use Prim.Native.String.{String, [], ◌∷◌}
use vera_key.Prelude.{ℕ, ◌+◌, Bool, true, false, ◌&&◌, ltb, leb, ◌==◌, if◌then◌else◌}

-- `object` is any object but an array; `number` is a natural number; `other` is any other number, a
-- function, a symbol or a BigInt.
mutual
  pub data Value : Type 0 where
    text : String → Value
    number : ℕ → Value
    undefined : Value
    null : Value
    other : Value
    boolean : Bool → Value
    array : Items → Value
    object : Fields → Value

  pub data Items : Type 0 where
    empty : Items
    item : Value → Items → Items

  pub data Fields : Type 0 where
    end : Fields
    field : String → Value → Fields → Fields

-- `fields.name`; the first field of a name is the object's.
unfoldable pub property : String → Fields → Value
property name end = undefined
property name (field n v fs) = if n == name then v else property name fs

abbrev pub is_text : Value → Bool
is_text (text s) = true
is_text _ = false

-- `value === "text"`
abbrev pub equals_text : Value → String → Bool
equals_text (text s) t = s == t
equals_text _ t = false

-- `text.length`: UTF-16 code units.
unfoldable pub length16 : String → ℕ
length16 [] = 0
length16 (c ∷ s) = (if ltb (code c) 0x10000 then 1 else 2) + length16 s

abbrev pub is_digit : ℕ → Bool
is_digit c = leb b'0' c && leb c b'9'

-- `/^[0-9]{0,most}$/`
unfoldable pub digits_up_to : ℕ → String → Bool
digits_up_to most [] = true
digits_up_to most (c ∷ s) =
    is_digit (code c) && ltb 0 most && digits_up_to (Prim.Native.Nat.pred most) s

-- `/^[0-9]{1,most}$/`
unfoldable pub is_digits : ℕ → String → Bool
unfolding digits_up_to
is_digits most [] = false
is_digits most (c ∷ s) = digits_up_to most (c ∷ s)

-- `/^[1-9][0-9]{0,38}$/`
unfoldable pub is_amount : String → Bool
unfolding digits_up_to
is_amount [] = false
is_amount (c ∷ s) = leb b'1' (code c) && leb (code c) b'9' && digits_up_to 38 s
