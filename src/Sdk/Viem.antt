-- ===== src/Sdk/Viem.antt =====
-- What the SDK takes from viem and from the browser: hashes, ABI encoding, tests of texts, JSON.
use vera_key.Prelude.{
  ℕ, String, Bool, true, false, Option, none, some, List, nat_beq, if◌then◌else◌,
}
use vera_key.Sdk.Values.{Value, text, array, number, Items, empty, item}
use vera_key.Sdk.Connect.{Platform}

-- A value that `encodeAbiParameters` writes, with its type.
pub data AbiValue : Type 0 where
  bytes32 : String → AbiValue
  address : String → AbiValue
  bool : Bool → AbiValue
  uint : (bits n : ℕ) → AbiValue

pub record Viem : Type 0 where
  pub platform : Platform
  -- Whether isAddress throws on a value that is not a text; otherwise it answers false.
  pub is_address_throws : Value → Bool
  pub hex_to_bytes : String → List ℕ
  pub bytes_to_hex : List ℕ → String
  -- `toHex(n, { size })`
  pub to_hex : (size n : ℕ) → String
  pub string_to_hex : String → String
  pub concat : List String → String
  pub keccak256 : String → String
  pub encode_abi : List AbiValue → String
  -- getContractAddress for CREATE2: the sender, the salt, the bytecode
  pub create2 : (sender salt bytecode : String) → String
  -- crypto.subtle's SHA-256
  pub sha256 : List ℕ → List ℕ
  -- `JSON.parse(new TextDecoder().decode(bytes))`; `none` is an exception.
  pub parse_json : List ℕ → Option Value

-- `isHex(value)`, which is false of anything but a text.
abbrev pub is_hex : Viem → Value → Bool
is_hex v (text s) = v.platform.is_hex s
is_hex v _ = false

abbrev pub is_address : Viem → Value → Option Bool
is_address v (text s) = some (v.platform.is_address s)
is_address v x = if v.is_address_throws x then none else some false

-- The text of a value that a test before found to be one, and likewise below.
abbrev pub text_of : Value → String
text_of (text s) = s
text_of _ = ""

abbrev pub number_of : Value → ℕ
number_of (number n) = n
number_of _ = 0

abbrev pub items_of : Value → Items
items_of (array vs) = vs
items_of _ = empty

abbrev pub length_items : Items → ℕ
length_items empty = 0
length_items (item v vs) = Prim.Native.Nat.suc (length_items vs)

-- `Array.isArray(value) && value.length === n`
abbrev pub is_array_of : ℕ → Value → Bool
is_array_of n (array vs) = nat_beq (length_items vs) n
is_array_of n _ = false

-- `a && b` of tests that may throw: `b` is asked only when `a` is true.
abbrev pub and_then : Option Bool → Option Bool → Option Bool
and_then none b = none
and_then (some false) b = some false
and_then (some true) b = b
