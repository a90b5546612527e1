-- ===== src/Server/Relayer/Arguments.antt =====
-- server/relayer.ts: the conversion of a relay request's JSON arguments by the function's inputs.
use Prim.Native.String.{count}
use vera_key.Prelude.{
  ℕ, String, Bool, true, false, not, ◌&&◌, List, [], ◌∷◌, Option, none, some, ltb, ◌==◌, nat_beq,
  if◌then◌else◌, starts_with,
}
use vera_key.Prelude.Text.{ℤ, pos, negsuc, big_int}
use vera_key.Server.Relayer.{Outcome, ok, failed, refused, crashed, Value, int, flag, hex}
use vera_key.Server.Relayer.Abi.{Input}

-- A JSON value. `fraction` is a number that is not whole, `structure` an array or an object.
pub data Json : Type 0 where
  text : String → Json
  number : ℤ → Json
  fraction : Json
  boolean : Bool → Json
  null : Json
  structure : Json

-- `Boolean(value)`
abbrev pub truthy : Json → Bool
truthy (text s) = not (s == "")
truthy (number (pos n)) = not (nat_beq n 0)
truthy (number (negsuc n)) = true
truthy fraction = true
truthy (boolean b) = b
truthy null = false
truthy structure = true

abbrev pub bad : {A : Type 0} → String → Outcome A
bad name = failed (refused 400 (append "Bad " (append name ".")) none)
  where
    append : String → String → String
    append = Prim.Native.String.◌++◌

abbrev pub or_crash : Option ℤ → Outcome Value
or_crash none = failed crashed
or_crash (some n) = ok (int n)

-- `BigInt(value)` throws a SyntaxError for a text that is no numeral, a RangeError for a fraction.
unfoldable pub to_uint : String → Json → Outcome Value
to_uint name (text s) = or_crash (big_int s)
to_uint name (number n) = ok (int n)
to_uint name fraction = failed crashed
to_uint name _ = bad name

module _ (is_hex : String → Bool) where
  unfoldable pub to_hex : Input → Json → Outcome Value
  to_hex i (text s) =
      if is_hex s
      then if i.type == "bytes" && ltb 32770 (count s)
        then failed (refused 413 (Prim.Native.String.◌++◌ i.name " is too large.") none)
        else ok (hex s)
      else bad i.name
  to_hex i _ = bad i.name

  unfoldable pub convert : Input → Json → Outcome Value
  unfolding to_uint to_hex
  convert i value =
      if starts_with i.type "uint"
      then to_uint i.name value
      else if i.type == "bool"
      then ok (flag (truthy value))
      else to_hex i value

  abbrev pub prepend : Outcome Value → Outcome (List Value) → Outcome (List Value)
  prepend (ok v) (ok vs) = ok (v ∷ vs)
  prepend (ok v) (failed e) = failed e
  prepend (failed e) rest = failed e

  -- The lists have one length when this runs.
  unfoldable pub convert_all : List Input → List Json → Outcome (List Value)
  unfolding convert
  convert_all [] values = ok []
  convert_all (i ∷ is) [] = ok []
  convert_all (i ∷ is) (value ∷ values) = prepend (convert i value) (convert_all is values)

-- The value of the input named `fee`, if the function has one.
unfoldable pub fee_of : List Input → List Value → Option Value
fee_of [] values = none
fee_of (i ∷ is) [] = none
fee_of (i ∷ is) (v ∷ vs) = if i.name == "fee" then some v else fee_of is vs

-- `(args[fee] as bigint) < BigInt(config.network.relayer.fee)`
unfoldable pub below : Value → ℕ → Bool
below (int (pos n)) least = ltb n least
below (int (negsuc n)) least = true
below (flag b) least = false
below (hex s) least = false
