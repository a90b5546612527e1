-- ===== src/Sdk/Verify/Examples.antt =====
-- packages/sdk/src/signin.ts: a concrete sign-in, and a node that confirms it.
use vera_key.Prelude.{ℕ, String, true, false, List, [], ◌∷◌, none, some, nat_beq, starts_with, map}
use vera_key.Sdk.Values.{
  Value, text, number, boolean, object, array, Items, empty, item, Fields, end, field, length16,
}
use vera_key.Sdk.Viem.{Viem}
use vera_key.Sdk.Bytes.{to_field_hex}
use vera_key.Sdk.Verify.{Options}
use vera_key.Sdk.Verify.Chain.{Node}

abbrev pub bytes : List ℕ
bytes =
    0 ∷ 0 ∷ 0 ∷ 0 ∷ 0 ∷ 0 ∷ 0 ∷ 0 ∷ 0 ∷ 0 ∷ 0 ∷ 0 ∷ 0 ∷ 0 ∷ 0 ∷ 0 ∷ 0 ∷ 0 ∷ 0 ∷ 0 ∷ 0 ∷ 0 ∷ 0 ∷ 0
    ∷ 0 ∷ 0 ∷ 0 ∷ 0 ∷ 0 ∷ 0 ∷ 0 ∷ 7 ∷ []

abbrev pub client_data : Value
client_data = object (
    field "type" (text "webauthn.get") (
      field "challenge" (text "AAAAAAAAAAAAAAAAAAAAAAAAAAAAAAAAAAAAAAAAAAc")
        (field "origin" (text "https://vera.key") (field "crossOrigin" (boolean false) end))))

abbrev pub viem : Viem
viem = record {
  platform = record {
    is_address = λ s. nat_beq (length16 s) 4;
    is_hex = λ s. starts_with s "0x";
    parse_url = λ s. some (record { origin = s; protocol = "https:"; hostname = "game.example" });
  };
  is_address_throws = λ x. false;
  hex_to_bytes = λ s. bytes;
  bytes_to_hex = λ bs. "0x";
  to_hex = λ size n. "0x";
  string_to_hex = λ s. "0x";
  concat = λ hs. "0x";
  keccak256 = λ s. "0x05";
  encode_abi = λ vs. "0x";
  create2 = λ a b c. "0xac";
  sha256 = λ bs. bytes;
  parse_json = λ bs. some client_data;
}

abbrev pub id_hex : String
id_hex = "0x0000000000000000000000000000000000000000000000000000000000000009"

abbrev pub app_hex : String
app_hex = "0x0000000000000000000000000000000000000000000000000000000000000005"

abbrev pub fields : List (String × Value) → Fields
fields [] = end
fields ((name, value) ∷ rest) = field name value (fields rest)

abbrev pub items : List Value → Items
items [] = empty
items (value ∷ rest) = item value (items rest)

abbrev pub statement : Value
statement = object (
    fields (
      ("chainId", number 1)
      ∷ ("factory", text "0xFA")
      ∷ ("origin", text "https://game.example")
      ∷ ("appId", text app_hex)
      ∷ ("nullifier", text id_hex)
      ∷ ("nonce", text id_hex)
      ∷ ("issuedAt", number 1000)
      ∷ ("expiresAt", number 1300)
      ∷ []))

abbrev pub inputs : List Value
inputs = map (λ n. text (to_field_hex n)) (0 ∷ 7 ∷ 0 ∷ 7 ∷ 5 ∷ 9 ∷ [])

abbrev pub result : Value
result = object (
    fields (
      ("version", number 1)
      ∷ ("statement", statement)
      ∷ ("playerId", text id_hex)
      ∷ ("account", text "0xac")
      ∷ ("clientDataJSON", text "0x11")
      ∷ ("proof", text "0x22")
      ∷ ("publicInputs", array (items inputs))
      ∷ []))

abbrev pub options : Options
options = record {
  origin = "https://game.example";
  nonce = id_hex;
  deployment = record {
    chain_id = 1;
    factory = "0xfa";
    rp_id_hash = "0x33";
    origin = "https://vera.key";
    honk_verifier = "0xab";
  };
  has_prover = false;
  skip_on_chain_proof = false;
  now = none;
  max_ttl_seconds = none;
  clock_skew_seconds = none;
}

abbrev pub node : Node
node = record {
  verifies = λ p is. some true;
  account_address = λ a n. some "0xAC";
  code = λ a. some none;
  is_owner = λ a n. none;
  proves = λ p is. none;
}
