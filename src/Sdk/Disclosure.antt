-- ===== src/Sdk/Disclosure.antt =====
-- packages/sdk/src/disclosure.ts: the statement of a disclosure, and verifyDisclosure. A check keeps its name and
-- its result; the detail that explains it is left out. `none` is an exception, which verifyDisclosure lets through.
pub mod Checks
pub mod Consent
pub mod Laws
mod Tests
use mathlib.Core.List.{reverse as list_reverse}
use vera_key.Prelude.{
  ℕ, ◌+◌, ◌/◌, String, Bool, true, false, not, ◌&&◌, ◌||◌, List, [], ◌∷◌, ◌++◌, Option, none, some,
  nat_beq, leb, ltb, ◌==◌, if◌then◌else◌,
}
use vera_key.Prelude.Text.{ℤ, pos, big_int, lower, codes, trim_start}
use vera_key.Sdk.Values.{
  Value, text, number, undefined, null, object, array, Items, empty, item, equals_text, length16,
}
use vera_key.Sdk.Connect.{is_one, message_field}
use vera_key.Sdk.Payment.{natural}
use vera_key.Sdk.Viem.{
  Viem, bytes32, address, uint, is_hex, is_address, text_of, number_of, items_of, is_array_of,
  and_then,
}
use vera_key.Sdk.Bytes.{to_field_hex}
use vera_key.Sdk.Verify.{SignInCheck, Planned, all_passed, is_field, is_bytes32_value, or_else}
use vera_key.Sdk.Verify.Offline.{
  expected_inputs, same_number, signed_this, signed_on, parsed_or_empty, client_data_of,
}
use vera_key.Sdk.Verify.Chain.{made, or_false, has_code}

pub record LinkStatement : Type 0 where
  pub chain_id : ℕ
  pub factory : String
  pub app_id_a : String
  pub nullifier_a : String
  pub app_id_b : String
  pub nullifier_b : String
  pub audience : String
  pub nonce : String
  pub expires_at : ℕ

abbrev pub link_typehash : Viem → String
link_typehash v = v.keccak256 (
    v.string_to_hex
      "VeraKeyLinkDisclosure(uint256 chainId,address factory,bytes32 appIdA,bytes32 nullifierA,bytes32 appIdB,bytes32 nullifierB,bytes32 audience,bytes32 nonce,uint64 expiresAt)")

unfoldable pub link_disclosure_challenge : Viem → LinkStatement → String
link_disclosure_challenge v s = v.keccak256 (
    v.encode_abi (
      bytes32 (link_typehash v)
      ∷ uint 256 s.chain_id
      ∷ address s.factory
      ∷ bytes32 s.app_id_a
      ∷ bytes32 s.nullifier_a
      ∷ bytes32 s.app_id_b
      ∷ bytes32 s.nullifier_b
      ∷ bytes32 (v.keccak256 (v.string_to_hex s.audience))
      ∷ bytes32 s.nonce
      ∷ uint 64 s.expires_at
      ∷ []))

-- The verifier's options, and what answers it; `none` is a failed call.
pub record LinkOptions : Type 0 where
  pub chain_id : ℕ
  pub factory : String
  pub rp_id_hash : String
  pub origin : String
  pub audience : String
  pub nonce : Option String
  pub max_ttl_seconds : Option ℕ
  pub now : Option ℕ
  pub has_link_verifier : Bool
  pub has_link_prover : Bool
  pub verifies : (proof : String) → List String → Option Bool
  pub proves : (proof : String) → List String → Option Bool
  pub account_address : (app_id nullifier : String) → Option String
  pub code : String → Option (Option String)
  pub is_owner : (account nullifier : String) → Option Bool
  -- What the code makes of fields of other types: the number that an expiry is compared as, if a date can be
  -- made of it; the challenge, if it can be encoded; and the BigInt, if it is one.
  pub coerced : Value → Option ℕ
  pub challenge_other : Value → Option String
  pub big_int_other : Value → Option ℤ

unfoldable pub link_statement_of : Value → LinkStatement
link_statement_of s = record {
  chain_id = number_of (message_field "chainId" s);
  factory = text_of (message_field "factory" s);
  app_id_a = text_of (message_field "appIdA" s);
  nullifier_a = text_of (message_field "nullifierA" s);
  app_id_b = text_of (message_field "appIdB" s);
  nullifier_b = text_of (message_field "nullifierB" s);
  audience = text_of (message_field "audience" s);
  nonce = text_of (message_field "nonce" s);
  expires_at = number_of (message_field "expiresAt" s);
}

-- `wellFormed`, of the statement and the package.
unfoldable pub link_well_formed : Viem → (s pkg : Value) → Option Bool
unfolding is_field is_bytes32_value
link_well_formed v s pkg =
    and_then
      (some (
        is_field v (message_field "appIdA" s)
        && is_field v (message_field "nullifierA" s)
        && is_field v (message_field "appIdB" s)
        && is_field v (message_field "nullifierB" s)
        && is_bytes32_value v (message_field "nonce" s)))
      (and_then (is_address v (message_field "factory" s)) (
        some (
          is_array_of 8 (message_field "publicInputs" pkg)
          && is_hex v (message_field "clientDataJSON" pkg)
          && is_hex v (message_field "proof" pkg))))

abbrev pub is_number : Value → ℕ → Bool
is_number (number n) m = nat_beq n m
is_number _ m = false

-- `text.trim()`, as code points.
abbrev pub trimmed : String → List ℕ
trimmed s = reverse (trim_start (reverse (trim_start (codes s))))
  where
    reverse : List ℕ → List ℕ
    reverse = list_reverse

abbrev pub same_codes : List ℕ → List ℕ → Bool
same_codes [] [] = true
same_codes (a ∷ xs) (b ∷ ys) = nat_beq a b && same_codes xs ys
same_codes _ _ = false

abbrev pub is_blank : List ℕ → Bool
is_blank [] = true
is_blank (c ∷ cs) = false

unfoldable pub for_audience : Value → (audience : String) → Bool
unfolding trim_start
for_audience (text s) audience =
    not (is_blank (trimmed s)) && same_codes (codes s) (trimmed audience)
for_audience _ audience = false

-- The expiry, in seconds; a number past 8,640,000,000,000 makes no date.
unfoldable pub expiry_of : LinkOptions → Value → Option ℕ
expiry_of o (number n) = if leb n 8640000000000 then some n else none
expiry_of o x = o.coerced x

abbrev pub passes : (ℕ → Bool) → Option ℕ → Option Bool
passes test none = none
passes test (some n) = some (test n)

abbrev pub is_typed : (chain_id audience expires_at : Value) → Bool
is_typed (number n) (text a) (number e) = true
is_typed _ _ _ = false

unfoldable pub challenge_of : Viem → LinkOptions → (s : Value) → Option String
unfolding link_disclosure_challenge link_statement_of
challenge_of v o s =
    if is_typed (message_field "chainId" s) (message_field "audience" s)
      (message_field "expiresAt" s)
    then some (link_disclosure_challenge v (link_statement_of s))
    else o.challenge_other s

-- `parsed.type` of what JSON.parse gave; it cannot be read of null.
abbrev pub signed_statement : Viem → Value → Option String → Option Bool
signed_statement v null challenge = none
signed_statement v parsed none = none
signed_statement v parsed (some challenge) = some (signed_this v parsed challenge)

-- `BigInt(value)`
abbrev pub big_int_of : LinkOptions → Value → Option ℤ
big_int_of o (text t) = big_int t
big_int_of o (number n) = some (pos n)
big_int_of o x = o.big_int_other x

-- `publicInputs.every(...)`; a value past the expected ones cannot be read.
unfoldable pub link_commits : LinkOptions → Items → List String → Option Bool
link_commits o empty expected = some true
link_commits o (item x xs) [] = none
link_commits o (item x xs) (e ∷ expected) =
    and_then (same_number (big_int_of o x) (big_int e)) (link_commits o xs expected)

abbrev pub link_commits_to : LinkOptions → Items → Option (List String) → Option Bool
link_commits_to o inputs none = none
link_commits_to o inputs (some expected) = link_commits o inputs expected

abbrev pub link_ids : LinkStatement → List ℕ
link_ids s =
    natural (big_int s.app_id_a)
    ∷ natural (big_int s.nullifier_a)
    ∷ natural (big_int s.app_id_b)
    ∷ natural (big_int s.nullifier_b)
    ∷ []

abbrev pub link_inputs : Viem → LinkOptions → (s pkg : Value) → Option (List String)
link_inputs v o s pkg =
    expected_inputs v o.rp_id_hash (client_data_of v pkg) (link_ids (link_statement_of s))
