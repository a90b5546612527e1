-- ===== src/Sdk/Verify.antt =====
-- packages/sdk/src/signin.ts: verifySignIn, up to where it asks the chain. A check keeps its name and
-- its result; the detail that explains it is left out.
pub mod Offline
pub mod Chain
pub mod Meant
pub mod Backed
pub mod Laws
pub mod Payments
pub mod Found
pub mod Paid
pub mod Settled
pub mod SignedIn
pub mod Examples
mod Tests
use vera_key.Prelude.{
  ℕ, ◌+◌, ◌/◌, ◌%◌, ◌^◌, String, Bool, true, false, not, ◌&&◌, List, [], ◌∷◌, Option, none, some,
  nat_beq, leb, ltb, ◌==◌, if◌then◌else◌, map,
}
use vera_key.Prelude.Text.{ℤ, pos, negsuc, big_int, lower}
use vera_key.Sdk.Values.{
  Value, text, number, boolean, array, object, Items, empty, item, equals_text, length16,
}
use vera_key.Sdk.Connect.{Platform, Url, is_one, message_field}
use vera_key.Sdk.Payment.{natural}
use vera_key.Sdk.Viem.{
  Viem, AbiValue, bytes32, address, uint, is_hex, is_address, text_of, number_of, items_of,
  is_array_of, and_then,
}
use vera_key.Sdk.Bytes.{limbs, to_field_hex}
use vera_key.Sdk.Bytes.Base64.{base64_url_encode}

abbrev pub bn254_r : ℕ
bn254_r = 0x30644e72e131a029b85045b68181585d2833e84879b9709143e1f593f0000001

abbrev pub sign_in_typehash : Viem → String
sign_in_typehash v = v.keccak256 (
    v.string_to_hex
      "VeraKeySignIn(uint256 chainId,address factory,bytes32 origin,bytes32 appId,bytes32 nullifier,bytes32 nonce,uint64 issuedAt,uint64 expiresAt)")

pub record Statement : Type 0 where
  pub chain_id : ℕ
  pub factory : String
  pub origin : String
  pub app_id : String
  pub nullifier : String
  pub nonce : String
  pub issued_at : ℕ
  pub expires_at : ℕ

abbrev pub origin_of : Option Url → Option String
origin_of none = none
origin_of (some url) = if url.origin == "null" then none else some url.origin

-- `none` is a TypeError.
unfoldable pub normalize_origin : Viem → String → Option String
normalize_origin v url = origin_of (v.platform.parse_url url)

abbrev pub app_id_of : Viem → Option String → Option ℕ
app_id_of v none = none
app_id_of v (some origin) = some (
    natural
      (big_int (v.keccak256 (v.string_to_hex (Prim.Native.String.◌++◌ "verakey.origin:" origin))))
    % bn254_r)

unfoldable pub app_id_from_origin : Viem → String → Option ℕ
unfolding normalize_origin
app_id_from_origin v origin = app_id_of v (normalize_origin v origin)

unfoldable pub sign_in_challenge : Viem → Statement → String
sign_in_challenge v s = v.keccak256 (
    v.encode_abi (
      bytes32 (sign_in_typehash v)
      ∷ uint 256 s.chain_id
      ∷ address s.factory
      ∷ bytes32 (v.keccak256 (v.string_to_hex s.origin))
      ∷ bytes32 s.app_id
      ∷ bytes32 s.nullifier
      ∷ bytes32 s.nonce
      ∷ uint 64 s.issued_at
      ∷ uint 64 s.expires_at
      ∷ []))

pub record Deployment : Type 0 where
  pub chain_id : ℕ
  pub factory : String
  pub rp_id_hash : String
  pub origin : String
  pub honk_verifier : String

-- `now` in seconds; the clock in milliseconds.
pub record Options : Type 0 where
  pub origin : String
  pub nonce : String
  pub deployment : Deployment
  pub has_prover : Bool
  pub skip_on_chain_proof : Bool
  pub now : Option ℕ
  pub max_ttl_seconds : Option ℕ
  pub clock_skew_seconds : Option ℕ

abbrev pub or_else : Option ℕ → ℕ → ℕ
or_else none d = d
or_else (some n) d = n

abbrev pub is_field_text : Viem → String → Bool
is_field_text v s =
    v.platform.is_hex s && nat_beq (length16 s) 66 && ltb (natural (big_int s)) bn254_r

unfoldable pub is_field : Viem → Value → Bool
is_field v (text s) = is_field_text v s
is_field v _ = false

unfoldable pub is_bytes32_value : Viem → Value → Bool
is_bytes32_value v (text s) = v.platform.is_hex s && nat_beq (length16 s) 66
is_bytes32_value v _ = false

abbrev pub is_timestamp : Value → Bool
is_timestamp (number n) = ltb n (2 ^ 32)
is_timestamp _ = false

-- `Number.isSafeInteger(value) && value > 0`
abbrev pub is_chain_id : Value → Bool
is_chain_id (number n) = ltb 0 n && ltb n (2 ^ 53)
is_chain_id _ = false

abbrev pub is_text_value : Value → Bool
is_text_value (text s) = true
is_text_value _ = false

abbrev pub is_object : Value → Bool
is_object (object fs) = true
is_object (array vs) = true
is_object _ = false

-- `a === b`, for a text `b`
abbrev pub same_text : Value → Value → Bool
same_text a (text t) = equals_text a t
same_text a _ = false

-- `wellFormed`, of the statement and the result.
unfoldable pub well_formed : Viem → (s result : Value) → Option Bool
unfolding is_field is_bytes32_value
well_formed v s result =
    and_then
      (some (
        is_field v (message_field "appId" s)
        && is_field v (message_field "nullifier" s)
        && is_bytes32_value v (message_field "nonce" s)))
      (and_then (is_address v (message_field "factory" s)) (
        and_then
          (some (
            is_text_value (message_field "origin" s)
            && is_chain_id (message_field "chainId" s)
            && is_timestamp (message_field "issuedAt" s)
            && is_timestamp (message_field "expiresAt" s)
            && leb (number_of (message_field "issuedAt" s))
                (number_of (message_field "expiresAt" s))
            && same_text (message_field "playerId" result) (message_field "nullifier" s)))
          (and_then (is_address v (message_field "account" result)) (
            some (
              is_array_of 6 (message_field "publicInputs" result)
              && is_hex v (message_field "clientDataJSON" result)
              && is_hex v (message_field "proof" result))))))

-- The statement, once it is well-formed.
unfoldable pub statement_of : Value → Statement
statement_of s = record {
  chain_id = number_of (message_field "chainId" s);
  factory = text_of (message_field "factory" s);
  origin = text_of (message_field "origin" s);
  app_id = text_of (message_field "appId" s);
  nullifier = text_of (message_field "nullifier" s);
  nonce = text_of (message_field "nonce" s);
  issued_at = number_of (message_field "issuedAt" s);
  expires_at = number_of (message_field "expiresAt" s);
}

pub record SignInCheck : Type 0 where
  pub name : String
  pub passed : Bool

-- A check that is about to be made; `none` is an exception.
abbrev pub Planned : Type 0
Planned = String × Option Bool

-- The checks that are made, up to the first that throws, which verifySignIn catches.
unfoldable pub run_checks : List Planned → List SignInCheck
run_checks [] = []
run_checks ((name, none) ∷ planned) =
    record { name = "Checked without errors"; passed = false } ∷ []
run_checks ((name, some ok) ∷ planned) = record { name = name; passed = ok } ∷ run_checks planned

-- `checks.every(c => c.ok)`
unfoldable pub all_passed : List SignInCheck → Bool
all_passed [] = true
all_passed (c ∷ checks) = c.passed && all_passed checks
