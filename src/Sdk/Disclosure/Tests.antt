-- ===== src/Sdk/Disclosure/Tests.antt =====
-- packages/sdk/src/disclosure.ts: verifyDisclosure at a concrete package.
use vera_key.Prelude.{Bool, ◌≡◌, refl, true, false, [], ◌∷◌, Option, none, some, map}
use vera_key.Prelude.Text.{big_int, lower, trim_start}
use vera_key.Sdk.Values.{Value, text, number, object, array, length16, property}
use vera_key.Sdk.Bytes.{to_field_hex, limbs}
use vera_key.Sdk.Bytes.Base64.{base64_url_encode}
use vera_key.Sdk.Verify.Examples.{viem, fields, items, id_hex, app_hex}
use vera_key.Sdk.Disclosure.{LinkOptions}
use vera_key.Sdk.Disclosure.Checks.{LinkVerdict, verify_disclosure}
use vera_key.Sdk.Disclosure.Laws.{IsDisclosed, verify_disclosure-IsDisclosed}

abbrev statement : Value
statement = object (
    fields (
      ("chainId", number 1)
      ∷ ("factory", text "0xFA")
      ∷ ("appIdA", text app_hex)
      ∷ ("nullifierA", text id_hex)
      ∷ ("appIdB", text (to_field_hex 6))
      ∷ ("nullifierB", text (to_field_hex 10))
      ∷ ("audience", text "auditor")
      ∷ ("nonce", text id_hex)
      ∷ ("expiresAt", number 2000)
      ∷ []))

abbrev package_of : Value → Value
package_of s = object (
    fields (
      ("kind", text "verakey-link-disclosure")
      ∷ ("version", number 1)
      ∷ ("statement", s)
      ∷ ("clientDataJSON", text "0x11")
      ∷ ("proof", text "0x22")
      ∷ (
        "publicInputs",
        array (items (map (λ n. text (to_field_hex n)) (0 ∷ 7 ∷ 0 ∷ 7 ∷ 5 ∷ 9 ∷ 6 ∷ 10 ∷ []))),
      )
      ∷ []))

abbrev options : LinkOptions
options = record {
  chain_id = 1;
  factory = "0xfa";
  rp_id_hash = "0x33";
  origin = "https://vera.key";
  audience = " auditor ";
  nonce = some id_hex;
  max_ttl_seconds = none;
  now = some 1000;
  has_link_verifier = true;
  has_link_prover = false;
  verifies = λ p is. some true;
  proves = λ p is. none;
  account_address = λ a n. some a;
  code = λ a. some (some "0x60");
  is_owner = λ a n. some true;
  coerced = λ x. none;
  challenge_other = λ x. none;
  big_int_other = λ x. none;
}

abbrev valid_of : Option LinkVerdict → Option Bool
valid_of none = none
valid_of (some v) = some v.valid

abbrev verdict_of : Option LinkVerdict → LinkVerdict
verdict_of none = record { valid = false; checks = []; accounts = none }
verdict_of (some v) = v

abbrev verdict : LinkVerdict
verdict = verdict_of (verify_disclosure viem options 0 (package_of statement))

verified : Unit {0}
unfolding verify_disclosure to_field_hex limbs length16 property big_int lower trim_start
    base64_url_encode
verified = tt

verified-verdict : verify_disclosure viem options 0 (package_of statement) ≡ some verdict
unfolding verified
verified-verdict = refl

verdict-valid : verdict.valid ≡ true
unfolding verified
verdict-valid = refl

verify_disclosure-IsDisclosed_example : IsDisclosed viem options 0 (package_of statement) verdict
verify_disclosure-IsDisclosed_example =
    verify_disclosure-IsDisclosed viem options 0 (package_of statement) verdict verified-verdict
      verdict-valid

verify_disclosure_tests :
    (valid_of
        (verify_disclosure viem (record options { audience = "someone" }) 0 (package_of statement))
      ≡ some false)
    × (valid_of
          (verify_disclosure viem (record options { now = some 2000 }) 0 (package_of statement))
        ≡ some false)
    × (valid_of (
          verify_disclosure viem
            (record options { is_owner = λ a n. some false })
            0
            (package_of statement))
        ≡ some false)
    × (valid_of (
          verify_disclosure viem
            (record options { is_owner = λ a n. none })
            0
            (package_of statement))
        ≡ none)
unfolding verified
verify_disclosure_tests = (refl, refl, refl, refl)
