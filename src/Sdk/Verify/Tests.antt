-- ===== src/Sdk/Verify/Tests.antt =====
-- packages/sdk/src/signin.ts: verifySignIn at a concrete sign-in.
use vera_key.Prelude.{◌≡◌, ◌≢◌, refl, true, false, [], some}
use vera_key.Prelude.Text.{lower, big_int}
use vera_key.Sdk.Values.{property, length16}
use vera_key.Sdk.Connect.{message_field}
use vera_key.Sdk.Bytes.{to_field_hex, limbs}
use vera_key.Sdk.Bytes.Base64.{base64_url_encode}
use vera_key.Sdk.Verify.{statement_of, well_formed, normalize_origin}
use vera_key.Sdk.Verify.Chain.{verify_sign_in, format_ok}
use vera_key.Sdk.Verify.Meant.{IsMeant}
use vera_key.Sdk.Verify.Laws.{IsVerified, verify_sign_in_iff, calls-IsMeant}
use vera_key.Sdk.Verify.Examples.{viem, node, options, result}

verified : Unit {0}
unfolding verify_sign_in to_field_hex big_int lower length16 property normalize_origin
    base64_url_encode limbs
verified = tt

verify_sign_in_valid : (verify_sign_in viem node options 1100000 result).valid ≡ true
unfolding verified
verify_sign_in_valid = refl

verify_sign_in_iff_example : IsVerified viem node options 1100000 result
verify_sign_in_iff_example =
    (verify_sign_in_iff viem node options 1100000 result).0 verify_sign_in_valid

calls : (verify_sign_in viem node options 1100000 result).calls ≢ []
unfolding verified
calls h = cc

calls-IsMeant_example :
    (format_ok result ≡ true)
    × (well_formed viem (message_field "statement" result) result ≡ some true)
    × IsMeant viem options 1100000 (statement_of (message_field "statement" result)) result
calls-IsMeant_example = calls-IsMeant viem node options 1100000 result calls

verify_sign_in_expired : (verify_sign_in viem node options 1360000 result).valid ≡ false
unfolding verified
verify_sign_in_expired = refl
