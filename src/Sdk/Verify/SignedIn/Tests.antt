-- ===== src/Sdk/Verify/SignedIn/Tests.antt =====
-- packages/sdk/src/server.ts and signin.ts: the sign-in route at a concrete sign-in.
use vera_key.Prelude.{◌≡◌, refl, String, [], none, some}
use vera_key.Prelude.Text.{big_int, lower}
use vera_key.Collections.Map
use vera_key.Sdk.Values.{length16, property, is_digits, digits_up_to}
use vera_key.Sdk.Connect.{is_bytes32, message_field}
use vera_key.Sdk.Viem.{text_of}
use vera_key.Sdk.Bytes.{to_field_hex, limbs}
use vera_key.Sdk.Bytes.Base64.{base64_url_encode}
use vera_key.Sdk.MemoryStore.{claim, tidy}
use vera_key.Sdk.Session.{Player}
use vera_key.Sdk.Payment.{ok}
use vera_key.Sdk.SignIn.{NonceCookie, read_nonce, sign_in}
use vera_key.Sdk.Verify.{statement_of, normalize_origin}
use vera_key.Sdk.Verify.Chain.{verify_sign_in}
use vera_key.Sdk.Verify.Laws.{IsVerified}
use vera_key.Sdk.Verify.SignedIn.{SiteChecks, options_for, site_of, sign_in-IsVerified}
use vera_key.Sdk.Verify.Examples.{viem, node, result, id_hex}

abbrev checks : SiteChecks
checks = record {
  viem = viem;
  node = node;
  origin = "https://game.example";
  deployment = record {
    chain_id = 1;
    factory = "0xfa";
    rp_id_hash = "0x33";
    origin = "https://vera.key";
    honk_verifier = "0xab";
  };
  details = λ cs. [];
}

abbrev cookie : NonceCookie
cookie = record { nonce = id_hex; expires_at = "1300" }

abbrev player : Player
player = record { id = id_hex; account = "0xac" }

route : Unit {0}
unfolding sign_in read_nonce is_bytes32 is_digits digits_up_to property length16 big_int lower claim
    tidy Map.get Map.set verify_sign_in to_field_hex normalize_origin base64_url_encode limbs
route = tt

sign_in-player :
    (sign_in (site_of checks 1100000 (λ p. none)) result (some cookie) 1100000 []).0 ≡ ok player
unfolding route
sign_in-player = refl

sign_in-IsVerified_example :
    (issued : String) × (read_nonce viem.platform 1100000 (some cookie) ≡ some issued)
    × IsVerified viem node (options_for checks issued) 1100000 result
    × (player.id ≡ (statement_of (message_field "statement" result)).nullifier)
    × (player.account ≡ text_of (message_field "account" result))
sign_in-IsVerified_example =
    sign_in-IsVerified checks (λ p. none) result (some cookie) 1100000 [] player sign_in-player
