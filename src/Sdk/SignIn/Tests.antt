-- ===== src/Sdk/SignIn/Tests.antt =====
-- packages/sdk/src/server.ts, the sign-in route at concrete requests.
use vera_key.Prelude.{◌≡◌, ◌≢◌, refl, String, true, List, [], ◌∷◌, none, some, nat_beq, arith}
use vera_key.Prelude.Text.{big_int, lower}
use vera_key.Collections.Map
use vera_key.Sdk.Values.{
  Value, text, object, end, field, property, length16, is_digits, digits_up_to,
}
use vera_key.Sdk.Connect.{Platform, is_bytes32}
use vera_key.Sdk.MemoryStore.{claim, tidy}
use vera_key.Sdk.Session.{Player}
use vera_key.Sdk.Payment.{ok, refuse}
use vera_key.Sdk.Sessions.SignOut.{Claim, claim_all}
use vera_key.Sdk.SignIn.{NonceCookie, read_nonce, Site, sign_in}
use vera_key.Sdk.SignIn.Replay.{IsSignedIn, sign_in-IsSignedIn, sign_in-replay}

abbrev platform : Platform
platform = record {
  is_address = λ s. nat_beq (length16 s) 4;
  is_hex = λ s. true;
  parse_url = λ s. none;
}

abbrev player : Player
player = record { id = "0x01"; account = "0xac" }

abbrev site : Site
site = record {
  platform = platform;
  verify_sign_in = λ result nonce.
      ok (record { valid = true; player_id = some "0x01"; account = some "0xac"; checks = [] });
  on_sign_in = λ p. none;
}

abbrev nonce : String
nonce = "0x1111111111111111111111111111111111111111111111111111111111111111"

abbrev cookie : NonceCookie
cookie = record { nonce = nonce; expires_at = "301" }

abbrev result : Value
result = object (field "statement" (object (field "nonce" (text nonce) end)) end)

route : Unit {0}
unfolding sign_in read_nonce is_bytes32 is_digits digits_up_to property length16 big_int lower claim
    tidy Map.get Map.set claim_all
route = tt

sign_in-player : (sign_in site result (some cookie) 5000 []).0 ≡ ok player
unfolding route
sign_in-player = refl

sign_in_tests :
    ((sign_in site result (some cookie) 6000 (sign_in site result (some cookie) 5000 []).1).0
      ≡ refuse 409 "This sign-in was already used.")
    × ((sign_in site result (some cookie) 301000 []).0
        ≡ refuse 403 "This browser has no current sign-in request: sign in again.")
unfolding route
sign_in_tests = (refl, refl)

sign_in-IsSignedIn_example : IsSignedIn site result (some cookie) 5000 [] player
sign_in-IsSignedIn_example =
    sign_in-IsSignedIn site result (some cookie) 5000 [] player sign_in-player

abbrev later_claims : List Claim
later_claims = record { key = "payment:0x5eed"; ttl = none; now = 5500 } ∷ []

sign_in-replay_example :
    (sign_in site result
      (some cookie)
      6000
      (claim_all later_claims (sign_in site result (some cookie) 5000 []).1)).0
    ≢ ok player
unfolding big_int
sign_in-replay_example =
    sign_in-replay site result result cookie 5000 6000 [] later_claims player tt (omega arith)
      sign_in-player (omega arith, omega arith) player
