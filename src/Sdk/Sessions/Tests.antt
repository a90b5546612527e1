-- ===== src/Sdk/Sessions/Tests.antt =====
-- packages/sdk/src/server.ts, sessions at concrete cookies.
use vera_key.Prelude.{◌≡◌, refl, String, true, List, [], ◌∷◌, Option, none, some, nat_beq, arith}
use vera_key.Collections.Map
use vera_key.Sdk.Values.{Value, text, number, object, end, field, property, length16}
use vera_key.Sdk.Connect.{Platform, is_bytes32}
use vera_key.Sdk.MemoryStore.{claim, has, tidy}
use vera_key.Sdk.Sessions.{
  CookieSession, is_sid, decode_fields, decode_session, signed_out, read_session, sign_out, Checks,
  remember_owner, still_owner, end_check,
}
use vera_key.Sdk.Sessions.SignOut.{Claim, claim_all, sign_out-none}

abbrev platform : Platform
platform = record {
  is_address = λ s. nat_beq (length16 s) 4;
  is_hex = λ s. true;
  parse_url = λ s. none;
}

abbrev id : String
id = "0x1111111111111111111111111111111111111111111111111111111111111111"

abbrev sid : String
sid = "0123456789abcdef0123456789abcdef"

abbrev cookie : Option Value
cookie = some (
    object (
      field "v" (number 1) (
        field "id" (text id)
          (field "account" (text "0xac") (field "sid" (text sid) (field "exp" (number 50) end))))))

abbrev session : CookieSession
session = record { player = record { id = id; account = "0xac" }; sid = sid; exp = 50 }

sessions : Unit {0}
unfolding read_session decode_session decode_fields is_sid is_bytes32 property length16 signed_out
    has sign_out claim tidy Map.get Map.set Map.delete claim_all still_owner end_check
    remember_owner
sessions = tt

cookie-read : read_session platform 49999 cookie [] ≡ some session
unfolding sessions
cookie-read = refl

session_tests :
    (read_session platform 50000 cookie [] ≡ none)
    × (read_session platform 49999 cookie (sign_out platform 20000 cookie []) ≡ none)
unfolding sessions
session_tests = (refl, refl)

abbrev later_claims : List Claim
later_claims = record { key = "nonce:1"; ttl = some 360; now = 49999 } ∷ []

sign_out-none_example :
    read_session platform 49999 cookie (claim_all later_claims (sign_out platform 49999 cookie []))
    ≡ none
sign_out-none_example =
    sign_out-none platform 49999 49999 cookie [] later_claims session tt cookie-read
      (omega arith, omega arith)

abbrev unchecked : Checks
unchecked = record { seen = []; checking = sid ∷ [] }
