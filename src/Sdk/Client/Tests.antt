-- ===== src/Sdk/Client/Tests.antt =====
-- packages/sdk/src/client.ts at concrete requests.
use vera_key.Prelude.{Bool, ℕ, ◌≡◌, refl, String, false, [], ◌∷◌, none, some}
use vera_key.Prelude.Text.{decimal, lower}
use vera_key.Sdk.Bytes.{to_field_hex, padded_hex, concat_bytes}
use vera_key.Sdk.Bytes.Base64.{base64_url_encode, base64_url_decode}
use vera_key.Sdk.Actions.{Change}
use vera_key.Sdk.Passkeys.{StoredPasskey, find_passkey, without_passkey}
use vera_key.Sdk.Client.{
  done, authenticating, proving, relaying, confirming, verified, confirms, Session,
}
use vera_key.Sdk.Client.Authorize.{authorize}
use vera_key.Sdk.Client.Methods.{
  pay_wish, pay, schedule_change, restrict, cancel_change, cancel_recovery,
}
use vera_key.Sdk.Client.Unlock.{authenticate, session_of}
use vera_key.Sdk.Client.Trace.{asked, told}
use vera_key.Sdk.Client.Asking.{AtMostDue, authorize-AtMostDue}
use vera_key.Sdk.Client.Statuses.{IsTold}
use vera_key.Sdk.Client.Told.{methods-IsTold}
use vera_key.Sdk.Client.Unlocked.{IsUnlocked, authenticate-IsUnlocked}
use vera_key.Sdk.Client.Examples.{outside, client, passkey, assertion}

authorize-AtMostDue_example :
    AtMostDue outside client 5
      (pay_wish "0xBB" 10)
      false
      (asked (authorize outside 5 (pay_wish "0xBB" 10) false client).events)
authorize-AtMostDue_example = authorize-AtMostDue outside 5 (pay_wish "0xBB" 10) false client

methods-IsTold_example :
    ((to : String) (amount : ℕ) (secure : Bool) → IsTold (pay outside 5 to amount secure client))
    × ((change : Change)
        → IsTold (schedule_change outside 5 change client)
          × IsTold (restrict outside 5 change client))
    × ((id : String)
        → IsTold (cancel_change outside 5 id client) × IsTold (cancel_recovery outside 5 id client))
methods-IsTold_example = methods-IsTold outside 5 client

sent : Unit {0}
unfolding pay authorize asked told to_field_hex lower decimal
sent = tt

pay_tests :
    (asked (pay outside 5 "0xBB" 10 false client).events ≡ confirms "0x05" "0xbb" 12 ∷ [])
    × (told (pay outside 5 "0xBB" 10 false client).events
        ≡ authenticating ∷ proving 1000 ∷ relaying 7 ∷ confirming 7 "0x77" ∷ verified 7 "0x77" ∷ [])
    × (asked (pay (record outside { sheet_available = false }) 5 "0xBB" 10 false client).events
        ≡ [])
    × ((pay (record outside { balance = λ a. done 1 }) 5 "0xBB" 10 false client).client.store
        ≡ client.store)
unfolding sent
pay_tests = (refl, refl, refl, refl)

abbrev unlocked_passkey : StoredPasskey
unlocked_passkey = record passkey { prf_check = some "00000000000000000000000000000000" }

abbrev session : Session
session = session_of outside assertion unlocked_passkey

unlocked : Unit {0}
unfolding authenticate find_passkey without_passkey base64_url_encode base64_url_decode concat_bytes
    padded_hex
unlocked = tt

authenticate-session : (authenticate outside none client).result ≡ done session
unfolding unlocked
authenticate-session = refl

authenticate-IsUnlocked_example :
    IsUnlocked outside client (authenticate outside none client).client session
authenticate-IsUnlocked_example =
    authenticate-IsUnlocked outside none client session authenticate-session
