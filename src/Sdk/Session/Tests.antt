-- ===== src/Sdk/Session/Tests.antt =====
-- packages/sdk/src/session.ts at concrete answers.
use vera_key.Prelude.{
  ℕ, ◌≡◌, refl, String, true, false, List, [], ◌∷◌, none, some, nat_beq, ◌==◌, if◌then◌else◌,
}
use vera_key.Prelude.Text.{big_int, pos}
use vera_key.Sdk.Values.{
  Value, text, number, undefined, object, Fields, end, field, length16, property, is_digits,
  digits_up_to,
}
use vera_key.Sdk.Connect.{Url, Platform, connect_protocol, is_envelope}
use vera_key.Sdk.Connect.Popup.{
  ConnectError, rejected, start, Happens, message, values_fetched, poll, step, run, settle, fail,
  when_fetched, on_ready, on_sending, on_progress, on_answer, on_message, on_poll, on_fetched,
}
use vera_key.Sdk.Session.{
  signed_out, signing_in, signed_in, Player, by_nonce, SentPayment, Session, ok, failed, of_connect,
  Response, Thrown, call, quiet,
}
use vera_key.Sdk.Session.Methods.{
  SessionInfo, load, finish_failed, finish_sign_in, sign_in, pay, ReceiptBody, end_order,
  finish_payment, confirm_payment, sent_payment, end_payment,
}
use vera_key.Sdk.Session.Machine.{World, pays, here, further, IsCoherent, Reach-IsCoherent}
use vera_key.Sdk.Session.SignIn.{finish_failed-load}
use vera_key.Sdk.Session.Payments.{proof_of, Names, end_order-Names}

abbrev url : Url
url = record {
  origin = "https://verakey.example";
  protocol = "https:";
  hostname = "verakey.example";
}

abbrev platform : Platform
platform = record {
  is_address = λ s. nat_beq (length16 s) 4;
  is_hex = λ s. s == "0x5eed";
  parse_url = λ s. if s == "https://verakey.example" then some url else none;
}

abbrev answered : ℕ → Value
answered status = number status

abbrev player : Player
player = record { id = "0x01"; account = "0xac" }

abbrev info : SessionInfo
info = record {
  verakey_url = "https://verakey.example";
  merchant = some "0xbb";
  player = some player;
}

abbrev answer : {A : Type 0} → A → Response A
answer body = record { status = 200; error = none; checks = none; body = body }

abbrev opening : Session
opening = record {
  status = signing_in;
  player = none;
  paying = false;
  error = none;
  connect = true;
  merchant = some "0xbb";
}

abbrev cancelled : Thrown
cancelled =
    of_connect
      (record {
        code = text "cancelled";
        message = text "Cancelled.";
        revert = undefined;
        hash = none;
        pending = none;
      })
      none

abbrev sent : SentPayment
sent = record { amount = 5; proof = by_nonce 41 }

abbrev receipt : ReceiptBody
receipt = record { hash = "0x5eed"; amount = "5"; fee = "1"; result = undefined }

session : Unit {0}
unfolding load call finish_failed finish_sign_in sign_in pay end_order finish_payment
    confirm_payment sent_payment end_payment quiet big_int run step start settle fail when_fetched
    on_ready on_sending on_progress on_answer on_message on_poll on_fetched is_envelope property
    length16 is_digits digits_up_to
session = tt

receipt_tests :
    (end_order answered 5 (ok "0x5eed") (some (answer receipt)) opening).0
    ≡ ok (some (record { hash = "0x5eed"; amount = pos 5; fee = pos 1; result = undefined }))
unfolding session
receipt_tests = refl

cancelled-quiet : quiet cancelled ≡ true
unfolding quiet
cancelled-quiet = refl

finish_failed-load_example :
    ((finish_failed cancelled (load platform answered (some (answer info)) opening)).1.status
      ≡ signed_out)
    × ((finish_failed cancelled (load platform answered (some (answer info)) opening)).1.player
        ≡ some player)
finish_failed-load_example =
    finish_failed-load platform answered (answer info) url player cancelled opening refl refl refl
      cancelled-quiet

abbrev of_popup : String → Fields → Happens
of_popup kind fs = message true true (
    object (
      field "protocol" (text connect_protocol)
        (field "version" (number 1) (field "type" (text kind) (field "id" (text "id") fs)))))

abbrev cut_off : List Happens
cut_off =
    of_popup "ready" end
    ∷ values_fetched end
    ∷ of_popup "progress" (
        field "stage" (text "sending")
          (field "account" (text "0xac") (field "nonce" (text "41") end)))
    ∷ poll true
    ∷ []

abbrev closed : ConnectError
closed = record {
  code = text "closed";
  message =
      text
        "The VeraKey window closed while the payment was being sent: find it with findPayment before asking again.";
  revert = undefined;
  hash = none;
  pending = some (record { account = "0xac"; nonce = 41 });
}

cut_off-rejected : (run platform cut_off (start "id" "pay")).result ≡ some (rejected closed)
unfolding session
cut_off-rejected = refl

cut_off-proof :
    proof_of
      (run platform cut_off (start "id" "pay")).sent
      (run platform cut_off (start "id" "pay")).sending
      (text "closed")
    ≡ some (by_nonce 41)
unfolding session
cut_off-proof = refl

end_order-Names_example :
    Names sent (end_order answered 5 (failed (of_connect closed none)) none opening).0
end_order-Names_example =
    end_order-Names platform "id" cut_off closed none (by_nonce 41) answered 5 none opening
      cut_off-rejected cut_off-proof

abbrev signed : Session
signed = record opening { status = signed_in; player = some player }

abbrev idle : World
idle = record { session = signed; payments = 0 }

abbrev busy : World
busy = record { session = record signed { paying = true }; payments = 1 }

signed-pays :
    pay 5 signed
    ≡ (ok (record { to = "0xbb"; amount = 5; account = "0xac" }), record signed { paying = true })
unfolding pay
signed-pays = refl

Reach-IsCoherent_example : IsCoherent busy
Reach-IsCoherent_example =
    Reach-IsCoherent platform answered (further here (pays 5 _ _ signed-pays))
      (record { payments = refl; known = refl })
