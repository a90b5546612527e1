-- ===== src/Sdk/Connect/Tests.antt =====
-- packages/sdk/src/connect.ts on concrete messages.
use vera_key.Prelude.{
  ◌≡◌, ◌↔◌, refl, String, true, false, ◌||◌, List, [], ◌∷◌, Option, none, some, nat_beq, ◌==◌,
  if◌then◌else◌,
}
use vera_key.Sdk.Values.{
  Value, text, number, undefined, object, Fields, end, field, length16, property, is_digits,
  digits_up_to,
}
use vera_key.Prelude.Text.{big_int}
use vera_key.Sdk.Connect.{
  Url, Platform, ConnectRequest, sign_in, connect_protocol, is_envelope, parse_request, Event,
  GateState, reject, accept, busy, accept_request, parse_fields, parse_method, parse_sign_in,
  parse_pay, parse_account, is_bytes32, is_allowed_requester_origin,
}
use vera_key.Sdk.Connect.Gate.{IsAcceptable, accept_request_iff}
use vera_key.Sdk.Connect.RoundTrip.{
  message_of, is_well_formed, parse_request_sound, parse_request-message_of,
}
use vera_key.Sdk.Connect.Popup.{
  rejected, start, Happens, message, values_fetched, values_threw, poll, step, run, request_message,
  settle, fail, when_fetched, on_ready, on_sending, on_progress, on_answer, on_message, on_poll,
  on_fetched,
}
use vera_key.Sdk.Connect.Popup.Laws.{IsSound, run-start-IsSound, IsKept, step_settled}
use vera_key.Sdk.Connect.Popup.Payments.{Tells, run-start-Tells}

abbrev shop : String
shop = "https://shop.example"

abbrev shop_url : Option Url
shop_url = some (record { origin = shop; protocol = "https:"; hostname = "shop.example" })

abbrev platform : Platform
platform = record {
  is_address = λ s. nat_beq (length16 s) 4;
  is_hex = λ s. s == "0x5eed" || nat_beq (length16 s) 66;
  parse_url = λ s. if s == shop then shop_url else none;
}

abbrev nonce : String
nonce = "0x1111111111111111111111111111111111111111111111111111111111111111"

abbrev asked : ConnectRequest
asked = sign_in "id-1" nonce

abbrev event : Event
event = record { source = some 7; origin = shop; message = message_of asked }

abbrev opened : GateState
opened = record { opener = some 7; handled = false }

abbrev of_popup : String → Fields → Value
of_popup kind fs = object (
    field "protocol" (text connect_protocol)
      (field "version" (number 1) (field "type" (text kind) (field "id" (text "id-2") fs))))

abbrev sending : Happens
sending = message true true (
    of_popup "progress" (
      field "stage" (text "sending")
        (field "account" (text "0xac") (field "nonce" (text "41") end))))

abbrev ready : Happens
ready = message true true (of_popup "ready" end)

abbrev paid : Fields
paid = field "to" (text "0xbb") (field "amount" (text "5") end)

abbrev cut_off : List Happens
cut_off =
    ready
    ∷ values_fetched paid
    ∷ ready
    ∷ sending
    ∷ message false true (of_popup "result" end)
    ∷ poll true
    ∷ message true true (of_popup "result" end)
    ∷ []

connect : Unit {0}
unfolding run step start settle fail when_fetched on_ready on_sending on_progress on_answer
    on_message on_poll on_fetched accept_request is_well_formed message_of parse_request
    parse_fields parse_method parse_sign_in parse_pay parse_account is_envelope is_bytes32 property
    length16 is_allowed_requester_origin is_digits digits_up_to big_int
connect = tt

cut_off-result :
    (run platform cut_off (start "id-2" "pay")).result
    ≡ some (
        rejected (record {
          code = text "closed";
          message =
              text
                "The VeraKey window closed while the payment was being sent: find it with findPayment before asking again.";
          revert = undefined;
          hash = none;
          pending = some (record { account = "0xac"; nonce = 41 });
        }))
unfolding connect
cut_off-result = refl

cut_off-posted :
    (run platform cut_off (start "id-2" "pay")).posted ≡ request_message "id-2" "pay" paid ∷ []
unfolding connect
cut_off-posted = refl

accept_request-busy :
    accept_request platform event (record { opener = some 7; handled = true })
    ≡ reject shop "id-1" busy
unfolding connect
accept_request-busy = refl

accept_request_iff_example :
    (accept_request platform event opened ≡ accept shop asked)
    ↔ ((shop ≡ shop) × IsAcceptable platform event opened asked)
accept_request_iff_example = accept_request_iff platform event opened shop asked

asked-is_parsed : parse_request platform (message_of asked) ≡ some asked
unfolding connect
asked-is_parsed = refl

asked-is_well_formed : is_well_formed platform asked ≡ true
unfolding connect
asked-is_well_formed = refl

accept_request-asked : accept_request platform event opened ≡ accept shop asked
unfolding connect
accept_request-asked = refl

parse_request_sound_example : is_well_formed platform asked ≡ true
parse_request_sound_example = parse_request_sound platform (message_of asked) asked asked-is_parsed

parse_request-message_of_example :
    (parse_request platform (message_of asked) ≡ some asked)
    × (is_envelope (message_of asked) ≡ true)
parse_request-message_of_example = parse_request-message_of platform asked asked-is_well_formed

run-start-IsSound_example : IsSound (run platform cut_off (start "id-2" "pay"))
run-start-IsSound_example = run-start-IsSound platform "id-2" "pay" cut_off

run-start-Tells_example : Tells (run platform cut_off (start "id-2" "pay"))
run-start-Tells_example = run-start-Tells platform "id-2" "pay" cut_off

cut_off-settled : (run platform cut_off (start "id-2" "pay")).settled ≡ true
unfolding connect
cut_off-settled = refl

step_settled_example :
    IsKept platform
      (run platform cut_off (start "id-2" "pay"))
      cut_off-settled
      (step platform (values_threw undefined) (run platform cut_off (start "id-2" "pay")))
step_settled_example =
    step_settled platform (run platform cut_off (start "id-2" "pay")) cut_off-settled
      (values_threw undefined)
