-- ===== src/Sdk/Connect/Popup.antt =====
-- packages/sdk/src/connect.ts: the site's side, VeraKeyConnect.request, from the call to its end. A
-- request is a record that events change; what the site's callback and the popup do are events.
pub mod Laws
pub mod Payments
use vera_key.Prelude.{
  ℕ, String, Bool, true, false, not, ◌&&◌, ◌||◌, List, [], ◌∷◌, Option, none, some, nat_beq, ltb,
  ◌^◌, ◌==◌, if◌then◌else◌,
}
use vera_key.Prelude.Text.{ℤ, pos, negsuc, big_int}
use vera_key.Sdk.Values.{
  Value, text, number, undefined, object, Fields, end, field, property, equals_text, is_digits,
}
use vera_key.Sdk.Connect.{
  Platform, ConnectRequest, sign_in, pay, connect_protocol, is_envelope, message_field, is_bytes32,
}

-- A payment that the popup was sending.
pub record PendingPayment : Type 0 where
  pub account : String
  pub nonce : ℕ

pub record ConnectError : Type 0 where
  pub code : Value
  pub message : Value
  pub revert : Value
  pub hash : Option String
  pub pending : Option PendingPayment

pub data Result : Type 0 where
  resolved : Value → Result
  rejected : ConnectError → Result

-- The site's parameters, which a callback of the site's may still be fetching.
pub data Values : Type 0 where
  waiting : Values
  fetched : Fields → Values
  threw : Values

-- The variables of one request. `posted` is what the popup was sent, `closes` how often it was closed.
pub record Request : Type 0 where
  pub id : String
  pub method : String
  pub values : Values
  pub ready : Bool
  pub settled : Bool
  pub sent : Option String
  pub sending : Option PendingPayment
  pub result : Option Result
  pub posted : List Value
  pub closes : ℕ

unfoldable pub start : (id method : String) → Request
start id method = record {
  id = id;
  method = method;
  values = waiting;
  ready = false;
  settled = false;
  sent = none;
  sending = none;
  result = none;
  posted = [];
  closes = 0;
}

-- `envelope({ type: "request", id, method, params })`
abbrev pub request_message : (id method : String) → Fields → Value
request_message id method params = object (
    field "protocol" (text connect_protocol) (
      field "version" (number 1) (
        field "type" (text "request") (
          field "id" (text id)
            (field "method" (text method) (field "params" (object params) end))))))

unfoldable pub settle : Result → Request → Request
settle result r = if r.settled then r else record r { settled = true; result = some result }

abbrev pub keeps_pending : Value → Bool
keeps_pending code = equals_text code "closed" || equals_text code "relay"

abbrev pub pending_of : Option String → Value → Option PendingPayment → Option PendingPayment
pending_of (some hash) code sending = none
pending_of none code sending = if keeps_pending code then sending else none

unfoldable pub fail : (code message revert : Value) → Request → Request
fail code message revert r =
    settle
      (rejected (record {
        code = code;
        message = message;
        revert = revert;
        hash = r.sent;
        pending = pending_of r.sent code r.sending;
      }))
      r

abbrev pub post : Fields → Request → Request
post params r = record r { posted = request_message r.id r.method params ∷ r.posted }

-- Once the popup is ready and the values are there, unless the request has ended.
unfoldable pub when_fetched : Values → Request → Request
when_fetched (fetched params) r = if r.settled then r else post params r
when_fetched waiting r = r
when_fetched threw r = r

unfoldable pub on_ready : Request → Request
on_ready r = if r.ready then r else when_fetched r.values (record r { ready = true })

abbrev pub as_nonce : Option ℤ → ℕ
as_nonce (some (pos n)) = n
as_nonce _ = 0

unfoldable pub on_submitted : Platform → Value → Request → Request
on_submitted p (text hash) r = if p.is_hex hash then record r { sent = some hash } else r
on_submitted p _ r = r

-- The pattern's test and BigInt coerce a number, which prints its digits below 10^21.
unfoldable pub on_sending : Platform → (account nonce : Value) → Request → Request
on_sending p (text account) (text nonce) r =
    if p.is_address account && is_digits 78 nonce
    then record r {
      sending = some (record { account = account; nonce = as_nonce (big_int nonce) });
    }
    else r
on_sending p (text account) (number n) r =
    if p.is_address account && ltb n (10 ^ 21)
    then record r { sending = some (record { account = account; nonce = n }) }
    else r
on_sending p _ nonce r = r

unfoldable pub on_progress : Platform → Value → Request → Request
on_progress p m r =
    if equals_text (message_field "stage" m) "submitted"
    then on_submitted p (message_field "hash" m) r
    else if equals_text (message_field "stage" m) "sending"
    then on_sending p (message_field "account" m) (message_field "nonce" m) r
    else r

-- The messages that carry this request's id.
unfoldable pub on_answer : Platform → Value → Request → Request
on_answer p m r =
    if equals_text (message_field "type" m) "progress"
    then on_progress p m r
    else if equals_text (message_field "type" m) "result"
    then settle (resolved (message_field "result" m)) r
    else if equals_text (message_field "type" m) "error"
    then fail (message_field "code" m) (message_field "message" m) (message_field "revert" m) r
    else r

unfoldable pub on_message : Platform → Value → Request → Request
on_message p m r =
    if equals_text (message_field "type" m) "ready"
    then on_ready r
    else if equals_text (message_field "id" m) r.id
    then on_answer p m r
    else r

-- What can happen to a request. A message says whether it comes from VeraKey's origin and window.
pub data Happens : Type 0 where
  message : (from_verakey from_popup : Bool) → Value → Happens
  values_fetched : Fields → Happens
  values_threw : Value → Happens
  ready_timeout : Happens
  poll : (closed : Bool) → Happens

abbrev pub unavailable : Value
unavailable =
    text
      "The VeraKey window did not answer. If this page sends Cross-Origin-Opener-Policy: same-origin, send same-origin-allow-popups instead; also check the VeraKey URL."

abbrev pub closed_message : Option String → Option PendingPayment → Value
closed_message (some hash) sending =
    text "The VeraKey window closed after the payment was sent: verify it before asking again."
closed_message none (some sending) =
    text
      "The VeraKey window closed while the payment was being sent: find it with findPayment before asking again."
closed_message none none = text "The VeraKey window was closed."

unfoldable pub on_poll : Bool → Request → Request
on_poll false r = r
on_poll true r =
    if r.ready
    then fail (text "closed") (closed_message r.sent r.sending) undefined r
    else fail (text "unavailable") unavailable undefined r

unfoldable pub on_fetched : Fields → Request → Request
on_fetched params r =
    let known : Request = record r { values = fetched params } in
    if r.ready then when_fetched (fetched params) known else known

-- The site's callback failed: the request ends, and the popup is closed.
unfoldable pub on_threw : Value → Request → Request
on_threw reason r =
    if r.settled
    then record r { values = threw }
    else (let ended = fail (text "request") reason undefined r in
        record ended { values = threw; closes = Prim.Native.Nat.suc r.closes })

abbrev pub is_waiting : Values → Bool
is_waiting waiting = true
is_waiting _ = false

-- Settling removes the listener and stops both timers, so those events pass by. A
-- promise is fulfilled or rejected once, so the values are too.
unfoldable pub step : Platform → Happens → Request → Request
step p (message from_verakey from_popup m) r =
    if r.settled || not from_verakey || not from_popup || not (is_envelope m)
    then r
    else on_message p m r
step p (values_fetched params) r = if is_waiting r.values then on_fetched params r else r
step p (values_threw reason) r = if is_waiting r.values then on_threw reason r else r
step p ready_timeout r =
    if r.settled || r.ready then r else fail (text "unavailable") unavailable undefined r
step p (poll closed) r = if r.settled then r else on_poll closed r

unfoldable pub run : Platform → List Happens → Request → Request
run p [] r = r
run p (e ∷ es) r = run p es (step p e r)
