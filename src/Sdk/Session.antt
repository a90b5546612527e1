-- ===== src/Sdk/Session.antt =====
-- packages/sdk/src/session.ts: the player's state in a site's page. A method is cut at its awaits: what
-- runs up to the next one is a function of the state. An error's `cause` is left out, but for the one
-- that asSessionError looks at.
pub mod Methods
pub mod Laws
pub mod Machine
pub mod Payments
pub mod SignIn
mod Tests
use vera_key.Prelude.{
  ℕ, String, Bool, true, false, not, ◌&&◌, ◌||◌, List, Option, none, some, leb, nat_beq, ◌==◌,
  if◌then◌else◌,
}
use vera_key.Prelude.Text.{ℤ, big_int}
use vera_key.Sdk.Values.{Value, text, equals_text}
use vera_key.Sdk.Connect.{Platform}
use vera_key.Sdk.Connect.Popup.{PendingPayment, ConnectError}

pub data Status : Type 0 where
  loading signed_out signing_in signed_in : Status

abbrev pub status_name : Status → String
status_name loading = "loading"
status_name signed_out = "signed-out"
status_name signing_in = "signing-in"
status_name signed_in = "signed-in"

pub record Player : Type 0 where
  pub id : String
  pub account : String

pub record Check : Type 0 where
  pub name : String
  pub passed : Bool
  pub detail : Option String

-- How a payment is known to the site: by its transaction, or by the account's nonce that it uses.
pub data Proof : Type 0 where
  by_hash : String → Proof
  by_nonce : ℕ → Proof

pub record SentPayment : Type 0 where
  pub amount : ℕ
  pub proof : Proof

pub record SessionError : Type 0 where
  pub code : Value
  pub message : Value
  pub status : Option ℕ
  pub checks : Option (List Check)
  pub payment : Option SentPayment

abbrev pub session_error : String → Value → SessionError
session_error code message = record {
  code = text code;
  message = message;
  status = none;
  checks = none;
  payment = none;
}

-- What a `catch` finds. `cause` is the page's own error, where the nonce callback failed with one.
pub data Thrown : Type 0 where
  of_session : SessionError → Thrown
  of_connect : (e : ConnectError) → (cause : Option SessionError) → Thrown
  of_other : (message : Value) → Thrown

unfoldable pub as_session_error : Thrown → SessionError
as_session_error (of_session e) = e
as_session_error (of_connect e none) = record {
  code = e.code;
  message = e.message;
  status = none;
  checks = none;
  payment = none;
}
as_session_error (of_connect e (some cause)) =
    if equals_text e.code "request"
    then cause
    else record { code = e.code; message = e.message; status = none; checks = none; payment = none }
as_session_error (of_other m) = session_error "server" m

unfoldable pub quiet : Thrown → Bool
quiet (of_connect e cause) = equals_text e.code "cancelled" || equals_text e.code "closed"
quiet _ = false

-- `connect` and `merchant` are known once the server answered.
pub record Session : Type 0 where
  pub status : Status
  pub player : Option Player
  pub paying : Bool
  pub error : Option SessionError
  pub connect : Bool
  pub merchant : Option String

pub data Outcome (A : Type 0) : Type 0 where
  ok : A → Outcome A
  failed : Thrown → Outcome A

-- The server's answer; `body` is its JSON as the route's type reads it.
pub record Response (A : Type 0) : Type 0 where
  pub status : ℕ
  pub error : Option String
  pub checks : Option (List Check)
  pub body : A

abbrev pub or_text : Option String → Value → Value
or_text (some s) default = text s
or_text none default = default

abbrev pub is_ok : ℕ → Bool
is_ok status = leb 200 status && leb status 299

abbrev pub unauthorized : {A : Type 0} → Response A → SessionError
unauthorized r = record {
  code = text "signed-out";
  message = or_text r.error (text "Sign in first.");
  status = some 401;
  checks = none;
  payment = none;
}

-- The default message says which status it was.
abbrev pub refused : {A : Type 0} → (ℕ → Value) → Response A → SessionError
refused answered r = record {
  code = text "server";
  message = or_text r.error (answered r.status);
  status = some r.status;
  checks = r.checks;
  payment = none;
}

-- `call`, once the server answered, or none did (`none`). `answered` is the message that names a status.
unfoldable pub call :
    {A : Type 0}
    → (ℕ → Value)
    → (route : String) → Option (Response A)
    → Session
    → Outcome A × Session
call answered route none s =
    (failed (of_session (session_error "network" (text "This site's server did not answer."))), s)
call answered route (some r) s =
    if nat_beq r.status 401 && not (route == "sign-in")
    then (failed (of_session (unauthorized r)), record s { status = signed_out; player = none })
    else if is_ok r.status
    then (ok r.body, s)
    else (failed (of_session (refused answered r)), s)
