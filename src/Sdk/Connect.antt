-- ===== src/Sdk/Connect.antt =====
-- packages/sdk/src/connect.ts: the popup's gate. viem's tests of texts and the platform's URL parser
-- are parameters.
pub mod Gate
pub mod Popup
pub mod RoundTrip
mod Tests
use vera_key.Prelude.{
  ℕ, ◌^◌, String, Bool, true, false, not, ◌&&◌, ◌||◌, Option, none, some, ltb, leb, nat_beq, ◌==◌,
  if◌then◌else◌,
}
use vera_key.Prelude.Text.{ℤ, pos, negsuc, big_int}
use vera_key.Sdk.Values.{
  Value, text, number, undefined, null, other, object, Fields, property, is_text, equals_text,
  length16, is_amount,
}

pub record Url : Type 0 where
  pub origin : String
  pub protocol : String
  pub hostname : String

pub record Platform : Type 0 where
  pub is_address : String → Bool
  pub is_hex : String → Bool
  -- `new URL(text)`; `none` is the exception.
  pub parse_url : String → Option Url

abbrev pub connect_protocol : String
connect_protocol = "verakey-connect"

pub data ConnectRequest : Type 0 where
  sign_in : (id nonce : String) → ConnectRequest
  pay : (id to amount : String) (account : Option String) → ConnectRequest

abbrev pub is_one : Value → Bool
is_one (number n) = nat_beq n 1
is_one _ = false

unfoldable pub is_envelope : Value → Bool
is_envelope (object fs) =
    equals_text (property "protocol" fs) connect_protocol
    && is_one (property "version" fs)
    && is_text (property "type" fs)
is_envelope _ = false

abbrev pub is_allowed_url : String → Option Url → Bool
is_allowed_url origin none = false
is_allowed_url origin (some url) =
    url.origin == origin
    && (url.protocol == "https:"
        || (url.protocol == "http:"
            && (url.hostname == "localhost" || url.hostname == "127.0.0.1")))

unfoldable pub is_allowed_requester_origin : Platform → String → Bool
is_allowed_requester_origin p origin = is_allowed_url origin (p.parse_url origin)

abbrev pub max_amount : ℕ
max_amount = 2 ^ 128

-- `BigInt(amount) >= MAX_AMOUNT`, for a text of digits.
abbrev pub too_much : Option ℤ → Bool
too_much (some (pos n)) = leb max_amount n
too_much _ = false

unfoldable pub is_bytes32 : Platform → String → Bool
is_bytes32 p s = p.is_hex s && nat_beq (length16 s) 66

unfoldable pub parse_sign_in : Platform → String → Value → Option ConnectRequest
parse_sign_in p id (text nonce) = if is_bytes32 p nonce then some (sign_in id nonce) else none
parse_sign_in p id _ = none

-- The account is left out, or is an address.
unfoldable pub parse_account : Platform → (id to amount : String) → Value → Option ConnectRequest
parse_account p id to amount undefined =
    if too_much (big_int amount) then none else some (pay id to amount none)
parse_account p id to amount (text account) =
    if p.is_address account && not (too_much (big_int amount))
    then some (pay id to amount (some account))
    else none
parse_account p id to amount _ = none

unfoldable pub parse_pay : Platform → String → (to amount account : Value) → Option ConnectRequest
unfolding parse_account
parse_pay p id (text to) (text amount) account =
    if p.is_address to && is_amount amount then parse_account p id to amount account else none
parse_pay p id _ _ account = none

unfoldable pub parse_method : Platform → String → Value → Fields → Option ConnectRequest
unfolding parse_sign_in parse_pay
parse_method p id (text method) params =
    if method == "signIn"
    then parse_sign_in p id (property "nonce" params)
    else if method == "pay"
    then parse_pay p id (property "to" params) (property "amount" params)
        (property "account" params)
    else none
parse_method p id _ params = none

unfoldable pub parse_fields : Platform → (id method params : Value) → Option ConnectRequest
unfolding parse_method
parse_fields p (text id) method (object params) =
    if nat_beq (length16 id) 0 || ltb 64 (length16 id)
    then none
    else parse_method p id method params
parse_fields p _ method _ = none

unfoldable pub parse_request : Platform → Value → Option ConnectRequest
unfolding parse_fields
parse_request p (object fs) =
    parse_fields p (property "id" fs) (property "method" fs) (property "params" fs)
parse_request p _ = none

-- Windows are numbered; `none` is null.
pub record Event : Type 0 where
  pub source : Option ℕ
  pub origin : String
  pub message : Value

pub record GateState : Type 0 where
  pub opener : Option ℕ
  pub handled : Bool

pub data RejectCode : Type 0 where
  origin busy request : RejectCode

pub data RequestVerdict : Type 0 where
  ignore : RequestVerdict
  reject : (to id : String) → RejectCode → RequestVerdict
  accept : (from : String) → ConnectRequest → RequestVerdict

abbrev pub same_window : Option ℕ → Option ℕ → Bool
same_window (some a) (some b) = nat_beq a b
same_window _ _ = false

abbrev pub message_field : String → Value → Value
message_field name (object fs) = property name fs
message_field name _ = undefined

abbrev pub id_of : Value → String
id_of (text s) = s
id_of _ = ""

abbrev pub verdict_of : String → String → Option ConnectRequest → RequestVerdict
verdict_of from id none = reject from id request
verdict_of from id (some r) = accept from r

-- An answer's message text is left out; it says what the code says.
unfoldable pub accept_request : Platform → Event → GateState → RequestVerdict
accept_request p e s =
    if not (same_window e.source s.opener)
      || not (is_envelope e.message)
      || not (equals_text (message_field "type" e.message) "request")
    then ignore
    else if not (is_allowed_requester_origin p e.origin)
    then reject e.origin (id_of (message_field "id" e.message)) origin
    else if s.handled
    then reject e.origin (id_of (message_field "id" e.message)) busy
    else verdict_of e.origin (id_of (message_field "id" e.message)) (parse_request p e.message)
