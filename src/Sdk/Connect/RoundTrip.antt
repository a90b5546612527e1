-- ===== src/Sdk/Connect/RoundTrip.antt =====
-- parseRequest of packages/sdk/src/connect.ts against the messages that VeraKeyConnect posts.
use vera_key.Prelude.{
  ◌≡◌, String, Bool, true, not, ◌&&◌, ◌||◌, Option, none, some, arith, nat_beq, ltb,
}
use vera_key.Prelude.Text.{big_int}
use vera_key.Sdk.Values.{
  Value, text, number, undefined, null, other, boolean, array, object, Fields, end, field, property,
  length16, is_amount,
}
use vera_key.Sdk.Connect.{
  Platform, ConnectRequest, sign_in, pay, is_envelope, too_much, is_bytes32, parse_sign_in,
  parse_account, parse_pay, parse_method, parse_fields, parse_request,
}
use vera_key.Sdk.Connect.Popup.{request_message}

abbrev pub account_fields : Option String → Fields
account_fields none = end
account_fields (some account) = field "account" (text account) end

-- What `signIn` and `pay` have `request` post.
unfoldable pub message_of : ConnectRequest → Value
message_of (sign_in id nonce) = request_message id "signIn" (field "nonce" (text nonce) end)
message_of (pay id to amount account) =
    request_message id "pay"
      (field "to" (text to) (field "amount" (text amount) (account_fields account)))

abbrev pub is_account : Platform → Option String → Bool
is_account p none = true
is_account p (some account) = p.is_address account

abbrev pub is_id : String → Bool
is_id id = not (nat_beq (length16 id) 0 || ltb 64 (length16 id))

-- A request as the popup may serve it.
unfoldable pub is_well_formed : Platform → ConnectRequest → Bool
is_well_formed p (sign_in id nonce) = is_id id && is_bytes32 p nonce
is_well_formed p (pay id to amount account) =
    is_id id
    && p.is_address to
    && is_amount amount
    && is_account p account
    && not (too_much (big_int amount))

parse_sign_in_sound :
    (p : Platform) (id : String) (v : Value) (r : ConnectRequest)
    → is_id id ≡ true
    → parse_sign_in p id v ≡ some r
    → is_well_formed p r ≡ true
unfolding parse_sign_in is_well_formed
parse_sign_in_sound p id (text nonce) r i h = ground arith
parse_sign_in_sound p id (number n) r i h = ground arith
parse_sign_in_sound p id undefined r i h = ground arith
parse_sign_in_sound p id null r i h = ground arith
parse_sign_in_sound p id other r i h = ground arith
parse_sign_in_sound p id (boolean bool) r i h = ground arith
parse_sign_in_sound p id (array items) r i h = ground arith
parse_sign_in_sound p id (object fs) r i h = ground arith

parse_account_sound :
    (p : Platform) (id to amount : String) (v : Value) (r : ConnectRequest)
    → is_id id ≡ true
    → p.is_address to ≡ true
    → is_amount amount ≡ true
    → parse_account p id to amount v ≡ some r
    → is_well_formed p r ≡ true
unfolding parse_account is_well_formed
parse_account_sound p id to amount (text account) r i t a h = ground arith
parse_account_sound p id to amount (number n) r i t a h = ground arith
parse_account_sound p id to amount undefined r i t a h = ground arith
parse_account_sound p id to amount null r i t a h = ground arith
parse_account_sound p id to amount other r i t a h = ground arith
parse_account_sound p id to amount (boolean bool) r i t a h = ground arith
parse_account_sound p id to amount (array items) r i t a h = ground arith
parse_account_sound p id to amount (object fs) r i t a h = ground arith

parse_pay_sound :
    (p : Platform) (id : String) (to amount account : Value) (r : ConnectRequest)
    → is_id id ≡ true
    → parse_pay p id to amount account ≡ some r
    → is_well_formed p r ≡ true
unfolding parse_pay
parse_pay_sound p id (text to) (text amount) account r i h =
    ground (arith, parse_account_sound p id to amount account r i)
parse_pay_sound p id (text to) (number n) account r i h = ground arith
parse_pay_sound p id (text to) undefined account r i h = ground arith
parse_pay_sound p id (text to) null account r i h = ground arith
parse_pay_sound p id (text to) other account r i h = ground arith
parse_pay_sound p id (text to) (boolean bool) account r i h = ground arith
parse_pay_sound p id (text to) (array items) account r i h = ground arith
parse_pay_sound p id (text to) (object fs) account r i h = ground arith
parse_pay_sound p id (number n) amount account r i h = ground arith
parse_pay_sound p id undefined amount account r i h = ground arith
parse_pay_sound p id null amount account r i h = ground arith
parse_pay_sound p id other amount account r i h = ground arith
parse_pay_sound p id (boolean bool) amount account r i h = ground arith
parse_pay_sound p id (array items) amount account r i h = ground arith
parse_pay_sound p id (object fs) amount account r i h = ground arith

parse_method_sound :
    (p : Platform) (id : String) (method : Value) (params : Fields) (r : ConnectRequest)
    → is_id id ≡ true
    → parse_method p id method params ≡ some r
    → is_well_formed p r ≡ true
unfolding parse_method
parse_method_sound p id (text method) params r i h = ground (
  arith,
  parse_sign_in_sound p id (property "nonce" params) r i,
  parse_pay_sound p id (property "to" params) (property "amount" params) (property "account" params)
      r i,
)
parse_method_sound p id (number n) params r i h = ground arith
parse_method_sound p id undefined params r i h = ground arith
parse_method_sound p id null params r i h = ground arith
parse_method_sound p id other params r i h = ground arith
parse_method_sound p id (boolean bool) params r i h = ground arith
parse_method_sound p id (array items) params r i h = ground arith
parse_method_sound p id (object fs) params r i h = ground arith

parse_fields_sound :
    (p : Platform) (id method params : Value) (r : ConnectRequest)
    → parse_fields p id method params ≡ some r
    → is_well_formed p r ≡ true
unfolding parse_fields
parse_fields_sound p (text id) method (object params) r h =
    ground (arith, parse_method_sound p id method params r)
parse_fields_sound p (text id) method (text s) r h = ground arith
parse_fields_sound p (text id) method (number n) r h = ground arith
parse_fields_sound p (text id) method undefined r h = ground arith
parse_fields_sound p (text id) method null r h = ground arith
parse_fields_sound p (text id) method other r h = ground arith
parse_fields_sound p (text id) method (boolean bool) r h = ground arith
parse_fields_sound p (text id) method (array items) r h = ground arith
parse_fields_sound p (number n) method params r h = ground arith
parse_fields_sound p undefined method params r h = ground arith
parse_fields_sound p null method params r h = ground arith
parse_fields_sound p other method params r h = ground arith
parse_fields_sound p (boolean bool) method params r h = ground arith
parse_fields_sound p (array items) method params r h = ground arith
parse_fields_sound p (object fs) method params r h = ground arith

-- A request that `parseRequest` returns is well-formed: an id of 1 to 64 code units, and a nonce
-- of 32 bytes, or an address, an amount from 1 to below 2^128 written in digits, and no account or
-- an address.
pub parse_request_sound :
    (p : Platform) (v : Value) (r : ConnectRequest)
    → parse_request p v ≡ some r
    → is_well_formed p r ≡ true
unfolding parse_request
parse_request_sound p (object fs) r h = parse_fields_sound p _ _ _ r h
parse_request_sound p (text s) r h = ground arith
parse_request_sound p (number n) r h = ground arith
parse_request_sound p undefined r h = ground arith
parse_request_sound p null r h = ground arith
parse_request_sound p other r h = ground arith
parse_request_sound p (boolean bool) r h = ground arith
parse_request_sound p (array items) r h = ground arith

-- A well-formed request, posted as `signIn` and `pay` post it, is an envelope that `parseRequest`
-- reads back as the same request.
pub parse_request-message_of :
    (p : Platform) (r : ConnectRequest)
    → is_well_formed p r ≡ true
    → (parse_request p (message_of r) ≡ some r) × (is_envelope (message_of r) ≡ true)
unfolding parse_request parse_fields parse_method parse_sign_in parse_pay parse_account
    is_well_formed message_of is_envelope property
parse_request-message_of p (sign_in id nonce) w = ground arith
parse_request-message_of p (pay id to amount none) w = ground arith
parse_request-message_of p (pay id to amount (some account)) w = ground arith
