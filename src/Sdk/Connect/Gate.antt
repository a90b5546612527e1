-- ===== src/Sdk/Connect/Gate.antt =====
-- acceptRequest of packages/sdk/src/connect.ts: the requests that the popup takes.
use vera_key.Prelude.{◌≡◌, ◌↔◌, String, true, false, some, arith}
use vera_key.Sdk.Values.{equals_text}
use vera_key.Sdk.Connect.{
  Platform, ConnectRequest, is_envelope, is_allowed_requester_origin, parse_request, Event,
  GateState, accept, same_window, message_field, accept_request,
}

-- The event comes from the window that opened the popup, on an allowed origin, no request came before,
-- and the message is a well-formed request.
pub record IsAcceptable (p : Platform) (e : Event) (s : GateState) (r : ConnectRequest)
    : Type 0 where
  pub from_opener : same_window e.source s.opener ≡ true
  pub enveloped : is_envelope e.message ≡ true
  pub requests : equals_text (message_field "type" e.message) "request" ≡ true
  pub allowed : is_allowed_requester_origin p e.origin ≡ true
  pub first : s.handled ≡ false
  pub parsed : parse_request p e.message ≡ some r

accept_request_sound :
    (p : Platform) (e : Event) (s : GateState) (o : String) (r : ConnectRequest)
    → accept_request p e s ≡ accept o r
    → (o ≡ e.origin) × IsAcceptable p e s r
unfolding accept_request
accept_request_sound p e s o r h = ground arith

accept_request_complete :
    (p : Platform) (e : Event) (s : GateState) (r : ConnectRequest)
    → IsAcceptable p e s r
    → accept_request p e s ≡ accept e.origin r
unfolding accept_request
accept_request_complete p e s r a = ground arith

-- The popup takes a request exactly when it comes from the window that opened it, on an allowed
-- origin, as the first one, and is well-formed; the origin that it answers is the event's.
pub accept_request_iff :
    (p : Platform) (e : Event) (s : GateState) (o : String) (r : ConnectRequest)
    → (accept_request p e s ≡ accept o r) ↔ ((o ≡ e.origin) × IsAcceptable p e s r)
accept_request_iff p e s o r = (
  accept_request_sound p e s o r,
  λ (same, a). ground (arith, accept_request_complete p e s r a, same),
)
