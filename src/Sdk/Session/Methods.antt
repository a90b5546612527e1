-- ===== src/Sdk/Session/Methods.antt =====
-- packages/sdk/src/session.ts: load, signIn, signOut, pay and confirmPayment.
use vera_key.Prelude.{ℕ, String, true, false, Option, none, some, if◌then◌else◌}
use vera_key.Prelude.Text.{ℤ, big_int}
use vera_key.Sdk.Values.{Value, text}
use vera_key.Sdk.Connect.{Platform, Url}
use vera_key.Sdk.Connect.Popup.{ConnectError}
use vera_key.Sdk.Session.{
  Status, signed_out, signing_in, signed_in, status_name, Player, by_hash, by_nonce, SentPayment,
  SessionError, session_error, Thrown, of_session, of_connect, of_other, as_session_error, quiet,
  Session, Outcome, ok, failed, Response, call,
}

pub record SessionInfo : Type 0 where
  pub verakey_url : String
  pub merchant : Option String
  pub player : Option Player

abbrev pub fails_to_load : Thrown → Session → Session
fails_to_load e s = record s {
  status = signed_out;
  player = none;
  error = some (as_session_error e);
}

abbrev pub status_of : Option Player → Status
status_of none = signed_out
status_of (some p) = signed_in

-- `new VeraKeyConnect` throws where the URL is none.
abbrev pub loaded : SessionInfo → Option Url → Session → Session
loaded info none s = fails_to_load (of_other (text "Invalid URL")) s
loaded info (some url) s = record s {
  connect = true;
  merchant = info.merchant;
  status = status_of info.player;
  player = info.player;
  error = none;
}

abbrev pub load_with : Platform → Outcome SessionInfo × Session → Session
load_with p (failed e, s) = fails_to_load e s
load_with p (ok info, s) = loaded info (p.parse_url info.verakey_url) s

-- `load`, once the server answered.
unfoldable pub load : Platform → (ℕ → Value) → Option (Response SessionInfo) → Session → Session
load p answered reply s = load_with p (call answered "session" reply s)

pub data SignInStart : Type 0 where
  refuses : SessionError → SignInStart
  -- refuses, and loads again
  reloads : SessionError → SignInStart
  opens : SignInStart

abbrev pub no_answer : SessionError
no_answer = session_error "network" (text "This site's server did not answer.")

abbrev pub cannot_sign_in : Status → SessionError
cannot_sign_in status = session_error "busy" (
    text (
      Prim.Native.String.◌++◌ "Cannot sign in while "
        (Prim.Native.String.◌++◌ (status_name status) ".")))

-- `signIn`, up to the popup.
unfoldable pub sign_in : Session → SignInStart × Session
sign_in s = elim s.status [
  | signed_out ↦
      if s.connect
      then (opens, record s { status = signing_in; error = none })
      else (reloads no_answer, record s { error = some no_answer })
  | status ↦ (refuses (cannot_sign_in status), s)
]

-- The popup's nonce callback, once the server answered.
unfoldable pub fetch_nonce :
    (ℕ → Value) → Option (Response String) → Session → Outcome String × Session
fetch_nonce answered reply s = call answered "nonce" reply s

abbrev pub fails_to_sign_in : Thrown → Session → Outcome (Option Player) × Session
fails_to_sign_in e s =
    if quiet e then (ok none, record s { status = signed_out; error = none }) else (
      failed (of_session (as_session_error e)),
      record s { status = signed_out; player = none; error = some (as_session_error e) },
    )

abbrev pub sign_in_with : Outcome Player × Session → Outcome (Option Player) × Session
sign_in_with (failed e, s) = fails_to_sign_in e s
sign_in_with (ok player, s) =
    (ok (some player), record s { status = signed_in; player = some player; error = none })

-- `finishSignIn` where the popup failed, and where it gave a result that the server answered.
unfoldable pub finish_failed : Thrown → Session → Outcome (Option Player) × Session
finish_failed e s = fails_to_sign_in e s

unfoldable pub finish_sign_in :
    (ℕ → Value) → Option (Response Player) → Session → Outcome (Option Player) × Session
finish_sign_in answered reply s = sign_in_with (call answered "sign-in" reply s)

abbrev pub sign_out_with : {A : Type 0} → Outcome A × Session → Outcome A × Session
sign_out_with (failed e, s) = (failed e, s)
sign_out_with (ok a, s) = (ok a, record s { status = signed_out; player = none; error = none })

-- `signOut`, once the server answered.
unfoldable pub sign_out :
    (ℕ → Value) → Option (Response (Unit {0})) → Session → Outcome (Unit {0}) × Session
sign_out answered reply s = sign_out_with (call answered "sign-out" reply s)

-- What the popup is asked to pay.
pub record Order : Type 0 where
  pub to : String
  pub amount : ℕ
  pub account : String

abbrev pub needs_sign_in : SessionError
needs_sign_in = session_error "signed-out" (text "Sign in first.")

abbrev pub pay_as : ℕ → Option Player → Session → Outcome Order × Session
pay_as amount none s = (failed (of_session needs_sign_in), s)
pay_as amount (some player) s =
    if s.paying
    then (failed (of_session (session_error "busy" (text "A payment is already under way."))), s)
    else elim s.merchant [
      | none ↦
          (failed (of_session (session_error "server" (text "This site takes no payments."))), s)
      | some to ↦
          if s.connect
          then (
            ok (record { to = to; amount = amount; account = player.account }),
            record s { paying = true },
          )
          else (
            failed (of_session (session_error "server" (text "This site takes no payments."))),
            s,
          )
    ]

-- `pay`, up to the popup.
unfoldable pub pay : ℕ → Session → Outcome Order × Session
pay amount s = elim s.status [
  | signed_in ↦ pay_as amount s.player s
  | _ ↦ (failed (of_session needs_sign_in), s)
]

pub record ReceiptBody : Type 0 where
  pub hash : String
  pub amount : String
  pub fee : String
  pub result : Value

pub record Receipt : Type 0 where
  pub hash : String
  pub amount : ℤ
  pub fee : ℤ
  pub result : Value

abbrev pub not_a_number : Thrown
not_a_number = of_other (text "Cannot convert to a BigInt")

abbrev pub receipt_of : ReceiptBody → Option ℤ → Option ℤ → Outcome Receipt
receipt_of b (some amount) (some fee) =
    ok (record { hash = b.hash; amount = amount; fee = fee; result = b.result })
receipt_of b _ _ = failed not_a_number

abbrev pub read_receipt : Outcome ReceiptBody × Session → Outcome Receipt × Session
read_receipt (failed e, s) = (failed e, s)
read_receipt (ok b, s) = (receipt_of b (big_int b.amount) (big_int b.fee), s)

-- `confirmPayment`, once the server answered.
unfoldable pub confirm_payment :
    (ℕ → Value) → Option (Response ReceiptBody) → Session → Outcome Receipt × Session
confirm_payment answered reply s = read_receipt (call answered "payment" reply s)

-- What `finishPayment` asks the server to verify: `ok none` where the player cancelled before anything
-- was sent. A hash is not empty.
abbrev pub sent_by : ℕ → ConnectError → Thrown → Outcome (Option SentPayment)
sent_by amount e thrown = elim e.hash [
  | some hash ↦ ok (some (record { amount = amount; proof = by_hash hash }))
  | none ↦ elim e.pending [
    | some p ↦ ok (some (record { amount = amount; proof = by_nonce p.nonce }))
    | none ↦ if quiet thrown then ok none else failed (of_session (as_session_error thrown))
  ]
]

unfoldable pub sent_payment : ℕ → Outcome String → Outcome (Option SentPayment)
sent_payment amount (ok hash) = ok (some (record { amount = amount; proof = by_hash hash }))
sent_payment amount (failed (of_connect e cause)) = sent_by amount e (of_connect e cause)
sent_payment amount (failed e) = failed (of_session (as_session_error e))

abbrev pub keep_payment : SentPayment → Outcome Receipt × Session → Outcome Receipt × Session
keep_payment sent (ok receipt, s) = (ok receipt, s)
keep_payment sent (failed e, s) =
    (failed (of_session (record (as_session_error e) { payment = some sent })), s)

-- The second half of `finishPayment`: the server answered about the payment that was sent.
unfoldable pub finish_payment :
    (ℕ → Value) → SentPayment → Option (Response ReceiptBody) → Session → Outcome Receipt × Session
finish_payment answered sent reply s = keep_payment sent (confirm_payment answered reply s)

abbrev pub receipt_or_error : Outcome Receipt × Session → Outcome (Option Receipt) × Session
receipt_or_error (ok receipt, s) = (ok (some receipt), s)
receipt_or_error (failed e, s) = (failed e, s)

-- The server is asked about what was sent.
abbrev pub verified :
    (ℕ → Value)
    → Outcome (Option SentPayment)
    → Option (Response ReceiptBody)
    → Session
    → Outcome (Option Receipt) × Session
verified answered (ok none) reply s = (ok none, s)
verified answered (ok (some sent)) reply s = receipt_or_error (finish_payment answered sent reply s)
verified answered (failed e) reply s = (failed e, s)

-- `finishPayment`: the popup ended, and where it sent something, the server answered about it.
unfoldable pub end_order :
    (ℕ → Value)
    → (amount : ℕ) → Outcome String
    → Option (Response ReceiptBody)
    → Session
    → Outcome (Option Receipt) × Session
end_order answered amount popup reply s = verified answered (sent_payment amount popup) reply s

-- `pay`'s `finally`.
unfoldable pub end_payment : Session → Session
end_payment s = record s { paying = false }
