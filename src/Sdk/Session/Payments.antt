-- ===== src/Sdk/Session/Payments.antt =====
-- packages/sdk/src/session.ts with packages/sdk/src/connect.ts: what the page learns of a payment.
use vera_key.Prelude.{ℕ, ◌≡◌, refl, ap, String, List, Option, none, some, arith}
use vera_key.Sdk.Values.{Value}
use vera_key.Sdk.Connect.{Platform}
use vera_key.Sdk.Connect.Popup.{
  PendingPayment, ConnectError, rejected, Happens, start, run, pending_of,
}
use vera_key.Sdk.Connect.Popup.Payments.{TellsPayment, TellsOf, run-start-Tells}
use vera_key.Sdk.Session.{
  Proof, by_hash, by_nonce, SentPayment, SessionError, of_session, of_connect, Session, Outcome, ok,
  failed, Response,
}
use vera_key.Sdk.Session.Methods.{
  ReceiptBody, Receipt, sent_payment, finish_payment, keep_payment, receipt_or_error, verified,
  end_order,
}

abbrev pub nonce_of : Option PendingPayment → Option Proof
nonce_of none = none
nonce_of (some p) = some (by_nonce p.nonce)

-- How the page knows a payment of the popup's request: by the hash that the popup reported, or without
-- one, where the window closed or the relay failed, by the nonce of the payment that it was sending.
abbrev pub proof_of : Option String → Option PendingPayment → (code : Value) → Option Proof
proof_of (some hash) sending code = some (by_hash hash)
proof_of none sending code = nonce_of (pending_of none code sending)

-- The call ended with a receipt, or with an error that names the payment.
abbrev pub Names : SentPayment → Outcome (Option Receipt) → Type 0
Names sent (ok none) = ⊥
Names sent (ok (some receipt)) = Unit
Names sent (failed (of_session e)) = e.payment ≡ some sent
Names sent (failed _) = ⊥

keep_payment-Names :
    (sent : SentPayment) (r : Outcome Receipt × Session)
    → Names sent (receipt_or_error (keep_payment sent r)).0
keep_payment-Names sent (ok receipt, s) = tt
keep_payment-Names sent (failed e, s) = refl

finish_payment-Names :
    (answered : ℕ → Value) (sent : SentPayment) (reply : Option (Response ReceiptBody))
    (s : Session)
    → Names sent (receipt_or_error (finish_payment answered sent reply s)).0
unfolding finish_payment
finish_payment-Names answered sent reply s = keep_payment-Names sent _

sent_payment-proof_of :
    (amount : ℕ) (e : ConnectError) (cause : Option SessionError) (proof : Proof)
    (sent : Option String) (sending : Option PendingPayment)
    → TellsPayment sent sending e
    → proof_of sent sending e.code ≡ some proof
    → sent_payment amount (failed (of_connect e cause))
      ≡ ok (some (record { amount = amount; proof = proof }))
unfolding sent_payment
sent_payment-proof_of amount e cause proof (some hash) sending t h =
    ground (arith, t.hash, t.pending, h)
sent_payment-proof_of amount e cause proof none sending t h = ground (arith, t.hash, t.pending, h)

end_order_sent :
    (answered : ℕ → Value) (amount : ℕ) (popup : Outcome String) (sent : SentPayment)
    (reply : Option (Response ReceiptBody)) (s : Session)
    → sent_payment amount popup ≡ ok (some sent)
    → end_order answered amount popup reply s
      ≡ receipt_or_error (finish_payment answered sent reply s)
unfolding end_order
end_order_sent answered amount popup sent reply s h = ap (λ o. verified answered o reply s) h

-- Whatever happened to the popup's request, if it failed after the popup reported a hash, or,
-- without one, was cut off by a closed window or a failing relay while a payment was being sent,
-- then `pay` ends with a receipt or with an error that names that payment, whatever the server
-- answers.
pub end_order-Names :
    (p : Platform) (id : String) (es : List Happens) (e : ConnectError)
    (cause : Option SessionError) (proof : Proof) (answered : ℕ → Value) (amount : ℕ)
    (reply : Option (Response ReceiptBody)) (s : Session)
    → (run p es (start id "pay")).result ≡ some (rejected e)
    → proof_of (run p es (start id "pay")).sent (run p es (start id "pay")).sending e.code
      ≡ some proof
    → Names
        (record { amount = amount; proof = proof })
        (end_order answered amount (failed (of_connect e cause)) reply s).0
end_order-Names p id es e cause proof answered amount reply s rejecting known =
    let r = run p es (start id "pay") in
    let told : TellsOf r.sent r.sending r.result = run-start-Tells p id "pay" es in
    let tells : TellsPayment r.sent r.sending e = rw (rejecting) at told in
    let sending = sent_payment-proof_of amount e cause proof r.sent r.sending tells known in
    let ending = end_order_sent answered amount (failed (of_connect e cause)) _ reply s sending in
    let named = finish_payment-Names answered (record { amount = amount; proof = proof }) reply s in
    rw ending named
