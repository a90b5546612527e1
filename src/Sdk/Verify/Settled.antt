-- ===== src/Sdk/Verify/Settled.antt =====
-- packages/sdk/src/server.ts with signin.ts: the payment route, when verifyPayment and findPayment answer it.
use vera_key.Prelude.{ℕ, ◌≤◌, ◌≡◌, sym, ap, ◌∙◌, String, Bool, Option, none, some, arith}
use vera_key.Prelude.Text.{big_int}
use vera_key.Sdk.Values.{Value}
use vera_key.Sdk.Session.{Player}
use vera_key.Sdk.Payment.{
  Outcome, ok, crashes, Chain, Payment, Receipt, natural, fee_or_zero, Verdict,
}
use vera_key.Sdk.Payment.Laws.{IsVerified, ask-IsAnswer}
use vera_key.Sdk.Payment.Handler.{Kit, Request, Site, payment}
use vera_key.Sdk.Payment.Route.{payment-IsAccepted}
use vera_key.Sdk.Verify.Payments.{PaidLog, Transactions, Rounds, verify_payment, find_payment}
use vera_key.Sdk.Verify.Paid.{IsPaid, verify_payment-IsPaid}

-- The node that a site asks: its answers to the n-th call of verifyPayment, and to findPayment's rounds.
pub record SiteNode : Type 0 where
  pub is_hex : String → Bool
  pub transactions : (n : ℕ) → Transactions
  pub rounds : Rounds
  pub start : ℕ

abbrev pub in_fuel : Option (Outcome (Option String)) → Outcome (Option String)
in_fuel none = crashes
in_fuel (some found) = found

-- `verifyPayment` and `findPayment`, as the payment route calls them.
abbrev pub chain_of : SiteNode → Chain
chain_of node = record {
  is_hex = node.is_hex;
  find_payment =
      λ account nonce. in_fuel (find_payment node.rounds node.start account nonce none none);
  verify_payment = λ n hash account to amount.
      ok (verify_payment (node.transactions n) hash account to amount none);
}

-- A payment that is on the chain, as the receipt says.
pub record IsSettled (node : SiteNode) (player : Player) (merchant : String) (receipt : Receipt)
    : Type 0 where
  pub n : ℕ
  pub at_most : n ≤ 5
  pub log : PaidLog
  pub paid :
      IsPaid (node.transactions n) receipt.hash player.account merchant receipt.amount none log
  pub fee : receipt.fee ≡ log.fee

ok-injective : (v w : Verdict) → Path (Outcome Verdict) (ok v) (ok w) → v ≡ w
ok-injective v w e = ground (arith, e)

verified-IsSettled :
    (node : SiteNode) (player : Player) (merchant : String) (body : Outcome Value) (p : Payment)
    (receipt : Receipt)
    → IsVerified (chain_of node) player merchant body p
    → receipt.hash ≡ p.hash
    → receipt.amount ≡ p.amount
    → receipt.fee ≡ p.fee
    → IsSettled node player merchant receipt
verified-IsSettled node player merchant body p receipt v same_hash same_amount same_fee =
    let amount = natural (big_int v.amount) in
    let verify : ℕ → Outcome Verdict =
      λ n. ok (verify_payment (node.transactions n) p.hash player.account merchant amount none) in
    let (n, bound, answer) = ask-IsAnswer verify in
    let verdict = verify_payment (node.transactions n) p.hash player.account merchant amount none in
    let same : verdict ≡ v.verdict = ok-injective verdict v.verdict (sym answer.given ∙ v.asked) in
    let (log, paid, fee) =
      verify_payment-IsPaid (node.transactions n) p.hash player.account merchant amount none
        (ap (λ x. x.valid) same ∙ v.valid) in
    let amount_same : receipt.amount ≡ amount = same_amount ∙ ap (λ x. x.amount) v.payment in
    let paid_hash : IsPaid (node.transactions n) receipt.hash player.account merchant amount none
        log =
      rw same_hash paid in
    record {
      n = n;
      at_most = bound;
      log = log;
      paid = rw amount_same paid_hash;
      fee =
          same_fee
          ∙ ap (λ x. x.fee) v.payment
          ∙ ap (λ x. fee_or_zero x.fee) (sym same)
          ∙ ap fee_or_zero fee;
    }

-- When verifyPayment and findPayment answer the payment route, every receipt that it gives stands
-- for a transaction which one of at most six calls found successful, with a log of a payment of
-- the receipt's amount from the signed-in player's account to the merchant; its fee is that log's.
pub payment-IsSettled :
    (node : SiteNode) (site : Site) (r : Request) (kit : Kit) (receipt : Receipt)
    → (payment (record site { chain = chain_of node }) r kit).0 ≡ ok receipt
    → (player : Player) × (r.session ≡ some player)
      × ((merchant : String) × (site.merchant ≡ some merchant)
          × IsSettled node player merchant receipt)
payment-IsSettled node site r kit receipt h =
    let a = payment-IsAccepted (record site { chain = chain_of node }) r kit receipt h in
    let settled =
      verified-IsSettled node a.player a.merchant r.body a.payment receipt a.verified
        (ap (λ x. x.hash) a.same) (ap (λ x. x.amount) a.same) (ap (λ x. x.fee) a.same) in
    (a.player, a.signed_in, (a.merchant, a.takes_payments, settled))
