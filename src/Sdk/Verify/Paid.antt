-- ===== src/Sdk/Verify/Paid.antt =====
-- packages/sdk/src/signin.ts: what verifyPayment's verdict says.
use vera_key.Prelude.{
  ℕ, ◌≡◌, ◌⊎◌, inl, inr, refl, sym, ap, ◌∙◌, String, true, List, [], ◌∷◌, Option, none, some, arith,
  nat_beq, nat_beq_iff, ◌==◌, eq_iff, Bool-cases,
}
use vera_key.Prelude.Text.{lower}
use vera_key.Sdk.Verify.Payments.{
  PaidLog, TransactionReceipt, Transactions, fetch_receipt, paid_by, matches, find_match, is_some,
  is_not_empty, judge_match, judge_receipt, verify_payment,
}

unfoldable pub IsAmong : PaidLog → List PaidLog → Type 0
IsAmong log [] = ⊥
IsAmong log (other ∷ logs) = (log ≡ other) ⊎ IsAmong log logs

-- A log of a payment from the account to the recipient, of the amount.
pub record Pays (account to : String) (amount : ℕ) (log : PaidLog) : Type 0 where
  pub from_account : lower log.account ≡ lower account
  pub to_recipient : lower log.to ≡ lower to
  pub of_amount : log.amount ≡ amount

-- The transaction succeeded and made this payment.
pub record IsPaid (t : Transactions) (hash account to : String) (amount : ℕ) (timeout : Option ℕ)
    (log : PaidLog) : Type 0 where
  pub receipt : TransactionReceipt
  pub fetched : fetch_receipt t hash timeout ≡ some receipt
  pub succeeded : receipt.status ≡ "success"
  pub logged : IsAmong log receipt.paid
  pub pays : Pays account to amount log

find_match_sound :
    (account to : String) (amount : ℕ) (logs : List PaidLog) (log : PaidLog)
    → find_match to amount (paid_by account logs) ≡ some log
    → IsAmong log logs × Pays account to amount log
unfolding find_match paid_by IsAmong
find_match_sound account to amount [] log h = cc
find_match_sound account to amount (l ∷ logs) log h =
    elim (Bool-cases (lower l.account == lower account)) [
      | inl y ↦ elim (Bool-cases (matches to amount l)) [
        | inl m ↦
            let same : l ≡ log = ground (arith, y, m, h) in
            (
              inl (sym same),
              record {
                from_account =
                    ap (λ x. lower x.account) (sym same)
                    ∙ (eq_iff (lower l.account) (lower account)).0 y;
                to_recipient =
                    ap (λ x. lower x.to) (sym same)
                    ∙ ground (arith, m, eq_iff (lower l.to) (lower to));
                of_amount =
                    ap (λ x. x.amount) (sym same) ∙ ground (arith, m, nat_beq_iff l.amount amount);
              },
            )
        | inr f ↦
            let (i, p) = find_match_sound account to amount logs log (ground (arith, y, f, h)) in
            (inr i, p)
      ]
      | inr f ↦
          let (i, p) = find_match_sound account to amount logs log (ground (arith, f, h)) in
          (inr i, p)
    ]

find_match_complete :
    (account to : String) (amount : ℕ) (logs : List PaidLog) (log : PaidLog)
    → IsAmong log logs
    → Pays account to amount log
    → is_some (find_match to amount (paid_by account logs)) ≡ true
unfolding find_match paid_by IsAmong
find_match_complete account to amount [] log i p = absurd i
find_match_complete account to amount (l ∷ logs) log (inl same) p =
    let account_same : lower l.account == lower account ≡ true =
      (eq_iff (lower l.account) (lower account)).1
        (ap (λ x. lower x.account) (sym same) ∙ p.from_account) in
    let to_same : lower l.to == lower to ≡ true =
      (eq_iff (lower l.to) (lower to)).1 (ap (λ x. lower x.to) (sym same) ∙ p.to_recipient) in
    let amount_same : nat_beq l.amount amount ≡ true =
      (nat_beq_iff l.amount amount).1 (ap (λ x. x.amount) (sym same) ∙ p.of_amount) in
    ground (arith, account_same, to_same, amount_same)
find_match_complete account to amount (l ∷ logs) log (inr i) p =
    let rest = find_match_complete account to amount logs log i p in
    elim (Bool-cases (lower l.account == lower account)) [
      | inl y ↦ elim (Bool-cases (matches to amount l)) [
        | inl m ↦ ground (arith, y, m)
        | inr f ↦ ground (arith, y, f, rest)
      ]
      | inr f ↦ ground (arith, f, rest)
    ]

found_not_empty :
    (to : String) (amount : ℕ) (logs : List PaidLog)
    → is_some (find_match to amount logs) ≡ true
    → is_not_empty logs ≡ true
unfolding find_match
found_not_empty to amount [] h = h
found_not_empty to amount (log ∷ logs) h = refl

judge_match_iff :
    (status : String) (paid : List PaidLog) (match : Option PaidLog)
    → (judge_match status paid match).valid ≡ true
    → (log : PaidLog) × (match ≡ some log) × ((judge_match status paid match).fee ≡ some log.fee)
judge_match_iff status paid none h = ground arith
judge_match_iff status [] (some log) h = cc
judge_match_iff status (x ∷ paid) (some log) h = (log, refl, refl)

module _ (t : Transactions) (hash account to : String) (amount : ℕ) (timeout : Option ℕ) where
  receipt-IsPaid :
      (o : Option TransactionReceipt)
      → fetch_receipt t hash timeout ≡ o
      → (judge_receipt account to amount o).valid ≡ true
      → (log : PaidLog) × IsPaid t hash account to amount timeout log
        × ((judge_receipt account to amount o).fee ≡ some log.fee)
  receipt-IsPaid none e h = cc
  receipt-IsPaid (some r) e h = elim (Bool-cases (r.status == "success")) [
    | inr f ↦ ground (arith, f, h)
    | inl y ↦
        let paid = paid_by account r.paid in
        let (log, found, fee) =
          judge_match_iff r.status paid (find_match to amount paid) (ground (arith, h, y)) in
        let (among, pays) = find_match_sound account to amount r.paid log found in
        (
          log,
          record {
            receipt = r;
            fetched = e;
            succeeded = (eq_iff r.status "success").0 y;
            logged = among;
            pays = pays;
          },
          simp y fee,
        )
  ]

  -- A valid verdict of verifyPayment stands for a successful transaction with a log of a payment
  -- of this amount from this account to this recipient; the fee is that log's.
  pub verify_payment-IsPaid :
      (verify_payment t hash account to amount timeout).valid ≡ true
      → (log : PaidLog) × IsPaid t hash account to amount timeout log
        × ((verify_payment t hash account to amount timeout).fee ≡ some log.fee)
  unfolding verify_payment
  verify_payment-IsPaid h = receipt-IsPaid (fetch_receipt t hash timeout) refl h

  -- A payment that was made is never refused.
  pub IsPaid-verify_payment :
      (log : PaidLog)
      → IsPaid t hash account to amount timeout log
      → (verify_payment t hash account to amount timeout).valid ≡ true
  unfolding verify_payment
  IsPaid-verify_payment log p =
      let r = p.receipt in
      let found = find_match_complete account to amount r.paid log p.logged p.pays in
      let some_paid = found_not_empty to amount (paid_by account r.paid) found in
      let success = (eq_iff r.status "success").1 p.succeeded in
      let valid : (judge_receipt account to amount (some r)).valid ≡ true =
        simp success (ground (arith, found, some_paid)) in
      ap (λ o. (judge_receipt account to amount o).valid) p.fetched ∙ valid
