-- ===== src/Sdk/Payment/Laws.antt =====
-- packages/sdk/src/server.ts, the payment route: what an accepted payment went through.
use vera_key.Prelude.{
  ℕ, zero, suc, ◌+◌, ◌≤◌, ◌<◌, ◌≡◌, inl, inr, refl, sym, ap, ◌∙◌, String, true, Option, none, some,
  arith, Bool-cases, nat_beq,
}
use vera_key.Prelude.Text.{big_int}
use vera_key.Sdk.Values.{
  Value, text, number, undefined, null, other, boolean, array, object, is_amount,
}
use vera_key.Sdk.Connect.{message_field}
use vera_key.Sdk.Session.{Player}
use vera_key.Sdk.Payment.{
  Outcome, ok, refuses, crashes, Verdict, Chain, natural, amount_of, find, found_or_refuse,
  not_found, receipt_retries, ask_again, ask, Payment, fee_or_zero, judged, verified,
  verified_amount, verify,
}

abbrev pub Unknown : (ℕ → Outcome Verdict) → ℕ → Type 0
Unknown verify m = (v : Verdict) × (verify m ≡ ok v) × (not_found v.checks ≡ true)

Unknown-next :
    (verify : ℕ → Outcome Verdict) (n : ℕ) (v : Verdict)
    → ok v ≡ verify n
    → not_found v.checks ≡ true
    → ((m : ℕ) → m < n → Unknown verify m)
    → (m : ℕ) → m < suc n
    → Unknown verify m
Unknown-next verify n v g y late m h = elim (Bool-cases (nat_beq m n)) [
  | inl e ↦ let same : m ≡ n = ground (arith, e) in (v, ap verify same ∙ sym g, y)
  | inr e ↦ late m (ground (arith, e, h))
]

-- The answer is the n-th one, and the node did not know the transaction at any earlier one.
pub record IsAnswer (verify : ℕ → Outcome Verdict) (n : ℕ) (answer : Outcome Verdict) : Type 0 where
  pub given : answer ≡ verify n
  pub late : (m : ℕ) → m < n → Unknown verify m

ask_again-IsAnswer :
    (verify : ℕ → Outcome Verdict) (retries n : ℕ) (answer : Outcome Verdict)
    → answer ≡ verify n
    → ((m : ℕ) → m < n → Unknown verify m)
    → (k : ℕ) × (k ≤ n + retries) × IsAnswer verify k (ask_again verify retries n answer)
unfolding ask_again
ask_again-IsAnswer verify retries n (refuses e) g late =
    (n, omega arith, record { given = g; late = late })
ask_again-IsAnswer verify retries n crashes g late =
    (n, omega arith, record { given = g; late = late })
ask_again-IsAnswer verify zero n (ok v) g late = (n, omega arith, record { given = g; late = late })
ask_again-IsAnswer verify (suc retries) n (ok v) g late = elim (Bool-cases (not_found v.checks)) [
  | inl y ↦
      let later = Unknown-next verify n v g y late in
      let (k, bound, answer) =
        ask_again-IsAnswer verify retries (suc n) (verify (suc n)) refl later in
      simp y (k, omega (arith, bound), answer)
  | inr s ↦ simp s (n, omega arith, record { given = g; late = late })
]

-- The node is asked at most six times: its last answer counts, and at every earlier one it did not
-- know the transaction.
pub ask-IsAnswer :
    (verify : ℕ → Outcome Verdict) → (k : ℕ) × (k ≤ 5) × IsAnswer verify k (ask verify)
unfolding ask
ask-IsAnswer verify =
    ask_again-IsAnswer verify receipt_retries 0 (verify 0) refl (λ m h. absurd (omega (arith, h)))

-- A payment that the route takes as verified: the chain's answer about its hash was valid.
pub record IsVerified (c : Chain) (player : Player) (to : String) (body : Outcome Value)
    (p : Payment) : Type 0 where
  pub value : Value
  pub read : body ≡ ok value
  pub amount : String
  pub given : message_field "amount" value ≡ text amount
  pub whole : is_amount amount ≡ true
  pub found :
      find c player.account (message_field "hash" value) (message_field "nonce" value)
      ≡ ok (some p.hash)
  pub verdict : Verdict
  pub asked :
      ask (λ n. c.verify_payment n p.hash player.account to (natural (big_int amount))) ≡ ok verdict
  pub valid : verdict.valid ≡ true
  pub payment : p ≡ record {
    player = player;
    hash = p.hash;
    to = to;
    amount = natural (big_int amount);
    fee = fee_or_zero verdict.fee;
  }

module _ (c : Chain) (player : Player) (to : String) (value : Value) (amount : String) where
  judged-IsVerified :
      (hash : String) (o : Outcome Verdict) (p : Payment)
      → message_field "amount" value ≡ text amount
      → is_amount amount ≡ true
      → find c player.account (message_field "hash" value) (message_field "nonce" value)
        ≡ ok (some hash)
      → ask (λ n. c.verify_payment n hash player.account to (natural (big_int amount))) ≡ o
      → judged player hash to amount o ≡ ok p
      → IsVerified c player to (ok value) p
  judged-IsVerified hash (refuses e) p g w f a h = cc
  judged-IsVerified hash crashes p g w f a h = cc
  judged-IsVerified hash (ok v) p g w f a h = elim (Bool-cases v.valid) [
    | inl y ↦
        let made : Payment = record {
          player = player;
          hash = hash;
          to = to;
          amount = natural (big_int amount);
          fee = fee_or_zero v.fee;
        } in
        let same : made ≡ p = ground (arith, y) in
        rw (sym same) (record {
          value = value;
          read = refl;
          amount = amount;
          given = g;
          whole = w;
          found = f;
          verdict = v;
          asked = a;
          valid = y;
          payment = refl;
        })
    | inr n ↦ ground (arith, n)
  ]

  found-IsVerified :
      (o : Outcome (Option String)) (p : Payment)
      → message_field "amount" value ≡ text amount
      → is_amount amount ≡ true
      → find c player.account (message_field "hash" value) (message_field "nonce" value) ≡ o
      → verified c player to amount (found_or_refuse o) ≡ ok p
      → IsVerified c player to (ok value) p
  found-IsVerified (ok none) p g w f h = cc
  found-IsVerified (ok (some hash)) p g w f h = judged-IsVerified hash _ p g w f refl h
  found-IsVerified (refuses e) p g w f h = cc
  found-IsVerified crashes p g w f h = cc

amount-IsVerified :
    (c : Chain) (player : Player) (to : String) (value field : Value) (p : Payment)
    → message_field "amount" value ≡ field
    → verified_amount c player to value (amount_of field) ≡ ok p
    → IsVerified c player to (ok value) p
amount-IsVerified c player to value (text amount) p g h = elim (Bool-cases (is_amount amount)) [
  | inl y ↦ found-IsVerified c player to value amount _ p g y refl (ground (arith, y))
  | inr n ↦ ground (arith, n)
]
amount-IsVerified c player to value (number n) p g h = cc
amount-IsVerified c player to value undefined p g h = cc
amount-IsVerified c player to value null p g h = cc
amount-IsVerified c player to value other p g h = cc
amount-IsVerified c player to value (boolean bool) p g h = cc
amount-IsVerified c player to value (array items) p g h = cc
amount-IsVerified c player to value (object fs) p g h = cc

pub verify-IsVerified :
    (c : Chain) (player : Player) (to : String) (body : Outcome Value) (p : Payment)
    → verify c player to body ≡ ok p
    → IsVerified c player to body p
unfolding verify
verify-IsVerified c player to (ok value) p h = amount-IsVerified c player to value _ p refl h
verify-IsVerified c player to (refuses e) p h = cc
verify-IsVerified c player to crashes p h = cc
