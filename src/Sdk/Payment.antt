-- ===== src/Sdk/Payment.antt =====
-- packages/sdk/src/server.ts: the route that accepts a payment. The request's origin, body and session,
-- the chain's answers and the site's onPayment are arguments; Date.now() is one of each call.
pub mod Handler
pub mod Laws
pub mod Route
pub mod Held
pub mod Once
mod Tests
use vera_key.Prelude.{
  ℕ, zero, suc, String, Bool, true, false, not, ◌&&◌, ◌||◌, List, [], ◌∷◌, Option, none, some,
  nat_beq, ◌==◌, if◌then◌else◌,
}
use vera_key.Prelude.Text.{ℤ, pos, big_int, lower}
use vera_key.Collections.Set
use vera_key.Sdk.Values.{Value, text, length16, is_amount, is_digits}
use vera_key.Sdk.Connect.{message_field}
use vera_key.Sdk.MemoryStore.{Store, claim, release}
use vera_key.Sdk.Session.{Player, Check}

pub record HttpError : Type 0 where
  pub status : ℕ
  pub message : String
  pub checks : Option (List Check)

-- `crashes` is any other exception, which the kit answers with 500.
pub data Outcome (A : Type 0) : Type 0 where
  ok : A → Outcome A
  refuses : HttpError → Outcome A
  crashes : Outcome A

abbrev pub refuse : {A : Type 0} → ℕ → String → Outcome A
refuse status message = refuses (record { status = status; message = message; checks = none })

pub record Verdict : Type 0 where
  pub valid : Bool
  pub fee : Option ℕ
  pub checks : List Check

pub record Chain : Type 0 where
  -- viem's isHex
  pub is_hex : String → Bool
  -- findPayment, of an account and a nonce
  pub find_payment : String → ℕ → Outcome (Option String)
  -- verifyPayment, the n-th time it is asked, of a hash, an account, the merchant and an amount
  pub verify_payment : (n : ℕ) → (hash account to : String) → (amount : ℕ) → Outcome Verdict

abbrev pub natural : Option ℤ → ℕ
natural (some (pos n)) = n
natural _ = 0

abbrev pub amount_of : Value → Outcome String
amount_of (text amount) =
    if is_amount amount
    then ok amount
    else refuse 400 "amount must be a whole number of USDG base units, as a string."
amount_of _ = refuse 400 "amount must be a whole number of USDG base units, as a string."

abbrev pub no_proof : Outcome (Option String)
no_proof = refuse 400 "Send the payment's hash, or the nonce of a payment the popup was sending."

abbrev pub by_nonce : Chain → (account : String) → Value → Outcome (Option String)
by_nonce c account (text nonce) =
    if is_digits 20 nonce then c.find_payment account (natural (big_int nonce)) else no_proof
by_nonce c account _ = no_proof

abbrev pub find : Chain → (account : String) → (hash nonce : Value) → Outcome (Option String)
find c account (text hash) nonce =
    if c.is_hex hash && nat_beq (length16 hash) 66 then ok (some hash) else by_nonce c account nonce
find c account _ nonce = by_nonce c account nonce

abbrev pub found_or_refuse : Outcome (Option String) → Outcome String
found_or_refuse (ok none) = refuse 400 "No payment was found."
found_or_refuse (ok (some hash)) = ok hash
found_or_refuse (refuses e) = refuses e
found_or_refuse crashes = crashes

abbrev pub not_found : List Check → Bool
not_found (c ∷ []) = elim c.detail [ none ↦ false | some d ↦ d == "not found" ]
not_found _ = false

abbrev pub receipt_retries : ℕ
receipt_retries = 5

-- `verdict = await verify()`, and again while the node does not know the transaction.
unfoldable pub ask_again :
    (ℕ → Outcome Verdict) → (retries n : ℕ) → Outcome Verdict → Outcome Verdict
ask_again verify retries n (refuses e) = refuses e
ask_again verify retries n crashes = crashes
ask_again verify zero n (ok v) = ok v
ask_again verify (suc retries) n (ok v) =
    let next = ask_again verify retries (suc n) (verify (suc n)) in
    if not_found v.checks then next else ok v

unfoldable pub ask : (ℕ → Outcome Verdict) → Outcome Verdict
ask verify = ask_again verify receipt_retries 0 (verify 0)

pub record Payment : Type 0 where
  pub player : Player
  pub hash : String
  pub to : String
  pub amount : ℕ
  pub fee : ℕ

abbrev pub fee_or_zero : Option ℕ → ℕ
fee_or_zero none = 0
fee_or_zero (some fee) = fee

abbrev pub judged : Player → (hash to amount : String) → Outcome Verdict → Outcome Payment
judged player hash to amount (ok v) =
    if v.valid
    then ok (record {
      player = player;
      hash = hash;
      to = to;
      amount = natural (big_int amount);
      fee = fee_or_zero v.fee;
    })
    else refuses
        (record { status = 400; message = "The payment did not verify."; checks = some v.checks })
judged player hash to amount (refuses e) = refuses e
judged player hash to amount crashes = crashes

abbrev pub verified : Chain → Player → (to amount : String) → Outcome String → Outcome Payment
verified c player to amount (ok hash) =
    judged player hash to amount
      (ask (λ n. c.verify_payment n hash player.account to (natural (big_int amount))))
verified c player to amount (refuses e) = refuses e
verified c player to amount crashes = crashes

abbrev pub verified_amount :
    Chain → Player → (to : String) → Value → Outcome String → Outcome Payment
verified_amount c player to body (ok amount) = verified c player to amount (
    found_or_refuse
      (find c player.account (message_field "hash" body) (message_field "nonce" body)))
verified_amount c player to body (refuses e) = refuses e
verified_amount c player to body crashes = crashes

-- `acceptPayment` up to the claim.
unfoldable pub verify : Chain → Player → (to : String) → Outcome Value → Outcome Payment
verify c player to (ok body) =
    verified_amount c player to body (amount_of (message_field "amount" body))
verify c player to (refuses e) = refuses e
verify c player to crashes = crashes

-- What the site's onPayment returns, or the message of what it throws.
pub data Fulfilment : Type 0 where
  accepts : Value → Fulfilment
  throws : String → Fulfilment

-- The answer writes the numbers in digits.
pub record Receipt : Type 0 where
  pub hash : String
  pub amount : ℕ
  pub fee : ℕ
  pub result : Value

abbrev pub claim_key : Payment → String
claim_key p = Prim.Native.String.◌++◌ "payment:" (lower p.hash)

abbrev pub fulfil : Payment → Fulfilment → Store → Outcome Receipt × Store
fulfil p (accepts v) store =
    (ok (record { hash = p.hash; amount = p.amount; fee = p.fee; result = v }), store)
fulfil p (throws m) store = (refuse 400 m, release (claim_key p) store)

-- `acceptPayment` from the claim on.
unfoldable pub claim_and_fulfil : Payment → Fulfilment → (now : ℕ) → Store → Outcome Receipt × Store
claim_and_fulfil p on_payment now store =
    let (claimed, first) = claim (claim_key p) none now store in
    if first
    then fulfil p on_payment claimed
    else (refuse 409 "This payment was already accepted.", store)

abbrev pub accept_verified :
    Outcome Payment → (Payment → Fulfilment) → (now : ℕ) → Store → Outcome Receipt × Store
accept_verified (ok p) on_payment now store = claim_and_fulfil p (on_payment p) now store
accept_verified (refuses e) on_payment now store = (refuses e, store)
accept_verified crashes on_payment now store = (crashes, store)
