-- ===== src/Sdk/Verify/Payments.antt =====
-- packages/sdk/src/signin.ts: verifyPayment and findPayment. The node's answers are parameters; a log is
-- a `Paid` event that viem decoded.
mod Tests
use vera_key.Prelude.{
  ℕ, zero, suc, ◌+◌, ◌-◌, ◌/◌, String, Bool, true, false, ◌&&◌, List, [], ◌∷◌, Option, none, some,
  nat_beq, ltb, leb, ◌==◌, if◌then◌else◌,
}
use vera_key.Prelude.Text.{lower}
use vera_key.Sdk.Session.{Check}
use vera_key.Sdk.Payment.{Outcome, ok, refuses, crashes, Verdict}
use vera_key.Sdk.Verify.{or_else}

pub record PaidLog : Type 0 where
  pub account : String
  pub to : String
  pub amount : ℕ
  pub fee : ℕ

pub record TransactionReceipt : Type 0 where
  pub status : String
  pub paid : List PaidLog

-- What `attempt` makes of the node's answers: `none`, or false, for a failure.
pub record Transactions : Type 0 where
  pub receipt : String → Option TransactionReceipt
  pub is_known : String → Bool
  pub wait : (hash : String) (timeout : ℕ) → Option TransactionReceipt

abbrev pub wait_if : Bool → Option TransactionReceipt → Option TransactionReceipt
wait_if known waited = if known then waited else none

abbrev pub receipt_or_wait :
    Transactions
    → (hash : String) → Option ℕ
    → Option TransactionReceipt
    → Option TransactionReceipt
receipt_or_wait t hash timeout (some r) = some r
receipt_or_wait t hash timeout none =
    wait_if (t.is_known hash) (t.wait hash (or_else timeout 30000))

unfoldable pub fetch_receipt : Transactions → (hash : String) → Option ℕ → Option TransactionReceipt
fetch_receipt t hash timeout = receipt_or_wait t hash timeout (t.receipt hash)

unfoldable pub paid_by : (account : String) → List PaidLog → List PaidLog
paid_by account [] = []
paid_by account (log ∷ logs) =
    let rest = paid_by account logs in
    if lower log.account == lower account then log ∷ rest else rest

abbrev pub matches : (to : String) → (amount : ℕ) → PaidLog → Bool
matches to amount log = lower log.to == lower to && nat_beq log.amount amount

unfoldable pub find_match : (to : String) → (amount : ℕ) → List PaidLog → Option PaidLog
find_match to amount [] = none
find_match to amount (log ∷ logs) =
    let rest = find_match to amount logs in if matches to amount log then some log else rest

abbrev pub is_some : Option PaidLog → Bool
is_some none = false
is_some (some log) = true

abbrev pub is_not_empty : List PaidLog → Bool
is_not_empty [] = false
is_not_empty (log ∷ logs) = true

abbrev pub made : String → Bool → Option String → Check
made name passed detail = record { name = name; passed = passed; detail = detail }

abbrev pub fee_of : Option PaidLog → Option ℕ
fee_of none = none
fee_of (some log) = some log.fee

abbrev pub failed_with : (status : String) → Verdict
failed_with status = record {
  valid = false;
  fee = none;
  checks = made "Transaction succeeded" false (some status) ∷ [];
}

abbrev pub judge_match : (status : String) → List PaidLog → Option PaidLog → Verdict
judge_match status paid match =
    let valid = is_not_empty paid && is_some match in
    record {
      valid = valid;
      fee = if valid then fee_of match else none;
      checks =
          made "Transaction succeeded" true (some status)
          ∷ made "Paid by this player's account" (is_not_empty paid) none
          ∷ made "To this recipient, for this amount" (is_some match) none
          ∷ [];
    }

abbrev pub judge_receipt :
    (account to : String) → (amount : ℕ) → Option TransactionReceipt → Verdict
judge_receipt account to amount none = failed_with "not found"
judge_receipt account to amount (some r) =
    let paid = paid_by account r.paid in
    if r.status == "success"
    then judge_match r.status paid (find_match to amount paid)
    else failed_with r.status

-- `verifyPayment(hash, options)`
unfoldable pub verify_payment :
    Transactions → (hash account to : String) → (amount : ℕ) → (timeout : Option ℕ) → Verdict
unfolding fetch_receipt paid_by find_match
verify_payment t hash account to amount timeout =
    judge_receipt account to amount (fetch_receipt t hash timeout)

-- The node and the clock in findPayment's rounds: the latest block, the transaction hashes of the events
-- of an account and a nonce between two blocks, and the time, in milliseconds, once they were read.
pub record Rounds : Type 0 where
  pub latest : (round : ℕ) → Outcome ℕ
  pub events : (round : ℕ) → (account : String) → (nonce from to : ℕ) → Outcome (List String)
  pub time : (round : ℕ) → ℕ

abbrev pub from_block : Option ℕ → (latest : ℕ) → ℕ
from_block (some block) latest = block
from_block none latest = if ltb 10000 latest then latest - 10000 else 0

abbrev pub ask_events :
    Rounds
    → (account : String) → (nonce : ℕ) → Option ℕ
    → (round : ℕ) → Outcome ℕ
    → Outcome (List String)
ask_events r account nonce from round (ok latest) =
    r.events round account nonce (from_block from latest) latest
ask_events r account nonce from round (refuses e) = refuses e
ask_events r account nonce from round crashes = crashes

-- The events that a round finds.
unfoldable pub ask_round :
    Rounds → (account : String) → (nonce : ℕ) → Option ℕ → (round : ℕ) → Outcome (List String)
ask_round r account nonce from round = ask_events r account nonce from round (r.latest round)

-- A round, with what the next one gives; `none` is out of fuel.
abbrev pub end_round :
    (over : Bool)
    → Option (Outcome (Option String))
    → Outcome (List String)
    → Option (Outcome (Option String))
end_round over next (ok (hash ∷ hashes)) = some (ok (some hash))
end_round over next (ok []) = if over then some (ok none) else next
end_round over next (refuses e) = some (refuses e)
end_round over next crashes = some crashes

unfoldable pub find_from :
    (ask : ℕ → Outcome (List String))
    → (time : ℕ → ℕ) → (deadline fuel round : ℕ) → Option (Outcome (Option String))
find_from ask time deadline zero round = none
find_from ask time deadline (suc fuel) round =
    let next = find_from ask time deadline fuel (suc round) in
    end_round (leb deadline (time round)) next (ask round)

-- `findPayment(options)`; `start` is Date.now(), in milliseconds, at its start.
unfoldable pub find_payment :
    Rounds
    → (start : ℕ) → (account : String) → (nonce : ℕ) → (from timeout : Option ℕ)
    → Option (Outcome (Option String))
unfolding find_from ask_round
find_payment r start account nonce from timeout =
    let wait = or_else timeout 30000 in
    find_from (ask_round r account nonce from) r.time (start + wait) (suc (suc (wait / 2000))) 0
