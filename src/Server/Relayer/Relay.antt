-- ===== src/Server/Relayer/Relay.antt =====
-- server/relayer.ts: relay, defends and feeWaived.
pub mod Form
pub mod Cases
pub mod Sending
pub mod InFlight
pub mod Budgets
pub mod Refused
use vera_key.Prelude.{
  ℕ, suc, ◌+◌, ◌≡◌, String, Bool, true, false, not, ◌&&◌, ◌||◌, List, [], ◌∷◌, Option, none, some,
  ltb, ◌==◌, nat_beq, if◌then◌else◌, length,
}
use vera_key.Prelude.Text.{ℤ, pos, negsuc, lower}
use vera_key.Collections.Set
use vera_key.Server.RateLimit.{RateLimiter, take}
use vera_key.Server.Relayer.{
  Failure, refused, Outcome, ok, failed, Value, int, flag, hex, Call, Node, Context, Relayer, M,
  next, ◌>>=◌, ◌>>◌, return, lift, refuse, read,
}
use vera_key.Server.Relayer.Abi.{
  RelayableFunction, pay, schedule_change, restrict, apply_change, cancel_change, cancel_recovery,
  execute_recovery, relayable, inputs,
}
use vera_key.Server.Relayer.Arguments.{Json, convert_all, fee_of, below}
use vera_key.Server.Relayer.Submit.{assert_our_account, spend_gas, submit}

pub record RelayRequest : Type 0 where
  pub account : String
  pub function_name : String
  -- `none` if it is no array
  pub args : Option (List Json)

-- A request that passed the checks on its form.
pub record Parsed : Type 0 where
  pub account : String
  pub function : RelayableFunction
  pub function_name : String
  pub args : List Value

abbrev pub parsed : RelayRequest → RelayableFunction → Outcome (List Value) → Outcome Parsed
parsed body f (ok args) = ok (record {
  account = body.account;
  function = f;
  function_name = body.function_name;
  args = args;
})
parsed body f (failed e) = failed e

unfoldable pub check_args :
    (String → Bool) → RelayRequest → RelayableFunction → Option (List Json) → Outcome Parsed
check_args is_hex body f none = failed (refused 400 "Arguments do not match the function." none)
check_args is_hex body f (some args) =
    if nat_beq (length args) (length (inputs f))
    then parsed body f (convert_all is_hex (inputs f) args)
    else failed (refused 400 "Arguments do not match the function." none)

abbrev pub unsupported : Outcome Parsed
unsupported = failed (refused 400 "Unsupported relay request." none)

unfoldable pub check_body : Context → Option RelayRequest → Outcome Parsed
unfolding check_args
check_body x none = unsupported
check_body x (some body) =
    if x.is_address body.account
    then elim (relayable body.function_name) [
      | none ↦ unsupported
      | some f ↦ check_args x.is_hex body f body.args
    ]
    else unsupported

abbrev pub parsed_fee : Parsed → Option Value
parsed_fee p = fee_of (inputs p.function) p.args

unfoldable pub check_fee : ℕ → Option Value → Outcome (Unit {0})
check_fee least none = ok tt
check_fee least (some fee) =
    if below fee least
    then failed (refused 402 "The signed relayer fee is too low." none)
    else ok tt

-- The account is taken, unless a transaction of it is on its way. Nothing else runs in between.
unfoldable pub enter : String → M (Unit {0})
enter busy s =
    if Set.has busy s.in_flight
    then (
      failed (
          refused 409 "Another transaction for this account is on its way. Try again in a moment."
            none),
      s,
    )
    else (ok tt, record s { in_flight = Set.add busy s.in_flight })

unfoldable pub leave : String → Relayer → Relayer
leave busy s = record s { in_flight = Set.delete busy s.in_flight }

-- `Number(args[0]) === ChangeKind.Freeze`
unfoldable pub is_freeze : List Value → Bool
is_freeze (int (pos n) ∷ _) = nat_beq n 8
is_freeze _ = false

abbrev pub any_pending : List ℕ → Bool
any_pending [] = false
any_pending (id ∷ ids) = not (nat_beq id 0) || any_pending ids

abbrev pub outcome_map : {A B : Type 0} → (A → B) → Outcome A → Outcome B
outcome_map f (ok a) = ok (f a)
outcome_map f (failed e) = failed e

abbrev pub freeze_defends : Context → String → Outcome Bool → Outcome Bool
freeze_defends x account (ok true) = outcome_map any_pending (read (x.pending_change_ids account))
freeze_defends x account (ok false) = ok true
freeze_defends x account (failed e) = failed e

unfoldable pub defends : Context → Parsed → Outcome Bool
defends x p = elim p.function [
  | cancel_change ↦ ok true
  | cancel_recovery ↦ ok true
  | restrict ↦
      if is_freeze p.args
      then freeze_defends x p.account (read (x.is_frozen p.account))
      else ok false
  | _ ↦ ok false
]

-- `spentToday + fee > dailyCap`
abbrev pub over_cap : Value → ℕ × ℕ → Bool
over_cap (int (pos fee)) (daily_cap, spent_today) = ltb daily_cap (spent_today + fee)
over_cap (int (negsuc k)) (daily_cap, spent_today) = ltb (daily_cap + suc k) spent_today
over_cap (flag b) _ = false
over_cap (hex h) _ = false

unfoldable pub fee_waived : Context → String → Value → Outcome Bool
fee_waived x account fee = outcome_map (over_cap fee) (read (x.policy account))

abbrev pub is_safety_action : RelayableFunction → Bool
is_safety_action restrict = true
is_safety_action cancel_change = true
is_safety_action cancel_recovery = true
is_safety_action _ = false

unfoldable pub waives : Context → Parsed → Bool → Option Value → Outcome Bool
waives x p defending none = ok false
waives x p defending (some fee) =
    if not defending && is_safety_action p.function then fee_waived x p.account fee else ok false

unfoldable pub spend_unpaid : Context → String → M (Unit {0})
spend_unpaid x busy s =
    let (budget, granted) = take s.unpaid_safety_actions busy 1 x.now in
    if granted then (ok tt, record s { unpaid_safety_actions = budget }) else (
      failed (
          refused 429
            "This account has spent today's cap, so it pays no fee for this change, and the relayer has sent today's share of those for it. Try again tomorrow: freezing and cancelling still go through."
            none),
      record s { unpaid_safety_actions = budget },
    )

-- The limits that apply just before the transaction is sent.
unfoldable pub charge : Context → String → Bool → Bool → ℕ → M (Unit {0})
unfolding spend_unpaid spend_gas
charge x busy defending waived gas =
    if defending
    then return tt
    else if waived
    then spend_unpaid x busy >> spend_gas x gas
    else spend_gas x gas

abbrev pub call_of : Parsed → Call
call_of p = record { address = p.account; function_name = p.function_name; args = p.args }

-- What runs in the `try`, after the account was entered.
unfoldable pub send : Context → Parsed → M String
send x p = do
  defending ← lift (defends x p)
  waived ← lift (waives x p defending (parsed_fee p))
  submit x (call_of p) (charge x (lower p.account) defending waived)

-- The `catch`: the account is free again, and the exception goes on. A success keeps it in flight
-- until its receipt is in, or until the wait for it times out: that is `leave`, later.
unfoldable pub catch_leave : String → Outcome String × Relayer → Outcome String × Relayer
catch_leave busy (ok hash, s) = (ok hash, s)
catch_leave busy (failed e, s) = (failed e, leave busy s)

unfoldable pub relay : Context → Option RelayRequest → M String
unfolding enter
relay x body = do
  p ← lift (check_body x body)
  lift (check_fee x.fee (parsed_fee p))
  lift (assert_our_account x p.account)
  enter (lower p.account)
  λ s. catch_leave (lower p.account) (send x p s)
