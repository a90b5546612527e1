-- ===== src/Server/Relayer/Tests.antt =====
-- server/relayer.ts at concrete requests.
use vera_key.Prelude.{
  ℕ, ◌+◌, arith, ◌≡◌, refl, String, true, false, ◌||◌, ◌&&◌, [], ◌∷◌, Option, none, some,
  starts_with,
}
use vera_key.Prelude.Text.{lower, slice_from, big_int, pos}
use vera_key.Collections.Set
use vera_key.Collections.Map
use vera_key.Server.RateLimit.{RateLimiter, take}
use vera_key.Server.Relayer.{
  refused, crashed, ok, failed, int, hex, answered, Config, Context, Relayer,
}
use vera_key.Server.Relayer.Arguments.{text, number, convert_all, fee_of, below}
use vera_key.Server.Relayer.Submit.{
  assert_our_account, check_code, check_factory, clone_code, is_clone, no_code, submit, broadcast,
  gas_spent,
}
use vera_key.Server.Relayer.Relay.{
  RelayRequest, check_body, check_fee, enter, defends, send, relay, charge, waives, catch_leave,
  leave, fee_waived, is_freeze, Parsed,
}
use vera_key.Server.Relayer.Abi.{relayable, cancel_recovery, restrict}
use vera_key.Server.Relayer.Relay.InFlight.{held, has-relay}
use vera_key.Server.Relayer.Relay.Sending.{Sends, sent-relay}
use vera_key.Server.Relayer.Relay.Budgets.{Counts, budgets-relay, relay_defending}
use vera_key.Server.Relayer.Relay.Refused.{IsWaived, HasRoom, IsFull, relay_gas_spent}
use vera_key.Server.RateLimit.Laws.{used}
use vera_key.Server.Relayer.Faucet.{
  faucet, check_account, reserve, settle, give, has_funds, grant, release, remember, write_file,
}
use vera_key.Server.Relayer.Faucet.Grants.{has-faucet, sent-faucet, Gives}
use vera_key.Server.Relayer.Faucet.Laws.{paid_to, granted_to, is_writable}
use vera_key.Server.Relayer.Accounts.{create_account, check_ids, is_field_hex, deploy}
use vera_key.Server.Relayer.Accounts.Sending.{Creates, sent-create_account}

abbrev config : Config
config = record {
  account_implementation = "0xAB";
  factory = "0xFa";
  usdg = "0xUSD";
  fee = 20000;
  faucet_amount = 5000000;
  mintable_usdg = true;
}

abbrev context : Context
context = record {
  config = config;
  is_address = λ s. starts_with s "0x";
  is_hex = λ s. starts_with s "0x";
  get_code = λ a. answered (some "0x363d3d373d3d3d363d73ab5af43d82803e903d91602b57fd5bf3");
  factory_of = λ a. answered "0xfA";
  is_frozen = λ a. answered false;
  pending_change_ids = λ a. answered [];
  policy = λ a. answered (10, 100);
  account_address = λ a n. answered "0xAcc";
  treasury = answered 0;
  simulate = λ c. answered tt;
  estimate_gas = λ c. answered 900000;
  write = λ c. answered "0xhash";
  failed_write = none;
  now = 1000;
}

abbrev budget : ℕ → RateLimiter
budget n = record { limit = n; window_ms = 86400000; windows = [] }

abbrev fresh : Relayer
fresh = record {
  funded = "0xold" ∷ [];
  granting = [];
  in_flight = [];
  unpaid_safety_actions = budget 10;
  gas_per_day = budget 1000000;
  faucet_file = "0xold" ∷ [];
  sent = [];
}

abbrev payment : String → Option RelayRequest
payment fee = some (record {
  account = "0xAA";
  function_name = "pay";
  args = some (
      text "0x01"
      ∷ text "7"
      ∷ text fee
      ∷ number (pos 99)
      ∷ text "0x02"
      ∷ text "0x03"
      ∷ text "0x04"
      ∷ []);
})

abbrev cancel : RelayRequest
cancel = record {
  account = "0xAA";
  function_name = "cancelRecovery";
  args = some (text "20000" ∷ text "0x63" ∷ text "0x02" ∷ text "0x03" ∷ text "0x04" ∷ []);
}

relayer : Unit {0}
unfolding relay check_body check_fee assert_our_account check_code check_factory is_clone clone_code
    no_code convert_all fee_of below relayable big_int lower slice_from defends waives send charge
    submit broadcast catch_leave leave take Map.get Map.set Set.has Set.add Set.delete fee_waived
    is_freeze faucet enter check_account reserve settle give has_funds grant release remember
    write_file
relayer = tt

relay_tests :
    ((relay context (payment "20000") fresh).0 ≡ ok "0xhash")
    × ((relay context (payment "20000") fresh).1.in_flight ≡ "0xaa" ∷ [])
    × ((relay context (payment "0x4e1f") fresh).0
        ≡ failed (refused 402 "The signed relayer fee is too low." none))
    × ((relay context (some cancel) fresh).1.gas_per_day ≡ budget 1000000)
unfolding relayer
relay_tests = (refl, refl, refl, refl)

sent-relay_example : Sends context (payment "20000") fresh (relay context (payment "20000") fresh).1
sent-relay_example = sent-relay context (payment "20000") fresh

has-relay_example :
    Set.has "0xaa" (relay context (payment "20000") fresh).1.in_flight
    ≡ (held (relay context (payment "20000") fresh).0 (payment "20000") "0xaa" || Set.has "0xaa" [])
has-relay_example = has-relay context (payment "20000") fresh "0xaa"

budgets-relay_example :
    Counts context (payment "20000") fresh (relay context (payment "20000") fresh).1
budgets-relay_example = budgets-relay context (payment "20000") fresh

abbrev cancel_parsed : Parsed
cancel_parsed = record {
  account = "0xAA";
  function = cancel_recovery;
  function_name = "cancelRecovery";
  args = int (pos 20000) ∷ int (pos 99) ∷ hex "0x02" ∷ hex "0x03" ∷ hex "0x04" ∷ [];
}

relay_defending_example :
    (relay context
      (some cancel)
      (record fresh { unpaid_safety_actions = budget 0; gas_per_day = budget 0 })).0
    ≡ (relay context (some cancel) fresh).0
unfolding relayer
relay_defending_example =
    relay_defending context (some cancel) cancel_parsed fresh (budget 0) (budget 0) refl refl

abbrev spent : Relayer
spent = record fresh { gas_per_day = budget 5 }

-- A restriction of an account that has spent the day's cap.
abbrev restriction : RelayRequest
restriction = record {
  account = "0xAA";
  function_name = "restrict";
  args = some (
      number (pos 1)
      ∷ text "0x01"
      ∷ text "20000"
      ∷ text "0x63"
      ∷ text "0x02"
      ∷ text "0x03"
      ∷ text "0x04"
      ∷ []);
}

abbrev restriction_parsed : Parsed
restriction_parsed = record {
  account = "0xAA";
  function = restrict;
  function_name = "restrict";
  args =
      int (pos 1)
      ∷ hex "0x01"
      ∷ int (pos 20000)
      ∷ int (pos 99)
      ∷ hex "0x02"
      ∷ hex "0x03"
      ∷ hex "0x04"
      ∷ [];
}

restriction-IsWaived : IsWaived context (some restriction) spent restriction_parsed 900000
unfolding relayer
restriction-IsWaived = record {
  checked = refl;
  enough = refl;
  ours = refl;
  free = refl;
  defended = refl;
  excused = refl;
  ready = record { simulated = refl; estimated = refl; bounded = omega arith };
}

unpaid-HasRoom : HasRoom (budget 10) "0xaa" 1 1000
unfolding used relayer
unpaid-HasRoom = record {
  window = omega arith;
  valid = record { unique = tt; fits = λ key. tt };
  room = omega arith;
}

gas-IsFull : IsFull (budget 5) "all" 900000 1000
unfolding used relayer
gas-IsFull = record {
  window = omega arith;
  valid = record { unique = tt; fits = λ key. tt };
  full = omega arith;
}

relay_gas_spent_example :
    ((relay context (some restriction) spent).0 ≡ failed (refused 429 gas_spent none))
    × ((relay context (some restriction) spent).1.sent ≡ [])
    × ((j : String) → Set.has j (relay context (some restriction) spent).1.in_flight ≡ Set.has j [])
    × (used (relay context (some restriction) spent).1.gas_per_day "all" 1000
        ≡ used (budget 5) "all" 1000)
    × (used (relay context (some restriction) spent).1.unpaid_safety_actions "0xaa" 1000
        ≡ used (budget 10) "0xaa" 1000 + 1)
unfolding lower
relay_gas_spent_example =
    relay_gas_spent context (some restriction) spent restriction_parsed 900000 restriction-IsWaived
      unpaid-HasRoom gas-IsFull

faucet_tests :
    ((faucet context (ok tt) (text "0xAA") fresh).0 ≡ ok "0xhash")
    × ((faucet context (ok tt) (text "0xAA") fresh).1.faucet_file ≡ "0xold" ∷ "0xaa" ∷ [])
    × ((faucet context (ok tt) (text "0xOLD") fresh).0
        ≡ failed (refused 409 "This account already received demo USDG." none))
unfolding relayer
faucet_tests = (refl, refl, refl)

-- A disk that takes no writes: the request fails, yet the account is remembered.
abbrev full_disk : Context
full_disk = record context { failed_write = some ("0xold" ∷ []) }

full_disk_tests :
    ((faucet full_disk (ok tt) (text "0xAA") fresh).0 ≡ failed crashed)
    × ((faucet full_disk (ok tt) (text "0xAA") fresh).1.funded ≡ "0xold" ∷ "0xaa" ∷ [])
    × ((faucet full_disk (ok tt) (text "0xAA") fresh).1.faucet_file ≡ "0xold" ∷ [])
unfolding relayer
full_disk_tests = (refl, refl, refl)

has-faucet_example :
    (Set.has "0xaa" (faucet full_disk (ok tt) (text "0xAA") fresh).1.funded ≡ (
      granted_to full_disk
        (text "0xAA")
        fresh
        (faucet full_disk (ok tt) (text "0xAA") fresh).1
        "0xaa"
      || Set.has "0xaa" fresh.funded))
    × (Set.has "0xaa" (faucet full_disk (ok tt) (text "0xAA") fresh).1.granting
        ≡ Set.has "0xaa" fresh.granting)
    × (paid_to (faucet full_disk (ok tt) (text "0xAA") fresh).0 (text "0xAA") "0xaa" ≡ (
        is_writable full_disk.failed_write
        && granted_to full_disk
            (text "0xAA")
            fresh
            (faucet full_disk (ok tt) (text "0xAA") fresh).1
            "0xaa"))
has-faucet_example = has-faucet full_disk (ok tt) (text "0xAA") fresh "0xaa"

sent-faucet_example :
    Gives context (text "0xAA") fresh (faucet context (ok tt) (text "0xAA") fresh).1
sent-faucet_example = sent-faucet context (ok tt) (text "0xAA") fresh

-- A node that knows no code at the new account's address.
abbrev undeployed : Context
undeployed = record context { get_code = λ a. answered none }

abbrev one_field : String
one_field = "0x0000000000000000000000000000000000000000000000000000000000000001"

accounts : Unit {0}
unfolding create_account check_ids is_field_hex deploy big_int submit broadcast no_code take Map.get
    Map.set
accounts = tt

create_account_tests :
    ((create_account undeployed (ok tt) (text one_field) (text one_field) fresh).0
      ≡ ok (some "0xhash", "0xAcc"))
    × ((create_account context (ok tt) (text one_field) (text one_field) fresh).0
        ≡ ok (none, "0xAcc"))
unfolding accounts
create_account_tests = (refl, refl)

sent-create_account_example :
    Creates undeployed
      (text one_field)
      (text one_field)
      fresh
      (create_account undeployed (ok tt) (text one_field) (text one_field) fresh).1
sent-create_account_example =
    sent-create_account undeployed (ok tt) (text one_field) (text one_field) fresh
