-- ===== src/Server/Relayer/Abi.antt =====
-- The functions that shared/api.ts lets the relayer submit, with their inputs as packages/sdk/src/abi.ts
-- lists them.
use vera_key.Prelude.{String, List, [], ◌∷◌, Option, none, some, ◌==◌, if◌then◌else◌}

pub data RelayableFunction : Type 0 where
  pay schedule_change restrict apply_change cancel_change cancel_recovery : RelayableFunction
  execute_recovery : RelayableFunction

unfoldable pub relayable : String → Option RelayableFunction
relayable s =
    if s == "pay"
    then some pay
    else if s == "scheduleChange"
    then some schedule_change
    else if s == "restrict"
    then some restrict
    else if s == "applyChange"
    then some apply_change
    else if s == "cancelChange"
    then some cancel_change
    else if s == "cancelRecovery"
    then some cancel_recovery
    else if s == "executeRecovery"
    then some execute_recovery
    else none

pub record Input : Type 0 where
  pub name : String
  pub type : String

abbrev input : String → String → Input
input name type = record { name = name; type = type }

-- The inputs that every call authorized by a proof ends with.
abbrev authorization : List Input
authorization =
    input "fee" "uint256"
    ∷ input "deadline" "uint64"
    ∷ input "nullifier" "bytes32"
    ∷ input "client_data_json" "bytes"
    ∷ input "proof" "bytes"
    ∷ []

abbrev pub pay_inputs : List Input
pay_inputs = input "to" "address" ∷ input "amount" "uint256" ∷ authorization

abbrev pub schedule_change_inputs : List Input
schedule_change_inputs = input "change_kind" "uint8" ∷ input "payload" "bytes" ∷ authorization

abbrev pub restrict_inputs : List Input
restrict_inputs = input "change_kind" "uint8" ∷ input "payload" "bytes" ∷ authorization

abbrev pub apply_change_inputs : List Input
apply_change_inputs =
    input "change_id" "bytes32" ∷ input "change_kind" "uint8" ∷ input "payload" "bytes" ∷ []

abbrev pub cancel_change_inputs : List Input
cancel_change_inputs = input "change_id" "bytes32" ∷ authorization

abbrev pub cancel_recovery_inputs : List Input
cancel_recovery_inputs = authorization

abbrev pub execute_recovery_inputs : List Input
execute_recovery_inputs = []

-- `getAbiItem({ abi, name }).inputs`
abbrev pub inputs : RelayableFunction → List Input
inputs pay = pay_inputs
inputs schedule_change = schedule_change_inputs
inputs restrict = restrict_inputs
inputs apply_change = apply_change_inputs
inputs cancel_change = cancel_change_inputs
inputs cancel_recovery = cancel_recovery_inputs
inputs execute_recovery = execute_recovery_inputs
