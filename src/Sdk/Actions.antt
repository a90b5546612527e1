-- ===== src/Sdk/Actions.antt =====
-- packages/sdk/src/action.ts and constants.ts: what a passkey authorizes, and the changes of an account's rules.
use vera_key.Prelude.{ℕ, String, Bool, List, [], ◌∷◌}
use vera_key.Sdk.Viem.{Viem, AbiValue, bytes32, address, bool, uint}

pub data ActionKind : Type 0 where
  pay schedule_change cancel_change cancel_recovery restrict : ActionKind

unfoldable pub action_code : ActionKind → ℕ
action_code pay = 1
action_code schedule_change = 2
action_code cancel_change = 3
action_code cancel_recovery = 4
action_code restrict = 5

pub data ChangeKind : Type 0 where
  add_owner remove_owner set_limits set_recipient set_allowlist set_guardian : ChangeKind
  set_new_payee_cap freeze unfreeze set_payment_sheet : ChangeKind

unfoldable pub change_code : ChangeKind → ℕ
change_code add_owner = 1
change_code remove_owner = 2
change_code set_limits = 3
change_code set_recipient = 4
change_code set_allowlist = 5
change_code set_guardian = 6
change_code set_new_payee_cap = 7
change_code freeze = 8
change_code unfreeze = 9
change_code set_payment_sheet = 10

abbrev pub action_typehash : String
action_typehash = "0x49b7518511223ff24d5bc31d137cf0f65784f0570d50aee38dc053784e2b514d"

abbrev pub guardian_typehash : String
guardian_typehash = "0xf33d4055d6c5cd8cf1e8584e7625a8e778a2e5abf8168ed8b7f88c28dbf6c8e8"

abbrev pub zero_hash : String
zero_hash = "0x0000000000000000000000000000000000000000000000000000000000000000"

abbrev pub zero_address : String
zero_address = "0x0000000000000000000000000000000000000000"

pub record Action : Type 0 where
  pub chain_id : ℕ
  pub account : String
  pub nonce : ℕ
  pub kind : ActionKind
  pub target : String
  pub amount : ℕ
  pub data_hash : String
  pub fee : ℕ
  pub deadline : ℕ

unfoldable pub action_values : Action → List AbiValue
unfolding action_code
action_values a =
    bytes32 action_typehash
    ∷ uint 256 a.chain_id
    ∷ address a.account
    ∷ uint 256 a.nonce
    ∷ uint 8 (action_code a.kind)
    ∷ address a.target
    ∷ uint 256 a.amount
    ∷ bytes32 a.data_hash
    ∷ uint 256 a.fee
    ∷ uint 64 a.deadline
    ∷ []

unfoldable pub encode_action : Viem → Action → String
unfolding action_values
encode_action v a = v.encode_abi (action_values a)

unfoldable pub hash_action : Viem → Action → String
unfolding encode_action
hash_action v a = v.keccak256 (encode_action v a)

unfoldable pub change_data_hash : Viem → ChangeKind → (payload : String) → String
unfolding change_code
change_data_hash v kind payload =
    v.keccak256 (v.concat (v.to_hex 1 (change_code kind) ∷ payload ∷ []))

-- A change of an account's rules, with its payload.
pub record Change : Type 0 where
  pub kind : ChangeKind
  pub payload : String

abbrev pub change : ChangeKind → String → Change
change kind payload = record { kind = kind; payload = payload }

-- `changePayload`
pub data ChangeRequest : Type 0 where
  add_owner : (nullifier : String) → ChangeRequest
  remove_owner : (nullifier : String) → ChangeRequest
  set_limits : (per_tx_cap daily_cap : ℕ) → ChangeRequest
  set_recipient : (recipient : String) (allowed : Bool) → ChangeRequest
  set_allowlist : (enabled : Bool) → ChangeRequest
  set_guardian : (commitment : String) → ChangeRequest
  set_new_payee_cap : (cap : ℕ) → ChangeRequest
  freeze : ChangeRequest
  unfreeze : ChangeRequest
  set_payment_sheet : (required : Bool) → ChangeRequest

unfoldable pub change_payload : Viem → ChangeRequest → Change
change_payload v (add_owner nullifier) = change ChangeKind.add_owner nullifier
change_payload v (remove_owner nullifier) = change ChangeKind.remove_owner nullifier
change_payload v (set_limits per_tx_cap daily_cap) =
    change ChangeKind.set_limits (v.encode_abi (uint 256 per_tx_cap ∷ uint 256 daily_cap ∷ []))
change_payload v (set_recipient recipient allowed) =
    change ChangeKind.set_recipient (v.encode_abi (address recipient ∷ bool allowed ∷ []))
change_payload v (set_allowlist enabled) =
    change ChangeKind.set_allowlist (v.encode_abi (bool enabled ∷ []))
change_payload v (set_guardian commitment) = change ChangeKind.set_guardian commitment
change_payload v (set_new_payee_cap cap) =
    change ChangeKind.set_new_payee_cap (v.encode_abi (uint 256 cap ∷ []))
change_payload v freeze = change ChangeKind.freeze "0x"
change_payload v unfreeze = change ChangeKind.unfreeze "0x"
change_payload v (set_payment_sheet required) =
    change ChangeKind.set_payment_sheet (v.encode_abi (bool required ∷ []))

unfoldable pub guardian_commitment : Viem → (account guardian salt : String) → String
guardian_commitment v account guardian salt = v.keccak256 (
    v.encode_abi
      (bytes32 guardian_typehash ∷ address account ∷ address guardian ∷ bytes32 salt ∷ []))
