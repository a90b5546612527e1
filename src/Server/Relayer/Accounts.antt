-- ===== src/Server/Relayer/Accounts.antt =====
-- server/relayer.ts: createAccount. `before_deploy` is the callback's answer, as in faucet.
pub mod Sending
use Prim.Native.String.{count}
use vera_key.Prelude.{
  ℕ, String, Bool, true, false, not, ◌&&◌, ◌||◌, [], ◌∷◌, Option, none, some, ltb, nat_beq,
  if◌then◌else◌,
}
use vera_key.Prelude.Text.{ℤ, pos, negsuc, big_int}
use vera_key.Server.Relayer.{
  refused, Outcome, ok, failed, hex, Call, Context, M, ◌>>=◌, ◌>>◌, return, lift, read,
}
use vera_key.Server.Relayer.Arguments.{Json, text}
use vera_key.Server.Relayer.Submit.{no_code, spend_gas, submit}

abbrev pub bn254_r : ℕ
bn254_r = 0x30644e72e131a029b85045b68181585d2833e84879b9709143e1f593f0000001

-- `BigInt(value) < BN254_R`; BigInt reads every text that is `0x` and hexadecimal digits.
abbrev pub below_modulus : Option ℤ → Bool
below_modulus (some (pos n)) = ltb n bn254_r
below_modulus (some (negsuc n)) = true
below_modulus none = false

unfoldable pub is_field_hex : Context → Json → Bool
is_field_hex x (text s) = x.is_hex s && nat_beq (count s) 66 && below_modulus (big_int s)
is_field_hex x _ = false

abbrev pub is_zero : Option ℤ → Bool
is_zero (some (pos n)) = nat_beq n 0
is_zero _ = false

abbrev pub not_field : {A : Type 0} → Outcome A
not_field = failed (refused 400 "appId and nullifier must be 32-byte BN254 field elements." none)

unfoldable pub check_ids : Context → Json → Json → Outcome (String × String)
unfolding is_field_hex
check_ids x (text app_id) (text nullifier) =
    if not (is_field_hex x (text app_id))
      || not (is_field_hex x (text nullifier))
      || is_zero (big_int nullifier)
    then not_field
    else ok (app_id, nullifier)
check_ids x _ _ = not_field

unfoldable pub deploy : Context → Outcome (Unit {0}) → ℕ → M (Unit {0})
unfolding spend_gas
deploy x before_deploy gas = lift before_deploy >> spend_gas x gas

abbrev pub create_call : Context → String × String → Call
create_call x (app_id, nullifier) = record {
  address = x.factory;
  function_name = "createAccount";
  args = hex app_id ∷ hex nullifier ∷ [];
}

-- The transaction's hash, none for an account that is there, and the account.
unfoldable pub create_account :
    Context → Outcome (Unit {0}) → Json → Json → M (Option String × String)
create_account x before_deploy app_id nullifier = do
  ids ← lift (check_ids x app_id nullifier)
  account ← lift (read (x.account_address ids.0 ids.1))
  code ← lift (read (x.get_code account))
  if no_code code
      then (do
        hash ← submit x (create_call x ids) (deploy x before_deploy)
        return (some hash, account))
      else return (none, account)
