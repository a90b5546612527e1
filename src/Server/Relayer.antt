-- ===== src/Server/Relayer.antt =====
-- server/relayer.ts: the class Relayer's state, its errors, and what a request finds outside: the
-- deployment's configuration, the node's answers, and viem's tests of texts.
use vera_key.Prelude.{ℕ, String, Bool, true, false, List, [], ◌∷◌, Option, none, some, ◌++◌}
use vera_key.Prelude.Text.{ℤ}
use vera_key.Server.RateLimit.{RateLimiter}
pub mod Abi
pub mod Arguments
pub mod Submit
pub mod Relay
pub mod Faucet
pub mod Accounts
pub mod Interleaving
mod Tests

-- What a handler throws: a RelayError, or any other exception, which the server answers with 500.
pub data Failure : Type 0 where
  refused : (status : ℕ) (message : String) (revert : Option String) → Failure
  crashed : Failure

pub data Outcome (A : Type 0) : Type 0 where
  ok : A → Outcome A
  failed : Failure → Outcome A

-- An argument of a contract call, after the relayer converted it.
pub data Value : Type 0 where
  int : ℤ → Value
  flag : Bool → Value
  hex : String → Value

pub record Call : Type 0 where
  pub address : String
  pub function_name : String
  pub args : List Value

-- An answer of the node through viem: a contract revert carries its error's name, if it is known.
pub data Node (A : Type 0) : Type 0 where
  answered : A → Node A
  reverted : Option String → Node A
  unreachable : Node A

pub record Config : Type 0 where
  pub account_implementation : String
  pub factory : String
  pub usdg : String
  pub fee : ℕ
  pub faucet_amount : ℕ
  pub mintable_usdg : Bool

-- What one request is answered by. `now` is the time at which its limits are applied.
pub record Context : Type 0 where
  pub config : Config
  pub open config use *
  pub is_address : String → Bool
  pub is_hex : String → Bool
  pub get_code : String → Node (Option String)
  pub factory_of : String → Node String
  pub is_frozen : String → Node Bool
  pub pending_change_ids : String → Node (List ℕ)
  pub policy : String → Node (ℕ × ℕ)
  pub account_address : String → String → Node String
  pub treasury : Node ℕ
  pub simulate : Call → Node (Unit {0})
  pub estimate_gas : Call → Node ℕ
  pub write : Call → Node String
  -- what the faucet's file holds after a write of it that throws; `none` if the write succeeds
  pub failed_write : Option (List String)
  pub now : ℕ

-- The fields of a Relayer, the faucet file's content, and the transactions that the node was given.
pub record Relayer : Type 0 where
  pub funded : List String
  pub granting : List String
  pub in_flight : List String
  pub unpaid_safety_actions : RateLimiter
  pub gas_per_day : RateLimiter
  pub faucet_file : List String
  pub sent : List Call

abbrev pub M : Type 0 → Type 0
M A = Relayer → Outcome A × Relayer

-- What was done before an exception stays done.
abbrev pub next : {A B : Type 0} → Outcome A × Relayer → (A → M B) → Outcome B × Relayer
next (ok a, s) f = f a s
next (failed e, s) f = (failed e, s)

infixl 5 ◌>>=◌ ◌>>◌
abbrev pub ◌>>=◌ : {A B : Type 0} → M A → (A → M B) → M B
◌>>=◌ m f s = next (m s) f

abbrev pub ◌>>◌ : {B : Type 0} → M (Unit {0}) → M B → M B
m >> k = m >>= λ _. k

abbrev pub return : {A : Type 0} → A → M A
return a s = (ok a, s)

abbrev pub throw : {A : Type 0} → Failure → M A
throw e s = (failed e, s)

abbrev pub lift : {A : Type 0} → Outcome A → M A
lift o s = (o, s)

abbrev pub refuse : {A : Type 0} → ℕ → String → M A
refuse status message = throw (refused status message none)

-- A read whose failure nothing catches.
abbrev pub read : {A : Type 0} → Node A → Outcome A
read (answered a) = ok a
read (reverted e) = failed crashed
read unreachable = failed crashed
