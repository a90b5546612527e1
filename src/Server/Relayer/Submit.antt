-- ===== src/Server/Relayer/Submit.antt =====
-- server/relayer.ts: assertOurAccount, spendGas and submit.
pub mod Laws
use Prim.Native.String.{◌++◌ as append}
use vera_key.Prelude.{
  ℕ, ◌≡◌, String, Bool, true, false, not, ◌||◌, List, [], ◌∷◌, Option, none, some, ltb, ◌==◌,
  if◌then◌else◌, ◌++◌,
}
use vera_key.Prelude.Text.{lower, slice_from}
use vera_key.Server.RateLimit.{RateLimiter, take}
use vera_key.Server.Relayer.{
  Failure, refused, crashed, Outcome, ok, failed, Call, Node, answered, reverted, unreachable,
  Context, Relayer, M, next, ◌>>=◌, ◌>>◌, return, throw, lift, refuse, read,
}

abbrev pub max_gas : ℕ
max_gas = 2500000

-- `!code || code === "0x"`
unfoldable pub no_code : Option String → Bool
no_code none = true
no_code (some code) = code == "" || code == "0x"

unfoldable pub clone_code : String → String
clone_code implementation =
    append "0x363d3d373d3d3d363d73"
      (append (lower (slice_from 2 implementation)) "5af43d82803e903d91602b57fd5bf3")

unfoldable pub is_clone : String → Option String → Bool
is_clone implementation none = false
is_clone implementation (some code) = lower code == clone_code implementation

unfoldable pub check_factory : String → Node String → Outcome (Unit {0})
check_factory ours (answered factory) =
    if lower factory == lower ours
    then ok tt
    else failed (refused 400 "Account belongs to a different VeraKey deployment." none)
check_factory ours _ = failed (refused 400 "Not a VeraKey account." none)

unfoldable pub check_code : Context → String → Option String → Outcome (Unit {0})
check_code x account code =
    if no_code code
    then failed (refused 404 "Account is not deployed." none)
    else if is_clone x.account_implementation code
    then check_factory x.factory (x.factory_of account)
    else failed (refused 400 "Not a VeraKey account." none)

unfoldable pub assert_our_account : Context → String → Outcome (Unit {0})
assert_our_account x account = elim (read (x.get_code account)) [
  | ok code ↦ check_code x account code
  | failed e ↦ failed e
]

abbrev pub gas_spent : String
gas_spent =
    "The relayer has spent today's gas. Try again tomorrow: freezing and cancelling still go through."

unfoldable pub spend_gas : Context → ℕ → M (Unit {0})
spend_gas x gas s =
    let (budget, granted) = take s.gas_per_day "all" gas x.now in
    if granted
    then (ok tt, record s { gas_per_day = budget })
    else (failed (refused 429 gas_spent none), record s { gas_per_day = budget })

-- `revertNameOf` and the two branches on it: a name that is missing reads "Reverted".
abbrev pub revert_name : Option String → String
revert_name none = "Reverted"
revert_name (some name) = name

unfoldable pub node_failure : String → Node (Unit {0}) → Failure
node_failure message (reverted e) =
    if revert_name e == ""
    then refused 502 message none
    else refused 422 (append "Simulation reverted: " (revert_name e)) (some (revert_name e))
node_failure message _ = refused 502 message none

abbrev pub forget : {A : Type 0} → Node A → Node (Unit {0})
forget (answered a) = answered tt
forget (reverted e) = reverted e
forget unreachable = unreachable

abbrev pub or_refuse : {A : Type 0} → String → Node A → Outcome A
or_refuse message (answered a) = ok a
or_refuse message (reverted e) = failed (node_failure message (reverted e))
or_refuse message unreachable = failed (node_failure message unreachable)

-- The node was given the transaction, whatever it answers. A failure here is no RelayError.
unfoldable pub broadcast : Context → Call → M String
broadcast x call s = (read (x.write call), record s { sent = call ∷ s.sent })

abbrev pub not_simulated : String
not_simulated = "The RPC endpoint could not simulate the transaction."

abbrev pub not_estimated : String
not_estimated = "The RPC endpoint could not estimate the transaction's gas."

-- Both the simulation and the gas are known when `before_send` runs.
unfoldable pub submit : Context → Call → (ℕ → M (Unit {0})) → M String
unfolding broadcast node_failure
submit x call before_send = do
  lift (or_refuse not_simulated (x.simulate call))
  gas ← lift (or_refuse not_estimated (x.estimate_gas call))
  if ltb max_gas gas then refuse 422 "Transaction needs too much gas." else return tt
  before_send gas
  broadcast x call
