-- ===== src/Sdk/Verify/Chain.antt =====
-- packages/sdk/src/signin.ts: verifySignIn from the chain's checks on, and the whole of it. The calls that it
-- makes are recorded, in order; what answers them is a parameter.
use vera_key.Prelude.{
  ℕ, String, Bool, true, false, not, ◌&&◌, ◌||◌, List, [], ◌∷◌, ◌++◌, Option, none, some, ◌==◌,
  if◌then◌else◌,
}
use vera_key.Prelude.Text.{lower}
use vera_key.Sdk.Values.{Value}
use vera_key.Sdk.Connect.{is_one, message_field}
use vera_key.Sdk.Viem.{Viem, text_of}
use vera_key.Sdk.Verify.{
  Statement, Options, SignInCheck, run_checks, all_passed, well_formed, statement_of, is_object,
}
use vera_key.Sdk.Verify.Offline.{offline, inputs_of}

-- Answers of the node and of the local prover; `none` is a failed call.
pub record Node : Type 0 where
  -- the verifier contract's `verify`, of a proof and its public inputs
  pub verifies : String → List String → Option Bool
  -- the factory's `accountAddress`, of an app id and a nullifier: never an empty text
  pub account_address : (app_id nullifier : String) → Option String
  -- `getCode`, where no code is `none` or "0x"
  pub code : String → Option (Option String)
  -- the account's `isOwner`, of a nullifier
  pub is_owner : (account nullifier : String) → Option Bool
  -- the prover's `verify`
  pub proves : String → List String → Option Bool

pub data Call : Type 0 where
  verify_on_chain : (proof : String) → List String → Call
  verify_locally : (proof : String) → List String → Call
  account_address : (app_id nullifier : String) → Call
  get_code : String → Call
  is_owner : (account nullifier : String) → Call

-- Checks that were made, and the calls made for them.
pub record Findings : Type 0 where
  pub checks : List SignInCheck
  pub calls : List Call

abbrev pub made : String → Bool → SignInCheck
made name ok = record { name = name; passed = ok }

abbrev pub found : List SignInCheck → List Call → Findings
found checks calls = record { checks = checks; calls = calls }

abbrev pub both : Findings → Findings → Findings
both f g = found (f.checks ++ g.checks) (f.calls ++ g.calls)

abbrev pub or_false : Option Bool → Bool
or_false none = false
or_false (some b) = b

abbrev pub nothing : Findings
nothing = found [] []

unfoldable pub check_on_chain : Node → (skip : Bool) → (proof : String) → List String → Findings
check_on_chain n true proof inputs = nothing
check_on_chain n false proof inputs =
    found
      (made "Proof verifies on-chain (HonkVerifier, eth_call)" (or_false (n.verifies proof inputs))
        ∷ [])
      (verify_on_chain proof inputs ∷ [])

unfoldable pub check_locally :
    Node → (has_prover : Bool) → (proof : String) → List String → Findings
check_locally n false proof inputs = nothing
check_locally n true proof inputs =
    found (made "Proof verifies locally (bb.js)" (or_false (n.proves proof inputs)) ∷ [])
      (verify_locally proof inputs ∷ [])

unfoldable pub check_verifiers : (skip has_prover : Bool) → Findings
check_verifiers skip has_prover =
    if skip && not has_prover then found (made "Proof verified" false ∷ []) [] else nothing

-- `code && code !== "0x"`
abbrev pub has_code : Option String → Bool
has_code none = false
has_code (some code) = not ((code == "") || (code == "0x"))

abbrev pub owned : Bool → List Call → Findings
owned ok calls = found (made "Player still owns the account" ok ∷ []) calls

abbrev pub check_deployed : Node → (nullifier account : String) → (deployed : Bool) → Findings
check_deployed n nullifier account true =
    owned (or_false (n.is_owner account nullifier))
      (get_code account ∷ is_owner account nullifier ∷ [])
check_deployed n nullifier account false = owned true (get_code account ∷ [])

abbrev pub check_code : Node → (nullifier account : String) → Option (Option String) → Findings
check_code n nullifier account none = owned false (get_code account ∷ [])
check_code n nullifier account (some code) = check_deployed n nullifier account (has_code code)

unfoldable pub check_owner : Node → (nullifier : String) → Option String → Findings
check_owner n nullifier none = owned false []
check_owner n nullifier (some account) = check_code n nullifier account (n.code account)

-- `account.toLowerCase() === result.account.toLowerCase()`
abbrev pub same_account : Option String → (claimed : String) → Bool
same_account none claimed = false
same_account (some account) claimed = lower account == lower claimed

unfoldable pub check_account : Node → Statement → (claimed : String) → Findings
check_account n s claimed =
    found
      (made "Account of this player" (same_account (n.account_address s.app_id s.nullifier) claimed)
        ∷ [])
      (account_address s.app_id s.nullifier ∷ [])

unfoldable pub check_chain :
    Node → Options → Statement → (claimed proof : String) → List String → Findings
unfolding check_on_chain check_locally check_verifiers check_account check_owner
check_chain n o s claimed proof inputs =
    both (check_on_chain n o.skip_on_chain_proof proof inputs) (
      both (check_locally n o.has_prover proof inputs) (
        both (check_verifiers o.skip_on_chain_proof o.has_prover) (
          both (check_account n s claimed)
            (check_owner n s.nullifier (n.account_address s.app_id s.nullifier)))))

pub record Verdict : Type 0 where
  pub valid : Bool
  pub checks : List SignInCheck
  pub player_id : Option String
  pub account : Option String
  pub calls : List Call

abbrev pub refused : List SignInCheck → Verdict
refused checks = record {
  valid = false;
  checks = checks;
  player_id = none;
  account = none;
  calls = [];
}

abbrev pub judged : (nullifier account : String) → List SignInCheck → List Call → Verdict
judged nullifier account checks calls = record {
  valid = all_passed checks;
  checks = checks;
  player_id = if all_passed checks then some nullifier else none;
  account = if all_passed checks then some account else none;
  calls = calls;
}

abbrev pub with_chain : Statement → (account : String) → List SignInCheck → Findings → Verdict
with_chain s account made f = judged s.nullifier account (made ++ f.checks) f.calls

abbrev pub finish :
    Node
    → Options
    → Statement
    → (account proof : String) → List SignInCheck
    → Option (List String)
    → Verdict
finish n o s account proof checks (some inputs) =
    with_chain s account checks (check_chain n o s account proof inputs)
finish n o s account proof checks none =
    refused (checks ++ (made "Checked without errors" false ∷ []))

abbrev pub if_offline :
    Viem → Node → Options → Statement → Value → List SignInCheck → Bool → Verdict
if_offline v n o s result checks true =
    finish n o s (text_of (message_field "account" result)) (text_of (message_field "proof" result))
      checks (inputs_of v o s result)
if_offline v n o s result checks false = refused checks

abbrev pub format_ok : Value → Bool
format_ok result =
    is_one (message_field "version" result) && is_object (message_field "statement" result)

abbrev pub well_formed_checks : List SignInCheck
well_formed_checks = made "Format" true ∷ made "Well-formed fields" true ∷ []

abbrev pub checked : Viem → Node → Options → (clock : ℕ) → Statement → Value → Option Bool → Verdict
checked v n o clock s result none =
    refused (made "Format" true ∷ made "Checked without errors" false ∷ [])
checked v n o clock s result (some false) =
    refused (made "Format" true ∷ made "Well-formed fields" false ∷ [])
checked v n o clock s result (some true) =
    let checks = run_checks (offline v o clock s result) in
    if_offline v n o s result (well_formed_checks ++ checks) (all_passed checks)

-- `verifySignIn(result, options)`
unfoldable pub verify_sign_in : Viem → Node → Options → (clock : ℕ) → Value → Verdict
unfolding well_formed statement_of offline run_checks all_passed check_chain
verify_sign_in v n o clock result =
    let s = message_field "statement" result in
    if format_ok result
    then checked v n o clock (statement_of s) result (well_formed v s result)
    else refused (made "Format" false ∷ [])
