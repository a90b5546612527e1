-- ===== src/Sdk/Disclosure/Checks.antt =====
-- packages/sdk/src/disclosure.ts: the checks of verifyDisclosure, and its verdict.
use vera_key.Prelude.{
  ℕ, ◌+◌, ◌/◌, String, Bool, true, false, not, ◌&&◌, List, [], ◌∷◌, ◌++◌, Option, none, some,
  nat_beq, leb, ltb, ◌==◌, if◌then◌else◌,
}
use vera_key.Prelude.Text.{lower}
use vera_key.Sdk.Values.{Value, text, undefined, equals_text}
use vera_key.Sdk.Connect.{is_one, message_field}
use vera_key.Sdk.Viem.{Viem, text_of, items_of}
use vera_key.Sdk.Verify.{SignInCheck, Planned, all_passed, or_else}
use vera_key.Sdk.Verify.Offline.{expected_inputs, signed_on, client_data_of}
use vera_key.Sdk.Verify.Chain.{made, or_false, has_code}
use vera_key.Sdk.Disclosure.{
  LinkStatement, LinkOptions, link_statement_of, link_well_formed, is_number, for_audience,
  expiry_of, passes, challenge_of, signed_statement, link_commits, link_commits_to, link_inputs,
}

abbrev pub add_check : SignInCheck → Option (List SignInCheck) → Option (List SignInCheck)
add_check c none = none
add_check c (some cs) = some (c ∷ cs)

-- The checks, unless one of them throws.
unfoldable pub collect : List Planned → Option (List SignInCheck)
collect [] = some []
collect ((name, none) ∷ planned) = none
collect ((name, some ok) ∷ planned) = add_check (made name ok) (collect planned)

abbrev pub nonce_check : Option String → (nonce : String) → List Planned
nonce_check none nonce = []
nonce_check (some asked) nonce =
    ("Carries the nonce you asked for", some (lower nonce == lower asked)) ∷ []

abbrev pub link_now : LinkOptions → (clock : ℕ) → ℕ
link_now o clock = or_else o.now (clock / 1000)

abbrev pub parsed_client_data : Viem → Value → Value
parsed_client_data v pkg = or_object (v.parse_json (client_data_of v pkg))
  where
    or_object : Option Value → Value
    or_object none = undefined
    or_object (some x) = x

abbrev pub for_factory : LinkOptions → (s : Value) → Bool
for_factory o s =
    is_number (message_field "chainId" s) o.chain_id
    && (lower (text_of (message_field "factory" s)) == lower o.factory)

abbrev pub different_apps : LinkStatement → Bool
different_apps s = not (lower s.app_id_a == lower s.app_id_b)

-- The checks that need no chain.
unfoldable pub link_offline : Viem → LinkOptions → (clock : ℕ) → (s pkg : Value) → List Planned
unfolding link_statement_of for_audience expiry_of challenge_of link_commits expected_inputs
link_offline v o clock s pkg =
    let now = link_now o clock in
    let parsed = parsed_client_data v pkg in
    ("This deployment", some (for_factory o s))
    ∷ ("Two different apps", some (different_apps (link_statement_of s)))
    ∷ ("Made for this audience", some (for_audience (message_field "audience" s) o.audience))
    ∷ (nonce_check o.nonce (link_statement_of s).nonce
        ++ (("Not expired", passes (λ e. ltb now e) (expiry_of o (message_field "expiresAt" s)))
            ∷ (
              "Short-lived",
              passes (λ e. leb e (or_else o.max_ttl_seconds 604800 + now))
                  (expiry_of o (message_field "expiresAt" s)),
            )
            ∷ ("Passkey signed this statement", signed_statement v parsed (challenge_of v o s))
            ∷ ("Signed on the VeraKey origin", some (signed_on o.origin parsed))
            ∷ (
              "Proof commits to this statement",
              link_commits_to o (items_of (message_field "publicInputs" pkg))
                  (link_inputs v o s pkg),
            )
            ∷ []))

-- The checks of the proof, for the verifiers that are configured.
abbrev pub configured :
    (link_verifier link_prover : Bool) → (on_chain locally : Bool) → List Planned
configured true true on_chain locally =
    ("Proof verifies on-chain (LinkHonkVerifier, eth_call)", some on_chain)
    ∷ ("Proof verifies locally (bb.js)", some locally)
    ∷ []
configured true false on_chain locally =
    ("Proof verifies on-chain (LinkHonkVerifier, eth_call)", some on_chain) ∷ []
configured false true on_chain locally = ("Proof verifies locally (bb.js)", some locally) ∷ []
configured false false on_chain locally = ("Proof verified", some false) ∷ []

unfoldable pub link_verifiers : LinkOptions → (proof : String) → List String → List Planned
link_verifiers o proof inputs =
    configured o.has_link_verifier o.has_link_prover (or_false (o.verifies proof inputs))
      (or_false (o.proves proof inputs))

pub record DisclosedAccount : Type 0 where
  pub app_id : String
  pub nullifier : String
  pub address : String
  pub deployed : Bool
  -- none while the account is not deployed
  pub owned : Option Bool

abbrev pub with_owner : (app_id nullifier address : String) → Option Bool → Option DisclosedAccount
with_owner app_id nullifier address none = none
with_owner app_id nullifier address (some owned) = some (record {
  app_id = app_id;
  nullifier = nullifier;
  address = address;
  deployed = true;
  owned = some owned;
})

abbrev pub describe_code :
    LinkOptions
    → (app_id nullifier address : String) → Option (Option String)
    → Option DisclosedAccount
describe_code o app_id nullifier address none = none
describe_code o app_id nullifier address (some code) =
    if has_code code
    then with_owner app_id nullifier address (o.is_owner address nullifier)
    else some (record {
      app_id = app_id;
      nullifier = nullifier;
      address = address;
      deployed = false;
      owned = none;
    })

abbrev pub describe_address :
    LinkOptions → (app_id nullifier : String) → Option String → Option DisclosedAccount
describe_address o app_id nullifier none = none
describe_address o app_id nullifier (some address) =
    describe_code o app_id nullifier address (o.code address)

unfoldable pub describe : LinkOptions → (app_id nullifier : String) → Option DisclosedAccount
describe o app_id nullifier =
    describe_address o app_id nullifier (o.account_address app_id nullifier)

-- `ownedByNullifier !== false`
abbrev pub not_disowned : DisclosedAccount → Bool
not_disowned a = elim a.owned [ none ↦ true | some b ↦ b ]

pub record LinkVerdict : Type 0 where
  pub valid : Bool
  pub checks : List SignInCheck
  pub accounts : Option (DisclosedAccount × DisclosedAccount)

abbrev pub link_refused : List SignInCheck → Option LinkVerdict
link_refused checks = some (record { valid = false; checks = checks; accounts = none })

abbrev pub link_judged : List SignInCheck → DisclosedAccount → DisclosedAccount → LinkVerdict
link_judged checks a b =
    let all =
      checks
      ++ (made "Accounts still owned by these nullifiers" (not_disowned a && not_disowned b)
          ∷ []) in
    record { valid = all_passed all; checks = all; accounts = some (a, b) }

abbrev pub with_accounts :
    List SignInCheck → Option DisclosedAccount → Option DisclosedAccount → Option LinkVerdict
with_accounts checks (some a) (some b) = some (link_judged checks a b)
with_accounts checks _ _ = none

abbrev pub if_collected :
    LinkOptions → LinkStatement → Option (List SignInCheck) → Option LinkVerdict
if_collected o s none = none
if_collected o s (some checks) =
    with_accounts (made "Format" true ∷ made "Well-formed fields" true ∷ checks)
      (describe o s.app_id_a s.nullifier_a) (describe o s.app_id_b s.nullifier_b)

abbrev pub or_none : Option (List String) → List String
or_none none = []
or_none (some inputs) = inputs

-- All checks up to the accounts; without expected inputs one of them throws.
abbrev pub link_checks : Viem → LinkOptions → (clock : ℕ) → (s pkg : Value) → List Planned
link_checks v o clock s pkg =
    link_offline v o clock s pkg
    ++ link_verifiers o (text_of (message_field "proof" pkg)) (or_none (link_inputs v o s pkg))

abbrev pub link_checked :
    Viem → LinkOptions → (clock : ℕ) → (s pkg : Value) → Option Bool → Option LinkVerdict
link_checked v o clock s pkg none = none
link_checked v o clock s pkg (some false) =
    link_refused (made "Format" true ∷ made "Well-formed fields" false ∷ [])
link_checked v o clock s pkg (some true) =
    if_collected o (link_statement_of s) (collect (link_checks v o clock s pkg))

-- `!!s`, for a value read of JSON; a number, a boolean or a text has no fields that are well-formed.
abbrev pub link_format : Value → Bool
link_format pkg =
    equals_text (message_field "kind" pkg) "verakey-link-disclosure"
    && is_one (message_field "version" pkg)
    && is_there (message_field "statement" pkg)
  where
    is_there : Value → Bool
    is_there undefined = false
    is_there Value.null = false
    is_there (text t) = not (t == "")
    is_there (Value.number n) = not (nat_beq n 0)
    is_there (Value.boolean b) = b
    is_there _ = true

-- `verifyDisclosure(pkg, options)`
unfoldable pub verify_disclosure :
    Viem → LinkOptions → (clock : ℕ) → (pkg : Value) → Option LinkVerdict
unfolding link_well_formed link_offline link_verifiers collect describe all_passed
verify_disclosure v o clock pkg =
    let s = message_field "statement" pkg in
    if link_format pkg
    then link_checked v o clock s pkg (link_well_formed v s pkg)
    else link_refused (made "Format" false ∷ [])
