-- ===== src/Sdk/Client/Proofs.antt =====
-- packages/sdk/src/client.ts and signin.ts: proveSignIn, createDisclosure, and account addresses computed offline.
use vera_key.Prelude.{
  ℕ, ◌+◌, ◌/◌, String, List, [], ◌∷◌, Option, none, some, nat_beq, if◌then◌else◌,
}
use vera_key.Prelude.Text.{lower}
use vera_key.Sdk.Viem.{Viem}
use vera_key.Sdk.Bytes.{to_field_hex}
use vera_key.Sdk.Actions.{guardian_commitment}
use vera_key.Sdk.Verify.{Statement, sign_in_challenge, or_else}
use vera_key.Sdk.Disclosure.{LinkStatement, link_disclosure_challenge}
use vera_key.Sdk.Client.{
  device, policy, Result, done, Session, idle, authenticating, proving, signs, asks, M, ◌>>=◌, ◌>>◌,
  lift, return, does, emit, fail, require_session, answer_or_fail,
}
use vera_key.Sdk.Client.Outside.{Outside, Assertion, Proof, Proving}
use vera_key.Sdk.Client.Authorize.{nullifier, check_length, proof_or_fail}
use vera_key.Sdk.Client.Methods.{run}

-- `accountAddressOf(deployment, appId, nullifier)`
unfoldable pub account_address_of :
    Viem → (factory implementation config_hash : String) → (app_id nullifier : ℕ) → String
account_address_of v factory implementation config_hash app_id nullifier =
    let salt =
      v.keccak256 (v.concat (to_field_hex app_id ∷ to_field_hex nullifier ∷ config_hash ∷ [])) in
    let bytecode = v.concat (
      "0x3d602d80600a3d3981f3363d3d373d3d3d363d73" ∷ implementation
      ∷ "0x5af43d82803e903d91602b57fd5bf3" ∷ []) in
    v.create2 factory salt bytecode

-- SignInResult
pub record SignInResult : Type 0 where
  pub statement : Statement
  pub player_id : String
  pub account : String
  pub client_data : String
  pub proof : String
  pub public_inputs : List String

abbrev pub both_set : Option String → Option String → Result (String × String)
both_set (some implementation) (some config_hash) = done (implementation, config_hash)
both_set _ _ = fail device "This client cannot compute account addresses offline." none

-- A ceremony over a challenge, and its proof.
abbrev pub sign_and_prove :
    Outside → (challenge : String) → (Assertion → Proving) → M (Assertion × Proof)
sign_and_prove o challenge prove =
    emit authenticating
    >> does (asks (signs challenge))
    >> (lift (answer_or_fail (o.assertion (signs challenge))) >>= λ a.
        lift (check_length a)
        >> emit (proving o.now)
        >> (lift (proof_or_fail (prove a)) >>= λ p. emit idle >> return (a, p)))

abbrev pub sign_in_statement :
    Outside → (app_id id : ℕ) → (nonce origin : String) → (issued_at : ℕ) → Statement
sign_in_statement o app_id id nonce origin issued_at = record {
  chain_id = o.config.chain_id;
  factory = o.config.factory;
  origin = origin;
  app_id = to_field_hex app_id;
  nullifier = to_field_hex id;
  nonce = nonce;
  issued_at = issued_at;
  expires_at = issued_at + 300;
}

abbrev pub sign_in_result :
    Outside
    → (implementation config_hash : String) → (app_id id : ℕ) → Statement
    → Assertion × Proof
    → SignInResult
sign_in_result o implementation config_hash app_id id s (a, p) = record {
  statement = s;
  player_id = s.nullifier;
  account = account_address_of o.viem o.config.factory implementation config_hash app_id id;
  client_data = o.viem.bytes_to_hex a.client_data;
  proof = p.proof;
  public_inputs = p.public_inputs;
}

abbrev pub sign_in_for :
    Outside
    → (app_id : ℕ) → (nonce origin : String) → (now : Option ℕ) → String × String
    → M SignInResult
sign_in_for o app_id nonce origin now (implementation, config_hash) = nullifier o app_id >>= λ id.
    let s = sign_in_statement o app_id id nonce origin (or_else now (o.now / 1000)) in
    sign_and_prove o (sign_in_challenge o.viem s) (λ a. o.prove a app_id id) >>= λ signed.
    return (sign_in_result o implementation config_hash app_id id s signed)

unfoldable pub prove_sign_in :
    Outside → (app_id : ℕ) → (nonce origin : String) → (now : Option ℕ) → M SignInResult
unfolding run require_session nullifier sign_in_challenge answer_or_fail check_length proof_or_fail
    account_address_of
prove_sign_in o app_id nonce origin now = run (
    require_session >>= λ session.
    lift (both_set o.config.account_implementation o.config.config_hash)
    >>= sign_in_for o app_id nonce origin now)

pub record LinkRequest : Type 0 where
  pub app_id_a : ℕ
  pub app_id_b : ℕ
  -- as `trim` leaves it
  pub audience : String
  pub nonce : Option String
  pub ttl_seconds : Option ℕ

-- DisclosurePackage, without the labels
pub record LinkPackage : Type 0 where
  pub statement : LinkStatement
  pub origin : String
  pub client_data : String
  pub proof : String
  pub public_inputs : List String

unfoldable pub different_ids : (a b : ℕ) → Result (Unit {0})
different_ids a b = if nat_beq a b then fail policy "Choose two different apps." none else done tt

abbrev pub nonce_or_random : Outside → Option String → String
nonce_or_random o none = o.viem.bytes_to_hex o.random_challenge
nonce_or_random o (some nonce) = nonce

abbrev pub link_statement : Outside → LinkRequest → (id_a id_b : ℕ) → LinkStatement
link_statement o r id_a id_b = record {
  chain_id = o.config.chain_id;
  factory = o.config.factory;
  app_id_a = to_field_hex r.app_id_a;
  nullifier_a = to_field_hex id_a;
  app_id_b = to_field_hex r.app_id_b;
  nullifier_b = to_field_hex id_b;
  audience = r.audience;
  nonce = nonce_or_random o r.nonce;
  expires_at = o.now / 1000 + or_else r.ttl_seconds 86400;
}

abbrev pub link_package : Outside → LinkStatement → Assertion × Proof → LinkPackage
link_package o s (a, p) = record {
  statement = s;
  origin = o.origin_of a;
  client_data = o.viem.bytes_to_hex a.client_data;
  proof = p.proof;
  public_inputs = p.public_inputs;
}

unfoldable pub create_disclosure : Outside → LinkRequest → M LinkPackage
unfolding run require_session different_ids nullifier link_disclosure_challenge answer_or_fail
    check_length proof_or_fail
create_disclosure o r = run (
    require_session >>= λ session.
    lift (different_ids r.app_id_a r.app_id_b)
    >> (nullifier o r.app_id_a >>= λ id_a. nullifier o r.app_id_b >>= λ id_b.
        let s = link_statement o r id_a id_b in
        sign_and_prove o (link_disclosure_challenge o.viem s)
          (λ a. o.prove_link a r.app_id_a id_a r.app_id_b id_b)
        >>= λ signed. return (link_package o s signed)))

-- GuardianCard
pub record GuardianCard : Type 0 where
  pub chain_id : ℕ
  pub account : String
  pub guardian : String
  pub salt : String
  pub commitment : String

unfoldable pub guardian_salt : Viem → Session → (app_id : ℕ) → (guardian : String) → String
guardian_salt v s app_id guardian = v.keccak256 (
    v.concat (
      v.string_to_hex "VeraKey guardian salt v1"
      ∷ v.bytes_to_hex s.prf_secret
      ∷ to_field_hex app_id
      ∷ lower guardian
      ∷ []))

abbrev pub card_of : Outside → (app_id : ℕ) → (guardian account : String) → Session → GuardianCard
card_of o app_id guardian account s =
    let salt = guardian_salt o.viem s app_id guardian in
    record {
      chain_id = o.config.chain_id;
      account = account;
      guardian = guardian;
      salt = salt;
      commitment = guardian_commitment o.viem account guardian salt;
    }

unfoldable pub guardian_card : Outside → (app_id : ℕ) → (guardian : String) → M GuardianCard
unfolding nullifier require_session guardian_salt guardian_commitment
guardian_card o app_id guardian = nullifier o app_id >>= λ id.
    lift (o.account_address (to_field_hex app_id) (to_field_hex id)) >>= λ account.
    require_session >>= λ s. return (card_of o app_id guardian account s)
