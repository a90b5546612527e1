-- ===== src/Sdk/Client/Outside.antt =====
-- packages/sdk/src/client.ts: the configuration of a client, and what answers its calls.
use vera_key.Prelude.{ℕ, String, Bool, List, Option}
use vera_key.Sdk.Viem.{Viem}
use vera_key.Sdk.Passkeys.{PublicKey}
use vera_key.Sdk.Client.{Result, Answer, Ceremony, Argument}

pub record Config : Type 0 where
  pub rp_id : String
  pub chain_id : ℕ
  pub factory : String
  pub usdg : String
  pub account_implementation : Option String
  pub config_hash : Option String
  pub rp_id_hash : String
  pub relayer_fee : ℕ
  pub app_ids : List ℕ
  -- `paymentInstrument` is set
  pub has_instrument : Bool

-- PasskeyAssertion; the secret is there when it was asked for.
pub record Assertion : Type 0 where
  pub credential_id : List ℕ
  pub authenticator_data : List ℕ
  pub client_data : List ℕ
  pub signature : List ℕ
  pub prf_secret : List ℕ

-- A created passkey; the secret is there if the authenticator evaluated it.
pub record Created : Type 0 where
  pub credential_id : List ℕ
  pub public_key : PublicKey
  pub prf_secret : Option (List ℕ)
  pub payment : Bool

-- What a deployed account demands: its nonce, whether it pays only in the sheet, and its fee limit.
pub record Terms : Type 0 where
  pub nonce : ℕ
  pub sheet_required : Bool
  pub max_fee : ℕ

pub record Proof : Type 0 where
  pub proof : String
  pub public_inputs : List String
  pub proving_ms : ℕ

-- ProofGenerationError, or another error.
pub data Proving : Type 0 where
  proven : Proof → Proving
  generation_error : (message : String) → Proving
  proving_error : Proving

-- What the relayer answers: RelayerError, or another error.
pub data Relayed (A : Type 0) : Type 0 where
  relayed : A → Relayed A
  relayer_error : (status : ℕ) (message : String) (revert : Option String) → Relayed A
  relay_error : (message : String) → Relayed A

pub record Outside : Type 0 where
  pub viem : Viem
  pub config : Config
  -- in milliseconds
  pub now : ℕ
  pub create_passkey : Answer Created
  pub assertion : Ceremony → Answer Assertion
  -- spcAvailability() is "available"
  pub sheet_available : Bool
  pub compute_nullifier : PublicKey → (prf_secret : List ℕ) → (app_id : ℕ) → Result ℕ
  pub account_address : (app_id nullifier : String) → Result String
  pub get_code : String → Result (Option String)
  -- the account's nonce, protections and fees
  pub terms : String → Result Terms
  -- the token's balanceOf
  pub balance : String → Result ℕ
  pub format_units : ℕ → String
  -- the proof of an assertion, for an app id and a nullifier
  pub prove : Assertion → (app_id nullifier : ℕ) → Proving
  pub create_account : (app_id nullifier : String) → Relayed (Option String × String)
  -- the relayer's answer to the n-th try
  pub relay : (n : ℕ) → (account function : String) → List Argument → Relayed String
  -- the status of a transaction's receipt, once it has one
  pub receipt_status : String → Result String
  -- getTransaction, of a transaction with a receipt
  pub transaction : String → Result (Unit {0})
  -- The first ChangeScheduled event of a transaction: the change's id and its time.
  pub change_scheduled : String → Option (String × ℕ)
  -- The first Restricted event of a transaction: the restriction's id.
  pub restriction_made : String → Option String
  -- The public keys, two at most, that could have made a signature over a digest.
  pub recover_keys : (digest signature : List ℕ) → List PublicKey
  -- the link prover's proof of an assertion, for two app ids and nullifiers
  pub prove_link : Assertion → (app_id_a id_a app_id_b id_b : ℕ) → Proving
  pub random_challenge : List ℕ
  -- the origin that the browser wrote into an assertion's client data
  pub origin_of : Assertion → String
