-- ===== src/Sdk/Client/Examples.antt =====
-- packages/sdk/src/client.ts: a concrete browser, node and relayer.
use vera_key.Prelude.{ℕ, true, List, [], ◌∷◌, none, some}
use vera_key.Sdk.Passkeys.{PublicKey, StoredPasskey}
use vera_key.Sdk.Verify.Examples.{viem, bytes}
use vera_key.Sdk.Client.{done, given, refused, dom_exception, Client}
use vera_key.Sdk.Client.Outside.{Outside, Assertion, proven, relayed}

abbrev pub key : PublicKey
key = record { x = 1 ∷ []; y = 2 ∷ [] }

abbrev zeros : List ℕ
zeros = 0 ∷ 0 ∷ 0 ∷ 0 ∷ 0 ∷ []

abbrev append : List ℕ → List ℕ → List ℕ
append [] ys = ys
append (x ∷ xs) ys = x ∷ append xs ys

abbrev pub assertion : Assertion
assertion = record {
  credential_id = 1 ∷ 2 ∷ 3 ∷ [];
  authenticator_data = append bytes zeros;
  client_data = [];
  signature = [];
  prf_secret = 9 ∷ [];
}

-- The account demands the sheet for its payments.
abbrev pub outside : Outside
outside = record {
  viem = viem;
  config = record {
    rp_id = "vera.key";
    chain_id = 1;
    factory = "0xfa";
    usdg = "0xdd";
    account_implementation = some "0xaa";
    config_hash = some "0xcc";
    rp_id_hash = "0x33";
    relayer_fee = 2;
    app_ids = 5 ∷ [];
    has_instrument = true;
  };
  now = 1000;
  create_passkey = refused (dom_exception "AbortError" "aborted");
  assertion = λ c. given assertion;
  sheet_available = true;
  compute_nullifier = λ k s app. done 9;
  account_address = λ a n. done "0xac";
  get_code = λ a. done (some "0x60");
  terms = λ a. done (record { nonce = 3; sheet_required = true; max_fee = 2 });
  balance = λ a. done 100;
  format_units = λ n. "some";
  prove = λ a app id. proven (record { proof = "0x22"; public_inputs = []; proving_ms = 7 });
  create_account = λ a n. relayed (none, "0xac");
  relay = λ n account function args. relayed "0x77";
  receipt_status = λ hash. done "success";
  transaction = λ hash. done tt;
  change_scheduled = λ hash. some ("0x01", 99);
  restriction_made = λ hash. some "0x02";
  recover_keys = λ digest signature. key ∷ [];
  prove_link = λ a p q r s. proven (record { proof = "0x22"; public_inputs = []; proving_ms = 7 });
  random_challenge = bytes;
  origin_of = λ a. "https://vera.key";
}

abbrev pub passkey : StoredPasskey
passkey = record {
  credential_id = "AQID";
  x = "0x";
  y = "0x";
  label = "mine";
  created_at = 1;
  payment = true;
  prf_check = none;
}

abbrev pub client : Client
client = record {
  session = some (record { passkey = passkey; public_key = key; prf_secret = 9 ∷ [] });
  nullifiers = [];
  store = some (passkey ∷ []);
}
