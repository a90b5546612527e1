-- ===== src/Sdk/Client/Accepted.antt =====
-- packages/sdk/src/client.ts and signin.ts: from proveSignIn on an unlocked client to verifySignIn on the site.
mod Tests
use vera_key.Prelude.{
  ℕ, ◌+◌, ◌/◌, ◌^◌, ◌≤◌, ◌<◌, ◌≡◌, refl, sym, ap, ◌∙◌, subst, String, true, List, [], ◌∷◌, Option,
  none, some, arith, map, length, nat_beq_iff,
}
use vera_key.Prelude.Text.{ℤ, pos, big_int, lower}
use vera_key.Sdk.Values.{Value, length16, property}
use vera_key.Sdk.Viem.{Viem}
use vera_key.Sdk.Bytes.{to_field_hex, limbs}
use vera_key.Sdk.Bytes.Fields.{big_int-to_field_hex}
use vera_key.Sdk.Payment.{natural}
use vera_key.Sdk.Connect.{message_field}
use vera_key.Sdk.Verify.{
  Options, bn254_r, or_else, normalize_origin, app_id_from_origin, sign_in_challenge, statement_of,
}
use vera_key.Sdk.Verify.Offline.{
  now_of, signed_this, signed_on, inputs_of, input_hexes, commits, commits_to, parsed_or_empty,
  client_data_of, expected_inputs,
}
use vera_key.Sdk.Verify.Meant.{IsMeant}
use vera_key.Sdk.Verify.Backed.{IsBacked}
use vera_key.Sdk.Verify.Laws.{IsVerified, IsVerified-valid}
use vera_key.Sdk.Verify.Chain.{Node, verify_sign_in}
use vera_key.Sdk.Client.{done, Client}
use vera_key.Sdk.Client.Outside.{Outside, Assertion, Proof}
use vera_key.Sdk.Client.Proofs.{
  SignInResult, sign_in_statement, sign_in_result, prove_sign_in, account_address_of,
}
use vera_key.Sdk.Client.Honest.{
  IsDocumented, IsOrdinary, ordinary-well_formed, commits_same, result_value, statement_value,
  texts,
}
use vera_key.Sdk.Client.Signing.{IsSigned, prove_sign_in-done}

-- The ids are field elements, the request's texts and numbers are in their types' ranges, the browser wrote
-- the challenge and VeraKey's origin into the client data, and the proof is about it and the ids.
pub record IsHonest (o : Outside) (site : Options) (app_id id : ℕ) (nonce origin : String)
    (issued_at : ℕ) (a : Assertion) (p : Proof) : Type 0 where
  pub app_in_field : app_id < bn254_r
  pub app_in_hex : app_id < 16 ^ 64
  pub id_in_field : id < bn254_r
  pub id_in_hex : id < 16 ^ 64
  pub nonce_is_hex : o.viem.platform.is_hex nonce ≡ true
  pub nonce_length : length16 nonce ≡ 66
  pub factory : o.viem.platform.is_address o.config.factory ≡ true
  pub chain_positive : 0 < o.config.chain_id
  pub chain_safe : o.config.chain_id < 2 ^ 53
  pub in_time : issued_at + 300 < 2 ^ 32
  pub parsed : Value
  pub parses : o.viem.parse_json a.client_data ≡ some parsed
  pub signed :
      signed_this o.viem parsed
        (sign_in_challenge o.viem (sign_in_statement o app_id id nonce origin issued_at))
      ≡ true
  pub on_vera_key : signed_on site.deployment.origin parsed ≡ true
  pub data_hi : ℕ
  pub data_lo : ℕ
  pub data_hash : limbs (o.viem.sha256 a.client_data) ≡ some (data_hi, data_lo)
  pub rp_hi : ℕ
  pub rp_lo : ℕ
  pub rp_hash : limbs (o.viem.hex_to_bytes site.deployment.rp_id_hash) ≡ some (rp_hi, rp_lo)
  pub public_inputs :
      p.public_inputs ≡ map to_field_hex (data_hi ∷ data_lo ∷ rp_hi ∷ rp_lo ∷ app_id ∷ id ∷ [])
  pub proof_is_hex : o.viem.platform.is_hex p.proof ≡ true

-- The site asked for this sign-in, and its clock is not far from the client's.
pub record IsAwaited (o : Outside) (site : Options) (clock app_id : ℕ) (nonce origin : String)
    (issued_at : ℕ) : Type 0 where
  pub chain_id : o.config.chain_id ≡ site.deployment.chain_id
  pub factory : lower o.config.factory ≡ lower site.deployment.factory
  pub same_origin : normalize_origin o.viem site.origin ≡ some origin
  pub app : app_id_from_origin o.viem origin ≡ some app_id
  pub same_nonce : lower nonce ≡ lower site.nonce
  pub not_late : now_of site clock < issued_at + 300 + or_else site.clock_skew_seconds 60
  pub not_early : issued_at ≤ now_of site clock + or_else site.clock_skew_seconds 60
  pub long_enough : 300 ≤ or_else site.max_ttl_seconds 300

natural-to_field_hex : (n : ℕ) → n < 16 ^ 64 → natural (big_int (to_field_hex n)) ≡ n
natural-to_field_hex n h = ap natural (big_int-to_field_hex n h).0

module _ (o : Outside) (n : Node) (site : Options) (clock app_id id : ℕ) (nonce origin : String)
    (issued_at : ℕ) (implementation config_hash : String) (a : Assertion) (p : Proof)
    (d : IsDocumented o.viem a.client_data)
    (h : IsHonest o site app_id id nonce origin issued_at a p) where
  abbrev made : SignInResult
  made =
      sign_in_result o implementation config_hash app_id id
        (sign_in_statement o app_id id nonce origin issued_at) (a, p)

  abbrev sent : Value
  sent = result_value made

  honest-IsOrdinary : IsOrdinary o.viem made.statement made app_id id
  unfolding account_address_of
  honest-IsOrdinary = record {
    app_in_field = h.app_in_field;
    app_in_hex = h.app_in_hex;
    id_in_field = h.id_in_field;
    id_in_hex = h.id_in_hex;
    app = refl;
    nullifier = refl;
    player = refl;
    nonce_is_hex = h.nonce_is_hex;
    nonce_length = h.nonce_length;
    factory = h.factory;
    account = d.contract_is_address _ _ _;
    chain_positive = h.chain_positive;
    chain_safe = h.chain_safe;
    ordered = omega arith;
    in_time = h.in_time;
    inputs = h.data_hi ∷ h.data_lo ∷ h.rp_hi ∷ h.rp_lo ∷ app_id ∷ id ∷ [];
    six = refl;
    public_inputs = h.public_inputs;
    client_data_is_hex = d.data_is_hex;
    proof_is_hex = h.proof_is_hex;
  }

  client_data_again : client_data_of o.viem sent ≡ a.client_data
  unfolding property
  client_data_again = d.data_again

  inputs_expected : inputs_of o.viem site made.statement sent ≡ some p.public_inputs
  unfolding expected_inputs
  inputs_expected = simp client_data_again (
      simp h.data_hash (
        simp h.rp_hash (
          simp (natural-to_field_hex app_id h.app_in_hex)
            (simp (natural-to_field_hex id h.id_in_hex) (ap some (sym h.public_inputs))))))

  parses_again : o.viem.parse_json (client_data_of o.viem sent) ≡ some h.parsed
  parses_again = ap o.viem.parse_json client_data_again ∙ h.parses

  honest-IsMeant :
      IsAwaited o site clock app_id nonce origin issued_at
      → IsMeant o.viem site clock made.statement sent
  unfolding property
  honest-IsMeant w = record {
    chain_id = w.chain_id;
    factory = w.factory;
    origin = w.same_origin;
    app = w.app ∙ ap some (sym (natural-to_field_hex app_id h.app_in_hex));
    nonce = w.same_nonce;
    current = w.not_late;
    short = omega (arith, w.not_early, w.long_enough);
    signed =
        ap (λ x. signed_this o.viem (parsed_or_empty x) (sign_in_challenge o.viem made.statement))
          parses_again
        ∙ h.signed;
    on_vera_key =
        ap (λ x. signed_on site.deployment.origin (parsed_or_empty x)) parses_again ∙ h.on_vera_key;
    commits =
        ap (λ x. commits_to o.viem (texts p.public_inputs) x) inputs_expected
        ∙ ap (λ is. commits o.viem (texts is) is) h.public_inputs
        ∙ commits_same o.viem d.field_is_hex
            (h.data_hi ∷ h.data_lo ∷ h.rp_hi ∷ h.rp_lo ∷ app_id ∷ id ∷ []);
  }

  honest-IsVerified :
      IsAwaited o site clock app_id nonce origin issued_at
      → IsBacked n site made.statement made.account p.proof p.public_inputs
      → IsVerified o.viem n site clock sent
  unfolding property statement_of
  honest-IsVerified w b = record {
    format = refl;
    formed = ordinary-well_formed o.viem a.client_data d made app_id id honest-IsOrdinary;
    meant = honest-IsMeant w;
    inputs = p.public_inputs;
    expected = inputs_expected;
    backed = b;
  }

-- On an unlocked and configured client, when the ids are field elements, the request and the
-- configuration are well-formed, the passkey signs the challenge on VeraKey, the prover proves
-- that signature for the ids, the site asked for this sign-in, its clock is near the client's, and
-- the chain backs the proof and the account, proveSignIn returns a result, and verifySignIn finds
-- it valid.
pub verify_sign_in-prove_sign_in :
    (o : Outside) (c : Client) (n : Node) (site : Options) (clock app_id id : ℕ)
    (nonce origin : String) (now : Option ℕ) (implementation config_hash : String) (a : Assertion)
    (p : Proof)
    → IsDocumented o.viem a.client_data
    → IsSigned o c app_id id nonce origin
        (or_else now (o.now / 1000))
        implementation
        config_hash
        a
        p
    → IsHonest o site app_id id nonce origin (or_else now (o.now / 1000)) a p
    → IsAwaited o site clock app_id nonce origin (or_else now (o.now / 1000))
    → IsBacked n site
        (sign_in_statement o app_id id nonce origin (or_else now (o.now / 1000)))
        (account_address_of o.viem o.config.factory implementation config_hash app_id id)
        p.proof
        p.public_inputs
    → (r : SignInResult) × ((prove_sign_in o app_id nonce origin now c).result ≡ done r)
      × ((verify_sign_in o.viem n site clock (result_value r)).valid ≡ true)
verify_sign_in-prove_sign_in o c n site clock app_id id nonce origin now implementation config_hash
      a p d g h w b =
    (
      _,
      prove_sign_in-done o c app_id id nonce origin now implementation config_hash a p g,
      IsVerified-valid o.viem n site clock _ (
          honest-IsVerified o n site clock app_id id nonce origin (or_else now (o.now / 1000))
            implementation config_hash a p d h w b),
    )
