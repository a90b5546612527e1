-- ===== src/Sdk/Client/Honest.antt =====
-- packages/sdk/src/client.ts and signin.ts: the object that proveSignIn returns, before verifySignIn.
use vera_key.Prelude.{
  ℕ, ◌^◌, ◌≤◌, ◌<◌, ◌≡◌, refl, ap, ◌∙◌, String, Bool, true, List, [], ◌∷◌, some, arith, map, length,
  suc, nat_beq, nat_beq_iff, eq_iff, ◌&&◌, lt→ltb, le→leb, ◌==◌,
}
use vera_key.Sdk.Values.{
  Value, text, number, array, object, Items, empty, item, end, field, property, length16,
}
use vera_key.Sdk.Viem.{Viem, and_then, length_items}
use vera_key.Sdk.Bytes.{to_field_hex}
use vera_key.Sdk.Bytes.Fields.{big_int-to_field_hex, to_field_hex-readable, length16-to_field_hex}
use vera_key.Sdk.Verify.{Statement, well_formed, statement_of, bn254_r, is_field_text}
use vera_key.Sdk.Verify.Offline.{commits}
use vera_key.Sdk.Client.Proofs.{SignInResult}

-- The returned objects, as JSON carries them to the site.
abbrev pub statement_value : Statement → Value
statement_value s = object (
    field "chainId" (number s.chain_id) (
      field "factory" (text s.factory) (
        field "origin" (text s.origin) (
          field "appId" (text s.app_id) (
            field "nullifier" (text s.nullifier) (
              field "nonce" (text s.nonce) (
                field "issuedAt" (number s.issued_at)
                  (field "expiresAt" (number s.expires_at) end))))))))

abbrev pub texts : List String → Items
texts [] = empty
texts (t ∷ ts) = item (text t) (texts ts)

abbrev pub result_value : SignInResult → Value
result_value r = object (
    field "version" (number 1) (
      field "statement" (statement_value r.statement) (
        field "playerId" (text r.player_id) (
          field "account" (text r.account) (
            field "clientDataJSON" (text r.client_data) (
              field "proof" (text r.proof)
                (field "publicInputs" (array (texts r.public_inputs)) end)))))))

statement_of-statement_value : (s : Statement) → statement_of (statement_value s) ≡ s
unfolding statement_of property
statement_of-statement_value s = refl

module _ (v : Viem) (hex : (n : ℕ) → v.platform.is_hex (to_field_hex n) ≡ true) where
  pub commits_same :
      (ns : List ℕ) → commits v (texts (map to_field_hex ns)) (map to_field_hex ns) ≡ some true
  unfolding commits
  commits_same [] = refl
  commits_same (n ∷ ns) =
      let (m, e) = to_field_hex-readable n in
      simp (hex n) (simp e (simp ((nat_beq_iff m m).1 refl) (commits_same ns)))

  is_field_to_field_hex :
      (n : ℕ) → n < bn254_r → n < 16 ^ 64 → is_field_text v (to_field_hex n) ≡ true
  is_field_to_field_hex n r h =
      let e = (big_int-to_field_hex n h).0 in
      simp (hex n) (simp (length16-to_field_hex n) (simp e (lt→ltb n bn254_r r)))

-- What viem's functions are documented to do with field texts, the client data and contract addresses.
pub record IsDocumented (v : Viem) (client_data : List ℕ) : Type 0 where
  pub field_is_hex : (n : ℕ) → v.platform.is_hex (to_field_hex n) ≡ true
  pub data_is_hex : v.platform.is_hex (v.bytes_to_hex client_data) ≡ true
  pub data_again : v.hex_to_bytes (v.bytes_to_hex client_data) ≡ client_data
  pub contract_is_address :
      (sender salt bytecode : String)
      → v.platform.is_address (v.create2 sender salt bytecode) ≡ true

-- The request, the ids and the proof are of the forms that their types and sources give them.
pub record IsOrdinary (v : Viem) (s : Statement) (r : SignInResult) (app_id id : ℕ) : Type 0 where
  pub app_in_field : app_id < bn254_r
  pub app_in_hex : app_id < 16 ^ 64
  pub id_in_field : id < bn254_r
  pub id_in_hex : id < 16 ^ 64
  pub app : s.app_id ≡ to_field_hex app_id
  pub nullifier : s.nullifier ≡ to_field_hex id
  pub player : r.player_id ≡ s.nullifier
  pub nonce_is_hex : v.platform.is_hex s.nonce ≡ true
  pub nonce_length : length16 s.nonce ≡ 66
  pub factory : v.platform.is_address s.factory ≡ true
  pub account : v.platform.is_address r.account ≡ true
  pub chain_positive : 0 < s.chain_id
  pub chain_safe : s.chain_id < 2 ^ 53
  pub ordered : s.issued_at ≤ s.expires_at
  pub in_time : s.expires_at < 2 ^ 32
  pub inputs : List ℕ
  pub six : length inputs ≡ 6
  pub public_inputs : r.public_inputs ≡ map to_field_hex inputs
  pub client_data_is_hex : v.platform.is_hex r.client_data ≡ true
  pub proof_is_hex : v.platform.is_hex r.proof ≡ true

length_items-texts : (ns : List ℕ) → length_items (texts (map to_field_hex ns)) ≡ length ns
length_items-texts [] = refl
length_items-texts (n ∷ ns) = ap (λ k. suc k) (length_items-texts ns)

and_true : (a b : Bool) → a ≡ true → b ≡ true → (a && b) ≡ true
and_true a b p q = ground (arith, p, q)

and_then_all :
    (a b c d e : Bool)
    → a ≡ true
    → b ≡ true
    → c ≡ true
    → d ≡ true
    → e ≡ true
    → and_then (some a) (and_then (some b) (and_then (some c) (and_then (some d) (some e))))
      ≡ some true
and_then_all a b c d e p q r s t = simp p (simp q (simp r (simp s (ap some t))))

module _ (v : Viem) (client_data : List ℕ) (d : IsDocumented v client_data) where
  pub ordinary-well_formed :
      (r : SignInResult) (app_id id : ℕ)
      → IsOrdinary v r.statement r app_id id
      → well_formed v (statement_value r.statement) (result_value r) ≡ some true
  unfolding well_formed property
  ordinary-well_formed r app_id id h =
      let app =
        ap (is_field_text v) h.app
        ∙ is_field_to_field_hex v d.field_is_hex app_id h.app_in_field h.app_in_hex in
      let nullifier =
        ap (is_field_text v) h.nullifier
        ∙ is_field_to_field_hex v d.field_is_hex id h.id_in_field h.id_in_hex in
      let six : nat_beq (length_items (texts r.public_inputs)) 6 ≡ true =
        ap (λ ts. nat_beq (length_items (texts ts)) 6) h.public_inputs
        ∙ ap (λ k. nat_beq k 6) (length_items-texts h.inputs ∙ h.six) in
      let same : (r.player_id == r.statement.nullifier) ≡ true =
        (eq_iff r.player_id r.statement.nullifier).1 h.player in
      and_then_all _ _ _ _ _
        (and_true _ _ (and_true _ _ app nullifier)
          (and_true _ _ h.nonce_is_hex ((nat_beq_iff _ _).1 h.nonce_length)))
        h.factory
        (and_true _ _
          (and_true _ _
            (and_true _ _
              (and_true _ _
                (and_true _ _ refl
                  (and_true _ _ (lt→ltb _ _ h.chain_positive) (lt→ltb _ _ h.chain_safe)))
                (lt→ltb _ _ (omega (arith, h.ordered, h.in_time))))
              (lt→ltb _ _ h.in_time))
            (le→leb _ _ h.ordered))
          same)
        h.account (and_true _ _ (and_true _ _ six h.client_data_is_hex) h.proof_is_hex)
