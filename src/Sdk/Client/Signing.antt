-- ===== src/Sdk/Client/Signing.antt =====
-- packages/sdk/src/client.ts: proveSignIn on an unlocked client, when the passkey and the prover answer.
use vera_key.Prelude.{ℕ, ◌/◌, ◌≡◌, refl, ap, ◌∙◌, String, Option, some, length, nat_beq_iff}
use vera_key.Sdk.Verify.{or_else, sign_in_challenge}
use vera_key.Sdk.Client.{
  done, Session, signs, Client, M, ◌>>=◌, lift, given, require_session, answer_or_fail, return,
  bind_result, session_or_fail,
}
use vera_key.Sdk.Client.Outside.{Outside, Assertion, Proof, proven}
use vera_key.Sdk.Client.Authorize.{nullifier, check_length, proof_or_fail}
use vera_key.Sdk.Client.Methods.{run, settle}
use vera_key.Sdk.Client.Proofs.{
  SignInResult, sign_in_statement, sign_in_result, prove_sign_in, sign_and_prove, sign_in_for,
  both_set,
}

done_bind :
    {A B : Type 0} (m : M A) (f : A → M B) (c : Client) (a : A) (b : B)
    → (m c).result ≡ done a
    → (f a (m c).client).result ≡ done b
    → (◌>>=◌ m f c).result ≡ done b
done_bind m f c a b e h = ap (λ r. (bind_result r (m c).events (m c).client f).result) e ∙ h

done_run :
    {A : Type 0} (job : M A) (c : Client) (a : A)
    → (job c).result ≡ done a
    → (run job c).result ≡ done a
unfolding run
done_run job c a e = ap (λ r. (settle (job c) r).result) e ∙ e

-- The client is unlocked and configured, the passkey signs, and the prover proves it.
pub record IsSigned (o : Outside) (c : Client) (app_id id : ℕ) (nonce origin : String)
    (issued_at : ℕ) (implementation config_hash : String) (a : Assertion) (p : Proof) : Type 0 where
  pub session : Session
  pub unlocked : c.session ≡ some session
  pub has_implementation : o.config.account_implementation ≡ some implementation
  pub has_config_hash : o.config.config_hash ≡ some config_hash
  pub player : (nullifier o app_id c).result ≡ done id
  pub signature :
      o.assertion
        (signs (sign_in_challenge o.viem (sign_in_statement o app_id id nonce origin issued_at)))
      ≡ given a
  pub data_length : length a.authenticator_data ≡ 37
  pub proved : o.prove a app_id id ≡ proven p

sign_and_prove-done :
    (o : Outside) (c : Client) (app_id id : ℕ) (challenge : String) (a : Assertion) (p : Proof)
    → o.assertion (signs challenge) ≡ given a
    → length a.authenticator_data ≡ 37
    → o.prove a app_id id ≡ proven p
    → (sign_and_prove o challenge (λ x. o.prove x app_id id) c).result ≡ done (a, p)
unfolding answer_or_fail check_length proof_or_fail
sign_and_prove-done o c app_id id challenge a p s l q =
    simp s (simp ((nat_beq_iff (length a.authenticator_data) 37).1 l) (simp q refl))

-- What follows the nullifier.
abbrev named :
    Outside
    → (app_id : ℕ) → (nonce origin : String) → Option ℕ
    → (implementation config_hash : String) → (id : ℕ) → M SignInResult
named o app_id nonce origin now implementation config_hash id =
    let s = sign_in_statement o app_id id nonce origin (or_else now (o.now / 1000)) in
    sign_and_prove o (sign_in_challenge o.viem s) (λ a. o.prove a app_id id) >>= λ signed.
    return (sign_in_result o implementation config_hash app_id id s signed)

pub prove_sign_in-done :
    (o : Outside) (c : Client) (app_id id : ℕ) (nonce origin : String) (now : Option ℕ)
    (implementation config_hash : String) (a : Assertion) (p : Proof)
    → IsSigned o c app_id id nonce origin
        (or_else now (o.now / 1000))
        implementation
        config_hash
        a
        p
    → (prove_sign_in o app_id nonce origin now c).result
      ≡ done (
          sign_in_result o implementation config_hash app_id id
            (sign_in_statement o app_id id nonce origin (or_else now (o.now / 1000)))
            (a, p))
unfolding prove_sign_in require_session session_or_fail answer_or_fail check_length proof_or_fail
prove_sign_in-done o c app_id id nonce origin now implementation config_hash a p h =
    let s = sign_in_statement o app_id id nonce origin (or_else now (o.now / 1000)) in
    let both : both_set o.config.account_implementation o.config.config_hash
        ≡ done (implementation, config_hash) =
      simp h.has_implementation (simp h.has_config_hash refl) in
    let d = (nullifier o app_id c).client in
    let signed =
      sign_and_prove-done o d app_id id (sign_in_challenge o.viem s) a p h.signature h.data_length
        h.proved in
    let configured : Session → M SignInResult = λ session.
      lift (both_set o.config.account_implementation o.config.config_hash)
      >>= sign_in_for o app_id nonce origin now in
    done_run (require_session >>= configured) c _ (
      done_bind require_session configured c h.session _ (ap session_or_fail h.unlocked) (
        done_bind (lift (both_set o.config.account_implementation o.config.config_hash))
          (sign_in_for o app_id nonce origin now) c (implementation, config_hash) _ both
          (done_bind (nullifier o app_id)
            (named o app_id nonce origin now implementation config_hash) c id _ h.player
            (done_bind (sign_and_prove o (sign_in_challenge o.viem s) (λ x. o.prove x app_id id))
              (λ signed. return (sign_in_result o implementation config_hash app_id id s signed)) d
              (a, p) _ signed refl))))
