-- ===== src/Sdk/Client/Telling.antt =====
-- packages/sdk/src/client.ts: the states that the sending methods tell.
use vera_key.Prelude.{ℕ, String, Bool, List, Option, some, none, arith}
use vera_key.Sdk.Bytes.{to_field_hex}
use vera_key.Sdk.Actions.{hash_action}
use vera_key.Sdk.Client.{
  Session, M, ◌>>=◌, ◌>>◌, lift, return, does, emit, relays, require_session, cached,
  authenticating, relaying, confirming, verified, Argument, Ceremony,
}
use vera_key.Sdk.Client.Outside.{Outside, Assertion, Proof, Terms}
use vera_key.Sdk.Client.Authorize.{
  Wish, Authorization, nullifier, nullifier_of, cached_or_computed, remember, look_up, terms_if,
  is_deployed, check_max_fee, check_balance, action_of, sheet_required, sheet_offered, ceremony_of,
  check_sheet, check_length, confirm, signed_proof, prove_assertion, sign_action, authorize,
  authorization_of,
}
use vera_key.Sdk.Client.Methods.{
  relay_call, hash_or_fail, check_status, submit, uncaught, wait_and_return, wait_for,
  hash_or_empty, ensure_account,
}
use vera_key.Sdk.Client.Trace.{told}
use vera_key.Sdk.Client.Statuses.{rank, Climbs, Within, bind-Within}

module _ (o : Outside) where
  cached-Within :
      (app_id : ℕ) (s : Session) (v : Option ℕ) → Within 0 0 (cached_or_computed o s app_id v)
  unfolding told Climbs
  cached-Within app_id s (some v) = λ c. omega arith
  cached-Within app_id s none =
      bind-Within 0 0 0 (lift (o.compute_nullifier s.public_key s.prf_secret app_id))
        (remember app_id) (omega arith) (λ c. omega arith) λ a c. omega arith

  pub nullifier-Within : (app_id : ℕ) → Within 0 0 (nullifier o app_id)
  unfolding nullifier require_session told Climbs
  nullifier-Within app_id =
      bind-Within 0 0 0 require_session (nullifier_of o app_id) (omega arith) (λ c. omega arith)
        λ s c. cached-Within app_id s (cached app_id c.nullifiers) c

  look_up-Within : (account : String) → Within 0 0 (look_up o account)
  unfolding look_up told Climbs
  look_up-Within account =
      let pays : Option Terms → ℕ → M (Option Terms) =
        λ t b. lift (check_balance o b) >> return t in
      let funded : Option Terms → M (Option Terms) = λ t. lift (o.balance account) >>= pays t in
      let checked : Option Terms → M (Option Terms) = λ t. lift (check_max_fee o t) >> funded t in
      let terms : Option String → M (Option Terms) =
        λ code. lift (terms_if (is_deployed code) (o.terms account)) >>= checked in
      bind-Within 0 0 0 (lift (o.get_code account)) terms (omega arith) (λ c. omega arith)
        λ code.
          bind-Within 0 0 0 (lift (terms_if (is_deployed code) (o.terms account))) checked
            (omega arith) (λ c. omega arith)
            λ t.
              bind-Within 0 0 0 (lift (check_max_fee o t)) (λ _. funded t) (omega arith)
                (λ c. omega arith)
                λ u.
                  bind-Within 0 0 0 (lift (o.balance account)) (pays t) (omega arith)
                    (λ c. omega arith)
                    λ b.
                      bind-Within 0 0 0 (lift (check_balance o b)) (λ _. return t) (omega arith)
                        (λ c. omega arith) λ w c. omega arith

  signed_proof-Within :
      (offered : Bool) (x : Ceremony) (app_id id : ℕ)
      → Within 1 2 (signed_proof o offered x app_id id)
  unfolding told Climbs rank
  signed_proof-Within offered x app_id id =
      let pair : Assertion → Proof → M (Assertion × Proof) = λ a p. return (a, p) in
      let prove : Assertion → M (Assertion × Proof) =
        λ a. prove_assertion o a app_id id >>= pair a in
      bind-Within 1 1 2 (confirm o offered x) (λ a. lift (check_length a) >> prove a) (omega arith)
        (λ c. omega arith)
        λ a.
          bind-Within 1 1 2 (lift (check_length a)) (λ _. prove a) (omega arith) (λ c. omega arith)
            λ u.
              bind-Within 1 2 2 (prove_assertion o a app_id id) (pair a) (omega arith)
                (λ c. (omega arith, omega arith)) λ p c. omega arith

  sign_action-Within :
      (s : Session) (app_id id : ℕ) (account : String) (w : Wish) (secure : Bool)
      (terms : Option Terms)
      → Within 0 2 (sign_action o s app_id id account w secure terms)
  unfolding sign_action told Climbs rank
  sign_action-Within s app_id id account w secure terms =
      let hash = hash_action o.viem (action_of o account w terms) in
      let offered = sheet_offered o s w secure terms in
      let x = ceremony_of o hash w offered in
      let finish : Assertion × Proof → M Authorization =
        λ r. return (authorization_of o account hash id offered r) in
      let sheet : M (Unit {0}) =
        emit authenticating >> lift (check_sheet (sheet_required w terms) offered) in
      bind-Within 0 1 2 sheet (λ _. signed_proof o offered x app_id id >>= finish) (omega arith)
        (λ c. (omega arith, omega arith))
        λ u.
          bind-Within 1 2 2 (signed_proof o offered x app_id id) finish (omega arith)
            (signed_proof-Within offered x app_id id) λ r c. omega arith

  pub authorize-Within :
      (app_id : ℕ) (w : Wish) (secure : Bool) → Within 0 2 (authorize o app_id w secure)
  unfolding authorize require_session told Climbs
  authorize-Within app_id w secure =
      let sign : Session → ℕ → String → Option Terms → M Authorization =
        λ session id account terms. sign_action o session app_id id account w secure terms in
      let look : Session → ℕ → String → M Authorization =
        λ session id account. look_up o account >>= sign session id account in
      let derive : Session → ℕ → M Authorization = λ session id.
        lift (o.account_address (to_field_hex app_id) (to_field_hex id)) >>= look session id in
      bind-Within 0 0 2 require_session (λ s. nullifier o app_id >>= derive s) (omega arith)
        (λ c. omega arith)
        λ s.
          bind-Within 0 0 2 (nullifier o app_id) (derive s) (omega arith) (nullifier-Within app_id)
            λ id.
              bind-Within 0 0 2 (lift (o.account_address (to_field_hex app_id) (to_field_hex id)))
                (look s id) (omega arith) (λ c. omega arith)
                λ account.
                  bind-Within 0 0 2 (look_up o account) (sign s id account) (omega arith)
                    (look_up-Within account)
                    λ terms. sign_action-Within s app_id id account w secure terms

  pub submit-Within :
      (account function : String) (args : List Argument) (ms : ℕ)
      → Within 2 5 (submit o account function args ms)
  unfolding submit told Climbs rank require_session
  submit-Within account function args ms =
      let told_verified : String → M (Unit {0}) =
        λ hash. require_session >>= λ s. emit (verified ms hash) in
      let confirmed : String → String → M String = λ hash status.
        lift (check_status status)
        >> lift (o.transaction hash)
        >> told_verified hash
        >> return hash in
      let confirming_hash : String → M String =
        λ hash. emit (confirming ms hash) >> (lift (o.receipt_status hash) >>= confirmed hash) in
      let relaying_call : M (Unit {0}) =
        emit (relaying ms) >> does (relays account function args) in
      let accepted : String → String → M (Unit {0}) =
        λ hash status. lift (check_status status) >> lift (o.transaction hash) in
      bind-Within 2 3 5 relaying_call
        (λ _. lift (hash_or_fail (relay_call o account function args)) >>= confirming_hash)
        (omega arith) (λ c. (omega arith, omega arith))
        λ u.
          bind-Within 3 3 5 (lift (hash_or_fail (relay_call o account function args)))
            confirming_hash (omega arith) (λ c. omega arith)
            λ hash.
              bind-Within 3 4 5 (emit (confirming ms hash))
                (λ _. lift (o.receipt_status hash) >>= confirmed hash) (omega arith)
                (λ c. (omega arith, omega arith))
                λ v.
                  bind-Within 4 4 5 (lift (o.receipt_status hash)) (confirmed hash) (omega arith)
                    (λ c. omega arith)
                    λ status.
                      bind-Within 4 5 5 (accepted hash status >> told_verified hash)
                        (λ _. return hash) (omega arith)
                        (bind-Within 4 4 5 (accepted hash status) (λ _. told_verified hash)
                          (omega arith)
                          (bind-Within 4 4 4 (lift (check_status status))
                            (λ _. lift (o.transaction hash)) (omega arith) (λ c. omega arith)
                            λ w c. omega arith)
                          λ w.
                            bind-Within 4 4 5 require_session (λ s. emit (verified ms hash))
                              (omega arith) (λ c. omega arith) λ s c. (omega arith, omega arith))
                        λ w c. omega arith

  pub ensure_account-Within : (app_id : ℕ) → Within 0 0 (ensure_account o app_id)
  unfolding ensure_account told Climbs
  ensure_account-Within app_id =
      let create : ℕ → M String = λ id.
        lift (uncaught (o.create_account (to_field_hex app_id) (to_field_hex id)))
        >>= wait_and_return o in
      bind-Within 0 0 0 (nullifier o app_id) create (omega arith) (nullifier-Within app_id) λ id.
        bind-Within 0 0 0
          (lift (uncaught (o.create_account (to_field_hex app_id) (to_field_hex id))))
          (wait_and_return o) (omega arith) (λ c. omega arith)
          λ (hash, account).
            bind-Within 0 0 0 (lift (wait_for o hash (o.receipt_status (hash_or_empty hash))))
              (λ _. return account) (omega arith) (λ c. omega arith) λ u c. omega arith
