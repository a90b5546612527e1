-- ===== src/Sdk/Client/Asking.antt =====
-- packages/sdk/src/client.ts: what the passkey is asked for by authorize.
use vera_key.Prelude.{
  ℕ, ◌≤◌, ◌≡◌, ◌⊎◌, inl, inr, refl, ◌∙◌, String, Bool, true, false, List, [], ◌∷◌, Option, none,
  some, arith,
}
use vera_key.Sdk.Bytes.{to_field_hex}
use vera_key.Sdk.Actions.{hash_action}
use vera_key.Sdk.Client.{
  done, Session, Ceremony, Client, M, ◌>>=◌, ◌>>◌, lift, return, emit, require_session,
  session_or_fail, cached, authenticating,
}
use vera_key.Sdk.Client.Outside.{Outside, Terms, Assertion, Proof}
use vera_key.Sdk.Client.Authorize.{
  Wish, Authorization, nullifier, nullifier_of, cached_or_computed, look_up, above_limit, action_of,
  sheet_required, sheet_offered, ceremony_of, check_sheet, check_length, confirm, signed_proof,
  prove_assertion, sign_action, authorize, remember, authorization_of,
}
use vera_key.Sdk.Client.Trace.{asked, bind-asks, bind-asks_first, bind-quiet}
use vera_key.Sdk.Client.Able.{HasTerms, IsAble, look_up-IsAble, look_up-quiet}

-- What a passkey is asked to sign: this very action of the player's account, which is within the fee limit
-- that the node tells of it and can pay the fee; in the browser's sheet if the account demands it.
pub record IsDue (o : Outside) (c : Client) (app_id : ℕ) (w : Wish) (secure : Bool)
    (ceremony : Ceremony) : Type 0 where
  pub session : Session
  pub unlocked : c.session ≡ some session
  pub id : ℕ
  pub player : (nullifier o app_id c).result ≡ done id
  pub account : String
  pub derived : o.account_address (to_field_hex app_id) (to_field_hex id) ≡ done account
  pub terms : Option Terms
  pub told : HasTerms o account terms
  pub within_limit : above_limit o.config.relayer_fee terms ≡ false
  pub balance : ℕ
  pub holds : o.balance account ≡ done balance
  pub pays_fee : o.config.relayer_fee ≤ balance
  pub in_sheet : sheet_required w terms ≡ true → sheet_offered o session w secure terms ≡ true
  pub same :
      ceremony
      ≡ ceremony_of o
          (hash_action o.viem (action_of o account w terms))
          w
          (sheet_offered o session w secure terms)

-- At most one ceremony, and one that is due.
abbrev pub AtMostDue : Outside → Client → ℕ → Wish → Bool → List Ceremony → Type 0
AtMostDue o c app_id w secure cs =
    (cs ≡ []) ⊎ ((x : Ceremony) × (cs ≡ x ∷ []) × IsDue o c app_id w secure x)

session_or_fail-done : (m : Option Session) (s : Session) → session_or_fail m ≡ done s → m ≡ some s
unfolding session_or_fail
session_or_fail-done none s h = cc
session_or_fail-done (some t) s h = ground (arith, h)

check_sheet-done :
    (required offered : Bool) (u : Unit {0})
    → check_sheet required offered ≡ done u
    → required ≡ true
    → offered ≡ true
unfolding check_sheet
check_sheet-done true true u h r = refl
check_sheet-done true false u h r = cc
check_sheet-done false offered u h r = cc

module _ (o : Outside) where
  cached-quiet :
      (app_id : ℕ) (s : Session) (v : Option ℕ) (c : Client)
      → asked (cached_or_computed o s app_id v c).events ≡ []
  unfolding asked
  cached-quiet app_id s (some v) c = refl
  cached-quiet app_id s none c =
      bind-quiet (lift (o.compute_nullifier s.public_key s.prf_secret app_id)) (remember app_id) c
        refl λ a d. refl

  pub nullifier-quiet : (app_id : ℕ) (c : Client) → asked (nullifier o app_id c).events ≡ []
  unfolding nullifier require_session asked
  nullifier-quiet app_id c =
      bind-quiet require_session (nullifier_of o app_id) c refl
        λ s d. cached-quiet app_id s (cached app_id d.nullifiers) d

  signed_proof-asked :
      (offered : Bool) (x : Ceremony) (app_id id : ℕ) (c : Client)
      → asked (signed_proof o offered x app_id id c).events ≡ x ∷ []
  unfolding asked
  signed_proof-asked offered x app_id id c =
      let prove : Assertion → M (Assertion × Proof) =
        λ a. prove_assertion o a app_id id >>= λ p. return (a, p) in
      bind-asks_first (confirm o offered x) (λ a. lift (check_length a) >> prove a) c
        λ a d.
          bind-quiet (lift (check_length a)) (λ _. prove a) d refl
            λ u e.
              bind-quiet (prove_assertion o a app_id id) (λ p. return (a, p)) e refl λ p g. refl

module _ (o : Outside) (c : Client) (app_id id : ℕ) (w : Wish) (secure : Bool) (session : Session)
    (account : String) (terms : Option Terms) (unlocked : c.session ≡ some session)
    (player : (nullifier o app_id c).result ≡ done id)
    (derived : o.account_address (to_field_hex app_id) (to_field_hex id) ≡ done account)
    (able : IsAble o account terms) where
  sign_action-AtMostDue :
      (d : Client)
      → AtMostDue o c app_id w secure
          (asked (sign_action o session app_id id account w secure terms d).events)
  unfolding sign_action asked
  sign_action-AtMostDue d =
      let P = AtMostDue o c app_id w secure in
      let hash = hash_action o.viem (action_of o account w terms) in
      let offered = sheet_offered o session w secure terms in
      let x = ceremony_of o hash w offered in
      let finish : Assertion × Proof → M Authorization =
        λ s. return (authorization_of o account hash id offered s) in
      let prove : M Authorization = signed_proof o offered x app_id id >>= finish in
      let sheet : M (Unit {0}) =
        emit authenticating >> lift (check_sheet (sheet_required w terms) offered) in
      bind-asks sheet (λ _. prove) d P refl (inl refl)
        λ v allowed. inr (
          x,
          bind-asks_first (signed_proof o offered x app_id id) finish d (λ s g. refl)
              ∙ signed_proof-asked o offered x app_id id d,
          record {
            session = session;
            unlocked = unlocked;
            id = id;
            player = player;
            account = account;
            derived = derived;
            terms = terms;
            told = able.told;
            within_limit = able.within_limit;
            balance = able.balance;
            holds = able.holds;
            pays_fee = able.pays_fee;
            in_sheet = check_sheet-done (sheet_required w terms) offered v allowed;
            same = refl;
          },
        )

-- authorize asks for at most one passkey ceremony, and only on an unlocked client, for the account
-- of the player's id, whose fee limit, which the node tells of a deployed account, allows the
-- relayer's fee, and whose balance covers it: it signs exactly this action of the account, and in
-- the browser's payment sheet if the account demands that for this payment.
pub authorize-AtMostDue :
    (o : Outside) (app_id : ℕ) (w : Wish) (secure : Bool) (c : Client)
    → AtMostDue o c app_id w secure (asked (authorize o app_id w secure c).events)
unfolding authorize require_session asked
authorize-AtMostDue o app_id w secure c =
    let P = AtMostDue o c app_id w secure in
    let sign : Session → ℕ → String → Option Terms → M Authorization =
      λ session id account terms. sign_action o session app_id id account w secure terms in
    let look : Session → ℕ → String → M Authorization =
      λ session id account. look_up o account >>= sign session id account in
    let derive : Session → ℕ → M Authorization = λ session id.
      lift (o.account_address (to_field_hex app_id) (to_field_hex id)) >>= look session id in
    bind-asks require_session (λ session. nullifier o app_id >>= derive session) c P refl (inl refl)
      λ session s.
        bind-asks (nullifier o app_id) (derive session) c P (nullifier-quiet o app_id c) (inl refl)
          λ id n.
            bind-asks (lift (o.account_address (to_field_hex app_id) (to_field_hex id)))
              (look session id) (nullifier o app_id c).client P refl (inl refl)
              λ account a.
                bind-asks (look_up o account) (sign session id account)
                  (nullifier o app_id c).client P (look_up-quiet o account _) (inl refl)
                  λ terms l.
                    sign_action-AtMostDue o c app_id id w secure session account terms
                      (session_or_fail-done c.session session s) n a
                      (look_up-IsAble o account _ terms l) _
