-- ===== src/Sdk/Client/Authorize.antt =====
-- packages/sdk/src/client.ts: nullifier, canConfirmPayments and authorize.
use vera_key.Prelude.{
  ℕ, ◌+◌, ◌/◌, String, Bool, true, false, not, ◌&&◌, ◌||◌, ◌∷◌, Option, none, some, ◌==◌, nat_beq,
  ltb, if◌then◌else◌, length,
}
use vera_key.Prelude.Text.{lower, decimal}
use vera_key.Sdk.Bytes.{to_field_hex}
use vera_key.Sdk.Actions.{ActionKind, pay, Action, hash_action}
use vera_key.Sdk.Client.{
  funds, authentication, device, proof, policy, Result, done, failed, threw, Session, Ceremony,
  signs, confirms, asks, M, ◌>>=◌, ◌>>◌, lift, return, does, emit, fail, require_session,
  authenticating, proving, dom_exception, is_dismissal, describe_webauthn_error, Answer, given,
  refused, answer_or_fail, cached,
}
use vera_key.Sdk.Client.Outside.{
  Assertion, Terms, Proof, Proving, proven, generation_error, proving_error, Outside,
}

abbrev pub remember : (app_id value : ℕ) → M ℕ
remember app_id value c = return value (record c { nullifiers = (app_id, value) ∷ c.nullifiers })

abbrev pub cached_or_computed : Outside → Session → (app_id : ℕ) → Option ℕ → M ℕ
cached_or_computed o session app_id (some value) = return value
cached_or_computed o session app_id none =
    lift (o.compute_nullifier session.public_key session.prf_secret app_id) >>= remember app_id

abbrev pub nullifier_of : Outside → (app_id : ℕ) → Session → M ℕ
nullifier_of o app_id session c = cached_or_computed o session app_id (cached app_id c.nullifiers) c

-- `nullifier(appId)`, of the current session
unfoldable pub nullifier : Outside → (app_id : ℕ) → M ℕ
unfolding cached require_session
nullifier o app_id = require_session >>= nullifier_of o app_id

-- `code && code !== "0x"`
abbrev pub is_deployed : Option String → Bool
is_deployed none = false
is_deployed (some code) = not ((code == "") || (code == "0x"))

abbrev pub found_terms : Result Terms → Result (Option Terms)
found_terms (done t) = done (some t)
found_terms (failed e) = failed e
found_terms (threw m) = threw m

abbrev pub terms_if : Bool → Result Terms → Result (Option Terms)
terms_if deployed terms = if deployed then found_terms terms else done none

abbrev pub nonce_of : Option Terms → ℕ
nonce_of none = 0
nonce_of (some t) = t.nonce

-- `fees && fee > fees[1]`
abbrev pub above_limit : (fee : ℕ) → Option Terms → Bool
above_limit fee none = false
above_limit fee (some t) = ltb t.max_fee fee

abbrev pub max_fee_of : Option Terms → ℕ
max_fee_of none = 0
max_fee_of (some t) = t.max_fee

abbrev append : String → String → String
append = Prim.Native.String.◌++◌

unfoldable pub check_max_fee : Outside → Option Terms → Result (Unit {0})
check_max_fee o terms =
    if above_limit o.config.relayer_fee terms
    then fail policy
        (append "The relayer asks " (
          append (o.format_units o.config.relayer_fee) (
            append " USDG, above this account's "
              (append (o.format_units (max_fee_of terms)) " USDG fee limit."))))
        (some "FeeTooHigh")
    else done tt

unfoldable pub check_balance : Outside → (balance : ℕ) → Result (Unit {0})
check_balance o balance =
    if ltb balance o.config.relayer_fee
    then fail funds
        (append "The account holds " (
          append (o.format_units balance) (
            append " USDG and every action pays a "
              (append (o.format_units o.config.relayer_fee) " USDG relayer fee."))))
        none
    else done tt

-- What `authorize` is asked for.
pub record Wish : Type 0 where
  pub kind : ActionKind
  pub target : String
  pub amount : ℕ
  pub data_hash : String

abbrev pub is_pay : ActionKind → Bool
is_pay pay = true
is_pay _ = false

abbrev pub demands_sheet : Option Terms → Bool
demands_sheet none = false
demands_sheet (some t) = t.sheet_required

-- `sheetRequired`
abbrev pub sheet_required : Wish → Option Terms → Bool
sheet_required w terms = is_pay w.kind && demands_sheet terms

-- `canConfirmPayments(session)`
unfoldable pub can_confirm_payments : Outside → Session → Bool
can_confirm_payments o session =
    session.passkey.payment && o.config.has_instrument && o.sheet_available

-- `sheetAvailable`
abbrev pub sheet_offered : Outside → Session → Wish → (secure : Bool) → Option Terms → Bool
sheet_offered o session w secure terms =
    (secure || sheet_required w terms) && is_pay w.kind && can_confirm_payments o session

abbrev pub deadline_of : Outside → ℕ
deadline_of o = o.now / 1000 + 300

abbrev pub action_of : Outside → (account : String) → Wish → Option Terms → Action
action_of o account w terms = record {
  chain_id = o.config.chain_id;
  account = account;
  nonce = nonce_of terms;
  kind = w.kind;
  target = w.target;
  amount = w.amount;
  data_hash = w.data_hash;
  fee = o.config.relayer_fee;
  deadline = deadline_of o;
}

unfoldable pub check_sheet : (required offered : Bool) → Result (Unit {0})
check_sheet required offered =
    if required && not offered
    then fail policy
        "This account only pays through the browser's payment sheet, which this browser cannot show for this passkey."
        (some "PaymentSheetRequired")
    else done tt

abbrev pub ceremony_of : Outside → (challenge : String) → Wish → (offered : Bool) → Ceremony
ceremony_of o challenge w true =
    confirms challenge (lower w.target) (w.amount + o.config.relayer_fee)
ceremony_of o challenge w false = signs challenge

-- A sheet that is closed says that nothing was paid.
unfoldable pub sheet_or_fail : Answer Assertion → Result Assertion
unfolding describe_webauthn_error
sheet_or_fail (given a) = done a
sheet_or_fail (refused (dom_exception name message)) =
    if is_dismissal name
    then fail authentication "The payment sheet was closed or timed out. Nothing was paid." none
    else failed (describe_webauthn_error (dom_exception name message))
sheet_or_fail (refused e) = failed (describe_webauthn_error e)

abbrev pub assertion_or_fail : (offered : Bool) → Answer Assertion → Result Assertion
assertion_or_fail true a = sheet_or_fail a
assertion_or_fail false a = answer_or_fail a

abbrev pub confirm : Outside → (offered : Bool) → Ceremony → M Assertion
confirm o offered ceremony =
    does (asks ceremony) >> lift (assertion_or_fail offered (o.assertion ceremony))

unfoldable pub check_length : Assertion → Result (Unit {0})
unfolding decimal
check_length a =
    if nat_beq (length a.authenticator_data) 37
    then done tt
    else fail device
        (append "This authenticator returned " (
          append (decimal (length a.authenticator_data))
            " bytes of authenticator data; VeraKey needs 37."))
        none

unfoldable pub proof_or_fail : Proving → Result Proof
proof_or_fail (proven p) = done p
proof_or_fail (generation_error message) = fail proof message none
proof_or_fail proving_error = fail proof "Proof generation failed." none

pub record Authorization : Type 0 where
  pub account : String
  pub nullifier : String
  pub fee : ℕ
  pub deadline : ℕ
  pub action_hash : String
  pub client_data : String
  pub proof : String
  pub proving_ms : ℕ
  pub by_sheet : Bool

abbrev pub prove_assertion : Outside → Assertion → (app_id id : ℕ) → M Proof
prove_assertion o a app_id id = emit (proving o.now) >> lift (proof_or_fail (o.prove a app_id id))

abbrev pub signed_proof :
    Outside → (offered : Bool) → Ceremony → (app_id id : ℕ) → M (Assertion × Proof)
signed_proof o offered ceremony app_id id = confirm o offered ceremony >>= λ a.
    lift (check_length a) >> (prove_assertion o a app_id id >>= λ p. return (a, p))

abbrev pub authorization_of :
    Outside
    → (account hash : String) → (id : ℕ) → (offered : Bool) → Assertion × Proof
    → Authorization
authorization_of o account hash id offered (a, p) = record {
  account = account;
  nullifier = to_field_hex id;
  fee = o.config.relayer_fee;
  deadline = deadline_of o;
  action_hash = hash;
  client_data = o.viem.bytes_to_hex a.client_data;
  proof = p.proof;
  proving_ms = p.proving_ms;
  by_sheet = offered;
}

-- `authorize` from where it asks for the passkey.
unfoldable pub sign_action :
    Outside
    → Session
    → (app_id id : ℕ) → (account : String) → Wish
    → (secure : Bool) → Option Terms
    → M Authorization
unfolding check_sheet check_length proof_or_fail hash_action can_confirm_payments sheet_or_fail
    answer_or_fail
sign_action o session app_id id account w secure terms =
    let hash = hash_action o.viem (action_of o account w terms) in
    let offered = sheet_offered o session w secure terms in
    emit authenticating
    >> lift (check_sheet (sheet_required w terms) offered)
    >> (signed_proof o offered (ceremony_of o hash w offered) app_id id >>= λ signed.
        return (authorization_of o account hash id offered signed))

-- The node's answers about the account, and the checks that need no passkey.
unfoldable pub look_up : Outside → (account : String) → M (Option Terms)
unfolding check_max_fee check_balance
look_up o account = lift (o.get_code account) >>= λ code.
    lift (terms_if (is_deployed code) (o.terms account)) >>= λ terms.
    lift (check_max_fee o terms)
    >> (lift (o.balance account) >>= λ balance. lift (check_balance o balance) >> return terms)

unfoldable pub authorize : Outside → (app_id : ℕ) → Wish → (secure : Bool) → M Authorization
unfolding nullifier look_up sign_action
authorize o app_id w secure = require_session >>= λ session. nullifier o app_id >>= λ id.
    lift (o.account_address (to_field_hex app_id) (to_field_hex id)) >>= λ account.
    look_up o account >>= λ terms. sign_action o session app_id id account w secure terms
