-- ===== src/Sdk/Client/Methods.antt =====
-- packages/sdk/src/client.ts and relayer.ts: the methods that send a transaction through the relayer.
use vera_key.Prelude.{
  ℕ, zero, suc, String, Bool, true, false, List, [], ◌∷◌, ◌++◌, Option, none, some, ◌==◌, nat_beq,
  if◌then◌else◌,
}
use vera_key.Sdk.Bytes.{to_field_hex}
use vera_key.Sdk.Actions.{
  ActionKind, Change, change_code, change_data_hash, change_payload, ChangeRequest, zero_hash,
  zero_address,
}
use vera_key.Sdk.Client.{
  RejectionStage, policy, relay, VeraKeyError, Result, done, failed, threw, Run, M, ◌>>=◌, ◌>>◌,
  lift, return, does, emit, emits, relays, fail, verakey_error, require_session, relaying,
  confirming, verified, rejected, Argument, int, hex,
}
use vera_key.Sdk.Client.Outside.{Outside, Relayed, relayed, relayer_error, relay_error}
use vera_key.Sdk.Client.Authorize.{Wish, Authorization, authorize, nullifier}

abbrev pub busy_retries : ℕ
busy_retries = 10

abbrev pub is_busy : Relayed String → Bool
is_busy (relayer_error status message revert) = nat_beq status 409
is_busy _ = false

-- `relay` of the relayer's client: it asks again while the relayer answers that the account is busy.
unfoldable pub relay_again :
    (ℕ → Relayed String) → (retries n : ℕ) → Relayed String → Relayed String
relay_again post zero n answer = answer
relay_again post (suc retries) n answer =
    let next = relay_again post retries (suc n) (post (suc n)) in
    if is_busy answer then next else answer

unfoldable pub relay_call : Outside → (account function : String) → List Argument → Relayed String
unfolding relay_again
relay_call o account function args =
    let post : ℕ → Relayed String = λ n. o.relay n account function args in
    relay_again post busy_retries 0 (post 0)

unfoldable pub is_policy_revert : String → Bool
is_policy_revert name = is_among name (
    "PerTxCapExceeded" ∷ "DailyCapExceeded" ∷ "RecipientNotAllowed" ∷ "InvalidRecipient"
    ∷ "InvalidAmount" ∷ "NotOwner" ∷ "ChangeNotReady" ∷ "UnknownChange" ∷ "LastOwner"
    ∷ "AlreadyOwner" ∷ "RecoveryNotReady" ∷ "NoRecovery" ∷ "NewPayeeCapExceeded" ∷ "AccountFrozen"
    ∷ "NotRestrictive" ∷ "FeeTooHigh" ∷ "PaymentSheetRequired" ∷ "TooManyPendingChanges"
    ∷ "CannotVetoGuardianChange" ∷ "ChangeAlreadyPending" ∷ [])
  where
    is_among : String → List String → Bool
    is_among name [] = false
    is_among name (n ∷ ns) = if n == name then true else is_among name ns

-- `error.revert && POLICY_REVERTS.has(error.revert)`
abbrev pub stage_of : Option String → RejectionStage
stage_of none = relay
stage_of (some revert) = if is_policy_revert revert then policy else relay

unfoldable pub hash_or_fail : Relayed String → Result String
unfolding is_policy_revert
hash_or_fail (relayed hash) = done hash
hash_or_fail (relayer_error status message revert) = fail (stage_of revert) message revert
hash_or_fail (relay_error message) = fail relay "The relayer could not be reached." none

unfoldable pub check_status : (status : String) → Result (Unit {0})
check_status status =
    if status == "success" then done tt else fail relay "The transaction reverted on-chain." none

-- `submit`, which gives the transaction's hash.
unfoldable pub submit :
    Outside → (account function : String) → List Argument → (proving_ms : ℕ) → M String
unfolding relay_call hash_or_fail check_status require_session
submit o account function args proving_ms =
    emit (relaying proving_ms)
    >> does (relays account function args)
    >> (lift (hash_or_fail (relay_call o account function args)) >>= λ hash.
        emit (confirming proving_ms hash)
        >> (lift (o.receipt_status hash) >>= λ status.
            lift (check_status status)
            >> lift (o.transaction hash)
            >> (require_session >>= λ session. emit (verified proving_ms hash))
            >> return hash))

-- The relayer's error, or another, where nothing catches it.
abbrev pub uncaught : {A : Type 0} → Relayed A → Result A
uncaught (relayed a) = done a
uncaught (relayer_error status message revert) = threw message
uncaught (relay_error message) = threw message

abbrev pub wait_for : Outside → Option String → Result String → Result (Unit {0})
wait_for o none status = done tt
wait_for o (some hash) (done status) = done tt
wait_for o (some hash) (failed e) = failed e
wait_for o (some hash) (threw m) = threw m

abbrev pub hash_or_empty : Option String → String
hash_or_empty none = ""
hash_or_empty (some hash) = hash

abbrev pub wait_and_return : Outside → Option String × String → M String
wait_and_return o (hash, account) =
    lift (wait_for o hash (o.receipt_status (hash_or_empty hash))) >> return account

unfoldable pub ensure_account : Outside → (app_id : ℕ) → M String
ensure_account o app_id = nullifier o app_id >>= λ id.
    lift (uncaught (o.create_account (to_field_hex app_id) (to_field_hex id))) >>= wait_and_return o

abbrev pub error_of : String → VeraKeyError
error_of message = verakey_error relay message

abbrev pub reject : {A : Type 0} → Run A → VeraKeyError → Run A
reject r e = record {
  result = failed e;
  events = r.events ++ (emits (rejected e) ∷ []);
  client = r.client;
}

abbrev pub settle : {A : Type 0} → Run A → Result A → Run A
settle r (done a) = r
settle r (failed e) = reject r e
settle r (threw message) = reject r (error_of message)

-- `run(emit, job)`
unfoldable pub run : {A : Type 0} → M A → M A
run job c = settle (job c) (job c).result

-- What every call that a proof authorizes ends with.
abbrev pub authorization_args : Authorization → List Argument
authorization_args a =
    int a.fee ∷ int a.deadline ∷ hex a.nullifier ∷ hex a.client_data ∷ hex a.proof ∷ []

abbrev pub pay_wish : (to : String) → (amount : ℕ) → Wish
pay_wish to amount = record {
  kind = ActionKind.pay;
  target = to;
  amount = amount;
  data_hash = zero_hash;
}

abbrev pub submit_pay : Outside → (to : String) → (amount : ℕ) → Authorization → M String
submit_pay o to amount a =
    submit o a.account "pay" (hex to ∷ int amount ∷ authorization_args a) a.proving_ms

unfoldable pub pay :
    Outside → (app_id : ℕ) → (to : String) → (amount : ℕ) → (secure : Bool) → M String
unfolding run ensure_account authorize submit
pay o app_id to amount secure = run (
    ensure_account o app_id >>= λ account.
    authorize o app_id (pay_wish to amount) secure >>= submit_pay o to amount)

abbrev pub change_wish : Outside → ActionKind → Change → Wish
change_wish o kind change = record {
  kind = kind;
  target = zero_address;
  amount = 0;
  data_hash = change_data_hash o.viem change.kind change.payload;
}

abbrev pub submit_change :
    Outside → (function : String) → Change → Authorization → M (Authorization × String)
submit_change o function change a =
    submit o a.account function
      (int (change_code change.kind) ∷ hex change.payload ∷ authorization_args a) a.proving_ms
    >>= λ hash. return (a, hash)

pub record TrackedChange : Type 0 where
  pub account : String
  pub change_id : String
  pub change : Change
  pub eta : ℕ

abbrev pub tracked : Authorization → Change → Option (String × ℕ) → Result TrackedChange
tracked a change none = threw "Cannot read properties of undefined (reading 'args')"
tracked a change (some (id, eta)) =
    done (record { account = a.account; change_id = id; change = change; eta = eta })

abbrev pub track : Outside → Change → Authorization × String → M TrackedChange
track o change (a, hash) = lift (tracked a change (o.change_scheduled hash))

unfoldable pub schedule_change : Outside → (app_id : ℕ) → Change → M TrackedChange
unfolding run ensure_account authorize submit
schedule_change o app_id change = run (
    ensure_account o app_id >>= λ account.
    authorize o app_id (change_wish o ActionKind.schedule_change change) false
    >>= submit_change o "scheduleChange" change
    >>= track o change)

abbrev pub restriction : Authorization → Option String → Result (String × String)
restriction a none = threw "Cannot read properties of undefined (reading 'args')"
restriction a (some id) = done (a.account, id)

abbrev pub restriction_of : Outside → Authorization × String → M (String × String)
restriction_of o (a, hash) = lift (restriction a (o.restriction_made hash))

unfoldable pub restrict : Outside → (app_id : ℕ) → Change → M (String × String)
unfolding run ensure_account authorize submit
restrict o app_id change = run (
    ensure_account o app_id >>= λ account.
    authorize o app_id (change_wish o ActionKind.restrict change) false
    >>= submit_change o "restrict" change
    >>= restriction_of o)

unfoldable pub freeze : Outside → (app_id : ℕ) → M (String × String)
unfolding restrict change_payload
freeze o app_id = restrict o app_id (change_payload o.viem ChangeRequest.freeze)

abbrev pub plain_wish : ActionKind → (data_hash : String) → Wish
plain_wish kind data_hash = record {
  kind = kind;
  target = zero_address;
  amount = 0;
  data_hash = data_hash;
}

unfoldable pub cancel_change : Outside → (app_id : ℕ) → (change_id : String) → M String
unfolding run authorize submit
cancel_change o app_id change_id = run (
    authorize o app_id (plain_wish ActionKind.cancel_change change_id) false >>= λ a.
    submit o a.account "cancelChange" (hex change_id ∷ authorization_args a) a.proving_ms)

unfoldable pub cancel_recovery : Outside → (app_id : ℕ) → (pending : String) → M String
unfolding run authorize submit
cancel_recovery o app_id pending = run (
    authorize o app_id (plain_wish ActionKind.cancel_recovery pending) false >>= λ a.
    submit o a.account "cancelRecovery" (authorization_args a) a.proving_ms)

-- The relayer's error as the client's; another one is thrown as it is.
abbrev pub applied : Relayed String → Result String
applied (relayed hash) = done hash
applied (relayer_error status message revert) = fail (stage_of revert) message revert
applied (relay_error message) = threw message

unfoldable pub apply_change : Outside → (account : String) → TrackedChange → M String
unfolding relay_call
apply_change o account t =
    let args = hex t.change_id ∷ int (change_code t.change.kind) ∷ hex t.change.payload ∷ [] in
    does (relays account "applyChange" args)
    >> (lift (applied (relay_call o account "applyChange" args)) >>= λ hash.
        lift (o.receipt_status hash))

unfoldable pub execute_recovery : Outside → (account : String) → M String
unfolding relay_call
execute_recovery o account =
    does (relays account "executeRecovery" [])
    >> (lift (uncaught (relay_call o account "executeRecovery" [])) >>= λ hash.
        lift (o.receipt_status hash))
