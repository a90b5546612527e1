-- ===== src/Sdk/Client/Told.antt =====
-- packages/sdk/src/client.ts: the states that a payment, a change and a cancellation tell.
use vera_key.Prelude.{ℕ, String, Bool, false, List, ◌∷◌, arith}
use vera_key.Sdk.Actions.{ActionKind, Change}
use vera_key.Sdk.Client.{Result, Client, M, ◌>>=◌, lift, return, Argument, hex}
use vera_key.Sdk.Client.Outside.{Outside}
use vera_key.Sdk.Client.Authorize.{Wish, Authorization, authorize}
use vera_key.Sdk.Client.Methods.{
  submit, ensure_account, pay_wish, submit_pay, pay, change_wish, submit_change, schedule_change,
  restrict, plain_wish, cancel_change, cancel_recovery, authorization_args, run, tracked,
  restriction,
}
use vera_key.Sdk.Client.Trace.{told}
use vera_key.Sdk.Client.Statuses.{Climbs, Within, bind-Within, IsTold, run-IsTold}
use vera_key.Sdk.Client.Telling.{ensure_account-Within, authorize-Within, submit-Within}

module _ (o : Outside) where
  pay-IsTold :
      (app_id : ℕ) (to : String) (amount : ℕ) (secure : Bool) (c : Client)
      → IsTold (pay o app_id to amount secure c)
  unfolding pay told Climbs
  pay-IsTold app_id to amount secure =
      let authorized : String → M Authorization =
        λ account. authorize o app_id (pay_wish to amount) secure in
      run-IsTold
        (ensure_account o app_id >>= λ account. authorized account >>= submit_pay o to amount)
        (bind-Within 0 0 5 (ensure_account o app_id)
          (λ account. authorized account >>= submit_pay o to amount) (omega arith)
          (ensure_account-Within o app_id)
          λ account.
            bind-Within 0 2 5 (authorized account) (submit_pay o to amount) (omega arith)
              (authorize-Within o app_id (pay_wish to amount) secure)
              λ a. submit-Within o a.account "pay" _ a.proving_ms)

  submit_change-Within :
      (function : String) (change : Change) (a : Authorization)
      → Within 2 5 (submit_change o function change a)
  unfolding told Climbs
  submit_change-Within function change a =
      bind-Within 2 5 5 (submit o a.account function _ a.proving_ms) (λ hash. return (a, hash))
        (omega arith) (submit-Within o a.account function _ a.proving_ms) λ hash c. omega arith

  -- A change, from the account to what is read from its transaction.
  change-IsTold :
      {A : Type 0} (app_id : ℕ) (w : Wish) (function : String) (change : Change)
      (read : Authorization × String → Result A) (c : Client)
      → IsTold (
          run
            (ensure_account o app_id >>= λ account.
              authorize o app_id w false >>= submit_change o function change >>= λ s. lift (read s))
            c)
  unfolding told Climbs
  change-IsTold app_id w function change read =
      let sent : M (Authorization × String) =
        authorize o app_id w false >>= submit_change o function change in
      let found : Authorization × String → M _ = λ s. lift (read s) in
      run-IsTold (ensure_account o app_id >>= λ account. sent >>= found) (
        bind-Within 0 0 5 (ensure_account o app_id) (λ account. sent >>= found) (omega arith)
          (ensure_account-Within o app_id)
          λ account.
            bind-Within 0 5 5 sent found (omega arith)
              (bind-Within 0 2 5 (authorize o app_id w false) (submit_change o function change)
                (omega arith) (authorize-Within o app_id w false)
                λ a. submit_change-Within function change a)
              λ s c. omega arith)

  -- A cancellation, of an account that is there.
  cancel-IsTold :
      (app_id : ℕ) (w : Wish) (function : String) (args : Authorization → List Argument)
      (c : Client)
      → IsTold (
          run
            (authorize o app_id w false >>= λ a. submit o a.account function (args a) a.proving_ms)
            c)
  cancel-IsTold app_id w function args =
      run-IsTold
        (authorize o app_id w false >>= λ a. submit o a.account function (args a) a.proving_ms)
        (bind-Within 0 2 5 (authorize o app_id w false)
          (λ a. submit o a.account function (args a) a.proving_ms) (omega arith)
          (authorize-Within o app_id w false)
          λ a. submit-Within o a.account function (args a) a.proving_ms)

-- The states that a payment, a scheduled change, a restriction or a cancellation tells the page
-- only ever advance, from the passkey to the proof, the relayer and the chain. An error is told
-- last, as the rejection with its stage; without one nothing is rejected; and no other exception
-- leaves the method.
pub methods-IsTold :
    (o : Outside) (app_id : ℕ) (c : Client)
    → ((to : String) (amount : ℕ) (secure : Bool) → IsTold (pay o app_id to amount secure c))
      × ((change : Change)
          → IsTold (schedule_change o app_id change c) × IsTold (restrict o app_id change c))
      × ((id : String)
          → IsTold (cancel_change o app_id id c) × IsTold (cancel_recovery o app_id id c))
unfolding schedule_change restrict cancel_change cancel_recovery
methods-IsTold o app_id c = (
  λ to amount secure. pay-IsTold o app_id to amount secure c,
  λ change. (
    change-IsTold o app_id (change_wish o ActionKind.schedule_change change) "scheduleChange" change
        (λ (a, hash). tracked a change (o.change_scheduled hash)) c,
    change-IsTold o app_id (change_wish o ActionKind.restrict change) "restrict" change
        (λ (a, hash). restriction a (o.restriction_made hash)) c,
  ),
  λ id. (
    cancel-IsTold o app_id (plain_wish ActionKind.cancel_change id) "cancelChange"
        (λ a. hex id ∷ authorization_args a) c,
    cancel-IsTold o app_id (plain_wish ActionKind.cancel_recovery id) "cancelRecovery"
        authorization_args c,
  ),
)
