-- ===== src/Server/Relayer/Accounts/Sending.antt =====
-- server/relayer.ts, createAccount: what reaches the node.
use vera_key.Prelude.{
  ℕ, ◌≡◌, ◌⊎◌, inl, inr, refl, ap, ◌∙◌, String, true, ◌∷◌, Option, arith, Bool-cases,
}
use vera_key.Server.Relayer.{
  Outcome, ok, failed, Node, answered, reverted, unreachable, Call, Context, Relayer, next, return,
}
use vera_key.Server.Relayer.Arguments.{Json}
use vera_key.Server.Relayer.Submit.{no_code, broadcast, submit}
use vera_key.Server.Relayer.Submit.Laws.{IsReady, submit-Cases}
use vera_key.Server.Relayer.Accounts.{check_ids, deploy, create_call, create_account}

-- What reached the node of a request to create an account.
pub record IsCreated (x : Context) (app_id nullifier : Json) (s s' : Relayer) : Type 0 where
  pub ids : String × String
  pub checked : check_ids x app_id nullifier ≡ ok ids
  pub account : String
  pub address : x.account_address ids.0 ids.1 ≡ answered account
  pub code : Option String
  pub found : x.get_code account ≡ answered code
  pub free : no_code code ≡ true
  pub gas : ℕ
  pub ready : IsReady x (create_call x ids) gas
  pub sent : s'.sent ≡ create_call x ids ∷ s.sent

abbrev pub Creates : Context → (app_id nullifier : Json) → Relayer → Relayer → Type 0
Creates x app_id nullifier s s' = (s'.sent ≡ s.sent) ⊎ IsCreated x app_id nullifier s s'

sent-deploy :
    (x : Context) (call : Call) (b : Outcome (Unit {0})) (gas : ℕ) (s : Relayer)
    → ((next (deploy x b gas s) (λ _. broadcast x call)).1.sent ≡ s.sent)
      ⊎ ((next (deploy x b gas s) (λ _. broadcast x call)).1.sent ≡ call ∷ s.sent)
unfolding deploy broadcast
sent-deploy x call b gas s = ground arith

sent-return :
    {A B : Type 0} (r : Outcome A × Relayer) (f : A → B)
    → (next r (λ a. return (f a))).1.sent ≡ r.1.sent
sent-return (ok a, s) f = refl
sent-return (failed e, s) f = refl

module _ (x : Context) (b : Outcome (Unit {0})) (app_id nullifier : Json) (s : Relayer) where
  sent-submitting :
      (ids : String × String)
      → ((submit x (create_call x ids) (deploy x b) s).1.sent ≡ s.sent)
        ⊎ ((gas : ℕ) × IsReady x (create_call x ids) gas
            × ((submit x (create_call x ids) (deploy x b) s).1.sent ≡ create_call x ids ∷ s.sent))
  sent-submitting ids = elim (submit-Cases x (create_call x ids) (deploy x b) s) [
    | inl (e, same) ↦ inl (ap (λ r. r.1.sent) same)
    | inr (gas, ready, same) ↦ elim (sent-deploy x (create_call x ids) b gas s) [
      | inl none_sent ↦ inl (ap (λ r. r.1.sent) same ∙ none_sent)
      | inr one_sent ↦ inr (gas, ready, ap (λ r. r.1.sent) same ∙ one_sent)
    ]
  ]

  by_code :
      (ids : String × String) (account : String) (n : Node (Option String))
      → check_ids x app_id nullifier ≡ ok ids
      → x.account_address ids.0 ids.1 ≡ answered account
      → x.get_code account ≡ n
      → Creates x app_id nullifier s (create_account x b app_id nullifier s).1
  unfolding create_account
  by_code ids account (reverted e) c a g = inl (rw (c, a, g))
  by_code ids account unreachable c a g = inl (rw (c, a, g))
  by_code ids account (answered code) c a g = elim (Bool-cases (no_code code)) [
    | inr n ↦ inl (rw (c, a, g, n))
    | inl y ↦
        let through : (create_account x b app_id nullifier s).1.sent
            ≡ (submit x (create_call x ids) (deploy x b) s).1.sent =
          rw (c, a, g, y) (sent-return (submit x (create_call x ids) (deploy x b) s) _) in
        elim (sent-submitting ids) [
          | inl none_sent ↦ inl (through ∙ none_sent)
          | inr (gas, ready, one_sent) ↦ inr (record {
            ids = ids;
            checked = c;
            account = account;
            address = a;
            code = code;
            found = g;
            free = y;
            gas = gas;
            ready = ready;
            sent = through ∙ one_sent;
          })
        ]
  ]

  by_address :
      (ids : String × String) (n : Node String)
      → check_ids x app_id nullifier ≡ ok ids
      → x.account_address ids.0 ids.1 ≡ n
      → Creates x app_id nullifier s (create_account x b app_id nullifier s).1
  unfolding create_account
  by_address ids (answered account) c a = by_code ids account (x.get_code account) c a refl
  by_address ids (reverted e) c a = inl (rw (c, a))
  by_address ids unreachable c a = inl (rw (c, a))

  by_ids :
      (o : Outcome (String × String))
      → check_ids x app_id nullifier ≡ o
      → Creates x app_id nullifier s (create_account x b app_id nullifier s).1
  unfolding create_account
  by_ids (ok ids) c = by_address ids (x.account_address ids.0 ids.1) c refl
  by_ids (failed e) c = inl (rw c)

-- `createAccount` gives the node at most one transaction: the factory's call for two checked field
-- elements whose account is not deployed, after it passed the simulation with its gas small
-- enough.
pub sent-create_account :
    (x : Context) (b : Outcome (Unit {0})) (app_id nullifier : Json) (s : Relayer)
    → Creates x app_id nullifier s (create_account x b app_id nullifier s).1
sent-create_account x b app_id nullifier s =
    by_ids x b app_id nullifier s (check_ids x app_id nullifier) refl
