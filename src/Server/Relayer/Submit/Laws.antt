-- ===== src/Server/Relayer/Submit/Laws.antt =====
-- server/relayer.ts, submit: what it needs before it charges a limit or sends, and assertOurAccount.
use vera_key.Prelude.{
  ℕ, ◌≤◌, ◌≡◌, ◌⊎◌, inl, inr, refl, String, Option, none, some, arith, ltb, Bool-cases, eq_iff,
}
use vera_key.Prelude.Text.{lower}
use vera_key.Server.Relayer.{
  Failure, refused, Outcome, ok, failed, Call, Node, answered, reverted, unreachable, Context,
  Relayer, M, next,
}
use vera_key.Server.Relayer.Submit.{
  max_gas, no_code, is_clone, clone_code, check_factory, check_code, assert_our_account,
  not_simulated, not_estimated, node_failure, broadcast, submit,
}

-- The call passed the node's simulation and needs `gas`, which is not too much.
pub record IsReady (x : Context) (call : Call) (gas : ℕ) : Type 0 where
  pub simulated : x.simulate call ≡ answered tt
  pub estimated : x.estimate_gas call ≡ answered gas
  pub bounded : gas ≤ max_gas

abbrev Cases : Context → Call → (ℕ → M (Unit {0})) → Relayer → Outcome String × Relayer → Type 0
Cases x call before_send s r =
    ((e : Failure) × (r ≡ (failed e, s)))
    ⊎ ((gas : ℕ) × IsReady x call gas × (r ≡ next (before_send gas s) (λ _. broadcast x call)))

module _ (x : Context) (call : Call) (before_send : ℕ → M (Unit {0})) (s : Relayer) where
  Cases-by_gas :
      x.simulate call ≡ answered tt
      → (g : Node ℕ) → x.estimate_gas call ≡ g
      → Cases x call before_send s (submit x call before_send s)
  unfolding submit
  Cases-by_gas d (answered gas) e = elim (Bool-cases (ltb max_gas gas)) [
    | inl over ↦ inl (refused 422 "Transaction needs too much gas." none, rw (d, e, over))
    | inr within ↦
        inr
          (gas, record { simulated = d; estimated = e; bounded = ground arith }, rw (d, e, within))
  ]
  Cases-by_gas d (reverted n) e = inl (node_failure not_estimated (reverted n), rw (d, e))
  Cases-by_gas d unreachable e = inl (node_failure not_estimated unreachable, rw (d, e))

  Cases-by_simulation :
      (d : Node (Unit {0}))
      → x.simulate call ≡ d
      → Cases x call before_send s (submit x call before_send s)
  unfolding submit
  Cases-by_simulation (answered u) d = Cases-by_gas d (x.estimate_gas call) refl
  Cases-by_simulation (reverted n) d = inl (node_failure not_simulated (reverted n), rw d)
  Cases-by_simulation unreachable d = inl (node_failure not_simulated unreachable, rw d)

-- `submit` fails and changes nothing, or the call is ready, its limits are applied, and then it is sent.
pub submit-Cases :
    (x : Context) (call : Call) (before_send : ℕ → M (Unit {0})) (s : Relayer)
    → Cases x call before_send s (submit x call before_send s)
submit-Cases x call before_send s = Cases-by_simulation x call before_send s (x.simulate call) refl

-- The account's code is the clone of this deployment's implementation, and this deployment's factory
-- initialized it.
pub record IsOurs (x : Context) (account : String) : Type 0 where
  pub code : String
  pub found : x.get_code account ≡ answered (some code)
  pub cloned : lower code ≡ clone_code x.account_implementation
  pub factory : String
  pub configured : x.factory_of account ≡ answered factory
  pub same_factory : lower factory ≡ lower x.factory

module _ (x : Context) (account : String) where
  check_factory-same :
      (ours : String) (n : Node String)
      → check_factory ours n ≡ ok tt
      → (factory : String) × (n ≡ answered factory) × (lower factory ≡ lower ours)
  unfolding check_factory
  check_factory-same ours (answered factory) h =
      (factory, refl, ground (arith, eq_iff (lower factory) (lower ours)))
  check_factory-same ours (reverted n) h = cc
  check_factory-same ours unreachable h = cc

  check_code-IsOurs :
      (code : Option String)
      → x.get_code account ≡ answered code
      → check_code x account code ≡ ok tt
      → IsOurs x account
  unfolding check_code no_code is_clone
  check_code-IsOurs none e h = cc
  check_code-IsOurs (some code) e h =
      let (factory, configured, same) =
        check_factory-same x.factory (x.factory_of account) (ground arith) in
      record {
        code = code;
        found = e;
        cloned = ground (arith, eq_iff (lower code) (clone_code x.account_implementation));
        factory = factory;
        configured = configured;
        same_factory = same;
      }

  IsOurs-by_code :
      (n : Node (Option String))
      → x.get_code account ≡ n
      → assert_our_account x account ≡ ok tt
      → IsOurs x account
  unfolding assert_our_account
  IsOurs-by_code (answered code) e h = check_code-IsOurs code e (rw (e, assert_our_account) at h)
  IsOurs-by_code (reverted n) e h = ground arith
  IsOurs-by_code unreachable e h = ground arith

-- An account that `assertOurAccount` lets pass is this deployment's.
pub assert_our_account-IsOurs :
    (x : Context) (account : String) → assert_our_account x account ≡ ok tt → IsOurs x account
assert_our_account-IsOurs x account h = IsOurs-by_code x account (x.get_code account) refl h
