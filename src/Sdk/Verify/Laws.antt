-- ===== src/Sdk/Verify/Laws.antt =====
-- packages/sdk/src/signin.ts: what the verdict of verifySignIn says.
use vera_key.Prelude.{
  ℕ, ◌≡◌, ◌≢◌, ◌↔◌, inl, inr, refl, ap, ◌∙◌, String, Bool, true, false, List, [], ◌++◌, Option,
  none, some, arith, Bool-cases,
}
use vera_key.Sdk.Values.{Value}
use vera_key.Sdk.Connect.{message_field}
use vera_key.Sdk.Viem.{Viem, text_of}
use vera_key.Sdk.Verify.{
  Statement, Options, SignInCheck, run_checks, all_passed, well_formed, statement_of,
}
use vera_key.Sdk.Verify.Offline.{offline, inputs_of}
use vera_key.Sdk.Verify.Chain.{
  Node, check_chain, format_ok, finish, if_offline, checked, well_formed_checks, verify_sign_in,
}
use vera_key.Sdk.Verify.Meant.{
  run_checks-AllHold, AllHold-run_checks, IsMeant, offline-IsMeant, IsMeant-offline,
}
use vera_key.Sdk.Verify.Backed.{
  all_passed-◌++◌, IsBacked, check_chain-IsBacked, IsBacked-check_chain,
}

-- Everything that a valid verdict stands for.
pub record IsVerified (v : Viem) (n : Node) (o : Options) (clock : ℕ) (result : Value)
    : Type 0 where
  pub format : format_ok result ≡ true
  pub formed : well_formed v (message_field "statement" result) result ≡ some true
  pub meant : IsMeant v o clock (statement_of (message_field "statement" result)) result
  pub inputs : List String
  pub expected :
      inputs_of v o (statement_of (message_field "statement" result)) result ≡ some inputs
  pub backed :
      IsBacked n o
        (statement_of (message_field "statement" result))
        (text_of (message_field "account" result))
        (text_of (message_field "proof" result))
        inputs

finish_valid :
    (n : Node) (o : Options) (s : Statement) (account proof : String) (checks : List SignInCheck)
    (inputs : Option (List String))
    → (finish n o s account proof checks inputs).valid ≡ true
    → (is : List String) × (inputs ≡ some is)
      × (all_passed (check_chain n o s account proof is).checks ≡ true)
finish_valid n o s account proof checks none h = cc
finish_valid n o s account proof checks (some is) h = (
  is,
  refl,
  ground (arith, h, all_passed-◌++◌ checks (check_chain n o s account proof is).checks),
)

valid_finish :
    (n : Node) (o : Options) (s : Statement) (account proof : String) (checks : List SignInCheck)
    (inputs : Option (List String)) (is : List String)
    → all_passed checks ≡ true
    → inputs ≡ some is
    → all_passed (check_chain n o s account proof is).checks ≡ true
    → (finish n o s account proof checks inputs).valid ≡ true
valid_finish n o s account proof checks none is c e h = cc
valid_finish n o s account proof checks (some js) is c e h =
    let same : js ≡ is = ground (arith, e) in
    let passed = ap (λ x. all_passed (check_chain n o s account proof x).checks) same ∙ h in
    ground (arith, c, passed, all_passed-◌++◌ checks (check_chain n o s account proof js).checks)

module _ (v : Viem) (n : Node) (o : Options) (clock : ℕ) (s : Statement) (result : Value) where
  if_offline_valid :
      (checks : List SignInCheck) (b : Bool)
      → (if_offline v n o s result checks b).valid ≡ true
      → (b ≡ true)
        × ((is : List String) × (inputs_of v o s result ≡ some is)
            × (all_passed
                  (check_chain n o s
                    (text_of (message_field "account" result))
                    (text_of (message_field "proof" result))
                    is).checks
                ≡ true))
  if_offline_valid checks true h = (refl, finish_valid n o s _ _ checks (inputs_of v o s result) h)
  if_offline_valid checks false h = cc

  offline_called :
      (checks : List SignInCheck) (b : Bool)
      → (if_offline v n o s result checks b).calls ≢ []
      → b ≡ true
  offline_called checks true h = refl
  offline_called checks false h = absurd (h refl)

  checked_valid :
      (formed : Option Bool)
      → (checked v n o clock s result formed).valid ≡ true
      → (formed ≡ some true)
        × ((if_offline v n o s result
              (well_formed_checks ++ run_checks (offline v o clock s result))
              (all_passed (run_checks (offline v o clock s result)))).valid
            ≡ true)
  checked_valid none h = cc
  checked_valid (some true) h = (refl, h)
  checked_valid (some false) h = cc

  valid_if_offline :
      (checks : List SignInCheck) (b : Bool) (is : List String)
      → b ≡ true
      → all_passed checks ≡ true
      → inputs_of v o s result ≡ some is
      → all_passed
          (check_chain n o s
            (text_of (message_field "account" result))
            (text_of (message_field "proof" result))
            is).checks
        ≡ true
      → (if_offline v n o s result checks b).valid ≡ true
  valid_if_offline checks true is b c e h =
      valid_finish n o s _ _ checks (inputs_of v o s result) is c e h
  valid_if_offline checks false is b c e h = cc

  checked_called :
      (formed : Option Bool)
      → (checked v n o clock s result formed).calls ≢ []
      → (formed ≡ some true) × (all_passed (run_checks (offline v o clock s result)) ≡ true)
  checked_called none h = absurd (h refl)
  checked_called (some false) h = absurd (h refl)
  checked_called (some true) h = (
    refl,
    offline_called (well_formed_checks ++ run_checks (offline v o clock s result))
        (all_passed (run_checks (offline v o clock s result))) h,
  )

  valid_checked :
      (formed : Option Bool)
      → formed ≡ some true
      → (if_offline v n o s result
          (well_formed_checks ++ run_checks (offline v o clock s result))
          (all_passed (run_checks (offline v o clock s result)))).valid
        ≡ true
      → (checked v n o clock s result formed).valid ≡ true
  valid_checked none e h = cc
  valid_checked (some true) e h = h
  valid_checked (some false) e h = cc

module _ (v : Viem) (n : Node) (o : Options) (clock : ℕ) (result : Value) where
  pub valid-IsVerified :
      (verify_sign_in v n o clock result).valid ≡ true → IsVerified v n o clock result
  unfolding verify_sign_in
  valid-IsVerified h = elim (Bool-cases (format_ok result)) [
    | inl y ↦
        let s = statement_of (message_field "statement" result) in
        let h' : (checked v n o clock s result
              (well_formed v (message_field "statement" result) result)).valid
            ≡ true =
          ground (arith, h, y) in
        let (w, c) =
          checked_valid v n o clock s result
            (well_formed v (message_field "statement" result) result) h' in
        let (p, (is, e, b)) =
          if_offline_valid v n o clock s result
            (well_formed_checks ++ run_checks (offline v o clock s result))
            (all_passed (run_checks (offline v o clock s result))) c in
        record {
          format = y;
          formed = w;
          meant =
              offline-IsMeant v o clock s result
                (run_checks-AllHold (offline v o clock s result) p);
          inputs = is;
          expected = e;
          backed = check_chain-IsBacked n o s _ _ is b;
        }
    | inr f ↦ ground (arith, h, f)
  ]

  pub IsVerified-valid :
      IsVerified v n o clock result → (verify_sign_in v n o clock result).valid ≡ true
  unfolding verify_sign_in
  IsVerified-valid w =
      let s = statement_of (message_field "statement" result) in
      let p =
        AllHold-run_checks (offline v o clock s result)
          (IsMeant-offline v o clock s result w.meant) in
      let b = IsBacked-check_chain n o s _ _ w.inputs w.backed in
      let checks = run_checks (offline v o clock s result) in
      let c : all_passed (well_formed_checks ++ checks) ≡ true =
        ground (arith, p, all_passed-◌++◌ well_formed_checks checks) in
      let h =
        valid_checked v n o clock s result (well_formed v (message_field "statement" result) result)
          w.formed
          (valid_if_offline v n o clock s result (well_formed_checks ++ checks) (all_passed checks)
            w.inputs p c w.expected b) in
      simp w.format h

  -- verifySignIn's verdict is valid exactly if the result is well-formed; its statement is for
  -- this deployment, site and nonce, is current and short-lived, and was signed on VeraKey; the
  -- proof's inputs are that signature's; a verifier is configured and each one accepts the proof;
  -- and the factory derives the claimed account, which has no code or is owned by the player.
  pub verify_sign_in_iff :
      ((verify_sign_in v n o clock result).valid ≡ true) ↔ IsVerified v n o clock result
  verify_sign_in_iff = (valid-IsVerified, IsVerified-valid)

  -- verifySignIn calls the node or the prover only for a sign-in of the right format, whose fields
  -- are well-formed, and which passes all nine checks that need neither: a crafted one costs the
  -- site no call.
  pub calls-IsMeant :
      (verify_sign_in v n o clock result).calls ≢ []
      → (format_ok result ≡ true)
        × (well_formed v (message_field "statement" result) result ≡ some true)
        × IsMeant v o clock (statement_of (message_field "statement" result)) result
  unfolding verify_sign_in
  calls-IsMeant h =
      let s = statement_of (message_field "statement" result) in
      let formed = well_formed v (message_field "statement" result) result in
      elim (Bool-cases (format_ok result)) [
        | inl y ↦
            let (w, called) = checked_called v n o clock s result formed (simp y at h) in
            (
              y,
              w,
              offline-IsMeant v o clock s result
                  (run_checks-AllHold (offline v o clock s result) called),
            )
        | inr f ↦ absurd ((simp f at h) refl)
      ]
