-- ===== src/Sdk/Disclosure/Laws.antt =====
-- packages/sdk/src/disclosure.ts: what a valid verdict of verifyDisclosure says.
use vera_key.Prelude.{
  ℕ, ◌≡◌, inl, inr, refl, sym, ap, ◌∙◌, Bool, true, false, ◌&&◌, List, [], ◌∷◌, ◌++◌, Option, none,
  some, arith, Bool-cases,
}
use vera_key.Sdk.Values.{Value}
use vera_key.Sdk.Connect.{message_field}
use vera_key.Sdk.Viem.{Viem, text_of}
use vera_key.Sdk.Verify.{SignInCheck, Planned, all_passed}
use vera_key.Sdk.Verify.Chain.{made}
use vera_key.Sdk.Verify.Meant.{AllHold}
use vera_key.Sdk.Verify.Backed.{all_passed-◌++◌}
use vera_key.Sdk.Disclosure.{
  LinkStatement, LinkOptions, link_statement_of, link_well_formed, link_inputs,
}
use vera_key.Sdk.Disclosure.Checks.{
  collect, link_offline, DisclosedAccount, describe, not_disowned, LinkVerdict, link_judged,
  link_refused, with_accounts, if_collected, or_none, link_checks, link_checked, link_format,
  verify_disclosure,
}
use vera_key.Sdk.Disclosure.Consent.{
  IsConsented, IsProven, collect-AllHold, AllHold-◌++◌, offline-IsConsented, verifiers-IsProven,
}

-- Everything that a valid verdict stands for.
pub record IsDisclosed (v : Viem) (o : LinkOptions) (clock : ℕ) (pkg : Value)
    (verdict : LinkVerdict) : Type 0 where
  pub formed : link_well_formed v (message_field "statement" pkg) pkg ≡ some true
  pub consented : IsConsented v o clock (message_field "statement" pkg) pkg
  pub proven :
      IsProven o
        (text_of (message_field "proof" pkg))
        (or_none (link_inputs v o (message_field "statement" pkg) pkg))
  pub a : DisclosedAccount
  pub b : DisclosedAccount
  pub first :
      describe o
        (link_statement_of (message_field "statement" pkg)).app_id_a
        (link_statement_of (message_field "statement" pkg)).nullifier_a
      ≡ some a
  pub second :
      describe o
        (link_statement_of (message_field "statement" pkg)).app_id_b
        (link_statement_of (message_field "statement" pkg)).nullifier_b
      ≡ some b
  pub owned : (not_disowned a ≡ true) × (not_disowned b ≡ true)
  pub shown : verdict.accounts ≡ some (a, b)

-- A verdict with accounts, and the checks before it.
record AreShown (o : LinkOptions) (s : LinkStatement) (planned : List Planned)
    (verdict : LinkVerdict) : Type 0 where
  pub held : AllHold planned
  pub a : DisclosedAccount
  pub b : DisclosedAccount
  pub first : describe o s.app_id_a s.nullifier_a ≡ some a
  pub second : describe o s.app_id_b s.nullifier_b ≡ some b
  pub owned : (not_disowned a ≡ true) × (not_disowned b ≡ true)
  pub shown : verdict.accounts ≡ some (a, b)

module _ (o : LinkOptions) (s : LinkStatement) (planned : List Planned)
    (verdict : LinkVerdict) where
  accounts-AreShown :
      (checks : List SignInCheck) (a b : Option DisclosedAccount)
      → collect planned ≡ some checks
      → describe o s.app_id_a s.nullifier_a ≡ a
      → describe o s.app_id_b s.nullifier_b ≡ b
      → with_accounts (made "Format" true ∷ made "Well-formed fields" true ∷ checks) a b
        ≡ some verdict
      → verdict.valid ≡ true
      → AreShown o s planned verdict
  unfolding all_passed
  accounts-AreShown checks none b c e f h v = cc
  accounts-AreShown checks (some a) none c e f h v = cc
  accounts-AreShown checks (some a) (some b) c e f h v =
      let last =
        made "Accounts still owned by these nullifiers" (not_disowned a && not_disowned b) ∷ [] in
      let same : link_judged (made "Format" true ∷ made "Well-formed fields" true ∷ checks) a b
          ≡ verdict =
        ground (arith, h) in
      let all : all_passed (checks ++ last) ≡ true = ap (λ x. x.valid) same ∙ v in
      let both : (all_passed checks && all_passed last) ≡ true =
        sym (all_passed-◌++◌ checks last) ∙ all in
      record {
        held = collect-AllHold planned checks c (ground (arith, both));
        a = a;
        b = b;
        first = e;
        second = f;
        owned = (ground (arith, both), ground (arith, both));
        shown = ap (λ x. x.accounts) (sym same);
      }

  collected-AreShown :
      (checks : Option (List SignInCheck))
      → collect planned ≡ checks
      → if_collected o s checks ≡ some verdict
      → verdict.valid ≡ true
      → AreShown o s planned verdict
  collected-AreShown none c h v = cc
  collected-AreShown (some checks) c h v =
      accounts-AreShown checks (describe o s.app_id_a s.nullifier_a)
        (describe o s.app_id_b s.nullifier_b) c refl refl h v

refused-invalid :
    (checks : List SignInCheck) (verdict : LinkVerdict)
    → link_refused checks ≡ some verdict
    → verdict.valid ≡ true
    → ⊥
refused-invalid checks verdict h y =
    let made : LinkVerdict = record { valid = false; checks = checks; accounts = none } in
    let same : made ≡ verdict = ground (arith, h) in
    let wrong : Path Bool false true = ap (λ x. x.valid) same ∙ y in cc

module _ (v : Viem) (o : LinkOptions) (clock : ℕ) (pkg : Value) (verdict : LinkVerdict) where
  checked-IsDisclosed :
      (formed : Option Bool)
      → link_well_formed v (message_field "statement" pkg) pkg ≡ formed
      → link_checked v o clock (message_field "statement" pkg) pkg formed ≡ some verdict
      → verdict.valid ≡ true
      → IsDisclosed v o clock pkg verdict
  checked-IsDisclosed none e h y = cc
  checked-IsDisclosed (some false) e h y = absurd (refused-invalid _ verdict h y)
  checked-IsDisclosed (some true) e h y =
      let s = message_field "statement" pkg in
      let shown =
        collected-AreShown o (link_statement_of s) (link_checks v o clock s pkg) verdict
          (collect (link_checks v o clock s pkg)) refl h y in
      let (offline, verifiers) = AllHold-◌++◌ (link_offline v o clock s pkg) _ shown.held in
      record {
        formed = e;
        consented = offline-IsConsented v o clock s pkg offline;
        proven = verifiers-IsProven o _ _ verifiers;
        a = shown.a;
        b = shown.b;
        first = shown.first;
        second = shown.second;
        owned = shown.owned;
        shown = shown.shown;
      }

  -- A valid verdict of verifyDisclosure means: the statement is for this deployment and this
  -- audience, names two apps, carries the nonce if one was asked for, is current and short-lived,
  -- and was signed on VeraKey; the proof is about that signature, and every configured verifier,
  -- of which there is one, accepts it; and the two accounts shown are the factory's for the
  -- statement's ids, neither disowned.
  pub verify_disclosure-IsDisclosed :
      verify_disclosure v o clock pkg ≡ some verdict
      → verdict.valid ≡ true
      → IsDisclosed v o clock pkg verdict
  unfolding verify_disclosure
  verify_disclosure-IsDisclosed h y = elim (Bool-cases (link_format pkg)) [
    | inl f ↦
        checked-IsDisclosed (link_well_formed v (message_field "statement" pkg) pkg) refl
          (simp f at h) y
    | inr n ↦ absurd (refused-invalid _ verdict (simp n at h) y)
  ]
