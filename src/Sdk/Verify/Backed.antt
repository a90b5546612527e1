-- ===== src/Sdk/Verify/Backed.antt =====
-- packages/sdk/src/signin.ts: the checks of verifySignIn that ask the chain and the local prover.
use vera_key.Prelude.{
  ◌≡◌, ◌↔◌, inl, inr, refl, sym, ap, ◌∙◌, String, Bool, true, false, ◌&&◌, List, [], ◌∷◌, ◌++◌,
  Option, none, some, arith, eq_iff, Bool-cases,
}
use vera_key.Prelude.Text.{lower}
use vera_key.Sdk.Verify.{Statement, Options, SignInCheck, all_passed}
use vera_key.Sdk.Verify.Chain.{
  Node, or_false, has_code, same_account, check_on_chain, check_locally, check_verifiers,
  check_owner, check_account, check_chain, check_code,
}

pub all_passed-◌++◌ :
    (cs ds : List SignInCheck) → all_passed (cs ++ ds) ≡ all_passed cs && all_passed ds
unfolding all_passed
all_passed-◌++◌ [] ds = refl
all_passed-◌++◌ (c ∷ cs) ds = ground (arith, all_passed-◌++◌ cs ds)

and5 :
    (a b c d e : Bool)
    → (a && (b && (c && (d && e)))) ≡ true
    → (a ≡ true) × (b ≡ true) × (c ≡ true) × (d ≡ true) × (e ≡ true)
and5 a b c d e h =
    (ground (arith, h), ground (arith, h), ground (arith, h), ground (arith, h), ground (arith, h))

and5_true :
    (a b c d e : Bool)
    → a ≡ true
    → b ≡ true
    → c ≡ true
    → d ≡ true
    → e ≡ true
    → (a && (b && (c && (d && e)))) ≡ true
and5_true a b c d e p q r s t = ground arith

-- The chain and the verifiers confirm the proof, the account and its owner.
pub record IsBacked (n : Node) (o : Options) (s : Statement) (claimed proof : String)
    (inputs : List String) : Type 0 where
  pub on_chain : o.skip_on_chain_proof ≡ false → n.verifies proof inputs ≡ some true
  pub locally : o.has_prover ≡ true → n.proves proof inputs ≡ some true
  pub verified : o.skip_on_chain_proof ≡ true → o.has_prover ≡ true
  pub account : String
  pub derived : n.account_address s.app_id s.nullifier ≡ some account
  pub claims : lower account ≡ lower claimed
  pub code : Option String
  pub read : n.code account ≡ some code
  pub owner : has_code code ≡ true → n.is_owner account s.nullifier ≡ some true

or_false_iff : (b : Option Bool) → (or_false b ≡ true) ↔ (b ≡ some true)
or_false_iff none = ((λ h. cc), λ h. cc)
or_false_iff (some true) = ((λ h. refl), λ h. refl)
or_false_iff (some false) = ((λ h. cc), λ h. cc)

module _ (n : Node) (proof : String) (inputs : List String) where
  on_chain_passed :
      (skip : Bool)
      → (all_passed (check_on_chain n skip proof inputs).checks ≡ true)
        ↔ (skip ≡ false → n.verifies proof inputs ≡ some true)
  unfolding all_passed check_on_chain
  on_chain_passed true = ((λ h e. cc), λ h. refl)
  on_chain_passed false = (
    (λ h e. ground (arith, h, or_false_iff (n.verifies proof inputs))),
    λ h. ground (arith, h refl, or_false_iff (n.verifies proof inputs)),
  )

  locally_passed :
      (has : Bool)
      → (all_passed (check_locally n has proof inputs).checks ≡ true)
        ↔ (has ≡ true → n.proves proof inputs ≡ some true)
  unfolding all_passed check_locally
  locally_passed false = ((λ h e. cc), λ h. refl)
  locally_passed true = (
    (λ h e. ground (arith, h, or_false_iff (n.proves proof inputs))),
    λ h. ground (arith, h refl, or_false_iff (n.proves proof inputs)),
  )

verifiers_passed :
    (skip has : Bool)
    → (all_passed (check_verifiers skip has).checks ≡ true) ↔ (skip ≡ true → has ≡ true)
unfolding all_passed check_verifiers
verifiers_passed true true = ((λ h e. refl), λ h. refl)
verifiers_passed true false = ((λ h e. h), λ h. h refl)
verifiers_passed false true = ((λ h e. refl), λ h. refl)
verifiers_passed false false = ((λ h e. cc), λ h. refl)

-- The account that the factory derives, as claimed, and its code and owner.
record IsOwned (n : Node) (nullifier claimed : String) (derived : Option String) : Type 0 where
  pub account : String
  pub is_derived : derived ≡ some account
  pub claims : lower account ≡ lower claimed
  pub code : Option String
  pub read : n.code account ≡ some code
  pub owner : has_code code ≡ true → n.is_owner account nullifier ≡ some true

module _ (n : Node) (nullifier : String) where
  code_passed :
      (account : String) (code : Option (Option String))
      → all_passed (check_code n nullifier account code).checks ≡ true
      → (c : Option String) × (code ≡ some c)
        × (has_code c ≡ true → n.is_owner account nullifier ≡ some true)
  unfolding all_passed
  code_passed account none h = cc
  code_passed account (some c) h = (
    c,
    refl,
    λ e.
        let answer = rw e at h in
        ground (arith, answer, or_false_iff (n.is_owner account nullifier)),
  )

  passed_code :
      (account : String) (code : Option (Option String)) (c : Option String)
      → code ≡ some c
      → (has_code c ≡ true → n.is_owner account nullifier ≡ some true)
      → all_passed (check_code n nullifier account code).checks ≡ true
  unfolding all_passed
  passed_code account none c e h = cc
  passed_code account (some d) c e h =
      let same : d ≡ c = ground (arith, e) in
      elim (Bool-cases (has_code d)) [
        | inl y ↦
            let owner = h (ap has_code (sym same) ∙ y) in
            simp y (ground (arith, owner, or_false_iff (n.is_owner account nullifier)))
        | inr f ↦ simp f refl
      ]

  owner_passed :
      (claimed : String) (derived : Option String)
      → same_account derived claimed ≡ true
      → all_passed (check_owner n nullifier derived).checks ≡ true
      → IsOwned n nullifier claimed derived
  unfolding check_owner
  owner_passed claimed none a h = cc
  owner_passed claimed (some account) a h =
      let (c, r, w) = code_passed account (n.code account) h in
      record {
        account = account;
        is_derived = refl;
        claims = (eq_iff (lower account) (lower claimed)).0 a;
        code = c;
        read = r;
        owner = w;
      }

  passed_owner :
      (claimed : String) (derived : Option String) (account : String) (code : Option String)
      → derived ≡ some account
      → n.code account ≡ some code
      → (has_code code ≡ true → n.is_owner account nullifier ≡ some true)
      → all_passed (check_owner n nullifier derived).checks ≡ true
  unfolding check_owner
  passed_owner claimed none account code d r w = cc
  passed_owner claimed (some a) account code d r w =
      let same : a ≡ account = ground (arith, d) in
      passed_code a (n.code a) code (ap n.code same ∙ r)
        (λ e. ap (λ x. n.is_owner x nullifier) same ∙ w e)

module _ (n : Node) (o : Options) (s : Statement) (claimed proof : String)
    (inputs : List String) where
  all_passed-check_chain : all_passed (check_chain n o s claimed proof inputs).checks ≡ (
      all_passed (check_on_chain n o.skip_on_chain_proof proof inputs).checks
      && (all_passed (check_locally n o.has_prover proof inputs).checks
          && (all_passed (check_verifiers o.skip_on_chain_proof o.has_prover).checks
              && (same_account (n.account_address s.app_id s.nullifier) claimed
                  && all_passed
                      (check_owner n s.nullifier
                        (n.account_address s.app_id s.nullifier)).checks))))
  unfolding check_chain check_account all_passed
  all_passed-check_chain =
      let a = (check_on_chain n o.skip_on_chain_proof proof inputs).checks in
      let b = (check_locally n o.has_prover proof inputs).checks in
      let c = (check_verifiers o.skip_on_chain_proof o.has_prover).checks in
      rw (all_passed-◌++◌ a _, all_passed-◌++◌ b _, all_passed-◌++◌ c _) refl

  pub check_chain-IsBacked :
      all_passed (check_chain n o s claimed proof inputs).checks ≡ true
      → IsBacked n o s claimed proof inputs
  check_chain-IsBacked h =
      let (a, b, c, d, e) = and5 _ _ _ _ _ (sym all_passed-check_chain ∙ h) in
      let w = owner_passed n s.nullifier claimed (n.account_address s.app_id s.nullifier) d e in
      record {
        on_chain = (on_chain_passed n proof inputs o.skip_on_chain_proof).0 a;
        locally = (locally_passed n proof inputs o.has_prover).0 b;
        verified = (verifiers_passed o.skip_on_chain_proof o.has_prover).0 c;
        account = w.account;
        derived = w.is_derived;
        claims = w.claims;
        code = w.code;
        read = w.read;
        owner = w.owner;
      }

  pub IsBacked-check_chain :
      IsBacked n o s claimed proof inputs
      → all_passed (check_chain n o s claimed proof inputs).checks ≡ true
  IsBacked-check_chain b =
      all_passed-check_chain
      ∙ and5_true _ _ _ _ _ ((on_chain_passed n proof inputs o.skip_on_chain_proof).1 b.on_chain)
          ((locally_passed n proof inputs o.has_prover).1 b.locally)
          ((verifiers_passed o.skip_on_chain_proof o.has_prover).1 b.verified)
          (ap (λ d. same_account d claimed) b.derived
            ∙ (eq_iff (lower b.account) (lower claimed)).1 b.claims)
          (passed_owner n s.nullifier claimed (n.account_address s.app_id s.nullifier) b.account
            b.code b.derived b.read b.owner)
