-- ===== src/Sdk/Client/Able.antt =====
-- packages/sdk/src/client.ts, authorize: what looking up an account finds out.
use vera_key.Prelude.{
  ℕ, ◌≤◌, ◌≡◌, inl, inr, refl, sym, ap, ◌∙◌, String, Bool, true, false, List, [], Option, none,
  some, arith, Bool-cases, ltb, subst,
}
use vera_key.Sdk.Client.{Result, done, failed, threw, Event, Client, M, ◌>>=◌, lift, bind_result}
use vera_key.Sdk.Client.Outside.{Outside, Terms}
use vera_key.Sdk.Client.Authorize.{
  look_up, terms_if, is_deployed, check_max_fee, check_balance, above_limit,
}
use vera_key.Sdk.Client.Trace.{asked, bind-quiet}

-- What an account demands: a deployed one, what the node says; any other one, nothing.
pub data HasTerms (o : Outside) (account : String) : Option Terms → Type 0 where
  undeployed :
      (code : Option String)
      → o.get_code account ≡ done code
      → is_deployed code ≡ false
      → HasTerms o account none
  deployed :
      (code : Option String) (t : Terms)
      → o.get_code account ≡ done code
      → is_deployed code ≡ true
      → o.terms account ≡ done t
      → HasTerms o account (some t)

module _ (o : Outside) where
  check_max_fee-done :
      (terms : Option Terms) (u : Unit {0})
      → check_max_fee o terms ≡ done u
      → above_limit o.config.relayer_fee terms ≡ false
  unfolding check_max_fee
  check_max_fee-done terms u h = elim (Bool-cases (above_limit o.config.relayer_fee terms)) [
    | inl y ↦ ground (arith, y, h)
    | inr n ↦ n
  ]

  check_balance-done :
      (balance : ℕ) (u : Unit {0})
      → check_balance o balance ≡ done u
      → o.config.relayer_fee ≤ balance
  unfolding check_balance
  check_balance-done balance u h = elim (Bool-cases (ltb balance o.config.relayer_fee)) [
    | inl y ↦ ground (arith, y, h)
    | inr n ↦ ground (arith, n)
  ]

done-same : {A : Type 0} (a b : A) → Path (Result A) (done a) (done b) → a ≡ b
done-same a b h = ground (arith, h)

-- What looking up an account finds out.
pub record IsAble (o : Outside) (account : String) (terms : Option Terms) : Type 0 where
  pub told : HasTerms o account terms
  pub within_limit : above_limit o.config.relayer_fee terms ≡ false
  pub balance : ℕ
  pub holds : o.balance account ≡ done balance
  pub pays_fee : o.config.relayer_fee ≤ balance

module _ {A B : Type 0} (f : A → M B) where
  pub result_done :
      (r : Result A) (es : List Event) (c : Client) (b : B)
      → (bind_result r es c f).result ≡ done b
      → (a : A) × (r ≡ done a) × ((f a c).result ≡ done b)
  result_done (done a) es c b h = (a, refl, h)
  result_done (failed e) es c b h = cc
  result_done (threw m) es c b h = cc

pub bind-done :
    {A B : Type 0} (m : M A) (f : A → M B) (c : Client) (b : B)
    → (◌>>=◌ m f c).result ≡ done b
    → (a : A) × ((m c).result ≡ done a) × ((f a (m c).client).result ≡ done b)
bind-done m f c b h = result_done f (m c).result (m c).events (m c).client b h

terms_if-HasTerms :
    (o : Outside) (account : String) (code : Option String) (terms : Option Terms) (b : Bool)
    (r : Result Terms)
    → o.get_code account ≡ done code
    → is_deployed code ≡ b
    → o.terms account ≡ r
    → terms_if b r ≡ done terms
    → HasTerms o account terms
terms_if-HasTerms o account code terms false r g d e h =
    subst (HasTerms o account) (done-same none terms h) (undeployed code g d)
terms_if-HasTerms o account code terms true (done t) g d e h =
    subst (HasTerms o account) (done-same (some t) terms h) (deployed code t g d e)
terms_if-HasTerms o account code terms true (failed x) g d e h = cc
terms_if-HasTerms o account code terms true (threw m) g d e h = cc

pub look_up-IsAble :
    (o : Outside) (account : String) (c : Client) (terms : Option Terms)
    → (look_up o account c).result ≡ done terms
    → IsAble o account terms
unfolding look_up
look_up-IsAble o account c terms h =
    let (code, known, h1) = result_done _ (o.get_code account) [] c terms h in
    let (found, read, h2) =
      result_done _ (terms_if (is_deployed code) (o.terms account)) [] c terms h1 in
    let (u, limit, h3) = result_done _ (check_max_fee o found) [] c terms h2 in
    let (balance, holds, h4) = result_done _ (o.balance account) [] c terms h3 in
    let (w, pays, h5) = result_done _ (check_balance o balance) [] c terms h4 in
    let same : found ≡ terms = ground (arith, h5) in
    record {
      told = subst (HasTerms o account) same (
          terms_if-HasTerms o account code found (is_deployed code) (o.terms account) known refl
            refl read);
      within_limit =
          ap (λ t. above_limit o.config.relayer_fee t) (sym same)
          ∙ check_max_fee-done o found u limit;
      balance = balance;
      holds = holds;
      pays_fee = check_balance-done o balance w pays;
    }

pub look_up-quiet :
    (o : Outside) (account : String) (c : Client) → asked (look_up o account c).events ≡ []
unfolding look_up asked
look_up-quiet o account c = bind-quiet (lift (o.get_code account)) _ c refl λ code d.
    bind-quiet (lift (terms_if (is_deployed code) (o.terms account))) _ d refl λ t e.
      bind-quiet (lift (check_max_fee o t)) _ e refl λ u f.
        bind-quiet (lift (o.balance account)) _ f refl
          λ b g. bind-quiet (lift (check_balance o b)) _ g refl λ w k. refl
