-- ===== src/Sdk/Verify/SignedIn.antt =====
-- packages/sdk/src/server.ts with signin.ts: the sign-in route, when verifySignIn answers it.
mod Tests
use vera_key.Prelude.{
  ℕ, ◌≡◌, inl, inr, refl, sym, ap, ◌∙◌, String, Bool, true, false, List, ◌++◌, Option, none, some,
  arith, Bool-cases, if◌then◌else◌, Option-cases,
}
use vera_key.Sdk.Values.{Value}
use vera_key.Sdk.Connect.{message_field}
use vera_key.Sdk.Viem.{Viem, text_of}
use vera_key.Sdk.MemoryStore.{Store}
use vera_key.Sdk.Session.{Player, Check}
use vera_key.Sdk.Payment.{Outcome, ok, refuses, crashes}
use vera_key.Sdk.SignIn.{
  NonceCookie, read_nonce, SignInVerdict, Site, sign_in, welcome, judge, player_of,
}
use vera_key.Sdk.SignIn.Replay.{IsSignedIn, sign_in-IsSignedIn}
use vera_key.Sdk.SignIn.Welcome.{IsWelcome, IsCurrent-read_nonce}
use vera_key.Sdk.Verify.{
  Deployment, Options, Statement, SignInCheck, run_checks, all_passed, well_formed, statement_of,
}
use vera_key.Sdk.Verify.Offline.{offline, inputs_of}
use vera_key.Sdk.Verify.Chain.{
  Node, Verdict, verify_sign_in, format_ok, checked, if_offline, finish, well_formed_checks,
}
use vera_key.Sdk.Verify.Laws.{IsVerified, valid-IsVerified}

-- The site: its origin, the deployment it trusts, its node, and the details of a verdict's checks.
pub record SiteChecks : Type 0 where
  pub viem : Viem
  pub node : Node
  pub origin : String
  pub deployment : Deployment
  pub details : List SignInCheck → List Check

abbrev pub options_for : SiteChecks → (nonce : String) → Options
options_for c nonce = record {
  origin = c.origin;
  nonce = nonce;
  deployment = c.deployment;
  has_prover = false;
  skip_on_chain_proof = false;
  now = none;
  max_ttl_seconds = none;
  clock_skew_seconds = none;
}

abbrev pub verdict_of : SiteChecks → Verdict → SignInVerdict
verdict_of c v = record {
  valid = v.valid;
  player_id = v.player_id;
  account = v.account;
  checks = c.details v.checks;
}

-- A site whose sign-ins are verified at a time, in milliseconds.
abbrev pub site_of : SiteChecks → (clock : ℕ) → (Player → Option String) → Site
site_of c clock on_sign_in = record {
  platform = c.viem.platform;
  verify_sign_in = λ result nonce.
      ok (verdict_of c (verify_sign_in c.viem c.node (options_for c nonce) clock result));
  on_sign_in = on_sign_in;
}

-- Who a verdict names.
pub record Names (v : Verdict) (id account : String) : Type 0 where
  pub valid : v.valid ≡ true
  pub player_id : v.player_id ≡ some id
  pub account_of : v.account ≡ some account

welcome-Names :
    (c : SiteChecks) (clock : ℕ) (on_sign_in : Player → Option String) (result : Value)
    (issued : String) (player : Player)
    → IsWelcome (site_of c clock on_sign_in) result issued player
    → Names
        (verify_sign_in c.viem c.node (options_for c issued) clock result)
        player.id
        player.account
welcome-Names c clock on_sign_in result issued player w =
    let v = verify_sign_in c.viem c.node (options_for c issued) clock result in
    let same : verdict_of c v ≡ w.verdict = ground (arith, w.answered) in
    record {
      valid = ap (λ x. x.valid) same ∙ w.is_valid;
      player_id = ap (λ x. x.player_id) same ∙ w.player_id;
      account_of = ap (λ x. x.account) same ∙ w.account_of;
    }

-- A valid verdict names this player and account.
abbrev NamesWhenValid : Verdict → (id account : String) → Type 0
NamesWhenValid v id account = v.valid ≡ true → (v.player_id ≡ some id) × (v.account ≡ some account)

finish-NamesWhenValid :
    (n : Node) (o : Options) (s : Statement) (account proof : String) (checks : List SignInCheck)
    (inputs : Option (List String))
    → NamesWhenValid (finish n o s account proof checks inputs) s.nullifier account
finish-NamesWhenValid n o s account proof checks none h = cc
finish-NamesWhenValid n o s account proof checks (some is) h = (simp h refl, simp h refl)

module _ (v : Viem) (n : Node) (o : Options) (clock : ℕ) (s : Statement) (result : Value) where
  if_offline-NamesWhenValid :
      (checks : List SignInCheck) (b : Bool)
      → NamesWhenValid
          (if_offline v n o s result checks b)
          s.nullifier
          (text_of (message_field "account" result))
  if_offline-NamesWhenValid checks true h =
      finish-NamesWhenValid n o s _ _ checks (inputs_of v o s result) h
  if_offline-NamesWhenValid checks false h = cc

  checked-NamesWhenValid :
      (formed : Option Bool)
      → NamesWhenValid
          (checked v n o clock s result formed)
          s.nullifier
          (text_of (message_field "account" result))
  checked-NamesWhenValid none h = cc
  checked-NamesWhenValid (some false) h = cc
  checked-NamesWhenValid (some true) h =
      if_offline-NamesWhenValid (well_formed_checks ++ run_checks (offline v o clock s result))
        (all_passed (run_checks (offline v o clock s result))) h

verify_sign_in-NamesWhenValid :
    (v : Viem) (n : Node) (o : Options) (clock : ℕ) (result : Value)
    → NamesWhenValid
        (verify_sign_in v n o clock result)
        (statement_of (message_field "statement" result)).nullifier
        (text_of (message_field "account" result))
unfolding verify_sign_in
verify_sign_in-NamesWhenValid v n o clock result h = elim (Bool-cases (format_ok result)) [
  | inl y ↦ simp y (
      checked-NamesWhenValid v n o clock (statement_of (message_field "statement" result)) result
        (well_formed v (message_field "statement" result) result) (simp y at h))
  | inr f ↦ absurd (let no : Path Bool false true = simp f at h in cc)
]

-- When verifySignIn answers the sign-in route, a player whom the route accepts is the one of the
-- statement and the account of the result, and the sign-in is verified in full for the unexpired
-- nonce of this browser's cookie: meant for this site and current, signed on VeraKey, proved on
-- the chain, and by an owner of the account.
pub sign_in-IsVerified :
    (c : SiteChecks) (on_sign_in : Player → Option String) (result : Value)
    (cookie : Option NonceCookie) (now : ℕ) (store : Store) (player : Player)
    → (sign_in (site_of c now on_sign_in) result cookie now store).0 ≡ ok player
    → (issued : String) × (read_nonce c.viem.platform now cookie ≡ some issued)
      × IsVerified c.viem c.node (options_for c issued) now result
      × (player.id ≡ (statement_of (message_field "statement" result)).nullifier)
      × (player.account ≡ text_of (message_field "account" result))
sign_in-IsVerified c on_sign_in result cookie now store player h =
    let s = sign_in-IsSignedIn (site_of c now on_sign_in) result cookie now store player h in
    let v = verify_sign_in c.viem c.node (options_for c s.issued) now result in
    let n = welcome-Names c now on_sign_in result s.issued player s.welcome_to in
    let proven = valid-IsVerified c.viem c.node (options_for c s.issued) now result n.valid in
    let (id, account) =
      verify_sign_in-NamesWhenValid c.viem c.node (options_for c s.issued) now result n.valid in
    (
      s.issued,
      IsCurrent-read_nonce c.viem.platform now cookie s.issued s.current,
      proven,
      ground (arith, id, n.player_id),
      ground (arith, account, n.account_of),
    )
