-- ===== src/Sdk/SignIn/Welcome.antt =====
-- packages/sdk/src/server.ts, the sign-in route: a current nonce, and a verdict that lets the player in.
use vera_key.Prelude.{
  ℕ, ◌<◌, ◌≡◌, inl, inr, refl, ap, ◌∙◌, String, true, subst, Option-cases, Option, none, some,
  arith, Bool-cases,
}
use vera_key.Prelude.Text.{big_int}
use vera_key.Sdk.Values.{is_digits, Value}
use vera_key.Sdk.Connect.{Platform, is_bytes32}
use vera_key.Sdk.Session.{Player}
use vera_key.Sdk.Payment.{Outcome, ok, refuses, crashes, natural}
use vera_key.Sdk.Sessions.{seconds}
use vera_key.Sdk.SignIn.{SignInVerdict, player_of, NonceCookie, read_nonce, welcome, judge, Site}

-- The nonce of this browser's cookie, which has not expired.
pub record IsCurrent (p : Platform) (now : ℕ) (cookie : Option NonceCookie) (issued : String)
    : Type 0 where
  pub expires_at : String
  pub held : cookie ≡ some (record { nonce = issued; expires_at = expires_at })
  pub is_nonce : is_bytes32 p issued ≡ true
  pub is_time : is_digits 12 expires_at ≡ true
  pub unexpired : seconds now < natural (big_int expires_at)

-- The verdict on a sign-in is valid and names the player, whom onSignIn does not refuse.
pub record IsWelcome (site : Site) (result : Value) (issued : String) (player : Player)
    : Type 0 where
  pub verdict : SignInVerdict
  pub answered : site.verify_sign_in result issued ≡ ok verdict
  pub is_valid : verdict.valid ≡ true
  pub player_id : verdict.player_id ≡ some player.id
  pub account_of : verdict.account ≡ some player.account
  pub let_in : site.on_sign_in player ≡ none

pub read_nonce-IsCurrent :
    (p : Platform) (now : ℕ) (cookie : Option NonceCookie) (issued : String)
    → read_nonce p now cookie ≡ some issued
    → IsCurrent p now cookie issued
unfolding read_nonce
read_nonce-IsCurrent p now none issued h = cc
read_nonce-IsCurrent p now (some c) issued h =
    let same : c.nonce ≡ issued = ground (arith, h) in
    record {
      expires_at = c.expires_at;
      held = ap (λ n. some (record { nonce = n; expires_at = c.expires_at })) same;
      is_nonce = ground (arith, h);
      is_time = ground (arith, h);
      unexpired = ground (arith, h);
    }

pub IsCurrent-read_nonce :
    (p : Platform) (now : ℕ) (cookie : Option NonceCookie) (issued : String)
    → IsCurrent p now cookie issued
    → read_nonce p now cookie ≡ some issued
unfolding read_nonce
IsCurrent-read_nonce p now cookie issued c =
    ap (λ x. read_nonce p now x) c.held
    ∙ simp c.is_nonce (simp c.is_time (ground (arith, c.unexpired)))

player_of-ok :
    (v : SignInVerdict) (id account : Option String) (player : Player)
    → player_of v id account ≡ ok player
    → (v.valid ≡ true) × (id ≡ some player.id) × (account ≡ some player.account)
player_of-ok v none account player h = cc
player_of-ok v (some id) none player h = cc
player_of-ok v (some id) (some account) player h = elim (Bool-cases v.valid) [
  | inr f ↦ ground (arith, f, h)
  | inl y ↦
      let made : Player = record { id = id; account = account } in
      let same : made ≡ player = ground (arith, y, h) in
      (y, ap (λ p. some p.id) same, ap (λ p. some p.account) same)
]

welcome-ok :
    (o : Outcome Player) (on_sign_in : Player → Option String) (player : Player)
    → welcome o on_sign_in ≡ ok player
    → (o ≡ ok player) × (on_sign_in player ≡ none)
welcome-ok (ok p) on_sign_in player h = elim (Option-cases (on_sign_in p)) [
  | inl n ↦
      let same : p ≡ player = ground (arith, n, h) in
      (ap ok same, subst (λ q. on_sign_in q ≡ none) same n)
  | inr (m, e) ↦ ground (arith, e, h)
]
welcome-ok (refuses e) on_sign_in player h = cc
welcome-ok crashes on_sign_in player h = cc

judge-IsWelcome :
    (site : Site) (result : Value) (issued : String) (player : Player) (o : Outcome SignInVerdict)
    → site.verify_sign_in result issued ≡ o
    → judge o ≡ ok player
    → site.on_sign_in player ≡ none
    → IsWelcome site result issued player
judge-IsWelcome site result issued player (ok v) e h l =
    let (y, id, account) = player_of-ok v v.player_id v.account player h in
    record {
      verdict = v;
      answered = e;
      is_valid = y;
      player_id = id;
      account_of = account;
      let_in = l;
    }
judge-IsWelcome site result issued player (refuses f) e h l = cc
judge-IsWelcome site result issued player crashes e h l = cc

pub welcome-IsWelcome :
    (site : Site) (result : Value) (issued : String) (player : Player)
    → welcome (judge (site.verify_sign_in result issued)) site.on_sign_in ≡ ok player
    → IsWelcome site result issued player
welcome-IsWelcome site result issued player h =
    let (judged, l) =
      welcome-ok (judge (site.verify_sign_in result issued)) site.on_sign_in player h in
    judge-IsWelcome site result issued player (site.verify_sign_in result issued) refl judged l
