-- ===== src/Sdk/SignIn.antt =====
-- packages/sdk/src/server.ts: the sign-in route. The nonce cookie's parts, once their MAC is valid,
-- verifySignIn's verdict and the site's onSignIn are arguments; Date.now() is in milliseconds.
pub mod Welcome
pub mod Replay
mod Tests
use vera_key.Prelude.{
  ℕ, String, Bool, true, false, not, ◌&&◌, Option, none, some, leb, ◌==◌, if◌then◌else◌, List,
}
use vera_key.Prelude.Text.{big_int, lower}
use vera_key.Sdk.Values.{Value, text, is_digits}
use vera_key.Sdk.Connect.{Platform, message_field, is_bytes32}
use vera_key.Sdk.MemoryStore.{Store, claim}
use vera_key.Sdk.Session.{Player, Check}
use vera_key.Sdk.Payment.{Outcome, ok, refuses, crashes, refuse, natural}
use vera_key.Sdk.Sessions.{seconds}

pub record NonceCookie : Type 0 where
  pub nonce : String
  pub expires_at : String

-- `readNonce`, of a cookie with a valid MAC.
unfoldable pub read_nonce : Platform → (now : ℕ) → Option NonceCookie → Option String
read_nonce p now none = none
read_nonce p now (some c) =
    if is_bytes32 p c.nonce
      && is_digits 12 c.expires_at
      && not (leb (natural (big_int c.expires_at)) (seconds now))
    then some c.nonce
    else none

abbrev pub nonce_of : Platform → Value → Outcome String
nonce_of p (text nonce) =
    if is_bytes32 p nonce then ok nonce else refuse 400 "This is not a VeraKey sign-in."
nonce_of p _ = refuse 400 "This is not a VeraKey sign-in."

abbrev pub check_issued : Option String → (nonce : String) → Outcome String
check_issued none nonce = refuse 403 "This browser has no current sign-in request: sign in again."
check_issued (some issued) nonce =
    if lower issued == lower nonce
    then ok issued
    else refuse 403 "This sign-in answers an older request from this browser: sign in again."

abbrev pub issued_nonce :
    Platform → (now : ℕ) → Option NonceCookie → Outcome String → Outcome String
issued_nonce p now cookie (ok nonce) = check_issued (read_nonce p now cookie) nonce
issued_nonce p now cookie (refuses e) = refuses e
issued_nonce p now cookie crashes = crashes

pub record SignInVerdict : Type 0 where
  pub valid : Bool
  pub player_id : Option String
  pub account : Option String
  pub checks : List Check

abbrev pub not_verified : SignInVerdict → Outcome Player
not_verified v =
    refuses
      (record { status = 401; message = "The sign-in did not verify."; checks = some v.checks })

abbrev pub player_of : SignInVerdict → Option String → Option String → Outcome Player
player_of v (some id) (some account) =
    if v.valid then ok (record { id = id; account = account }) else not_verified v
player_of v _ _ = not_verified v

abbrev pub welcome : Outcome Player → (Player → Option String) → Outcome Player
welcome (ok player) on_sign_in = elim (on_sign_in player) [
  | none ↦ ok player
  | some message ↦ refuse 400 message
]
welcome (refuses e) on_sign_in = refuses e
welcome crashes on_sign_in = crashes

abbrev pub judge : Outcome SignInVerdict → Outcome Player
judge (ok v) = player_of v v.player_id v.account
judge (refuses e) = refuses e
judge crashes = crashes

pub record Site : Type 0 where
  pub platform : Platform
  -- verifySignIn, of the result and the issued nonce
  pub verify_sign_in : Value → String → Outcome SignInVerdict
  -- the message of what onSignIn throws
  pub on_sign_in : Player → Option String

abbrev pub nonce_key : String → String
nonce_key nonce = Prim.Native.String.◌++◌ "nonce:" (lower nonce)

abbrev pub verify_once : Site → Value → (now : ℕ) → Outcome String → Store → Outcome Player × Store
verify_once site result now (ok issued) store =
    let (claimed, first) = claim (nonce_key issued) (some 360) now store in
    if first
    then (welcome (judge (site.verify_sign_in result issued)) site.on_sign_in, claimed)
    else (refuse 409 "This sign-in was already used.", store)
verify_once site result now (refuses e) store = (refuses e, store)
verify_once site result now crashes store = (crashes, store)

-- `POST sign-in`, after the origin's check, for a body that was read.
unfoldable pub sign_in :
    Site → (result : Value) → Option NonceCookie → (now : ℕ) → Store → Outcome Player × Store
sign_in site result cookie now store =
    verify_once site result now
      (issued_nonce site.platform now cookie
        (nonce_of site.platform (message_field "nonce" (message_field "statement" result))))
      store
