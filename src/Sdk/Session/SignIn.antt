-- ===== src/Sdk/Session/SignIn.antt =====
-- packages/sdk/src/session.ts, load and signIn: who is signed in when they end.
use vera_key.Prelude.{ℕ, ◌≡◌, refl, String, true, false, Option, none, some, arith}
use vera_key.Sdk.Values.{Value}
use vera_key.Sdk.Connect.{Platform, Url}
use vera_key.Sdk.Session.{
  signed_out, signed_in, Player, SessionError, Thrown, of_session, Session, Outcome, ok, failed,
  Response, call, quiet, as_session_error,
}
use vera_key.Sdk.Session.Methods.{
  SessionInfo, load, load_with, loaded, finish_failed, finish_sign_in, sign_in_with,
  fails_to_sign_in,
}

-- The page shows the player exactly if it says that one is signed in.
pub data Agrees (s : Session) : Type 0 where
  known :
      (player : Player) → s.status ≡ signed_in → s.player ≡ some player → s.error ≡ none → Agrees s
  unknown : s.status ≡ signed_out → s.player ≡ none → Agrees s

loaded-Agrees : (info : SessionInfo) (url : Option Url) (s : Session) → Agrees (loaded info url s)
loaded-Agrees info none s = unknown refl refl
loaded-Agrees info (some url) s = by_player info.player refl
  where
    by_player : (player : Option Player) → info.player ≡ player → Agrees (loaded info (some url) s)
    by_player none h = unknown (rw h refl) h
    by_player (some p) h = known p (rw h refl) h refl

load_with-Agrees : (p : Platform) (r : Outcome SessionInfo × Session) → Agrees (load_with p r)
load_with-Agrees p (failed e, s) = unknown refl refl
load_with-Agrees p (ok info, s) = loaded-Agrees info (p.parse_url info.verakey_url) s

-- `load` always ends signed in with a player and no error, or signed out without a player.
pub load-Agrees :
    (p : Platform) (answered : ℕ → Value) (reply : Option (Response SessionInfo)) (s : Session)
    → Agrees (load p answered reply s)
unfolding load
load-Agrees p answered reply s = load_with-Agrees p _

-- What the end of a sign-in tells its caller is what the page shows.
pub data SignsIn (s : Session) : Outcome (Option Player) × Session → Type 0 where
  accepted :
      (player : Player) (t : Session)
      → t.status ≡ signed_in
      → t.player ≡ some player
      → t.error ≡ none
      → SignsIn s (ok (some player), t)
  rejects :
      (e : SessionError) (t : Session)
      → t.status ≡ signed_out
      → t.player ≡ none
      → t.error ≡ some e
      → SignsIn s (failed (of_session e), t)

call-never_quiet :
    {A : Type 0} (answered : ℕ → Value) (route : String) (reply : Option (Response A)) (s : Session)
    (e : Thrown)
    → (call answered route reply s).0 ≡ failed e
    → quiet e ≡ false
unfolding call quiet
call-never_quiet answered route reply s e h = ground arith

fails_to_sign_in-SignsIn :
    (s : Session) (e : Thrown) (t : Session) → quiet e ≡ false → SignsIn s (fails_to_sign_in e t)
fails_to_sign_in-SignsIn s e t n = rw n (rejects (as_session_error e) _ refl refl refl)

sign_in_with-SignsIn :
    (s : Session) (r : Outcome Player × Session)
    → ((e : Thrown) → r.0 ≡ failed e → quiet e ≡ false)
    → SignsIn s (sign_in_with r)
sign_in_with-SignsIn s (ok player, t) loud = accepted player _ refl refl refl
sign_in_with-SignsIn s (failed e, t) loud = fails_to_sign_in-SignsIn s e t (loud e refl)

-- Once the popup gave a sign-in, `signIn` ends with the player whom the page then shows as signed
-- in, or with the error that the page then shows, signed out and without a player.
pub finish_sign_in-SignsIn :
    (answered : ℕ → Value) (reply : Option (Response Player)) (s : Session)
    → SignsIn s (finish_sign_in answered reply s)
unfolding finish_sign_in
finish_sign_in-SignsIn answered reply s =
    sign_in_with-SignsIn s _ (call-never_quiet answered "sign-in" reply s)

-- If the server answers an overlapping `load` with a player while the popup is open, and the
-- player then closes the popup, the page is left signed out with a player.
pub finish_failed-load :
    (p : Platform) (answered : ℕ → Value) (reply : Response SessionInfo) (url : Url)
    (player : Player) (e : Thrown) (s : Session)
    → reply.status ≡ 200
    → reply.body.player ≡ some player
    → p.parse_url reply.body.verakey_url ≡ some url
    → quiet e ≡ true
    → ((finish_failed e (load p answered (some reply) s)).1.status ≡ signed_out)
      × ((finish_failed e (load p answered (some reply) s)).1.player ≡ some player)
unfolding finish_failed load call
finish_failed-load p answered reply url player e s status with_player valid still = ground arith
