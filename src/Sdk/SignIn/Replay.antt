-- ===== src/Sdk/SignIn/Replay.antt =====
-- packages/sdk/src/server.ts, the sign-in route: what an accepted sign-in went through, and its replays.
use vera_key.Prelude.{
  ℕ, ◌+◌, ◌≤◌, ◌<◌, ◌≡◌, ◌≢◌, inl, inr, refl, sym, ap, ◌∙◌, List, String, true, false, Option, none,
  some, arith, ◌==◌, Bool-cases, eq_iff, eq_refl,
}
use vera_key.Prelude.Text.{big_int, lower}
use vera_key.Collections.Map
use vera_key.Sdk.Values.{Value, text, number, undefined, null, other, boolean, array, object}
use vera_key.Sdk.Connect.{message_field, is_bytes32}
use vera_key.Sdk.MemoryStore.{Store, claim, has}
use vera_key.Sdk.MemoryStore.Laws.{has-claim, claim-has, IsUnique-claim}
use vera_key.Sdk.Sessions.SignOut.{Claim, claim_all, AreBetween, IsHeld, claim_all-IsHeld}
use vera_key.Sdk.Session.{Player}
use vera_key.Sdk.Payment.{ok, natural}
use vera_key.Sdk.Sessions.{seconds}
use vera_key.Sdk.SignIn.{
  NonceCookie, read_nonce, nonce_of, check_issued, issued_nonce, Site, nonce_key, verify_once,
  sign_in,
}
use vera_key.Sdk.SignIn.Welcome.{
  IsCurrent, IsWelcome, read_nonce-IsCurrent, IsCurrent-read_nonce, welcome-IsWelcome,
}

-- What a sign-in that the route accepts went through.
pub record IsSignedIn (site : Site) (result : Value) (cookie : Option NonceCookie) (now : ℕ)
    (store : Store) (player : Player) : Type 0 where
  pub issued : String
  pub current : IsCurrent site.platform now cookie issued
  pub nonce : String
  pub given : message_field "nonce" (message_field "statement" result) ≡ text nonce
  pub formed : is_bytes32 site.platform nonce ≡ true
  pub answers : lower issued ≡ lower nonce
  pub unused : has (nonce_key issued) now store ≡ false
  pub welcome_to : IsWelcome site result issued player

unused_first :
    (key : String) (now : ℕ) (store : Store)
    → has key now store ≡ false
    → (claim key (some 360) now store).1 ≡ true
unused_first key now store h = ground (arith, claim-has key (some 360) now store, h)

first_unused :
    (key : String) (now : ℕ) (store : Store)
    → (claim key (some 360) now store).1 ≡ true
    → has key now store ≡ false
first_unused key now store h = ground (arith, claim-has key (some 360) now store, h)

module _ (site : Site) (result : Value) (cookie : Option NonceCookie) (now : ℕ) (store : Store)
    (player : Player) where
  issued-IsSignedIn :
      (nonce : String) (issued : Option String)
      → read_nonce site.platform now cookie ≡ issued
      → message_field "nonce" (message_field "statement" result) ≡ text nonce
      → is_bytes32 site.platform nonce ≡ true
      → (verify_once site result now (check_issued issued nonce) store).0 ≡ ok player
      → IsSignedIn site result cookie now store player
  issued-IsSignedIn nonce none c g w h = cc
  issued-IsSignedIn nonce (some issued) c g w h = elim (Bool-cases (lower issued == lower nonce)) [
    | inr n ↦ ground (arith, n)
    | inl y ↦ elim (Bool-cases (claim (nonce_key issued) (some 360) now store).1) [
      | inl f ↦ record {
        issued = issued;
        current = read_nonce-IsCurrent site.platform now cookie issued c;
        nonce = nonce;
        given = g;
        formed = w;
        answers = ground (arith, y, eq_iff (lower issued) (lower nonce));
        unused = first_unused (nonce_key issued) now store f;
        welcome_to = welcome-IsWelcome site result issued player (ground (arith, y, f));
      }
      | inr n ↦ ground (arith, y, n)
    ]
  ]

  nonce-IsSignedIn :
      (field : Value)
      → message_field "nonce" (message_field "statement" result) ≡ field
      → (verify_once site result now
          (issued_nonce site.platform now cookie (nonce_of site.platform field))
          store).0
        ≡ ok player
      → IsSignedIn site result cookie now store player
  nonce-IsSignedIn (text nonce) g h = elim (Bool-cases (is_bytes32 site.platform nonce)) [
    | inl y ↦ issued-IsSignedIn nonce _ refl g y (ground (arith, y))
    | inr n ↦ ground (arith, n)
  ]
  nonce-IsSignedIn (number n) g h = cc
  nonce-IsSignedIn undefined g h = cc
  nonce-IsSignedIn null g h = cc
  nonce-IsSignedIn other g h = cc
  nonce-IsSignedIn (boolean bool) g h = cc
  nonce-IsSignedIn (array items) g h = cc
  nonce-IsSignedIn (object fs) g h = cc

-- A sign-in that the route accepts answers the nonce of this browser's cookie, which is well-
-- formed, has not expired and was not used before; verifySignIn's verdict on it for that nonce is
-- valid and names the player and the account; and onSignIn does not refuse the player.
pub sign_in-IsSignedIn :
    (site : Site) (result : Value) (cookie : Option NonceCookie) (now : ℕ) (store : Store)
    (player : Player)
    → (sign_in site result cookie now store).0 ≡ ok player
    → IsSignedIn site result cookie now store player
unfolding sign_in
sign_in-IsSignedIn site result cookie now store player h =
    nonce-IsSignedIn site result cookie now store player _ refl h

sign_in-stored :
    (site : Site) (result : Value) (cookie : Option NonceCookie) (now : ℕ) (store : Store)
    (player : Player) (v : IsSignedIn site result cookie now store player)
    → (sign_in site result cookie now store).1 ≡ (claim (nonce_key v.issued) (some 360) now store).0
unfolding sign_in
sign_in-stored site result cookie now store player v = ground (
  arith,
  IsCurrent-read_nonce site.platform now cookie v.issued v.current,
  v.given,
  v.formed,
  v.answers,
  unused_first (nonce_key v.issued) now store v.unused,
  eq_iff (lower v.issued) (lower v.nonce),
)

-- A cookie's nonce is one text, until it expires.
read_nonce-nonce :
    (site : Site) (now : ℕ) (c : NonceCookie) (issued : String)
    → read_nonce site.platform now (some c) ≡ some issued
    → (issued ≡ c.nonce) × (seconds now < natural (big_int c.expires_at))
unfolding read_nonce
read_nonce-nonce site now c issued h = ground arith

claimed-IsHeld :
    (key : String) (now : ℕ) (store : Store)
    → Map.IsUnique store
    → (claim key (some 360) now store).1 ≡ true
    → IsHeld key now (now + 360000) (claim key (some 360) now store).0
claimed-IsHeld key now store u first = record {
  unique = IsUnique-claim key (some 360) now store u;
  holds = λ t later before.
      ground (arith, has-claim key key (some 360) now t store u later, eq_refl key, first);
}

-- Once the route accepted a sign-in for a nonce that lives at most 300 seconds more, no sign-in
-- that answers the same cookie is accepted later, whatever is claimed in the store in between.
pub sign_in-replay :
    (site : Site) (result again : Value) (c : NonceCookie) (now later : ℕ) (store : Store)
    (cs : List Claim) (player : Player)
    → Map.IsUnique store
    → natural (big_int c.expires_at) ≤ seconds now + 300
    → (sign_in site result (some c) now store).0 ≡ ok player
    → AreBetween now later cs
    → (twice : Player)
    → (sign_in site again
        (some c)
        later
        (claim_all cs (sign_in site result (some c) now store).1)).0
      ≢ ok twice
sign_in-replay site result again c now later store cs player u brief h b twice k =
    let one = sign_in-IsSignedIn site result (some c) now store player h in
    let two = sign_in-IsSignedIn site again (some c) later _ twice k in
    let (issued, lives) =
      read_nonce-nonce site now c one.issued
        (IsCurrent-read_nonce site.platform now (some c) one.issued one.current) in
    let (reissued, still) =
      read_nonce-nonce site later c two.issued
        (IsCurrent-read_nonce site.platform later (some c) two.issued two.current) in
    let key = nonce_key one.issued in
    let stored = sign_in-stored site result (some c) now store player one in
    let held : has key later (claim_all cs (claim key (some 360) now store).0) ≡ true =
      claim_all-IsHeld key now later (now + 360000) cs _ b
        (claimed-IsHeld key now store u (unused_first key now store one.unused))
        (omega (arith, brief, still)) in
    let same : nonce_key two.issued ≡ key = ap nonce_key (reissued ∙ sym issued) in
    let taken : has (nonce_key two.issued) later
          (claim_all cs (sign_in site result (some c) now store).1)
        ≡ true =
      rw (same, stored) held in
    ground (arith, taken, two.unused)
