-- ===== src/Sdk/Sessions/SignOut.antt =====
-- packages/sdk/src/server.ts: a session cookie before and after a sign-out.
use vera_key.Prelude.{
  ℕ, ◌-◌, ◌*◌, ◌≤◌, ◌<◌, ◌≡◌, inl, inr, refl, ap, String, true, false, List, [], ◌∷◌, Option, none,
  some, arith, Bool-cases, eq_iff, eq_refl,
}
use vera_key.Collections.Map
use vera_key.Sdk.Values.{Value}
use vera_key.Sdk.Connect.{Platform, message_field}
use vera_key.Sdk.MemoryStore.{Store, claim, has}
use vera_key.Sdk.MemoryStore.Laws.{has-claim, claim-has, IsUnique-claim}
use vera_key.Sdk.Sessions.{
  CookieSession, seconds, is_one, as_text, as_number, decode_fields, decode_session, sign_out_key,
  signed_out, current, read_session, max, end_session, sign_out,
}

-- A claim that some request makes later: a nonce's, a payment's or a sign-out's.
pub record Claim : Type 0 where
  pub key : String
  pub ttl : Option ℕ
  pub now : ℕ

unfoldable pub claim_all : List Claim → Store → Store
claim_all [] store = store
claim_all (c ∷ cs) store = claim_all cs (claim c.key c.ttl c.now store).0

-- The claims come in the order of their times, from `from` on and up to `end`.
abbrev pub AreBetween : ℕ → ℕ → List Claim → Type 0
AreBetween from end [] = from ≤ end
AreBetween from end (c ∷ cs) = (from ≤ c.now) × AreBetween c.now end cs

-- The key is held from `from` on, up to `until`.
pub record IsHeld (key : String) (from until : ℕ) (store : Store) : Type 0 where
  pub unique : Map.IsUnique store
  pub holds : (t : ℕ) → from ≤ t → t < until → has key t store ≡ true

claim-IsHeld :
    (key : String) (from until : ℕ) (store : Store) (c : Claim)
    → from ≤ c.now
    → IsHeld key from until store
    → IsHeld key c.now until (claim c.key c.ttl c.now store).0
claim-IsHeld key from until store c h v = record {
  unique = IsUnique-claim c.key c.ttl c.now store v.unique;
  holds = λ t later before.
      let live = v.holds c.now h (omega (arith, later, before)) in
      let same = v.holds t (omega (arith, h, later)) before in
      ground (
        arith,
        has-claim c.key key c.ttl c.now t store v.unique later,
        claim-has c.key c.ttl c.now store,
        eq_iff c.key key,
        live,
        same,
      );
}

pub claim_all-IsHeld :
    (key : String) (from end until : ℕ) (cs : List Claim) (store : Store)
    → AreBetween from end cs
    → IsHeld key from until store
    → end < until
    → has key end (claim_all cs store) ≡ true
unfolding claim_all
claim_all-IsHeld key from end until [] store b v e = v.holds end b e
claim_all-IsHeld key from end until (c ∷ cs) store (h, b) v e =
    claim_all-IsHeld key c.now end until cs _ b (claim-IsHeld key from until store c h v) e

-- One cookie holds one session, until it expires.
decode_fields-later :
    (p : Platform) (now later : ℕ) (id account sid : Option String) (exp : Option ℕ)
    (s t : CookieSession)
    → decode_fields p now id account sid exp ≡ some s
    → decode_fields p later id account sid exp ≡ some t
    → (t.sid ≡ s.sid) × (t.exp ≡ s.exp) × (seconds later < t.exp)
unfolding decode_fields
decode_fields-later p now later (some id) (some account) (some sid) (some exp) s t h k =
    ground arith
decode_fields-later p now later none account sid exp s t h k = cc
decode_fields-later p now later (some id) none sid exp s t h k = cc
decode_fields-later p now later (some id) (some account) none exp s t h k = cc
decode_fields-later p now later (some id) (some account) (some sid) none s t h k = cc

decode_session-later :
    (p : Platform) (now later : ℕ) (cookie : Option Value) (s t : CookieSession)
    → decode_session p now cookie ≡ some s
    → decode_session p later cookie ≡ some t
    → (t.sid ≡ s.sid) × (t.exp ≡ s.exp) × (seconds later < t.exp)
unfolding decode_session
decode_session-later p now later none s t h k = cc
decode_session-later p now later (some payload) s t h k =
    elim (Bool-cases (is_one (message_field "v" payload))) [
      | inl y ↦
          decode_fields-later p now later (as_text (message_field "id" payload))
            (as_text (message_field "account" payload)) (as_text (message_field "sid" payload))
            (as_number (message_field "exp" payload)) s t (rw y at h) (rw y at k)
      | inr n ↦ ground (arith, n)
    ]

-- The sign-out of a current session holds its key for as long as its cookie could live.
end_session-IsHeld :
    (s : CookieSession) (now : ℕ) (store : Store)
    → Map.IsUnique store
    → signed_out s now store ≡ false
    → IsHeld (sign_out_key s.sid) now (s.exp * 1000) (end_session (some s) now store)
unfolding signed_out
end_session-IsHeld s now store u free =
    let key = sign_out_key s.sid in
    let ttl : Option ℕ = some (max 1 (s.exp - seconds now)) in
    record {
      unique = IsUnique-claim key ttl now store u;
      holds = λ t later before. ground (
        arith,
        has-claim key key ttl now t store u later,
        claim-has key ttl now store,
        eq_refl key,
        free,
      );
    }

current-some :
    (o : Option CookieSession) (now : ℕ) (store : Store) (s : CookieSession)
    → current o now store ≡ some s
    → (o ≡ some s) × (signed_out s now store ≡ false)
current-some none now store s h = cc
current-some (some t) now store s h = elim (Bool-cases (signed_out t now store)) [
  | inl y ↦ ground (arith, y)
  | inr n ↦ let same : t ≡ s = ground (arith, n) in (ap some same, rw same at n)
]

none-current :
    (o : Option CookieSession) (now : ℕ) (store : Store)
    → ((t : CookieSession) → o ≡ some t → signed_out t now store ≡ true)
    → current o now store ≡ none
none-current none now store h = refl
none-current (some t) now store h = simp (h t refl) refl

before_end : (later a b : ℕ) → a ≡ b → seconds later < a → later < b * 1000
before_end later a b same alive = omega (arith, same, alive)

still_out :
    (s t : CookieSession) (later : ℕ) (store : Store)
    → t.sid ≡ s.sid
    → has (sign_out_key s.sid) later store ≡ true
    → signed_out t later store ≡ true
unfolding signed_out
still_out s t later store same held = rw same held

-- A session that is signed out while it is current is never current again: whatever is claimed in
-- the store in between, every copy of its cookie is refused at every later time, until it has
-- expired and after that.
pub sign_out-none :
    (p : Platform) (now later : ℕ) (cookie : Option Value) (store : Store) (cs : List Claim)
    (s : CookieSession)
    → Map.IsUnique store
    → read_session p now cookie store ≡ some s
    → AreBetween now later cs
    → read_session p later cookie (claim_all cs (sign_out p now cookie store)) ≡ none
unfolding read_session sign_out
sign_out-none p now later cookie store cs s u h b =
    let (decoded, free) = current-some (decode_session p now cookie) now store s h in
    let ended = end_session-IsHeld s now store u free in
    rw decoded (
      none-current (decode_session p later cookie) later
        (claim_all cs (end_session (some s) now store))
        (λ t again.
          let (sid, exp, alive) = decode_session-later p now later cookie s t decoded again in
          let held =
            claim_all-IsHeld (sign_out_key s.sid) now later (s.exp * 1000) cs _ b ended
              (before_end later t.exp s.exp exp alive) in
          still_out s t later _ sid held))
