-- ===== src/Sdk/Sessions.antt =====
-- packages/sdk/src/server.ts: a player's session on a site's server. What the session cookie holds, once
-- its MAC is valid, is an argument; so are viem's tests, the chain's answers and Date.now(), which is in
-- milliseconds.
pub mod Owners
pub mod SignOut
mod Tests
use Prim.Native.Char.{code}
use Prim.Native.String.{String, [], ◌∷◌}
use vera_key.Prelude.{
  ℕ, zero, suc, ◌+◌, ◌-◌, ◌/◌, Bool, true, false, not, ◌&&◌, ◌||◌, List, [], ◌∷◌, Option, none,
  some, leb, ltb, nat_beq, ◌==◌, if◌then◌else◌, length,
}
use vera_key.Collections.Map
use vera_key.Collections.Set
use vera_key.Sdk.Values.{Value, text, number, length16}
use vera_key.Sdk.Connect.{Platform, message_field, is_bytes32}
use vera_key.Sdk.MemoryStore.{Store, claim, has}
use vera_key.Sdk.Session.{Player}

-- `exp` is in seconds.
pub record CookieSession : Type 0 where
  pub player : Player
  pub sid : String
  pub exp : ℕ

-- `nowSeconds()`
abbrev pub seconds : ℕ → ℕ
seconds now = now / 1000

abbrev pub is_lower_hex : ℕ → Bool
is_lower_hex c = (leb b'0' c && leb c b'9') || (leb b'a' c && leb c b'f')

-- `/^[0-9a-f]{n}$/`
unfoldable pub is_sid : ℕ → String → Bool
is_sid zero [] = true
is_sid zero (c ∷ s) = false
is_sid (suc n) [] = false
is_sid (suc n) (c ∷ s) = is_lower_hex (code c) && is_sid n s

abbrev pub is_one : Value → Bool
is_one (number n) = nat_beq n 1
is_one _ = false

abbrev pub as_text : Value → Option String
as_text (text s) = some s
as_text _ = none

abbrev pub as_number : Value → Option ℕ
as_number (number n) = some n
as_number _ = none

unfoldable pub decode_fields :
    Platform
    → (now : ℕ) → (id account sid : Option String) → (exp : Option ℕ) → Option CookieSession
decode_fields p now (some id) (some account) (some sid) (some exp) =
    if is_bytes32 p id && p.is_address account && is_sid 32 sid && not (leb exp (seconds now))
    then some (record { player = record { id = id; account = account }; sid = sid; exp = exp })
    else none
decode_fields p now _ _ _ _ = none

-- `decodeSession`, of what a cookie with a valid MAC holds. Here `is_address` is the test without checksums.
unfoldable pub decode_session : Platform → (now : ℕ) → Option Value → Option CookieSession
decode_session p now none = none
decode_session p now (some payload) =
    if is_one (message_field "v" payload)
    then decode_fields p now (as_text (message_field "id" payload))
        (as_text (message_field "account" payload)) (as_text (message_field "sid" payload))
        (as_number (message_field "exp" payload))
    else none

pub record Seen : Type 0 where
  pub owner : Bool
  pub next : ℕ

-- `ownerSeen` and the keys of `ownerChecks`.
pub record Checks : Type 0 where
  pub seen : List (String × Seen)
  pub checking : List String

abbrev pub max_owner_entries : ℕ
max_owner_entries = 10000

-- `ownerSeen.delete(ownerSeen.keys().next().value)`
abbrev pub drop_oldest : List (String × Seen) → List (String × Seen)
drop_oldest [] = []
drop_oldest ((sid, s) ∷ seen) = Map.delete sid ((sid, s) ∷ seen)

abbrev pub make_room : List (String × Seen) → List (String × Seen)
make_room seen = if leb max_owner_entries (length seen) then drop_oldest seen else seen

unfoldable pub remember_owner :
    (sid : String) → Bool → (next : ℕ) → List (String × Seen) → List (String × Seen)
remember_owner sid owner next seen =
    Map.set sid (record { owner = owner; next = next }) (make_room (Map.delete sid seen))

-- What `stillOwner` answers: at once, or with the check that it starts or joins.
pub data Owner : Type 0 where
  decided : Bool → Owner
  waits : Owner

abbrev pub start_check : (sid : String) → Checks → Owner × Checks
start_check sid c = (waits, record c { checking = Set.add sid c.checking })

abbrev pub seen_or_check : (sid : String) → (now : ℕ) → Option Seen → Checks → Owner × Checks
seen_or_check sid now none c = start_check sid c
seen_or_check sid now (some s) c =
    if not s.owner || ltb (seconds now) s.next then (decided s.owner, c) else start_check sid c

-- `stillOwner`; `every` is ownerCheckSeconds, `none` for Infinity.
unfoldable pub still_owner :
    (every : Option ℕ) → (sid : String) → (now : ℕ) → Checks → Owner × Checks
still_owner none sid now c = (decided true, c)
still_owner (some every) sid now c = seen_or_check sid now (Map.get sid c.seen) c

-- The chain's answer. `fails` is an error, or none within two seconds.
pub data ChainAnswer : Type 0 where
  not_deployed : ChainAnswer
  is_owner : Bool → ChainAnswer
  fails : ChainAnswer

abbrev pub min : ℕ → ℕ → ℕ
min a b = if leb a b then a else b

abbrev pub owner_of : ChainAnswer → Bool
owner_of not_deployed = true
owner_of (is_owner b) = b
owner_of fails = true

-- When the chain is asked again, in seconds.
abbrev pub wait_after : (every : ℕ) → ChainAnswer → ℕ
wait_after every fails = min 60 every
wait_after every _ = every

-- The end of `checkOwner`, which began at `began`.
unfoldable pub end_check :
    (every : ℕ) → (sid : String) → (began : ℕ) → ChainAnswer → Checks → Bool × Checks
end_check every sid began answer c = (
  owner_of answer,
  record c {
    seen = remember_owner sid (owner_of answer) (seconds began + wait_after every answer) c.seen;
    checking = Set.delete sid c.checking;
  },
)

abbrev pub sign_out_key : String → String
sign_out_key sid = Prim.Native.String.◌++◌ "signout:" sid

-- `signedOut`, with a store that answers.
unfoldable pub signed_out : CookieSession → (now : ℕ) → Store → Bool
signed_out s now store = has (sign_out_key s.sid) now store

-- `readSession` up to the owner check: the session, unless it was signed out.
abbrev pub current : Option CookieSession → (now : ℕ) → Store → Option CookieSession
current none now store = none
current (some s) now store = if signed_out s now store then none else some s

unfoldable pub read_session : Platform → (now : ℕ) → Option Value → Store → Option CookieSession
read_session p now cookie store = current (decode_session p now cookie) now store

abbrev pub max : ℕ → ℕ → ℕ
max a b = if leb a b then b else a

abbrev pub end_session : Option CookieSession → (now : ℕ) → Store → Store
end_session none now store = store
end_session (some s) now store =
    (claim (sign_out_key s.sid) (some (max 1 (s.exp - seconds now))) now store).0

-- `POST sign-out`, after the origin's check.
unfoldable pub sign_out : Platform → (now : ℕ) → Option Value → Store → Store
sign_out p now cookie store = end_session (decode_session p now cookie) now store
