-- ===== src/Sdk/MemoryStore/Once.antt =====
-- memoryStore of packages/sdk/src/server.ts over time: calls in a row.
use vera_key.Prelude.{
  ℕ, ◌+◌, ◌≤◌, ◌≡◌, refl, String, true, false, not, ◌&&◌, List, [], ◌∷◌, Option, none, some, arith,
  ◌==◌, if◌then◌else◌, eq_iff,
}
use vera_key.Collections.Map
use vera_key.Sdk.MemoryStore.{Expiry, after, is_live, Store, expiry_of, claim, release, has}
use vera_key.Sdk.MemoryStore.Laws.{
  claim-has, has-claim, has-release, IsUnique-claim, IsUnique-release,
}

-- The calls that requests make, in the order in which they reach the store.
pub data Op : Type 0 where
  claims : (key : String) (ttl_seconds : Option ℕ) (now : ℕ) → Op
  releases : (key : String) (now : ℕ) → Op

abbrev pub time : Op → ℕ
time (claims key ttl now) = now
time (releases key now) = now

-- How often the calls accept a key.
unfoldable pub accepted : String → Store → List Op → ℕ
accepted key until [] = 0
accepted key until (claims k ttl now ∷ ops) =
    (if k == key && (claim k ttl now until).1 then 1 else 0)
    + accepted key (claim k ttl now until).0 ops
accepted key until (releases k now ∷ ops) = accepted key (release k until) ops

abbrev pub IsOrdered : ℕ → List Op → Type 0
IsOrdered from [] = Unit
IsOrdered from (op ∷ ops) = (from ≤ time op) × IsOrdered (time op) ops

-- No call releases the key.
abbrev pub Keeps : String → List Op → Type 0
Keeps key [] = Unit
Keeps key (claims k ttl now ∷ ops) = Keeps key ops
Keeps key (releases k now ∷ ops) = ((k == key) ≡ false) × Keeps key ops

-- Every claim of the key lasts at least until a time.
abbrev pub Lasts : String → ℕ → List Op → Type 0
Lasts key end [] = Unit
Lasts key end (claims k ttl now ∷ ops) =
    ((k == key && not (after (expiry_of ttl now) end)) ≡ false) × Lasts key end ops
Lasts key end (releases k now ∷ ops) = Lasts key end ops

-- The calls come before a time.
abbrev pub Before : ℕ → List Op → Type 0
Before end [] = Unit
Before end (op ∷ ops) = (time op ≤ end) × Before end ops

after_earlier : (e : Expiry) (t end : ℕ) → t ≤ end → after e end ≡ true → after e t ≡ true
after_earlier (Expiry.at x) t end h a = ground arith
after_earlier Expiry.never t end h a = refl

is_live_earlier :
    (o : Option Expiry) (t end : ℕ) → t ≤ end → is_live o end ≡ true → is_live o t ≡ true
is_live_earlier none t end h l = l
is_live_earlier (some e) t end h l = after_earlier e t end h l

has_earlier :
    (key : String) (t end : ℕ) (until : Store)
    → t ≤ end
    → has key end until ≡ true
    → has key t until ≡ true
unfolding has
has_earlier key t end until h l = is_live_earlier (Map.get key until) t end h l

accepted_held :
    (key : String) (from end : ℕ) (until : Store) (ops : List Op)
    → Map.IsUnique until
    → IsOrdered from ops
    → Before end ops
    → Keeps key ops
    → has key end until ≡ true
    → accepted key until ops ≡ 0
unfolding accepted
accepted_held key from end until [] u o b k l = refl
accepted_held key from end until (claims j ttl now ∷ ops) u o b k l = ground (
  arith,
  claim-has j ttl now until,
  has_earlier key now end until b.0 l,
  has-claim j key ttl now end until u b.0,
  eq_iff j key,
  accepted_held key now end (claim j ttl now until).0 ops (IsUnique-claim j ttl now until u) o.1 b.1
      k,
)
accepted_held key from end until (releases j now ∷ ops) u o b k l = ground (
  arith,
  has-release j key end until,
  accepted_held key now end (release j until) ops (IsUnique-release j until u) o.1 b.1 k.1,
)

-- A key is accepted at most once by all calls up to a time together, whatever other keys are
-- claimed and released: the calls come in the order of their times, none releases the key, and
-- every claim of it lasts beyond that time, as one without a time to live does.
pub accepted-le-one :
    (key : String) (from end : ℕ) (until : Store) (ops : List Op)
    → Map.IsUnique until
    → IsOrdered from ops
    → Before end ops
    → Keeps key ops
    → Lasts key end ops
    → accepted key until ops ≤ 1
unfolding accepted
accepted-le-one key from end until [] u o b k l = omega arith
accepted-le-one key from end until (claims j ttl now ∷ ops) u o b k l = ground (
  arith,
  has-claim j key ttl now end until u b.0,
  l.0,
  accepted_held key now end (claim j ttl now until).0 ops (IsUnique-claim j ttl now until u) o.1 b.1
      k,
  accepted-le-one key now end (claim j ttl now until).0 ops (IsUnique-claim j ttl now until u) o.1
      b.1 k l.1,
)
accepted-le-one key from end until (releases j now ∷ ops) u o b k l =
    accepted-le-one key now end (release j until) ops (IsUnique-release j until u) o.1 b.1 k.1 l
