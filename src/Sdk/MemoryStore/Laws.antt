-- ===== src/Sdk/MemoryStore/Laws.antt =====
-- memoryStore of packages/sdk/src/server.ts: what each operation does to each key.
use vera_key.Prelude.{
  ℕ, ◌≤◌, ◌≡◌, refl, String, false, not, ◌&&◌, List, Option, none, some, arith, ◌==◌, if◌then◌else◌,
  Bool-cases, inl, inr,
}
use vera_key.Collections.Map
use vera_key.Sdk.MemoryStore.{Expiry, after, is_live, Store, expiry_of, tidy, claim, release, has}

is_live-kept :
    (o : Option Expiry) (now later : ℕ)
    → now ≤ later
    → is_live (Map.kept (λ e. not (after e now)) o) later ≡ is_live o later
is_live-kept none now later h = refl
is_live-kept (some (Expiry.at t)) now later h = ground arith
is_live-kept (some Expiry.never) now later h = refl

-- Tidying up changes no answer from its time on.
pub has-tidy :
    (key : String) (now later : ℕ) (until : Store)
    → Map.IsUnique until
    → now ≤ later
    → has key later (tidy now until) ≡ has key later until
unfolding has tidy
has-tidy key now later until u h = ground (
  arith,
  Map.get-sweep (λ e. not (after e now)) key until u,
  is_live-kept (Map.get key until) now later h,
)

-- A claim succeeds exactly for a key that is not claimed then.
pub claim-has :
    (key : String) (ttl : Option ℕ) (now : ℕ) (until : Store)
    → (claim key ttl now until).1 ≡ not (has key now until)
unfolding claim has
claim-has key ttl now until = ground arith

has-set :
    (key j : String) (e : Expiry) (later : ℕ) (until : Store)
    → has j later (Map.set key e until) ≡ (if key == j then after e later else has j later until)
unfolding has
has-set key j e later until = ground (arith, Map.get-set key j e until)

-- After a claim at `now`, a key is held at a later time exactly if it was held already, or it is
-- the key that the call claimed and its time is not over.
pub has-claim :
    (key j : String) (ttl : Option ℕ) (now later : ℕ) (until : Store)
    → Map.IsUnique until
    → now ≤ later
    → has j later (claim key ttl now until).0 ≡ (
        if key == j && (claim key ttl now until).1
        then after (expiry_of ttl now) later
        else has j later until)
unfolding claim
has-claim key j ttl now later until u h = elim (Bool-cases (has key now until)) [
  | inl held ↦ ground (arith, held, (claim-has key ttl now until))
  | inr free ↦
      let e = expiry_of ttl now in
      ground (
        arith,
        claim-has key ttl now until,
        free,
        has-tidy j now later (Map.set key e until) (Map.IsUnique-set key e until u) h,
        has-set key j e later until,
      )
]

-- A release frees its key, and no other.
pub has-release :
    (key j : String) (now : ℕ) (until : Store)
    → has j now (release key until) ≡ (if key == j then false else has j now until)
unfolding has release
has-release key j now until = ground (arith, Map.get-delete key j until)

pub IsUnique-claim :
    (key : String) (ttl : Option ℕ) (now : ℕ) (until : Store)
    → Map.IsUnique until
    → Map.IsUnique (claim key ttl now until).0
unfolding claim tidy
IsUnique-claim key ttl now until u =
    let e = expiry_of ttl now in
    ground (
      arith,
      Map.IsUnique-set key e until u,
      Map.IsUnique-sweep (λ e. not (after e now)) (Map.set key e until),
    )

IsUnique-delete :
    (key : String) (until : Store) → Map.IsUnique until → Map.IsUnique (Map.delete key until)
unfolding Map.delete
IsUnique-delete key List.[] u = tt
IsUnique-delete key (List.◌∷◌ (j, e) m) u =
    ground (arith, IsUnique-delete key m u.1, Map.Absent-delete key j m u.0)

pub IsUnique-release :
    (key : String) (until : Store) → Map.IsUnique until → Map.IsUnique (release key until)
unfolding release
IsUnique-release key until u = IsUnique-delete key until u
