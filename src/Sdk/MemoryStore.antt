-- ===== src/Sdk/MemoryStore.antt =====
-- packages/sdk/src/server.ts: memoryStore, the store that accepts each key once. Times are
-- milliseconds, and Date.now() is an argument of each call.
pub mod Laws
pub mod Once
mod Tests
use vera_key.Prelude.{
  ℕ, ◌+◌, ◌*◌, String, Bool, true, false, List, Option, none, some, leb, ltb, not, if◌then◌else◌,
  length,
}
use vera_key.Collections.Map

-- `never` is Number.POSITIVE_INFINITY.
pub data Expiry : Type 0 where
  at : ℕ → Expiry
  never : Expiry

-- `expiry > now`
abbrev pub after : Expiry → ℕ → Bool
after (at t) now = ltb now t
after never now = true

abbrev pub is_live : Option Expiry → ℕ → Bool
is_live none now = false
is_live (some e) now = after e now

abbrev pub Store : Type 0
Store = List (String × Expiry)

abbrev pub expiry_of : Option ℕ → ℕ → Expiry
expiry_of none now = never
expiry_of (some ttl_seconds) now = at (now + ttl_seconds * 1000)

-- `if (until.size > 10_000) for (const [k, e] of until) if (e <= now) until.delete(k)`
unfoldable pub tidy : ℕ → Store → Store
tidy now until =
    if ltb 10000 (length until) then Map.sweep (λ e. not (after e now)) until else until

unfoldable pub claim : String → Option ℕ → ℕ → Store → Store × Bool
claim key ttl_seconds now until =
    if is_live (Map.get key until) now
    then (until, false)
    else (tidy now (Map.set key (expiry_of ttl_seconds now) until), true)

unfoldable pub release : String → Store → Store
release key until = Map.delete key until

unfoldable pub has : String → ℕ → Store → Bool
has key now until = is_live (Map.get key until) now
