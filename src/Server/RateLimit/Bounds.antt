-- ===== src/Server/RateLimit/Bounds.antt =====
-- RateLimiter of server/rate-limit.ts over time: what all calls of a stretch shorter than a window
-- are granted together.
use vera_key.Prelude.{
  ℕ, ◌+◌, ◌-◌, ◌*◌, ◌≤◌, ◌<◌, ◌≡◌, String, Bool, false, ◌&&◌, List, [], ◌∷◌, Option, none, some,
  arith, leb, ◌==◌, if◌then◌else◌, Option-cases, String-cases, inl, inr, eq_refl,
}
use vera_key.Collections.Map
use vera_key.Server.RateLimit.{Window, RateLimiter, expired, sweep, take}
use vera_key.Server.RateLimit.Laws.{IsValid, put, take-IsValid, take-settings}

pub record Request : Type 0 where
  pub key : String
  pub weight : ℕ
  pub now : ℕ

-- The weight that one call grants a key.
abbrev pub granted : String → Request → Bool → ℕ
granted key r answer = if r.key == key && answer then r.weight else 0

-- The weight that calls in a row grant a key.
unfoldable pub total : RateLimiter → String → List Request → ℕ
total l key [] = 0
total l key (r ∷ rs) =
    granted key r (take l r.key r.weight r.now).1 + total (take l r.key r.weight r.now).0 key rs

-- The calls come in the order of their times, from `from` on and before `end`.
abbrev pub IsDuring : ℕ → ℕ → List Request → Type 0
IsDuring from end [] = Unit
IsDuring from end (r ∷ rs) = (from ≤ r.now) × (r.now < end) × IsDuring r.now end rs

-- What a key may still be granted in a stretch that began at `begin`.
abbrev room : ℕ → ℕ → Option Window → ℕ
room begin limit none = limit
room begin limit (some w) = if leb begin w.start then limit - w.count else limit - w.count + limit

abbrev room_of : ℕ → RateLimiter → String → ℕ
room_of begin l key = room begin l.limit (Map.get key l.windows)

room-kept :
    (begin limit window_ms now : ℕ) (o : Option Window)
    → now < begin + window_ms
    → room begin limit (Map.kept (expired window_ms now) o) ≤ room begin limit o
room-kept begin limit window_ms now none h = omega arith
room-kept begin limit window_ms now (some w) h = ground arith

room-sweep :
    (begin : ℕ) (l : RateLimiter) (key : String) (now : ℕ)
    → Map.IsUnique l.windows
    → now < begin + l.window_ms
    → room_of begin (sweep l now) key ≤ room_of begin l key
unfolding sweep
room-sweep begin l key now u h = ground (
  arith,
  Map.get-sweep (expired l.window_ms now) key l.windows u,
  room-kept begin l.limit l.window_ms now (Map.get key l.windows) h,
)

module _ (begin : ℕ) (l : RateLimiter) (r : Request) (v : IsValid l) where
  fresh : Window
  fresh = record { start = r.now; count = r.weight }

  room-fresh :
      (key : String)
      → r.now < begin + l.window_ms
      → room_of begin (sweep (put l r.key fresh) r.now) key ≤ room_of begin (put l r.key fresh) key
  room-fresh key before =
      room-sweep begin (put l r.key fresh) key r.now
        (Map.IsUnique-set r.key fresh l.windows v.unique) before

  room-take_self :
      begin ≤ r.now
      → r.now < begin + l.window_ms
      → room_of begin (take l r.key r.weight r.now).0 r.key
          + (if (take l r.key r.weight r.now).1 then r.weight else 0)
        ≤ room_of begin l r.key
  unfolding take fresh
  room-take_self after before = elim (Option-cases (Map.get r.key l.windows)) [
    | inl e ↦ ground (arith, e, room-fresh r.key before, Map.get-set_self r.key fresh l.windows)
    | inr (w, e) ↦ ground (
      arith,
      e,
      v.fits r.key,
      room-fresh r.key before,
      Map.get-set_self r.key fresh l.windows,
      Map.get-set_self r.key (record w { count = w.count + r.weight }) l.windows,
    )
  ]

  room-take_other :
      (key : String)
      → (r.key == key) ≡ false
      → r.now < begin + l.window_ms
      → room_of begin (take l r.key r.weight r.now).0 key ≤ room_of begin l key
  unfolding take fresh
  room-take_other key n before = elim (Option-cases (Map.get r.key l.windows)) [
    | inl e ↦ ground (arith, e, room-fresh key before, Map.get-set r.key key fresh l.windows)
    | inr (w, e) ↦ ground (
      arith,
      e,
      room-fresh key before,
      Map.get-set r.key key fresh l.windows,
      Map.get-set r.key key (record w { count = w.count + r.weight }) l.windows,
    )
  ]

room-take :
    (begin : ℕ) (l : RateLimiter) (key : String) (r : Request)
    → IsValid l
    → begin ≤ r.now
    → r.now < begin + l.window_ms
    → granted key r (take l r.key r.weight r.now).1
        + room_of begin (take l r.key r.weight r.now).0 key
      ≤ room_of begin l key
room-take begin l key r v after before = elim (String-cases r.key key) [
  | inl (same, e) ↦
      rw (← same) (ground (arith, eq_refl r.key, room-take_self begin l r v after before))
  | inr other ↦ rw other (omega (arith, room-take_other begin l r v key other before))
]

total-le-room :
    (begin from : ℕ) (l : RateLimiter) (key : String) (rs : List Request)
    → IsValid l
    → begin ≤ from
    → IsDuring from (begin + l.window_ms) rs
    → total l key rs ≤ room_of begin l key
unfolding total
total-le-room begin from l key [] v h d = omega arith
total-le-room begin from l key (r ∷ rs) v h (after, before, d) =
    let (same_limit, same_window) = take-settings l r.key r.weight r.now in
    let l' : RateLimiter = (take l r.key r.weight r.now).0 in
    let ih =
      total-le-room begin r.now l' key rs (take-IsValid l r.key r.weight r.now v) (omega arith)
        (rw same_window d) in
    omega (arith, ih, room-take begin l key r v (omega arith) before)

room-le : (begin limit : ℕ) (o : Option Window) → room begin limit o ≤ 2 * limit
room-le begin limit none = omega arith
room-le begin limit (some w) = ground arith

-- Calls in the order of their times, over a stretch no longer than one window of a valid limiter,
-- grant a key at most twice the limit together, whatever the other keys ask and whatever came
-- before.
pub total-le :
    (begin : ℕ) (l : RateLimiter) (key : String) (rs : List Request)
    → IsValid l
    → IsDuring begin (begin + l.window_ms) rs
    → total l key rs ≤ 2 * l.limit
total-le begin l key rs v d = omega (
  arith,
  total-le-room begin begin l key rs v (omega arith) d,
  room-le begin l.limit (Map.get key l.windows),
)

-- If a key has no window in a valid limiter when a stretch no longer than one window begins, calls
-- in the order of their times grant it at most the limit together.
pub total-le_fresh :
    (begin : ℕ) (l : RateLimiter) (key : String) (rs : List Request)
    → IsValid l
    → Map.get key l.windows ≡ none
    → IsDuring begin (begin + l.window_ms) rs
    → total l key rs ≤ l.limit
total-le_fresh begin l key rs v e d =
    ground (arith, e, total-le-room begin begin l key rs v (omega arith) d)
