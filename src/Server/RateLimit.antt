-- ===== src/Server/RateLimit.antt =====
-- server/rate-limit.ts, the class RateLimiter. Times are milliseconds, Date.now() is an argument of
-- each call, and limits and weights are whole numbers.
pub mod Laws
pub mod Bounds
mod Tests
use vera_key.Prelude.{
  ℕ, ◌+◌, String, Bool, true, false, List, none, some, leb, ltb, if◌then◌else◌, length,
}
use vera_key.Collections.Map

pub record Window : Type 0 where
  pub start : ℕ
  pub count : ℕ

pub record RateLimiter : Type 0 where
  pub limit : ℕ
  pub window_ms : ℕ
  pub windows : List (String × Window)

-- `now - window.start >= windowMs`
abbrev pub expired : ℕ → ℕ → Window → Bool
expired window_ms now w = leb (w.start + window_ms) now

unfoldable pub sweep : RateLimiter → ℕ → RateLimiter
sweep l now =
    if ltb (length l.windows) 10000
    then l
    else record l { windows = Map.sweep (expired l.window_ms now) l.windows }

-- The branch of `take` that opens a new window.
unfoldable pub open_window : RateLimiter → String → ℕ → ℕ → RateLimiter × Bool
open_window l key weight now = if ltb l.limit weight then (l, false) else (
  sweep (record l { windows = Map.set key (record { start = now; count = weight }) l.windows }) now,
  true,
)

-- The branch of `take` that counts in the current window.
unfoldable pub count_in : RateLimiter → String → ℕ → Window → RateLimiter × Bool
count_in l key weight w = if ltb l.limit (w.count + weight) then (l, false) else (
  record l { windows = Map.set key (record w { count = w.count + weight }) l.windows },
  true,
)

unfoldable pub take : RateLimiter → String → ℕ → ℕ → RateLimiter × Bool
unfolding open_window count_in
take l key weight now = elim (Map.get key l.windows) [
  | none ↦ open_window l key weight now
  | some w ↦
      if expired l.window_ms now w then open_window l key weight now else count_in l key weight w
]
