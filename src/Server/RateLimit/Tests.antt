-- ===== src/Server/RateLimit/Tests.antt =====
-- RateLimiter of server/rate-limit.ts at concrete calls.
use vera_key.Prelude.{
  ◌+◌, ◌*◌, ◌≤◌, ◌≡◌, refl, true, false, List, [], ◌∷◌, arith, leb, if◌then◌else◌,
}
use vera_key.Collections.Map
use vera_key.Server.RateLimit.{RateLimiter, take, sweep}
use vera_key.Server.RateLimit.Laws.{IsValid, used, take_lem}
use vera_key.Server.RateLimit.Bounds.{Request, total, total-le}

abbrev limiter : RateLimiter
limiter = record {
  limit = 5;
  window_ms = 100;
  windows = ("a", record { start = 10; count = 4 }) ∷ [];
}

limiter-IsValid : IsValid limiter
unfolding Map.get
limiter-IsValid = record { unique = (tt, tt); fits = λ key. ground arith }

take_tests :
    ((take limiter "a" 1 50).1 ≡ true)
    × ((take limiter "a" 2 50).1 ≡ false)
    × ((take limiter "a" 2 110).1 ≡ true)
    × ((take limiter "b" 6 50).1 ≡ false)
unfolding take sweep Map.get Map.set
take_tests = (refl, refl, refl, refl)

abbrev calls : List Request
calls =
    record { key = "a"; weight = 1; now = 50 }
    ∷ record { key = "b"; weight = 5; now = 60 }
    ∷ record { key = "a"; weight = 5; now = 120 }
    ∷ []

total-calls : total limiter "a" calls ≡ 6
unfolding total take sweep Map.get Map.set
total-calls = refl

take_lem_example :
    ((take limiter "a" 1 50).1 ≡ leb (used limiter "a" 50 + 1) 5)
    × (used (take limiter "a" 1 50).0 "a" 50
        ≡ (if (take limiter "a" 1 50).1 then used limiter "a" 50 + 1 else used limiter "a" 50))
take_lem_example = take_lem limiter "a" 1 50 (omega arith) limiter-IsValid

total-le_example : total limiter "a" calls ≤ 2 * 5
total-le_example = total-le 30 limiter "a" calls limiter-IsValid (omega arith)
