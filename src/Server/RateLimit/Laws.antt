-- ===== src/Server/RateLimit/Laws.antt =====
-- RateLimiter of server/rate-limit.ts against its contract: what a key has used of its window.
use vera_key.Prelude.{
  ℕ, ◌+◌, ◌≤◌, ◌<◌, ◌≡◌, String, Bool, false, Option, none, some, arith, leb, ltb, ◌==◌,
  if◌then◌else◌, Option-cases, Bool-cases, inl, inr, refl,
}
use vera_key.Collections.Map
use vera_key.Server.RateLimit.{Window, RateLimiter, expired, sweep, open_window, count_in, take}

-- What the window still open at a time has counted; nothing once it has expired.
abbrev pub counted : ℕ → ℕ → Option Window → ℕ
counted window_ms now none = 0
counted window_ms now (some w) = if expired window_ms now w then 0 else w.count

-- The contract's view of a limiter: how much `key` has used at a time.
unfoldable pub used : RateLimiter → String → ℕ → ℕ
used l key now = counted l.window_ms now (Map.get key l.windows)

abbrev pub WindowFits : ℕ → Option Window → Type 0
WindowFits limit none = Unit
WindowFits limit (some w) = w.count ≤ limit

pub record IsValid (l : RateLimiter) : Type 0 where
  pub unique : Map.IsUnique l.windows
  pub fits : (key : String) → WindowFits l.limit (Map.get key l.windows)

pub counted-kept :
    (window_ms now later : ℕ) (o : Option Window)
    → now ≤ later
    → counted window_ms later (Map.kept (expired window_ms now) o) ≡ counted window_ms later o
counted-kept window_ms now later none h = refl
counted-kept window_ms now later (some w) h = ground arith

-- A sweep changes no answer from its time on.
pub used-sweep :
    (l : RateLimiter) (key : String) (now later : ℕ)
    → Map.IsUnique l.windows
    → now ≤ later
    → used (sweep l now) key later ≡ used l key later
unfolding used sweep
used-sweep l key now later u h = ground (
  arith,
  Map.get-sweep (expired l.window_ms now) key l.windows u,
  counted-kept l.window_ms now later (Map.get key l.windows) h,
)

abbrev pub put : RateLimiter → String → Window → RateLimiter
put l key w = record l { windows = Map.set key w l.windows }

used-put_self :
    (l : RateLimiter) (key : String) (w : Window) (now : ℕ)
    → used (put l key w) key now ≡ counted l.window_ms now (some w)
unfolding used
used-put_self l key w now = rw (Map.get-set_self key w l.windows)

used-put_other :
    (l : RateLimiter) (key j : String) (w : Window) (now : ℕ)
    → (key == j) ≡ false
    → used (put l key w) j now ≡ used l j now
unfolding used
used-put_other l key j w now n = rw (Map.get-set key j w l.windows, n)

used_of_get :
    (l : RateLimiter) (key : String) (now : ℕ) (o : Option Window)
    → Map.get key l.windows ≡ o
    → used l key now ≡ counted l.window_ms now o
unfolding used
used_of_get l key now o e = rw e

-- With a valid limiter and a window that is not empty, `take` answers whether the key's use of its
-- window, with the new weight, is within the limit; then the key has used that much more, and
-- otherwise as much as before.
pub take_lem :
    (l : RateLimiter) (key : String) (weight now : ℕ)
    → 0 < l.window_ms
    → IsValid l
    → ((take l key weight now).1 ≡ leb (used l key now + weight) l.limit)
      × (used (take l key weight now).0 key now
          ≡ (if (take l key weight now).1 then used l key now + weight else used l key now))
unfolding take
take_lem l key weight now w v =
    let fresh : Window = record { start = now; count = weight } in
    let swept =
      used-sweep (put l key fresh) key now now (Map.IsUnique-set key fresh l.windows v.unique) in
    elim (Option-cases (Map.get key l.windows)) [
      | inl e ↦
          ground (arith, e, used_of_get l key now none e, used-put_self l key fresh now, swept)
      | inr (x, e) ↦ ground (
        arith,
        used_of_get l key now (some x) e,
        used-put_self l key fresh now,
        used-put_self l key (record x { count = x.count + weight }) now,
        swept,
      )
    ]

-- A refusal leaves the limiter as it was.
pub take_refused-eq :
    (l : RateLimiter) (key : String) (weight now : ℕ)
    → (take l key weight now).1 ≡ false
    → (take l key weight now).0 ≡ l
unfolding take
take_refused-eq l key weight now h = ground arith

-- A call of `take` on a valid limiter leaves what every other key has used as it was, from the
-- call's time on, although it may sweep expired windows.
pub used-take_other :
    (l : RateLimiter) (key j : String) (weight now later : ℕ)
    → IsValid l
    → (key == j) ≡ false
    → now ≤ later
    → used (take l key weight now).0 j later ≡ used l j later
unfolding take
used-take_other l key j weight now later v n h =
    let fresh : Window = record { start = now; count = weight } in
    let swept =
      used-sweep (put l key fresh) j now later (Map.IsUnique-set key fresh l.windows v.unique) h in
    elim (Option-cases (Map.get key l.windows)) [
      | inl e ↦ ground (arith, swept, used-put_other l key j fresh later n)
      | inr (x, e) ↦ ground (
        arith,
        swept,
        used-put_other l key j fresh later n,
        used-put_other l key j (record x { count = x.count + weight }) later n,
      )
    ]

WindowFits-kept :
    (limit : ℕ) (drop : Window → Bool) (o : Option Window)
    → WindowFits limit o
    → WindowFits limit (Map.kept drop o)
WindowFits-kept limit drop none f = tt
WindowFits-kept limit drop (some w) f = ground arith

sweep-IsValid : (l : RateLimiter) (now : ℕ) → IsValid l → IsValid (sweep l now)
unfolding sweep
sweep-IsValid l now v = record {
  unique = ground (arith, Map.IsUnique-sweep (expired l.window_ms now) l.windows v.unique);
  fits = λ key. ground (
    arith,
    v.fits key,
    Map.get-sweep (expired l.window_ms now) key l.windows v.unique,
    WindowFits-kept l.limit (expired l.window_ms now) (Map.get key l.windows) (v.fits key),
  );
}

put-IsValid :
    (l : RateLimiter) (key : String) (w : Window)
    → IsValid l
    → w.count ≤ l.limit
    → IsValid (put l key w)
put-IsValid l key w v h = record {
  unique = Map.IsUnique-set key w l.windows v.unique;
  fits = λ j. ground (arith, v.fits j, Map.get-set key j w l.windows);
}

open_window-IsValid :
    (l : RateLimiter) (key : String) (weight now : ℕ)
    → IsValid l
    → IsValid (open_window l key weight now).0
unfolding open_window
open_window-IsValid l key weight now v =
    let fresh : Window = record { start = now; count = weight } in
    elim (Bool-cases (ltb l.limit weight)) [
      | inl over ↦ rw over v
      | inr within ↦
          rw within (sweep-IsValid (put l key fresh) now (put-IsValid l key fresh v (ground arith)))
    ]

count_in-IsValid :
    (l : RateLimiter) (key : String) (weight : ℕ) (w : Window)
    → IsValid l
    → IsValid (count_in l key weight w).0
unfolding count_in
count_in-IsValid l key weight w v = elim (Bool-cases (ltb l.limit (w.count + weight))) [
  | inl over ↦ rw over v
  | inr within ↦
      rw within (put-IsValid l key (record w { count = w.count + weight }) v (ground arith))
]

-- `take` keeps a limiter valid: no window counts more than the limit, and each key has one window.
pub take-IsValid :
    (l : RateLimiter) (key : String) (weight now : ℕ)
    → IsValid l
    → IsValid (take l key weight now).0
unfolding take
take-IsValid l key weight now v = elim (Option-cases (Map.get key l.windows)) [
  | inl e ↦ rw (e, take) (open_window-IsValid l key weight now v)
  | inr (w, e) ↦ elim (Bool-cases (expired l.window_ms now w)) [
    | inl old ↦ rw (e, take) (rw old (open_window-IsValid l key weight now v))
    | inr live ↦ rw (e, take) (rw live (count_in-IsValid l key weight w v))
  ]
]

-- `take` keeps the limiter's settings.
pub take-settings :
    (l : RateLimiter) (key : String) (weight now : ℕ)
    → ((take l key weight now).0.limit ≡ l.limit)
      × ((take l key weight now).0.window_ms ≡ l.window_ms)
unfolding take sweep
take-settings l key weight now = ground arith
