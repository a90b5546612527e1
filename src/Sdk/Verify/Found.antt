-- ===== src/Sdk/Verify/Found.antt =====
-- packages/sdk/src/signin.ts: how findPayment ends.
use vera_key.Prelude.{
  ℕ, zero, suc, ◌+◌, ◌*◌, ◌/◌, ◌≤◌, ◌<◌, ◌≡◌, inl, inr, refl, sym, ap, ◌∙◌, String, true, List, [],
  ◌∷◌, Option, none, some, arith, leb, leb→le, Bool-cases,
}
use vera_key.Sdk.Payment.{Outcome, ok, refuses, crashes}
use vera_key.Sdk.Verify.{or_else}
use vera_key.Sdk.Verify.Payments.{Rounds, ask_round, end_round, find_from, find_payment}

-- The round that ends the search, and its end: the rounds before it found nothing, before the deadline.
pub record IsFound (ask : ℕ → Outcome (List String)) (time : ℕ → ℕ) (deadline : ℕ) (first : ℕ)
    (found : Outcome (Option String)) : Type 0 where
  pub last : ℕ
  pub not_before : first ≤ last
  pub earlier :
      (round : ℕ) → first ≤ round → round < last → (ask round ≡ ok []) × (time round < deadline)
  pub ends : end_round true none (ask last) ≡ some found
  pub in_time : ask last ≡ ok [] → deadline ≤ time last

module _ (ask : ℕ → Outcome (List String)) (time : ℕ → ℕ) (deadline : ℕ) where
  -- A round that ends the search.
  now-IsFound :
      (round : ℕ) (found : Outcome (Option String))
      → end_round true none (ask round) ≡ some found
      → (ask round ≡ ok [] → deadline ≤ time round)
      → IsFound ask time deadline round found
  now-IsFound round found e t = record {
    last = round;
    not_before = omega arith;
    earlier = λ r a b. absurd (omega (arith, a, b));
    ends = e;
    in_time = t;
  }

  -- A round that finds nothing in time.
  later-IsFound :
      (round : ℕ) (found : Outcome (Option String))
      → ask round ≡ ok []
      → time round < deadline
      → IsFound ask time deadline (suc round) found
      → IsFound ask time deadline round found
  later-IsFound round found e t f = record {
    last = f.last;
    not_before = omega (arith, f.not_before);
    earlier = λ r a b. elim (Bool-cases (leb (suc round) r)) [
      | inl y ↦ f.earlier r (leb→le (suc round) r y) b
      | inr n ↦
          let same : round ≡ r = ground (arith, a, n) in
          (ap ask (sym same) ∙ e, ground (arith, ap time same, t))
    ];
    ends = f.ends;
    in_time = f.in_time;
  }

  abbrev Ends : (fuel round : ℕ) → Type 0
  Ends fuel round =
      (found : Outcome (Option String)) × (find_from ask time deadline fuel round ≡ some found)
      × IsFound ask time deadline round found

  round-Ends :
      (fuel round : ℕ) (answer : Outcome (List String))
      → ask round ≡ answer
      → (time round < deadline → Ends fuel (suc round))
      → Ends (suc fuel) round
  unfolding find_from
  round-Ends fuel round (ok (hash ∷ hashes)) e next = (
    ok (some hash),
    ground (arith, e),
    now-IsFound round (ok (some hash)) (ground (arith, e)) λ n. ground (arith, e, n),
  )
  round-Ends fuel round (ok []) e next = elim (Bool-cases (leb deadline (time round))) [
    | inl y ↦ (
      ok none,
      ground (arith, e, y),
      now-IsFound round (ok none) (ground (arith, e)) λ n. leb→le deadline (time round) y,
    )
    | inr n ↦
        let late : time round < deadline = ground (arith, n) in
        let (found, same, f) = next late in
        (found, ground (arith, e, n, same), later-IsFound round found e late f)
  ]
  round-Ends fuel round (refuses r) e next = (
    refuses r,
    ground (arith, e),
    now-IsFound round (refuses r) (ground (arith, e)) λ n. ground (arith, e, n),
  )
  round-Ends fuel round crashes e next = (
    crashes,
    ground (arith, e),
    now-IsFound round crashes (ground (arith, e)) λ n. ground (arith, e, n),
  )

  -- A search that has the fuel for the rounds until the deadline ends.
  find_from-Ends :
      (fuel round : ℕ)
      → ((r : ℕ) → time r + 2000 ≤ time (suc r))
      → deadline ≤ time round + fuel * 2000
      → Ends (suc fuel) round
  find_from-Ends zero round w h =
      round-Ends 0 round (ask round) refl λ late. absurd (omega (arith, h, late))
  find_from-Ends (suc fuel) round w h =
      round-Ends (suc fuel) round (ask round) refl
        λ late. find_from-Ends fuel (suc round) w (omega (arith, h, w round))

-- findPayment ends, if its first round ends after its start and each round at least two seconds
-- after the one before: some round ends it with the first hash that it finds, with none once the
-- deadline is over, or with its failure; every round before found nothing, before the deadline.
pub find_payment-IsFound :
    (r : Rounds) (start : ℕ) (account : String) (nonce : ℕ) (from timeout : Option ℕ)
    → start ≤ r.time 0
    → ((round : ℕ) → r.time round + 2000 ≤ r.time (suc round))
    → (found : Outcome (Option String)) × (find_payment r start account nonce from timeout
        ≡ some found)
      × IsFound (ask_round r account nonce from) r.time (start + or_else timeout 30000) 0 found
unfolding find_payment
find_payment-IsFound r start account nonce from timeout s w =
    let wait = or_else timeout 30000 in
    find_from-Ends (ask_round r account nonce from) r.time (start + wait) (suc (wait / 2000)) 0 w
      (omega (arith, s))
