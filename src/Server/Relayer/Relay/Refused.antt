-- ===== src/Server/Relayer/Relay/Refused.antt =====
-- server/relayer.ts, relay: a request that the day's gas refuses after it counted on the account's limit.
use vera_key.Prelude.{
  ℕ, ◌+◌, ◌≤◌, ◌<◌, ◌≡◌, refl, ap, ◌∙◌, String, true, false, Option, none, arith, ltb, le→leb,
  eq_iff,
}
use vera_key.Prelude.Text.{lower}
use vera_key.Collections.Set
use vera_key.Server.RateLimit.{RateLimiter, take}
use vera_key.Server.RateLimit.Laws.{IsValid, used, take_lem}
use vera_key.Server.Relayer.{refused, ok, failed, Context, Relayer}
use vera_key.Server.Relayer.Submit.{max_gas, gas_spent, assert_our_account, submit}
use vera_key.Server.Relayer.Submit.Laws.{IsReady}
use vera_key.Server.Relayer.Relay.{
  RelayRequest, Parsed, parsed_fee, call_of, check_body, check_fee, leave, defends, waives, charge,
  send, catch_leave, relay,
}
use vera_key.Server.Relayer.Relay.Cases.{entered}

-- The request passes every check up to its limits, defends nothing, and pays no fee.
pub record IsWaived (x : Context) (body : Option RelayRequest) (s : Relayer) (p : Parsed) (gas : ℕ)
    : Type 0 where
  pub checked : check_body x body ≡ ok p
  pub enough : check_fee x.fee (parsed_fee p) ≡ ok tt
  pub ours : assert_our_account x p.account ≡ ok tt
  pub free : Set.has (lower p.account) s.in_flight ≡ false
  pub defended : defends x p ≡ ok false
  pub excused : waives x p false (parsed_fee p) ≡ ok true
  pub ready : IsReady x (call_of p) gas

-- A limiter has room for a weight, or not.
pub record HasRoom (l : RateLimiter) (key : String) (weight now : ℕ) : Type 0 where
  pub window : 0 < l.window_ms
  pub valid : IsValid l
  pub room : used l key now + weight ≤ l.limit

pub record IsFull (l : RateLimiter) (key : String) (weight now : ℕ) : Type 0 where
  pub window : 0 < l.window_ms
  pub valid : IsValid l
  pub full : l.limit < used l key now + weight

abbrev counted_both : Context → String → Relayer → ℕ → Relayer
counted_both x busy s gas = record s {
  unpaid_safety_actions = (take s.unpaid_safety_actions busy 1 x.now).0;
  gas_per_day = (take s.gas_per_day "all" gas x.now).0;
}

HasRoom-take :
    (l : RateLimiter) (key : String) (weight now : ℕ)
    → HasRoom l key weight now
    → ((take l key weight now).1 ≡ true)
      × (used (take l key weight now).0 key now ≡ used l key now + weight)
HasRoom-take l key weight now h =
    let (answer, count) = take_lem l key weight now h.window h.valid in
    let granted = answer ∙ le→leb _ _ h.room in (granted, simp granted at count)

IsFull-take :
    (l : RateLimiter) (key : String) (weight now : ℕ)
    → IsFull l key weight now
    → ((take l key weight now).1 ≡ false)
      × (used (take l key weight now).0 key now ≡ used l key now)
IsFull-take l key weight now h =
    let (answer, count) = take_lem l key weight now h.window h.valid in
    let refused : (take l key weight now).1 ≡ false = ground (arith, answer, h.full) in
    (refused, simp refused at count)

send_waived :
    (x : Context) (body : Option RelayRequest) (s : Relayer) (p : Parsed) (gas : ℕ)
    → IsWaived x body s p gas
    → (take s.unpaid_safety_actions (lower p.account) 1 x.now).1 ≡ true
    → (take s.gas_per_day "all" gas x.now).1 ≡ false
    → send x p (entered (lower p.account) s) ≡ (
      failed (refused 429 gas_spent none),
      counted_both x (lower p.account) (entered (lower p.account) s) gas,
    )
unfolding send submit charge
send_waived x body s p gas w a b =
    let within : ltb max_gas gas ≡ false = ground (arith, w.ready.bounded) in
    rw (w.defended, w.excused, w.ready.simulated, w.ready.estimated, within, a, b) refl

-- When the day's gas has no room for a request that passed every other check, that does not defend
-- its account and whose fee is waived, and the account's unpaid actions have room, `relay` refuses
-- it with 429, sends nothing, leaves the accounts in flight and the gas counted as they were, yet
-- has counted one more of the account's unpaid actions of the day.
pub relay_gas_spent :
    (x : Context) (body : Option RelayRequest) (s : Relayer) (p : Parsed) (gas : ℕ)
    → IsWaived x body s p gas
    → HasRoom s.unpaid_safety_actions (lower p.account) 1 x.now
    → IsFull s.gas_per_day "all" gas x.now
    → ((relay x body s).0 ≡ failed (refused 429 gas_spent none))
      × ((relay x body s).1.sent ≡ s.sent)
      × ((j : String) → Set.has j (relay x body s).1.in_flight ≡ Set.has j s.in_flight)
      × (used (relay x body s).1.gas_per_day "all" x.now ≡ used s.gas_per_day "all" x.now)
      × (used (relay x body s).1.unpaid_safety_actions (lower p.account) x.now
          ≡ used s.unpaid_safety_actions (lower p.account) x.now + 1)
unfolding relay catch_leave leave
relay_gas_spent x body s p gas w r f =
    let busy = lower p.account in
    let (a, counted) = HasRoom-take s.unpaid_safety_actions busy 1 x.now r in
    let (b, kept) = IsFull-take s.gas_per_day "all" gas x.now f in
    let refusal : relay x body s ≡ (
      failed (refused 429 gas_spent none),
      leave busy (counted_both x busy (entered busy s) gas),
    ) =
      rw (w.checked, w.enough, w.ours, w.free, send_waived x body s p gas w a b) refl in
    (
      ap (λ q. q.0) refusal,
      ap (λ q. q.1.sent) refusal,
      λ j.
          ap (λ q. Set.has j q.1.in_flight) refusal
          ∙ ground (
            arith,
            Set.has-delete busy j (Set.add busy s.in_flight),
            Set.has-add busy j s.in_flight,
            w.free,
            eq_iff busy j,
          ),
      ap (λ q. used q.1.gas_per_day "all" x.now) refusal ∙ kept,
      ap (λ q. used q.1.unpaid_safety_actions busy x.now) refusal ∙ counted,
    )
