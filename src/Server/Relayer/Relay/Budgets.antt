-- ===== src/Server/Relayer/Relay/Budgets.antt =====
-- server/relayer.ts, relay: what its limits count.
use vera_key.Prelude.{
  ℕ, ◌≡◌, ◌⊎◌, inl, inr, refl, ap, sym, ◌∙◌, String, Bool, true, false, Option, none, some, ltb,
  Bool-cases,
}
use vera_key.Prelude.Text.{lower}
use vera_key.Collections.Set
use vera_key.Server.RateLimit.{RateLimiter}
use vera_key.Server.Relayer.{
  Outcome, ok, failed, Value, Call, Node, answered, reverted, unreachable, Context, Relayer, M,
  next,
}
use vera_key.Server.Relayer.Submit.{max_gas, assert_our_account, broadcast, submit}
use vera_key.Server.Relayer.Submit.Laws.{IsReady}
use vera_key.Server.Relayer.Relay.{
  RelayRequest, Parsed, parsed_fee, call_of, check_body, check_fee, leave, defends, waives, charge,
  send, catch_leave, relay,
}
use vera_key.Server.Relayer.Relay.Cases.{entered, IsAdmitted, relay_cases, send_cases}

abbrev pub unlimited : ℕ → M (Unit {0})
unlimited gas s = (ok tt, s)

abbrev pub budgets : Relayer → RateLimiter × RateLimiter
budgets s = (s.unpaid_safety_actions, s.gas_per_day)

-- Either both limiters are as they were, or the request was admitted and ready, and defends nothing.
abbrev pub Counts : Context → Option RelayRequest → Relayer → Relayer → Type 0
Counts x body s s' =
    (budgets s' ≡ budgets s)
    ⊎ ((p : Parsed) × (gas : ℕ) × IsAdmitted x body s p
        × IsReady x (call_of p) gas
        × (defends x p ≡ ok false))

budgets-broadcast :
    (x : Context) (call : Call) (r : Outcome (Unit {0}) × Relayer)
    → budgets (next r (λ _. broadcast x call)).1 ≡ budgets r.1
unfolding broadcast
budgets-broadcast x call (ok u, s) = refl
budgets-broadcast x call (failed e, s) = refl

budgets-catch_leave :
    (busy : String) (r : Outcome String × Relayer) → budgets (catch_leave busy r).1 ≡ budgets r.1
unfolding catch_leave leave
budgets-catch_leave busy (ok h, s) = refl
budgets-catch_leave busy (failed e, s) = refl

budgets-charge_defending :
    (x : Context) (call : Call) (busy : String) (waived : Bool) (gas : ℕ) (s : Relayer)
    → budgets (next (charge x busy true waived gas s) (λ _. broadcast x call)).1 ≡ budgets s
unfolding charge
budgets-charge_defending x call busy waived gas s = budgets-broadcast x call (ok tt, s)

-- `relay` counts on a limiter only for a request that is admitted, that passed the simulation with
-- its gas known and small enough, and that does not defend its account; any other request leaves
-- both limiters alone.
pub budgets-relay :
    (x : Context) (body : Option RelayRequest) (s : Relayer) → Counts x body s (relay x body s).1
budgets-relay x body s = elim (relay_cases x body s) [
  | inl (e, same) ↦ inl (ap (λ r. budgets r.1) same)
  | inr (p, admitted, same) ↦
      let busy = lower p.account in
      let t = entered busy s in
      let left = ap (λ r. budgets r.1) same ∙ budgets-catch_leave busy (send x p t) in
      elim (send_cases x p t) [
        | inl (e, failing) ↦ inl (left ∙ ap (λ r. budgets r.1) failing)
        | inr (true, waived, gas, classed, ready, sending) ↦ inl (
            left
            ∙ ap (λ r. budgets r.1) sending
            ∙ budgets-charge_defending x (call_of p) busy waived gas t)
        | inr (false, waived, gas, classed, ready, sending) ↦
            inr (p, gas, admitted, ready, classed.defended)
      ]
]

-- The outcome, with no limits to apply, does not depend on the relayer's state.
module _ (x : Context) (call : Call) (s t : Relayer) where
  plain_by_gas :
      x.simulate call ≡ answered tt
      → (g : Node ℕ) → x.estimate_gas call ≡ g
      → (submit x call unlimited s).0 ≡ (submit x call unlimited t).0
  unfolding submit
  plain_by_gas d (answered gas) e = elim (Bool-cases (ltb max_gas gas)) [
    | inl over ↦ rw (d, e, over)
    | inr within ↦ rw (d, e, within)
  ]
  plain_by_gas d (reverted n) e = rw (d, e)
  plain_by_gas d unreachable e = rw (d, e)

  plain_by_simulation :
      (d : Node (Unit {0}))
      → x.simulate call ≡ d
      → (submit x call unlimited s).0 ≡ (submit x call unlimited t).0
  unfolding submit
  plain_by_simulation (answered u) d = plain_by_gas d (x.estimate_gas call) refl
  plain_by_simulation (reverted n) d = rw d
  plain_by_simulation unreachable d = rw d

waives_defending : (x : Context) (p : Parsed) (fee : Option Value) → waives x p true fee ≡ ok false
unfolding waives
waives_defending x p none = refl
waives_defending x p (some fee) = refl

send_defending :
    (x : Context) (p : Parsed) (s : Relayer)
    → defends x p ≡ ok true
    → send x p s ≡ submit x (call_of p) unlimited s
unfolding send charge
send_defending x p s d = rw (d, waives_defending x p (parsed_fee p))

abbrev with_budgets : RateLimiter → RateLimiter → Relayer → Relayer
with_budgets u g s = record s { unpaid_safety_actions = u; gas_per_day = g }

outcome-catch_leave : (busy : String) (r : Outcome String × Relayer) → (catch_leave busy r).0 ≡ r.0
unfolding catch_leave
outcome-catch_leave busy (ok h, s) = refl
outcome-catch_leave busy (failed e, s) = refl

module _ (x : Context) (p : Parsed) (s : Relayer) (u g : RateLimiter)
    (d : defends x p ≡ ok true) where
  same_send :
      (catch_leave (lower p.account) (send x p (entered (lower p.account) (with_budgets u g s)))).0
      ≡ (catch_leave (lower p.account) (send x p (entered (lower p.account) s))).0
  same_send =
      let busy = lower p.account in
      let rich = entered busy (with_budgets u g s) in
      outcome-catch_leave busy (send x p rich)
      ∙ ap (λ r. r.0) (send_defending x p rich d)
      ∙ plain_by_simulation x (call_of p) rich (entered busy s) (x.simulate (call_of p)) refl
      ∙ sym (ap (λ r. r.0) (send_defending x p (entered busy s) d))
      ∙ sym (outcome-catch_leave busy (send x p (entered busy s)))

  defending_after_checks :
      (f a : Outcome (Unit {0})) (b : Bool)
      → check_fee x.fee (parsed_fee p) ≡ f
      → assert_our_account x p.account ≡ a
      → Set.has (lower p.account) s.in_flight ≡ b
      → (body : Option RelayRequest) → check_body x body ≡ ok p
      → (relay x body (with_budgets u g s)).0 ≡ (relay x body s).0
  unfolding relay
  defending_after_checks (failed e) a b hf ha hb body hc = rw (hc, hf)
  defending_after_checks (ok v) (failed e) b hf ha hb body hc = rw (hc, hf, ha)
  defending_after_checks (ok v) (ok w) true hf ha hb body hc = rw (hc, hf, ha, hb)
  defending_after_checks (ok v) (ok w) false hf ha hb body hc = rw (hc, hf, ha, hb) same_send

-- A well-formed request that defends its account has one outcome, whatever the two limiters have
-- counted: no budget refuses it.
pub relay_defending :
    (x : Context) (body : Option RelayRequest) (p : Parsed) (s : Relayer) (u g : RateLimiter)
    → check_body x body ≡ ok p
    → defends x p ≡ ok true
    → (relay x body (record s { unpaid_safety_actions = u; gas_per_day = g })).0
      ≡ (relay x body s).0
relay_defending x body p s u g c d =
    defending_after_checks x p s u g d (check_fee x.fee (parsed_fee p))
      (assert_our_account x p.account) (Set.has (lower p.account) s.in_flight) refl refl refl body c
