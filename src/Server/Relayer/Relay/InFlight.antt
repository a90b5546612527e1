-- ===== src/Server/Relayer/Relay/InFlight.antt =====
-- server/relayer.ts, relay: the accounts in flight.
use vera_key.Prelude.{
  ◌≡◌, inl, inr, refl, ap, ◌∙◌, String, Bool, false, ◌||◌, Option, none, some, arith, ◌==◌, eq_iff,
}
use vera_key.Prelude.Text.{lower}
use vera_key.Collections.Set
use vera_key.Server.Relayer.{Outcome, ok, failed, Call, Context, Relayer, next}
use vera_key.Server.Relayer.Submit.{broadcast}
use vera_key.Server.Relayer.Relay.{
  RelayRequest, Parsed, call_of, check_body, leave, charge, send, catch_leave, relay,
}
use vera_key.Server.Relayer.Relay.Cases.{entered, relay_cases, send_cases}
use vera_key.Server.Relayer.Relay.Sending.{charge-Keeps}

in_flight-next :
    (x : Context) (call : Call) (r : Outcome (Unit {0}) × Relayer)
    → (next r (λ _. broadcast x call)).1.in_flight ≡ r.1.in_flight
unfolding broadcast
in_flight-next x call (ok u, s) = refl
in_flight-next x call (failed e, s) = refl

in_flight-send : (x : Context) (p : Parsed) (s : Relayer) → (send x p s).1.in_flight ≡ s.in_flight
in_flight-send x p s = elim (send_cases x p s) [
  | inl (e, failing) ↦ ap (λ r. r.1.in_flight) failing
  | inr (defending, waived, gas, classed, ready, sending) ↦
      let charged = charge x (lower p.account) defending waived gas s in
      ap (λ r. r.1.in_flight) sending
      ∙ in_flight-next x (call_of p) charged
      ∙ (charge-Keeps x (lower p.account) defending waived gas s).in_flight
]

-- The account of a request whose transaction was accepted; none of one that failed.
abbrev pub held : Outcome String → Option RelayRequest → String → Bool
held (failed e) body j = false
held (ok hash) none j = false
held (ok hash) (some body) j = lower body.account == j

abbrev held_by : Outcome String → String → String → Bool
held_by (failed e) busy j = false
held_by (ok hash) busy j = busy == j

has-catch_leave :
    (busy j : String) (r : Outcome String × Relayer) (s : Relayer)
    → r.1.in_flight ≡ (entered busy s).in_flight
    → Set.has busy s.in_flight ≡ false
    → Set.has j (catch_leave busy r).1.in_flight
      ≡ (held_by (catch_leave busy r).0 busy j || Set.has j s.in_flight)
unfolding catch_leave leave
has-catch_leave busy j (ok h, s') s e free = rw e (Set.has-add busy j s.in_flight)
has-catch_leave busy j (failed f, s') s e free =
    rw (e, Set.has-delete busy j (Set.add busy s.in_flight), Set.has-add busy j s.in_flight)
      (ground (arith, eq_iff busy j, free))

check_body-account :
    (x : Context) (body : RelayRequest) (p : Parsed)
    → check_body x (some body) ≡ ok p
    → p.account ≡ body.account
unfolding check_body
check_body-account x body p h = ground arith

held_by-held :
    (x : Context) (body : Option RelayRequest) (p : Parsed) (o : Outcome String) (j : String)
    → check_body x body ≡ ok p
    → held_by o (lower p.account) j ≡ held o body j
unfolding check_body
held_by-held x body p (failed e) j h = refl
held_by-held x none p (ok hash) j h = cc
held_by-held x (some body) p (ok hash) j h = rw (check_body-account x body p h)

-- After `relay` an account is in flight exactly if it was before, or it is the account of this
-- request and its transaction was accepted: every failure frees the account again, and frees no
-- other.
pub has-relay :
    (x : Context) (body : Option RelayRequest) (s : Relayer) (j : String)
    → Set.has j (relay x body s).1.in_flight
      ≡ (held (relay x body s).0 body j || Set.has j s.in_flight)
has-relay x body s j = elim (relay_cases x body s) [
  | inl (e, same) ↦ rw same
  | inr (p, admitted, same) ↦
      let busy = lower p.account in
      let r = send x p (entered busy s) in
      let flying = in_flight-send x p (entered busy s) in
      rw (← held_by-held x body p (relay x body s).0 j admitted.checked, same)
        (has-catch_leave busy j r s flying admitted.free)
]
