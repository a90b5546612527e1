-- ===== src/Server/Relayer/Relay/Sending.antt =====
-- server/relayer.ts, relay: what reaches the node.
use vera_key.Prelude.{ℕ, ◌≡◌, ◌⊎◌, inl, inr, refl, ap, ◌∙◌, String, Bool, ◌∷◌, Option, arith}
use vera_key.Prelude.Text.{lower}
use vera_key.Server.Relayer.{Outcome, ok, failed, Call, Context, Relayer, next}
use vera_key.Server.Relayer.Submit.{broadcast}
use vera_key.Server.Relayer.Submit.Laws.{IsReady}
use vera_key.Server.Relayer.Relay.{
  RelayRequest, Parsed, call_of, leave, charge, send, catch_leave, relay,
}
use vera_key.Server.Relayer.Relay.Cases.{entered, IsAdmitted, relay_cases, send_cases}

-- Everything but the two limiters is as it was.
pub record Keeps (s s' : Relayer) : Type 0 where
  pub funded : s'.funded ≡ s.funded
  pub granting : s'.granting ≡ s.granting
  pub in_flight : s'.in_flight ≡ s.in_flight
  pub faucet_file : s'.faucet_file ≡ s.faucet_file
  pub sent : s'.sent ≡ s.sent

pub charge-Keeps :
    (x : Context) (busy : String) (defending waived : Bool) (gas : ℕ) (s : Relayer)
    → Keeps s (charge x busy defending waived gas s).1
unfolding charge
charge-Keeps x busy defending waived gas s = ground arith

-- What reached the node of a request.
pub record IsSent (x : Context) (body : Option RelayRequest) (s s' : Relayer) (p : Parsed) (gas : ℕ)
    : Type 0 where
  pub admitted : IsAdmitted x body s p
  pub ready : IsReady x (call_of p) gas
  pub sent : s'.sent ≡ call_of p ∷ s.sent

abbrev pub Sends : Context → Option RelayRequest → Relayer → Relayer → Type 0
Sends x body s s' = (s'.sent ≡ s.sent) ⊎ ((p : Parsed) × (gas : ℕ) × IsSent x body s s' p gas)

charged_then_sent :
    (x : Context) (call : Call) (r : Outcome (Unit {0}) × Relayer) (s : Relayer)
    → r.1.sent ≡ s.sent
    → ((next r (λ _. broadcast x call)).1.sent ≡ s.sent)
      ⊎ ((next r (λ _. broadcast x call)).1.sent ≡ call ∷ s.sent)
unfolding broadcast
charged_then_sent x call (ok u, s') s h = inr (ap (◌∷◌ call) h)
charged_then_sent x call (failed e, s') s h = inl h

sent-catch_leave :
    (busy : String) (r : Outcome String × Relayer) → (catch_leave busy r).1.sent ≡ r.1.sent
unfolding catch_leave leave
sent-catch_leave busy (ok h, s) = refl
sent-catch_leave busy (failed e, s) = refl

sent-send :
    (x : Context) (p : Parsed) (s : Relayer)
    → ((send x p s).1.sent ≡ s.sent)
      ⊎ ((gas : ℕ) × IsReady x (call_of p) gas × ((send x p s).1.sent ≡ call_of p ∷ s.sent))
sent-send x p s = elim (send_cases x p s) [
  | inl (e, failing) ↦ inl (ap (λ r. r.1.sent) failing)
  | inr (defending, waived, gas, classed, ready, sending) ↦
      let busy = lower p.account in
      let kept = (charge-Keeps x busy defending waived gas s).sent in
      elim (charged_then_sent x (call_of p) (charge x busy defending waived gas s) s kept) [
        | inl none_sent ↦ inl (ap (λ r. r.1.sent) sending ∙ none_sent)
        | inr one_sent ↦ inr (gas, ready, ap (λ r. r.1.sent) sending ∙ one_sent)
      ]
]

-- `relay` gives the node at most one transaction, and only for a well-formed request that signs at
-- least the relayer's fee, for an account of this deployment with none in flight, whose simulation
-- passed and whose gas is at most MAX_GAS.
pub sent-relay :
    (x : Context) (body : Option RelayRequest) (s : Relayer) → Sends x body s (relay x body s).1
sent-relay x body s = elim (relay_cases x body s) [
  | inl (e, same) ↦ inl (ap (λ r. r.1.sent) same)
  | inr (p, admitted, same) ↦
      let busy = lower p.account in
      let through = ap (λ r. r.1.sent) same ∙ sent-catch_leave busy (send x p (entered busy s)) in
      elim (sent-send x p (entered busy s)) [
        | inl none_sent ↦ inl (through ∙ none_sent)
        | inr (gas, ready, one_sent) ↦
            inr (p, gas, record { admitted = admitted; ready = ready; sent = through ∙ one_sent })
      ]
]
