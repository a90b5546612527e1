-- ===== src/Server/Relayer/Faucet/Grants.antt =====
-- server/relayer.ts, faucet: the accounts that it pays, its reservations, and its transactions.
use vera_key.Prelude.{
  List, length, ltb, ◌&&◌, ◌==◌, sym, ℕ, ◌≡◌, ◌⊎◌, inl, inr, refl, ap, ◌∙◌, String, true, false,
  ◌||◌, ◌∷◌, arith,
}
use vera_key.Prelude.Text.{lower}
use vera_key.Collections.Set
use vera_key.Server.Relayer.{
  Node, answered, reverted, unreachable, read, Failure, Outcome, ok, failed, Call, Context, Relayer,
  next,
}
use vera_key.Server.Relayer.Arguments.{Json, text}
use vera_key.Server.Relayer.Submit.{broadcast}
use vera_key.Server.Relayer.Submit.Laws.{IsReady, submit-Cases}
use vera_key.Server.Relayer.Faucet.{
  check_account, has_funds, grant_call, grant, give, settle, faucet,
}
use vera_key.Server.Relayer.Faucet.Laws.{
  is_answered, granted_to, granted_to_text, is_writable, paid_by, paid_by-settle, sent-settle,
  reserved, IsEligible, faucet_cases, fields-give, paid_to, paid_by-paid_to, settle_lem,
}

-- An account that the faucet has paid gets nothing more: a request for it fails and changes
-- nothing.
pub faucet_paid :
    (x : Context) (b : Outcome (Unit {0})) (account : Json) (s : Relayer) (address : String)
    → check_account x account ≡ ok address
    → Set.has (lower address) s.funded ≡ true
    → (e : Failure) × (faucet x b account s ≡ (failed e, s))
faucet_paid x b account s address c paid = elim (faucet_cases x b account s) [
  | inl failing ↦ failing
  | inr (other, eligible, same) ↦
      let one : other ≡ address = cc (c, eligible.checked) in
      absurd (ground (arith, eligible.unpaid, paid, ap (λ a. Set.has (lower a) s.funded) one))
]

-- What reached the node of a request to the faucet.
pub record IsGiven (x : Context) (account : Json) (s s' : Relayer) (address : String) (gas : ℕ)
    : Type 0 where
  pub eligible : IsEligible x account s address
  pub ready : IsReady x (grant_call x address) gas
  pub sent : s'.sent ≡ grant_call x address ∷ s.sent

abbrev pub Gives : Context → Json → Relayer → Relayer → Type 0
Gives x account s s' =
    (s'.sent ≡ s.sent) ⊎ ((address : String) × (gas : ℕ) × IsGiven x account s s' address gas)

-- Nothing is sent and the outcome is a failure, or the call is sent and the outcome is the node's answer.
abbrev Sent : Context → Call → Relayer → Outcome String × Relayer → Type 0
Sent x call s r =
    ((r.1.sent ≡ s.sent) × ((e : Failure) × (r.0 ≡ failed e)))
    ⊎ ((r.1.sent ≡ call ∷ s.sent) × (r.0 ≡ read (x.write call)))

grant-sent :
    (x : Context) (b : Outcome (Unit {0})) (gas : ℕ) (s : Relayer)
    → (grant x b gas s).1.sent ≡ s.sent
unfolding grant
grant-sent x b gas s = ground arith

broadcast-Sent :
    (x : Context) (call : Call) (s : Relayer) (r : Outcome (Unit {0}) × Relayer)
    → r.1.sent ≡ s.sent
    → Sent x call s (next r (λ _. broadcast x call))
unfolding broadcast
broadcast-Sent x call s (ok u, t) e = inr (ap (λ cs. call ∷ cs) e, refl)
broadcast-Sent x call s (failed f, t) e = inl (e, (f, refl))

abbrev ReadySent : Context → Call → Relayer → Outcome String × Relayer → Type 0
ReadySent x call s r =
    ((r.1.sent ≡ s.sent) × ((e : Failure) × (r.0 ≡ failed e)))
    ⊎ ((gas : ℕ) × IsReady x call gas × (r.1.sent ≡ call ∷ s.sent) × (r.0 ≡ read (x.write call)))

give-Sent :
    (x : Context) (b : Outcome (Unit {0})) (address : String) (s : Relayer)
    → ReadySent x (grant_call x address) s (give x b address s)
unfolding give
give-Sent x b address s = by_funds (has_funds x) refl
  where
    by_funds :
        (o : Outcome (Unit {0}))
        → has_funds x ≡ o
        → ReadySent x (grant_call x address) s (give x b address s)
    by_funds (failed e) h = inl (rw h refl, (e, rw h refl))
    by_funds (ok u) h = elim (submit-Cases x (grant_call x address) (grant x b) s) [
      | inl (e, same) ↦ inl (rw (h, same) refl, (e, rw (h, same) refl))
      | inr (gas, ready, same) ↦
          elim (broadcast-Sent x (grant_call x address) s (grant x b gas s)
            (grant-sent x b gas s)) [
              | inl (none_sent, (e, fails)) ↦ inl (rw (h, same) none_sent, (e, rw (h, same) fails))
              | inr (one_sent, answer) ↦
                  inr (gas, ready, rw (h, same) one_sent, rw (h, same) answer)
            ]
    ]

-- The node was given a grant, and named its hash, exactly if the outcome is one that pays.
paid_by-give :
    (x : Context) (address j : String) (s : Relayer) (sent : List Call)
    (r : Outcome String × Relayer) (n : Node String)
    → sent ≡ s.sent
    → x.write (grant_call x address) ≡ n
    → ReadySent x (grant_call x address) s r
    → (paid_by r.0 (lower address) j) ≡ (
        lower address == j
        && ltb (length sent) (length r.1.sent)
        && is_answered (x.write (grant_call x address)))
paid_by-give x address j s sent r n e w (inl (same, (f, fails))) =
    ground (arith, fails, ap length (e ∙ sym same))
paid_by-give x address j s sent r (answered hash) e w (inr (gas, ready, one, answer)) =
    ground (arith, answer, w, ap length e, ap length one)
paid_by-give x address j s sent r (reverted name) e w (inr (gas, ready, one, answer)) =
    ground (arith, answer, w, ap length e, ap length one)
paid_by-give x address j s sent r unreachable e w (inr (gas, ready, one, answer)) =
    ground (arith, answer, w, ap length e, ap length one)

granted_to_nobody :
    (x : Context) (account : Json) (s : Relayer) (j : String) → granted_to x account s s j ≡ false
granted_to_nobody x (text a) s j = ground arith
granted_to_nobody x _ s j = refl

-- After `faucet` an account is remembered as paid exactly if it was before, or it is the account
-- of this request and the node was given its grant and named a hash; the reservations are those
-- from before, on every path; and the request succeeds exactly if such a hash was named and the
-- faucet's file could then be written.
pub has-faucet :
    (x : Context) (b : Outcome (Unit {0})) (account : Json) (s : Relayer) (j : String)
    → (Set.has j (faucet x b account s).1.funded
        ≡ (granted_to x account s (faucet x b account s).1 j || Set.has j s.funded))
      × (Set.has j (faucet x b account s).1.granting ≡ Set.has j s.granting)
      × (paid_to (faucet x b account s).0 account j
          ≡ (is_writable x.failed_write && granted_to x account s (faucet x b account s).1 j))
has-faucet x b account s j = elim (faucet_cases x b account s) [
  | inl (e, same) ↦
      let nobody = granted_to_nobody x account s j in
      rw same (ground (arith, nobody), refl, ground (arith, nobody))
  | inr (address, eligible, same) ↦
      let key = lower address in
      let r = give x b address (reserved key s) in
      let fields = fields-give x b address (reserved key s) in
      let free : Set.has key s.granting ≡ false = ground (arith, eligible.unpaid) in
      let (funded, granting) = settle_lem x key j r s fields free in
      let sends = give-Sent x b address (reserved key s) in
      let taken =
        paid_by-give x address j (reserved key s) s.sent r (x.write (grant_call x address)) refl
          refl sends in
      let granted =
        granted_to_text x account address s (settle x key r).1 j eligible.checked
        ∙ ap
            (λ cs.
              lower address == j
              && ltb (length s.sent) (length cs)
              && is_answered (x.write (grant_call x address)))
            (sent-settle x key j r)
        ∙ sym taken in
      rw same (
        funded ∙ ap (λ t. t || Set.has j s.funded) (sym granted),
        granting,
        sym (paid_by-paid_to x account address (settle x key r).0 j eligible.checked)
            ∙ paid_by-settle x key j r
            ∙ ap (λ t. is_writable x.failed_write && t) (sym granted),
      )
]

-- `faucet` gives the node at most one transaction: the deployment's amount of USDG, to an account
-- of this deployment that was neither paid nor being paid, after it passed the simulation.
pub sent-faucet :
    (x : Context) (b : Outcome (Unit {0})) (account : Json) (s : Relayer)
    → Gives x account s (faucet x b account s).1
sent-faucet x b account s = elim (faucet_cases x b account s) [
  | inl (e, same) ↦ inl (ap (λ r. r.1.sent) same)
  | inr (address, eligible, same) ↦
      let key = lower address in
      let through =
        ap (λ r. r.1.sent) same ∙ sent-settle x key key (give x b address (reserved key s)) in
      elim (give-Sent x b address (reserved key s)) [
        | inl (none_sent, _) ↦ inl (through ∙ none_sent)
        | inr (gas, ready, one_sent, _) ↦
            inr (
              address,
              gas,
              record { eligible = eligible; ready = ready; sent = through ∙ one_sent },
            )
      ]
]
