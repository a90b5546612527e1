-- ===== src/Server/Relayer/Relay/Cases.antt =====
-- server/relayer.ts, relay: the two ways through it and through what runs in its `try`.
use vera_key.Prelude.{ℕ, ◌≡◌, ◌⊎◌, inl, inr, refl, String, Bool, false, Option, none, Bool-cases}
use vera_key.Prelude.Text.{lower}
use vera_key.Collections.Set
use vera_key.Server.Relayer.{Failure, refused, Outcome, ok, failed, Context, Relayer, next}
use vera_key.Server.Relayer.Submit.{assert_our_account, broadcast}
use vera_key.Server.Relayer.Submit.Laws.{IsReady, submit-Cases, IsOurs, assert_our_account-IsOurs}
use vera_key.Server.Relayer.Relay.Form.{IsFormed, check_body-IsFormed, IsEnough, check_fee-IsEnough}
use vera_key.Server.Relayer.Relay.{
  RelayRequest, Parsed, parsed_fee, call_of, check_body, check_fee, defends, waives, charge, send,
  catch_leave, relay,
}

abbrev pub entered : String → Relayer → Relayer
entered busy s = record s { in_flight = Set.add busy s.in_flight }

-- The request is well-formed, signs enough, is for an account of this deployment, and none of the
-- account's transactions is in flight.
pub record IsAdmitted (x : Context) (body : Option RelayRequest) (s : Relayer) (p : Parsed)
    : Type 0 where
  pub checked : check_body x body ≡ ok p
  pub formed : IsFormed x body p
  pub enough : IsEnough x.fee (parsed_fee p)
  pub ours : IsOurs x p.account
  pub free : Set.has (lower p.account) s.in_flight ≡ false

abbrev RelayCases : Context → Option RelayRequest → Relayer → Outcome String × Relayer → Type 0
RelayCases x body s r =
    ((e : Failure) × (r ≡ (failed e, s)))
    ⊎ ((p : Parsed) × IsAdmitted x body s p
        × (r ≡ catch_leave (lower p.account) (send x p (entered (lower p.account) s))))

module _ (x : Context) (body : Option RelayRequest) (s : Relayer) where
  by_enter :
      (p : Parsed)
      → check_body x body ≡ ok p
      → check_fee x.fee (parsed_fee p) ≡ ok tt
      → assert_our_account x p.account ≡ ok tt
      → RelayCases x body s (relay x body s)
  unfolding relay
  by_enter p c f o = elim (Bool-cases (Set.has (lower p.account) s.in_flight)) [
    | inl busy ↦ inl (
      refused 409 "Another transaction for this account is on its way. Try again in a moment." none,
      rw (c, f, o, busy),
    )
    | inr free ↦ inr (
      p,
      record {
        checked = c;
        formed = check_body-IsFormed x body p c;
        enough = check_fee-IsEnough x.fee (parsed_fee p) f;
        ours = assert_our_account-IsOurs x p.account o;
        free = free;
      },
      rw (c, f, o, free),
    )
  ]

  by_account :
      (p : Parsed) (o : Outcome (Unit {0}))
      → check_body x body ≡ ok p
      → check_fee x.fee (parsed_fee p) ≡ ok tt
      → assert_our_account x p.account ≡ o
      → RelayCases x body s (relay x body s)
  unfolding relay
  by_account p (ok u) c f o = by_enter p c f o
  by_account p (failed e) c f o = inl (e, rw (c, f, o))

  by_fee :
      (p : Parsed) (o : Outcome (Unit {0}))
      → check_body x body ≡ ok p
      → check_fee x.fee (parsed_fee p) ≡ o
      → RelayCases x body s (relay x body s)
  unfolding relay
  by_fee p (ok u) c f = by_account p (assert_our_account x p.account) c f refl
  by_fee p (failed e) c f = inl (e, rw (c, f))

  by_body : (o : Outcome Parsed) → check_body x body ≡ o → RelayCases x body s (relay x body s)
  unfolding relay
  by_body (ok p) c = by_fee p (check_fee x.fee (parsed_fee p)) c refl
  by_body (failed e) c = inl (e, rw c)

-- `relay` fails and changes nothing, or the request is admitted and goes into the `try`.
pub relay_cases :
    (x : Context) (body : Option RelayRequest) (s : Relayer) → RelayCases x body s (relay x body s)
relay_cases x body s = by_body x body s (check_body x body) refl

-- How the limits apply to a request, as the node answered it.
pub record IsClassed (x : Context) (p : Parsed) (defending waived : Bool) : Type 0 where
  pub defended : defends x p ≡ ok defending
  pub excused : waives x p defending (parsed_fee p) ≡ ok waived

abbrev SendCases : Context → Parsed → Relayer → Outcome String × Relayer → Type 0
SendCases x p s r =
    ((e : Failure) × (r ≡ (failed e, s)))
    ⊎ ((defending waived : Bool) × (gas : ℕ) × IsClassed x p defending waived
        × IsReady x (call_of p) gas
        × (r
            ≡ next (charge x (lower p.account) defending waived gas s)
                (λ _. broadcast x (call_of p))))

module _ (x : Context) (p : Parsed) (s : Relayer) where
  by_waived :
      (defending : Bool) (o : Outcome Bool)
      → defends x p ≡ ok defending
      → waives x p defending (parsed_fee p) ≡ o
      → SendCases x p s (send x p s)
  unfolding send
  by_waived defending (failed e) d w = inl (e, rw (d, w))
  by_waived defending (ok waived) d w =
      elim (submit-Cases x (call_of p) (charge x (lower p.account) defending waived) s) [
        | inl (e, same) ↦ inl (e, rw (d, w) same)
        | inr (gas, ready, same) ↦
            inr
              (defending, waived, gas, record { defended = d; excused = w }, ready, rw (d, w) same)
      ]

  by_defends : (o : Outcome Bool) → defends x p ≡ o → SendCases x p s (send x p s)
  unfolding send
  by_defends (failed e) d = inl (e, rw d)
  by_defends (ok defending) d = by_waived defending (waives x p defending (parsed_fee p)) d refl

-- The `try` fails and changes nothing, or the limits apply to a call that is ready, and then it is sent.
pub send_cases : (x : Context) (p : Parsed) (s : Relayer) → SendCases x p s (send x p s)
send_cases x p s = by_defends x p s (defends x p) refl
