-- ===== src/Sdk/Session/Laws.antt =====
-- packages/sdk/src/session.ts: what each method does to who is signed in and to payments.
use vera_key.Prelude.{
  ℕ, ◌≡◌, inl, inr, refl, String, Bool, true, false, not, ◌&&◌, ◌||◌, Option, none, some, arith,
  Bool-cases, nat_beq, ◌==◌,
}
use vera_key.Sdk.Values.{Value}
use vera_key.Sdk.Connect.{Platform, Url}
use vera_key.Sdk.Session.{
  Status, signing_in, signed_in, Player, SentPayment, Thrown, Session, Outcome, ok, failed,
  Response, is_ok, call, quiet,
}
use vera_key.Sdk.Session.Methods.{
  SessionInfo, status_of, load, load_with, loaded, sign_in, fetch_nonce, finish_failed,
  finish_sign_in, sign_in_with, fails_to_sign_in, sign_out, sign_out_with, Order, pay, ReceiptBody,
  Receipt, confirm_payment, read_receipt, finish_payment, keep_payment,
}

abbrev pub has_player : Option Player → Bool
has_player none = false
has_player (some p) = true

abbrev pub is_signed_in : Status → Bool
is_signed_in signed_in = true
is_signed_in _ = false

abbrev pub is_signing_in : Status → Bool
is_signing_in signing_in = true
is_signing_in _ = false

-- Who is signed in has a player.
abbrev pub is_known : Session → Bool
is_known s = not (is_signed_in s.status) || has_player s.player

-- The change tells the page nothing of payments, and leaves whoever is signed in with a player.
pub record IsQuiet (s s' : Session) : Type 0 where
  pub paying : s'.paying ≡ s.paying
  pub known : is_known s ≡ true → is_known s' ≡ true

call-IsQuiet :
    {A : Type 0} (answered : ℕ → Value) (route : String) (reply : Option (Response A)) (s : Session)
    → IsQuiet s (call answered route reply s).1
unfolding call
call-IsQuiet answered route none s = record { paying = refl; known = λ k. k }
call-IsQuiet answered route (some r) s =
    elim (Bool-cases (nat_beq r.status 401 && not (route == "sign-in"))) [
      | inl y ↦ simp y (record { paying = refl; known = λ k. refl })
      | inr n ↦ elim (Bool-cases (is_ok r.status)) [
        | inl o ↦ simp (n, o) (record { paying = refl; known = λ k. k })
        | inr f ↦ simp (n, f) (record { paying = refl; known = λ k. k })
      ]
    ]

module _ (s : Session) where
  loaded-IsQuiet :
      (info : SessionInfo) (url : Option Url) (t : Session)
      → IsQuiet s t
      → IsQuiet s (loaded info url t)
  loaded-IsQuiet info none t q = record { paying = q.paying; known = λ k. refl }
  loaded-IsQuiet info (some url) t q = record { paying = q.paying; known = λ k. same info.player }
    where
      same :
          (player : Option Player)
          → (not (is_signed_in (status_of player)) || has_player player) ≡ true
      same none = refl
      same (some p) = refl

  load_with-IsQuiet :
      (p : Platform) (r : Outcome SessionInfo × Session) → IsQuiet s r.1 → IsQuiet s (load_with p r)
  load_with-IsQuiet p (failed e, t) q = record { paying = q.paying; known = λ k. refl }
  load_with-IsQuiet p (ok info, t) q = loaded-IsQuiet info (p.parse_url info.verakey_url) t q

  pub load-IsQuiet :
      (p : Platform) (answered : ℕ → Value) (reply : Option (Response SessionInfo))
      → IsQuiet s (load p answered reply s)
  unfolding load
  load-IsQuiet p answered reply = load_with-IsQuiet p _ (call-IsQuiet answered "session" reply s)

  pub sign_in-IsQuiet : IsQuiet s (sign_in s).1
  unfolding sign_in
  sign_in-IsQuiet = record { paying = ground arith; known = λ k. ground arith }

  fails_to_sign_in-IsQuiet :
      (e : Thrown) (t : Session) → IsQuiet s t → IsQuiet s (fails_to_sign_in e t).1
  fails_to_sign_in-IsQuiet e t q = elim (Bool-cases (quiet e)) [
    | inl y ↦ simp y (record { paying = q.paying; known = λ k. refl })
    | inr n ↦ simp n (record { paying = q.paying; known = λ k. refl })
  ]

  pub finish_failed-IsQuiet : (e : Thrown) → IsQuiet s (finish_failed e s).1
  unfolding finish_failed
  finish_failed-IsQuiet e = fails_to_sign_in-IsQuiet e s (record { paying = refl; known = λ k. k })

  sign_in_with-IsQuiet :
      (r : Outcome Player × Session) → IsQuiet s r.1 → IsQuiet s (sign_in_with r).1
  sign_in_with-IsQuiet (failed e, t) q = fails_to_sign_in-IsQuiet e t q
  sign_in_with-IsQuiet (ok player, t) q = record { paying = q.paying; known = λ k. refl }

  pub finish_sign_in-IsQuiet :
      (answered : ℕ → Value) (reply : Option (Response Player))
      → IsQuiet s (finish_sign_in answered reply s).1
  unfolding finish_sign_in
  finish_sign_in-IsQuiet answered reply =
      sign_in_with-IsQuiet _ (call-IsQuiet answered "sign-in" reply s)

  sign_out_with-IsQuiet :
      (r : Outcome (Unit {0}) × Session) → IsQuiet s r.1 → IsQuiet s (sign_out_with r).1
  sign_out_with-IsQuiet (failed e, t) q = q
  sign_out_with-IsQuiet (ok u, t) q = record { paying = q.paying; known = λ k. refl }

  pub sign_out-IsQuiet :
      (answered : ℕ → Value) (reply : Option (Response (Unit {0})))
      → IsQuiet s (sign_out answered reply s).1
  unfolding sign_out
  sign_out-IsQuiet answered reply =
      sign_out_with-IsQuiet _ (call-IsQuiet answered "sign-out" reply s)

  read_receipt-IsQuiet :
      (r : Outcome ReceiptBody × Session) → IsQuiet s r.1 → IsQuiet s (read_receipt r).1
  read_receipt-IsQuiet (failed e, t) q = q
  read_receipt-IsQuiet (ok b, t) q = q

  pub confirm_payment-IsQuiet :
      (answered : ℕ → Value) (reply : Option (Response ReceiptBody))
      → IsQuiet s (confirm_payment answered reply s).1
  unfolding confirm_payment
  confirm_payment-IsQuiet answered reply =
      read_receipt-IsQuiet _ (call-IsQuiet answered "payment" reply s)

  keep_payment-IsQuiet :
      (sent : SentPayment) (r : Outcome Receipt × Session)
      → IsQuiet s r.1
      → IsQuiet s (keep_payment sent r).1
  keep_payment-IsQuiet sent (ok receipt, t) q = q
  keep_payment-IsQuiet sent (failed e, t) q = q

  pub finish_payment-IsQuiet :
      (answered : ℕ → Value) (sent : SentPayment) (reply : Option (Response ReceiptBody))
      → IsQuiet s (finish_payment answered sent reply s).1
  unfolding finish_payment
  finish_payment-IsQuiet answered sent reply =
      keep_payment-IsQuiet sent _ (confirm_payment-IsQuiet answered reply)

  pub fetch_nonce-IsQuiet :
      (answered : ℕ → Value) (reply : Option (Response String))
      → IsQuiet s (fetch_nonce answered reply s).1
  unfolding fetch_nonce
  fetch_nonce-IsQuiet answered reply = call-IsQuiet answered "nonce" reply s

  -- A payment begins only when none is under way.
  pub pay_ok :
      (amount : ℕ) (order : Order) (t : Session)
      → pay amount s ≡ (ok order, t)
      → (s.paying ≡ false) × (t.paying ≡ true) × (t.status ≡ s.status) × (t.player ≡ s.player)
  unfolding pay
  pay_ok amount order t h = ground arith

  -- A click that is refused changes nothing.
  pub pay_failed : (amount : ℕ) (e : Thrown) (t : Session) → pay amount s ≡ (failed e, t) → t ≡ s
  unfolding pay
  pay_failed amount e t h = ground arith
