-- ===== src/Sdk/Session/Machine.antt =====
-- packages/sdk/src/session.ts: the session's steps in any order, and what they keep.
use vera_key.Prelude.{ℕ, suc, ◌≤◌, ◌≡◌, String, true, Option, arith, if◌then◌else◌}
use vera_key.Sdk.Values.{Value}
use vera_key.Sdk.Connect.{Platform}
use vera_key.Sdk.Session.{Player, SentPayment, Thrown, Session, ok, failed, Response}
use vera_key.Sdk.Session.Methods.{
  SessionInfo, load, sign_in, fetch_nonce, finish_failed, finish_sign_in, sign_out, Order, pay,
  ReceiptBody, confirm_payment, finish_payment, end_payment,
}
use vera_key.Sdk.Session.Laws.{
  is_known, IsQuiet, load-IsQuiet, sign_in-IsQuiet, fetch_nonce-IsQuiet, finish_failed-IsQuiet,
  finish_sign_in-IsQuiet, sign_out-IsQuiet, confirm_payment-IsQuiet, finish_payment-IsQuiet, pay_ok,
  pay_failed,
}

-- The session, and how many payments of `pay` are under way.
pub record World : Type 0 where
  pub session : Session
  pub payments : ℕ

-- What can happen to a page's session. A server's answer, the popup's and a click come at any time.
pub data Step (p : Platform) (answered : ℕ → Value) (w : World) : World → Type 0 where
  loads :
      (reply : Option (Response SessionInfo))
      → Step p answered w (record w { session = load p answered reply w.session })
  signs_in : Step p answered w (record w { session = (sign_in w.session).1 })
  fetches_nonce :
      (reply : Option (Response String))
      → Step p answered w (record w { session = (fetch_nonce answered reply w.session).1 })
  popup_fails :
      (e : Thrown) → Step p answered w (record w { session = (finish_failed e w.session).1 })
  finishes :
      (reply : Option (Response Player))
      → Step p answered w (record w { session = (finish_sign_in answered reply w.session).1 })
  signs_out :
      (reply : Option (Response (Unit {0})))
      → Step p answered w (record w { session = (sign_out answered reply w.session).1 })
  pays :
      (amount : ℕ) (order : Order) (s : Session)
      → pay amount w.session ≡ (ok order, s)
      → Step p answered w (record { session = s; payments = suc w.payments })
  refuses_to_pay :
      (amount : ℕ) (e : Thrown) (s : Session)
      → pay amount w.session ≡ (failed e, s)
      → Step p answered w (record w { session = s })
  confirms :
      (reply : Option (Response ReceiptBody))
      → Step p answered w (record w { session = (confirm_payment answered reply w.session).1 })
  verifies :
      (sent : SentPayment) (reply : Option (Response ReceiptBody))
      → Step p answered w (record w { session = (finish_payment answered sent reply w.session).1 })
  ends_payment :
      1 ≤ w.payments
      → Step p answered w
          (record { session = end_payment w.session; payments = Prim.Native.Nat.pred w.payments })

pub data Reach (p : Platform) (answered : ℕ → Value) (v : World) : World → Type 0 where
  here : Reach p answered v v
  further : {w u : World} → Reach p answered v w → Step p answered w u → Reach p answered v u

-- A payment is under way exactly if the page is told so, and then it is the only one; and who is
-- signed in has a player.
pub record IsCoherent (w : World) : Type 0 where
  pub payments : w.payments ≡ (if w.session.paying then 1 else 0)
  pub known : is_known w.session ≡ true

module _ (p : Platform) (answered : ℕ → Value) where
  quiet-IsCoherent :
      (w : World) (s : Session)
      → IsQuiet w.session s
      → IsCoherent w
      → IsCoherent (record w { session = s })
  quiet-IsCoherent w s q c = record { payments = simp q.paying c.payments; known = q.known c.known }

  ends :
      (w : World)
      → 1 ≤ w.payments
      → IsCoherent w
      → IsCoherent
          (record { session = end_payment w.session; payments = Prim.Native.Nat.pred w.payments })
  unfolding end_payment
  ends w h c = record { payments = ground (arith, c.payments, h); known = c.known }

  Step-IsCoherent : {w u : World} → Step p answered w u → IsCoherent w → IsCoherent u
  Step-IsCoherent {w} (loads reply) c =
      quiet-IsCoherent w _ (load-IsQuiet w.session p answered reply) c
  Step-IsCoherent {w} signs_in c = quiet-IsCoherent w _ (sign_in-IsQuiet w.session) c
  Step-IsCoherent {w} (fetches_nonce reply) c =
      quiet-IsCoherent w _ (fetch_nonce-IsQuiet w.session answered reply) c
  Step-IsCoherent {w} (popup_fails e) c = quiet-IsCoherent w _ (finish_failed-IsQuiet w.session e) c
  Step-IsCoherent {w} (finishes reply) c =
      quiet-IsCoherent w _ (finish_sign_in-IsQuiet w.session answered reply) c
  Step-IsCoherent {w} (signs_out reply) c =
      quiet-IsCoherent w _ (sign_out-IsQuiet w.session answered reply) c
  Step-IsCoherent {w} (pays amount order s h) c =
      let (idle, busy, same, player) = pay_ok w.session amount order s h in
      record {
        payments = ground (arith, c.payments, idle, busy);
        known = rw (same, player) c.known;
      }
  Step-IsCoherent {w} (refuses_to_pay amount e s h) c = rw (pay_failed w.session amount e s h) c
  Step-IsCoherent {w} (confirms reply) c =
      quiet-IsCoherent w _ (confirm_payment-IsQuiet w.session answered reply) c
  Step-IsCoherent {w} (verifies sent reply) c =
      quiet-IsCoherent w _ (finish_payment-IsQuiet w.session answered sent reply) c
  Step-IsCoherent {w} (ends_payment h) c = ends w h c

  -- However answers, clicks and the popup's ends follow each other, a payment is under way exactly
  -- if the page is told so, and then it is the only one; and who is signed in has a player. This
  -- is kept from any state where it holds.
  pub Reach-IsCoherent : {v w : World} → Reach p answered v w → IsCoherent v → IsCoherent w
  Reach-IsCoherent here c = c
  Reach-IsCoherent (further r step) c = Step-IsCoherent step (Reach-IsCoherent r c)
