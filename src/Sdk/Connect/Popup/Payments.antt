-- ===== src/Sdk/Connect/Popup/Payments.antt =====
-- VeraKeyConnect.request of packages/sdk/src/connect.ts: what a failure tells of a payment.
use vera_key.Prelude.{
  ◌≡◌, inl, inr, refl, String, Bool, true, false, not, ◌||◌, List, [], ◌∷◌, Option, none, some,
  arith, Bool-cases, ◌∙◌,
}
use vera_key.Sdk.Values.{Value, text, undefined, Fields, equals_text}
use vera_key.Sdk.Connect.{Platform, is_envelope, message_field}
use vera_key.Sdk.Connect.Popup.{
  PendingPayment, ConnectError, Result, resolved, rejected, Values, waiting, fetched, threw,
  Request, start, settle, fail, when_fetched, on_ready, on_submitted, on_sending, on_progress,
  on_answer, on_message, Happens, message, values_fetched, values_threw, ready_timeout, poll,
  on_poll, on_fetched, on_threw, is_waiting, pending_of, unavailable, closed_message, step, run,
}
use vera_key.Sdk.Connect.Popup.Laws.{IsSound, step-IsSound}

-- What a request that fails tells the site of a payment: the hash that the popup reported, and without
-- one, where the window closed or the relay failed, the payment that it was sending.
pub record TellsPayment (sent : Option String) (sending : Option PendingPayment) (e : ConnectError)
    : Type 0 where
  pub hash : e.hash ≡ sent
  pub pending : e.pending ≡ pending_of sent e.code sending

abbrev pub TellsOf : Option String → Option PendingPayment → Option Result → Type 0
TellsOf sent sending none = Unit
TellsOf sent sending (some (resolved v)) = Unit
TellsOf sent sending (some (rejected e)) = TellsPayment sent sending e

abbrev pub Tells : Request → Type 0
Tells r = TellsOf r.sent r.sending r.result

settle-Tells :
    (e : ConnectError) (r : Request)
    → TellsPayment r.sent r.sending e
    → Tells r
    → Tells (settle (rejected e) r)
unfolding settle
settle-Tells e r t old = elim (Bool-cases r.settled) [ inl y ↦ simp y old | inr n ↦ simp n t ]

fail-Tells :
    (code reason revert : Value) (r : Request) → Tells r → Tells (fail code reason revert r)
unfolding fail
fail-Tells code reason revert r old = settle-Tells _ r (record { hash = refl; pending = refl }) old

open_of : (r : Request) (a b c : Bool) → (r.settled || a || b || c) ≡ false → r.settled ≡ false
open_of r a b c n = ground (arith, n)

none_of_open : (r : Request) → IsSound r → r.settled ≡ false → r.result ≡ none
none_of_open r v n = ground (arith, v.ended, n)

Tells-of_none : (r : Request) → r.result ≡ none → Tells r
Tells-of_none r n = rw n tt

on_progress-result :
    (p : Platform) (m : Value) (r : Request) → (on_progress p m r).result ≡ r.result
unfolding on_progress on_submitted on_sending
on_progress-result p m r = ground arith

resolve-Tells : (v : Value) (r : Request) → Tells r → Tells (settle (resolved v) r)
unfolding settle
resolve-Tells v r old = elim (Bool-cases r.settled) [ inl y ↦ simp y old | inr n ↦ simp n tt ]

on_answer-Tells :
    (p : Platform) (m : Value) (r : Request) → r.result ≡ none → Tells (on_answer p m r)
unfolding on_answer
on_answer-Tells p m r n =
    let old = Tells-of_none r n in
    let kind = message_field "type" m in
    elim (Bool-cases (equals_text kind "progress")) [
      | inl y ↦ simp y (Tells-of_none (on_progress p m r) (on_progress-result p m r ∙ n))
      | inr a ↦ elim (Bool-cases (equals_text kind "result")) [
        | inl y ↦ simp (a, y) (resolve-Tells (message_field "result" m) r old)
        | inr b ↦ elim (Bool-cases (equals_text kind "error")) [
          | inl y ↦
              simp (a, b, y)
                (fail-Tells (message_field "code" m) (message_field "message" m)
                  (message_field "revert" m) r old)
          | inr c ↦ simp (a, b, c) old
        ]
      ]
    ]

on_ready-result : (r : Request) → (on_ready r).result ≡ r.result
unfolding on_ready when_fetched
on_ready-result r = ground arith

on_message-Tells :
    (p : Platform) (m : Value) (r : Request) → r.result ≡ none → Tells (on_message p m r)
unfolding on_message
on_message-Tells p m r n = elim (Bool-cases (equals_text (message_field "type" m) "ready")) [
  | inl y ↦ simp y (Tells-of_none (on_ready r) (on_ready-result r ∙ n))
  | inr a ↦ elim (Bool-cases (equals_text (message_field "id" m) r.id)) [
    | inl y ↦ simp (a, y) (on_answer-Tells p m r n)
    | inr b ↦ simp (a, b) (Tells-of_none r n)
  ]
]

when_fetched-result : (values : Values) (r : Request) → (when_fetched values r).result ≡ r.result
unfolding when_fetched
when_fetched-result waiting r = refl
when_fetched-result threw r = refl
when_fetched-result (fetched params) r = ground arith

on_fetched-Tells : (params : Fields) (r : Request) → Tells r → Tells (on_fetched params r)
unfolding on_fetched when_fetched
on_fetched-Tells params r t = elim (Bool-cases r.ready) [
  | inl y ↦ elim (Bool-cases r.settled) [ inl z ↦ simp (y, z) t | inr z ↦ simp (y, z) t ]
  | inr n ↦ simp n t
]

on_threw-Tells : (reason : Value) (r : Request) → Tells r → Tells (on_threw reason r)
unfolding on_threw
on_threw-Tells reason r t = elim (Bool-cases r.settled) [
  | inl y ↦ simp y t
  | inr n ↦ simp n (fail-Tells (text "request") reason undefined r t)
]

on_poll-Tells : (closed : Bool) (r : Request) → Tells r → Tells (on_poll closed r)
unfolding on_poll
on_poll-Tells false r t = t
on_poll-Tells true r t = elim (Bool-cases r.ready) [
  | inl y ↦ simp y (fail-Tells (text "closed") (closed_message r.sent r.sending) undefined r t)
  | inr n ↦ simp n (fail-Tells (text "unavailable") unavailable undefined r t)
]

step-Tells : (p : Platform) (e : Happens) (r : Request) → IsSound r → Tells r → Tells (step p e r)
unfolding step
step-Tells p (message a b m) r v t =
    elim (Bool-cases (r.settled || not a || not b || not (is_envelope m))) [
      | inl y ↦ simp y t
      | inr n ↦ simp n (on_message-Tells p m r (none_of_open r v (open_of r _ _ _ n)))
    ]
step-Tells p (values_fetched params) r v t = elim (Bool-cases (is_waiting r.values)) [
  | inl y ↦ simp y (on_fetched-Tells params r t)
  | inr n ↦ simp n t
]
step-Tells p (values_threw reason) r v t = elim (Bool-cases (is_waiting r.values)) [
  | inl y ↦ simp y (on_threw-Tells reason r t)
  | inr n ↦ simp n t
]
step-Tells p ready_timeout r v t = elim (Bool-cases (r.settled || r.ready)) [
  | inl y ↦ simp y t
  | inr n ↦ simp n (fail-Tells (text "unavailable") unavailable undefined r t)
]
step-Tells p (poll closed) r v t = elim (Bool-cases r.settled) [
  | inl y ↦ simp y t
  | inr n ↦ simp n (on_poll-Tells closed r t)
]

run-Tells :
    (p : Platform) (es : List Happens) (r : Request) → IsSound r → Tells r → Tells (run p es r)
unfolding run
run-Tells p [] r v t = t
run-Tells p (e ∷ es) r v t =
    run-Tells p es (step p e r) (step-IsSound p e r v) (step-Tells p e r v t)

-- Whatever happens to a request, in whatever order, when it fails its error carries the hash that
-- the popup reported, if any; and the payment that the popup was sending, exactly if it reported
-- no hash and the window was closed or the relay failed.
pub run-start-Tells :
    (p : Platform) (id method : String) (es : List Happens) → Tells (run p es (start id method))
unfolding start
run-start-Tells p id method es = run-Tells p es _ (record { ended = refl; posts = omega arith }) tt
