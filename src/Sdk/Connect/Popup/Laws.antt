-- ===== src/Sdk/Connect/Popup/Laws.antt =====
-- VeraKeyConnect.request of packages/sdk/src/connect.ts: results and posts over all events.
use vera_key.Prelude.{
  ◌≤◌, ◌≡◌, inl, inr, refl, String, Bool, true, false, ◌&&◌, List, [], ◌∷◌, Option, none, some,
  arith, if◌then◌else◌, Bool-cases, length,
}
use vera_key.Sdk.Values.{Value, text, undefined, Fields}
use vera_key.Sdk.Connect.{Platform, message_field}
use vera_key.Sdk.Connect.Popup.{
  Result, resolved, Values, waiting, fetched, threw, Request, start, settle, fail, when_fetched,
  on_ready, on_submitted, on_sending, on_progress, on_answer, on_message, Happens, message,
  values_fetched, values_threw, ready_timeout, poll, on_poll, on_fetched, on_threw, is_waiting,
  unavailable, closed_message, step, run,
}

-- A request has a result exactly when it has ended.
abbrev pub has_result : Option Result → Bool
has_result none = false
has_result (some r) = true

abbrev pub is_fetched : Values → Bool
is_fetched (fetched params) = true
is_fetched _ = false

pub record IsSound (r : Request) : Type 0 where
  pub ended : has_result r.result ≡ r.settled
  pub posts : length r.posted ≤ (if r.ready && is_fetched r.values then 1 else 0)

settle-IsSound : (result : Result) (r : Request) → IsSound r → IsSound (settle result r)
unfolding settle
settle-IsSound result r v = ground arith

fail-IsSound :
    (code reason revert : Value) (r : Request) → IsSound r → IsSound (fail code reason revert r)
unfolding fail
fail-IsSound code reason revert r v = settle-IsSound _ r v

on_progress-IsSound :
    (p : Platform) (m : Value) (r : Request) → IsSound r → IsSound (on_progress p m r)
unfolding on_progress on_submitted on_sending
on_progress-IsSound p m r v = ground arith

on_answer-IsSound : (p : Platform) (m : Value) (r : Request) → IsSound r → IsSound (on_answer p m r)
unfolding on_answer
on_answer-IsSound p m r v = ground (
  arith,
  on_progress-IsSound p m r v,
  settle-IsSound (resolved (message_field "result" m)) r v,
  fail-IsSound (message_field "code" m) (message_field "message" m) (message_field "revert" m) r v,
)

when_fetched-IsSound :
    (values : Values) (r : Request)
    → has_result r.result ≡ r.settled
    → length r.posted ≡ 0
    → r.ready ≡ true
    → r.values ≡ values
    → IsSound (when_fetched values r)
unfolding when_fetched
when_fetched-IsSound waiting r e n y w = record { ended = e; posts = omega (arith, n) }
when_fetched-IsSound threw r e n y w = record { ended = e; posts = omega (arith, n) }
when_fetched-IsSound (fetched params) r e n y w = ground arith

on_ready-IsSound : (r : Request) → IsSound r → IsSound (on_ready r)
unfolding on_ready
on_ready-IsSound r v = elim (Bool-cases r.ready) [
  | inl y ↦ ground (arith, y)
  | inr n ↦
      let none_posted : length r.posted ≡ 0 = ground (arith, v.posts, n) in
      let opened =
        when_fetched-IsSound r.values (record r { ready = true }) v.ended none_posted refl refl in
      ground (arith, n, opened)
]

on_fetched-IsSound :
    (params : Fields) (r : Request)
    → is_waiting r.values ≡ true
    → IsSound r
    → IsSound (on_fetched params r)
unfolding on_fetched
on_fetched-IsSound params r w v =
    let known : Request = record r { values = fetched params } in
    let none_posted : length r.posted ≡ 0 = ground (arith, v.posts, w) in
    elim (Bool-cases r.ready) [
      | inl y ↦
          ground (arith, y, when_fetched-IsSound (fetched params) known v.ended none_posted y refl)
      | inr n ↦ ground (arith, n, none_posted, v.ended)
    ]

on_threw-IsSound :
    (reason : Value) (r : Request)
    → is_waiting r.values ≡ true
    → IsSound r
    → IsSound (on_threw reason r)
unfolding on_threw fail settle
on_threw-IsSound reason r w v =
    let none_posted : length r.posted ≡ 0 = ground (arith, v.posts, w) in
    ground (arith, none_posted, v.ended)

on_message-IsSound :
    (p : Platform) (m : Value) (r : Request) → IsSound r → IsSound (on_message p m r)
unfolding on_message
on_message-IsSound p m r v = ground (arith, on_answer-IsSound p m r v, on_ready-IsSound r v)

on_poll-IsSound : (closed : Bool) (r : Request) → IsSound r → IsSound (on_poll closed r)
unfolding on_poll
on_poll-IsSound false r v = v
on_poll-IsSound true r v = ground (
  arith,
  fail-IsSound (text "closed") (closed_message r.sent r.sending) undefined r v,
  fail-IsSound (text "unavailable") unavailable undefined r v,
)

pub step-IsSound : (p : Platform) (e : Happens) (r : Request) → IsSound r → IsSound (step p e r)
unfolding step
step-IsSound p (message a b m) r v = ground (arith, on_message-IsSound p m r v)
step-IsSound p (values_fetched params) r v = elim (Bool-cases (is_waiting r.values)) [
  | inl w ↦ rw w (on_fetched-IsSound params r w v)
  | inr n ↦ rw n v
]
step-IsSound p (values_threw reason) r v = elim (Bool-cases (is_waiting r.values)) [
  | inl w ↦ rw w (on_threw-IsSound reason r w v)
  | inr n ↦ rw n v
]
step-IsSound p ready_timeout r v =
    ground (arith, fail-IsSound (text "unavailable") unavailable undefined r v)
step-IsSound p (poll closed) r v = ground (arith, on_poll-IsSound closed r v)

run-IsSound : (p : Platform) (es : List Happens) (r : Request) → IsSound r → IsSound (run p es r)
unfolding run
run-IsSound p [] r v = v
run-IsSound p (e ∷ es) r v = run-IsSound p es (step p e r) (step-IsSound p e r v)

-- Whatever happens to a request, in whatever order: it has a result exactly when it has ended, and
-- it posts at most one message to the popup, once the popup is ready and the site's values are
-- fetched.
pub run-start-IsSound :
    (p : Platform) (id method : String) (es : List Happens) → IsSound (run p es (start id method))
unfolding start
run-start-IsSound p id method es = run-IsSound p es _ (record { ended = refl; posts = omega arith })

module _ (p : Platform) (r : Request) (y : r.settled ≡ true) where
  pub record IsKept (s : Request) : Type 0 where
    pub result : s.result ≡ r.result
    pub posted : s.posted ≡ r.posted
    pub closes : s.closes ≡ r.closes
    pub settled : s.settled ≡ true

  same-IsKept : IsKept r
  same-IsKept = record { result = refl; posted = refl; closes = refl; settled = y }

  on_fetched-IsKept : (params : Fields) → IsKept (on_fetched params r)
  unfolding on_fetched when_fetched
  on_fetched-IsKept params = ground (arith, y)

  on_threw-IsKept : (reason : Value) → IsKept (on_threw reason r)
  unfolding on_threw
  on_threw-IsKept reason =
      simp y (record { result = refl; posted = refl; closes = refl; settled = refl })

  -- Once a request has ended, nothing that happens changes its result, posts to the popup or
  -- closes it.
  pub step_settled : (e : Happens) → IsKept (step p e r)
  unfolding step
  step_settled (message a b m) = simp y same-IsKept
  step_settled (values_fetched params) = elim (Bool-cases (is_waiting r.values)) [
    | inl w ↦ simp w (on_fetched-IsKept params)
    | inr n ↦ simp n same-IsKept
  ]
  step_settled (values_threw reason) = elim (Bool-cases (is_waiting r.values)) [
    | inl w ↦ simp w (on_threw-IsKept reason)
    | inr n ↦ simp n same-IsKept
  ]
  step_settled ready_timeout = simp y same-IsKept
  step_settled (poll closed) = simp y same-IsKept
