-- ===== src/Server/Rpc/Load.antt =====
-- server/index.ts, /api/rpc over time: how many calls reach the node.
use vera_key.Prelude.{
  ℕ, ◌+◌, ◌*◌, ◌≤◌, ◌<◌, ◌≡◌, ◌⊎◌, inl, inr, refl, ap, ◌∙◌, String, Bool, true, false, not, ◌&&◌,
  ◌||◌, List, [], ◌∷◌, arith, ltb, nat_beq, if◌then◌else◌, length, Bool-cases, eq_refl,
}
use vera_key.Server.RateLimit.Laws.{IsValid}
use vera_key.Server.RateLimit.Bounds.{Request, granted, total, IsDuring, total-le}
use vera_key.Server.Rpc.{
  Json, max_rpc_batch, all_allowed, calls_of, RpcLimits, RpcAnswer, forwards, take_everyone, rpc,
}
use vera_key.Server.Rpc.Laws.{visitor_take, everyone_take}

pub record RpcRequest : Type 0 where
  pub visitor : String
  pub now : ℕ
  pub body : Json

abbrev pub calls_forwarded : RpcAnswer → ℕ
calls_forwarded (forwards body) = length (calls_of body)
calls_forwarded _ = 0

-- How many calls reach the node from requests in a row.
unfoldable pub load : RpcLimits → List RpcRequest → ℕ
load l [] = 0
load l (r ∷ rs) =
    let (answer, after) = rpc l r.visitor r.now r.body in calls_forwarded answer + load after rs

-- The requests come in the order of their times, from `from` on and before `end`.
abbrev pub AreDuring : ℕ → ℕ → List RpcRequest → Type 0
AreDuring from end [] = Unit
AreDuring from end (r ∷ rs) = (from ≤ r.now) × (r.now < end) × AreDuring r.now end rs

abbrev is_refused : Json → Bool
is_refused body =
    nat_beq (length (calls_of body)) 0
    || ltb max_rpc_batch (length (calls_of body))
    || not (all_allowed (calls_of body))

-- Whether the request asks everyone's limit.
abbrev reaches : RpcLimits → RpcRequest → Bool
reaches l r = not (is_refused r.body) && (visitor_take l r.visitor r.now r.body).1

abbrev weighed : RpcRequest → Request
weighed r = record { key = "all"; weight = length (calls_of r.body); now = r.now }

-- What everyone's limit is asked.
unfoldable asked : RpcLimits → List RpcRequest → List Request
asked l [] = []
asked l (r ∷ rs) =
    let rest = asked (rpc l r.visitor r.now r.body).1 rs in
    if reaches l r then weighed r ∷ rest else rest

abbrev StepCases : RpcLimits → RpcRequest → RpcAnswer × RpcLimits → Type 0
StepCases l r s =
    ((reaches l r ≡ false) × (s.1.for_everyone ≡ l.for_everyone) × (calls_forwarded s.0 ≡ 0))
    ⊎ ((reaches l r ≡ true)
        × (s.1.for_everyone ≡ (everyone_take l r.now r.body).0)
        × (calls_forwarded s.0 ≡ granted "all" (weighed r) (everyone_take l r.now r.body).1))

take_everyone-weight :
    (l : RpcLimits) (r : RpcRequest)
    → calls_forwarded (take_everyone l r.now r.body).0
      ≡ granted "all" (weighed r) (everyone_take l r.now r.body).1
take_everyone-weight l r = elim (Bool-cases (everyone_take l r.now r.body).1) [
  | inl y ↦ simp (y, eq_refl "all") refl
  | inr n ↦ simp (n, eq_refl "all") refl
]

step_cases : (l : RpcLimits) (r : RpcRequest) → StepCases l r (rpc l r.visitor r.now r.body)
unfolding rpc
step_cases l r = elim (Bool-cases (is_refused r.body)) [
  | inl y ↦ simp y (inl (refl, refl, refl))
  | inr n ↦ elim (Bool-cases (visitor_take l r.visitor r.now r.body).1) [
    | inl y ↦
        let mine : RpcLimits = record l { per_ip = (visitor_take l r.visitor r.now r.body).0 } in
        simp (n, y) (inr (refl, refl, take_everyone-weight mine r))
    | inr z ↦ simp (n, z) (inl (refl, refl, refl))
  ]
]

load-total :
    (l : RpcLimits) (rs : List RpcRequest) → load l rs ≡ total l.for_everyone "all" (asked l rs)
unfolding load asked total
load-total l [] = refl
load-total l (r ∷ rs) =
    let after : RpcLimits = (rpc l r.visitor r.now r.body).1 in
    let ih = load-total after rs in
    elim (step_cases l r) [
      | inl (unasked, same, none_sent) ↦
          let same_total = ih ∙ ap (λ e. total e "all" (asked after rs)) same in
          rw (unasked, none_sent) (omega (arith, same_total))
      | inr (asking, taken, weight) ↦
          rw (asking, weight)
            (ap (λ n. granted "all" (weighed r) (everyone_take l r.now r.body).1 + n)
              (ih ∙ ap (λ e. total e "all" (asked after rs)) taken))
    ]

IsDuring-earlier :
    (from later end : ℕ) (rs : List Request)
    → from ≤ later
    → IsDuring later end rs
    → IsDuring from end rs
IsDuring-earlier from later end [] h d = tt
IsDuring-earlier from later end (r ∷ rs) h (after, before, d) = (omega (arith, h, after), before, d)

IsDuring-asked :
    (from end : ℕ) (l : RpcLimits) (rs : List RpcRequest)
    → AreDuring from end rs
    → IsDuring from end (asked l rs)
unfolding asked
IsDuring-asked from end l [] d = tt
IsDuring-asked from end l (r ∷ rs) (after, before, d) =
    let rest = IsDuring-asked r.now end (rpc l r.visitor r.now r.body).1 rs d in
    elim (Bool-cases (reaches l r)) [
      | inl y ↦ simp y (after, before, rest)
      | inr n ↦ simp n (IsDuring-earlier from r.now end _ after rest)
    ]

-- Requests in the order of their times, over a stretch no longer than one window of everyone's
-- limit, get at most twice that limit of calls to the node together, whoever sends them.
pub load-le :
    (begin : ℕ) (l : RpcLimits) (rs : List RpcRequest)
    → IsValid l.for_everyone
    → AreDuring begin (begin + l.for_everyone.window_ms) rs
    → load l rs ≤ 2 * l.for_everyone.limit
load-le begin l rs v d =
    rw (load-total l rs)
      (total-le begin l.for_everyone "all" (asked l rs) v (IsDuring-asked begin _ l rs d))
