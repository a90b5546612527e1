-- ===== src/Server/Rpc/Laws.antt =====
-- server/index.ts, /api/rpc: what is forwarded to the node.
use vera_key.Prelude.{
  ℕ, ◌+◌, ◌≤◌, ◌≡◌, ◌⊎◌, inl, inr, refl, String, Bool, true, not, ◌||◌, List, [], ◌∷◌, Option, none,
  some, arith, ltb, nat_beq, length, Bool-cases, eq_iff,
}
use vera_key.Server.RateLimit.{RateLimiter, take}
use vera_key.Server.Rpc.{
  Json, text, other, missing, array, object, json_field, member, rpc_methods, max_rpc_batch,
  max_log_blocks, block, names_contracts, is_text, bounded_range, first, bounded_log_query,
  allowed_method, allowed_rpc_call, all_allowed, calls_of, RpcLimits, forwards, take_everyone,
  take_both, rpc,
}

-- A log query names its contracts, and one block by its hash or a range of at most 100,000 blocks more.
pub record IsBounded (filter : Json) : Type 0 where
  pub contracts : names_contracts (json_field "address" filter) ≡ true
  pub range :
      (is_text (json_field "blockHash" filter) ≡ true)
      ⊎ ((from to : ℕ) × (block (json_field "fromBlock" filter) ≡ some from)
          × (block (json_field "toBlock" filter) ≡ some to)
          × (from ≤ to)
          × (to ≤ from + max_log_blocks))

-- A call names a method on the list, and its logs are bounded.
pub record IsReadOnly (call : Json) : Type 0 where
  pub method : String
  pub named : json_field "method" call ≡ text method
  pub listed : member method rpc_methods ≡ true
  pub logs : method ≡ "eth_getLogs" → IsBounded (first (json_field "params" call))

abbrev pub AllReadOnly : List Json → Type 0
AllReadOnly [] = Unit
AllReadOnly (c ∷ cs) = IsReadOnly c × AllReadOnly cs

range-bounded :
    (from to : Option ℕ)
    → bounded_range from to ≡ true
    → (a b : ℕ) × (from ≡ some a) × (to ≡ some b) × (a ≤ b) × (b ≤ a + max_log_blocks)
range-bounded none to h = cc
range-bounded (some a) none h = cc
range-bounded (some a) (some b) h = (a, b, refl, refl, ground arith, ground arith)

bounded_log_query-IsBounded :
    (params : Json) → bounded_log_query params ≡ true → IsBounded (first params)
unfolding bounded_log_query
bounded_log_query-IsBounded params h =
    let filter = first params in
    elim (Bool-cases (is_text (json_field "blockHash" filter))) [
      | inl y ↦ record { contracts = ground arith; range = inl y }
      | inr n ↦ record {
        contracts = ground arith;
        range = inr (
            range-bounded (block (json_field "fromBlock" filter))
              (block (json_field "toBlock" filter)) (ground (arith, n)));
      }
    ]

allowed_method-IsReadOnly :
    (call method : Json)
    → json_field "method" call ≡ method
    → allowed_method method (json_field "params" call) ≡ true
    → IsReadOnly call
allowed_method-IsReadOnly call (text m) e h = record {
  method = m;
  named = e;
  listed = ground arith;
  logs = λ same.
      bounded_log_query-IsBounded (json_field "params" call)
        (ground (arith, same, eq_iff m "eth_getLogs"));
}
allowed_method-IsReadOnly call other e h = cc
allowed_method-IsReadOnly call missing e h = cc
allowed_method-IsReadOnly call (array is) e h = cc
allowed_method-IsReadOnly call (object fs) e h = cc

all_allowed-AllReadOnly : (cs : List Json) → all_allowed cs ≡ true → AllReadOnly cs
unfolding all_allowed allowed_rpc_call
all_allowed-AllReadOnly [] h = tt
all_allowed-AllReadOnly (c ∷ cs) h = (
  allowed_method-IsReadOnly c (json_field "method" c) refl (ground arith),
  all_allowed-AllReadOnly cs (ground arith),
)

abbrev pub visitor_take : RpcLimits → String → ℕ → Json → RateLimiter × Bool
visitor_take l visitor now body =
    take l.per_ip (Prim.Native.String.◌++◌ "rpc:" visitor) (length (calls_of body)) now

abbrev pub everyone_take : RpcLimits → ℕ → Json → RateLimiter × Bool
everyone_take l now body = take l.for_everyone "all" (length (calls_of body)) now

-- What is forwarded is the request, of 1 to 10 read-only calls, for which both limiters had room.
pub record IsForwarded (l : RpcLimits) (visitor : String) (now : ℕ) (body sent : Json)
    : Type 0 where
  pub same : sent ≡ body
  pub some_calls : 1 ≤ length (calls_of body)
  pub few_calls : length (calls_of body) ≤ 10
  pub read_only : AllReadOnly (calls_of body)
  pub visitor_room : (visitor_take l visitor now body).1 ≡ true
  pub room : (everyone_take l now body).1 ≡ true

take_everyone-forwards :
    (l : RpcLimits) (now : ℕ) (body sent : Json)
    → (take_everyone l now body).0 ≡ forwards sent
    → (sent ≡ body) × ((everyone_take l now body).1 ≡ true)
take_everyone-forwards l now body sent h = ground arith

take_both-forwards :
    (l : RpcLimits) (visitor : String) (now : ℕ) (body sent : Json)
    → (take_both l visitor now body).0 ≡ forwards sent
    → (sent ≡ body)
      × ((visitor_take l visitor now body).1 ≡ true)
      × ((everyone_take l now body).1 ≡ true)
take_both-forwards l visitor now body sent h =
    elim (Bool-cases (visitor_take l visitor now body).1) [
      | inl y ↦
          let mine : RpcLimits = record l { per_ip = (visitor_take l visitor now body).0 } in
          let (same, room) = take_everyone-forwards mine now body sent (ground (arith, y)) in
          (same, y, room)
      | inr n ↦ ground (arith, n)
    ]

-- The route forwards to the node only the request it got, of 1 to 10 calls, each of a method on
-- its list, log queries bounded, and only while the visitor's and everyone's limits have room.
pub rpc-IsForwarded :
    (l : RpcLimits) (visitor : String) (now : ℕ) (body sent : Json)
    → (rpc l visitor now body).0 ≡ forwards sent
    → IsForwarded l visitor now body sent
unfolding rpc
rpc-IsForwarded l visitor now body sent h =
    elim (Bool-cases (
      nat_beq (length (calls_of body)) 0
      || ltb max_rpc_batch (length (calls_of body))
      || not (all_allowed (calls_of body)))) [
        | inl y ↦ ground (arith, y)
        | inr n ↦
            let (same, mine, room) =
              take_both-forwards l visitor now body sent (ground (arith, n)) in
            record {
              same = same;
              some_calls = ground (arith, n);
              few_calls = ground (arith, n);
              read_only = all_allowed-AllReadOnly (calls_of body) (ground (arith, n));
              visitor_room = mine;
              room = room;
            }
      ]
