-- ===== src/Server/Rpc.antt =====
-- server/index.ts: the route /api/rpc, which forwards read-only calls to the node. The visitor's key is
-- an argument, as VisitorKeys gives it.
pub mod Laws
pub mod Load
mod Tests
use Prim.Native.Char.{code}
use Prim.Native.String.{String, [], ◌∷◌}
use vera_key.Prelude.{
  ℕ, ◌+◌, Bool, true, false, not, ◌&&◌, ◌||◌, List, [], ◌∷◌, Option, none, some, leb, ltb, nat_beq,
  ◌==◌, if◌then◌else◌, length,
}
use vera_key.Prelude.Text.{ℤ, pos, negsuc, big_int}
use vera_key.Server.RateLimit.{RateLimiter, take}

-- A request's JSON. `other` is a number, a boolean or null; `missing` is undefined.
mutual
  pub data Json : Type 0 where
    text : String → Json
    other : Json
    missing : Json
    array : Items → Json
    object : Fields → Json

  pub data Items : Type 0 where
    empty : Items
    item : Json → Items → Items

  pub data Fields : Type 0 where
    end : Fields
    field : String → Json → Fields → Fields

unfoldable pub property : String → Fields → Json
property name end = missing
property name (field n v fs) = if n == name then v else property name fs

abbrev pub json_field : String → Json → Json
json_field name (object fs) = property name fs
json_field name _ = missing

unfoldable pub items : Items → List Json
items empty = []
items (item v is) = v ∷ items is

unfoldable pub member : String → List String → Bool
member s [] = false
member s (t ∷ ts) = t == s || member s ts

abbrev pub rpc_methods : List String
rpc_methods =
    "eth_chainId" ∷ "eth_blockNumber" ∷ "eth_call" ∷ "eth_getCode" ∷ "eth_getBalance"
    ∷ "eth_getBlockByNumber" ∷ "eth_getTransactionByHash" ∷ "eth_getTransactionReceipt"
    ∷ "eth_getTransactionCount" ∷ "eth_estimateGas" ∷ "eth_gasPrice" ∷ "eth_maxPriorityFeePerGas"
    ∷ "eth_feeHistory" ∷ "eth_getLogs" ∷ "net_version" ∷ []

abbrev pub max_rpc_batch : ℕ
max_rpc_batch = 10

abbrev pub max_log_blocks : ℕ
max_log_blocks = 100000

abbrev pub is_hex_digit : ℕ → Bool
is_hex_digit c =
    (leb b'0' c && leb c b'9') || (leb b'a' c && leb c b'f') || (leb b'A' c && leb c b'F')

-- `/^[0-9a-fA-F]{0,most}$/`
unfoldable pub hex_up_to : ℕ → String → Bool
hex_up_to most [] = true
hex_up_to most (c ∷ s) =
    is_hex_digit (code c) && ltb 0 most && hex_up_to (Prim.Native.Nat.pred most) s

abbrev pub hex_digits : String → Bool
hex_digits [] = false
hex_digits (c ∷ s) = hex_up_to 16 (c ∷ s)

abbrev pub after_x : String → Bool
after_x [] = false
after_x (c ∷ s) = nat_beq (code c) b'x' && hex_digits s

-- `/^0x[0-9a-fA-F]{1,16}$/`
unfoldable pub is_block : String → Bool
unfolding hex_up_to
is_block [] = false
is_block (c ∷ s) = nat_beq (code c) b'0' && after_x s

abbrev pub natural : Option ℤ → Option ℕ
natural (some (pos n)) = some n
natural _ = none

unfoldable pub block : Json → Option ℕ
unfolding is_block
block (text s) = if is_block s then natural (big_int s) else none
block _ = none

abbrev pub names_contracts : Json → Bool
names_contracts (text s) = true
names_contracts (array is) = ltb 0 (length (items is)) && leb (length (items is)) 10
names_contracts _ = false

abbrev pub is_text : Json → Bool
is_text (text s) = true
is_text _ = false

-- `to >= from && to - from <= MAX_LOG_BLOCKS`
abbrev pub bounded_range : Option ℕ → Option ℕ → Bool
bounded_range (some from) (some to) = leb from to && leb to (from + max_log_blocks)
bounded_range _ _ = false

abbrev pub first : Json → Json
first (array (item v is)) = v
first _ = missing

abbrev pub bounded_filter : Json → Bool
bounded_filter filter =
    names_contracts (json_field "address" filter)
    && (is_text (json_field "blockHash" filter)
        || bounded_range (block (json_field "fromBlock" filter))
            (block (json_field "toBlock" filter)))

unfoldable pub bounded_log_query : Json → Bool
bounded_log_query params = bounded_filter (first params)

abbrev pub allowed_method : Json → Json → Bool
allowed_method (text method) params =
    member method rpc_methods && (not (method == "eth_getLogs") || bounded_log_query params)
allowed_method _ params = false

unfoldable pub allowed_rpc_call : Json → Bool
allowed_rpc_call call = allowed_method (json_field "method" call) (json_field "params" call)

unfoldable pub all_allowed : List Json → Bool
all_allowed [] = true
all_allowed (c ∷ cs) = allowed_rpc_call c && all_allowed cs

abbrev pub calls_of : Json → List Json
calls_of (array is) = items is
calls_of body = body ∷ []

pub record RpcLimits : Type 0 where
  pub per_ip : RateLimiter
  pub for_everyone : RateLimiter

pub data RpcAnswer : Type 0 where
  -- 400
  not_allowed : RpcAnswer
  -- 429
  too_many : RpcAnswer
  -- what the node answers, or 502
  forwards : Json → RpcAnswer

abbrev pub take_everyone : RpcLimits → (now : ℕ) → Json → RpcAnswer × RpcLimits
take_everyone l now body =
    let (everyone, granted) = take l.for_everyone "all" (length (calls_of body)) now in
    (if granted then forwards body else too_many, record l { for_everyone = everyone })

abbrev pub take_both : RpcLimits → (visitor : String) → (now : ℕ) → Json → RpcAnswer × RpcLimits
take_both l visitor now body =
    let (mine, granted) =
      take l.per_ip (Prim.Native.String.◌++◌ "rpc:" visitor) (length (calls_of body)) now in
    if granted
    then take_everyone (record l { per_ip = mine }) now body
    else (too_many, record l { per_ip = mine })

-- `app.post("/api/rpc", …)`
unfoldable pub rpc : RpcLimits → (visitor : String) → (now : ℕ) → Json → RpcAnswer × RpcLimits
rpc l visitor now body =
    if nat_beq (length (calls_of body)) 0
      || ltb max_rpc_batch (length (calls_of body))
      || not (all_allowed (calls_of body))
    then (not_allowed, l)
    else take_both l visitor now body
