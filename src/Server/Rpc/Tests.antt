-- ===== src/Server/Rpc/Tests.antt =====
-- server/index.ts, /api/rpc at concrete requests.
use vera_key.Prelude.{◌*◌, ◌≤◌, ◌≡◌, refl, String, List, [], ◌∷◌, arith}
use vera_key.Prelude.Text.{big_int}
use vera_key.Collections.Map
use vera_key.Server.RateLimit.{take, sweep}
use vera_key.Server.RateLimit.Laws.{IsValid}
use vera_key.Server.Rpc.{
  Json, text, array, object, empty, item, end, field, property, items, member, block, is_block,
  hex_up_to, bounded_log_query, allowed_rpc_call, all_allowed, RpcLimits, not_allowed, forwards,
  rpc,
}
use vera_key.Server.Rpc.Laws.{IsForwarded, rpc-IsForwarded}
use vera_key.Server.Rpc.Load.{RpcRequest, load, load-le}

abbrev limits : RpcLimits
limits = record {
  per_ip = record { limit = 2; window_ms = 100; windows = [] };
  for_everyone = record { limit = 3; window_ms = 100; windows = [] };
}

abbrev logs_of : String → Json
logs_of last = object (
    field "method" (text "eth_getLogs") (
      field "params"
        (array (
          item
            (object (
              field "address" (text "0xaa")
                (field "fromBlock" (text "0x10") (field "toBlock" (text last) end))))
            empty))
        end))

abbrev two_calls : Json
two_calls =
    array (item (logs_of "0x20") (item (object (field "method" (text "eth_call") end)) empty))

route : Unit {0}
unfolding rpc take sweep Map.get Map.set property items member block is_block hex_up_to big_int
    bounded_log_query allowed_rpc_call all_allowed load
route = tt

two_calls-forwarded : (rpc limits "v" 10 two_calls).0 ≡ forwards two_calls
unfolding route
two_calls-forwarded = refl

rpc_tests :
    ((rpc limits "v" 10 (logs_of "0x186b1")).0 ≡ not_allowed)
    × ((rpc limits "v" 10 (logs_of "0x186b0")).0 ≡ forwards (logs_of "0x186b0"))
    × ((rpc limits "v" 10 (logs_of "0xf")).0 ≡ not_allowed)
unfolding route
rpc_tests = (refl, refl, refl)

rpc-IsForwarded_example : IsForwarded limits "v" 10 two_calls two_calls
rpc-IsForwarded_example = rpc-IsForwarded limits "v" 10 two_calls two_calls two_calls-forwarded

abbrev requests : List RpcRequest
requests =
    record { visitor = "v"; now = 10; body = two_calls }
    ∷ record { visitor = "w"; now = 20; body = two_calls }
    ∷ record { visitor = "u"; now = 30; body = logs_of "0x20" }
    ∷ []

limits-IsValid : IsValid limits.for_everyone
unfolding Map.get
limits-IsValid = record { unique = tt; fits = λ key. tt }

load-requests : load limits requests ≡ 3
unfolding route
load-requests = refl

load-le_example : load limits requests ≤ 2 * 3
load-le_example = load-le 10 limits requests limits-IsValid (omega arith)
