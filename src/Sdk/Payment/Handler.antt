-- ===== src/Sdk/Payment/Handler.antt =====
-- packages/sdk/src/server.ts: the handler of `POST payment`, with its guards.
use vera_key.Prelude.{ℕ, String, List, Option, none, some, ◌==◌, if◌then◌else◌}
use vera_key.Collections.Set
use vera_key.Sdk.Values.{Value}
use vera_key.Sdk.MemoryStore.{Store}
use vera_key.Sdk.Session.{Player}
use vera_key.Sdk.Payment.{
  Outcome, ok, refuses, crashes, refuse, Chain, Payment, verify, Fulfilment, Receipt,
  accept_verified,
}

pub record Kit : Type 0 where
  pub store : Store
  -- players with a payment check running
  pub paying : List String

abbrev pub require_origin : (origin : String) → Option String → Outcome (Unit {0})
require_origin origin none = refuse 403 (
    Prim.Native.String.◌++◌ "Requests to VeraKey's routes must come from "
      (Prim.Native.String.◌++◌ origin "."))
require_origin origin (some from) =
    if from == origin
    then ok tt
    else refuse 403 (
        Prim.Native.String.◌++◌ "Open this site at " (
          Prim.Native.String.◌++◌ origin (
            Prim.Native.String.◌++◌ ": this request came from "
              (Prim.Native.String.◌++◌ from "."))))

-- A request to the route.
pub record Request : Type 0 where
  pub from : Option String
  pub session : Option Player
  pub body : Outcome Value
  pub now : ℕ

pub record Site : Type 0 where
  pub origin : String
  pub merchant : Option String
  pub chain : Chain
  pub on_payment : Payment → Fulfilment

abbrev pub check_paying :
    Site → Request → Player → (merchant : String) → Kit → Outcome Receipt × Kit
check_paying site r player merchant kit =
    if Set.has player.id kit.paying
    then (refuse 429 "A payment for this player is being checked. Try again in a moment.", kit)
    else (let (answer, store) =
          accept_verified (verify site.chain player merchant r.body) site.on_payment r.now
            kit.store in
        (
          answer,
          record kit {
            store = store;
            paying = Set.delete player.id (Set.add player.id kit.paying);
          },
        ))

abbrev pub check_merchant : Site → Request → Player → Option String → Kit → Outcome Receipt × Kit
check_merchant site r player none kit = (refuse 404 "This site takes no payments.", kit)
check_merchant site r player (some merchant) kit = check_paying site r player merchant kit

abbrev pub check_session : Site → Request → Option Player → Kit → Outcome Receipt × Kit
check_session site r none kit = (refuse 401 "Sign in first.", kit)
check_session site r (some player) kit = check_merchant site r player site.merchant kit

abbrev pub check_origin : Site → Request → Outcome (Unit {0}) → Kit → Outcome Receipt × Kit
check_origin site r (ok u) kit = check_session site r r.session kit
check_origin site r (refuses e) kit = (refuses e, kit)
check_origin site r crashes kit = (crashes, kit)

-- `POST payment`
unfoldable pub payment : Site → Request → Kit → Outcome Receipt × Kit
payment site r kit = check_origin site r (require_origin site.origin r.from) kit
