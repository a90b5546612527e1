-- ===== src/Server/Relayer/Interleaving/Tests.antt =====
-- server/relayer.ts: requests that run at once, where the wait for a first transaction times out, and the file of
-- the faucet cannot be written.
use vera_key.Prelude.{refl, true, [], ◌∷◌, some}
use vera_key.Collections.Set
use vera_key.Collections.Bag.{drop_one, count}
use vera_key.Server.RateLimit.{RateLimiter}
use vera_key.Server.Relayer.{Relayer, Context, answered, unreachable}
use vera_key.Server.Relayer.Relay.{enter, leave}
use vera_key.Server.Relayer.Faucet.{reserve, settle, remember, release, write_file}
use vera_key.Server.Relayer.Interleaving.{
  World, Reach, here, further, enters, sends, loses, reserves, gives, pays,
}
use vera_key.Server.Relayer.Interleaving.Exclusion.{IsExclusive, Reach-IsExclusive}

abbrev budget : RateLimiter
budget = record { limit = 10; window_ms = 86400000; windows = [] }

abbrev fresh : Relayer
fresh = record {
  funded = [];
  granting = [];
  in_flight = [];
  unpaid_safety_actions = budget;
  gas_per_day = budget;
  faucet_file = [];
  sent = [];
}

abbrev full_disk : Context
full_disk = record {
  config = record {
    account_implementation = "0xAB";
    factory = "0xFa";
    usdg = "0xUSD";
    fee = 20000;
    faucet_amount = 5000000;
    mintable_usdg = true;
  };
  is_address = λ s. true;
  is_hex = λ s. true;
  get_code = λ a. unreachable;
  factory_of = λ a. unreachable;
  is_frozen = λ a. unreachable;
  pending_change_ids = λ a. unreachable;
  policy = λ a. unreachable;
  account_address = λ a n. unreachable;
  treasury = unreachable;
  simulate = λ c. answered tt;
  estimate_gas = λ c. answered 900000;
  write = λ c. answered "0xhash";
  failed_write = some [];
  now = 1000;
}

abbrev idle : World
idle = record {
  relayer = fresh;
  relaying = [];
  waiting = [];
  aloft = [];
  lost = [];
  reserving = [];
  paying = [];
  grants = [];
  unanswered = [];
}

idle-IsExclusive : IsExclusive idle
unfolding Set.has count
idle-IsExclusive = record {
  relays = record {
    one_relay = tt;
    flying = λ j. refl;
    one_waiting = tt;
    inside = λ j. refl;
    counted = λ j. refl;
  };
  grants = record {
    one_reservation = tt;
    reserved = λ j. refl;
    one_paying = tt;
    inside = λ j. refl;
    pending = λ j. refl;
    counted = λ j. Prim.Native.Nat.zero-le;
  };
}

-- Two transactions of the account are on their way, of which one is lost; and it was granted USDG.
abbrev busy : World
busy = record {
  relayer = record fresh { in_flight = "0xaa" ∷ []; funded = "0xaa" ∷ [] };
  relaying = "0xaa" ∷ [];
  waiting = "0xaa" ∷ [];
  aloft = "0xaa" ∷ "0xaa" ∷ [];
  lost = "0xaa" ∷ [];
  reserving = [];
  paying = [];
  grants = "0xaa" ∷ [];
  unanswered = [];
}

abbrev flying : Relayer
flying = record fresh { in_flight = "0xaa" ∷ [] }

run : Reach idle busy
unfolding enter leave reserve settle remember release write_file drop_one Set.has Set.add Set.delete
run =
    let once =
      further (further (further here (enters "0xaa" flying refl)) (sends "0xaa" refl refl))
        (loses "0xaa" refl) in
    let twice = further (further once (enters "0xaa" flying refl)) (sends "0xaa" refl refl) in
    further
      (further (further twice (reserves "0xaa" (record flying { granting = "0xaa" ∷ [] }) refl))
        (gives "0xaa" refl refl))
      (pays "0xaa" full_disk "0xhash" refl)

Reach-IsExclusive_example : IsExclusive busy
Reach-IsExclusive_example = Reach-IsExclusive idle-IsExclusive run
