-- ===== src/Sdk/Payment/Tests.antt =====
-- packages/sdk/src/server.ts, the payment route at concrete requests.
use vera_key.Prelude.{
  ℕ, ◌≡◌, refl, String, true, false, [], ◌∷◌, none, some, nat_beq, if◌then◌else◌, starts_with,
  arith,
}
use vera_key.Prelude.Text.{big_int, lower}
use vera_key.Collections.Map
use vera_key.Collections.Set
use vera_key.Collections.Bag.{count}
use vera_key.Sdk.Values.{
  text, object, end, field, property, length16, is_amount, is_digits, digits_up_to,
}
use vera_key.Sdk.MemoryStore.{claim, release, tidy}
use vera_key.Sdk.Session.{Player}
use vera_key.Sdk.Payment.{
  Outcome, ok, refuse, Verdict, Chain, ask_again, ask, Payment, verify, accepts, throws, Receipt,
  claim_key, claim_and_fulfil,
}
use vera_key.Sdk.Payment.Handler.{Kit, Request, Site, payment}
use vera_key.Sdk.Payment.Route.{IsAccepted, payment-IsAccepted}
use vera_key.Sdk.Payment.Once.{World, claims, here, further, IsOnce, Reach-IsOnce}

abbrev hash : String
hash = "0xABCDABCDABCDABCDABCDABCDABCDABCDABCDABCDABCDABCDABCDABCDABCDABCD"

abbrev pending : Verdict
pending = record {
  valid = false;
  fee = none;
  checks = record { name = "transaction"; passed = false; detail = some "not found" } ∷ [];
}

abbrev valid : Verdict
valid = record { valid = true; fee = some 1; checks = [] }

-- The node knows the transaction the third time.
abbrev chain : Chain
chain = record {
  is_hex = λ s. starts_with s "0x";
  find_payment = λ account nonce. ok none;
  verify_payment = λ n hash account to amount. if nat_beq n 2 then ok valid else ok pending;
}

abbrev site : Site
site = record {
  origin = "https://shop.example";
  merchant = some "0xbb";
  chain = chain;
  on_payment = λ p. accepts (text "ticket");
}

abbrev player : Player
player = record { id = "0x01"; account = "0xac" }

abbrev request : Request
request = record {
  from = some "https://shop.example";
  session = some player;
  body = ok (object (field "amount" (text "5") (field "hash" (text hash) end)));
  now = 1000;
}

abbrev fresh : Kit
fresh = record { store = []; paying = [] }

abbrev receipt : Receipt
receipt = record { hash = hash; amount = 5; fee = 1; result = text "ticket" }

abbrev verified : Payment
verified = record { player = player; hash = hash; to = "0xbb"; amount = 5; fee = 1 }

route : Unit {0}
unfolding payment verify ask ask_again claim_and_fulfil claim release tidy property length16
    is_amount is_digits digits_up_to big_int lower Map.get Map.set Map.delete Set.has Set.add
    Set.delete
route = tt

payment-receipt : (payment site request fresh).0 ≡ ok receipt
unfolding route
payment-receipt = refl

payment_tests :
    ((payment site request (payment site request fresh).1).0
      ≡ refuse 409 "This payment was already accepted.")
    × ((payment (record site { on_payment = λ p. throws "Sold out." }) request fresh).0
        ≡ refuse 400 "Sold out.")
    × ((payment (record site { on_payment = λ p. throws "Sold out." }) request fresh).1 ≡ fresh)
    × ((payment site request (record fresh { paying = "0x01" ∷ [] })).0
        ≡ refuse 429 "A payment for this player is being checked. Try again in a moment.")
unfolding route
payment_tests = (refl, refl, refl, refl)

payment-IsAccepted_example : IsAccepted site request fresh receipt
payment-IsAccepted_example = payment-IsAccepted site request fresh receipt payment-receipt

abbrev asking : ℕ → Outcome Verdict
asking n = if nat_beq n 2 then ok valid else ok pending

abbrev empty : World
empty = record { store = []; fulfilling = []; accepted = [] }

abbrev claimed : World
claimed = record empty {
  store = (claim (claim_key verified) none 1000 []).0;
  fulfilling = claim_key verified ∷ [];
}

empty-IsOnce : IsOnce empty
unfolding Map.get count
empty-IsOnce = record { unique = tt; once = λ p. refl; at_most = λ p. omega arith }

verified-claimed : (claim (claim_key verified) none 1000 []).1 ≡ true
unfolding route
verified-claimed = refl

Reach-IsOnce_example : IsOnce claimed
Reach-IsOnce_example =
    Reach-IsOnce (further here (claims verified 1000 verified-claimed)) empty-IsOnce
