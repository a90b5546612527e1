-- ===== src/Sdk/Verify/Payments/Tests.antt =====
-- packages/sdk/src/signin.ts and server.ts: payments at concrete transactions.
use vera_key.Prelude.{
  ℕ, ◌+◌, ◌*◌, ◌≡◌, refl, String, true, List, [], ◌∷◌, Option, none, some, nat_beq, if◌then◌else◌,
  arith,
}
use vera_key.Prelude.Text.{big_int, lower}
use vera_key.Collections.Map
use vera_key.Collections.Set
use vera_key.Sdk.Values.{
  text, object, end, field, property, length16, is_amount, is_digits, digits_up_to,
}
use vera_key.Sdk.MemoryStore.{claim, release, tidy}
use vera_key.Sdk.Session.{Player}
use vera_key.Sdk.Payment.{Outcome, ok, accepts, Receipt, verify, ask, ask_again, claim_and_fulfil}
use vera_key.Sdk.Payment.Handler.{Request, Site, payment}
use vera_key.Sdk.Verify.Payments.{
  PaidLog, Transactions, Rounds, ask_round, fetch_receipt, verify_payment, find_payment, paid_by,
  find_match,
}
use vera_key.Sdk.Verify.Found.{IsFound, find_payment-IsFound}
use vera_key.Sdk.Verify.Settled.{SiteNode, IsSettled, chain_of, payment-IsSettled}

abbrev log : PaidLog
log = record { account = "0xAC"; to = "0xBB"; amount = 5; fee = 1 }

abbrev hash : String
hash = "0x0000000000000000000000000000000000000000000000000000000000000009"

-- A node that learns of the transaction only when it is waited for.
abbrev transactions : Transactions
transactions = record {
  receipt = λ h. none;
  is_known = λ h. true;
  wait = λ h t. some (record { status = "success"; paid = log ∷ [] });
}

paid : Unit {0}
unfolding verify_payment lower paid_by find_match fetch_receipt
paid = tt

verify_payment-valid : (verify_payment transactions hash "0xac" "0xbb" 5 none).valid ≡ true
unfolding paid
verify_payment-valid = refl

-- A node that finds the payment in the third round.
abbrev events_of : ℕ → List String
events_of round = if nat_beq round 2 then hash ∷ [] else []

abbrev rounds : Rounds
rounds = record {
  latest = λ round. ok 20000;
  events = λ round account nonce from to. ok (events_of round);
  time = λ round. 1000 + round * 2000;
}

find_payment-third : find_payment rounds 1000 "0xac" 7 none none ≡ some (ok (some hash))
unfolding find_payment ask_round
find_payment-third = refl

find_payment-IsFound_example :
    (found : Outcome (Option String)) × (find_payment rounds 1000 "0xac" 7 none none ≡ some found)
    × IsFound (ask_round rounds "0xac" 7 none) rounds.time 31000 0 found
find_payment-IsFound_example =
    find_payment-IsFound rounds 1000 "0xac" 7 none none (omega arith) λ r. omega arith

abbrev node : SiteNode
node = record {
  is_hex = λ s. true;
  transactions = λ n. transactions;
  rounds = rounds;
  start = 1000;
}

abbrev site : Site
site = record {
  origin = "https://shop.example";
  merchant = some "0xbb";
  chain = chain_of node;
  on_payment = λ p. accepts (text "ticket");
}

abbrev request : Request
request = record {
  from = some "https://shop.example";
  session = some (record { id = "0x01"; account = "0xac" });
  body = ok (object (field "amount" (text "5") (field "hash" (text hash) end)));
  now = 1000;
}

abbrev receipt : Receipt
receipt = record { hash = hash; amount = 5; fee = 1; result = text "ticket" }

route : Unit {0}
unfolding payment verify ask ask_again claim_and_fulfil claim release tidy property length16
    is_amount is_digits digits_up_to big_int Map.get Map.set Map.delete Set.has Set.add Set.delete
    verify_payment lower paid_by find_match fetch_receipt
route = tt

payment-receipt : (payment site request (record { store = []; paying = [] })).0 ≡ ok receipt
unfolding route
payment-receipt = refl

payment-IsSettled_example :
    (player : Player) × (request.session ≡ some player)
    × ((merchant : String) × (site.merchant ≡ some merchant)
        × IsSettled node player merchant receipt)
payment-IsSettled_example =
    payment-IsSettled node site request (record { store = []; paying = [] }) receipt payment-receipt
