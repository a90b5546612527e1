-- ===== src/Sdk/Payment/Route.antt =====
-- packages/sdk/src/server.ts, the payment route as a whole.
use vera_key.Prelude.{
  ℕ, ◌≡◌, inl, inr, refl, String, true, false, Option, none, some, arith, Bool-cases, ◌==◌, eq_iff,
}
use vera_key.Collections.Set
use vera_key.Sdk.Values.{Value}
use vera_key.Sdk.MemoryStore.{Store, claim}
use vera_key.Sdk.Session.{Player}
use vera_key.Sdk.Payment.{
  Outcome, ok, refuses, crashes, Payment, verify, Fulfilment, accepts, throws, Receipt, claim_key,
  fulfil, claim_and_fulfil, accept_verified,
}
use vera_key.Sdk.Payment.Handler.{
  Kit, require_origin, Request, Site, check_merchant, check_session, check_origin, payment,
}
use vera_key.Sdk.Payment.Laws.{IsVerified, verify-IsVerified}

-- What a request that ends with a receipt went through.
pub record IsAccepted (site : Site) (r : Request) (kit : Kit) (receipt : Receipt) : Type 0 where
  pub from_site : r.from ≡ some site.origin
  pub player : Player
  pub signed_in : r.session ≡ some player
  pub merchant : String
  pub takes_payments : site.merchant ≡ some merchant
  pub idle : Set.has player.id kit.paying ≡ false
  pub payment : Payment
  pub verified : IsVerified site.chain player merchant r.body payment
  pub first : (claim (claim_key payment) none r.now kit.store).1 ≡ true
  pub result : Value
  pub fulfilled : site.on_payment payment ≡ accepts result
  pub same :
      receipt
      ≡ record { hash = payment.hash; amount = payment.amount; fee = payment.fee; result = result }

fulfil-accepts :
    (p : Payment) (f : Fulfilment) (store : Store) (receipt : Receipt)
    → (fulfil p f store).0 ≡ ok receipt
    → (v : Value) × (f ≡ accepts v)
      × (receipt ≡ record { hash = p.hash; amount = p.amount; fee = p.fee; result = v })
fulfil-accepts p (accepts v) store receipt h = (v, refl, cc)
fulfil-accepts p (throws m) store receipt h = cc

claim_and_fulfil-accepts :
    (p : Payment) (f : Fulfilment) (now : ℕ) (store : Store) (receipt : Receipt)
    → (claim_and_fulfil p f now store).0 ≡ ok receipt
    → ((claim (claim_key p) none now store).1 ≡ true)
      × ((fulfil p f (claim (claim_key p) none now store).0).0 ≡ ok receipt)
unfolding claim_and_fulfil
claim_and_fulfil-accepts p f now store receipt h = ground arith

module _ (site : Site) (r : Request) (kit : Kit) (receipt : Receipt) where
  verified-IsAccepted :
      (player : Player) (merchant : String) (o : Outcome Payment)
      → r.from ≡ some site.origin
      → r.session ≡ some player
      → site.merchant ≡ some merchant
      → Set.has player.id kit.paying ≡ false
      → verify site.chain player merchant r.body ≡ o
      → (accept_verified o site.on_payment r.now kit.store).0 ≡ ok receipt
      → IsAccepted site r kit receipt
  verified-IsAccepted player merchant (ok p) f s m i v h =
      let (first, fulfilling) =
        claim_and_fulfil-accepts p (site.on_payment p) r.now kit.store receipt h in
      let (result, accepting, same) =
        fulfil-accepts p (site.on_payment p) (claim (claim_key p) none r.now kit.store).0 receipt
          fulfilling in
      record {
        from_site = f;
        player = player;
        signed_in = s;
        merchant = merchant;
        takes_payments = m;
        idle = i;
        payment = p;
        verified = verify-IsVerified site.chain player merchant r.body p v;
        first = first;
        result = result;
        fulfilled = accepting;
        same = same;
      }
  verified-IsAccepted player merchant (refuses e) f s m i v h = cc
  verified-IsAccepted player merchant crashes f s m i v h = cc

  merchant-IsAccepted :
      (player : Player) (merchant : Option String)
      → r.from ≡ some site.origin
      → r.session ≡ some player
      → site.merchant ≡ merchant
      → (check_merchant site r player merchant kit).0 ≡ ok receipt
      → IsAccepted site r kit receipt
  merchant-IsAccepted player none f s m h = cc
  merchant-IsAccepted player (some merchant) f s m h =
      elim (Bool-cases (Set.has player.id kit.paying)) [
        | inl y ↦ ground (arith, y)
        | inr n ↦ verified-IsAccepted player merchant _ f s m n refl (ground (arith, n))
      ]

  session-IsAccepted :
      (session : Option Player)
      → r.from ≡ some site.origin
      → r.session ≡ session
      → (check_session site r session kit).0 ≡ ok receipt
      → IsAccepted site r kit receipt
  session-IsAccepted none f s h = cc
  session-IsAccepted (some player) f s h = merchant-IsAccepted player site.merchant f s refl h

  from-IsAccepted :
      (from : Option String)
      → r.from ≡ from
      → (check_origin site r (require_origin site.origin from) kit).0 ≡ ok receipt
      → IsAccepted site r kit receipt
  from-IsAccepted none f h = cc
  from-IsAccepted (some from) f h = elim (Bool-cases (from == site.origin)) [
    | inl y ↦
        session-IsAccepted r.session (ground (arith, f, y, eq_iff from site.origin)) refl
          (ground (arith, y))
    | inr n ↦ ground (arith, n)
  ]

-- A request that ends with a receipt came from the site's origin, for a signed-in player with no
-- other payment being checked; the chain's answer about its hash was valid for the player's
-- account, the merchant and the amount; the store had not accepted the hash; and onPayment
-- accepted it.
pub payment-IsAccepted :
    (site : Site) (r : Request) (kit : Kit) (receipt : Receipt)
    → (payment site r kit).0 ≡ ok receipt
    → IsAccepted site r kit receipt
unfolding payment
payment-IsAccepted site r kit receipt h = from-IsAccepted site r kit receipt r.from refl h
