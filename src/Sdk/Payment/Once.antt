-- ===== src/Sdk/Payment/Once.antt =====
-- packages/sdk/src/server.ts, acceptPayment with memoryStore: requests that run at once, between the
-- claim, the site's onPayment and the release.
use vera_key.Prelude.{
  ℕ, ◌+◌, ◌≤◌, ◌≡◌, inl, inr, String, true, false, List, ◌∷◌, Option, none, arith, ◌==◌,
  if◌then◌else◌, Bool-cases, eq_iff,
}
use vera_key.Collections.Map
use vera_key.Collections.Set
use vera_key.Collections.Bag.{drop_one, count, count-has, count-drop_one}
use vera_key.Sdk.MemoryStore.{Store, claim, release}
use vera_key.Sdk.MemoryStore.Laws.{IsUnique-claim, IsUnique-release}
use vera_key.Sdk.Payment.{Payment, claim_key}
use vera_key.Sdk.Payment.Held.{held, held-claim_self, held-claim_other, held-release}

-- The store, the payments that onPayment is working on, and those it accepted, by their keys.
pub record World : Type 0 where
  pub store : Store
  pub fulfilling : List String
  pub accepted : List String

-- A key that is no payment's: a nonce's or a sign-out's.
abbrev pub IsOther : String → Type 0
IsOther key = (p : Payment) → (key == claim_key p) ≡ false

pub data Step : World → World → Type 0 where
  -- acceptPayment, once its payment verified: the store accepts it
  claims :
      {w : World} (p : Payment) (now : ℕ)
      → (claim (claim_key p) none now w.store).1 ≡ true
      → Step w (record w {
        store = (claim (claim_key p) none now w.store).0;
        fulfilling = claim_key p ∷ w.fulfilling;
      })
  -- onPayment returns
  fulfils :
      {w : World} (p : Payment)
      → Set.has (claim_key p) w.fulfilling ≡ true
      → Step w (record w {
        fulfilling = drop_one (claim_key p) w.fulfilling;
        accepted = claim_key p ∷ w.accepted;
      })
  -- onPayment throws
  fails :
      {w : World} (p : Payment)
      → Set.has (claim_key p) w.fulfilling ≡ true
      → Step w (record w {
        store = release (claim_key p) w.store;
        fulfilling = drop_one (claim_key p) w.fulfilling;
      })
  -- a sign-in or a sign-out
  other_claim :
      {w : World} (key : String) (ttl : Option ℕ) (now : ℕ)
      → IsOther key
      → Step w (record w { store = (claim key ttl now w.store).0 })

pub data Reach (v : World) : World → Type 0 where
  here : Reach v v
  further : {w u : World} → Reach v w → Step w u → Reach v u

-- The store holds a payment exactly while onPayment works on it or once it was accepted, and that
-- happens to it at most once.
pub record IsOnce (w : World) : Type 0 where
  pub unique : Map.IsUnique w.store
  pub once :
      (p : Payment)
      → count (claim_key p) w.fulfilling + count (claim_key p) w.accepted
        ≡ held (Map.get (claim_key p) w.store)
  pub at_most : (p : Payment) → held (Map.get (claim_key p) w.store) ≤ 1

module _ (w : World) (v : IsOnce w) (p : Payment) where
  claims-IsOnce :
      (now : ℕ)
      → (claim (claim_key p) none now w.store).1 ≡ true
      → IsOnce (record w {
        store = (claim (claim_key p) none now w.store).0;
        fulfilling = claim_key p ∷ w.fulfilling;
      })
  unfolding count
  claims-IsOnce now first = record {
    unique = IsUnique-claim (claim_key p) none now w.store v.unique;
    once = λ q. (each q).0;
    at_most = λ q. (each q).1;
  }
    where
      each :
          (q : Payment)
          → ((if claim_key p == claim_key q then 1 else 0)
                + count (claim_key q) w.fulfilling
                + count (claim_key q) w.accepted
              ≡ held (Map.get (claim_key q) (claim (claim_key p) none now w.store).0))
            × (held (Map.get (claim_key q) (claim (claim_key p) none now w.store).0) ≤ 1)
      each q = elim (Bool-cases (claim_key p == claim_key q)) [
        | inl y ↦
            let (free, one) =
              held-claim_self (claim_key p) (claim_key q) now w.store v.unique y (v.at_most q)
                first in
            simp y (omega (arith, free, one, v.once q), omega (arith, one))
        | inr n ↦
            let same =
              held-claim_other (claim_key p) (claim_key q) now w.store v.unique none n
                (v.at_most q) in
            simp n (omega (arith, same, v.once q), omega (arith, same, v.at_most q))
      ]

  fulfils-IsOnce :
      Set.has (claim_key p) w.fulfilling ≡ true
      → IsOnce (record w {
        fulfilling = drop_one (claim_key p) w.fulfilling;
        accepted = claim_key p ∷ w.accepted;
      })
  unfolding count
  fulfils-IsOnce h = record {
    unique = v.unique;
    once = λ q. ground (arith, v.once q, count-drop_one (claim_key p) (claim_key q) w.fulfilling h);
    at_most = v.at_most;
  }

  fails-IsOnce :
      Set.has (claim_key p) w.fulfilling ≡ true
      → IsOnce (record w {
        store = release (claim_key p) w.store;
        fulfilling = drop_one (claim_key p) w.fulfilling;
      })
  fails-IsOnce h = record {
    unique = IsUnique-release (claim_key p) w.store v.unique;
    once = λ q. ground (
      arith,
      v.once q,
      v.at_most q,
      count-has (claim_key p) w.fulfilling h,
      eq_iff (claim_key p) (claim_key q),
      count-drop_one (claim_key p) (claim_key q) w.fulfilling h,
      held-release (claim_key p) (claim_key q) 0 w.store v.unique,
    );
    at_most = λ q.
        ground (arith, v.at_most q, held-release (claim_key p) (claim_key q) 0 w.store v.unique);
  }

other_claim-IsOnce :
    (w : World) (key : String) (ttl : Option ℕ) (now : ℕ)
    → IsOther key
    → IsOnce w
    → IsOnce (record w { store = (claim key ttl now w.store).0 })
other_claim-IsOnce w key ttl now o v = record {
  unique = IsUnique-claim key ttl now w.store v.unique;
  once = λ q. omega (arith, same q, v.once q);
  at_most = λ q. omega (arith, same q, v.at_most q);
}
  where
    same :
        (q : Payment)
        → held (Map.get (claim_key q) (claim key ttl now w.store).0)
          ≡ held (Map.get (claim_key q) w.store)
    same q = held-claim_other key (claim_key q) now w.store v.unique ttl (o q) (v.at_most q)

Step-IsOnce : {w u : World} → Step w u → IsOnce w → IsOnce u
Step-IsOnce {w} (claims p now h) v = claims-IsOnce w v p now h
Step-IsOnce {w} (fulfils p h) v = fulfils-IsOnce w v p h
Step-IsOnce {w} (fails p h) v = fails-IsOnce w v p h
Step-IsOnce {w} (other_claim key ttl now o) v = other_claim-IsOnce w key ttl now o v

-- However requests interleave, the store holds a payment's hash exactly while onPayment works on
-- it or once it accepted it, and these happen at most once together: no payment is fulfilled
-- twice. This is kept from any state where it holds.
pub Reach-IsOnce : {v w : World} → Reach v w → IsOnce v → IsOnce w
Reach-IsOnce here o = o
Reach-IsOnce (further r step) o = Step-IsOnce step (Reach-IsOnce r o)
