-- ===== src/Server/Relayer/Interleaving.antt =====
-- server/relayer.ts: requests that run at once. JavaScript runs each handler up to its next await, so
-- the steps here are the stretches of relay and faucet that change the sets of accounts.
pub mod Aloft
pub mod Granted
pub mod Exclusion
mod Tests
use vera_key.Prelude.{
  ℕ, ◌≡◌, ◌⊎◌, inl, inr, refl, ap, sym, ◌∙◌, String, Bool, true, false, not, ◌&&◌, ◌||◌, List, [],
  ◌∷◌, arith, ◌==◌, if◌then◌else◌, eq_iff,
}
use vera_key.Collections.Set
use vera_key.Collections.Bag.{drop_one}
use vera_key.Server.Relayer.{Failure, Outcome, ok, failed, Context, Relayer, next}
use vera_key.Server.Relayer.Relay.{enter, leave}
use vera_key.Server.Relayer.Faucet.{reserve, settle}

-- The relayer, and by account, once for each: `relaying`, the requests that entered and have not left;
-- `waiting`, those of them whose transaction was given to the node; `aloft`, the relayed transactions that the
-- node was given and that are in no block yet; `lost`, those of them that the relayer no longer waits for, since
-- the node's answer failed or the wait timed out; `reserving`, the reservations at the faucet; `paying`, those of
-- them whose grant was given to the node; `grants`, all grants that the node was given; and `unanswered`, those
-- of them for which its answer failed.
pub record World : Type 0 where
  pub relayer : Relayer
  pub relaying : List String
  pub waiting : List String
  pub aloft : List String
  pub lost : List String
  pub reserving : List String
  pub paying : List String
  pub grants : List String
  pub unanswered : List String

-- Other work changes neither set that the steps below guard, nor who was paid.
pub record Leaves (s s' : Relayer) : Type 0 where
  pub in_flight : s'.in_flight ≡ s.in_flight
  pub granting : s'.granting ≡ s.granting
  pub funded : s'.funded ≡ s.funded

pub data Step : World → World → Type 0 where
  -- relay, after assertOurAccount
  enters :
      {w : World} (key : String) (s : Relayer)
      → enter key w.relayer ≡ (ok tt, s)
      → Step w (record w { relayer = s; relaying = key ∷ w.relaying })
  -- relay's writeContract
  sends :
      {w : World} (key : String)
      → Set.has key w.relaying ≡ true
      → Set.has key w.waiting ≡ false
      → Step w (record w { waiting = key ∷ w.waiting; aloft = key ∷ w.aloft })
  -- relay's catch, before anything was sent
  refuses :
      {w : World} (key : String)
      → Set.has key w.relaying ≡ true
      → Set.has key w.waiting ≡ false
      → Step w (record w { relayer = leave key w.relayer; relaying = drop_one key w.relaying })
  -- the receipt came: the transaction is in a block
  lands :
      {w : World} (key : String)
      → Set.has key w.waiting ≡ true
      → Step w (record w {
        relayer = leave key w.relayer;
        relaying = drop_one key w.relaying;
        waiting = drop_one key w.waiting;
        aloft = drop_one key w.aloft;
      })
  -- relay's catch after writeContract, or the wait for the receipt timed out: the node may have it still
  loses :
      {w : World} (key : String)
      → Set.has key w.waiting ≡ true
      → Step w (record w {
        relayer = leave key w.relayer;
        relaying = drop_one key w.relaying;
        waiting = drop_one key w.waiting;
        lost = key ∷ w.lost;
      })
  -- a transaction that the relayer let go of comes into a block, or is dropped
  lands_late :
      {w : World} (key : String)
      → Set.has key w.lost ≡ true
      → Step w (record w { aloft = drop_one key w.aloft; lost = drop_one key w.lost })
  -- faucet, after assertOurAccount
  reserves :
      {w : World} (key : String) (s : Relayer)
      → reserve key w.relayer ≡ (ok tt, s)
      → Step w (record w { relayer = s; reserving = key ∷ w.reserving })
  -- faucet's writeContract
  gives :
      {w : World} (key : String)
      → Set.has key w.reserving ≡ true
      → Set.has key w.paying ≡ false
      → Step w (record w { paying = key ∷ w.paying; grants = key ∷ w.grants })
  -- faucet, after the node named its transaction's hash, with its finally
  pays :
      {w : World} (key : String) (x : Context) (hash : String)
      → Set.has key w.paying ≡ true
      → Step w (record w {
        relayer = (settle x key (ok hash, w.relayer)).1;
        reserving = drop_one key w.reserving;
        paying = drop_one key w.paying;
      })
  -- faucet, after a failure before anything was sent, with its finally
  gives_up :
      {w : World} (key : String) (x : Context) (e : Failure)
      → Set.has key w.reserving ≡ true
      → Set.has key w.paying ≡ false
      → Step w (record w {
        relayer = (settle x key (failed e, w.relayer)).1;
        reserving = drop_one key w.reserving;
      })
  -- faucet, after writeContract failed, with its finally: the node may have it still
  misses :
      {w : World} (key : String) (x : Context) (e : Failure)
      → Set.has key w.paying ≡ true
      → Step w (record w {
        relayer = (settle x key (failed e, w.relayer)).1;
        reserving = drop_one key w.reserving;
        paying = drop_one key w.paying;
        unanswered = key ∷ w.unanswered;
      })
  -- anything else: limits, transactions, other requests that fail
  works : {w : World} (s : Relayer) → Leaves w.relayer s → Step w (record w { relayer = s })

pub data Reach (v : World) : World → Type 0 where
  here : Reach v v
  further : {w u : World} → Reach v w → Step w u → Reach v u
