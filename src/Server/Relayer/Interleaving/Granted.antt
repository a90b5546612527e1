-- ===== src/Server/Relayer/Interleaving/Granted.antt =====
-- server/relayer.ts, faucet: the grants that the node is given for an account.
use vera_key.Prelude.{
  ◌+◌, ◌≤◌, ◌≡◌, refl, ap, sym, ◌∙◌, String, true, false, not, ◌&&◌, ◌||◌, List, ◌∷◌, arith, ◌==◌,
  if◌then◌else◌, eq_iff,
}
use vera_key.Collections.Set
use vera_key.Collections.Bag.{drop_one, count, IsDistinct, has-drop_one, IsDistinct-drop_one}
use vera_key.Server.Relayer.{ok, failed, Failure, Context, Relayer}
use vera_key.Server.Relayer.Faucet.{settle, remember, release, write_file}

-- One reservation for each account, and one grant at most besides those without an answer.
pub record HasOneGrant (granting funded reserving paying grants unanswered : List String)
    : Type 0 where
  pub one_reservation : IsDistinct reserving
  pub reserved : (j : String) → Set.has j granting ≡ Set.has j reserving
  pub one_paying : IsDistinct paying
  pub inside : (j : String) → (Set.has j paying && not (Set.has j reserving)) ≡ false
  pub pending : (j : String) → (Set.has j reserving && Set.has j funded) ≡ false
  pub counted :
      (j : String)
      → count j grants
        ≤ count j unanswered + (if Set.has j paying || Set.has j funded then 1 else 0)

module _ {granting funded reserving paying grants unanswered : List String}
    (v : HasOneGrant granting funded reserving paying grants unanswered) (key : String) where
  pub reserves-HasOneGrant :
      Set.has key funded ≡ false
      → Set.has key granting ≡ false
      → HasOneGrant (Set.add key granting) funded (key ∷ reserving) paying grants unanswered
  unfolding Set.has
  reserves-HasOneGrant unpaid free = record {
    one_reservation = (sym (v.reserved key) ∙ free, v.one_reservation);
    reserved = λ j. Set.has-add key j granting ∙ ap (◌||◌ (key == j)) (v.reserved j);
    one_paying = v.one_paying;
    inside = λ j. ground (arith, v.inside j);
    pending = λ j. ground (arith, v.pending j, eq_iff key j, unpaid);
    counted = v.counted;
  }

  pub gives-HasOneGrant :
      Set.has key reserving ≡ true
      → Set.has key paying ≡ false
      → HasOneGrant granting funded reserving (key ∷ paying) (key ∷ grants) unanswered
  unfolding Set.has count
  gives-HasOneGrant held unsent = record {
    one_reservation = v.one_reservation;
    reserved = v.reserved;
    one_paying = (unsent, v.one_paying);
    inside = λ j. ground (arith, v.inside j, held, eq_iff key j);
    pending = v.pending;
    counted = λ j. ground (arith, v.counted j, v.pending j, held, unsent, eq_iff key j);
  }

  reserved_left :
      (j : String) → Set.has j (Set.delete key granting) ≡ Set.has j (drop_one key reserving)
  reserved_left j = ground (
    arith,
    Set.has-delete key j granting,
    has-drop_one key j reserving v.one_reservation,
    v.reserved j,
  )

  inside_left :
      (j : String)
      → (Set.has j (drop_one key paying) && not (Set.has j (drop_one key reserving))) ≡ false
  inside_left j = ground (
    arith,
    v.inside j,
    has-drop_one key j paying v.one_paying,
    has-drop_one key j reserving v.one_reservation,
  )

  pub pays-HasOneGrant :
      Set.has key paying ≡ true
      → HasOneGrant
          (Set.delete key granting)
          (Set.add key funded)
          (drop_one key reserving)
          (drop_one key paying)
          grants
          unanswered
  pays-HasOneGrant sent = record {
    one_reservation = IsDistinct-drop_one key reserving v.one_reservation;
    reserved = reserved_left;
    one_paying = IsDistinct-drop_one key paying v.one_paying;
    inside = inside_left;
    pending = λ j. ground (
      arith,
      v.pending j,
      Set.has-add key j funded,
      has-drop_one key j reserving v.one_reservation,
    );
    counted = λ j. ground (
      arith,
      v.counted j,
      sent,
      Set.has-add key j funded,
      has-drop_one key j paying v.one_paying,
      eq_iff key j,
    );
  }

  pub gives_up-HasOneGrant :
      Set.has key paying ≡ false
      → HasOneGrant
          (Set.delete key granting)
          funded
          (drop_one key reserving)
          paying
          grants
          unanswered
  gives_up-HasOneGrant unsent = record {
    one_reservation = IsDistinct-drop_one key reserving v.one_reservation;
    reserved = reserved_left;
    one_paying = v.one_paying;
    inside = λ j.
        ground
          (arith, v.inside j, unsent, has-drop_one key j reserving v.one_reservation, eq_iff key j);
    pending = λ j. ground (arith, v.pending j, has-drop_one key j reserving v.one_reservation);
    counted = v.counted;
  }

  pub misses-HasOneGrant :
      Set.has key paying ≡ true
      → HasOneGrant
          (Set.delete key granting)
          funded
          (drop_one key reserving)
          (drop_one key paying)
          grants
          (key ∷ unanswered)
  unfolding count
  misses-HasOneGrant sent = record {
    one_reservation = IsDistinct-drop_one key reserving v.one_reservation;
    reserved = reserved_left;
    one_paying = IsDistinct-drop_one key paying v.one_paying;
    inside = inside_left;
    pending = λ j. ground (arith, v.pending j, has-drop_one key j reserving v.one_reservation);
    counted = λ j.
        ground (arith, v.counted j, sent, has-drop_one key j paying v.one_paying, eq_iff key j);
  }

-- What the end of a request to the faucet makes of the three sets.
abbrev pub sets : Relayer → List String × List String × List String
sets r = (r.in_flight, r.granting, r.funded)

pub sets-settle_ok :
    (x : Context) (key hash : String) (r : Relayer)
    → sets (settle x key (ok hash, r)).1
      ≡ (r.in_flight, Set.delete key r.granting, Set.add key r.funded)
unfolding settle remember release write_file
sets-settle_ok x key hash r = ground arith

pub sets-settle_failed :
    (x : Context) (key : String) (e : Failure) (r : Relayer)
    → sets (settle x key (failed e, r)).1 ≡ (r.in_flight, Set.delete key r.granting, r.funded)
unfolding settle release
sets-settle_failed x key e r = refl
