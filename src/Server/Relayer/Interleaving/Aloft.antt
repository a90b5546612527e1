-- ===== src/Server/Relayer/Interleaving/Aloft.antt =====
-- server/relayer.ts, relay: the transactions of an account that are on their way.
use vera_key.Prelude.{
  ◌+◌, ◌≡◌, ap, sym, ◌∙◌, String, true, false, not, ◌&&◌, ◌||◌, List, ◌∷◌, arith, ◌==◌,
  if◌then◌else◌, eq_iff,
}
use vera_key.Collections.Set
use vera_key.Collections.Bag.{
  drop_one, count, count-has, count-drop_one_less, IsDistinct, has-drop_one, IsDistinct-drop_one,
}

-- A request for each account in flight, of which one transaction at most is waited for; every other one that is
-- on its way is lost.
pub record HasOneAloft (in_flight relaying waiting aloft lost : List String) : Type 0 where
  pub one_relay : IsDistinct relaying
  pub flying : (j : String) → Set.has j in_flight ≡ Set.has j relaying
  pub one_waiting : IsDistinct waiting
  pub inside : (j : String) → (Set.has j waiting && not (Set.has j relaying)) ≡ false
  pub counted : (j : String) → count j aloft ≡ count j lost + (if Set.has j waiting then 1 else 0)

module _ {in_flight relaying waiting aloft lost : List String}
    (v : HasOneAloft in_flight relaying waiting aloft lost) (key : String) where
  pub enters-HasOneAloft :
      Set.has key in_flight ≡ false
      → HasOneAloft (Set.add key in_flight) (key ∷ relaying) waiting aloft lost
  unfolding Set.has
  enters-HasOneAloft free = record {
    one_relay = (sym (v.flying key) ∙ free, v.one_relay);
    flying = λ j. Set.has-add key j in_flight ∙ ap (◌||◌ (key == j)) (v.flying j);
    one_waiting = v.one_waiting;
    inside = λ j. ground (arith, v.inside j);
    counted = v.counted;
  }

  pub sends-HasOneAloft :
      Set.has key relaying ≡ true
      → Set.has key waiting ≡ false
      → HasOneAloft in_flight relaying (key ∷ waiting) (key ∷ aloft) lost
  unfolding Set.has count
  sends-HasOneAloft held unsent = record {
    one_relay = v.one_relay;
    flying = v.flying;
    one_waiting = (unsent, v.one_waiting);
    inside = λ j. ground (arith, v.inside j, held, eq_iff key j);
    counted = λ j. ground (arith, v.counted j, unsent, eq_iff key j);
  }

  flying_left :
      (j : String) → Set.has j (Set.delete key in_flight) ≡ Set.has j (drop_one key relaying)
  flying_left j =
      ground
        (arith, Set.has-delete key j in_flight, has-drop_one key j relaying v.one_relay, v.flying j)

  pub refuses-HasOneAloft :
      Set.has key waiting ≡ false
      → HasOneAloft (Set.delete key in_flight) (drop_one key relaying) waiting aloft lost
  refuses-HasOneAloft unsent = record {
    one_relay = IsDistinct-drop_one key relaying v.one_relay;
    flying = flying_left;
    one_waiting = v.one_waiting;
    inside = λ j.
        ground (arith, v.inside j, unsent, has-drop_one key j relaying v.one_relay, eq_iff key j);
    counted = v.counted;
  }

  inside_left :
      (j : String)
      → (Set.has j (drop_one key waiting) && not (Set.has j (drop_one key relaying))) ≡ false
  inside_left j = ground (
    arith,
    v.inside j,
    has-drop_one key j waiting v.one_waiting,
    has-drop_one key j relaying v.one_relay,
  )

  pub lands-HasOneAloft :
      Set.has key waiting ≡ true
      → HasOneAloft
          (Set.delete key in_flight)
          (drop_one key relaying)
          (drop_one key waiting)
          (drop_one key aloft)
          lost
  lands-HasOneAloft sent = record {
    one_relay = IsDistinct-drop_one key relaying v.one_relay;
    flying = flying_left;
    one_waiting = IsDistinct-drop_one key waiting v.one_waiting;
    inside = inside_left;
    counted = λ j. ground (
      arith,
      v.counted j,
      sent,
      has-drop_one key j waiting v.one_waiting,
      count-drop_one_less key j aloft,
      eq_iff key j,
    );
  }

  pub loses-HasOneAloft :
      Set.has key waiting ≡ true
      → HasOneAloft
          (Set.delete key in_flight)
          (drop_one key relaying)
          (drop_one key waiting)
          aloft
          (key ∷ lost)
  unfolding count
  loses-HasOneAloft sent = record {
    one_relay = IsDistinct-drop_one key relaying v.one_relay;
    flying = flying_left;
    one_waiting = IsDistinct-drop_one key waiting v.one_waiting;
    inside = inside_left;
    counted = λ j.
        ground (arith, v.counted j, sent, has-drop_one key j waiting v.one_waiting, eq_iff key j);
  }

  pub lands_late-HasOneAloft :
      Set.has key lost ≡ true
      → HasOneAloft in_flight relaying waiting (drop_one key aloft) (drop_one key lost)
  lands_late-HasOneAloft gone = record {
    one_relay = v.one_relay;
    flying = v.flying;
    one_waiting = v.one_waiting;
    inside = v.inside;
    counted = λ j. ground (
      arith,
      v.counted j,
      count-has key lost gone,
      count-drop_one_less key j aloft,
      count-drop_one_less key j lost,
      eq_iff key j,
    );
  }
