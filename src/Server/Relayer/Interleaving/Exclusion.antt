-- ===== src/Server/Relayer/Interleaving/Exclusion.antt =====
-- server/relayer.ts: what every interleaving of requests keeps.
use vera_key.Prelude.{◌≡◌, sym, subst, String, false, List, arith}
use vera_key.Collections.Set
use vera_key.Server.Relayer.{ok, Relayer}
use vera_key.Server.Relayer.Relay.{enter, leave}
use vera_key.Server.Relayer.Faucet.{reserve}
use vera_key.Server.Relayer.Interleaving.{
  World, Leaves, Step, enters, sends, refuses, lands, loses, lands_late, reserves, gives, pays,
  gives_up, misses, works, Reach, here, further,
}
use vera_key.Server.Relayer.Interleaving.Aloft.{
  HasOneAloft, enters-HasOneAloft, sends-HasOneAloft, refuses-HasOneAloft, lands-HasOneAloft,
  loses-HasOneAloft, lands_late-HasOneAloft,
}
use vera_key.Server.Relayer.Interleaving.Granted.{
  HasOneGrant, reserves-HasOneGrant, gives-HasOneGrant, pays-HasOneGrant, gives_up-HasOneGrant,
  misses-HasOneGrant, sets, sets-settle_ok, sets-settle_failed,
}

abbrev Sets : Type 0
Sets = List String × List String × List String

-- The invariant, of the accounts in flight, the reservations and who is remembered as paid.
pub record Keeps (w : World) (s : Sets) : Type 0 where
  pub relays : HasOneAloft s.0 w.relaying w.waiting w.aloft w.lost
  pub grants : HasOneGrant s.1 s.2 w.reserving w.paying w.grants w.unanswered

abbrev pub IsExclusive : World → Type 0
IsExclusive w = Keeps w (sets w.relayer)

enter_inv :
    (key : String) (r s : Relayer)
    → enter key r ≡ (ok tt, s)
    → (Set.has key r.in_flight ≡ false) × (record r { in_flight = Set.add key r.in_flight } ≡ s)
unfolding enter
enter_inv key r s e = ground (arith, e)

reserve_inv :
    (key : String) (r s : Relayer)
    → reserve key r ≡ (ok tt, s)
    → (Set.has key r.funded ≡ false)
      × (Set.has key r.granting ≡ false)
      × (record r { granting = Set.add key r.granting } ≡ s)
unfolding reserve
reserve_inv key r s e = ground (arith, e)

sets-Leaves : (r s : Relayer) → Leaves r s → sets s ≡ sets r
sets-Leaves r s l = ground (arith, l.in_flight, l.granting, l.funded)

Step-IsExclusive : {w u : World} → Step w u → IsExclusive w → IsExclusive u
unfolding leave
Step-IsExclusive (enters {w} key s e) v =
    let (free, same) = enter_inv key w.relayer s e in
    rw (← same) (record { relays = enters-HasOneAloft v.relays key free; grants = v.grants })
Step-IsExclusive (sends {w} key held unsent) v = record {
  relays = sends-HasOneAloft v.relays key held unsent;
  grants = v.grants;
}
Step-IsExclusive (refuses {w} key held unsent) v = record {
  relays = refuses-HasOneAloft v.relays key unsent;
  grants = v.grants;
}
Step-IsExclusive (lands {w} key sent) v = record {
  relays = lands-HasOneAloft v.relays key sent;
  grants = v.grants;
}
Step-IsExclusive (loses {w} key sent) v = record {
  relays = loses-HasOneAloft v.relays key sent;
  grants = v.grants;
}
Step-IsExclusive (lands_late {w} key gone) v = record {
  relays = lands_late-HasOneAloft v.relays key gone;
  grants = v.grants;
}
Step-IsExclusive (reserves {w} key s e) v =
    let (unpaid, free, same) = reserve_inv key w.relayer s e in
    rw (← same)
      (record { relays = v.relays; grants = reserves-HasOneGrant v.grants key unpaid free })
Step-IsExclusive (gives {w} key held unsent) v = record {
  relays = v.relays;
  grants = gives-HasOneGrant v.grants key held unsent;
}
Step-IsExclusive (pays {w} key x hash sent) v =
    subst (Keeps _) (sym (sets-settle_ok x key hash w.relayer))
      (record { relays = v.relays; grants = pays-HasOneGrant v.grants key sent })
Step-IsExclusive (gives_up {w} key x e held unsent) v =
    subst (Keeps _) (sym (sets-settle_failed x key e w.relayer))
      (record { relays = v.relays; grants = gives_up-HasOneGrant v.grants key unsent })
Step-IsExclusive (misses {w} key x e sent) v =
    subst (Keeps _) (sym (sets-settle_failed x key e w.relayer))
      (record { relays = v.relays; grants = misses-HasOneGrant v.grants key sent })
Step-IsExclusive (works {w} s l) v =
    subst (Keeps _) (sym (sets-Leaves w.relayer s l))
      (record { relays = v.relays; grants = v.grants })

-- However the requests interleave, from a state where this holds, the set in flight is that of the
-- accounts with a request under way, one for each account; of an account's relayed transactions on
-- their way, at most one is not among those that the relayer let go of when the node's answer
-- failed or the wait timed out; and an account is given at most one grant of demo USDG besides
-- those whose answer from the node failed.
pub Reach-IsExclusive : {v w : World} → IsExclusive v → Reach v w → IsExclusive w
Reach-IsExclusive h here = h
Reach-IsExclusive h (further r st) = Step-IsExclusive st (Reach-IsExclusive h r)
