-- ===== src/Sdk/Sessions/Owners.antt =====
-- packages/sdk/src/server.ts, stillOwner and checkOwner: what a check's answer decides, and how many are
-- remembered.
use vera_key.Prelude.{
  ℕ, suc, ◌+◌, ◌≤◌, ◌≡◌, String, not, ◌||◌, List, [], ◌∷◌, some, arith, if◌then◌else◌, ltb, length,
  eq_refl,
}
use vera_key.Collections.Map
use vera_key.Sdk.Sessions.{
  seconds, Seen, Checks, make_room, remember_owner, decided, waits, still_owner, ChainAnswer,
  owner_of, wait_after, end_check,
}

length-delete : (k : String) (m : List (String × Seen)) → length (Map.delete k m) ≤ length m
unfolding Map.delete
length-delete k [] = omega arith
length-delete k ((j, v) ∷ m) = ground (arith, length-delete k m)

length-set :
    (k : String) (v : Seen) (m : List (String × Seen)) → length (Map.set k v m) ≤ suc (length m)
unfolding Map.set
length-set k v [] = omega arith
length-set k v ((j, w) ∷ m) = ground (arith, length-set k v m)

length-make_room : (m : List (String × Seen)) → length m ≤ 10000 → length (make_room m) ≤ 9999
unfolding Map.delete
length-make_room [] h = ground arith
length-make_room ((j, v) ∷ m) h = ground (arith, length-delete j m, eq_refl j)

-- The kit remembers the owner checks of at most 10,000 sessions: the end of a check keeps that.
pub length-end_check :
    (every : ℕ) (sid : String) (began : ℕ) (answer : ChainAnswer) (c : Checks)
    → length c.seen ≤ 10000
    → length (end_check every sid began answer c).1.seen ≤ 10000
unfolding end_check remember_owner
length-end_check every sid began answer c h =
    let deleted = length-delete sid c.seen in
    let room = length-make_room (Map.delete sid c.seen) (omega (arith, h, deleted)) in
    omega (
      arith,
      room,
      length-set sid
          (record { owner = owner_of answer; next = seconds began + wait_after every answer })
          (make_room (Map.delete sid c.seen)),
    )

-- After a check, a session whose passkey no longer owns the account stays refused, and any other
-- is kept without a new check until the interval, or after a failure at most a minute, has passed.
pub still_owner-end_check :
    (every : ℕ) (sid : String) (began later : ℕ) (answer : ChainAnswer) (c : Checks)
    → (still_owner (some every) sid later (end_check every sid began answer c).1).0 ≡ (
        if not (owner_of answer) || ltb (seconds later) (seconds began + wait_after every answer)
        then decided (owner_of answer)
        else waits)
unfolding still_owner end_check remember_owner
still_owner-end_check every sid began later answer c = ground (
  arith,
  Map.get-set_self sid
      (record { owner = owner_of answer; next = seconds began + wait_after every answer })
      (make_room (Map.delete sid c.seen)),
)
