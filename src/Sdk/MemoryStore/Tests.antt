-- ===== src/Sdk/MemoryStore/Tests.antt =====
-- memoryStore of packages/sdk/src/server.ts at concrete calls.
use vera_key.Prelude.{◌≤◌, ◌≡◌, refl, true, false, List, [], ◌∷◌, none, some, arith}
use vera_key.Collections.Map
use vera_key.Sdk.MemoryStore.{Store, at, never, claim, release, tidy}
use vera_key.Sdk.MemoryStore.Once.{Op, claims, releases, accepted, accepted-le-one}

abbrev held : Store
held = ("nonce:1", at 5000) ∷ ("payment:1", never) ∷ []

claim_tests :
    ((claim "nonce:1" (some 360) 4999 held).1 ≡ false)
    × ((claim "nonce:1" (some 360) 5000 held).1 ≡ true)
    × ((claim "payment:1" none 9000 held).1 ≡ false)
    × ((claim "payment:1" none 9000 (release "payment:1" held)).1 ≡ true)
unfolding claim release tidy Map.get Map.set Map.delete
claim_tests = (refl, refl, refl, refl)

abbrev ops : List Op
ops =
    claims "payment:2" none 1000
    ∷ claims "payment:3" none 1500
    ∷ releases "payment:3" 1600
    ∷ claims "payment:2" none 2000
    ∷ []

accepted-le-one_example : accepted "payment:2" held ops ≤ 1
accepted-le-one_example =
    accepted-le-one "payment:2" 1000 9000 held ops ((refl, tt), (tt, tt)) (omega arith)
      (omega arith) (refl, tt) (refl, (refl, (refl, tt)))
