-- ===== src/Collections/Bag.antt =====
-- Lists that count: how often a text stands in one, and one of its places removed.
use vera_key.Prelude.{
  ℕ, ◌+◌, ◌-◌, false, ◌≤◌, ◌≡◌, String, true, List, [], ◌∷◌, arith, ◌==◌, if◌then◌else◌, eq_iff,
}
use vera_key.Collections.Set

unfoldable pub drop_one : String → List String → List String
drop_one k [] = []
drop_one k (j ∷ js) = if j == k then js else j ∷ drop_one k js

unfoldable pub count : String → List String → ℕ
count k [] = 0
count k (j ∷ js) = (if j == k then 1 else 0) + count k js

pub count-has : (k : String) (js : List String) → Set.has k js ≡ true → 1 ≤ count k js
unfolding count Set.has
count-has k [] h = ground arith
count-has k (j ∷ js) h = ground (arith, count-has k js)

pub count-drop_one :
    (k i : String) (js : List String)
    → Set.has k js ≡ true
    → count i (drop_one k js) + (if k == i then 1 else 0) ≡ count i js
unfolding count drop_one Set.has
count-drop_one k i [] h = ground arith
count-drop_one k i (j ∷ js) h =
    ground (arith, count-drop_one k i js, eq_iff j k, eq_iff j i, eq_iff k i)

pub count-drop_one_less :
    (k i : String) (js : List String)
    → count i (drop_one k js) ≡ count i js - (if k == i then 1 else 0)
unfolding count drop_one
count-drop_one_less k i [] = ground arith
count-drop_one_less k i (j ∷ js) =
    ground (arith, count-drop_one_less k i js, eq_iff j k, eq_iff j i, eq_iff k i)

-- Every text once.
abbrev pub IsDistinct : List String → Type 0
IsDistinct [] = Unit
IsDistinct (k ∷ ks) = (Set.has k ks ≡ false) × IsDistinct ks

pub has-drop_one :
    (k j : String) (js : List String)
    → IsDistinct js
    → Set.has j (drop_one k js) ≡ (if k == j then false else Set.has j js)
unfolding Set.has drop_one
has-drop_one k j [] d = ground arith
has-drop_one k j (i ∷ js) d =
    ground (arith, has-drop_one k j js d.1, eq_iff i k, eq_iff i j, eq_iff k j)

pub IsDistinct-drop_one :
    (k : String) (js : List String) → IsDistinct js → IsDistinct (drop_one k js)
unfolding drop_one
IsDistinct-drop_one k [] d = tt
IsDistinct-drop_one k (i ∷ js) d =
    ground (arith, IsDistinct-drop_one k js d.1, has-drop_one k i js d.1)
