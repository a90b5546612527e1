-- ===== src/Collections/Map.antt =====
-- JavaScript's Map with text keys: entries in insertion order, the oldest first.
use vera_key.Prelude.{
  String, ◌≡◌, refl, Bool, false, List, [], ◌∷◌, Option, none, some, arith, ◌==◌, if◌then◌else◌,
  eq_iff, eq_refl,
}

module _ {ℓ} {V : Type ℓ} where
  unfoldable pub get : String → List (String × V) → Option V
  get k [] = none
  get k ((j, v) ∷ m) = if j == k then some v else get k m

  -- An entry that is there keeps its place; a new one goes last.
  unfoldable pub set : String → V → List (String × V) → List (String × V)
  set k v [] = (k, v) ∷ []
  set k v ((j, w) ∷ m) = if j == k then (j, v) ∷ m else (j, w) ∷ set k v m

  unfoldable pub delete : String → List (String × V) → List (String × V)
  delete k [] = []
  delete k ((j, w) ∷ m) = if j == k then delete k m else (j, w) ∷ delete k m

  -- The loop `for (const [k, v] of map) if (drop v) map.delete(k)`.
  unfoldable pub sweep : (V → Bool) → List (String × V) → List (String × V)
  sweep drop [] = []
  sweep drop ((j, w) ∷ m) = if drop w then sweep drop m else (j, w) ∷ sweep drop m

  pub get-set :
      (k j : String) (v : V) (m : List (String × V))
      → get j (set k v m) ≡ (if k == j then some v else get j m)
  unfolding get set
  get-set k j v [] = refl
  get-set k j v ((i, w) ∷ m) = ground (arith, eq_iff k j, eq_iff i k, eq_iff i j, get-set k j v m)

  pub get-set_self : (k : String) (v : V) (m : List (String × V)) → get k (set k v m) ≡ some v
  get-set_self k v m = simp (get-set, eq_refl)

  pub get-delete :
      (k j : String) (m : List (String × V))
      → get j (delete k m) ≡ (if k == j then none else get j m)
  unfolding get delete
  get-delete k j [] = ground arith
  get-delete k j ((i, w) ∷ m) = ground (arith, eq_iff k j, eq_iff i k, eq_iff i j, get-delete k j m)

  -- Keys are held once, as in a Map.
  abbrev pub Absent : String → List (String × V) → Type 0
  Absent k [] = Unit
  Absent k ((j, w) ∷ m) = ((j == k) ≡ false) × Absent k m

  abbrev pub IsUnique : List (String × V) → Type 0
  IsUnique [] = Unit
  IsUnique ((j, w) ∷ m) = Absent j m × IsUnique m

  pub get-Absent : (k : String) (m : List (String × V)) → Absent k m → get k m ≡ none
  unfolding get
  get-Absent k [] a = refl
  get-Absent k ((j, w) ∷ m) a = ground (arith, get-Absent k m)

  pub Absent-sweep :
      (drop : V → Bool) (k : String) (m : List (String × V)) → Absent k m → Absent k (sweep drop m)
  unfolding sweep
  Absent-sweep drop k [] a = tt
  Absent-sweep drop k ((j, w) ∷ m) a = ground (arith, Absent-sweep drop k m)

  pub Absent-set :
      (k j : String) (v : V) (m : List (String × V))
      → Absent j m
      → (k == j) ≡ false
      → Absent j (set k v m)
  unfolding set
  Absent-set k j v [] a n = (n, tt)
  Absent-set k j v ((i, w) ∷ m) a n = ground (arith, Absent-set k j v m)

  pub Absent-delete : (k j : String) (m : List (String × V)) → Absent j m → Absent j (delete k m)
  unfolding delete
  Absent-delete k j [] a = tt
  Absent-delete k j ((i, w) ∷ m) a = ground (arith, Absent-delete k j m)

  pub IsUnique-sweep :
      (drop : V → Bool) (m : List (String × V)) → IsUnique m → IsUnique (sweep drop m)
  unfolding sweep
  IsUnique-sweep drop [] u = tt
  IsUnique-sweep drop ((j, w) ∷ m) u = ground (arith, IsUnique-sweep drop m, Absent-sweep drop j m)

  pub IsUnique-set :
      (k : String) (v : V) (m : List (String × V)) → IsUnique m → IsUnique (set k v m)
  unfolding set
  IsUnique-set k v [] u = (tt, tt)
  IsUnique-set k v ((j, w) ∷ m) u =
      ground (arith, IsUnique-set k v m, Absent-set k j v m, eq_iff j k, eq_iff k j)

  -- What a sweep leaves of one key.
  abbrev pub kept : (V → Bool) → Option V → Option V
  kept drop none = none
  kept drop (some v) = if drop v then none else some v

  pub get-sweep :
      (drop : V → Bool) (k : String) (m : List (String × V))
      → IsUnique m
      → get k (sweep drop m) ≡ kept drop (get k m)
  unfolding get sweep
  get-sweep drop k [] u = refl
  get-sweep drop k ((j, w) ∷ m) u = ground (
    arith,
    get-sweep drop k m,
    get-Absent k m,
    get-Absent k (sweep drop m),
    Absent-sweep drop k m,
    eq_iff j k,
  )
