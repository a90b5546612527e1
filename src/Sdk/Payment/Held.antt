-- ===== src/Sdk/Payment/Held.antt =====
-- memoryStore of packages/sdk/src/server.ts: how it holds the keys that are claimed for good.
use vera_key.Prelude.{
  ℕ, ◌≤◌, ◌≡◌, inl, inr, refl, ap, String, true, false, not, Option, none, some, arith, ◌==◌,
  if◌then◌else◌, Bool-cases, eq_iff,
}
use vera_key.Collections.Map
use vera_key.Sdk.MemoryStore.{Expiry, never, after, is_live, Store, expiry_of, tidy, claim, release}

-- How the store holds a payment's key: for good, or not at all; 2 stands for a time, which never happens.
abbrev pub held : Option Expiry → ℕ
held none = 0
held (some never) = 1
held (some (Expiry.at t)) = 2

held-kept :
    (o : Option Expiry) (now : ℕ) → held o ≤ 1 → held (Map.kept (λ e. not (after e now)) o) ≡ held o
held-kept none now h = refl
held-kept (some never) now h = refl
held-kept (some (Expiry.at t)) now h = absurd (omega (arith, h))

held-tidy :
    (j : String) (now : ℕ) (m : Store)
    → Map.IsUnique m
    → held (Map.get j m) ≤ 1
    → held (Map.get j (tidy now m)) ≡ held (Map.get j m)
unfolding tidy
held-tidy j now m u h =
    ground (arith, Map.get-sweep (λ e. not (after e now)) j m u, held-kept (Map.get j m) now h)

not_live-held : (o : Option Expiry) (now : ℕ) → held o ≤ 1 → is_live o now ≡ false → held o ≡ 0
not_live-held none now h l = refl
not_live-held (some never) now h l = cc
not_live-held (some (Expiry.at t)) now h l = absurd (omega (arith, h))

module _ (key j : String) (now : ℕ) (m : Store) (u : Map.IsUnique m) where
  held-set :
      (e : Expiry) → (key == j) ≡ false → held (Map.get j (Map.set key e m)) ≡ held (Map.get j m)
  held-set e n = ground (arith, Map.get-set key j e m, n)

  -- A claim of another key leaves this one as it is.
  pub held-claim_other :
      (ttl : Option ℕ)
      → (key == j) ≡ false
      → held (Map.get j m) ≤ 1
      → held (Map.get j (claim key ttl now m).0) ≡ held (Map.get j m)
  unfolding claim
  held-claim_other ttl n h =
      let e = expiry_of ttl now in
      let same = held-set e n in
      let tidied =
        held-tidy j now (Map.set key e m) (Map.IsUnique-set key e m u) (omega (arith, same, h)) in
      elim (Bool-cases (is_live (Map.get key m) now)) [
        | inl y ↦ simp y refl
        | inr f ↦ simp f (omega (arith, same, tidied))
      ]

  -- A claim for good that succeeds holds its key, which was free.
  pub held-claim_self :
      (key == j) ≡ true
      → held (Map.get j m) ≤ 1
      → (claim key none now m).1 ≡ true
      → (held (Map.get j m) ≡ 0) × (held (Map.get j (claim key none now m).0) ≡ 1)
  unfolding claim
  held-claim_self e h c =
      let set = ap held (Map.get-set key j never m) in
      elim (Bool-cases (is_live (Map.get key m) now)) [
        | inl y ↦ ground (arith, y)
        | inr f ↦
            let kept : held (Map.get j (Map.set key never m)) ≡ 1 = ground (arith, set, e) in
            let tidied =
              held-tidy j now (Map.set key never m) (Map.IsUnique-set key never m u)
                (omega (arith, kept)) in
            let one : held (Map.get j (claim key none now m).0) ≡ 1 =
              simp f (omega (arith, kept, tidied)) in
            let same : key ≡ j = ground (arith, e, eq_iff key j) in
            (not_live-held (Map.get j m) now h (rw same at f), one)
      ]

  pub held-release : held (Map.get j (release key m)) ≡ (if key == j then 0 else held (Map.get j m))
  unfolding release
  held-release = ground (arith, Map.get-delete key j m)
