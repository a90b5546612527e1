-- ===== src/Sdk/Client/Kept.antt =====
-- packages/sdk/src/client.ts: how an unlock keeps a passkey in the store.
use vera_key.Prelude.{
  ◌≡◌, inl, inr, refl, sym, ap, ◌∙◌, subst, String, false, List, [], ◌∷◌, Option, none, some, arith,
  ◌==◌, if◌then◌else◌, Bool-cases, eq_iff,
}
use vera_key.Sdk.Bytes.Base64.{base64_url_encode}
use vera_key.Sdk.Passkeys.{
  PublicKey, StoredPasskey, to_stored_passkey, find_passkey, LocalState, local_list, local_store,
}
use vera_key.Sdk.Passkeys.Contract.{local-KeepsLast}
use vera_key.Sdk.Client.{
  identifies, Result, done, failed, threw, Client, M, bind_result, ◌>>=◌, lift,
}
use vera_key.Sdk.Client.Outside.{Outside, Assertion}
use vera_key.Sdk.Client.Able.{bind-done}
use vera_key.Sdk.Client.Unlock.{
  recover_public_key, only_or_search, owner_or_ask, find_owner, find_common, recovered,
  answer_or_throw, new_passkey, save, keep_known, keep_passkey,
}

-- What keeping a passkey does to the store.
pub record IsKept (id check : String) (known : Option StoredPasskey) (before after : LocalState)
    (p : StoredPasskey) : Type 0 where
  pub stored : local_store.get id after ≡ some p
  pub checked : p.prf_check ≡ some check
  pub same_secret :
      (q : StoredPasskey) (c : String) → known ≡ some q → q.prf_check ≡ some c → c ≡ check
  pub others :
      (other : String)
      → (id == other) ≡ false
      → local_store.get other after ≡ local_store.get other before

-- `save` runs on a client with the store of before.
saved-IsKept :
    (id check : String) (known : Option StoredPasskey) (p : StoredPasskey) (before : LocalState)
    → p.credential_id ≡ id
    → p.prf_check ≡ some check
    → ((q : StoredPasskey) (c : String) → known ≡ some q → q.prf_check ≡ some c → c ≡ check)
    → IsKept id check known before (local_store.save p before) p
saved-IsKept id check known p before e k s = record {
  stored =
      local-KeepsLast.get-save id p before
      ∙ ap (λ b. if b then some p else local_store.get id before) ((eq_iff p.credential_id id).1 e);
  checked = k;
  same_secret = s;
  others = λ other n.
      local-KeepsLast.get-save other p before
      ∙ ap (λ b. if b then some p else local_store.get other before) (ap (λ i. i == other) e ∙ n);
}

unchanged-IsKept :
    (id check : String) (known : Option StoredPasskey) (p : StoredPasskey) (store : LocalState)
    → local_store.get id store ≡ known
    → known ≡ some p
    → p.prf_check ≡ some check
    → IsKept id check known store store p
unchanged-IsKept id check known p store g e k = record {
  stored = g ∙ e;
  checked = k;
  same_secret = λ q c x y.
      let same : p ≡ q = ground (arith, sym e ∙ x) in
      ground (arith, k, ap (λ z. z.prf_check) same, y);
  others = λ other n. refl;
}

find_passkey-id :
    (id : String) (ps : List StoredPasskey) (p : StoredPasskey)
    → find_passkey id ps ≡ some p
    → p.credential_id ≡ id
unfolding find_passkey
find_passkey-id id [] p h = cc
find_passkey-id id (q ∷ ps) p h = elim (Bool-cases (q.credential_id == id)) [
  | inl y ↦
      let same : q ≡ p = ground (arith, y, h) in
      ap (λ x. x.credential_id) (sym same) ∙ (eq_iff q.credential_id id).0 y
  | inr n ↦ find_passkey-id id ps p (ground (arith, n, h))
]

none_differs : {A : Type 0} {a : A} → Path (Option A) none (some a) → ⊥
none_differs e = cc

-- A method that leaves the client as it is.
abbrev Keeps : {A : Type 0} → M A → Type 0
Keeps m = (c : Client) → (m c).client ≡ c

result-Keeps :
    {A B : Type 0} (f : A → M B) (r : Result A) (es : List _) (c d : Client)
    → c ≡ d
    → ((a : A) → Keeps (f a))
    → (bind_result r es c f).client ≡ d
result-Keeps f (done a) es c d e k = k a c ∙ e
result-Keeps f (failed x) es c d e k = e
result-Keeps f (threw m) es c d e k = e

bind-Keeps :
    {A B : Type 0} (m : M A) (f : A → M B) → Keeps m → ((a : A) → Keeps (f a)) → Keeps (◌>>=◌ m f)
bind-Keeps m f h k c = result-Keeps f (m c).result (m c).events (m c).client c (h c) k

search-Keeps :
    (o : Outside) (a : Assertion) (keys : List PublicKey)
    → Keeps (lift (find_owner o a.prf_secret keys) >>= owner_or_ask o a keys)
search-Keeps o a keys =
    bind-Keeps (lift (find_owner o a.prf_secret keys)) (owner_or_ask o a keys) (λ c. refl)
      asks-Keeps
  where
    asks-Keeps : (found : Option PublicKey) → Keeps (owner_or_ask o a keys found)
    asks-Keeps (some key) = λ c. refl
    asks-Keeps none =
        bind-Keeps (lift (answer_or_throw (o.assertion (identifies a.credential_id))))
          (λ second. lift (find_common o.viem keys (recovered o second))) (λ c. refl) (λ x c. refl)

only-Keeps : (o : Outside) (a : Assertion) (keys : List PublicKey) → Keeps (only_or_search o a keys)
only-Keeps o a [] = search-Keeps o a []
only-Keeps o a (key ∷ []) = λ c. refl
only-Keeps o a (key ∷ other ∷ keys) = search-Keeps o a (key ∷ other ∷ keys)

pub done-injective : {A : Type 0} (a b : A) → Path (Result A) (done a) (done b) → a ≡ b
done-injective a b e = ground (arith, e)

recover-Keeps : (o : Outside) (a : Assertion) → Keeps (recover_public_key o a)
unfolding recover_public_key
recover-Keeps o a = only-Keeps o a (recovered o a)

result-client :
    {A B : Type 0} (f : A → M B) (r : Result A) (es : List _) (c : Client) (a : A)
    → r ≡ done a
    → (bind_result r es c f).client ≡ (f a c).client
result-client f (done b) es c a e = ap (λ x. (f x c).client) (done-injective b a e)
result-client f (failed x) es c a e = cc
result-client f (threw m) es c a e = cc

pub bind-client :
    {A B : Type 0} (m : M A) (f : A → M B) (c : Client) (a : A)
    → (m c).result ≡ done a
    → (◌>>=◌ m f c).client ≡ (f a (m c).client).client
bind-client m f c a e = result-client f (m c).result (m c).events (m c).client a e

module _ (o : Outside) (a : Assertion) (id check : String)
    (e : base64_url_encode a.credential_id ≡ id) where
  keep_known-IsKept :
      (q : StoredPasskey) (before : Option String) (c : Client) (p : StoredPasskey)
      → local_store.get id c.store ≡ some q
      → q.prf_check ≡ before
      → (keep_known q check before c).result ≡ done p
      → IsKept id check (some q) c.store (keep_known q check before c).client.store p
  keep_known-IsKept q none c p g b h =
      let made : StoredPasskey = record q { prf_check = some check } in
      let same : made ≡ p = done-injective made p h in
      subst (IsKept id check (some q) c.store (local_store.save made c.store)) same (
        saved-IsKept id check (some q) made c.store (find_passkey-id id (local_list c.store) q g)
          refl
          λ r d x y.
            let other : q ≡ r = ground (arith, x) in
            ground (arith, b, ap (λ z. z.prf_check) other, y))
  keep_known-IsKept q (some before) c p g b h = elim (Bool-cases (before == check)) [
    | inr n ↦ ground (arith, n, h)
    | inl y ↦
        let same : q ≡ p = done-injective q p (ground (arith, y, h)) in
        let kept =
          unchanged-IsKept id check (some q) q c.store g refl
            (b ∙ ap some ((eq_iff before check).0 y)) in
        simp y (subst (IsKept id check (some q) c.store c.store) same kept)
  ]

  pub keep_passkey-IsKept :
      (known : Option StoredPasskey) (c : Client) (p : StoredPasskey)
      → local_store.get id c.store ≡ known
      → (keep_passkey o a check known c).result ≡ done p
      → IsKept id check known c.store (keep_passkey o a check known c).client.store p
  unfolding to_stored_passkey base64_url_encode
  keep_passkey-IsKept (some q) c p g h = keep_known-IsKept q q.prf_check c p g refl h
  keep_passkey-IsKept none c p g h =
      let (key, k, r) =
        bind-done (recover_public_key o a) (λ key. save (new_passkey o a check key)) c p h in
      let made = new_passkey o a check key in
      let same : made ≡ p = done-injective made p r in
      let client : (keep_passkey o a check none c).client.store ≡ local_store.save made c.store =
        ap (λ d. d.store)
          (bind-client (recover_public_key o a) (λ x. save (new_passkey o a check x)) c key k)
        ∙ ap (λ d. local_store.save made d.store) (recover-Keeps o a c) in
      let kept =
        saved-IsKept id check none made c.store e refl (λ q d x y. absurd (none_differs x)) in
      subst (IsKept id check none c.store _) same
        (subst (λ t. IsKept id check none c.store t made) (sym client) kept)
