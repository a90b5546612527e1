-- ===== src/Sdk/Passkeys/Contract.antt =====
-- packages/sdk/src/store.ts: what the two stores promise of `get`.
use vera_key.Prelude.{
  ◌≡◌, refl, sym, ap, ◌∙◌, String, List, [], ◌∷◌, ◌++◌, none, some, arith, ◌==◌, if◌then◌else◌,
  eq_iff,
}
use vera_key.Collections.Map
use vera_key.Sdk.Passkeys.{
  StoredPasskey, PasskeyStore, find_passkey, without_passkey, local_list, local_store, memory_store,
}

-- The store finds what was saved last under an id, unless it was removed since.
pub record KeepsLast {S : Type 0} (store : PasskeyStore S) : Type 0 where
  pub get-save :
      (id : String) (p : StoredPasskey) (s : S)
      → store.get id (store.save p s) ≡ (if p.credential_id == id then some p else store.get id s)
  pub get-remove :
      (id removed : String) (s : S)
      → store.get id (store.remove removed s) ≡ (if removed == id then none else store.get id s)

find-without :
    (id removed : String) (ps : List StoredPasskey)
    → find_passkey id (without_passkey removed ps)
      ≡ (if removed == id then none else find_passkey id ps)
unfolding find_passkey without_passkey
find-without id removed [] = ground arith
find-without id removed (p ∷ ps) = ground (
  arith,
  eq_iff p.credential_id removed,
  eq_iff p.credential_id id,
  eq_iff removed id,
  find-without id removed ps,
)

find-saved :
    (id : String) (p : StoredPasskey) (ps : List StoredPasskey)
    → find_passkey id (without_passkey p.credential_id ps ++ (p ∷ []))
      ≡ (if p.credential_id == id then some p else find_passkey id ps)
unfolding find_passkey without_passkey
find-saved id p [] = refl
find-saved id p (q ∷ ps) = ground (
  arith,
  eq_iff q.credential_id p.credential_id,
  eq_iff q.credential_id id,
  eq_iff p.credential_id id,
  find-saved id p ps,
)

pub local-KeepsLast : KeepsLast local_store
local-KeepsLast = record {
  get-save = λ id p s. find-saved id p (local_list s);
  get-remove = λ id removed s. find-without id removed (local_list s);
}

pub memory-KeepsLast : KeepsLast memory_store
memory-KeepsLast = record {
  get-save = λ id p m. Map.get-set p.credential_id id p m;
  get-remove = λ id removed m. Map.get-delete removed id m;
}

pub data Change : Type 0 where
  saved : StoredPasskey → Change
  removed : String → Change

unfoldable pub change_store : {S : Type 0} → PasskeyStore S → Change → S → S
change_store store (saved p) s = store.save p s
change_store store (removed id) s = store.remove id s

unfoldable pub change_all : {S : Type 0} → PasskeyStore S → List Change → S → S
unfolding change_store
change_all store [] s = s
change_all store (c ∷ cs) s = change_all store cs (change_store store c s)

module _ {S T : Type 0} (a : PasskeyStore S) (b : PasskeyStore T) (ka : KeepsLast a)
    (kb : KeepsLast b) where
  pub change-Same :
      (c : Change) (s : S) (t : T)
      → ((id : String) → a.get id s ≡ b.get id t)
      → (id : String) → a.get id (change_store a c s) ≡ b.get id (change_store b c t)
  unfolding change_store
  change-Same (saved p) s t same id =
      ka.get-save id p s
      ∙ ap (λ x. if p.credential_id == id then some p else x) (same id)
      ∙ sym (kb.get-save id p t)
  change-Same (removed r) s t same id =
      ka.get-remove id r s
      ∙ ap (λ x. if r == id then none else x) (same id)
      ∙ sym (kb.get-remove id r t)

  pub changes-Same :
      (cs : List Change) (s : S) (t : T)
      → ((id : String) → a.get id s ≡ b.get id t)
      → (id : String) → a.get id (change_all a cs s) ≡ b.get id (change_all b cs t)
  unfolding change_all
  changes-Same [] s t same id = same id
  changes-Same (c ∷ cs) s t same id =
      changes-Same cs (change_store a c s) (change_store b c t) (change-Same c s t same) id

-- After any saves and removals, starting empty, the store in localStorage and the store in memory
-- answer every `get` alike.
pub local-memory :
    (changes : List Change) (id : String)
    → local_store.get id (change_all local_store changes none)
      ≡ memory_store.get id (change_all memory_store changes [])
unfolding find_passkey Map.get
local-memory changes id =
    changes-Same local_store memory_store local-KeepsLast memory-KeepsLast changes none []
      (λ i. refl) id
