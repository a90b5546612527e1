-- ===== src/Sdk/Client/Unlocked.antt =====
-- packages/sdk/src/client.ts: what an unlock leaves in the store.
use vera_key.Prelude.{◌≡◌, refl, sym, ◌∙◌, subst, String, false, Option, some, ◌==◌}
use vera_key.Sdk.Bytes.Base64.{base64_url_encode}
use vera_key.Sdk.Passkeys.{StoredPasskey, public_key_of, local_store}
use vera_key.Sdk.Client.{return, done, Session, Client, M, ◌>>=◌, lift}
use vera_key.Sdk.Client.Outside.{Outside, Assertion}
use vera_key.Sdk.Client.Able.{bind-done}
use vera_key.Sdk.Client.Unlock.{
  session_of, prf_check, look_up_passkey, credential_of, unlock_with, authenticate,
}
use vera_key.Sdk.Client.Kept.{keep_passkey-IsKept, done-injective, bind-client}

-- A session of a passkey: the store has it under its id, with the check of the secret that it gave, which is
-- the check from before if there was one; the session has its key, and every other passkey is as before.
pub record IsUnlocked (o : Outside) (before after : Client) (s : Session) : Type 0 where
  pub id : String
  pub stored : local_store.get id after.store ≡ some s.passkey
  pub checked : s.passkey.prf_check ≡ some (prf_check o.viem s.prf_secret)
  pub key : s.public_key ≡ public_key_of o.viem s.passkey
  pub same_secret :
      (p : StoredPasskey) (check : String)
      → local_store.get id before.store ≡ some p
      → p.prf_check ≡ some check
      → check ≡ prf_check o.viem s.prf_secret
  pub others :
      (other : String)
      → (id == other) ≡ false
      → local_store.get other after.store ≡ local_store.get other before.store

-- A session that authenticate gives is of a passkey that the store then has under the session's
-- id, with its key and the check of the secret that it returned. If the store knew a check of that
-- passkey before, it is the same one; and every other passkey in the store is as before.
pub authenticate-IsUnlocked :
    (o : Outside) (passkey : Option StoredPasskey) (c : Client) (s : Session)
    → (authenticate o passkey c).result ≡ done s
    → IsUnlocked o c (authenticate o passkey c).client s
unfolding authenticate
authenticate-IsUnlocked o passkey c s h =
    let finish : Assertion → StoredPasskey → M Session =
      λ a stored. return (session_of o a stored) in
    let keep : Assertion → M Session = λ a. look_up_passkey o a >>= finish a in
    let (id, e1, h1) =
      bind-done (lift (credential_of passkey)) (λ id. unlock_with o id >>= keep) c s h in
    let (a, e2, h2) = bind-done (unlock_with o id) keep c s h1 in
    let d = (unlock_with o id c).client in
    let (p, e3, h3) = bind-done (look_up_passkey o a) (finish a) d s h2 in
    let key = base64_url_encode a.credential_id in
    let check = prf_check o.viem a.prf_secret in
    let known = local_store.get key c.store in
    let kept = keep_passkey-IsKept o a key check refl known c p refl e3 in
    let after : (authenticate o passkey c).client ≡ (look_up_passkey o a c).client =
      bind-client (lift (credential_of passkey)) (λ id. unlock_with o id >>= keep) c id e1
      ∙ bind-client (unlock_with o id) keep c a e2
      ∙ bind-client (look_up_passkey o a) (finish a) c p e3 in
    let made : session_of o a p ≡ s = done-injective (session_of o a p) s h3 in
    let unlocked : IsUnlocked o c (look_up_passkey o a c).client (session_of o a p) = record {
      id = key;
      stored = kept.stored;
      checked = kept.checked;
      key = refl;
      same_secret = λ q x y z. kept.same_secret q x y z;
      others = kept.others;
    } in
    subst (IsUnlocked o c _) made
      (subst (λ d. IsUnlocked o c d (session_of o a p)) (sym after) unlocked)
