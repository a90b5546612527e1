-- ===== src/Sdk/Client/Unlock.antt =====
-- packages/sdk/src/client.ts: register, unlock and authenticate; and what they use of webauthn.ts.
use vera_key.Prelude.{
  ℕ, String, Bool, true, false, ◌&&◌, List, [], ◌∷◌, Option, none, some, ◌==◌, if◌then◌else◌,
}
use vera_key.Prelude.Text.{codes}
use vera_key.Sdk.Viem.{Viem}
use vera_key.Sdk.Bytes.{padded_hex, concat_bytes, first, to_field_hex}
use vera_key.Sdk.Bytes.Base64.{base64_url_encode, base64_url_decode}
use vera_key.Sdk.Passkeys.{
  PublicKey, StoredPasskey, to_stored_passkey, public_key_of, find_passkey, local_store,
}
use vera_key.Sdk.Client.{
  device, Result, done, failed, threw, Session, unlocks, identifies, asks, M, ◌>>=◌, ◌>>◌, lift,
  return, does, fail, CeremonyError, unsupported, dom_exception, other_error, Answer, given,
  refused, answer_or_fail, start_session,
}
use vera_key.Sdk.Client.Outside.{Outside, Assertion, Created}
use vera_key.Sdk.Client.Authorize.{is_deployed}

abbrev hexes : List ℕ → String
hexes [] = ""
hexes (b ∷ bs) = padded_hex 2 b (hexes bs)

-- `prfCheck(prfSecret)`
unfoldable pub prf_check : Viem → List ℕ → String
unfolding concat_bytes padded_hex
prf_check v secret =
    hexes (first 16 (v.sha256 (concat_bytes (codes "VeraKey PRF check v1" ∷ secret ∷ []))))

-- `webauthnDigest(authenticatorData, clientDataJSON)`
unfoldable pub webauthn_digest : Viem → Assertion → List ℕ
unfolding concat_bytes
webauthn_digest v a = v.sha256 (concat_bytes (a.authenticator_data ∷ v.sha256 a.client_data ∷ []))

abbrev pub recovered : Outside → Assertion → List PublicKey
recovered o a = o.recover_keys (webauthn_digest o.viem a) a.signature

abbrev pub then_deployed : Result (Option String) → Result Bool
then_deployed (done code) = done (is_deployed code)
then_deployed (failed e) = failed e
then_deployed (threw m) = threw m

abbrev pub then_code : Outside → Result String → Result Bool
then_code o (done address) = then_deployed (o.get_code address)
then_code o (failed e) = failed e
then_code o (threw m) = threw m

abbrev pub then_address : Outside → (app_id : ℕ) → Result ℕ → Result Bool
then_address o app_id (done id) =
    then_code o (o.account_address (to_field_hex app_id) (to_field_hex id))
then_address o app_id (failed e) = failed e
then_address o app_id (threw m) = threw m

-- Whether the account of a key in an app is deployed.
unfoldable pub has_account : Outside → (secret : List ℕ) → PublicKey → (app_id : ℕ) → Result Bool
has_account o secret key app_id = then_address o app_id (o.compute_nullifier key secret app_id)

abbrev pub or_next : {A : Type 0} → Result Bool → A → Result (Option A) → Result (Option A)
or_next (done true) a rest = done (some a)
or_next (done false) a rest = rest
or_next (failed e) a rest = failed e
or_next (threw m) a rest = threw m

unfoldable pub find_in_apps :
    (has : ℕ → Result Bool)
    → PublicKey
    → List ℕ
    → Result (Option PublicKey)
    → Result (Option PublicKey)
find_in_apps has key [] next = next
find_in_apps has key (id ∷ ids) next = or_next (has id) key (find_in_apps has key ids next)

unfoldable pub find_owner : Outside → (secret : List ℕ) → List PublicKey → Result (Option PublicKey)
unfolding find_in_apps has_account
find_owner o secret [] = done none
find_owner o secret (key ∷ keys) =
    find_in_apps (has_account o secret key) key o.config.app_ids (find_owner o secret keys)

abbrev pub same_key : Viem → PublicKey → PublicKey → Bool
same_key v a b =
    v.bytes_to_hex a.x == v.bytes_to_hex b.x && v.bytes_to_hex a.y == v.bytes_to_hex b.y

unfoldable pub is_among : Viem → PublicKey → List PublicKey → Bool
is_among v key [] = false
is_among v key (k ∷ ks) = if same_key v k key then true else is_among v key ks

unfoldable pub find_common : Viem → (candidates again : List PublicKey) → Result PublicKey
unfolding is_among
find_common v [] again = fail device "Could not recover this passkey's public key." none
find_common v (key ∷ keys) again =
    let rest = find_common v keys again in if is_among v key again then done key else rest

abbrev pub message_of : CeremonyError → String
message_of (unsupported message) = message
message_of (dom_exception name message) = message
message_of (other_error message) = message

-- A ceremony whose error nothing describes.
abbrev pub answer_or_throw : {A : Type 0} → Answer A → Result A
answer_or_throw (given a) = done a
answer_or_throw (refused e) = threw (message_of e)

abbrev pub owner_or_ask : Outside → Assertion → List PublicKey → Option PublicKey → M PublicKey
owner_or_ask o a candidates (some key) = return key
owner_or_ask o a candidates none =
    does (asks (identifies a.credential_id))
    >> (lift (answer_or_throw (o.assertion (identifies a.credential_id))) >>= λ second.
        lift (find_common o.viem candidates (recovered o second)))

abbrev pub only_or_search : Outside → Assertion → List PublicKey → M PublicKey
only_or_search o a (key ∷ []) = return key
only_or_search o a candidates =
    lift (find_owner o a.prf_secret candidates) >>= owner_or_ask o a candidates

unfoldable pub recover_public_key : Outside → Assertion → M PublicKey
unfolding find_owner find_common webauthn_digest
recover_public_key o a = only_or_search o a (recovered o a)

abbrev pub prf_secret_changed : String
prf_secret_changed =
    "This passkey returned a different secret than it did before in this browser, so it would open different accounts. Unlock it the way you did before: for example through the password manager on this device instead of a phone's QR code, or the other way round."

abbrev pub save : StoredPasskey → M StoredPasskey
save stored c = return stored (record c { store = local_store.save stored c.store })

abbrev pub new_passkey : Outside → Assertion → (check : String) → PublicKey → StoredPasskey
new_passkey o a check key =
    record (to_stored_passkey o.viem a.credential_id key "Passkey on this device" false o.now) {
      prf_check = some check;
    }

-- A passkey that was remembered without a check gets one.
abbrev pub keep_known : StoredPasskey → (check : String) → Option String → M StoredPasskey
keep_known stored check none = save (record stored { prf_check = some check })
keep_known stored check (some before) =
    if before == check then return stored else lift (fail device prf_secret_changed none)

abbrev pub keep_passkey :
    Outside → Assertion → (check : String) → Option StoredPasskey → M StoredPasskey
keep_passkey o a check (some stored) = keep_known stored check stored.prf_check
keep_passkey o a check none = recover_public_key o a >>= λ key. save (new_passkey o a check key)

abbrev pub look_up_passkey : Outside → Assertion → M StoredPasskey
look_up_passkey o a c =
    keep_passkey o a (prf_check o.viem a.prf_secret)
      (local_store.get (base64_url_encode a.credential_id) c.store) c

-- `credentialIdBytes(passkey)`
abbrev pub credential_of : Option StoredPasskey → Result (Option (List ℕ))
credential_of none = done none
credential_of (some stored) = decoded (base64_url_decode stored.credential_id)
  where
    decoded : Option (List ℕ) → Result (Option (List ℕ))
    decoded none = threw "InvalidCharacterError"
    decoded (some bytes) = done (some bytes)

abbrev pub unlock_with : Outside → Option (List ℕ) → M Assertion
unlock_with o id = does (asks (unlocks id)) >> lift (answer_or_fail (o.assertion (unlocks id)))

abbrev pub session_of : Outside → Assertion → StoredPasskey → Session
session_of o a stored = record {
  passkey = stored;
  public_key = public_key_of o.viem stored;
  prf_secret = a.prf_secret;
}

unfoldable pub authenticate : Outside → Option StoredPasskey → M Session
unfolding prf_check to_stored_passkey public_key_of find_passkey base64_url_encode base64_url_decode
    recover_public_key answer_or_fail
authenticate o passkey = lift (credential_of passkey) >>= λ id.
    unlock_with o id >>= λ a. look_up_passkey o a >>= λ stored. return (session_of o a stored)

abbrev pub begin_session : Session → M Session
begin_session s c = return s (start_session s c)

unfoldable pub unlock : Outside → Option StoredPasskey → M Session
unfolding authenticate start_session
unlock o passkey = authenticate o passkey >>= begin_session

abbrev pub check_of : Viem → Option (List ℕ) → Option String
check_of v none = none
check_of v (some secret) = some (prf_check v secret)

abbrev pub registered_passkey : Outside → (label : String) → Created → StoredPasskey
registered_passkey o label made =
    record (to_stored_passkey o.viem made.credential_id made.public_key label made.payment o.now) {
      prf_check = check_of o.viem made.prf_secret;
    }

abbrev pub activate_if : Bool → Session → M (Option Session)
activate_if true s = begin_session s >>= λ t. return (some t)
activate_if false s = return (some s)

abbrev pub with_secret :
    (activate : Bool) → StoredPasskey → Created → Option (List ℕ) → M (Option Session)
with_secret activate stored made none = return none
with_secret activate stored made (some secret) =
    activate_if activate
      (record { passkey = stored; public_key = made.public_key; prf_secret = secret })

abbrev pub remember_created :
    Outside → (label : String) → (activate : Bool) → Created → M (StoredPasskey × Option Session)
remember_created o label activate made = save (registered_passkey o label made) >>= λ stored.
    with_secret activate stored made made.prf_secret >>= λ session. return (stored, session)

unfoldable pub register :
    Outside → (label : String) → (activate : Bool) → M (StoredPasskey × Option Session)
unfolding prf_check to_stored_passkey answer_or_fail start_session
register o label activate =
    lift (answer_or_fail o.create_passkey) >>= remember_created o label activate
