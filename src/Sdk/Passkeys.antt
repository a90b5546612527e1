-- ===== src/Sdk/Passkeys.antt =====
-- packages/sdk/src/store.ts: what VeraKey remembers about passkeys on this device.
pub mod Contract
mod Tests
use vera_key.Prelude.{
  ℕ, String, Bool, true, false, not, List, [], ◌∷◌, ◌++◌, Option, none, some, ◌==◌, if◌then◌else◌,
  map,
}
use vera_key.Collections.Map
use vera_key.Sdk.Viem.{Viem}
use vera_key.Sdk.Bytes.Base64.{base64_url_encode}

pub record PublicKey : Type 0 where
  pub x : List ℕ
  pub y : List ℕ

-- The public key as hexadecimal texts; `payment` is false where the field is left out.
pub record StoredPasskey : Type 0 where
  pub credential_id : String
  pub x : String
  pub y : String
  pub label : String
  pub created_at : ℕ
  pub payment : Bool
  pub prf_check : Option String

unfoldable pub to_stored_passkey :
    Viem
    → (credential_id : List ℕ) → PublicKey
    → (label : String) → (payment : Bool) → (now : ℕ) → StoredPasskey
to_stored_passkey v credential_id key label payment now = record {
  credential_id = base64_url_encode credential_id;
  x = v.bytes_to_hex key.x;
  y = v.bytes_to_hex key.y;
  label = label;
  created_at = now;
  payment = payment;
  prf_check = none;
}

unfoldable pub public_key_of : Viem → StoredPasskey → PublicKey
public_key_of v stored = record { x = v.hex_to_bytes stored.x; y = v.hex_to_bytes stored.y }

-- The interface `PasskeyStore`, whose `get` encodes the id that it is given.
pub record PasskeyStore (S : Type 0) : Type 0 where
  pub list : S → List StoredPasskey
  pub get : String → S → Option StoredPasskey
  pub save : StoredPasskey → S → S
  pub remove : String → S → S

unfoldable pub find_passkey : String → List StoredPasskey → Option StoredPasskey
find_passkey id [] = none
find_passkey id (p ∷ ps) = if p.credential_id == id then some p else find_passkey id ps

-- `ps.filter(p => p.credentialId !== id)`
unfoldable pub without_passkey : String → List StoredPasskey → List StoredPasskey
without_passkey id [] = []
without_passkey id (p ∷ ps) =
    let rest = without_passkey id ps in if p.credential_id == id then rest else p ∷ rest

-- The item in localStorage, read as JSON; `none` where there is no item, or none that can be read.
abbrev pub LocalState : Type 0
LocalState = Option (List StoredPasskey)

abbrev pub local_list : LocalState → List StoredPasskey
local_list none = []
local_list (some ps) = ps

-- LocalPasskeyStore, in a storage with room.
abbrev pub local_store : PasskeyStore LocalState
local_store = record {
  list = local_list;
  get = λ id s. find_passkey id (local_list s);
  save = λ p s. some (without_passkey p.credential_id (local_list s) ++ (p ∷ []));
  remove = λ id s. some (without_passkey id (local_list s));
}

abbrev pub values : List (String × StoredPasskey) → List StoredPasskey
values [] = []
values ((id, p) ∷ m) = p ∷ values m

-- MemoryPasskeyStore
abbrev pub memory_store : PasskeyStore (List (String × StoredPasskey))
memory_store = record {
  list = values;
  get = Map.get;
  save = λ p m. Map.set p.credential_id p m;
  remove = Map.delete;
}
