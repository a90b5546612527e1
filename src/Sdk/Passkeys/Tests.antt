-- ===== src/Sdk/Passkeys/Tests.antt =====
-- packages/sdk/src/store.ts at concrete passkeys.
use vera_key.Prelude.{◌≡◌, refl, String, false, List, [], ◌∷◌, none, some}
use vera_key.Collections.Map
use vera_key.Sdk.Passkeys.{StoredPasskey, find_passkey, without_passkey, local_store, memory_store}
use vera_key.Sdk.Passkeys.Contract.{Change, saved, removed, change_all, local-memory}

abbrev passkey : String → String → StoredPasskey
passkey id label = record {
  credential_id = id;
  x = "0x1";
  y = "0x2";
  label = label;
  created_at = 7;
  payment = false;
  prf_check = none;
}

abbrev changes : List Change
changes =
    saved (passkey "a" "old")
    ∷ saved (passkey "b" "other")
    ∷ saved (passkey "a" "new")
    ∷ removed "b"
    ∷ []

local-memory_example :
    local_store.get "a" (change_all local_store changes none)
    ≡ memory_store.get "a" (change_all memory_store changes [])
local-memory_example = local-memory changes "a"

get-changes :
    (local_store.get "a" (change_all local_store changes none) ≡ some (passkey "a" "new"))
    × (memory_store.get "b" (change_all memory_store changes []) ≡ none)
unfolding change_all find_passkey without_passkey Map.get Map.set Map.delete
get-changes = (refl, refl)
