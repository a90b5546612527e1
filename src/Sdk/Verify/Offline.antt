-- ===== src/Sdk/Verify/Offline.antt =====
-- packages/sdk/src/signin.ts: the checks of verifySignIn that need no chain.
use vera_key.Prelude.{
  ℕ, ◌+◌, ◌/◌, String, Bool, true, false, not, ◌&&◌, List, [], ◌∷◌, Option, none, some, nat_beq,
  leb, ltb, ◌==◌, if◌then◌else◌, map,
}
use vera_key.Prelude.Text.{ℤ, pos, negsuc, big_int, lower}
use vera_key.Sdk.Values.{Value, boolean, undefined, Items, empty, item, equals_text}
use vera_key.Sdk.Connect.{message_field}
use vera_key.Sdk.Payment.{natural}
use vera_key.Sdk.Viem.{Viem, is_hex, text_of, items_of, and_then}
use vera_key.Sdk.Bytes.{limbs, to_field_hex}
use vera_key.Sdk.Bytes.Base64.{base64_url_encode}
use vera_key.Sdk.Verify.{
  Statement, Deployment, Options, Planned, normalize_origin, app_id_from_origin, sign_in_challenge,
  or_else,
}

abbrev pub for_deployment : Deployment → Statement → Bool
for_deployment d s = nat_beq s.chain_id d.chain_id && (lower s.factory == lower d.factory)

abbrev pub for_origin : Option String → Statement → Bool
for_origin none s = false
for_origin (some origin) s = s.origin == origin

abbrev pub same_app : Statement → Option ℕ → Option Bool
same_app s none = none
same_app s (some id) = some (nat_beq (natural (big_int s.app_id)) id)

abbrev pub for_app : Viem → Option String → Statement → Option Bool
for_app v none s = some false
for_app v (some origin) s = same_app s (app_id_from_origin v origin)

abbrev pub parsed_or_empty : Option Value → Value
parsed_or_empty none = undefined
parsed_or_empty (some x) = x

abbrev pub is_true : Value → Bool
is_true (boolean b) = b
is_true _ = false

abbrev pub signed_this : Viem → Value → (challenge : String) → Bool
signed_this v parsed challenge =
    equals_text (message_field "type" parsed) "webauthn.get"
    && equals_text (message_field "challenge" parsed) (base64_url_encode (v.hex_to_bytes challenge))

abbrev pub signed_on : (origin : String) → Value → Bool
signed_on origin parsed =
    equals_text (message_field "origin" parsed) origin
    && not (is_true (message_field "crossOrigin" parsed))

abbrev pub input_hexes : List ℕ → Option (ℕ × ℕ) → Option (ℕ × ℕ) → Option (List String)
input_hexes ids (some (cdh_hi, cdh_lo)) (some (rp_hi, rp_lo)) =
    some (map to_field_hex (cdh_hi ∷ cdh_lo ∷ rp_hi ∷ rp_lo ∷ ids))
input_hexes ids _ _ = none

-- `expected`: the client data's hash, the rpId's hash, and the ids that the statement claims.
unfoldable pub expected_inputs :
    Viem → (rp_id_hash : String) → (client_data : List ℕ) → List ℕ → Option (List String)
expected_inputs v rp_id_hash client_data ids =
    input_hexes ids (limbs (v.sha256 client_data)) (limbs (v.hex_to_bytes rp_id_hash))

-- `BigInt(value) === BigInt(expected)`
abbrev pub same_number : Option ℤ → Option ℤ → Option Bool
same_number (some (pos a)) (some (pos b)) = some (nat_beq a b)
same_number (some (negsuc a)) (some (negsuc b)) = some (nat_beq a b)
same_number none _ = none
same_number (some a) none = none
same_number (some a) (some b) = some false

-- `publicInputs.every(...)`; a value past the expected ones cannot be read.
unfoldable pub commits : Viem → Items → List String → Option Bool
commits v empty expected = some true
commits v (item x xs) [] = if is_hex v x then none else some false
commits v (item x xs) (e ∷ expected) =
    and_then (some (is_hex v x))
      (and_then (same_number (big_int (text_of x)) (big_int e)) (commits v xs expected))

abbrev pub commits_to : Viem → Items → Option (List String) → Option Bool
commits_to v inputs none = none
commits_to v inputs (some expected) = commits v inputs expected

abbrev pub client_data_of : Viem → Value → List ℕ
client_data_of v result = v.hex_to_bytes (text_of (message_field "clientDataJSON" result))

abbrev pub ids_of : Statement → List ℕ
ids_of s = natural (big_int s.app_id) ∷ natural (big_int s.nullifier) ∷ []

abbrev pub now_of : Options → (clock : ℕ) → ℕ
now_of o clock = or_else o.now (clock / 1000)

abbrev pub inputs_of : Viem → Options → Statement → Value → Option (List String)
inputs_of v o s result =
    expected_inputs v o.deployment.rp_id_hash (client_data_of v result) (ids_of s)

-- The checks after those of the format.
unfoldable pub offline : Viem → Options → (clock : ℕ) → Statement → Value → List Planned
unfolding app_id_from_origin normalize_origin sign_in_challenge commits expected_inputs
offline v o clock s result =
    let origin = normalize_origin v o.origin in
    let now = now_of o clock in
    let skew = or_else o.clock_skew_seconds 60 in
    let parsed = parsed_or_empty (v.parse_json (client_data_of v result)) in
    ("This deployment", some (for_deployment o.deployment s))
    ∷ ("Made for this site", some (for_origin origin s))
    ∷ ("App id of this site", for_app v origin s)
    ∷ ("Carries the nonce you issued", some (lower s.nonce == lower o.nonce))
    ∷ ("Not expired", some (ltb now (s.expires_at + skew)))
    ∷ ("Short-lived", some (leb s.expires_at (or_else o.max_ttl_seconds 300 + skew + now)))
    ∷ ("Passkey signed this sign-in", some (signed_this v parsed (sign_in_challenge v s)))
    ∷ ("Signed on VeraKey", some (signed_on o.deployment.origin parsed))
    ∷ (
      "Proof commits to this sign-in",
      commits_to v (items_of (message_field "publicInputs" result)) (inputs_of v o s result),
    )
    ∷ []
