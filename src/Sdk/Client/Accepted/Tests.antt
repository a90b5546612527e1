-- ===== src/Sdk/Client/Accepted/Tests.antt =====
-- packages/sdk/src/client.ts and signin.ts: a concrete sign-in, from the client to the site.
use Prim.Native.Char.{code}
use Prim.Native.String.{String, ◌∷◌}
use vera_key.Prelude.{◌≡◌, refl, true, [], ◌∷◌, none, some, map, arith, Bool, false, ◌&&◌, nat_beq}
use vera_key.Prelude.Text.{big_int, lower}
use vera_key.Sdk.Values.{property, length16}
use vera_key.Sdk.Viem.{Viem}
use vera_key.Sdk.Bytes.{to_field_hex, limbs}
use vera_key.Sdk.Bytes.Base64.{base64_url_encode}
use vera_key.Sdk.Verify.{normalize_origin, app_id_from_origin, sign_in_challenge}
use vera_key.Sdk.Verify.Chain.{verify_sign_in}
use vera_key.Sdk.Verify.Backed.{IsBacked}
use vera_key.Sdk.Verify.Examples.{viem, bytes, node, options, id_hex, client_data}
use vera_key.Sdk.Client.{done, given}
use vera_key.Sdk.Client.Outside.{Outside, Assertion, Proof, proven}
use vera_key.Sdk.Client.Authorize.{nullifier}
use vera_key.Sdk.Client.Examples.{outside, assertion, client, key, passkey}
use vera_key.Sdk.Client.Proofs.{SignInResult, prove_sign_in, sign_in_statement, account_address_of}
use vera_key.Sdk.Client.Honest.{IsDocumented, result_value}
use vera_key.Sdk.Client.Signing.{IsSigned}
use vera_key.Sdk.Client.Accepted.{IsHonest, IsAwaited, verify_sign_in-prove_sign_in}

abbrev is_hex : String → Bool
is_hex (c ∷ d ∷ s) = nat_beq (code c) b'0' && nat_beq (code d) b'x'
is_hex _ = false

abbrev functions : Viem
functions = record viem { platform = record viem.platform { is_hex = is_hex } }

abbrev signed : Assertion
signed = record assertion { client_data = bytes }

abbrev proof : Proof
proof = record {
  proof = "0x22";
  public_inputs = map to_field_hex (0 ∷ 7 ∷ 0 ∷ 7 ∷ 5 ∷ 9 ∷ []);
  proving_ms = 7;
}

abbrev browser : Outside
browser = record outside {
  viem = functions;
  assertion = λ c. given signed;
  prove = λ a app id. proven proof;
}

documented : IsDocumented functions bytes
unfolding to_field_hex length16
documented = record {
  field_is_hex = λ n. refl;
  data_is_hex = refl;
  data_again = refl;
  contract_is_address = λ a b c. refl;
}

can_sign : IsSigned browser client 5 9 id_hex "https://game.example" 1000 "0xaa" "0xcc" signed proof
unfolding nullifier
can_sign = record {
  session = record { passkey = passkey; public_key = key; prf_secret = 9 ∷ [] };
  unlocked = refl;
  has_implementation = refl;
  has_config_hash = refl;
  player = refl;
  signature = refl;
  data_length = refl;
  proved = refl;
}

honest : IsHonest browser options 5 9 id_hex "https://game.example" 1000 signed proof
unfolding limbs length16 base64_url_encode property sign_in_challenge
honest = record {
  app_in_field = omega arith;
  app_in_hex = omega arith;
  id_in_field = omega arith;
  id_in_hex = omega arith;
  nonce_is_hex = refl;
  nonce_length = refl;
  factory = refl;
  chain_positive = omega arith;
  chain_safe = omega arith;
  in_time = omega arith;
  parsed = client_data;
  parses = refl;
  signed = refl;
  on_vera_key = refl;
  data_hi = 0;
  data_lo = 7;
  data_hash = refl;
  rp_hi = 0;
  rp_lo = 7;
  rp_hash = refl;
  public_inputs = refl;
  proof_is_hex = refl;
}

awaited : IsAwaited browser options 1100000 5 id_hex "https://game.example" 1000
unfolding lower normalize_origin app_id_from_origin big_int
awaited = record {
  chain_id = refl;
  factory = refl;
  same_origin = refl;
  app = refl;
  same_nonce = refl;
  not_late = omega arith;
  not_early = omega arith;
  long_enough = omega arith;
}

backed :
    IsBacked node options
      (sign_in_statement browser 5 9 id_hex "https://game.example" 1000)
      (account_address_of functions "0xfa" "0xaa" "0xcc" 5 9)
      "0x22"
      proof.public_inputs
unfolding lower account_address_of
backed = record {
  on_chain = λ h. refl;
  locally = λ h. cc;
  verified = λ h. cc;
  account = "0xAC";
  derived = refl;
  claims = refl;
  code = none;
  read = refl;
  owner = λ h. cc;
}

verify_sign_in-prove_sign_in_example :
    (r : SignInResult) × ((prove_sign_in browser 5 id_hex "https://game.example"
        (some 1000)
        client).result
      ≡ done r)
    × ((verify_sign_in functions node options 1100000 (result_value r)).valid ≡ true)
verify_sign_in-prove_sign_in_example =
    verify_sign_in-prove_sign_in browser client node options 1100000 5 9 id_hex
      "https://game.example" (some 1000) "0xaa" "0xcc" signed proof documented can_sign honest
      awaited backed
