-- ===== src/Sdk/Bytes/Tests.antt =====
-- packages/sdk/src/bytes.ts: toFieldHex at concrete numbers.
use vera_key.Prelude.{◌^◌, ◌<◌, ◌≡◌, refl, some, arith}
use vera_key.Prelude.Text.{big_int, pos}
use vera_key.Sdk.Values.{length16}
use vera_key.Sdk.Bytes.{to_field_hex}
use vera_key.Sdk.Bytes.Fields.{big_int-to_field_hex}

to_field_hex_2748 :
    to_field_hex 2748 ≡ "0x0000000000000000000000000000000000000000000000000000000000000abc"
unfolding to_field_hex
to_field_hex_2748 = refl

below : 2748 < 16 ^ 64
below = omega arith

big_int-to_field_hex_example :
    (big_int (to_field_hex 2748) ≡ some (pos 2748)) × (length16 (to_field_hex 2748) ≡ 66)
big_int-to_field_hex_example = big_int-to_field_hex 2748 below
