-- ===== src/Sdk/Bytes/Digits.antt =====
-- packages/sdk/src/bytes.ts: the sixteen digits of toString(16).
use Prim.Native.Char.{code}
use vera_key.Prelude.{ℕ, zero, suc, ◌<◌, ◌≡◌, refl, true, false, arith, ltb}
use vera_key.Prelude.Text.{is_white, digit_value}
use vera_key.Sdk.Bytes.{hex_digit}

-- A hexadecimal digit's code: its value, and that it is one UTF-16 unit and no white space.
pub record ReadsBack (d : ℕ) : Type 0 where
  pub value : digit_value (code (hex_digit d)) ≡ d
  pub plain : is_white (code (hex_digit d)) ≡ false
  pub single : ltb (code (hex_digit d)) 0x10000 ≡ true

pub hex_digit-ReadsBack : (d : ℕ) → d < 16 → ReadsBack d
unfolding digit_value is_white
hex_digit-ReadsBack zero h = record { value = refl; plain = refl; single = refl }
hex_digit-ReadsBack (suc zero) h = record { value = refl; plain = refl; single = refl }
hex_digit-ReadsBack (suc (suc zero)) h = record { value = refl; plain = refl; single = refl }
hex_digit-ReadsBack (suc (suc (suc zero))) h = record { value = refl; plain = refl; single = refl }
hex_digit-ReadsBack (suc (suc (suc (suc zero)))) h = record {
  value = refl;
  plain = refl;
  single = refl;
}
hex_digit-ReadsBack (suc (suc (suc (suc (suc zero))))) h = record {
  value = refl;
  plain = refl;
  single = refl;
}
hex_digit-ReadsBack (suc (suc (suc (suc (suc (suc zero)))))) h = record {
  value = refl;
  plain = refl;
  single = refl;
}
hex_digit-ReadsBack (suc (suc (suc (suc (suc (suc (suc zero))))))) h = record {
  value = refl;
  plain = refl;
  single = refl;
}
hex_digit-ReadsBack (suc (suc (suc (suc (suc (suc (suc (suc zero)))))))) h = record {
  value = refl;
  plain = refl;
  single = refl;
}
hex_digit-ReadsBack (suc (suc (suc (suc (suc (suc (suc (suc (suc zero))))))))) h = record {
  value = refl;
  plain = refl;
  single = refl;
}
hex_digit-ReadsBack (suc (suc (suc (suc (suc (suc (suc (suc (suc (suc zero)))))))))) h = record {
  value = refl;
  plain = refl;
  single = refl;
}
hex_digit-ReadsBack (suc (suc (suc (suc (suc (suc (suc (suc (suc (suc (suc zero))))))))))) h =
    record { value = refl; plain = refl; single = refl }
hex_digit-ReadsBack (suc (suc (suc (suc (suc (suc (suc (suc (suc (suc (suc (suc zero)))))))))))) h =
    record { value = refl; plain = refl; single = refl }
hex_digit-ReadsBack
      (suc (suc (suc (suc (suc (suc (suc (suc (suc (suc (suc (suc (suc zero))))))))))))) h =
    record { value = refl; plain = refl; single = refl }
hex_digit-ReadsBack
      (suc (suc (suc (suc (suc (suc (suc (suc (suc (suc (suc (suc (suc (suc zero)))))))))))))) h =
    record { value = refl; plain = refl; single = refl }
hex_digit-ReadsBack
      (suc (suc (suc (suc (suc (suc (suc (suc (suc (suc (suc (suc (suc (suc (suc zero)))))))))))))))
      h =
    record { value = refl; plain = refl; single = refl }
hex_digit-ReadsBack
      (suc
        (suc (suc (suc (suc (suc (suc (suc (suc (suc (suc (suc (suc (suc (suc (suc n))))))))))))))))
      h =
    absurd (omega (arith, h))
