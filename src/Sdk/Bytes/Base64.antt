-- ===== src/Sdk/Bytes/Base64.antt =====
-- packages/sdk/src/bytes.ts: base64url, with the browser's btoa and atob.
use Prim.Native.Char.{Char, code}
use Prim.Native.String.{String, [], ◌∷◌, char_at}
use vera_key.Prelude.{
  leb, ◌&&◌, ◌||◌, Option, none, some, ◌-◌, ℕ, ◌+◌, ◌*◌, ◌/◌, ◌%◌, List, [], ◌∷◌, nat_beq,
  if◌then◌else◌,
}

-- The character of six bits.
unfoldable pub sextet : ℕ → Char
sextet n = char_at "ABCDEFGHIJKLMNOPQRSTUVWXYZabcdefghijklmnopqrstuvwxyz0123456789+/" n

-- `btoa(binary)`
unfoldable pub btoa : List ℕ → String
unfolding sextet
btoa List.[] = ""
btoa (List.◌∷◌ a List.[]) = sextet (a / 4) ∷ sextet (a % 4 * 16) ∷ "=="
btoa (List.◌∷◌ a (List.◌∷◌ b List.[])) =
    sextet (a / 4) ∷ sextet (a % 4 * 16 + b / 16) ∷ sextet (b % 16 * 4) ∷ "="
btoa (List.◌∷◌ a (List.◌∷◌ b (List.◌∷◌ c bytes))) =
    sextet (a / 4)
    ∷ sextet (a % 4 * 16 + b / 16)
    ∷ sextet (b % 16 * 4 + c / 64)
    ∷ sextet (c % 64)
    ∷ btoa bytes

-- `.replace(/\+/g, "-").replace(/\//g, "_")`, of a character.
abbrev pub url_char : Char → Char
url_char c = if nat_beq (code c) b'+' then "-" else if nat_beq (code c) b'/' then "_" else c

abbrev pub add_unless_end : Char → String → String
add_unless_end c [] = if nat_beq (code c) b'=' then "" else c ∷ ""
add_unless_end c (d ∷ s) = c ∷ d ∷ s

-- `.replace(/=+$/, "")`
unfoldable pub without_padding : String → String
without_padding [] = ""
without_padding (c ∷ s) = add_unless_end c (without_padding s)

unfoldable pub to_url : String → String
to_url [] = ""
to_url (c ∷ s) = url_char c ∷ to_url s

-- `base64UrlEncode(bytes)`
unfoldable pub base64_url_encode : List ℕ → String
unfolding btoa to_url without_padding
base64_url_encode bytes = without_padding (to_url (btoa bytes))

-- A character's six bits, in the url's alphabet; `none` is an exception of atob.
unfoldable pub sextet_value : ℕ → Option ℕ
sextet_value c =
    if leb b'A' c && leb c b'Z'
    then some (c - b'A')
    else if leb b'a' c && leb c b'z'
    then some (c - 71)
    else if leb b'0' c && leb c b'9'
    then some (c + 4)
    else if nat_beq c b'-' || nat_beq c b'+'
    then some 62
    else if nat_beq c b'_' || nat_beq c b'/'
    then some 63
    else none

abbrev pub three_bytes :
    Option ℕ → Option ℕ → Option ℕ → Option ℕ → Option (List ℕ) → Option (List ℕ)
three_bytes (some a) (some b) (some c) (some d) (some rest) =
    some
      (List.◌∷◌ (a * 4 + b / 16) (List.◌∷◌ (b % 16 * 16 + c / 4) (List.◌∷◌ (c % 4 * 64 + d) rest)))
three_bytes _ _ _ _ _ = none

abbrev pub two_bytes : Option ℕ → Option ℕ → Option ℕ → Option (List ℕ)
two_bytes (some a) (some b) (some c) =
    some (List.◌∷◌ (a * 4 + b / 16) (List.◌∷◌ (b % 16 * 16 + c / 4) List.[]))
two_bytes _ _ _ = none

abbrev pub one_byte : Option ℕ → Option ℕ → Option (List ℕ)
one_byte (some a) (some b) = some (List.◌∷◌ (a * 4 + b / 16) List.[])
one_byte _ _ = none

-- `base64UrlDecode(value)`, which completes the padding that atob wants.
unfoldable pub base64_url_decode : String → Option (List ℕ)
unfolding sextet_value
base64_url_decode [] = some List.[]
base64_url_decode (a ∷ []) = none
base64_url_decode (a ∷ b ∷ []) = one_byte (sextet_value (code a)) (sextet_value (code b))
base64_url_decode (a ∷ b ∷ c ∷ []) =
    two_bytes (sextet_value (code a)) (sextet_value (code b)) (sextet_value (code c))
base64_url_decode (a ∷ b ∷ c ∷ d ∷ s) =
    three_bytes (sextet_value (code a)) (sextet_value (code b)) (sextet_value (code c))
      (sextet_value (code d)) (base64_url_decode s)
