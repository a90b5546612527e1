-- ===== src/Server/Relayer/Relay/Form.antt =====
-- server/relayer.ts, relay: the requests that pass its checks on their form and their fee.
use Prim.Native.String.{count}
use vera_key.Prelude.{
  ℕ, ◌≤◌, ◌≡◌, inl, inr, refl, sym, String, Bool, true, false, not, ◌&&◌, List, [], ◌∷◌, Option,
  none, some, arith, length, ltb, nat_beq, ◌==◌, Bool-cases, starts_with,
}
use vera_key.Prelude.Text.{pos, negsuc, big_int}
use vera_key.Server.Relayer.{Outcome, ok, failed, Value, int, flag, hex, Context}
use vera_key.Server.Relayer.Abi.{RelayableFunction, relayable, Input, inputs}
use vera_key.Server.Relayer.Arguments.{
  Json, text, number, fraction, boolean, null, structure, or_crash, to_uint, to_hex, convert,
  prepend, convert_all, below,
}
use vera_key.Server.Relayer.Relay.{RelayRequest, Parsed, parsed, check_args, check_body, check_fee}

-- A converted argument is of its input's type, and a `bytes` has at most 16,384 bytes.
unfoldable pub fits_input : (String → Bool) → Input → Value → Bool
fits_input is_hex i (int n) = starts_with i.type "uint"
fits_input is_hex i (flag b) = not (starts_with i.type "uint") && i.type == "bool"
fits_input is_hex i (hex s) =
    not (starts_with i.type "uint")
    && not (i.type == "bool")
    && is_hex s
    && not (i.type == "bytes" && ltb 32770 (count s))

unfoldable pub fits : (String → Bool) → List Input → List Value → Bool
fits is_hex [] [] = true
fits is_hex (i ∷ is) (v ∷ vs) = fits_input is_hex i v && fits is_hex is vs
fits is_hex _ _ = false

module _ (is_hex : String → Bool) where
  or_crash-uint :
      (i : Input) (o : Option _) (v : Value)
      → starts_with i.type "uint" ≡ true
      → or_crash o ≡ ok v
      → fits_input is_hex i v ≡ true
  unfolding fits_input
  or_crash-uint i (some n) (int m) u h = u
  or_crash-uint i (some n) (flag b) u h = cc
  or_crash-uint i (some n) (hex s) u h = cc
  or_crash-uint i none v u h = cc

  to_uint-fits_input :
      (i : Input) (value : Json) (v : Value)
      → starts_with i.type "uint" ≡ true
      → to_uint i.name value ≡ ok v
      → fits_input is_hex i v ≡ true
  unfolding to_uint
  to_uint-fits_input i (text s) v u h = or_crash-uint i (big_int s) v u h
  to_uint-fits_input i (number n) v u h = or_crash-uint i (some n) v u h
  to_uint-fits_input i fraction v u h = cc
  to_uint-fits_input i (boolean b) v u h = cc
  to_uint-fits_input i null v u h = cc
  to_uint-fits_input i structure v u h = cc

  to_hex-fits_input :
      (i : Input) (value : Json) (v : Value)
      → starts_with i.type "uint" ≡ false
      → (i.type == "bool") ≡ false
      → to_hex is_hex i value ≡ ok v
      → fits_input is_hex i v ≡ true
  unfolding to_hex fits_input
  to_hex-fits_input i (text s) v u b h = elim (Bool-cases (is_hex s)) [
    | inl y ↦ elim (Bool-cases (i.type == "bytes" && ltb 32770 (count s))) [
      | inl z ↦ ground (arith, y, z)
      | inr z ↦ ground (arith, y, z)
    ]
    | inr n ↦ ground (arith, n)
  ]
  to_hex-fits_input i (number n) v u b h = ground arith
  to_hex-fits_input i fraction v u b h = ground arith
  to_hex-fits_input i (boolean c) v u b h = ground arith
  to_hex-fits_input i null v u b h = ground arith
  to_hex-fits_input i structure v u b h = ground arith

  convert-fits_input :
      (i : Input) (value : Json) (v : Value)
      → convert is_hex i value ≡ ok v
      → fits_input is_hex i v ≡ true
  unfolding convert fits_input
  convert-fits_input i value v h = elim (Bool-cases (starts_with i.type "uint")) [
    | inl u ↦ to_uint-fits_input i value v u (ground (arith, u))
    | inr n ↦ elim (Bool-cases (i.type == "bool")) [
      | inl b ↦ ground (arith, n, b)
      | inr b ↦ to_hex-fits_input i value v n b (ground (arith, n, b))
    ]
  ]

  prepend-fits :
      (i : Input) (is : List Input) (v : Outcome Value) (rest : Outcome (List Value))
      (vs : List Value)
      → ((w : Value) → v ≡ ok w → fits_input is_hex i w ≡ true)
      → ((ws : List Value) → rest ≡ ok ws → fits is_hex is ws ≡ true)
      → prepend is_hex v rest ≡ ok vs
      → fits is_hex (i ∷ is) vs ≡ true
  unfolding fits
  prepend-fits i is (ok v) (ok ws) [] one others h = cc
  prepend-fits i is (ok v) (ok ws) (w ∷ vs) one others h =
      ground (arith, one v refl, others ws refl, h)
  prepend-fits i is (ok v) (failed e) vs one others h = cc
  prepend-fits i is (failed e) rest vs one others h = cc

  convert_all-fits :
      (is : List Input) (values : List Json) (vs : List Value)
      → length values ≡ length is
      → convert_all is_hex is values ≡ ok vs
      → fits is_hex is vs ≡ true
  unfolding convert_all fits
  convert_all-fits [] values [] n h = refl
  convert_all-fits [] values (v ∷ vs) n h = cc
  convert_all-fits (i ∷ is) [] vs n h = absurd (omega (arith, n))
  convert_all-fits (i ∷ is) (value ∷ values) vs n h =
      prepend-fits i is (convert is_hex i value) (convert_all is_hex is values) vs
        (convert-fits_input i value) (λ ws. convert_all-fits is values ws (omega (arith, n))) h

-- The request is for an address and names a relayable function, and its arguments fit the inputs.
pub record IsFormed (x : Context) (body : Option RelayRequest) (p : Parsed) : Type 0 where
  pub request : RelayRequest
  pub given : body ≡ some request
  pub addressed : x.is_address request.account ≡ true
  pub account : p.account ≡ request.account
  pub function_name : p.function_name ≡ request.function_name
  pub function : relayable request.function_name ≡ some p.function
  pub fitting : fits x.is_hex (inputs p.function) p.args ≡ true

module _ (x : Context) (body : RelayRequest) (a : x.is_address body.account ≡ true) where
  parsed-IsFormed :
      (f : RelayableFunction) (converted : Outcome (List Value)) (p : Parsed)
      → relayable body.function_name ≡ some f
      → ((vs : List Value) → converted ≡ ok vs → fits x.is_hex (inputs f) vs ≡ true)
      → parsed body f converted ≡ ok p
      → IsFormed x (some body) p
  parsed-IsFormed f (ok vs) p named fit h =
      let made : Parsed = record {
        account = body.account;
        function = f;
        function_name = body.function_name;
        args = vs;
      } in
      let same : made ≡ p = cc in
      rw (sym same) (record {
        request = body;
        given = refl;
        addressed = a;
        account = refl;
        function_name = refl;
        function = named;
        fitting = fit vs refl;
      })
  parsed-IsFormed f (failed e) p named fit h = cc

  check_args-IsFormed :
      (f : RelayableFunction) (args : Option (List Json)) (p : Parsed)
      → relayable body.function_name ≡ some f
      → check_args x.is_hex body f args ≡ ok p
      → IsFormed x (some body) p
  unfolding check_args
  check_args-IsFormed f none p named h = cc
  check_args-IsFormed f (some args) p named h =
      elim (Bool-cases (nat_beq (length args) (length (inputs f)))) [
        | inl n ↦
            parsed-IsFormed f (convert_all x.is_hex (inputs f) args) p named
              (λ vs. convert_all-fits x.is_hex (inputs f) args vs (ground (arith, n)))
              (ground (arith, n))
        | inr n ↦ ground (arith, n)
      ]

  by_name :
      (named : Option RelayableFunction) (p : Parsed)
      → relayable body.function_name ≡ named
      → check_body x (some body) ≡ ok p
      → IsFormed x (some body) p
  unfolding check_body
  by_name none p n h = ground (arith, a, n)
  by_name (some f) p n h = check_args-IsFormed f body.args p n (ground (arith, a, n))

-- A request that passes the checks on its form is for an address, names a relayable function and has
-- one argument of the right type for each of its inputs.
pub check_body-IsFormed :
    (x : Context) (body : Option RelayRequest) (p : Parsed)
    → check_body x body ≡ ok p
    → IsFormed x body p
unfolding check_body
check_body-IsFormed x none p h = cc
check_body-IsFormed x (some body) p h = elim (Bool-cases (x.is_address body.account)) [
  | inl a ↦ by_name x body a (relayable body.function_name) p refl h
  | inr n ↦ ground (arith, n)
]

-- The fee that the request signs, if its function has one, is at least `least`.
abbrev pub IsEnough : ℕ → Option Value → Type 0
IsEnough least none = Unit
IsEnough least (some (int (pos n))) = least ≤ n
IsEnough least (some (int (negsuc n))) = ⊥
IsEnough least (some (flag b)) = Unit
IsEnough least (some (hex s)) = Unit

pub check_fee-IsEnough :
    (least : ℕ) (fee : Option Value) → check_fee least fee ≡ ok tt → IsEnough least fee
unfolding check_fee below
check_fee-IsEnough least none h = tt
check_fee-IsEnough least (some (int (pos n))) h = ground arith
check_fee-IsEnough least (some (int (negsuc n))) h = ground arith
check_fee-IsEnough least (some (flag b)) h = tt
check_fee-IsEnough least (some (hex s)) h = tt
