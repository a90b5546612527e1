-- ===== src/Server/Relayer/Faucet.antt =====
-- server/relayer.ts: faucet. `before_grant` is the callback's answer: it may refuse just before sending.
pub mod Laws
pub mod Grants
use vera_key.Prelude.{
  ℕ, ◌≡◌, String, Bool, true, false, not, ◌&&◌, ◌||◌, List, [], ◌∷◌, Option, none, some, ltb,
  if◌then◌else◌,
}
use vera_key.Prelude.Text.{pos, lower}
use vera_key.Collections.Set
use vera_key.Server.Relayer.{
  Failure, refused, crashed, Outcome, ok, failed, Value, int, hex, Call, Node, Context, Relayer, M,
  next, ◌>>=◌, ◌>>◌, return, lift, refuse, read,
}
use vera_key.Server.Relayer.Arguments.{Json, text}
use vera_key.Server.Relayer.Submit.{assert_our_account, spend_gas, submit}

abbrev pub invalid_account : Outcome String
invalid_account = failed (refused 400 "Invalid account." none)

unfoldable pub check_account : Context → Json → Outcome String
check_account x (text account) = if x.is_address account then ok account else invalid_account
check_account x _ = invalid_account

-- The check and the reservation run with nothing in between.
unfoldable pub reserve : String → M (Unit {0})
reserve key s =
    if Set.has key s.funded || Set.has key s.granting
    then (failed (refused 409 "This account already received demo USDG." none), s)
    else (ok tt, record s { granting = Set.add key s.granting })

unfoldable pub check_treasury : Context → Outcome ℕ → Outcome (Unit {0})
check_treasury x (ok balance) =
    if ltb balance x.faucet_amount
    then failed (refused 503 "The demo faucet is out of USDG. Try again later." none)
    else ok tt
check_treasury x (failed e) = failed e

unfoldable pub has_funds : Context → Outcome (Unit {0})
unfolding check_treasury
has_funds x = if x.mintable_usdg then ok tt else check_treasury x (read x.treasury)

abbrev pub grant_call : Context → String → Call
grant_call x account = record {
  address = x.usdg;
  function_name = if x.mintable_usdg then "mint" else "transfer";
  args = hex account ∷ int (pos x.faucet_amount) ∷ [];
}

unfoldable pub grant : Context → Outcome (Unit {0}) → ℕ → M (Unit {0})
unfolding spend_gas
grant x before_grant gas = lift before_grant >> spend_gas x gas

unfoldable pub remember : String → Relayer → Relayer
remember key s = record s { funded = Set.add key s.funded }

-- `writeFileSync`, whose exception is no RelayError.
unfoldable pub write_file : Context → M (Unit {0})
write_file x s = elim x.failed_write [
  | none ↦ (ok tt, record s { faucet_file = s.funded })
  | some content ↦ (failed crashed, record s { faucet_file = content })
]

unfoldable pub release : String → Relayer → Relayer
release key s = record s { granting = Set.delete key s.granting }

-- What runs in the `try`, and its `finally`.
unfoldable pub give : Context → Outcome (Unit {0}) → String → M String
give x before_grant account = do
  lift (has_funds x)
  submit x (grant_call x account) (grant x before_grant)

unfoldable pub settle : Context → String → Outcome String × Relayer → Outcome String × Relayer
unfolding write_file
settle x key (ok hash, s) =
    let (o, t) = next (write_file x (remember key s)) (λ _. return hash) in (o, release key t)
settle x key (failed e, s) = (failed e, release key s)

unfoldable pub faucet : Context → Outcome (Unit {0}) → Json → M String
faucet x before_grant account = do
  address ← lift (check_account x account)
  lift (assert_our_account x address)
  reserve (lower address)
  λ s. settle x (lower address) (give x before_grant address s)
