-- ===== src/Server/Relayer/Faucet/Laws.antt =====
-- server/relayer.ts, faucet: who has been paid, what is reserved, and what reaches the node.
use vera_key.Prelude.{
  ℕ, ◌≡◌, ◌⊎◌, inl, inr, refl, ap, String, Bool, true, false, ◌||◌, List, none, some, Option,
  length, ltb, ◌&&◌, arith, ◌==◌, eq_iff,
}
use vera_key.Prelude.Text.{lower}
use vera_key.Collections.Set
use vera_key.Server.Relayer.{
  Node, answered, Failure, refused, Outcome, ok, failed, Call, Context, Relayer, next,
}
use vera_key.Server.Relayer.Arguments.{Json, text}
use vera_key.Server.Relayer.Submit.{assert_our_account, broadcast}
use vera_key.Server.Relayer.Submit.Laws.{submit-Cases, IsOurs, assert_our_account-IsOurs}
use vera_key.Server.Relayer.Faucet.{
  check_account, reserve, has_funds, grant_call, grant, remember, write_file, release, give, settle,
  faucet,
}

abbrev pub reserved : String → Relayer → Relayer
reserved key s = record s { granting = Set.add key s.granting }

pub record IsEligible (x : Context) (account : Json) (s : Relayer) (address : String) : Type 0 where
  pub checked : check_account x account ≡ ok address
  pub ours : IsOurs x address
  pub unpaid : (Set.has (lower address) s.funded || Set.has (lower address) s.granting) ≡ false

abbrev FaucetCases :
    Context → Outcome (Unit {0}) → Json → Relayer → Outcome String × Relayer → Type 0
FaucetCases x b account s r =
    ((e : Failure) × (r ≡ (failed e, s)))
    ⊎ ((address : String) × IsEligible x account s address
        × (r ≡ settle x (lower address) (give x b address (reserved (lower address) s))))

module _ (x : Context) (b : Outcome (Unit {0})) (account : Json) (s : Relayer) where
  by_reserve :
      (address : String) (paid : Bool)
      → check_account x account ≡ ok address
      → assert_our_account x address ≡ ok tt
      → (Set.has (lower address) s.funded || Set.has (lower address) s.granting) ≡ paid
      → FaucetCases x b account s (faucet x b account s)
  unfolding faucet reserve
  by_reserve address true c o h =
      inl (refused 409 "This account already received demo USDG." none, rw (c, o, h))
  by_reserve address false c o h = inr (
    address,
    record { checked = c; ours = assert_our_account-IsOurs x address o; unpaid = h },
    rw (c, o, h),
  )

  by_ours :
      (address : String) (o : Outcome (Unit {0}))
      → check_account x account ≡ ok address
      → assert_our_account x address ≡ o
      → FaucetCases x b account s (faucet x b account s)
  unfolding faucet
  by_ours address (ok u) c o = by_reserve address _ c o refl
  by_ours address (failed e) c o = inl (e, rw (c, o))

  by_account :
      (o : Outcome String)
      → check_account x account ≡ o
      → FaucetCases x b account s (faucet x b account s)
  unfolding faucet
  by_account (ok address) c = by_ours address (assert_our_account x address) c refl
  by_account (failed e) c = inl (e, rw c)

-- The faucet fails and changes nothing, or it reserves an account that was not paid, and settles it.
pub faucet_cases :
    (x : Context) (b : Outcome (Unit {0})) (account : Json) (s : Relayer)
    → FaucetCases x b account s (faucet x b account s)
faucet_cases x b account s = by_account x b account s (check_account x account) refl

-- The faucet's own fields.
abbrev pub faucet_fields : Relayer → List String × List String × List String
faucet_fields s = (s.funded, s.granting, s.faucet_file)

fields-grant :
    (x : Context) (call : Call) (b : Outcome (Unit {0})) (gas : ℕ) (s : Relayer)
    → faucet_fields (next (grant x b gas s) (λ _. broadcast x call)).1 ≡ faucet_fields s
unfolding grant broadcast
fields-grant x call b gas s = ground arith

-- The `try` leaves the faucet's fields to what comes after it.
pub fields-give :
    (x : Context) (b : Outcome (Unit {0})) (address : String) (s : Relayer)
    → faucet_fields (give x b address s).1 ≡ faucet_fields s
unfolding give
fields-give x b address s = by_funds (has_funds x) refl
  where
    by_funds :
        (o : Outcome (Unit {0}))
        → has_funds x ≡ o
        → faucet_fields (give x b address s).1 ≡ faucet_fields s
    by_funds (failed e) h = rw h
    by_funds (ok u) h = elim (submit-Cases x (grant_call x address) (grant x b) s) [
      | inl (e, same) ↦ rw (h, same)
      | inr (gas, ready, same) ↦ rw (h, same) (fields-grant x (grant_call x address) b gas s)
    ]

abbrev pub is_answered : {A : Type 0} → Node A → Bool
is_answered (answered a) = true
is_answered _ = false

-- The account of a request that succeeded.
abbrev pub paid_to : Outcome String → Json → String → Bool
paid_to (ok hash) (text account) j = lower account == j
paid_to _ _ j = false

-- The account of a request whose transaction the node was given, and for which it named a hash.
abbrev pub granted_to : Context → Json → Relayer → Relayer → String → Bool
granted_to x (text account) s s' j =
    lower account == j
    && ltb (length s.sent) (length s'.sent)
    && is_answered (x.write (grant_call x account))
granted_to x _ s s' j = false

abbrev pub paid_by : Outcome String → String → String → Bool
paid_by (ok hash) key j = key == j
paid_by (failed e) key j = false

pub paid_by-paid_to :
    (x : Context) (account : Json) (address : String) (o : Outcome String) (j : String)
    → check_account x account ≡ ok address
    → paid_by o (lower address) j ≡ paid_to o account j
unfolding check_account
paid_by-paid_to x (text a) address o j h = ground arith
paid_by-paid_to x _ address o j h = cc

pub granted_to_text :
    (x : Context) (account : Json) (address : String) (s s' : Relayer) (j : String)
    → check_account x account ≡ ok address
    → granted_to x account s s' j ≡ granted_to x (text address) s s' j
unfolding check_account
granted_to_text x (text a) address s s' j h =
    let same : a ≡ address = ground (arith, h) in ap (λ b. granted_to x (text b) s s' j) same
granted_to_text x _ address s s' j h = cc

abbrev pub is_writable : Option (List String) → Bool
is_writable none = true
is_writable (some content) = false

module _ (x : Context) (key j : String) where
  pub settle_lem :
      (r : Outcome String × Relayer) (s : Relayer)
      → faucet_fields r.1 ≡ faucet_fields (reserved key s)
      → Set.has key s.granting ≡ false
      → (Set.has j (settle x key r).1.funded ≡ (paid_by r.0 key j || Set.has j s.funded))
        × (Set.has j (settle x key r).1.granting ≡ Set.has j s.granting)
  unfolding settle remember release write_file
  settle_lem (ok hash, s') s e free = ground (
    arith,
    Set.has-add key j s.funded,
    Set.has-delete key j (Set.add key s.granting),
    Set.has-add key j s.granting,
    eq_iff key j,
    e,
  )
  settle_lem (failed f, s') s e free = ground (
    arith,
    Set.has-delete key j (Set.add key s.granting),
    Set.has-add key j s.granting,
    eq_iff key j,
    e,
  )

  pub paid_by-settle :
      (r : Outcome String × Relayer)
      → paid_by (settle x key r).0 key j ≡ (is_writable x.failed_write && paid_by r.0 key j)
  unfolding settle write_file
  paid_by-settle (ok hash, s) = ground arith
  paid_by-settle (failed e, s) = ground arith

  pub sent-settle : (r : Outcome String × Relayer) → (settle x key r).1.sent ≡ r.1.sent
  unfolding settle remember release write_file
  sent-settle (ok h, s) = ground arith
  sent-settle (failed e, s) = refl
