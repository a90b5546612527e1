-- ===== src/Sdk/Disclosure/Consent.antt =====
-- packages/sdk/src/disclosure.ts: what the checks of verifyDisclosure say, when they pass.
use vera_key.Prelude.{
  ℕ, ◌+◌, ◌≤◌, ◌<◌, ◌≡◌, ◌≢◌, refl, sym, ap, ◌∙◌, subst, String, Bool, true, false, ◌&&◌, ◌||◌,
  List, [], ◌∷◌, ◌++◌, Option, none, some, arith, leb, ltb, leb→le, ltb→lt, eq_iff,
}
use vera_key.Prelude.Text.{lower}
use vera_key.Sdk.Values.{Value}
use vera_key.Sdk.Connect.{message_field}
use vera_key.Sdk.Viem.{Viem, items_of}
use vera_key.Sdk.Verify.{SignInCheck, Planned, all_passed, or_else}
use vera_key.Sdk.Verify.Offline.{signed_on}
use vera_key.Sdk.Verify.Chain.{made, or_false}
use vera_key.Sdk.Verify.Meant.{AllHold}
use vera_key.Sdk.Verify.Backed.{all_passed-◌++◌}
use vera_key.Sdk.Disclosure.{
  LinkOptions, link_statement_of, for_audience, expiry_of, passes, challenge_of, signed_statement,
  link_commits_to, link_inputs,
}
use vera_key.Sdk.Disclosure.Checks.{
  add_check, collect, nonce_check, link_now, parsed_client_data, for_factory, link_offline,
  link_verifiers, configured,
}

-- The statement is for this deployment and audience, names two apps, carries the nonce that was asked for, is current,
-- and the passkey signed it on VeraKey; and the proof is about that signature.
pub record IsConsented (v : Viem) (o : LinkOptions) (clock : ℕ) (s pkg : Value) : Type 0 where
  pub deployment : for_factory o s ≡ true
  pub two_apps : lower (link_statement_of s).app_id_a ≢ lower (link_statement_of s).app_id_b
  pub audience : for_audience (message_field "audience" s) o.audience ≡ true
  pub nonce :
      (asked : String) → o.nonce ≡ some asked → lower (link_statement_of s).nonce ≡ lower asked
  pub expiry : ℕ
  pub expires : expiry_of o (message_field "expiresAt" s) ≡ some expiry
  pub current : link_now o clock < expiry
  pub short : expiry ≤ or_else o.max_ttl_seconds 604800 + link_now o clock
  pub signed : signed_statement v (parsed_client_data v pkg) (challenge_of v o s) ≡ some true
  pub on_vera_key : signed_on o.origin (parsed_client_data v pkg) ≡ true
  pub commits :
      link_commits_to o (items_of (message_field "publicInputs" pkg)) (link_inputs v o s pkg)
      ≡ some true

-- A verifier is configured, and each one accepts the proof.
pub record IsProven (o : LinkOptions) (proof : String) (inputs : List String) : Type 0 where
  pub on_chain : o.has_link_verifier ≡ true → o.verifies proof inputs ≡ some true
  pub locally : o.has_link_prover ≡ true → o.proves proof inputs ≡ some true
  pub by_one : (o.has_link_verifier || o.has_link_prover) ≡ true

added :
    (name : String) (ok : Bool) (rest : Option (List SignInCheck)) (checks : List SignInCheck)
    → add_check (made name ok) rest ≡ some checks
    → all_passed checks ≡ true
    → (ok ≡ true) × (cs : List SignInCheck) × (rest ≡ some cs) × (all_passed cs ≡ true)
unfolding all_passed
added name ok none checks c h = cc
added name ok (some cs) checks c h =
    let same : (made name ok ∷ cs) ≡ checks = ground (arith, c) in
    let all : (ok && all_passed cs) ≡ true = ap all_passed same ∙ h in
    (ground (arith, all), cs, refl, ground (arith, all))

pub collect-AllHold :
    (planned : List Planned) (checks : List SignInCheck)
    → collect planned ≡ some checks
    → all_passed checks ≡ true
    → AllHold planned
unfolding collect AllHold all_passed
collect-AllHold [] checks c h = tt
collect-AllHold ((name, none) ∷ planned) checks c h = cc
collect-AllHold ((name, some ok) ∷ planned) checks c h =
    let (y, cs, e, g) = added name ok (collect planned) checks c h in
    (ap some y, collect-AllHold planned cs e g)

pub AllHold-◌++◌ : (ps qs : List Planned) → AllHold (ps ++ qs) → AllHold ps × AllHold qs
unfolding AllHold
AllHold-◌++◌ [] qs h = (tt, h)
AllHold-◌++◌ ((name, ok) ∷ ps) qs (e, h) = let (a, b) = AllHold-◌++◌ ps qs h in ((e, a), b)

some-injective : (b : Bool) → Path (Option Bool) (some b) (some true) → b ≡ true
some-injective true e = refl
some-injective false e = cc

passes-holds :
    (test : ℕ → Bool) (e : Option ℕ)
    → passes test e ≡ some true
    → (n : ℕ) × (e ≡ some n) × (test n ≡ true)
passes-holds test none h = cc
passes-holds test (some n) h = (n, refl, some-injective (test n) h)

nonce-holds :
    (asked : Option String) (nonce : String)
    → AllHold (nonce_check asked nonce)
    → (a : String) → asked ≡ some a
    → lower nonce ≡ lower a
unfolding AllHold
nonce-holds none nonce h a e = cc
nonce-holds (some b) nonce (h, _) a e =
    let same : b ≡ a = ground (arith, e) in
    (eq_iff (lower nonce) (lower b)).0 (some-injective _ h) ∙ ap lower same

module _ (v : Viem) (o : LinkOptions) (clock : ℕ) (s pkg : Value) where
  pub offline-IsConsented : AllHold (link_offline v o clock s pkg) → IsConsented v o clock s pkg
  unfolding link_offline AllHold
  offline-IsConsented (d, (t, (a, rest))) =
      let (n, (e, (l, (p, (w, (m, _)))))) =
        AllHold-◌++◌ (nonce_check o.nonce (link_statement_of s).nonce) _ rest in
      let (expiry, expires, current) =
        passes-holds (λ x. ltb (link_now o clock) x) (expiry_of o (message_field "expiresAt" s))
          e in
      let (expiry', expires', short) =
        passes-holds (λ x. leb x (or_else o.max_ttl_seconds 604800 + link_now o clock))
          (expiry_of o (message_field "expiresAt" s)) l in
      let same : expiry' ≡ expiry = ground (arith, sym expires' ∙ expires) in
      record {
        deployment = some-injective _ d;
        two_apps = λ x.
            (let differ = some-injective _ t in
              ground (
                arith,
                differ,
                x,
                eq_iff (lower (link_statement_of s).app_id_a)
                    (lower (link_statement_of s).app_id_b),
              ));
        audience = some-injective _ a;
        nonce = nonce-holds o.nonce (link_statement_of s).nonce n;
        expiry = expiry;
        expires = expires;
        current = ltb→lt _ _ current;
        short =
            subst (λ x. x ≤ or_else o.max_ttl_seconds 604800 + link_now o clock) same
              (leb→le _ _ short);
        signed = p;
        on_vera_key = some-injective _ w;
        commits = m;
      }

or_false-holds :
    (b : Option Bool) → Path (Option Bool) (some (or_false b)) (some true) → b ≡ some true
or_false-holds none h = cc
or_false-holds (some b) h = h

-- What the configured checks, when they hold, say.
record AreHeld (verifier prover : Bool) (on_chain locally : Option Bool) : Type 0 where
  pub on_chain_held : verifier ≡ true → on_chain ≡ some true
  pub locally_held : prover ≡ true → locally ≡ some true
  pub one : (verifier || prover) ≡ true

configured-AreHeld :
    (verifier prover : Bool) (on_chain locally : Option Bool)
    → AllHold (configured verifier prover (or_false on_chain) (or_false locally))
    → AreHeld verifier prover on_chain locally
unfolding AllHold
configured-AreHeld true true c l (h, (k, _)) = record {
  on_chain_held = λ e. or_false-holds c h;
  locally_held = λ e. or_false-holds l k;
  one = refl;
}
configured-AreHeld true false c l (h, _) = record {
  on_chain_held = λ e. or_false-holds c h;
  locally_held = λ e. cc;
  one = refl;
}
configured-AreHeld false true c l (h, _) = record {
  on_chain_held = λ e. cc;
  locally_held = λ e. or_false-holds l h;
  one = refl;
}
configured-AreHeld false false c l (h, _) = cc

pub verifiers-IsProven :
    (o : LinkOptions) (proof : String) (inputs : List String)
    → AllHold (link_verifiers o proof inputs)
    → IsProven o proof inputs
unfolding link_verifiers
verifiers-IsProven o proof inputs h =
    let a =
      configured-AreHeld o.has_link_verifier o.has_link_prover (o.verifies proof inputs)
        (o.proves proof inputs) h in
    record { on_chain = a.on_chain_held; locally = a.locally_held; by_one = a.one }
