-- ===== src/Sdk/Verify/Meant.antt =====
-- packages/sdk/src/signin.ts: what verifySignIn finds out without the chain.
use vera_key.Prelude.{
  ℕ, ◌+◌, ◌≤◌, ◌<◌, ◌≡◌, refl, ap, String, Bool, true, false, List, [], ◌∷◌, Option, none, some,
  arith, nat_beq, nat_beq_iff, leb→le, ltb→lt, le→leb, lt→ltb, eq_iff,
}
use vera_key.Prelude.Text.{big_int, lower}
use vera_key.Sdk.Values.{Value}
use vera_key.Sdk.Connect.{message_field}
use vera_key.Sdk.Payment.{natural}
use vera_key.Sdk.Viem.{Viem, items_of}
use vera_key.Sdk.Verify.{
  Statement, Options, Planned, run_checks, all_passed, or_else, normalize_origin,
  app_id_from_origin, sign_in_challenge,
}
use vera_key.Sdk.Verify.Offline.{
  offline, inputs_of, now_of, parsed_or_empty, client_data_of, signed_this, signed_on, commits_to,
  for_origin, for_app, same_app, for_deployment,
}

-- Each of these checks can be made, and passes.
unfoldable pub AllHold : List Planned → Type 0
AllHold [] = Unit
AllHold ((name, ok) ∷ planned) = (ok ≡ some true) × AllHold planned

pub run_checks-AllHold :
    (planned : List Planned) → all_passed (run_checks planned) ≡ true → AllHold planned
unfolding AllHold run_checks all_passed
run_checks-AllHold [] h = tt
run_checks-AllHold ((name, none) ∷ planned) h = cc
run_checks-AllHold ((name, some true) ∷ planned) h = (refl, run_checks-AllHold planned h)
run_checks-AllHold ((name, some false) ∷ planned) h = cc

pub AllHold-run_checks :
    (planned : List Planned) → AllHold planned → all_passed (run_checks planned) ≡ true
unfolding AllHold run_checks all_passed
AllHold-run_checks [] h = refl
AllHold-run_checks ((name, none) ∷ planned) h = cc
AllHold-run_checks ((name, some true) ∷ planned) (_, h) = AllHold-run_checks planned h
AllHold-run_checks ((name, some false) ∷ planned) (e, h) = cc

-- The statement is for this deployment and site, carries the nonce, is current, and the passkey signed
-- it on VeraKey; and the proof is about that signature.
pub record IsMeant (v : Viem) (o : Options) (clock : ℕ) (s : Statement) (result : Value)
    : Type 0 where
  pub chain_id : s.chain_id ≡ o.deployment.chain_id
  pub factory : lower s.factory ≡ lower o.deployment.factory
  pub origin : normalize_origin v o.origin ≡ some s.origin
  pub app : app_id_from_origin v s.origin ≡ some (natural (big_int s.app_id))
  pub nonce : lower s.nonce ≡ lower o.nonce
  pub current : now_of o clock < s.expires_at + or_else o.clock_skew_seconds 60
  pub short :
      s.expires_at
      ≤ or_else o.max_ttl_seconds 300 + or_else o.clock_skew_seconds 60 + now_of o clock
  pub signed :
      signed_this v
        (parsed_or_empty (v.parse_json (client_data_of v result)))
        (sign_in_challenge v s)
      ≡ true
  pub on_vera_key :
      signed_on o.deployment.origin (parsed_or_empty (v.parse_json (client_data_of v result)))
      ≡ true
  pub commits :
      commits_to v (items_of (message_field "publicInputs" result)) (inputs_of v o s result)
      ≡ some true

some-injective : (b : Bool) → Path (Option Bool) (some b) (some true) → b ≡ true
some-injective true e = refl
some-injective false e = cc

for_origin_sound :
    (origin : Option String) (s : Statement) → for_origin origin s ≡ true → origin ≡ some s.origin
for_origin_sound none s h = cc
for_origin_sound (some origin) s h = ground (arith, eq_iff s.origin origin)

for_origin_complete :
    (origin : Option String) (s : Statement)
    → origin ≡ some s.origin
    → Path (Option Bool) (some (for_origin origin s)) (some true)
for_origin_complete none s h = cc
for_origin_complete (some origin) s h = ap some (ground (arith, h, eq_iff s.origin origin))

same_app_sound :
    (s : Statement) (id : Option ℕ)
    → same_app s id ≡ some true
    → id ≡ some (natural (big_int s.app_id))
same_app_sound s none h = cc
same_app_sound s (some id) h = ground (
  arith,
  nat_beq_iff (natural (big_int s.app_id)) id,
  some-injective (nat_beq (natural (big_int s.app_id)) id) h,
)

same_app_complete :
    (s : Statement) (id : Option ℕ)
    → id ≡ some (natural (big_int s.app_id))
    → same_app s id ≡ some true
same_app_complete s none h = cc
same_app_complete s (some id) h = ap some (ground (arith, h))

module _ (v : Viem) (o : Options) (clock : ℕ) (s : Statement) (result : Value) where
  for_app_sound :
      (origin : Option String)
      → origin ≡ some s.origin
      → for_app v origin s ≡ some true
      → app_id_from_origin v s.origin ≡ some (natural (big_int s.app_id))
  for_app_sound none e h = cc
  for_app_sound (some origin) e h =
      let same = same_app_sound s (app_id_from_origin v origin) h in ground (arith, same, e)

  for_app_complete :
      (origin : Option String)
      → origin ≡ some s.origin
      → app_id_from_origin v s.origin ≡ some (natural (big_int s.app_id))
      → for_app v origin s ≡ some true
  for_app_complete none e h = cc
  for_app_complete (some origin) e h =
      same_app_complete s (app_id_from_origin v origin) (ground (arith, e, h))

  pub offline-IsMeant : AllHold (offline v o clock s result) → IsMeant v o clock s result
  unfolding offline AllHold
  offline-IsMeant (d, (i, (a, (n, (c, (t, (p, (w, (m, _))))))))) =
      let deployment = some-injective (for_deployment o.deployment s) d in
      let origin = for_origin_sound (normalize_origin v o.origin) s (some-injective _ i) in
      record {
        chain_id = ground (arith, deployment, nat_beq_iff s.chain_id o.deployment.chain_id);
        factory = ground (arith, deployment, eq_iff (lower s.factory) (lower o.deployment.factory));
        origin = origin;
        app = for_app_sound (normalize_origin v o.origin) origin a;
        nonce = (eq_iff (lower s.nonce) (lower o.nonce)).0 (some-injective _ n);
        current = ltb→lt _ _ (some-injective _ c);
        short = leb→le _ _ (some-injective _ t);
        signed = some-injective _ p;
        on_vera_key = some-injective _ w;
        commits = m;
      }

  pub IsMeant-offline : IsMeant v o clock s result → AllHold (offline v o clock s result)
  unfolding offline AllHold
  IsMeant-offline m = (
    ap some (
        ground (
          arith,
          m.chain_id,
          m.factory,
          nat_beq_iff s.chain_id o.deployment.chain_id,
          eq_iff (lower s.factory) (lower o.deployment.factory),
        )),
    (
      for_origin_complete (normalize_origin v o.origin) s m.origin,
      (
        for_app_complete (normalize_origin v o.origin) m.origin m.app,
        (
          ap some ((eq_iff (lower s.nonce) (lower o.nonce)).1 m.nonce),
          (
            ap some (lt→ltb _ _ m.current),
            (
              ap some (le→leb _ _ m.short),
              (ap some m.signed, (ap some m.on_vera_key, (m.commits, tt))),
            ),
          ),
        ),
      ),
    ),
  )
