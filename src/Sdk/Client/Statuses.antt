-- ===== src/Sdk/Client/Statuses.antt =====
-- packages/sdk/src/client.ts: the order of the states that the methods tell the page.
use vera_key.Prelude.{
  ℕ, ◌≤◌, ◌<◌, ◌≡◌, ◌≢◌, refl, sym, ap, ◌∙◌, subst, String, List, [], ◌∷◌, ◌++◌, arith,
}
use vera_key.Sdk.Client.{
  Result, done, failed, threw, ProofState, idle, authenticating, proving, relaying, confirming,
  verified, rejected, Event, Client, Run, M, bind_result, ◌>>=◌, lift, VeraKeyError,
}
use vera_key.Sdk.Client.Methods.{run, settle}
use vera_key.Sdk.Client.Trace.{told, told-◌++◌}

-- How far a state is on the way; `rejected` comes after any other.
unfoldable pub rank : ProofState → ℕ
rank authenticating = 1
rank (proving t) = 2
rank (relaying ms) = 3
rank (confirming ms h) = 4
rank (verified ms h) = 5
rank idle = 5
rank (rejected e) = 6

-- Each state is further than the one before; all are beyond `low` and none is beyond `high`.
unfoldable pub Climbs : (low high : ℕ) → List ProofState → Type 0
Climbs low high [] = low ≤ high
Climbs low high (s ∷ ss) = (low < rank s) × Climbs (rank s) high ss

Climbs-low :
    (low mid high : ℕ) (ss : List ProofState) → low ≤ mid → Climbs mid high ss → Climbs low high ss
unfolding Climbs
Climbs-low low mid high [] l c = omega (arith, l, c)
Climbs-low low mid high (s ∷ ss) l (h, c) = (omega (arith, l, h), c)

pub Climbs-high :
    (low mid high : ℕ) (ss : List ProofState) → mid ≤ high → Climbs low mid ss → Climbs low high ss
unfolding Climbs
Climbs-high low mid high [] l c = omega (arith, l, c)
Climbs-high low mid high (s ∷ ss) l (h, c) = (h, Climbs-high (rank s) mid high ss l c)

pub Climbs-◌++◌ :
    (low mid high : ℕ) (ss ts : List ProofState)
    → Climbs low mid ss
    → Climbs mid high ts
    → Climbs low high (ss ++ ts)
unfolding Climbs
Climbs-◌++◌ low mid high [] ts c d = Climbs-low low mid high ts c d
Climbs-◌++◌ low mid high (s ∷ ss) ts (h, c) d = (h, Climbs-◌++◌ (rank s) mid high ss ts c d)

-- A method whose states lie in this range, whatever client it runs on.
abbrev pub Within : {A : Type 0} → (low high : ℕ) → M A → Type 0
Within low high m = (c : Client) → Climbs low high (told (m c).events)

result-Climbs :
    {A B : Type 0} (low mid high : ℕ) (f : A → M B) (r : Result A) (es : List Event) (c : Client)
    → mid ≤ high
    → Climbs low mid (told es)
    → ((a : A) → Within mid high (f a))
    → Climbs low high (told (bind_result r es c f).events)
result-Climbs low mid high f (done a) es c l h k =
    subst (Climbs low high) (sym (told-◌++◌ es (f a c).events))
      (Climbs-◌++◌ low mid high (told es) (told (f a c).events) h (k a c))
result-Climbs low mid high f (failed e) es c l h k = Climbs-high low mid high (told es) l h
result-Climbs low mid high f (threw m) es c l h k = Climbs-high low mid high (told es) l h

pub bind-Within :
    {A B : Type 0} (low mid high : ℕ) (m : M A) (f : A → M B)
    → mid ≤ high
    → Within low mid m
    → ((a : A) → Within mid high (f a))
    → Within low high (◌>>=◌ m f)
bind-Within low mid high m f l h k c =
    result-Climbs low mid high f (m c).result (m c).events (m c).client l (h c) k

pub lift-Within : {A : Type 0} (low high : ℕ) (r : Result A) → low ≤ high → Within low high (lift r)
unfolding told Climbs
lift-Within low high r l c = l

-- The last of the states.
abbrev pub EndsWith : ProofState → List ProofState → Type 0
EndsWith s ss = (front : List ProofState) × (ss ≡ front ++ (s ∷ []))

-- What `run` tells: its states climb, an error is told last, and without one nothing is rejected; no other
-- exception leaves it.
pub record IsTold {A : Type 0} (r : Run A) : Type 0 where
  pub climbs : Climbs 0 6 (told r.events)
  pub tells_error : (e : VeraKeyError) → r.result ≡ failed e → EndsWith (rejected e) (told r.events)
  pub tells_success : (a : A) → r.result ≡ done a → Climbs 0 5 (told r.events)
  pub throws_no_other : (m : String) → r.result ≢ threw m

failed-injective : {A : Type 0} (e f : VeraKeyError) → Path (Result A) (failed e) (failed f) → e ≡ f
failed-injective e f h = ground (arith, h)

settle-IsTold :
    {A : Type 0} (r : Run A) (result : Result A)
    → r.result ≡ result
    → Climbs 0 5 (told r.events)
    → IsTold (settle r result)
unfolding Climbs told rank
settle-IsTold r (done a) same h = record {
  climbs = Climbs-high 0 5 6 (told r.events) (omega arith) h;
  tells_error = λ e x. absurd cc;
  tells_success = λ b x. h;
  throws_no_other = λ m x. absurd cc;
}
settle-IsTold r (failed e) same h = record {
  climbs =
      subst (Climbs 0 6) (sym (told-◌++◌ r.events _))
        (Climbs-◌++◌ 0 5 6 (told r.events) _ h (omega arith, omega arith));
  tells_error = λ e' x. (
    told r.events,
    told-◌++◌ r.events _ ∙ ap (λ z. told r.events ++ (rejected z ∷ [])) (failed-injective _ e' x),
  );
  tells_success = λ b x. absurd cc;
  throws_no_other = λ m x. absurd cc;
}
settle-IsTold r (threw m) same h = record {
  climbs =
      subst (Climbs 0 6) (sym (told-◌++◌ r.events _))
        (Climbs-◌++◌ 0 5 6 (told r.events) _ h (omega arith, omega arith));
  tells_error = λ e' x. (
    told r.events,
    told-◌++◌ r.events _ ∙ ap (λ z. told r.events ++ (rejected z ∷ [])) (failed-injective _ e' x),
  );
  tells_success = λ b x. absurd cc;
  throws_no_other = λ n x. absurd cc;
}

pub run-IsTold : {A : Type 0} (job : M A) → Within 0 5 job → (c : Client) → IsTold (run job c)
unfolding run
run-IsTold job h c = settle-IsTold (job c) (job c).result refl (h c)
