-- ===== src/Sdk/Client/Trace.antt =====
-- packages/sdk/src/client.ts: what a method's events say of it, one step after the other.
use vera_key.Prelude.{◌≡◌, refl, sym, ap, ◌∙◌, subst, List, [], ◌∷◌, ◌++◌}
use vera_key.Sdk.Client.{
  Result, done, failed, threw, ProofState, Ceremony, Event, emits, asks, relays, Client, M,
  bind_result, ◌>>=◌,
}

-- The ceremonies that are asked for, in order.
unfoldable pub asked : List Event → List Ceremony
asked [] = []
asked (emits s ∷ es) = asked es
asked (asks c ∷ es) = c ∷ asked es
asked (relays a f xs ∷ es) = asked es

-- The states that are told to the page, in order.
unfoldable pub told : List Event → List ProofState
told [] = []
told (emits s ∷ es) = s ∷ told es
told (asks c ∷ es) = told es
told (relays a f xs ∷ es) = told es

pub asked-◌++◌ : (es fs : List Event) → asked (es ++ fs) ≡ asked es ++ asked fs
unfolding asked
asked-◌++◌ [] fs = refl
asked-◌++◌ (emits s ∷ es) fs = asked-◌++◌ es fs
asked-◌++◌ (asks c ∷ es) fs = ap (λ cs. c ∷ cs) (asked-◌++◌ es fs)
asked-◌++◌ (relays a f xs ∷ es) fs = asked-◌++◌ es fs

pub told-◌++◌ : (es fs : List Event) → told (es ++ fs) ≡ told es ++ told fs
unfolding told
told-◌++◌ [] fs = refl
told-◌++◌ (emits s ∷ es) fs = ap (λ ss. s ∷ ss) (told-◌++◌ es fs)
told-◌++◌ (asks c ∷ es) fs = told-◌++◌ es fs
told-◌++◌ (relays a f xs ∷ es) fs = told-◌++◌ es fs

append_nil : {A : Type 0} (xs : List A) → xs ++ [] ≡ xs
append_nil [] = refl
append_nil (x ∷ xs) = ap (λ ys. x ∷ ys) (append_nil xs)

module _ {A B : Type 0} (f : A → M B) (P : List Ceremony → Type 0) where
  result-asks :
      (r : Result A) (es : List Event) (c : Client)
      → asked es ≡ []
      → P []
      → ((a : A) → r ≡ done a → P (asked (f a c).events))
      → P (asked (bind_result r es c f).events)
  result-asks (done a) es c e n k =
      subst P (sym (asked-◌++◌ es (f a c).events ∙ ap (λ cs. cs ++ asked (f a c).events) e))
        (k a refl)
  result-asks (failed x) es c e n k = subst P (sym e) n
  result-asks (threw m) es c e n k = subst P (sym e) n

-- A step that asks nothing, and what follows it.
pub bind-asks :
    {A B : Type 0} (m : M A) (f : A → M B) (c : Client) (P : List Ceremony → Type 0)
    → asked (m c).events ≡ []
    → P []
    → ((a : A) → (m c).result ≡ done a → P (asked (f a (m c).client).events))
    → P (asked (◌>>=◌ m f c).events)
bind-asks m f c P e n k = result-asks f P (m c).result (m c).events (m c).client e n k

-- A step after which nothing is asked.
result-asks_first :
    {A B : Type 0} (f : A → M B) (r : Result A) (es : List Event) (c : Client)
    → ((a : A) (d : Client) → asked (f a d).events ≡ [])
    → asked (bind_result r es c f).events ≡ asked es
result-asks_first f (done a) es c q =
    asked-◌++◌ es (f a c).events ∙ ap (λ cs. asked es ++ cs) (q a c) ∙ append_nil (asked es)
result-asks_first f (failed x) es c q = refl
result-asks_first f (threw m) es c q = refl

pub bind-asks_first :
    {A B : Type 0} (m : M A) (f : A → M B) (c : Client)
    → ((a : A) (d : Client) → asked (f a d).events ≡ [])
    → asked (◌>>=◌ m f c).events ≡ asked (m c).events
bind-asks_first m f c q = result-asks_first f (m c).result (m c).events (m c).client q

-- Steps that ask nothing.
pub bind-quiet :
    {A B : Type 0} (m : M A) (f : A → M B) (c : Client)
    → asked (m c).events ≡ []
    → ((a : A) (d : Client) → asked (f a d).events ≡ [])
    → asked (◌>>=◌ m f c).events ≡ []
bind-quiet m f c e q = bind-asks_first m f c q ∙ e
