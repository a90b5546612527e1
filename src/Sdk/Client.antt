-- ===== src/Sdk/Client.antt =====
-- packages/sdk/src/client.ts: the client's state, its errors and the states that it tells a page.
-- What the browser, the node, the relayer and the prover answer is a parameter.
pub mod Outside
pub mod Authorize
pub mod Methods
pub mod Unlock
pub mod Kept
pub mod Unlocked
pub mod Trace
pub mod Able
pub mod Asking
pub mod Statuses
pub mod Proofs
pub mod Honest
pub mod Signing
pub mod Accepted
pub mod Telling
pub mod Told
mod Examples
mod Tests
use vera_key.Prelude.{
  ℕ, String, Bool, true, false, ◌||◌, List, [], ◌∷◌, ◌++◌, Option, none, some, ◌==◌, nat_beq,
  if◌then◌else◌,
}
use vera_key.Sdk.Passkeys.{PublicKey, StoredPasskey, LocalState}

pub data RejectionStage : Type 0 where
  funds authentication device proof policy relay : RejectionStage

pub record VeraKeyError : Type 0 where
  pub stage : RejectionStage
  pub message : String
  pub revert : Option String

-- `threw` is any other exception, with its message.
pub data Result (A : Type 0) : Type 0 where
  done : A → Result A
  failed : VeraKeyError → Result A
  threw : String → Result A

pub record Session : Type 0 where
  pub passkey : StoredPasskey
  pub public_key : PublicKey
  pub prf_secret : List ℕ

-- The states that the client emits. A verified state's receipt and its count of the public key are left out.
pub data ProofState : Type 0 where
  idle : ProofState
  authenticating : ProofState
  proving : (started_at : ℕ) → ProofState
  relaying : (proving_ms : ℕ) → ProofState
  confirming : (proving_ms : ℕ) (hash : String) → ProofState
  verified : (proving_ms : ℕ) (hash : String) → ProofState
  rejected : VeraKeyError → ProofState

-- An argument of a relayed call: a BigInt or a number, or a text.
pub data Argument : Type 0 where
  int : ℕ → Argument
  hex : String → Argument

-- What the passkey is asked: to unlock, to sign a random challenge, to sign a challenge, or to sign a payment
-- in the browser's sheet.
pub data Ceremony : Type 0 where
  unlocks : (credential : Option (List ℕ)) → Ceremony
  identifies : (credential : List ℕ) → Ceremony
  signs : (challenge : String) → Ceremony
  confirms : (challenge payee : String) (total : ℕ) → Ceremony

pub data Event : Type 0 where
  emits : ProofState → Event
  asks : Ceremony → Event
  relays : (account function : String) → List Argument → Event

-- The fields of a VeraKeyClient that change.
pub record Client : Type 0 where
  pub session : Option Session
  pub nullifiers : List (ℕ × ℕ)
  pub store : LocalState

-- What a method gives, what it did until then, and the client that it leaves.
pub record Run (A : Type 0) : Type 0 where
  pub result : Result A
  pub events : List Event
  pub client : Client

abbrev pub M : Type 0 → Type 0
M A = Client → Run A

abbrev pub prefix : {A : Type 0} → List Event → Run A → Run A
prefix events r = record r { events = events ++ r.events }

abbrev pub bind_result : {A B : Type 0} → Result A → List Event → Client → (A → M B) → Run B
bind_result (done a) events c f = prefix events (f a c)
bind_result (failed e) events c f = record { result = failed e; events = events; client = c }
bind_result (threw m) events c f = record { result = threw m; events = events; client = c }

infixl 5 ◌>>=◌ ◌>>◌
abbrev pub ◌>>=◌ : {A B : Type 0} → M A → (A → M B) → M B
◌>>=◌ m f c = bind_result (m c).result (m c).events (m c).client f

abbrev pub ◌>>◌ : {B : Type 0} → M (Unit {0}) → M B → M B
m >> k = m >>= λ _. k

abbrev pub lift : {A : Type 0} → Result A → M A
lift r c = record { result = r; events = []; client = c }

abbrev pub return : {A : Type 0} → A → M A
return a = lift (done a)

abbrev pub does : Event → M (Unit {0})
does e c = record { result = done tt; events = e ∷ []; client = c }

abbrev pub emit : ProofState → M (Unit {0})
emit s = does (emits s)

abbrev pub fail : {A : Type 0} → RejectionStage → String → Option String → Result A
fail stage message revert = failed (record { stage = stage; message = message; revert = revert })

unfoldable pub session_or_fail : Option Session → Result Session
session_or_fail none = fail authentication "Unlock a passkey first." none
session_or_fail (some s) = done s

unfoldable pub require_session : M Session
unfolding session_or_fail
require_session c = lift (session_or_fail c.session) c

-- What a WebAuthn call throws: PrfUnsupportedError or UnsupportedAuthenticatorError, a DOMException, or another error.
pub data CeremonyError : Type 0 where
  unsupported : (message : String) → CeremonyError
  dom_exception : (name message : String) → CeremonyError
  other_error : (message : String) → CeremonyError

abbrev pub verakey_error : RejectionStage → String → VeraKeyError
verakey_error stage message = record { stage = stage; message = message; revert = none }

abbrev pub is_dismissal : (name : String) → Bool
is_dismissal name = (name == "NotAllowedError") || (name == "AbortError")

unfoldable pub describe_webauthn_error : CeremonyError → VeraKeyError
describe_webauthn_error (unsupported message) = verakey_error device message
describe_webauthn_error (dom_exception name message) =
    if is_dismissal name
    then verakey_error authentication "Passkey confirmation was cancelled or timed out."
    else verakey_error authentication message
describe_webauthn_error (other_error message) = verakey_error authentication message

pub data Answer (A : Type 0) : Type 0 where
  given : A → Answer A
  refused : CeremonyError → Answer A

unfoldable pub answer_or_fail : {A : Type 0} → Answer A → Result A
unfolding describe_webauthn_error
answer_or_fail (given a) = done a
answer_or_fail (refused e) = failed (describe_webauthn_error e)

unfoldable pub lock : Client → Client
lock c = record c { session = none; nullifiers = [] }

unfoldable pub start_session : Session → Client → Client
start_session s c = record c { session = some s; nullifiers = [] }

unfoldable pub cached : (app_id : ℕ) → List (ℕ × ℕ) → Option ℕ
cached app_id [] = none
cached app_id ((id, value) ∷ rest) = if nat_beq id app_id then some value else cached app_id rest
