-- ===== src/Sdk.antt =====
-- The SDK, packages/sdk/src: the store, the payments, sign-ins and sessions of its server kit and what verifies them, the
-- popup protocol, the session in the page, disclosures, and the client with its passkeys.
pub mod MemoryStore
pub mod Values
pub mod Connect
pub mod Session
pub mod Payment
pub mod Sessions
pub mod SignIn
pub mod Viem
pub mod Bytes
pub mod Verify
pub mod Passkeys
pub mod Actions
pub mod Client
pub mod Disclosure
