-- ===== src/Lib.antt =====
-- A verification library for VeraKey: the relayer's server, and the SDK that sites and the VeraKey
-- window use.
--
-- The program. A site's page opens the VeraKey window through the SDK (packages/sdk/src/connect.ts); the
-- window unlocks a passkey, signs and proves an action with the client (packages/sdk/src/client.ts) and posts
-- it to the relayer (server/), which checks it, simulates it and pays the gas; the site's server verifies
-- what came of it (packages/sdk/src/signin.ts) through the SDK's server kit (packages/sdk/src/server.ts),
-- whose store accepts each nonce and payment once. An owner can also disclose to somebody that two accounts
-- are one passkey's (packages/sdk/src/disclosure.ts).
--
-- The files, with the code that each models:
--  Server.RateLimit     server/rate-limit.ts, RateLimiter
--  Server.Relayer       server/relayer.ts: the class's state, its errors, the node's answers
--    .Abi, .Arguments   the inputs in packages/sdk/src/abi.ts and the argument conversion in relay
--    .Submit            assertOurAccount, spendGas, submit
--    .Relay             relay, defends, feeWaived
--    .Faucet            faucet
--    .Accounts          createAccount
--    .Interleaving      relay and faucet running at once, as a step relation, with the
--                       transactions that the node was given and the relayer no longer watches
--  Server.Rpc           server/index.ts: the route /api/rpc
--  Sdk.MemoryStore      packages/sdk/src/server.ts, memoryStore
--  Sdk.Payment          packages/sdk/src/server.ts: POST payment and acceptPayment
--    .Handler           the route's guards and its set of players
--    .Once              acceptPayment for requests that interleave
--  Sdk.Sessions         packages/sdk/src/server.ts: decodeSession, readSession, sign-out, owner checks
--  Sdk.SignIn           packages/sdk/src/server.ts: POST sign-in and readNonce
--  Sdk.Connect          packages/sdk/src/connect.ts: acceptRequest and parseRequest
--    .Popup             VeraKeyConnect.request, as a record that events change
--    .RoundTrip         what signIn and pay post, against parseRequest
--  Sdk.Session          packages/sdk/src/session.ts: the state, its errors, the server's answers
--    .Methods           load, signIn, signOut, pay, confirmPayment, cut at their awaits
--    .Machine           those pieces in any order, as a step relation
--    .Payments          with Sdk.Connect.Popup: the payments that the page hears of
--  Sdk.Verify           packages/sdk/src/signin.ts: the statement, its challenge and its fields
--    .Offline, .Chain   verifySignIn: the checks that need no chain, and the calls and the verdict
--    .Payments          verifyPayment, and findPayment as rounds
--    .Settled           the payment route of Sdk.Payment, with verifyPayment and findPayment
--    .SignedIn          the sign-in route of Sdk.SignIn, with verifySignIn
--  Sdk.Disclosure       packages/sdk/src/disclosure.ts: the statement and its fields
--    .Checks            verifyDisclosure
--  Sdk.Client           packages/sdk/src/client.ts: state, errors, states told; a monad over them
--    .Outside           the configuration, and the answers of browser, node, prover and relayer
--    .Unlock            register, unlock, authenticate, recoverPublicKey; prfCheck of webauthn.ts
--    .Authorize         nullifier, canConfirmPayments, authorize
--    .Methods           run, submit, ensureAccount, pay, the changes and cancellations; relay of relayer.ts
--    .Proofs            proveSignIn, createDisclosure, guardianCard; accountAddressOf of signin.ts
--    .Honest            what proveSignIn returns, as a site reads it; .Accepted, and what verifySignIn says of it
--  Sdk.Actions          packages/sdk/src/action.ts: actions, changes, their hashes and payloads
--  Sdk.Passkeys         packages/sdk/src/store.ts: LocalPasskeyStore and MemoryPasskeyStore
--  Sdk.Bytes            packages/sdk/src/bytes.ts: numbers, limbs, field texts; .Base64, base64url
--  Sdk.Viem             what the SDK takes from viem and the browser, as parameters
--  Collections          JavaScript's Map and Set with text keys
--  Prelude              shared names; Prelude.Text has toLowerCase, slice and BigInt of a text
-- Below a module, Laws and modules named for what they prove hold the theorems; Tests hold runs at
-- concrete inputs.
--
-- How the code is written here. An operation takes the state and gives its answer with the new state; an
-- exception is a failure value, with the status and text of the error. Date.now() is an argument. What a
-- request finds outside, such as the node's answers and viem's tests of texts, is a record of parameters
-- (Context, Platform, Chain). Numbers are natural numbers and times whole milliseconds; where the source
-- subtracts times, the model compares sums. In the client a method is a function of its state that gives a
-- result, the client that it leaves and the events in between: the states told, the ceremonies asked of the
-- passkey, the calls relayed.
--
-- Bounds and fuel. findPayment recurses on fuel: two rounds more than the timeout holds pauses of two
-- seconds, which is enough because each round ends at least that much after the one before. The retries of
-- acceptPayment and of the relayer's client recurse on their counts, five and ten. A decimal has at most 80
-- digits and a field text 64. All other recursion is on the data.
--
-- Left out of what is modelled: the texts that explain a failed check of a sign-in or a disclosure, the receipt
-- and the count of public keys in the client's verified state, and errors' causes.
--
-- Not modelled: the log and the random delay before sending, which change no state; the faucet's file
-- beyond the texts written to it and what a failed write leaves; the other HTTP routes; cookies and their
-- MACs; the client's reads of an account's state; the browser's calls under webauthn.ts; module accounts;
-- the web app; and the contracts and circuits, which are in other languages. The hashes, the curve and the
-- provers are third-party code, and parameters here.
pub mod Prelude
pub mod Collections
pub mod Server
pub mod Sdk
