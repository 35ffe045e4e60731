-- ===== src/Lib.antt =====
-- A verification library for AgentGate, a payment gateway: sellers register services on the 0G
-- chain, buyers pay each call through the PaymentRouter contract and present the payment, and
-- the gateway verifies it, forwards the call and attests what happened.
--
-- The parts, and the files that model them:
--   * Prelude: lists, texts, decimals and JavaScript maps over the native numbers.
--   * Shared (packages/shared/src): Money (money.ts), Trust (trust.ts), Types (types.ts), Errors
--     (errors.ts), X402 (x402.ts), NetGuard and HttpUrl (net-guard.ts), Url (url.ts), Json (what
--     JSON.parse gives).
--   * Chain (packages/chain/src): Address (address.ts); of live-0g.ts Live (verifyTransfer),
--     Catalog (getService, listServices), Nonces (sendTx), Session (the client's state, its
--     wallet, settled), Requests and Writes (registerService, recordAttestation, setActive,
--     transfer); Receipt (receipt.ts), Identity (deployment-shape.ts and checkChainIdentity), Mock
--     (mock.ts). A write takes the session's state, sends through Nonces and waits through
--     Receipt.
--   * Middleware (packages/middleware/src): InvoiceStore and FileInvoiceStore (invoice-store.ts,
--     invoice-store-file.ts), AttestationQueue, AttestationErrors and FileAttestationQueue
--     (attestation-queue.ts, attestation-queue-file.ts), ServiceCache (service-cache.ts),
--     UpstreamStore (upstream-store.ts), Proxy (proxy.ts), and of app.ts Paywall (the handler of
--     /svc/:id), Attester (runAttestation and the replay at the boot) and SelfMap (the calls that
--     map a service's upstream). Paywall.Admission holds the checks, Paywall.Handler the burn of
--     the invoice, the proxied call and the answer; both use the stores as the code does.
--     Paywall.Inflight lets handlers run together.
--   * Client (packages/client/src/index.ts): Invoice (parsePaymentRequired and the guards) and
--     Fetch (fetchPaid).
--   * BuyerAgent (packages/buyer-agent/src/index.ts): runBuyerAgent, over the client.
--   * Devnet (packages/devnet/src/state.ts): the mock chain's accounts, payments and registry.
--   * Tests: the theorems at concrete inputs.
--
-- Conventions. A text is the list of its code units. An object's mutable fields are a record that
-- the operations take and give back; a thrown error is a value. `Date.now()` is an argument, one
-- for all readings of a call. The node, DNS, URL parsing, `JSON.parse`, the recovery of a signer,
-- the hash function, the language model and the upstream are parameters. Subtractions of times are
-- carried over to the other side of the comparison. Loops are structural but for three on fuel:
-- the wait for a receipt and the agent's wait for an attestation, whose attempts are an argument and
-- which answer nothing when that is too small (a number of sleeps that adds up to the timeout is
-- enough for the first), and runAttestation, with one more than the attempts that it may make,
-- which is enough. The retries of the buyer's loop are counted down from the source's bound of five.
--
-- Not modelled: the lock file of the invoice store, the reads of scores and the activity scan of
-- the live client, the HTTP layer around the handlers and the devnet, configuration,
-- logging, the command line, the dashboard, the contracts.
pub mod Prelude
pub mod Shared
pub mod Chain
pub mod Middleware
pub mod Client
pub mod BuyerAgent
pub mod Devnet
pub mod Tests
