-- ===== src/Middleware.antt =====
-- packages/middleware/src: the gateway that sells calls of an upstream for on-chain payments.
pub mod InvoiceStore
pub mod FileInvoiceStore
pub mod AttestationQueue
pub mod ServiceCache
pub mod UpstreamStore
pub mod Paywall
pub mod SelfMap
pub mod FileAttestationQueue
pub mod Attester
pub mod AttestationErrors
pub mod Proxy
