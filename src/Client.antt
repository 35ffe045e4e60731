-- ===== src/Client.antt =====
-- packages/client/src/index.ts: the buyer's side of a paid call.
pub mod Invoice
pub mod Fetch
pub mod Offer
pub mod Vetting
pub mod Payment
pub mod Proofs
