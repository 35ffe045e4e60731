-- ===== src/Chain.antt =====
-- packages/chain/src: the clients of the chain.
pub mod Address
pub mod Live
pub mod Receipt
pub mod Nonces
pub mod Identity
pub mod Session
pub mod Requests
pub mod Writes
pub mod Catalog
pub mod Mock
