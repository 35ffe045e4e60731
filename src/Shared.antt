-- ===== src/Shared.antt =====
-- packages/shared/src: what every package uses.
pub mod Errors
pub mod Money
pub mod Types
pub mod Trust
pub mod X402
pub mod Json
pub mod NetGuard
pub mod HttpUrl
pub mod Url
