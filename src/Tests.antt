-- ===== src/Tests.antt =====
-- The theorems at concrete inputs.
mod Values
mod Queues
mod Gateway
mod Buyer
mod Catalog
mod Proxy
mod Agent
mod MockChain
mod Sending
mod Replay
mod Verdicts
