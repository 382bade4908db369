-- ===== src/Node.antt =====
-- The node around the pallet: its chain specifications and its RPC.
pub mod ChainSpec
pub mod Rpc
pub mod Service
pub mod Command
pub mod Signing
pub mod Benchmarking
pub mod Tests
