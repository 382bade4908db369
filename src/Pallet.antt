-- ===== src/Pallet.antt =====
-- The pallet of pallets/dia-oracle: its types, its storage, its calls and its offchain worker.
pub mod Types
pub mod Config
pub mod Calls
pub mod Oracle
pub mod Genesis
pub mod Worker
pub mod Mock
pub mod Weights
pub mod Benchmarking
pub mod Price
mod Tests
