-- ===== src/Server.antt =====
-- dia-batching-server: the conversion of quotations, the storage, the updater and the HTTP handler.
pub mod Decimal
pub mod Types
pub mod Convert
pub mod Storage
pub mod Handlers
pub mod Updater
pub mod Args
pub mod Main
pub mod Mock
pub mod Dia
pub mod Tests
