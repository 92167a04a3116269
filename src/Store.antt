-- ===== src/Store.antt =====
-- The storage layer: contrib/libstore and contrib/storageimpl.
pub mod Client
pub mod Rpc
pub mod Registry
pub mod Timers
pub mod Server
pub mod Buffer
pub mod HashList
pub mod Routing
pub mod Examples
pub mod ServerExamples
pub mod TimerExamples
pub mod ClientExamples
