-- ===== src/Airline.antt =====
-- contrib/airlineimpl: one replica of an airline's server.
pub mod Types
pub mod Participant
pub mod Server
pub mod Command
pub mod Rpc
pub mod Examples
pub mod CallExamples
