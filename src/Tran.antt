-- ===== src/Tran.antt =====
-- contrib/tranlayer: the coordinator of two-phase commit.
pub mod Types
pub mod Layer
pub mod Examples
