-- ===== src/Paxos.antt =====
-- contrib/libpaxos: the replicated log. Each role is a module, and Node joins them.
pub mod Types
pub mod Acceptor
pub mod Learner
pub mod Coordinator
pub mod Wire
pub mod Node
pub mod Examples
