-- ===== src/Daemon.antt =====
-- internal/daemon: the scheduler's runtime.
pub mod Policy
pub mod Loop
pub mod Completion
pub mod Executor
pub mod Dispatcher
pub mod State
pub mod Control
pub mod Server
