-- ===== src/Supervisor.antt =====
-- app/supervisor.go: the retries of failed cameras, the reconciliation of what should run with what
-- runs, and the names of network namespaces.
pub mod Retries
pub mod Attempts
pub mod Reconcile
pub mod Converging
pub mod Control
pub mod Session
pub mod Names
pub mod Reserved
