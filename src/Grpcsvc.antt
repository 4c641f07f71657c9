-- ===== src/Grpcsvc.antt =====
-- internal/grpcsvc: the compute-driver service.
pub mod DriverConfig
pub mod Quantity
mod Fixtures
pub mod Hub
pub mod Conditions
pub mod Proto
pub mod Errors
pub mod Server
pub mod Lifecycle
pub mod Create
pub mod Delete
pub mod Reconcile
pub mod Bootstrap
pub mod Provision
pub mod System
pub mod Preflight
pub mod Env
mod Tests
