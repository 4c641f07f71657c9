-- ===== src/Grpcsvc/Provision.antt =====
-- internal/grpcsvc/create.go, `provision` and `provisionInner`: the task that boots an accepted
-- sandbox.
pub mod Action
pub mod Spec
pub mod Pipeline
pub mod Outcome
pub mod Finish
pub mod Settled
pub mod Guest
mod Tests
