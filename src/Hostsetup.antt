-- ===== src/Hostsetup.antt =====
-- internal/hostsetup: what `setup` and `cleanup` do to the host.
pub mod Block
pub mod Status
