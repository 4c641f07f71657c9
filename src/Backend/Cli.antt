-- ===== src/Backend/Cli.antt =====
-- internal/backend/cli.go: the runtime as the apple/container command line.
pub mod Args
pub mod Reader
pub mod Reading
pub mod Decode
pub mod Commands
pub mod Lookup
mod Tests
