-- ===== src/Command.antt =====
-- cmd/openshell-driver-applecontainer: the commands of the driver.
pub mod Socket
pub mod Update
