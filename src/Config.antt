-- ===== src/Config.antt =====
-- internal/config/config.go: the resolved driver configuration.
pub mod Values
pub mod Parse
pub mod Usable
pub mod Precedence
mod Tests
use openshell_driver_appleco.Prelude.{Bool, List}
use openshell_driver_appleco.Int.{ℤ}
use openshell_driver_appleco.Text.{Text, text}

-- `PinnedSupervisorImage`
unfoldable pub pinned_supervisor_image : Text
pinned_supervisor_image = text "ghcr.io/nvidia/openshell/supervisor:0.0.96"

pub record Config : Type 0 where
  pub socket : Text
  pub state_dir : Text
  pub network : Text
  pub default_image : Text
  pub supervisor_image : Text
  pub supervisor_image_explicit : Bool
  pub grpc_endpoint : Text
  pub guest_tls_ca : Text
  pub guest_tls_cert : Text
  pub guest_tls_key : Text
  pub namespace : Text
  pub cpus : ℤ
  pub memory_mb : ℤ
  pub kernel : Text
  pub allow_host_mounts : Bool
  pub host_mount_root : Text
  pub allowed_networks : List Text
  pub network_policy_file : Text
  pub log_level : Text
