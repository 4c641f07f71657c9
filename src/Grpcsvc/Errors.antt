-- ===== src/Grpcsvc/Errors.antt =====
-- The errors of internal/grpcsvc as values: one constructor for each place that makes one, with the
-- arguments of its message. `code_of` is the status code that the service answers with.
use openshell_driver_appleco.Text.{Text}
use openshell_driver_appleco.Backend.{RuntimeError}
use openshell_driver_appleco.State.{StoreError}
use openshell_driver_appleco.Grpcsvc.DriverConfig.{ConfigError}
use openshell_driver_appleco.Grpcsvc.Quantity.{QuantityError}
use openshell_driver_appleco.Grpcsvc.Env.{EnvError}

-- google.golang.org/grpc/codes, as far as the driver uses them.
pub data Code : Type 0 where
  invalid_argument failed_precondition already_exists not_found aborted internal : Code

pub data RpcError : Type 0 where
  sandbox_required : RpcError
  invalid_sandbox_id : Text → RpcError
  gpu_unsupported : RpcError
  bad_driver_config : ConfigError → RpcError
  invalid_image : Text → RpcError
  empty_command : RpcError
  bad_quantity : QuantityError → RpcError
  no_endpoint encode_failed : RpcError
  sandbox_exists : Text → RpcError
  persist_failed : StoreError → RpcError
  sandbox_not_found being_deleted still_provisioning in_progress failed_to_provision :
      Text → RpcError
  no_vm : Text → RpcError
  vm_failed : RuntimeError → RpcError
  delete_container_failed : RuntimeError → RpcError
  delete_record_failed lifecycle_unsaved : StoreError → RpcError

unfoldable pub code_of : RpcError → Code
code_of sandbox_required = invalid_argument
code_of (invalid_sandbox_id _) = invalid_argument
code_of gpu_unsupported = invalid_argument
code_of (bad_driver_config _) = invalid_argument
code_of (invalid_image _) = invalid_argument
code_of empty_command = invalid_argument
code_of (bad_quantity _) = invalid_argument
code_of no_endpoint = failed_precondition
code_of encode_failed = internal
code_of (sandbox_exists _) = already_exists
code_of (persist_failed _) = internal
code_of (sandbox_not_found _) = not_found
code_of (being_deleted _) = failed_precondition
code_of (still_provisioning _) = failed_precondition
code_of (in_progress _) = aborted
code_of (failed_to_provision _) = failed_precondition
code_of (no_vm _) = not_found
code_of (vm_failed _) = internal
code_of (delete_container_failed _) = internal
code_of (delete_record_failed _) = internal
code_of (lifecycle_unsaved _) = internal

-- The errors of the boot pipeline, which end in a condition's message.
pub data ProvisionError : Type 0 where
  bad_config : ConfigError → ProvisionError
  list_images pull_image clear_stale boot : RuntimeError → ProvisionError
  not_present_after_pull : Text → ProvisionError
  persist_digest : StoreError → ProvisionError
  supervisor_unusable : RuntimeError → ProvisionError
  policy_file_unusable kernel_unusable : Text → ProvisionError
  seed_failed : RuntimeError → ProvisionError
  bad_environment : EnvError → ProvisionError
  unsized : QuantityError → ProvisionError
  context_canceled : ProvisionError
