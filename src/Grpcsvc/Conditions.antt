-- ===== src/Grpcsvc/Conditions.antt =====
-- internal/grpcsvc/conditions.go: the condition that the gateway derives a sandbox's phase from. The
-- closed set of reasons is a data type; a message is the text, the error, or the console excerpt that
-- the code puts into it.
use openshell_driver_appleco.Prelude.{ℕ, Bool, true, false, not}
use openshell_driver_appleco.Text.{Text, text}

pub data Reason : Type 0 where
  starting backend_ready container_exited container_stopped : Reason
  provisioning_failed deleting : Reason

pub data Message (E : Type 0) : Type 0 where
  literal : Text → Message E
  of_error : E → Message E
  with_tail : Message E → Text → Message E

-- `status` is `Status == "True"`.
pub record Condition (E : Type 0) : Type 0 where
  pub status : Bool
  pub reason : Reason
  pub message : Message E
  pub at : ℕ

unfoldable pub same_reason : Reason → Reason → Bool
same_reason starting starting = true
same_reason backend_ready backend_ready = true
same_reason container_exited container_exited = true
same_reason container_stopped container_stopped = true
same_reason provisioning_failed provisioning_failed = true
same_reason deleting deleting = true
same_reason _ _ = false

unfoldable pub same_status : Bool → Bool → Bool
same_status true b = b
same_status false b = not b

module _ {E : Type 0} where
  unfoldable pub starting_condition : ℕ → Condition E
  starting_condition now = record {
    status = false;
    reason = starting;
    message = literal (text "Sandbox VM is starting");
    at = now;
  }

  unfoldable pub ready_true_condition : ℕ → Condition E
  ready_true_condition now = record {
    status = true;
    reason = backend_ready;
    message = literal (text "Sandbox VM is running");
    at = now;
  }

  unfoldable pub exited_condition : ℕ → Condition E
  exited_condition now = record {
    status = false;
    reason = container_exited;
    message = literal (text "Sandbox VM is not running");
    at = now;
  }

  unfoldable pub stopped_condition : ℕ → Condition E
  stopped_condition now = record {
    status = false;
    reason = container_stopped;
    message = literal (text "Sandbox VM is stopped");
    at = now;
  }

  unfoldable pub failed_condition : Message E → ℕ → Condition E
  failed_condition msg now = record {
    status = false;
    reason = provisioning_failed;
    message = msg;
    at = now;
  }

  unfoldable pub deleting_condition : ℕ → Condition E
  deleting_condition now = record {
    status = false;
    reason = deleting;
    message = literal (text "Sandbox is being deleted");
    at = now;
  }
