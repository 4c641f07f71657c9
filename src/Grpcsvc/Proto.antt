-- ===== src/Grpcsvc/Proto.antt =====
-- internal/gen/computev1/compute_driver.pb.go: the messages of a create request. A message field is an
-- `Option`; a getter on an absent message gives the zero value, as the generated getters do. A
-- protobuf `Struct` is kept encoded: the driver itself reads nothing of it.
use openshell_driver_appleco.Prelude.{Bool, List, [], Option, none, some}
use openshell_driver_appleco.Text.{Text}
use openshell_driver_appleco.Backend.{Labels}

pub record Resources : Type 0 where
  pub cpu_request : Text
  pub cpu_limit : Text
  pub memory_request : Text
  pub memory_limit : Text

pub record Template : Type 0 where
  pub image : Text
  pub agent_socket_path : Text
  pub labels : Labels
  pub environment : Labels
  pub resources : Option Resources
  pub platform_config : Option Text
  pub driver_config : Option Text

-- `gpu` says whether the resource requirements are there and name a GPU.
pub record Spec : Type 0 where
  pub log_level : Text
  pub environment : Labels
  pub template : Option Template
  pub gpu : Bool
  pub sandbox_token : Text
  pub command : List Text
  pub tty : Bool

pub record DriverSandbox : Type 0 where
  pub id : Text
  pub name : Text
  pub namespace : Text
  pub workspace : Text
  pub spec : Option Spec

-- A getter: the field, or the zero value where there is no message.
abbrev pub read {ℓ κ} : {A : Type ℓ} {B : Type κ} → B → (A → B) → Option A → B
read d f none = d
read d f (some a) = f a

abbrev pub get_template : Option Spec → Option Template
get_template = read none (λ s. s.template)

abbrev pub get_image : Option Template → Text
get_image = read [] (λ t. t.image)

abbrev pub get_driver_config : Option Template → Option Text
get_driver_config = read none (λ t. t.driver_config)

abbrev pub get_resources : Option Template → Option Resources
get_resources = read none (λ t. t.resources)

abbrev pub get_token : Option Spec → Text
get_token = read [] (λ s. s.sandbox_token)

abbrev pub get_command : Option Spec → List Text
get_command = read [] (λ s. s.command)
