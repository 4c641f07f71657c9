-- ===== src/Backend.antt =====
-- internal/backend/backend.go: the data that the container runtime exchanges with the driver, and the
-- `Runtime` interface. An operation reads and changes the host's state `W`, of which the driver sees
-- nothing else.
pub mod Fake
pub mod Cli
use openshell_driver_appleco.Prelude.{
  ℕ, Bool, true, false, List, [], ◌∷◌, Option, none, some, if◌then◌else◌, eqb,
}
use openshell_driver_appleco.Int.{ℤ}
use openshell_driver_appleco.Result.{Result}
use openshell_driver_appleco.Text.{Text, ◌==◌}
use openshell_driver_appleco.Assoc.{lookup}

-- `ErrNotFound`, `context.Canceled`, or any other error with its message.
pub data RuntimeError : Type 0 where
  not_found canceled : RuntimeError
  failed : Text → RuntimeError

-- `errors.Is(err, backend.ErrNotFound)` and `errors.Is(err, context.Canceled)`
unfoldable pub is_not_found : RuntimeError → Bool
is_not_found not_found = true
is_not_found canceled = false
is_not_found (failed _) = false

unfoldable pub is_canceled : RuntimeError → Bool
is_canceled not_found = false
is_canceled canceled = true
is_canceled (failed _) = false

abbrev pub Labels : Type 0
Labels = List (Text × Text)

-- `m[k]` of a `map[string]string`: the empty text for a missing key.
unfoldable pub label : Text → Labels → Text
label k m = elim (lookup k m) [ none ↦ [] | some v ↦ v ]

pub record VolumeMount : Type 0 where
  pub host_path : Text
  pub guest_path : Text
  pub read_only : Bool

pub record RunSpec : Type 0 where
  pub name : Text
  pub image : Text
  pub network : Text
  pub volumes : List VolumeMount
  pub tmpfs : List Text
  pub env : Labels
  pub labels : Labels
  pub cpus : ℤ
  pub memory_mb : ℤ
  pub entrypoint : Text
  pub args : List Text
  pub kernel : Text
  pub uid : Option ℤ
  pub gid : Option ℤ
  pub cap_add : List Text

pub record NetworkAttachment : Type 0 where
  pub network : Text
  pub hostname : Text
  pub ipv4_address : Text
  pub ipv4_gateway : Text

pub record Container : Type 0 where
  pub id : Text
  pub state : Text
  pub image_ref : Text
  pub image_digest : Text
  pub labels : Labels
  pub networks : List NetworkAttachment
  pub cpus : ℤ
  pub memory_bytes : ℤ
  pub created_at : Text
  pub started_at : Text

-- The address before the first "/".
bare_address : Text → Text
bare_address [] = []
bare_address (c ∷ s) = if eqb c b'/' then [] else c ∷ bare_address s

-- The loop of `Container.IPv4`: an attachment is skipped only when it has no address at all.
ipv4_of : List NetworkAttachment → Text
unfolding bare_address
ipv4_of [] = []
ipv4_of (n ∷ ns) =
    let later = ipv4_of ns in if n.ipv4_address == [] then later else bare_address n.ipv4_address

pub ipv4 : Container → Text
unfolding ipv4_of
ipv4 c = ipv4_of c.networks

pub record Image : Type 0 where
  pub reference : Text
  pub digest : Text
  pub user : Text

pub record Network : Type 0 where
  pub name : Text
  pub ipv4_gateway : Text
  pub ipv4_subnet : Text

-- What an operation on the host returns, and the host's state behind it.
abbrev pub Outcome : Type 0 → Type 0 → Type 0
Outcome W A = Result RuntimeError A × W

pub record Runtime (W : Type 0) : Type 0 where
  pub run : RunSpec → W → Outcome W Text
  pub delete : Text → W → Outcome W (Unit {0})
  pub stop : Text → W → Outcome W (Unit {0})
  pub start : Text → W → Outcome W (Unit {0})
  pub list : Bool → W → Outcome W (List Container)
  pub get : Text → W → Outcome W Container
  pub image_list : W → Outcome W (List Image)
  pub image_pull : Text → Text → W → Outcome W (Unit {0})
  pub create : Text → Text → W → Outcome W Text
  pub copy_from : Text → Text → Text → W → Outcome W (Unit {0})
  pub networks : W → Outcome W (List Network)
  pub network_create : Text → W → Outcome W (Unit {0})
  pub logs : Text → ℕ → W → Outcome W Text
  pub system_start : W → Outcome W (Unit {0})
  pub version : W → Outcome W Text
