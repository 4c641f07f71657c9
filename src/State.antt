-- ===== src/State.antt =====
-- internal/state/state.go: the persisted launch records and what the service uses of their store.
pub mod Disk
use openshell_driver_appleco.Prelude.{ℕ, Bool, not, ◌&&◌, ◌||◌, List, leb, eqb, length, all}
use openshell_driver_appleco.Result.{Result}
use openshell_driver_appleco.Text.{Text, text, ◌==◌}

-- The character class of `idPattern`.
is_id_code : ℕ → Bool
is_id_code c =
    (leb b'A' c && leb c b'Z')
    || (leb b'a' c && leb c b'z')
    || (leb b'0' c && leb c b'9')
    || eqb c b'.'
    || eqb c b'_'
    || eqb c b'-'

unfoldable pub valid_id : Text → Bool
unfolding is_id_code
valid_id id =
    (leb 1 (length id) && leb (length id) 128 && all is_id_code id)
    && not (id == text ".")
    && not (id == text "..")

-- Times are numbers; `sandbox` is the encoded request.
pub record Record : Type 0 where
  pub id : Text
  pub name : Text
  pub namespace : Text
  pub workspace : Text
  pub container_name : Text
  pub image_ref : Text
  pub image_digest : Text
  pub created_at : ℕ
  pub stopped : Bool
  pub sandbox : Text

pub data StoreError : Type 0 where
  invalid_id missing : Text → StoreError
  io_failed undecodable : StoreError

-- The operations of `Store` that the service calls.
pub record Store (W : Type 0) : Type 0 where
  pub save : Record → W → Result StoreError (Unit {0}) × W
  pub delete : Text → W → Result StoreError (Unit {0}) × W
  pub list : W → Result StoreError (List Record × List Text) × W
