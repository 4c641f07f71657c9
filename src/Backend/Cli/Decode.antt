-- ===== src/Backend/Cli/Decode.antt =====
-- internal/backend/cli.go: what the driver reads off the output of the `container` command. The JSON
-- decoder itself is a parameter; the records below are the shapes that it fills.
use openshell_driver_appleco.Prelude.{
  ℕ, ◌+◌, ◌^◌, Bool, false, ◌&&◌, ◌||◌, List, [], ◌∷◌, Option, none, some, ltb, eqb, if◌then◌else◌,
}
use openshell_driver_appleco.Int.{ℤ}
use openshell_driver_appleco.Text.{Text, text, ◌==◌, split}
use openshell_driver_appleco.Text.Search.{fields, trim, to_lower, contains_text}
use openshell_driver_appleco.Compat.{read_number}
use openshell_driver_appleco.Backend.{Labels, Container, NetworkAttachment, Image, Network}

-- The entries of `container ls`, with their nested objects.
pub record LsStatus : Type 0 where
  pub state : Text
  pub started : Text
  pub networks : List NetworkAttachment

pub record LsConfiguration : Type 0 where
  pub creation_date : Text
  pub image_reference : Text
  pub image_digest : Text
  pub labels : Labels
  pub cpus : ℤ
  pub memory_in_bytes : ℤ

pub record LsEntry : Type 0 where
  pub id : Text
  pub status : LsStatus
  pub configuration : LsConfiguration

-- The loop over the attachments copies each of their fields.
unfoldable pub attachments : List NetworkAttachment → List NetworkAttachment
attachments [] = []
attachments (n ∷ ns) =
    record {
      network = n.network;
      hostname = n.hostname;
      ipv4_address = n.ipv4_address;
      ipv4_gateway = n.ipv4_gateway;
    }
    ∷ attachments ns

unfoldable pub to_container : LsEntry → Container
unfolding attachments
to_container e = record {
  id = e.id;
  state = e.status.state;
  image_ref = e.configuration.image_reference;
  image_digest = e.configuration.image_digest;
  labels = e.configuration.labels;
  networks = attachments e.status.networks;
  cpus = e.configuration.cpus;
  memory_bytes = e.configuration.memory_in_bytes;
  created_at = e.configuration.creation_date;
  started_at = e.status.started;
}

-- The entries of `container image ls`.
pub record Variant : Type 0 where
  pub architecture : Text
  pub user : Text

pub record ImageEntry : Type 0 where
  pub name : Text
  pub digest : Text
  pub variants : List Variant

-- The user of the first variant for arm64.
unfoldable pub arm64_user : List Variant → Option Text
arm64_user [] = none
arm64_user (v ∷ vs) =
    let later = arm64_user vs in if v.architecture == text "arm64" then some v.user else later

unfoldable pub first_user : List Variant → Text
first_user [] = []
first_user (v ∷ vs) = v.user

unfoldable pub image_user : ImageEntry → Text
unfolding arm64_user first_user
image_user e = elim (arm64_user e.variants) [ none ↦ first_user e.variants | some u ↦ u ]

unfoldable pub to_image : ImageEntry → Image
unfolding image_user
to_image e = record { reference = e.name; digest = e.digest; user = image_user e }

-- The entries of `container network ls`.
pub record NetworkEntry : Type 0 where
  pub id : Text
  pub ipv4_gateway : Text
  pub ipv4_subnet : Text

unfoldable pub to_network : NetworkEntry → Network
to_network e = record { name = e.id; ipv4_gateway = e.ipv4_gateway; ipv4_subnet = e.ipv4_subnet }

-- `isNotFound`
unfoldable pub says_not_found : Text → Bool
says_not_found message =
    let s = to_lower message in
    contains_text s (text "not found")
    || (contains_text s (text "does not exist") || contains_text s (text "no such"))

-- `strconv.Atoi` gives no error: an optional sign and digits, in the range of an int64.
below : ℕ → Option ℕ → Bool
below limit none = false
below limit (some n) = ltb n limit

unfoldable pub is_int : Text → Bool
unfolding below
is_int [] = false
is_int (c ∷ s) =
    if eqb c b'+'
    then below (2 ^ 63) (read_number s)
    else if eqb c b'-'
    then below (2 ^ 63 + 1) (read_number s)
    else below (2 ^ 63) (read_number (c ∷ s))

is_triple : List Text → Bool
unfolding is_int
is_triple (p ∷ q ∷ r ∷ []) = is_int p && (is_int q && is_int r)
is_triple _ = false

unfoldable pub version_of : List Text → Text
unfolding is_triple
version_of [] = []
version_of (w ∷ ws) =
    let later = version_of ws in
    let f = trim w (text "()v") in if is_triple (split f b'.') then f else later

unfoldable pub parse_version_output : Text → Text
unfolding version_of
parse_version_output out = version_of (fields out)
