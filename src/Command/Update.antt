-- ===== src/Command/Update.antt =====
-- cmd/openshell-driver-applecontainer/update.go: the replacement of the driver's binary by a release. The
-- network, the archive format, SHA-256, `sudo install` and which calls of the file system fail, and how
-- much a failed write leaves, are parameters. The removal of temporary files, whose failure the code
-- ignores, is taken to succeed, and the quarantine attribute of the binary is left out.
pub mod Io
pub mod Run
mod Listing
mod Stages
mod Replace
mod Unpack
mod Verified
mod Tests
use openshell_driver_appleco.Files.{Files, Write}
use openshell_driver_appleco.Prelude.{
  ℕ, Bool, true, false, not, ◌&&◌, ◌||◌, List, [], ◌∷◌, ◌++◌, Option, none, some, eqb, leb, take,
  length, drop, if◌then◌else◌,
}
use openshell_driver_appleco.Result.{Result, ok, err}
use openshell_driver_appleco.Text.{Text, text, ◌==◌, has_prefix, split, trim_right}
use openshell_driver_appleco.Text.Search.{to_lower, fields, trim_prefix}
use openshell_driver_appleco.Text.Path.{clean}
use openshell_driver_appleco.Assoc.{lookup, insert, erase}

-- The answer to a request; `is_cut` if reading its body ends in an error.
pub record Response : Type 0 where
  pub status : ℕ
  pub body : Text
  pub is_cut : Bool

-- A member of an archive, or the error that ends the reading of the archive.
pub data Member : Type 0 where
  member : Bool → Text → Text → Bool → Member
  malformed : Member

pub data UpdateError : Type 0 where
  no_temp_dir sums_failed unreadable bad_gzip bad_archive write_failed replace_failed : UpdateError
  download_failed not_listed not_in_archive : Text → UpdateError
  mismatch : Text → Text → Text → UpdateError

-- `staged` is `os.CreateTemp` in the directory of a file.
pub record Machine : Type 0 where
  pub respond : Text → Option Response
  pub temp_dir : Option Text
  pub staged : Text → Option Text
  pub writing : Text → Text → Write
  pub readable : Text → Bool
  pub changes_mode : Text → Bool
  pub renames : Text → Text → Bool
  pub install : Text → Text → Files → Bool × Files
  pub sha256 : Text → Text
  pub gunzip : Text → Option (List Member)

unfoldable pub max_archive_bytes : ℕ
max_archive_bytes = 209715200

unfoldable pub update_binary_name : Text
update_binary_name = text "openshell-driver-applecontainer"

unfoldable pub release_archive_name : Text → Text
unfolding update_binary_name trim_prefix
release_archive_name version =
    update_binary_name ++ b'_' ∷ (trim_prefix (text "v") version ++ text "_darwin_arm64.tar.gz")

unfoldable pub release_url : Text → Text → Text
release_url version file =
    text "https://github.com/vyncint/openshell-driver-applecontainer/releases/download/"
    ++ (version ++ b'/' ∷ file)

last_of : Text → List Text → Text
last_of x [] = x
last_of x (y ∷ ys) = last_of y ys

-- `filepath.Base`
unfoldable pub base_name : Text → Text
unfolding last_of
base_name s =
    let t = trim_right (eqb b'/') s in
    if s == [] then text "." else if t == [] then text "/" else last_of [] (split t b'/')

-- `filepath.Join` of two names that are not empty.
unfoldable pub join_path : Text → Text → Text
join_path dir name = clean (dir ++ b'/' ∷ name)

unfoldable pub is_under : Text → Text → Bool
is_under dir path = path == dir || has_prefix path (dir ++ b'/' ∷ [])

unfoldable pub remove_all : Text → Files → Files
unfolding is_under
remove_all dir [] = []
remove_all dir ((path, file) ∷ rest) =
    let later = remove_all dir rest in if is_under dir path then later else (path, file) ∷ later

-- The digest in a line for the archive, and the first of them.
unfoldable pub listed_digest : Text → List Text → Option Text
listed_digest name (digest ∷ file ∷ []) = if file == name then some (to_lower digest) else none
listed_digest name _ = none

unfoldable pub wanted : Text → List Text → Text
unfolding listed_digest
wanted name [] = []
wanted name (line ∷ lines) = elim (listed_digest name (fields line)) [
  | some digest ↦ digest
  | none ↦ wanted name lines
]
