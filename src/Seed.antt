-- ===== src/Seed.antt =====
-- internal/seed/seed.go: the supervisor binary, taken out of its image once and kept in a cache, and the
-- files of a sandbox's seed directory. Directories are not among the files; which calls of the file
-- system fail, and how much a failed write leaves, are parameters.
pub mod Step
pub mod Paths
pub mod Extract
pub mod Cache
pub mod Partial
pub mod Ensure
pub mod Layout
pub mod Written
pub mod Slots
pub mod Complete
pub mod Total
mod Tests
use openshell_driver_appleco.Prelude.{
  ℕ, Bool, true, false, not, ◌&&◌, ◌||◌, List, [], ◌∷◌, ◌++◌, Option, none, some, eqb, leb, ltb,
  take, length, if◌then◌else◌,
}
use openshell_driver_appleco.Int.{pos}
use openshell_driver_appleco.Result.{Result, ok, err}
use openshell_driver_appleco.Text.{Text, text, ◌==◌, trim_right}
use openshell_driver_appleco.Text.Path.{clean}
use openshell_driver_appleco.Text.Search.{trim_prefix}
use openshell_driver_appleco.Text.Decimal.{decimal}
use openshell_driver_appleco.Assoc.{lookup, insert, erase}
use openshell_driver_appleco.Files.{File, Files, Write, written, mode_of}
use openshell_driver_appleco.Backend.{RuntimeError, RunSpec, Image, Runtime, Labels}

pub data SeedError : Type 0 where
  list_failed pull_failed list_after_pull start_failed copy_failed : RuntimeError → SeedError
  not_present : Text → SeedError
  no_cache_dir unreadable not_elf no_mode not_persisted no_boot_script no_token : SeedError
  no_dir no_source not_written : Text → SeedError

-- Which calls of the file system succeed.
pub record FileCalls : Type 0 where
  pub makes_dir : Text → Bool
  pub readable : Text → Bool
  pub writing : Text → Text → Write
  pub changes_mode : Text → Bool
  pub renames : Text → Text → Bool
  pub removes : Text → Bool
  pub closes : Text → Bool

-- What a sandbox's seed directory is made from.
pub record Materials : Type 0 where
  pub supervisor_path : Text
  pub ca_path : Text
  pub cert_path : Text
  pub key_path : Text
  pub token : Text
  pub policy_overlay_path : Text

pub record Extractor : Type 0 where
  pub cache_dir : Text
  pub labels : Labels

unfoldable pub sanitize_ref : Text → Text
sanitize_ref [] = []
sanitize_ref (c ∷ ref) =
    let rest = sanitize_ref ref in
    if (leb b'a' c && leb c b'z')
      || (leb b'A' c && leb c b'Z')
      || (leb b'0' c && leb c b'9')
      || eqb c b'.'
      || eqb c b'_'
      || eqb c b'-'
    then c ∷ rest
    else b'-' ∷ rest

unfoldable pub short_digest : Text → Text
unfolding trim_prefix
short_digest digest =
    let d = trim_prefix (text "sha256:") digest in
    let cut = if ltb 12 (length d) then take 12 d else d in
    if cut == [] then text "nodigest" else cut

unfoldable pub cache_key : Text → Text → Text
unfolding sanitize_ref short_digest
cache_key image digest = sanitize_ref image ++ b'-' ∷ short_digest digest

-- What `filepath.Join` cleans: an empty directory is left out.
unfoldable pub under_dir : Text → Text → Text
under_dir dir name = if dir == [] then name else dir ++ b'/' ∷ name

unfoldable pub bin_path : Text → Text → Text → Text
unfolding under_dir cache_key
bin_path cache_dir image digest =
    clean (under_dir cache_dir (cache_key image digest) ++ b'/' ∷ text "openshell-sandbox")

-- `filepath.Dir`
unfoldable pub dir_of : Text → Text
dir_of path = clean (trim_right (λ c. not (eqb c b'/')) path)

-- The mark of one attempt, from the process's id and its counter.
unfoldable pub uniq_of : Text → ℕ → ℕ → Text
unfolding short_digest
uniq_of digest pid seq = short_digest digest ++ b'-' ∷ (decimal pid ++ b'-' ∷ decimal seq)

unfoldable pub partial_path : Text → Text → Text → ℕ → ℕ → Text
unfolding bin_path uniq_of
partial_path cache_dir image digest pid seq =
    bin_path cache_dir image digest ++ (text ".partial-" ++ uniq_of digest pid seq)

unfoldable pub supervisor_image_path : Text
supervisor_image_path = text "/openshell-sandbox"

-- The first four bytes of a file.
unfoldable pub check_magic : Text → Result SeedError (Unit {0})
check_magic (a ∷ b ∷ c ∷ d ∷ _) =
    if eqb a 0x7f && eqb b b'E' && eqb c b'L' && eqb d b'F' then ok tt else err not_elf
check_magic _ = err unreadable

unfoldable pub check_file : Bool → Option File → Result SeedError (Unit {0})
unfolding check_magic
check_file can_read none = err unreadable
check_file can_read (some file) = if can_read then check_magic file.content else err unreadable

unfoldable pub is_there : Option File → Bool
is_there none = false
is_there (some _) = true

-- `chmod` of what is at a path.
unfoldable pub with_mode :
    Text → ℕ → Bool → Option File → Files → Result SeedError (Unit {0}) × Files
with_mode path mode done none files = (err no_mode, files)
with_mode path mode done (some file) files =
    if done then (ok tt, insert path (record file { mode = mode }) files) else (err no_mode, files)

-- `rename` of what is at a path.
unfoldable pub moved_to :
    Text → Text → Bool → Option File → Files → Result SeedError (Unit {0}) × Files
moved_to old new done none files = (err not_persisted, files)
moved_to old new done (some file) files =
    if done then (ok tt, insert new file (erase old files)) else (err not_persisted, files)

-- The first image with that reference.
unfoldable pub digest_of : Text → List Image → Option Text
digest_of image [] = none
digest_of image (i ∷ images) =
    let later = digest_of image images in if i.reference == image then some i.digest else later
