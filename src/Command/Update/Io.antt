-- ===== src/Command/Update/Io.antt =====
-- cmd/openshell-driver-applecontainer/update.go: the calls of the network and of the file system.
use openshell_driver_appleco.Files.{Files, mode_of, written}
use openshell_driver_appleco.Prelude.{
  ℕ, Bool, true, false, not, ◌&&◌, ◌||◌, Option, none, some, eqb, leb, take, length, if◌then◌else◌,
}
use openshell_driver_appleco.Text.{Text}
use openshell_driver_appleco.Assoc.{lookup, insert, erase}
use openshell_driver_appleco.Command.Update.{Response, Machine, max_archive_bytes}

module _ (m : Machine) where
  -- `OpenFile` with create and truncate, the write and the close. A file that is there keeps its mode, and
  -- what the umask takes from the mode of a new one is left out.

  unfoldable pub write_file : Text → ℕ → Text → Files → Bool × Files
  unfolding mode_of written
  write_file path mode content files =
      written path content (mode_of mode (lookup path files)) (m.writing path content) files

  unfoldable pub read_file : Text → Files → Option Text
  read_file path files = elim (lookup path files) [
    | none ↦ none
    | some file ↦ if m.readable path then some file.content else none
  ]

  unfoldable pub http_get : Text → Option Response
  http_get url = elim (m.respond url) [
    | none ↦ none
    | some response ↦ if eqb response.status 200 then some response else none
  ]

  -- An error that the limit hides is none.
  unfoldable pub limited : Response → Bool × Text
  unfolding max_archive_bytes
  limited response = (
    not response.is_cut || leb max_archive_bytes (length response.body),
    take max_archive_bytes response.body,
  )

  unfoldable pub http_get_bytes : Text → Option Text
  unfolding http_get limited
  http_get_bytes url = elim (http_get url) [
    | none ↦ none
    | some response ↦ let (whole, body) = limited response in if whole then some body else none
  ]

  unfoldable pub download_to : Text → Text → Files → Bool × Files
  unfolding http_get limited write_file
  download_to url dest files = elim (http_get url) [
    | none ↦ (false, files)
    | some response ↦
        let (whole, body) = limited response in
        let (done, files') = write_file dest 0o666 body files in (whole && done, files')
  ]

  unfoldable pub copy_file : Text → Text → ℕ → Files → Bool × Files
  unfolding read_file write_file
  copy_file src dst mode files = elim (read_file src files) [
    | none ↦ (false, files)
    | some content ↦
        let (done, files') = write_file dst mode content files in
        if done && m.changes_mode dst
        then (true, insert dst (record { content = content; mode = mode }) files')
        else (false, files')
  ]

  -- `os.Rename` of a file that is there.
  unfoldable pub rename : Text → Text → Files → Bool × Files
  rename old new files = elim (lookup old files) [
    | none ↦ (false, files)
    | some file ↦
        if m.renames old new then (true, insert new file (erase old files)) else (false, files)
  ]
