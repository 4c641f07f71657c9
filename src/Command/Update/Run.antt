-- ===== src/Command/Update/Run.antt =====
-- cmd/openshell-driver-applecontainer/update.go: the check of an archive, its extraction and the whole
-- update.
use openshell_driver_appleco.Files.{File, Files}
use openshell_driver_appleco.Prelude.{
  Option, Bool, true, false, not, ◌&&◌, ◌||◌, List, [], ◌∷◌, none, some, leb, take, length,
  if◌then◌else◌,
}
use openshell_driver_appleco.Result.{Result, ok, err}
use openshell_driver_appleco.Text.{Text, text, ◌==◌, split}
use openshell_driver_appleco.Assoc.{insert, erase}
use openshell_driver_appleco.Command.Update.{
  Member, member, malformed, UpdateError, no_temp_dir, sums_failed, unreadable, bad_gzip,
  bad_archive, write_failed, replace_failed, download_failed, not_listed, not_in_archive, mismatch,
  Machine, max_archive_bytes, update_binary_name, release_archive_name, release_url, base_name,
  join_path, remove_all, wanted,
}
use openshell_driver_appleco.Command.Update.Io.{
  write_file, read_file, http_get_bytes, download_to, copy_file, rename,
}

module _ (m : Machine) where
  unfoldable pub verify_checksum : Text → Text → Text → Files → Result UpdateError (Unit {0})
  unfolding wanted read_file max_archive_bytes
  verify_checksum path checksums name files =
      let want = wanted name (split checksums 10) in
      if want == [] then err (not_listed name) else (elim (read_file m path files) [
        | none ↦ err unreadable
        | some archive ↦
            let got = m.sha256 (take max_archive_bytes archive) in
            if got == want then ok tt else err (mismatch name got want)
      ])

  -- The loop over the members of the archive.
  unfoldable pub extract_from :
      Text → Text → List Member → Files → Result UpdateError (Unit {0}) × Files
  unfolding base_name write_file max_archive_bytes
  extract_from name dest [] files = (err (not_in_archive name), files)
  extract_from name dest (malformed ∷ rest) files = (err bad_archive, files)
  extract_from name dest (member is_regular file content is_cut ∷ rest) files =
      let later = extract_from name dest rest files in
      if not is_regular || not (base_name file == name)
      then later
      else let (done, files') = write_file m dest 0o755 (take max_archive_bytes content) files in
        (
          if done && (not is_cut || leb max_archive_bytes (length content))
              then ok tt
              else err write_failed,
          files',
        )

  unfoldable pub extract_binary_from_tar_gz :
      Text → Text → Text → Files → Result UpdateError (Unit {0}) × Files
  unfolding read_file extract_from
  extract_binary_from_tar_gz path name dest files = elim (read_file m path files) [
    | none ↦ (err unreadable, files)
    | some archive ↦ elim (m.gunzip archive) [
      | none ↦ (err bad_gzip, files)
      | some members ↦ extract_from name dest members files
    ]
  ]

  -- The staged copy takes the target's place; true if it did, and otherwise the copy is removed.
  unfoldable pub swap : Text → Text → Text → Files → Bool × Files
  unfolding copy_file rename
  swap target new staged files =
      let fresh : File = record { content = []; mode = 0o600 } in
      let (copied, files') = copy_file m new staged 0o755 (insert staged fresh files) in
      let (renamed, files'') = rename m staged target files' in
      if copied && renamed then (true, files'') else (false, erase staged files')

  unfoldable pub replace_binary : Text → Text → Files → Bool × Files
  unfolding swap
  replace_binary target new files = elim (m.staged target) [
    | none ↦ m.install new target files
    | some staged ↦
        let (swapped, files') = swap target new staged files in
        if swapped then (true, files') else m.install new target files'
  ]

  -- What follows the check of the digest.
  unfoldable pub unpack : Text → Text → Text → Files → Result UpdateError (Unit {0}) × Files
  unfolding extract_binary_from_tar_gz replace_binary update_binary_name
  unpack target path extracted files =
      let (r, files') = extract_binary_from_tar_gz path update_binary_name extracted files in
      elim r [
        | err e ↦ (err e, files')
        | ok _ ↦
            let (done, files'') = replace_binary target extracted files' in
            (if done then ok tt else err replace_failed, files'')
      ]

  unfoldable pub after_check :
      Text
      → Text
      → Text
      → Result UpdateError (Unit {0})
      → Files
      → Result UpdateError (Unit {0}) × Files
  after_check target path extracted (err e) files = (err e, files)
  after_check target path extracted (ok _) files = unpack target path extracted files

  unfoldable pub with_sums :
      Text → Text → Text → Text → Option Text → Files → Result UpdateError (Unit {0}) × Files
  unfolding after_check
  with_sums target path extracted archive none files = (err sums_failed, files)
  with_sums target path extracted archive (some sums) files =
      after_check target path extracted (verify_checksum path sums archive files) files

  -- What follows the download of the archive.
  unfoldable pub downloaded :
      Text → Text → Text → Text → Text → Bool × Files → Result UpdateError (Unit {0}) × Files
  unfolding with_sums
  downloaded target path extracted archive sums_url (false, files) =
      (err (download_failed archive), files)
  downloaded target path extracted archive sums_url (true, files) =
      with_sums target path extracted archive (http_get_bytes m sums_url) files

  -- In the directory for temporary files.
  unfoldable pub update_in : Text → Text → Text → Files → Result UpdateError (Unit {0}) × Files
  unfolding downloaded
  update_in dir target version files =
      let archive = release_archive_name version in
      let path = join_path dir archive in
      downloaded target path (join_path dir update_binary_name) archive
        (release_url version (text "checksums.txt"))
        (download_to m (release_url version archive) path files)

  unfoldable pub with_dir :
      Option Text → Text → Text → Files → Result UpdateError (Unit {0}) × Files
  unfolding update_in remove_all
  with_dir none target version files = (err no_temp_dir, files)
  with_dir (some dir) target version files =
      let (r, files') = update_in dir target version files in (r, remove_all dir files')

  unfoldable pub self_update : Text → Text → Files → Result UpdateError (Unit {0}) × Files
  unfolding with_dir
  self_update target version files = with_dir m.temp_dir target version files
