-- ===== src/Seed/Extract.antt =====
-- internal/seed/seed.go: `Extractor.Ensure`. Before each call `others` is what other goroutines and other
-- processes do to the files and the runtime meanwhile; the lock of this process only takes from what
-- they may do.
use openshell_driver_appleco.Prelude.{
  ℕ, Bool, true, false, [], ◌∷◌, ◌++◌, Option, none, some, if◌then◌else◌,
}
use openshell_driver_appleco.Int.{pos}
use openshell_driver_appleco.Result.{Result, ok, err}
use openshell_driver_appleco.Text.{Text, text}
use openshell_driver_appleco.Assoc.{lookup, erase}
use openshell_driver_appleco.Files.{Files}
use openshell_driver_appleco.Backend.{RuntimeError, RunSpec, Runtime, Labels}
use openshell_driver_appleco.Seed.{
  SeedError, list_failed, pull_failed, list_after_pull, start_failed, copy_failed, not_present,
  no_cache_dir, FileCalls, Extractor, bin_path, dir_of, uniq_of, partial_path,
  supervisor_image_path, check_file, is_there, with_mode, moved_to, digest_of,
}
use openshell_driver_appleco.Seed.Step.{Step, ◌>>=◌, ◌>>◌, pure, stop, deferred}

-- The runtime's state, and the files.
abbrev pub World : Type 0 → Type 0
World R = R × Files

unfoldable pub answer :
    {S A : Type 0} → (RuntimeError → SeedError) → Result RuntimeError A × S → Result SeedError A × S
answer f (ok a, s) = (ok a, s)
answer f (err e, s) = (err (f e), s)

-- The container that the binary is copied out of: it only sleeps.
unfoldable pub extraction_spec : Text → Text → Labels → RunSpec
extraction_spec name image labels = record {
  name = name;
  image = image;
  network = [];
  volumes = [];
  tmpfs = [];
  env = [];
  labels = labels;
  cpus = pos 0;
  memory_mb = pos 0;
  entrypoint = text "/bin/sleep";
  args = text "300" ∷ [];
  kernel = [];
  uid = none;
  gid = none;
  cap_add = [];
}

unfoldable pub found_digest : {R : Type 0} → Text → Option Text → Step (World R) Text
found_digest image none = stop (not_present image)
found_digest image (some digest) = pure digest

-- One attempt: the runtime and the file system that it uses, what others do meanwhile, the extractor, and
-- the process's id and counter, which tell attempts apart.
pub record Attempt (R : Type 0) : Type 0 where
  pub runtime : Runtime (World R)
  pub disk : FileCalls
  pub others : World R → World R
  pub extractor : Extractor
  pub pid : ℕ
  pub seq : ℕ

module _ {R : Type 0} (a : Attempt R) where
  open a use {runtime, disk, others, extractor, pid, seq}

  unfoldable pub call :
      {A : Type 0}
      → (RuntimeError → SeedError)
      → (World R → Result RuntimeError A × World R)
      → Step (World R) A
  unfolding answer
  call f op w = answer f (op (others w))

  unfoldable pub on_files : {A : Type 0} → (Files → Result SeedError A × Files) → Step (World R) A
  on_files f w = let t = others w in ((f t.1).0, (t.0, (f t.1).1))

  abbrev cached : Text → Text → Text
  cached image digest = bin_path extractor.cache_dir image digest

  abbrev partial_file : Text → Text → Text
  partial_file image digest = partial_path extractor.cache_dir image digest pid seq

  unfoldable extraction_name : Text → Text
  unfolding uniq_of
  extraction_name digest = text "oshl-extract-" ++ uniq_of digest pid seq

  unfoldable pub find_digest : (RuntimeError → SeedError) → Text → Step (World R) (Option Text)
  unfolding call digest_of
  find_digest f image = do images ← call f runtime.image_list; pure (digest_of image images)

  -- The digest behind a pull.
  unfoldable pub pull_digest : Text → Step (World R) Text
  unfolding call find_digest found_digest
  pull_digest image = do
    call pull_failed (runtime.image_pull image (text "linux/arm64"))
    found ← find_digest list_after_pull image
    found_digest image found

  unfoldable pub or_pull_digest : Text → Option Text → Step (World R) Text
  unfolding pull_digest
  or_pull_digest image none = pull_digest image
  or_pull_digest image (some digest) = pure digest

  unfoldable pub ensure_image : Text → Step (World R) Text
  unfolding find_digest or_pull_digest
  ensure_image image = do found ← find_digest list_failed image; or_pull_digest image found

  unfoldable pub stat : Text → Step (World R) Bool
  unfolding on_files is_there
  stat path = on_files (λ files. (ok (is_there (lookup path files)), files))

  unfoldable pub make_dir : Text → Step (World R) (Unit {0})
  unfolding on_files
  make_dir path =
      on_files (λ files. (if disk.makes_dir path then ok tt else err no_cache_dir, files))

  unfoldable pub validate_elf : Text → Step (World R) (Unit {0})
  unfolding on_files check_file
  validate_elf path =
      on_files (λ files. (check_file (disk.readable path) (lookup path files), files))

  unfoldable pub chmod : Text → ℕ → Step (World R) (Unit {0})
  unfolding on_files with_mode
  chmod path mode =
      on_files (λ files. with_mode path mode (disk.changes_mode path) (lookup path files) files)

  unfoldable pub rename_file : Text → Text → Step (World R) (Unit {0})
  unfolding on_files moved_to
  rename_file old new =
      on_files (λ files. moved_to old new (disk.renames old new) (lookup old files) files)

  -- Its error is ignored.
  unfoldable pub remove : Text → World R → World R
  remove path w = let t = others w in if disk.removes path then (t.0, erase path t.1) else t

  -- Its error is only logged.
  unfoldable pub remove_container : Text → World R → World R
  remove_container name w = (runtime.delete name (others w)).1

  -- From the partial file to the cached one.
  unfoldable pub install : Text → Text → Step (World R) Text
  unfolding validate_elf chmod rename_file
  install part path = do validate_elf part; chmod part 0o600; rename_file part path; pure path

  unfoldable pub copy_out : Text → Text → Text → Step (World R) Text
  unfolding call install remove supervisor_image_path
  copy_out name part path = do
    call copy_failed (runtime.copy_from name supervisor_image_path part)
    deferred (remove part) (install part path)

  unfoldable pub extract : Text → Text → Step (World R) Text
  unfolding call make_dir dir_of copy_out remove_container extraction_spec extraction_name
  extract image digest =
      let name = extraction_name digest in
      (do
        make_dir (dir_of (cached image digest))
        _ ← call start_failed (λ w. runtime.run (extraction_spec name image extractor.labels) w)
        deferred (remove_container name)
            (copy_out name (partial_file image digest) (cached image digest)))

  unfoldable pub or_extract : Text → Text → Bool → Step (World R) Text
  unfolding extract
  or_extract image digest true = pure (cached image digest)
  or_extract image digest false = extract image digest

  -- With the lock held, the cache is looked at again.
  unfoldable pub locked : Text → Text → Bool → Step (World R) Text
  unfolding stat or_extract
  locked image digest true = pure (cached image digest)
  locked image digest false = do there ← stat (cached image digest); or_extract image digest there

  unfoldable pub ensure : Text → Step (World R) Text
  unfolding ensure_image stat locked
  ensure image = do
    digest ← ensure_image image
    there ← stat (cached image digest)
    locked image digest there
