-- ===== src/Seed/Layout.antt =====
-- internal/seed/seed.go: `Write`, the files of a sandbox's seed directory.
use openshell_driver_appleco.Prelude.{
  ℕ, Bool, true, false, [], ◌∷◌, ◌++◌, Option, none, some, if◌then◌else◌,
}
use openshell_driver_appleco.Result.{Result, ok, err}
use openshell_driver_appleco.Text.{Text, text, ◌==◌}
use openshell_driver_appleco.Text.Path.{clean}
use openshell_driver_appleco.Assoc.{lookup}
use openshell_driver_appleco.Files.{File, Files, written, mode_of}
use openshell_driver_appleco.Seed.{
  SeedError, no_dir, no_source, not_written, no_boot_script, no_token, FileCalls, Materials,
  under_dir, with_mode,
}
use openshell_driver_appleco.Seed.Step.{Step, ◌>>◌, pure}

unfoldable pub boot_script : Text
boot_script =
    text "#!/bin/sh\nset -eu\nmkdir -p /opt/openshell/bin /run/openshell\n"
    ++ (text "if [ -f /openshell-seed/policy.yaml ]; then\n\tmkdir -p /etc/openshell\n"
        ++ (text "\tcp /openshell-seed/policy.yaml /etc/openshell/policy.yaml\nfi\n"
            ++ (text "cp /openshell-seed/openshell-sandbox /opt/openshell/bin/openshell-sandbox\n"
                ++ (text "chmod 0755 /opt/openshell/bin/openshell-sandbox\n"
                    ++ text "exec /opt/openshell/bin/openshell-sandbox\n"))))

-- `filepath.Join` of a directory and what is below it.
unfoldable pub at_dir : Text → Text → Text
unfolding under_dir
at_dir dir name = clean (under_dir dir name)

unfoldable pub fails_with : {A : Type 0} → SeedError → Bool × A → Result SeedError (Unit {0}) × A
fails_with x (true, files) = (ok tt, files)
fails_with x (false, files) = (err x, files)

module _ (disk : FileCalls) where
  -- `OpenFile` with create and truncate, and the write. A file that is there keeps its mode.
  unfoldable pub write_to : Text → ℕ → Text → Files → Bool × Files
  unfolding written mode_of
  write_to path mode content files =
      written path content (mode_of mode (lookup path files)) (disk.writing path content) files

  -- `os.WriteFile`
  unfoldable pub write_text : SeedError → Text → ℕ → Text → Step Files (Unit {0})
  unfolding write_to fails_with
  write_text x path mode content files = fails_with x (write_to path mode content files)

  unfoldable pub closed :
      Text → Result SeedError (Unit {0}) × Files → Result SeedError (Unit {0}) × Files
  closed dst (ok tt, files) = (if disk.closes dst then ok tt else err (not_written dst), files)
  closed dst (err x, files) = (err x, files)

  -- What follows the copy: the mode is set also on a file that was there, and the file is closed.
  unfoldable pub finished : Text → Bool × Files → Result SeedError (Unit {0}) × Files
  unfolding closed with_mode
  finished dst (false, files) = (err (not_written dst), files)
  finished dst (true, files) =
      closed dst (with_mode dst 0o600 (disk.changes_mode dst) (lookup dst files) files)

  -- A source that is the target too is empty when it is read.
  unfoldable pub copied : Text → Text → Option File → Step Files (Unit {0})
  unfolding write_to finished
  copied src dst none files = (err (no_source src), files)
  copied src dst (some file) files =
      if disk.readable src
      then finished dst (write_to dst 0o600 (if src == dst then [] else file.content) files)
      else (err (no_source src), files)

  unfoldable pub stream_file : Text → Text → Step Files (Unit {0})
  unfolding copied
  stream_file src dst files = copied src dst (lookup src files) files

  unfoldable pub make_seed_dir : Text → Step Files (Unit {0})
  make_seed_dir path files = (if disk.makes_dir path then ok tt else err (no_dir path), files)

  unfoldable pub write_token : Text → Text → Step Files (Unit {0})
  unfolding write_text
  write_token path [] = pure tt
  write_token path (c ∷ token) = write_text no_token path 0o600 ((c ∷ token) ++ 10 ∷ [])

  unfoldable pub write_policy : Text → Text → Step Files (Unit {0})
  unfolding stream_file
  write_policy path [] = pure tt
  write_policy path (c ∷ policy) = stream_file (c ∷ policy) path

  unfoldable pub write_layout : Text → Materials → Step Files (Unit {0})
  unfolding make_seed_dir at_dir stream_file write_text boot_script write_token write_policy
  write_layout dir m = do
    make_seed_dir dir
    make_seed_dir (at_dir dir (text "tls"))
    make_seed_dir (at_dir dir (text "auth"))
    stream_file m.supervisor_path (at_dir dir (text "openshell-sandbox"))
    write_text no_boot_script (at_dir dir (text "boot.sh")) 0o700 boot_script
    stream_file m.ca_path (at_dir dir (text "tls/ca.crt"))
    stream_file m.cert_path (at_dir dir (text "tls/tls.crt"))
    stream_file m.key_path (at_dir dir (text "tls/tls.key"))
    write_token (at_dir dir (text "auth/sandbox.jwt")) m.token
    write_policy (at_dir dir (text "policy.yaml")) m.policy_overlay_path
