-- ===== src/Seed/Partial.antt =====
-- internal/seed/seed.go: from a partial file to a cached binary.
use openshell_driver_appleco.Prelude.{
  Bool, true, false, Option, none, some, ◌≡◌, ◌≢◌, refl, ◌∙◌, arith, Bool-cases, inl, inr,
}
use openshell_driver_appleco.Result.{Result, ok, err}
use openshell_driver_appleco.Text.{Text, ◌==◌}
use openshell_driver_appleco.Assoc.{
  lookup, insert, erase, lookup-insert, insert-same, insert-other, erase-other,
}
use openshell_driver_appleco.Files.{File, Files}
use openshell_driver_appleco.Seed.{SeedError, check_magic, check_file, with_mode, moved_to}
use openshell_driver_appleco.Seed.Step.{Ends, Leads, seq-Leads, pure-Leads}
use openshell_driver_appleco.Seed.Paths.{partial_path-apart}
use openshell_driver_appleco.Seed.Extract.{
  World, Attempt, on_files, validate_elf, chmod, rename_file, remove, install,
}
use openshell_driver_appleco.Seed.Cache.{
  IsElf, check_magic-IsElf, Sound, Peers, LeavesFiles, cached, partial_file, IsSound, Checked,
  Present, same-IsSound,
}

module _ {R : Type 0} (a : Attempt R) where
  open a use {runtime, disk, others, extractor, pid, seq}

  module _ (peers : Peers a) (leaves : LeavesFiles a) where
    module _ (image digest : Text) where
      pub apart : (image' digest' : Text) → partial_file a image digest ≢ cached a image' digest'
      apart = partial_path-apart extractor.cache_dir image digest pid seq

      Checked-stable : (w : World R) → Checked a image digest w → Checked a image digest (others w)
      Checked-stable w (file, i, l, elf) =
          (file, peers.sound w i, peers.own w image digest ∙ l, elf)

      Checked-Ends :
          (w : World R) (file : File) (r : Result SeedError (Unit {0}))
          → IsSound a w
          → (lookup (partial_file a image digest) w.1 ≡ some file)
          → (r ≡ ok tt → IsElf file.content)
          → Ends (IsSound a) (λ _. Checked a image digest) (r, w)
      Checked-Ends w file (ok tt) i l elf = (file, i, l, elf refl)
      Checked-Ends w file (err e) i l elf = i

      IsElf-same :
          (files : Files) (f file : File)
          → lookup (partial_file a image digest) files ≡ some f
          → lookup (partial_file a image digest) files ≡ some file
          → IsElf file.content
          → IsElf f.content
      IsElf-same files f file e l elf = ground (arith, e, l, elf)

      moved-IsElf :
          (files : Files) (f : File)
          → Sound extractor.cache_dir files
          → IsElf f.content
          → Sound extractor.cache_dir
              (insert (cached a image digest) f (erase (partial_file a image digest) files))
      moved-IsElf files f i elf image' digest' file e =
          let probe = cached a image' digest' in
          let inserted =
            lookup-insert (cached a image digest) probe f
              (erase (partial_file a image digest) files) in
          let erased =
            erase-other (partial_file a image digest) probe files (apart image' digest') in
          let was = i image' digest' file in
          elim (Bool-cases (cached a image digest == probe)) [
            | inl b ↦ ground (arith, e, inserted, b, elf)
            | inr b ↦ was (ground (arith, e, inserted, b, erased))
          ]

      check_file-Ends :
          (w : World R) (can : Bool) (file : Option File)
          → lookup (partial_file a image digest) w.1 ≡ file
          → IsSound a w
          → Ends (IsSound a) (λ _. Checked a image digest) (check_file can file, w)
      unfolding check_file
      check_file-Ends w can none e i = i
      check_file-Ends w false (some file) e i = i
      check_file-Ends w true (some file) e i =
          Checked-Ends w file (check_magic file.content) i e (check_magic-IsElf file.content)

      with_mode-Ends :
          (w : World R) (done : Bool) (file : Option File)
          → lookup (partial_file a image digest) w.1 ≡ file
          → Checked a image digest w
          → Ends
              (IsSound a)
              (λ _. Checked a image digest)
              (
                (with_mode (partial_file a image digest) 0o600 done file w.1).0,
                (w.0, (with_mode (partial_file a image digest) 0o600 done file w.1).1),
              )
      unfolding with_mode
      with_mode-Ends w done none e (file, i, l, elf) = i
      with_mode-Ends w false (some f) e (file, i, l, elf) = i
      with_mode-Ends w true (some f) e (file, i, l, elf) = (
        record f { mode = 0o600 },
        same-IsSound a w.1 _ (λ image' digest'. insert-other _ _ _ _ (apart image' digest')) i,
        insert-same _ _ _,
        IsElf-same w.1 f file e l elf,
      )

      moved_to-Ends :
          (w : World R) (done : Bool) (file : Option File)
          → lookup (partial_file a image digest) w.1 ≡ file
          → Checked a image digest w
          → Ends
              (IsSound a)
              (λ _. Present a image digest)
              (
                (moved_to (partial_file a image digest) (cached a image digest) done file w.1).0,
                (
                  w.0,
                  (moved_to (partial_file a image digest) (cached a image digest) done file w.1).1,
                ),
              )
      unfolding moved_to
      moved_to-Ends w done none e (file, i, l, elf) = i
      moved_to-Ends w false (some f) e (file, i, l, elf) = i
      moved_to-Ends w true (some f) e (file, i, l, elf) =
          (f, moved-IsElf w.1 f i (IsElf-same w.1 f file e l elf), insert-same _ _ _)

      pub install-Leads :
          Leads
            (IsSound a)
            (IsSound a)
            (install a (partial_file a image digest) (cached a image digest))
            (λ path w. (path ≡ cached a image digest) × Present a image digest w)
      unfolding install validate_elf chmod rename_file on_files
      install-Leads =
          seq-Leads (Checked a image digest)
            (record {
              ends = λ w i.
                  check_file-Ends (others w) (disk.readable (partial_file a image digest)) _ refl
                    (peers.sound w i);
            })
            (seq-Leads (Checked a image digest)
              (record {
                ends = λ w c.
                    with_mode-Ends (others w) (disk.changes_mode (partial_file a image digest)) _
                      refl (Checked-stable w c);
              })
              (seq-Leads (Present a image digest)
                (record {
                  ends = λ w c.
                      moved_to-Ends (others w)
                        (disk.renames (partial_file a image digest) (cached a image digest)) _ refl
                        (Checked-stable w c);
                })
                (pure-Leads (λ w p. (refl, p)))))

      pub Present-stable :
          (w : World R) → Present a image digest w → Present a image digest (others w)
      Present-stable w (file, i, l) =
          let (now, k) = peers.kept w image digest file l in (now, peers.sound w i, k)

      erased-IsSound :
          (files : Files)
          → Sound extractor.cache_dir files
          → Sound extractor.cache_dir (erase (partial_file a image digest) files)
      erased-IsSound files =
          same-IsSound a files (erase (partial_file a image digest) files) (λ image' digest'.
            erase-other (partial_file a image digest) (cached a image' digest') files
              (apart image' digest'))

      pub remove-IsSound :
          (w : World R) → IsSound a w → (IsSound a) (remove a (partial_file a image digest) w)
      unfolding remove
      remove-IsSound w i = elim (Bool-cases (disk.removes (partial_file a image digest))) [
        | inl b ↦ rw b (erased-IsSound (others w).1 (peers.sound w i))
        | inr b ↦ rw b (peers.sound w i)
      ]

      pub remove-Present :
          (w : World R)
          → Present a image digest w
          → Present a image digest (remove a (partial_file a image digest) w)
      unfolding remove
      remove-Present w p =
          let (now, i, l) = Present-stable w p in
          elim (Bool-cases (disk.removes (partial_file a image digest))) [
            | inl b ↦ rw b (
              now,
              erased-IsSound (others w).1 i,
              erase-other (partial_file a image digest) (cached a image digest) (others w).1
                    (apart image digest)
                  ∙ l,
            )
            | inr b ↦ rw b (now, i, l)
          ]
