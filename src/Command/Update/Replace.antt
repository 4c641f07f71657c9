-- ===== src/Command/Update/Replace.antt =====
-- cmd/openshell-driver-applecontainer/update.go: the new binary takes the old one's place.
use openshell_driver_appleco.Files.{File, Files, mode_of, written-other}
use openshell_driver_appleco.Assoc.{insert-same, insert-other, erase-other}
use openshell_driver_appleco.Prelude.{
  ℕ, true, false, ◌&&◌, [], some, ◌≡◌, ◌≢◌, inl, inr, refl, arith, Bool-cases, Option-cases, sym,
  ◌∙◌,
}
use openshell_driver_appleco.Text.{Text}
use openshell_driver_appleco.Assoc.{lookup, insert, erase}
use openshell_driver_appleco.Command.Update.{Machine}
use openshell_driver_appleco.Command.Update.Io.{write_file, read_file, copy_file, rename}
use openshell_driver_appleco.Command.Update.Run.{swap, replace_binary}
use openshell_driver_appleco.Command.Update.Stages.{read_file-eq_some, both_true}

false_true {ℓ} : {A : Type ℓ} → false ≡ true → A
false_true e = absurd (ground (arith, e))

-- The file `dst` is now an executable copy of what `src` was.
abbrev pub IsCopy : Text → Text → Files → Files → Type 0
IsCopy src dst files files' =
    (file : File) × (lookup src files ≡ some file)
    × (lookup dst files' ≡ some (record { content = file.content; mode = 0o755 }))

module _ (m : Machine) where
  -- `sudo install -m 0755`: if it succeeds, the target is a copy of the file.
  abbrev pub Installs : Type 0
  Installs =
      (src dst : Text) (files : Files)
      → (m.install src dst files).0 ≡ true
      → IsCopy src dst files (m.install src dst files).1

  copy_file-done :
      (src dst : Text) (files : Files)
      → (copy_file m src dst 0o755 files).0 ≡ true
      → IsCopy src dst files (copy_file m src dst 0o755 files).1
  unfolding copy_file
  copy_file-done src dst files e = elim (Option-cases (read_file m src files)) [
    | inl k ↦ false_true (rw (k, copy_file) at e)
    | inr (content, k) ↦
        let (file, l, same) = read_file-eq_some m src content files k in
        let w = write_file m dst 0o755 content files in
        elim (Bool-cases (w.0 && m.changes_mode dst)) [
          | inl b ↦ (
            file,
            l,
            rw (k, copy_file)
                (rw (b, same) (insert-same dst (record { content = content; mode = 0o755 }) w.1)),
          )
          | inr b ↦
              let failed : (copy_file m src dst 0o755 files).0 ≡ false =
                rw (k, copy_file) (rw b refl) in
              false_true (sym failed ∙ e)
        ]
  ]

  copy_file-other :
      (src dst : Text) (mode : ℕ) (files : Files) (probe : Text)
      → dst ≢ probe
      → lookup probe (copy_file m src dst mode files).1 ≡ lookup probe files
  unfolding copy_file write_file
  copy_file-other src dst mode files probe ne = elim (Option-cases (read_file m src files)) [
    | inl k ↦ rw (k, copy_file) refl
    | inr (content, k) ↦
        let w = write_file m dst mode content files in
        let kept : lookup probe w.1 ≡ lookup probe files =
          written-other dst content (mode_of mode (lookup dst files)) (m.writing dst content) files
            probe ne in
        elim (Bool-cases (w.0 && m.changes_mode dst)) [
          | inl b ↦
              rw (k, copy_file)
                (rw b (
                  insert-other dst probe (record { content = content; mode = mode }) w.1 ne ∙ kept))
          | inr b ↦ rw (k, copy_file) (rw b kept)
        ]
  ]

  rename-done :
      (old new : Text) (files : Files)
      → (rename m old new files).0 ≡ true
      → (file : File) × (lookup old files ≡ some file)
        × (lookup new (rename m old new files).1 ≡ some file)
  unfolding rename
  rename-done old new files e = elim (Option-cases (lookup old files)) [
    | inl k ↦ false_true (rw (k, rename) at e)
    | inr (file, k) ↦ elim (Bool-cases (m.renames old new)) [
      | inl b ↦ (file, k, rw (k, rename) (rw b (insert-same new file (erase old files))))
      | inr b ↦
          let failed : (rename m old new files).0 ≡ false = rw (k, rename) (rw b refl) in
          false_true (sym failed ∙ e)
    ]
  ]

  swap-done :
      (target new staged : Text) (files : Files)
      → staged ≢ new
      → (swap m target new staged files).0 ≡ true
      → IsCopy new target files (swap m target new staged files).1
  unfolding swap
  swap-done target new staged files ne e =
      let emptied = insert staged (record { content = []; mode = 0o600 }) files in
      let c = copy_file m new staged 0o755 emptied in
      let r = rename m staged target c.1 in
      elim (Bool-cases (c.0 && r.0)) [
        | inr b ↦ false_true (rw b at e)
        | inl b ↦
            let (copied, renamed) = both_true c.0 r.0 b in
            let (file, l, k) = copy_file-done new staged emptied copied in
            let (moved, l', k') = rename-done staged target c.1 renamed in
            (
              file,
              sym (insert-other staged new (record { content = []; mode = 0o600 }) files ne) ∙ l,
              rw b (k' ∙ (sym l' ∙ k)),
            )
      ]

  swap-kept :
      (target new staged : Text) (files : Files)
      → staged ≢ new
      → (swap m target new staged files).0 ≡ false
      → lookup new (swap m target new staged files).1 ≡ lookup new files
  unfolding swap
  swap-kept target new staged files ne e =
      let emptied = insert staged (record { content = []; mode = 0o600 }) files in
      let c = copy_file m new staged 0o755 emptied in
      let r = rename m staged target c.1 in
      elim (Bool-cases (c.0 && r.0)) [
        | inl b ↦ false_true (sym (rw b at e))
        | inr b ↦ rw b (
            erase-other staged new c.1 ne
            ∙ (copy_file-other new staged 0o755 emptied new ne
                ∙ insert-other staged new (record { content = []; mode = 0o600 }) files ne))
      ]

  pub replace_binary-done :
      (target new : Text) (files : Files)
      → Installs
      → ((staged : Text) → m.staged target ≡ some staged → staged ≢ new)
      → (replace_binary m target new files).0 ≡ true
      → IsCopy new target files (replace_binary m target new files).1
  unfolding replace_binary
  replace_binary-done target new files installs apart e = elim (Option-cases (m.staged target)) [
    | inl k ↦ rw (k, replace_binary) (installs new target files (rw (k, replace_binary) at e))
    | inr (staged, k) ↦ elim (Bool-cases (swap m target new staged files).0) [
      | inl b ↦ rw (k, replace_binary) (rw b (swap-done target new staged files (apart staged k) b))
      | inr b ↦
          let kept = swap-kept target new staged files (apart staged k) b in
          let s = swap m target new staged files in
          let installed : (m.install new target s.1).0 ≡ true =
            rw b at (rw (k, replace_binary) at e) in
          let (file, l, t) = installs new target s.1 installed in
          (file, sym kept ∙ l, rw (k, replace_binary) (rw b t))
    ]
  ]
