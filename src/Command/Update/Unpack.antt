-- ===== src/Command/Update/Unpack.antt =====
-- cmd/openshell-driver-applecontainer/update.go: from the archive to the binary.
use openshell_driver_appleco.Files.{File, Files}
use openshell_driver_appleco.Prelude.{
  List, [], Option, none, some, ◌≡◌, ◌≢◌, ◌⊎◌, inl, inr, refl, arith, Bool-cases, Option-cases, sym,
  ap, subst, ◌∙◌,
}
use openshell_driver_appleco.Result.{Result, ok, err, Result-cases}
use openshell_driver_appleco.Text.{Text}
use openshell_driver_appleco.Assoc.{lookup}
use openshell_driver_appleco.Command.Update.{
  Member, UpdateError, bad_gzip, replace_failed, Machine, update_binary_name,
}
use openshell_driver_appleco.Command.Update.Io.{read_file}
use openshell_driver_appleco.Command.Update.Run.{
  extract_from, extract_binary_from_tar_gz, replace_binary, unpack,
}
use openshell_driver_appleco.Command.Update.Replace.{Installs, replace_binary-done}
use openshell_driver_appleco.Command.Update.Stages.{
  IsTaken, extract_from-IsTaken, extract_from-other,
}

pub content_of-eq : {a b : File} → ◌≡◌ {A = Option File} (some a) (some b) → a.content ≡ b.content
content_of-eq {a} {b} e = ap content_of e
  where
    content_of : Option File → Text
    content_of none = []
    content_of (some file) = file.content

module _ (m : Machine) where
  extract-other :
      (path name dest : Text) (files : Files) (probe : Text)
      → dest ≢ probe
      → lookup probe (extract_binary_from_tar_gz m path name dest files).1 ≡ lookup probe files
  unfolding extract_binary_from_tar_gz
  extract-other path name dest files probe ne = elim (Option-cases (read_file m path files)) [
    | inl k ↦ rw (k, extract_binary_from_tar_gz) refl
    | inr (archive, k) ↦ elim (Option-cases (m.gunzip archive)) [
      | inl l ↦ rw (k, extract_binary_from_tar_gz) (rw (l, extract_binary_from_tar_gz) refl)
      | inr (members, l) ↦
          rw (k, extract_binary_from_tar_gz)
            (rw (l, extract_binary_from_tar_gz)
              (extract_from-other m name dest members files probe ne))
    ]
  ]

  extract-IsTaken :
      (path name dest archive : Text) (files : Files)
      → read_file m path files ≡ some archive
      → (extract_binary_from_tar_gz m path name dest files).0 ≡ ok tt
      → (members : List Member) × (file : File) × (m.gunzip archive ≡ some members)
        × (lookup dest (extract_binary_from_tar_gz m path name dest files).1 ≡ some file)
        × IsTaken name members file.content
  unfolding extract_binary_from_tar_gz
  extract-IsTaken path name dest archive files k e = elim (Option-cases (m.gunzip archive)) [
    | inl l ↦
        let failed : (extract_binary_from_tar_gz m path name dest files).0 ≡ err bad_gzip =
          rw (k, extract_binary_from_tar_gz) (rw (l, extract_binary_from_tar_gz) refl) in
        absurd (ground (arith, sym failed ∙ e))
    | inr (members, l) ↦
        let opened : extract_binary_from_tar_gz m path name dest files
            ≡ extract_from m name dest members files =
          rw (k, extract_binary_from_tar_gz) (rw (l, extract_binary_from_tar_gz) refl) in
        let (file, f, t) =
          extract_from-IsTaken m name dest members files
            (subst (λ (z : Result UpdateError (Unit {0}) × Files). z.0 ≡ ok tt) opened e) in
        (
          members,
          file,
          l,
          subst (λ (z : Result UpdateError (Unit {0}) × Files). lookup dest z.1 ≡ some file)
              (sym opened) f,
          t,
        )
  ]

  -- From the check of the archive on.
  pub unpack-outcome :
      (target path dest archive : Text) (files : Files)
      → Installs m
      → dest ≢ target
      → ((staged : Text) → m.staged target ≡ some staged → staged ≢ dest)
      → read_file m path files ≡ some archive
      → let r = unpack m target path dest files in
        ((r.0 ≡ ok tt)
          × ((content : Text) × (members : List Member) × (lookup target r.1
                ≡ some (record { content = content; mode = 0o755 }))
              × (m.gunzip archive ≡ some members)
              × IsTaken update_binary_name members content))
        ⊎ ((e : UpdateError) × (r.0 ≡ err e)
            × ((lookup target r.1 ≡ lookup target files) ⊎ (e ≡ replace_failed)))
  unfolding unpack
  unpack-outcome target path dest archive files installs other apart k =
      let x = extract_binary_from_tar_gz m path update_binary_name dest files in
      elim (Result-cases x.0) [
        | inl (u, o) ↦
            let (members, file, l, f, t) =
              extract-IsTaken path update_binary_name dest archive files k o in
            elim (Bool-cases (replace_binary m target dest x.1).0) [
              | inl b ↦
                  let (copied, g, h) = replace_binary-done m target dest x.1 installs apart b in
                  let same : file.content ≡ copied.content = content_of-eq (sym f ∙ g) in
                  inl (
                    rw (o, unpack) (rw b refl),
                    (file.content, members, rw (o, unpack) (rw same h), l, t),
                  )
              | inr b ↦ inr (replace_failed, rw (o, unpack) (rw b refl), inr refl)
            ]
        | inr (e, o) ↦ inr (
          e,
          rw (o, unpack) refl,
          inl (rw (o, unpack) (extract-other path update_binary_name dest files target other)),
        )
      ]
