-- ===== src/Command/Update/Verified.antt =====
-- cmd/openshell-driver-applecontainer/update.go: what an update installs.
use openshell_driver_appleco.Files.{File, Files}
use openshell_driver_appleco.Prelude.{
  ℕ, zero, suc, Bool, true, false, List, [], ◌∷◌, Option, none, some, take, ◌≡◌, ◌≢◌, ◌⊎◌, inl, inr,
  refl, sym, ap, subst, ◌∙◌,
}
use openshell_driver_appleco.Result.{Result, ok, err}
use openshell_driver_appleco.Text.{Text, text}
use openshell_driver_appleco.Assoc.{lookup}
use openshell_driver_appleco.Command.Update.{
  Response, Member, UpdateError, no_temp_dir, sums_failed, replace_failed, download_failed, Machine,
  max_archive_bytes, update_binary_name, release_archive_name, release_url, join_path, is_under,
  remove_all,
}
use openshell_driver_appleco.Command.Update.Io.{http_get, http_get_bytes, download_to}
use openshell_driver_appleco.Command.Update.Run.{
  verify_checksum, with_dir, after_check, with_sums, downloaded, update_in, self_update,
}
use openshell_driver_appleco.Command.Update.Replace.{Installs}
use openshell_driver_appleco.Command.Update.Unpack.{content_of-eq, unpack-outcome}
use openshell_driver_appleco.Command.Update.Listing.{IsListed}
use openshell_driver_appleco.Command.Update.Stages.{
  IsTaken, remove_all-other, download_to-content, download_to-other, verify_checksum-IsListed,
  read_file-eq_some,
}

take-take {ℓ} : {A : Type ℓ} (n : ℕ) (xs : List A) → take n (take n xs) ≡ take n xs
take-take zero xs = refl
take-take (suc n) [] = refl
take-take (suc n) (x ∷ xs) = ap (x ∷◌) (take-take n xs)

module _ (m : Machine) where
  -- A file of the release of that version: what is downloaded from its address for this machine's kind,
  -- with a digest that the release's own list of checksums has for that name, holds the binary.
  abbrev pub IsRelease : Text → Text → Type 0
  IsRelease version content =
      (r : Response) × (sums : Text) × (members : List Member) × (http_get m
          (release_url version (release_archive_name version))
        ≡ some r)
      × (http_get_bytes m (release_url version (text "checksums.txt")) ≡ some sums)
      × IsListed sums (release_archive_name version) (m.sha256 (take max_archive_bytes r.body))
      × (m.gunzip (take max_archive_bytes r.body) ≡ some members)
      × IsTaken update_binary_name members content

  -- The names of the temporary files are none of the target, and differ from each other.
  pub record IsFresh (target version : Text) : Type 0 where
    pub outside : (dir : Text) → m.temp_dir ≡ some dir → is_under dir target ≡ false
    pub archive :
        (dir : Text) → m.temp_dir ≡ some dir → join_path dir (release_archive_name version) ≢ target
    pub extracted : (dir : Text) → m.temp_dir ≡ some dir → join_path dir update_binary_name ≢ target
    pub staged :
        (dir staged : Text)
        → m.temp_dir ≡ some dir
        → m.staged target ≡ some staged
        → staged ≢ join_path dir update_binary_name

  -- How an update ends: the release is installed, or there is an error and the target is as it was,
  -- but for an error of the replacement itself.
  abbrev pub Outcome : Text → Text → Files → Result UpdateError (Unit {0}) × Files → Type 0
  Outcome target version files r =
      ((r.0 ≡ ok tt)
        × ((content : Text) × (lookup target r.1
              ≡ some (record { content = content; mode = 0o755 }))
            × IsRelease version content))
      ⊎ ((e : UpdateError) × (r.0 ≡ err e)
          × ((lookup target r.1 ≡ lookup target files) ⊎ (e ≡ replace_failed)))

  Outcome-kept :
      (target version : Text) (files files' : Files) (r : Result UpdateError (Unit {0}) × Files)
      → lookup target files' ≡ lookup target files
      → Outcome target version files' r
      → Outcome target version files r
  Outcome-kept target version files files' r kept (inl done) = inl done
  Outcome-kept target version files files' r kept (inr (e, f, inl same)) =
      inr (e, f, inl (same ∙ kept))
  Outcome-kept target version files files' r kept (inr (e, f, inr failed)) = inr (e, f, inr failed)

  module _ (target version path dest : Text) (installs : Installs m) (other : dest ≢ target)
      (apart : (staged : Text) → m.staged target ≡ some staged → staged ≢ dest) (r : Response)
      (answered : http_get m (release_url version (release_archive_name version)) ≡ some r)
      (files : Files) (file : File) (there : lookup path files ≡ some file)
      (whole : file.content ≡ take max_archive_bytes r.body) where
    after_check-outcome :
        (sums : Text) (checked : Result UpdateError (Unit {0}))
        → http_get_bytes m (release_url version (text "checksums.txt")) ≡ some sums
        → verify_checksum m path sums (release_archive_name version) files ≡ checked
        → Outcome target version files (after_check m target path dest checked files)
    unfolding after_check
    after_check-outcome sums (err e) k l = inr (e, refl, inl refl)
    after_check-outcome sums (ok u) k l =
        let (archive, a, q) =
          verify_checksum-IsListed m path sums (release_archive_name version) files l in
        let (file', there', same) = read_file-eq_some m path archive files a in
        let body : archive ≡ take max_archive_bytes r.body =
          sym same ∙ (content_of-eq (sym there' ∙ there) ∙ whole) in
        elim (unpack-outcome m target path dest archive files installs other apart a) [
          | inl (o, (content, members, t, g, taken)) ↦ inl (
            o,
            (
              content,
              t,
              (
                r,
                sums,
                members,
                answered,
                k,
                subst (λ (z : Text). IsListed sums (release_archive_name version) (m.sha256 z))
                    (ap (take max_archive_bytes) body ∙ take-take max_archive_bytes r.body) q,
                subst (λ (z : Text). m.gunzip z ≡ some members) body g,
                taken,
              ),
            ),
          )
          | inr p ↦ inr p
        ]

    with_sums-outcome :
        (sums : Option Text)
        → http_get_bytes m (release_url version (text "checksums.txt")) ≡ sums
        → Outcome target version files
            (with_sums m target path dest (release_archive_name version) sums files)
    unfolding with_sums
    with_sums-outcome none k = inr (sums_failed, refl, inl refl)
    with_sums-outcome (some sums) k =
        after_check-outcome sums (verify_checksum m path sums (release_archive_name version) files)
          k refl

  module _ (dir target version : Text) (files : Files) (installs : Installs m)
      (fresh : IsFresh target version) (d : m.temp_dir ≡ some dir) where
    abbrev archive_path : Text
    archive_path = join_path dir (release_archive_name version)

    abbrev archive_url : Text
    archive_url = release_url version (release_archive_name version)

    downloaded-outcome :
        (g : Bool × Files)
        → download_to m archive_url archive_path files ≡ g
        → Outcome target version files (
            downloaded m target archive_path
              (join_path dir update_binary_name)
              (release_archive_name version)
              (release_url version (text "checksums.txt"))
              g)
    unfolding downloaded
    downloaded-outcome (false, files') k = inr (
      download_failed (release_archive_name version),
      refl,
      inl (
          ap (λ (z : Bool × Files). lookup target z.1) (sym k)
          ∙ download_to-other m archive_url archive_path files target (fresh.archive dir d)),
    )
    downloaded-outcome (true, files') k =
        let (r, file, a, there, whole) =
          download_to-content m archive_url archive_path files (ap (λ (z : Bool × Files). z.0) k) in
        Outcome-kept target version files files' _
          (ap (λ (z : Bool × Files). lookup target z.1) (sym k)
            ∙ download_to-other m archive_url archive_path files target (fresh.archive dir d))
          (with_sums-outcome target version archive_path (join_path dir update_binary_name) installs
            (fresh.extracted dir d) (λ staged s. fresh.staged dir staged d s) r a files' file
            (ap (λ (z : Bool × Files). lookup archive_path z.1) (sym k) ∙ there) whole
            (http_get_bytes m (release_url version (text "checksums.txt"))) refl)

    update_in-outcome : Outcome target version files (update_in m dir target version files)
    unfolding update_in
    update_in-outcome = downloaded-outcome (download_to m archive_url archive_path files) refl

  Outcome-removed :
      (dir target version : Text) (files : Files) (r : Result UpdateError (Unit {0}) × Files)
      → is_under dir target ≡ false
      → Outcome target version files r
      → Outcome target version files (r.0, remove_all dir r.1)
  Outcome-removed dir target version files r h (inl (o, (c, t, rel))) =
      inl (o, (c, remove_all-other dir r.1 target h ∙ t, rel))
  Outcome-removed dir target version files r h (inr (e, f, inl same)) =
      inr (e, f, inl (remove_all-other dir r.1 target h ∙ same))
  Outcome-removed dir target version files r h (inr (e, f, inr failed)) = inr (e, f, inr failed)

  with_dir-outcome :
      (dir : Option Text) (target version : Text) (files : Files)
      → Installs m
      → IsFresh target version
      → m.temp_dir ≡ dir
      → Outcome target version files (with_dir m dir target version files)
  unfolding with_dir
  with_dir-outcome none target version files installs fresh k = inr (no_temp_dir, refl, inl refl)
  with_dir-outcome (some dir) target version files installs fresh k =
      Outcome-removed dir target version files (update_in m dir target version files)
        (fresh.outside dir k) (update_in-outcome dir target version files installs fresh k)

  -- An update that succeeds has put, with the mode of a program, a regular member of the release's
  -- archive in the binary's place, and the digest of that archive is the one that the release's list of
  -- checksums has for it. One that ends in an error, whichever call fails, leaves the binary as it was,
  -- unless it is the replacement itself that failed. `sudo install` copies what it is told to if it
  -- succeeds, and temporary names are new.
  pub self_update-Outcome :
      (target version : Text) (files : Files)
      → Installs m
      → IsFresh target version
      → Outcome target version files (self_update m target version files)
  unfolding self_update
  self_update-Outcome target version files installs fresh =
      with_dir-outcome m.temp_dir target version files installs fresh refl
