-- ===== src/Command/Update/Stages.antt =====
-- cmd/openshell-driver-applecontainer/update.go: the stages of an update.
use openshell_driver_appleco.Files.{File, Files, mode_of, written, written-other, written-done}
use openshell_driver_appleco.Prelude.{
  Bool, true, false, not, ◌&&◌, ◌||◌, List, [], ◌∷◌, ◌++◌, some, leb, take, length, ◌≡◌, ◌≢◌, inl,
  inr, refl, arith, if◌then◌else◌, Bool-cases, Option-cases, ap, ◌∙◌,
}
use openshell_driver_appleco.Result.{Result, ok, err}
use openshell_driver_appleco.Text.{Text, ◌==◌, split}
use openshell_driver_appleco.Text.Laws.{eq_iff}
use openshell_driver_appleco.Assoc.{lookup}
use openshell_driver_appleco.Command.Update.{
  Response, Member, member, malformed, UpdateError, write_failed, Machine, max_archive_bytes,
  base_name, is_under, remove_all, wanted,
}
use openshell_driver_appleco.Command.Update.Io.{
  write_file, read_file, http_get, limited, download_to,
}
use openshell_driver_appleco.Command.Update.Run.{verify_checksum, extract_from}
use openshell_driver_appleco.Command.Update.Listing.{IsListed, wanted-IsListed}

-- What the update may take out of an archive.
abbrev pub IsTaken : Text → List Member → Text → Type 0
IsTaken name members content =
    (before after : List Member) × (file body : Text) × (is_cut : Bool) × (members
      ≡ before ++ member true file body is_cut ∷ after)
    × (base_name file ≡ name)
    × (content ≡ take max_archive_bytes body)

pub remove_all-other :
    (dir : Text) (files : Files) (probe : Text)
    → is_under dir probe ≡ false
    → lookup probe (remove_all dir files) ≡ lookup probe files
unfolding remove_all lookup
remove_all-other dir [] probe h = refl
remove_all-other dir ((path, file) ∷ rest) probe h =
    ground (arith, h, remove_all-other dir rest probe h, eq_iff path probe)

pub both_true : (a b : Bool) → (a && b) ≡ true → (a ≡ true) × (b ≡ true)
both_true a b h = (ground (arith, h), ground (arith, h))

if_ok :
    (b : Bool) (x : UpdateError)
    → ◌≡◌ {A = Result UpdateError (Unit {0})} (if b then ok tt else err x) (ok tt)
    → b ≡ true
if_ok b x h = ground (arith, h)

neither : (a b : Bool) → (not a || not b) ≡ false → (a ≡ true) × (b ≡ true)
neither a b h = (ground (arith, h), ground (arith, h))

module _ (m : Machine) where
  pub download_to-content :
      (url dest : Text) (files : Files)
      → (download_to m url dest files).0 ≡ true
      → (r : Response) × (file : File) × (http_get m url ≡ some r)
        × (lookup dest (download_to m url dest files).1 ≡ some file)
        × (file.content ≡ take max_archive_bytes r.body)
  unfolding download_to limited write_file
  download_to-content url dest files e = elim (Option-cases (http_get m url)) [
    | inl k ↦ absurd (ground (arith, e, k))
    | inr (r, k) ↦
        let body = take max_archive_bytes r.body in
        let mode = mode_of 0o666 (lookup dest files) in
        let done : (written dest body mode (m.writing dest body) files).0 ≡ true =
          (both_true (limited m r).0 (written dest body mode (m.writing dest body) files).0
            (rw (k, download_to) at e)).1 in
        (
          r,
          record { content = body; mode = mode },
          k,
          rw (k, download_to) (written-done dest body mode (m.writing dest body) files done),
          refl,
        )
  ]

  pub download_to-other :
      (url dest : Text) (files : Files) (probe : Text)
      → dest ≢ probe
      → lookup probe (download_to m url dest files).1 ≡ lookup probe files
  unfolding download_to limited write_file
  download_to-other url dest files probe ne = elim (Option-cases (http_get m url)) [
    | inl k ↦ rw (k, download_to) refl
    | inr (r, k) ↦
        let body = take max_archive_bytes r.body in
        rw (k, download_to)
          (written-other dest body (mode_of 0o666 (lookup dest files)) (m.writing dest body) files
            probe ne)
  ]

  pub read_file-eq_some :
      (path content : Text) (files : Files)
      → read_file m path files ≡ some content
      → (file : File) × (lookup path files ≡ some file) × (file.content ≡ content)
  unfolding read_file
  read_file-eq_some path content files e = elim (Option-cases (lookup path files)) [
    | inl k ↦ absurd (ground (arith, e, k))
    | inr (file, k) ↦ (file, k, ground (arith, e, k))
  ]

  pub verify_checksum-IsListed :
      (path sums name : Text) (files : Files)
      → verify_checksum m path sums name files ≡ ok tt
      → (archive : Text) × (read_file m path files ≡ some archive)
        × IsListed sums name (m.sha256 (take max_archive_bytes archive))
  unfolding verify_checksum
  verify_checksum-IsListed path sums name files e = elim (Option-cases (read_file m path files)) [
    | inl k ↦ absurd (ground (arith, e, k))
    | inr (archive, k) ↦
        let same : m.sha256 (take max_archive_bytes archive) ≡ wanted name (split sums 10) =
          ground (
            arith,
            e,
            k,
            eq_iff (m.sha256 (take max_archive_bytes archive)) (wanted name (split sums 10)),
          ) in
        let (before, after, l, hex, f, g, d) =
          wanted-IsListed name (split sums 10)
            (λ z. ground (arith, e, k, z, eq_iff (wanted name (split sums 10)) [])) in
        (archive, k, (before, after, l, hex, f, g, same ∙ d))
  ]

  pub extract_from-IsTaken :
      (name dest : Text) (members : List Member) (files : Files)
      → (extract_from m name dest members files).0 ≡ ok tt
      → (file : File) × (lookup dest (extract_from m name dest members files).1 ≡ some file)
        × IsTaken name members file.content
  unfolding extract_from write_file
  extract_from-IsTaken name dest [] files e = absurd (ground (arith, e))
  extract_from-IsTaken name dest (malformed ∷ rest) files e = absurd (ground (arith, e))
  extract_from-IsTaken name dest (member is_regular f body is_cut ∷ rest) files e =
      elim (Bool-cases (not is_regular || not (base_name f == name))) [
        | inl b ↦
            let (file, k, (before, after, g, body', c, l, n, t)) =
              extract_from-IsTaken name dest rest files (rw b at e) in
            (
              file,
              rw b k,
              (
                member is_regular f body is_cut ∷ before,
                after,
                g,
                body',
                c,
                ap (λ (z : List Member). member is_regular f body is_cut ∷ z) l,
                n,
                t,
              ),
            )
        | inr b ↦
            let kept = take max_archive_bytes body in
            let mode = mode_of 0o755 (lookup dest files) in
            let (regular, named) = neither is_regular (base_name f == name) b in
            let done : (written dest kept mode (m.writing dest kept) files).0 ≡ true =
              (both_true (written dest kept mode (m.writing dest kept) files).0
                (not is_cut || leb max_archive_bytes (length body))
                (if_ok
                  ((written dest kept mode (m.writing dest kept) files).0
                    && (not is_cut || leb max_archive_bytes (length body)))
                  write_failed (rw b at e))).0 in
            (
              record { content = kept; mode = mode },
              rw b (written-done dest kept mode (m.writing dest kept) files done),
              (
                [],
                rest,
                f,
                body,
                is_cut,
                rw regular refl,
                (eq_iff (base_name f) name).0 named,
                refl,
              ),
            )
      ]

  pub extract_from-other :
      (name dest : Text) (members : List Member) (files : Files) (probe : Text)
      → dest ≢ probe
      → lookup probe (extract_from m name dest members files).1 ≡ lookup probe files
  unfolding extract_from write_file
  extract_from-other name dest [] files probe ne = refl
  extract_from-other name dest (malformed ∷ rest) files probe ne = refl
  extract_from-other name dest (member is_regular f body is_cut ∷ rest) files probe ne =
      elim (Bool-cases (not is_regular || not (base_name f == name))) [
        | inl b ↦ rw b (extract_from-other name dest rest files probe ne)
        | inr b ↦ rw b (
            written-other dest (take max_archive_bytes body) (mode_of 0o755 (lookup dest files))
              (m.writing dest (take max_archive_bytes body)) files probe ne)
      ]
