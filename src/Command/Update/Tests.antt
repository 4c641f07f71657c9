-- ===== src/Command/Update/Tests.antt =====
-- An update from a release whose archive holds a note beside the binary.
use openshell_driver_appleco.Files.{File, Files, complete}
use openshell_driver_appleco.Prelude.{
  Bool, true, false, [], ◌∷◌, Option, none, some, ◌≡◌, ◌≢◌, refl, arith, ap, subst, Option-cases,
  inl, inr, if◌then◌else◌,
}
use openshell_driver_appleco.Result.{ok, err}
use openshell_driver_appleco.Text.{Text, text, ◌==◌, split, has_prefix, join, trim_right}
use openshell_driver_appleco.Text.Search.{fields, to_lower}
use openshell_driver_appleco.Text.Path.{clean}
use openshell_driver_appleco.Text.Laws.{eq_iff}
use openshell_driver_appleco.Assoc.{lookup, insert, erase, lookup-insert}
use openshell_driver_appleco.Command.Update.{
  member, Machine, mismatch, release_url, release_archive_name, join_path, update_binary_name,
  is_under,
}
use openshell_driver_appleco.Command.Update.Io.{download_to, http_get_bytes}
use openshell_driver_appleco.Command.Update.Run.{self_update, verify_checksum, unpack}
use openshell_driver_appleco.Command.Update.Replace.{Installs}
use openshell_driver_appleco.Command.Update.Verified.{IsFresh, Outcome, self_update-Outcome}

abbrev target : Text
target = text "/opt/bin/openshell-driver-applecontainer"

abbrev old : Files
old = (target, record { content = text "old"; mode = 0o755 }) ∷ []

abbrev sums : Text
sums = text "00  other\nAB  openshell-driver-applecontainer_0.2.4_darwin_arm64.tar.gz\n"

copies : Text → Text → Files → Bool × Files
copies src dst files = elim (lookup src files) [
  | none ↦ (false, files)
  | some file ↦ (true, insert dst (record { content = file.content; mode = 0o755 }) files)
]

-- The machine, given the digest of the archive.
abbrev machine : Text → Machine
machine digest = record {
  respond = λ url. some (record {
    status = 200;
    body = if url == release_url (text "v0.2.4") (text "checksums.txt") then sums else text "gz";
    is_cut = false;
  });
  temp_dir = some (text "/tmp/u");
  staged = λ path. some (text "/opt/bin/.u");
  writing = λ path content. complete;
  readable = λ path. true;
  changes_mode = λ path. true;
  renames = λ from to. true;
  install = copies;
  sha256 = λ content. digest;
  gunzip = λ content. some (
      member true (text "README.md") (text "note") false
      ∷ member true (text "./openshell-driver-applecontainer") (text "new") false
      ∷ []);
}

installs_test :
    self_update (machine (text "ab")) target (text "v0.2.4") old
    ≡ (ok tt, (target, record { content = text "new"; mode = 0o755 }) ∷ [])
unfolding self_update download_to http_get_bytes verify_checksum ◌==◌ split fields to_lower
    has_prefix release_url release_archive_name lookup insert join_path clean join trim_right unpack
    erase copies
installs_test = refl

mismatch_test : self_update (machine (text "cd")) target (text "v0.2.4") old ≡ (
  err (
      mismatch
        (text "openshell-driver-applecontainer_0.2.4_darwin_arm64.tar.gz")
        (text "cd")
        (text "ab")),
  old,
)
unfolding self_update download_to http_get_bytes verify_checksum ◌==◌ split fields to_lower
    has_prefix release_url release_archive_name lookup insert join_path clean join trim_right
mismatch_test = refl

copies-Installs : Installs (machine (text "ab"))
unfolding copies
copies-Installs src dst files e = elim (Option-cases (lookup src files)) [
  | inl k ↦
      let failed : (copies src dst files).0 ≡ false = rw (k, copies) refl in
      absurd (ground (arith, failed, e))
  | inr (file, k) ↦
      let copy : File = record { content = file.content; mode = 0o755 } in
      (file, k, rw (k, copies) (ground (arith, lookup-insert dst dst copy files, eq_iff dst dst)))
]

some_inj : {a b : Text} → ◌≡◌ {A = Option Text} (some a) (some b) → a ≡ b
some_inj {a} {b} e = ap content e
  where
    content : Option Text → Text
    content none = []
    content (some x) = x

distinct : (a b : Text) → (a == b) ≡ false → a ≢ b
distinct a b h e = ground (arith, h, e, eq_iff a b)

names-IsFresh : IsFresh (machine (text "ab")) target (text "v0.2.4")
unfolding ◌==◌ is_under join_path clean split join has_prefix release_archive_name
    update_binary_name
names-IsFresh = record {
  outside = λ dir e. subst (λ (z : Text). is_under z target ≡ false) (some_inj e) refl;
  archive = λ dir e.
      subst (λ (z : Text). join_path z (release_archive_name (text "v0.2.4")) ≢ target) (some_inj e)
        (distinct (join_path (text "/tmp/u") (release_archive_name (text "v0.2.4"))) target refl);
  extracted = λ dir e.
      subst (λ (z : Text). join_path z update_binary_name ≢ target) (some_inj e)
        (distinct (join_path (text "/tmp/u") update_binary_name) target refl);
  staged = λ dir staged e k.
      subst (λ (z : Text). staged ≢ join_path z update_binary_name) (some_inj e)
        (subst (λ (z : Text). z ≢ join_path (text "/tmp/u") update_binary_name) (some_inj k)
          (distinct (text "/opt/bin/.u") (join_path (text "/tmp/u") update_binary_name) refl));
}

self_update-Outcome_example :
    Outcome
      (machine (text "ab"))
      target
      (text "v0.2.4")
      old
      (self_update (machine (text "ab")) target (text "v0.2.4") old)
self_update-Outcome_example =
    self_update-Outcome (machine (text "ab")) target (text "v0.2.4") old copies-Installs
      names-IsFresh
