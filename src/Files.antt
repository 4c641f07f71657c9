-- ===== src/Files.antt =====
-- The files of the host, by their path, and what a write to one of them does. Which calls fail, and how
-- much a failed write leaves, is for each component's parameters to say.
use openshell_driver_appleco.Prelude.{
  ℕ, Bool, true, false, List, Option, none, some, ◌≡◌, ◌≢◌, refl, arith,
}
use openshell_driver_appleco.Text.{Text}
use openshell_driver_appleco.Text.Laws.{eq_iff}
use openshell_driver_appleco.Assoc.{lookup, insert, lookup-insert}

pub record File : Type 0 where
  pub content : Text
  pub mode : ℕ

abbrev pub Files : Type 0
Files = List (Text × File)

-- What becomes of a text that is written to a file.
pub data Write : Type 0 where
  refused : Write
  partial : Text → Write
  complete : Write

unfoldable pub mode_of : ℕ → Option File → ℕ
mode_of mode none = mode
mode_of mode (some file) = file.mode

unfoldable pub written : Text → Text → ℕ → Write → Files → Bool × Files
written path content mode refused files = (false, files)
written path content mode (partial t) files =
    (false, insert path (record { content = t; mode = mode }) files)
written path content mode complete files =
    (true, insert path (record { content = content; mode = mode }) files)

-- A write to one file leaves the others.
pub written-other :
    (path content : Text) (mode : ℕ) (w : Write) (files : Files) (probe : Text)
    → path ≢ probe
    → lookup probe (written path content mode w files).1 ≡ lookup probe files
unfolding written
written-other path content mode refused files probe ne = refl
written-other path content mode (partial t) files probe ne = ground (
  arith,
  lookup-insert path probe (record { content = t; mode = mode }) files,
  ne,
  eq_iff path probe,
)
written-other path content mode complete files probe ne = ground (
  arith,
  lookup-insert path probe (record { content = content; mode = mode }) files,
  ne,
  eq_iff path probe,
)

pub written-done :
    (path content : Text) (mode : ℕ) (w : Write) (files : Files)
    → (written path content mode w files).0 ≡ true
    → lookup path (written path content mode w files).1
      ≡ some (record { content = content; mode = mode })
unfolding written
written-done path content mode refused files d = absurd (ground (arith, d))
written-done path content mode (partial t) files d = absurd (ground (arith, d))
written-done path content mode complete files d = ground (
  arith,
  lookup-insert path path (record { content = content; mode = mode }) files,
  eq_iff path path,
)
