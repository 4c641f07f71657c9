-- ===== src/Seed/Ensure.antt =====
-- internal/seed/seed.go: `Extractor.Ensure` gives a binary that has passed the check.
use openshell_driver_appleco.Prelude.{Bool, true, false, some, ◌≡◌}
use openshell_driver_appleco.Text.{Text}
use openshell_driver_appleco.Assoc.{lookup}
use openshell_driver_appleco.Files.{File}
use openshell_driver_appleco.Seed.Extract.{World, Attempt}
use openshell_driver_appleco.Seed.Cache.{IsElf, Peers, LeavesFiles, cached, IsSound, Present}

module _ {R : Type 0} (a : Attempt R) where
  open a use {runtime, disk, others, extractor, pid, seq}

  -- The path is that of the binary of the image under some digest, and an ELF file lies there.
  abbrev pub IsEnsured : Text → Text → World R → Type 0
  IsEnsured image path w =
      (digest : Text) × (file : File) × (path ≡ cached a image digest)
      × (lookup path w.1 ≡ some file)
      × IsElf file.content
      × IsSound a w

  module _ (peers : Peers a) (leaves : LeavesFiles a) where
    module _ (image digest : Text) where
      -- The path is the cached binary's, which lies there and is an ELF file.
      abbrev Ensured : Text → World R → Type 0
      Ensured path w = (path ≡ cached a image digest) × Present a image digest w

      -- What a look at the cache says.
      abbrev Looked : Bool → World R → Type 0
      Looked true w = Present a image digest w
      Looked false w = IsSound a w
