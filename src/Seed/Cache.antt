-- ===== src/Seed/Cache.antt =====
-- internal/seed/seed.go: what the cache holds, whoever fills it.
use openshell_driver_appleco.Prelude.{true, [], ◌∷◌, Option, none, some, ◌≡◌, ◌≢◌, sym, ◌∙◌, arith}
use openshell_driver_appleco.Result.{Result, ok, err}
use openshell_driver_appleco.Text.{Text, text, has_prefix}
use openshell_driver_appleco.Assoc.{lookup}
use openshell_driver_appleco.Files.{File, Files}
use openshell_driver_appleco.Backend.{RuntimeError, RunSpec}
use openshell_driver_appleco.Seed.{SeedError, bin_path, partial_path, check_magic}
use openshell_driver_appleco.Seed.Step.{Ends, Leads, bind-Leads, seq-Leads, pure-Leads, stop-Leads}
use openshell_driver_appleco.Seed.Extract.{
  World, Attempt, answer, call, found_digest, find_digest, pull_digest, or_pull_digest,
}

-- The first bytes of an ELF file.
abbrev pub IsElf : Text → Type 0
IsElf content = has_prefix content (0x7f ∷ text "ELF") ≡ true

-- Whatever lies at the path of a cached binary is an ELF file.
abbrev pub Sound : Text → Files → Type 0
Sound dir files =
    (image digest : Text) (file : File)
    → lookup (bin_path dir image digest) files ≡ some file
    → IsElf file.content

pub check_magic-IsElf : (content : Text) → check_magic content ≡ ok tt → IsElf content
unfolding check_magic has_prefix
check_magic-IsElf [] h = absurd (ground (arith, h))
check_magic-IsElf (a ∷ []) h = absurd (ground (arith, h))
check_magic-IsElf (a ∷ b ∷ []) h = absurd (ground (arith, h))
check_magic-IsElf (a ∷ b ∷ c ∷ []) h = absurd (ground (arith, h))
check_magic-IsElf (a ∷ b ∷ c ∷ d ∷ s) h = ground (arith, h)

module _ {R : Type 0} (a : Attempt R) where
  open a use {runtime, disk, others, extractor, pid, seq}

  abbrev pub cached : Text → Text → Text
  cached image digest = bin_path extractor.cache_dir image digest

  abbrev pub partial_file : Text → Text → Text
  partial_file image digest = partial_path extractor.cache_dir image digest pid seq

  -- What goes on beside this attempt keeps the cache in order, does not remove what is cached, and leaves
  -- the partial file of this attempt alone.
  pub record Peers : Type 0 where
    pub sound :
        (w : World R) → Sound extractor.cache_dir w.1 → Sound extractor.cache_dir (others w).1
    pub own :
        (w : World R) (image digest : Text)
        → lookup (partial_file image digest) (others w).1 ≡ lookup (partial_file image digest) w.1
    pub kept :
        (w : World R) (image digest : Text) (file : File)
        → lookup (cached image digest) w.1 ≡ some file
        → (now : File) × (lookup (cached image digest) (others w).1 ≡ some now)

  -- The runtime's calls leave the host's files alone, but for the target of a copy.
  pub record LeavesFiles : Type 0 where
    pub run : (spec : RunSpec) (w : World R) → (runtime.run spec w).1.1 ≡ w.1
    pub delete : (name : Text) (w : World R) → (runtime.delete name w).1.1 ≡ w.1
    pub image_list : (w : World R) → (runtime.image_list w).1.1 ≡ w.1
    pub image_pull :
        (image platform : Text) (w : World R) → (runtime.image_pull image platform w).1.1 ≡ w.1
    pub copy_from :
        (name source target : Text) (w : World R) (probe : Text)
        → target ≢ probe
        → lookup probe (runtime.copy_from name source target w).1.1 ≡ lookup probe w.1

  abbrev pub IsSound : World R → Type 0
  IsSound w = Sound extractor.cache_dir w.1

  -- The partial file has passed the check.
  abbrev pub Checked : Text → Text → World R → Type 0
  Checked image digest w =
      (file : File) × IsSound w
      × (lookup (partial_file image digest) w.1 ≡ some file)
      × IsElf file.content

  abbrev pub Present : Text → Text → World R → Type 0
  Present image digest w =
      (file : File) × IsSound w × (lookup (cached image digest) w.1 ≡ some file)

  pub same-IsSound :
      (files files' : Files)
      → ((image digest : Text)
          → lookup (cached image digest) files' ≡ lookup (cached image digest) files)
      → Sound extractor.cache_dir files
      → Sound extractor.cache_dir files'
  same-IsSound files files' same h image digest file e =
      h image digest file (sym (same image digest) ∙ e)

  answer-Ends :
      {A : Type 0} (Q : A → World R → Type 0) (f : RuntimeError → SeedError)
      (r : Result RuntimeError A × World R)
      → IsSound r.1
      → ((a : A) → Q a r.1)
      → Ends IsSound Q (answer f r)
  unfolding answer
  answer-Ends Q f (ok v, w) i q = q v
  answer-Ends Q f (err e, w) i q = i

  module _ (peers : Peers) (leaves : LeavesFiles) where
    -- A call that leaves the files alone.
    pub call-Leads :
        {A : Type 0} (f : RuntimeError → SeedError) (op : World R → Result RuntimeError A × World R)
        → ((w : World R) → IsSound w → IsSound (op w).1)
        → Leads IsSound IsSound (call a f op) (λ _. IsSound)
    unfolding call
    call-Leads f op h = record {
      ends = λ w i.
          let i' = h (others w) (peers.sound w i) in
          answer-Ends (λ _. IsSound) f (op (others w)) i' (λ _. i');
    }

    pub images-Leads :
        (f : RuntimeError → SeedError) (image : Text)
        → Leads IsSound IsSound (find_digest a f image) (λ _. IsSound)
    unfolding find_digest
    images-Leads f image =
        bind-Leads (call-Leads f runtime.image_list (λ w i. rw (leaves.image_list w) i))
          (λ images. pure-Leads (λ w i. i))

    found_digest-Leads :
        (image : Text) (found : Option Text)
        → Leads IsSound IsSound (found_digest {R = R} image found) (λ _. IsSound)
    unfolding found_digest
    found_digest-Leads image none = stop-Leads (λ w i. i)
    found_digest-Leads image (some digest) = pure-Leads (λ w i. i)

    pub or_pull_digest-Leads :
        (image : Text) (digest : Option Text)
        → Leads IsSound IsSound (or_pull_digest a image digest) (λ _. IsSound)
    unfolding or_pull_digest pull_digest
    or_pull_digest-Leads image (some digest) = pure-Leads (λ w i. i)
    or_pull_digest-Leads image none =
        seq-Leads IsSound
          (call-Leads _ (runtime.image_pull image (text "linux/arm64"))
            (λ w i. rw (leaves.image_pull image (text "linux/arm64") w) i))
          (bind-Leads (images-Leads _ image) (λ found. found_digest-Leads image found))
