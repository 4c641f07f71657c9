-- ===== src/Seed/Total.antt =====
-- internal/seed/seed.go: `Write` succeeds where the host lets it.
use openshell_driver_appleco.Prelude.{
  ℕ, true, List, [], ◌∷◌, ◌++◌, Option, some, ◌≡◌, ◌≢◌, refl, sym, ◌∙◌, arith, All, if◌then◌else◌,
}
use openshell_driver_appleco.Result.{Result, ok, err}
use openshell_driver_appleco.Text.{Text, text, ◌==◌}
use openshell_driver_appleco.Text.Path.Rooted.{IsPlain, rooted}
use openshell_driver_appleco.Assoc.{lookup, insert-same}
use openshell_driver_appleco.Files.{File, Files, complete, written}
use openshell_driver_appleco.Seed.{
  SeedError, FileCalls, Materials, no_boot_script, no_token, with_mode,
}
use openshell_driver_appleco.Seed.Step.{Step, Ends, Leads, seq-Leads}
use openshell_driver_appleco.Seed.Layout.{
  at_dir, fails_with, write_to, write_text, closed, finished, copied, stream_file, make_seed_dir,
  write_token, write_policy, write_layout, boot_script,
}
use openshell_driver_appleco.Seed.Written.{
  Puts, write_text-Puts, stream_file-Puts, write_token-Puts, write_policy-Puts,
}
use openshell_driver_appleco.Seed.Slots.{
  Slot, supervisor, boot, ca, cert, key, token, policy, parts_of, slot_path, slot-IsPlain, at_slot,
  Outside,
}

-- A host none of whose calls fails.
pub record Works (disk : FileCalls) : Type 0 where
  pub makes_dir : (path : Text) → disk.makes_dir path ≡ true
  pub readable : (path : Text) → disk.readable path ≡ true
  pub writing : (path content : Text) → disk.writing path content ≡ complete
  pub changes_mode : (path : Text) → disk.changes_mode path ≡ true
  pub closes : (path : Text) → disk.closes path ≡ true

-- What is copied.
unfoldable given_source : Text → List Text
given_source [] = []
given_source (c ∷ path) = (c ∷ path) ∷ []

unfoldable pub sources_of : Materials → List Text
unfolding given_source
sources_of m =
    m.supervisor_path ∷ m.ca_path ∷ m.cert_path ∷ m.key_path ∷ given_source m.policy_overlay_path

abbrev pub There : Files → Text → Type 0
There s path = (file : File) × (lookup path s ≡ some file)

still-There :
    (target : Text) (s t : Files)
    → ((probe : Text) → target ≢ probe → lookup probe t ≡ lookup probe s)
    → (paths : List Text) → All (λ path. target ≢ path) paths
    → All (There s) paths
    → All (There t) paths
still-There target s t same [] n h = tt
still-There target s t same (path ∷ paths) (n, ns) ((file, l), hs) =
    ((file, same path n ∙ l), still-There target s t same paths ns hs)

module _ (disk : FileCalls) (works : Works disk) where
  write_text-ok :
      (x : SeedError) (path content : Text) (mode : ℕ) (s : Files)
      → (write_text disk x path mode content s).0 ≡ ok tt
  unfolding write_text write_to written fails_with
  write_text-ok x path content mode s = rw (works.writing path content) refl

  stream_file-ok :
      (src path : Text) (s : Files) → There s src → (stream_file disk src path s).0 ≡ ok tt
  unfolding stream_file copied finished closed with_mode write_to written
  stream_file-ok src path s (file, l) =
      rw (l, works.readable src, works.writing path (if src == path then [] else file.content))
        (rw (insert-same path _ s, works.changes_mode path, works.closes path) refl)

  write_token-ok : (path t : Text) (s : Files) → (write_token disk path t s).0 ≡ ok tt
  unfolding write_token
  write_token-ok path [] s = refl
  write_token-ok path (c ∷ t) s = write_text-ok no_token path ((c ∷ t) ++ 10 ∷ []) 0o600 s

  write_policy-ok :
      (path source : Text) (s : Files)
      → All (There s) (given_source source)
      → (write_policy disk path source s).0 ≡ ok tt
  unfolding write_policy given_source
  write_policy-ok path [] s h = refl
  write_policy-ok path (c ∷ source) s h = stream_file-ok (c ∷ source) path s h.0

  module _ (m : Materials) (p : Text) (ps : List Text) (plain : All IsPlain (p ∷ ps))
      (outside : All (Outside (rooted (p ∷ ps))) (sources_of m)) where
    abbrev dir : Text
    dir = rooted (p ∷ ps)

    -- The sources are there.
    abbrev Ready : Files → Type 0
    Ready s = All (There s) (sources_of m)

    abbrev Never : Files → Type 0
    Never s = ⊥

    not_a_slot :
        (i : Slot) (paths : List Text)
        → All (Outside dir) paths
        → All (λ path. slot_path dir i ≢ path) paths
    not_a_slot i [] h = tt
    not_a_slot i (path ∷ paths) (h, hs) = (h i, not_a_slot i paths hs)

    still-Ready :
        (i : Slot) (s : Files) (r : Result SeedError (Unit {0}) × Files)
        → ((probe : Text) → slot_path dir i ≢ probe → lookup probe r.1 ≡ lookup probe s)
        → Ready s
        → r.0 ≡ ok tt
        → Ends Never (λ _. Ready) r
    still-Ready i s (ok tt, t) same h e =
        still-There (slot_path dir i) s t same (sources_of m) (not_a_slot i (sources_of m) outside)
          h
    still-Ready i s (err x, t) same h e = absurd (ground (arith, e))

    put-Ready :
        (i : Slot) {E : Files → Option File → Type 0} {op : Step Files (Unit {0})}
        → Puts (slot_path dir i) E op
        → ((s : Files) → Ready s → (op s).0 ≡ ok tt)
        → Leads Never Ready op (λ _. Ready)
    put-Ready i {op} w k = record { ends = λ s h. still-Ready i s (op s) (w.others s) h (k s h) }

    make_seed_dir-Ready : (path : Text) → Leads Never Ready (make_seed_dir disk path) (λ _. Ready)
    unfolding make_seed_dir
    make_seed_dir-Ready path = record { ends = λ s h. rw (works.makes_dir path) h }

    copy-Ready :
        (i : Slot) (name src : Text)
        → b'/' ∷ name ≡ rooted (parts_of i)
        → Outside dir src
        → ((s : Files) → Ready s → There s src)
        → Leads Never Ready (stream_file disk src (at_dir dir name)) (λ _. Ready)
    copy-Ready i name src e out k = rw (at_slot p ps plain i name e (slot-IsPlain i)) (
        put-Ready i (stream_file-Puts disk src (slot_path dir i) (λ q. out i (sym q)))
          (λ s h. stream_file-ok src (slot_path dir i) s (k s h)))

    boot-Ready :
        Leads Never Ready
          (write_text disk no_boot_script (at_dir dir (text "boot.sh")) 0o700 boot_script)
          (λ _. Ready)
    unfolding parts_of
    boot-Ready = rw (at_slot p ps plain boot (text "boot.sh") refl (slot-IsPlain boot)) (
        put-Ready boot (write_text-Puts disk no_boot_script (slot_path dir boot) 0o700 boot_script)
          (λ s h. write_text-ok no_boot_script (slot_path dir boot) boot_script 0o700 s))

    token-Ready :
        Leads Never Ready
          (write_token disk (at_dir dir (text "auth/sandbox.jwt")) m.token)
          (λ _. Ready)
    unfolding parts_of
    token-Ready =
        rw (at_slot p ps plain token (text "auth/sandbox.jwt") refl (slot-IsPlain token)) (
          put-Ready token (write_token-Puts disk (slot_path dir token) m.token)
            (λ s h. write_token-ok (slot_path dir token) m.token s))

    policy_apart :
        (source : Text) → All (Outside dir) (given_source source) → source ≢ slot_path dir policy
    unfolding given_source
    policy_apart [] h e = absurd (ground (arith, e))
    policy_apart (c ∷ source) h e = h.0 policy (sym e)

    policy-Ready :
        Leads Never Ready
          (write_policy disk (at_dir dir (text "policy.yaml")) m.policy_overlay_path)
          (λ _. Ready)
    unfolding parts_of sources_of
    policy-Ready =
        let source = m.policy_overlay_path in
        rw (at_slot p ps plain policy (text "policy.yaml") refl (slot-IsPlain policy)) (
          put-Ready policy
            (write_policy-Puts disk (slot_path dir policy) source
              (policy_apart source outside.1.1.1.1))
            (λ s h. write_policy-ok (slot_path dir policy) source s h.1.1.1.1))

    write_layout-Ready : Leads Never Ready (write_layout disk dir m) (λ _. Ready)
    unfolding write_layout parts_of sources_of
    write_layout-Ready =
        let (s, (a, (c, (k, o)))) = outside in
        seq-Leads Ready (make_seed_dir-Ready _) (
          seq-Leads Ready (make_seed_dir-Ready _) (
            seq-Leads Ready (make_seed_dir-Ready _) (
              seq-Leads Ready
                (copy-Ready supervisor (text "openshell-sandbox") _ refl s (λ t h. h.0))
                (seq-Leads Ready boot-Ready (
                  seq-Leads Ready (copy-Ready ca (text "tls/ca.crt") _ refl a (λ t h. h.1.0)) (
                    seq-Leads Ready (copy-Ready cert (text "tls/tls.crt") _ refl c (λ t h. h.1.1.0))
                      (seq-Leads Ready
                        (copy-Ready key (text "tls/tls.key") _ refl k (λ t h. h.1.1.1.0))
                        (seq-Leads Ready token-Ready policy-Ready))))))))

    ok_of : (r : Result SeedError (Unit {0}) × Files) → Ends Never (λ _. Ready) r → r.0 ≡ ok tt
    ok_of (ok tt, s) h = refl
    ok_of (err x, s) h = absurd h

    -- Writing a seed directory succeeds whenever the sources are there and no call of the file system
    -- fails, whatever the directory held before: nothing that the steps write hides a source from a
    -- later step. The directory is an absolute path in clean form, and no source is one of its files.
    pub write_layout-ok : (files : Files) → Ready files → (write_layout disk dir m files).0 ≡ ok tt
    write_layout-ok files h =
        ok_of (write_layout disk dir m files) (write_layout-Ready.ends files h)
