-- ===== src/Seed/Written.antt =====
-- internal/seed/seed.go: what each step of `Write` does to the files.
use openshell_driver_appleco.Prelude.{
  ℕ, Bool, true, false, ◌∷◌, [], ◌++◌, Option, none, some, ◌≡◌, ◌≢◌, refl, sym, ap, ◌∙◌, arith,
  Bool-cases, inl, inr,
}
use openshell_driver_appleco.Result.{Result, ok, err}
use openshell_driver_appleco.Text.{Text, ◌==◌}
use openshell_driver_appleco.Text.Laws.{eq_iff}
use openshell_driver_appleco.Assoc.{lookup, insert-same, insert-other}
use openshell_driver_appleco.Files.{File, Files, written, mode_of, written-other, written-done}
use openshell_driver_appleco.Seed.{SeedError, FileCalls, with_mode, no_token}
use openshell_driver_appleco.Seed.Step.{Step}
use openshell_driver_appleco.Seed.Layout.{
  fails_with, write_to, write_text, closed, finished, copied, stream_file, write_token,
  write_policy,
}

-- The file is an owner-only copy of what the source was.
abbrev pub CopyOf : Text → Files → Option File → Type 0
CopyOf src files o =
    (file : File) × (lookup src files ≡ some file)
    × (o ≡ some (record { content = file.content; mode = 0o600 }))

abbrev pub NewText : Text → ℕ → Text → Files → Option File → Type 0
NewText path mode content files o =
    o ≡ some (record { content = content; mode = mode_of mode (lookup path files) })

-- A step that touches one path, with what is there when it succeeds.
pub record Puts (path : Text) (E : Files → Option File → Type 0) (op : Step Files (Unit {0}))
    : Type 0 where
  pub others :
      (files : Files) (probe : Text) → path ≢ probe → lookup probe (op files).1 ≡ lookup probe files
  pub done : (files : Files) → (op files).0 ≡ ok tt → E files (lookup path (op files).1)

refused_ok {ℓ} :
    {x : SeedError} {A : Type ℓ} → ◌≡◌ {A = Result SeedError (Unit {0})} (err x) (ok tt) → A
refused_ok e = absurd (ground (arith, e))

fails_with-same : {A : Type 0} (x : SeedError) (r : Bool × A) → (fails_with x r).1 ≡ r.1
unfolding fails_with
fails_with-same x (true, s) = refl
fails_with-same x (false, s) = refl

fails_with-ok :
    {A : Type 0} (x : SeedError) (r : Bool × A) → (fails_with x r).0 ≡ ok tt → r.0 ≡ true
unfolding fails_with
fails_with-ok x (true, s) e = refl
fails_with-ok x (false, s) e = refused_ok e

with_mode-other :
    (path : Text) (mode : ℕ) (can : Bool) (there : Option File) (files : Files) (probe : Text)
    → path ≢ probe
    → lookup probe (with_mode path mode can there files).1 ≡ lookup probe files
unfolding with_mode
with_mode-other path mode can none files probe ne = refl
with_mode-other path mode false (some f) files probe ne = refl
with_mode-other path mode true (some f) files probe ne = insert-other path probe _ files ne

with_mode-done :
    (path : Text) (mode : ℕ) (can : Bool) (there : Option File) (files : Files)
    → (with_mode path mode can there files).0 ≡ ok tt
    → (f : File) × (there ≡ some f)
      × (lookup path (with_mode path mode can there files).1 ≡ some (record f { mode = mode }))
unfolding with_mode
with_mode-done path mode can none files e = refused_ok e
with_mode-done path mode false (some f) files e = refused_ok e
with_mode-done path mode true (some f) files e = (f, refl, insert-same path _ files)

owner_only : Option File → Option File
owner_only none = none
owner_only (some f) = some (record f { mode = 0o600 })

module _ (disk : FileCalls) where
  closed-same :
      (path : Text) (r : Result SeedError (Unit {0}) × Files) → (closed disk path r).1 ≡ r.1
  unfolding closed
  closed-same path (ok tt, s) = refl
  closed-same path (err x, s) = refl

  closed-ok :
      (path : Text) (r : Result SeedError (Unit {0}) × Files)
      → (closed disk path r).0 ≡ ok tt
      → r.0 ≡ ok tt
  unfolding closed
  closed-ok path (ok tt, s) e = refl
  closed-ok path (err x, s) e = refused_ok e

  finished-other :
      (path : Text) (r : Bool × Files) (probe : Text)
      → path ≢ probe
      → lookup probe (finished disk path r).1 ≡ lookup probe r.1
  unfolding finished
  finished-other path (false, s) probe ne = refl
  finished-other path (true, s) probe ne =
      rw (closed-same path (with_mode path 0o600 (disk.changes_mode path) (lookup path s) s))
        (with_mode-other path 0o600 (disk.changes_mode path) (lookup path s) s probe ne)

  finished-done :
      (path content : Text) (mode : ℕ) (r : Bool × Files)
      → (r.0 ≡ true → lookup path r.1 ≡ some (record { content = content; mode = mode }))
      → (finished disk path r).0 ≡ ok tt
      → lookup path (finished disk path r).1 ≡ some (record { content = content; mode = 0o600 })
  unfolding finished owner_only
  finished-done path content mode (false, s) h e = refused_ok e
  finished-done path content mode (true, s) h e =
      let m = with_mode path 0o600 (disk.changes_mode path) (lookup path s) s in
      let (f, l, k) =
        with_mode-done path 0o600 (disk.changes_mode path) (lookup path s) s (closed-ok path m e) in
      rw (closed-same path m) (k ∙ ap owner_only (sym l ∙ h refl))

  pub write_text-Puts :
      (x : SeedError) (path : Text) (mode : ℕ) (content : Text)
      → Puts path (NewText path mode content) (write_text disk x path mode content)
  unfolding write_text write_to
  write_text-Puts x path mode content = record {
    others = λ files probe ne. rw (fails_with-same x (write_to disk path mode content files)) (
        written-other path content (mode_of mode (lookup path files)) (disk.writing path content)
          files probe ne);
    done = λ files e. rw (fails_with-same x (write_to disk path mode content files)) (
        written-done path content _ (disk.writing path content) files
          (fails_with-ok x (write_to disk path mode content files) e));
  }

  copied-Puts :
      (src path : Text) (there : Option File) (files : Files)
      → src ≢ path
      → lookup src files ≡ there
      → ((probe : Text)
          → path ≢ probe
          → lookup probe (copied disk src path there files).1 ≡ lookup probe files)
        × ((copied disk src path there files).0 ≡ ok tt
            → CopyOf src files (lookup path (copied disk src path there files).1))
  unfolding copied write_to
  copied-Puts src path none files ne l = (λ probe n. refl, λ e. refused_ok e)
  copied-Puts src path (some file) files ne l = elim (Bool-cases (disk.readable src)) [
    | inr b ↦ rw b (λ probe n. refl, λ e. refused_ok e)
    | inl b ↦
        let same : (src == path) ≡ false = ground (arith, eq_iff src path, ne) in
        let mode = mode_of 0o600 (lookup path files) in
        let w = disk.writing path file.content in
        let wrote = written path file.content mode w files in
        rw (b, same)
          (
            λ probe n.
                finished-other path wrote probe n
                ∙ written-other path file.content mode w files probe n,
            λ e. (
              file,
              l,
              finished-done path file.content mode wrote
                  (written-done path file.content mode w files) e,
            ),
          )
  ]

  pub stream_file-Puts :
      (src path : Text) → src ≢ path → Puts path (CopyOf src) (stream_file disk src path)
  unfolding stream_file
  stream_file-Puts src path ne = record {
    others = λ files. (copied-Puts src path (lookup src files) files ne refl).0;
    done = λ files. (copied-Puts src path (lookup src files) files ne refl).1;
  }

  pub write_token-Puts :
      (path token : Text)
      → Puts path
          (λ files o. token ≢ [] → NewText path 0o600 (token ++ 10 ∷ []) files o)
          (write_token disk path token)
  unfolding write_token
  write_token-Puts path [] = record {
    others = λ files probe ne. refl;
    done = λ files e ne. absurd (ne refl);
  }
  write_token-Puts path (c ∷ token) =
      let w = write_text-Puts no_token path 0o600 ((c ∷ token) ++ 10 ∷ []) in
      record { others = w.others; done = λ files e ne. w.done files e }

  pub write_policy-Puts :
      (path policy : Text)
      → policy ≢ path
      → Puts path (λ files o. policy ≢ [] → CopyOf policy files o) (write_policy disk path policy)
  unfolding write_policy
  write_policy-Puts path [] ne = record {
    others = λ files probe n. refl;
    done = λ files e n. absurd (n refl);
  }
  write_policy-Puts path (c ∷ policy) ne =
      let w = stream_file-Puts (c ∷ policy) path ne in
      record { others = w.others; done = λ files e n. w.done files e }
