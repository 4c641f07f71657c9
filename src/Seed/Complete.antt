-- ===== src/Seed/Complete.antt =====
-- internal/seed/seed.go: `Write` leaves the layout that the guest boots from, and nothing else.
use openshell_driver_appleco.Prelude.{
  ℕ, false, List, [], ◌∷◌, ◌++◌, Option, ◌≡◌, ◌≢◌, refl, sym, ◌∙◌, arith, Bool-cases, inl, inr, All,
}
use openshell_driver_appleco.Result.{Result, ok, err}
use openshell_driver_appleco.Text.{Text, text, ◌==◌}
use openshell_driver_appleco.Text.Laws.{eq_iff}
use openshell_driver_appleco.Text.Path.Rooted.{IsPlain, rooted}
use openshell_driver_appleco.Assoc.{lookup}
use openshell_driver_appleco.Files.{File, Files}
use openshell_driver_appleco.Seed.{SeedError, FileCalls, Materials}
use openshell_driver_appleco.Seed.Step.{Step, Ends, Leads, seq-Leads, weaker-Leads}
use openshell_driver_appleco.Seed.Layout.{
  boot_script, at_dir, write_text, stream_file, make_seed_dir, write_token, write_policy,
  write_layout,
}
use openshell_driver_appleco.Seed.Written.{
  CopyOf, NewText, Puts, write_text-Puts, stream_file-Puts, write_token-Puts, write_policy-Puts,
}
use openshell_driver_appleco.Seed.Slots.{
  Slot, supervisor, boot, ca, cert, key, token, policy, parts_of, slot_path, slot-IsPlain, cancel,
  at_slot, Outside,
}

module _ (disk : FileCalls) (m : Materials) (p : Text) (ps : List Text) (files : Files) where
  abbrev dir : Text
  dir = rooted (p ∷ ps)

  -- What lies there behind a success: the sources are copied owner-only, and the others are new texts.
  abbrev pub Holds : Slot → Option File → Type 0
  Holds supervisor o = CopyOf m.supervisor_path files o
  Holds boot o = NewText (slot_path dir boot) 0o700 boot_script files o
  Holds ca o = CopyOf m.ca_path files o
  Holds cert o = CopyOf m.cert_path files o
  Holds key o = CopyOf m.key_path files o
  Holds token o = m.token ≢ [] → NewText (slot_path dir token) 0o600 (m.token ++ 10 ∷ []) files o
  Holds policy o = m.policy_overlay_path ≢ [] → CopyOf m.policy_overlay_path files o

  -- The other files are as they were.
  abbrev pub Apart : Files → Type 0
  Apart s = (path : Text) → Outside dir path → lookup path s ≡ lookup path files

  abbrev Fresh : Slot → List Slot → Type 0
  Fresh i is = All (λ j. (rooted (parts_of i) == rooted (parts_of j)) ≡ false) is

  -- The slots in the list are filled, and the others are as they were.
  abbrev Filled : List Slot → Files → Type 0
  Filled is s =
      All (λ j. Holds j (lookup (slot_path dir j) s)) is
      × ((j : Slot) → Fresh j is → lookup (slot_path dir j) s ≡ lookup (slot_path dir j) files)
      × Apart s

  slots-apart :
      (i j : Slot)
      → (rooted (parts_of i) == rooted (parts_of j)) ≡ false
      → slot_path dir i ≢ slot_path dir j
  slots-apart i j h e =
      let same = cancel dir e in
      absurd (ground (arith, h, eq_iff (rooted (parts_of i)) (rooted (parts_of j)), same))

  still_filled :
      (i : Slot) (is : List Slot) (s t : Files)
      → ((probe : Text) → slot_path dir i ≢ probe → lookup probe t ≡ lookup probe s)
      → Fresh i is
      → All (λ j. Holds j (lookup (slot_path dir j) s)) is
      → All (λ j. Holds j (lookup (slot_path dir j) t)) is
  still_filled i [] s t same f h = tt
  still_filled i (j ∷ is) s t same (f, fs) (h, hs) =
      (rw (same (slot_path dir j) (slots-apart i j f)) h, still_filled i is s t same fs hs)

  put-Ends :
      (i : Slot) (is : List Slot) (s : Files) (r : Result SeedError (Unit {0}) × Files)
      → Fresh i is
      → Filled is s
      → ((probe : Text) → slot_path dir i ≢ probe → lookup probe r.1 ≡ lookup probe s)
      → (r.0 ≡ ok tt → Holds i (lookup (slot_path dir i) r.1))
      → Ends Apart (λ _. Filled (i ∷ is)) r
  put-Ends i is s (err x, t) f (h, u, a) same holds = λ path o. same path (o i) ∙ a path o
  put-Ends i is s (ok tt, t) f (h, u, a) same holds = (
    (holds refl, still_filled i is s t same f h),
    (λ j (g, gs). same (slot_path dir j) (λ e. slots-apart j i g (sym e)) ∙ u j gs),
    (λ path o. same path (o i) ∙ a path o),
  )

  put :
      (i : Slot) (is : List Slot) {E : Files → Option File → Type 0} {op : Step Files (Unit {0})}
      → Fresh i is
      → Puts (slot_path dir i) E op
      → ((s : Files) (o : Option File) → Filled is s → E s o → Holds i o)
      → Leads Apart (Filled is) op (λ _. Filled (i ∷ is))
  put i is {op} f w k = record {
    ends = λ s h. put-Ends i is s (op s) f h (w.others s) (λ e. k s _ h (w.done s e));
  }

  -- The directory is an absolute path without "." and ".." in it, and no source lies in it.
  module _ (plain : All IsPlain (p ∷ ps)) (supervisor_apart : Outside dir m.supervisor_path)
      (ca_apart : Outside dir m.ca_path) (cert_apart : Outside dir m.cert_path)
      (key_apart : Outside dir m.key_path) (policy_apart : Outside dir m.policy_overlay_path) where
    copied_before :
        (src : Text) (o : Option File) (s : Files)
        → Outside dir src
        → Apart s
        → CopyOf src s o
        → CopyOf src files o
    copied_before src o s out a (file, l, e) = (file, sym (a src out) ∙ l, e)

    written_before :
        (path : Text) (mode : ℕ) (content : Text) (o : Option File) (s : Files)
        → lookup path s ≡ lookup path files
        → NewText path mode content s o
        → NewText path mode content files o
    written_before path mode content o s e n = rw e at n

    make_seed_dir-Leads :
        (path : Text) → Leads Apart (Filled []) (make_seed_dir disk path) (λ _. Filled [])
    unfolding make_seed_dir
    make_seed_dir-Leads path = record {
      ends = λ s h. elim (Bool-cases (disk.makes_dir path)) [ inl b ↦ rw b h | inr b ↦ rw b h.2 ];
    }

    copy_slot :
        (i : Slot) (is : List Slot) (name src : Text)
        → b'/' ∷ name ≡ rooted (parts_of i)
        → Fresh i is
        → Outside dir src
        → ((o : Option File) → CopyOf src files o → Holds i o)
        → Leads Apart (Filled is) (stream_file disk src (at_dir dir name)) (λ _. Filled (i ∷ is))
    copy_slot i is name src e f out k = rw (at_slot p ps plain i name e (slot-IsPlain i)) (
        put i is f (stream_file-Puts disk src (slot_path dir i) (λ q. out i (sym q)))
          (λ s o filled c. k o (copied_before src o s out filled.2 c)))

    new_slot :
        (i : Slot) (is : List Slot) (name : Text) (x : SeedError) (mode : ℕ) (content : Text)
        → b'/' ∷ name ≡ rooted (parts_of i)
        → Fresh i is
        → ((o : Option File) → NewText (slot_path dir i) mode content files o → Holds i o)
        → Leads Apart
            (Filled is)
            (write_text disk x (at_dir dir name) mode content)
            (λ _. Filled (i ∷ is))
    new_slot i is name x mode content e f k = rw (at_slot p ps plain i name e (slot-IsPlain i)) (
        put i is f (write_text-Puts disk x (slot_path dir i) mode content) (λ s o filled c.
          k o (written_before (slot_path dir i) mode content o s (filled.1 i f) c)))

    token_slot :
        (is : List Slot)
        → Fresh token is
        → Leads Apart
            (Filled is)
            (write_token disk (at_dir dir (text "auth/sandbox.jwt")) m.token)
            (λ _. Filled (token ∷ is))
    unfolding parts_of
    token_slot is f =
        rw (at_slot p ps plain token (text "auth/sandbox.jwt") refl (slot-IsPlain token)) (
          put token is f (write_token-Puts disk (slot_path dir token) m.token) (λ s o filled c ne.
            written_before (slot_path dir token) 0o600 (m.token ++ 10 ∷ []) o s (filled.1 token f)
              (c ne)))

    policy_slot :
        (is : List Slot)
        → Fresh policy is
        → Leads Apart
            (Filled is)
            (write_policy disk (at_dir dir (text "policy.yaml")) m.policy_overlay_path)
            (λ _. Filled (policy ∷ is))
    unfolding parts_of
    policy_slot is f =
        rw (at_slot p ps plain policy (text "policy.yaml") refl (slot-IsPlain policy)) (
          put policy is f
            (write_policy-Puts disk (slot_path dir policy) m.policy_overlay_path
              (λ q. policy_apart policy (sym q)))
            (λ s o filled c ne.
              copied_before m.policy_overlay_path o s policy_apart filled.2 (c ne)))

    write_layout-Leads :
        Leads Apart
          (Filled [])
          (write_layout disk dir m)
          (λ _. Filled (policy ∷ token ∷ key ∷ cert ∷ ca ∷ boot ∷ supervisor ∷ []))
    unfolding write_layout parts_of ◌==◌
    write_layout-Leads = seq-Leads (Filled []) (make_seed_dir-Leads _) (
        seq-Leads (Filled []) (make_seed_dir-Leads _) (
          seq-Leads (Filled []) (make_seed_dir-Leads _) (
            seq-Leads (Filled (supervisor ∷ []))
              (copy_slot supervisor [] (text "openshell-sandbox") _ refl tt supervisor_apart
                (λ o c. c))
              (seq-Leads (Filled (boot ∷ supervisor ∷ []))
                (new_slot boot (supervisor ∷ []) (text "boot.sh") _ _ _ refl (refl, tt) (λ o c. c))
                (seq-Leads (Filled (ca ∷ boot ∷ supervisor ∷ []))
                  (copy_slot ca (boot ∷ supervisor ∷ []) (text "tls/ca.crt") _ refl
                    (refl, (refl, tt)) ca_apart (λ o c. c))
                  (seq-Leads (Filled (cert ∷ ca ∷ boot ∷ supervisor ∷ []))
                    (copy_slot cert (ca ∷ boot ∷ supervisor ∷ []) (text "tls/tls.crt") _ refl
                      (refl, (refl, (refl, tt))) cert_apart (λ o c. c))
                    (seq-Leads (Filled (key ∷ cert ∷ ca ∷ boot ∷ supervisor ∷ []))
                      (copy_slot key (cert ∷ ca ∷ boot ∷ supervisor ∷ []) (text "tls/tls.key") _
                        refl (refl, (refl, (refl, (refl, tt)))) key_apart (λ o c. c))
                      (seq-Leads (Filled (token ∷ key ∷ cert ∷ ca ∷ boot ∷ supervisor ∷ []))
                        (token_slot (key ∷ cert ∷ ca ∷ boot ∷ supervisor ∷ [])
                          (refl, (refl, (refl, (refl, (refl, tt))))))
                        (policy_slot (token ∷ key ∷ cert ∷ ca ∷ boot ∷ supervisor ∷ [])
                          (refl, (refl, (refl, (refl, (refl, (refl, tt)))))))))))))))

    every :
        (h : Slot → Type 0)
        → All h (policy ∷ token ∷ key ∷ cert ∷ ca ∷ boot ∷ supervisor ∷ [])
        → (i : Slot) → h i
    every h (a, (b, (c, (d, (e, (f, (g, t))))))) policy = a
    every h (a, (b, (c, (d, (e, (f, (g, t))))))) token = b
    every h (a, (b, (c, (d, (e, (f, (g, t))))))) key = c
    every h (a, (b, (c, (d, (e, (f, (g, t))))))) cert = d
    every h (a, (b, (c, (d, (e, (f, (g, t))))))) ca = e
    every h (a, (b, (c, (d, (e, (f, (g, t))))))) boot = f
    every h (a, (b, (c, (d, (e, (f, (g, t))))))) supervisor = g

    -- Writing a seed directory leaves every other file as it was, however it ends. If it succeeds, the
    -- supervisor, the CA, the certificate and the key are there as owner-only copies of the sources, the
    -- boot script is there, executable for the owner if it is new, and the token, with a line end, and the
    -- policy are there if they are given, the policy again as an owner-only copy. The directory is an
    -- absolute path in clean form, and none of the sources is one of its files.
    pub write_layout-Holds :
        Ends Apart
          (λ _ s. ((i : Slot) → Holds i (lookup (slot_path dir i) s)) × Apart s)
          (write_layout disk dir m files)
    write_layout-Holds =
        let whole =
          weaker-Leads (λ _ s (h, u, a). (every (λ i. Holds i (lookup (slot_path dir i) s)) h, a))
            write_layout-Leads in
        whole.ends files (tt, (λ j f. refl), (λ path o. refl))
