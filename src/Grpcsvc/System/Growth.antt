-- ===== src/Grpcsvc/System/Growth.antt =====
-- internal/grpcsvc: what no step of the system takes back.
use openshell_driver_appleco.Prelude.{
  ℕ, suc, Option-cases, ◌≤◌, ◌<◌, true, false, some, ◌≡◌, ◌⊎◌, inl, inr, refl, arith, sym, ◌∙◌,
  List, Bool-cases, eqb_iff, eqb, subst,
}
use openshell_driver_appleco.Result.{Result, ok, err, Result-cases}
use openshell_driver_appleco.Text.{Text}
use openshell_driver_appleco.Config.{Config}
use openshell_driver_appleco.Backend.{Container}
use openshell_driver_appleco.State.{Record}
use openshell_driver_appleco.Grpcsvc.Proto.{DriverSandbox}
use openshell_driver_appleco.Grpcsvc.Errors.{RpcError}
use openshell_driver_appleco.Grpcsvc.Server.{Server, Host, Entry, write, put, set_condition}
use openshell_driver_appleco.Assoc.{lookup, insert}
use openshell_driver_appleco.Grpcsvc.Create.{register, new_entry}
use openshell_driver_appleco.Grpcsvc.Lifecycle.{begin_lifecycle, set_intent, release}
use openshell_driver_appleco.Grpcsvc.Lifecycle.Laws.{begin_cases}
use openshell_driver_appleco.Grpcsvc.Reconcile.{visit, find_container}
use openshell_driver_appleco.Grpcsvc.Reconcile.Poll.{visit-Reported}
use openshell_driver_appleco.Grpcsvc.Provision.Pipeline.{set_digest}
use openshell_driver_appleco.Grpcsvc.Provision.Finish.{finish_task}
use openshell_driver_appleco.Grpcsvc.System.{
  alone, Move, Run, registers, launches, begins, intends, sets, releases, marks, cancels, erases,
  visits, pins, finishes, hears, waits, here, next,
}

-- An entry keeps its id; a deletion that has begun and a task that has ended stay so.
pub record Keeps (e f : Entry) : Type 0 where
  pub id : f.rec.id ≡ e.rec.id
  pub deleting : (e.deleting ≡ false) ⊎ (f.deleting ≡ true)
  pub done : (f.done ≡ e.done) ⊎ (f.done ≡ some true)

Keeps-refl : (e : Entry) → Keeps e e
Keeps-refl e = record {
  id = refl;
  deleting = elim (Bool-cases e.deleting) [ inl b ↦ inr b | inr b ↦ inl b ];
  done = inl refl;
}

Keeps-trans : (a b c : Entry) → Keeps a b → Keeps b c → Keeps a c
Keeps-trans a b c h k = record {
  id = k.id ∙ h.id;
  deleting = ground (arith, h.deleting, k.deleting);
  done = ground (arith, h.done, k.done);
}

-- Two entries alike in what `Keeps` is about.
Keeps-same :
    (e f : Entry) → f.rec.id ≡ e.rec.id → f.deleting ≡ e.deleting → f.done ≡ e.done → Keeps e f
Keeps-same e f i d n = record {
  id = i;
  deleting = elim (Bool-cases e.deleting) [ inl b ↦ inr (d ∙ b) | inr b ↦ inl b ];
  done = inl n;
}

module _ {W : Type 0} where
  -- No address is freed, and what lies at an address in use is kept.
  pub record Grows (s t : Server W) : Type 0 where
    pub addresses : s.next_address ≤ t.next_address
    pub entries : (p : ℕ) → (s.next_address ≤ p) ⊎ Keeps (s.heap p) (t.heap p)

  Grows-refl : (s : Server W) → Grows s s
  Grows-refl s = record { addresses = omega arith; entries = λ p. inr (Keeps-refl (s.heap p)) }

  Grows-trans : (s t u : Server W) → Grows s t → Grows t u → Grows s u
  Grows-trans s t u a b = record {
    addresses = omega (arith, a.addresses, b.addresses);
    entries = λ p. elim (a.entries p) [
      | inl out ↦ inl out
      | inr h ↦ elim (b.entries p) [
        | inl out ↦ inl (omega (arith, out, a.addresses))
        | inr k ↦ inr (Keeps-trans (s.heap p) (t.heap p) (u.heap p) h k)
      ]
    ];
  }

  -- A step that allocates nothing and keeps every entry.
  Grows-in_place :
      (s t : Server W)
      → t.next_address ≡ s.next_address
      → ((p : ℕ) → Keeps (s.heap p) (t.heap p))
      → Grows s t
  Grows-in_place s t n k = record { addresses = omega (arith, n); entries = λ p. inr (k p) }

module _ {W F : Type 0} (host : Host W F) (cfg : Config) where
  -- The new server behind a registration: an entry at the next address.
  abbrev pub entered : Record → W → Server W → Server W
  entered rec w s = record s {
    world = w;
    heap = put s.heap s.next_address (new_entry host cfg w rec);
    next_address = suc s.next_address;
    sandboxes = insert rec.id s.next_address s.sandboxes;
  }

  -- The ways of a registration.
  pub register_cases {ℓ} :
      (P : Result RpcError ℕ × Server W → Type ℓ) (sb : DriverSandbox) (rec : Record) (s : Server W)
      → ((x : RpcError) → P (err x, s))
      → ((x : RpcError) (w : W) → P (err x, record s { world = w }))
      → ((w : W) → P (ok s.next_address, entered rec w s))
      → P (register host cfg sb rec s)
  unfolding register
  register_cases P sb rec s known failed done = elim (Option-cases (lookup rec.id s.sandboxes)) [
    | inr (p, e) ↦ rw (e, register) (known _)
    | inl e ↦ elim (Result-cases (host.store.save rec s.world).0) [
      | inl (tt, f) ↦ rw (e, register) (rw (f, register) (done _))
      | inr (x, f) ↦ rw (e, register) (rw (f, register) (failed _ _))
    ]
  ]

  visited-Keeps :
      (now : ℕ) (cs : List Container) (s : Server W) (p : ℕ)
      → Keeps (s.heap p) ((visit now (find_container cs) s.sandboxes s.heap).0 p)
  visited-Keeps now cs s p = elim (visit-Reported now (find_container cs) s.sandboxes s.heap p) [
    | inl (_, same) ↦ subst (Keeps (s.heap p)) (sym same) (Keeps-refl (s.heap p))
    | inr (_, r) ↦ Keeps-same (s.heap p) _ r.id r.deleting r.done
  ]

  -- A write that keeps the entry, whatever else the step does.
  write-Keeps :
      (p q : ℕ) (e : Entry) (s : Server W)
      → Keeps (s.heap p) e
      → Keeps (s.heap q) ((write p e s).heap q)
  write-Keeps p q e s k = elim (Bool-cases (eqb p q)) [
    | inl hit ↦ rw hit (subst (λ (r : ℕ). Keeps (s.heap r) e) ((eqb_iff p q).0 hit) k)
    | inr miss ↦ rw miss (Keeps-refl (s.heap q))
  ]

  writes-Grows :
      (p : ℕ) (e : Entry) (s t : Server W)
      → Keeps (s.heap p) e
      → t.next_address ≡ s.next_address
      → t.heap ≡ (write p e s).heap
      → Grows s t
  writes-Grows p e s t k n h =
      Grows-in_place s t n
        (λ q. subst (λ (g : ℕ → Entry). Keeps (s.heap q) (g q)) (sym h) (write-Keeps p q e s k))

  same_heap-Grows : (s t : Server W) → t.next_address ≡ s.next_address → t.heap ≡ s.heap → Grows s t
  same_heap-Grows s t n h =
      Grows-in_place s t n
        (λ q. subst (λ (g : ℕ → Entry). Keeps (s.heap q) (g q)) (sym h) (Keeps-refl (s.heap q)))

  entered-Grows : (rec : Record) (w : W) (s : Server W) → Grows s (entered rec w s)
  entered-Grows rec w s = record {
    addresses = omega arith;
    entries = λ q. elim (Bool-cases (eqb s.next_address q)) [
      | inl hit ↦ inl (ground (arith, hit, eqb_iff s.next_address q))
      | inr miss ↦ inr (rw miss (Keeps-refl (s.heap q)))
    ];
  }

  pub registers-Grows :
      (sb : DriverSandbox) (rec : Record) (s : Server W) → Grows s (register host cfg sb rec s).1
  registers-Grows sb rec s =
      register_cases (λ r. Grows s r.1) sb rec s (λ x. Grows-refl s)
        (λ x w. same_heap-Grows s _ refl refl) (λ w. entered-Grows rec w s)

  begins-Grows : (id name : Text) (s : Server W) → Grows s (begin_lifecycle host cfg id name s).1
  begins-Grows id name s = elim (begin_cases host cfg (alone host cfg) id name s) [
    | inl (x, e) ↦ rw e (Grows-refl s)
    | inr (p, e, f, b) ↦
        rw b (writes-Grows p _ s _ (Keeps-same (s.heap p) _ refl refl refl) refl refl)
  ]

  -- Each step keeps them.
  pub Move-Grows : {s t : Server W} → Move host cfg s t → Grows s t
  unfolding set_intent set_condition release set_digest finish_task
  Move-Grows (registers sb rec s) = registers-Grows sb rec s
  Move-Grows (launches t s h) = same_heap-Grows s _ refl refl
  Move-Grows (begins id name s) = begins-Grows id name s
  Move-Grows (intends p stopped s) =
      writes-Grows p _ s _ (Keeps-same (s.heap p) _ refl refl refl) refl refl
  Move-Grows (sets p c s) = writes-Grows p _ s _ (Keeps-same (s.heap p) _ refl refl refl) refl refl
  Move-Grows (releases p s) =
      writes-Grows p _ s _ (Keeps-same (s.heap p) _ refl refl refl) refl refl
  Move-Grows (marks p s) =
      writes-Grows p _ s _ (record { id = refl; deleting = inr refl; done = inl refl }) refl refl
  Move-Grows (cancels p s) = writes-Grows p _ s _ (Keeps-same (s.heap p) _ refl refl refl) refl refl
  Move-Grows (erases id s) = same_heap-Grows s _ refl refl
  Move-Grows (visits now cs s) = Grows-in_place s _ refl (λ p. visited-Keeps now cs s p)
  Move-Grows (pins p digest s) =
      writes-Grows p _ s _ (Keeps-same (s.heap p) _ refl refl refl) refl refl
  Move-Grows (finishes p s) =
      writes-Grows p _ s _
        (record {
          id = refl;
          deleting = elim (Bool-cases (s.heap p).deleting) [ inl b ↦ inr b | inr b ↦ inl b ];
          done = inr refl;
        })
        refl refl
  Move-Grows (hears h s) = same_heap-Grows s _ refl refl
  Move-Grows (waits w s) = same_heap-Grows s _ refl refl

  Run-Grows : {s t : Server W} → Run host cfg s t → Grows s t
  Run-Grows {s} here = Grows-refl s
  Run-Grows {s} (next {t} {u} r m) = Grows-trans s t u (Run-Grows r) (Move-Grows m)

  -- However the calls, the poller and the provisioning tasks interleave, an address in use stays the
  -- same sandbox's: no address is freed, and what lies at one in use keeps its id, stays marked once a
  -- deletion has begun, and stays provisioned once its task has ended.
  pub Run-Keeps :
      {s t : Server W} (p : ℕ)
      → Run host cfg s t
      → p < s.next_address
      → Keeps (s.heap p) (t.heap p) × (s.next_address ≤ t.next_address)
  Run-Keeps {s} {t} p r h =
      let g = Run-Grows r in
      (elim (g.entries p) [ inl out ↦ absurd (omega (arith, out, h)) | inr k ↦ k ], g.addresses)
