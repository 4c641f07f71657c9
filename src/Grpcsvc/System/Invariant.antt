-- ===== src/Grpcsvc/System/Invariant.antt =====
-- internal/grpcsvc: the invariant of the registry and the tasks, over every interleaving of steps.
use openshell_driver_appleco.Prelude.{
  ℕ, suc, ◌≤◌, ◌<◌, List, [], ◌∷◌, Option, none, some, All, ◌≡◌, ◌⊎◌, inl, inr, refl, arith, ◌∙◌,
  Bool-cases, if◌then◌else◌, eqb, subst,
}
use openshell_driver_appleco.Text.{Text, ◌==◌}
use openshell_driver_appleco.Text.Laws.{eq_iff}
use openshell_driver_appleco.Assoc.{lookup, erase, lookup-insert, lookup-erase}
use openshell_driver_appleco.Config.{Config}
use openshell_driver_appleco.State.{Record}
use openshell_driver_appleco.Grpcsvc.Proto.{DriverSandbox}
use openshell_driver_appleco.Grpcsvc.Server.{Server, Host, Task, set_condition}
use openshell_driver_appleco.Grpcsvc.Create.{register, new_entry}
use openshell_driver_appleco.Grpcsvc.Lifecycle.{begin_lifecycle, set_intent, release}
use openshell_driver_appleco.Grpcsvc.Lifecycle.Laws.{begin_cases}
use openshell_driver_appleco.Grpcsvc.Provision.Pipeline.{set_digest}
use openshell_driver_appleco.Grpcsvc.Provision.Finish.{finish_task, drop_task}
use openshell_driver_appleco.Grpcsvc.System.{
  alone, Move, Run, registers, launches, begins, intends, sets, releases, marks, cancels, erases,
  visits, pins, finishes, hears, waits, here, next,
}
use openshell_driver_appleco.Grpcsvc.System.Growth.{
  Grows, Move-Grows, entered, register_cases, registers-Grows,
}

All-below :
    (m n : ℕ) (ts : List Task)
    → m ≤ n
    → All (λ (t : Task). t.entry < m) ts
    → All (λ (t : Task). t.entry < n) ts
All-below m n [] h a = tt
All-below m n (t ∷ ts) h (b, bs) = (omega (arith, h, b), All-below m n ts h bs)

drop_task-below :
    (p n : ℕ) (ts : List Task)
    → All (λ (t : Task). t.entry < n) ts
    → All (λ (t : Task). t.entry < n) (drop_task p ts)
unfolding drop_task
drop_task-below p n [] a = tt
drop_task-below p n (t ∷ ts) (b, bs) = elim (Bool-cases (eqb t.entry p)) [
  | inl hit ↦ rw hit (drop_task-below p n ts bs)
  | inr miss ↦ rw miss (b, drop_task-below p n ts bs)
]

module _ {W : Type 0} where
  -- The registry knows nothing of the id, or the address of an entry in use that has it.
  abbrev pub Registered : Server W → Text → Option ℕ → Type 0
  Registered s k o =
      (o ≡ none) ⊎ ((p : ℕ) × (o ≡ some p) × (p < s.next_address) × ((s.heap p).rec.id ≡ k))

  pub record IsConsistent (s : Server W) : Type 0 where
    pub registry : (k : Text) → Registered s k (lookup k s.sandboxes)
    pub tasks : All (λ (t : Task). t.entry < s.next_address) s.tasks

  Registered-Grows :
      (s t : Server W) (k : Text) (o : Option ℕ) → Grows s t → Registered s k o → Registered t k o
  Registered-Grows s t k o g (inl e) = inl e
  Registered-Grows s t k o g (inr (p, e, below, id)) = elim (g.entries p) [
    | inl out ↦ absurd (omega (arith, out, below))
    | inr kept ↦ inr (p, e, omega (arith, below, g.addresses), kept.id ∙ id)
  ]

  -- A step that leaves the registry and the tasks.
  Grows-IsConsistent :
      (s t : Server W)
      → Grows s t
      → t.sandboxes ≡ s.sandboxes
      → t.tasks ≡ s.tasks
      → IsConsistent s
      → IsConsistent t
  Grows-IsConsistent s t g r k c = record {
    registry = λ i. Registered-Grows s t i (lookup i t.sandboxes) g (rw r (c.registry i));
    tasks = rw k (All-below s.next_address t.next_address s.tasks g.addresses c.tasks);
  }

  -- The registry after an id was entered or erased.
  Registered-if :
      (t : Server W) (id k : Text) (o new : Option ℕ)
      → Registered t id new
      → Registered t k o
      → Registered t k (if id == k then new else o)
  Registered-if t id k o new a b = elim (Bool-cases (id == k)) [
    | inl hit ↦ rw hit (subst (λ (i : Text). Registered t i new) ((eq_iff id k).0 hit) a)
    | inr miss ↦ rw miss b
  ]

module _ {W F : Type 0} (host : Host W F) (cfg : Config) where
  -- A new entry under an id.
  entered-IsConsistent :
      (rec : Record) (w : W) (s : Server W)
      → Grows s (entered host cfg rec w s)
      → IsConsistent s
      → IsConsistent (entered host cfg rec w s)
  unfolding new_entry
  entered-IsConsistent rec w s g c =
      let t = entered host cfg rec w s in
      record {
        registry = λ k. rw (lookup-insert rec.id k s.next_address s.sandboxes) (
            Registered-if t rec.id k (lookup k s.sandboxes) (some s.next_address)
              (inr (s.next_address, refl, omega arith, ground arith))
              (Registered-Grows s t k (lookup k s.sandboxes) g (c.registry k)));
        tasks = All-below s.next_address (suc s.next_address) s.tasks (omega arith) c.tasks;
      }

  registers-IsConsistent :
      (sb : DriverSandbox) (rec : Record) (s : Server W)
      → IsConsistent s
      → IsConsistent (register host cfg sb rec s).1
  registers-IsConsistent sb rec s c =
      let moved = registers-Grows host cfg sb rec s in
      register_cases host cfg (λ r. Grows s r.1 → IsConsistent r.1) sb rec s (λ x g. c)
        (λ x w g. Grows-IsConsistent s _ g refl refl c) (λ w g. entered-IsConsistent rec w s g c)
        moved

  begins-IsConsistent :
      (id name : Text) (s : Server W)
      → IsConsistent s
      → IsConsistent (begin_lifecycle host cfg id name s).1
  begins-IsConsistent id name s c =
      let g = Move-Grows host cfg (begins id name s) in
      elim (begin_cases host cfg (alone host cfg) id name s) [
        | inl (x, e) ↦ rw e c
        | inr (p, e, f, b) ↦ Grows-IsConsistent s _ g (rw b refl) (rw b refl) c
      ]

  Move-IsConsistent : {s t : Server W} → Move host cfg s t → IsConsistent s → IsConsistent t
  unfolding set_intent set_condition release set_digest finish_task
  Move-IsConsistent (registers sb rec s) c = registers-IsConsistent sb rec s c
  Move-IsConsistent (launches t s h) c = record { registry = c.registry; tasks = (h, c.tasks) }
  Move-IsConsistent (begins id name s) c = begins-IsConsistent id name s c
  Move-IsConsistent (intends p stopped s) c =
      Grows-IsConsistent s _ (Move-Grows host cfg (intends p stopped s)) refl refl c
  Move-IsConsistent (sets p cond s) c =
      Grows-IsConsistent s _ (Move-Grows host cfg (sets p cond s)) refl refl c
  Move-IsConsistent (releases p s) c =
      Grows-IsConsistent s _ (Move-Grows host cfg (releases p s)) refl refl c
  Move-IsConsistent (marks p s) c =
      Grows-IsConsistent s _ (Move-Grows host cfg (marks p s)) refl refl c
  Move-IsConsistent (cancels p s) c =
      Grows-IsConsistent s _ (Move-Grows host cfg (cancels p s)) refl refl c
  Move-IsConsistent (erases id s) c = record {
    registry = λ k. rw (lookup-erase id k s.sandboxes) (
        Registered-if (record s { sandboxes = erase id s.sandboxes }) id k (lookup k s.sandboxes)
          none (inl refl) (c.registry k));
    tasks = c.tasks;
  }
  Move-IsConsistent (visits now cs s) c =
      Grows-IsConsistent s _ (Move-Grows host cfg (visits now cs s)) refl refl c
  Move-IsConsistent (pins p digest s) c =
      Grows-IsConsistent s _ (Move-Grows host cfg (pins p digest s)) refl refl c
  Move-IsConsistent (finishes p s) c =
      let t = finish_task p s in
      let g = Move-Grows host cfg (finishes p s) in
      record {
        registry = λ k. Registered-Grows s t k (lookup k s.sandboxes) g (c.registry k);
        tasks = drop_task-below p s.next_address s.tasks c.tasks;
      }
  Move-IsConsistent (hears h s) c =
      Grows-IsConsistent s _ (Move-Grows host cfg (hears h s)) refl refl c
  Move-IsConsistent (waits w s) c =
      Grows-IsConsistent s _ (Move-Grows host cfg (waits w s)) refl refl c

  -- However the calls, the poller and the provisioning tasks interleave, the registry stays consistent
  -- if it was so at the start: each id that it knows is mapped to an entry in use, and that entry's
  -- record has this id, so that no two ids ever share an entry; and every running task works on an
  -- entry in use.
  pub Run-IsConsistent : {s t : Server W} → Run host cfg s t → IsConsistent s → IsConsistent t
  Run-IsConsistent here c = c
  Run-IsConsistent (next r m) c = Move-IsConsistent m (Run-IsConsistent r c)
