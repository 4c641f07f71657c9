-- ===== src/Grpcsvc/Bootstrap/Restore.antt =====
-- internal/grpcsvc/reconcile.go, `Bootstrap`: the server that a successful startup leaves.
use openshell_driver_appleco.Prelude.{
  ℕ, true, List, [], ◌∷◌, none, some, ◌≡◌, ◌≢◌, All, ◌↔◌, ◌⊎◌, inl, inr, refl, arith, Option-cases,
  ap, sym, ◌∙◌,
}
use openshell_driver_appleco.Result.{ok, Result-cases}
use openshell_driver_appleco.Text.{Text}
use openshell_driver_appleco.Text.Laws.{eq_iff}
use openshell_driver_appleco.Assoc.{lookup}
use openshell_driver_appleco.Config.{Config}
use openshell_driver_appleco.Backend.{Container, label}
use openshell_driver_appleco.State.{Record}
use openshell_driver_appleco.Grpcsvc.Server.{Server, Host, Entry}
use openshell_driver_appleco.Grpcsvc.Reconcile.{find_container}
use openshell_driver_appleco.Grpcsvc.Bootstrap.{
  adopt, adopt_all, register_all, is_known, is_orphan, label_managed_by, managed_by_value,
  label_sandbox_id, delete_orphans, reconcile_records, bootstrap,
}
use openshell_driver_appleco.Grpcsvc.Bootstrap.Adoption.{
  Adopted, Recorded, adopt-reason, adopt_all-Adopted, register_all-Registered,
}

Adopted-Recorded :
    (cs : List Container) (recs : List Record) (e : Entry)
    → Adopted cs recs e
    → Recorded e.rec.id recs
Adopted-Recorded cs [] e a = a
Adopted-Recorded cs (rec ∷ recs) e (inl (same, _, _)) = inl (ap (λ (r : Record). r.id) (sym same))
Adopted-Recorded cs (rec ∷ recs) e (inr a) = inr (Adopted-Recorded cs recs e a)

is_orphan_iff :
    (m : List (Text × ℕ)) (c : Container)
    → (is_orphan m c ≡ true) ↔ (
        (label label_managed_by c.labels ≡ managed_by_value)
        × ((label label_sandbox_id c.labels ≡ [])
            ⊎ (lookup (label label_sandbox_id c.labels) m ≡ none)))
unfolding is_orphan is_known
is_orphan_iff m c = elim (Option-cases (lookup (label label_sandbox_id c.labels) m)) [
  | inl e ↦ ground (
    arith,
    e,
    eq_iff (label label_managed_by c.labels) managed_by_value,
    eq_iff (label label_sandbox_id c.labels) [],
  )
  | inr (p, e) ↦ ground (
    arith,
    e,
    eq_iff (label label_managed_by c.labels) managed_by_value,
    eq_iff (label label_sandbox_id c.labels) [],
  )
]

module _ {W F : Type 0} (host : Host W F) (cfg : Config) where
  unrecorded :
      (cs : List Container) (recs : List Record) (w : W) (k : Text)
      → All (λ e. e.rec.id ≢ k) (adopt_all host cfg cs recs w).0
      → ¬ Recorded k recs
  unfolding adopt_all
  unrecorded cs [] w k others bad = bad
  unrecorded cs (rec ∷ recs) w k (apart, others) (inl same) = apart (
      ap (λ (r : Record). r.id)
        (adopt-reason host cfg (find_container cs rec.container_name) rec w).0
      ∙ same)
  unrecorded cs (rec ∷ recs) w k (apart, others) (inr bad) =
      unrecorded cs recs (adopt host cfg (find_container cs rec.container_name) rec w).1 k others
        bad

  -- What startup makes of these records and containers.
  pub record Restored (recs : List Record) (cs : List Container) (s t : Server W) : Type 0 where
    pub registry :
        (k : Text)
        → ((lookup k t.sandboxes ≡ lookup k s.sandboxes) × (¬ Recorded k recs))
          ⊎ ((p : ℕ) × (lookup k t.sandboxes ≡ some p)
              × ((t.heap p).rec.id ≡ k)
              × Adopted cs recs (t.heap p))
    pub orphans :
        (c : Container)
        → let id = label label_sandbox_id c.labels in
          (is_orphan t.sandboxes c ≡ true) ↔ (
            (label label_managed_by c.labels ≡ managed_by_value)
            × ((id ≡ []) ⊎ ((lookup id s.sandboxes ≡ none) × (¬ Recorded id recs))))
    pub cleaned :
        t.world ≡ delete_orphans host cfg t.sandboxes cs (adopt_all host cfg cs recs s.world).1
    pub hub : t.hub ≡ s.hub
    pub tasks : t.tasks ≡ s.tasks

  registry_lem :
      (recs : List Record) (cs : List Container) (s : Server W) (w : W) (k : Text)
      → let t = register_all host cfg (adopt_all host cfg cs recs w).0 s in
        ((lookup k t.sandboxes ≡ lookup k s.sandboxes) × (¬ Recorded k recs))
        ⊎ ((p : ℕ) × (lookup k t.sandboxes ≡ some p)
            × ((t.heap p).rec.id ≡ k)
            × Adopted cs recs (t.heap p))
  registry_lem recs cs s w k =
      let es = (adopt_all host cfg cs recs w).0 in
      elim (register_all-Registered host cfg es s k) [
        | inl (kept, others) ↦ inl (kept, unrecorded cs recs w k others)
        | inr (p, found, same, among) ↦ inr (
          p,
          found,
          same,
          adopt_all-Adopted host cfg cs recs w ((register_all host cfg es s).heap p) among,
        )
      ]

  register_all-hub :
      (es : List Entry) (s : Server W)
      → ((register_all host cfg es s).hub ≡ s.hub) × ((register_all host cfg es s).tasks ≡ s.tasks)
  unfolding register_all
  register_all-hub [] s = (refl, refl)
  register_all-hub (e ∷ es) s = register_all-hub es _

  orphans_lem :
      (recs : List Record) (cs : List Container) (s t : Server W) (c : Container)
      → ((k : Text)
          → ((lookup k t.sandboxes ≡ lookup k s.sandboxes) × (¬ Recorded k recs))
            ⊎ ((p : ℕ) × (lookup k t.sandboxes ≡ some p)
                × ((t.heap p).rec.id ≡ k)
                × Adopted cs recs (t.heap p)))
      → let id = label label_sandbox_id c.labels in
        (is_orphan t.sandboxes c ≡ true) ↔ (
          (label label_managed_by c.labels ≡ managed_by_value)
          × ((id ≡ []) ⊎ ((lookup id s.sandboxes ≡ none) × (¬ Recorded id recs))))
  orphans_lem recs cs s t c registry =
      let id = label label_sandbox_id c.labels in
      let (out, back) = is_orphan_iff t.sandboxes c in
      elim (registry id) [
        | inl (kept, fresh) ↦ (
          λ h.
              let (ours, free) = out h in
              (ours, elim free [ inl e ↦ inl e | inr e ↦ inr (sym kept ∙ e, fresh) ]),
          λ (ours, free). back (ours, elim free [ inl e ↦ inl e | inr (e, _) ↦ inr (kept ∙ e) ]),
        )
        | inr (p, found, same, a) ↦
            let listed : Recorded id recs = rw same at (Adopted-Recorded cs recs (t.heap p) a) in
            (
              λ h.
                  let (ours, free) = out h in
                  (ours, elim free [ inl e ↦ inl e | inr e ↦ absurd (ground (arith, e, found)) ]),
              λ (ours, free).
                  back (ours, elim free [ inl e ↦ inl e | inr (_, apart) ↦ absurd (apart listed) ]),
            )
      ]

  reconcile_records-Restored :
      (recs : List Record) (cs : List Container) (s : Server W)
      → Restored recs cs s (reconcile_records host cfg recs cs s)
  unfolding reconcile_records
  reconcile_records-Restored recs cs s =
      let es = (adopt_all host cfg cs recs s.world).0 in
      record {
        registry = registry_lem recs cs s s.world;
        orphans = λ c.
            orphans_lem recs cs s (register_all host cfg es s) c (registry_lem recs cs s s.world);
        cleaned = refl;
        hub = (register_all-hub es s).0;
        tasks = (register_all-hub es s).1;
      }

  -- A startup that succeeds has read the records and listed the containers. It then registers exactly
  -- the ids of the records (and those it knew): each such id maps to an entry of a record with that id,
  -- free for the poller, whose reason is the one that the poller's table gives for the record and the
  -- listing. A container counts as an orphan exactly when it carries the driver's mark and its sandbox
  -- label is empty or is an id that neither a record has nor the server knew; the host is left as the
  -- deletion of the orphans leaves it. No event is sent and no task started.
  pub bootstrap-Restored :
      (s : Server W)
      → (bootstrap host cfg s).0 ≡ ok tt
      → (recs : List Record) × (skipped : List Text) × (cs : List Container) × ((host.store.list
            s.world).0
          ≡ ok (recs, skipped))
        × ((host.runtime.list true (host.store.list s.world).1).0 ≡ ok cs)
        × Restored recs cs
            (record s { world = (host.runtime.list true (host.store.list s.world).1).1 })
            (bootstrap host cfg s).1
  unfolding bootstrap
  bootstrap-Restored s h =
      let (r, w) = host.store.list s.world in
      let (q, w') = host.runtime.list true w in
      elim (Result-cases r) [
        | inr (x, e) ↦ absurd (ground (arith, e))
        | inl ((recs, skipped), e) ↦ elim (Result-cases q) [
          | inr (x, f) ↦ absurd (ground (arith, e, f))
          | inl (cs, f) ↦ (
            recs,
            skipped,
            cs,
            e,
            f,
            rw (e, bootstrap)
                (rw (f, bootstrap) (reconcile_records-Restored recs cs (record s { world = w' }))),
          )
        ]
      ]
