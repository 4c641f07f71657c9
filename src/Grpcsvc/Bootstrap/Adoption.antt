-- ===== src/Grpcsvc/Bootstrap/Adoption.antt =====
-- internal/grpcsvc/reconcile.go, `Bootstrap`: what each record becomes, which ids are registered
-- behind it, and which VMs are spared.
use openshell_driver_appleco.Prelude.{
  ℕ, suc, true, ◌<◌, List, [], ◌∷◌, Option, none, some, ◌≡◌, ◌≢◌, All, ◌⊎◌, inl, inr, refl, arith,
  Bool-cases, ap, sym, ◌∙◌,
}
use openshell_driver_appleco.Text.{Text, ◌==◌}
use openshell_driver_appleco.Text.Laws.{eq_iff}
use openshell_driver_appleco.Assoc.{lookup, insert, lookup-insert}
use openshell_driver_appleco.Config.{Config}
use openshell_driver_appleco.Backend.{Container}
use openshell_driver_appleco.State.{Record}
use openshell_driver_appleco.Grpcsvc.Conditions.{
  ready_true_condition, stopped_condition, exited_condition, failed_condition,
}
use openshell_driver_appleco.Grpcsvc.Server.{Server, Host, Entry, put, pollable}
use openshell_driver_appleco.Grpcsvc.Reconcile.{find_container}
use openshell_driver_appleco.Grpcsvc.Reconcile.Poll.{expected}
use openshell_driver_appleco.Grpcsvc.Bootstrap.{adopt, adopt_all, register_all, with_excerpt}

-- The id is that of one of the records.
abbrev pub Recorded : Text → List Record → Type 0
Recorded id [] = ⊥
Recorded id (rec ∷ recs) = (rec.id ≡ id) ⊎ Recorded id recs

-- One of the records is the entry's, and the entry is what the listing and the record call for.
abbrev pub Adopted : List Container → List Record → Entry → Type 0
Adopted cs [] e = ⊥
Adopted cs (rec ∷ recs) e =
    ((e.rec ≡ rec)
      × (e.cond.reason ≡ expected (find_container cs rec.container_name) rec.stopped)
      × (pollable e ≡ true))
    ⊎ Adopted cs recs e

-- One of the entries.
abbrev pub Among : Entry → List Entry → Type 0
Among e [] = ⊥
Among e (x ∷ xs) = (x ≡ e) ⊎ Among e xs

module _ {W F : Type 0} (host : Host W F) (cfg : Config) where
  pub adopt-reason :
      (found : Option Container) (rec : Record) (w : W)
      → let e = (adopt host cfg found rec w).0 in
        (e.rec ≡ rec) × (e.cond.reason ≡ expected found rec.stopped) × (pollable e ≡ true)
  unfolding adopt with_excerpt ready_true_condition stopped_condition exited_condition
      failed_condition pollable
  adopt-reason none rec w = ground arith
  adopt-reason (some c) rec w = ground arith

  pub adopt_all-Adopted :
      (cs : List Container) (recs : List Record) (w : W) (e : Entry)
      → Among e (adopt_all host cfg cs recs w).0
      → Adopted cs recs e
  unfolding adopt_all
  adopt_all-Adopted cs [] w e a = a
  adopt_all-Adopted cs (rec ∷ recs) w e (inl h) =
      inl (rw (sym h) (adopt-reason (find_container cs rec.container_name) rec w))
  adopt_all-Adopted cs (rec ∷ recs) w e (inr a) = inr (
      adopt_all-Adopted cs recs (adopt host cfg (find_container cs rec.container_name) rec w).1 e a)

  -- The entry of the record comes first, so that its id is among those of the entries.
  register_all-heap :
      (es : List Entry) (s : Server W) (q : ℕ)
      → q < s.next_address
      → (register_all host cfg es s).heap q ≡ s.heap q
  unfolding register_all
  register_all-heap [] s q h = refl
  register_all-heap (e ∷ es) s q h =
      let t = record s {
        heap = put s.heap s.next_address e;
        next_address = suc s.next_address;
        sandboxes = insert e.rec.id s.next_address s.sandboxes;
      } in
      register_all-heap es t q (omega arith) ∙ ground arith

  -- What the registry holds for an id: what it held, or the last of the entries with that id.
  abbrev pub Registered : List Entry → Server W → Server W → Text → Type 0
  Registered es s t k =
      ((lookup k t.sandboxes ≡ lookup k s.sandboxes) × All (λ e. e.rec.id ≢ k) es)
      ⊎ ((p : ℕ) × (lookup k t.sandboxes ≡ some p) × ((t.heap p).rec.id ≡ k) × Among (t.heap p) es)

  pub register_all-Registered :
      (es : List Entry) (s : Server W) (k : Text) → Registered es s (register_all host cfg es s) k
  unfolding register_all
  register_all-Registered [] s k = inl (refl, tt)
  register_all-Registered (e ∷ es) s k =
      let t = record s {
        heap = put s.heap s.next_address e;
        next_address = suc s.next_address;
        sandboxes = insert e.rec.id s.next_address s.sandboxes;
      } in
      let put_there : (register_all host cfg es t).heap s.next_address ≡ e =
        register_all-heap es t s.next_address (omega arith) ∙ ground arith in
      elim (register_all-Registered es t k) [
        | inr (p, found, same, among) ↦ inr (p, found, same, inr among)
        | inl (kept, others) ↦ elim (Bool-cases (e.rec.id == k)) [
          | inl hit ↦ inr (
            s.next_address,
            kept ∙ lookup-insert e.rec.id k s.next_address s.sandboxes ∙ rw hit refl,
            ap (λ (x : Entry). x.rec.id) put_there ∙ (eq_iff e.rec.id k).0 hit,
            inl (sym put_there),
          )
          | inr miss ↦ inl (
            kept ∙ lookup-insert e.rec.id k s.next_address s.sandboxes ∙ rw miss refl,
            (λ same. absurd (ground (arith, eq_iff e.rec.id k, same, miss)), others),
          )
        ]
      ]
