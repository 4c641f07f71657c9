-- ===== src/State/Disk/Scan.antt =====
-- internal/state/state.go, `List`: which records a scan of the store returns.
use openshell_driver_appleco.Prelude.{
  true, not, ◌||◌, List, [], ◌∷◌, Option, none, some, ◌≡◌, ◌⊎◌, ◌↔◌, inl, inr, refl, arith,
  Bool-cases, ap, sym, subst,
}
use openshell_driver_appleco.Result.{Result, ok, err, ok_inj}
use openshell_driver_appleco.Text.{Text, ◌==◌}
use openshell_driver_appleco.Text.Laws.{eq_iff, eq_refl}
use openshell_driver_appleco.Assoc.{lookup}
use openshell_driver_appleco.State.{Record, StoreError, valid_id}
use openshell_driver_appleco.State.Disk.{
  System, Disk, Node, plain_file, directory, load, read_node, accepted, read_entry, is_dir,
  list_from, sort_out, list, read_file, scan,
}

abbrev pub Has : Record → List Record → Type 0
Has rec [] = ⊥
Has rec (r ∷ rs) = (r ≡ rec) ⊎ Has rec rs

module _ (sys : System) (d : Disk) where
  accepted-eq_some :
      (name : Text) (r : Result StoreError Record) (rec : Record)
      → accepted sys name r ≡ some rec
      → (r ≡ ok rec) × (rec.id ≡ name)
  unfolding accepted
  accepted-eq_some name (err x) rec h = absurd (ground (arith, h))
  accepted-eq_some name (ok r) rec h = elim (Bool-cases (r.id == name)) [
    | inl b ↦
        let e : ◌≡◌ {A = Option Record} (some r) (some rec) = rw b at h in
        let same : r ≡ rec = cc in
        (ap ok same, subst (λ (x : Record). x.id ≡ name) same ((eq_iff r.id name).0 b))
    | inr b ↦ let e : ◌≡◌ {A = Option Record} none (some rec) = rw b at h in absurd (cc)
  ]

  read_entry-eq_some :
      (name : Text) (node : Node) (rec : Record)
      → read_entry sys d name node ≡ some rec
      → load sys rec.id d ≡ ok rec
  unfolding read_entry
  read_entry-eq_some name node rec h =
      elim (Bool-cases (not (is_dir sys node) || not (valid_id name))) [
        | inl b ↦ let e : ◌≡◌ {A = Option Record} none (some rec) = rw b at h in absurd (cc)
        | inr b ↦
            let (e, same) = accepted-eq_some name (load sys name d) rec (rw b at h) in
            subst (λ (id : Text). load sys id d ≡ ok rec) (sym same) e
      ]

  Has-sort_out :
      (name : Text) (o : Option Record) (rest : List Record × List Text) (rec : Record)
      → Has rec (sort_out sys name o rest).0
      → (o ≡ some rec) ⊎ Has rec rest.0
  unfolding sort_out
  Has-sort_out name none (records, skipped) rec h = inr h
  Has-sort_out name (some r) (records, skipped) rec (inl e) = inl (ap some e)
  Has-sort_out name (some r) (records, skipped) rec (inr h) = inr h

  sort_out-Has :
      (name : Text) (o : Option Record) (rest : List Record × List Text) (rec : Record)
      → (o ≡ some rec) ⊎ Has rec rest.0
      → Has rec (sort_out sys name o rest).0
  unfolding sort_out
  sort_out-Has name none (records, skipped) rec (inl e) = absurd (ground (arith, e))
  sort_out-Has name none (records, skipped) rec (inr h) = h
  sort_out-Has name (some r) (records, skipped) rec (inl e) = inl (ground (arith, e))
  sort_out-Has name (some r) (records, skipped) rec (inr h) = inr h

  list_from-load :
      (rest : Disk) (rec : Record) → Has rec (list_from sys d rest).0 → load sys rec.id d ≡ ok rec
  unfolding list_from
  list_from-load [] rec h = absurd h
  list_from-load ((name, node) ∷ rest) rec h =
      elim (Has-sort_out name (read_entry sys d name node) (list_from sys d rest) rec h) [
        | inl e ↦ read_entry-eq_some name node rec e
        | inr later ↦ list_from-load rest rec later
      ]

  list_from-Has :
      (rest : Disk) (node : Node) (rec : Record)
      → lookup rec.id rest ≡ some node
      → read_entry sys d rec.id node ≡ some rec
      → Has rec (list_from sys d rest).0
  unfolding list_from lookup
  list_from-Has [] node rec h v = absurd (ground (arith, h))
  list_from-Has ((name, first) ∷ rest) node rec h v = elim (Bool-cases (name == rec.id)) [
    | inl b ↦
        let e : ◌≡◌ {A = Option Node} (some first) (some node) = rw b at h in
        let same : first ≡ node = cc in
        sort_out-Has name (read_entry sys d name first) (list_from sys d rest) rec
          (inl (rw ((eq_iff name rec.id).0 b, same) v))
    | inr b ↦
        sort_out-Has name (read_entry sys d name first) (list_from sys d rest) rec
          (inr (list_from-Has rest node rec (rw b at h) v))
  ]

  load-eq_ok :
      (rec : Record)
      → load sys rec.id d ≡ ok rec
      → (node : Node) × (lookup rec.id d ≡ some node)
        × (is_dir sys node ≡ true)
        × (valid_id rec.id ≡ true)
  unfolding load read_node is_dir
  load-eq_ok rec h = elim (Bool-cases (valid_id rec.id)) [
    | inr v ↦ absurd (ground (arith, h, v))
    | inl v ↦ elim (Bool-cases (sys.fails read_file rec.id)) [
      | inl b ↦ absurd (ground (arith, h, v, b))
      | inr b ↦ loaded (lookup rec.id d) refl (rw (v, b) at h) v
    ]
  ]
    where
      loaded :
          (o : Option Node)
          → lookup rec.id d ≡ o
          → read_node sys rec.id o ≡ ok rec
          → valid_id rec.id ≡ true
          → (node : Node) × (lookup rec.id d ≡ some node)
            × (is_dir sys node ≡ true)
            × (valid_id rec.id ≡ true)
      loaded none e r v = absurd (ground (arith, r))
      loaded (some plain_file) e r v = absurd (ground (arith, r))
      loaded (some (directory content)) e r v = (directory content, e, refl, v)

  read_entry-load :
      (node : Node) (rec : Record)
      → is_dir sys node ≡ true
      → valid_id rec.id ≡ true
      → load sys rec.id d ≡ ok rec
      → read_entry sys d rec.id node ≡ some rec
  unfolding read_entry accepted
  read_entry-load node rec dir v h = rw (dir, v, h, eq_refl rec.id) refl

  -- A scan that succeeds returns exactly the records that can be loaded under their own id: what lies
  -- beside them, a plain file, a name that is no id, a directory without a record that can be read, or
  -- one with another id than its name, is not among them.
  pub list_iff :
      (records : List Record) (skipped : List Text) (rec : Record)
      → list sys d ≡ ok (records, skipped)
      → Has rec records ↔ (load sys rec.id d ≡ ok rec)
  unfolding list
  list_iff records skipped rec h = elim (Bool-cases (sys.fails scan [])) [
    | inl b ↦ absurd (ground (arith, h, b))
    | inr b ↦
        let e : list_from sys d d ≡ (records, skipped) = ok_inj (rw b at h) in
        subst (λ (r : List Record × List Text). Has rec r.0 ↔ (load sys rec.id d ≡ ok rec)) e
          (
            list_from-load d rec,
            λ l.
                let (node, at, dir, v) = load-eq_ok rec l in
                list_from-Has d node rec at (read_entry-load node rec dir v l),
          )
  ]
