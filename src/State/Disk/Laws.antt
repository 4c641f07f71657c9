-- ===== src/State/Disk/Laws.antt =====
-- internal/state/state.go: the store as a map from ids to records.
use openshell_driver_appleco.Prelude.{
  true, [], Option, none, some, ◌≡◌, ◌⊎◌, inl, inr, refl, arith, Bool-cases, Option-cases,
  if◌then◌else◌, ap, ◌∙◌, sym, subst,
}
use openshell_driver_appleco.Result.{Result, ok, err}
use openshell_driver_appleco.Text.{Text, ◌==◌}
use openshell_driver_appleco.Text.Laws.{eq_iff}
use openshell_driver_appleco.Assoc.{lookup, insert, erase, lookup-insert, lookup-erase}
use openshell_driver_appleco.State.{Record, StoreError, invalid_id, io_failed, valid_id}
use openshell_driver_appleco.State.Disk.{
  System, Disk, Node, plain_file, directory, made, save, write_record, unwritten, read_node, delete,
  make_dir, remove_all, disk_store, spoilt,
}

-- The record as it is read back: the encoder lays out the sandbox's JSON anew.
abbrev pub laid_out : (Text → Text) → Record → Record
laid_out layout rec = record rec { sandbox = layout rec.sandbox }

-- The decoder reads what the encoder writes, up to the layout of the sandbox's JSON.
abbrev pub Decodes : System → (Text → Text) → Type 0
Decodes sys layout =
    (rec : Record) (t : Text) → sys.encode rec ≡ some t → sys.decode t ≡ some (laid_out layout rec)

abbrev found : Result StoreError Record → Option Record
found (ok rec) = some rec
found (err _) = none

module _ (sys : System) (layout : Text → Text) where
  -- The record that the files hold for an id.
  abbrev pub stored_in : Option Node → Option Record
  stored_in o = found (read_node sys [] o)

  abbrev pub stored : Disk → Text → Option Record
  stored d id = stored_in (lookup id d)

  stored_in-made :
      (o : Option Node) (node : Node) → made o ≡ some node → stored_in (some node) ≡ stored_in o
  unfolding made read_node
  stored_in-made none node h = rw (sym (node_is h)) refl
    where
      node_is : some (directory none) ≡ some node → directory none ≡ node
      node_is e = ground (arith, e)
  stored_in-made (some plain_file) node h = absurd (ground (arith, h))
  stored_in-made (some (directory content)) node h = ground (arith, h)

  stored-insert :
      (id probe : Text) (node : Node) (d : Disk)
      → stored (insert id node d) probe
        ≡ (if id == probe then stored_in (some node) else stored d probe)
  stored-insert id probe node d =
      ap stored_in (lookup-insert id probe node d)
      ∙ elim (Bool-cases (id == probe)) [ inl b ↦ rw b refl | inr b ↦ rw b refl ]

  stored-touch :
      (id probe : Text) (node : Node) (d : Disk)
      → made (lookup id d) ≡ some node
      → stored (insert id node d) probe ≡ stored d probe
  stored-touch id probe node d h = stored-insert id probe node d ∙ elim (Bool-cases (id == probe)) [
    | inl b ↦ rw b (
        stored_in-made (lookup id d) node h ∙ ap (λ (j : Text). stored d j) ((eq_iff id probe).0 b))
    | inr b ↦ rw b refl
  ]

  stored_after :
      (rec : Record) (d : Disk) (id t : Text) {o : Option Record}
      → sys.decode t ≡ some (laid_out layout rec)
      → o ≡ stored d id
      → (if rec.id == id then stored_in (some (directory (some t))) else o)
        ≡ (if rec.id == id then some (laid_out layout rec) else stored d id)
  unfolding read_node
  stored_after rec d id t h same = rw (h, same) refl

  -- What a call that stores a record does to the map.
  abbrev pub Saves : Record → Disk → Result StoreError (Unit {0}) × Disk → Type 0
  Saves rec d r =
      ((r.0 ≡ ok tt)
        × (valid_id rec.id ≡ true)
        × ((id : Text)
            → stored r.1 id ≡ (if rec.id == id then some (laid_out layout rec) else stored d id)))
      ⊎ ((x : StoreError) × (r.0 ≡ err x) × ((id : Text) → stored r.1 id ≡ stored d id))

  abbrev pub Deletes : Text → Disk → Result StoreError (Unit {0}) × Disk → Type 0
  Deletes id d r =
      ((r.0 ≡ ok tt)
        × ((probe : Text) → stored r.1 probe ≡ (if id == probe then none else stored d probe)))
      ⊎ ((x : StoreError) × (r.0 ≡ err x)
          × ((probe : Text) → (id ≡ probe) ⊎ (stored r.1 probe ≡ stored d probe)))

  write_record-Saves :
      (rec : Record) (d e : Disk)
      → Decodes sys layout
      → valid_id rec.id ≡ true
      → ((id : Text) → stored e id ≡ stored d id)
      → Saves rec d (write_record sys rec e)
  unfolding write_record
  write_record-Saves rec d e decodes valid same = elim (Option-cases (sys.encode rec)) [
    | inl h ↦ rw (h, write_record) (inr (io_failed, refl, same))
    | inr (t, h) ↦ elim (Bool-cases (unwritten sys rec.id)) [
      | inl b ↦ rw (h, write_record) (rw b (inr (io_failed, refl, same)))
      | inr b ↦
          rw (h, write_record)
            (rw b (
              inl (
                refl,
                valid,
                λ id.
                    stored-insert rec.id id (directory (some t)) e
                    ∙ stored_after rec d id t (decodes rec t h) (same id),
              )))
    ]
  ]

  save-Saves : (rec : Record) (d : Disk) → Decodes sys layout → Saves rec d (save sys rec d)
  unfolding save
  save-Saves rec d decodes = elim (Bool-cases (valid_id rec.id)) [
    | inr v ↦ subst (Saves rec d) (sym (rw v refl)) (inr (invalid_id rec.id, refl, λ id. refl))
    | inl v ↦ elim (Bool-cases (sys.fails make_dir rec.id)) [
      | inl b ↦ subst (Saves rec d) (sym (rw (v, b) refl)) (inr (io_failed, refl, λ id. refl))
      | inr b ↦ elim (Option-cases (made (lookup rec.id d))) [
        | inl m ↦
            subst (Saves rec d) (sym (rw (v, b) (rw (m, save) refl)))
              (inr (io_failed, refl, λ id. refl))
        | inr (node, m) ↦ subst (Saves rec d) (sym (rw (v, b) (rw (m, save) refl))) (
            write_record-Saves rec d (insert rec.id node d) decodes v
              (λ id. stored-touch rec.id id node d m))
      ]
    ]
  ]

  stored-erase :
      (id probe : Text) (d : Disk)
      → stored (erase id d) probe ≡ (if id == probe then none else stored d probe)
  unfolding read_node
  stored-erase id probe d =
      ap stored_in (lookup-erase id probe d)
      ∙ elim (Bool-cases (id == probe)) [ inl b ↦ rw b refl | inr b ↦ rw b refl ]

  spoilt-others :
      (id probe : Text) (d : Disk)
      → (id ≡ probe) ⊎ (stored (spoilt sys id d) probe ≡ stored d probe)
  unfolding spoilt
  spoilt-others id probe d = elim (Option-cases (lookup id d)) [
    | inl h ↦ rw (h, spoilt) (inr refl)
    | inr (node, h) ↦ elim (Bool-cases (id == probe)) [
      | inl b ↦ inl ((eq_iff id probe).0 b)
      | inr b ↦ rw (h, spoilt) (inr (stored-insert id probe (sys.leftover node) d ∙ rw b refl))
    ]
  ]

  delete-Deletes : (id : Text) (d : Disk) → Deletes id d (delete sys id d)
  unfolding delete
  delete-Deletes id d = elim (Bool-cases (valid_id id)) [
    | inr v ↦ rw v (inr (invalid_id id, refl, λ probe. inr refl))
    | inl v ↦ elim (Bool-cases (sys.fails remove_all id)) [
      | inl b ↦ rw (v, b) (inr (io_failed, refl, λ probe. spoilt-others id probe d))
      | inr b ↦ rw (v, b) (inl (refl, λ probe. stored-erase id probe d))
    ]
  ]

  -- The store on the disk implements a map from ids to records, if the decoder reads what the encoder
  -- writes up to the layout of the sandbox's JSON: a save that succeeds was of a valid id and enters its
  -- record under it, with that layout, and changes nothing else, a save that fails, at whatever step,
  -- changes nothing; a deletion that succeeds removes its id's record and nothing else, and one that
  -- fails leaves the other records alone.
  pub disk_store-Refines :
      Decodes sys layout
      → ((rec : Record) (d : Disk) → Saves rec d ((disk_store sys).save rec d))
        × ((id : Text) (d : Disk) → Deletes id d ((disk_store sys).delete id d))
  unfolding disk_store
  disk_store-Refines decodes = (λ rec d. save-Saves rec d decodes, λ id d. delete-Deletes id d)
