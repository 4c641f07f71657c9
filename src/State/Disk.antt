-- ===== src/State/Disk.antt =====
-- internal/state/state.go: the store's operations on the directory `sandboxes` of its root. The disk
-- keeps what lies in there: for each name a plain file, or a directory with the content of its
-- `state.json`, if it has one. The temporary file of a save is removed on every path, so it is not kept.
-- Which calls of the file system fail, and what a failed removal leaves, are parameters, and so is the
-- JSON encoder.
pub mod Laws
pub mod Scan
mod Tests
use openshell_driver_appleco.Prelude.{
  Bool, true, false, not, ◌&&◌, ◌||◌, List, [], ◌∷◌, Option, none, some, if◌then◌else◌,
}
use openshell_driver_appleco.Result.{Result, ok, err, ◌>>=◌, ◌>>◌, fail_if}
use openshell_driver_appleco.Text.{Text, ◌==◌}
use openshell_driver_appleco.Assoc.{lookup, insert, erase}
use openshell_driver_appleco.State.{
  Record, StoreError, Store, invalid_id, missing, io_failed, undecodable, valid_id,
}

pub data Node : Type 0 where
  plain_file : Node
  directory : Option Text → Node

abbrev pub Disk : Type 0
Disk = List (Text × Node)

-- The calls of the file system on one sandbox's directory, and the scan of them all.
pub data Call : Type 0 where
  make_dir create_temp change_mode write_temp close_temp rename read_file remove_all : Call
  scan : Call

-- `MkdirAll`: a plain file in the way is an error.
unfoldable pub made : Option Node → Option Node
made none = some (directory none)
made (some plain_file) = none
made (some (directory content)) = some (directory content)

pub record System : Type 0 where
  pub fails : Call → Text → Bool
  pub leftover : Node → Node
  pub encode : Record → Option Text
  pub decode : Text → Option Record

module _ (sys : System) where
  open sys use {fails, leftover, encode, decode}

  -- One of the calls between the encoding and the end of the rename fails.
  unfoldable pub unwritten : Text → Bool
  unwritten id =
      fails create_temp id
      || (fails change_mode id || (fails write_temp id || (fails close_temp id || fails rename id)))

  -- What follows `MkdirAll`: the record is encoded, written to a temporary file and renamed.
  unfoldable pub write_record : Record → Disk → Result StoreError (Unit {0}) × Disk
  unfolding unwritten
  write_record rec d = elim (encode rec) [
    | none ↦ (err io_failed, d)
    | some text ↦
        if unwritten rec.id
        then (err io_failed, d)
        else (ok tt, insert rec.id (directory (some text)) d)
  ]

  unfoldable pub save : Record → Disk → Result StoreError (Unit {0}) × Disk
  unfolding made write_record
  save rec d =
      if not (valid_id rec.id)
      then (err (invalid_id rec.id), d)
      else if fails make_dir rec.id
      then (err io_failed, d)
      else (elim (made (lookup rec.id d)) [
        | none ↦ (err io_failed, d)
        | some node ↦ write_record rec (insert rec.id node d)
      ])

  unfoldable pub decoded : Option Record → Result StoreError Record
  decoded none = err undecodable
  decoded (some rec) = ok rec

  -- `ReadFile` of the record: below a plain file it is an error of another kind.
  unfoldable pub read_node : Text → Option Node → Result StoreError Record
  unfolding decoded
  read_node id none = err (missing id)
  read_node id (some plain_file) = err io_failed
  read_node id (some (directory none)) = err (missing id)
  read_node id (some (directory (some text))) = decoded (decode text)

  unfoldable pub load : Text → Disk → Result StoreError Record
  unfolding read_node
  load id d =
      if not (valid_id id)
      then err (invalid_id id)
      else if fails read_file id
      then err io_failed
      else read_node id (lookup id d)

  unfoldable pub is_dir : Node → Bool
  is_dir plain_file = false
  is_dir (directory _) = true

  -- What the loop of `List` makes of one entry: its record, or nothing if the entry is skipped.
  unfoldable pub accepted : Text → Result StoreError Record → Option Record
  accepted name (err _) = none
  accepted name (ok rec) = if rec.id == name then some rec else none

  unfoldable pub read_entry : Disk → Text → Node → Option Record
  unfolding is_dir accepted
  read_entry d name node =
      if not (is_dir node) || not (valid_id name) then none else accepted name (load name d)

  unfoldable pub sort_out : Text → Option Record → List Record × List Text → List Record × List Text
  sort_out name none (records, skipped) = (records, name ∷ skipped)
  sort_out name (some rec) (records, skipped) = (rec ∷ records, skipped)

  unfoldable pub list_from : Disk → Disk → List Record × List Text
  unfolding read_entry sort_out
  list_from d [] = ([], [])
  list_from d ((name, node) ∷ rest) = sort_out name (read_entry d name node) (list_from d rest)

  unfoldable pub list : Disk → Result StoreError (List Record × List Text)
  unfolding list_from
  list d = if fails scan [] then err io_failed else ok (list_from d d)

  -- A removal that fails may have removed part of the directory.
  unfoldable pub spoilt : Text → Disk → Disk
  spoilt id d = elim (lookup id d) [ none ↦ d | some node ↦ insert id (leftover node) d ]

  unfoldable pub delete : Text → Disk → Result StoreError (Unit {0}) × Disk
  unfolding spoilt
  delete id d =
      if not (valid_id id)
      then (err (invalid_id id), d)
      else if fails remove_all id
      then (err io_failed, spoilt id d)
      else (ok tt, erase id d)

  -- The store as the service uses it.
  unfoldable pub disk_store : Store Disk
  unfolding save delete list
  disk_store = record { save = save; delete = delete; list = λ d. (list d, d) }
