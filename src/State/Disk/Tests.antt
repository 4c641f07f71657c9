-- ===== src/State/Disk/Tests.antt =====
-- The store on a small disk.
use openshell_driver_appleco.Prelude.{
  Option, length, take, drop, ◌++◌, ap, Bool, false, not, ◌&&◌, eqb, [], ◌∷◌, none, some, ◌≡◌, ◌↔◌,
  refl, if◌then◌else◌, arith,
}
use openshell_driver_appleco.Result.{ok}
use openshell_driver_appleco.Text.{Text, text, ◌==◌}
use openshell_driver_appleco.Text.Laws.{eq_iff}
use openshell_driver_appleco.Assoc.{lookup}
use openshell_driver_appleco.State.{Record, valid_id}
use openshell_driver_appleco.State.Disk.{
  System, Disk, plain_file, directory, list, load, disk_store,
}
use openshell_driver_appleco.State.Disk.Laws.{Decodes, Saves, Deletes, disk_store-Refines}
use openshell_driver_appleco.State.Disk.Scan.{Has, list_iff}

abbrev known : Record
known = record {
  id = text "a";
  name = text "alpha";
  namespace = [];
  workspace = [];
  container_name = text "oshl-a";
  image_ref = text "img";
  image_digest = [];
  created_at = 3;
  stopped = false;
  sandbox = [];
}

abbrev sys : System
sys = record {
  fails = λ call id. false;
  leftover = λ node. node;
  encode = λ rec. none;
  decode = λ t. some known;
}

abbrev disk : Disk
disk =
    (text "a", directory (some (text "x")))
    ∷ (text "b", directory (some (text "x")))
    ∷ (text "c", directory none)
    ∷ (text "notes", plain_file)
    ∷ []

list_test : list sys disk ≡ ok (known ∷ [], text "b" ∷ text "c" ∷ text "notes" ∷ [])
unfolding list valid_id lookup ◌==◌ load
list_test = refl

list_iff_example : Has known (known ∷ []) ↔ (load sys (text "a") disk ≡ ok known)
list_iff_example =
    list_iff sys disk (known ∷ []) (text "b" ∷ text "c" ∷ text "notes" ∷ []) known list_test

-- An encoder that takes the records that say nothing but their id and sandbox, with the length of the id
-- in front, and that begins a line for the sandbox.
abbrev bare_record : Text → Text → Record
bare_record id sandbox = record {
  id = id;
  name = [];
  namespace = [];
  workspace = [];
  container_name = [];
  image_ref = [];
  image_digest = [];
  created_at = 0;
  stopped = false;
  sandbox = sandbox;
}

abbrev is_bare : Record → Bool
is_bare rec =
    rec.name == []
    && (rec.namespace == []
        && (rec.workspace == []
            && (rec.container_name == []
                && (rec.image_ref == []
                    && (rec.image_digest == [] && (eqb rec.created_at 0 && not rec.stopped))))))

abbrev on_a_line : Text → Text
on_a_line t = 10 ∷ t

abbrev decode_bare : Text → Option Record
decode_bare [] = none
decode_bare (n ∷ t) = some (bare_record (take n t) (drop n t))

abbrev small : System
small = record {
  fails = λ call id. false;
  leftover = λ node. node;
  encode =
      λ rec. if is_bare rec then some (length rec.id ∷ (rec.id ++ on_a_line rec.sandbox)) else none;
  decode = decode_bare;
}

take-front : (s t : Text) → take (length s) (s ++ t) ≡ s
take-front [] t = refl
take-front (c ∷ s) t = ap (◌∷◌ c) (take-front s t)

drop-front : (s t : Text) → drop (length s) (s ++ t) ≡ t
drop-front [] t = refl
drop-front (c ∷ s) t = drop-front s t

small-Decodes : Decodes small on_a_line
small-Decodes rec t h = ground (
  arith,
  h,
  take-front rec.id (on_a_line rec.sandbox),
  drop-front rec.id (on_a_line rec.sandbox),
  eq_iff rec.name [],
  eq_iff rec.namespace [],
  eq_iff rec.workspace [],
  eq_iff rec.container_name [],
  eq_iff rec.image_ref [],
  eq_iff rec.image_digest [],
)

disk_store-Refines_example :
    ((rec : Record) (d : Disk) → Saves small on_a_line rec d ((disk_store small).save rec d))
    × ((id : Text) (d : Disk) → Deletes small on_a_line id d ((disk_store small).delete id d))
disk_store-Refines_example = disk_store-Refines small on_a_line small-Decodes
