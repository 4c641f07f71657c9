-- ===== src/Assoc.antt =====
-- Go's maps with text keys, as association lists: the order stands for the unspecified order in which
-- Go ranges over a map, and every statement holds for each of them.
use openshell_driver_appleco.Prelude.{
  List, [], ◌∷◌, Option, none, some, ◌≡◌, ◌≢◌, arith, if◌then◌else◌,
}
use openshell_driver_appleco.Text.{Text, ◌==◌}
use openshell_driver_appleco.Text.Laws.{eq_iff}

module _ {ℓ} {V : Type ℓ} where
  -- `v, ok := m[k]`
  unfoldable pub lookup : Text → List (Text × V) → Option V
  lookup key [] = none
  lookup key ((first, x) ∷ rest) =
      let later = lookup key rest in if first == key then some x else later

  -- `delete(m, k)`
  unfoldable pub erase : Text → List (Text × V) → List (Text × V)
  erase key [] = []
  erase key ((first, x) ∷ rest) =
      let later = erase key rest in if first == key then later else (first, x) ∷ later

  pub lookup-erase :
      (key probe : Text) (m : List (Text × V))
      → lookup probe (erase key m) ≡ (if key == probe then none else lookup probe m)
  unfolding lookup erase
  lookup-erase key probe [] = ground arith
  lookup-erase key probe ((first, x) ∷ rest) =
      ground
        (arith, lookup-erase key probe rest, eq_iff first probe, eq_iff first key, eq_iff key probe)

  -- `m[k] = v`
  unfoldable pub insert : Text → V → List (Text × V) → List (Text × V)
  insert key new [] = (key, new) ∷ []
  insert key new ((first, x) ∷ rest) =
      let later = insert key new rest in
      if first == key then (first, new) ∷ rest else (first, x) ∷ later

  pub lookup-insert :
      (key probe : Text) (new : V) (m : List (Text × V))
      → lookup probe (insert key new m) ≡ (if key == probe then some new else lookup probe m)
  unfolding lookup insert
  lookup-insert key probe new [] = ground arith
  lookup-insert key probe new ((first, x) ∷ rest) = ground (
    arith,
    lookup-insert key probe new rest,
    eq_iff first probe,
    eq_iff first key,
    eq_iff key probe,
  )

  pub insert-same :
      (key : Text) (x : V) (m : List (Text × V)) → lookup key (insert key x m) ≡ some x
  insert-same key x m = ground (arith, lookup-insert key key x m, eq_iff key key)

  pub insert-other :
      (key probe : Text) (x : V) (m : List (Text × V))
      → key ≢ probe
      → lookup probe (insert key x m) ≡ lookup probe m
  insert-other key probe x m ne = ground (arith, lookup-insert key probe x m, ne, eq_iff key probe)

  pub erase-other :
      (key probe : Text) (m : List (Text × V))
      → key ≢ probe
      → lookup probe (erase key m) ≡ lookup probe m
  erase-other key probe m ne = ground (arith, lookup-erase key probe m, ne, eq_iff key probe)
