-- ===== src/Backend/Cli/Lookup.antt =====
-- internal/backend/cli.go, `Get`: one container of the listing.
use openshell_driver_appleco.Prelude.{
  true, List, [], ◌∷◌, ◌++◌, All, ◌≡◌, ◌≢◌, ◌⊎◌, inl, inr, refl, arith, ap, Bool-cases,
}
use openshell_driver_appleco.Result.{ok, err, Result-cases}
use openshell_driver_appleco.Text.{Text, ◌==◌}
use openshell_driver_appleco.Text.Laws.{eq_iff}
use openshell_driver_appleco.Backend.{RuntimeError, not_found, Container}
use openshell_driver_appleco.Backend.Cli.Commands.{Cli, with_id, with_ids, list, get}

-- None of the containers has that id.
abbrev pub Absent : Text → List Container → Type 0
Absent name = All (λ (c : Container). c.id ≢ name)

-- The first container with that id.
pub record IsFirst (name : Text) (cs : List Container) (c : Container) : Type 0 where
  pub before : List Container
  pub after : List Container
  pub place : cs ≡ before ++ c ∷ after
  pub absent : Absent name before
  pub id : c.id ≡ name

with_id_cases :
    (name : Text) (cs : List Container)
    → ((c : Container) × (with_id name cs ≡ ok c) × IsFirst name cs c)
      ⊎ ((with_id name cs ≡ err not_found) × Absent name cs)
unfolding with_id
with_id_cases name [] = inr (refl, tt)
with_id_cases name (c ∷ cs) = elim (Bool-cases (c.id == name)) [
  | inl b ↦ inl (
    c,
    rw b refl,
    record { before = []; after = cs; place = refl; absent = tt; id = (eq_iff c.id name).0 b },
  )
  | inr b ↦ elim (with_id_cases name cs) [
    | inl (d, e, first) ↦ inl (
      d,
      rw b e,
      record {
        before = c ∷ first.before;
        after = first.after;
        place = ap (λ (ds : List Container). c ∷ ds) first.place;
        absent = (λ e. ground (arith, eq_iff c.id name), first.absent);
        id = first.id;
      },
    )
    | inr (e, none_left) ↦ inr (rw b e, (λ e. ground (arith, eq_iff c.id name), none_left))
  ]
]

module _ {W : Type 0} (cli : Cli W) where
  -- Asking the command line for one container lists them all. If the listing fails, so does the call,
  -- with the same error; otherwise it answers the first container of the listing with that id, and it
  -- reports the container as not found exactly when there is none.
  pub get_lem :
      (name : Text) (w : W)
      → ((x : RuntimeError) × ((list cli true w).0 ≡ err x) × ((get cli name w).0 ≡ err x))
        ⊎ ((cs : List Container) × ((list cli true w).0 ≡ ok cs)
            × (((c : Container) × ((get cli name w).0 ≡ ok c) × IsFirst name cs c)
                ⊎ (((get cli name w).0 ≡ err not_found) × Absent name cs)))
  unfolding get with_ids
  get_lem name w = elim (Result-cases (list cli true w).0) [
    | inr (x, e) ↦ inl (x, e, rw e refl)
    | inl (cs, e) ↦ inr (
      cs,
      e,
      elim (with_id_cases name cs) [
        | inl (c, f, first) ↦ inl (c, rw e f, first)
        | inr (f, absent) ↦ inr (rw e f, absent)
      ],
    )
  ]
