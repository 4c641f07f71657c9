-- ===== src/Backend/Fake/Contract.antt =====
-- internal/backend/fake.go: what the driver relies on of a runtime holds of the in-memory one.
use openshell_driver_appleco.Prelude.{[], ◌≡◌, inl, inr, arith, Option-cases, if◌then◌else◌}
use openshell_driver_appleco.Result.{Result, ok, err}
use openshell_driver_appleco.Text.{Text, text, ◌==◌}
use openshell_driver_appleco.Assoc.{lookup, lookup-insert, lookup-erase}
use openshell_driver_appleco.Backend.{RuntimeError, not_found, Container, RunSpec}
use openshell_driver_appleco.Backend.Fake.{
  FakeState, container_of_spec, fake_run, fake_delete, set_state, fake_stop, fake_get,
}

-- Behind a successful operation on a container, reading any container gives this one's new value and
-- every other one's old value.
abbrev pub Reads : FakeState → FakeState → Text → Result RuntimeError Container → Type 0
Reads f g name now = (k : Text) → (fake_get k g).0 ≡ (if name == k then now else (fake_get k f).0)

-- A boot that succeeds makes the container readable as the one that its request describes, and no
-- other container changes.
pub fake_run-Reads :
    (spec : RunSpec) (f : FakeState) (name : Text)
    → (fake_run spec f).0 ≡ ok name
    → Reads f (fake_run spec f).1 spec.name (ok (container_of_spec spec))
unfolding fake_run fake_get
fake_run-Reads spec f name h k = ground (
  arith,
  h,
  lookup-insert spec.name k (record { ctr = container_of_spec spec; console = [] }) f.containers,
)

-- A deletion that succeeds makes the container unreadable, and no other container changes.
pub fake_delete-Reads :
    (name : Text) (f : FakeState)
    → (fake_delete name f).0 ≡ ok tt
    → Reads f (fake_delete name f).1 name (err not_found)
unfolding fake_delete fake_get
fake_delete-Reads name f h k = ground (arith, lookup-erase name k f.containers)

-- A stop that succeeds leaves the container with the state "stopped" and otherwise as it was, and no
-- other container changes.
pub fake_stop-Reads :
    (name : Text) (f : FakeState) (c : Container)
    → (fake_get name f).0 ≡ ok c
    → (fake_stop name f).0 ≡ ok tt
    → Reads f (fake_stop name f).1 name (ok (record c { state = text "stopped" }))
unfolding fake_stop fake_get set_state
fake_stop-Reads name f c found h k = elim (Option-cases (lookup name f.containers)) [
  | inl e ↦ absurd (ground (arith, e, found))
  | inr (x, e) ↦ ground (
    arith,
    e,
    found,
    h,
    lookup-insert name k (record x { ctr = record x.ctr { state = text "stopped" } }) f.containers,
  )
]
