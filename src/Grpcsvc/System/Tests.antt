-- ===== src/Grpcsvc/System/Tests.antt =====
-- The theorems on the interleavings at a short run.
use openshell_driver_appleco.Prelude.{◌≤◌, Bool-cases, [], some, ◌≡◌, inl, inr, refl, arith}
use openshell_driver_appleco.Text.{Text, text, ◌==◌}
use openshell_driver_appleco.Text.Laws.{eq_iff}
use openshell_driver_appleco.Assoc.{lookup, insert}
use openshell_driver_appleco.Grpcsvc.Fixtures.{World, host, cfg, server, sandbox, known_record}
use openshell_driver_appleco.State.{Record}
use openshell_driver_appleco.Grpcsvc.Conditions.{
  stopped_condition, same_reason, ready_true_condition,
}
use openshell_driver_appleco.Grpcsvc.Server.{Server, set_condition, lookup_locked}
use openshell_driver_appleco.Grpcsvc.Create.{register}
use openshell_driver_appleco.Grpcsvc.Lifecycle.{begin_lifecycle, release, refusal}
use openshell_driver_appleco.Grpcsvc.System.{
  Run, begins, marks, registers, sets, releases, marked_deleting, here, next,
}
use openshell_driver_appleco.Grpcsvc.System.Growth.{Keeps, Run-Keeps}
use openshell_driver_appleco.Grpcsvc.System.Invariant.{Registered, IsConsistent, Run-IsConsistent}

-- While a stop of "a" holds its entry, its deletion begins, "b" is registered, and the stop's condition is
-- set.
abbrev held : Server World
held = (begin_lifecycle host cfg (text "a") [] server).1

abbrev marked : Server World
marked = marked_deleting host cfg 0 held

abbrev record_of_b : Record
record_of_b = record known_record { id = text "b"; container_name = text "oshl-b" }

abbrev created : Server World
created = (register host cfg sandbox record_of_b marked).1

is_registered : lookup (text "b") created.sandboxes ≡ some 1
unfolding register lookup ◌==◌ begin_lifecycle lookup_locked refusal same_reason
    ready_true_condition insert
is_registered = refl

abbrev left : Server World
left = release host cfg 0 (set_condition 0 (stopped_condition 9) created)

abbrev history : Run host cfg server left
history =
    next
      (next
        (next (next (next here (begins (text "a") [] server)) (marks 0 held))
          (registers sandbox record_of_b marked))
        (sets 0 (stopped_condition 9) created))
      (releases 0 (set_condition 0 (stopped_condition 9) created))

server-Registered : (k : Text) → Registered server k (lookup k server.sandboxes)
unfolding lookup
server-Registered k = elim (Bool-cases (text "a" == k)) [
  | inl hit ↦ rw hit (inr (0, refl, omega arith, (eq_iff (text "a") k).0 hit))
  | inr miss ↦ rw miss (inl refl)
]

server-IsConsistent : IsConsistent server
server-IsConsistent = record { registry = server-Registered; tasks = tt }

Run-IsConsistent_example : IsConsistent left
Run-IsConsistent_example = Run-IsConsistent host cfg history server-IsConsistent

Run-Keeps_example : Keeps (server.heap 0) (left.heap 0) × (server.next_address ≤ left.next_address)
Run-Keeps_example = Run-Keeps host cfg 0 history (omega arith)
