-- ===== src/Command/Socket/Tests.antt =====
-- Three instances at one path: one serves, one starts, and one cleans up.
use openshell_driver_appleco.Prelude.{
  ℕ, true, false, Option, [], ◌∷◌, none, some, eqb, ◌≡◌, ◌≢◌, refl, arith, if◌then◌else◌,
}
use openshell_driver_appleco.Result.{ok, err}
use openshell_driver_appleco.Text.{Text}
use openshell_driver_appleco.Command.Socket.{
  is_symlink, DirInfo, verify_owned_dir, Place, Pc, starting, found, serving, drained, over,
  Instances, moved, Turn, finds, answers, differs,
}
use openshell_driver_appleco.Command.Socket.Handover.{Harmless, IsSettled, Others, Others-IsSettled}
use openshell_driver_appleco.Command.Socket.Race.{Turns, drained-lost}

abbrev token : ℕ → Text
token i = i ∷ []

abbrev dir : Option DirInfo
dir = some (record { symlink = false; directory = true; owner = 501 })

link_test :
    verify_owned_dir 501 (some (record { symlink = true; directory = false; owner = 501 }))
    ≡ err is_symlink
unfolding verify_owned_dir
link_test = refl

trusted : verify_owned_dir 501 dir ≡ ok tt
unfolding verify_owned_dir
trusted = refl

abbrev taken : Place
taken = record { socket = some (record { holder = 0; is_open = true }); marker = some (token 0) }

abbrev pcs : ℕ → Pc
pcs i = if eqb i 0 then serving else if eqb i 1 then starting else drained

abbrev before : Instances
before = record { place = taken; pc = pcs }

abbrev after : Instances
after = record { place = taken; pc = moved 2 over (moved 1 over (moved 1 found pcs)) }

others_of : (j : ℕ) → j ≢ 0 → Harmless (pcs j)
others_of j ne = ground arith

served : Others 501 dir token 0 before after
served =
    Others.next 2
      (Others.next 1
        (Others.next 1 Others.here (ground arith) (Turn.turn (finds _ trusted refl))
          (λ x e o f. absurd (ground (arith, f))))
        (ground arith) (Turn.turn (answers _ refl refl)) (λ x e o f g. absurd (ground (arith, g))))
      (ground arith) (Turn.turn (differs (token 0) refl (ground arith)))
      (λ x e o f. absurd (ground (arith, f)))

Others-IsSettled_example : IsSettled 501 dir token 0 after
Others-IsSettled_example =
    Others-IsSettled 501 dir token 0 (λ j ne. ground arith) served
      (record { socket = refl; marker = refl; serves = refl; others = others_of })

abbrev draining : Instances
draining = record {
  place = record { socket = none; marker = some (token 0) };
  pc = λ i. if eqb i 0 then drained else starting;
}

drained-lost_example :
    (t : Instances) × Turns 501 dir token draining t × (t.pc 1 ≡ serving) × (t.place.socket ≡ none)
drained-lost_example =
    drained-lost 501 dir token 0 1 draining (ground arith) trusted
      (record { drains = refl; marker = refl; free = refl }) refl
