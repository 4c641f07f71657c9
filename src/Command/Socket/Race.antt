-- ===== src/Command/Socket/Race.antt =====
-- cmd/openshell-driver-applecontainer/main.go: where the marker comes too late.
use openshell_driver_appleco.Prelude.{ℕ, Option, none, some, ◌≡◌, ◌≢◌, refl, arith, sym, subst}
use openshell_driver_appleco.Result.{ok}
use openshell_driver_appleco.Text.{Text}
use openshell_driver_appleco.Command.Socket.{
  DirInfo, verify_owned_dir, Place, unlinked, Pc, starting, serving, drained, Access, Instances,
  moved, Turn, misses, listens, restricts, claims, matches, unmarks, unlinks,
}

module _ (uid : ℕ) (dir : Option DirInfo) (token : ℕ → Text) where
  pub data Turns (s : Instances) : Instances → Type 0 where
    here : Turns s s
    next : {t u : Instances} (j : ℕ) → Turns s t → Turn uid dir token t j u → Turns s u

  run_on :
      {s t : Instances} (j : ℕ) {p q : Pc} {d : Place}
      → Turns s t
      → t.pc j ≡ p
      → Access uid dir j (token j) t.place p d q
      → Turns s (record { place = d; pc = moved j q t.pc })
  run_on {t = t} j {q = q} {d = d} r e mv =
      next j r (Turn.turn (subst (λ (z : Pc). Access uid dir j (token j) t.place z d q) (sym e) mv))

  -- An instance has closed its listener and is about to read its marker, and the path is free.
  pub record IsDraining (i : ℕ) (s : Instances) : Type 0 where
    pub drains : s.pc i ≡ drained
    pub marker : s.place.marker ≡ some (token i)
    pub free : s.place.socket ≡ none

  -- An instance that starts while another one cleans up after itself can end up serving at a path that
  -- is gone: from every state in which one drains and another is about to start in a directory that
  -- passes the checks, there is such an order of their calls.
  pub drained-lost :
      (i j : ℕ) (s : Instances)
      → i ≢ j
      → verify_owned_dir uid dir ≡ ok tt
      → IsDraining i s
      → s.pc j ≡ starting
      → (t : Instances) × Turns s t × (t.pc j ≡ serving) × (t.place.socket ≡ none)
  unfolding unlinked
  drained-lost i j s ne trusted d start =
      let r1 = run_on i here d.drains (matches d.marker) in
      let r2 = run_on i r1 (ground arith) unmarks in
      let r3 = run_on j r2 (ground (arith, ne, start)) (misses trusted d.free) in
      let r4 = run_on j r3 (ground arith) (listens d.free) in
      let r5 = run_on j r4 (ground arith) (restricts _ refl) in
      let r6 = run_on j r5 (ground arith) claims in
      let r7 = run_on i r6 (ground (arith, ne)) unlinks in (_, r7, ground (arith, ne), refl)
