-- ===== src/Command/Socket/Handover.antt =====
-- cmd/openshell-driver-applecontainer/main.go: an instance that is replaced leaves its successor's socket.
use openshell_driver_appleco.Prelude.{
  ℕ, true, Option, some, eqb, ◌≡◌, ◌≢◌, refl, arith, ◌∙◌, Bool-cases, inl, inr,
}
use openshell_driver_appleco.Text.{Text}
use openshell_driver_appleco.Command.Socket.{
  DirInfo, Socket, Place, left_behind, Pc, starting, found, stale, binding, serving, drained, over,
  Access, Instances, Turn, refuses, finds, misses, fails_start, answers, hangs, vanishes, removes,
  fails_remove, clears, fails_clear, listens, in_use, fails_listen, restricts, fails_restrict,
  claims, fails_claim, closes, unreadable, differs, matches, unmarks, fails_unmark, unlinks,
  fails_unlink, crashes,
}

abbrev bound_by : ℕ → Socket
bound_by i = record { holder = i; is_open = true }

-- Not past a look at the path or the marker that what it does next relies on.
abbrev pub Harmless : Pc → Type 0
Harmless starting = Unit
Harmless found = Unit
Harmless binding = Unit
Harmless drained = Unit
Harmless over = Unit
Harmless _ = ⊥

module _ {uid : ℕ} {dir : Option DirInfo} {j : ℕ} {mine : Text} (i : ℕ) (theirs : Text) where
  Access-Harmless :
      {d d' : Place} {p p' : Pc}
      → Access uid dir j mine d p d' p'
      → j ≢ i
      → mine ≢ theirs
      → d.socket ≡ some (bound_by i)
      → d.marker ≡ some theirs
      → (p ≡ found → p' ≢ stale)
      → Harmless p
      → (d'.socket ≡ d.socket) × (d'.marker ≡ d.marker) × Harmless p'
  unfolding left_behind
  Access-Harmless (refuses e v) ne other s m ans h = (refl, refl, tt)
  Access-Harmless (finds x v e) ne other s m ans h = (refl, refl, tt)
  Access-Harmless (misses v e) ne other s m ans h = (refl, refl, tt)
  Access-Harmless fails_start ne other s m ans h = (refl, refl, tt)
  Access-Harmless (answers x e o) ne other s m ans h = (refl, refl, tt)
  Access-Harmless (hangs x e) ne other s m ans h = absurd (ans refl refl)
  Access-Harmless (vanishes e) ne other s m ans h = absurd (ground (arith, e, s))
  Access-Harmless (removes x e) ne other s m ans h = absurd h
  Access-Harmless fails_remove ne other s m ans h = absurd h
  Access-Harmless clears ne other s m ans h = absurd h
  Access-Harmless fails_clear ne other s m ans h = absurd h
  Access-Harmless (listens e) ne other s m ans h = absurd (ground (arith, e, s))
  Access-Harmless (in_use x e) ne other s m ans h = (refl, refl, tt)
  Access-Harmless fails_listen ne other s m ans h = (refl, refl, tt)
  Access-Harmless (restricts x e) ne other s m ans h = absurd h
  Access-Harmless fails_restrict ne other s m ans h = absurd h
  Access-Harmless claims ne other s m ans h = absurd h
  Access-Harmless (fails_claim x) ne other s m ans h = absurd h
  Access-Harmless closes ne other s m ans h = absurd h
  Access-Harmless unreadable ne other s m ans h = (refl, refl, tt)
  Access-Harmless (differs x e n) ne other s m ans h = (refl, refl, tt)
  Access-Harmless (matches e) ne other s m ans h = absurd (ground (arith, e, m, other))
  Access-Harmless unmarks ne other s m ans h = absurd h
  Access-Harmless fails_unmark ne other s m ans h = absurd h
  Access-Harmless unlinks ne other s m ans h = absurd h
  Access-Harmless fails_unlink ne other s m ans h = absurd h
  Access-Harmless {d} crashes ne other s m ans h =
      (rw (s, left_behind) (ground (arith, ne)), refl, tt)

module _ (uid : ℕ) (dir : Option DirInfo) (token : ℕ → Text) (i : ℕ) where
  -- Instance `i` serves at the path, with its own marker, and the others are harmless to it.
  pub record IsSettled (s : Instances) : Type 0 where
    pub socket : s.place.socket ≡ some (record { holder = i; is_open = true })
    pub marker : s.place.marker ≡ some (token i)
    pub serves : s.pc i ≡ serving
    pub others : (j : ℕ) → j ≢ i → Harmless (s.pc j)

  -- In this call of instance `j` no dial fails at an open socket.
  abbrev pub Answered : ℕ → Instances → Instances → Type 0
  Answered j t u =
      (x : Socket) → t.place.socket ≡ some x → x.is_open ≡ true → t.pc j ≡ found → u.pc j ≢ stale

  -- What the other instances do, one call after another, as long as open listeners answer their dials.
  pub data Others (s : Instances) : Instances → Type 0 where
    here : Others s s
    next :
        {t u : Instances} (j : ℕ)
        → Others s t
        → j ≢ i
        → Turn uid dir token t j u
        → Answered j t u
        → Others s u

  module _ (distinct : (j : ℕ) → j ≢ i → token j ≢ token i) where
    Turn-IsSettled :
        {s : Instances} (j : ℕ) {t : Instances}
        → j ≢ i
        → Turn uid dir token s j t
        → Answered j s t
        → IsSettled s
        → IsSettled t
    Turn-IsSettled {s} j ne (Turn.turn {d = d} {p = p} mv) ans v =
        let (a, b, c) =
          Access-Harmless i (token i) mv ne (distinct j ne) v.socket v.marker
            (λ e f. ans (bound_by i) v.socket refl e (ground (arith, f))) (v.others j ne) in
        record {
          socket = a ∙ v.socket;
          marker = b ∙ v.marker;
          serves = ground (arith, ne, v.serves);
          others = λ k other. elim (Bool-cases (eqb j k)) [
            | inl b ↦ rw b c
            | inr b ↦ rw b (v.others k other)
          ];
        }

    -- Once an instance serves at the path with its own marker, and no other one has passed a look at the
    -- path or the marker on which its next call relies, nothing that the others do takes the path from
    -- it, as long as none of their dials of an open listener fails: whatever instances start, are
    -- refused, drain, read the marker to clean up or crash, in whatever order, the socket stays the
    -- instance's own and open, and the marker its own. The tokens are distinct.
    pub Others-IsSettled : {s t : Instances} → Others s t → IsSettled s → IsSettled t
    Others-IsSettled here v = v
    Others-IsSettled (next j o ne st ans) v = Turn-IsSettled j ne st ans (Others-IsSettled o v)
