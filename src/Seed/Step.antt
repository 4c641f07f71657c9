-- ===== src/Seed/Step.antt =====
-- Steps that may end with an error, and what holds around them.
use openshell_driver_appleco.Result.{Result, ok, err}
use openshell_driver_appleco.Seed.{SeedError}

abbrev pub Step : Type 0 → Type 0 → Type 0
Step S A = S → Result SeedError A × S

unfoldable pub next :
    {S A B : Type 0} → (A → Step S B) → Result SeedError A × S → Result SeedError B × S
next f (ok a, s) = f a s
next f (err x, s) = (err x, s)

infixl 5 ◌>>=◌ ◌>>◌
unfoldable pub ◌>>=◌ : {S A B : Type 0} → Step S A → (A → Step S B) → Step S B
unfolding next
(m >>= f) s = next f (m s)

unfoldable pub ◌>>◌ : {S B : Type 0} → Step S (Unit {0}) → Step S B → Step S B
unfolding next
(m >> k) s = next (λ _. k) (m s)

abbrev pub pure : {S A : Type 0} → A → Step S A
pure a s = (ok a, s)

abbrev pub stop : {S A : Type 0} → SeedError → Step S A
stop x s = (err x, s)

-- `defer`: what is done last, however the step ends.
abbrev pub deferred : {S A : Type 0} → (S → S) → Step S A → Step S A
deferred last m s = ((m s).0, last (m s).1)

-- After an error `I` holds, and after a success `Q` does, of the value and the state.
abbrev pub Ends : {S A : Type 0} → (S → Type 0) → (A → S → Type 0) → Result SeedError A × S → Type 0
Ends I Q (ok a, s) = Q a s
Ends I Q (err x, s) = I s

-- From every state in which `P` holds.
pub record Leads {S : Type 0} (I : S → Type 0) {A : Type 0} (P : S → Type 0) (m : Step S A)
    (Q : A → S → Type 0) : Type 0 where
  pub ends : (s : S) → P s → Ends I Q (m s)

weaker-Ends :
    {S A : Type 0} (I : S → Type 0) (Q T : A → S → Type 0) (r : Result SeedError A × S)
    → ((a : A) (s : S) → Q a s → T a s)
    → Ends I Q r
    → Ends I T r
weaker-Ends I Q T (ok a, s) k q = k a s q
weaker-Ends I Q T (err x, s) k i = i

module _ {S : Type 0} {I : S → Type 0} where
  next-Ends :
      {A B : Type 0} (Q : A → S → Type 0) (T : B → S → Type 0) (f : A → Step S B)
      (r : Result SeedError A × S)
      → Ends I Q r
      → ((a : A) → Leads I (Q a) (f a) T)
      → Ends I T (next f r)
  unfolding next
  next-Ends Q T f (ok a, s) q k = (k a).ends s q
  next-Ends Q T f (err x, s) i k = i

  pub bind-Leads :
      {A B : Type 0} {P : S → Type 0} {Q : A → S → Type 0} {T : B → S → Type 0} {m : Step S A}
      {f : A → Step S B}
      → Leads I P m Q
      → ((a : A) → Leads I (Q a) (f a) T)
      → Leads I P (m >>= f) T
  unfolding ◌>>=◌
  bind-Leads {Q} {T} {m} {f} h k = record { ends = λ s p. next-Ends Q T f (m s) (h.ends s p) k }

  pub seq-Leads :
      {B : Type 0} {P : S → Type 0} (Q : S → Type 0) {T : B → S → Type 0} {m : Step S (Unit {0})}
      {n : Step S B}
      → Leads I P m (λ _. Q)
      → Leads I Q n T
      → Leads I P (m >> n) T
  unfolding ◌>>◌
  seq-Leads Q {T} {m} {n} h k = record {
    ends = λ s p. next-Ends (λ _. Q) T (λ _. n) (m s) (h.ends s p) (λ _. k);
  }

  deferred-Ends :
      {A : Type 0} (Q : A → S → Type 0) (last : S → S) (r : Result SeedError A × S)
      → ((s : S) → I s → I (last s))
      → ((a : A) (s : S) → Q a s → Q a (last s))
      → Ends I Q r
      → Ends I Q (r.0, last r.1)
  deferred-Ends Q last (ok a, s) i q h = q a s h
  deferred-Ends Q last (err x, s) i q h = i s h

  pub deferred-Leads :
      {A : Type 0} {P : S → Type 0} {Q : A → S → Type 0} {m : Step S A} (last : S → S)
      → ((s : S) → I s → I (last s))
      → ((a : A) (s : S) → Q a s → Q a (last s))
      → Leads I P m Q
      → Leads I P (deferred last m) Q
  deferred-Leads {Q} {m} last i q h = record {
    ends = λ s p. deferred-Ends Q last (m s) i q (h.ends s p);
  }

  pub pure-Leads :
      {A : Type 0} {P : S → Type 0} {Q : A → S → Type 0} {a : A}
      → ((s : S) → P s → Q a s)
      → Leads I P (pure a) Q
  pure-Leads h = record { ends = h }

  pub stop-Leads :
      {A : Type 0} {P : S → Type 0} {Q : A → S → Type 0} {x : SeedError}
      → ((s : S) → P s → I s)
      → Leads I P (stop {A = A} x) Q
  stop-Leads h = record { ends = h }

  pub weaker-Leads :
      {A : Type 0} {P : S → Type 0} {Q T : A → S → Type 0} {m : Step S A}
      → ((a : A) (s : S) → Q a s → T a s)
      → Leads I P m Q
      → Leads I P m T
  weaker-Leads {Q} {T} {m} k h = record { ends = λ s p. weaker-Ends I Q T (m s) k (h.ends s p) }
