-- ===== src/Grpcsvc/Provision/Action.antt =====
-- The steps of a provisioning task. The lock is free while the task waits for the host: before each
-- call of the host, `others` is what the other goroutines do to the server, and may be anything.
use openshell_driver_appleco.Result.{Result, ok, err}
use openshell_driver_appleco.Prelude.{◌≡◌, refl, arith}
use openshell_driver_appleco.Grpcsvc.Errors.{ProvisionError}
use openshell_driver_appleco.Grpcsvc.Server.{Server}

-- A part of the task: it may end the task with an error.
abbrev pub Action : Type 0 → Type 0 → Type 0
Action W A = Server W → Result ProvisionError A × Server W

unfoldable pub next :
    {W A B : Type 0}
    → (A → Action W B)
    → Result ProvisionError A × Server W
    → Result ProvisionError B × Server W
next f (ok a, s) = f a s
next f (err x, s) = (err x, s)

infixl 5 ◌>>=◌ ◌>>◌
unfoldable pub ◌>>=◌ : {W A B : Type 0} → Action W A → (A → Action W B) → Action W B
unfolding next
(m >>= f) s = next f (m s)

unfoldable pub ◌>>◌ : {W B : Type 0} → Action W (Unit {0}) → Action W B → Action W B
unfolding next
(m >> k) s = next (λ _. k) (m s)

abbrev pub pure : {W A : Type 0} → A → Action W A
pure a s = (ok a, s)

abbrev pub stop : {W A : Type 0} → ProvisionError → Action W A
stop x s = (err x, s)

-- A computation that touches no state.
abbrev pub check : {W E A : Type 0} → (E → ProvisionError) → Result E A → Action W A
check f (ok a) s = (ok a, s)
check f (err x) s = (err (f x), s)

-- A step that cannot fail.
abbrev pub perform : {W : Type 0} → (Server W → Server W) → Action W (Unit {0})
perform f s = (ok tt, f s)

-- A call of the host, whose error is passed on wrapped.
abbrev pub answer :
    {W E A : Type 0}
    → (E → ProvisionError)
    → Server W
    → Result E A × W
    → Result ProvisionError A × Server W
answer f s (ok a, w) = (ok a, record s { world = w })
answer f s (err x, w) = (err (f x), record s { world = w })

abbrev pub call :
    {W E A : Type 0}
    → (Server W → Server W)
    → (E → ProvisionError)
    → (W → Result E A × W)
    → Action W A
call others f op s = let t = others s in answer f t (op t.world)

-- A sequence that succeeds is two parts that succeed.
next_ok :
    {W A B : Type 0} (f : A → Action W B) (r : Result ProvisionError A × Server W) (b : B)
    → (next f r).0 ≡ ok b
    → (a : A) × (t : Server W) × (r ≡ (ok a, t)) × ((f a t).0 ≡ ok b) × (next f r ≡ f a t)
unfolding next
next_ok f (ok a, s) b h = (a, s, refl, h, refl)
next_ok f (err x, s) b h = absurd (ground arith)

pub bind_ok :
    {W A B : Type 0} (m : Action W A) (f : A → Action W B) (s : Server W) (b : B)
    → ((m >>= f) s).0 ≡ ok b
    → (a : A) × (t : Server W) × (m s ≡ (ok a, t)) × ((f a t).0 ≡ ok b) × ((m >>= f) s ≡ f a t)
unfolding ◌>>=◌
bind_ok m f s b h = next_ok f (m s) b h

pub seq_ok :
    {W B : Type 0} (m : Action W (Unit {0})) (k : Action W B) (s : Server W) (b : B)
    → ((m >> k) s).0 ≡ ok b
    → (t : Server W) × (m s ≡ (ok tt, t)) × ((k t).0 ≡ ok b) × ((m >> k) s ≡ k t)
unfolding ◌>>◌
seq_ok m k s b h = let (_, t, e, g, q) = next_ok (λ _. k) (m s) b h in (t, e, g, q)

pub check_ok :
    {W E A : Type 0} (f : E → ProvisionError) (r : Result E A) (s t : Server W) (a : A)
    → check f r s ≡ (ok a, t)
    → (r ≡ ok a) × (t ≡ s)
check_ok f (ok b) s t a h = (ground arith, ground arith)
check_ok f (err x) s t a h = absurd (ground arith)
