-- ===== src/Grpcsvc/Reconcile/Poll.antt =====
-- internal/grpcsvc/reconcile.go, the loop of `pollOnce`: what one look at the listing does to each
-- entry, and that a second look finds nothing to do.
use openshell_driver_appleco.Prelude.{
  ℕ, Bool, true, false, not, ◌&&◌, List, [], ◌∷◌, Option, none, some, any, ◌≡◌, ◌↔◌, ◌⊎◌, inl, inr,
  refl, arith, eqb, eqb_iff, Bool-cases, ap, ◌∙◌, if◌then◌else◌,
}
use openshell_driver_appleco.Text.{Text, ◌==◌}
use openshell_driver_appleco.Backend.{Container}
use openshell_driver_appleco.Grpcsvc.Conditions.{
  Reason, same_reason, same_status, ready_true_condition, stopped_condition, exited_condition,
  failed_condition, provisioning_failed, container_exited, container_stopped, backend_ready,
}
use openshell_driver_appleco.Grpcsvc.Lifecycle.{state_running}
use openshell_driver_appleco.Grpcsvc.Server.{Entry, put, pollable}
use openshell_driver_appleco.Grpcsvc.Reconcile.{
  is_resumed, clear_stopped, next_condition, differs, Look, unseen, take_over, look, no_lists,
  keep_if, join_lists, visit,
}

-- Whether the listing shows the VM at work.
abbrev pub is_running : Option Container → Bool
is_running none = false
is_running (some c) = c.state == state_running

-- The reason that the listing and the gateway's intent call for.
abbrev pub expected : Option Container → Bool → Reason
expected none stopped = provisioning_failed
expected (some c) stopped =
    if c.state == state_running
    then backend_ready
    else if stopped
    then container_stopped
    else container_exited

-- An entry before and after the poller looked at it.
pub record Reported (found : Option Container) (e k : Entry) : Type 0 where
  pub reason : k.cond.reason ≡ expected found e.rec.stopped
  pub stopped : k.rec.stopped ≡ (e.rec.stopped && not (is_running found))
  pub id : k.rec.id ≡ e.rec.id
  pub container_name : k.rec.container_name ≡ e.rec.container_name
  pub deleting : k.deleting ≡ e.deleting
  pub busy : k.busy ≡ e.busy
  pub done : k.done ≡ e.done

same_reason_iff : (a b : Reason) → (same_reason a b ≡ true) ↔ (a ≡ b)
unfolding same_reason
same_reason_iff a b = ground arith

look-Reported :
    (now : ℕ) (found : Option Container) (e : Entry)
    → pollable e ≡ true
    → Reported found e (look now found e).entry
unfolding look is_resumed clear_stopped next_condition differs take_over ready_true_condition
    stopped_condition exited_condition failed_condition same_reason same_status
look-Reported now none e h = record {
  reason = ground (arith, same_reason_iff e.cond.reason provisioning_failed);
  stopped = ground arith;
  id = ground arith;
  container_name = ground arith;
  deleting = ground arith;
  busy = ground arith;
  done = ground arith;
}
look-Reported now (some c) e h = record {
  reason = ground arith;
  stopped = ground arith;
  id = ground arith;
  container_name = ground arith;
  deleting = ground arith;
  busy = ground arith;
  done = ground arith;
}

-- An entry that the poller may not act on is passed over.
look-unpollable :
    (now : ℕ) (found : Option Container) (e : Entry)
    → pollable e ≡ false
    → look now found e ≡ unseen e
unfolding look
look-unpollable now found e h = ground arith

-- What an entry looks like behind a look: not pollable, or in step with the listing.
abbrev pub Settled : Option Container → Entry → Type 0
Settled found e = (now : ℕ) → look now found e ≡ unseen e

pub look-Settled :
    (now : ℕ) (found : Option Container) (e : Entry) → Settled found (look now found e).entry
unfolding look is_resumed clear_stopped next_condition differs take_over ready_true_condition
    stopped_condition exited_condition failed_condition same_reason same_status unseen pollable
look-Settled now none e later = ground arith
look-Settled now (some c) e later = ground arith

look-container_name :
    (now : ℕ) (found : Option Container) (e : Entry)
    → (look now found e).entry.rec.container_name ≡ e.rec.container_name
unfolding look clear_stopped take_over unseen
look-container_name now found e = ground arith

-- The registry holds the address.
abbrev pub holds : List (Text × ℕ) → ℕ → Bool
holds m q = any (λ (x : Text × ℕ). eqb x.1 q) m

-- What one look leaves of an entry.
abbrev pub looked : ℕ → (Text → Option Container) → Entry → Entry
looked now find e = (look now (find e.rec.container_name) e).entry

pub looked-looked :
    (now : ℕ) (find : Text → Option Container) (e : Entry)
    → looked now find (looked now find e) ≡ looked now find e
unfolding unseen
looked-looked now find e =
    let found = find e.rec.container_name in
    ap (λ (name : Text). (look now (find name) (looked now find e)).entry)
      (look-container_name now found e)
    ∙ ap (λ (l : Look). l.entry) (look-Settled now found e now)

pub visit-heap :
    (now : ℕ) (find : Text → Option Container) (m : List (Text × ℕ)) (h : ℕ → Entry) (q : ℕ)
    → (visit now find m h).0 q ≡ (if holds m q then looked now find (h q) else h q)
unfolding visit
visit-heap now find [] h q = refl
visit-heap now find ((id, p) ∷ m) h q = elim (Bool-cases (eqb p q)) [
  | inr miss ↦ rw miss (visit-heap now find m (put h p (looked now find (h p))) q ∙ rw miss refl)
  | inl hit ↦ rw hit (
      visit-heap now find m (put h p (looked now find (h p))) q
      ∙ rw hit (ground (arith, eqb_iff p q, looked-looked now find (h q), hit)))
]

-- A look at the registry leaves every entry that it does not hold, and every entry that is being
-- deleted, that a stop or start holds or that is still provisioning, exactly as it was. Every other
-- entry has the reason that the listing and the gateway's intent call for, keeps the intent to be
-- stopped only if its VM is not running, and keeps its id, container and flags.
pub visit-Reported :
    (now : ℕ) (find : Text → Option Container) (m : List (Text × ℕ)) (h : ℕ → Entry) (q : ℕ)
    → ((holds m q && pollable (h q) ≡ false) × ((visit now find m h).0 q ≡ h q))
      ⊎ ((holds m q && pollable (h q) ≡ true)
          × Reported (find (h q).rec.container_name) (h q) ((visit now find m h).0 q))
unfolding unseen
visit-Reported now find m h q =
    let found = find (h q).rec.container_name in
    rw (visit-heap now find m h q) (elim (Bool-cases (holds m q)) [
      | inr out ↦ rw out (inl (refl, refl))
      | inl held ↦ rw held (elim (Bool-cases (pollable (h q))) [
        | inl free ↦ inr (free, look-Reported now found (h q) free)
        | inr shut ↦ inl (shut, ap (λ (l : Look). l.entry) (look-unpollable now found (h q) shut))
      ])
    ])

-- Every entry that the registry holds is in step with the listing.
abbrev pub AllSettled : (Text → Option Container) → List (Text × ℕ) → (ℕ → Entry) → Type 0
AllSettled find m h = (q : ℕ) → (holds m q ≡ false) ⊎ Settled (find (h q).rec.container_name) (h q)

pub visit-AllSettled :
    (now : ℕ) (find : Text → Option Container) (m : List (Text × ℕ)) (h : ℕ → Entry)
    → AllSettled find m (visit now find m h).0
visit-AllSettled now find m h q =
    let found = find (h q).rec.container_name in
    rw (visit-heap now find m h q) (elim (Bool-cases (holds m q)) [
      | inr out ↦ inl out
      | inl held ↦
          inr (rw held (rw (look-container_name now found (h q)) (look-Settled now found (h q))))
    ])

pub visit_settled :
    (now : ℕ) (find : Text → Option Container) (m : List (Text × ℕ)) (h : ℕ → Entry)
    → AllSettled find m h
    → (visit now find m h).1 ≡ no_lists
unfolding visit join_lists keep_if unseen
visit_settled now find [] h steady = refl
visit_settled now find ((id, p) ∷ m) h steady =
    let found = find (h p).rec.container_name in
    let settled : Settled found (h p) = elim (steady p) [
      | inl out ↦ absurd (ground (arith, out))
      | inr x ↦ x
    ] in
    let here : look now found (h p) ≡ unseen (h p) = settled now in
    let rest = visit_settled now find m (put h p (look now found (h p)).entry) (λ q.
      elim (Bool-cases (eqb p q)) [
        | inl hit ↦ rw (hit, here) (inr settled)
        | inr miss ↦
            rw miss (elim (steady q) [ inl out ↦ inl (ground (arith, out, miss)) | inr x ↦ inr x ])
      ]) in
    rw (rest, here) refl
