-- ===== src/Grpcsvc/System/Handlers.antt =====
-- internal/grpcsvc: the handlers and the poller are sequences of the system's steps, whatever steps the
-- others take in between.
use openshell_driver_appleco.Prelude.{
  ℕ, Bool, List, [], ◌∷◌, Option, none, some, inl, inr, true, subst, sym, ◌<◌, not, ◌&&◌, arith,
  Bool-cases, Option-cases,
}
use openshell_driver_appleco.Result.{Result, ok, err, Result-cases}
use openshell_driver_appleco.Text.{Text, ◌==◌}
use openshell_driver_appleco.Config.{Config}
use openshell_driver_appleco.Backend.{Container, Outcome}
use openshell_driver_appleco.Grpcsvc.Conditions.{same_reason, container_exited}
use openshell_driver_appleco.Grpcsvc.Proto.{DriverSandbox}
use openshell_driver_appleco.Grpcsvc.Server.{
  Server, Host, lookup_locked, set_condition, publish_sandbox, publish_deleted,
  publish_platform_event,
}
use openshell_driver_appleco.State.{valid_id}
use openshell_driver_appleco.Grpcsvc.Create.{
  container_name, launch, launch_registered, accept, create_valid, create_sandbox, validate_sandbox,
  redact, new_record,
}
use openshell_driver_appleco.Grpcsvc.System.Growth.{register_cases, entered}
use openshell_driver_appleco.Grpcsvc.Delete.{
  mark_deleting, tear_down, delete_unknown, delete_known, delete_sandbox, deleted_vm,
}
use openshell_driver_appleco.Grpcsvc.Errors.{RpcError}
use openshell_driver_appleco.Grpcsvc.Lifecycle.{report, bracket, with_release}
use openshell_driver_appleco.Grpcsvc.Lifecycle.Laws.{
  call, call-bracket, settle_cases, operate_cases, finish, body, asked, saved, operation, Observed,
  condition, event_reason, event_message,
}
use openshell_driver_appleco.Grpcsvc.Reconcile.{
  persist_all, attach_tail, attach_tails, publish_sandboxes, apply_listing, poll_once, has_pollable,
}
use openshell_driver_appleco.Grpcsvc.System.{
  Run, Run-trans, Run-move, intends, sets, releases, marks, registers, launches, cancels, erases,
  visits, begins, hears, waits, here, next,
}

module _ {W F : Type 0} (host : Host W F) (cfg : Config) (others : Server W → Server W)
    (yields : (s : Server W) → Run host cfg s (others s)) where
  -- The others, behind a run.
  yielded : {s t : Server W} → Run host cfg s t → Run host cfg s (others t)
  yielded {s} {t} r = Run-trans host cfg r (yields t)

  mark_deleting-Run : (p : ℕ) (s : Server W) → Run host cfg s (mark_deleting host cfg p s)
  unfolding mark_deleting publish_sandbox
  mark_deleting-Run p s = next (next (next here (marks p s)) (hears _ _)) (cancels p _)

  tear_down-Run : (id name : Text) (s : Server W) → Run host cfg s (tear_down host cfg id name s).1
  unfolding tear_down publish_deleted
  tear_down-Run id name s = elim (Result-cases (deleted_vm (host.runtime.delete name s.world).0)) [
    | inr (x, e) ↦ rw (e, tear_down) (Run-move host cfg (waits _ s))
    | inl (d, e) ↦
        elim (Result-cases (host.store.delete id (host.runtime.delete name s.world).1).0) [
          | inr (x, f) ↦ rw (e, tear_down) (rw (f, tear_down) (Run-move host cfg (waits _ s)))
          | inl (tt, f) ↦
              rw (e, tear_down)
                (rw (f, tear_down) (next (next (next here (waits _ s)) (erases id _)) (hears _ _)))
        ]
  ]

  delete_unknown-Run : (id : Text) (s : Server W) → Run host cfg s (delete_unknown host cfg id s).1
  unfolding delete_unknown
  delete_unknown-Run id s = elim (Bool-cases (valid_id id)) [
    | inr b ↦ rw b here
    | inl b ↦ elim (Result-cases (deleted_vm (host.runtime.delete (container_name id) s.world).0)) [
      | inr (x, e) ↦ rw (b, delete_unknown) (rw (e, delete_unknown) (Run-move host cfg (waits _ s)))
      | inl (d, e) ↦ rw (b, delete_unknown) (rw (e, delete_unknown) (Run-move host cfg (waits _ s)))
    ]
  ]

  pub delete_sandbox-Run :
      (id name : Text) (s : Server W) → Run host cfg s (delete_sandbox host cfg others id name s).1
  unfolding delete_sandbox delete_known
  delete_sandbox-Run id name s = elim (Option-cases (lookup_locked id name s)) [
    | inl e ↦ rw (e, delete_sandbox) (delete_unknown-Run id s)
    | inr (p, e) ↦
        rw (e, delete_sandbox)
          (Run-trans host cfg (yielded (mark_deleting-Run p s)) (tear_down-Run _ _ _))
  ]

  report-Run :
      (running : Bool) (p now : ℕ) (s : Server W)
      → Run host cfg s (
          report host cfg others p
            (condition host cfg others running now)
            (event_reason host cfg others running)
            (event_message host cfg others running)
            s)
  unfolding report set_condition publish_sandbox publish_platform_event
  report-Run running p now s =
      next (yielded (next (yielded (next here (sets p _ s))) (hears _ _))) (hears _ _)

  persist_all-Run : (ps : List ℕ) (s : Server W) → Run host cfg s (persist_all host cfg ps s)
  unfolding persist_all
  persist_all-Run [] s = here
  persist_all-Run (p ∷ ps) s =
      Run-trans host cfg (Run-move host cfg (waits _ s)) (persist_all-Run ps _)

  publish_sandboxes-Run :
      (ps : List ℕ) (s : Server W) → Run host cfg s (publish_sandboxes host cfg ps s)
  unfolding publish_sandboxes publish_sandbox
  publish_sandboxes-Run [] s = here
  publish_sandboxes-Run (p ∷ ps) s =
      Run-trans host cfg (Run-move host cfg (hears _ s)) (publish_sandboxes-Run ps _)

  attach_tail-Run :
      (p : ℕ) (tail : Text) (s : Server W) → Run host cfg s (attach_tail host cfg p tail s)
  unfolding attach_tail set_condition publish_platform_event
  attach_tail-Run p tail s = elim (Bool-cases (tail == [])) [
    | inl b ↦ rw b here
    | inr b ↦
        elim (Bool-cases
          (same_reason (s.heap p).cond.reason container_exited && not (s.heap p).deleting)) [
            | inl c ↦ rw (b, c) (next (next here (sets p _ s)) (hears _ _))
            | inr c ↦ rw (b, c) here
          ]
  ]

  attach_tails-Run : (ps : List ℕ) (s : Server W) → Run host cfg s (attach_tails host cfg ps s)
  unfolding attach_tails
  attach_tails-Run [] s = here
  attach_tails-Run (p ∷ ps) s =
      Run-trans host cfg (Run-move host cfg (waits _ s))
        (Run-trans host cfg (attach_tail-Run p _ _) (attach_tails-Run ps _))

  apply_listing-Run :
      (cs : List Container) (s : Server W) → Run host cfg s (apply_listing host cfg cs s)
  unfolding apply_listing
  apply_listing-Run cs s = Run-trans host cfg (Run-move host cfg (visits _ cs s)) (
      Run-trans host cfg (persist_all-Run _ _)
        (Run-trans host cfg (attach_tails-Run _ _) (publish_sandboxes-Run _ _)))

  -- A poll is a run.
  pub poll_once-Run : (s : Server W) → Run host cfg s (poll_once host cfg others s)
  unfolding poll_once
  poll_once-Run s = elim (Bool-cases (has_pollable host cfg s)) [
    | inr b ↦ rw b here
    | inl b ↦ elim (Result-cases (host.runtime.list true s.world).0) [
      | inr (x, e) ↦ rw (b, e) (Run-move host cfg (waits _ s))
      | inl (cs, e) ↦
          rw (b, e)
            (Run-trans host cfg (yielded (Run-move host cfg (waits _ s))) (apply_listing-Run cs _))
    ]
  ]

  asked-Run :
      (op : Text → W → Outcome W (Unit {0})) (name : Text) (s : Server W)
      → Run host cfg s (asked host cfg others op name s)
  asked-Run op name s = next (yields s) (waits _ _)

  observed-Run :
      (op : Text → W → Outcome W (Unit {0})) (running : Bool) (name : Text) (s t : Server W)
      → Observed host cfg others op running name s t
      → Run host cfg s t
  observed-Run op running name s t (inl (_, e)) =
      subst (λ (u : Server W). Run host cfg s u) (sym e) (asked-Run op name s)
  observed-Run op running name s t (inr (_, _, _, e)) =
      subst (λ (u : Server W). Run host cfg s u) (sym e)
        (next (yielded (asked-Run op name s)) (waits _ _))

  saved-Run :
      (p : ℕ) (stopped : Bool) (s : Server W) → Run host cfg s (saved host cfg others p stopped s)
  saved-Run p stopped s = next (yielded (next (yields s) (intends p stopped _))) (waits _ _)

  settle-Run :
      (running : Bool) (p : ℕ) (s : Server W)
      → Run host cfg s (finish host cfg others running p s).1
  settle-Run running p s =
      settle_cases host cfg others (λ r. Run host cfg s r.1) p (not running) _ _ _ s
        (λ e. Run-trans host cfg (yielded (saved-Run p (not running) s)) (report-Run running p _ _))
        (λ y e. saved-Run p (not running) s)

  body-Run :
      (running : Bool) (p : ℕ) (s : Server W) → Run host cfg s (body host cfg others running p s).1
  body-Run running p s =
      let op = operation host cfg others running in
      let vm = (s.heap p).rec.container_name in
      operate_cases host cfg others op running (finish host cfg others running)
        (λ r. Run host cfg s r.1) p s
        (λ t o. Run-trans host cfg (observed-Run op running vm s t o) (settle-Run running p t))
        (λ x. asked-Run op vm s) (λ x. next (yielded (asked-Run op vm s)) (waits _ _))

  with_release-Run :
      (running : Bool) (s : Server W) (r : Result RpcError ℕ × Server W)
      → Run host cfg s r.1
      → Run host cfg s (with_release host cfg others (body host cfg others running) r).1
  unfolding with_release
  with_release-Run running s (err x, t) h = h
  with_release-Run running s (ok p, t) h =
      next (yielded (Run-trans host cfg h (body-Run running p t))) (releases p _)

  -- A stop or start is a run.
  pub call-Run :
      (running : Bool) (id name : Text) (s : Server W)
      → Run host cfg s (call host cfg others running id name s).1
  unfolding bracket
  call-Run running id name s =
      rw (call-bracket host cfg others running id name s)
        (with_release-Run running s _ (Run-move host cfg (begins id name s)))

  launch-Run :
      (sb : DriverSandbox) (p : ℕ) (s : Server W)
      → p < s.next_address
      → Run host cfg s (launch host cfg sb p s)
  unfolding launch publish_sandbox publish_platform_event
  launch-Run sb p s h = next (next here (hears _ s)) (launches _ _ h)

  accept-Run :
      (sb : DriverSandbox) (encoded : Text) (s : Server W)
      → Run host cfg s (accept host cfg sb encoded s).1
  unfolding accept launch_registered
  accept-Run sb encoded s =
      let rec = new_record host cfg s.world sb encoded in
      register_cases host cfg
        (λ r. Run host cfg s r.1 → Run host cfg s (launch_registered host cfg sb r).1) sb rec s
        (λ x r. r) (λ x w r. r)
        (λ w r.
          Run-trans host cfg r
            (launch-Run sb s.next_address (entered host cfg rec w s) (omega arith)))
        (Run-move host cfg (registers sb rec s))

  create_valid-Run :
      (sb : DriverSandbox) (s : Server W) → Run host cfg s (create_valid host cfg sb s).1
  unfolding create_valid
  create_valid-Run sb s = elim (Bool-cases (cfg.grpc_endpoint == [])) [
    | inl b ↦ rw b here
    | inr b ↦ elim (Option-cases (host.encode_sandbox (redact sb))) [
      | inl e ↦ rw (b, e) here
      | inr (encoded, e) ↦ rw (b, e) (accept-Run sb encoded s)
    ]
  ]

  -- A create request is a run.
  pub create_sandbox-Run :
      (sb : Option DriverSandbox) (s : Server W) → Run host cfg s (create_sandbox host cfg sb s).1
  unfolding create_sandbox
  create_sandbox-Run none s = here
  create_sandbox-Run (some sb) s =
      elim (Result-cases (validate_sandbox host cfg s.world (some sb))) [
        | inr (x, e) ↦ rw (e, create_sandbox) here
        | inl (_, e) ↦ rw (e, create_sandbox) (create_valid-Run sb s)
      ]
