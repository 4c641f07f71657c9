-- ===== src/Grpcsvc/Lifecycle/Success.antt =====
-- internal/grpcsvc/lifecycle.go: what a stop or start has done when it returns, and which are refused.
use openshell_driver_appleco.Prelude.{
  ℕ, Bool, true, false, not, none, some, ◌≡◌, ◌≢◌, ◌↔◌, ◌⊎◌, refl, arith, subst,
}
use openshell_driver_appleco.Result.{ok, err}
use openshell_driver_appleco.Text.{Text}
use openshell_driver_appleco.Config.{Config}
use openshell_driver_appleco.State.{StoreError}
use openshell_driver_appleco.Grpcsvc.Conditions.{
  Condition, Reason, literal, stopped_condition, ready_true_condition, same_reason,
  provisioning_failed, container_stopped, backend_ready,
}
use openshell_driver_appleco.Grpcsvc.Errors.{RpcError, ProvisionError, lifecycle_unsaved}
use openshell_driver_appleco.Grpcsvc.Server.{
  Server, Host, Entry, lookup_locked, provision_done, set_condition, publish_sandbox,
  publish_platform_event, normal,
}
use openshell_driver_appleco.Grpcsvc.Lifecycle.{refusal, release, report, set_intent}
use openshell_driver_appleco.Grpcsvc.Lifecycle.Laws.{
  Observed, asked, looked, intended, saved, save_answer, marked, call, operation, condition,
  event_reason, event_message, call_cases,
}

abbrev pub reason_of : Bool → Reason
reason_of true = backend_ready
reason_of false = container_stopped

module _ {W F : Type 0} (host : Host W F) (cfg : Config) (others : Server W → Server W) where
  -- The steps of a call behind the save, each on the server that the others leave.
  abbrev pub reported : Bool → ℕ → Condition ProvisionError → Server W → Server W
  reported running p c s =
      let told = others (publish_sandbox cfg p (others (set_condition p c s))) in
      release host cfg p (
        others (
          publish_platform_event cfg host.now (told.heap p).rec.id normal
            (event_reason host cfg others running) (literal (event_message host cfg others running))
            told))

  -- A successful call on the entry at `p`, from `s` to `t`: `seen` is the server behind the sight of the
  -- VM.
  pub record Done (running : Bool) (p : ℕ) (s t : Server W) : Type 0 where
    pub seen : Server W
    pub observed :
        Observed host cfg others
          (operation host cfg others running)
          running
          (s.heap p).rec.container_name
          (marked host cfg others p s)
          seen
    pub intent : ((intended host cfg others p (not running) seen).heap p).rec.stopped ≡ not running
    pub on_disk : save_answer host cfg others p (not running) seen ≡ ok tt
    pub shown : Condition ProvisionError
    pub reason_is : shown.reason ≡ reason_of running
    pub status_is : shown.status ≡ running
    pub ended : t ≡ reported running p shown (others (saved host cfg others p (not running) seen))

  condition-reason :
      (running : Bool) (now : ℕ)
      → (condition host cfg others running now).reason ≡ reason_of running
  unfolding ready_true_condition stopped_condition
  condition-reason true now = refl
  condition-reason false now = refl

  condition-status :
      (running : Bool) (now : ℕ) → (condition host cfg others running now).status ≡ running
  unfolding ready_true_condition stopped_condition
  condition-status true now = refl
  condition-status false now = refl

  marked-name :
      (p : ℕ) (s : Server W)
      → ((marked host cfg others p s).heap p).rec.container_name ≡ (s.heap p).rec.container_name
  marked-name p s = ground arith

  -- A stop or start that succeeds, whatever the other goroutines do while the lock is free, was asked of
  -- a sandbox that the server knows and that `refusal` lets through. In this run the runtime has then
  -- done the operation, or the look after its error has found the VM in the wanted state; behind that the
  -- intent was put on the entry, the record with it was saved, and then the condition ContainerStopped or
  -- BackendReady was set and sent to the watchers with an event, before the entry was released.
  pub call_ok :
      (running : Bool) (id name : Text) (s : Server W)
      → (call host cfg others running id name s).0 ≡ ok tt
      → (p : ℕ) × (lookup_locked id name s ≡ some p)
        × (refusal (s.heap p) ≡ none)
        × Done running p s (call host cfg others running id name s).1
  unfolding report set_intent
  call_ok running id name s =
      call_cases host cfg others
        (λ r.
          r.0 ≡ ok tt
          → (p : ℕ) × (lookup_locked id name s ≡ some p)
            × (refusal (s.heap p) ≡ none)
            × Done running p s r.1)
        running id name s (λ x h. cc) (λ p x h. cc) (λ p x h. cc) (λ p t y o f h. cc)
        (λ p t found free o saves h. (
          p,
          found,
          free,
          record {
            seen = t;
            observed =
                subst
                  (λ (vm : Text).
                    Observed host cfg others (operation host cfg others running) running vm
                      (marked host cfg others p s) t)
                  (marked-name p s) o;
            intent = ground arith;
            on_disk = saves;
            shown = _;
            reason_is = condition-reason running _;
            status_is = condition-status running _;
            ended = refl;
          },
        ))

  -- What a failed call behind `beginLifecycle` of the entry at `p` leaves for its release: the server
  -- behind the runtime's error or behind the look, or the one behind a failed save of the intent.
  abbrev pub Failed : Bool → ℕ → Server W → RpcError → Server W → Type 0
  Failed running p s x t =
      let op = operation host cfg others running in
      let vm = ((marked host cfg others p s).heap p).rec.container_name in
      (t ≡ asked host cfg others op vm (marked host cfg others p s))
      ⊎ (t ≡ looked host cfg others op vm (marked host cfg others p s))
      ⊎ ((seen : Server W) × (y : StoreError) × (x ≡ lifecycle_unsaved y)
          × Observed host cfg others op running vm (marked host cfg others p s) seen
          × (save_answer host cfg others p (not running) seen ≡ err y)
          × (t ≡ saved host cfg others p (not running) seen))

-- Which sandboxes a stop or start is refused for.
abbrev pub Ready : Entry → Type 0
Ready e =
    (e.deleting ≡ false)
    × (provision_done e ≡ true)
    × (e.busy ≡ false)
    × (e.cond.reason ≢ provisioning_failed)

same_reason_failed :
    (r : Reason) → (same_reason r provisioning_failed ≡ true) ↔ (r ≡ provisioning_failed)
unfolding same_reason
same_reason_failed r = ground arith

-- The guard lets an entry through exactly when it is not being deleted, its provisioning is over, no
-- other stop or start holds it, and it did not fail to provision.
pub refusal_iff : (e : Entry) → (refusal e ≡ none) ↔ Ready e
unfolding refusal
refusal_iff e = ground (arith, same_reason_failed e.cond.reason)
