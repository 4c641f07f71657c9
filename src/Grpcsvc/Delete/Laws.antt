-- ===== src/Grpcsvc/Delete/Laws.antt =====
-- internal/grpcsvc/create.go `DeleteSandbox`: what a deletion does to the registry, on every outcome.
use openshell_driver_appleco.Prelude.{
  ℕ, Bool, true, false, none, some, ◌≡◌, ◌≢◌, ◌⊎◌, inl, inr, refl, arith, eqb_iff, Bool-cases,
  if◌then◌else◌,
}
use openshell_driver_appleco.Result.{ok, err, Result-cases}
use openshell_driver_appleco.Text.{Text, ◌==◌}
use openshell_driver_appleco.Assoc.{lookup, lookup-erase}
use openshell_driver_appleco.Config.{Config}
use openshell_driver_appleco.State.{valid_id}
use openshell_driver_appleco.Grpcsvc.Hub.{publish}
use openshell_driver_appleco.Grpcsvc.Lifecycle.{refusal}
use openshell_driver_appleco.Grpcsvc.Errors.{RpcError, being_deleted}
use openshell_driver_appleco.Grpcsvc.Server.{
  Server, Host, lookup_locked, pollable, publish_sandbox, publish_deleted, deleted_event,
}
use openshell_driver_appleco.Grpcsvc.Create.{container_name}
use openshell_driver_appleco.Grpcsvc.Delete.{
  deleted_vm, delete_unknown, mark_deleting, tear_down, delete_known, delete_sandbox,
}

module _ {W F : Type 0} (host : Host W F) (cfg : Config) where
  -- What the call did when it took the sandbox with that id and container down and answered `deleted`.
  pub record Removed (id name : Text) (deleted : Bool) (s t : Server W) : Type 0 where
    pub registry :
        (k : Text) → lookup k t.sandboxes ≡ (if id == k then none else lookup k s.sandboxes)
    pub heap : t.heap ≡ s.heap
    pub tasks : t.tasks ≡ s.tasks
    pub told : t.hub ≡ publish (deleted_event id) s.hub
    pub vm : deleted_vm (host.runtime.delete name s.world).0 ≡ ok deleted
    pub on_disk : (host.store.delete id (host.runtime.delete name s.world).1).0 ≡ ok tt
    pub world : t.world ≡ (host.store.delete id (host.runtime.delete name s.world).1).1

  -- Nothing but the host has moved.
  pub record Kept (s t : Server W) : Type 0 where
    pub registry : t.sandboxes ≡ s.sandboxes
    pub heap : t.heap ≡ s.heap
    pub tasks : t.tasks ≡ s.tasks
    pub hub : t.hub ≡ s.hub

  pub tear_down-Removed :
      (id name : Text) (s : Server W) (deleted : Bool)
      → (tear_down host cfg id name s).0 ≡ ok deleted
      → Removed id name deleted s (tear_down host cfg id name s).1
  unfolding tear_down publish_deleted
  tear_down-Removed id name s deleted h =
      elim (Result-cases (deleted_vm (host.runtime.delete name s.world).0)) [
        | inr (x, e) ↦ absurd (ground (arith, e))
        | inl (d, e) ↦
            elim (Result-cases (host.store.delete id (host.runtime.delete name s.world).1).0) [
              | inr (x, f) ↦ absurd (ground (arith, e, f))
              | inl (tt, f) ↦
                  rw (e, tear_down)
                    (rw (f, tear_down)
                      (record {
                        registry = λ k. lookup-erase id k s.sandboxes;
                        heap = refl;
                        tasks = refl;
                        told = refl;
                        vm = ground (arith, e, f);
                        on_disk = f;
                        world = refl;
                      }))
            ]
      ]

  pub tear_down-Kept :
      (id name : Text) (s : Server W) (x : RpcError)
      → (tear_down host cfg id name s).0 ≡ err x
      → Kept s (tear_down host cfg id name s).1
  unfolding tear_down publish_deleted
  tear_down-Kept id name s x h =
      elim (Result-cases (deleted_vm (host.runtime.delete name s.world).0)) [
        | inr (y, e) ↦
            rw (e, tear_down) (record { registry = refl; heap = refl; tasks = refl; hub = refl })
        | inl (d, e) ↦
            elim (Result-cases (host.store.delete id (host.runtime.delete name s.world).1).0) [
              | inr (y, f) ↦
                  rw (e, tear_down)
                    (rw (f, tear_down)
                      (record { registry = refl; heap = refl; tasks = refl; hub = refl }))
              | inl (tt, f) ↦ absurd (ground (arith, e, f))
            ]
      ]

  -- The entry is shut to every other call: it is marked, its task's context is canceled, the poller may
  -- not act on it and both lifecycle calls refuse it; no other entry has changed.
  pub record Shut (p : ℕ) (s t : Server W) : Type 0 where
    pub marked : (t.heap p).deleting ≡ true
    pub canceled : (t.heap p).cancel ≢ some false
    pub not_polled : pollable (t.heap p) ≡ false
    pub refused : refusal (t.heap p) ≡ some (being_deleted (s.heap p).rec.id)
    pub same_record : (t.heap p).rec ≡ (s.heap p).rec
    pub others : (q : ℕ) → (q ≡ p) ⊎ (t.heap q ≡ s.heap q)
    pub registry : t.sandboxes ≡ s.sandboxes
    pub world : t.world ≡ s.world
    pub same_done : (t.heap p).done ≡ (s.heap p).done
    pub next : t.next_address ≡ s.next_address

  -- What a deletion does under the lock, before it waits: the entry is marked and its task's context is
  -- canceled, so that the poller passes over it and stop and start refuse it; its record, every other
  -- entry, the registry and the host are as before.
  pub mark_deleting-Shut : (p : ℕ) (s : Server W) → Shut p s (mark_deleting host cfg p s)
  unfolding mark_deleting publish_sandbox pollable refusal
  mark_deleting-Shut p s = record {
    marked = ground arith;
    canceled = ground arith;
    not_polled = ground arith;
    refused = ground arith;
    same_record = ground arith;
    others = λ q. ground (arith, eqb_iff p q);
    registry = refl;
    world = refl;
    same_done = ground arith;
    next = refl;
  }

  -- A deletion of a known sandbox that answers `deleted`, whatever the other goroutines do while it
  -- waits, takes the sandbox's id out of the registry they leave and leaves every other id as they
  -- left it; the heap is theirs, the watchers are sent the deletion, the runtime deleted the container
  -- (or had no such container, when the answer is false) and the store removed the record.
  pub delete_sandbox-Removed :
      (meanwhile : Server W → Server W) (id name : Text) (p : ℕ) (s : Server W) (deleted : Bool)
      → lookup_locked id name s ≡ some p
      → (delete_sandbox host cfg meanwhile id name s).0 ≡ ok deleted
      → Removed
          (s.heap p).rec.id
          (s.heap p).rec.container_name
          deleted
          (meanwhile (mark_deleting host cfg p s))
          (delete_sandbox host cfg meanwhile id name s).1
  unfolding delete_sandbox delete_known
  delete_sandbox-Removed meanwhile id name p s deleted found h =
      rw (found, delete_sandbox)
        (tear_down-Removed (s.heap p).rec.id (s.heap p).rec.container_name
          (meanwhile (mark_deleting host cfg p s)) deleted (rw (found, delete_sandbox) at h))

  -- A deletion of a known sandbox that fails leaves the registry, the entries, the tasks and the
  -- watchers as the other goroutines left them: the sandbox stays registered, so that the call can be
  -- tried again.
  pub delete_sandbox-Kept :
      (meanwhile : Server W → Server W) (id name : Text) (p : ℕ) (s : Server W) (x : RpcError)
      → lookup_locked id name s ≡ some p
      → (delete_sandbox host cfg meanwhile id name s).0 ≡ err x
      → Kept
          (meanwhile (mark_deleting host cfg p s))
          (delete_sandbox host cfg meanwhile id name s).1
  unfolding delete_sandbox delete_known
  delete_sandbox-Kept meanwhile id name p s x found h =
      rw (found, delete_sandbox)
        (tear_down-Kept (s.heap p).rec.id (s.heap p).rec.container_name
          (meanwhile (mark_deleting host cfg p s)) x (rw (found, delete_sandbox) at h))

  delete_unknown-Kept :
      (id : Text) (s : Server W) → valid_id id ≡ true → Kept s (delete_unknown host cfg id s).1
  unfolding delete_unknown
  delete_unknown-Kept id s b =
      elim (Result-cases (deleted_vm (host.runtime.delete (container_name id) s.world).0)) [
        | inl (d, e) ↦
            rw (b, delete_unknown)
              (rw (e, delete_unknown)
                (record { registry = refl; heap = refl; tasks = refl; hub = refl }))
        | inr (x, e) ↦
            rw (b, delete_unknown)
              (rw (e, delete_unknown)
                (record { registry = refl; heap = refl; tasks = refl; hub = refl }))
      ]

  -- A deletion of a sandbox that the registry does not hold never changes the registry, an entry, a task
  -- or a watcher, and unless its id is safe as a file name it does not touch the host either.
  pub delete_sandbox-unknown_lem :
      (meanwhile : Server W → Server W) (id name : Text) (s : Server W)
      → lookup_locked id name s ≡ none
      → Kept s (delete_sandbox host cfg meanwhile id name s).1
        × ((valid_id id ≡ true) ⊎ ((delete_sandbox host cfg meanwhile id name s).1 ≡ s))
  unfolding delete_sandbox delete_unknown
  delete_sandbox-unknown_lem meanwhile id name s found =
      rw (found, delete_sandbox)
        (elim (Bool-cases (valid_id id)) [
          | inr b ↦
              rw b (record { registry = refl; heap = refl; tasks = refl; hub = refl }, inr refl)
          | inl b ↦ (delete_unknown-Kept id s b, inl b)
        ])
