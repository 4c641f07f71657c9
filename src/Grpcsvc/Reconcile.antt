-- ===== src/Grpcsvc/Reconcile.antt =====
-- internal/grpcsvc/reconcile.go, `pollOnce`: comparing the registry with what the runtime lists. The
-- lock is free while the runtime lists its containers: `meanwhile` is what the other goroutines do to
-- the server in that time, and may be anything. The rest of a poll is one step here.
pub mod Poll
pub mod Excerpt
use openshell_driver_appleco.Prelude.{
  ℕ, Bool, true, false, not, ◌&&◌, ◌||◌, List, [], ◌∷◌, ◌++◌, Option, none, some, any, drop, length,
  ltb, ◌-◌, if◌then◌else◌,
}
use openshell_driver_appleco.Result.{Result, ok, err}
use openshell_driver_appleco.Text.{Text, text, ◌==◌, trim_space}
use openshell_driver_appleco.Assoc.{lookup, insert}
use openshell_driver_appleco.Config.{Config}
use openshell_driver_appleco.Backend.{Container, RuntimeError}
use openshell_driver_appleco.Grpcsvc.Conditions.{
  Condition, literal, with_tail, same_reason, same_status, ready_true_condition, stopped_condition,
  exited_condition, failed_condition, provisioning_failed, container_exited,
}
use openshell_driver_appleco.Grpcsvc.Errors.{ProvisionError}
use openshell_driver_appleco.Grpcsvc.Lifecycle.{state_running}
use openshell_driver_appleco.Grpcsvc.Server.{
  Server, Host, Entry, put, write, pollable, publish_sandbox, publish_platform_event, warning,
}

-- The map by name: a later container takes the place of an earlier one.
unfoldable pub index : List (Text × Container) → List Container → List (Text × Container)
index m [] = m
index m (c ∷ cs) = index (insert c.id c m) cs

unfoldable pub find_container : List Container → Text → Option Container
unfolding index
find_container cs name = lookup name (index [] cs)

-- Someone started the VM behind the gateway's back.
unfoldable pub is_resumed : Option Container → Entry → Bool
is_resumed none e = false
is_resumed (some c) e = c.state == state_running && e.rec.stopped

unfoldable pub clear_stopped : Bool → Entry → Entry
clear_stopped false e = e
clear_stopped true e = record e { rec = record e.rec { stopped = false } }

-- `next`, or none where the loop goes on to the next entry.
unfoldable pub next_condition : ℕ → Option Container → Entry → Option (Condition ProvisionError)
next_condition now none e =
    if same_reason e.cond.reason provisioning_failed
    then none
    else some (failed_condition (literal (text "sandbox VM disappeared from the runtime")) now)
next_condition now (some c) e =
    if c.state == state_running
    then some (ready_true_condition now)
    else if e.rec.stopped
    then some (stopped_condition now)
    else some (exited_condition now)

unfoldable pub differs : Condition ProvisionError → Condition ProvisionError → Bool
differs a b = not (same_status a.status b.status) || not (same_reason a.reason b.reason)

-- What the loop leaves of an entry, and which of its lists it joins.
pub record Look : Type 0 where
  pub entry : Entry
  pub changed : Bool
  pub exited : Bool
  pub persist : Bool

unfoldable pub unseen : Entry → Look
unseen e = record { entry = e; changed = false; exited = false; persist = false }

unfoldable pub take_over : Bool → Entry → Option (Condition ProvisionError) → Look
take_over resumed e none = record { entry = e; changed = false; exited = false; persist = resumed }
take_over resumed e (some next) =
    if differs next e.cond
    then (record {
      entry = record e { cond = next };
      changed = true;
      exited = same_reason next.reason container_exited;
      persist = resumed;
    })
    else (record { entry = e; changed = false; exited = false; persist = resumed })

-- The loop's body.
unfoldable pub look : ℕ → Option Container → Entry → Look
look now found e =
    if pollable e
    then take_over (is_resumed found e) (clear_stopped (is_resumed found e) e)
        (next_condition now found e)
    else unseen e

pub record Lists : Type 0 where
  pub changed : List ℕ
  pub exited : List ℕ
  pub persist : List ℕ

abbrev pub no_lists : Lists
no_lists = record { changed = []; exited = []; persist = [] }

unfoldable pub keep_if : Bool → ℕ → List ℕ → List ℕ
keep_if false p ps = ps
keep_if true p ps = p ∷ ps

unfoldable pub join_lists : ℕ → Look → Lists → Lists
join_lists p l ls = record {
  changed = keep_if l.changed p ls.changed;
  exited = keep_if l.exited p ls.exited;
  persist = keep_if l.persist p ls.persist;
}

-- The loop under the lock.
unfoldable pub visit :
    ℕ → (Text → Option Container) → List (Text × ℕ) → (ℕ → Entry) → (ℕ → Entry) × Lists
visit now find [] h = (h, no_lists)
visit now find ((_, p) ∷ m) h =
    let l = look now (find (h p).rec.container_name) (h p) in
    let (h', ls) = visit now find m (put h p l.entry) in (h', join_lists p l ls)

abbrev pub tail_lines : ℕ
tail_lines = 20

abbrev pub tail_max_runes : ℕ
tail_max_runes = 700

-- At most so many code points, the last ones, behind an ellipsis.
unfoldable pub excerpt : ℕ → Text → Text
excerpt limit out =
    let s = trim_space out in
    if ltb limit (length s) then text "…" ++ drop (length s - limit) s else s

unfoldable pub tail_of : Result RuntimeError Text → Text
unfolding excerpt
tail_of (err _) = []
tail_of (ok out) = excerpt tail_max_runes out

module _ {W F : Type 0} (host : Host W F) (cfg : Config) where
  open host use {runtime, store, now}

  unfoldable pub console_tail : Text → W → Text × W
  unfolding tail_of
  console_tail name w = let (r, w') = runtime.logs name tail_lines w in (tail_of r, w')

  unfoldable pub persist_all : List ℕ → Server W → Server W
  persist_all [] s = s
  persist_all (p ∷ ps) s =
      persist_all ps (record s { world = (store.save (s.heap p).rec s.world).1 })

  -- The excerpt goes on the entry and to the watchers only while the entry is still exited.
  unfoldable pub attach_tail : ℕ → Text → Server W → Server W
  attach_tail p tail s =
      let e = s.heap p in
      let cond = e.cond in
      let told =
        write p (record e { cond = record cond { message = with_tail cond.message tail } }) s in
      if tail == []
      then s
      else if same_reason cond.reason container_exited && not e.deleting
      then publish_platform_event cfg now e.rec.id warning (text "ContainerExited")
          (with_tail (literal (text "Sandbox VM exited")) tail) told
      else s

  unfoldable pub attach_tails : List ℕ → Server W → Server W
  unfolding attach_tail
  attach_tails [] s = s
  attach_tails (p ∷ ps) s =
      let (tail, w) = console_tail (s.heap p).rec.container_name s.world in
      attach_tails ps (attach_tail p tail (record s { world = w }))

  unfoldable pub publish_sandboxes : List ℕ → Server W → Server W
  publish_sandboxes [] s = s
  publish_sandboxes (p ∷ ps) s = publish_sandboxes ps (publish_sandbox cfg p s)

  unfoldable pub apply_listing : List Container → Server W → Server W
  apply_listing cs s =
      let (h, ls) = visit (now s.world) (find_container cs) s.sandboxes s.heap in
      publish_sandboxes ls.changed
        (attach_tails ls.exited (persist_all ls.persist (record s { heap = h })))

  unfoldable pub has_pollable : Server W → Bool
  has_pollable s = any (λ (x : Text × ℕ). pollable (s.heap x.1)) s.sandboxes

  unfoldable pub poll_once : (Server W → Server W) → Server W → Server W
  unfolding has_pollable
  poll_once meanwhile s =
      let (r, w) = runtime.list true s.world in
      if has_pollable s
      then (elim r [
        | err _ ↦ record s { world = w }
        | ok cs ↦ apply_listing cs (meanwhile (record s { world = w }))
      ])
      else s
