-- ===== src/Grpcsvc/Tests.antt =====
-- The theorems on internal/grpcsvc at concrete servers.
use openshell_driver_appleco.Prelude.{
  length, ◌++◌, ◌≤◌, arith, ◌≢◌, Option, List, ◌&&◌, ℕ, true, false, [], ◌∷◌, none, some, ◌≡◌, ◌⊎◌,
  refl, take,
}
use openshell_driver_appleco.Result.{Result, ok, err}
use openshell_driver_appleco.Text.{Text, text, has_prefix, trim_space, ◌==◌, contains_any}
use openshell_driver_appleco.Backend.{Container, failed, is_not_found}
use openshell_driver_appleco.State.{valid_id}
use openshell_driver_appleco.Grpcsvc.Fixtures.{
  container_of, World, host, cfg, runtime, server, sandbox, known_entry,
}
use openshell_driver_appleco.Grpcsvc.Conditions.{ready_true_condition, same_reason}
use openshell_driver_appleco.Grpcsvc.Hub.{
  Hub, new_hub, subscribe, publish, channel_of, watch_buffer,
}
use openshell_driver_appleco.Grpcsvc.Hub.Delivery.{
  IsWellFormed, subscribes, publishes, Step-IsWellFormed, publish_all, publish_all-channel,
}
use openshell_driver_appleco.Grpcsvc.Errors.{sandbox_exists, delete_container_failed}
use openshell_driver_appleco.Grpcsvc.Server.{pollable, Server, Host, lookup_locked, publish_sandbox}
use openshell_driver_appleco.Grpcsvc.Lifecycle.{
  refusal, stop_sandbox, begin_lifecycle, bracket, with_release, operate, set_stopped, settle,
}
use openshell_driver_appleco.Grpcsvc.Lifecycle.Laws.{call}
use openshell_driver_appleco.Grpcsvc.Lifecycle.Success.{Done, call_ok}
use openshell_driver_appleco.Grpcsvc.Create.{
  create_sandbox, accept, create_valid, new_record, register, validate_sandbox,
}
use openshell_driver_appleco.Grpcsvc.Create.Accept.{Accepted, create_sandbox-Accepted}
use openshell_driver_appleco.Grpcsvc.Create.Refusal.{Untouched, create_sandbox-Untouched}
use openshell_driver_appleco.Grpcsvc.Delete.{
  delete_sandbox, mark_deleting, delete_known, deleted_vm, tear_down,
}
use openshell_driver_appleco.Grpcsvc.Delete.Laws.{
  Removed, Kept, delete_sandbox-Removed, delete_sandbox-Kept,
}
use openshell_driver_appleco.Grpcsvc.DriverConfig.{check_driver_config_policy, parse_driver_config}
use openshell_driver_appleco.Grpcsvc.Quantity.{parse_cpu_quantity, parse_memory_quantity_mb}
use openshell_driver_appleco.Assoc.{lookup, insert}
use openshell_driver_appleco.Grpcsvc.Reconcile.{find_container, visit}
use openshell_driver_appleco.Grpcsvc.Reconcile.Poll.{Reported, holds, visit-Reported}
use openshell_driver_appleco.State.{Record}
use openshell_driver_appleco.Grpcsvc.Bootstrap.{bootstrap}
use openshell_driver_appleco.Grpcsvc.Bootstrap.Restore.{Restored, bootstrap-Restored}
use openshell_driver_appleco.Assoc.{lookup}
use openshell_driver_appleco.Backend.{Labels}
use openshell_driver_appleco.Grpcsvc.Proto.{DriverSandbox}
use openshell_driver_appleco.Grpcsvc.Env.{
  is_owned, sandbox_env, EnvError, MainProcess, kept_user, overlay, user_env,
}
use openshell_driver_appleco.Grpcsvc.Env.Owned.{bare, sandbox_env-bare_lem}
use openshell_driver_appleco.Grpcsvc.Reconcile.{excerpt}
use openshell_driver_appleco.Grpcsvc.Reconcile.Excerpt.{excerpt-end_lem}

-- A host whose runtime fails every deletion.
abbrev broken : Host World ℕ
broken = record host {
  runtime = record runtime { delete = λ name w. (err (failed (text "busy")), w) };
}

-- Nothing happens while a deletion waits.
abbrev still : Server World → Server World
still s = s

created : (create_sandbox host cfg (some sandbox) server).0 ≡ ok tt
unfolding create_sandbox validate_sandbox valid_id ◌==◌ parse_driver_config
    check_driver_config_policy has_prefix parse_cpu_quantity trim_space parse_memory_quantity_mb
    create_valid accept register lookup new_record
created = refl

create_sandbox-Accepted_example :
    Accepted host cfg sandbox server (create_sandbox host cfg (some sandbox) server).1
create_sandbox-Accepted_example = create_sandbox-Accepted host cfg sandbox server created

refused_twice :
    (create_sandbox host cfg (some (record sandbox { id = text "a" })) server).0
    ≡ err (sandbox_exists (text "a"))
unfolding create_sandbox validate_sandbox valid_id ◌==◌ parse_driver_config
    check_driver_config_policy has_prefix parse_cpu_quantity trim_space parse_memory_quantity_mb
    create_valid accept register lookup new_record
refused_twice = refl

create_sandbox-Untouched_example :
    Untouched host cfg server
      (create_sandbox host cfg (some (record sandbox { id = text "a" })) server).1
create_sandbox-Untouched_example =
    create_sandbox-Untouched host cfg (some (record sandbox { id = text "a" })) server
      (sandbox_exists (text "a")) refused_twice

known : lookup_locked (text "a") [] server ≡ some 0
unfolding lookup_locked lookup ◌==◌
known = refl

deleted : (delete_sandbox host cfg still (text "a") [] server).0 ≡ ok true
unfolding delete_sandbox lookup_locked lookup ◌==◌ delete_known tear_down deleted_vm mark_deleting
    publish_sandbox
deleted = refl

delete_sandbox-Removed_example :
    Removed host cfg
      (text "a")
      (text "oshl-a")
      true
      (mark_deleting host cfg 0 server)
      (delete_sandbox host cfg still (text "a") [] server).1
delete_sandbox-Removed_example =
    delete_sandbox-Removed host cfg still (text "a") [] 0 server true known deleted

undeleted :
    (delete_sandbox broken cfg still (text "a") [] server).0
    ≡ err (delete_container_failed (failed (text "busy")))
unfolding delete_sandbox lookup_locked lookup ◌==◌ delete_known tear_down deleted_vm is_not_found
undeleted = refl

delete_sandbox-Kept_example :
    Kept broken cfg
      (mark_deleting broken cfg 0 server)
      (delete_sandbox broken cfg still (text "a") [] server).1
delete_sandbox-Kept_example =
    delete_sandbox-Kept broken cfg still (text "a") [] 0 server
      (delete_container_failed (failed (text "busy"))) known undeleted

unknown : lookup_locked (text "../x") [] server ≡ none
unfolding lookup_locked lookup ◌==◌
unknown = refl

-- The VM that the runtime shall stop is stopped, while somebody else begins to delete the sandbox.
abbrev meddle : Server World → Server World
meddle s = mark_deleting host cfg 0 s

stopped : (call host cfg meddle false (text "a") [] server).0 ≡ ok tt
unfolding stop_sandbox bracket with_release begin_lifecycle lookup_locked lookup ◌==◌ refusal
    same_reason ready_true_condition operate settle set_stopped mark_deleting publish_sandbox
stopped = refl

call_ok_example :
    (p : ℕ) × (lookup_locked (text "a") [] server ≡ some p)
    × (refusal (server.heap p) ≡ none)
    × Done host cfg meddle false p server (call host cfg meddle false (text "a") [] server).1
call_ok_example = call_ok host cfg meddle false (text "a") [] server stopped

-- Two streams, the older of which has the id 0.
abbrev watched : Hub ℕ
watched = (subscribe (subscribe new_hub).1).1

watched-IsWellFormed : IsWellFormed watched
watched-IsWellFormed =
    Step-IsWellFormed (subscribes (subscribe new_hub).1)
      (Step-IsWellFormed (subscribes new_hub) (record { below = tt }))

Step-IsWellFormed_example : IsWellFormed (publish 9 watched)
Step-IsWellFormed_example = Step-IsWellFormed (publishes watched 9) watched-IsWellFormed

empty_channel : channel_of 0 watched.subs ≡ some (take watch_buffer [])
unfolding channel_of subscribe
empty_channel = refl

publish_all-channel_example :
    channel_of 0 (publish_all (1 ∷ 2 ∷ []) watched).subs ≡ some (take watch_buffer (1 ∷ 2 ∷ []))
publish_all-channel_example =
    publish_all-channel (1 ∷ 2 ∷ []) watched 0 [] watched-IsWellFormed empty_channel

-- The runtime lists the sandbox's VM as stopped.
abbrev listing : List Container
listing = container_of (text "oshl-a") false ∷ []

visit-Reported_example :
    ((holds server.sandboxes 0 && pollable known_entry ≡ false)
      × ((visit 9 (find_container listing) server.sandboxes server.heap).0 0 ≡ known_entry))
    ⊎ ((holds server.sandboxes 0 && pollable known_entry ≡ true)
        × Reported
            (find_container listing (text "oshl-a"))
            known_entry
            ((visit 9 (find_container listing) server.sandboxes server.heap).0 0))
visit-Reported_example = visit-Reported 9 (find_container listing) server.sandboxes server.heap 0

-- A driver that starts with the record of "a" on disk.
abbrev fresh_server : Server World
fresh_server = record server { sandboxes = [] }

started : (bootstrap host cfg fresh_server).0 ≡ ok tt
unfolding bootstrap
started = refl

bootstrap-Restored_example :
    (recs : List Record) × (skipped : List Text) × (cs : List Container) × ((host.store.list
        fresh_server.world).0
      ≡ ok (recs, skipped))
    × ((host.runtime.list true (host.store.list fresh_server.world).1).0 ≡ ok cs)
    × Restored host cfg recs cs
        (record fresh_server {
          world = (host.runtime.list true (host.store.list fresh_server.world).1).1;
        })
        (bootstrap host cfg fresh_server).1
bootstrap-Restored_example = bootstrap-Restored host cfg fresh_server started

abbrev encode_user : Labels → Option Text
encode_user env = some (text "user")

abbrev encode_main : MainProcess → Option Text
encode_main main = some (text "main")

-- A request that tries to set the search path.
abbrev crafted : DriverSandbox
crafted = record sandbox {
  spec = some (record {
    log_level = [];
    environment = (text "PATH", text "/evil") ∷ (text "X", text "1") ∷ [];
    template = none;
    gpu = false;
    sandbox_token = text "secret";
    command = [];
    tty = false;
  });
}

abbrev env_of : Result EnvError Labels → Labels
env_of (ok env) = env
env_of (err _) = []

abbrev crafted_env : Labels
crafted_env = env_of (sandbox_env encode_user encode_main cfg crafted true)

crafted_built : sandbox_env encode_user encode_main cfg crafted true ≡ ok crafted_env
unfolding sandbox_env kept_user user_env overlay insert ◌==◌ trim_space contains_any is_owned
crafted_built = refl

path_owned : is_owned (text "PATH") ≡ true
unfolding is_owned ◌==◌
path_owned = refl

path_plain : text "PATH" ≢ text "OPENSHELL_USER_ENVIRONMENT"
path_plain e = ground arith

sandbox_env-bare_lem_example :
    (plain : Labels) × (sandbox_env encode_user encode_main cfg (bare crafted) true ≡ ok plain)
    × (lookup (text "PATH") crafted_env ≡ lookup (text "PATH") plain)
sandbox_env-bare_lem_example =
    sandbox_env-bare_lem encode_user encode_main cfg crafted true crafted_env (text "PATH")
      path_owned path_plain crafted_built

excerpt-end_lem_example :
    (((excerpt 3 (text " panic\n") ≡ trim_space (text " panic\n"))
        × (length (trim_space (text " panic\n")) ≤ 3))
      ⊎ ((start rest : Text) × (trim_space (text " panic\n") ≡ start ++ rest)
          × (length rest ≡ 3)
          × (excerpt 3 (text " panic\n") ≡ text "…" ++ rest)))
    × (length (excerpt 3 (text " panic\n")) ≤ 4)
excerpt-end_lem_example = excerpt-end_lem 3 (text " panic\n")
