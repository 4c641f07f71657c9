-- ===== src/Lib.antt =====
-- The compute driver that runs OpenShell sandboxes as VMs of apple/container.
--
-- A gateway calls the driver over gRPC to create, stop, start, delete, get, list and watch sandboxes.
-- The service (internal/grpcsvc) keeps a registry of sandboxes, persists a record of each
-- (internal/state), has the container runtime (internal/backend) boot, stop and delete their VMs, and
-- tells the watchers (the hub) what changes.
--
--   Prelude, Int, Result, Text, Assoc, Files
--     library names, Boolean tests, integers, results, texts with the string and path functions of
--     the Go library that the code calls (Text.Path is filepath.Clean, Text.Search and Text.Cut search,
--     Text.Decimal writes numbers), association lists for maps, and files by their paths
--   Compat                 internal/compat/compat.go, with Ranges on what the checks report
--   Config                 internal/config/config.go, `Config`, with Values on what settings are read
--                          from, Parse on flags, environment and defaults, Usable on what is accepted and
--                          Precedence on where each setting comes from
--   Backend                internal/backend/backend.go, the data and the `Runtime` interface
--   Backend.Cli            internal/backend/cli.go: Args on the arguments of a run, with Reader and
--                          Reading on how they are read back, Decode on the outputs, Commands on the
--                          instance of `Runtime`, Lookup on the search for one container
--   Backend.Fake           internal/backend/fake.go, the in-memory runtime, with Contract on what its
--                          operations do
--   State                  internal/state/state.go, the ids, `Record`, the store's interface
--   State.Disk             internal/state/state.go, the store on a directory: Laws on its
--                          operations, Scan on the listing
--   Seed                   internal/seed/seed.go: Extract is `Extractor.Ensure`, in the monad of Step; Cache,
--                          Partial and Ensure on what the cache holds, Paths on the names of its files;
--                          Layout is `Write`, with Slots, Written, Complete and Total on what it leaves
--   Grpcsvc.DriverConfig   internal/grpcsvc/driverconfig.go: Targets on mount targets, Mounts on
--                          whole configs, Policy on the operator's limits
--   Grpcsvc.Quantity       internal/grpcsvc/quantity.go
--   Grpcsvc.Hub            internal/grpcsvc/hub.go, with Delivery on what each stream receives
--   Grpcsvc.Conditions     internal/grpcsvc/conditions.go
--   Grpcsvc.Proto          the messages of a create request
--   Grpcsvc.Errors         the errors of the calls and their status codes
--   Grpcsvc.Server         internal/grpcsvc/service.go: the state and the read-only calls
--   Grpcsvc.Lifecycle      internal/grpcsvc/lifecycle.go, `StopSandbox` and `StartSandbox`: Laws on
--                          each way through them, Success on what they have done when they return
--   Grpcsvc.Create         internal/grpcsvc/create.go, `CreateSandbox` and its checks
--   Grpcsvc.Delete         internal/grpcsvc/create.go, `DeleteSandbox`
--   Grpcsvc.Reconcile      internal/grpcsvc/reconcile.go, `pollOnce`: Poll on one entry and on the
--                          loop, Excerpt on the console output
--   Grpcsvc.Bootstrap      internal/grpcsvc/reconcile.go, `Bootstrap`: Adoption on the entries and the
--                          registry, Restore on the whole call
--   Grpcsvc.Env            internal/grpcsvc/env.go, with Names and Owned on the driver's own variables
--   Grpcsvc.Provision      internal/grpcsvc/create.go, the provisioning task: Action on the steps that
--                          it takes while others run, Spec on what it boots, with Confined, Pipeline on
--                          the boot, Finish on the end of the goroutine, Outcome and Settled on the
--                          whole task, Guest on the environment that the VM is given
--   Grpcsvc.System         the server as a system: what happens in one hold of its lock is a step of a
--                          relation, Growth and Invariant on what every step keeps, Tasks and Handlers
--                          on the tasks, the calls and the poller as sequences of steps
--   Grpcsvc.Preflight      internal/grpcsvc/preflight.go, with Endpoint on the endpoint
--   Grpcsvc.Fixtures       test data, used by the Tests modules
--   Hostsetup.Block        internal/hostsetup/hostsetup.go, the managed block of the environment file:
--                          Clean and Rewrite on its removal and its writing, Quote on its values
--   Hostsetup.Status       internal/hostsetup/status.go, the report on what is wired together: Report on
--                          the whole, with Findings, Blocks and Health, Exit on the command that prints it
--                          (cmd/openshell-driver-applecontainer/status.go), and Wiring on what setup
--                          writes
--   Command.Socket         cmd/openshell-driver-applecontainer/main.go, instances that bind one socket
--                          path, with Handover and Race on what they do to each other
--   Command.Update         cmd/openshell-driver-applecontainer/update.go, the replacement of the binary
--                          over a file system: Io on the calls, Run on the update; Listing, Stages,
--                          Replace and Unpack on its parts and Verified on the whole
--
-- An operation takes the server and returns a result and the server behind it. The host (runtime,
-- store, clock, file system) is a state of any type with a record of operations, so what is shown
-- holds whatever they answer. The entries of the registry are shared by pointer in the source;
-- here they lie in a heap, and the registry maps ids to addresses. Where the lock is
-- free, what the other goroutines do in that time is an argument: StopSandbox and StartSandbox take it
-- around the runtime's calls, the save and each event, the provisioning task between two calls of the
-- host, DeleteSandbox at its wait for the task only, and the poller at the listing only. In the relation
-- of Grpcsvc.System no call is a step: a step is one hold of the lock, a change of the host, or a change
-- of the watch streams, so that two calls interleave at each of these. Times are numbers, errors and
-- messages are values with one constructor for each format string, logging is left out.
--
-- Two definitions count down a bound. The digits of a number are written with the number itself and
-- one more as the bound, and each digit divides it by ten. The loop that strips the managed blocks has
-- the length of the text and one more, and each round leaves a shorter text.
--
-- Not modelled: the steps of the host's setup, the Homebrew branch and
-- the prerequisites of an update, the watch stream, and the signals of the process: they run commands,
-- wait or fill messages, and decide little. Processes, the
-- network, JSON, URLs and IP addresses, archives and SHA-256 are parameters. Generated code is replaced
-- by the records of the messages.
pub mod Prelude
pub mod Int
pub mod Result
pub mod Text
pub mod Assoc
pub mod Compat
pub mod Config
pub mod Command
pub mod Hostsetup
pub mod Backend
pub mod State
pub mod Seed
pub mod Files
pub mod Grpcsvc
