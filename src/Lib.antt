-- ===== src/Lib.antt =====
-- devstack starts the services of a project's stacks, watches them and tells its clients about them. The
-- model follows its sources under src/: a configuration file (src/config) is validated and a stack of it
-- is sorted into a plan; ports are reserved in a registry that all daemons share (src/port.rs); a launched
-- stack is a run in the run store (src/stores/runs.rs), whose services' states the daemon's tasks change
-- (src/app), and whose processes are units of a manager (src/systemd.rs); each change is an event for
-- the subscribers (src/api.rs); agents and detached tasks have stores of their own (src/stores).
--
-- Common          what the modules share: Boolean tests and keys, counted lists, ordered maps, integers,
--                 the order of texts, and the results of fallible functions.
-- Config          src/config. Model has the types of model.rs, Service the methods of `ServiceConfig`,
--                 Names the test of src/paths.rs for a name in a path, Plan the sort of plan.rs,
--                 Selection `stack_plan` and `filter_to`, and Validate the checks of validate.rs.
-- Ports           src/port.rs, every operation on the registry.
-- Model           src/model and the events of src/api.rs and src/app/runtime.rs.
-- Stores          src/stores: Runs, AgentSessions, Tasks, Globals and Navigation.
-- App             src/app. Lifecycle has what the tasks of src/app/launch/readiness.rs,
--                 src/app/commands/restart.rs and src/app/commands/runs.rs do to a run under the lock of
--                 the run store; Lifecycle.View is what a subscriber knows, and Lifecycle.Steps the
--                 sequences of the tasks' turns. Launch has the start of a prepared service
--                 (src/app/launch/prepare.rs and start.rs), Refresh how `refresh_run` and the launch of
--                 src/app/commands/runs.rs bring a run to a plan, Gc the collection of old runs of
--                 src/app/commands/gc.rs. Status has the states that `build_status` of
--                 src/app/queries/status.rs reports, Status.Local what it reports of local units,
--                 Reconcile what `reconcile_run` of src/app/commands/reconcile.rs writes of it into the
--                 run, and Tasks the queries of src/app/queries/tasks.rs.
-- Units           `LocalSystemd` of src/systemd.rs: the units in memory and in the registry's file, the
--                 operations on them (Manager, Stop, Command), the reaper and the status of a unit.
-- Logs            src/logfmt.rs: the level, content and timestamp of a log line.
-- Tasks           src/services/tasks/history.rs and model.rs: the history of task executions and the
--                 summary of an error.
-- Examples        runs on small inputs, and the theorems at these.
--
-- Functions have the names of the source. A `BTreeMap` is the list of its entries in the order of their
-- keys; a map is read as one with a single entry for a key, which the operations keep and which theorems
-- ask for where they need it. A store behind a mutex is a value, and an operation a function of the store.
-- An error is the constructor that stands for its message, without the names in the text. A `panic!` or
-- `unwrap` that fails is `panic`. Ports, status codes, pids and exit codes are natural numbers or integers
-- as the source has read them; counters that saturate or times that are cut to 64 bits are written so.
--
-- Loops: `while let` loops recur on fuel. The sort gets one unit for each service, since it places a service
-- once; the selection of services gets one for each target and each dependency of the stack, since it
-- queues no other names. Both are proved to end with it. The loop that looks for a free port recurs on the
-- ports that the operating system offers.
--
-- Parameters stand for what the code relies on outside: `kill(pid, 0)`, whether a port can be bound and
-- which ports binding to port 0 gives, the time, the canonical form of a path, the handles of new
-- background tasks, what a child process does, serde_json, humantime and the regular expressions. The
-- locked sections of a manager's operation, and the turns of a launch, are steps between which other tasks
-- may run; a launch takes what they do as a parameter. The events of a locked section are listed in the
-- order of the sections; the daemon sends them after it has let go of the lock, and their order on the way
-- to a subscriber is not modelled. The counter of a service's dependencies (an i32 in the source) has no
-- bound here.
--
-- Not modelled: reading and writing files, locks, sockets and HTTP (src/daemon, src/cli), the systemd
-- manager on D-Bus (src/systemd.rs), the shim and the agents' terminals (src/shim.rs, src/agent), the log
-- index (src/infra/logs), the capture proxy (src/services/api_capture.rs), the deserialization of the
-- configuration, and of src/app what is not named above, among it the templates and the environment of a
-- launch.
pub mod App
pub mod Common
pub mod Config
pub mod Examples
pub mod Logs
pub mod Ports
pub mod Stores
pub mod Tasks
pub mod Units
pub mod Model
