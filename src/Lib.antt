-- ===== src/Lib.antt =====
-- System76 Scheduler: a daemon that gives the processes of a Linux desktop their CPU and I/O priorities.
--
-- The parts of the program, and how they interact. The daemon (daemon/src/main.rs, `daemon`) reads the
-- configuration (config/src/parser), and then handles events one by one: a new process that execsnoop
-- reports (execsnoop/src/lib.rs), the periodic refresh, a new foreground process or CPU profile over
-- D-Bus (daemon/src/dbus.rs), a process that begins or ends to use pipewire (daemon/src/pw.rs,
-- pipewire/src/lib.rs), a change of the battery. The service (daemon/src/service.rs) keeps a map of all
-- processes (daemon/src/process.rs), decides each one's profile from the configuration's assignments
-- (config/src/scheduler), and sets it with system calls (daemon/src/priority.rs). CPU profiles are
-- written to files of the kernel (daemon/src/cfs).
--
-- Where each part is modelled. A definition has the name of the function that it translates; a comment
-- above it names the function where the names differ.
--   Base: helpers on lists, dictionaries, texts and signed integers.
--   Externals: the crates that the program calls and that are not in the repository, as a record of
--     functions. Config.Kdl has the same for the crate `kdl`, Daemon.Cfs for operations on `f64`.
--   Config.Policy, .Profile, .Scheduler, .Assignments, .Cfs: the data of config/src. Config.Parser:
--     config/src/parser, `read_config` and all that it calls.
--   Process.Cell: a store of cells for `Arc<LCell<Process>>` and `Weak`. Process.Table: `Map`, with
--     `insert`, `drain_filter`, `retain_process_tree`. Process.Files: what is read of /proc.
--   Kernel: `priority::set`; the calls to the kernel are a list, in order.
--   Service: `Service` as a record (Service.State) and its methods: the choice of a priority
--     (Conditions, Assign), its application (Apply), new processes (Children), the foreground process
--     (Foreground), pipewire processes (Pipewire), refresh and garbage collection (Refresh).
--     Service.Valid, Service.Safe and Service.Buffers prove that the methods keep its invariants.
--   Pipewire: `ProcessEvent` and its bytes; Pipewire.Registry: `nodes_from_socket`, with its listeners
--     and its timer; Pipewire.Nodes: `processes_from_socket`; Pipewire.Monitor: `monitor` of
--     daemon/src/pw.rs on the lines it reads; Pipewire.Child: how the lines come from the pipewire
--     process, and that it is started again; Pipewire.Sessions: `pipewire_service`.
--   Daemon.Cfs: daemon/src/cfs. Daemon.Bus: the D-Bus server. Daemon.Events: `daemon` from its start
--     through its event loop, with what is outside of it at each event (`Moment`). Daemon.System: the
--     event loop together with the tasks and methods that send events, as a step relation.
--     Daemon.Commands: `main`, `cpu`, `reload`. Daemon.Startup: `uptime` and the delays.
--   Execsnoop: `ProcessIterator::next` and the loop of `integrate_execsnoop`; Execsnoop.Child: `watch`
--     and `Drop`.
--   Tests: sample values, and an example for each result that has hypotheses or parameters.
--
-- How state is modelled. A method takes the state and returns the new one. An address of the store
-- stands for an `Arc`; a cell is in the store as long as one of the two maps holds its address. A `HashMap`
-- is a list of pairs, and the order of the list stands for the order in which it is iterated; the
-- results hold for every such list. What /proc shows is one value (`Procfs`) for each event.
--
-- Numbers are natural numbers; `as i32`, `as u64` and products of `u64` have their wrap-around written
-- out, as it is without overflow checks. A `f64` is its bit pattern.
--
-- Concurrency. A state of Daemon.System has the sends that the event loop has not received, the oldest
-- first: those in the channel (`channel_capacity`, 4), and behind them those that wait for room. A task,
-- a D-Bus method, the loop's `recv` and the branch of an event take steps in any order that the channel
-- and the lock of the interface allow. A branch is one step; so is a method until its last send.
--
-- Bounds and fuel. `ancestors` takes as many steps as there are cells, which is enough for every chain
-- of parents that ends; on a cycle of parents the code would not return. `scan_loop` takes
-- `pid_max + 2` steps, which is enough where every child's ID is below `pid_max`. `key_loop` takes one
-- step more than the file has bytes, `watch_loop` one more than there are lines, `read_loop` as many as
-- the pipewire process writes bytes; each is enough.
--
-- Other crates. Of `tokio` it is taken that a channel is bounded and gives out events in the order in
-- which the sends were requested, and that `interval` ticks; of `zbus`, that a method with `&mut self`
-- has the interface for itself; of libpipewire, which listeners it calls (`Notice`); of `clap`, that
-- `get_one` panics on another type than the argument's; of the standard library, that a child process
-- may fail to start or lack a pipe. What is sent to them, read from them and done with their answers is
-- the model's.
--
-- Not modelled: the threads and sockets of `main` and of the D-Bus connection; reuse of buffers
-- (daemon/src/utils.rs), whose texts are modelled by value; log messages; the results of system calls,
-- which the code ignores; the examples, which print what the libraries report. These are input and
-- output, or glue of other crates. `process::cgroup` panics on some texts that /proc does not show;
-- there the service goes on with an empty text.
pub mod Base
pub mod Externals
pub mod Config
pub mod Process
pub mod Kernel
pub mod Service
pub mod Pipewire
pub mod Daemon
pub mod Execsnoop
pub mod Tests
