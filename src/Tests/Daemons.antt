-- ===== src/Tests/Daemons.antt =====
-- Examples for the modules of the daemon, of pipewire and of execsnoop.
-- Floats that stand for whole numbers
use system76_scheduler.Base.{
  Bool, List, String, [], arith, contains, false, if◌then◌else◌, nat_eq, none, refl, some,
  string_eq, true, ℕ, ◌*◌, ◌++◌, ◌+◌, ◌==◌, ◌^◌, ◌↔◌, ◌∷◌, ◌≡◌,
}
use system76_scheduler.Base.Dict.{insert, lookup, remove}
use system76_scheduler.Base.Distinct.{Distinct}
use system76_scheduler.Base.Number.{parse_u32}
use system76_scheduler.Base.Text.{codes}
use system76_scheduler.Config.Cfs.{profile_default}
use system76_scheduler.Config.Parser.Files.{ConfigFiles}
use system76_scheduler.Daemon.Bus.{Event, Server, bus_set_cpu_profile, new_server}
use system76_scheduler.Daemon.Cfs.{
  Floats, bandwidth_size_path, cfs_on_battery, debug_paths, min_granularity, preempt_calls, tweak,
  wakeup_granularity,
}
use system76_scheduler.Daemon.Cfs.Writes.{factor, tweak-exact}
use system76_scheduler.Daemon.Events.{Moment, apply_custom, handle, run, start}
use system76_scheduler.Daemon.Events.Accepted.{run-start}
use system76_scheduler.Daemon.Events.Buffers.{run-assign_children}
use system76_scheduler.Daemon.Events.CpuModes.{
  chosen, handle-bus_set_cpu_profile, handle-on_battery,
}
use system76_scheduler.Daemon.Events.Good.{IsGood}
use system76_scheduler.Execsnoop.{Line, scheduled}
use system76_scheduler.Execsnoop.Reported.{from_line, gather, good_lines, scheduled-gather}
use system76_scheduler.Kernel.{write_number}
use system76_scheduler.Pipewire.{ProcessEvent}
use system76_scheduler.Pipewire.Monitor.{monitor_lines, new_monitor, pass_events}
use system76_scheduler.Pipewire.Monitor.Alternates.{InTurn, monitor_lines-InTurn}
use system76_scheduler.Pipewire.Monitor.Shared.{monitor-shared}
use system76_scheduler.Pipewire.Nodes.{
  Managed, NodeEvent, NodeInfo, from_node, new_managed, note_info, note_removed, on_node, on_nodes,
}
use system76_scheduler.Pipewire.Nodes.Counts.{AreBalanced, Steady, ended, next, on_nodes-Balanced}
use system76_scheduler.Pipewire.Nodes.Present.{present}
use system76_scheduler.Pipewire.Sessions.{SocketEvent, new_sessions, on_sockets}
use system76_scheduler.Pipewire.Sessions.Single.{IsSingle, on_sockets-IsSingle}
use system76_scheduler.Service.Children.{assign_children, assign_tasks}
use system76_scheduler.Service.Children.Scan.{Descends}
use system76_scheduler.Service.State.{Service}
use system76_scheduler.Tests.{externals, nothing, procfs}
use system76_scheduler.Tests.Configurations.{kdl}
use system76_scheduler.Tests.Services.{children_below}

abbrev pub floats : Floats
floats = record {
  from_u64 = λ n. n;
  to_u64 = λ n. n;
  add = λ a b. 5;
  mul = λ a b. a * b;
  div = λ a b. a;
  ln = λ a. a;
}

tweak-exact_example :
    tweak floats 16 debug_paths profile_default
    ≡ write_number debug_paths.latency (10 ^ 6 * factor floats 16 * profile_default.latency)
      ∷ write_number debug_paths.min_gran
          (min_granularity floats (10 ^ 6 * factor floats 16) profile_default)
      ∷ write_number debug_paths.wakeup_gran
          (wakeup_granularity floats (10 ^ 6 * factor floats 16) profile_default)
      ∷ write_number bandwidth_size_path (profile_default.bandwidth_size * 1000)
      ∷ preempt_calls floats debug_paths.preempt profile_default.preempt
tweak-exact_example =
    tweak-exact floats 16 debug_paths profile_default (omega arith) (omega arith) (omega arith)

abbrev pub files : ConfigFiles
files = record { exists = λ path. true; read = λ path. some "text"; read_dir = λ path. none }

-- The server after a profile was chosen
abbrev server : Server
server = bus_set_cpu_profile new_server "responsive"

abbrev moment : Moment
moment = record { procfs = procfs; files = files; server = some server; on_battery = false }

-- A program starts, becomes the foreground process, uses pipewire, and stops to.
abbrev events : List (Moment × Event)
events =
    (moment, Event.refresh_process_map)
    ∷ (
      moment,
      Event.exec_create (record { pid = 3; parent_pid = 2; name = "editor"; cmdline = "" }),
    )
    ∷ (moment, Event.set_foreground_process 3)
    ∷ (moment, Event.pipewire (ProcessEvent.add 3))
    ∷ (moment, Event.set_cpu_mode)
    ∷ (moment, Event.pipewire (ProcessEvent.remove 3))
    ∷ (moment, Event.reload_configuration)
    ∷ []

run-start_example :
    IsGood externals
      (run externals kdl floats 16 (start externals kdl floats 16 moment (some debug_paths)) events)
run-start_example = run-start externals kdl floats 16 moment (some debug_paths) events

handle-bus_set_cpu_profile_example :
    (event : Event) × ((bus_set_cpu_profile new_server "responsive").sent
      ≡ new_server.sent ++ event ∷ [])
    × (handle externals kdl floats 16 moment nothing event
        ≡ some (
            apply_custom externals kdl floats 16 nothing
              (chosen externals kdl floats 16 moment nothing "responsive")))
handle-bus_set_cpu_profile_example =
    handle-bus_set_cpu_profile externals kdl floats 16 moment nothing new_server "responsive" refl
      refl

abbrev profile_name : String
profile_name = "responsive"

handle-on_battery_example :
    handle externals kdl floats 16 moment nothing (Event.on_battery true)
    ≡ some (if profile_name == "auto" then cfs_on_battery floats 16 nothing true else nothing)
handle-on_battery_example =
    handle-on_battery externals kdl floats 16 moment nothing new_server profile_name true refl refl

monitor_lines-InTurn_example :
    InTurn
      (monitor_lines externals new_monitor
        (codes "add 7\n" ∷ codes "add 7\n" ∷ codes "rem 7\n" ∷ []))
      7
monitor_lines-InTurn_example =
    monitor_lines-InTurn externals (codes "add 7\n" ∷ codes "add 7\n" ∷ codes "rem 7\n" ∷ []) 7

abbrev pub player : NodeInfo
player = some (("application.process.binary", "player") ∷ ("application.process.id", "7") ∷ [])

reads : Unit {0}
unfolding lookup insert remove from_node parse_u32 on_node note_info note_removed
reads = tt

player_id : from_node player ≡ some 7
unfolding reads
player_id = refl

player-Steady :
    Steady [] (NodeEvent.info 40 player ∷ NodeEvent.info 40 player ∷ NodeEvent.removed 40 ∷ [])
unfolding reads
player-Steady = next (λ p q e f. cc) (next (λ p q e f. cc) (next tt ended))

on_nodes-Balanced_example :
    AreBalanced
      (present [] (NodeEvent.info 40 player ∷ NodeEvent.info 40 player ∷ NodeEvent.removed 40 ∷ []))
      (on_nodes new_managed
        (NodeEvent.info 40 player ∷ NodeEvent.info 40 player ∷ NodeEvent.removed 40 ∷ [])).passed
on_nodes-Balanced_example =
    on_nodes-Balanced
      (NodeEvent.info 40 player ∷ NodeEvent.info 40 player ∷ NodeEvent.removed 40 ∷ [])
      player-Steady

monitor-shared_example :
    let m : Managed =
      on_nodes new_managed
        (NodeEvent.info 40 player ∷ NodeEvent.info 41 player ∷ NodeEvent.removed 40 ∷ []) in
    (lookup 41 m.nodes ≡ some 7)
    × ((pass_events new_monitor m.passed).sent ≡ ProcessEvent.add 7 ∷ ProcessEvent.remove 7 ∷ [])
    × (contains (pass_events new_monitor m.passed).managed 7 ≡ false)
monitor-shared_example =
    monitor-shared 40 41 7 player player (λ e. absurd (omega (arith, e))) player_id player_id

-- One decimal digit
abbrev pub digit : ℕ → List ℕ
digit n = (b'0' + n) ∷ []

scheduled-gather_example :
    scheduled externals
      (λ bytes. some "/usr/bin/ls")
      (Line.line (codes "ls 12 7 0 /usr/bin/ls") ∷ Line.error ∷ [])
    ≡ gather
        (from_line externals (λ bytes. some "/usr/bin/ls"))
        (good_lines (Line.line (codes "ls 12 7 0 /usr/bin/ls") ∷ Line.error ∷ []))
scheduled-gather_example =
    scheduled-gather externals (λ bytes. some "/usr/bin/ls")
      (Line.line (codes "ls 12 7 0 /usr/bin/ls") ∷ Line.error ∷ [])

run-assign_children_example :
    let s : Service =
      run externals kdl floats 16
        (start externals kdl floats 16 moment (some debug_paths))
        events in
    (all : List ℕ) × (assign_children externals procfs s 1
      ≡ record (assign_tasks externals procfs s all) {
        assign_scan = [];
        assign_scanned = all;
        assign_tasks = [];
      })
    × Distinct all
    × ((a : ℕ) → (contains all a ≡ true) ↔ Descends externals procfs 1 a)
run-assign_children_example =
    run-assign_children externals kdl floats 16 moment (some debug_paths) events procfs 1
      children_below

abbrev sessions : List (SocketEvent × Bool)
sessions =
    (SocketEvent.add "/run/user/1000/pipewire-0", true)
    ∷ (SocketEvent.add "/run/user/1000/pipewire-0", true)
    ∷ (SocketEvent.remove "/run/user/1000/pipewire-0", false)
    ∷ []

on_sockets-IsSingle_example :
    IsSingle (on_sockets new_sessions sessions) "/run/user/1000/pipewire-0"
on_sockets-IsSingle_example = on_sockets-IsSingle sessions "/run/user/1000/pipewire-0"
