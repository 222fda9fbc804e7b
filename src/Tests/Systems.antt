-- ===== src/Tests/Systems.antt =====
-- Examples for the daemon as a system of tasks, D-Bus calls and the event loop.
use system76_scheduler.Base.{
  List, [], false, nat_eq, none, refl, some, string_eq, true, ◌++◌, ◌∷◌, ◌≡◌,
}
use system76_scheduler.Base.Dict.{insert, lookup}
use system76_scheduler.Base.Number.{parse_u64}
use system76_scheduler.Config.Cfs.{default_cfs_config}
use system76_scheduler.Config.Parser.Files.{
  main_node, main_nodes, read_assignments, read_config, read_main,
}
use system76_scheduler.Daemon.Bus.{
  CpuMode, Event, Server, bus_set_cpu_mode, bus_set_foreground_process, new_server, send,
}
use system76_scheduler.Daemon.Cfs.{cfs_apply, cfs_config, cfs_on_battery, debug_paths}
use system76_scheduler.Daemon.Commands.{Argument, Command, Outcome, dispatch}
use system76_scheduler.Daemon.Events.{
  Moment, apply_custom, autogroup_set, handle, reload, run, start,
}
use system76_scheduler.Daemon.Events.CpuModes.{chosen}
use system76_scheduler.Daemon.Events.Good.{IsGood}
use system76_scheduler.Daemon.Startup.{before_dot, schedule, send_delayed, start_delay, uptime}
use system76_scheduler.Daemon.System.{
  Call, Phase, Reach, Sender, Signal, Step, System, accept_call, accept_signal, answer, boot,
  call_sender, is_same, is_waiting, may_start, needs_interface, receive, signal_event,
  signal_sender,
}
use system76_scheduler.Daemon.System.Drained.{IsFree, Reach-drained}
use system76_scheduler.Daemon.System.History.{Reach-run, events_of, held, is_running, sent_events}
use system76_scheduler.Daemon.System.Latest.{
  StaysOr, Undisturbed, Undisturbed-latest, event_for, mode_of,
}
use system76_scheduler.Daemon.System.Stuck.{Reach-deadlock}
use system76_scheduler.Tests.{externals, procfs}
use system76_scheduler.Tests.Configurations.{kdl}
use system76_scheduler.Tests.Daemons.{files, floats}

-- Every moment finds the files of the tests; the interface is as `server` says.
abbrev quiet : Server → Moment
quiet server = record { procfs = procfs; files = files; server = some server; on_battery = false }

abbrev booted : System
booted = boot externals kdl floats 16 (quiet new_server) (some debug_paths)

abbrev signalled : List Signal → System → System
signalled [] m = m
signalled (g ∷ rest) m = signalled rest (accept_signal m g)

-- The mode is set over D-Bus, the battery changes four times and waits for room with the last, and
-- another call follows.
abbrev crowded : System
unfolding accept_signal accept_call
crowded =
    accept_call
      (signalled
        (Signal.changed true
          ∷ Signal.changed false
          ∷ Signal.changed true
          ∷ Signal.changed false
          ∷ [])
        (accept_call booted (Call.set_cpu_mode CpuMode.default)))
      (Call.set_foreground_process 3)

abbrev behind : List (Event × Sender)
behind =
    (Event.on_battery true, Sender.battery)
    ∷ (Event.on_battery false, Sender.battery)
    ∷ (Event.on_battery true, Sender.battery)
    ∷ (Event.on_battery false, Sender.battery)
    ∷ (Event.set_foreground_process 3, Sender.exclusive)
    ∷ []

opens : Unit {0}
unfolding boot accept_signal accept_call signal_event signal_sender answer call_sender
    bus_set_cpu_mode bus_set_foreground_process send is_waiting is_same may_start needs_interface
    receive
opens = tt

crowded_reached : Reach externals kdl floats 16 booted crowded
unfolding opens
crowded_reached =
    Reach.later
      (Reach.later
        (Reach.later
          (Reach.later
            (Reach.later
              (Reach.later Reach.here (Step.call (Call.set_cpu_mode CpuMode.default) refl))
              (Step.signal (Signal.changed true) refl))
            (Step.signal (Signal.changed false) refl))
          (Step.signal (Signal.changed true) refl))
        (Step.signal (Signal.changed false) refl))
      (Step.call (Call.set_foreground_process 3) refl)

crowded_pending : crowded.pending ≡ (Event.set_cpu_mode, Sender.exclusive) ∷ behind
unfolding opens
crowded_pending = refl

crowded_ready : crowded.phase ≡ Phase.ready
unfolding opens
crowded_ready = refl

behind_waits : is_waiting Sender.exclusive behind ≡ true
unfolding opens
behind_waits = refl

wants_interface : needs_interface Event.set_cpu_mode ≡ true
unfolding opens
wants_interface = refl

Reach-deadlock_example :
    Step externals kdl floats 16 crowded (receive crowded Event.set_cpu_mode behind)
    × ((n : System)
        → Reach externals kdl floats 16 (receive crowded Event.set_cpu_mode behind) n
        → (n.phase ≡ Phase.busy Event.set_cpu_mode)
          × (n.service ≡ crowded.service)
          × (n.handled ≡ crowded.handled))
Reach-deadlock_example =
    Reach-deadlock externals kdl floats 16 crowded Event.set_cpu_mode Sender.exclusive behind
      crowded_ready crowded_pending wants_interface behind_waits

Reach-run_example :
    (crowded.service
      ≡ run externals kdl floats 16
          (start externals kdl floats 16 (quiet new_server) (some debug_paths))
          crowded.handled)
    × IsGood externals crowded.service
    × (events_of crowded.handled ++ held crowded.phase ++ sent_events crowded.pending
        ≡ crowded.requested)
Reach-run_example =
    Reach-run externals kdl floats 16 (quiet new_server) (some debug_paths) crowded_reached

-- Before the last call no method waits.
abbrev busy : System
unfolding accept_signal accept_call
busy =
    signalled (Signal.tick ∷ Signal.changed false ∷ [])
      (accept_call booted (Call.set_cpu_mode CpuMode.default))

busy_reached : Reach externals kdl floats 16 booted busy
unfolding opens
busy_reached =
    Reach.later
      (Reach.later (Reach.later Reach.here (Step.call (Call.set_cpu_mode CpuMode.default) refl))
        (Step.signal Signal.tick refl))
      (Step.signal (Signal.changed false) refl)

busy_running : is_running busy.phase ≡ true
unfolding opens
busy_running = refl

busy-IsFree : IsFree busy.pending
unfolding opens
busy-IsFree = (refl, refl)

Reach-drained_example :
    (n : System) × Reach externals kdl floats 16 busy n
    × (n.pending ≡ [])
    × (n.phase ≡ Phase.ready)
    × (events_of n.handled ≡ busy.requested)
Reach-drained_example =
    Reach-drained externals kdl floats 16 (quiet new_server) (quiet new_server) (some debug_paths)
      busy busy_reached busy_running busy-IsFree

-- A profile is chosen, and then the battery changes.
abbrev chosen_profile : System
unfolding accept_call accept_signal
chosen_profile =
    accept_signal (accept_call busy (Call.set_cpu_profile "responsive")) (Signal.changed true)

no_auto : cfs_config chosen_profile.service "auto" ≡ none
unfolding opens start autogroup_set reload read_config cfs_on_battery cfs_apply cfs_config lookup
    insert read_assignments read_main main_nodes main_node default_cfs_config
no_auto = refl

Undisturbed-latest_example :
    (handle externals kdl floats 16
        (quiet chosen_profile.server)
        chosen_profile.service
        (event_for (mode_of "responsive"))
      ≡ some (
          apply_custom externals kdl floats 16 chosen_profile.service (
            chosen externals kdl floats 16
              (quiet chosen_profile.server)
              chosen_profile.service
              "responsive")))
    × StaysOr externals kdl floats 16
        (quiet chosen_profile.server)
        chosen_profile.service
        Event.set_cpu_mode
        (chosen externals kdl floats 16
          (quiet chosen_profile.server)
          chosen_profile.service
          "responsive")
    × StaysOr externals kdl floats 16
        (quiet chosen_profile.server)
        chosen_profile.service
        Event.set_custom_cpu_mode
        (chosen externals kdl floats 16
          (quiet chosen_profile.server)
          chosen_profile.service
          "responsive")
    × (dispatch (some chosen_profile.server) (Command.cpu Argument.absent)
        ≡ Outcome.shown "responsive")
unfolding opens
Undisturbed-latest_example =
    Undisturbed-latest externals kdl floats 16 busy chosen_profile "responsive"
      (quiet chosen_profile.server) refl
      (Undisturbed.signalled (Signal.changed true) Undisturbed.here) refl no_auto

early : start_delay (uptime (some "8.25 3.10\n")) ≡ 2
unfolding start_delay uptime before_dot parse_u64
early = refl

shows_profile : dispatch (some new_server) (Command.cpu Argument.absent) ≡ Outcome.shown "auto"
unfolding dispatch
shows_profile = refl

-- The second process is reported while the first still waits.
delayed :
    send_delayed 3 (
      schedule 3 (record { pid = 7; parent_pid = 1; name = "a"; cmdline = "a" })
      ∷ schedule 4 (record { pid = 8; parent_pid = 1; name = "b"; cmdline = "b" })
      ∷ [])
    ≡ (5, record { pid = 7; parent_pid = 1; name = "a"; cmdline = "a" })
      ∷ (6, record { pid = 8; parent_pid = 1; name = "b"; cmdline = "b" })
      ∷ []
unfolding send_delayed schedule
delayed = refl
