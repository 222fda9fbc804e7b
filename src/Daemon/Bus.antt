-- ===== src/Daemon/Bus.antt =====
-- daemon/src/dbus.rs: the state of the D-Bus interface, and what its methods send to the event loop.
use system76_scheduler.Base.{
  Bool, List, String, [], if◌then◌else◌, nat_eq, string_eq, ℕ, ◌++◌, ◌==◌, ◌∷◌,
}
use system76_scheduler.Pipewire.{ProcessEvent}

pub data CpuMode : Type 0 where
  auto custom default responsive : CpuMode

-- daemon/src/main.rs, `ExecCreate`
pub record ExecCreate : Type 0 where
  pub pid : ℕ
  pub parent_pid : ℕ
  pub name : String
  pub cmdline : String

-- daemon/src/main.rs, `Event`
pub data Event : Type 0 where
  exec_create : ExecCreate → Event
  on_battery : Bool → Event
  pipewire : ProcessEvent → Event
  refresh_process_map : Event
  reload_configuration : Event
  set_cpu_mode : Event
  set_custom_cpu_mode : Event
  set_foreground_process : ℕ → Event

-- `sent` stands for the sender `tx`: the events sent through it, the oldest first.
pub record Server : Type 0 where
  pub cpu_mode : CpuMode
  pub cpu_profile : String
  pub sent : List Event

-- The server as the daemon starts it
abbrev pub new_server : Server
new_server = record { cpu_mode = CpuMode.auto; cpu_profile = "auto"; sent = [] }

unfoldable pub send : Server → Event → Server
send b event = record b { sent = b.sent ++ event ∷ [] }

-- The methods of `Server`
unfoldable pub bus_reload_configuration : Server → Server
unfolding send
bus_reload_configuration b = send b Event.reload_configuration

unfoldable pub bus_set_cpu_mode : Server → CpuMode → Server
unfolding send
bus_set_cpu_mode b mode = send (record b { cpu_mode = mode }) Event.set_cpu_mode

unfoldable pub bus_set_cpu_profile : Server → String → Server
unfolding bus_set_cpu_mode
bus_set_cpu_profile b profile =
    let b' : Server = record b { cpu_profile = profile } in
    if profile == "auto"
    then bus_set_cpu_mode b' CpuMode.auto
    else if profile == "default"
    then bus_set_cpu_mode b' CpuMode.default
    else if profile == "responsive"
    then bus_set_cpu_mode b' CpuMode.responsive
    else if profile == ""
    then b'
    else send (record b' { cpu_mode = CpuMode.custom }) Event.set_custom_cpu_mode

unfoldable pub bus_set_foreground_process : Server → ℕ → Server
unfolding send
bus_set_foreground_process b pid = send b (Event.set_foreground_process pid)
