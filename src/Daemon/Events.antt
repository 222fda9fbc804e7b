-- ===== src/Daemon/Events.antt =====
-- daemon/src/main.rs: the start of the daemon and its event loop.
pub mod Good
pub mod Accepted
pub mod CpuModes
pub mod Buffers
use system76_scheduler.Base.{
  Bool, List, Option, String, [], if◌then◌else◌, is_some, nat_eq, none, some, string_eq, ℕ, ◌&&◌,
  ◌++◌, ◌∷◌,
}
use system76_scheduler.Config.Cfs.{CfsProfile}
use system76_scheduler.Config.Kdl.{Kdl}
use system76_scheduler.Config.Parser.Files.{ConfigFiles, read_config}
use system76_scheduler.Config.Scheduler.{SchedulerConfig}
use system76_scheduler.Daemon.Bus.{CpuMode, Event, Server}
use system76_scheduler.Daemon.Cfs.{
  Floats, cfs_apply, cfs_config, cfs_default_config, cfs_on_battery, cfs_responsive_config,
}
use system76_scheduler.Externals.{Externals}
use system76_scheduler.Kernel.{write_text}
use system76_scheduler.Pipewire.{ProcessEvent}
use system76_scheduler.Process.Files.{Procfs}
use system76_scheduler.Service.Children.{assign_children, assign_new_process}
use system76_scheduler.Service.Foreground.{set_foreground_process}
use system76_scheduler.Service.Pipewire.{remove_pipewire_process, set_pipewire_process}
use system76_scheduler.Service.Refresh.{garbage_clean, process_map_refresh}
use system76_scheduler.Service.State.{SchedPaths, Service, new_service}

-- What is outside of the daemon while it handles one event
pub record Moment : Type 0 where
  pub procfs : Procfs
  -- the configuration files
  pub files : ConfigFiles
  -- the D-Bus interface, `none` where `interface_handle` fails
  pub server : Option Server
  -- `upower.on_battery().await.unwrap_or(false)`
  pub on_battery : Bool

abbrev pub autogroup_path : String
autogroup_path = "/proc/sys/kernel/sched_autogroup_enabled"

-- `autogroup_set`
unfoldable pub autogroup_set : Service → Bool → Service
autogroup_set s enable = record s {
  calls = s.calls ++ write_text autogroup_path (if enable then "1" else "0") ∷ [];
}

-- `Service::reload_configuration`
unfoldable pub reload : Externals → Kdl → ConfigFiles → Service → Service
reload x k files s = record s { config = read_config x k files }

-- The tasks that the daemon starts
pub data Task : Type 0 where
  refresher : ℕ → Task
  execsnoop_watcher : Task
  pipewire_monitor : Task

-- The tasks of the process scheduler; `found` is whether `EXECSNOOP_PATH` exists.
unfoldable pub tasks : SchedulerConfig → Bool → List Task
tasks c found =
    if c.enable
    then (Task.refresher c.refresh_rate ∷ [])
      ++ (if c.execsnoop && found then Task.execsnoop_watcher ∷ [] else [])
      ++ (if is_some c.pipewire then Task.pipewire_monitor ∷ [] else [])
    else []

module _ (x : Externals) (k : Kdl) (f : Floats) (cpus : ℕ) where
  -- `daemon`, up to the event loop
  unfoldable pub start : Moment → Option SchedPaths → Service
  unfolding reload autogroup_set
  start w paths =
      let s : Service = reload x k w.files (new_service paths) in
      let s' : Service = autogroup_set s s.config.autogroup_enabled in
      if s'.config.cfs_profiles.enable then cfs_on_battery f cpus s' w.on_battery else s'

  -- The branches of `Event::SetCpuMode`
  unfoldable pub apply_cpu_mode : Moment → Service → CpuMode → Service
  apply_cpu_mode w s CpuMode.auto = cfs_on_battery f cpus s w.on_battery
  apply_cpu_mode w s CpuMode.default = cfs_apply f cpus s (cfs_default_config s)
  apply_cpu_mode w s CpuMode.responsive = cfs_apply f cpus s (cfs_responsive_config s)
  apply_cpu_mode w s CpuMode.custom = s

  -- The branch of `Event::OnBattery`
  unfoldable pub apply_battery : Service → Bool → CpuMode → Service
  apply_battery s on_battery CpuMode.auto = cfs_on_battery f cpus s on_battery
  apply_battery s on_battery _ = s

  -- The branch of `Event::SetCustomCpuMode`
  unfoldable pub apply_custom : Service → Option CfsProfile → Service
  apply_custom s none = s
  apply_custom s (some profile) = cfs_apply f cpus s profile

  -- `let Some(handle) = dbus::interface_handle(&connection).await else { break }`
  unfoldable pub with_server : Option Server → (Server → Service) → Option Service
  with_server none then_do = none
  with_server (some b) then_do = some (then_do b)

  -- The body of the event loop, `none` where it leaves the loop
  unfoldable pub handle : Moment → Service → Event → Option Service
  unfolding with_server
  handle w s (Event.exec_create e) = some (
      garbage_clean x w.procfs (
        assign_children x w.procfs
          (assign_new_process x w.procfs s e.pid e.parent_pid e.name e.cmdline) e.pid))
  handle w s Event.refresh_process_map = some (process_map_refresh x w.procfs s)
  handle w s (Event.set_foreground_process pid) =
      some (garbage_clean x w.procfs (set_foreground_process x w.procfs s pid))
  handle w s (Event.pipewire (ProcessEvent.add pid)) =
      some (garbage_clean x w.procfs (set_pipewire_process x w.procfs s pid))
  handle w s (Event.pipewire (ProcessEvent.remove pid)) =
      some (remove_pipewire_process x w.procfs s pid)
  handle w s (Event.on_battery b) =
      with_server w.server (λ server. apply_battery s b server.cpu_mode)
  handle w s Event.set_cpu_mode =
      with_server w.server (λ server. apply_cpu_mode w s server.cpu_mode)
  handle w s Event.set_custom_cpu_mode =
      with_server w.server (λ server. apply_custom s (cfs_config s server.cpu_profile))
  handle w s Event.reload_configuration =
      let s' : Service = reload x k w.files s in some (autogroup_set s' s'.config.autogroup_enabled)

  -- The event loop, over the events that arrive and what is there at each: the service when the events
  -- are used up or the loop is left
  unfoldable pub run : Service → List (Moment × Event) → Service
  run s [] = s
  run s ((w, event) ∷ rest) = elim (handle w s event) [ none ↦ s | some s' ↦ run s' rest ]
