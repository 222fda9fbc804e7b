-- ===== src/Daemon/Events/Accepted.antt =====
-- daemon/src/main.rs: what holds of the service at all times: its map is valid, and the kernel accepts what
-- it asks for.
use system76_scheduler.Base.{
  List, Option, Option-cases, [], inl, inr, nat_eq, none, some, string_eq, subst, ℕ, ◌∷◌,
}
use system76_scheduler.Config.Kdl.{Kdl}
use system76_scheduler.Daemon.Bus.{Event, Server}
use system76_scheduler.Daemon.Cfs.{Floats}
use system76_scheduler.Daemon.Events.{
  Moment, autogroup_set, handle, reload, run, start, with_server,
}
use system76_scheduler.Daemon.Events.Good.{
  IsGood, apply_battery-IsGood, apply_cpu_mode-IsGood, apply_custom-IsGood, autogroup_set-IsGood,
  cfs_on_battery-IsGood, if-IsGood, new_service-IsGood, reload-IsGood,
}
use system76_scheduler.Externals.{Externals}
use system76_scheduler.Pipewire.{ProcessEvent}
use system76_scheduler.Process.Files.{Procfs}
use system76_scheduler.Service.Buffers.{
  assign_children-Clear, assign_new_process-Clear, garbage_clean-Clear, process_map_refresh-Clear,
  remove_pipewire_process-Clear, set_foreground_process-Clear, set_pipewire_process-Clear,
}
use system76_scheduler.Service.Refresh.{garbage_clean}
use system76_scheduler.Service.Safe.Children.{assign_children-Safe, assign_new_process-Safe}
use system76_scheduler.Service.Safe.Refresh.{garbage_clean-Safe, process_map_refresh-Safe}
use system76_scheduler.Service.Safe.Sessions.{
  remove_pipewire_process-Safe, set_foreground_process-Safe, set_pipewire_process-Safe,
}
use system76_scheduler.Service.State.{SchedPaths, Service, new_service}
use system76_scheduler.Service.Valid.{assign_children-Valid, assign_new_process-Valid}
use system76_scheduler.Service.Valid.Events.{
  garbage_clean-Valid, process_map_refresh-Valid, set_foreground_process-Valid,
}
use system76_scheduler.Service.Valid.Pipewire.{
  remove_pipewire_process-Valid, set_pipewire_process-Valid,
}

module _ (x : Externals) (k : Kdl) (f : Floats) (cpus : ℕ) where
  -- Good, where the loop goes on
  abbrev pub Stays : Option Service → Type 0
  Stays none = Unit
  Stays (some s) = IsGood x s

  with_server-Stays :
      (server : Option Server) (then_do : Server → Service)
      → ((b : Server) → IsGood x (then_do b))
      → Stays (with_server x k f cpus server then_do)
  unfolding with_server
  with_server-Stays none then_do h = tt
  with_server-Stays (some b) then_do h = h b

  cleaned : (fs : Procfs) {s : Service} → IsGood x s → IsGood x (garbage_clean x fs s)
  cleaned fs g = record {
    valid = garbage_clean-Valid x fs _ g.valid;
    safe = garbage_clean-Safe x fs _ g.safe;
    clear = garbage_clean-Clear x fs _ g.clear;
  }

  handle-Stays :
      (w : Moment) (s : Service) (event : Event) → IsGood x s → Stays (handle x k f cpus w s event)
  unfolding handle
  handle-Stays w s (Event.exec_create e) g = cleaned w.procfs (record {
    valid =
        assign_children-Valid x w.procfs _ e.pid
          (assign_new_process-Valid x w.procfs s e.pid e.parent_pid e.name e.cmdline g.valid);
    safe =
        assign_children-Safe x w.procfs _ e.pid
          (assign_new_process-Safe x w.procfs s e.pid e.parent_pid e.name e.cmdline g.safe);
    clear =
        assign_children-Clear x w.procfs _ e.pid
          (assign_new_process-Clear x w.procfs s e.pid e.parent_pid e.name e.cmdline g.clear);
  })
  handle-Stays w s Event.refresh_process_map g = record {
    valid = process_map_refresh-Valid x w.procfs s g.valid;
    safe = process_map_refresh-Safe x w.procfs s g.safe;
    clear = process_map_refresh-Clear x w.procfs s g.clear;
  }
  handle-Stays w s (Event.set_foreground_process pid) g = cleaned w.procfs (record {
    valid = set_foreground_process-Valid x w.procfs s pid g.valid;
    safe = set_foreground_process-Safe x w.procfs s pid g.safe;
    clear = set_foreground_process-Clear x w.procfs s pid g.clear;
  })
  handle-Stays w s (Event.pipewire (ProcessEvent.add pid)) g = cleaned w.procfs (record {
    valid = set_pipewire_process-Valid x w.procfs s pid g.valid;
    safe = set_pipewire_process-Safe x w.procfs s pid g.safe;
    clear = set_pipewire_process-Clear x w.procfs s pid g.clear;
  })
  handle-Stays w s (Event.pipewire (ProcessEvent.remove pid)) g = record {
    valid = remove_pipewire_process-Valid x w.procfs s pid g.valid;
    safe = remove_pipewire_process-Safe x w.procfs s pid g.safe;
    clear = remove_pipewire_process-Clear x w.procfs s pid g.clear;
  }
  handle-Stays w s (Event.on_battery b) g =
      with_server-Stays w.server _ (λ server. apply_battery-IsGood x k f cpus s b server.cpu_mode g)
  handle-Stays w s Event.set_cpu_mode g =
      with_server-Stays w.server _
        (λ server. apply_cpu_mode-IsGood x k f cpus w s server.cpu_mode g)
  handle-Stays w s Event.set_custom_cpu_mode g =
      with_server-Stays w.server _ (λ server. apply_custom-IsGood x k f cpus s _ g)
  handle-Stays w s Event.reload_configuration g =
      autogroup_set-IsGood x k f cpus _ _ (reload-IsGood x k f cpus w.files s g)

  start-IsGood : (w : Moment) (paths : Option SchedPaths) → IsGood x (start x k f cpus w paths)
  unfolding start
  start-IsGood w paths =
      if-IsGood x k f cpus _ (cfs_on_battery-IsGood x k f cpus _ w.on_battery started) started
    where
      started : IsGood x (
          autogroup_set
            (reload x k w.files (new_service paths))
            (reload x k w.files (new_service paths)).config.autogroup_enabled)
      started =
          autogroup_set-IsGood x k f cpus _ _
            (reload-IsGood x k f cpus w.files _ (new_service-IsGood paths))

  run-IsGood :
      (s : Service) (events : List (Moment × Event))
      → IsGood x s
      → IsGood x (run x k f cpus s events)
  unfolding run
  run-IsGood s [] g = g
  run-IsGood s ((w, event) ∷ rest) g = elim (Option-cases (handle x k f cpus w s event)) [
    | inl e ↦ rw (e, run) g
    | inr (t, e) ↦ rw (e, run) (run-IsGood t rest (subst Stays e (handle-Stays w s event g)))
  ]

  -- Whatever the configuration files hold, whatever /proc shows and whichever events arrive: from its
  -- start on the daemon's process map is valid, every priority that it asks the kernel for is in the
  -- range that the system call accepts, the configuration and the priorities that it keeps are too, and
  -- between two events the search for children has no process left to scan and no task left.
  pub run-start :
      (w : Moment) (paths : Option SchedPaths) (events : List (Moment × Event))
      → IsGood x (run x k f cpus (start x k f cpus w paths) events)
  run-start w paths events = run-IsGood _ events (start-IsGood w paths)
