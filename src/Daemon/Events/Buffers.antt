-- ===== src/Daemon/Events/Buffers.antt =====
-- daemon/src/main.rs: the search for children in the daemon's states.
-- In every state that the daemon reaches, `assign_children` handles the process and all that /proc shows
-- to descend from it, each once and nothing else, as its tasks: its search ends, where the ID of every
-- process that is listed as a child is below `pid_max`.
use system76_scheduler.Base.{List, Option, [], contains, nat_eq, string_eq, true, ℕ, ◌<◌, ◌↔◌, ◌≡◌}
use system76_scheduler.Base.Distinct.{Distinct}
use system76_scheduler.Config.Kdl.{Kdl}
use system76_scheduler.Daemon.Bus.{Event}
use system76_scheduler.Daemon.Cfs.{Floats}
use system76_scheduler.Daemon.Events.{Moment, run, start}
use system76_scheduler.Daemon.Events.Accepted.{run-start}
use system76_scheduler.Externals.{Externals}
use system76_scheduler.Process.Files.{Procfs, children}
use system76_scheduler.Service.Children.{assign_children, assign_tasks}
use system76_scheduler.Service.Children.Scan.{Descends, assign_children-Descends}
use system76_scheduler.Service.State.{SchedPaths, Service}

pub run-assign_children :
    (x : Externals) (k : Kdl) (f : Floats) (cpus : ℕ) (w : Moment) (paths : Option SchedPaths)
    (events : List (Moment × Event)) (fs : Procfs) (pid : ℕ)
    → ((p a : ℕ) → contains (children x fs p) a ≡ true → a < fs.pid_max)
    → let s : Service = run x k f cpus (start x k f cpus w paths) events in
      (all : List ℕ) × (assign_children x fs s pid ≡ record (assign_tasks x fs s all) {
        assign_scan = [];
        assign_scanned = all;
        assign_tasks = [];
      })
      × Distinct all
      × ((a : ℕ) → (contains all a ≡ true) ↔ Descends x fs pid a)
run-assign_children x k f cpus w paths events fs pid below_max =
    let g = run-start x k f cpus w paths events in
    assign_children-Descends x fs pid below_max _ g.clear.0 g.clear.1
