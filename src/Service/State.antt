-- ===== src/Service/State.antt =====
-- daemon/src/service.rs, the state of the service.
use system76_scheduler.Base.{ℕ, String, Option, none, List, [], ◌++◌}
use system76_scheduler.Externals.{Externals}
use system76_scheduler.Config.Profile.{Profile}
use system76_scheduler.Config.Scheduler.{Config, default_config}
use system76_scheduler.Process.Cell.{Owner, empty_owner}
use system76_scheduler.Process.Table.{ProcessMap, empty_map}
use system76_scheduler.Process.Files.{Procfs}
use system76_scheduler.Kernel.{Syscall, set_calls}

-- daemon/src/cfs/paths.rs, `SchedPaths`
pub record SchedPaths : Type 0 where
  pub latency : String
  pub min_gran : String
  pub wakeup_gran : String
  pub migration_cost : String
  pub preempt : Option String

-- `calls` is not a field of the program: it is what the daemon has asked of the kernel so far.
pub record Service : Type 0 where
  pub config : Config
  pub assign_scan : List ℕ
  pub assign_scanned : List ℕ
  pub assign_tasks : List ℕ
  pub cfs_paths : Option SchedPaths
  pub foreground_processes : List ℕ
  pub foreground : Option ℕ
  pub gc_counter : ℕ
  pub owner : Owner
  pub pipewire_processes : List ℕ
  pub process_map : ProcessMap
  pub calls : List Syscall

-- `Service::new`
unfoldable pub new_service : Option SchedPaths → Service
new_service paths = record {
  config = default_config;
  assign_scan = [];
  assign_scanned = [];
  assign_tasks = [];
  cfs_paths = paths;
  foreground_processes = [];
  foreground = none;
  gc_counter = 0;
  owner = empty_owner;
  pipewire_processes = [];
  process_map = empty_map;
  calls = [];
}

-- `crate::priority::set(buffer, process, profile)`
unfoldable pub set : Externals → Procfs → Service → ℕ → Profile → Service
set x fs s process profile = record s { calls = s.calls ++ set_calls x fs process profile }
