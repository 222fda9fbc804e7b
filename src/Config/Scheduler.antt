-- ===== src/Config/Scheduler.antt =====
-- config/src/scheduler/mod.rs and config/src/lib.rs: the process scheduler's configuration, and the whole.
use system76_scheduler.Base.{ℕ, Bool, false, Option, none}
use system76_scheduler.Config.Profile.{Profile}
use system76_scheduler.Config.Assignments.{Assignments, default_assignments}
use system76_scheduler.Config.Cfs.{CfsConfig, default_cfs_config}

pub record ForegroundAssignments : Type 0 where
  pub background : Profile
  pub foreground : Profile

pub record SchedulerConfig : Type 0 where
  pub enable : Bool
  pub execsnoop : Bool
  pub refresh_rate : ℕ
  pub assignments : Assignments
  pub foreground : Option ForegroundAssignments
  pub pipewire : Option Profile

abbrev pub default_scheduler_config : SchedulerConfig
default_scheduler_config = record {
  enable = false;
  execsnoop = false;
  refresh_rate = 60;
  assignments = default_assignments;
  foreground = none;
  pipewire = none;
}

pub record Config : Type 0 where
  pub autogroup_enabled : Bool
  pub cfs_profiles : CfsConfig
  pub process_scheduler : SchedulerConfig

abbrev pub default_config : Config
default_config = record {
  autogroup_enabled = false;
  cfs_profiles = default_cfs_config;
  process_scheduler = default_scheduler_config;
}
