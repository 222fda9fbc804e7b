-- ===== src/Daemon/Events/Good.antt =====
-- daemon/src/main.rs: the daemon's invariant, and what CPU profiles and configurations leave of it.
use system76_scheduler.Base.{
  All, All-append, Bool, List, Option, Option-cases, String, false, if◌then◌else◌, inl, inr, nat_eq,
  none, refl, some, string_eq, true, ℕ, ◌++◌,
}
use system76_scheduler.Config.Cfs.{CfsProfile}
use system76_scheduler.Config.Kdl.{Kdl}
use system76_scheduler.Config.Parser.Files.{ConfigFiles}
use system76_scheduler.Config.Parser.Whole.{default-IsSafe, read_config-IsSafe}
use system76_scheduler.Daemon.Bus.{CpuMode}
use system76_scheduler.Daemon.Cfs.{Floats, cfs_apply, cfs_on_battery, preempt_calls, tweak}
use system76_scheduler.Daemon.Events.{
  Moment, apply_battery, apply_cpu_mode, apply_custom, autogroup_set, reload,
}
use system76_scheduler.Externals.{Externals}
use system76_scheduler.Kernel.{Syscall}
use system76_scheduler.Kernel.Laws.{IsAccepted}
use system76_scheduler.Process.Table.Valid.{empty-IsValid}
use system76_scheduler.Service.Buffers.{Clear}
use system76_scheduler.Service.Safe.Processes.{Safe}
use system76_scheduler.Service.State.{SchedPaths, Service, new_service}
use system76_scheduler.Service.Valid.{Valid}

-- The invariant of the daemon
pub record IsGood (x : Externals) (s : Service) : Type 0 where
  pub valid : Valid x s
  pub safe : Safe s
  pub clear : Clear s

-- Calls that write to files
more_calls-IsGood :
    (x : Externals) (s : Service) (calls : List Syscall)
    → All IsAccepted calls
    → IsGood x s
    → IsGood x (record s { calls = s.calls ++ calls })
more_calls-IsGood x s calls h g = record {
  valid = g.valid;
  safe = record {
    config_safe = g.safe.config_safe;
    cells_safe = g.safe.cells_safe;
    calls_safe = All-append IsAccepted s.calls calls g.safe.calls_safe h;
  };
  clear = g.clear;
}

pub new_service-IsGood : {x : Externals} (paths : Option SchedPaths) → IsGood x (new_service paths)
unfolding new_service
new_service-IsGood {x} paths = record {
  valid = empty-IsValid x;
  safe = record { config_safe = default-IsSafe; cells_safe = tt; calls_safe = tt };
  clear = (refl, refl);
}

module _ (x : Externals) (k : Kdl) (f : Floats) (cpus : ℕ) where
  pub reload-IsGood :
      (files : ConfigFiles) (s : Service) → IsGood x s → IsGood x (reload x k files s)
  unfolding reload
  reload-IsGood files s g = record {
    valid = g.valid;
    safe = record {
      config_safe = read_config-IsSafe x k files;
      cells_safe = g.safe.cells_safe;
      calls_safe = g.safe.calls_safe;
    };
    clear = g.clear;
  }

  pub autogroup_set-IsGood : (s : Service) (b : Bool) → IsGood x s → IsGood x (autogroup_set s b)
  unfolding autogroup_set
  autogroup_set-IsGood s b g = more_calls-IsGood x s _ (tt, tt) g

  tweak-IsAccepted :
      (paths : SchedPaths) (conf : CfsProfile) → All IsAccepted (tweak f cpus paths conf)
  unfolding tweak
  tweak-IsAccepted paths conf = (tt, (tt, (tt, (tt, preempt paths.preempt))))
    where
      preempt : (path : Option String) → All IsAccepted (preempt_calls f path conf.preempt)
      preempt none = unfold preempt_calls in tt
      preempt (some path) = unfold preempt_calls in (tt, tt)

  pub if-IsGood :
      {s t : Service} (b : Bool) → IsGood x s → IsGood x t → IsGood x (if b then s else t)
  if-IsGood true g h = g
  if-IsGood false g h = h

  cfs_apply-IsGood :
      (s : Service) (conf : CfsProfile) → IsGood x s → IsGood x (cfs_apply f cpus s conf)
  unfolding cfs_apply
  cfs_apply-IsGood s conf g = elim (Option-cases s.cfs_paths) [
    | inl e ↦ rw (e, cfs_apply) g
    | inr (paths, e) ↦
        rw (e, cfs_apply)
          (if-IsGood s.config.cfs_profiles.enable
            (more_calls-IsGood x s _ (tweak-IsAccepted paths conf) g) g)
  ]

  pub cfs_on_battery-IsGood :
      (s : Service) (b : Bool) → IsGood x s → IsGood x (cfs_on_battery f cpus s b)
  unfolding cfs_on_battery
  cfs_on_battery-IsGood s b g = cfs_apply-IsGood s _ g

  pub apply_cpu_mode-IsGood :
      (w : Moment) (s : Service) (mode : CpuMode)
      → IsGood x s
      → IsGood x (apply_cpu_mode x k f cpus w s mode)
  unfolding apply_cpu_mode
  apply_cpu_mode-IsGood w s CpuMode.auto g = cfs_on_battery-IsGood s w.on_battery g
  apply_cpu_mode-IsGood w s CpuMode.default g = cfs_apply-IsGood s _ g
  apply_cpu_mode-IsGood w s CpuMode.responsive g = cfs_apply-IsGood s _ g
  apply_cpu_mode-IsGood w s CpuMode.custom g = g

  pub apply_battery-IsGood :
      (s : Service) (b : Bool) (mode : CpuMode)
      → IsGood x s
      → IsGood x (apply_battery x k f cpus s b mode)
  unfolding apply_battery
  apply_battery-IsGood s b CpuMode.auto g = cfs_on_battery-IsGood s b g
  apply_battery-IsGood s b CpuMode.default g = g
  apply_battery-IsGood s b CpuMode.responsive g = g
  apply_battery-IsGood s b CpuMode.custom g = g

  pub apply_custom-IsGood :
      (s : Service) (conf : Option CfsProfile)
      → IsGood x s
      → IsGood x (apply_custom x k f cpus s conf)
  unfolding apply_custom
  apply_custom-IsGood s none g = g
  apply_custom-IsGood s (some conf) g = cfs_apply-IsGood s conf g
