-- ===== src/Daemon/Cfs.antt =====
-- daemon/src/cfs/mod.rs, daemon/src/cfs/paths.rs, and the `cfs_` methods of daemon/src/service.rs.
pub mod Writes
use system76_scheduler.Base.{
  Bool, List, Option, String, [], if◌then◌else◌, nat_eq, none, some, string_eq, unwrap_or, ℕ, ◌%◌,
  ◌*◌, ◌++◌, ◌^◌, ◌∷◌,
}
use system76_scheduler.Base.Dict.{lookup}
use system76_scheduler.Config.Cfs.{CfsProfile, F64, f64_one, profile_default, profile_responsive}
use system76_scheduler.Kernel.{Syscall, write_number, write_text}
use system76_scheduler.Process.Files.{exists}
use system76_scheduler.Service.State.{SchedPaths, Service}

-- The operations on `f64` and the conversions of it that the code uses. Their rounding is left open.
pub record Floats : Type 0 where
  -- `value as f64` and `value as u64`
  pub from_u64 : ℕ → F64
  pub to_u64 : F64 → ℕ
  pub add : F64 → F64 → F64
  pub mul : F64 → F64 → F64
  pub div : F64 → F64 → F64
  pub ln : F64 → F64

-- The product of two `u64`, without overflow checks
unfoldable pub mul_u64 : ℕ → ℕ → ℕ
mul_u64 a b = a * b % 2 ^ 64

-- The bit pattern of 2.0
abbrev pub f64_two : F64
f64_two = 0x4000_0000_0000_0000

abbrev pub bandwidth_size_path : String
bandwidth_size_path = "/proc/sys/kernel/sched_cfs_bandwidth_slice_us"

abbrev pub preempt_path : String
preempt_path = "/sys/kernel/debug/sched/preempt"

abbrev pub debug_paths : SchedPaths
debug_paths = record {
  latency = "/sys/kernel/debug/sched/latency_ns";
  min_gran = "/sys/kernel/debug/sched/min_granularity_ns";
  wakeup_gran = "/sys/kernel/debug/sched/wakeup_granularity_ns";
  migration_cost = "/sys/kernel/debug/sched/migration_cost_ns";
  preempt = none;
}

abbrev pub proc_paths : SchedPaths
proc_paths = record {
  latency = "/proc/sys/kernel/sched_latency_ns";
  min_gran = "/proc/sys/kernel/sched_min_granularity_ns";
  wakeup_gran = "/proc/sys/kernel/sched_wakeup_granularity_ns";
  migration_cost = "/proc/sys/kernel/sched_migration_cost_ns";
  preempt = none;
}

with_preempt : (String → Bool) → SchedPaths → SchedPaths
with_preempt exists paths =
    if exists preempt_path then record paths { preempt = some preempt_path } else paths

-- `SchedPaths::new`, where `exists` is `Path::exists`
unfoldable pub new_paths : (String → Bool) → Option SchedPaths
unfolding with_preempt
new_paths exists =
    if exists debug_paths.latency
    then some (with_preempt exists debug_paths)
    else if exists proc_paths.latency
    then some (with_preempt exists proc_paths)
    else none

module _ (f : Floats) where
  -- `latency_modifier`
  unfoldable pub latency_modifier : F64 → ℕ
  latency_modifier nprocs =
      mul_u64 (10 ^ 6) (f.to_u64 (f.add f64_one (f.div (f.ln nprocs) (f.ln f64_two))))

  -- `if let Some(preempt_path) = paths.preempt`
  unfoldable pub preempt_calls : Option String → String → List Syscall
  preempt_calls none preempt = []
  preempt_calls (some path) preempt = write_text path preempt ∷ []

  -- `min_gran` and `wakeup_gran` of `tweak`
  unfoldable pub min_granularity : ℕ → CfsProfile → ℕ
  min_granularity modifier conf =
      f.to_u64
        (f.div (f.mul (f.from_u64 modifier) (f.from_u64 conf.latency)) (f.from_u64 conf.nr_latency))

  unfoldable pub wakeup_granularity : ℕ → CfsProfile → ℕ
  wakeup_granularity modifier conf = f.to_u64 (f.mul (f.from_u64 modifier) conf.wakeup_granularity)

  -- `tweak`, for a number of processors
  unfoldable pub tweak : ℕ → SchedPaths → CfsProfile → List Syscall
  unfolding preempt_calls
  tweak cpus paths conf =
      let modifier = latency_modifier (f.from_u64 cpus) in
      write_number paths.latency (mul_u64 modifier conf.latency)
      ∷ write_number paths.min_gran (min_granularity modifier conf)
      ∷ write_number paths.wakeup_gran (wakeup_granularity modifier conf)
      ∷ write_number bandwidth_size_path (mul_u64 conf.bandwidth_size 1000)
      ∷ preempt_calls paths.preempt conf.preempt

-- `Service::cfs_config`, `cfs_default_config` and `cfs_responsive_config`
unfoldable pub cfs_config : Service → String → Option CfsProfile
cfs_config s name = lookup name s.config.cfs_profiles.profiles

unfoldable pub cfs_default_config : Service → CfsProfile
unfolding cfs_config
cfs_default_config s = unwrap_or (cfs_config s "default") profile_default

unfoldable pub cfs_responsive_config : Service → CfsProfile
unfolding cfs_config
cfs_responsive_config s = unwrap_or (cfs_config s "responsive") profile_responsive

module _ (f : Floats) (cpus : ℕ) where
  -- `Service::cfs_apply`
  unfoldable pub cfs_apply : Service → CfsProfile → Service
  cfs_apply s conf = elim s.cfs_paths [
    | none ↦ s
    | some paths ↦
        if s.config.cfs_profiles.enable
        then record s { calls = s.calls ++ tweak f cpus paths conf }
        else s
  ]

  -- `Service::cfs_on_battery`
  unfoldable pub cfs_on_battery : Service → Bool → Service
  cfs_on_battery s on_battery =
      cfs_apply s (if on_battery then cfs_default_config s else cfs_responsive_config s)
