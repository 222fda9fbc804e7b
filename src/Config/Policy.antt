-- ===== src/Config/Policy.antt =====
-- config/src/scheduler/mod.rs: classes, policies, and levels that are clamped to their ranges.
use Prim.Native.Nat.{min, max}
use system76_scheduler.Base.{
  ℕ, ◌≤◌, String, ◌≡◌, Bool, true, false, Option, none, some, arith, ◌==◌, string_eq, if◌then◌else◌,
}
use system76_scheduler.Base.Int.{ℤ, pos, negsuc, min_ℤ, max_ℤ, ◌≤ℤ◌}

pub data IoClass : Type 0 where
  idle best_effort realtime : IoClass

-- `FromStr for IoClass`
pub io_class_from_str : String → Option IoClass
io_class_from_str s =
    if s == "idle"
    then some IoClass.idle
    else if s == "best-effort"
    then some IoClass.best_effort
    else if s == "realtime"
    then some IoClass.realtime
    else none

-- `IoPriority(u8)`
abbrev pub IoPriority : Type 0
IoPriority = ℕ

abbrev pub io_priority_default : IoPriority
io_priority_default = 7

pub io_priority_from : ℕ → IoPriority
io_priority_from level = min level 7

pub data IoPolicy : Type 0 where
  idle standard : IoPolicy
  best_effort realtime : IoPriority → IoPolicy

-- `Niceness(i8)`
abbrev pub Niceness : Type 0
Niceness = ℤ

unfoldable pub niceness_from : ℤ → Niceness
niceness_from level = max_ℤ (min_ℤ level (pos 19)) (negsuc 19)

pub data SchedPolicy : Type 0 where
  batch fifo idle other rr : SchedPolicy

-- `FromStr for SchedPolicy`
unfoldable pub sched_policy_from_str : String → Option SchedPolicy
sched_policy_from_str s =
    if s == "batch"
    then some SchedPolicy.batch
    else if s == "fifo"
    then some SchedPolicy.fifo
    else if s == "idle"
    then some SchedPolicy.idle
    else if s == "other"
    then some SchedPolicy.other
    else if s == "rr"
    then some SchedPolicy.rr
    else none

unfoldable pub is_realtime : SchedPolicy → Bool
is_realtime SchedPolicy.fifo = true
is_realtime SchedPolicy.rr = true
is_realtime _ = false

-- `SchedPriority(u8)`
abbrev pub SchedPriority : Type 0
SchedPriority = ℕ

abbrev pub sched_priority_default : SchedPriority
sched_priority_default = 1

unfoldable pub sched_priority_from : ℕ → SchedPriority
sched_priority_from level = max (min level 99) 1

-- `Scheduler`
pub record SchedulerChoice : Type 0 where
  pub policy : SchedPolicy
  pub priority : SchedPriority

-- Whatever the configuration says, a niceness lies in -20 .. 19.
pub niceness_from_bounds :
    (level : ℤ) → (negsuc 19 ≤ℤ niceness_from level) × (niceness_from level ≤ℤ pos 19)
unfolding niceness_from
niceness_from_bounds level = ground arith

-- A level in range is kept.
pub niceness_from_id :
    (level : ℤ) → negsuc 19 ≤ℤ level → level ≤ℤ pos 19 → niceness_from level ≡ level
unfolding niceness_from
niceness_from_id (pos n) lo hi = ground arith
niceness_from_id (negsuc n) lo hi = ground arith

-- Whatever the configuration says, a scheduling priority lies in 1 .. 99.
pub sched_priority_from_bounds :
    (level : ℕ) → (1 ≤ sched_priority_from level) × (sched_priority_from level ≤ 99)
unfolding sched_priority_from
sched_priority_from_bounds level = omega arith
