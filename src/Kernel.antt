-- ===== src/Kernel.antt =====
-- daemon/src/priority.rs: the system calls that set a process's priority. What the daemon asks of the
-- kernel is a list of calls, in order; the code ignores their results.
pub mod Laws
use system76_scheduler.Base.{
  ℕ, ◌-◌, ◌^◌, String, Option, none, some, List, [], ◌∷◌, ◌++◌, ltb, if◌then◌else◌,
}
use system76_scheduler.Base.Int.{ℤ, pos, negsuc}
use system76_scheduler.Externals.{Externals}
use system76_scheduler.Config.Policy.{Niceness, SchedPolicy, SchedPriority, is_realtime}
use system76_scheduler.Config.Profile.{Class, Profile}
use system76_scheduler.Process.Files.{Procfs}

pub data Syscall : Type 0 where
  -- `libc::setpriority(PRIO_PROCESS, id, nice)`
  set_nice : ℕ → ℤ → Syscall
  -- `libc::sched_setscheduler(pid, policy, param)`
  set_scheduler : ℤ → SchedPolicy → ℕ → Syscall
  -- `ioprio::set_priority(Target::Process(pid), class)`
  set_io : ℤ → Class → Syscall
  -- `fs::File::create(path)` and `write!(file, "{}", value)`, of a number or a text
  write_number : String → ℕ → Syscall
  write_text : String → String → Syscall

-- `pid as i32`, of a `u32`
unfoldable pub as_i32 : ℕ → ℤ
as_i32 pid = if ltb pid (2 ^ 31) then pos pid else negsuc (2 ^ 32 - 1 - pid)

-- The priority in `sched_param`
unfoldable pub param_priority : SchedPolicy → SchedPriority → ℕ
param_priority policy priority = if is_realtime policy then priority else 0

-- `priority::set_policy`
unfoldable pub set_policy : ℕ → SchedPolicy → SchedPriority → Syscall
unfolding as_i32
set_policy pid policy priority = set_scheduler (as_i32 pid) policy (param_priority policy priority)

unfoldable pub nice_calls : ℕ → Option Niceness → List Syscall
nice_calls task none = []
nice_calls task (some nice) = set_nice task nice ∷ []

-- The loop's body, for one task
unfoldable pub task_calls : ℕ → Profile → List Syscall
unfolding nice_calls
task_calls task profile =
    nice_calls task profile.nice
    ++ (set_policy task profile.sched_policy profile.sched_priority
        ∷ set_io (as_i32 task) profile.io
        ∷ [])

-- The loop over the tasks: it returns at the first name that is no number.
unfoldable pub tasks_calls : Externals → Profile → List (List ℕ) → List Syscall
tasks_calls x profile [] = []
tasks_calls x profile (name ∷ rest) = elim (x.atoi name) [
  | none ↦ []
  | some task ↦ task_calls task profile ++ tasks_calls x profile rest
]

-- `priority::set`
unfoldable pub set_calls : Externals → Procfs → ℕ → Profile → List Syscall
set_calls x fs process profile = elim (fs.tasks process) [
  | none ↦ []
  | some tasks ↦ tasks_calls x profile tasks
]
