-- ===== src/Service/Apply.antt =====
-- daemon/src/service.rs, `apply_process_priority` and the queries that it asks.
pub mod Stable
use system76_scheduler.Base.{
  ℕ, Bool, ◌||◌, Option, none, some, any, is_some, contains, ◌==◌, nat_eq, if◌then◌else◌,
}
use system76_scheduler.Externals.{Externals}
use system76_scheduler.Config.Profile.{Profile, new_profile}
use system76_scheduler.Config.Scheduler.{ForegroundAssignments}
use system76_scheduler.Process.Cell.{Priority, Process, ro, ancestors}
use system76_scheduler.Process.Table.{get_pid}
use system76_scheduler.Process.Files.{Procfs}
use system76_scheduler.Service.State.{Service, set}

-- `Service::process_assignment`
unfoldable pub process_assignment : Service → ℕ → Priority
process_assignment s pid = elim (get_pid s.process_map pid) [
  | none ↦ Priority.not_assignable
  | some a ↦ (ro s.owner a).assigned_priority
]

-- `Service::process_descended_from`
unfoldable pub process_descended_from : Service → Process → ℕ → Bool
process_descended_from s p ancestor =
    p.parent_id == ancestor
    || any (λ a. (ro s.owner a).id == ancestor || (ro s.owner a).parent_id == ancestor)
        (ancestors s.owner p)

-- `Service::process_is_pipewire_assigned`
unfoldable pub process_is_pipewire_assigned : Service → Process → Bool
process_is_pipewire_assigned s p = is_some p.pipewire_ancestor || contains s.pipewire_processes p.id

-- `process.id == *foreground || self.foreground_processes.contains(&process.id)`
unfoldable pub ground_profile : Service → Process → ForegroundAssignments → ℕ → Profile
ground_profile s p assignments foreground =
    if p.id == foreground || contains s.foreground_processes p.id
    then assignments.foreground
    else assignments.background

-- `if let (Some(assignments), Some(foreground))`, and its `else`
unfoldable pub foreground_or_default :
    Externals → Service → Process → Option ForegroundAssignments → Option ℕ → Profile
unfolding ground_profile
foreground_or_default x s p (some assignments) (some foreground) =
    ground_profile s p assignments foreground
foreground_or_default x s p _ _ = new_profile x "default"

-- The branch `Priority::Assignable`: the pipewire profile comes before the others.
unfoldable pub assignable_profile : Externals → Service → Process → Option Profile → Profile
unfolding foreground_or_default
assignable_profile x s p none =
    foreground_or_default x s p s.config.process_scheduler.foreground s.foreground
assignable_profile x s p (some pipewire) =
    if process_is_pipewire_assigned s p
    then pipewire
    else foreground_or_default x s p s.config.process_scheduler.foreground s.foreground

unfoldable pub profile_of : Externals → Service → Process → Priority → Option Profile
unfolding assignable_profile
profile_of x s p Priority.assignable =
    some (assignable_profile x s p s.config.process_scheduler.pipewire)
profile_of x s p (Priority.config profile) = some profile
profile_of x s p _ = none

-- `Service::apply_process_priority`
unfoldable pub apply_process_priority : Externals → Procfs → Service → Process → Service
unfolding profile_of
apply_process_priority x fs s p = elim (profile_of x s p p.assigned_priority) [
  | none ↦ s
  | some profile ↦ set x fs s p.id profile
]
