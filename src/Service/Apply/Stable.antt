-- ===== src/Service/Apply/Stable.antt =====
-- daemon/src/service.rs, `apply_process_priority`: what the profile of a process depends on.
use system76_scheduler.Base.{
  Option, ap, contains, if◌then◌else◌, is_some, nat_eq, none, refl, some, string_eq, ℕ, ◌||◌, ◌≡◌,
}
use system76_scheduler.Config.Profile.{Profile}
use system76_scheduler.Config.Scheduler.{ForegroundAssignments}
use system76_scheduler.Externals.{Externals}
use system76_scheduler.Process.Cell.{Priority, Process}
use system76_scheduler.Process.Cell.Alike.{without_priority}
use system76_scheduler.Service.Apply.{
  assignable_profile, foreground_or_default, ground_profile, process_is_pipewire_assigned,
  profile_of,
}
use system76_scheduler.Service.State.{Service, new_service}

-- What of the service and of the process is read
abbrev pub only : Service → Service
only s = record (new_service none) {
  config = s.config;
  foreground_processes = s.foreground_processes;
  foreground = s.foreground;
  pipewire_processes = s.pipewire_processes;
}

module _ (x : Externals) (s : Service) (p : Process) where
  foreground_or_default-only :
      (assignments : Option ForegroundAssignments) (foreground : Option ℕ)
      → foreground_or_default x s p assignments foreground
        ≡ foreground_or_default x (only s) (without_priority p) assignments foreground
  unfolding foreground_or_default ground_profile
  foreground_or_default-only none foreground = refl
  foreground_or_default-only (some assignments) none = refl
  foreground_or_default-only (some assignments) (some foreground) = refl

  assignable_profile-only :
      (pipewire : Option Profile)
      → assignable_profile x s p pipewire
        ≡ assignable_profile x (only s) (without_priority p) pipewire
  unfolding assignable_profile process_is_pipewire_assigned
  assignable_profile-only none = foreground_or_default-only _ _
  assignable_profile-only (some pipewire) =
      ap
        (λ (other : Profile).
          if is_some p.pipewire_ancestor || contains s.pipewire_processes p.id
          then pipewire
          else other)
        (foreground_or_default-only s.config.process_scheduler.foreground s.foreground)

  pub profile_of-only :
      (priority : Priority)
      → profile_of x s p priority ≡ profile_of x (only s) (without_priority p) priority
  unfolding profile_of
  profile_of-only Priority.assignable =
      ap some (assignable_profile-only s.config.process_scheduler.pipewire)
  profile_of-only (Priority.config profile) = refl
  profile_of-only Priority.exception = refl
  profile_of-only Priority.not_assignable = refl
