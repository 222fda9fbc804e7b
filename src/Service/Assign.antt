-- ===== src/Service/Assign.antt =====
-- daemon/src/service.rs, `assign_process_priority`.
pub mod Precedence
pub mod Stable
use system76_scheduler.Base.{ℕ, Bool, Option, none, some, List, ◌∷◌, if◌then◌else◌, string_eq}
use system76_scheduler.Base.Dict.{values}
use system76_scheduler.Base.Text.{is_empty_text}
use system76_scheduler.Externals.{Externals}
use system76_scheduler.Config.Assignments.{get_by_name, get_by_cmdline}
use system76_scheduler.Process.Cell.{Priority, is_not_assignable, Process, Owner, ro, write}
use system76_scheduler.Service.State.{Service}
use system76_scheduler.Service.Conditions.{process_is_exception, scan_conditions}

module _ (x : Externals) where
  -- From the test of the cgroup on
  unfoldable pub priority_by_conditions : Service → Process → Priority
  priority_by_conditions s p =
      if is_empty_text p.cgroup
      then Priority.not_assignable
      else scan_conditions x s.owner p (values s.config.process_scheduler.assignments.conditions)

  -- The closure that computes the priority
  unfoldable pub priority_of : Service → Process → Priority
  priority_of s p =
      if process_is_exception x s p
      then Priority.exception
      else elim (get_by_cmdline s.config.process_scheduler.assignments p.cmdline) [
        | some profile ↦ Priority.config profile
        | none ↦ elim (get_by_name s.config.process_scheduler.assignments p.name) [
          | some profile ↦ Priority.config profile
          | none ↦ priority_by_conditions s p
        ]
      ]

  -- `Service::assign_process_priority`
  unfoldable pub assign_process_priority : Service → ℕ → Service
  assign_process_priority s a =
      if is_not_assignable (ro s.owner a).assigned_priority
      then record s {
        owner =
            write s.owner a
              (record (ro s.owner a) { assigned_priority = priority_of s (ro s.owner a) });
      }
      else s
