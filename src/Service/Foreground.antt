-- ===== src/Service/Foreground.antt =====
-- daemon/src/service.rs, `set_foreground_process`.
pub mod Plan
use system76_scheduler.Base.{
  Bool, List, Option, [], if◌then◌else◌, nat_eq, none, some, string_eq, ℕ, ◌++◌, ◌==◌, ◌||◌, ◌∷◌,
}
use system76_scheduler.Base.Dict.{values}
use system76_scheduler.Config.Scheduler.{ForegroundAssignments}
use system76_scheduler.Externals.{Externals}
use system76_scheduler.Process.Cell.{Process, is_assignable, ro}
use system76_scheduler.Process.Files.{Procfs}
use system76_scheduler.Service.Apply.{
  process_assignment, process_descended_from, process_is_pipewire_assigned,
}
use system76_scheduler.Service.Children.{assign_children}
use system76_scheduler.Service.State.{Service, set}

-- `process.id == pid || self.process_descended_from(process, pid)`
unfoldable pub is_foreground : Service → ℕ → Process → Bool
is_foreground s pid p = p.id == pid || process_descended_from s p pid

module _ (x : Externals) (fs : Procfs) where
  -- The branch of a foreground process
  unfoldable pub enter_foreground : ForegroundAssignments → Service → Process → Service
  enter_foreground assignments s p =
      let s' : Service = record s { foreground_processes = s.foreground_processes ++ p.id ∷ [] } in
      if process_is_pipewire_assigned s' p then s' else set x fs s' p.id assignments.foreground

  -- The branch of any other process
  unfoldable pub enter_background : ForegroundAssignments → Service → Process → Service
  enter_background assignments s p =
      if process_is_pipewire_assigned s p then s else set x fs s p.id assignments.background

  -- The loop's body
  unfoldable pub foreground_one : ForegroundAssignments → ℕ → Service → ℕ → Service
  unfolding is_foreground enter_foreground enter_background
  foreground_one assignments pid s a =
      if is_assignable (process_assignment s (ro s.owner a).id)
      then if is_foreground s pid (ro s.owner a)
        then enter_foreground assignments s (ro s.owner a)
        else enter_background assignments s (ro s.owner a)
      else s

  unfoldable pub foreground_all : ForegroundAssignments → ℕ → Service → List ℕ → Service
  foreground_all assignments pid s [] = s
  foreground_all assignments pid s (a ∷ rest) =
      foreground_all assignments pid (foreground_one assignments pid s a) rest

  -- From the test of the configuration on
  unfoldable pub enter_foreground_process : Service → ℕ → Option ForegroundAssignments → Service
  enter_foreground_process s pid none = s
  enter_foreground_process s pid (some assignments) =
      foreground_all assignments pid
        (record s { foreground = some pid; foreground_processes = pid ∷ [] })
        (values s.process_map.map)

  -- `Service::set_foreground_process`
  unfoldable pub set_foreground_process : Service → ℕ → Service
  set_foreground_process s pid =
      let s' : Service = assign_children x fs s pid in
      enter_foreground_process s' pid s'.config.process_scheduler.foreground
