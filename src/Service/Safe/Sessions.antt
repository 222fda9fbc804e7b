-- ===== src/Service/Safe/Sessions.antt =====
-- daemon/src/service.rs: foreground and pipewire processes are given priorities that the kernel accepts.
use system76_scheduler.Base.{
  Bool, List, Option, [], contains, false, if◌then◌else◌, nat_eq, none, refl, some, string_eq, true,
  ℕ, ◌++◌, ◌==◌, ◌∷◌, ◌≡◌,
}
use system76_scheduler.Base.Dict.{values}
use system76_scheduler.Config.Profile.{Profile}
use system76_scheduler.Config.Scheduler.{ForegroundAssignments}
use system76_scheduler.Externals.{Externals}
use system76_scheduler.Kernel.Laws.{IsInRange}
use system76_scheduler.Process.Cell.{Process, is_assignable, ro, write}
use system76_scheduler.Process.Files.{Procfs}
use system76_scheduler.Service.Apply.{
  process_assignment, process_descended_from, process_is_pipewire_assigned,
}
use system76_scheduler.Service.Foreground.{
  enter_background, enter_foreground, enter_foreground_process, foreground_all, foreground_one,
  is_foreground, set_foreground_process,
}
use system76_scheduler.Service.Pipewire.{
  enter_pipewire, mark_descendant, pipewire_all, pipewire_one, remove_first,
  remove_pipewire_process, restore_priority, set_pipewire_process, unpipe_all, unpipe_one,
}
use system76_scheduler.Service.Safe.Cells.{ro-CellSafe, write-OwnerSafe}
use system76_scheduler.Service.Safe.Children.{assign_children-Safe}
use system76_scheduler.Service.Safe.Processes.{Safe, set-Safe, with_owner-Safe}
use system76_scheduler.Service.State.{Service}

-- Fields that hold no profile do not count.
pub lists-Safe :
    {s : Service} (foreground pipewire : List ℕ) (pid : Option ℕ)
    → Safe s
    → Safe (record s {
      foreground_processes = foreground;
      pipewire_processes = pipewire;
      foreground = pid;
    })
lists-Safe foreground pipewire pid v = record {
  config_safe = v.config_safe;
  cells_safe = v.cells_safe;
  calls_safe = v.calls_safe;
}

-- Both branches of a test
if-Safe : {s t : Service} (b : Bool) → Safe s → Safe t → Safe (if b then s else t)
if-Safe true v w = v
if-Safe false v w = w

module _ (x : Externals) (fs : Procfs) where
  -- A pair of profiles that are both in range
  abbrev PairInRange : ForegroundAssignments → Type 0
  PairInRange a = IsInRange a.foreground × IsInRange a.background

  foreground_one-Safe :
      (assignments : ForegroundAssignments) (pid : ℕ) (s : Service) (a : ℕ)
      → PairInRange assignments
      → Safe s
      → Safe (foreground_one x fs assignments pid s a)
  unfolding foreground_one enter_foreground enter_background
  foreground_one-Safe assignments pid s a h v =
      if-Safe (is_assignable (process_assignment s (ro s.owner a).id))
        (if-Safe (is_foreground s pid (ro s.owner a))
          (if-Safe
            (process_is_pipewire_assigned
              (record s { foreground_processes = s.foreground_processes ++ (ro s.owner a).id ∷ [] })
              (ro s.owner a))
            entered-Safe
            (set-Safe x fs _ (ro s.owner a).id assignments.foreground h.0 entered-Safe))
          (if-Safe (process_is_pipewire_assigned s (ro s.owner a)) v
            (set-Safe x fs s (ro s.owner a).id assignments.background h.1 v)))
        v
    where
      entered-Safe :
          Safe
            (record s { foreground_processes = s.foreground_processes ++ (ro s.owner a).id ∷ [] })
      entered-Safe =
          lists-Safe (s.foreground_processes ++ (ro s.owner a).id ∷ []) s.pipewire_processes
            s.foreground v

  foreground_all-Safe :
      (assignments : ForegroundAssignments) (pid : ℕ) (s : Service) (cells : List ℕ)
      → PairInRange assignments
      → Safe s
      → Safe (foreground_all x fs assignments pid s cells)
  unfolding foreground_all
  foreground_all-Safe assignments pid s [] h v = v
  foreground_all-Safe assignments pid s (a ∷ rest) h v =
      foreground_all-Safe assignments pid (foreground_one x fs assignments pid s a) rest h
        (foreground_one-Safe assignments pid s a h v)

  pub set_foreground_process-Safe :
      (s : Service) (pid : ℕ) → Safe s → Safe (set_foreground_process x fs s pid)
  unfolding set_foreground_process
  set_foreground_process-Safe s pid v =
      let w = assign_children-Safe x fs s pid v in enter _ _ (w.config_safe.foreground_pair) w
    where
      enter :
          (t : Service) (f : Option ForegroundAssignments)
          → ((a : ForegroundAssignments) → f ≡ some a → PairInRange a)
          → Safe t
          → Safe (enter_foreground_process x fs t pid f)
      enter t none h w = unfold enter_foreground_process in w
      enter t (some a) h w =
          unfold enter_foreground_process in
          foreground_all-Safe a pid _ (values t.process_map.map) (h a refl)
            (lists-Safe (pid ∷ []) t.pipewire_processes (some pid) w)

  unmarked-Safe :
      (s : Service) (a : ℕ) (mark : Option ℕ)
      → Safe s
      → Safe (record s {
        owner = write s.owner a (record (ro s.owner a) { pipewire_ancestor = mark });
      })
  unmarked-Safe s a mark v =
      with_owner-Safe _ s.process_map
        (write-OwnerSafe s.owner a _ (ro-CellSafe s.owner a v.cells_safe) v.cells_safe) v

  pipewire_one-Safe :
      (profile : Profile) (process : ℕ) (s : Service) (a : ℕ)
      → IsInRange profile
      → Safe s
      → Safe (pipewire_one x fs profile process s a)
  unfolding pipewire_one mark_descendant
  pipewire_one-Safe profile process s a h v =
      if-Safe _
        (if-Safe ((ro s.owner a).id == process) (set-Safe x fs s process profile h v) (
          if-Safe (process_descended_from s (ro s.owner a) process)
            (set-Safe x fs _ (ro s.owner a).id profile h (unmarked-Safe s a (some process) v)) v))
        v

  pipewire_all-Safe :
      (profile : Profile) (process : ℕ) (s : Service) (cells : List ℕ)
      → IsInRange profile
      → Safe s
      → Safe (pipewire_all x fs profile process s cells)
  unfolding pipewire_all
  pipewire_all-Safe profile process s [] h v = v
  pipewire_all-Safe profile process s (a ∷ rest) h v =
      pipewire_all-Safe profile process (pipewire_one x fs profile process s a) rest h
        (pipewire_one-Safe profile process s a h v)

  pub set_pipewire_process-Safe :
      (s : Service) (process : ℕ) → Safe s → Safe (set_pipewire_process x fs s process)
  unfolding set_pipewire_process
  set_pipewire_process-Safe s process v =
      let w = assign_children-Safe x fs s process v in enter _ _ (w.config_safe.pipewire_profile) w
    where
      enter :
          (t : Service) (f : Option Profile)
          → ((q : Profile) → f ≡ some q → IsInRange q)
          → Safe t
          → Safe (enter_pipewire x fs t process f)
      enter t none h w = unfold enter_pipewire in w
      enter t (some q) h w =
          unfold enter_pipewire in
          if-Safe _ (pipewire_all-Safe q process t (values t.process_map.map) (h q refl) w) (
            if-Safe _ w (
              pipewire_all-Safe q process _ (values t.process_map.map) (h q refl) (
                lists-Safe t.foreground_processes (t.pipewire_processes ++ process ∷ [])
                  t.foreground w)))

  restore_priority-Safe :
      (s : Service) (p : Process) (f : Option ForegroundAssignments)
      → ((a : ForegroundAssignments) → f ≡ some a → PairInRange a)
      → Safe s
      → Safe (restore_priority x fs s p f)
  unfolding restore_priority
  restore_priority-Safe s p none h v = v
  restore_priority-Safe s p (some a) h v =
      if-Safe _ (set-Safe x fs s p.id _ (chosen (contains s.foreground_processes p.id)) v) v
    where
      chosen : (b : Bool) → IsInRange (if b then a.foreground else a.background)
      chosen true = (h a refl).0
      chosen false = (h a refl).1

  unpipe_one-Safe :
      (process : ℕ) (s : Service) (a : ℕ) → Safe s → Safe (unpipe_one x fs process s a)
  unfolding unpipe_one
  unpipe_one-Safe process s a v =
      if-Safe _
        (restore_priority-Safe _ (record (ro s.owner a) { pipewire_ancestor = none })
          s.config.process_scheduler.foreground v.config_safe.foreground_pair
          (unmarked-Safe s a none v))
        v

  unpipe_all-Safe :
      (process : ℕ) (s : Service) (cells : List ℕ) → Safe s → Safe (unpipe_all x fs process s cells)
  unfolding unpipe_all
  unpipe_all-Safe process s [] v = v
  unpipe_all-Safe process s (a ∷ rest) v =
      unpipe_all-Safe process (unpipe_one x fs process s a) rest (unpipe_one-Safe process s a v)

  pub remove_pipewire_process-Safe :
      (s : Service) (process : ℕ) → Safe s → Safe (remove_pipewire_process x fs s process)
  unfolding remove_pipewire_process
  remove_pipewire_process-Safe s process v =
      if-Safe _
        (unpipe_all-Safe process _ (values s.process_map.map) (
          lists-Safe s.foreground_processes (remove_first process s.pipewire_processes) s.foreground
            v))
        v
