-- ===== src/Service/Buffers.antt =====
-- daemon/src/service.rs: the buffers of the search for children are empty between the operations.
use system76_scheduler.Base.{
  Bool-cases, List, Option, Option-cases, String, [], arith, contains, inl, inr, ltb, nat_eq, none,
  refl, some, string_eq, ℕ, ◌++◌, ◌∷◌, ◌≡◌,
}
use system76_scheduler.Base.Dict.{values}
use system76_scheduler.Config.Profile.{Profile}
use system76_scheduler.Config.Scheduler.{ForegroundAssignments}
use system76_scheduler.Externals.{Externals}
use system76_scheduler.Process.Cell.{Process, is_not_assignable, ro}
use system76_scheduler.Process.Files.{Procfs}
use system76_scheduler.Process.Table.{get_pid}
use system76_scheduler.Service.Apply.{apply_process_priority, profile_of}
use system76_scheduler.Service.Assign.{assign_process_priority}
use system76_scheduler.Service.Children.{assign_children, assign_new_process, enter_process}
use system76_scheduler.Service.Children.Induction.{assign_children-keeps, assign_new_process-keeps}
use system76_scheduler.Service.Foreground.{
  enter_foreground_process, foreground_all, foreground_one, set_foreground_process,
}
use system76_scheduler.Service.Pipewire.{
  enter_pipewire, pipewire_all, pipewire_one, refuses_pipewire, remove_first,
  remove_pipewire_process, set_pipewire_process, unpipe_all, unpipe_one,
}
use system76_scheduler.Service.Refresh.{
  collect_garbage, drain_service, garbage_clean, keep_process, keep_processes, process_map_insert,
  process_map_refresh, reassign, refresh_assignments, refresh_foreground, scan_processes,
}
use system76_scheduler.Service.Safe.Cells.{CellSafe}
use system76_scheduler.Service.State.{Service, set}

abbrev pub Clear : Service → Type 0
Clear s = (s.assign_scan ≡ []) × (s.assign_tasks ≡ [])

module _ (x : Externals) (fs : Procfs) where
  set-Clear : (s : Service) (pid : ℕ) (p : Profile) → Clear s → Clear (set x fs s pid p)
  unfolding set
  set-Clear s pid p c = c

  assign-Clear : (s : Service) (a : ℕ) → Clear s → Clear (assign_process_priority x s a)
  unfolding assign_process_priority
  assign-Clear s a c = elim (Bool-cases (is_not_assignable (ro s.owner a).assigned_priority)) [
    | inl e ↦ rw e c
    | inr e ↦ rw e c
  ]

  apply-Clear : (s : Service) (p : Process) → Clear s → Clear (apply_process_priority x fs s p)
  unfolding apply_process_priority set
  apply-Clear s p c = elim (Option-cases (profile_of x s p p.assigned_priority)) [
    | inl e ↦ rw (e, apply_process_priority) c
    | inr (profile, e) ↦ rw (e, apply_process_priority) c
  ]

  enter_process-Clear :
      (s : Service) (p : Process) → CellSafe p → Clear s → Clear (enter_process x fs s p)
  unfolding enter_process
  enter_process-Clear s p h c = apply-Clear _ _ (assign-Clear _ _ c)

  pub assign_new_process-Clear :
      (s : Service) (pid parent_pid : ℕ) (name line : String)
      → Clear s
      → Clear (assign_new_process x fs s pid parent_pid name line)
  assign_new_process-Clear = assign_new_process-keeps x fs Clear enter_process-Clear

  pub assign_children-Clear : (s : Service) (pid : ℕ) → Clear s → Clear (assign_children x fs s pid)
  assign_children-Clear =
      assign_children-keeps x fs Clear enter_process-Clear (λ s done c. (refl, refl))

  foreground_all-Clear :
      (assignments : ForegroundAssignments) (pid : ℕ) (s : Service) (cells : List ℕ)
      → Clear s
      → Clear (foreground_all x fs assignments pid s cells)
  unfolding foreground_all
  foreground_all-Clear assignments pid s [] c = c
  foreground_all-Clear assignments pid s (a ∷ rest) c =
      foreground_all-Clear assignments pid (foreground_one x fs assignments pid s a) rest one
    where
      one : Clear (foreground_one x fs assignments pid s a)
      one = unfold foreground_one set in (ground (arith, c), ground (arith, c))

  pub set_foreground_process-Clear :
      (s : Service) (pid : ℕ) → Clear s → Clear (set_foreground_process x fs s pid)
  unfolding set_foreground_process
  set_foreground_process-Clear s pid c = enter _ _ (assign_children-Clear s pid c)
    where
      enter :
          (t : Service) (f : Option ForegroundAssignments)
          → Clear t
          → Clear (enter_foreground_process x fs t pid f)
      enter t none d = unfold enter_foreground_process in d
      enter t (some a) d = unfold enter_foreground_process in foreground_all-Clear a pid _ _ d

  pipewire_all-Clear :
      (profile : Profile) (process : ℕ) (s : Service) (cells : List ℕ)
      → Clear s
      → Clear (pipewire_all x fs profile process s cells)
  unfolding pipewire_all
  pipewire_all-Clear profile process s [] c = c
  pipewire_all-Clear profile process s (a ∷ rest) c =
      pipewire_all-Clear profile process (pipewire_one x fs profile process s a) rest one
    where
      one : Clear (pipewire_one x fs profile process s a)
      one = unfold pipewire_one set in (ground (arith, c), ground (arith, c))

  pub set_pipewire_process-Clear :
      (s : Service) (process : ℕ) → Clear s → Clear (set_pipewire_process x fs s process)
  unfolding set_pipewire_process enter_pipewire
  set_pipewire_process-Clear s process c = enter _ _ (assign_children-Clear s process c)
    where
      enter : (t : Service) (f : Option Profile) → Clear t → Clear (enter_pipewire x fs t process f)
      enter t none d = unfold enter_pipewire in d
      enter t (some q) d = elim (Bool-cases (contains t.pipewire_processes process)) [
        | inl e ↦
            rw (e, enter_pipewire) (pipewire_all-Clear q process t (values t.process_map.map) d)
        | inr e ↦ elim (Bool-cases (refuses_pipewire t (get_pid t.process_map process))) [
          | inl f ↦ rw (e, f, enter_pipewire) d
          | inr f ↦
              rw (e, f, enter_pipewire)
                (pipewire_all-Clear q process
                  (record t { pipewire_processes = t.pipewire_processes ++ process ∷ [] })
                  (values t.process_map.map) d)
        ]
      ]

  unpipe_all-Clear :
      (process : ℕ) (s : Service) (cells : List ℕ)
      → Clear s
      → Clear (unpipe_all x fs process s cells)
  unfolding unpipe_all
  unpipe_all-Clear process s [] c = c
  unpipe_all-Clear process s (a ∷ rest) c =
      unpipe_all-Clear process (unpipe_one x fs process s a) rest one
    where
      one : Clear (unpipe_one x fs process s a)
      one = unfold unpipe_one set in (ground (arith, c), ground (arith, c))

  pub remove_pipewire_process-Clear :
      (s : Service) (process : ℕ) → Clear s → Clear (remove_pipewire_process x fs s process)
  unfolding remove_pipewire_process
  remove_pipewire_process-Clear s process c =
      elim (Bool-cases (contains s.pipewire_processes process)) [
        | inl e ↦ rw e (
            unpipe_all-Clear process
              (record s { pipewire_processes = remove_first process s.pipewire_processes })
              (values s.process_map.map) c)
        | inr e ↦ rw e c
      ]

  keep_processes-Clear : (s : Service) (ps : List Process) → Clear s → Clear (keep_processes x s ps)
  unfolding keep_processes keep_process process_map_insert
  keep_processes-Clear s [] c = c
  keep_processes-Clear s (p ∷ ps) c = keep_processes-Clear (keep_process x s p) ps c

  reassign-Clear : (s : Service) (cells : List ℕ) → Clear s → Clear (reassign x fs s cells)
  unfolding reassign
  reassign-Clear s [] c = c
  reassign-Clear s (a ∷ rest) c =
      reassign-Clear
        (apply_process_priority x fs (assign_process_priority x s a)
          (ro (assign_process_priority x s a).owner a))
        rest (apply-Clear _ _ (assign-Clear s a c))

  refresh_foreground-Clear :
      (s : Service) (f : Option ℕ) → Clear s → Clear (refresh_foreground x fs s f)
  unfolding refresh_foreground
  refresh_foreground-Clear s none c = c
  refresh_foreground-Clear s (some pid) c = set_foreground_process-Clear _ pid c

  pub process_map_refresh-Clear : (s : Service) → Clear s → Clear (process_map_refresh x fs s)
  unfolding process_map_refresh scan_processes refresh_assignments drain_service
  process_map_refresh-Clear s c = elim (Option-cases fs.entries) [
    | inl e ↦ rw (e, process_map_refresh) c
    | inr (names, e) ↦
        rw (e, process_map_refresh)
          (refresh_foreground-Clear _ _ (reassign-Clear _ _ (keep_processes-Clear _ _ c)))
  ]

  collect_garbage-Clear : (s : Service) → Clear s → Clear (collect_garbage x fs s)
  unfolding collect_garbage drain_service
  collect_garbage-Clear s c = elim (Option-cases fs.entries) [
    | inl e ↦ rw (e, collect_garbage) c
    | inr (names, e) ↦ rw (e, collect_garbage) (keep_processes-Clear _ _ c)
  ]

  pub garbage_clean-Clear : (s : Service) → Clear s → Clear (garbage_clean x fs s)
  unfolding garbage_clean
  garbage_clean-Clear s c = elim (Bool-cases (ltb s.gc_counter 2048)) [
    | inl e ↦ rw e c
    | inr e ↦ rw e (collect_garbage-Clear (record s { gc_counter = 0 }) c)
  ]
