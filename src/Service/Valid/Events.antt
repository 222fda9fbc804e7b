-- ===== src/Service/Valid/Events.antt =====
-- daemon/src/service.rs: the invariant under the operations that the daemon's events call.
use system76_scheduler.Base.{
  ℕ, ◌≡◌, true, ltb, Option, none, some, List, [], ◌∷◌, arith, inl, inr, contains, nat_eq,
  Option-cases, Bool-cases, ==_iff,
}
use system76_scheduler.Externals.{Externals}
use system76_scheduler.Config.Scheduler.{ForegroundAssignments}
use system76_scheduler.Process.Cell.{Process, ro}
use system76_scheduler.Process.Table.{ProcessMap}
use system76_scheduler.Process.Table.Valid.{IsValid, drain_filter-IsValid}
use system76_scheduler.Process.Files.{Procfs}
use system76_scheduler.Service.State.{Service, set}
use system76_scheduler.Service.Assign.{assign_process_priority}
use system76_scheduler.Service.Apply.{apply_process_priority}
use system76_scheduler.Service.Foreground.{
  foreground_one, foreground_all, enter_foreground_process, set_foreground_process,
}
use system76_scheduler.Service.Refresh.{
  drain_service, scan_processes, reassign, refresh_assignments, refresh_foreground,
  process_map_refresh, collect_garbage, garbage_clean,
}
use system76_scheduler.Service.Valid.{
  IsAlive, Valid, apply-owner, assign-IsValid, assign-IsAlive, assign_children-Valid,
}
use system76_scheduler.Service.Valid.Keep.{
  keep_processes-Valid, prepare-Valid, link_parents-IsValid,
}

module _ (x : Externals) (fs : Procfs) where
  foreground_one-Valid :
      (assignments : ForegroundAssignments) (pid : ℕ) (s : Service) (a : ℕ)
      → Valid x s
      → Valid x (foreground_one x fs assignments pid s a)
  foreground_one-Valid assignments pid s a v = rw (same.0, same.1) v
    where
      same :
          ((foreground_one x fs assignments pid s a).owner ≡ s.owner)
          × ((foreground_one x fs assignments pid s a).process_map ≡ s.process_map)
      same = unfold foreground_one set in ground arith

  foreground_all-Valid :
      (assignments : ForegroundAssignments) (pid : ℕ) (s : Service) (cells : List ℕ)
      → Valid x s
      → Valid x (foreground_all x fs assignments pid s cells)
  unfolding foreground_all
  foreground_all-Valid assignments pid s [] v = v
  foreground_all-Valid assignments pid s (a ∷ rest) v =
      foreground_all-Valid assignments pid (foreground_one x fs assignments pid s a) rest
        (foreground_one-Valid assignments pid s a v)

  pub set_foreground_process-Valid :
      (s : Service) (pid : ℕ) → Valid x s → Valid x (set_foreground_process x fs s pid)
  unfolding set_foreground_process
  set_foreground_process-Valid s pid v = enter _ _ (assign_children-Valid x fs s pid v)
    where
      enter :
          (t : Service) (a : Option ForegroundAssignments)
          → Valid x t
          → Valid x (enter_foreground_process x fs t pid a)
      enter t none w = unfold enter_foreground_process in w
      enter t (some assignments) w =
          unfold enter_foreground_process in foreground_all-Valid assignments pid _ _ w

  scan_processes-Valid :
      (s : Service) (ps : List Process) → Valid x s → Valid x (scan_processes x fs s ps)
  unfolding scan_processes drain_service
  scan_processes-Valid s ps v =
      drain_filter-IsValid x _ _ (link_parents-IsValid x _ _ _ (keep_processes-Valid x s ps v))

  reassign-IsValid :
      (s : Service) (m : ProcessMap) (cells : List ℕ)
      → ((b : ℕ) → contains cells b ≡ true → IsAlive s.owner b)
      → IsValid x s.owner m
      → IsValid x (reassign x fs s cells).owner m
  unfolding reassign
  reassign-IsValid s m [] alive v = v
  reassign-IsValid s m (a ∷ rest) alive v =
      reassign-IsValid
        (apply_process_priority x fs (assign_process_priority x s a)
          (ro (assign_process_priority x s a).owner a))
        m rest
        (λ b h. rw (apply-owner x fs _ _).0 (assign-IsAlive x s a b (alive b (ground arith))))
        (rw (apply-owner x fs _ _).0
          (assign-IsValid x s m a (alive a (ground (arith, ==_iff a a))) v))

  refresh_assignments-Valid : (s : Service) → Valid x s → Valid x (refresh_assignments x fs s)
  unfolding refresh_assignments
  refresh_assignments-Valid s v = reassign-IsValid _ s.process_map _ v.alive v

  pub process_map_refresh-Valid : (s : Service) → Valid x s → Valid x (process_map_refresh x fs s)
  unfolding process_map_refresh
  process_map_refresh-Valid s v = elim (Option-cases fs.entries) [
    | inl e ↦ rw (e, process_map_refresh) (prepare-Valid x s v)
    | inr (names, e) ↦
        rw (e, process_map_refresh)
          (restart _ _
            (refresh_assignments-Valid _ (scan_processes-Valid _ _ (prepare-Valid x s v))))
  ]
    where
      restart : (t : Service) (f : Option ℕ) → Valid x t → Valid x (refresh_foreground x fs t f)
      restart t none w = unfold refresh_foreground in w
      restart t (some pid) w = unfold refresh_foreground in set_foreground_process-Valid _ pid w

  collect_garbage-Valid : (s : Service) → Valid x s → Valid x (collect_garbage x fs s)
  unfolding collect_garbage drain_service
  collect_garbage-Valid s v = elim (Option-cases fs.entries) [
    | inl e ↦ rw (e, collect_garbage) v
    | inr (names, e) ↦
        rw (e, collect_garbage)
          (drain_filter-IsValid x _ _ (keep_processes-Valid x _ _ (prepare-Valid x s v)))
  ]

  pub garbage_clean-Valid : (s : Service) → Valid x s → Valid x (garbage_clean x fs s)
  unfolding garbage_clean
  garbage_clean-Valid s v = elim (Bool-cases (ltb s.gc_counter 2048)) [
    | inl e ↦ rw e v
    | inr e ↦ rw e (collect_garbage-Valid _ v)
  ]
