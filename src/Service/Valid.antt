-- ===== src/Service/Valid.antt =====
-- daemon/src/service.rs: every operation of the service keeps the invariant of the process map.
pub mod Keep
pub mod Pipewire
pub mod Events
use system76_scheduler.Base.{
  ℕ, suc, ◌≡◌, refl, Bool, true, false, Option, none, some, List, [], ◌∷◌, String, arith, is_some,
  inl, inr, contains, nat_eq, Option-cases, Bool-cases, ==_iff,
}
use system76_scheduler.Base.Dict.{Dict, values, lookup, lookup-insert, contains-values_of_lookup}
use system76_scheduler.Externals.{Externals}
use system76_scheduler.Config.Profile.{Profile}
use system76_scheduler.Config.Scheduler.{ForegroundAssignments}
use system76_scheduler.Process.Cell.{is_not_assignable, Process, Owner, ro, write, hash_id}
use system76_scheduler.Process.Table.{
  ProcessMap, get_pid, insert_process, drain_filter, drain_filter_prepare, retain_process_tree,
}
use system76_scheduler.Process.Table.Valid.{
  IsValid, write-IsValid, insert_process-IsValid, drain_filter-IsValid, set_drain-IsValid,
}
use system76_scheduler.Process.Table.Drain.{lookup-insert_process_self}
use system76_scheduler.Process.Files.{Procfs, parent_id, cmdline}
use system76_scheduler.Service.State.{Service, set}
use system76_scheduler.Service.Assign.{priority_of, assign_process_priority}
use system76_scheduler.Service.Apply.{apply_process_priority}
use system76_scheduler.Service.Children.{
  note_pipewire, enter_process, assign_new_process, assign_task, assign_tasks, assign_children,
  scan_loop,
}

abbrev pub IsAlive : Owner → ℕ → Type 0
IsAlive o a = is_some (lookup a o.cells) ≡ true

pub write-IsAlive : (o : Owner) (a b : ℕ) (p : Process) → IsAlive o b → IsAlive (write o a p) b
unfolding write
write-IsAlive o a b p h = ground (arith, lookup-insert a b p o.cells)

pub apply-owner :
    (x : Externals) (fs : Procfs) (s : Service) (p : Process)
    → ((apply_process_priority x fs s p).owner ≡ s.owner)
      × ((apply_process_priority x fs s p).process_map ≡ s.process_map)
unfolding apply_process_priority set
apply-owner x fs s p = ground arith

module _ (x : Externals) where
  pub assign-IsAlive :
      (s : Service) (a b : ℕ) → IsAlive s.owner b → IsAlive (assign_process_priority x s a).owner b
  unfolding assign_process_priority
  assign-IsAlive s a b h = ground (
    arith,
    write-IsAlive s.owner a b
        (record (ro s.owner a) { assigned_priority = priority_of x s (ro s.owner a) }) h,
  )

  pub assign-IsValid :
      (s : Service) (m : ProcessMap) (a : ℕ)
      → IsAlive s.owner a
      → IsValid x s.owner m
      → IsValid x (assign_process_priority x s a).owner m
  unfolding assign_process_priority hash_id
  assign-IsValid s m a alive v =
      elim (Bool-cases (is_not_assignable (ro s.owner a).assigned_priority)) [
        | inl e ↦ rw e (write-IsValid x s.owner m a _ alive refl refl v)
        | inr e ↦ rw e v
      ]

  note_pipewire-IsValid :
      (o : Owner) (m : ProcessMap) (a : ℕ) (found : Option ℕ)
      → IsAlive o a
      → IsValid x o m
      → IsValid x (note_pipewire o a found) m
  unfolding note_pipewire hash_id
  note_pipewire-IsValid o m a none alive v = v
  note_pipewire-IsValid o m a (some ancestor) alive v = write-IsValid x o m a _ alive refl refl v

  -- The invariant of a service
  abbrev pub Valid : Service → Type 0
  Valid s = IsValid x s.owner s.process_map

  apply-Valid :
      (fs : Procfs) (s : Service) (p : Process) → Valid s → Valid (apply_process_priority x fs s p)
  apply-Valid fs s p v = rw ((apply-owner x fs s p).0, (apply-owner x fs s p).1) v

  assign-process_map :
      (s : Service) (a : ℕ) → (assign_process_priority x s a).process_map ≡ s.process_map
  unfolding assign_process_priority
  assign-process_map s a = ground arith

  assign-Valid :
      (s : Service) (a : ℕ) → IsAlive s.owner a → Valid s → Valid (assign_process_priority x s a)
  assign-Valid s a alive v = rw (assign-process_map s a) (assign-IsValid s s.process_map a alive v)

  note_pipewire-IsAlive :
      (o : Owner) (a b : ℕ) (found : Option ℕ) → IsAlive o b → IsAlive (note_pipewire o a found) b
  unfolding note_pipewire
  note_pipewire-IsAlive o a b none h = h
  note_pipewire-IsAlive o a b (some ancestor) h = write-IsAlive o a b _ h

  insert_process-IsAlive :
      (o : Owner) (m : ProcessMap) (p : Process)
      → IsValid x o m
      → IsAlive (insert_process x o m p).0 (insert_process x o m p).2
  insert_process-IsAlive o m p v =
      ((insert_process-IsValid x o m p v).map_cell _ _ (lookup-insert_process_self x o m p)).0

  module _ (fs : Procfs) where
    pub enter_process-Valid : (s : Service) (p : Process) → Valid s → Valid (enter_process x fs s p)
    unfolding enter_process
    enter_process-Valid s p v = apply-Valid fs _ _ (
        assign-Valid _ _
          (note_pipewire-IsAlive _ _ _ _ (insert_process-IsAlive s.owner s.process_map p v))
          (note_pipewire-IsValid _ _ _ _ (insert_process-IsAlive s.owner s.process_map p v)
            (insert_process-IsValid x s.owner s.process_map p v)))

    pub assign_new_process-Valid :
        (s : Service) (pid parent_pid : ℕ) (name line : String)
        → Valid s
        → Valid (assign_new_process x fs s pid parent_pid name line)
    unfolding assign_new_process
    assign_new_process-Valid s pid parent_pid name line v = enter_process-Valid s _ v

    assign_task-Valid : (s : Service) (pid : ℕ) → Valid s → Valid (assign_task x fs s pid)
    unfolding assign_task
    assign_task-Valid s pid v = elim (Option-cases (get_pid s.process_map pid)) [
      | inr (a, e) ↦ rw (e, assign_task) v
      | inl e ↦
          rw (e, assign_task)
            (elim (Option-cases (parent_id x fs pid)) [
              | inl f ↦ rw f v
              | inr (ppid, f) ↦ rw f (elim (Option-cases (cmdline fs pid)) [
                | inl g ↦ rw g v
                | inr (line, g) ↦ rw g (assign_new_process-Valid s pid ppid _ line v)
              ])
            ])
    ]

    assign_tasks-Valid : (s : Service) (pids : List ℕ) → Valid s → Valid (assign_tasks x fs s pids)
    unfolding assign_tasks
    assign_tasks-Valid s [] v = v
    assign_tasks-Valid s (pid ∷ pids) v =
        assign_tasks-Valid (assign_task x fs s pid) pids (assign_task-Valid s pid v)

    pub assign_children-Valid :
        (s : Service) (pid : ℕ) → Valid s → Valid (assign_children x fs s pid)
    unfolding assign_children
    assign_children-Valid s pid v =
        elim (Option-cases
          (scan_loop x fs (suc (suc fs.pid_max)) (pid ∷ s.assign_scan) [] s.assign_tasks)) [
            | inl e ↦ rw (e, assign_children) v
            | inr (r, e) ↦ rw (e, assign_children) (assign_tasks-Valid s r.1 v)
          ]
