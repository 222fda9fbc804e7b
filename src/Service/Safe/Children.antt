-- ===== src/Service/Safe/Children.antt =====
-- daemon/src/service.rs: new processes are given priorities that the kernel accepts.
use system76_scheduler.Base.{Option, String, nat_eq, none, some, string_eq, ℕ}
use system76_scheduler.Externals.{Externals}
use system76_scheduler.Process.Cell.{Owner, Process, ro}
use system76_scheduler.Process.Files.{Procfs}
use system76_scheduler.Service.Apply.{apply_process_priority}
use system76_scheduler.Service.Assign.{assign_process_priority}
use system76_scheduler.Service.Children.{
  assign_children, assign_new_process, enter_process, note_pipewire,
}
use system76_scheduler.Service.Children.Induction.{assign_children-keeps, assign_new_process-keeps}
use system76_scheduler.Service.Safe.Cells.{
  CellSafe, OwnerSafe, insert_process-OwnerSafe, ro-CellSafe, write-OwnerSafe,
}
use system76_scheduler.Service.Safe.Processes.{Safe, apply-Safe, assign-Safe, with_owner-Safe}
use system76_scheduler.Service.State.{Service}

module _ (x : Externals) (fs : Procfs) where
  note_pipewire-OwnerSafe :
      (o : Owner) (a : ℕ) (found : Option ℕ) → OwnerSafe o → OwnerSafe (note_pipewire o a found)
  unfolding note_pipewire
  note_pipewire-OwnerSafe o a none h = h
  note_pipewire-OwnerSafe o a (some ancestor) h = write-OwnerSafe o a _ (ro-CellSafe o a h) h

  enter_process-Safe :
      (s : Service) (p : Process) → CellSafe p → Safe s → Safe (enter_process x fs s p)
  unfolding enter_process
  enter_process-Safe s p h v = finish _ _ (
      with_owner-Safe _ _
        (note_pipewire-OwnerSafe _ _ _
          (insert_process-OwnerSafe x s.owner s.process_map p h v.cells_safe))
        v)
    where
      finish :
          (t : Service) (a : ℕ)
          → Safe t
          → Safe (
              apply_process_priority x fs
                (assign_process_priority x t a)
                (ro (assign_process_priority x t a).owner a))
      finish t a w =
          let u = assign-Safe x t a w in apply-Safe x fs _ _ (ro-CellSafe _ a u.cells_safe) u

  pub assign_new_process-Safe :
      (s : Service) (pid parent_pid : ℕ) (name line : String)
      → Safe s
      → Safe (assign_new_process x fs s pid parent_pid name line)
  assign_new_process-Safe = assign_new_process-keeps x fs Safe enter_process-Safe

  pub assign_children-Safe : (s : Service) (pid : ℕ) → Safe s → Safe (assign_children x fs s pid)
  assign_children-Safe = assign_children-keeps x fs Safe enter_process-Safe (λ s done v. record {
    config_safe = v.config_safe;
    cells_safe = v.cells_safe;
    calls_safe = v.calls_safe;
  })
