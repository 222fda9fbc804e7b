-- ===== src/Service/Children/Induction.antt =====
-- daemon/src/service.rs: what `enter_process` keeps, `assign_children` keeps.
use system76_scheduler.Base.{
  List, Option-cases, String, [], inl, inr, nat_eq, string_eq, suc, ℕ, ◌∷◌,
}
use system76_scheduler.Externals.{Externals}
use system76_scheduler.Process.Cell.{Process}
use system76_scheduler.Process.Files.{Procfs, cmdline, parent_id, process_name}
use system76_scheduler.Process.Table.{get_pid}
use system76_scheduler.Service.Children.{
  assign_children, assign_new_process, assign_task, assign_tasks, enter_process, scan_loop,
}
use system76_scheduler.Service.Safe.Cells.{CellSafe}
use system76_scheduler.Service.State.{Service}

module _ (x : Externals) (fs : Procfs) (P : Service → Type 0) where
  module _
      (enter : (s : Service) (p : Process) → CellSafe p → P s → P (enter_process x fs s p)) where
    pub assign_new_process-keeps :
        (s : Service) (pid parent_pid : ℕ) (name line : String)
        → P s
        → P (assign_new_process x fs s pid parent_pid name line)
    unfolding assign_new_process
    assign_new_process-keeps s pid parent_pid name line v = enter s _ tt v

    assign_task-keeps : (s : Service) (pid : ℕ) → P s → P (assign_task x fs s pid)
    unfolding assign_task
    assign_task-keeps s pid v = elim (Option-cases (get_pid s.process_map pid)) [
      | inr (a, e) ↦ rw (e, assign_task) v
      | inl e ↦
          rw (e, assign_task)
            (elim (Option-cases (parent_id x fs pid)) [
              | inl f ↦ rw f v
              | inr (ppid, f) ↦ rw f (elim (Option-cases (cmdline fs pid)) [
                | inl g ↦ rw g v
                | inr (line, g) ↦
                    rw g (assign_new_process-keeps s pid ppid (process_name line) line v)
              ])
            ])
    ]

    assign_tasks-keeps : (s : Service) (pids : List ℕ) → P s → P (assign_tasks x fs s pids)
    unfolding assign_tasks
    assign_tasks-keeps s [] v = v
    assign_tasks-keeps s (pid ∷ pids) v =
        assign_tasks-keeps (assign_task x fs s pid) pids (assign_task-keeps s pid v)

    -- The buffers of the search do not matter.
    pub assign_children-keeps :
        ((s : Service) (done : List ℕ)
          → P s
          → P (record s { assign_scan = []; assign_scanned = done; assign_tasks = [] }))
        → (s : Service) (pid : ℕ) → P s
        → P (assign_children x fs s pid)
    unfolding assign_children
    assign_children-keeps buffers s pid v =
        elim (Option-cases
          (scan_loop x fs (suc (suc fs.pid_max)) (pid ∷ s.assign_scan) [] s.assign_tasks)) [
            | inl e ↦ rw (e, assign_children) v
            | inr (r, e) ↦
                rw (e, assign_children)
                  (buffers (assign_tasks x fs s r.1) r.0 (assign_tasks-keeps s r.1 v))
          ]
