-- ===== src/Service/Safe/Refresh.antt =====
-- daemon/src/service.rs: the refresh of the process map and its garbage collection keep what the kernel accepts.
use system76_scheduler.Base.{
  All, Bool-cases, List, Option, Option-cases, [], arith, inl, inr, ltb, nat_eq, none, some,
  string_eq, ℕ, ◌∷◌, ◌≡◌,
}
use system76_scheduler.Base.Dict.{Dict}
use system76_scheduler.Externals.{Externals}
use system76_scheduler.Process.Cell.{Owner, Priority, Process, ro}
use system76_scheduler.Process.Files.{Procfs}
use system76_scheduler.Process.Table.{ProcessMap, drain_filter_prepare, get_pid}
use system76_scheduler.Service.Apply.{apply_process_priority}
use system76_scheduler.Service.Assign.{assign_process_priority}
use system76_scheduler.Service.Refresh.{
  collect_garbage, drain_service, garbage_clean, keep_process, keep_processes, link_parent,
  link_parents, process_map_insert, process_map_refresh, read_bare_process, read_process, reassign,
  refresh_assignments, refresh_foreground, scan_processes,
}
use system76_scheduler.Service.Refresh.Alive.{read_entries-All}
use system76_scheduler.Service.Safe.Cells.{
  CellSafe, OwnerSafe, drain_filter-OwnerSafe, insert_process-OwnerSafe, ro-CellSafe,
  write-OwnerSafe,
}
use system76_scheduler.Service.Safe.Processes.{Safe, apply-Safe, assign-Safe, with_owner-Safe}
use system76_scheduler.Service.Safe.Sessions.{lists-Safe, set_foreground_process-Safe}
use system76_scheduler.Service.State.{Service}

unassigned-CellSafe : (p : Process) → p.assigned_priority ≡ Priority.not_assignable → CellSafe p
unassigned-CellSafe p e = rw e tt

module _ (x : Externals) where
  process_map_insert-Safe :
      (s : Service) (p : Process) → CellSafe p → Safe s → Safe (process_map_insert x s p)
  unfolding process_map_insert
  process_map_insert-Safe s p h v =
      with_owner-Safe _ _ (insert_process-OwnerSafe x s.owner s.process_map p h v.cells_safe) v

  keep_processes-Safe :
      (s : Service) (ps : List Process) → All CellSafe ps → Safe s → Safe (keep_processes x s ps)
  unfolding keep_processes keep_process
  keep_processes-Safe s [] h v = v
  keep_processes-Safe s (p ∷ ps) h v =
      keep_processes-Safe (keep_process x s p) ps h.1
        (process_map_insert-Safe _ p h.0 (with_owner-Safe s.owner _ v.cells_safe v))

drain_service-Safe : (s : Service) → Safe s → Safe (drain_service s)
unfolding drain_service
drain_service-Safe s v =
    with_owner-Safe _ _ (drain_filter-OwnerSafe s.owner s.process_map v.cells_safe) v

link_parents-OwnerSafe :
    (o : Owner) (m : ProcessMap) (parents : Dict ℕ ℕ)
    → OwnerSafe o
    → OwnerSafe (link_parents o m parents)
unfolding link_parents
link_parents-OwnerSafe o m [] h = h
link_parents-OwnerSafe o m ((pid, ppid) ∷ rest) h =
    link_parents-OwnerSafe (link_parent o (get_pid m pid) (get_pid m ppid)) m rest
      (link (get_pid m pid) (get_pid m ppid))
  where
    link : (a b : Option ℕ) → OwnerSafe (link_parent o a b)
    link none b = unfold link_parent in h
    link (some a) none = unfold link_parent in h
    link (some a) (some b) = unfold link_parent in write-OwnerSafe o a _ (ro-CellSafe o a h) h

module _ (x : Externals) (fs : Procfs) where
  read_process-CellSafe : (pid : ℕ) (p : Process) → read_process x fs pid ≡ some p → CellSafe p
  unfolding read_process
  read_process-CellSafe pid p e = unassigned-CellSafe p (ground arith)

  read_bare_process-CellSafe :
      (pid : ℕ) (p : Process) → read_bare_process x fs pid ≡ some p → CellSafe p
  unfolding read_bare_process
  read_bare_process-CellSafe pid p e = unassigned-CellSafe p (ground arith)

  reassign-Safe : (s : Service) (cells : List ℕ) → Safe s → Safe (reassign x fs s cells)
  unfolding reassign
  reassign-Safe s [] v = v
  reassign-Safe s (a ∷ rest) v =
      let w = assign-Safe x s a v in
      reassign-Safe
        (apply_process_priority x fs (assign_process_priority x s a)
          (ro (assign_process_priority x s a).owner a))
        rest (apply-Safe x fs (assign_process_priority x s a) _ (ro-CellSafe _ a w.cells_safe) w)

  -- The map holds no profile.
  map-Safe : {s : Service} (m : ProcessMap) → Safe s → Safe (record s { process_map = m })
  map-Safe {s} m v = with_owner-Safe s.owner m v.cells_safe v

  refresh_foreground-Safe :
      (s : Service) (f : Option ℕ) → Safe s → Safe (refresh_foreground x fs s f)
  unfolding refresh_foreground
  refresh_foreground-Safe s none v = v
  refresh_foreground-Safe s (some pid) v =
      set_foreground_process-Safe x fs _ pid
        (lists-Safe s.foreground_processes s.pipewire_processes none v)

  pub process_map_refresh-Safe : (s : Service) → Safe s → Safe (process_map_refresh x fs s)
  unfolding process_map_refresh scan_processes refresh_assignments
  process_map_refresh-Safe s v = elim (Option-cases fs.entries) [
    | inl e ↦ rw (e, process_map_refresh) (map-Safe _ v)
    | inr (names, e) ↦
        rw (e, process_map_refresh)
          (refresh_foreground-Safe _ _ (
            map-Safe _ (
              reassign-Safe _ _ (
                map-Safe _ (
                  drain_service-Safe _ (
                    kept _ (
                      keep_processes-Safe x _ _
                        (read_entries-All x CellSafe (read_process x fs) read_process-CellSafe
                          names)
                        (map-Safe (drain_filter_prepare s.process_map) v))))))))
  ]
    where
      kept :
          {t : Service} (parents : Dict ℕ ℕ)
          → Safe t
          → Safe (record t { owner = link_parents t.owner t.process_map parents })
      kept {t} parents w =
          with_owner-Safe _ t.process_map
            (link_parents-OwnerSafe t.owner t.process_map parents w.cells_safe) w

  counter-Safe : {s : Service} (n : ℕ) → Safe s → Safe (record s { gc_counter = n })
  counter-Safe n v = record {
    config_safe = v.config_safe;
    cells_safe = v.cells_safe;
    calls_safe = v.calls_safe;
  }

  collect_garbage-Safe : (s : Service) → Safe s → Safe (collect_garbage x fs s)
  unfolding collect_garbage
  collect_garbage-Safe s v = elim (Option-cases fs.entries) [
    | inl e ↦ rw (e, collect_garbage) v
    | inr (names, e) ↦
        rw (e, collect_garbage)
          (drain_service-Safe _ (
            keep_processes-Safe x _ _
              (read_entries-All x CellSafe (read_bare_process x fs) read_bare_process-CellSafe
                names)
              (map-Safe (drain_filter_prepare s.process_map) v)))
  ]

  pub garbage_clean-Safe : (s : Service) → Safe s → Safe (garbage_clean x fs s)
  unfolding garbage_clean
  garbage_clean-Safe s v = elim (Bool-cases (ltb s.gc_counter 2048)) [
    | inl e ↦ rw e (counter-Safe _ v)
    | inr e ↦ rw e (collect_garbage-Safe _ (counter-Safe 0 v))
  ]
