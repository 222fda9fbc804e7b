-- ===== src/Service/Refresh.antt =====
-- daemon/src/service.rs, `process_map_refresh` and `garbage_clean`.
pub mod Alive
pub mod Assigned
pub mod Wiped
pub mod Reparented
use system76_scheduler.Base.{
  ℕ, ◌+◌, String, Option, none, some, List, [], ◌∷◌, unwrap_or, ltb, nat_eq, if◌then◌else◌,
}
use system76_scheduler.Base.Dict.{Dict, insert, values}
use system76_scheduler.Externals.{Externals}
use system76_scheduler.Process.Cell.{Process, Owner, default_process, ro, write}
use system76_scheduler.Process.Table.{
  ProcessMap, empty_map, get_pid, insert_process, retain_process_tree, drain_filter_prepare,
  drain_filter,
}
use system76_scheduler.Process.Files.{Procfs, cmdline, cgroup, parent_id, process_name}
use system76_scheduler.Service.State.{Service}
use system76_scheduler.Service.Assign.{assign_process_priority}
use system76_scheduler.Service.Apply.{apply_process_priority}
use system76_scheduler.Service.Children.{slice_or_default}
use system76_scheduler.Service.Foreground.{set_foreground_process}

unfoldable pub link_parent : Owner → Option ℕ → Option ℕ → Owner
link_parent o (some a) (some b) = write o a (record (ro o a) { parent = some b })
link_parent o _ _ = o

unfoldable pub link_parents : Owner → ProcessMap → Dict ℕ ℕ → Owner
unfolding link_parent
link_parents o m [] = o
link_parents o m ((pid, ppid) ∷ rest) =
    link_parents (link_parent o (get_pid m pid) (get_pid m ppid)) m rest

unfoldable pub drain_service : Service → Service
drain_service s =
    let (o, m) = drain_filter s.owner s.process_map in record s { owner = o; process_map = m }

module _ (x : Externals) where
  -- `Service::process_map_insert`
  unfoldable pub process_map_insert : Service → Process → Service
  process_map_insert s process =
      let (o, m, a) = insert_process x s.owner s.process_map process in
      record s { owner = o; process_map = m }

  -- `retain_process_tree` and `process_map_insert`
  unfoldable pub keep_process : Service → Process → Service
  unfolding process_map_insert
  keep_process s process =
      process_map_insert
        (record s { process_map = retain_process_tree x s.owner s.process_map process }) process

  -- The processes that a loop over the names in /proc goes through
  unfoldable pub read_entries : (ℕ → Option Process) → List (List ℕ) → List Process
  read_entries read [] = []
  read_entries read (name ∷ names) =
      let rest = read_entries read names in
      elim (x.atoi name) [
        | none ↦ rest
        | some pid ↦ elim (read pid) [ none ↦ rest | some process ↦ process ∷ rest ]
      ]

  unfoldable pub keep_processes : Service → List Process → Service
  keep_processes s [] = s
  keep_processes s (process ∷ rest) = keep_processes (keep_process s process) rest

module _ (x : Externals) (fs : Procfs) where
  -- The process that `process_map_refresh` reads for a number in /proc; kernel threads have none.
  unfoldable pub read_process : ℕ → Option Process
  read_process pid = elim (cmdline fs pid) [
    | none ↦ none
    | some line ↦ some (record default_process {
      id = pid;
      cmdline = line;
      name = process_name line;
      cgroup = slice_or_default (cgroup fs pid);
      parent_id = unwrap_or (parent_id x fs pid) 0;
    })
  ]

  -- The process that `garbage_clean` reads
  unfoldable pub read_bare_process : ℕ → Option Process
  read_bare_process pid = elim (cmdline fs pid) [
    | none ↦ none
    | some line ↦
        some (record default_process { id = pid; parent_id = unwrap_or (parent_id x fs pid) 0 })
  ]

  -- The map `parents`: the parent's ID of each process that has one
  unfoldable pub note_parents : List Process → Dict ℕ ℕ → Dict ℕ ℕ
  note_parents [] parents = parents
  note_parents (process ∷ rest) parents = elim (parent_id x fs process.id) [
    | none ↦ note_parents rest parents
    | some ppid ↦ note_parents rest (insert process.id ppid parents)
  ]

  -- `process_map_refresh` from the loop over /proc to `drain_filter`. Here and in `garbage_clean` the
  -- loop is split into what it reads and what it does; reading depends on nothing that it does.
  unfoldable pub scan_processes : Service → List Process → Service
  scan_processes s processes =
      let s' : Service = keep_processes x s processes in
      drain_service
        (record s' { owner = link_parents s'.owner s'.process_map (note_parents processes []) })

  -- The loop that refreshes the priorities
  unfoldable pub reassign : Service → List ℕ → Service
  reassign s [] = s
  reassign s (a ∷ rest) =
      let s' : Service = assign_process_priority x s a in
      reassign (apply_process_priority x fs s' (ro s'.owner a)) rest

  -- The map is swapped out while the loop runs.
  unfoldable pub refresh_assignments : Service → Service
  refresh_assignments s =
      record (reassign (record s { process_map = empty_map }) (values s.process_map.map)) {
        process_map = s.process_map;
      }

  unfoldable pub refresh_foreground : Service → Option ℕ → Service
  refresh_foreground s none = s
  refresh_foreground s (some pid) = set_foreground_process x fs (record s { foreground = none }) pid

  -- `Service::process_map_refresh`
  unfoldable pub process_map_refresh : Service → Service
  process_map_refresh s =
      let s' : Service = record s { process_map = drain_filter_prepare s.process_map } in
      elim fs.entries [
        | none ↦ s'
        | some names ↦
            let s'' : Service =
              refresh_assignments (scan_processes s' (read_entries x read_process names)) in
            refresh_foreground s'' s''.foreground
      ]

  -- The part of `garbage_clean` behind the counter
  unfoldable pub collect_garbage : Service → Service
  collect_garbage s = elim fs.entries [
    | none ↦ s
    | some names ↦ drain_service (
        keep_processes x (record s { process_map = drain_filter_prepare s.process_map })
          (read_entries x read_bare_process names))
  ]

  -- `Service::garbage_clean`
  unfoldable pub garbage_clean : Service → Service
  garbage_clean s =
      if ltb s.gc_counter 2048
      then record s { gc_counter = s.gc_counter + 1 }
      else collect_garbage (record s { gc_counter = 0 })
