-- ===== src/Service/Children.antt =====
-- daemon/src/service.rs, `assign_children` and `assign_new_process`.
pub mod Scan
pub mod Induction
pub mod Frame
use system76_scheduler.Base.{
  ℕ, zero, suc, String, Bool, true, false, ◌||◌, Option, none, some, List, [], ◌∷◌, ◌++◌, contains,
  is_some, unwrap_or, ◌==◌, nat_eq, if◌then◌else◌,
}
use system76_scheduler.Base.Text.{is_empty_text}
use system76_scheduler.Externals.{Externals}
use system76_scheduler.Process.Cell.{Process, Owner, default_process, ro, write, ancestors}
use system76_scheduler.Process.Table.{get_pid, insert_process}
use system76_scheduler.Process.Files.{
  Procfs, Slice, children, exists, cmdline, cgroup, parent_id, process_name,
}
use system76_scheduler.Service.State.{Service}
use system76_scheduler.Service.Assign.{assign_process_priority}
use system76_scheduler.Service.Apply.{apply_process_priority}

-- The last element of the vector `scan` is the head of the list.
unfoldable pub push_children : List ℕ → List ℕ → List ℕ → List ℕ
push_children [] scan scanned = scan
push_children (pid ∷ pids) scan scanned =
    push_children pids (if contains scan pid || contains scanned pid then scan else pid ∷ scan)
      scanned

-- `while let Some(process) = scan.pop()`: the vectors `scanned` and `tasks` when the loop ends, and
-- `none` when the fuel runs out.
unfoldable pub scan_loop :
    Externals → Procfs → ℕ → List ℕ → List ℕ → List ℕ → Option (List ℕ × List ℕ)
scan_loop x fs zero scan scanned tasks = none
scan_loop x fs (suc fuel) [] scanned tasks = some (scanned, tasks)
scan_loop x fs (suc fuel) (process ∷ scan) scanned tasks =
    scan_loop x fs fuel (push_children (children x fs process) scan (scanned ++ process ∷ []))
      (scanned ++ process ∷ []) (tasks ++ process ∷ [])

-- A panic in `process::cgroup` ends the daemon; the model goes on with an empty text.
abbrev pub slice_or_default : Option Slice → String
slice_or_default none = ""
slice_or_default (some Slice.panic) = ""
slice_or_default (some (Slice.slice text)) = text

-- `if cmdline.is_empty() { cmdline = process::cmdline(..).unwrap_or_default() }`, where the process is
unfoldable pub known_cmdline : Procfs → ℕ → String → String
known_cmdline fs pid line =
    if exists fs pid
    then if is_empty_text line then unwrap_or (cmdline fs pid) "" else line
    else line

unfoldable pub known_cgroup : Procfs → ℕ → String
known_cgroup fs pid = if exists fs pid then slice_or_default (cgroup fs pid) else ""

-- The inner loop: a pipewire process that is this process or its parent
unfoldable pub pipewire_match : Process → List ℕ → Option ℕ
pipewire_match p [] = none
pipewire_match p (ancestor ∷ rest) =
    if p.id == ancestor || p.parent_id == ancestor then some ancestor else pipewire_match p rest

-- The loop `'outer` over the ancestors
unfoldable pub find_pipewire : Owner → List ℕ → List ℕ → Option ℕ
unfolding pipewire_match
find_pipewire o pipewire [] = none
find_pipewire o pipewire (a ∷ rest) = elim (pipewire_match (ro o a) pipewire) [
  | some ancestor ↦ some ancestor
  | none ↦ find_pipewire o pipewire rest
]

unfoldable pub note_pipewire : Owner → ℕ → Option ℕ → Owner
note_pipewire o a none = o
note_pipewire o a (some ancestor) =
    write o a (record (ro o a) { pipewire_ancestor = some ancestor })

module _ (x : Externals) (fs : Procfs) where
  -- `self.process_map.insert(..)` and what follows, for the new `Process`
  unfoldable pub enter_process : Service → Process → Service
  unfolding find_pipewire note_pipewire
  enter_process s process =
      let (o, m, a) = insert_process x s.owner s.process_map process in
      let s' : Service = record s {
        owner = note_pipewire o a (find_pipewire o s.pipewire_processes (ancestors o (ro o a)));
        process_map = m;
      } in
      let s'' : Service = assign_process_priority x s' a in
      apply_process_priority x fs s'' (ro s''.owner a)

  -- `Service::assign_new_process`
  unfoldable pub assign_new_process : Service → ℕ → ℕ → String → String → Service
  unfolding enter_process known_cmdline known_cgroup
  assign_new_process s pid parent_pid name line = enter_process s (record default_process {
    id = pid;
    parent_id = parent_pid;
    cgroup = known_cgroup fs pid;
    cmdline = known_cmdline fs pid line;
    name = name;
    parent = get_pid s.process_map parent_pid;
  })

  -- One task: a process that the map does not have, and that can be read
  unfoldable pub assign_task : Service → ℕ → Service
  assign_task s pid = elim (get_pid s.process_map pid) [
    | some a ↦ s
    | none ↦ elim (parent_id x fs pid) [
      | none ↦ s
      | some parent_pid ↦ elim (cmdline fs pid) [
        | none ↦ s
        | some line ↦ assign_new_process s pid parent_pid (process_name line) line
      ]
    ]
  ]

  unfoldable pub assign_tasks : Service → List ℕ → Service
  assign_tasks s [] = s
  assign_tasks s (pid ∷ pids) = assign_tasks (assign_task s pid) pids

  -- `Service::assign_children`. Every process ID is below `pid_max`, so the loop takes at most one round
  -- for each of these, one for `pid`, and one for each ID that was left in the buffer `assign_scan`.
  unfoldable pub assign_children : Service → ℕ → Service
  assign_children s pid =
      elim (scan_loop x fs (suc (suc fs.pid_max)) (pid ∷ s.assign_scan) [] s.assign_tasks) [
        | none ↦ s
        | some (scanned, tasks) ↦
            let s' : Service = assign_tasks s tasks in
            record s' { assign_scan = []; assign_scanned = scanned; assign_tasks = [] }
      ]
