-- ===== src/Tests/Services.antt =====
-- Examples for the modules of the service.
use mathlib.Core.List.{Permᴰ}
use system76_scheduler.Base.{
  ==_iff, List, String, [], any, arith, contains, false, if◌then◌else◌, is_some, nat_eq, none, not,
  refl, some, string_eq, true, ℕ, ◌&&◌, ◌++◌, ◌<◌, ◌==◌, ◌||◌, ◌∷◌, ◌≡◌, ◌≢◌,
}
use system76_scheduler.Base.Dict.{insert, lookup, values}
use system76_scheduler.Base.Text.{codes}
use system76_scheduler.Config.Assignments.{Rule, default_condition, matches, new_condition}
use system76_scheduler.Process.Cell.{alloc, hash_id, is_not_assignable, ro}
use system76_scheduler.Process.Files.{
  Procfs, children, cmdline, cut_line, file_key, key_loop, numbers, parent_id,
}
use system76_scheduler.Process.Table.{
  drain_filter_prepare, get_pid, insert_process, insert_vacant, release, release_option,
}
use system76_scheduler.Service.Assign.{assign_process_priority}
use system76_scheduler.Service.Assign.Precedence.{Decides, assign_process_priority-Decides}
use system76_scheduler.Service.Children.{assign_children}
use system76_scheduler.Service.Conditions.{condition_met, scan_conditions, scan_rules}
use system76_scheduler.Service.Conditions.Orders.{scan_conditions-perm}
use system76_scheduler.Service.Conditions.Rules.{
  FirstChosen, met_exclude, met_include, scan_conditions-FirstChosen, scan_rules_lem,
}
use system76_scheduler.Service.Foreground.{set_foreground_process}
use system76_scheduler.Service.Foreground.Plan.{
  SameView, foreground_ids, plan, set_foreground_process-plan,
}
use system76_scheduler.Service.Pipewire.{remove_pipewire_process}
use system76_scheduler.Service.Pipewire.Ended.{IsUnmarked, remove_pipewire_process-ended}
use system76_scheduler.Service.Refresh.{
  collect_garbage, process_map_insert, read_bare_process, read_entries, read_process,
  scan_processes,
}
use system76_scheduler.Service.Refresh.Alive.{scan_processes-alive, shows_hash}
use system76_scheduler.Service.Refresh.Reparented.{scan_processes-forgets}
use system76_scheduler.Service.Refresh.Wiped.{WipedAt, collect_garbage-IsWiped, view_of}
use system76_scheduler.Service.State.{Service, new_service}
use system76_scheduler.Tests.{
  editor_process, externals, high, low, one_process, pair, procfs, shell_process, three_processes,
}
use system76_scheduler.Tests.Processes.{three_processes-Valid}

abbrev named_bash : Rule
named_bash = (record default_condition { name = some (new_condition "bash") }, true)

abbrev not_named_editor : Rule
not_named_editor = (record default_condition { name = some (new_condition "!editor") }, true)

scan_rules_lem_example :
    scan_rules externals three_processes.owner shell_process (named_bash ∷ []) false
    ≡ (false || any (met_include externals three_processes.owner shell_process) (named_bash ∷ []))
      && not (any (met_exclude externals three_processes.owner shell_process) (named_bash ∷ []))
scan_rules_lem_example =
    scan_rules_lem externals three_processes.owner shell_process (named_bash ∷ []) false

scan_conditions-FirstChosen_example :
    FirstChosen externals three_processes.owner shell_process
      ((low, named_bash ∷ []) ∷ [])
      (scan_conditions externals three_processes.owner shell_process ((low, named_bash ∷ []) ∷ []))
scan_conditions-FirstChosen_example =
    scan_conditions-FirstChosen externals three_processes.owner shell_process
      ((low, named_bash ∷ []) ∷ [])

program : Unit {0}
unfolding ro process_map_insert insert_process insert_vacant release_option release alloc hash_id
    new_service lookup insert
program = tt

shell_new : is_not_assignable (ro three_processes.owner 1).assigned_priority ≡ true
unfolding program
shell_new = refl

assign_process_priority-Decides_example :
    Decides externals three_processes
      (ro three_processes.owner 1)
      (ro (assign_process_priority externals three_processes 1).owner 1).assigned_priority
assign_process_priority-Decides_example =
    assign_process_priority-Decides externals three_processes 1 shell_new

pub children_below :
    (p a : ℕ) → contains (children externals procfs p) a ≡ true → a < procfs.pid_max
unfolding children numbers
children_below p a h = ground arith

set_foreground_process-plan_example :
    let t : Service = assign_children externals procfs three_processes 2 in
    let u : Service = set_foreground_process externals procfs three_processes 2 in
    (u.calls ≡ t.calls ++ plan externals procfs pair 2 t (values t.process_map.map))
    × (u.foreground_processes
        ≡ 2 ∷ foreground_ids externals procfs pair 2 t (values t.process_map.map))
    × (u.foreground ≡ some 2)
    × SameView externals procfs pair 2 t u
unfolding program
set_foreground_process-plan_example =
    set_foreground_process-plan externals procfs pair 2 three_processes refl

-- The editor uses pipewire.
abbrev with_pipewire : Service
with_pipewire = record three_processes { pipewire_processes = 3 ∷ [] }

remove_pipewire_process-ended_example :
    let t : Service = remove_pipewire_process externals procfs with_pipewire 3 in
    (contains t.pipewire_processes 3 ≡ false)
    × ((a : ℕ)
        → contains (values t.process_map.map) a ≡ true
        → IsUnmarked externals procfs 3 t.owner a)
    × ((other : ℕ)
        → other ≢ 3
        → contains t.pipewire_processes other ≡ contains with_pipewire.pipewire_processes other)
remove_pipewire_process-ended_example =
    remove_pipewire_process-ended externals procfs 3 with_pipewire refl (refl, tt)

-- The names that /proc lists
abbrev listed : List (List ℕ)
listed = codes "1" ∷ codes "2" ∷ codes "3" ∷ codes "self" ∷ []

scan_processes-alive_example :
    is_some (
      lookup 302
        (scan_processes externals procfs
          (record one_process { process_map = drain_filter_prepare one_process.process_map })
          (read_entries externals (read_process externals procfs) listed)).process_map.map)
    ≡ any (shows_hash externals procfs 302) listed
scan_processes-alive_example = scan_processes-alive externals procfs one_process listed 302

scans : Unit {0}
unfolding program read_entries read_process read_bare_process drain_filter_prepare cmdline parent_id
    file_key key_loop cut_line
scans = tt

collect_garbage-IsWiped_example :
    WipedAt (view_of (collect_garbage externals procfs three_processes) 302)
unfolding program scans
collect_garbage-IsWiped_example =
    collect_garbage-IsWiped externals procfs three_processes listed 302 editor_process
      three_processes-Valid refl refl refl
      (λ e. absurd (ground (arith, (==_iff {A = String} "editor" "").1 e)))

-- The shell has died, and the editor is a child of init now.
abbrev later : Procfs
later = record procfs {
  entries = some (codes "1" ∷ codes "3" ∷ []);
  status_file = λ pid. some (if pid == 1 then codes "PPid:0\n" else codes "PPid:1\n");
}

abbrev left : List (List ℕ)
left = codes "1" ∷ codes "3" ∷ []

scan_processes-forgets_example :
    (is_some (
        lookup 301
          (scan_processes externals later
            (record three_processes {
              process_map = drain_filter_prepare three_processes.process_map;
            })
            (read_entries externals (read_process externals later) left)).process_map.map)
      ≡ true)
    × (get_pid
          (scan_processes externals later
            (record three_processes {
              process_map = drain_filter_prepare three_processes.process_map;
            })
            (read_entries externals (read_process externals later) left)).process_map
          3
        ≡ none)
unfolding program scans
scan_processes-forgets_example =
    scan_processes-forgets externals later three_processes left 302 301 3 three_processes-Valid refl
      refl refl

-- Two profiles in both orders, of which the shell meets one
scan_conditions-perm_example :
    scan_conditions externals three_processes.owner shell_process
      ((low, named_bash ∷ []) ∷ (high, []) ∷ [])
    ≡ scan_conditions externals three_processes.owner shell_process
        ((high, []) ∷ (low, named_bash ∷ []) ∷ [])
unfolding condition_met matches new_condition
scan_conditions-perm_example =
    scan_conditions-perm externals three_processes.owner shell_process (Permᴰ.swap refl refl)
      (omega arith)
