-- ===== src/Tests/Refreshes.antt =====
-- Examples for the refresh of the priorities.
use system76_scheduler.Base.{List, contains, nat_eq, string_eq, true, ℕ, ◌++◌, ◌≡◌}
use system76_scheduler.Base.Dict.{values}
use system76_scheduler.Process.Cell.{ro}
use system76_scheduler.Service.Assign.Stable.{priority_after}
use system76_scheduler.Service.Refresh.{refresh_assignments}
use system76_scheduler.Service.Refresh.Assigned.{calls_for_all, refresh_assignments-settles}
use system76_scheduler.Service.State.{Service}
use system76_scheduler.Tests.{externals, procfs, three_processes}
use system76_scheduler.Tests.Processes.{three_processes-Valid}

refresh_assignments-settles_example :
    let u : Service = refresh_assignments externals procfs three_processes in
    let cells : List ℕ = values three_processes.process_map.map in
    ((a : ℕ)
      → contains cells a ≡ true
      → (ro u.owner a).assigned_priority ≡ priority_after externals three_processes a)
    × (u.calls ≡ three_processes.calls ++ calls_for_all externals procfs three_processes cells)
    × (u.process_map ≡ three_processes.process_map)
refresh_assignments-settles_example =
    refresh_assignments-settles externals procfs three_processes three_processes-Valid
