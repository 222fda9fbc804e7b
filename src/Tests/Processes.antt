-- ===== src/Tests/Processes.antt =====
-- Examples for the modules of the process map, of /proc and of the kernel.
use system76_scheduler.Base.{
  All, [], arith, contains, if◌then◌else◌, nat_eq, none, refl, some, string_eq, ◌==◌, ◌∷◌, ◌≡◌,
}
use system76_scheduler.Base.Dict.{insert, lookup}
use system76_scheduler.Base.Text.{codes}
use system76_scheduler.Kernel.{set_calls}
use system76_scheduler.Kernel.Laws.{Carries, IsAccepted, IsInRange, set_calls-Carries}
use system76_scheduler.Process.Ancestry.{Chain, ancestors-Chain, root, up}
use system76_scheduler.Process.Cell.{
  parent, Process, alloc, ancestors, empty_owner, hash_id, ro, upgrade,
}
use system76_scheduler.Process.Files.{file_key, process_name}
use system76_scheduler.Process.Files.Keys.{file_key-first_value, file_text, first_value}
use system76_scheduler.Process.Files.Names.{IsLastSegment, process_name-IsLastSegment}
use system76_scheduler.Process.Table.{
  ProcessMap, drain_filter, drain_filter_prepare, empty_map, insert_process, insert_vacant, release,
  release_option,
}
use system76_scheduler.Process.Table.Valid.{IsValid, empty-IsValid, insert_process-IsValid}
use system76_scheduler.Process.Table.View.{renewed, view, view-drain_filter, view-insert_process}
use system76_scheduler.Service.Refresh.{process_map_insert}
use system76_scheduler.Service.State.{new_service}
use system76_scheduler.Service.Valid.{Valid}
use system76_scheduler.Tests.{
  editor_process, externals, high, init_process, one_process, procfs, shell_process,
  three_processes,
}

one_process-Valid : Valid externals one_process
unfolding process_map_insert new_service
one_process-Valid =
    insert_process-IsValid externals empty_owner empty_map init_process (empty-IsValid externals)

insert_process-IsValid_example :
    IsValid externals
      (insert_process externals one_process.owner one_process.process_map shell_process).0
      (insert_process externals one_process.owner one_process.process_map shell_process).1
insert_process-IsValid_example =
    insert_process-IsValid externals one_process.owner one_process.process_map shell_process
      one_process-Valid

pub three_processes-Valid : Valid externals three_processes
unfolding process_map_insert
three_processes-Valid =
    insert_process-IsValid externals _ _ editor_process
      (insert_process-IsValid externals _ _ shell_process one_process-Valid)

abbrev all_drained : ProcessMap
all_drained = drain_filter_prepare three_processes.process_map

-- The editor comes again under another name.
abbrev renamed : Process
renamed = record editor_process { name = "viewer" }

view-insert_process_example :
    view
      (insert_process externals three_processes.owner three_processes.process_map renamed).0
      (insert_process externals three_processes.owner three_processes.process_map renamed).1
      302
    ≡ (if hash_id externals renamed == 302
        then some (renewed (view three_processes.owner three_processes.process_map 302) renamed)
        else view three_processes.owner three_processes.process_map 302)
view-insert_process_example =
    view-insert_process externals three_processes.owner three_processes.process_map renamed 302
      three_processes-Valid

view-drain_filter_example :
    view
      (drain_filter three_processes.owner all_drained).0
      (drain_filter three_processes.owner all_drained).1
      302
    ≡ (if contains all_drained.drain 302
        then none
        else view three_processes.owner three_processes.process_map 302)
unfolding drain_filter_prepare
view-drain_filter_example = view-drain_filter three_processes.owner all_drained 302

editor-Chain :
    Chain three_processes.owner (parent three_processes.owner editor_process) (1 ∷ 0 ∷ [])
unfolding parent upgrade ro process_map_insert insert_process insert_vacant release_option release
    alloc hash_id new_service lookup insert
editor-Chain = up (up root)

ancestors-Chain_example : ancestors three_processes.owner editor_process ≡ 1 ∷ 0 ∷ []
ancestors-Chain_example =
    ancestors-Chain three_processes.owner editor_process (1 ∷ 0 ∷ []) editor-Chain

file_key-first_value_example :
    file_key externals
      (some (file_text (codes "Name:init" ∷ codes "PPid:0" ∷ []) []))
      (codes "PPid:")
    ≡ first_value externals (codes "PPid:") (codes "Name:init" ∷ codes "PPid:0" ∷ [])
file_key-first_value_example =
    file_key-first_value externals (codes "PPid:") (codes "Name:init" ∷ codes "PPid:0" ∷ []) []
      (refl, (refl, tt)) refl

process_name-IsLastSegment_example :
    IsLastSegment (codes "/usr/bin/editor") (codes (process_name "/usr/bin/editor"))
process_name-IsLastSegment_example = process_name-IsLastSegment "/usr/bin/editor"

high-IsInRange : IsInRange high
high-IsInRange = record { nice = λ n e. ground arith; priority = omega arith }

set_calls-Carries_example :
    All IsAccepted (set_calls externals procfs 3 high)
    × All (Carries high) (set_calls externals procfs 3 high)
set_calls-Carries_example = set_calls-Carries externals procfs 3 high high-IsInRange
