-- ===== src/Service/Pipewire.antt =====
-- daemon/src/service.rs, `set_pipewire_process` and `remove_pipewire_process`.
pub mod Ended
use system76_scheduler.Base.{
  ℕ, Bool, true, false, ◌||◌, Option, none, some, List, [], ◌∷◌, ◌++◌, contains, ◌==◌, nat_eq,
  if◌then◌else◌,
}
use system76_scheduler.Base.Dict.{values}
use system76_scheduler.Externals.{Externals}
use system76_scheduler.Config.Profile.{Profile}
use system76_scheduler.Config.Scheduler.{ForegroundAssignments}
use system76_scheduler.Process.Cell.{is_assignable, Process, ro, write}
use system76_scheduler.Process.Table.{get_pid}
use system76_scheduler.Process.Files.{Procfs}
use system76_scheduler.Service.State.{Service, set}
use system76_scheduler.Service.Apply.{process_assignment, process_descended_from}
use system76_scheduler.Service.Children.{assign_children}

-- `pipewire_ancestor == Some(process_id)`
abbrev pub is_id : ℕ → Option ℕ → Bool
is_id pid none = false
is_id pid (some id) = id == pid

-- `position` and `Vec::remove`: the list without the first `pid`, if it is there
unfoldable pub remove_first : ℕ → List ℕ → List ℕ
remove_first pid [] = []
remove_first pid (p ∷ ps) = let rest = remove_first pid ps in if p == pid then ps else p ∷ rest

-- `if let Some(process) = get_pid(process) { if Assignable != .. { return } }`
unfoldable pub refuses_pipewire : Service → Option ℕ → Bool
refuses_pipewire s none = false
refuses_pipewire s (some a) = if is_assignable (ro s.owner a).assigned_priority then false else true

module _ (x : Externals) (fs : Procfs) where
  -- The branch of a descendant
  unfoldable pub mark_descendant : Profile → ℕ → Service → ℕ → Service
  mark_descendant profile process s a =
      let p : Process = record (ro s.owner a) { pipewire_ancestor = some process } in
      set x fs (record s { owner = write s.owner a p }) p.id profile

  -- The loop's body of `set_pipewire_process`
  unfoldable pub pipewire_one : Profile → ℕ → Service → ℕ → Service
  unfolding mark_descendant
  pipewire_one profile process s a =
      if is_assignable (process_assignment s (ro s.owner a).id)
      then if (ro s.owner a).id == process
        then set x fs s process profile
        else if process_descended_from s (ro s.owner a) process
        then mark_descendant profile process s a
        else s
      else s

  unfoldable pub pipewire_all : Profile → ℕ → Service → List ℕ → Service
  pipewire_all profile process s [] = s
  pipewire_all profile process s (a ∷ rest) =
      pipewire_all profile process (pipewire_one profile process s a) rest

  -- From the test of the configuration on
  unfoldable pub enter_pipewire : Service → ℕ → Option Profile → Service
  unfolding refuses_pipewire
  enter_pipewire s process none = s
  enter_pipewire s process (some profile) =
      if contains s.pipewire_processes process
      then pipewire_all profile process s (values s.process_map.map)
      else if refuses_pipewire s (get_pid s.process_map process)
      then s
      else pipewire_all profile process
          (record s { pipewire_processes = s.pipewire_processes ++ process ∷ [] })
          (values s.process_map.map)

  -- `Service::set_pipewire_process`
  unfoldable pub set_pipewire_process : Service → ℕ → Service
  set_pipewire_process s process =
      let s' : Service = assign_children x fs s process in
      enter_pipewire s' process s'.config.process_scheduler.pipewire

  -- The priority that a process without pipewire gets back
  unfoldable pub restore_priority : Service → Process → Option ForegroundAssignments → Service
  restore_priority s p none = s
  restore_priority s p (some assignments) =
      if is_assignable (process_assignment s p.id)
      then set x fs s p.id (
          if contains s.foreground_processes p.id
          then assignments.foreground
          else assignments.background)
      else s

  -- The loop's body of `remove_pipewire_process`
  unfoldable pub unpipe_one : ℕ → Service → ℕ → Service
  unfolding restore_priority
  unpipe_one process_id s a =
      if is_id process_id (ro s.owner a).pipewire_ancestor || (ro s.owner a).id == process_id
      then (let p : Process = record (ro s.owner a) { pipewire_ancestor = none } in
          restore_priority (record s { owner = write s.owner a p }) p
            s.config.process_scheduler.foreground)
      else s

  unfoldable pub unpipe_all : ℕ → Service → List ℕ → Service
  unpipe_all process_id s [] = s
  unpipe_all process_id s (a ∷ rest) = unpipe_all process_id (unpipe_one process_id s a) rest

  -- `Service::remove_pipewire_process`
  unfoldable pub remove_pipewire_process : Service → ℕ → Service
  remove_pipewire_process s process_id =
      if contains s.pipewire_processes process_id
      then unpipe_all process_id
          (record s { pipewire_processes = remove_first process_id s.pipewire_processes })
          (values s.process_map.map)
      else s
