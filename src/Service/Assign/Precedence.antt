-- ===== src/Service/Assign/Precedence.antt =====
-- daemon/src/service.rs: the order in which the sources of a priority are asked.
use system76_scheduler.Base.{
  Bool-cases, Option-cases, false, inl, inr, nat_eq, none, refl, some, string_eq, true, ℕ, ◌≡◌, ◌≢◌,
}
use system76_scheduler.Base.Dict.{values}
use system76_scheduler.Base.Text.{is_empty_text}
use system76_scheduler.Config.Assignments.{get_by_cmdline, get_by_name}
use system76_scheduler.Config.Profile.{Profile}
use system76_scheduler.Externals.{Externals}
use system76_scheduler.Process.Cell.{Priority, Process, is_not_assignable, ro}
use system76_scheduler.Process.Cell.Writes.{ro-write_ne, ro-write_self}
use system76_scheduler.Service.Assign.{assign_process_priority, priority_by_conditions, priority_of}
use system76_scheduler.Service.Conditions.{process_is_exception}
use system76_scheduler.Service.Conditions.Rules.{FirstChosen, scan_conditions-FirstChosen}
use system76_scheduler.Service.State.{Service}

module _ (x : Externals) (s : Service) (p : Process) where
  -- The priority that the configuration gives a process: each constructor is one source of it, and asks
  -- that all sources before it give nothing.
  pub data Decides : Priority → Type 0 where
    excepted : process_is_exception x s p ≡ true → Decides Priority.exception
    by_cmdline :
        (profile : Profile)
        → process_is_exception x s p ≡ false
        → get_by_cmdline s.config.process_scheduler.assignments p.cmdline ≡ some profile
        → Decides (Priority.config profile)
    by_name :
        (profile : Profile)
        → process_is_exception x s p ≡ false
        → get_by_cmdline s.config.process_scheduler.assignments p.cmdline ≡ none
        → get_by_name s.config.process_scheduler.assignments p.name ≡ some profile
        → Decides (Priority.config profile)
    no_cgroup :
        process_is_exception x s p ≡ false
        → get_by_cmdline s.config.process_scheduler.assignments p.cmdline ≡ none
        → get_by_name s.config.process_scheduler.assignments p.name ≡ none
        → is_empty_text p.cgroup ≡ true
        → Decides Priority.not_assignable
    by_conditions :
        (priority : Priority)
        → process_is_exception x s p ≡ false
        → get_by_cmdline s.config.process_scheduler.assignments p.cmdline ≡ none
        → get_by_name s.config.process_scheduler.assignments p.name ≡ none
        → is_empty_text p.cgroup ≡ false
        → FirstChosen x s.owner p
            (values s.config.process_scheduler.assignments.conditions)
            priority
        → Decides priority

  priority_of-Decides : Decides (priority_of x s p)
  unfolding priority_of priority_by_conditions
  priority_of-Decides = elim (Bool-cases (process_is_exception x s p)) [
    | inl e ↦ rw e (excepted e)
    | inr e ↦
        rw e
          (elim (Option-cases (get_by_cmdline s.config.process_scheduler.assignments p.cmdline)) [
            | inr (profile, f) ↦ rw f (by_cmdline profile e f)
            | inl f ↦
                rw f
                  (elim (Option-cases (get_by_name s.config.process_scheduler.assignments p.name)) [
                    | inr (profile, g) ↦ rw g (by_name profile e f g)
                    | inl g ↦ rw g (elim (Bool-cases (is_empty_text p.cgroup)) [
                      | inl h ↦ rw h (no_cgroup e f g h)
                      | inr h ↦ rw h (
                          by_conditions _ e f g h (
                            scan_conditions-FirstChosen x s.owner p
                              (values s.config.process_scheduler.assignments.conditions)))
                    ])
                  ])
          ])
  ]

module _ (x : Externals) (s : Service) (a : ℕ) where
  -- A process without a priority gets the one that `Decides` names.
  pub assign_process_priority-Decides :
      is_not_assignable (ro s.owner a).assigned_priority ≡ true
      → Decides x s (ro s.owner a) (ro (assign_process_priority x s a).owner a).assigned_priority
  unfolding assign_process_priority
  assign_process_priority-Decides h = rw (h, ro-write_self) (priority_of-Decides x s (ro s.owner a))

  -- A process with a priority keeps it, and the call changes nothing at all.
  pub assign_process_priority-assigned :
      is_not_assignable (ro s.owner a).assigned_priority ≡ false → assign_process_priority x s a ≡ s
  unfolding assign_process_priority
  assign_process_priority-assigned h = rw h

  -- Nothing but the priority of this one process changes.
  pub assign_process_priority-frame :
      (b : ℕ)
      → b ≢ a
      → (ro (assign_process_priority x s a).owner b ≡ ro s.owner b)
        × ((assign_process_priority x s a).calls ≡ s.calls)
        × ((assign_process_priority x s a).process_map ≡ s.process_map)
  unfolding assign_process_priority
  assign_process_priority-frame b h =
      elim (Bool-cases (is_not_assignable (ro s.owner a).assigned_priority)) [
        | inr e ↦ rw e (refl, refl, refl)
        | inl e ↦ rw e (ro-write_ne s.owner a b _ h, refl, refl)
      ]
