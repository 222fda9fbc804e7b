-- ===== src/Service/Safe/Processes.antt =====
-- daemon/src/service.rs: the calls for one process are accepted by the kernel.
use system76_scheduler.Base.{
  All, All-append, Bool-cases, List, Option, Option-cases, [], contains, false, inl, inr, nat_eq,
  none, refl, some, string_eq, ℕ, ◌==◌, ◌||◌, ◌∷◌, ◌≡◌,
}
use system76_scheduler.Base.Dict.{All-lookup, lookup}
use system76_scheduler.Base.Text.{is_empty_text}
use system76_scheduler.Config.Assignments.{Rule, get_by_cmdline, get_by_name}
use system76_scheduler.Config.Parser.Assigned.{AreInRange}
use system76_scheduler.Config.Parser.Ranges.{new_profile-IsInRange}
use system76_scheduler.Config.Parser.Whole.{IsSafe}
use system76_scheduler.Config.Profile.{Profile}
use system76_scheduler.Config.Scheduler.{ForegroundAssignments}
use system76_scheduler.Externals.{Externals}
use system76_scheduler.Kernel.Laws.{IsAccepted, IsInRange, set_calls-IsAccepted}
use system76_scheduler.Process.Cell.{Owner, Priority, Process, is_not_assignable, ro}
use system76_scheduler.Process.Files.{Procfs}
use system76_scheduler.Process.Table.{ProcessMap}
use system76_scheduler.Service.Apply.{
  apply_process_priority, assignable_profile, foreground_or_default, ground_profile,
  process_is_pipewire_assigned, profile_of,
}
use system76_scheduler.Service.Assign.{assign_process_priority, priority_by_conditions, priority_of}
use system76_scheduler.Service.Conditions.{process_is_exception, scan_conditions, scan_rules}
use system76_scheduler.Service.Safe.Cells.{CellSafe, OwnerSafe, PriorityInRange, write-OwnerSafe}
use system76_scheduler.Service.State.{Service, set}

-- The configuration and the assigned profiles are in range, and every call so far was accepted.
pub record Safe (s : Service) : Type 0 where
  pub config_safe : IsSafe s.config.process_scheduler
  pub cells_safe : OwnerSafe s.owner
  pub calls_safe : All IsAccepted s.calls

-- Other fields do not count.
pub with_owner-Safe :
    {s : Service} (o : Owner) (m : ProcessMap)
    → OwnerSafe o
    → Safe s
    → Safe (record s { owner = o; process_map = m })
with_owner-Safe o m h v = record {
  config_safe = v.config_safe;
  cells_safe = h;
  calls_safe = v.calls_safe;
}

pub set-Safe :
    (x : Externals) (fs : Procfs) (s : Service) (pid : ℕ) (p : Profile)
    → IsInRange p
    → Safe s
    → Safe (set x fs s pid p)
unfolding set
set-Safe x fs s pid p h v = record {
  config_safe = v.config_safe;
  cells_safe = v.cells_safe;
  calls_safe = All-append IsAccepted s.calls _ v.calls_safe (set_calls-IsAccepted x fs pid p h);
}

module _ (x : Externals) where
  scan_conditions-InRange :
      (o : Owner) (p : Process) (entries : List (Profile × List Rule))
      → All (λ e. IsInRange e.0) entries
      → PriorityInRange (scan_conditions x o p entries)
  unfolding scan_conditions
  scan_conditions-InRange o p [] h = tt
  scan_conditions-InRange o p ((profile, rules) ∷ rest) h =
      elim (Bool-cases (scan_rules x o p rules false)) [
        | inl e ↦ rw (e, scan_conditions) h.0
        | inr e ↦ rw (e, scan_conditions) (scan_conditions-InRange o p rest h.1)
      ]

  priority_of-InRange :
      (s : Service) (p : Process)
      → AreInRange s.config.process_scheduler.assignments
      → PriorityInRange (priority_of x s p)
  unfolding priority_of priority_by_conditions get_by_cmdline get_by_name
  priority_of-InRange s p w = elim (Bool-cases (process_is_exception x s p)) [
    | inl e ↦ rw e tt
    | inr e ↦
        rw e
          (elim (Option-cases
            (lookup p.cmdline s.config.process_scheduler.assignments.profile_by_cmdline)) [
              | inr (profile, f) ↦ rw f (All-lookup IsInRange p.cmdline profile _ w.by_cmdline f)
              | inl f ↦
                  rw f
                    (elim (Option-cases
                      (lookup p.name s.config.process_scheduler.assignments.profile_by_name)) [
                        | inr (profile, g) ↦
                            rw g (All-lookup IsInRange p.name profile _ w.by_name g)
                        | inl g ↦ rw g (elim (Bool-cases (is_empty_text p.cgroup)) [
                          | inl h ↦ rw h tt
                          | inr h ↦ rw h (scan_conditions-InRange s.owner p _ w.by_condition)
                        ])
                      ])
            ])
  ]

  pub assign-Safe : (s : Service) (a : ℕ) → Safe s → Safe (assign_process_priority x s a)
  unfolding assign_process_priority
  assign-Safe s a v = elim (Bool-cases (is_not_assignable (ro s.owner a).assigned_priority)) [
    | inr e ↦ rw e v
    | inl e ↦ rw e (
        with_owner-Safe _ s.process_map
          (write-OwnerSafe s.owner a _ (priority_of-InRange s (ro s.owner a) v.config_safe.assigned)
            v.cells_safe)
          v)
  ]

  foreground_or_default-IsInRange :
      (s : Service) (p : Process) (f : Option ForegroundAssignments) (g : Option ℕ)
      → ((a : ForegroundAssignments) → f ≡ some a → IsInRange a.foreground × IsInRange a.background)
      → IsInRange (foreground_or_default x s p f g)
  unfolding foreground_or_default
  foreground_or_default-IsInRange s p none g h = new_profile-IsInRange x "default"
  foreground_or_default-IsInRange s p (some a) none h = new_profile-IsInRange x "default"
  foreground_or_default-IsInRange s p (some a) (some g) h =
      elim (Bool-cases (p.id == g || contains s.foreground_processes p.id)) [
        | inl e ↦ rw (e, ground_profile) (h a refl).0
        | inr e ↦ rw (e, ground_profile) (h a refl).1
      ]

  assignable_profile-IsInRange :
      (s : Service) (p : Process) (pipewire : Option Profile)
      → IsSafe s.config.process_scheduler
      → ((q : Profile) → pipewire ≡ some q → IsInRange q)
      → IsInRange (assignable_profile x s p pipewire)
  unfolding assignable_profile
  assignable_profile-IsInRange s p none c h =
      foreground_or_default-IsInRange s p s.config.process_scheduler.foreground s.foreground
        c.foreground_pair
  assignable_profile-IsInRange s p (some q) c h =
      elim (Bool-cases (process_is_pipewire_assigned s p)) [
        | inl e ↦ rw e (h q refl)
        | inr e ↦ rw e (
            foreground_or_default-IsInRange s p s.config.process_scheduler.foreground s.foreground
              c.foreground_pair)
      ]

  pub apply-Safe :
      (fs : Procfs) (s : Service) (p : Process)
      → CellSafe p
      → Safe s
      → Safe (apply_process_priority x fs s p)
  unfolding apply_process_priority
  apply-Safe fs s p h v = go p.assigned_priority h
    where
      go :
          (q : Priority)
          → PriorityInRange q
          → Safe (elim (profile_of x s p q) [ none ↦ s | some profile ↦ set x fs s p.id profile ])
      go Priority.assignable i =
          unfold profile_of in
          set-Safe x fs s p.id _
            (assignable_profile-IsInRange s p s.config.process_scheduler.pipewire v.config_safe
              v.config_safe.pipewire_profile)
            v
      go (Priority.config profile) i = unfold profile_of in set-Safe x fs s p.id profile i v
      go Priority.exception i = unfold profile_of in v
      go Priority.not_assignable i = unfold profile_of in v
