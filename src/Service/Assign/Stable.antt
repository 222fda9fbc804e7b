-- ===== src/Service/Assign/Stable.antt =====
-- daemon/src/service.rs, `assign_process_priority`: what is decided for one process, after others have been
-- decided on.
use system76_scheduler.Base.{
  ==_iff, Bool, Bool-cases, List, Option, ap, arith, false, if◌then◌else◌, inl, inr, is_some,
  nat_eq, none, refl, some, string_eq, subst, sym, true, ℕ, ◌==◌, ◌∙◌, ◌≡◌,
}
use system76_scheduler.Base.Dict.{lookup, values}
use system76_scheduler.Base.Text.{is_empty_text}
use system76_scheduler.Config.Assignments.{get_by_cmdline, get_by_name}
use system76_scheduler.Config.Profile.{Profile}
use system76_scheduler.Config.Scheduler.{Config}
use system76_scheduler.Externals.{Externals}
use system76_scheduler.Kernel.{Syscall}
use system76_scheduler.Process.Cell.{Priority, Process, is_not_assignable, ro, write}
use system76_scheduler.Process.Cell.Alike.{
  Alike, Alike-refl, Alike-trans, without_priority, write-Alike,
}
use system76_scheduler.Process.Cell.Writes.{ro-write_ne, ro-write_self}
use system76_scheduler.Process.Table.{empty_map}
use system76_scheduler.Service.Assign.{assign_process_priority, priority_by_conditions, priority_of}
use system76_scheduler.Service.Conditions.{process_is_exception, scan_conditions}
use system76_scheduler.Service.Conditions.Stable.{process_is_exception-Alike, scan_conditions-Alike}
use system76_scheduler.Service.State.{Service}

module _ (x : Externals) where
  -- The priority that a process has after the loop
  abbrev pub decide : Service → Process → Priority
  decide s p =
      if is_not_assignable p.assigned_priority then priority_of x s p else p.assigned_priority

  abbrev pub priority_after : Service → ℕ → Priority
  priority_after s a = decide s (ro s.owner a)

  -- The sources of a priority, as `priority_of` asks them
  first_of : Bool → Option Profile → Option Profile → Priority → Priority
  first_of excepted by_cmdline by_name otherwise =
      if excepted then Priority.exception else elim by_cmdline [
        | some profile ↦ Priority.config profile
        | none ↦ elim by_name [ some profile ↦ Priority.config profile | none ↦ otherwise ]
      ]

  priority_of-first_of :
      (s : Service) (p : Process)
      → priority_of x s p
        ≡ first_of
            (process_is_exception x s p)
            (get_by_cmdline s.config.process_scheduler.assignments p.cmdline)
            (get_by_name s.config.process_scheduler.assignments p.name)
            (priority_by_conditions x s p)
  unfolding priority_of first_of
  priority_of-first_of s p = refl

  -- The decision reads no priorities.
  priority_of-Alike :
      (s t : Service) (p r : Process)
      → Alike s.owner t.owner
      → t.config ≡ s.config
      → without_priority r ≡ without_priority p
      → priority_of x t r ≡ priority_of x s p
  unfolding priority_by_conditions
  priority_of-Alike s t p r h c e =
      priority_of-first_of t r
      ∙ (λ i.
          first_of (process_is_exception-Alike x h s t r p refl refl c e i)
            (get_by_cmdline (c i).process_scheduler.assignments (e i).cmdline)
            (get_by_name (c i).process_scheduler.assignments (e i).name)
            (if is_empty_text (e i).cgroup then Priority.not_assignable else conditions i))
      ∙ sym (priority_of-first_of s p)
    where
      conditions :
          scan_conditions x t.owner r (values t.config.process_scheduler.assignments.conditions)
          ≡ scan_conditions x s.owner p (values s.config.process_scheduler.assignments.conditions)
      conditions =
          ap
            (λ (k : Config).
              scan_conditions x t.owner r (values k.process_scheduler.assignments.conditions))
            c
          ∙ scan_conditions-Alike x h r p e
              (values s.config.process_scheduler.assignments.conditions)

  -- What is the same before and after a part of the loop
  pub record Continues (s t : Service) : Type 0 where
    pub alike : Alike s.owner t.owner
    pub configured : t.config ≡ s.config
    pub foreground : t.foreground ≡ s.foreground
    pub grounded : t.foreground_processes ≡ s.foreground_processes
    pub piped : t.pipewire_processes ≡ s.pipewire_processes
    pub decided : (a : ℕ) → priority_after t a ≡ priority_after s a

  pub Continues-refl : (s : Service) → Continues s s
  Continues-refl s = record {
    alike = Alike-refl s.owner;
    configured = refl;
    foreground = refl;
    grounded = refl;
    piped = refl;
    decided = λ a. refl;
  }

  pub Continues-trans : {s t u : Service} → Continues s t → Continues t u → Continues s u
  Continues-trans h k = record {
    alike = Alike-trans h.alike k.alike;
    configured = k.configured ∙ h.configured;
    foreground = k.foreground ∙ h.foreground;
    grounded = k.grounded ∙ h.grounded;
    piped = k.piped ∙ h.piped;
    decided = λ a. k.decided a ∙ h.decided a;
  }

  -- The cell is there.
  abbrev pub IsKept : Service → ℕ → Type 0
  IsKept s a = is_some (lookup a s.owner.cells) ≡ true

  -- The decision is written to the cell.
  abbrev decided_at : Service → ℕ → Service
  decided_at s a = record s {
    owner =
        write s.owner a
          (record (ro s.owner a) { assigned_priority = priority_of x s (ro s.owner a) });
  }

  decide-Alike :
      (s t : Service) (p : Process)
      → Alike s.owner t.owner
      → t.config ≡ s.config
      → decide t p ≡ decide s p
  decide-Alike s t p h c =
      ap
        (λ (v : Priority). if is_not_assignable p.assigned_priority then v else p.assigned_priority)
        (priority_of-Alike s t p p h c refl)

  if_either {ℓ} : {A : Type ℓ} (b : Bool) (u v : A) → u ≡ v → (if b then u else v) ≡ v
  if_either true u v e = e
  if_either false u v e = refl

  decided_at-Alike : (s : Service) (a : ℕ) → IsKept s a → Alike s.owner (decided_at s a).owner
  decided_at-Alike s a here = write-Alike s.owner a (priority_of x s (ro s.owner a)) here

  decided_at_self :
      (s : Service) (a : ℕ)
      → is_not_assignable (ro s.owner a).assigned_priority ≡ true
      → IsKept s a
      → priority_after (decided_at s a) a ≡ priority_after s a
  decided_at_self s a unset here =
      ap (decide (decided_at s a)) (ro-write_self s.owner a _)
      ∙ if_either (is_not_assignable (priority_of x s (ro s.owner a))) _ _ (
          priority_of-Alike s (decided_at s a) (ro s.owner a) _ (decided_at-Alike s a here) refl
            refl)
      ∙ rw unset refl

  decided_at_decided :
      (s : Service) (a : ℕ)
      → is_not_assignable (ro s.owner a).assigned_priority ≡ true
      → IsKept s a
      → (b : ℕ) → priority_after (decided_at s a) b ≡ priority_after s b
  decided_at_decided s a unset here b = elim (Bool-cases (b == a)) [
    | inl e ↦
        subst (λ n. priority_after (decided_at s a) n ≡ priority_after s n) (sym ((==_iff b a).0 e))
          (decided_at_self s a unset here)
    | inr e ↦
        ap (decide (decided_at s a)) (ro-write_ne s.owner a b _ (λ q. ground (arith, ==_iff b a)))
        ∙ decide-Alike s (decided_at s a) (ro s.owner b) (decided_at-Alike s a here) refl
  ]

  decided_at-Continues :
      (s : Service) (a : ℕ)
      → is_not_assignable (ro s.owner a).assigned_priority ≡ true
      → IsKept s a
      → Continues s (decided_at s a)
  decided_at-Continues s a unset here = record {
    alike = decided_at-Alike s a here;
    configured = refl;
    foreground = refl;
    grounded = refl;
    piped = refl;
    decided = decided_at_decided s a unset here;
  }

  pub assign_process_priority-Continues :
      (s : Service) (a : ℕ) → IsKept s a → Continues s (assign_process_priority x s a)
  assign_process_priority-Continues s a here =
      elim (Bool-cases (is_not_assignable (ro s.owner a).assigned_priority)) [
        | inl e ↦ unfold assign_process_priority in rw e (decided_at-Continues s a e here)
        | inr e ↦ unfold assign_process_priority in rw e (Continues-refl s)
      ]

  -- The cell has the decided priority afterwards.
  pub assign_process_priority-ro :
      (s : Service) (a : ℕ)
      → ro (assign_process_priority x s a).owner a
        ≡ record (ro s.owner a) { assigned_priority = priority_after s a }
  unfolding assign_process_priority
  assign_process_priority-ro s a =
      elim (Bool-cases (is_not_assignable (ro s.owner a).assigned_priority)) [
        | inl e ↦ rw e (ro-write_self s.owner a _)
        | inr e ↦ rw e refl
      ]

  -- Calls are not read.
  pub more_calls-Continues :
      (s t : Service) (calls : List Syscall)
      → Continues s t
      → Continues s (record t { calls = calls })
  more_calls-Continues s t calls h = record {
    alike = h.alike;
    configured = h.configured;
    foreground = h.foreground;
    grounded = h.grounded;
    piped = h.piped;
    decided = λ a.
        decide-Alike t (record t { calls = calls }) (ro t.owner a) (Alike-refl t.owner) refl
        ∙ h.decided a;
  }

  -- Nor is the map.
  pub emptied-Continues : (s : Service) → Continues s (record s { process_map = empty_map })
  emptied-Continues s = record {
    alike = Alike-refl s.owner;
    configured = refl;
    foreground = refl;
    grounded = refl;
    piped = refl;
    decided = λ a.
        decide-Alike s (record s { process_map = empty_map }) (ro s.owner a) (Alike-refl s.owner)
          refl;
  }
