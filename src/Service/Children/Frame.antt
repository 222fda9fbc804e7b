-- ===== src/Service/Children/Frame.antt =====
-- daemon/src/service.rs: what `assign_children` leaves as it is.
use system76_scheduler.Base.{Option-cases, arith, inl, inr, nat_eq, refl, string_eq, ℕ, ◌≡◌}
use system76_scheduler.Externals.{Externals}
use system76_scheduler.Process.Cell.{Process}
use system76_scheduler.Process.Files.{Procfs}
use system76_scheduler.Service.Apply.{apply_process_priority, profile_of}
use system76_scheduler.Service.Assign.{assign_process_priority}
use system76_scheduler.Service.Children.{assign_children, enter_process}
use system76_scheduler.Service.Children.Induction.{assign_children-keeps}
use system76_scheduler.Service.State.{Service, set}

module _ (x : Externals) (fs : Procfs) where
  -- The configuration, the foreground processes and the pipewire processes are the same.
  pub record Keeps (s t : Service) : Type 0 where
    pub config : t.config ≡ s.config
    pub foreground : t.foreground ≡ s.foreground
    pub foreground_processes : t.foreground_processes ≡ s.foreground_processes
    pub pipewire_processes : t.pipewire_processes ≡ s.pipewire_processes

  assign-Keeps : (r s : Service) (a : ℕ) → Keeps r s → Keeps r (assign_process_priority x s a)
  unfolding assign_process_priority
  assign-Keeps r s a v = record {
    config = ground (arith, v.config);
    foreground = ground (arith, v.foreground);
    foreground_processes = ground (arith, v.foreground_processes);
    pipewire_processes = ground (arith, v.pipewire_processes);
  }

  apply-Keeps :
      (r s : Service) (p : Process) → Keeps r s → Keeps r (apply_process_priority x fs s p)
  unfolding apply_process_priority set
  apply-Keeps r s p v = elim (Option-cases (profile_of x s p p.assigned_priority)) [
    | inl e ↦ rw (e, apply_process_priority) v
    | inr (profile, e) ↦
        rw (e, apply_process_priority)
          (record {
            config = v.config;
            foreground = v.foreground;
            foreground_processes = v.foreground_processes;
            pipewire_processes = v.pipewire_processes;
          })
  ]

  enter_process-Keeps : (r s : Service) (p : Process) → Keeps r s → Keeps r (enter_process x fs s p)
  unfolding enter_process
  enter_process-Keeps r s p v = apply-Keeps r _ _ (
      assign-Keeps r _ _ (record {
        config = v.config;
        foreground = v.foreground;
        foreground_processes = v.foreground_processes;
        pipewire_processes = v.pipewire_processes;
      }))

  pub assign_children-Keeps : (s : Service) (pid : ℕ) → Keeps s (assign_children x fs s pid)
  assign_children-Keeps s pid =
      assign_children-keeps x fs (Keeps s) (λ t p h v. enter_process-Keeps s t p v)
        (λ t done v. record {
          config = v.config;
          foreground = v.foreground;
          foreground_processes = v.foreground_processes;
          pipewire_processes = v.pipewire_processes;
        })
        s pid
        (record {
          config = refl;
          foreground = refl;
          foreground_processes = refl;
          pipewire_processes = refl;
        })
