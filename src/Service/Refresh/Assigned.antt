-- ===== src/Service/Refresh/Assigned.antt =====
-- daemon/src/service.rs, the loop of `process_map_refresh` that refreshes the priorities: what it does
-- to all processes, said of the state before it.
use mathlib.Core.List.{append-nil, append_assoc}
use system76_scheduler.Base.{
  ==_iff, ==_refl, Bool-cases, List, Option, [], ap, arith, contains, inl, inr, nat_eq, none, refl,
  some, string_eq, subst, sym, true, ℕ, ◌++◌, ◌==◌, ◌∙◌, ◌∷◌, ◌≡◌,
}
use system76_scheduler.Base.Dict.{values}
use system76_scheduler.Config.Profile.{Profile}
use system76_scheduler.Externals.{Externals}
use system76_scheduler.Kernel.{Syscall, set_calls}
use system76_scheduler.Process.Cell.{Priority, Process, is_not_assignable, ro}
use system76_scheduler.Process.Cell.Alike.{without_priority}
use system76_scheduler.Process.Files.{Procfs}
use system76_scheduler.Process.Table.{empty_map}
use system76_scheduler.Service.Apply.{apply_process_priority, profile_of}
use system76_scheduler.Service.Apply.Stable.{profile_of-only}
use system76_scheduler.Service.Assign.{assign_process_priority}
use system76_scheduler.Service.Assign.Precedence.{assign_process_priority-frame}
use system76_scheduler.Service.Assign.Stable.{
  Continues, Continues-trans, IsKept, assign_process_priority-Continues, assign_process_priority-ro,
  emptied-Continues, more_calls-Continues, priority_after,
}
use system76_scheduler.Service.Refresh.{reassign, refresh_assignments}
use system76_scheduler.Service.State.{Service, new_service, set}
use system76_scheduler.Service.Valid.{Valid}

module _ (x : Externals) (fs : Procfs) where
  -- A round of the loop
  abbrev round : Service → ℕ → Service
  round s a =
      apply_process_priority x fs (assign_process_priority x s a)
        (ro (assign_process_priority x s a).owner a)

  abbrev pub calls_of : ℕ → Option Profile → List Syscall
  calls_of id none = []
  calls_of id (some profile) = set_calls x fs id profile

  -- The calls for a process, with the priority that it has after the loop
  abbrev pub calls_for : Service → ℕ → List Syscall
  calls_for s a = calls_of (ro s.owner a).id (profile_of x s (ro s.owner a) (priority_after x s a))

  abbrev pub calls_for_all : Service → List ℕ → List Syscall
  calls_for_all s [] = []
  calls_for_all s (a ∷ rest) = calls_for s a ++ calls_for_all s rest

  apply-calls :
      (t : Service) (p : Process)
      → apply_process_priority x fs t p
        ≡ record t { calls = t.calls ++ calls_of p.id (profile_of x t p p.assigned_priority) }
  unfolding apply_process_priority
  apply-calls t p = applied (profile_of x t p p.assigned_priority)
    where
      applied :
          (found : Option Profile)
          → elim found [ none ↦ t | some profile ↦ set x fs t p.id profile ]
            ≡ record t { calls = t.calls ++ calls_of p.id found }
      applied none =
          ap (λ (calls : List Syscall). record t { calls = calls }) (sym (append-nil t.calls))
      applied (some profile) = unfold set in refl

  -- The profile is that of the service before.
  profile_of-Continues :
      (s t : Service) (p r : Process) (priority : Priority)
      → Continues x s t
      → without_priority r ≡ without_priority p
      → profile_of x t r priority ≡ profile_of x s p priority
  profile_of-Continues s t p r priority h e =
      profile_of-only x t r priority
      ∙ (λ i.
          profile_of x
            (record (new_service none) {
              config = h.configured i;
              foreground_processes = h.grounded i;
              foreground = h.foreground i;
              pipewire_processes = h.piped i;
            })
            (e i) priority)
      ∙ sym (profile_of-only x s p priority)

  -- A round
  assign-calls : (s : Service) (a : ℕ) → (assign_process_priority x s a).calls ≡ s.calls
  unfolding assign_process_priority
  assign-calls s a = elim (Bool-cases (is_not_assignable (ro s.owner a).assigned_priority)) [
    | inl e ↦ rw e refl
    | inr e ↦ rw e refl
  ]

  round-calls :
      (s : Service) (a : ℕ)
      → IsKept x s a
      → round s a ≡ record (assign_process_priority x s a) { calls = s.calls ++ calls_for s a }
  round-calls s a here =
      apply-calls t (ro t.owner a)
      ∙ (λ i. record t { calls = assign-calls s a i ++ calls_of (written i).id (profile i) })
    where
      t : Service
      t = assign_process_priority x s a

      written : ro t.owner a ≡ record (ro s.owner a) { assigned_priority = priority_after x s a }
      written = assign_process_priority-ro x s a

      profile :
          profile_of x t (ro t.owner a) (ro t.owner a).assigned_priority
          ≡ profile_of x s (ro s.owner a) (priority_after x s a)
      profile =
          ap (λ (p : Process). profile_of x t p p.assigned_priority) written
          ∙ profile_of-Continues s t (ro s.owner a) _ (priority_after x s a)
              (assign_process_priority-Continues x s a here) refl

  calls_for-Continues : (s t : Service) (a : ℕ) → Continues x s t → calls_for t a ≡ calls_for s a
  calls_for-Continues s t a h = λ i. calls_of (h.alike.same a i).id (profile i)
    where
      profile :
          profile_of x t (ro t.owner a) (priority_after x t a)
          ≡ profile_of x s (ro s.owner a) (priority_after x s a)
      profile =
          ap (profile_of x t (ro t.owner a)) (h.decided a)
          ∙ profile_of-Continues s t (ro s.owner a) (ro t.owner a) (priority_after x s a) h
              (h.alike.same a)

  -- The process has the priority that is decided.
  abbrev pub IsSettled : Service → Service → ℕ → Type 0
  IsSettled s t a = (ro t.owner a).assigned_priority ≡ priority_after x s a

  -- What a part of the loop does, on the way from the first service to the last
  record Passed (s t u : Service) (cells : List ℕ) : Type 0 where
    continues : Continues x s u
    calls : u.calls ≡ t.calls ++ calls_for_all s cells
    settled : (a : ℕ) → contains cells a ≡ true → IsSettled s u a
    kept : (a : ℕ) → IsSettled s t a → IsSettled s u a
    listed : u.process_map ≡ t.process_map

  assign-map : (s : Service) (a : ℕ) → (assign_process_priority x s a).process_map ≡ s.process_map
  unfolding assign_process_priority
  assign-map s a = elim (Bool-cases (is_not_assignable (ro s.owner a).assigned_priority)) [
    | inl e ↦ rw e refl
    | inr e ↦ rw e refl
  ]

  round-Passed :
      (s t : Service) (a : ℕ) → Continues x s t → IsKept x t a → Passed s t (round t a) (a ∷ [])
  round-Passed s t a h here =
      subst (λ u. Passed s t u (a ∷ [])) (sym (round-calls t a here))
        (record {
          continues = Continues-trans x h (
              more_calls-Continues x t (assign_process_priority x t a) _
                (assign_process_priority-Continues x t a here));
          calls =
              ap (◌++◌ t.calls) (calls_for-Continues s t a h ∙ sym (append-nil (calls_for s a)));
          settled = λ b e.
              subst (IsSettled s (assign_process_priority x t a)) (ground (arith, ==_iff a b)) self;
          kept = λ b e. elim (Bool-cases (b == a)) [
            | inl q ↦
                subst (IsSettled s (assign_process_priority x t a)) (sym ((==_iff b a).0 q)) self
            | inr q ↦
                ap (λ (p : Process). p.assigned_priority)
                  (assign_process_priority-frame x t a b (λ same. ground (arith, ==_iff b a))).0
                ∙ e
          ];
          listed = assign-map t a;
        })
    where
      self : IsSettled s (assign_process_priority x t a) a
      self =
          ap (λ (p : Process). p.assigned_priority) (assign_process_priority-ro x t a) ∙ h.decided a

  joined : (calls one more : List Syscall) → (calls ++ (one ++ [])) ++ more ≡ calls ++ (one ++ more)
  joined calls one more = simp (append-nil, append_assoc)

  reassign-Passed :
      (s t : Service) (cells : List ℕ)
      → Continues x s t
      → ((a : ℕ) → contains cells a ≡ true → IsKept x s a)
      → Passed s t (reassign x fs t cells) cells
  unfolding reassign
  reassign-Passed s t [] h here = record {
    continues = h;
    calls = sym (append-nil t.calls);
    settled = λ a e. absurd (cc);
    kept = λ a e. e;
    listed = refl;
  }
  reassign-Passed s t (a ∷ rest) h here =
      let one = round-Passed s t a h (h.alike.kept a ∙ here a (ground (arith, ==_refl a))) in
      let more = reassign-Passed s (round t a) rest one.continues (λ b e. here b (ground arith)) in
      record {
        continues = more.continues;
        calls =
            more.calls
            ∙ ap (λ (calls : List Syscall). calls ++ calls_for_all s rest) one.calls
            ∙ joined t.calls (calls_for s a) (calls_for_all s rest);
        settled = λ b e. elim (Bool-cases (contains rest b)) [
          | inl q ↦ more.settled b q
          | inr q ↦ more.kept b (one.settled b (ground arith))
        ];
        kept = λ b e. more.kept b (one.kept b e);
        listed = more.listed ∙ one.listed;
      }

  -- The refresh of the priorities, for a valid map: each process of the map has afterwards the priority
  -- that it had, or, if it had none, the one that the configuration gives it in the state before; the
  -- calls are, in the order of the map, those that set the profile of this priority; and the map stays
  -- as it is. So no process's priority depends on what the loop did to the processes before it.
  pub refresh_assignments-settles :
      (s : Service)
      → Valid x s
      → let u : Service = refresh_assignments x fs s in
        let cells : List ℕ = values s.process_map.map in
        ((a : ℕ)
          → contains cells a ≡ true
          → (ro u.owner a).assigned_priority ≡ priority_after x s a)
        × (u.calls ≡ s.calls ++ calls_for_all s cells)
        × (u.process_map ≡ s.process_map)
  unfolding refresh_assignments
  refresh_assignments-settles s v =
      let p =
        reassign-Passed s (record s { process_map = empty_map }) (values s.process_map.map)
          (emptied-Continues x s) v.alive in
      (p.settled, p.calls, refl)
