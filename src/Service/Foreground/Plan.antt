-- ===== src/Service/Foreground/Plan.antt =====
-- daemon/src/service.rs: what a change of the foreground process asks of the kernel.
use mathlib.Core.List.{append-nil, append_assoc}
use system76_scheduler.Base.{
  Bool, List, [], any, ap, arith, contains, false, if◌then◌else◌, is_some, keep, map, nat_eq, none,
  not, refl, some, string_eq, sym, ℕ, ◌&&◌, ◌++◌, ◌==◌, ◌||◌, ◌∙◌, ◌∷◌, ◌≡◌,
}
use system76_scheduler.Base.Dict.{lookup, values}
use system76_scheduler.Config.Scheduler.{Config, ForegroundAssignments}
use system76_scheduler.Externals.{Externals}
use system76_scheduler.Kernel.{Syscall, set_calls}
use system76_scheduler.Process.Cell.{Owner, ancestors, is_assignable, ro}
use system76_scheduler.Process.Files.{Procfs}
use system76_scheduler.Process.Table.{ProcessMap, get_pid}
use system76_scheduler.Service.Apply.{
  process_assignment, process_descended_from, process_is_pipewire_assigned,
}
use system76_scheduler.Service.Children.{assign_children}
use system76_scheduler.Service.Children.Frame.{assign_children-Keeps}
use system76_scheduler.Service.Foreground.{
  enter_foreground_process, foreground_all, foreground_one, is_foreground, set_foreground_process,
}
use system76_scheduler.Service.State.{Service, set}

module _ (x : Externals) (fs : Procfs) (assignments : ForegroundAssignments) (pid : ℕ) where
  -- The processes that the map holds by their ID and whose priority the configuration leaves open
  abbrev pub is_open : Service → ℕ → Bool
  is_open s a = elim (lookup (ro s.owner a).id s.process_map.pid_map) [
    | none ↦ false
    | some b ↦ is_assignable (ro s.owner b).assigned_priority
  ]

  -- A process or one of its ancestors has the ID, or has it for its parent's.
  abbrev pub in_foreground : Service → ℕ → Bool
  in_foreground s a =
      any (λ b. (ro s.owner b).id == pid || (ro s.owner b).parent_id == pid)
        (a ∷ ancestors s.owner (ro s.owner a))

  abbrev pub in_pipewire : Service → ℕ → Bool
  in_pipewire s a =
      is_some (ro s.owner a).pipewire_ancestor || contains s.pipewire_processes (ro s.owner a).id

  -- The code's tests are these.
  open_lem :
      (s : Service) (a : ℕ) → is_assignable (process_assignment s (ro s.owner a).id) ≡ is_open s a
  unfolding process_assignment get_pid
  open_lem s a = ground arith

  foreground_lem : (s : Service) (a : ℕ) → is_foreground s pid (ro s.owner a) ≡ in_foreground s a
  unfolding is_foreground process_descended_from
  foreground_lem s a = ground arith

  -- The IDs that become foreground processes
  abbrev pub foreground_ids : Service → List ℕ → List ℕ
  foreground_ids s cells =
      map (λ a. (ro s.owner a).id) (keep (λ a. is_open s a && in_foreground s a) cells)

  -- The calls for one cell
  abbrev pub plan_one : Service → ℕ → List Syscall
  plan_one s a =
      if is_open s a && not (in_pipewire s a)
      then set_calls x fs (ro s.owner a).id
          (if in_foreground s a then assignments.foreground else assignments.background)
      else []

  abbrev pub plan : Service → List ℕ → List Syscall
  plan s [] = []
  plan s (a ∷ rest) = plan_one s a ++ plan s rest

  -- What the loop does not change
  pub record SameView (s t : Service) : Type 0 where
    pub same_owner : t.owner ≡ s.owner
    pub same_map : t.process_map ≡ s.process_map
    pub same_pipewire : t.pipewire_processes ≡ s.pipewire_processes

  foreground_one-SameView :
      (s : Service) (a : ℕ) → SameView s (foreground_one x fs assignments pid s a)
  unfolding foreground_one set
  foreground_one-SameView s a = record {
    same_owner = ground arith;
    same_map = ground arith;
    same_pipewire = ground arith;
  }

  foreground_one-calls :
      (s : Service) (a : ℕ)
      → (foreground_one x fs assignments pid s a).calls ≡ s.calls ++ plan_one s a
  unfolding foreground_one set process_is_pipewire_assigned
  foreground_one-calls s a =
      rw (open_lem s a, foreground_lem s a) (ground (arith, append-nil s.calls))

  foreground_one-processes :
      (s : Service) (a : ℕ)
      → (foreground_one x fs assignments pid s a).foreground_processes
        ≡ s.foreground_processes ++ foreground_ids s (a ∷ [])
  unfolding foreground_one set
  foreground_one-processes s a =
      rw (open_lem s a, foreground_lem s a) (ground (arith, append-nil s.foreground_processes))

  plan_one-SameView : {s t : Service} → SameView s t → (a : ℕ) → plan_one t a ≡ plan_one s a
  plan_one-SameView {s} {t} v a =
      ap (λ (o : Owner). plan_one (record t { owner = o }) a) v.same_owner
      ∙ ap (λ (m : ProcessMap). plan_one (record t { owner = s.owner; process_map = m }) a)
          v.same_map
      ∙ ap
          (λ (ids : List ℕ).
            plan_one
              (record t { owner = s.owner; process_map = s.process_map; pipewire_processes = ids })
              a)
          v.same_pipewire

  plan-SameView : {s t : Service} → SameView s t → (cells : List ℕ) → plan t cells ≡ plan s cells
  plan-SameView v [] = refl
  plan-SameView v (a ∷ rest) = rw (plan_one-SameView v a, plan-SameView v rest) refl

  foreground_ids-SameView :
      {s t : Service}
      → SameView s t
      → (cells : List ℕ) → foreground_ids t cells ≡ foreground_ids s cells
  foreground_ids-SameView {s} {t} v cells =
      ap (λ (o : Owner). foreground_ids (record t { owner = o }) cells) v.same_owner
      ∙ ap
          (λ (m : ProcessMap). foreground_ids (record t { owner = s.owner; process_map = m }) cells)
          v.same_map

  foreground_all-calls :
      (s : Service) (cells : List ℕ)
      → (foreground_all x fs assignments pid s cells).calls ≡ s.calls ++ plan s cells
  unfolding foreground_all
  foreground_all-calls s [] = sym (append-nil s.calls)
  foreground_all-calls s (a ∷ rest) =
      foreground_all-calls (foreground_one x fs assignments pid s a) rest
      ∙ rw (plan-SameView (foreground_one-SameView s a) rest, foreground_one-calls s a)
          (append_assoc s.calls (plan_one s a) (plan s rest))

  foreground_ids-cons :
      (s : Service) (a : ℕ) (rest : List ℕ)
      → foreground_ids s (a ∷ []) ++ foreground_ids s rest ≡ foreground_ids s (a ∷ rest)
  foreground_ids-cons s a rest = ground arith

  foreground_one-foreground :
      (s : Service) (a : ℕ) → (foreground_one x fs assignments pid s a).foreground ≡ s.foreground
  unfolding foreground_one set
  foreground_one-foreground s a = ground arith

  foreground_all-processes :
      (s : Service) (cells : List ℕ)
      → (foreground_all x fs assignments pid s cells).foreground_processes
        ≡ s.foreground_processes ++ foreground_ids s cells
  unfolding foreground_all
  foreground_all-processes s [] = sym (append-nil s.foreground_processes)
  foreground_all-processes s (a ∷ rest) =
      foreground_all-processes (foreground_one x fs assignments pid s a) rest
      ∙ rw
          (foreground_ids-SameView (foreground_one-SameView s a) rest, foreground_one-processes s a)
          (append_assoc s.foreground_processes (foreground_ids s (a ∷ [])) (foreground_ids s rest)
            ∙ ap (◌++◌ s.foreground_processes) (foreground_ids-cons s a rest))

  foreground_all-foreground :
      (s : Service) (cells : List ℕ)
      → ((foreground_all x fs assignments pid s cells).foreground ≡ s.foreground)
        × SameView s (foreground_all x fs assignments pid s cells)
  unfolding foreground_all
  foreground_all-foreground s [] =
      (refl, record { same_owner = refl; same_map = refl; same_pipewire = refl })
  foreground_all-foreground s (a ∷ rest) =
      let (f, v) = foreground_all-foreground (foreground_one x fs assignments pid s a) rest in
      let w : SameView s (foreground_one x fs assignments pid s a) = foreground_one-SameView s a in
      (
        f ∙ foreground_one-foreground s a,
        record {
          same_owner = v.same_owner ∙ w.same_owner;
          same_map = v.same_map ∙ w.same_map;
          same_pipewire = v.same_pipewire ∙ w.same_pipewire;
        },
      )

  entered :
      (t : Service)
      → let u : Service = enter_foreground_process x fs t pid (some assignments) in
        (u.calls ≡ t.calls ++ plan t (values t.process_map.map))
        × (u.foreground_processes ≡ pid ∷ foreground_ids t (values t.process_map.map))
        × (u.foreground ≡ some pid)
        × SameView t u
  unfolding enter_foreground_process
  entered t =
      let t' : Service = record t { foreground = some pid; foreground_processes = pid ∷ [] } in
      let v : SameView t t' = record { same_owner = refl; same_map = refl; same_pipewire = refl } in
      let cells : List ℕ = values t.process_map.map in
      let (f, w) = foreground_all-foreground t' cells in
      (
        foreground_all-calls t' cells ∙ ap (◌++◌ t.calls) (plan-SameView v cells),
        foreground_all-processes t' cells ∙ ap (◌∷◌ pid) (foreground_ids-SameView v cells),
        f,
        record {
          same_owner = w.same_owner;
          same_map = w.same_map;
          same_pipewire = w.same_pipewire;
        },
      )

  -- Where the feature is on, a change of the foreground process looks at the processes of the map once
  -- its children are in it. Each process whose priority the configuration leaves open and that is no
  -- pipewire process gets the foreground profile if it or one of its ancestors has the given ID, or has
  -- it for its parent's, and the background profile if not; no other process is touched. The foreground
  -- processes are the given one and those in the foreground whose priority is left open.
  pub set_foreground_process-plan :
      (s : Service)
      → s.config.process_scheduler.foreground ≡ some assignments
      → let t : Service = assign_children x fs s pid in
        let u : Service = set_foreground_process x fs s pid in
        (u.calls ≡ t.calls ++ plan t (values t.process_map.map))
        × (u.foreground_processes ≡ pid ∷ foreground_ids t (values t.process_map.map))
        × (u.foreground ≡ some pid)
        × SameView t u
  unfolding set_foreground_process
  set_foreground_process-plan s on =
      simp
        (ap (λ (c : Config). c.process_scheduler.foreground)
            (assign_children-Keeps x fs s pid).config
          ∙ on)
        (entered (assign_children x fs s pid))
