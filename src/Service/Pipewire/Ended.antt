-- ===== src/Service/Pipewire/Ended.antt =====
-- daemon/src/service.rs: what is left of a pipewire process after its removal.
use system76_scheduler.Base.{
  ==_iff, Bool-cases, List, Option, [], arith, contains, false, inl, inr, nat_eq, none, refl,
  string_eq, subst, true, ℕ, ◌==◌, ◌||◌, ◌∙◌, ◌∷◌, ◌≡◌, ◌≢◌, ◌⊎◌,
}
use system76_scheduler.Base.Dict.{values}
use system76_scheduler.Base.Distinct.{Distinct}
use system76_scheduler.Config.Scheduler.{ForegroundAssignments}
use system76_scheduler.Externals.{Externals}
use system76_scheduler.Process.Cell.{Owner, Process, ro, write}
use system76_scheduler.Process.Cell.Writes.{ro-write}
use system76_scheduler.Process.Files.{Procfs}
use system76_scheduler.Process.Table.{ProcessMap}
use system76_scheduler.Service.Pipewire.{
  is_id, remove_first, remove_pipewire_process, restore_priority, unpipe_all, unpipe_one,
}
use system76_scheduler.Service.State.{Service, set}

remove_first-ne :
    (pid other : ℕ) (pids : List ℕ)
    → other ≢ pid
    → contains (remove_first pid pids) other ≡ contains pids other
unfolding remove_first
remove_first-ne pid other [] h = refl
remove_first-ne pid other (p ∷ pids) h =
    ground (arith, remove_first-ne pid other pids h, ==_iff p pid, ==_iff p other)

remove_first_self :
    (pid : ℕ) (pids : List ℕ) → Distinct pids → contains (remove_first pid pids) pid ≡ false
unfolding remove_first
remove_first_self pid [] d = refl
remove_first_self pid (p ∷ pids) d = elim (Bool-cases (p == pid)) [
  | inl e ↦ rw e (subst (λ q. contains pids q ≡ false) ((==_iff p pid).0 e) d.0)
  | inr e ↦ rw (e, ◌==◌) (ground (arith, remove_first_self pid pids d.1))
]

module _ (x : Externals) (fs : Procfs) (process : ℕ) where
  -- The cell is not marked as a descendant of the process.
  abbrev pub IsUnmarked : Owner → ℕ → Type 0
  IsUnmarked o a = is_id process (ro o a).pipewire_ancestor ≡ false

  restore-same_owner :
      (s : Service) (p : Process) (f : Option ForegroundAssignments)
      → (restore_priority x fs s p f).owner ≡ s.owner
  unfolding restore_priority set
  restore-same_owner s p f = ground arith

  write-IsUnmarked :
      (o : Owner) (a b : ℕ)
      → ((a == b) ≡ true) ⊎ IsUnmarked o b
      → IsUnmarked (write o a (record (ro o a) { pipewire_ancestor = none })) b
  write-IsUnmarked o a b h =
      rw (ro-write o a b (record (ro o a) { pipewire_ancestor = none }))
        (elim (Bool-cases (a == b)) [
          | inl e ↦ rw e refl
          | inr e ↦ rw e (elim h [ inl f ↦ cc | inr f ↦ f ])
        ])

  -- After one round the cell is unmarked, and cells that were unmarked still are.
  unpipe_one-IsUnmarked :
      (s : Service) (a b : ℕ)
      → ((a == b) ≡ true) ⊎ IsUnmarked s.owner b
      → IsUnmarked (unpipe_one x fs process s a).owner b
  unfolding unpipe_one
  unpipe_one-IsUnmarked s a b h =
      elim (Bool-cases
        (is_id process (ro s.owner a).pipewire_ancestor || (ro s.owner a).id == process)) [
          | inl e ↦ rw (e, restore-same_owner _ _ _) (write-IsUnmarked s.owner a b h)
          | inr e ↦ rw e (elim h [
            | inl same ↦ subst (IsUnmarked s.owner) ((==_iff a b).0 same) (ground arith)
            | inr f ↦ f
          ])
        ]

  unpipe_all-IsUnmarked :
      (s : Service) (cells : List ℕ) (b : ℕ)
      → (contains cells b ≡ true) ⊎ IsUnmarked s.owner b
      → IsUnmarked (unpipe_all x fs process s cells).owner b
  unfolding unpipe_all
  unpipe_all-IsUnmarked s [] b (inl h) = absurd (ground arith)
  unpipe_all-IsUnmarked s [] b (inr h) = h
  unpipe_all-IsUnmarked s (a ∷ rest) b (inl h) = elim (Bool-cases (a == b)) [
    | inl e ↦
        unpipe_all-IsUnmarked (unpipe_one x fs process s a) rest b
          (inr (unpipe_one-IsUnmarked s a b (inl e)))
    | inr e ↦ unpipe_all-IsUnmarked (unpipe_one x fs process s a) rest b (inl (ground arith))
  ]
  unpipe_all-IsUnmarked s (a ∷ rest) b (inr h) =
      unpipe_all-IsUnmarked (unpipe_one x fs process s a) rest b
        (inr (unpipe_one-IsUnmarked s a b (inr h)))

  unpipe_one-keeps :
      (s : Service) (a : ℕ)
      → ((unpipe_one x fs process s a).pipewire_processes ≡ s.pipewire_processes)
        × ((unpipe_one x fs process s a).process_map ≡ s.process_map)
  unfolding unpipe_one set
  unpipe_one-keeps s a = ground arith

  unpipe_all-keeps :
      (s : Service) (cells : List ℕ)
      → ((unpipe_all x fs process s cells).pipewire_processes ≡ s.pipewire_processes)
        × ((unpipe_all x fs process s cells).process_map ≡ s.process_map)
  unfolding unpipe_all
  unpipe_all-keeps s [] = (refl, refl)
  unpipe_all-keeps s (a ∷ rest) =
      let (p, m) = unpipe_all-keeps (unpipe_one x fs process s a) rest in
      let (q, n) = unpipe_one-keeps s a in (p ∙ q, m ∙ n)

  -- The removal of a pipewire process: it is no pipewire process any more, no process of the map is
  -- marked as its descendant, and the other pipewire processes stay.
  pub remove_pipewire_process-ended :
      (s : Service)
      → contains s.pipewire_processes process ≡ true
      → Distinct s.pipewire_processes
      → let t : Service = remove_pipewire_process x fs s process in
        (contains t.pipewire_processes process ≡ false)
        × ((a : ℕ) → contains (values t.process_map.map) a ≡ true → IsUnmarked t.owner a)
        × ((other : ℕ)
            → other ≢ process
            → contains t.pipewire_processes other ≡ contains s.pipewire_processes other)
  unfolding remove_pipewire_process
  remove_pipewire_process-ended s present distinct = rw present (
      let t : Service = record s {
        pipewire_processes = remove_first process s.pipewire_processes;
      } in
      let (p, m) = unpipe_all-keeps t (values s.process_map.map) in
      (
        rw p (remove_first_self process s.pipewire_processes distinct),
        λ a h.
            unpipe_all-IsUnmarked t (values s.process_map.map) a
              (inl (subst (λ (n : ProcessMap). contains (values n.map) a ≡ true) m h)),
        λ other h. rw p (remove_first-ne process other s.pipewire_processes h),
      ))
