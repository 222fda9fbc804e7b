-- ===== src/Service/Valid/Pipewire.antt =====
-- daemon/src/service.rs: the invariant under the operations on pipewire processes.
use system76_scheduler.Base.{
  ℕ, ◌≡◌, refl, true, ◌||◌, nat_beq, Option, none, some, List, [], ◌∷◌, arith, inl, inr, contains,
  nat_eq, Bool-cases, ==_iff,
}
use system76_scheduler.Externals.{Externals}
use system76_scheduler.Config.Profile.{Profile}
use system76_scheduler.Config.Scheduler.{ForegroundAssignments}
use system76_scheduler.Process.Cell.{is_assignable, Process, ro, hash_id}
use system76_scheduler.Process.Table.{get_pid}
use system76_scheduler.Process.Table.Valid.{write-IsValid}
use system76_scheduler.Process.Files.{Procfs}
use system76_scheduler.Service.State.{Service, set}
use system76_scheduler.Service.Apply.{process_assignment, process_descended_from}
use system76_scheduler.Service.Pipewire.{
  is_id, pipewire_one, pipewire_all, enter_pipewire, refuses_pipewire, set_pipewire_process,
  restore_priority, unpipe_one, unpipe_all, remove_pipewire_process,
}
use system76_scheduler.Service.Valid.{IsAlive, Valid, write-IsAlive, assign_children-Valid}

module _ (x : Externals) (fs : Procfs) where
  pipewire_one-Valid :
      (profile : Profile) (process : ℕ) (s : Service) (a : ℕ)
      → IsAlive s.owner a
      → Valid x s
      → Valid x (pipewire_one x fs profile process s a)
  unfolding pipewire_one set hash_id
  pipewire_one-Valid profile process s a alive v =
      elim (Bool-cases (is_assignable (process_assignment s (ro s.owner a).id))) [
        | inr e ↦ rw e v
        | inl e ↦ rw e (elim (Bool-cases (nat_beq (ro s.owner a).id process)) [
          | inl f ↦ rw f v
          | inr f ↦ rw f (elim (Bool-cases (process_descended_from s (ro s.owner a) process)) [
            | inl g ↦ rw g (write-IsValid x s.owner s.process_map a _ alive refl refl v)
            | inr g ↦ rw g v
          ])
        ])
      ]

  pipewire_one-IsAlive :
      (profile : Profile) (process : ℕ) (s : Service) (a b : ℕ)
      → IsAlive s.owner b
      → IsAlive (pipewire_one x fs profile process s a).owner b
  unfolding pipewire_one set
  pipewire_one-IsAlive profile process s a b h = ground (
    arith,
    write-IsAlive s.owner a b (record (ro s.owner a) { pipewire_ancestor = some process }) h,
  )

  pipewire_one-process_map :
      (profile : Profile) (process : ℕ) (s : Service) (a : ℕ)
      → (pipewire_one x fs profile process s a).process_map ≡ s.process_map
  unfolding pipewire_one set
  pipewire_one-process_map profile process s a = ground arith

  pipewire_all-Valid :
      (profile : Profile) (process : ℕ) (s : Service) (cells : List ℕ)
      → ((b : ℕ) → contains cells b ≡ true → IsAlive s.owner b)
      → Valid x s
      → Valid x (pipewire_all x fs profile process s cells)
  unfolding pipewire_all
  pipewire_all-Valid profile process s [] alive v = v
  pipewire_all-Valid profile process s (a ∷ rest) alive v =
      pipewire_all-Valid profile process (pipewire_one x fs profile process s a) rest
        (λ b h. pipewire_one-IsAlive profile process s a b (alive b (ground arith)))
        (pipewire_one-Valid profile process s a (alive a (ground (arith, ==_iff a a))) v)

  pub set_pipewire_process-Valid :
      (s : Service) (process : ℕ) → Valid x s → Valid x (set_pipewire_process x fs s process)
  unfolding set_pipewire_process
  set_pipewire_process-Valid s process v = enter _ _ (assign_children-Valid x fs s process v)
    where
      enter :
          (t : Service) (p : Option Profile) → Valid x t → Valid x (enter_pipewire x fs t process p)
      enter t none w = unfold enter_pipewire in w
      enter t (some profile) w =
          unfold enter_pipewire in
          elim (Bool-cases (contains t.pipewire_processes process)) [
            | inl e ↦ rw e (pipewire_all-Valid profile process t _ w.alive w)
            | inr e ↦ rw e (elim (Bool-cases (refuses_pipewire t (get_pid t.process_map process))) [
              | inl f ↦ rw f w
              | inr f ↦ rw f (pipewire_all-Valid profile process _ _ w.alive w)
            ])
          ]

  restore-owner :
      (s : Service) (p : Process) (a : Option ForegroundAssignments)
      → ((restore_priority x fs s p a).owner ≡ s.owner)
        × ((restore_priority x fs s p a).process_map ≡ s.process_map)
  unfolding restore_priority set
  restore-owner s p a = ground arith

  unpipe_one-Valid :
      (process : ℕ) (s : Service) (a : ℕ)
      → IsAlive s.owner a
      → Valid x s
      → Valid x (unpipe_one x fs process s a)
        × ((b : ℕ) → IsAlive s.owner b → IsAlive (unpipe_one x fs process s a).owner b)
  unfolding unpipe_one hash_id
  unpipe_one-Valid process s a alive v =
      elim (Bool-cases
        (is_id process (ro s.owner a).pipewire_ancestor || nat_beq (ro s.owner a).id process)) [
          | inr e ↦ rw e (v, λ b h. h)
          | inl e ↦
              rw (e, (restore-owner _ _ _).0, (restore-owner _ _ _).1)
                (
                  write-IsValid x s.owner s.process_map a _ alive refl refl v,
                  λ b h. write-IsAlive s.owner a b _ h,
                )
        ]

  unpipe_all-Valid :
      (process : ℕ) (s : Service) (cells : List ℕ)
      → ((b : ℕ) → contains cells b ≡ true → IsAlive s.owner b)
      → Valid x s
      → Valid x (unpipe_all x fs process s cells)
  unfolding unpipe_all
  unpipe_all-Valid process s [] alive v = v
  unpipe_all-Valid process s (a ∷ rest) alive v =
      let (w, keeps) = unpipe_one-Valid process s a (alive a (ground (arith, ==_iff a a))) v in
      unpipe_all-Valid process (unpipe_one x fs process s a) rest
        (λ b h. keeps b (alive b (ground arith))) w

  pub remove_pipewire_process-Valid :
      (s : Service) (process : ℕ) → Valid x s → Valid x (remove_pipewire_process x fs s process)
  unfolding remove_pipewire_process
  remove_pipewire_process-Valid s process v =
      elim (Bool-cases (contains s.pipewire_processes process)) [
        | inl e ↦ rw e (unpipe_all-Valid process _ _ v.alive v)
        | inr e ↦ rw e v
      ]
