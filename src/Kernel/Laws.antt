-- ===== src/Kernel/Laws.antt =====
-- daemon/src/priority.rs: the values that reach the kernel.
use system76_scheduler.Base.{
  All, All-append, List, Option, Option-cases, [], false, inl, inr, nat_eq, none, refl, some,
  string_eq, true, ℕ, ◌∷◌, ◌≡◌, ◌≤◌,
}
use system76_scheduler.Base.Int.{negsuc, pos, ℤ, ◌≤ℤ◌}
use system76_scheduler.Config.Policy.{is_realtime}
use system76_scheduler.Config.Profile.{Profile}
use system76_scheduler.Externals.{Externals}
use system76_scheduler.Kernel.{
  Syscall, nice_calls, param_priority, set_calls, set_io, set_nice, set_policy, set_scheduler,
  task_calls, tasks_calls,
}
use system76_scheduler.Process.Files.{Procfs}

-- A niceness of -20 .. 19, and a scheduling priority of 1 .. 99
pub record IsInRange (p : Profile) : Type 0 where
  pub nice : (n : ℤ) → p.nice ≡ some n → (negsuc 19 ≤ℤ n) × (n ≤ℤ pos 19)
  pub priority : (1 ≤ p.sched_priority) × (p.sched_priority ≤ 99)

-- What `setpriority` and `sched_setscheduler` accept: a real-time policy wants a priority of 1 .. 99, and
-- any other policy wants 0.
abbrev pub IsAccepted : Syscall → Type 0
IsAccepted (set_nice task n) = (negsuc 19 ≤ℤ n) × (n ≤ℤ pos 19)
IsAccepted (set_scheduler task policy priority) =
    (is_realtime policy ≡ true → (1 ≤ priority) × (priority ≤ 99))
    × (is_realtime policy ≡ false → priority ≡ 0)
IsAccepted _ = Unit

nice_calls-IsAccepted :
    (task : ℕ) (nice : Option ℤ)
    → ((n : ℤ) → nice ≡ some n → (negsuc 19 ≤ℤ n) × (n ≤ℤ pos 19))
    → All IsAccepted (nice_calls task nice)
unfolding nice_calls
nice_calls-IsAccepted task none h = tt
nice_calls-IsAccepted task (some n) h = (h n refl, tt)

task_calls-IsAccepted : (task : ℕ) (p : Profile) → IsInRange p → All IsAccepted (task_calls task p)
unfolding task_calls set_policy param_priority
task_calls-IsAccepted task p v =
    All-append IsAccepted (nice_calls task p.nice) _ (nice_calls-IsAccepted task p.nice v.nice)
      ((λ r. rw r v.priority, λ r. rw r refl), (tt, tt))

tasks_calls-IsAccepted :
    (x : Externals) (p : Profile) (names : List (List ℕ))
    → IsInRange p
    → All IsAccepted (tasks_calls x p names)
unfolding tasks_calls
tasks_calls-IsAccepted x p [] v = tt
tasks_calls-IsAccepted x p (name ∷ rest) v = elim (Option-cases (x.atoi name)) [
  | inl e ↦ rw (e, tasks_calls) tt
  | inr (task, e) ↦
      rw (e, tasks_calls)
        (All-append IsAccepted (task_calls task p) _ (task_calls-IsAccepted task p v)
          (tasks_calls-IsAccepted x p rest v))
]

-- All that `priority::set` asks for a profile in range is accepted by the kernel.
pub set_calls-IsAccepted :
    (x : Externals) (fs : Procfs) (process : ℕ) (p : Profile)
    → IsInRange p
    → All IsAccepted (set_calls x fs process p)
unfolding set_calls
set_calls-IsAccepted x fs process p v = elim (Option-cases (fs.tasks process)) [
  | inl e ↦ rw (e, set_calls) tt
  | inr (names, e) ↦ rw (e, set_calls) (tasks_calls-IsAccepted x p names v)
]

-- A call carries the values of the profile.
abbrev pub Carries : Profile → Syscall → Type 0
Carries p (set_nice task n) = p.nice ≡ some n
Carries p (set_scheduler task policy priority) =
    (policy ≡ p.sched_policy)
    × (is_realtime p.sched_policy ≡ true → priority ≡ p.sched_priority)
    × (is_realtime p.sched_policy ≡ false → priority ≡ 0)
Carries p (set_io task class) = class ≡ p.io
Carries p _ = ⊥

nice_calls-Carries :
    (task : ℕ) (p : Profile) (nice : Option ℤ)
    → p.nice ≡ nice
    → All (Carries p) (nice_calls task nice)
unfolding nice_calls
nice_calls-Carries task p none h = tt
nice_calls-Carries task p (some n) h = (h, tt)

tasks_calls-Carries :
    (x : Externals) (p : Profile) (names : List (List ℕ)) → All (Carries p) (tasks_calls x p names)
unfolding tasks_calls task_calls set_policy param_priority
tasks_calls-Carries x p [] = tt
tasks_calls-Carries x p (name ∷ rest) = elim (Option-cases (x.atoi name)) [
  | inl e ↦ rw (e, tasks_calls) tt
  | inr (task, e) ↦
      rw (e, tasks_calls)
        (All-append (Carries p) (task_calls task p) _
          (All-append (Carries p) (nice_calls task p.nice) _ (nice_calls-Carries task p p.nice refl)
            ((refl, λ r. rw r refl, λ r. rw r refl), (refl, tt)))
          (tasks_calls-Carries x p rest))
]

-- For a profile whose nice value, if any, is in -20 .. 19 and whose scheduling priority is in 1 .. 99,
-- each call of `priority::set` is `setpriority` with the profile's nice value, `sched_setscheduler` with
-- its policy and with its priority if the policy is real-time and 0 if not, or `ioprio::set_priority`
-- with its class; so the first two get values that the kernel accepts. Of the I/O level nothing is said.
pub set_calls-Carries :
    (x : Externals) (fs : Procfs) (process : ℕ) (p : Profile)
    → IsInRange p
    → All IsAccepted (set_calls x fs process p) × All (Carries p) (set_calls x fs process p)
unfolding set_calls
set_calls-Carries x fs process p v = (
  set_calls-IsAccepted x fs process p v,
  elim (Option-cases (fs.tasks process)) [
    | inl e ↦ rw (e, set_calls) tt
    | inr (names, e) ↦ rw (e, set_calls) (tasks_calls-Carries x p names)
  ],
)
