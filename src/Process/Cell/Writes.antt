-- ===== src/Process/Cell/Writes.antt =====
-- daemon/src/process.rs: reading after a write through `rw`.
use system76_scheduler.Base.{
  ==_iff, Bool-cases, if◌then◌else◌, inl, inr, nat_eq, string_eq, sym, ℕ, ◌==◌, ◌≡◌, ◌≢◌,
}
use system76_scheduler.Base.Dict.{dict_laws, lookup-insert}
use system76_scheduler.Process.Cell.{Owner, Process, ro, write}

pub ro-write_self : (o : Owner) (a : ℕ) (p : Process) → ro (write o a p) a ≡ p
unfolding ro write
ro-write_self o a p = simp dict_laws

pub ro-write_ne : (o : Owner) (a b : ℕ) (p : Process) → b ≢ a → ro (write o a p) b ≡ ro o b
unfolding ro write
ro-write_ne o a b p h = elim (Bool-cases (a == b)) [
  | inl e ↦ absurd (h (sym ((==_iff a b).0 e)))
  | inr e ↦ simp (lookup-insert, e)
]

pub ro-write :
    (o : Owner) (a b : ℕ) (p : Process) → ro (write o a p) b ≡ (if a == b then p else ro o b)
unfolding ro write
ro-write o a b p = elim (Bool-cases (a == b)) [
  | inl e ↦ simp (lookup-insert, e)
  | inr e ↦ simp (lookup-insert, e)
]
