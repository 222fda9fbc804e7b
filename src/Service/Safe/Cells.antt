-- ===== src/Service/Safe/Cells.antt =====
-- daemon/src/service.rs: cells whose assigned profile is in range.
use system76_scheduler.Base.{
  All, Bool-cases, List, Option, Option-cases, [], contains, inl, inr, nat_eq, none, some,
  string_eq, ℕ, ◌==◌, ◌||◌, ◌∷◌,
}
use system76_scheduler.Base.Dict.{All-insert, All-lookup, All-remove, lookup, values}
use system76_scheduler.Externals.{Externals}
use system76_scheduler.Kernel.Laws.{IsInRange}
use system76_scheduler.Process.Cell.{Owner, Priority, Process, alloc, hash_id, ro, write}
use system76_scheduler.Process.Table.{
  ProcessMap, drain_all, drain_filter, drain_one, insert_process, insert_vacant, release,
  release_option, renew,
}

abbrev pub PriorityInRange : Priority → Type 0
PriorityInRange (Priority.config profile) = IsInRange profile
PriorityInRange _ = Unit

abbrev pub CellSafe : Process → Type 0
CellSafe p = PriorityInRange p.assigned_priority

abbrev pub OwnerSafe : Owner → Type 0
OwnerSafe o = All CellSafe (values o.cells)

pub ro-CellSafe : (o : Owner) (a : ℕ) → OwnerSafe o → CellSafe (ro o a)
unfolding ro
ro-CellSafe o a h = elim (Option-cases (lookup a o.cells)) [
  | inl e ↦ rw e tt
  | inr (p, e) ↦ rw e (All-lookup CellSafe a p o.cells h e)
]

pub write-OwnerSafe :
    (o : Owner) (a : ℕ) (p : Process) → CellSafe p → OwnerSafe o → OwnerSafe (write o a p)
unfolding write
write-OwnerSafe o a p h hs = All-insert CellSafe a p o.cells h hs

release-OwnerSafe : (o : Owner) (m : ProcessMap) (a : ℕ) → OwnerSafe o → OwnerSafe (release m o a)
unfolding release
release-OwnerSafe o m a hs =
    elim (Bool-cases (contains (values m.map) a || contains (values m.pid_map) a)) [
      | inl e ↦ rw e hs
      | inr e ↦ rw e (All-remove CellSafe a o.cells hs)
    ]

release_option-OwnerSafe :
    (o : Owner) (m : ProcessMap) (a : Option ℕ) → OwnerSafe o → OwnerSafe (release_option m o a)
unfolding release_option
release_option-OwnerSafe o m none hs = hs
release_option-OwnerSafe o m (some a) hs = release-OwnerSafe o m a hs

renew-CellSafe : (entry p : Process) → CellSafe entry → CellSafe (renew entry p)
unfolding renew
renew-CellSafe entry p h = elim (Bool-cases (entry.name == p.name)) [
  | inl e ↦ rw e h
  | inr e ↦ rw e tt
]

pub insert_process-OwnerSafe :
    (x : Externals) (o : Owner) (m : ProcessMap) (p : Process)
    → CellSafe p
    → OwnerSafe o
    → OwnerSafe (insert_process x o m p).0
unfolding insert_process insert_vacant alloc
insert_process-OwnerSafe x o m p h hs = elim (Option-cases (lookup (hash_id x p) m.map)) [
  | inl e ↦
      rw (e, insert_process)
        (release_option-OwnerSafe _ _ _ (All-insert CellSafe o.next p o.cells h hs))
  | inr (a, e) ↦
      rw (e, insert_process) (write-OwnerSafe o a _ (renew-CellSafe _ p (ro-CellSafe o a hs)) hs)
]

drain_one-OwnerSafe :
    (o : Owner) (m : ProcessMap) (h : ℕ) → OwnerSafe o → OwnerSafe (drain_one (o, m) h).0
unfolding drain_one
drain_one-OwnerSafe o m h hs = elim (Option-cases (lookup h m.map)) [
  | inl e ↦ rw (e, drain_one) hs
  | inr (a, e) ↦ rw (e, drain_one) (release-OwnerSafe _ _ a (release_option-OwnerSafe o _ _ hs))
]

drain_all-OwnerSafe :
    (s : Owner × ProcessMap) (hashes : List ℕ) → OwnerSafe s.0 → OwnerSafe (drain_all s hashes).0
unfolding drain_all
drain_all-OwnerSafe s [] hs = hs
drain_all-OwnerSafe s (h ∷ rest) hs =
    drain_all-OwnerSafe (drain_one s h) rest (drain_one-OwnerSafe s.0 s.1 h hs)

pub drain_filter-OwnerSafe :
    (o : Owner) (m : ProcessMap) → OwnerSafe o → OwnerSafe (drain_filter o m).0
unfolding drain_filter
drain_filter-OwnerSafe o m hs = drain_all-OwnerSafe (o, record m { drain = [] }) m.drain hs
