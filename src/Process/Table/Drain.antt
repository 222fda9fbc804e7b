-- ===== src/Process/Table/Drain.antt =====
-- daemon/src/process.rs: what the map holds after an insertion, and after a drain.
use system76_scheduler.Base.{
  ℕ, ◌≡◌, refl, ◌||◌, none, some, List, [], ◌∷◌, arith, inl, inr, is_some, contains, ==_iff, ◌==◌,
  nat_eq, Option-cases, if◌then◌else◌,
}
use system76_scheduler.Base.Dict.{lookup, lookup-insert, lookup-remove}
use system76_scheduler.Externals.{Externals}
use system76_scheduler.Process.Cell.{Process, Owner, alloc, hash_id}
use system76_scheduler.Process.Table.{
  ProcessMap, drain_one, drain_all, drain_filter, insert_vacant, insert_process,
}

lookup-drain_one :
    (o : Owner) (m : ProcessMap) (h k : ℕ)
    → lookup k (drain_one (o, m) h).1.map ≡ (if h == k then none else lookup k m.map)
unfolding drain_one
lookup-drain_one o m h k = elim (Option-cases (lookup h m.map)) [
  | inl e ↦ rw (e, drain_one) (ground (arith, ==_iff h k))
  | inr (a, e) ↦ rw (e, drain_one) (lookup-remove h k m.map)
]

lookup-drain_all :
    (s : Owner × ProcessMap) (hashes : List ℕ) (k : ℕ)
    → lookup k (drain_all s hashes).1.map ≡ (if contains hashes k then none else lookup k s.1.map)
unfolding drain_all
lookup-drain_all s [] k = refl
lookup-drain_all s (h ∷ rest) k =
    ground (arith, lookup-drain_all (drain_one s h) rest k, lookup-drain_one s.0 s.1 h k)

-- `Map::drain_filter` removes the hashes in the drain from the map, and no others.
pub lookup-drain_filter :
    (o : Owner) (m : ProcessMap) (k : ℕ)
    → lookup k (drain_filter o m).1.map ≡ (if contains m.drain k then none else lookup k m.map)
unfolding drain_filter
lookup-drain_filter o m k = lookup-drain_all _ m.drain k

-- `Map::insert` adds the process's hash to the map, and keeps the hashes that are there.
pub lookup-insert_process :
    (x : Externals) (o : Owner) (m : ProcessMap) (p : Process) (k : ℕ)
    → is_some (lookup k (insert_process x o m p).1.map)
      ≡ hash_id x p == k || is_some (lookup k m.map)
unfolding insert_process insert_vacant alloc
lookup-insert_process x o m p k = elim (Option-cases (lookup (hash_id x p) m.map)) [
  | inl e ↦ rw (e, insert_process) (ground (arith, lookup-insert (hash_id x p) k o.next m.map))
  | inr (a, e) ↦ rw (e, insert_process) (ground (arith, ==_iff (hash_id x p) k))
]

-- The cell that `Map::insert` returns stands in the map under the process's hash.
pub lookup-insert_process_self :
    (x : Externals) (o : Owner) (m : ProcessMap) (p : Process)
    → lookup (hash_id x p) (insert_process x o m p).1.map ≡ some (insert_process x o m p).2
unfolding insert_process insert_vacant alloc
lookup-insert_process_self x o m p = elim (Option-cases (lookup (hash_id x p) m.map)) [
  | inl e ↦
      rw (e, insert_process)
        (ground (
          arith,
          lookup-insert (hash_id x p) (hash_id x p) o.next m.map,
          ==_iff (hash_id x p) (hash_id x p),
        ))
  | inr (a, e) ↦ rw (e, insert_process) e
]
