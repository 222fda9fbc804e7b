-- ===== src/Process/Table/View.antt =====
-- daemon/src/process.rs: the process map seen as a function from hashes to processes: cells, addresses and the second map by
-- process ID do not show in it.
use system76_scheduler.Base.{
  ℕ, ◌≡◌, refl, ◌∙◌, Option, none, some, List, [], ◌∷◌, arith, inl, inr, contains, ==_iff, ==_refl,
  ◌==◌, nat_eq, Option-cases, if◌then◌else◌,
}
use system76_scheduler.Base.Dict.{
  lookup, remove, lookup-insert, lookup-remove, contains-values_of_lookup,
}
use system76_scheduler.Externals.{Externals}
use system76_scheduler.Process.Cell.{Process, Owner, ro, write, alloc, hash_id}
use system76_scheduler.Process.Table.{
  ProcessMap, release, release_option, drain_one, drain_all, drain_filter, renew, insert_vacant,
  insert_process,
}
use system76_scheduler.Process.Table.Valid.{IsValid}

abbrev pub read_cell : Owner → Option ℕ → Option Process
read_cell o none = none
read_cell o (some a) = some (ro o a)

abbrev pub view : Owner → ProcessMap → ℕ → Option Process
view o m hash = read_cell o (lookup hash m.map)

-- What an insertion leaves of an entry
abbrev pub renewed : Option Process → Process → Process
renewed none process = process
renewed (some entry) process = renew entry process

-- A cell that the map holds is not released.
pub ro-release :
    (o : Owner) (m : ProcessMap) (a b k : ℕ)
    → lookup k m.map ≡ some b
    → ro (release m o a) b ≡ ro o b
unfolding release ro
ro-release o m a b k h =
    ground (arith, lookup-remove a b o.cells, ==_iff a b, contains-values_of_lookup k b m.map h)

ro-release_option :
    (o : Owner) (m : ProcessMap) (a : Option ℕ) (b k : ℕ)
    → lookup k m.map ≡ some b
    → ro (release_option m o a) b ≡ ro o b
unfolding release_option
ro-release_option o m none b k h = refl
ro-release_option o m (some a) b k h = ro-release o m a b k h

view-release :
    (o : Owner) (m : ProcessMap) (a : Option ℕ) (k : ℕ)
    → view (release_option m o a) m k ≡ view o m k
view-release o m a k = elim (Option-cases (lookup k m.map)) [
  | inl e ↦ rw e
  | inr (b, e) ↦ rw e (rw (ro-release_option o m a b k e))
]

module _ (x : Externals) where
  view-alloc :
      (o : Owner) (m : ProcessMap) (p : Process) (k : ℕ)
      → lookup (hash_id x p) m.map ≡ none
      → IsValid x o m
      → view (alloc o p).0 (insert_vacant x o m p).1 k
        ≡ (if hash_id x p == k then some p else view o m k)
  unfolding alloc insert_vacant ro
  view-alloc o m p k vacant v = elim (Option-cases (lookup k m.map)) [
    | inl e ↦ ground (
      arith,
      lookup-insert (hash_id x p) k o.next m.map,
      lookup-insert o.next o.next p o.cells,
      ==_refl o.next,
    )
    | inr (b, e) ↦ ground (
      arith,
      lookup-insert (hash_id x p) k o.next m.map,
      lookup-insert o.next o.next p o.cells,
      lookup-insert o.next b p o.cells,
      ==_refl o.next,
      ==_iff o.next b,
      v.fresh o.next (omega arith),
      v.map_cell k b e,
    )
  ]

  view-write :
      (o : Owner) (m : ProcessMap) (a h : ℕ) (p : Process) (k : ℕ)
      → lookup h m.map ≡ some a
      → IsValid x o m
      → view (write o a p) m k ≡ (if h == k then some p else view o m k)
  unfolding write ro
  view-write o m a h p k found v = elim (Option-cases (lookup k m.map)) [
    | inl e ↦ ground (arith, ==_iff h k)
    | inr (b, e) ↦ ground (
      arith,
      lookup-insert a b p o.cells,
      ==_iff h k,
      ==_iff a b,
      v.map_cell h a found,
      v.map_cell k b e,
    )
  ]

  -- In the view `Map::insert` sets the process's hash: to the process where there is none, and to the
  -- renewed entry where there is one. All other hashes keep their process.
  pub view-insert_process :
      (o : Owner) (m : ProcessMap) (p : Process) (k : ℕ)
      → IsValid x o m
      → view (insert_process x o m p).0 (insert_process x o m p).1 k
        ≡ (if hash_id x p == k then some (renewed (view o m k) p) else view o m k)
  unfolding insert_process
  view-insert_process o m p k v = elim (Option-cases (lookup (hash_id x p) m.map)) [
    | inl e ↦
        rw (e, insert_process)
          (unfold insert_vacant in
            view-release _ _ _ k ∙ view-alloc o m p k e v ∙ ground (arith, ==_iff (hash_id x p) k))
    | inr (a, e) ↦
        rw (e, insert_process)
          (view-write o m a (hash_id x p) (renew (ro o a) p) k e v
            ∙ ground (arith, ==_iff (hash_id x p) k))
  ]

view-release_two :
    (o : Owner) (m : ProcessMap) (a : ℕ) (b : Option ℕ) (k : ℕ)
    → view (release m (release_option m o b) a) m k ≡ view o m k
view-release_two o m a b k =
    unfold release_option in
    (view-release (release_option m o b) m (some a) k ∙ view-release o m b k)

pub view-drain_one :
    (o : Owner) (m : ProcessMap) (h k : ℕ)
    → view (drain_one (o, m) h).0 (drain_one (o, m) h).1 k ≡ (if h == k then none else view o m k)
unfolding drain_one
view-drain_one o m h k = elim (Option-cases (lookup h m.map)) [
  | inl e ↦ rw (e, drain_one) (ground (arith, ==_iff h k))
  | inr (a, e) ↦
      rw (e, drain_one)
        (view-release_two o
            (record m { map = remove h m.map; pid_map = remove (ro o a).id m.pid_map }) a
            (lookup (ro o a).id m.pid_map) k
          ∙ ground (arith, lookup-remove h k m.map))
]

view-drain_all :
    (s : Owner × ProcessMap) (hashes : List ℕ) (k : ℕ)
    → view (drain_all s hashes).0 (drain_all s hashes).1 k
      ≡ (if contains hashes k then none else view s.0 s.1 k)
unfolding drain_all
view-drain_all s [] k = refl
view-drain_all s (h ∷ rest) k =
    view-drain_all (drain_one s h) rest k ∙ ground (arith, view-drain_one s.0 s.1 h k)

-- In the view `Map::drain_filter` takes away the hashes in the drain, and keeps all other processes.
pub view-drain_filter :
    (o : Owner) (m : ProcessMap) (k : ℕ)
    → view (drain_filter o m).0 (drain_filter o m).1 k
      ≡ (if contains m.drain k then none else view o m k)
unfolding drain_filter
view-drain_filter o m k = view-drain_all (o, record m { drain = [] }) m.drain k
