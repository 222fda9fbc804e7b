-- ===== src/Process/Table/Valid.antt =====
-- daemon/src/process.rs: the invariant of the process map: what it holds is alive and stands under its own hash and ID.
use system76_scheduler.Base.{
  ==_iff, List, Option, Option-cases, [], arith, contains, inl, inr, is_some, nat_eq, none, some,
  string_eq, true, ℕ, ◌∷◌, ◌≡◌, ◌≤◌,
}
use system76_scheduler.Base.Dict.{
  contains-values-insert, contains-values-remove, contains-values_of_lookup, insert, lookup,
  lookup-insert, lookup-remove, remove, values,
}
use system76_scheduler.Externals.{Externals}
use system76_scheduler.Process.Cell.{Owner, Process, alloc, empty_owner, hash_id, ro, write}
use system76_scheduler.Process.Table.{
  ProcessMap, drain_all, drain_filter, drain_one, empty_map, insert_process, insert_vacant, release,
  release_option, renew,
}

module _ (x : Externals) where
  pub record IsValid (o : Owner) (m : ProcessMap) : Type 0 where
    pub map_cell :
        (h a : ℕ)
        → lookup h m.map ≡ some a
        → (is_some (lookup a o.cells) ≡ true) × (hash_id x (ro o a) ≡ h)
    pub pid_cell :
        (i a : ℕ)
        → lookup i m.pid_map ≡ some a
        → (is_some (lookup a o.cells) ≡ true)
          × ((ro o a).id ≡ i)
          × (lookup (hash_id x (ro o a)) m.map ≡ some a)
    pub alive : (a : ℕ) → contains (values m.map) a ≡ true → is_some (lookup a o.cells) ≡ true
    pub fresh : (a : ℕ) → o.next ≤ a → lookup a o.cells ≡ none

  release-next : (o : Owner) (m : ProcessMap) (a : ℕ) → (release m o a).next ≡ o.next
  unfolding release
  release-next o m a = ground arith

  release-IsValid : (o : Owner) (m : ProcessMap) (a : ℕ) → IsValid o m → IsValid (release m o a) m
  unfolding release ro
  release-IsValid o m a v = record {
    map_cell = λ h b e. ground (
      arith,
      v.map_cell h b e,
      lookup-remove a b o.cells,
      ==_iff a b,
      contains-values_of_lookup h b m.map e,
    );
    pid_cell = λ i b e. ground (
      arith,
      v.pid_cell i b e,
      lookup-remove a b o.cells,
      ==_iff a b,
      contains-values_of_lookup i b m.pid_map e,
    );
    alive = λ b e. ground (arith, v.alive b e, lookup-remove a b o.cells, ==_iff a b);
    fresh = λ b e.
        ground (arith, v.fresh b (omega (arith, release-next o m a)), lookup-remove a b o.cells);
  }

  release_option-IsValid :
      (o : Owner) (m : ProcessMap) (a : Option ℕ) → IsValid o m → IsValid (release_option m o a) m
  unfolding release_option
  release_option-IsValid o m none v = v
  release_option-IsValid o m (some a) v = release-IsValid o m a v

  pub renew-hash : (entry process : Process) → hash_id x (renew entry process) ≡ hash_id x entry
  unfolding renew hash_id
  renew-hash entry process = ground arith

  pub renew-id : (entry process : Process) → (renew entry process).id ≡ entry.id
  unfolding renew
  renew-id entry process = ground arith

  -- A write to a live cell that keeps its IDs keeps the invariant.
  pub write-IsValid :
      (o : Owner) (m : ProcessMap) (a : ℕ) (p : Process)
      → is_some (lookup a o.cells) ≡ true
      → hash_id x p ≡ hash_id x (ro o a)
      → p.id ≡ (ro o a).id
      → IsValid o m
      → IsValid (write o a p) m
  unfolding write ro
  write-IsValid o m a p alive same_hash same_id v = record {
    map_cell = λ h b e. ground (arith, v.map_cell h b e, lookup-insert a b p o.cells, ==_iff a b);
    pid_cell = λ i b e. ground (arith, v.pid_cell i b e, lookup-insert a b p o.cells, ==_iff a b);
    alive = λ b e. ground (arith, v.alive b e, lookup-insert a b p o.cells);
    fresh = λ b e. ground (arith, v.fresh b e, lookup-insert a b p o.cells, ==_iff a b);
  }

  alloc-IsValid :
      (o : Owner) (m : ProcessMap) (p : Process)
      → lookup (hash_id x p) m.map ≡ none
      → IsValid o m
      → IsValid (alloc o p).0 (record m {
        map = insert (hash_id x p) (alloc o p).1 m.map;
        pid_map = insert p.id (alloc o p).1 m.pid_map;
      })
  unfolding alloc ro
  alloc-IsValid o m p vacant v = record {
    map_cell = λ h b e. ground (
      arith,
      lookup-insert (hash_id x p) h o.next m.map,
      ==_iff (hash_id x p) h,
      v.map_cell h b,
      v.fresh o.next (omega arith),
      lookup-insert o.next b p o.cells,
      ==_iff o.next b,
    );
    pid_cell = λ i b e. ground (
      arith,
      lookup-insert p.id i o.next m.pid_map,
      ==_iff p.id i,
      v.pid_cell i b,
      v.fresh o.next (omega arith),
      lookup-insert o.next b p o.cells,
      ==_iff o.next b,
      lookup-insert (hash_id x p) (hash_id x (ro o b)) o.next m.map,
      lookup-insert (hash_id x p) (hash_id x p) o.next m.map,
      ==_iff (hash_id x p) (hash_id x (ro o b)),
      ==_iff (hash_id x p) (hash_id x p),
    );
    alive = λ b e. ground (
      arith,
      contains-values-insert (hash_id x p) o.next b m.map e,
      v.alive b,
      lookup-insert o.next b p o.cells,
      ==_iff o.next b,
    );
    fresh = λ b e.
        ground (arith, v.fresh b (omega arith), lookup-insert o.next b p o.cells, ==_iff o.next b);
  }

  -- `Map::insert` keeps the invariant, on the entry that is there and on the vacant one.
  pub insert_process-IsValid :
      (o : Owner) (m : ProcessMap) (p : Process)
      → IsValid o m
      → IsValid (insert_process x o m p).0 (insert_process x o m p).1
  unfolding insert_process insert_vacant
  insert_process-IsValid o m p v = elim (Option-cases (lookup (hash_id x p) m.map)) [
    | inl e ↦ rw (e, insert_process) (release_option-IsValid _ _ _ (alloc-IsValid o m p e v))
    | inr (a, e) ↦
        rw (e, insert_process)
          (write-IsValid o m a _ (v.map_cell _ a e).0 (renew-hash (ro o a) p) (renew-id (ro o a) p)
            v)
  ]

  remove-IsValid :
      (o : Owner) (m : ProcessMap) (h a : ℕ)
      → lookup h m.map ≡ some a
      → IsValid o m
      → IsValid o (record m { map = remove h m.map; pid_map = remove (ro o a).id m.pid_map })
  remove-IsValid o m h a found v = record {
    map_cell = λ k b e. ground (arith, lookup-remove h k m.map, v.map_cell k b);
    pid_cell = λ i b e. ground (
      arith,
      lookup-remove (ro o a).id i m.pid_map,
      ==_iff (ro o a).id i,
      v.pid_cell i b,
      v.map_cell h a found,
      lookup-remove h (hash_id x (ro o b)) m.map,
      ==_iff h (hash_id x (ro o b)),
    );
    alive = λ b e. v.alive b (contains-values-remove h b m.map e);
    fresh = v.fresh;
  }

  drain_one-IsValid :
      (o : Owner) (m : ProcessMap) (h : ℕ)
      → IsValid o m
      → IsValid (drain_one (o, m) h).0 (drain_one (o, m) h).1
  unfolding drain_one
  drain_one-IsValid o m h v = elim (Option-cases (lookup h m.map)) [
    | inl e ↦ rw (e, drain_one) v
    | inr (a, e) ↦
        rw (e, drain_one)
          (release-IsValid _ _ a (release_option-IsValid o _ _ (remove-IsValid o m h a e v)))
  ]

  drain_all-IsValid :
      (s : Owner × ProcessMap) (hashes : List ℕ)
      → IsValid s.0 s.1
      → IsValid (drain_all s hashes).0 (drain_all s hashes).1
  unfolding drain_all
  drain_all-IsValid s [] v = v
  drain_all-IsValid s (h ∷ rest) v =
      drain_all-IsValid (drain_one s h) rest (drain_one-IsValid s.0 s.1 h v)

  pub set_drain-IsValid :
      (o : Owner) (m : ProcessMap) (hashes : List ℕ)
      → IsValid o m
      → IsValid o (record m { drain = hashes })
  set_drain-IsValid o m hashes v = record {
    map_cell = v.map_cell;
    pid_cell = v.pid_cell;
    alive = v.alive;
    fresh = v.fresh;
  }

  -- `Map::drain_filter` keeps the invariant: what is left in either map is alive.
  pub drain_filter-IsValid :
      (o : Owner) (m : ProcessMap) → IsValid o m → IsValid (drain_filter o m).0 (drain_filter o m).1
  unfolding drain_filter
  drain_filter-IsValid o m v = drain_all-IsValid _ m.drain (set_drain-IsValid o m [] v)

  -- The first map of the daemon
  pub empty-IsValid : IsValid empty_owner empty_map
  unfolding lookup hash_id
  empty-IsValid = record {
    map_cell = λ h a e. absurd (ground arith);
    pid_cell = λ i a e. absurd (ground arith);
    alive = λ a e. absurd (ground arith);
    fresh = λ a e. ground arith;
  }
