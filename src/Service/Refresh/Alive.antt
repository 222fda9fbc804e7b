-- ===== src/Service/Refresh/Alive.antt =====
-- daemon/src/service.rs: which processes a refresh leaves in the map.
use system76_scheduler.Base.{
  ==_iff, All, Bool, List, Option, Option-cases, [], any, ap, arith, contains, contains-discard,
  discard, false, inl, inr, is_some, nat_eq, none, not, refl, some, string_eq, suc, unwrap_or, zero,
  ℕ, ◌&&◌, ◌==◌, ◌||◌, ◌∙◌, ◌∷◌, ◌≡◌,
}
use system76_scheduler.Base.Dict.{contains-keys, lookup}
use system76_scheduler.Externals.{Externals}
use system76_scheduler.Process.Cell.{parent, Owner, Process, ancestors, ancestors_from, hash_id}
use system76_scheduler.Process.Files.{Procfs, cmdline, parent_id}
use system76_scheduler.Process.Table.{
  ProcessMap, drain_filter_prepare, insert_process, insert_vacant, retain_ancestors,
  retain_process_tree,
}
use system76_scheduler.Process.Table.Drain.{lookup-drain_filter, lookup-insert_process}
use system76_scheduler.Service.Refresh.{
  drain_service, keep_process, keep_processes, read_bare_process, read_entries, read_process,
  scan_processes,
}
use system76_scheduler.Service.State.{Service}

abbrev pub IsRoot : Process → Type 0
IsRoot p = p.parent ≡ none

ancestors_from-none : (fuel : ℕ) (o : Owner) → ancestors_from fuel o none ≡ []
unfolding ancestors_from
ancestors_from-none zero o = refl
ancestors_from-none (suc fuel) o = refl

ancestors-IsRoot : (o : Owner) (p : Process) → IsRoot p → ancestors o p ≡ []
unfolding ancestors parent
ancestors-IsRoot o p h = rw h (ancestors_from-none _ o)

-- A process that was read from /proc has no parent yet, so only its own hash leaves the drain.
pub retain-IsRoot :
    (x : Externals) (o : Owner) (m : ProcessMap) (p : Process)
    → IsRoot p
    → (retain_process_tree x o m p).drain ≡ discard (hash_id x p) m.drain
unfolding retain_process_tree retain_ancestors
retain-IsRoot x o m p h = rw (ancestors-IsRoot o p h)

insert_process-drain :
    (x : Externals) (o : Owner) (m : ProcessMap) (p : Process)
    → (insert_process x o m p).1.drain ≡ m.drain
unfolding insert_process insert_vacant
insert_process-drain x o m p = elim (Option-cases (lookup (hash_id x p) m.map)) [
  | inl e ↦ rw (e, insert_process)
  | inr (a, e) ↦ rw (e, insert_process)
]

module _ (x : Externals) where
  -- One of the processes has the hash.
  abbrev pub has_hash : List Process → ℕ → Bool
  has_hash ps k = any (λ p. hash_id x p == k) ps

  keep_process-drain :
      (s : Service) (p : Process)
      → IsRoot p
      → (keep_process x s p).process_map.drain ≡ discard (hash_id x p) s.process_map.drain
  unfolding keep_process
  keep_process-drain s p h =
      insert_process-drain x s.owner (retain_process_tree x s.owner s.process_map p) p
      ∙ retain-IsRoot x s.owner s.process_map p h

  retain-map :
      (o : Owner) (m : ProcessMap) (p : Process) → (retain_process_tree x o m p).map ≡ m.map
  unfolding retain_process_tree
  retain-map o m p = refl

  keep_process-map :
      (s : Service) (p : Process) (k : ℕ)
      → is_some (lookup k (keep_process x s p).process_map.map)
        ≡ hash_id x p == k || is_some (lookup k s.process_map.map)
  unfolding keep_process
  keep_process-map s p k =
      lookup-insert_process x s.owner (retain_process_tree x s.owner s.process_map p) p k
      ∙ rw (retain-map s.owner s.process_map p)

  pub keep_processes-map :
      (s : Service) (ps : List Process) (k : ℕ)
      → is_some (lookup k (keep_processes x s ps).process_map.map)
        ≡ has_hash ps k || is_some (lookup k s.process_map.map)
  unfolding keep_processes
  keep_processes-map s [] k = refl
  keep_processes-map s (p ∷ ps) k =
      ground (arith, keep_processes-map (keep_process x s p) ps k, keep_process-map s p k)

  pub keep_processes-drain :
      (s : Service) (ps : List Process) (k : ℕ)
      → All IsRoot ps
      → contains (keep_processes x s ps).process_map.drain k
        ≡ contains s.process_map.drain k && not (has_hash ps k)
  unfolding keep_processes
  keep_processes-drain s [] k h = ground arith
  keep_processes-drain s (p ∷ ps) k h = ground (
    arith,
    keep_processes-drain (keep_process x s p) ps k h.1,
    ap (λ (d : List ℕ). contains d k) (keep_process-drain s p h.0),
    contains-discard (hash_id x p) k s.process_map.drain,
    ==_iff (hash_id x p) k,
  )

  pub read_entries-All :
      (P : Process → Type 0) (read : ℕ → Option Process)
      → ((pid : ℕ) (p : Process) → read pid ≡ some p → P p)
      → (names : List (List ℕ)) → All P (read_entries x read names)
  unfolding read_entries
  read_entries-All P read each [] = tt
  read_entries-All P read each (name ∷ names) = elim (Option-cases (x.atoi name)) [
    | inl e ↦ rw (e, read_entries) (read_entries-All P read each names)
    | inr (pid, e) ↦
        rw (e, read_entries)
          (elim (Option-cases (read pid)) [
            | inl f ↦ rw f (read_entries-All P read each names)
            | inr (p, f) ↦ rw f (each pid p f, read_entries-All P read each names)
          ])
  ]

  module _ (fs : Procfs) where
    pub read_process-IsRoot : (pid : ℕ) (p : Process) → read_process x fs pid ≡ some p → IsRoot p
    unfolding read_process
    read_process-IsRoot pid p h = ground arith

    pub read_bare_process-IsRoot :
        (pid : ℕ) (p : Process) → read_bare_process x fs pid ≡ some p → IsRoot p
    unfolding read_bare_process
    read_bare_process-IsRoot pid p h = ground arith

    -- The scan's map, over the processes that it reads
    pub scan_processes-has_hash :
        (s : Service) (names : List (List ℕ)) (k : ℕ)
        → is_some (
            lookup k
              (scan_processes x fs
                (record s { process_map = drain_filter_prepare s.process_map })
                (read_entries x (read_process x fs) names)).process_map.map)
          ≡ has_hash (read_entries x (read_process x fs) names) k
    unfolding scan_processes drain_service drain_filter_prepare
    scan_processes-has_hash s names k =
        let ps : List Process = read_entries x (read_process x fs) names in
        let t : Service = record s { process_map = drain_filter_prepare s.process_map } in
        ap is_some (lookup-drain_filter _ (keep_processes x t ps).process_map k)
        ∙ ground (
          arith,
          keep_processes-map t ps k,
          keep_processes-drain t ps k
              (read_entries-All IsRoot (read_process x fs) read_process-IsRoot names),
          contains-keys k s.process_map.map,
        )

    -- A name in /proc is the number of a process whose exe can be read, and whose hash, of its ID and
    -- its parent's, is `k`; the parent's ID counts as 0 where it cannot be read.
    abbrev pub shows_hash : ℕ → List ℕ → Bool
    shows_hash k name = elim (x.atoi name) [
      | none ↦ false
      | some pid ↦ elim (fs.exe pid) [
        | none ↦ false
        | some exe ↦ x.finish_hash pid (unwrap_or (parent_id x fs pid) 0) == k
      ]
    ]

    read_entries-shows_hash :
        (names : List (List ℕ)) (k : ℕ)
        → has_hash (read_entries x (read_process x fs) names) k ≡ any (shows_hash k) names
    unfolding read_entries read_process cmdline hash_id
    read_entries-shows_hash [] k = refl
    read_entries-shows_hash (name ∷ names) k = ground (arith, read_entries-shows_hash names k)

    -- After the scan of /proc a hash is in the map exactly when /proc lists a process that has it and
    -- whose exe can be read, which those of kernel threads cannot: the dead are gone, and the living are
    -- there. The hash is of the ID and the parent's ID, 0 where that cannot be read.
    pub scan_processes-alive :
        (s : Service) (names : List (List ℕ)) (k : ℕ)
        → is_some (
            lookup k
              (scan_processes x fs
                (record s { process_map = drain_filter_prepare s.process_map })
                (read_entries x (read_process x fs) names)).process_map.map)
          ≡ any (shows_hash k) names
    scan_processes-alive s names k =
        scan_processes-has_hash s names k ∙ read_entries-shows_hash names k
