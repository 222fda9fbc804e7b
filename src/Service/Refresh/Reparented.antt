-- ===== src/Service/Refresh/Reparented.antt =====
-- daemon/src/service.rs: a process whose parent has died has a new hash under its old process ID.
use system76_scheduler.Base.{
  ==_iff, Bool, Bool-cases, List, Option, Option-cases, [], any, ap, arith, contains, false, inl,
  inr, is_some, nat_eq, none, refl, some, string_eq, true, ℕ, ◌&&◌, ◌==◌, ◌∙◌, ◌∷◌, ◌≡◌,
}
use system76_scheduler.Base.Dict.{Dict, contains-keys, lookup, lookup-insert, lookup-remove}
use system76_scheduler.Externals.{Externals}
use system76_scheduler.Process.Cell.{Owner, Process, hash_id, ro, write}
use system76_scheduler.Process.Files.{Procfs}
use system76_scheduler.Process.Table.{
  ProcessMap, drain_all, drain_filter, drain_filter_prepare, drain_one, get_pid,
}
use system76_scheduler.Process.Table.View.{read_cell, view, view-drain_one}
use system76_scheduler.Service.Refresh.{
  drain_service, keep_process, keep_processes, link_parent, link_parents, note_parents,
  read_entries, read_process, scan_processes,
}
use system76_scheduler.Service.Refresh.Alive.{
  IsRoot, has_hash, keep_processes-drain, read_entries-All, read_process-IsRoot,
  scan_processes-has_hash,
}
use system76_scheduler.Service.Refresh.Wiped.{view-keep_process, view_of}
use system76_scheduler.Service.State.{Service}
use system76_scheduler.Service.Valid.{Valid}
use system76_scheduler.Service.Valid.Keep.{keep_process-Valid, prepare-Valid}

-- The ID of the process under a hash
abbrev pub id_at : Option Process → Option ℕ
id_at none = none
id_at (some p) = some p.id

get_pid-drain_one :
    (o : Owner) (m : ProcessMap) (h i : ℕ)
    → get_pid m i ≡ none
    → get_pid (drain_one (o, m) h).1 i ≡ none
unfolding drain_one get_pid
get_pid-drain_one o m h i e = elim (Option-cases (lookup h m.map)) [
  | inl f ↦ rw (f, drain_one) e
  | inr (a, f) ↦ rw (f, drain_one) (ground (arith, lookup-remove (ro o a).id i m.pid_map))
]

get_pid-drain_all :
    (s : Owner × ProcessMap) (hashes : List ℕ) (i : ℕ)
    → get_pid s.1 i ≡ none
    → get_pid (drain_all s hashes).1 i ≡ none
unfolding drain_all
get_pid-drain_all s [] i e = e
get_pid-drain_all s (h ∷ rest) i e =
    get_pid-drain_all (drain_one s h) rest i (get_pid-drain_one s.0 s.1 h i e)

drain_one-forgets :
    (o : Owner) (m : ProcessMap) (h i : ℕ)
    → id_at (view o m h) ≡ some i
    → get_pid (drain_one (o, m) h).1 i ≡ none
unfolding drain_one get_pid
drain_one-forgets o m h i e = elim (Option-cases (lookup h m.map)) [
  | inl f ↦ absurd (ground arith)
  | inr (a, f) ↦
      rw (f, drain_one)
        (ground (
          arith,
          lookup-remove (ro o a).id i m.pid_map,
          ==_iff (ro o a).id i,
          ap id_at (ap (read_cell o) f),
        ))
]

drain_all-forgets :
    (s : Owner × ProcessMap) (hashes : List ℕ) (h i : ℕ)
    → contains hashes h ≡ true
    → id_at (view s.0 s.1 h) ≡ some i
    → get_pid (drain_all s hashes).1 i ≡ none
unfolding drain_all
drain_all-forgets s [] h i c e = absurd (ground arith)
drain_all-forgets s (k ∷ rest) h i c e = elim (Bool-cases (k == h)) [
  | inl same ↦
      get_pid-drain_all (drain_one s k) rest i
        (drain_one-forgets s.0 s.1 k i (rw ((==_iff k h).0 same) e))
  | inr other ↦
      drain_all-forgets (drain_one s k) rest h i (ground arith)
        (ap id_at (view-drain_one s.0 s.1 k h) ∙ rw other e)
]

drain_filter-forgets :
    (o : Owner) (m : ProcessMap) (h i : ℕ)
    → contains m.drain h ≡ true
    → id_at (view o m h) ≡ some i
    → get_pid (drain_filter o m).1 i ≡ none
unfolding drain_filter
drain_filter-forgets o m h i c e = drain_all-forgets (o, record m { drain = [] }) m.drain h i c e

id_at-link_parent :
    (o : Owner) (m : ProcessMap) (a b : Option ℕ) (h : ℕ)
    → id_at (view (link_parent o a b) m h) ≡ id_at (view o m h)
unfolding link_parent write ro
id_at-link_parent o m none b h = refl
id_at-link_parent o m (some a) none h = refl
id_at-link_parent o m (some a) (some b) h = elim (Option-cases (lookup h m.map)) [
  | inl f ↦ rw f
  | inr (c, f) ↦
      rw f (
        ground (arith, lookup-insert a c (record (ro o a) { parent = some b }) o.cells, ==_iff a c))
]

id_at-link_parents :
    (o : Owner) (m : ProcessMap) (parents : Dict ℕ ℕ) (h : ℕ)
    → id_at (view (link_parents o m parents) m h) ≡ id_at (view o m h)
unfolding link_parents
id_at-link_parents o m [] h = refl
id_at-link_parents o m ((pid, ppid) ∷ rest) h =
    id_at-link_parents (link_parent o (get_pid m pid) (get_pid m ppid)) m rest h
    ∙ id_at-link_parent o m (get_pid m pid) (get_pid m ppid) h

module _ (x : Externals) where
  -- One of the processes has the hash and the ID.
  abbrev pub listed_as : List Process → ℕ → ℕ → Bool
  listed_as ps k i = any (λ p. hash_id x p == k && p.id == i) ps

  listed_as-has_hash :
      (ps : List Process) (k i : ℕ) → listed_as ps k i ≡ true → has_hash x ps k ≡ true
  listed_as-has_hash [] k i h = h
  listed_as-has_hash (p ∷ ps) k i h = ground (arith, listed_as-has_hash ps k i)

  view-keep_processes :
      (s : Service) (ps : List Process) (k : ℕ)
      → Valid x s
      → has_hash x ps k ≡ false
      → view_of (keep_processes x s ps) k ≡ view_of s k
  unfolding keep_processes
  view-keep_processes s [] k v h = refl
  view-keep_processes s (p ∷ ps) k v h =
      view-keep_processes (keep_process x s p) ps k (keep_process-Valid x s p v) (ground arith)
      ∙ view-keep_process x s p k v
      ∙ ground arith

  module _ (fs : Procfs) where
    -- A process whose old hash is not listed any more, and that is listed under a new one, is in the map after the scan of
    -- /proc under the new hash, but
    -- its process ID leads nowhere: draining the old entry takes the ID from the new one.
    pub scan_processes-forgets :
        (s : Service) (names : List (List ℕ)) (old new i : ℕ)
        → Valid x s
        → id_at (view_of s old) ≡ some i
        → has_hash x (read_entries x (read_process x fs) names) old ≡ false
        → listed_as (read_entries x (read_process x fs) names) new i ≡ true
        → (is_some (
              lookup new
                (scan_processes x fs
                  (record s { process_map = drain_filter_prepare s.process_map })
                  (read_entries x (read_process x fs) names)).process_map.map)
            ≡ true)
          × (get_pid
                (scan_processes x fs
                  (record s { process_map = drain_filter_prepare s.process_map })
                  (read_entries x (read_process x fs) names)).process_map
                i
              ≡ none)
    scan_processes-forgets s names old new i v e gone listed =
        (scan_processes-has_hash x fs s names new ∙ listed_as-has_hash ps new i listed, forgets)
      where
        ps : List Process
        ps = read_entries x (read_process x fs) names

        t : Service
        t = record s { process_map = drain_filter_prepare s.process_map }

        in_map : is_some (lookup old s.process_map.map) ≡ true
        in_map = elim (Option-cases (lookup old s.process_map.map)) [
          | inl f ↦ absurd (ground (arith, ap id_at (ap (read_cell s.owner) f)))
          | inr (a, f) ↦ rw f
        ]

        in_drain : contains (keep_processes x t ps).process_map.drain old ≡ true
        in_drain =
            unfold drain_filter_prepare in
            ground (
              arith,
              keep_processes-drain x t ps old
                  (read_entries-All x IsRoot (read_process x fs) (read_process-IsRoot x fs) names),
              contains-keys old s.process_map.map,
              in_map,
            )

        same_id : id_at (view_of (keep_processes x t ps) old) ≡ some i
        same_id =
            ap id_at (view-keep_processes t ps old (prepare-Valid x s v) gone)
            ∙ unfold drain_filter_prepare in e

        forgets : get_pid (scan_processes x fs t ps).process_map i ≡ none
        forgets =
            unfold scan_processes drain_service in
            drain_filter-forgets _ _ old i in_drain (
              id_at-link_parents (keep_processes x t ps).owner (keep_processes x t ps).process_map
                (note_parents x fs ps []) old
              ∙ same_id)
