-- ===== src/Service/Refresh/Wiped.antt =====
-- daemon/src/service.rs: what `garbage_clean` leaves of the processes that are alive.
use system76_scheduler.Base.{
  ℕ, ◌≡◌, refl, ◌∙◌, subst, sym, true, false, Option, none, some, List, [], ◌∷◌, arith, All,
  contains, ==_iff, ◌==◌, nat_eq, string_eq, if◌then◌else◌, inl, inr, Bool-cases, ◌≢◌,
}
use system76_scheduler.Externals.{Externals}
use system76_scheduler.Process.Cell.{Priority, Process, hash_id}
use system76_scheduler.Process.Table.{retain_process_tree, drain_filter_prepare, renew}
use system76_scheduler.Process.Table.Valid.{set_drain-IsValid}
use system76_scheduler.Process.Table.View.{view, renewed, view-insert_process, view-drain_filter}
use system76_scheduler.Process.Files.{Procfs}
use system76_scheduler.Service.State.{Service}
use system76_scheduler.Service.Refresh.{
  keep_process, keep_processes, read_bare_process, read_entries, drain_service, collect_garbage,
}
use system76_scheduler.Service.Refresh.Alive.{
  has_hash, IsRoot, keep_processes-drain, read_entries-All, read_bare_process-IsRoot,
}
use system76_scheduler.Service.Valid.{Valid}
use system76_scheduler.Service.Valid.Keep.{keep_process-Valid, prepare-Valid}

abbrev pub view_of : Service → ℕ → Option Process
view_of s = view s.owner s.process_map

pub view-keep_process :
    (x : Externals) (s : Service) (p : Process) (k : ℕ)
    → Valid x s
    → view_of (keep_process x s p) k
      ≡ (if hash_id x p == k then some (renewed (view_of s k) p) else view_of s k)
unfolding keep_process retain_process_tree
view-keep_process x s p k v = view-insert_process x _ _ p k (set_drain-IsValid x _ _ _ v)

-- Nothing is known of the process but its IDs.
pub record IsWiped (p : Process) : Type 0 where
  pub no_name : p.name ≡ ""
  pub no_cgroup : p.cgroup ≡ ""
  pub no_parent : p.parent ≡ none
  pub not_assigned : p.assigned_priority ≡ Priority.not_assignable

abbrev pub WipedAt : Option Process → Type 0
WipedAt none = ⊥
WipedAt (some p) = IsWiped p

-- What has no name has no priority either.
abbrev Unnamed : Option Process → Type 0
Unnamed none = Unit
Unnamed (some p) = p.name ≡ "" → p.assigned_priority ≡ Priority.not_assignable

renewed-IsWiped : (o : Option Process) (p : Process) → Unnamed o → IsWiped p → IsWiped (renewed o p)
unfolding renew
renewed-IsWiped none p u w = w
renewed-IsWiped (some e) p u w = elim (Bool-cases (e.name == p.name)) [
  | inl same ↦
      let empty : e.name ≡ "" = (==_iff e.name p.name).0 same ∙ w.no_name in
      rw same (record {
        no_name = empty;
        no_cgroup = w.no_cgroup;
        no_parent = w.no_parent;
        not_assigned = u empty;
      })
  | inr other ↦ rw other (record {
    no_name = w.no_name;
    no_cgroup = w.no_cgroup;
    no_parent = w.no_parent;
    not_assigned = refl;
  })
]

WipedAt-Unnamed : (o : Option Process) → WipedAt o → Unnamed o
WipedAt-Unnamed none w = absurd w
WipedAt-Unnamed (some p) w = λ _. w.not_assigned

module _ (x : Externals) where
  keep_process-WipedAt :
      (s : Service) (p : Process) (k : ℕ)
      → Valid x s
      → IsWiped p
      → Unnamed (view_of s k)
      → (hash_id x p == k) ≡ true
      → WipedAt (view_of (keep_process x s p) k)
  keep_process-WipedAt s p k v w u h =
      subst WipedAt (sym (view-keep_process x s p k v)) (rw h (renewed-IsWiped (view_of s k) p u w))

  keep_process-other :
      (s : Service) (p : Process) (k : ℕ) (P : Option Process → Type 0)
      → Valid x s
      → (hash_id x p == k) ≡ false
      → P (view_of s k)
      → P (view_of (keep_process x s p) k)
  keep_process-other s p k P v h q = subst P (sym (view-keep_process x s p k v)) (rw h q)

  keep_processes-stays :
      (s : Service) (ps : List Process) (k : ℕ)
      → Valid x s
      → All IsWiped ps
      → WipedAt (view_of s k)
      → WipedAt (view_of (keep_processes x s ps) k)
  unfolding keep_processes
  keep_processes-stays s [] k v ws w = w
  keep_processes-stays s (p ∷ ps) k v ws w =
      keep_processes-stays (keep_process x s p) ps k (keep_process-Valid x s p v) ws.1
        (elim (Bool-cases (hash_id x p == k)) [
          | inl e ↦ keep_process-WipedAt s p k v ws.0 (WipedAt-Unnamed _ w) e
          | inr e ↦ keep_process-other s p k WipedAt v e w
        ])

  keep_processes-wipes :
      (s : Service) (ps : List Process) (k : ℕ)
      → Valid x s
      → All IsWiped ps
      → Unnamed (view_of s k)
      → has_hash x ps k ≡ true
      → WipedAt (view_of (keep_processes x s ps) k)
  unfolding keep_processes
  keep_processes-wipes s [] k v ws u h = absurd (ground arith)
  keep_processes-wipes s (p ∷ ps) k v ws u h = elim (Bool-cases (hash_id x p == k)) [
    | inl e ↦
        keep_processes-stays (keep_process x s p) ps k (keep_process-Valid x s p v) ws.1
          (keep_process-WipedAt s p k v ws.0 u e)
    | inr e ↦
        keep_processes-wipes (keep_process x s p) ps k (keep_process-Valid x s p v) ws.1
          (keep_process-other s p k Unnamed v e u) (ground arith)
  ]

  read_bare_process-IsWiped :
      (fs : Procfs) (pid : ℕ) (p : Process) → read_bare_process x fs pid ≡ some p → IsWiped p
  unfolding read_bare_process
  read_bare_process-IsWiped fs pid p h = ground arith

  -- A collection of garbage wipes every process that is alive: a listed process that is in the map
  -- under a name loses its name, its cgroup, its parent, and its assigned priority.
  pub collect_garbage-IsWiped :
      (fs : Procfs) (s : Service) (names : List (List ℕ)) (k : ℕ) (entry : Process)
      → Valid x s
      → fs.entries ≡ some names
      → has_hash x (read_entries x (read_bare_process x fs) names) k ≡ true
      → view_of s k ≡ some entry
      → entry.name ≢ ""
      → WipedAt (view_of (collect_garbage x fs s) k)
  unfolding collect_garbage drain_service drain_filter_prepare
  collect_garbage-IsWiped fs s names k entry v listed alive found named =
      let ps : List Process = read_entries x (read_bare_process x fs) names in
      let t : Service = record s { process_map = drain_filter_prepare s.process_map } in
      let kept : contains (keep_processes x t ps).process_map.drain k ≡ false = ground (
        arith,
        keep_processes-drain x t ps k (
            read_entries-All x IsRoot (read_bare_process x fs) (read_bare_process-IsRoot x fs)
              names),
        alive,
      ) in
      rw (listed, collect_garbage)
        (subst WipedAt (sym (view-drain_filter _ (keep_processes x t ps).process_map k)) (
          rw kept (
            keep_processes-wipes t ps k (prepare-Valid x s v)
              (read_entries-All x IsWiped (read_bare_process x fs) (read_bare_process-IsWiped fs)
                names)
              (subst Unnamed (sym found) (λ e. absurd (named e))) alive)))
