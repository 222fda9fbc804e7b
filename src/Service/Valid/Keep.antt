-- ===== src/Service/Valid/Keep.antt =====
-- daemon/src/service.rs: the invariant while the map is filled from /proc.
use system76_scheduler.Base.{ℕ, ◌≡◌, refl, Option, none, some, List, [], ◌∷◌, nat_eq}
use system76_scheduler.Base.Dict.{Dict}
use system76_scheduler.Externals.{Externals}
use system76_scheduler.Process.Cell.{Process, Owner, hash_id}
use system76_scheduler.Process.Table.{
  ProcessMap, get_pid, drain_filter_prepare, retain_process_tree,
}
use system76_scheduler.Process.Table.Valid.{
  IsValid, write-IsValid, insert_process-IsValid, set_drain-IsValid,
}
use system76_scheduler.Service.State.{Service}
use system76_scheduler.Service.Refresh.{keep_process, keep_processes, link_parent, link_parents}
use system76_scheduler.Service.Valid.{Valid}

module _ (x : Externals) where
  link_parent-IsValid :
      (o : Owner) (m : ProcessMap) (pid : ℕ) (b : Option ℕ)
      → IsValid x o m
      → IsValid x (link_parent o (get_pid m pid) b) m
  link_parent-IsValid o m pid b v = go (get_pid m pid) b refl
    where
      go : (a c : Option ℕ) → get_pid m pid ≡ a → IsValid x (link_parent o a c) m
      go none c e = unfold link_parent in v
      go (some a) none e = unfold link_parent in v
      go (some a) (some b) e =
          unfold link_parent hash_id get_pid in
          write-IsValid x o m a _ (v.pid_cell pid a e).0 refl refl v

  pub link_parents-IsValid :
      (o : Owner) (m : ProcessMap) (parents : Dict ℕ ℕ)
      → IsValid x o m
      → IsValid x (link_parents o m parents) m
  unfolding link_parents
  link_parents-IsValid o m [] v = v
  link_parents-IsValid o m ((pid, ppid) ∷ rest) v =
      link_parents-IsValid (link_parent o (get_pid m pid) (get_pid m ppid)) m rest
        (link_parent-IsValid o m pid (get_pid m ppid) v)

  pub keep_process-Valid : (s : Service) (p : Process) → Valid x s → Valid x (keep_process x s p)
  unfolding keep_process retain_process_tree
  keep_process-Valid s p v = insert_process-IsValid x _ _ p (set_drain-IsValid x _ _ _ v)

  pub keep_processes-Valid :
      (s : Service) (ps : List Process) → Valid x s → Valid x (keep_processes x s ps)
  unfolding keep_processes
  keep_processes-Valid s [] v = v
  keep_processes-Valid s (p ∷ ps) v =
      keep_processes-Valid (keep_process x s p) ps (keep_process-Valid s p v)

  pub prepare-Valid :
      (s : Service) → Valid x s → IsValid x s.owner (drain_filter_prepare s.process_map)
  unfolding drain_filter_prepare
  prepare-Valid s v = set_drain-IsValid x _ _ _ v
