-- ===== src/Process/Table.antt =====
-- daemon/src/process.rs, `Map`: cells by hash, cells by process ID, and the hashes to drain.
pub mod Valid
pub mod Drain
pub mod View
use system76_scheduler.Base.{
  ℕ, String, Bool, Option, none, some, List, [], ◌∷◌, ◌||◌, contains, discard, if◌then◌else◌,
  nat_eq, string_eq, ◌==◌,
}
use system76_scheduler.Base.Dict.{Dict, keys, values, lookup, insert, remove}
use system76_scheduler.Externals.{Externals}
use system76_scheduler.Process.Cell.{Priority, Process, Owner, ro, write, alloc, ancestors, hash_id}

pub record ProcessMap : Type 0 where
  pub map : Dict ℕ ℕ
  pub pid_map : Dict ℕ ℕ
  pub drain : List ℕ

-- `Map::default`
abbrev pub empty_map : ProcessMap
empty_map = record { map = []; pid_map = []; drain = [] }

-- An `Arc` is dropped: its cell goes, unless the map holds another one.
unfoldable pub release : ProcessMap → Owner → ℕ → Owner
release m o a =
    if contains (values m.map) a || contains (values m.pid_map) a
    then o
    else record o { cells = remove a o.cells }

unfoldable pub release_option : ProcessMap → Owner → Option ℕ → Owner
unfolding release
release_option m o none = o
release_option m o (some a) = release m o a

-- One round of the loop over the drained hashes
unfoldable pub drain_one : Owner × ProcessMap → ℕ → Owner × ProcessMap
drain_one (o, m) hash = elim (lookup hash m.map) [
  | none ↦ (o, m)
  | some a ↦
      let m' : ProcessMap = record m {
        map = remove hash m.map;
        pid_map = remove (ro o a).id m.pid_map;
      } in
      (release m' (release_option m' o (lookup (ro o a).id m.pid_map)) a, m')
]

unfoldable pub drain_all : Owner × ProcessMap → List ℕ → Owner × ProcessMap
drain_all s [] = s
drain_all s (hash ∷ rest) = drain_all (drain_one s hash) rest

-- `Map::drain_filter`
unfoldable pub drain_filter : Owner → ProcessMap → Owner × ProcessMap
drain_filter o m = drain_all (o, record m { drain = [] }) m.drain

-- `Map::drain_filter_prepare`: the set of all keys
unfoldable pub drain_filter_prepare : ProcessMap → ProcessMap
drain_filter_prepare m = record m { drain = keys m.map }

-- `Map::get_pid`
unfoldable pub get_pid : ProcessMap → ℕ → Option ℕ
get_pid m pid = lookup pid m.pid_map

-- What `Map::insert` does to an entry that is there: a new name means that the process has forked
unfoldable pub renew : Process → Process → Process
renew entry process =
    if entry.name == process.name
    then record entry { cgroup = process.cgroup; parent = process.parent }
    else record entry {
      cgroup = process.cgroup;
      parent = process.parent;
      forked_cmdline = entry.cmdline;
      forked_name = entry.name;
      name = process.name;
      cmdline = process.cmdline;
      assigned_priority = Priority.not_assignable;
    }

-- `Entry::Vacant`
unfoldable pub insert_vacant : Externals → Owner → ProcessMap → Process → Owner × ProcessMap × ℕ
insert_vacant x o m process =
    let a : ℕ = (alloc o process).1 in
    let m' : ProcessMap = record m {
      map = insert (hash_id x process) a m.map;
      pid_map = insert process.id a m.pid_map;
    } in
    (release_option m' (alloc o process).0 (lookup process.id m.pid_map), m', a)

-- `Map::insert`, and the cell that it returns
unfoldable pub insert_process : Externals → Owner → ProcessMap → Process → Owner × ProcessMap × ℕ
insert_process x o m process = elim (lookup (hash_id x process) m.map) [
  | some a ↦ (write o a (renew (ro o a) process), m, a)
  | none ↦ insert_vacant x o m process
]

unfoldable pub retain_ancestors : Externals → Owner → List ℕ → List ℕ → List ℕ
retain_ancestors x o [] drain = drain
retain_ancestors x o (a ∷ rest) drain =
    retain_ancestors x o rest (discard (hash_id x (ro o a)) drain)

-- `Map::retain_process_tree`
unfoldable pub retain_process_tree : Externals → Owner → ProcessMap → Process → ProcessMap
retain_process_tree x o m process = record m {
  drain = retain_ancestors x o (ancestors o process) (discard (hash_id x process) m.drain);
}
