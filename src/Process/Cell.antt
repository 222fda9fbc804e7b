-- ===== src/Process/Cell.antt =====
-- daemon/src/process.rs, `Process` and its parents; daemon/src/service.rs, `OwnedPriority`.
-- An `Arc<LCell<Process>>` is an address. A cell stands in `cells` as long as some `Arc` to it is held,
-- so `Weak::upgrade` finds an address exactly while its cell is there. Addresses are not used twice.
pub mod Writes
pub mod Alike
use system76_scheduler.Base.{
  ℕ, zero, suc, ◌+◌, String, Bool, true, false, Option, none, some, List, [], ◌∷◌, length, is_some,
  unwrap_or, if◌then◌else◌, nat_eq,
}
use system76_scheduler.Base.Dict.{Dict, lookup, insert}
use system76_scheduler.Externals.{Externals}
use system76_scheduler.Config.Profile.{Profile}

-- `OwnedPriority`, and `Priority`, its borrowed copy
pub data Priority : Type 0 where
  assignable : Priority
  config : Profile → Priority
  exception : Priority
  not_assignable : Priority

-- The comparisons with `OwnedPriority::NotAssignable` and `OwnedPriority::Assignable`
abbrev pub is_not_assignable : Priority → Bool
is_not_assignable Priority.not_assignable = true
is_not_assignable _ = false

abbrev pub is_assignable : Priority → Bool
is_assignable Priority.assignable = true
is_assignable _ = false

pub record Process : Type 0 where
  pub id : ℕ
  pub parent_id : ℕ
  pub name : String
  pub cgroup : String
  pub cmdline : String
  pub forked_cmdline : String
  pub forked_name : String
  pub parent : Option ℕ
  pub assigned_priority : Priority
  pub pipewire_ancestor : Option ℕ

-- `Process::default`
abbrev pub default_process : Process
default_process = record {
  id = 0;
  parent_id = 0;
  name = "";
  cgroup = "";
  cmdline = "";
  forked_cmdline = "";
  forked_name = "";
  parent = none;
  assigned_priority = Priority.not_assignable;
  pipewire_ancestor = none;
}

pub record Owner : Type 0 where
  pub cells : Dict ℕ Process
  pub next : ℕ

abbrev pub empty_owner : Owner
empty_owner = record { cells = []; next = 0 }

-- `cell.ro(&owner)`
unfoldable pub ro : Owner → ℕ → Process
ro o a = unwrap_or (lookup a o.cells) default_process

-- What is written through `cell.rw(&mut owner)`
unfoldable pub write : Owner → ℕ → Process → Owner
write o a p = record o { cells = insert a p o.cells }

-- `Arc::new(LCell::new(process))`
unfoldable pub alloc : Owner → Process → Owner × ℕ
alloc o p = (record { cells = insert o.next p o.cells; next = o.next + 1 }, o.next)

-- `Weak::upgrade`
unfoldable pub upgrade : Owner → Option ℕ → Option ℕ
upgrade o none = none
upgrade o (some a) = if is_some (lookup a o.cells) then some a else none

-- `Process::parent`
unfoldable pub parent : Owner → Process → Option ℕ
unfolding upgrade
parent o p = upgrade o p.parent

-- `Process::ancestors`, from the first parent on. The fuel is the number of cells.
unfoldable pub ancestors_from : ℕ → Owner → Option ℕ → List ℕ
ancestors_from zero o start = []
ancestors_from (suc fuel) o none = []
ancestors_from (suc fuel) o (some a) = a ∷ ancestors_from fuel o (parent o (ro o a))

unfoldable pub ancestors : Owner → Process → List ℕ
ancestors o p = ancestors_from (length o.cells) o (parent o p)

-- `Process::hash_id`
unfoldable pub hash_id : Externals → Process → ℕ
hash_id x p = x.finish_hash p.id p.parent_id
