-- ===== src/Tests.antt =====
-- Sample values for the tests: a machine with three processes, and instances of what the daemon calls.
pub mod Processes
pub mod Configurations
pub mod Services
pub mod Daemons
pub mod Systems
pub mod Pipes
pub mod Refreshes
use system76_scheduler.Base.{
  List, Option, String, [], if◌then◌else◌, is_some, leb, ltb, nat_eq, none, some, string_eq, true,
  ℕ, ◌&&◌, ◌*◌, ◌++◌, ◌+◌, ◌-◌, ◌==◌, ◌∷◌,
}
use system76_scheduler.Base.Int.{negsuc, pos}
use system76_scheduler.Base.Text.{codes}
use system76_scheduler.Config.Assignments.{default_assignments}
use system76_scheduler.Config.Kdl.{fields}
use system76_scheduler.Config.Policy.{SchedPolicy}
use system76_scheduler.Config.Profile.{Class, Profile}
use system76_scheduler.Config.Scheduler.{
  Config, ForegroundAssignments, default_config, default_scheduler_config,
}
use system76_scheduler.Externals.{Externals}
use system76_scheduler.Process.Cell.{Process, default_process}
use system76_scheduler.Process.Files.{Procfs, cgroup, cmdline, parent_id}
use system76_scheduler.Service.Refresh.{process_map_insert}
use system76_scheduler.Service.State.{Service, new_service}

-- Numbers in decimal, up to the first byte that is no digit
abbrev digits : ℕ → List ℕ → ℕ
digits n [] = n
digits n (b ∷ bs) = if leb b'0' b && leb b b'9' then digits (n * 10 + (b - b'0')) bs else n

abbrev number : List ℕ → Option ℕ
number [] = none
number (b ∷ bs) = if leb b'0' b && leb b b'9' then some (digits 0 (b ∷ bs)) else none

-- The words between single spaces
abbrev words : List ℕ → List ℕ → List (List ℕ)
words word [] = word ∷ []
words word (b ∷ bs) = if b == b' ' then word ∷ words [] bs else words (word ++ b ∷ []) bs

abbrev level : ℕ → Option ℕ
level n = if ltb n 8 then some n else none

abbrev pub externals : Externals
externals = record {
  wild_match = λ pattern input. pattern == input;
  finish_hash = λ id parent. id * 100 + parent;
  be_from_level = level;
  be_lowest = 7;
  rt_from_level = level;
  rt_lowest = 7;
  atoi = number;
  fields = words [];
  trim = λ bytes. bytes;
}

abbrev exe_of : ℕ → Option String
exe_of pid =
    if pid == 1
    then some "/sbin/init"
    else if pid == 2
    then some "/usr/bin/bash"
    else if pid == 3
    then some "/usr/bin/editor file"
    else none

abbrev status_of : ℕ → Option (List ℕ)
status_of pid =
    if pid == 1
    then some (codes "Name:init\nPPid:0\n")
    else if pid == 2
    then some (codes "Name:bash\nPPid:1\n")
    else if pid == 3
    then some (codes "Name:editor\nPPid:2\n")
    else none

abbrev children_of : ℕ → Option (List ℕ)
children_of pid =
    if pid == 1 then some (codes "2 ") else if pid == 2 then some (codes "3 ") else some []

-- /proc with the processes 1, 2 and 3
abbrev pub procfs : Procfs
procfs = record {
  entries = some (codes "1" ∷ codes "2" ∷ codes "3" ∷ codes "self" ∷ []);
  exe = exe_of;
  cgroup_file = λ pid. some "0::/user.slice\n";
  status_file = status_of;
  status_exists = λ pid. is_some (status_of pid);
  children_file = children_of;
  tasks = λ pid. some (codes "7" ∷ []);
  pid_max = 8;
}

abbrev pub low : Profile
low = record {
  name = "low";
  nice = some (pos 9);
  io = Class.idle;
  sched_policy = SchedPolicy.idle;
  sched_priority = 1;
}

abbrev pub high : Profile
high = record {
  name = "high";
  nice = some (negsuc 8);
  io = Class.best_effort 0;
  sched_policy = SchedPolicy.other;
  sched_priority = 1;
}

abbrev pub init_process : Process
init_process = record default_process {
  id = 1;
  name = "init";
  cgroup = "/user.slice";
  cmdline = "/sbin/init";
}

abbrev pub shell_process : Process
shell_process = record default_process {
  id = 2;
  parent_id = 1;
  name = "bash";
  cgroup = "/user.slice";
  cmdline = "/usr/bin/bash";
  parent = some 0;
}

abbrev pub editor_process : Process
editor_process = record default_process {
  id = 3;
  parent_id = 2;
  name = "editor";
  cgroup = "/user.slice";
  cmdline = "/usr/bin/editor";
  parent = some 1;
}

abbrev pub pair : ForegroundAssignments
pair = record { background = low; foreground = high }

-- A configuration that knows the shell by its name
abbrev pub settings : Config
settings = record default_config {
  process_scheduler = record default_scheduler_config {
    enable = true;
    foreground = some pair;
    pipewire = some high;
    assignments = record default_assignments { profile_by_name = ("bash", low) ∷ [] };
  };
}

-- The service before it knows any process, and when it knows one and three
abbrev pub nothing : Service
nothing = record (new_service none) { config = settings }

abbrev pub one_process : Service
one_process = process_map_insert externals nothing init_process

abbrev pub three_processes : Service
three_processes =
    process_map_insert externals (process_map_insert externals one_process shell_process)
      editor_process
