-- ===== src/Config/Parser/Whole.antt =====
-- config/src/parser: the configuration as a whole, when all files are read.
use system76_scheduler.Base.{
  Bool, Bool-cases, List, Option, Option-cases, String, [], arith, false, inl, inr, nat_eq, none,
  refl, some, string_eq, subst, true, unwrap_or, ◌==◌, ◌∷◌, ◌≡◌,
}
use system76_scheduler.Base.Dict.{All-lookup, All-remove, lookup, remove}
use system76_scheduler.Config.Assignments.{Assignments, default_assignments}
use system76_scheduler.Config.Kdl.{Kdl, enabled, fields}
use system76_scheduler.Config.Parser.Assigned.{
  AreInRange, parse_assignments-AreInRange, parse_exceptions-AreInRange,
}
use system76_scheduler.Config.Parser.Files.{
  ConfigFiles, assignments_files, assignments_node, assignments_nodes, ground_assignments, load,
  main_node, main_nodes, main_path, read_assignments, read_config, read_main, take_profiles,
}
use system76_scheduler.Config.Parser.Nodes.{read_scheduler, scheduler_field, scheduler_fields}
use system76_scheduler.Config.Profile.{Profile}
use system76_scheduler.Config.Scheduler.{
  Config, ForegroundAssignments, SchedulerConfig, default_config, default_scheduler_config,
}
use system76_scheduler.Externals.{Externals}
use system76_scheduler.Kernel.Laws.{IsInRange}

-- All profiles of the process scheduler's configuration are in range.
pub record IsSafe (c : SchedulerConfig) : Type 0 where
  pub assigned : AreInRange c.assignments
  pub foreground_pair :
      (f : ForegroundAssignments)
      → c.foreground ≡ some f
      → IsInRange f.foreground × IsInRange f.background
  pub pipewire_profile : (p : Profile) → c.pipewire ≡ some p → IsInRange p

abbrev empty-AreInRange : AreInRange default_assignments
empty-AreInRange = record { named = tt; by_name = tt; by_cmdline = tt; by_condition = tt }

pub default-IsSafe : IsSafe default_scheduler_config
default-IsSafe = record {
  assigned = empty-AreInRange;
  foreground_pair = λ f e. cc;
  pipewire_profile = λ p e. cc;
}

module _ (x : Externals) (k : Kdl) where
  open k use {Document, Node}

  -- New assignments in range
  set-IsSafe :
      (c : SchedulerConfig) (a : Assignments)
      → AreInRange a
      → IsSafe c
      → IsSafe (record c { assignments = a })
  set-IsSafe c a w v = record {
    assigned = w;
    foreground_pair = v.foreground_pair;
    pipewire_profile = v.pipewire_profile;
  }

  scheduler_field-IsSafe :
      (c : SchedulerConfig) (name : String) (node : Node)
      → IsSafe c
      → IsSafe (scheduler_field x k c name node)
  unfolding scheduler_field
  scheduler_field-IsSafe c name node v = elim (Bool-cases (name == "refresh-rate")) [
    | inl e ↦ rw e (record {
      assigned = v.assigned;
      foreground_pair = v.foreground_pair;
      pipewire_profile = v.pipewire_profile;
    })
    | inr e ↦ rw e (elim (Bool-cases (name == "execsnoop")) [
      | inl f ↦ rw f (record {
        assigned = v.assigned;
        foreground_pair = v.foreground_pair;
        pipewire_profile = v.pipewire_profile;
      })
      | inr f ↦ rw f (elim (Bool-cases (name == "assignments")) [
        | inl g ↦
            rw g (set-IsSafe c _ (parse_assignments-AreInRange x k c.assignments node v.assigned) v)
        | inr g ↦ rw g (elim (Bool-cases (name == "exceptions")) [
          | inl h ↦
              rw h (set-IsSafe c _ (parse_exceptions-AreInRange k c.assignments node v.assigned) v)
          | inr h ↦ rw h v
        ])
      ])
    ])
  ]

  scheduler_fields-IsSafe :
      (c : SchedulerConfig) (l : List (String × Node))
      → IsSafe c
      → IsSafe (scheduler_fields x k c l)
  unfolding scheduler_fields
  scheduler_fields-IsSafe c [] v = v
  scheduler_fields-IsSafe c ((name, node) ∷ rest) v =
      scheduler_fields-IsSafe (scheduler_field x k c name node) rest
        (scheduler_field-IsSafe c name node v)

  set_enable-IsSafe : (c : SchedulerConfig) (b : Bool) → IsSafe c → IsSafe (record c { enable = b })
  set_enable-IsSafe c b v = record {
    assigned = v.assigned;
    foreground_pair = v.foreground_pair;
    pipewire_profile = v.pipewire_profile;
  }

  read_scheduler-IsSafe :
      (c : SchedulerConfig) (node : Node) → IsSafe c → IsSafe (read_scheduler x k c node)
  unfolding read_scheduler
  read_scheduler-IsSafe c node v = elim (Bool-cases (unwrap_or (enabled k node) true)) [
    | inr e ↦ rw e (set_enable-IsSafe c false v)
    | inl e ↦ rw e (elim (Option-cases (k.node_children node)) [
      | inl f ↦ rw f (set_enable-IsSafe c _ v)
      | inr (document, f) ↦
          rw f (scheduler_fields-IsSafe _ (fields k document) (set_enable-IsSafe c _ v))
    ])
  ]

  main_nodes-IsSafe :
      (c : Config) (nodes : List Node)
      → IsSafe c.process_scheduler
      → IsSafe (main_nodes x k c nodes).process_scheduler
  unfolding main_nodes
  main_nodes-IsSafe c [] v = v
  main_nodes-IsSafe c (node ∷ rest) v = main_nodes-IsSafe (main_node x k c node) rest step
    where
      step : IsSafe (main_node x k c node).process_scheduler
      step =
          unfold main_node in
          elim (Bool-cases (k.node_name node == "autogroup-enabled")) [
            | inl e ↦ rw e v
            | inr e ↦ rw e (elim (Bool-cases (k.node_name node == "cfs-profiles")) [
              | inl f ↦ rw f v
              | inr f ↦ rw f (elim (Bool-cases (k.node_name node == "process-scheduler")) [
                | inl g ↦ rw g (read_scheduler-IsSafe c.process_scheduler node v)
                | inr g ↦ rw g v
              ])
            ])
          ]

  read_main-IsSafe : (files : ConfigFiles) → IsSafe (read_main x k files).process_scheduler
  unfolding read_main
  read_main-IsSafe files = elim (Option-cases (main_path x k files)) [
    | inl e ↦ rw (e, read_main) default-IsSafe
    | inr (path, e) ↦
        rw (e, read_main)
          (elim (Option-cases (load x k files path)) [
            | inl f ↦ rw f default-IsSafe
            | inr (document, f) ↦
                rw f (main_nodes-IsSafe default_config (k.nodes document) default-IsSafe)
          ])
  ]

  assignments_nodes-AreInRange :
      (a : Assignments) (nodes : List Node)
      → AreInRange a
      → AreInRange (assignments_nodes x k a nodes)
  unfolding assignments_nodes
  assignments_nodes-AreInRange a [] w = w
  assignments_nodes-AreInRange a (node ∷ rest) w =
      assignments_nodes-AreInRange (assignments_node x k a node) rest step
    where
      step : AreInRange (assignments_node x k a node)
      step =
          unfold assignments_node in
          elim (Bool-cases (k.node_name node == "assignments")) [
            | inl e ↦ rw e (parse_assignments-AreInRange x k a node w)
            | inr e ↦ rw e (elim (Bool-cases (k.node_name node == "exceptions")) [
              | inl f ↦ rw f (parse_exceptions-AreInRange k a node w)
              | inr f ↦ rw f w
            ])
          ]

  assignments_files-AreInRange :
      (files : ConfigFiles) (a : Assignments) (paths : List String)
      → AreInRange a
      → AreInRange (assignments_files x k files a paths)
  unfolding assignments_files
  assignments_files-AreInRange files a [] w = w
  assignments_files-AreInRange files a (path ∷ paths) w = elim (Bool-cases (files.exists path)) [
    | inr e ↦ rw e (assignments_files-AreInRange files a paths w)
    | inl e ↦ rw e (elim (Option-cases (load x k files path)) [
      | inl f ↦ rw f (assignments_files-AreInRange files a paths w)
      | inr (document, f) ↦ rw f (
          assignments_files-AreInRange files (assignments_nodes x k a (k.nodes document)) paths
            (assignments_nodes-AreInRange a (k.nodes document) w))
    ])
  ]

take_profiles-IsSafe : (c : SchedulerConfig) → IsSafe c → IsSafe (take_profiles c)
unfolding take_profiles
take_profiles-IsSafe c v =
    let all = c.assignments.profiles in
    let one = All-remove IsInRange "background" all v.assigned.named in
    let two = All-remove IsInRange "foreground" (remove "background" all) one in
    record {
      assigned = record {
        named = All-remove IsInRange "pipewire" _ two;
        by_name = v.assigned.by_name;
        by_cmdline = v.assigned.by_cmdline;
        by_condition = v.assigned.by_condition;
      };
      foreground_pair =
          ground_pair (lookup "background" all) (lookup "foreground" (remove "background" all))
            (λ p e. All-lookup IsInRange _ p _ v.assigned.named e)
            (λ p e. All-lookup IsInRange _ p _ one e);
      pipewire_profile = λ p e. All-lookup IsInRange "pipewire" p _ two e;
    }
  where
    ground_pair :
        (background foreground : Option Profile)
        → ((p : Profile) → background ≡ some p → IsInRange p)
        → ((p : Profile) → foreground ≡ some p → IsInRange p)
        → (f : ForegroundAssignments)
        → ground_assignments background foreground c.foreground ≡ some f
        → IsInRange f.foreground × IsInRange f.background
    ground_pair (some b) (some g) hb hg f e =
        let pair : ForegroundAssignments = record { background = b; foreground = g } in
        let same : pair ≡ f = unfold ground_assignments in ground arith in
        subst (λ (h : ForegroundAssignments). IsInRange h.foreground × IsInRange h.background) same
          (hg g refl, hb b refl)
    ground_pair (some b) none hb hg f e = unfold ground_assignments in v.foreground_pair f e
    ground_pair none _ hb hg f e = v.foreground_pair f e

-- Whatever the configuration files hold, every profile of the configuration that is read from them has
-- a niceness of -20 .. 19, where it has one, and a scheduling priority of 1 .. 99.
pub read_config-IsSafe :
    (x : Externals) (k : Kdl) (files : ConfigFiles)
    → IsSafe (read_config x k files).process_scheduler
unfolding read_config read_assignments
read_config-IsSafe x k files =
    let main = read_main-IsSafe x k files in
    take_profiles-IsSafe _
      (set-IsSafe x k _ _ (assignments_files-AreInRange x k files _ _ main.assigned) main)
