-- ===== src/Config/Parser/Files.antt =====
-- config/src/parser/mod.rs and `configuration_files` of config/src/lib.rs. Log messages are left out,
-- and with them the line number that `read_main` counts for one.
use Prim.Native.String.{◌++◌ as text_append}
use mathlib.Core.List.{reverse}
use system76_scheduler.Base.{
  ◌++◌, Bool, List, Option, String, [], false, if◌then◌else◌, inl, inr, is_some, nat_eq, none, some,
  string_eq, unwrap_or, ℕ, ◌==◌, ◌∷◌,
}
use system76_scheduler.Base.Dict.{lookup, remove}
use system76_scheduler.Base.Text.{codes, strip_bytes}
use system76_scheduler.Config.Assignments.{Assignments}
use system76_scheduler.Config.Kdl.{Kdl, get_bool}
use system76_scheduler.Config.Parser.Nodes.{read_cfs, read_scheduler}
use system76_scheduler.Config.Parser.Rules.{parse_assignments, parse_exceptions}
use system76_scheduler.Config.Profile.{Profile}
use system76_scheduler.Config.Scheduler.{
  Config, ForegroundAssignments, SchedulerConfig, default_config,
}
use system76_scheduler.Externals.{Externals}

-- What the file system shows while the configuration is read
pub record ConfigFiles : Type 0 where
  -- `Path::exists`
  pub exists : String → Bool
  -- `read_into_string`, `none` where it fails
  pub read : String → Option String
  -- the names that `fs::read_dir` lists and that are valid text, in its order, if it succeeds
  pub read_dir : String → Option (List String)

abbrev pub distribution_path : String
distribution_path = "/usr/share/system76-scheduler/"

abbrev pub system_conf_path : String
system_conf_path = "/etc/system76-scheduler/"

is_prefix : List ℕ → List ℕ → Bool
is_prefix ks bytes = is_some (strip_bytes ks bytes)

-- `str::ends_with`
unfoldable pub ends_with : String → String → Bool
unfolding is_prefix
ends_with text suffix = is_prefix (reverse (codes suffix)) (reverse (codes text))

unfoldable pub with_extension : String → String → List String → List String
unfolding ends_with
with_extension directory extension [] = []
with_extension directory extension (name ∷ names) =
    let rest = with_extension directory extension names in
    if ends_with name extension then (text_append directory (text_append "/" name)) ∷ rest else rest

-- `configuration_files`
unfoldable pub configuration_files : ConfigFiles → List String → String → List String
configuration_files files [] extension = []
configuration_files files (directory ∷ directories) extension =
    let rest = configuration_files files directories extension in
    elim (files.read_dir directory) [
      | none ↦ rest
      | some names ↦ with_extension directory extension names ++ rest
    ]

module _ (x : Externals) (k : Kdl) where
  open k use {Document, Node}

  -- One node of the main file
  unfoldable pub main_node : Config → Node → Config
  main_node c node =
      if k.node_name node == "autogroup-enabled"
      then record c { autogroup_enabled = unwrap_or (get_bool k node 0) false }
      else if k.node_name node == "cfs-profiles"
      then record c { cfs_profiles = read_cfs k c.cfs_profiles node }
      else if k.node_name node == "process-scheduler"
      then record c { process_scheduler = read_scheduler x k c.process_scheduler node }
      else c

  unfoldable pub main_nodes : Config → List Node → Config
  main_nodes c [] = c
  main_nodes c (node ∷ rest) = main_nodes (main_node c node) rest

  -- The file at a path, read and parsed
  unfoldable pub load : ConfigFiles → String → Option Document
  load files path = elim (files.read path) [
    | none ↦ none
    | some text ↦ elim (k.parse_document text) [ inl offset ↦ none | inr document ↦ some document ]
  ]

  unfoldable pub main_path : ConfigFiles → Option String
  main_path files =
      if files.exists (text_append system_conf_path "config.kdl")
      then some (text_append system_conf_path "config.kdl")
      else if files.exists (text_append distribution_path "config.kdl")
      then some (text_append distribution_path "config.kdl")
      else none

  -- `read_main`
  unfoldable pub read_main : ConfigFiles → Config
  unfolding main_path load
  read_main files = elim (main_path files) [
    | none ↦ default_config
    | some path ↦ elim (load files path) [
      | none ↦ default_config
      | some document ↦ main_nodes default_config (k.nodes document)
    ]
  ]

  -- One node of a file of assignments
  unfoldable pub assignments_node : Assignments → Node → Assignments
  assignments_node a node =
      if k.node_name node == "assignments"
      then parse_assignments x k a node
      else if k.node_name node == "exceptions"
      then parse_exceptions k a node
      else a

  unfoldable pub assignments_nodes : Assignments → List Node → Assignments
  assignments_nodes a [] = a
  assignments_nodes a (node ∷ rest) = assignments_nodes (assignments_node a node) rest

  unfoldable pub assignments_files : ConfigFiles → Assignments → List String → Assignments
  assignments_files files a [] = a
  assignments_files files a (path ∷ paths) =
      assignments_files files
        (if files.exists path
          then elim (load files path) [
            | none ↦ a
            | some document ↦ assignments_nodes a (k.nodes document)
          ]
          else a)
        paths

  unfoldable pub set_assignments : Config → Assignments → Config
  set_assignments c a = record c {
    process_scheduler = record c.process_scheduler { assignments = a };
  }

  -- `read_assignments`
  unfoldable pub read_assignments : ConfigFiles → Config → Config
  unfolding set_assignments
  read_assignments files c = set_assignments c (
      assignments_files files c.process_scheduler.assignments (
        configuration_files files
          ((text_append distribution_path "process-scheduler/")
            ∷ (text_append system_conf_path "process-scheduler/")
            ∷ [])
          ".kdl"))

-- `if let (Some(background), Some(foreground)) = (background, foreground)`
unfoldable pub ground_assignments :
    Option Profile → Option Profile → Option ForegroundAssignments → Option ForegroundAssignments
ground_assignments (some background) (some foreground) old =
    some (record { background = background; foreground = foreground })
ground_assignments _ _ old = old

-- What `read_config` does when all files are read: three profiles are taken out of the others.
unfoldable pub take_profiles : SchedulerConfig → SchedulerConfig
unfolding ground_assignments
take_profiles c =
    let profiles = c.assignments.profiles in
    record c {
      assignments = record c.assignments {
        profiles = remove "pipewire" (remove "foreground" (remove "background" profiles));
      };
      foreground =
          ground_assignments (lookup "background" profiles)
            (lookup "foreground" (remove "background" profiles)) c.foreground;
      pipewire = lookup "pipewire" (remove "foreground" (remove "background" profiles));
    }

-- `read_config`
unfoldable pub read_config : Externals → Kdl → ConfigFiles → Config
unfolding take_profiles
read_config x k files =
    let c = read_assignments x k files (read_main x k files) in
    record c { process_scheduler = take_profiles c.process_scheduler }
