-- ===== src/Tests/Configurations.antt =====
-- Examples for the modules of the configuration.
use system76_scheduler.Base.{
  Bool, List, Option, String, [], false, if◌then◌else◌, inr, nat_eq, none, not, refl, some,
  string_eq, suc, true, zero, ℕ, ◌==◌, ◌∷◌, ◌≡◌,
}
use system76_scheduler.Base.Dict.{lookup}
use system76_scheduler.Base.Int.{negsuc, ℤ}
use system76_scheduler.Config.Assignments.{
  Condition, assign_by_condition, default_assignments, default_condition, matches, new_condition,
}
use system76_scheduler.Config.Assignments.Negation.{matches-negated}
use system76_scheduler.Config.Assignments.Shared.{assign_by_condition-shared}
use system76_scheduler.Config.Kdl.{Kdl, iter_properties}
use system76_scheduler.Config.Parser.Files.{ConfigFiles, read_config}
use system76_scheduler.Config.Parser.Rules.{parse_exception}
use system76_scheduler.Config.Parser.Whole.{IsSafe, read_config-IsSafe}
use system76_scheduler.Service.Conditions.{process_is_exception}
use system76_scheduler.Service.Conditions.Exceptions.{process_is_exception-no_ancestor}
use system76_scheduler.Service.State.{Service}
use system76_scheduler.Tests.{externals, high, low, nothing, settings, shell_process}

matches-negated_example :
    (matches externals (new_condition "bash") "bash" ≡ externals.wild_match "bash" "bash")
    × (matches externals (new_condition "!bash") "bash" ≡ not (externals.wild_match "bash" "bash"))
matches-negated_example = matches-negated externals "!" "bash" "bash" refl refl

abbrev by_bash : Condition
by_bash = record default_condition { name = some (new_condition "bash") }

abbrev by_shell : Condition
by_shell = record default_condition { parent = new_condition "bash" ∷ [] }

assign_by_condition-shared_example :
    lookup "low"
      (assign_by_condition
        (assign_by_condition default_assignments "low" by_bash low true)
        "low"
        by_shell
        high
        false).conditions
    ≡ some (low, (by_bash, true) ∷ (by_shell, false) ∷ [])
unfolding lookup
assign_by_condition-shared_example =
    assign_by_condition-shared default_assignments "low" by_bash by_shell low high true false refl

-- A small document language: a node has a name, entries and children.
pub data Value : Type 0 where
  flag : Bool → Value
  text : String → Value
  whole : ℤ → Value

mutual
  pub data Node : Type 0 where
    node : String → List (Option String × Value) → Nodes → Node

  pub data Nodes : Type 0 where
    nil : Nodes
    cons : Node → Nodes → Nodes

abbrev pub to_list : Nodes → List Node
to_list Nodes.nil = []
to_list (Nodes.cons n ns) = n ∷ to_list ns

abbrev pub name_of : Node → String
name_of (Node.node name entries ns) = name

abbrev pub entries_of : Node → List (Option String × Value)
entries_of (Node.node name entries ns) = entries

abbrev pub children_of : Node → Option Nodes
children_of (Node.node name entries ns) = some ns

abbrev pub nth : List (Option String × Value) → ℕ → Option (Option String × Value)
nth [] n = none
nth (e ∷ es) zero = some e
nth (e ∷ es) (suc n) = nth es n

abbrev pub find_key : List (Option String × Value) → String → Option (Option String × Value)
find_key [] key = none
find_key ((none, v) ∷ es) key = find_key es key
find_key ((some name, v) ∷ es) key =
    let rest = find_key es key in if name == key then some (some name, v) else rest

abbrev pub flag_of : Option String × Value → Option Bool
flag_of (name, Value.flag b) = some b
flag_of (name, _) = none

abbrev pub text_of : Option String × Value → Option String
text_of (name, Value.text s) = some s
text_of (name, _) = none

abbrev pub whole_of : Option String × Value → Option ℤ
whole_of (name, Value.whole n) = some n
whole_of (name, _) = none

-- An exception that names a cgroup only
abbrev exception : Node
exception = Node.node "include" ((some "cgroup", Value.text "/system.slice") ∷ []) Nodes.nil

-- A profile whose niceness is out of range, and a process that has it
abbrev pub documents : Nodes
documents =
    Nodes.cons
      (Node.node "process-scheduler" ((some "enable", Value.flag true) ∷ []) (
        Nodes.cons
          (Node.node "assignments" [] (
            Nodes.cons
              (Node.node "pipewire" ((some "nice", Value.whole (negsuc 99)) ∷ [])
                (Nodes.cons (Node.node "player" [] Nodes.nil) Nodes.nil))
              Nodes.nil))
          Nodes.nil))
      Nodes.nil

abbrev pub kdl : Kdl
kdl = record {
  Document = Nodes;
  Node = Node;
  Entry = Option String × Value;
  parse_document = λ source. inr documents;
  nodes = to_list;
  node_name = name_of;
  node_children = children_of;
  entries = entries_of;
  get_at = λ n. nth (entries_of n);
  get_key = λ n. find_key (entries_of n);
  entry_name = λ e. e.0;
  entry_type = λ e. none;
  as_bool = flag_of;
  as_string = text_of;
  as_i64 = whole_of;
  as_f64 = λ e. none;
}

abbrev files : ConfigFiles
files = record {
  exists = λ path. true;
  read = λ path. some "process-scheduler";
  read_dir = λ path. none;
}

read_config-IsSafe_example : IsSafe (read_config externals kdl files).process_scheduler
read_config-IsSafe_example = read_config-IsSafe externals kdl files

-- A service whose only exception names a cgroup that the shell is not in
abbrev excepting : Service
excepting = record nothing {
  config = record settings {
    process_scheduler = record settings.process_scheduler {
      assignments = parse_exception kdl default_assignments exception;
    };
  };
}

process_is_exception-no_ancestor_example :
    process_is_exception externals excepting shell_process ≡ true
unfolding iter_properties
process_is_exception-no_ancestor_example =
    process_is_exception-no_ancestor externals kdl default_assignments exception excepting
      shell_process refl refl refl
