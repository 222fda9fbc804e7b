-- ===== src/Config/Parser/Rules.antt =====
-- config/src/parser/scheduler.rs, `impl Assignments`. Log messages are left out.
use system76_scheduler.Base.{
  Bool, List, Option, String, [], false, if◌then◌else◌, is_empty, is_some, nat_eq, none, not, some,
  string_eq, true, ◌++◌, ◌==◌, ◌||◌, ◌∷◌,
}
use system76_scheduler.Base.Text.{starts_with}
use system76_scheduler.Config.Assignments.{
  Assignments, Condition, MatchCondition, assign_by_cmdline, assign_by_condition, assign_by_name,
  assign_exception_by_cmdline, assign_exception_by_condition, assign_exception_by_name,
  default_condition, get_profile, new_condition, profile_insert,
}
use system76_scheduler.Config.Kdl.{Kdl, iter_properties}
use system76_scheduler.Config.Parser.Profiles.{parse_profile, parse_properties}
use system76_scheduler.Config.Profile.{Profile, new_profile}
use system76_scheduler.Externals.{Externals}

module _ (k : Kdl) where
  open k use {Entry}

  -- `entry.value().as_string().map(MatchCondition::new)`
  unfoldable pub read_condition : Entry → Option MatchCondition
  read_condition entry = elim (k.as_string entry) [
    | none ↦ none
    | some text ↦ some (new_condition text)
  ]

  -- `if let Some(parent) = .. { condition.parent.push(MatchCondition::new(parent)) }`
  unfoldable pub push_parent : Condition → Entry → Condition
  push_parent c entry = elim (k.as_string entry) [
    | none ↦ c
    | some text ↦ record c { parent = c.parent ++ new_condition text ∷ [] }
  ]

  -- One property of an `include` or `exclude` rule: a value that is no text unsets the condition.
  unfoldable pub rule_property : Condition → String → Entry → Condition
  unfolding read_condition push_parent
  rule_property c property entry =
      if property == "cgroup"
      then record c { cgroup = read_condition entry }
      else if property == "descends"
      then record c { descends = read_condition entry }
      else if property == "name"
      then record c { name = read_condition entry }
      else if property == "parent"
      then push_parent c entry
      else c

  unfoldable pub rule_properties : Condition → List (String × Entry) → Condition
  rule_properties c [] = c
  rule_properties c ((property, entry) ∷ rest) =
      rule_properties (rule_property c property entry) rest

  -- `if let Some(value) = entry.value().as_string() { condition.. = Some(MatchCondition::new(value)) }`
  unfoldable pub or_else_old : Option MatchCondition → Option MatchCondition → Option MatchCondition
  or_else_old none old = old
  or_else_old (some c) old = some c

  -- One property of an exception
  unfoldable pub exception_property : Condition → String → Entry → Condition
  unfolding read_condition push_parent or_else_old
  exception_property c property entry =
      if property == "cgroup"
      then record c { cgroup = or_else_old (read_condition entry) c.cgroup }
      else if property == "descends"
      then record c { descends = or_else_old (read_condition entry) c.descends }
      else if property == "parent"
      then push_parent c entry
      else c

  unfoldable pub exception_properties : Condition → List (String × Entry) → Condition
  exception_properties c [] = c
  exception_properties c ((property, entry) ∷ rest) =
      exception_properties (exception_property c property entry) rest

unfoldable pub has_condition : Condition → Bool
has_condition c =
    is_some c.cgroup || is_some c.descends || is_some c.name || not (is_empty c.parent)

module _ (x : Externals) (k : Kdl) where
  open k use {Document, Node, Entry}

  -- The branch `ParseCondition::Include | ParseCondition::Exclude`
  unfoldable pub parse_rule : Assignments → String → Profile → Node → Bool → Assignments
  parse_rule a profile_name profile pattern include =
      let (profile', rest) = parse_properties x k profile (iter_properties k pattern) in
      let condition = rule_properties k default_condition rest in
      if has_condition condition
      then assign_by_condition a profile_name condition profile' include
      else a

  -- The branch `ParseCondition::Name`
  unfoldable pub parse_named : Assignments → String → Profile → Node → Assignments
  parse_named a name profile pattern =
      if starts_with b'/' name
      then assign_by_cmdline a name (parse_profile x k profile pattern)
      else assign_by_name a name (parse_profile x k profile pattern)

  -- One child of a profile's node
  unfoldable pub parse_pattern : Assignments → String → Profile → Node → Assignments
  unfolding parse_rule parse_named
  parse_pattern a profile_name profile pattern =
      if k.node_name pattern == "include"
      then parse_rule a profile_name profile pattern true
      else if k.node_name pattern == "exclude"
      then parse_rule a profile_name profile pattern false
      else parse_named a (k.node_name pattern) profile pattern

  unfoldable pub parse_patterns : Assignments → String → Profile → List Node → Assignments
  parse_patterns a profile_name profile [] = a
  parse_patterns a profile_name profile (pattern ∷ rest) =
      parse_patterns (parse_pattern a profile_name profile pattern) profile_name profile rest

  unfoldable pub parse_children : Assignments → String → Profile → Option Document → Assignments
  parse_children a profile_name profile none = a
  parse_children a profile_name profile (some rules) =
      parse_patterns a profile_name profile (k.nodes rules)

  -- A profile's node: a profile that is there is the start of this one, and stays as it is.
  unfoldable pub parse_profile_node : Assignments → Node → Option Profile → Assignments
  unfolding parse_children
  parse_profile_node a node (some old) =
      parse_children a (k.node_name node) (parse_profile x k old node) (k.node_children node)
  parse_profile_node a node none =
      let profile = parse_profile x k (new_profile x (k.node_name node)) node in
      parse_children (profile_insert a (k.node_name node) profile) (k.node_name node) profile
        (k.node_children node)

  unfoldable pub parse_profile_nodes : Assignments → List Node → Assignments
  parse_profile_nodes a [] = a
  parse_profile_nodes a (node ∷ rest) =
      parse_profile_nodes (parse_profile_node a node (get_profile a (k.node_name node))) rest

  -- `Assignments::parse`
  unfoldable pub parse_assignments : Assignments → Node → Assignments
  parse_assignments a node = elim (k.node_children node) [
    | none ↦ a
    | some document ↦ parse_profile_nodes a (k.nodes document)
  ]

module _ (k : Kdl) where
  open k use {Node}

  -- One child of the exceptions' node
  unfoldable pub parse_exception : Assignments → Node → Assignments
  parse_exception a node =
      if k.node_name node == "include"
      then assign_exception_by_condition a
          (exception_properties k default_condition (iter_properties k node))
      else if starts_with b'/' (k.node_name node)
      then assign_exception_by_cmdline a (k.node_name node)
      else assign_exception_by_name a (k.node_name node)

  unfoldable pub parse_exception_nodes : Assignments → List Node → Assignments
  parse_exception_nodes a [] = a
  parse_exception_nodes a (node ∷ rest) = parse_exception_nodes (parse_exception a node) rest

  -- `Assignments::parse_exceptions`
  unfoldable pub parse_exceptions : Assignments → Node → Assignments
  parse_exceptions a node = elim (k.node_children node) [
    | none ↦ a
    | some document ↦ parse_exception_nodes a (k.nodes document)
  ]
