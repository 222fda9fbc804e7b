-- ===== src/Config/Parser/Assigned.antt =====
-- config/src/parser: the assignments that the parser builds hold profiles in range only.
use system76_scheduler.Base.{
  All, Bool, Bool-cases, List, Option, Option-cases, String, [], false, inl, inr, nat_eq, none,
  refl, some, string_eq, true, ◌==◌, ◌∷◌, ◌≡◌,
}
use system76_scheduler.Base.Dict.{All-insert, All-lookup, lookup, values}
use system76_scheduler.Base.Text.{starts_with}
use system76_scheduler.Config.Assignments.{
  Assignments, Condition, assign_by_cmdline, assign_by_condition, assign_by_name,
  assign_exception_by_cmdline, assign_exception_by_condition, assign_exception_by_name,
  default_condition, get_profile, or_insert, profile_insert,
}
use system76_scheduler.Config.Kdl.{Kdl, iter_properties}
use system76_scheduler.Config.Parser.Profiles.{parse_profile, parse_properties}
use system76_scheduler.Config.Parser.Ranges.{
  new_profile-IsInRange, parse_profile-IsInRange, parse_properties-IsInRange,
}
use system76_scheduler.Config.Parser.Rules.{
  has_condition, parse_assignments, parse_children, parse_exception, parse_exception_nodes,
  parse_exceptions, parse_named, parse_pattern, parse_patterns, parse_profile_node,
  parse_profile_nodes, parse_rule, rule_properties,
}
use system76_scheduler.Config.Profile.{Profile, new_profile}
use system76_scheduler.Externals.{Externals}
use system76_scheduler.Kernel.Laws.{IsInRange}

-- All profiles of the assignments
pub record AreInRange (a : Assignments) : Type 0 where
  pub named : All IsInRange (values a.profiles)
  pub by_name : All IsInRange (values a.profile_by_name)
  pub by_cmdline : All IsInRange (values a.profile_by_cmdline)
  pub by_condition : All (λ e. IsInRange e.0) (values a.conditions)

assign_by_condition-AreInRange :
    (a : Assignments) (name : String) (c : Condition) (p : Profile) (include : Bool)
    → IsInRange p
    → AreInRange a
    → AreInRange (assign_by_condition a name c p include)
unfolding assign_by_condition
assign_by_condition-AreInRange a name c p include v w = record {
  named = w.named;
  by_name = w.by_name;
  by_cmdline = w.by_cmdline;
  by_condition = elim (Option-cases (lookup name a.conditions)) [
    | inl e ↦
        rw (e, or_insert) (All-insert (λ e. IsInRange e.0) name _ a.conditions v w.by_condition)
    | inr (entry, e) ↦
        rw (e, or_insert)
          (All-insert (λ e. IsInRange e.0) name _ a.conditions
            (All-lookup (λ e. IsInRange e.0) name entry a.conditions w.by_condition e)
            w.by_condition)
  ];
}

module _ (x : Externals) (k : Kdl) where
  open k use {Document, Node}

  parse_rule-AreInRange :
      (a : Assignments) (name : String) (p : Profile) (pattern : Node) (include : Bool)
      → IsInRange p
      → AreInRange a
      → AreInRange (parse_rule x k a name p pattern include)
  unfolding parse_rule
  parse_rule-AreInRange a name p pattern include v w =
      let parsed = parse_properties x k p (iter_properties k pattern) in
      elim (Bool-cases (has_condition (rule_properties k default_condition parsed.1))) [
        | inl e ↦ rw e (
            assign_by_condition-AreInRange a name _ parsed.0 include
              (parse_properties-IsInRange x k p _ v) w)
        | inr e ↦ rw e w
      ]

  parse_named-AreInRange :
      (a : Assignments) (name : String) (p : Profile) (pattern : Node)
      → IsInRange p
      → AreInRange a
      → AreInRange (parse_named x k a name p pattern)
  unfolding parse_named assign_by_cmdline assign_by_name
  parse_named-AreInRange a name p pattern v w = elim (Bool-cases (starts_with b'/' name)) [
    | inl e ↦ rw e (record {
      named = w.named;
      by_name = w.by_name;
      by_cmdline =
          All-insert IsInRange name _ a.profile_by_cmdline (parse_profile-IsInRange x k p pattern v)
            w.by_cmdline;
      by_condition = w.by_condition;
    })
    | inr e ↦ rw e (record {
      named = w.named;
      by_name =
          All-insert IsInRange name _ a.profile_by_name (parse_profile-IsInRange x k p pattern v)
            w.by_name;
      by_cmdline = w.by_cmdline;
      by_condition = w.by_condition;
    })
  ]

  parse_pattern-AreInRange :
      (a : Assignments) (name : String) (p : Profile) (pattern : Node)
      → IsInRange p
      → AreInRange a
      → AreInRange (parse_pattern x k a name p pattern)
  unfolding parse_pattern
  parse_pattern-AreInRange a name p pattern v w =
      elim (Bool-cases (k.node_name pattern == "include")) [
        | inl e ↦ rw e (parse_rule-AreInRange a name p pattern true v w)
        | inr e ↦ rw e (elim (Bool-cases (k.node_name pattern == "exclude")) [
          | inl f ↦ rw f (parse_rule-AreInRange a name p pattern false v w)
          | inr f ↦ rw f (parse_named-AreInRange a (k.node_name pattern) p pattern v w)
        ])
      ]

  parse_patterns-AreInRange :
      (a : Assignments) (name : String) (p : Profile) (patterns : List Node)
      → IsInRange p
      → AreInRange a
      → AreInRange (parse_patterns x k a name p patterns)
  unfolding parse_patterns
  parse_patterns-AreInRange a name p [] v w = w
  parse_patterns-AreInRange a name p (pattern ∷ rest) v w =
      parse_patterns-AreInRange (parse_pattern x k a name p pattern) name p rest v
        (parse_pattern-AreInRange a name p pattern v w)

  parse_children-AreInRange :
      (a : Assignments) (name : String) (p : Profile) (d : Option Document)
      → IsInRange p
      → AreInRange a
      → AreInRange (parse_children x k a name p d)
  unfolding parse_children
  parse_children-AreInRange a name p none v w = w
  parse_children-AreInRange a name p (some rules) v w =
      parse_patterns-AreInRange a name p (k.nodes rules) v w

  parse_profile_node-AreInRange :
      (a : Assignments) (node : Node)
      → AreInRange a
      → AreInRange (parse_profile_node x k a node (get_profile a (k.node_name node)))
  unfolding get_profile
  parse_profile_node-AreInRange a node w = go _ refl
    where
      go :
          (old : Option Profile)
          → lookup (k.node_name node) a.profiles ≡ old
          → AreInRange (parse_profile_node x k a node old)
      go (some old) e =
          unfold parse_profile_node in
          parse_children-AreInRange a (k.node_name node) _ _
            (parse_profile-IsInRange x k old node (All-lookup IsInRange _ old a.profiles w.named e))
            w
      go none e =
          let fresh : IsInRange (parse_profile x k (new_profile x (k.node_name node)) node) =
            parse_profile-IsInRange x k _ node (new_profile-IsInRange x (k.node_name node)) in
          unfold parse_profile_node profile_insert in
          parse_children-AreInRange _ (k.node_name node) _ _ fresh (record {
            named = All-insert IsInRange _ _ a.profiles fresh w.named;
            by_name = w.by_name;
            by_cmdline = w.by_cmdline;
            by_condition = w.by_condition;
          })

  parse_profile_nodes-AreInRange :
      (a : Assignments) (nodes : List Node)
      → AreInRange a
      → AreInRange (parse_profile_nodes x k a nodes)
  unfolding parse_profile_nodes
  parse_profile_nodes-AreInRange a [] w = w
  parse_profile_nodes-AreInRange a (node ∷ rest) w =
      parse_profile_nodes-AreInRange
        (parse_profile_node x k a node (get_profile a (k.node_name node))) rest
        (parse_profile_node-AreInRange a node w)

  pub parse_assignments-AreInRange :
      (a : Assignments) (node : Node) → AreInRange a → AreInRange (parse_assignments x k a node)
  unfolding parse_assignments
  parse_assignments-AreInRange a node w = elim (Option-cases (k.node_children node)) [
    | inl e ↦ rw (e, parse_assignments) w
    | inr (document, e) ↦
        rw (e, parse_assignments) (parse_profile_nodes-AreInRange a (k.nodes document) w)
  ]

module _ (k : Kdl) where
  open k use {Node}

  parse_exception-AreInRange :
      (a : Assignments) (node : Node) → AreInRange a → AreInRange (parse_exception k a node)
  unfolding parse_exception assign_exception_by_condition assign_exception_by_cmdline
      assign_exception_by_name
  parse_exception-AreInRange a node w = elim (Bool-cases (k.node_name node == "include")) [
    | inl e ↦ rw e same
    | inr e ↦ rw e (elim (Bool-cases (starts_with b'/' (k.node_name node))) [
      | inl f ↦ rw f same
      | inr f ↦ rw f same
    ])
  ]
    where
      same :
          {names lines : List String} {conditions : List Condition}
          → AreInRange (record a {
            exceptions_by_name = names;
            exceptions_by_cmdline = lines;
            exceptions_conditions = conditions;
          })
      same = record {
        named = w.named;
        by_name = w.by_name;
        by_cmdline = w.by_cmdline;
        by_condition = w.by_condition;
      }

  parse_exception_nodes-AreInRange :
      (a : Assignments) (nodes : List Node)
      → AreInRange a
      → AreInRange (parse_exception_nodes k a nodes)
  unfolding parse_exception_nodes
  parse_exception_nodes-AreInRange a [] w = w
  parse_exception_nodes-AreInRange a (node ∷ rest) w =
      parse_exception_nodes-AreInRange (parse_exception k a node) rest
        (parse_exception-AreInRange a node w)

  pub parse_exceptions-AreInRange :
      (a : Assignments) (node : Node) → AreInRange a → AreInRange (parse_exceptions k a node)
  unfolding parse_exceptions
  parse_exceptions-AreInRange a node w = elim (Option-cases (k.node_children node)) [
    | inl e ↦ rw (e, parse_exceptions) w
    | inr (document, e) ↦
        rw (e, parse_exceptions) (parse_exception_nodes-AreInRange a (k.nodes document) w)
  ]
