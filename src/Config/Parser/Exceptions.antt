-- ===== src/Config/Parser/Exceptions.antt =====
-- config/src/parser: exceptions that name no ancestor.
use system76_scheduler.Base.{
  Bool, List, String, [], any, arith, false, nat_eq, none, refl, string_eq, true, ◌++◌, ◌==◌, ◌||◌,
  ◌∷◌, ◌≡◌,
}
use system76_scheduler.Config.Assignments.{
  Assignments, Condition, assign_exception_by_condition, default_condition,
}
use system76_scheduler.Config.Kdl.{Kdl, iter_properties}
use system76_scheduler.Config.Parser.Rules.{
  exception_properties, exception_property, parse_exception,
}

module _ (k : Kdl) where
  open k use {Node, Entry}

  abbrev pub names_ancestor : String × Entry → Bool
  names_ancestor (name, entry) = name == "descends" || name == "parent"

  abbrev pub HasNoAncestor : Condition → Type 0
  HasNoAncestor c = (c.descends ≡ none) × (c.parent ≡ [])

  exception_properties-HasNoAncestor :
      (c : Condition) (l : List (String × Entry))
      → HasNoAncestor c
      → any names_ancestor l ≡ false
      → HasNoAncestor (exception_properties k c l)
  unfolding exception_properties
  exception_properties-HasNoAncestor c [] h e = h
  exception_properties-HasNoAncestor c ((name, entry) ∷ rest) h e =
      exception_properties-HasNoAncestor (exception_property k c name entry) rest
        (unfold exception_property in ground arith) (ground arith)

  -- Whatever `cgroup` an exception asks for, its condition asks for no ancestor if the node does not.
  pub parse_exception-HasNoAncestor :
      (a : Assignments) (node : Node)
      → (k.node_name node == "include") ≡ true
      → any names_ancestor (iter_properties k node) ≡ false
      → (c : Condition) × HasNoAncestor c
        × ((parse_exception k a node).exceptions_conditions ≡ a.exceptions_conditions ++ c ∷ [])
  unfolding parse_exception assign_exception_by_condition
  parse_exception-HasNoAncestor a node h e = rw h (
    exception_properties k default_condition (iter_properties k node),
    exception_properties-HasNoAncestor default_condition (iter_properties k node) (refl, refl) e,
    refl,
  )
