-- ===== src/Config/Assignments/Shared.antt =====
-- config/src/scheduler/assignments.rs: one profile for all rules of a name.
use system76_scheduler.Base.{==_refl, Bool, String, [], nat_eq, none, some, string_eq, ◌∷◌, ◌≡◌}
use system76_scheduler.Base.Dict.{lookup, lookup-insert}
use system76_scheduler.Config.Assignments.{
  Assignments, Condition, assign_by_condition, or_insert, push_rule,
}
use system76_scheduler.Config.Profile.{Profile}

-- The profile of the first rule under a name stays; a later rule is added to it, and its own profile is
-- dropped.
pub assign_by_condition-shared :
    (a : Assignments) (name : String) (c d : Condition) (p q : Profile) (i j : Bool)
    → lookup name a.conditions ≡ none
    → lookup name (assign_by_condition (assign_by_condition a name c p i) name d q j).conditions
      ≡ some (p, (c, i) ∷ (d, j) ∷ [])
unfolding assign_by_condition
assign_by_condition-shared a name c d p q i j fresh =
    simp (lookup-insert, ==_refl, fresh, or_insert, push_rule)
