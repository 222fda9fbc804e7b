-- ===== src/Config/Assignments.antt =====
-- config/src/scheduler/assignments.rs
pub mod Negation
pub mod Shared
use system76_scheduler.Base.{
  String, Bool, not, Option, none, some, List, [], ◌∷◌, ◌++◌, string_eq, contains, adjoin,
}
use system76_scheduler.Base.Dict.{Dict, lookup, insert}
use system76_scheduler.Base.Text.{strip_prefix}
use system76_scheduler.Externals.{Externals}
use system76_scheduler.Config.Profile.{Profile}

-- A `WildMatch` stands for its pattern.
pub data MatchCondition : Type 0 where
  is_match is_not_match : String → MatchCondition

from_stripped : String → Option String → MatchCondition
from_stripped input none = is_match input
from_stripped input (some rest) = is_not_match rest

-- `MatchCondition::new`
unfoldable pub new_condition : String → MatchCondition
unfolding from_stripped
new_condition input = from_stripped input (strip_prefix b'!' input)

-- `MatchCondition::matches`
unfoldable pub matches : Externals → MatchCondition → String → Bool
matches x (is_match pattern) input = x.wild_match pattern input
matches x (is_not_match pattern) input = not (x.wild_match pattern input)

pub record Condition : Type 0 where
  pub descends : Option MatchCondition
  pub cgroup : Option MatchCondition
  pub name : Option MatchCondition
  pub parent : List MatchCondition

abbrev pub default_condition : Condition
default_condition = record { descends = none; cgroup = none; name = none; parent = [] }

-- A condition with its `include` flag
abbrev pub Rule : Type 0
Rule = Condition × Bool

pub record Assignments : Type 0 where
  pub conditions : Dict String (Profile × List Rule)
  pub exceptions_by_name : List String
  pub exceptions_by_cmdline : List String
  pub exceptions_conditions : List Condition
  pub profiles : Dict String Profile
  pub profile_by_name : Dict String Profile
  pub profile_by_cmdline : Dict String Profile

abbrev pub default_assignments : Assignments
default_assignments = record {
  conditions = [];
  exceptions_by_name = [];
  exceptions_by_cmdline = [];
  exceptions_conditions = [];
  profiles = [];
  profile_by_name = [];
  profile_by_cmdline = [];
}

-- `Assignments::clear`
clear : Assignments → Assignments
clear a = record a {
  conditions = [];
  profiles = [];
  profile_by_name = [];
  profile_by_cmdline = [];
  exceptions_by_cmdline = [];
  exceptions_by_name = [];
  exceptions_conditions = [];
}

unfoldable pub get_by_name : Assignments → String → Option Profile
get_by_name a process = lookup process a.profile_by_name

unfoldable pub get_by_cmdline : Assignments → String → Option Profile
get_by_cmdline a process = lookup process a.profile_by_cmdline

unfoldable pub is_exception_by_name : Assignments → String → Bool
is_exception_by_name a name = contains a.exceptions_by_name name

unfoldable pub is_exception_by_cmdline : Assignments → String → Bool
is_exception_by_cmdline a name = contains a.exceptions_by_cmdline name

-- `Assignments::profile`
unfoldable pub get_profile : Assignments → String → Option Profile
get_profile a profile = lookup profile a.profiles

unfoldable pub profile_insert : Assignments → String → Profile → Assignments
profile_insert a name profile = record a { profiles = insert name profile a.profiles }

unfoldable pub assign_by_name : Assignments → String → Profile → Assignments
assign_by_name a name profile = record a { profile_by_name = insert name profile a.profile_by_name }

-- `entry(name).or_insert_with(|| (profile, Vec::new()))`
unfoldable pub or_insert : Option (Profile × List Rule) → Profile → Profile × List Rule
or_insert none profile = (profile, [])
or_insert (some entry) profile = entry

unfoldable pub push_rule : Profile × List Rule → Rule → Profile × List Rule
push_rule (profile, rules) rule = (profile, rules ++ rule ∷ [])

unfoldable pub assign_by_condition : Assignments → String → Condition → Profile → Bool → Assignments
unfolding or_insert push_rule
assign_by_condition a name condition profile include = record a {
  conditions =
      insert name (push_rule (or_insert (lookup name a.conditions) profile) (condition, include))
        a.conditions;
}

unfoldable pub assign_by_cmdline : Assignments → String → Profile → Assignments
assign_by_cmdline a name profile = record a {
  profile_by_cmdline = insert name profile a.profile_by_cmdline;
}

unfoldable pub assign_exception_by_cmdline : Assignments → String → Assignments
assign_exception_by_cmdline a name = record a {
  exceptions_by_cmdline = adjoin name a.exceptions_by_cmdline;
}

unfoldable pub assign_exception_by_condition : Assignments → Condition → Assignments
assign_exception_by_condition a condition = record a {
  exceptions_conditions = a.exceptions_conditions ++ condition ∷ [];
}

unfoldable pub assign_exception_by_name : Assignments → String → Assignments
assign_exception_by_name a name = record a { exceptions_by_name = adjoin name a.exceptions_by_name }
