-- ===== src/Service/Conditions.antt =====
-- daemon/src/service.rs: exceptions, and the conditions of a profile.
pub mod Exceptions
pub mod Rules
pub mod Orders
pub mod Stable
use system76_scheduler.Base.{
  ℕ, String, Bool, true, false, ◌&&◌, ◌||◌, Option, none, some, List, [], ◌∷◌, any, is_empty,
}
use system76_scheduler.Externals.{Externals}
use system76_scheduler.Config.Profile.{Profile}
use system76_scheduler.Config.Assignments.{
  MatchCondition, matches, Condition, Rule, is_exception_by_name, is_exception_by_cmdline,
}
use system76_scheduler.Process.Cell.{Priority, Process, Owner, ro, parent, ancestors}
use system76_scheduler.Service.State.{Service}

module _ (x : Externals) where
  -- `condition.matches(&parent.name) || condition.matches(&parent.forked_name)`
  unfoldable pub matches_either : MatchCondition → Process → Bool
  matches_either c p = matches x c p.name || matches x c p.forked_name

  unfoldable pub descends_excepted : Owner → Process → Option MatchCondition → Bool
  unfolding matches_either
  descends_excepted o p none = true
  descends_excepted o p (some c) =
      matches x c p.forked_name || any (λ a. matches_either c (ro o a)) (ancestors o p)

  unfoldable pub parent_excepted : Owner → Process → List MatchCondition → Bool
  unfolding matches_either
  parent_excepted o p conditions =
      is_empty conditions
      || any (λ c. elim (parent o p) [ none ↦ false | some a ↦ matches_either c (ro o a) ])
          conditions

  -- One round of the loop over the conditional exceptions
  unfoldable pub is_excepted_by : Owner → Process → Condition → Bool
  unfolding descends_excepted parent_excepted
  is_excepted_by o p condition =
      descends_excepted o p condition.descends && parent_excepted o p condition.parent

  -- `Service::process_is_exception`
  unfoldable pub process_is_exception : Service → Process → Bool
  process_is_exception s p =
      is_exception_by_cmdline s.config.process_scheduler.assignments p.cmdline
      || is_exception_by_name s.config.process_scheduler.assignments p.name
      || any (is_excepted_by s.owner p) s.config.process_scheduler.assignments.exceptions_conditions

  unfoldable pub text_met : Option MatchCondition → String → Bool
  text_met none input = true
  text_met (some c) input = matches x c input

  unfoldable pub parent_met : Owner → Process → List MatchCondition → Bool
  parent_met o p conditions = is_empty conditions || elim (parent o p) [
    | none ↦ false
    | some a ↦ any (λ c. matches x c (ro o a).name) conditions
  ]

  unfoldable pub descends_met : Owner → Process → Option MatchCondition → Bool
  descends_met o p none = true
  descends_met o p (some c) = any (λ a. matches x c (ro o a).name) (ancestors o p)

  -- The closure `condition_met`
  unfoldable pub condition_met : Owner → Process → Condition → Bool
  unfolding text_met parent_met descends_met
  condition_met o p condition =
      text_met condition.cgroup p.cgroup
      && text_met condition.name p.name
      && parent_met o p condition.parent
      && descends_met o p condition.descends

  -- The loop over one profile's rules; the flag is whether `assigned_profile` is set.
  unfoldable pub scan_rules : Owner → Process → List Rule → Bool → Bool
  scan_rules o p [] assigned = assigned
  scan_rules o p ((condition, include) ∷ rest) assigned = elim (condition_met o p condition) [
    | true ↦ elim include [ true ↦ scan_rules o p rest true | false ↦ false ]
    | false ↦ scan_rules o p rest assigned
  ]

  -- The loop `'outer` over the profiles with conditions
  unfoldable pub scan_conditions : Owner → Process → List (Profile × List Rule) → Priority
  scan_conditions o p [] = Priority.assignable
  scan_conditions o p ((profile, rules) ∷ rest) = elim (scan_rules o p rules false) [
    | true ↦ Priority.config profile
    | false ↦ scan_conditions o p rest
  ]
