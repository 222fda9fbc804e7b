-- ===== src/Service/Conditions/Rules.antt =====
-- daemon/src/service.rs: which profile the conditions choose.
use system76_scheduler.Base.{
  Bool, Bool-cases, List, [], any, arith, false, inl, inr, nat_eq, not, string_eq, true, ◌&&◌, ◌||◌,
  ◌∙◌, ◌∷◌, ◌≡◌,
}
use system76_scheduler.Config.Assignments.{Rule}
use system76_scheduler.Config.Profile.{Profile}
use system76_scheduler.Externals.{Externals}
use system76_scheduler.Process.Cell.{Owner, Priority, Process}
use system76_scheduler.Service.Conditions.{condition_met, scan_conditions, scan_rules}

module _ (x : Externals) (o : Owner) (p : Process) where
  abbrev pub met_include : Rule → Bool
  met_include (condition, include) = condition_met x o p condition && include

  abbrev pub met_exclude : Rule → Bool
  met_exclude (condition, include) = condition_met x o p condition && not include

  -- The loop over a profile's rules answers whether an include rule is met (or one was before) and no
  -- exclude rule is, in whatever order the rules stand.
  pub scan_rules_lem :
      (rules : List Rule) (assigned : Bool)
      → scan_rules x o p rules assigned
        ≡ (assigned || any met_include rules) && not (any met_exclude rules)
  unfolding scan_rules
  scan_rules_lem [] assigned = ground arith
  scan_rules_lem ((condition, include) ∷ rest) assigned =
      ground (arith, scan_rules_lem rest true, scan_rules_lem rest assigned)

  abbrev pub is_chosen : Profile × List Rule → Bool
  is_chosen (profile, rules) = any met_include rules && not (any met_exclude rules)

  -- `priority` is the profile of the first chosen entry, and the plain one where no entry is chosen.
  pub data FirstChosen : List (Profile × List Rule) → Priority → Type 0 where
    no_entry : FirstChosen [] Priority.assignable
    chosen :
        (profile : Profile) (rules : List Rule) {rest : List (Profile × List Rule)}
        → is_chosen (profile, rules) ≡ true
        → FirstChosen ((profile, rules) ∷ rest) (Priority.config profile)
    passed :
        (profile : Profile) (rules : List Rule) {rest : List (Profile × List Rule)}
        {priority : Priority}
        → is_chosen (profile, rules) ≡ false
        → FirstChosen rest priority
        → FirstChosen ((profile, rules) ∷ rest) priority

  -- The loop over the profiles takes the first entry of the map with a met include rule and no met
  -- exclude rule, and leaves the process assignable where there is none.
  pub scan_conditions-FirstChosen :
      (entries : List (Profile × List Rule)) → FirstChosen entries (scan_conditions x o p entries)
  unfolding scan_conditions
  scan_conditions-FirstChosen [] = no_entry
  scan_conditions-FirstChosen ((profile, rules) ∷ rest) =
      elim (Bool-cases (is_chosen (profile, rules))) [
        | inl e ↦ rw (scan_rules_lem rules false ∙ e, scan_conditions) (chosen profile rules e)
        | inr e ↦
            rw (scan_rules_lem rules false ∙ e, scan_conditions)
              (passed profile rules e (scan_conditions-FirstChosen rest))
      ]

  -- Where the rules of two profiles choose them both, the order in which the map is iterated decides.
  pub scan_conditions-order :
      (one two : Profile) (rules_one rules_two : List Rule)
      → is_chosen (one, rules_one) ≡ true
      → is_chosen (two, rules_two) ≡ true
      → (scan_conditions x o p ((one, rules_one) ∷ (two, rules_two) ∷ []) ≡ Priority.config one)
        × (scan_conditions x o p ((two, rules_two) ∷ (one, rules_one) ∷ []) ≡ Priority.config two)
  unfolding scan_conditions
  scan_conditions-order one two rules_one rules_two h k = (
    rw (scan_rules_lem rules_one false ∙ h, scan_conditions),
    rw (scan_rules_lem rules_two false ∙ k, scan_conditions),
  )
