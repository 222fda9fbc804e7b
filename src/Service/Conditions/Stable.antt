-- ===== src/Service/Conditions/Stable.antt =====
-- daemon/src/service.rs: exceptions and conditions, and the priorities of processes.
use mathlib.Core.Path.{ap₂}
use system76_scheduler.Base.{
  Bool, Bool-cases, List, Option, String, [], any, ap, arith, false, inl, inr, is_empty, nat_eq,
  none, refl, some, string_eq, sym, true, ℕ, ◌||◌, ◌∙◌, ◌∷◌, ◌≡◌,
}
use system76_scheduler.Config.Assignments.{
  Condition, MatchCondition, Rule, is_exception_by_cmdline, is_exception_by_name, matches,
}
use system76_scheduler.Config.Profile.{Profile}
use system76_scheduler.Externals.{Externals}
use system76_scheduler.Process.Cell.{Owner, Process, ancestors, ro, parent}
use system76_scheduler.Process.Cell.Alike.{Alike, ancestors-Alike, without_priority, parent-Alike}
use system76_scheduler.Service.Conditions.{
  condition_met, descends_excepted, descends_met, is_excepted_by, matches_either, parent_excepted,
  parent_met, process_is_exception, scan_conditions, scan_rules,
}
use system76_scheduler.Service.State.{Service}

any-cong {ℓ} :
    {A : Type ℓ} (p q : A → Bool) → ((a : A) → p a ≡ q a) → (xs : List A) → any p xs ≡ any q xs
any-cong p q h [] = refl
any-cong p q h (a ∷ xs) = ground (arith, h a, any-cong p q h xs)

-- The process's own priority is not read.
module _ (x : Externals) (o : Owner) (p : Process) where
  descends_excepted-clear :
      (c : Option MatchCondition)
      → descends_excepted x o p c ≡ descends_excepted x o (without_priority p) c
  unfolding descends_excepted ancestors parent
  descends_excepted-clear none = refl
  descends_excepted-clear (some c) = refl

  is_excepted_by-clear :
      (c : Condition) → is_excepted_by x o p c ≡ is_excepted_by x o (without_priority p) c
  unfolding is_excepted_by parent_excepted parent
  is_excepted_by-clear c = rw (descends_excepted-clear c.descends) refl

  descends_met-clear :
      (c : Option MatchCondition) → descends_met x o p c ≡ descends_met x o (without_priority p) c
  unfolding descends_met ancestors parent
  descends_met-clear none = refl
  descends_met-clear (some c) = refl

  condition_met-clear :
      (c : Condition) → condition_met x o p c ≡ condition_met x o (without_priority p) c
  unfolding condition_met parent_met parent
  condition_met-clear c = rw (descends_met-clear c.descends) refl

module _ (x : Externals) {o q : Owner} (h : Alike o q) where
  name_of : (a : ℕ) → (ro q a).name ≡ (ro o a).name
  name_of a = ap (λ (p : Process). p.name) (h.same a)

  matches_either-Alike :
      (c : MatchCondition) (a : ℕ) → matches_either x c (ro q a) ≡ matches_either x c (ro o a)
  unfolding matches_either
  matches_either-Alike c a = ap (matches_either x c) (h.same a)

  descends_excepted-Alike :
      (p : Process) (c : Option MatchCondition)
      → descends_excepted x q p c ≡ descends_excepted x o p c
  unfolding descends_excepted
  descends_excepted-Alike p none = refl
  descends_excepted-Alike p (some c) =
      rw
        (
          ancestors-Alike h p,
          any-cong (λ a. matches_either x c (ro q a)) (λ a. matches_either x c (ro o a))
              (matches_either-Alike c) (ancestors o p),
        )
        refl

  -- Of the parent, where there is one
  one_parent :
      (c : MatchCondition) (found : Option ℕ)
      → elim found [ none ↦ false | some a ↦ matches_either x c (ro q a) ]
        ≡ elim found [ none ↦ false | some a ↦ matches_either x c (ro o a) ]
  one_parent c none = refl
  one_parent c (some a) = matches_either-Alike c a

  parent_excepted-Alike :
      (p : Process) (conditions : List MatchCondition)
      → parent_excepted x q p conditions ≡ parent_excepted x o p conditions
  unfolding parent_excepted
  parent_excepted-Alike p conditions =
      ap (λ b. is_empty conditions || b)
        (any-cong _ _
          (λ c.
            ap (λ found. elim found [ none ↦ false | some a ↦ matches_either x c (ro q a) ])
              (parent-Alike h p)
            ∙ one_parent c (parent o p))
          conditions)

  is_excepted_by-Alike :
      (p : Process) (c : Condition) → is_excepted_by x q p c ≡ is_excepted_by x o p c
  unfolding is_excepted_by
  is_excepted_by-Alike p c =
      rw (descends_excepted-Alike p c.descends, parent_excepted-Alike p c.parent) refl

  is_excepted_by-other :
      (r p : Process) (c : Condition)
      → without_priority r ≡ without_priority p
      → is_excepted_by x q r c ≡ is_excepted_by x o p c
  is_excepted_by-other r p c e =
      is_excepted_by-clear x q r c
      ∙ ap (λ (p : Process). is_excepted_by x q p c) e
      ∙ sym (is_excepted_by-clear x q p c)
      ∙ is_excepted_by-Alike p c

  pub process_is_exception-Alike :
      (s t : Service) (r p : Process)
      → s.owner ≡ o
      → t.owner ≡ q
      → t.config ≡ s.config
      → without_priority r ≡ without_priority p
      → process_is_exception x t r ≡ process_is_exception x s p
  unfolding process_is_exception
  process_is_exception-Alike s t r p e f g c =
      rw (g, e, f)
        (ap₂ ◌||◌
          (ap₂ ◌||◌
            (ap
              (λ (p : Process).
                is_exception_by_cmdline s.config.process_scheduler.assignments p.cmdline)
              c)
            (ap
              (λ (p : Process). is_exception_by_name s.config.process_scheduler.assignments p.name)
              c))
          (any-cong (is_excepted_by x q r) (is_excepted_by x o p)
            (λ d. is_excepted_by-other r p d c)
            s.config.process_scheduler.assignments.exceptions_conditions))

  any_parent :
      (conditions : List MatchCondition) (found : Option ℕ)
      → elim found [ none ↦ false | some a ↦ any (λ c. matches x c (ro q a).name) conditions ]
        ≡ elim found [ none ↦ false | some a ↦ any (λ c. matches x c (ro o a).name) conditions ]
  any_parent conditions none = refl
  any_parent conditions (some a) =
      ap (λ (name : String). any (λ c. matches x c name) conditions) (name_of a)

  parent_met-Alike :
      (p : Process) (conditions : List MatchCondition)
      → parent_met x q p conditions ≡ parent_met x o p conditions
  unfolding parent_met
  parent_met-Alike p conditions =
      ap (λ b. is_empty conditions || b)
        (ap
            (λ found. elim found [
              | none ↦ false
              | some a ↦ any (λ c. matches x c (ro q a).name) conditions
            ])
            (parent-Alike h p)
          ∙ any_parent conditions (parent o p))

  descends_met-Alike :
      (p : Process) (c : Option MatchCondition) → descends_met x q p c ≡ descends_met x o p c
  unfolding descends_met
  descends_met-Alike p none = refl
  descends_met-Alike p (some c) = rw (ancestors-Alike h p) (
      any-cong (λ a. matches x c (ro q a).name) (λ a. matches x c (ro o a).name)
        (λ a. ap (matches x c) (name_of a)) (ancestors o p))

  condition_met-Alike :
      (p : Process) (c : Condition) → condition_met x q p c ≡ condition_met x o p c
  unfolding condition_met
  condition_met-Alike p c = rw (parent_met-Alike p c.parent, descends_met-Alike p c.descends) refl

  condition_met-other :
      (r p : Process) (c : Condition)
      → without_priority r ≡ without_priority p
      → condition_met x q r c ≡ condition_met x o p c
  condition_met-other r p c e =
      condition_met-clear x q r c
      ∙ ap (λ (p : Process). condition_met x q p c) e
      ∙ sym (condition_met-clear x q p c)
      ∙ condition_met-Alike p c

  module _ (r p : Process) (e : without_priority r ≡ without_priority p) where
    scan_rules-Alike :
        (rules : List Rule) (assigned : Bool)
        → scan_rules x q r rules assigned ≡ scan_rules x o p rules assigned
    unfolding scan_rules
    scan_rules-Alike [] assigned = refl
    scan_rules-Alike ((condition, include) ∷ rest) assigned =
        elim (Bool-cases (condition_met x o p condition)) [
          | inl met ↦
              rw (condition_met-other r p condition e, met, scan_rules)
                (included include (scan_rules-Alike rest true))
          | inr unmet ↦
              rw (condition_met-other r p condition e, unmet, scan_rules)
                (scan_rules-Alike rest assigned)
        ]
      where
        included :
            (b : Bool)
            → scan_rules x q r rest true ≡ scan_rules x o p rest true
            → elim b [ true ↦ scan_rules x q r rest true | false ↦ false ]
              ≡ elim b [ true ↦ scan_rules x o p rest true | false ↦ false ]
        included true more = more
        included false more = refl

    pub scan_conditions-Alike :
        (profiles : List (Profile × List Rule))
        → scan_conditions x q r profiles ≡ scan_conditions x o p profiles
    unfolding scan_conditions
    scan_conditions-Alike [] = refl
    scan_conditions-Alike ((profile, rules) ∷ rest) =
        elim (Bool-cases (scan_rules x o p rules false)) [
          | inl met ↦ rw (scan_rules-Alike rules false, met, scan_conditions) refl
          | inr unmet ↦
              rw (scan_rules-Alike rules false, unmet, scan_conditions) (scan_conditions-Alike rest)
        ]
