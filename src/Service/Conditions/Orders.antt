-- ===== src/Service/Conditions/Orders.antt =====
-- daemon/src/service.rs: when the order of the profiles with conditions does not matter.
use mathlib.Core.List.{Permᴰ}
use system76_scheduler.Base.{
  List, [], arith, false, if◌then◌else◌, nat_eq, refl, string_eq, suc, ℕ, ◌∙◌, ◌∷◌, ◌≡◌, ◌≤◌,
}
use system76_scheduler.Config.Assignments.{Rule}
use system76_scheduler.Config.Profile.{Profile}
use system76_scheduler.Externals.{Externals}
use system76_scheduler.Process.Cell.{Owner, Priority, Process}
use system76_scheduler.Service.Conditions.{scan_conditions}
use system76_scheduler.Service.Conditions.Rules.{is_chosen, scan_rules_lem}

module _ (x : Externals) (o : Owner) (p : Process) where
  abbrev pub Entry : Type 0
  Entry = Profile × List Rule

  scan_conditions-cons :
      (e : Entry) (rest : List Entry)
      → scan_conditions x o p (e ∷ rest)
        ≡ (if is_chosen x o p e then Priority.config e.0 else scan_conditions x o p rest)
  unfolding scan_conditions
  scan_conditions-cons (profile, rules) rest = ground (arith, scan_rules_lem x o p rules false)

  -- How many entries are chosen
  abbrev pub count_chosen : List Entry → ℕ
  count_chosen [] = 0
  count_chosen (e ∷ rest) =
      let more = count_chosen rest in if is_chosen x o p e then suc more else more

  count_chosen-perm : {l m : List Entry} → Permᴰ l m → count_chosen l ≡ count_chosen m
  count_chosen-perm (Permᴰ.nil) = refl
  count_chosen-perm (Permᴰ.cons e perm) = rw e (ground (arith, count_chosen-perm perm))
  count_chosen-perm (Permᴰ.swap e f) = rw (e, f) (ground arith)
  count_chosen-perm (Permᴰ.trans one two) = count_chosen-perm one ∙ count_chosen-perm two

  -- Where at most one profile is chosen, every order in which the map can be iterated gives the same
  -- priority.
  pub scan_conditions-perm :
      {l m : List Entry}
      → Permᴰ l m
      → count_chosen l ≤ 1
      → scan_conditions x o p l ≡ scan_conditions x o p m
  scan_conditions-perm Permᴰ.nil h = refl
  scan_conditions-perm (Permᴰ.cons {a} {l₁} {l₂} e perm) h = rw (← e) (
      ground
        (arith, scan_conditions-cons a l₁, scan_conditions-cons a l₂, scan_conditions-perm perm))
  scan_conditions-perm (Permᴰ.swap {a} {b} {l} e f) h =
      rw (← e, ← f)
        (ground (
          arith,
          scan_conditions-cons a (b ∷ l),
          scan_conditions-cons b l,
          scan_conditions-cons b (a ∷ l),
          scan_conditions-cons a l,
        ))
  scan_conditions-perm (Permᴰ.trans one two) h =
      scan_conditions-perm one h ∙ scan_conditions-perm two (omega (arith, count_chosen-perm one))
