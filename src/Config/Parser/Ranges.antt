-- ===== src/Config/Parser/Ranges.antt =====
-- config/src/parser: every profile of a configuration that was read is in range.
use system76_scheduler.Base.{
  Bool-cases, List, Option-cases, String, [], arith, inl, inr, nat_eq, string_eq, sym, ◌==◌, ◌∙◌,
  ◌∷◌, ◌≡◌,
}
use system76_scheduler.Config.Kdl.{Kdl, as_i8, as_u8, iter_properties, parse_to}
use system76_scheduler.Config.Parser.Profiles.{
  parse_io, parse_nice, parse_profile, parse_properties, parse_sched, parse_sched_typed,
}
use system76_scheduler.Config.Policy.{
  niceness_from_bounds, sched_policy_from_str, sched_priority_from_bounds,
}
use system76_scheduler.Config.Profile.{Profile, new_profile}
use system76_scheduler.Externals.{Externals}
use system76_scheduler.Kernel.Laws.{IsInRange}

pub new_profile-IsInRange : (x : Externals) (name : String) → IsInRange (new_profile x name)
unfolding new_profile
new_profile-IsInRange x name = record { nice = λ n e. cc; priority = omega arith }

same-IsInRange :
    (p q : Profile)
    → q.nice ≡ p.nice
    → q.sched_priority ≡ p.sched_priority
    → IsInRange p
    → IsInRange q
same-IsInRange p q e f v = record { nice = λ n h. v.nice n (sym e ∙ h); priority = rw f v.priority }

module _ (x : Externals) (k : Kdl) where
  open k use {Node, Entry}

  parse_io-IsInRange :
      (p : Profile) (entry : Entry) → IsInRange p → IsInRange (parse_io x k p entry)
  unfolding parse_io
  parse_io-IsInRange p entry v =
      same-IsInRange p (parse_io x k p entry) (ground arith) (ground arith) v

  parse_nice-IsInRange :
      (p : Profile) (entry : Entry) → IsInRange p → IsInRange (parse_nice x k p entry)
  unfolding parse_nice
  parse_nice-IsInRange p entry v = elim (Option-cases (as_i8 k entry)) [
    | inl e ↦ rw (e, parse_nice) v
    | inr (n, e) ↦
        rw (e, parse_nice)
          (record { nice = λ m h. ground (arith, niceness_from_bounds n); priority = v.priority })
  ]

  parse_sched-IsInRange :
      (p : Profile) (entry : Entry) → IsInRange p → IsInRange (parse_sched x k p entry)
  unfolding parse_sched
  parse_sched-IsInRange p entry v = elim (Option-cases (k.entry_type entry)) [
    | inl e ↦
        rw (e, parse_sched)
          (elim (Option-cases (parse_to k sched_policy_from_str entry)) [
            | inl f ↦ rw f v
            | inr (policy, f) ↦ rw f (record { nice = v.nice; priority = v.priority })
          ])
    | inr (name, e) ↦
        rw (e, parse_sched)
          (elim (Option-cases (sched_policy_from_str name)) [
            | inl f ↦ rw (f, parse_sched_typed) v
            | inr (policy, f) ↦
                rw (f, parse_sched_typed)
                  (elim (Option-cases (as_u8 k entry)) [
                    | inl g ↦ rw g v
                    | inr (n, g) ↦
                        rw g (record { nice = v.nice; priority = sched_priority_from_bounds n })
                  ])
          ])
  ]

  pub parse_properties-IsInRange :
      (p : Profile) (entries : List (String × Entry))
      → IsInRange p
      → IsInRange (parse_properties x k p entries).0
  unfolding parse_properties
  parse_properties-IsInRange p [] v = v
  parse_properties-IsInRange p ((property, entry) ∷ rest) v = elim (Bool-cases (property == "io")) [
    | inl e ↦
        rw e (parse_properties-IsInRange (parse_io x k p entry) rest (parse_io-IsInRange p entry v))
    | inr e ↦ rw e (elim (Bool-cases (property == "nice")) [
      | inl f ↦ rw f (
          parse_properties-IsInRange (parse_nice x k p entry) rest (parse_nice-IsInRange p entry v))
      | inr f ↦ rw f (elim (Bool-cases (property == "sched")) [
        | inl g ↦ rw g (
            parse_properties-IsInRange (parse_sched x k p entry) rest
              (parse_sched-IsInRange p entry v))
        | inr g ↦ rw g (parse_properties-IsInRange p rest v)
      ])
    ])
  ]

  -- Whatever a node says, its profile is in range if the one that it starts from is.
  pub parse_profile-IsInRange :
      (p : Profile) (node : Node) → IsInRange p → IsInRange (parse_profile x k p node)
  unfolding parse_profile
  parse_profile-IsInRange p node v = parse_properties-IsInRange p (iter_properties k node) v
