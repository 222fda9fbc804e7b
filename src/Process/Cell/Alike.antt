-- ===== src/Process/Cell/Alike.antt =====
-- daemon/src/process.rs: owners whose cells differ in assigned priorities only.
use system76_scheduler.Base.{
  ==_iff, Bool-cases, Option, [], ap, arith, if◌then◌else◌, inl, inr, is_some, length, nat_eq, none,
  refl, some, string_eq, suc, true, zero, ℕ, ◌==◌, ◌∙◌, ◌∷◌, ◌≡◌,
}
use system76_scheduler.Base.Dict.{Dict, insert, lookup, lookup-insert}
use system76_scheduler.Process.Cell.{
  Owner, Priority, Process, ancestors, ancestors_from, ro, upgrade, write, parent,
}
use system76_scheduler.Process.Cell.Writes.{ro-write}

-- A process without its priority
abbrev pub without_priority : Process → Process
without_priority p = record p { assigned_priority = Priority.not_assignable }

pub record Alike (o q : Owner) : Type 0 where
  pub size : length q.cells ≡ length o.cells
  pub kept : (a : ℕ) → is_some (lookup a q.cells) ≡ is_some (lookup a o.cells)
  pub same : (a : ℕ) → without_priority (ro q a) ≡ without_priority (ro o a)

pub Alike-refl : (o : Owner) → Alike o o
Alike-refl o = record { size = refl; kept = λ a. refl; same = λ a. refl }

pub Alike-trans : {o q r : Owner} → Alike o q → Alike q r → Alike o r
Alike-trans h k = record {
  size = k.size ∙ h.size;
  kept = λ a. k.kept a ∙ h.kept a;
  same = λ a. k.same a ∙ h.same a;
}

length-insert :
    (a : ℕ) (p : Process) (cells : Dict ℕ Process)
    → is_some (lookup a cells) ≡ true
    → length (insert a p cells) ≡ length cells
unfolding lookup insert
length-insert a p [] h = absurd (cc)
length-insert a p ((b, q) ∷ cells) h = ground (arith, length-insert a p cells)

-- A new priority for a cell that is there
pub write-Alike :
    (o : Owner) (a : ℕ) (priority : Priority)
    → is_some (lookup a o.cells) ≡ true
    → Alike o (write o a (record (ro o a) { assigned_priority = priority }))
unfolding write
write-Alike o a priority h = record {
  size = length-insert a (record (ro o a) { assigned_priority = priority }) o.cells h;
  kept = λ b. ground (
    arith,
    lookup-insert a b (record (ro o a) { assigned_priority = priority }) o.cells,
    ==_iff a b,
  );
  same = λ b.
      ap without_priority (ro-write o a b (record (ro o a) { assigned_priority = priority }))
      ∙ chosen b;
}
  where
    chosen :
        (b : ℕ)
        → without_priority
            (if a == b then record (ro o a) { assigned_priority = priority } else ro o b)
          ≡ without_priority (ro o b)
    chosen b = elim (Bool-cases (a == b)) [
      | inl e ↦ rw e (ap (λ n. without_priority (ro o n)) ((==_iff a b).0 e))
      | inr e ↦ rw e refl
    ]

module _ {o q : Owner} (h : Alike o q) where
  upgrade-Alike : (weak : Option ℕ) → upgrade q weak ≡ upgrade o weak
  unfolding upgrade
  upgrade-Alike none = refl
  upgrade-Alike (some a) = rw (h.kept a) refl

  pub parent-Alike : (p : Process) → parent q p ≡ parent o p
  unfolding parent
  parent-Alike p = upgrade-Alike p.parent

  parent_of : (a : ℕ) → parent q (ro q a) ≡ parent o (ro o a)
  unfolding parent
  parent_of a = ap (λ (p : Process). upgrade q p.parent) (h.same a) ∙ upgrade-Alike (ro o a).parent

  ancestors_from-Alike :
      (fuel : ℕ) (weak : Option ℕ) → ancestors_from fuel q weak ≡ ancestors_from fuel o weak
  unfolding ancestors_from
  ancestors_from-Alike zero weak = refl
  ancestors_from-Alike (suc fuel) none = refl
  ancestors_from-Alike (suc fuel) (some a) =
      ap (◌∷◌ a)
        (ap (ancestors_from fuel q) (parent_of a) ∙ ancestors_from-Alike fuel (parent o (ro o a)))

  pub ancestors-Alike : (p : Process) → ancestors q p ≡ ancestors o p
  unfolding ancestors
  ancestors-Alike p =
      rw (h.size, parent-Alike p) (ancestors_from-Alike (length o.cells) (parent o p))
