-- ===== src/Pipewire/Nodes/Tally.antt =====
-- pipewire/src/lib.rs: numbers of nodes and of events for a process, and the keys of the map `managed`.
use system76_scheduler.Base.{
  ==_iff, Bool-cases, List, Option, [], ap, arith, false, if◌then◌else◌, inl, inr, is_some, nat_eq,
  none, refl, some, string_eq, suc, sym, ℕ, ◌++◌, ◌+◌, ◌==◌, ◌∙◌, ◌∷◌, ◌≡◌,
}
use system76_scheduler.Base.Dict.{
  Dict, contains-keys, insert, keys, lookup, lookup-insert, lookup-remove, remove, values,
}
use system76_scheduler.Base.Distinct.{Distinct}
use system76_scheduler.Pipewire.{ProcessEvent}

abbrev pub count_nodes : ℕ → List ℕ → ℕ
count_nodes pid [] = 0
count_nodes pid (p ∷ rest) = let more = count_nodes pid rest in if p == pid then suc more else more

abbrev pub count_added : ℕ → List ProcessEvent → ℕ
count_added pid [] = 0
count_added pid (ProcessEvent.add p ∷ rest) =
    let more = count_added pid rest in if p == pid then suc more else more
count_added pid (ProcessEvent.remove p ∷ rest) = count_added pid rest

abbrev pub count_removed : ℕ → List ProcessEvent → ℕ
count_removed pid [] = 0
count_removed pid (ProcessEvent.add p ∷ rest) = count_removed pid rest
count_removed pid (ProcessEvent.remove p ∷ rest) =
    let more = count_removed pid rest in if p == pid then suc more else more

pub count_added-append :
    (pid : ℕ) (xs ys : List ProcessEvent)
    → count_added pid (xs ++ ys) ≡ count_added pid xs + count_added pid ys
count_added-append pid [] ys = omega arith
count_added-append pid (ProcessEvent.add p ∷ xs) ys = ground (arith, count_added-append pid xs ys)
count_added-append pid (ProcessEvent.remove p ∷ xs) ys =
    ground (arith, count_added-append pid xs ys)

pub count_removed-append :
    (pid : ℕ) (xs ys : List ProcessEvent)
    → count_removed pid (xs ++ ys) ≡ count_removed pid xs + count_removed pid ys
count_removed-append pid [] ys = omega arith
count_removed-append pid (ProcessEvent.add p ∷ xs) ys =
    ground (arith, count_removed-append pid xs ys)
count_removed-append pid (ProcessEvent.remove p ∷ xs) ys =
    ground (arith, count_removed-append pid xs ys)

-- How the number of nodes changes with the map
pub count_nodes-insert :
    (pid id p : ℕ) (m : Dict ℕ ℕ)
    → lookup id m ≡ none
    → count_nodes pid (values (insert id p m))
      ≡ count_nodes pid (values m) + (if p == pid then 1 else 0)
unfolding lookup insert
count_nodes-insert pid id p [] h = ground arith
count_nodes-insert pid id p ((j, q) ∷ m) h = ground (arith, count_nodes-insert pid id p m)

pub count_nodes-renew :
    (pid id p : ℕ) (m : Dict ℕ ℕ)
    → lookup id m ≡ some p
    → count_nodes pid (values (insert id p m)) ≡ count_nodes pid (values m)
unfolding lookup insert
count_nodes-renew pid id p [] h = ground arith
count_nodes-renew pid id p ((j, q) ∷ m) h = ground (arith, count_nodes-renew pid id p m)

pub remove-absent : (id : ℕ) (m : Dict ℕ ℕ) → lookup id m ≡ none → remove id m ≡ m
unfolding lookup remove
remove-absent id [] h = refl
remove-absent id ((j, q) ∷ m) h = ground (arith, remove-absent id m)

is_some-none : (o : Option ℕ) → is_some o ≡ false → o ≡ none
is_some-none none h = refl
is_some-none (some a) h = cc

pub count_nodes-remove :
    (pid id p : ℕ) (m : Dict ℕ ℕ)
    → Distinct (keys m)
    → lookup id m ≡ some p
    → count_nodes pid (values m)
      ≡ count_nodes pid (values (remove id m)) + (if p == pid then 1 else 0)
unfolding lookup remove
count_nodes-remove pid id p [] d h = ground arith
count_nodes-remove pid id p ((j, q) ∷ m) d h = elim (Bool-cases (j == id)) [
  | inl e ↦ ground (
    arith,
    ap (λ l. count_nodes pid (values l)) (remove-absent id m (absent ((==_iff j id).0 e))),
    ==_iff j id,
  )
  | inr e ↦ ground (arith, count_nodes-remove pid id p m d.1)
]
  where
    absent : j ≡ id → lookup id m ≡ none
    absent same = rw (← same) (is_some-none _ (sym (contains-keys j m) ∙ d.0))

pub Distinct-keys-insert :
    (id p : ℕ) (m : Dict ℕ ℕ) → Distinct (keys m) → Distinct (keys (insert id p m))
unfolding insert
Distinct-keys-insert id p [] d = (refl, tt)
Distinct-keys-insert id p ((j, q) ∷ m) d = elim (Bool-cases (j == id)) [
  | inl e ↦ rw e (ground (arith, ==_iff j id), d.1)
  | inr e ↦ rw e (
    ground (
      arith,
      contains-keys j m,
      contains-keys j (insert id p m),
      lookup-insert id j p m,
      ==_iff id j,
      ==_iff j id,
    ),
    Distinct-keys-insert id p m d.1,
  )
]

pub Distinct-keys-remove :
    (id : ℕ) (m : Dict ℕ ℕ) → Distinct (keys m) → Distinct (keys (remove id m))
unfolding remove
Distinct-keys-remove id [] d = tt
Distinct-keys-remove id ((j, q) ∷ m) d = elim (Bool-cases (j == id)) [
  | inl e ↦ rw e (Distinct-keys-remove id m d.1)
  | inr e ↦ rw e (
    ground (arith, contains-keys j m, contains-keys j (remove id m), lookup-remove id j m),
    Distinct-keys-remove id m d.1,
  )
]
