-- ===== src/Base/Dict.antt =====
-- `BTreeMap` and `HashMap` as association lists. A key that is inserted anew goes to the end, one that
-- is there keeps its place; the order of the list is the order in which the map is iterated.
use mathlib.Core.Path.{◌≡◌, refl, subst}
use mathlib.Core.Bool.{true, ◌||◌}
use mathlib.Core.Option.{Option, none, some}
use mathlib.Core.Logic.{inl, inr}
use mathlib.Core.List.{List, [], ◌∷◌}
use native.Mathlib.Omega.{arith}
use system76_scheduler.Base.Eq.{Eq, Bool-cases, ◌==◌, ==_iff, ==_refl, if◌then◌else◌}
use system76_scheduler.Base.Lists.{contains, is_some, All}

abbrev pub Dict {ℓ κ} : Type ℓ → Type κ → Type (ℓ ⊔ κ)
Dict K V = List (K × V)

module _ {ℓ κ} {K : Type ℓ} {V : Type κ} where
  abbrev pub keys : Dict K V → List K
  keys [] = []
  keys ((k, v) ∷ m) = k ∷ keys m

  abbrev pub values : Dict K V → List V
  values [] = []
  values ((k, v) ∷ m) = v ∷ values m

module _ {ℓ κ} {K : Type ℓ} {V : Type κ} ⦃e : Eq K⦄ where
  unfoldable pub lookup : K → Dict K V → Option V
  lookup key [] = none
  lookup key ((k, v) ∷ rest) = if k == key then some v else lookup key rest

  unfoldable pub insert : K → V → Dict K V → Dict K V
  insert key new [] = (key, new) ∷ []
  insert key new ((k, v) ∷ rest) =
      if k == key then (key, new) ∷ rest else (k, v) ∷ insert key new rest

  unfoldable pub remove : K → Dict K V → Dict K V
  remove k [] = []
  remove k ((j, v) ∷ m) = let rest = remove k m in if j == k then rest else (j, v) ∷ rest

  pub lookup-insert :
      (key k : K) (new : V) (dict : Dict K V)
      → lookup k (insert key new dict) ≡ (if key == k then some new else lookup k dict)
  unfolding lookup insert
  lookup-insert key k new [] = refl
  lookup-insert key k new ((j, v) ∷ rest) =
      ground (arith, ==_iff key k, ==_iff j key, ==_iff j k, lookup-insert key k new rest)

  pub lookup-remove :
      (k j : K) (m : Dict K V) → lookup j (remove k m) ≡ (if k == j then none else lookup j m)
  unfolding lookup remove
  lookup-remove k j [] = ground arith
  lookup-remove k j ((i, v) ∷ m) =
      ground (arith, lookup-remove k j m, ==_iff i k, ==_iff i j, ==_iff k j)

  pub contains-keys : (k : K) (m : Dict K V) → contains (keys m) k ≡ is_some (lookup k m)
  unfolding lookup
  contains-keys k [] = refl
  contains-keys k ((j, v) ∷ m) = ground (arith, contains-keys k m)

  pub contains-values_of_lookup :
      ⦃ev : Eq V⦄ (k : K) (v : V) (m : Dict K V)
      → lookup k m ≡ some v
      → contains (values m) v ≡ true
  unfolding lookup
  contains-values_of_lookup k v [] h = ground arith
  contains-values_of_lookup k v ((j, w) ∷ m) h =
      ground (arith, contains-values_of_lookup k v m, ==_refl v)

  -- An insertion adds one value at most, and a removal adds none.
  pub contains-values-insert :
      ⦃ev : Eq V⦄ (k : K) (v w : V) (m : Dict K V)
      → contains (values (insert k v m)) w ≡ true
      → (v == w || contains (values m) w) ≡ true
  unfolding insert
  contains-values-insert k v w [] h = ground arith
  contains-values-insert k v w ((j, u) ∷ m) h = ground (arith, contains-values-insert k v w m)

  pub contains-values-remove :
      ⦃ev : Eq V⦄ (k : K) (w : V) (m : Dict K V)
      → contains (values (remove k m)) w ≡ true
      → contains (values m) w ≡ true
  unfolding remove
  contains-values-remove k w [] h = ground arith
  contains-values-remove k w ((j, u) ∷ m) h = ground (arith, contains-values-remove k w m)

  -- A property of all values
  pub All-insert {μ} :
      (P : V → Type μ) (k : K) (v : V) (m : Dict K V)
      → P v
      → All P (values m)
      → All P (values (insert k v m))
  unfolding insert
  All-insert P k v [] h hs = (h, tt)
  All-insert P k v ((j, w) ∷ m) h hs = elim (Bool-cases (j == k)) [
    | inl e ↦ rw e (h, hs.1)
    | inr e ↦ rw e (hs.0, All-insert P k v m h hs.1)
  ]

  pub All-remove {μ} :
      (P : V → Type μ) (k : K) (m : Dict K V) → All P (values m) → All P (values (remove k m))
  unfolding remove
  All-remove P k [] hs = tt
  All-remove P k ((j, w) ∷ m) hs = elim (Bool-cases (j == k)) [
    | inl e ↦ rw e (All-remove P k m hs.1)
    | inr e ↦ rw e (hs.0, All-remove P k m hs.1)
  ]

  pub All-lookup {μ} :
      (P : V → Type μ) (k : K) (v : V) (m : Dict K V) → All P (values m) → lookup k m ≡ some v → P v
  unfolding lookup
  All-lookup P k v [] hs e = absurd (ground arith)
  All-lookup P k v ((j, w) ∷ m) hs e = elim (Bool-cases (j == k)) [
    | inl same ↦ subst P {x = w} {y = v} (ground arith) hs.0
    | inr other ↦ All-lookup P k v m hs.1 (rw other at e)
  ]

pub ruleset dict_laws = (lookup-insert, lookup-remove, ==_refl)
