-- ===== src/Base/Distinct.antt =====
-- Lists without repetitions: how long they can be.
use Prim.Native.Nat.{suc, ◌≤◌}
use mathlib.Core.Path.{◌≡◌}
use mathlib.Core.Bool.{true, false}
use mathlib.Core.List.{List, [], ◌∷◌, ◌++◌}
use native.Mathlib.Omega.{arith}
use system76_scheduler.Base.Eq.{Eq, ==_iff}
use system76_scheduler.Base.Lists.{length, contains, discard, contains-append, contains-discard}

module _ {ℓ} {A : Type ℓ} ⦃e : Eq A⦄ where
  abbrev pub Distinct : List A → Type 0
  Distinct [] = Unit
  Distinct (x ∷ xs) = (contains xs x ≡ false) × Distinct xs

  abbrev pub Subset : List A → List A → Type ℓ
  Subset xs ys = (a : A) → contains xs a ≡ true → contains ys a ≡ true

  length-discard : (a : A) (xs : List A) → length (discard a xs) ≤ length xs
  length-discard a [] = omega arith
  length-discard a (x ∷ xs) = ground (arith, length-discard a xs)

  length-discard_mem :
      (a : A) (xs : List A) → contains xs a ≡ true → suc (length (discard a xs)) ≤ length xs
  length-discard_mem a [] h = ground arith
  length-discard_mem a (x ∷ xs) h = ground (arith, length-discard_mem a xs, length-discard a xs)

  -- Distinct elements of a list are not more than the list's.
  pub Distinct-length-le : (xs ys : List A) → Distinct xs → Subset xs ys → length xs ≤ length ys
  Distinct-length-le [] ys d s = omega arith
  Distinct-length-le (x ∷ xs) ys d s = omega (
    arith,
    Distinct-length-le xs (discard x ys) d.1
        (λ a h. ground (arith, contains-discard x a ys, s a, ==_iff x a, d.0)),
    length-discard_mem x ys (s x (ground (arith, ==_iff x x))),
  )

  pub Distinct-snoc :
      (xs : List A) (a : A) → Distinct xs → contains xs a ≡ false → Distinct (xs ++ a ∷ [])
  Distinct-snoc [] a d h = ground arith
  Distinct-snoc (x ∷ xs) a d h = (
    ground (arith, contains-append xs (a ∷ []) x, ==_iff x a, ==_iff a x),
    Distinct-snoc xs a d.1 (ground arith),
  )
