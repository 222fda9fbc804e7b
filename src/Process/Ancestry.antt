-- ===== src/Process/Ancestry.antt =====
-- daemon/src/process.rs: chains of parents, and that `ancestors` walks the whole of a chain that ends.
use system76_scheduler.Base.{
  ℕ, zero, suc, ◌+◌, ◌≤◌, ◌≡◌, refl, ap, true, Option, none, some, List, [], ◌∷◌, arith, inl, inr,
  length, contains, ==_iff, nat_eq, Bool-cases,
}
use system76_scheduler.Base.Dict.{keys, contains-keys}
use system76_scheduler.Base.Distinct.{Distinct, Subset, Distinct-length-le}
use system76_scheduler.Process.Cell.{Process, Owner, ro, upgrade, parent, ancestors_from, ancestors}

-- `Chain o s l`: from `s` on, the parents up to one that has none are `l`.
pub data Chain (o : Owner) : Option ℕ → List ℕ → Type 0 where
  root : Chain o none []
  up : {a : ℕ} {l : List ℕ} → Chain o (parent o (ro o a)) l → Chain o (some a) (a ∷ l)

ancestors_from-Chain :
    (fuel : ℕ) {o : Owner} {s : Option ℕ} {l : List ℕ}
    → Chain o s l
    → length l ≤ fuel
    → ancestors_from fuel o s ≡ l
unfolding ancestors_from
ancestors_from-Chain zero root h = refl
ancestors_from-Chain zero (up c) h = absurd (omega arith)
ancestors_from-Chain (suc fuel) root h = refl
ancestors_from-Chain (suc fuel) (up {a} c) h =
    ap (◌∷◌ a) (ancestors_from-Chain fuel c (omega arith))

Chain-functional : {o : Owner} {s : Option ℕ} {l k : List ℕ} → Chain o s l → Chain o s k → l ≡ k
Chain-functional root root = refl
Chain-functional (up {a} c) (up d) = ap (◌∷◌ a) (Chain-functional c d)

-- From any cell of a chain on, the rest of it is a chain.
Chain-from :
    {o : Owner} {s : Option ℕ} {l : List ℕ} (b : ℕ)
    → Chain o s l
    → contains l b ≡ true
    → (k : List ℕ) × Chain o (some b) (b ∷ k) × (length k + 1 ≤ length l)
Chain-from b root h = absurd (ground arith)
Chain-from {o} b (up {a} {l} c) h = elim (Bool-cases (contains l b)) [
  | inl e ↦ let (k, d, shorter) = Chain-from b c e in (k, d, omega arith)
  | inr e ↦ (l, subst_start (ground (arith, ==_iff a b)), omega arith)
]
  where
    subst_start : a ≡ b → Chain o (some b) (b ∷ l)
    subst_start p = rw (← p) (up c)

-- No cell occurs twice on a chain that ends.
Chain-Distinct : {o : Owner} {s : Option ℕ} {l : List ℕ} → Chain o s l → Distinct l
Chain-Distinct root = tt
Chain-Distinct (up {a} {l} c) = (
  elim (Bool-cases (contains l a)) [
    | inl e ↦
        let (k, d, shorter) = Chain-from a c e in
        absurd (omega (arith, ap length (Chain-functional (up c) d)))
    | inr e ↦ e
  ],
  Chain-Distinct c,
)

upgrade_alive :
    (o : Owner) (w : Option ℕ) (a : ℕ) → upgrade o w ≡ some a → contains (keys o.cells) a ≡ true
unfolding upgrade
upgrade_alive o none a h = cc
upgrade_alive o (some b) a h = ground (arith, contains-keys a o.cells)

Chain-Subset :
    {o : Owner} {s : Option ℕ} {l : List ℕ} (w : Option ℕ)
    → Chain o s l
    → s ≡ upgrade o w
    → Subset l (keys o.cells)
Chain-Subset w root h b m = ground arith
Chain-Subset {o} w (up {a} {l} c) h b m = elim (Bool-cases (contains l b)) [
  | inl e ↦ Chain-Subset (ro o a).parent c (unfold parent in refl) b e
  | inr e ↦ ground (arith, ==_iff a b, upgrade_alive o w a)
]

length-keys : (o : Owner) → length (keys o.cells) ≡ length o.cells
length-keys o = go o.cells
  where
    go : (m : List (ℕ × Process)) → length (keys m) ≡ length m
    go [] = refl
    go (e ∷ m) = ap suc (go m)

-- Where the parents of a process end, `ancestors` is exactly the chain of them: the number of cells
-- is fuel enough, however long the chain is.
pub ancestors-Chain :
    (o : Owner) (p : Process) (l : List ℕ) → Chain o (parent o p) l → ancestors o p ≡ l
unfolding ancestors parent
ancestors-Chain o p l c = ancestors_from-Chain (length o.cells) c (
    omega (
      arith,
      Distinct-length-le l (keys o.cells) (Chain-Distinct c) (Chain-Subset p.parent c refl),
      length-keys o,
    ))
