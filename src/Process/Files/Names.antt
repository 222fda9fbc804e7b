-- ===== src/Process/Files/Names.antt =====
-- daemon/src/process.rs: the name that a command line ends in.
use Prim.Native.Char.{code}
use mathlib.Core.List.{append_assoc, append-nil}
use system76_scheduler.Base.{
  ℕ, ◌≡◌, refl, sym, ap, ◌⊎◌, inl, inr, false, List, [], ◌∷◌, ◌++◌, String, arith, contains, ==_iff,
  nat_eq, Bool-cases, ◌==◌, contains-append,
}
use system76_scheduler.Base.Text.{codes}
use system76_scheduler.Process.Files.{last_segment, process_name}

-- `name` is what follows the last slash of `line`, or the whole of it.
pub record IsLastSegment (line name : List ℕ) : Type 0 where
  pub before : List ℕ
  pub split : line ≡ before ++ name
  pub no_slash : contains name b'/' ≡ false
  pub whole_or_slash : (before ≡ []) ⊎ ((most : List ℕ) × (before ≡ most ++ (b'/' ∷ [])))

last_segment-IsLastSegment :
    (line : List ℕ) (best s : String) (before mid : List ℕ)
    → line ≡ before ++ codes best
    → codes best ≡ mid ++ codes s
    → contains mid b'/' ≡ false
    → (before ≡ []) ⊎ ((most : List ℕ) × (before ≡ most ++ (b'/' ∷ [])))
    → IsLastSegment line (codes (last_segment best s))
unfolding last_segment
last_segment-IsLastSegment line best String.[] before mid split seen clean ends = record {
  before = before;
  split = split;
  no_slash = rw (seen, append-nil) clean;
  whole_or_slash = ends;
}
last_segment-IsLastSegment line best (String.◌∷◌ c s) before mid split seen clean ends =
    elim (Bool-cases (code c == b'/')) [
      | inl e ↦ rw e (
          last_segment-IsLastSegment line s s (before ++ (mid ++ (b'/' ∷ []))) []
            (simp (split, seen, append_assoc)
              (ap (λ (k : ℕ). before ++ (mid ++ (k ∷ codes s))) ((==_iff (code c) b'/').0 e)))
            refl refl (inr (before ++ mid, sym (append_assoc before mid (b'/' ∷ [])))))
      | inr e ↦ rw e (
          last_segment-IsLastSegment line best s before (mid ++ (code c ∷ [])) split
            (simp (seen, append_assoc)) (rw contains-append (ground arith)) ends)
    ]

-- The name of a process is the part of its command line behind the last slash, or the whole of it where
-- there is none.
pub process_name-IsLastSegment :
    (line : String) → IsLastSegment (codes line) (codes (process_name line))
unfolding process_name
process_name-IsLastSegment line =
    last_segment-IsLastSegment (codes line) line line [] [] refl refl refl (inl refl)
