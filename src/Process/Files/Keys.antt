-- ===== src/Process/Files/Keys.antt =====
-- daemon/src/process.rs: the line that `file_key` finds.
use system76_scheduler.Base.{
  ℕ, zero, suc, ◌≤◌, ◌≡◌, refl, false, inl, inr, Option, none, some, List, [], ◌∷◌, ◌++◌, arith,
  length, contains, nat_eq, Option-cases, All,
}
use system76_scheduler.Base.Text.{strip_bytes}
use system76_scheduler.Externals.{Externals}
use system76_scheduler.Process.Files.{cut_line, key_loop, file_key}

-- The text of a file: its lines, each with its line feed, and a last one that has none.
abbrev pub file_text : List (List ℕ) → List ℕ → List ℕ
file_text [] last = last
file_text (l ∷ ls) last = l ++ (b'\n' ∷ file_text ls last)

-- What the key's first line holds behind the key.
abbrev pub first_value : Externals → List ℕ → List (List ℕ) → Option (List ℕ)
first_value x key [] = none
first_value x key (l ∷ ls) = elim (strip_bytes key l) [
  | some value ↦ some (x.trim value)
  | none ↦ first_value x key ls
]

abbrev pub IsLine : List ℕ → Type 0
IsLine l = contains l b'\n' ≡ false

cut_line-line : (l rest : List ℕ) → IsLine l → cut_line (l ++ (b'\n' ∷ rest)) ≡ some (l, rest)
unfolding cut_line
cut_line-line [] rest h = refl
cut_line-line (b ∷ l) rest h = ground (arith, cut_line-line l rest)

cut_line-last : (l : List ℕ) → IsLine l → cut_line l ≡ none
unfolding cut_line
cut_line-last [] h = refl
cut_line-last (b ∷ l) h = ground (arith, cut_line-last l)

length-line : (n : ℕ) (l rest : List ℕ) → n ≤ length rest → suc n ≤ length (l ++ (b'\n' ∷ rest))
length-line n [] rest h = omega arith
length-line n (b ∷ l) rest h = omega (arith, length-line n l rest h)

length-file_text : (ls : List (List ℕ)) (last : List ℕ) → length ls ≤ length (file_text ls last)
length-file_text [] last = omega arith
length-file_text (l ∷ ls) last =
    length-line (length ls) l (file_text ls last) (length-file_text ls last)

key_loop-first_value :
    (x : Externals) (fuel : ℕ) (key : List ℕ) (ls : List (List ℕ)) (last : List ℕ)
    → length ls ≤ fuel
    → All IsLine ls
    → IsLine last
    → key_loop x (suc fuel) key (file_text ls last) ≡ first_value x key ls
unfolding key_loop
key_loop-first_value x fuel key [] last h a e = rw (cut_line-last last e, key_loop)
key_loop-first_value x zero key (l ∷ ls) last h a e = absurd (omega arith)
key_loop-first_value x (suc fuel) key (l ∷ ls) last h a e =
    rw (cut_line-line l (file_text ls last) a.0, key_loop)
      (elim (Option-cases (strip_bytes key l)) [
        | inl n ↦ rw (n, first_value) (key_loop-first_value x fuel key ls last (omega arith) a.1 e)
        | inr (v, s) ↦ rw (s, first_value)
      ])

-- `file_key` is the trimmed value of the first line that starts with the key; a last line without a
-- line feed is not looked at.
pub file_key-first_value :
    (x : Externals) (key : List ℕ) (ls : List (List ℕ)) (last : List ℕ)
    → All IsLine ls
    → IsLine last
    → file_key x (some (file_text ls last)) key ≡ first_value x key ls
unfolding file_key
file_key-first_value x key ls last a e =
    key_loop-first_value x (length (file_text ls last)) key ls last (length-file_text ls last) a e
