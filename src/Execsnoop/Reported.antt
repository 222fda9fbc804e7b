-- ===== src/Execsnoop/Reported.antt =====
-- execsnoop/src/lib.rs: the processes that are scheduled, line by line.
use mathlib.Core.Path.{fun_ext}
use system76_scheduler.Base.{
  List, Option, Option-cases, String, [], ap, arith, inl, inr, length, nat_eq, none, refl, some,
  string_eq, suc, unwrap_or, zero, ℕ, ◌∙◌, ◌∷◌, ◌≡◌, ◌≤◌,
}
use system76_scheduler.Daemon.Bus.{ExecCreate}
use system76_scheduler.Execsnoop.{
  Line, created, fifth, next_process, numbered, read_fields, scheduled, watch_loop,
}
use system76_scheduler.Externals.{Externals}
use system76_scheduler.Process.Files.{process_name}

-- The lines before the first error
abbrev pub good_lines : List Line → List (List ℕ)
good_lines [] = []
good_lines (Line.error ∷ rest) = []
good_lines (Line.line bytes ∷ rest) = bytes ∷ good_lines rest

-- The field at a place, counted from 0
abbrev pub field : ℕ → List (List ℕ) → Option (List ℕ)
field n [] = none
field zero (bytes ∷ rest) = some bytes
field (suc n) (bytes ∷ rest) = field n rest

abbrev pub number : Externals → Option (List ℕ) → Option ℕ
number x none = none
number x (some bytes) = x.atoi bytes

-- What one line gives, by the places of its fields: the process's ID, its parent's, the command line
abbrev pub from_fields : Externals → (List ℕ → Option String) → List (List ℕ) → Option ExecCreate
from_fields x from_utf8 parts = elim (number x (field 1 parts)) [
  | none ↦ none
  | some pid ↦ elim (number x (field 2 parts)) [
    | none ↦ none
    | some parent_pid ↦ elim (from_utf8 (unwrap_or (field 4 parts) [])) [
      | none ↦ none
      | some text ↦
          some (record {
            pid = pid;
            parent_pid = parent_pid;
            name = process_name text;
            cmdline = text;
          })
    ]
  ]
]

abbrev pub from_line : Externals → (List ℕ → Option String) → List ℕ → Option ExecCreate
from_line x from_utf8 bytes = from_fields x from_utf8 (x.fields bytes)

-- What the code makes of the fields of one line
abbrev parsed : Externals → (List ℕ → Option String) → List (List ℕ) → Option ExecCreate
parsed x from_utf8 parts = elim (read_fields x parts) [
  | none ↦ none
  | some process ↦ elim (from_utf8 process.cmd) [
    | none ↦ none
    | some text ↦ some (created process text)
  ]
]

abbrev pub gather {ℓ κ} : {A : Type ℓ} {B : Type κ} → (A → Option B) → List A → List B
gather f [] = []
gather f (a ∷ more) = let rest = gather f more in elim (f a) [ none ↦ rest | some b ↦ b ∷ rest ]

watch_loop-gather :
    (x : Externals) (from_utf8 : List ℕ → Option String) (fuel : ℕ) (lines : List Line)
    → length lines ≤ fuel
    → watch_loop x from_utf8 (suc fuel) lines
      ≡ gather (λ bytes. parsed x from_utf8 (x.fields bytes)) (good_lines lines)
unfolding watch_loop next_process
watch_loop-gather x from_utf8 fuel [] h = refl
watch_loop-gather x from_utf8 fuel (Line.error ∷ rest) h = refl
watch_loop-gather x from_utf8 zero (Line.line bytes ∷ rest) h = absurd (omega arith)
watch_loop-gather x from_utf8 (suc fuel) (Line.line bytes ∷ rest) h =
    elim (Option-cases (read_fields x (x.fields bytes))) [
      | inl e ↦
          rw (e, watch_loop, next_process, gather, parsed)
            (watch_loop-gather x from_utf8 (suc fuel) rest (omega arith))
      | inr (process, e) ↦
          rw (e, watch_loop, next_process, gather, parsed)
            (elim (Option-cases (from_utf8 process.cmd)) [
              | inl g ↦ rw g (watch_loop-gather x from_utf8 fuel rest (omega arith))
              | inr (text, g) ↦ rw g (
                  ap (◌∷◌ (created process text))
                    (watch_loop-gather x from_utf8 fuel rest (omega arith)))
            ])
    ]

parsed-from_fields :
    (x : Externals) (from_utf8 : List ℕ → Option String) (parts : List (List ℕ))
    → parsed x from_utf8 parts ≡ from_fields x from_utf8 parts
unfolding read_fields fifth numbered
parsed-from_fields x from_utf8 [] = refl
parsed-from_fields x from_utf8 (name ∷ []) = refl
parsed-from_fields x from_utf8 (name ∷ pid ∷ []) = ground arith
parsed-from_fields x from_utf8 (name ∷ pid ∷ parent ∷ []) = ground arith
parsed-from_fields x from_utf8 (name ∷ pid ∷ parent ∷ status ∷ []) = ground arith
parsed-from_fields x from_utf8 (name ∷ pid ∷ parent ∷ status ∷ cmd ∷ rest) = ground arith

-- The lines that execsnoop reports, up to the first that cannot be read from its output, are scheduled
-- in order: those whose second and third fields are numbers and whose fifth field, which counts as
-- empty if there is none, is text, and no others. The numbers are the process's ID and its parent's, and
-- the fifth field is its command line.
pub scheduled-gather :
    (x : Externals) (from_utf8 : List ℕ → Option String) (lines : List Line)
    → scheduled x from_utf8 lines ≡ gather (from_line x from_utf8) (good_lines lines)
unfolding scheduled
scheduled-gather x from_utf8 lines =
    watch_loop-gather x from_utf8 (length lines) lines (omega arith)
    ∙ ap (λ (f : List ℕ → Option ExecCreate). gather f (good_lines lines))
        (fun_ext λ bytes. parsed-from_fields x from_utf8 (x.fields bytes))
