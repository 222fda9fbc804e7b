-- ===== src/Base/Text.antt =====
-- `str` as the native text, whose characters are numbers where the code looks at them, and `[u8]` as
-- a list of numbers.
use Prim.Native.Char.{code}
use Prim.Native.Nat.{ℕ}
use Prim.Native.String.{String}
use mathlib.Core.Bool.{Bool, true, false, ◌&&◌}
use mathlib.Core.List.{List, [], ◌∷◌}
use mathlib.Core.Option.{Option, none, some}
use system76_scheduler.Base.Eq.{◌==◌, nat_eq, if◌then◌else◌}

-- The code points of a text: its bytes, if it is ASCII.
abbrev pub codes : String → List ℕ
codes String.[] = []
codes (String.◌∷◌ c s) = code c ∷ codes s

-- `str::strip_prefix` of one character
abbrev pub strip_prefix : ℕ → String → Option String
strip_prefix k String.[] = none
strip_prefix k (String.◌∷◌ c s) = if code c == k then some s else none

-- `str::starts_with` of one character
abbrev pub starts_with : ℕ → String → Bool
starts_with k String.[] = false
starts_with k (String.◌∷◌ c s) = code c == k

-- `str::is_empty`
abbrev pub is_empty_text : String → Bool
is_empty_text String.[] = true
is_empty_text (String.◌∷◌ c s) = false

-- `slice::strip_prefix`
abbrev pub strip_bytes : List ℕ → List ℕ → Option (List ℕ)
strip_bytes [] bytes = some bytes
strip_bytes (k ∷ ks) [] = none
strip_bytes (k ∷ ks) (b ∷ bs) = if b == k then strip_bytes ks bs else none

-- Equality of byte slices
abbrev pub bytes_eq : List ℕ → List ℕ → Bool
bytes_eq [] [] = true
bytes_eq [] (b ∷ bs) = false
bytes_eq (a ∷ l) [] = false
bytes_eq (a ∷ l) (b ∷ bs) = a == b && bytes_eq l bs
