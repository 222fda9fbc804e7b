-- ===== src/Process/Files.antt =====
-- daemon/src/process.rs, the functions that read /proc, and `file_key` of daemon/src/utils.rs. One value of
-- `Procfs` is what /proc shows while one event is handled.
pub mod Keys
pub mod Names
use Prim.Native.Char.{Char, code}
use system76_scheduler.Base.{
  ℕ, zero, suc, ◌≤◌, String, Bool, true, false, ◌&&◌, ◌||◌, Option, none, some, List, [], ◌∷◌,
  length, leb, if◌then◌else◌, ◌==◌, nat_eq,
}
use system76_scheduler.Base.Text.{codes, strip_bytes}
use system76_scheduler.Externals.{Externals}

pub record Procfs : Type 0 where
  -- the names in /proc, if it can be read
  pub entries : Option (List (List ℕ))
  -- the target of /proc/PID/exe
  pub exe : ℕ → Option String
  -- /proc/PID/cgroup, /proc/PID/status, and whether the latter is there
  pub cgroup_file : ℕ → Option String
  pub status_file : ℕ → Option (List ℕ)
  pub status_exists : ℕ → Bool
  -- /proc/PID/task/PID/children, and the names in /proc/PID/task
  pub children_file : ℕ → Option (List ℕ)
  pub tasks : ℕ → Option (List (List ℕ))
  -- /proc/sys/kernel/pid_max, which every process ID is below
  pub pid_max : ℕ

-- `char::is_whitespace`
unfoldable pub is_whitespace : ℕ → Bool
is_whitespace c =
    (leb 9 c && leb c 13)
    || c == 0x20
    || c == 0x85
    || c == 0xa0
    || c == 0x1680
    || (leb 0x2000 c && leb c 0x200a)
    || c == 0x2028
    || c == 0x2029
    || c == 0x202f
    || c == 0x205f
    || c == 0x3000

skip_white : String → String
skip_white String.[] = String.[]
skip_white (String.◌∷◌ c s) =
    let rest = skip_white s in if is_whitespace (code c) then rest else String.◌∷◌ c s

take_word : String → String
take_word String.[] = String.[]
take_word (String.◌∷◌ c s) =
    let rest = take_word s in if is_whitespace (code c) then String.[] else String.◌∷◌ c rest

-- `split_whitespace().next().unwrap_or_default()`
unfoldable pub first_word : String → String
unfolding is_whitespace skip_white take_word
first_word s = take_word (skip_white s)

-- `process::cmdline`
unfoldable pub cmdline : Procfs → ℕ → Option String
cmdline fs pid = elim (fs.exe pid) [ none ↦ none | some exe ↦ some (first_word exe) ]

-- `rsplit('/').next()`: what follows the last slash
unfoldable pub last_segment : String → String → String
last_segment best String.[] = best
last_segment best (String.◌∷◌ c s) = last_segment (if code c == b'/' then s else best) s

-- `process::name`
unfoldable pub process_name : String → String
unfolding last_segment
process_name line = last_segment line line

-- A slice of a text may panic.
pub data Slice : Type 0 where
  panic : Slice
  slice : String → Slice

-- All but the last character; there is none in an empty text
but_last : String → Slice
but_last String.[] = Slice.panic
but_last (String.◌∷◌ c String.[]) = Slice.slice String.[]
but_last (String.◌∷◌ c s) = elim (but_last s) [
  | Slice.panic ↦ Slice.panic
  | Slice.slice t ↦ Slice.slice (String.◌∷◌ c t)
]

-- What stands behind the character after a colon. A slice may start at the end of the text, and its
-- last character is cut off then too.
after_next : String → Slice
after_next String.[] = Slice.panic
after_next (String.◌∷◌ c s) = but_last s

-- `memchr(b':', ..)` and `buffer[pos + 2..buffer.len() - 1]`, over characters
unfoldable pub cgroup_slice : String → Option Slice
unfolding but_last after_next
cgroup_slice String.[] = none
cgroup_slice (String.◌∷◌ c s) =
    let rest = cgroup_slice s in if code c == b':' then some (after_next s) else rest

-- `process::cgroup`
unfoldable pub cgroup : Procfs → ℕ → Option Slice
cgroup fs pid = elim (fs.cgroup_file pid) [ none ↦ none | some text ↦ cgroup_slice text ]

-- `process::exists`
unfoldable pub exists : Procfs → ℕ → Bool
exists fs pid = fs.status_exists pid

-- `memchr(b'\n', ..)`: the line before the first line feed, and what follows it
unfoldable pub cut_line : List ℕ → Option (List ℕ × List ℕ)
cut_line [] = none
cut_line (b ∷ bs) =
    if b == b'\n'
    then some ([], bs)
    else elim (cut_line bs) [ none ↦ none | some (line, rest) ↦ some (b ∷ line, rest) ]

-- The loop of `file_key`. Each round takes at least one byte away.
unfoldable pub key_loop : Externals → ℕ → List ℕ → List ℕ → Option (List ℕ)
key_loop x zero key status = none
key_loop x (suc fuel) key status = elim (cut_line status) [
  | none ↦ none
  | some (line, rest) ↦ elim (strip_bytes key line) [
    | some value ↦ some (x.trim value)
    | none ↦ key_loop x fuel key rest
  ]
]

-- `utils::file_key`, from what is read of the file on
unfoldable pub file_key : Externals → Option (List ℕ) → List ℕ → Option (List ℕ)
file_key x none key = none
file_key x (some status) key = key_loop x (suc (length status)) key status

-- `process::parent_id`
unfoldable pub parent_id : Externals → Procfs → ℕ → Option ℕ
parent_id x fs pid = elim (file_key x (fs.status_file pid) (codes "PPid:")) [
  | none ↦ none
  | some value ↦ x.atoi value
]

-- `filter_map(atoi::<u32>)`
unfoldable pub numbers : Externals → List (List ℕ) → List ℕ
numbers x [] = []
numbers x (f ∷ fs) = let rest = numbers x fs in elim (x.atoi f) [ none ↦ rest | some n ↦ n ∷ rest ]

-- `process::children`
unfoldable pub children : Externals → Procfs → ℕ → List ℕ
unfolding numbers
children x fs pid = elim (fs.children_file pid) [
  | none ↦ []
  | some bytes ↦ numbers x (x.fields bytes)
]
