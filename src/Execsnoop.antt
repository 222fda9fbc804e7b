-- ===== src/Execsnoop.antt =====
-- execsnoop/src/lib.rs: the processes that execsnoop reports, line by line; and
-- daemon/src/main.rs, what `integrate_execsnoop` makes of them.
pub mod Reported
pub mod Child
use system76_scheduler.Base.{
  List, Option, String, [], length, nat_eq, none, some, string_eq, suc, zero, ℕ, ◌∷◌,
}
use system76_scheduler.Daemon.Bus.{ExecCreate}
use system76_scheduler.Externals.{Externals}
use system76_scheduler.Process.Files.{cmdline, process_name}

pub record Exec : Type 0 where
  pub name : List ℕ
  pub cmd : List ℕ
  pub pid : ℕ
  pub parent_pid : ℕ

-- `fields.nth(1).unwrap_or_default()`, after three fields: the fifth
unfoldable pub fifth : List (List ℕ) → List ℕ
fifth (status ∷ cmd ∷ rest) = cmd
fifth _ = []

unfoldable pub numbered : List ℕ → List ℕ → Option ℕ → Option ℕ → Option Exec
numbered name cmd (some pid) (some parent_pid) =
    some (record { name = name; cmd = cmd; pid = pid; parent_pid = parent_pid })
numbered name cmd _ _ = none

unfoldable pub read_fields : Externals → List (List ℕ) → Option Exec
unfolding fifth numbered
read_fields x (name ∷ pid ∷ parent_pid ∷ rest) =
    numbered name (fifth rest) (x.atoi pid) (x.atoi parent_pid)
read_fields x _ = none

-- What the stream of lines gives: a line, or an error, which ends the loop
pub data Line : Type 0 where
  line : List ℕ → Line
  error : Line

-- `ProcessIterator::next`: the process, and the lines that are left
unfoldable pub next_process : Externals → List Line → Option (Exec × List Line)
next_process x [] = none
next_process x (Line.error ∷ rest) = none
next_process x (Line.line bytes ∷ rest) = elim (read_fields x (x.fields bytes)) [
  | some process ↦ some (process, rest)
  | none ↦ next_process x rest
]

-- The event that is scheduled for a process
abbrev pub created : Exec → String → ExecCreate
created process text = record {
  pid = process.pid;
  parent_pid = process.parent_pid;
  name = process_name text;
  cmdline = text;
}

-- The loop `while let Some(process) = watcher.next()` of `integrate_execsnoop`: the events that it
-- schedules. `from_utf8` is `none` where the bytes are no text. Each round takes one line at least.
unfoldable pub watch_loop : Externals → (List ℕ → Option String) → ℕ → List Line → List ExecCreate
watch_loop x from_utf8 zero lines = []
watch_loop x from_utf8 (suc fuel) lines = elim (next_process x lines) [
  | none ↦ []
  | some (process, rest) ↦ elim (from_utf8 process.cmd) [
    | none ↦ watch_loop x from_utf8 fuel rest
    | some text ↦ created process text ∷ watch_loop x from_utf8 fuel rest
  ]
]

-- `integrate_execsnoop`, over all lines that there are
unfoldable pub scheduled : Externals → (List ℕ → Option String) → List Line → List ExecCreate
scheduled x from_utf8 lines = watch_loop x from_utf8 (suc (length lines)) lines
