-- ===== src/Pipewire/Child.antt =====
-- daemon/src/pw.rs: the pipewire process, which prints its events line by line, and `monitor`, which
-- reads them and starts it again.
pub mod Printed
pub mod Exact
pub mod Crashed
use system76_scheduler.Base.{
  List, [], if◌then◌else◌, length, nat_eq, string_eq, suc, zero, ℕ, ◌++◌, ◌==◌, ◌∷◌,
}
use system76_scheduler.Externals.{Externals}
use system76_scheduler.Pipewire.{ProcessEvent, from_bytes, to_bytes}
use system76_scheduler.Pipewire.Monitor.{Monitor, pass_found}

-- `main`: `event.to_bytes(stdout)?; stdout.write_all(b"\n")?;` for each event
unfoldable pub printed : (ℕ → List ℕ) → List ProcessEvent → List ℕ
printed itoa [] = []
printed itoa (event ∷ rest) = to_bytes itoa event ++ (b'\n' ∷ printed itoa rest)

-- `stdout.read_until(b'\n', &mut line)`: the bytes up to the line feed, which is among them, and what
-- follows
unfoldable pub read_until : List ℕ → List ℕ × List ℕ
read_until [] = ([], [])
read_until (b ∷ bs) =
    let (line, rest) = read_until bs in if b == b'\n' then (b ∷ [], bs) else (b ∷ line, rest)

-- The inner loop of `monitor`, over all that a child process writes; each round reads one byte at least.
unfoldable pub read_loop : Externals → ℕ → Monitor → List ℕ → Monitor
unfolding pass_found
read_loop x zero m output = m
read_loop x (suc fuel) m [] = m
read_loop x (suc fuel) m (b ∷ bs) =
    let (line, rest) = read_until (b ∷ bs) in
    read_loop x fuel (pass_found m (from_bytes x line)) rest

unfoldable pub monitor_child : Externals → Monitor → List ℕ → Monitor
monitor_child x m output = read_loop x (length output) m output

-- What comes of a round of `monitor`'s outer loop: no name of the daemon's executable, no child, no
-- pipe or none that tokio takes, or a child and all that it writes
pub data Launch : Type 0 where
  no_exe no_child no_pipe no_reader : Launch
  child : List ℕ → Launch

-- `monitor`: the first failure ends it.
unfoldable pub monitor : Externals → Monitor → List Launch → Monitor
monitor x m [] = m
monitor x m (Launch.child output ∷ rest) = monitor x (monitor_child x m output) rest
monitor x m (_ ∷ rest) = m
