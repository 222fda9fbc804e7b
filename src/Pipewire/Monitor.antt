-- ===== src/Pipewire/Monitor.antt =====
-- daemon/src/pw.rs, `monitor`: which events of the pipewire process are passed on to the event loop.
pub mod Alternates
pub mod Shared
use system76_scheduler.Base.{
  List, Option, [], adjoin, contains, discard, if◌then◌else◌, nat_eq, none, some, string_eq, ℕ,
  ◌++◌, ◌∷◌,
}
use system76_scheduler.Externals.{Externals}
use system76_scheduler.Pipewire.{ProcessEvent, from_bytes}

-- The set `managed`, and the events sent to the event loop so far
pub record Monitor : Type 0 where
  pub managed : List ℕ
  pub sent : List ProcessEvent

abbrev pub new_monitor : Monitor
new_monitor = record { managed = []; sent = [] }

-- The branches of the match, and `tx.send`: an event that changes nothing is left out.
unfoldable pub pass_event : Monitor → ProcessEvent → Monitor
pass_event m (ProcessEvent.add pid) =
    if contains m.managed pid
    then m
    else record { managed = adjoin pid m.managed; sent = m.sent ++ ProcessEvent.add pid ∷ [] }
pass_event m (ProcessEvent.remove pid) =
    if contains m.managed pid
    then record { managed = discard pid m.managed; sent = m.sent ++ ProcessEvent.remove pid ∷ [] }
    else m

-- Events one after the other
abbrev pub pass_events : Monitor → List ProcessEvent → Monitor
pass_events m [] = m
pass_events m (event ∷ rest) = pass_events (pass_event m event) rest

unfoldable pub pass_found : Monitor → Option ProcessEvent → Monitor
pass_found m none = m
pass_found m (some event) = pass_event m event

-- The inner loop, over the lines of one or several child processes: the set outlives them.
unfoldable pub monitor_lines : Externals → Monitor → List (List ℕ) → Monitor
unfolding pass_found
monitor_lines x m [] = m
monitor_lines x m (line ∷ rest) = monitor_lines x (pass_found m (from_bytes x line)) rest
