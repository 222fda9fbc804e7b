-- ===== src/Pipewire/Monitor/Alternates.antt =====
-- daemon/src/pw.rs: the events that the monitor sends for one process.
use system76_scheduler.Base.{
  ==_iff, Bool, Bool-cases, List, Option, [], arith, contains, contains-adjoin, contains-discard,
  false, if◌then◌else◌, inl, inr, nat_eq, none, refl, some, string_eq, true, ℕ, ◌++◌, ◌==◌, ◌∙◌,
  ◌∷◌, ◌≡◌,
}
use system76_scheduler.Externals.{Externals}
use system76_scheduler.Pipewire.{ProcessEvent, from_bytes}
use system76_scheduler.Pipewire.Monitor.{
  Monitor, monitor_lines, new_monitor, pass_event, pass_found,
}

-- The events for a process in turn, from `on` on: whether it uses pipewire after them, and `none` where
-- two additions or two removals follow each other.
abbrev pub replay : ℕ → Bool → List ProcessEvent → Option Bool
replay pid on [] = some on
replay pid on (ProcessEvent.add p ∷ rest) =
    let started = replay pid true rest in
    let skipped = replay pid on rest in if p == pid then (if on then none else started) else skipped
replay pid on (ProcessEvent.remove p ∷ rest) =
    let ended = replay pid false rest in
    let skipped = replay pid on rest in if p == pid then (if on then ended else none) else skipped

-- Replay in two parts
replay-append :
    (pid : ℕ) (on between : Bool) (events more : List ProcessEvent)
    → replay pid on events ≡ some between
    → replay pid on (events ++ more) ≡ replay pid between more
replay-append pid on between [] more h = ground arith
replay-append pid on between (ProcessEvent.add p ∷ rest) more h =
    ground (arith, replay-append pid true between rest more, replay-append pid on between rest more)
replay-append pid on between (ProcessEvent.remove p ∷ rest) more h =
    ground
      (arith, replay-append pid false between rest more, replay-append pid on between rest more)

-- What was sent for a process is in turn, and the set holds it exactly while it uses pipewire.
abbrev pub InTurn : Monitor → ℕ → Type 0
InTurn m pid = replay pid false m.sent ≡ some (contains m.managed pid)

pass_event-InTurn :
    (m : Monitor) (event : ProcessEvent) (pid : ℕ) → InTurn m pid → InTurn (pass_event m event) pid
unfolding pass_event
pass_event-InTurn m (ProcessEvent.add p) pid h = elim (Bool-cases (contains m.managed p)) [
  | inl e ↦ rw (e, pass_event) h
  | inr e ↦
      rw (e, pass_event)
        (replay-append pid false (contains m.managed pid) m.sent (ProcessEvent.add p ∷ []) h
          ∙ ground (arith, contains-adjoin p pid m.managed, ==_iff p pid))
]
pass_event-InTurn m (ProcessEvent.remove p) pid h = elim (Bool-cases (contains m.managed p)) [
  | inl e ↦
      rw (e, pass_event)
        (replay-append pid false (contains m.managed pid) m.sent (ProcessEvent.remove p ∷ []) h
          ∙ ground (arith, contains-discard p pid m.managed, ==_iff p pid))
  | inr e ↦ rw (e, pass_event) h
]

lines-InTurn :
    (x : Externals) (m : Monitor) (lines : List (List ℕ)) (pid : ℕ)
    → InTurn m pid
    → InTurn (monitor_lines x m lines) pid
unfolding monitor_lines
lines-InTurn x m [] pid h = h
lines-InTurn x m (line ∷ rest) pid h =
    lines-InTurn x (pass_found m (from_bytes x line)) rest pid (step (from_bytes x line))
  where
    step : (found : Option ProcessEvent) → InTurn (pass_found m found) pid
    step none = unfold pass_found in h
    step (some event) = unfold pass_found in pass_event-InTurn m event pid h

-- Whatever lines the monitor reads, the events it sends for a process are an addition, a removal, an
-- addition and so on, in turn, and its set holds the process exactly when the last was an addition.
pub monitor_lines-InTurn :
    (x : Externals) (lines : List (List ℕ)) (pid : ℕ)
    → InTurn (monitor_lines x new_monitor lines) pid
monitor_lines-InTurn x lines pid = lines-InTurn x new_monitor lines pid refl
