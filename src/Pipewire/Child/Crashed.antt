-- ===== src/Pipewire/Child/Crashed.antt =====
-- daemon/src/pw.rs: what `monitor` keeps when the pipewire process ends and is started again.
use system76_scheduler.Base.{
  ==_iff, All, Bool-cases, List, [], arith, contains, contains-adjoin, contains-discard, false, inl,
  inr, nat_eq, refl, string_eq, true, ℕ, ◌==◌, ◌∙◌, ◌∷◌, ◌≡◌,
}
use system76_scheduler.Externals.{Externals}
use system76_scheduler.Pipewire.{ProcessEvent}
use system76_scheduler.Pipewire.Bytes.{event_pid}
use system76_scheduler.Pipewire.Child.{Launch, monitor, printed}
use system76_scheduler.Pipewire.Child.Printed.{IsReadable, monitor_child-printed}
use system76_scheduler.Pipewire.Monitor.{Monitor, pass_event, pass_events}
use system76_scheduler.Pipewire.Nodes.Tally.{
  count_added, count_added-append, count_removed, count_removed-append,
}

-- An event of another process
abbrev pub IsOther : ℕ → ProcessEvent → Type 0
IsOther pid event = (event_pid event == pid) ≡ false

-- The process is kept, and no event is sent for it.
record Kept (pid : ℕ) (m n : Monitor) : Type 0 where
  holds : contains n.managed pid ≡ contains m.managed pid
  added : count_added pid n.sent ≡ count_added pid m.sent
  removed : count_removed pid n.sent ≡ count_removed pid m.sent

pass_event-Kept :
    (pid : ℕ) (m : Monitor) (event : ProcessEvent)
    → IsOther pid event
    → Kept pid m (pass_event m event)
unfolding pass_event
pass_event-Kept pid m (ProcessEvent.add p) other = elim (Bool-cases (contains m.managed p)) [
  | inl e ↦ rw e (record { holds = refl; added = refl; removed = refl })
  | inr e ↦ rw e (record {
    holds = ground (arith, contains-adjoin p pid m.managed, ==_iff p pid);
    added = ground (arith, count_added-append pid m.sent (ProcessEvent.add p ∷ []));
    removed = ground (arith, count_removed-append pid m.sent (ProcessEvent.add p ∷ []));
  })
]
pass_event-Kept pid m (ProcessEvent.remove p) other = elim (Bool-cases (contains m.managed p)) [
  | inl e ↦ rw e (record {
    holds = ground (arith, contains-discard p pid m.managed, ==_iff p pid);
    added = ground (arith, count_added-append pid m.sent (ProcessEvent.remove p ∷ []));
    removed = ground (arith, count_removed-append pid m.sent (ProcessEvent.remove p ∷ []));
  })
  | inr e ↦ rw e (record { holds = refl; added = refl; removed = refl })
]

pass_events-Kept :
    (pid : ℕ) (m : Monitor) (events : List ProcessEvent)
    → All (IsOther pid) events
    → Kept pid m (pass_events m events)
pass_events-Kept pid m [] h = record { holds = refl; added = refl; removed = refl }
pass_events-Kept pid m (event ∷ rest) (other, others) =
    let one = pass_event-Kept pid m event other in
    let more = pass_events-Kept pid (pass_event m event) rest others in
    record {
      holds = more.holds ∙ one.holds;
      added = more.added ∙ one.added;
      removed = more.removed ∙ one.removed;
    }

-- A process that the monitor holds when the pipewire process ends, and that does not use pipewire any
-- more when it is started again, so that no event of it is printed: the monitor goes on to hold it and
-- never sends its removal.
pub monitor-restarted :
    (x : Externals) (itoa : ℕ → List ℕ) (m : Monitor) (pid : ℕ) (events : List ProcessEvent)
    → contains m.managed pid ≡ true
    → All (IsReadable x itoa) events
    → All (IsOther pid) events
    → let after : Monitor = monitor x m (Launch.child (printed itoa events) ∷ []) in
      (contains after.managed pid ≡ true)
      × (count_added pid after.sent ≡ count_added pid m.sent)
      × (count_removed pid after.sent ≡ count_removed pid m.sent)
unfolding monitor
monitor-restarted x itoa m pid events known readable other =
    let kept = pass_events-Kept pid m events other in
    rw (monitor_child-printed x itoa m events readable)
      (kept.holds ∙ known, kept.added, kept.removed)
