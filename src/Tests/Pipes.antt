-- ===== src/Tests/Pipes.antt =====
-- Examples for pipewire: its nodes, the pipewire process and the monitor.
use system76_scheduler.Base.{
  All, List, [], contains, false, nat_eq, none, refl, some, string_eq, true, ℕ, ◌==◌, ◌||◌, ◌∷◌,
  ◌≡◌,
}
use system76_scheduler.Base.Dict.{insert, lookup, remove}
use system76_scheduler.Base.Number.{parse_u32}
use system76_scheduler.Base.Text.{codes}
use system76_scheduler.Pipewire.{ProcessEvent, cut_field, event_of, from_bytes}
use system76_scheduler.Pipewire.Child.{
  Launch, monitor, monitor_child, printed, read_loop, read_until,
}
use system76_scheduler.Pipewire.Child.Crashed.{monitor-restarted}
use system76_scheduler.Pipewire.Child.Exact.{AllAlone, IsExact, monitor_child-IsExact}
use system76_scheduler.Pipewire.Child.Printed.{IsReadable, monitor_child-printed}
use system76_scheduler.Pipewire.Monitor.{Monitor, new_monitor, pass_event, pass_events}
use system76_scheduler.Pipewire.Nodes.{
  NodeInfo, from_node, new_managed, note_info, note_removed, on_node, on_nodes,
}
use system76_scheduler.Pipewire.Nodes.Present.{present}
use system76_scheduler.Pipewire.Nodes.Tally.{count_added, count_removed}
use system76_scheduler.Pipewire.Registry.{
  Notice, forget, hear_info, hear_removed, listen_to, new_registry, on_notice, on_notices,
}
use system76_scheduler.Pipewire.Registry.Heard.{
  Orderly, all_said, nobody, observe_all, on_notices-heard,
}
use system76_scheduler.Pipewire.Sessions.{SocketEvent, look_for_sockets}
use system76_scheduler.Tests.{externals}
use system76_scheduler.Tests.Daemons.{digit, player}

-- The node of another program
abbrev recorder : NodeInfo
recorder = some (("application.process.binary", "recorder") ∷ ("application.process.id", "8") ∷ [])

reads : Unit {0}
unfolding lookup insert remove from_node parse_u32 on_node note_info note_removed on_nodes
reads = tt

-- A player comes and goes, and the timer is due before a recorder gets the player's ID.
abbrev notices : List Notice
notices =
    Notice.global false (some 39)
    ∷ Notice.global true (some 40)
    ∷ Notice.info 40 player
    ∷ Notice.info 40 player
    ∷ Notice.gone 40
    ∷ Notice.timer
    ∷ Notice.global true (some 40)
    ∷ Notice.info 40 recorder
    ∷ []

notices-Orderly : Orderly nobody notices
notices-Orderly = (tt, (refl, (refl, (refl, (refl, (tt, (refl, (refl, tt))))))))

on_notices-heard_example :
    ((on_notices new_registry notices).managed ≡ on_nodes new_managed (all_said nobody notices))
    × ((a : ℕ)
        → contains (on_notices new_registry notices).nodes a
          ≡ contains (observe_all nobody notices).live a
            || contains (on_notices new_registry notices).remove_ids a)
on_notices-heard_example = on_notices-heard notices notices-Orderly

notices-AllAlone : AllAlone [] (all_said nobody notices)
unfolding reads
notices-AllAlone = (
  (λ p q e f. cc, λ q e f. refl),
  ((λ p q e f. cc, λ q e f. cc), (tt, ((λ p q e f. cc, λ q e f. refl), tt))),
)

notices-IsReadable :
    All (IsReadable externals digit) (on_notices new_registry notices).managed.passed
unfolding reads on_notices on_notice listen_to hear_info hear_removed forget
notices-IsReadable = ((refl, refl, refl), ((refl, refl, refl), ((refl, refl, refl), tt)))

monitor_child-IsExact_example : IsExact (present [] (all_said nobody notices)) (
    monitor_child externals new_monitor
      (printed digit (on_notices new_registry notices).managed.passed))
monitor_child-IsExact_example =
    monitor_child-IsExact externals digit notices notices-Orderly notices-AllAlone
      notices-IsReadable

-- The monitor holds the player and the recorder, and the pipewire process ends.
abbrev both : Monitor
both = record { managed = 7 ∷ 8 ∷ []; sent = ProcessEvent.add 7 ∷ ProcessEvent.add 8 ∷ [] }

monitor-restarted_example :
    let after : Monitor =
      monitor externals both
        (Launch.child (printed digit (ProcessEvent.add 8 ∷ ProcessEvent.remove 8 ∷ [])) ∷ []) in
    (contains after.managed 7 ≡ true)
    × (count_added 7 after.sent ≡ count_added 7 both.sent)
    × (count_removed 7 after.sent ≡ count_removed 7 both.sent)
monitor-restarted_example =
    monitor-restarted externals digit both 7 (ProcessEvent.add 8 ∷ ProcessEvent.remove 8 ∷ []) refl
      ((refl, refl, refl), ((refl, refl, refl), tt)) (refl, (refl, tt))

monitor_child-printed_example :
    monitor_child externals both (printed digit (ProcessEvent.remove 7 ∷ ProcessEvent.add 9 ∷ []))
    ≡ pass_events both (ProcessEvent.remove 7 ∷ ProcessEvent.add 9 ∷ [])
monitor_child-printed_example =
    monitor_child-printed externals digit both (ProcessEvent.remove 7 ∷ ProcessEvent.add 9 ∷ [])
      ((refl, refl, refl), ((refl, refl, refl), tt))

-- Of three entries of /run/user, one cannot be read and one has no socket.
sockets_found :
    look_for_sockets
      (λ path. path == "/run/user/1000/pipewire-0")
      (some (some "/run/user/1000" ∷ none ∷ some "/run/user/1001" ∷ []))
    ≡ SocketEvent.add "/run/user/1000/pipewire-0" ∷ []
unfolding look_for_sockets
sockets_found = refl

-- A line that was cut off by the end of a child process is read all the same, and no more are after a
-- failure to start it again.
last_line :
    (monitor externals new_monitor (
      Launch.child (codes "add 7\nadd 8")
      ∷ Launch.no_child
      ∷ Launch.child (codes "add 9\n")
      ∷ [])).sent
    ≡ ProcessEvent.add 7 ∷ ProcessEvent.add 8 ∷ []
unfolding monitor monitor_child read_loop read_until from_bytes cut_field event_of pass_event
last_line = refl
