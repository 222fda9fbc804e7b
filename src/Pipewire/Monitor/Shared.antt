-- ===== src/Pipewire/Monitor/Shared.antt =====
-- daemon/src/pw.rs: a process with two nodes.
use system76_scheduler.Base.{
  ==_iff, ==_refl, [], arith, contains, false, nat_eq, some, string_eq, ℕ, ◌∷◌, ◌≡◌, ◌≢◌,
}
use system76_scheduler.Base.Dict.{insert, lookup, remove}
use system76_scheduler.Pipewire.{ProcessEvent}
use system76_scheduler.Pipewire.Monitor.{new_monitor, pass_event, pass_events}
use system76_scheduler.Pipewire.Nodes.{
  Managed, NodeEvent, NodeInfo, from_node, new_managed, note_info, note_removed, on_node, on_nodes,
}

-- Two nodes of one process come, and the first goes: the other node is still there, but the monitor
-- has sent a removal of the process and does not hold it any more.
pub monitor-shared :
    (one two pid : ℕ) (node_one node_two : NodeInfo)
    → one ≢ two
    → from_node node_one ≡ some pid
    → from_node node_two ≡ some pid
    → let m : Managed =
        on_nodes new_managed (
          NodeEvent.info one node_one ∷ NodeEvent.info two node_two ∷ NodeEvent.removed one ∷ []) in
      (lookup two m.nodes ≡ some pid)
      × ((pass_events new_monitor m.passed).sent
          ≡ ProcessEvent.add pid ∷ ProcessEvent.remove pid ∷ [])
      × (contains (pass_events new_monitor m.passed).managed pid ≡ false)
unfolding on_nodes on_node note_info note_removed pass_event lookup insert remove
monitor-shared one two pid node_one node_two apart e f = (
  ground (arith, ==_iff one two, ==_refl two, ==_refl one),
  ground (arith, ==_iff one two, ==_refl pid, ==_refl one),
  ground (arith, ==_iff one two, ==_refl pid, ==_refl one),
)
