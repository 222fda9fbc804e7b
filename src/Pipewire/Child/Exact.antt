-- ===== src/Pipewire/Child/Exact.antt =====
-- pipewire/src/lib.rs, daemon/src/pw.rs: from the nodes of a pipewire server to the set of the monitor.
use system76_scheduler.Base.{
  ==_iff, ==_refl, All, List, Option-cases, [], ap, arith, contains, contains-adjoin,
  contains-discard, if◌then◌else◌, inl, inr, is_some, nat_eq, none, refl, some, string_eq, subst,
  sym, ℕ, ◌++◌, ◌∙◌, ◌∷◌, ◌≡◌,
}
use system76_scheduler.Base.Dict.{Dict, insert, keys, lookup, remove, values}
use system76_scheduler.Base.Distinct.{Distinct}
use system76_scheduler.Externals.{Externals}
use system76_scheduler.Pipewire.{ProcessEvent}
use system76_scheduler.Pipewire.Child.{monitor_child, printed}
use system76_scheduler.Pipewire.Child.Printed.{IsReadable, monitor_child-printed}
use system76_scheduler.Pipewire.Monitor.{Monitor, new_monitor, pass_event, pass_events}
use system76_scheduler.Pipewire.Nodes.{
  Managed, NodeEvent, from_node, new_managed, note_info, note_removed, on_node, on_nodes,
}
use system76_scheduler.Pipewire.Nodes.Present.{
  from_node-says, on_node-present, on_nodes-present, present, present_after, says,
}
use system76_scheduler.Pipewire.Nodes.Tally.{
  Distinct-keys-insert, Distinct-keys-remove, count_nodes, count_nodes-insert, count_nodes-remove,
  count_nodes-renew,
}
use system76_scheduler.Pipewire.Registry.{Notice, new_registry, on_notices}
use system76_scheduler.Pipewire.Registry.Heard.{Orderly, all_said, nobody, on_notices-heard}

-- A node keeps its process, and a node that comes is the only one of its process.
abbrev pub IsAlone : Dict ℕ ℕ → NodeEvent → Type 0
IsAlone nodes (NodeEvent.info id props) =
    ((p q : ℕ) → lookup id nodes ≡ some p → says props ≡ some q → q ≡ p)
    × ((q : ℕ) → lookup id nodes ≡ none → says props ≡ some q → count_nodes q (values nodes) ≡ 0)
IsAlone nodes (NodeEvent.removed id) = Unit {0}

abbrev pub AllAlone : Dict ℕ ℕ → List NodeEvent → Type 0
AllAlone nodes [] = Unit
AllAlone nodes (event ∷ rest) = IsAlone nodes event × AllAlone (present_after nodes event) rest

-- The monitor's set holds a process once for its node.
abbrev pub IsExact : Dict ℕ ℕ → Monitor → Type 0
IsExact nodes mon =
    (pid : ℕ) → count_nodes pid (values nodes) ≡ (if contains mon.managed pid then 1 else 0)

-- The monitor of what was passed on so far
abbrev follow : Managed → Monitor
follow m = pass_events new_monitor m.passed

record Agrees (m : Managed) : Type 0 where
  distinct : Distinct (keys m.nodes)
  exact : IsExact m.nodes (follow m)

pass_events-append :
    (m : Monitor) (front back : List ProcessEvent)
    → pass_events m (front ++ back) ≡ pass_events (pass_events m front) back
pass_events-append m [] back = refl
pass_events-append m (event ∷ front) back = pass_events-append (pass_event m event) front back

added-IsExact :
    (nodes : Dict ℕ ℕ) (mon : Monitor) (id p : ℕ)
    → lookup id nodes ≡ none
    → count_nodes p (values nodes) ≡ 0
    → IsExact nodes mon
    → IsExact (insert id p nodes) (pass_event mon (ProcessEvent.add p))
unfolding pass_event
added-IsExact nodes mon id p e alone h pid = ground (
  arith,
  h pid,
  h p,
  count_nodes-insert pid id p nodes e,
  contains-adjoin p pid mon.managed,
  ==_iff p pid,
)

removed-IsExact :
    (nodes : Dict ℕ ℕ) (mon : Monitor) (id p : ℕ)
    → lookup id nodes ≡ some p
    → Distinct (keys nodes)
    → IsExact nodes mon
    → IsExact (remove id nodes) (pass_event mon (ProcessEvent.remove p))
unfolding pass_event
removed-IsExact nodes mon id p e d h pid = ground (
  arith,
  h pid,
  h p,
  count_nodes-remove pid id p nodes d e,
  count_nodes-remove p id p nodes d e,
  contains-discard p pid mon.managed,
  ==_iff p pid,
  ==_refl p,
)

info-Agrees :
    (m : Managed) (id p : ℕ)
    → ((old : ℕ) → lookup id m.nodes ≡ some old → p ≡ old)
    → (lookup id m.nodes ≡ none → count_nodes p (values m.nodes) ≡ 0)
    → Agrees m
    → Agrees (note_info m id (some p))
unfolding note_info
info-Agrees m id p keeps alone a = elim (Option-cases (lookup id m.nodes)) [
  | inl e ↦
      rw (e, is_some)
        (record {
          distinct = Distinct-keys-insert id p m.nodes a.distinct;
          exact =
              rw (pass_events-append new_monitor m.passed (ProcessEvent.add p ∷ []))
                (added-IsExact m.nodes (follow m) id p e (alone e) a.exact);
        })
  | inr (old, e) ↦
      rw (e, is_some)
        (record {
          distinct = Distinct-keys-insert id p m.nodes a.distinct;
          exact = λ pid.
              count_nodes-renew pid id p m.nodes (e ∙ ap some (sym (keeps old e))) ∙ a.exact pid;
        })
]

removed-Agrees :
    (m : Managed) (id p : ℕ)
    → lookup id m.nodes ≡ some p
    → Agrees m
    → Agrees (note_removed m id (some p))
unfolding note_removed
removed-Agrees m id p e a = record {
  distinct = Distinct-keys-remove id m.nodes a.distinct;
  exact =
      rw (pass_events-append new_monitor m.passed (ProcessEvent.remove p ∷ []))
        (removed-IsExact m.nodes (follow m) id p e a.distinct a.exact);
}

on_node-Agrees :
    (m : Managed) (event : NodeEvent) → IsAlone m.nodes event → Agrees m → Agrees (on_node m event)
unfolding on_node
on_node-Agrees m (NodeEvent.info id props) alone a = elim (Option-cases (from_node props)) [
  | inl e ↦ rw e (unfold note_info in a)
  | inr (p, e) ↦
      let told : says props ≡ some p = sym (from_node-says props) ∙ e in
      rw e (info-Agrees m id p (λ old q. alone.0 old p q told) (λ q. alone.1 p q told) a)
]
on_node-Agrees m (NodeEvent.removed id) alone a = elim (Option-cases (lookup id m.nodes)) [
  | inl e ↦ rw e (unfold note_removed in a)
  | inr (p, e) ↦ rw e (removed-Agrees m id p e a)
]

on_nodes-Agrees :
    (m : Managed) (events : List NodeEvent)
    → AllAlone m.nodes events
    → Agrees m
    → Agrees (on_nodes m events)
unfolding on_nodes
on_nodes-Agrees m [] alone a = a
on_nodes-Agrees m (event ∷ rest) (alone, all) a =
    on_nodes-Agrees (on_node m event) rest
      (subst (λ (nodes : Dict ℕ ℕ). AllAlone nodes rest) (sym (on_node-present m event)) all)
      (on_node-Agrees m event alone a)

-- The set of the monitor that is told what the nodes say
heard-IsExact :
    (events : List NodeEvent)
    → AllAlone [] events
    → IsExact (present [] events) (follow (on_nodes new_managed events))
heard-IsExact events alone =
    subst (λ (nodes : Dict ℕ ℕ). IsExact nodes (follow (on_nodes new_managed events)))
      (on_nodes-present new_managed events)
      (on_nodes-Agrees new_managed events alone
        (record { distinct = tt; exact = λ pid. refl })).exact

-- From what libpipewire tells through the listeners, the closure of `processes_from_socket`, the output
-- of the pipewire process and the monitor: where no notice is about the ID of a node that went since the
-- timer was last due, a node keeps its process, no process has two nodes at a time, and the process IDs
-- are written and read back as `itoa` and `atoi` do, the monitor's set holds exactly the processes of
-- the nodes that are there, as these tell their properties: those that came, told a process and are not
-- gone.
pub monitor_child-IsExact :
    (x : Externals) (itoa : ℕ → List ℕ) (notices : List Notice)
    → Orderly nobody notices
    → AllAlone [] (all_said nobody notices)
    → All (IsReadable x itoa) (on_notices new_registry notices).managed.passed
    → IsExact (present [] (all_said nobody notices)) (
        monitor_child x new_monitor (printed itoa (on_notices new_registry notices).managed.passed))
monitor_child-IsExact x itoa notices orderly alone readable =
    rw
      (monitor_child-printed x itoa new_monitor (on_notices new_registry notices).managed.passed
        readable)
      (rw (on_notices-heard notices orderly).0 (heard-IsExact (all_said nobody notices) alone))
