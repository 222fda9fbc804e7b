-- ===== src/Pipewire/Nodes/Counts.antt =====
-- pipewire/src/lib.rs: how many nodes a process has, and how many events are passed on for it.
use system76_scheduler.Base.{
  List, Option-cases, [], ap, arith, inl, inr, is_some, nat_eq, refl, some, string_eq, subst, sym,
  ℕ, ◌+◌, ◌∙◌, ◌∷◌, ◌≡◌,
}
use system76_scheduler.Base.Dict.{Dict, keys, lookup, values}
use system76_scheduler.Base.Distinct.{Distinct}
use system76_scheduler.Pipewire.{ProcessEvent}
use system76_scheduler.Pipewire.Nodes.{
  Managed, NodeEvent, from_node, new_managed, note_info, note_removed, on_node, on_nodes,
}
use system76_scheduler.Pipewire.Nodes.Present.{
  from_node-says, on_node-present, on_nodes-present, present, present_after, says,
}
use system76_scheduler.Pipewire.Nodes.Tally.{
  Distinct-keys-insert, Distinct-keys-remove, count_added, count_added-append, count_nodes,
  count_nodes-insert, count_nodes-remove, count_nodes-renew, count_removed, count_removed-append,
}

-- A node that is there keeps its process.
abbrev pub KeepsProcess : Dict ℕ ℕ → NodeEvent → Type 0
KeepsProcess nodes (NodeEvent.info id props) =
    (p q : ℕ) → lookup id nodes ≡ some p → says props ≡ some q → q ≡ p
KeepsProcess nodes (NodeEvent.removed id) = Unit

pub data Steady : Dict ℕ ℕ → List NodeEvent → Type 0 where
  ended : {nodes : Dict ℕ ℕ} → Steady nodes []
  next :
      {nodes : Dict ℕ ℕ} {event : NodeEvent} {rest : List NodeEvent}
      → KeepsProcess nodes event
      → Steady (present_after nodes event) rest
      → Steady nodes (event ∷ rest)

-- For each process as many additions as there are removals and nodes
abbrev pub AreBalanced : Dict ℕ ℕ → List ProcessEvent → Type 0
AreBalanced nodes passed =
    (pid : ℕ) → count_added pid passed ≡ count_removed pid passed + count_nodes pid (values nodes)

-- The invariant: node IDs are distinct, and the events are balanced with the nodes that the map holds.
abbrev Balanced : Managed → Type 0
Balanced m = Distinct (keys m.nodes) × AreBalanced m.nodes m.passed

note_info-Balanced :
    (m : Managed) (id p : ℕ)
    → ((old : ℕ) → lookup id m.nodes ≡ some old → p ≡ old)
    → Balanced m
    → Balanced (note_info m id (some p))
unfolding note_info
note_info-Balanced m id p same b = (
  Distinct-keys-insert id p m.nodes b.0,
  λ pid. elim (Option-cases (lookup id m.nodes)) [
    | inl e ↦
        rw (e, is_some)
          (ground (
            arith,
            b.1 pid,
            count_nodes-insert pid id p m.nodes e,
            count_added-append pid m.passed (ProcessEvent.add p ∷ []),
            count_removed-append pid m.passed (ProcessEvent.add p ∷ []),
          ))
    | inr (old, e) ↦
        rw (e, is_some)
          (ground
            (arith, b.1 pid, count_nodes-renew pid id p m.nodes (e ∙ ap some (sym (same old e)))))
  ],
)

note_removed-Balanced :
    (m : Managed) (id p : ℕ)
    → lookup id m.nodes ≡ some p
    → Balanced m
    → Balanced (note_removed m id (some p))
unfolding note_removed
note_removed-Balanced m id p e b = (
  Distinct-keys-remove id m.nodes b.0,
  λ pid. ground (
    arith,
    b.1 pid,
    count_nodes-remove pid id p m.nodes b.0 e,
    count_added-append pid m.passed (ProcessEvent.remove p ∷ []),
    count_removed-append pid m.passed (ProcessEvent.remove p ∷ []),
  ),
)

on_node-Balanced :
    (m : Managed) (event : NodeEvent)
    → KeepsProcess m.nodes event
    → Balanced m
    → Balanced (on_node m event)
unfolding on_node
on_node-Balanced m (NodeEvent.info id props) keeps b = elim (Option-cases (from_node props)) [
  | inl e ↦ rw e (unfold note_info in b)
  | inr (p, e) ↦
      rw e (note_info-Balanced m id p (λ old h. keeps old p h (sym (from_node-says props) ∙ e)) b)
]
on_node-Balanced m (NodeEvent.removed id) keeps b = elim (Option-cases (lookup id m.nodes)) [
  | inl e ↦ rw e (unfold note_removed in b)
  | inr (p, e) ↦ rw e (note_removed-Balanced m id p e b)
]

on_nodes-keeps :
    (m : Managed) (events : List NodeEvent)
    → Steady m.nodes events
    → Balanced m
    → Balanced (on_nodes m events)
unfolding on_nodes
on_nodes-keeps m [] ended b = b
on_nodes-keeps m (event ∷ rest) (next keeps steady) b =
    on_nodes-keeps (on_node m event) rest
      (subst (λ (nodes : Dict ℕ ℕ). Steady nodes rest) (sym (on_node-present m event)) steady)
      (on_node-Balanced m event keeps b)

-- Where no node changes its process, at any time the additions passed on for a process are as many as
-- the removals passed on for it and the nodes that have told its ID and are not removed.
pub on_nodes-Balanced :
    (events : List NodeEvent)
    → Steady [] events
    → AreBalanced (present [] events) (on_nodes new_managed events).passed
on_nodes-Balanced events steady =
    subst (λ (nodes : Dict ℕ ℕ). AreBalanced nodes (on_nodes new_managed events).passed)
      (on_nodes-present new_managed events)
      (on_nodes-keeps new_managed events steady (tt, λ pid. refl)).1
