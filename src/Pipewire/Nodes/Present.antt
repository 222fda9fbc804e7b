-- ===== src/Pipewire/Nodes/Present.antt =====
-- pipewire/src/lib.rs: the nodes that are there, each with the process that it says it is, told from the
-- events alone.
use system76_scheduler.Base.{
  List, Option, Option-cases, [], ap, arith, if◌then◌else◌, inl, inr, is_some, nat_eq, none, refl,
  some, string_eq, sym, ℕ, ◌∙◌, ◌∷◌, ◌≡◌,
}
use system76_scheduler.Base.Dict.{Dict, insert, lookup, remove}
use system76_scheduler.Base.Number.{parse_u32}
use system76_scheduler.Pipewire.Nodes.{
  Managed, NodeEvent, NodeInfo, from_node, note_info, note_removed, on_node, on_nodes,
}
use system76_scheduler.Pipewire.Nodes.Tally.{remove-absent}

-- The process of a node: one that names its program and has a process ID that is a number
abbrev pub says : NodeInfo → Option ℕ
says none = none
says (some props) =
    if is_some (lookup "application.process.binary" props)
    then elim (lookup "application.process.id" props) [ none ↦ none | some id ↦ parse_u32 id ]
    else none

abbrev pub tell : Dict ℕ ℕ → ℕ → Option ℕ → Dict ℕ ℕ
tell nodes id none = nodes
tell nodes id (some pid) = insert id pid nodes

-- A node is there once it has told its process and until it is removed.
abbrev pub present_after : Dict ℕ ℕ → NodeEvent → Dict ℕ ℕ
present_after nodes (NodeEvent.info id props) = tell nodes id (says props)
present_after nodes (NodeEvent.removed id) = remove id nodes

abbrev pub present : Dict ℕ ℕ → List NodeEvent → Dict ℕ ℕ
present nodes [] = nodes
present nodes (event ∷ rest) = present (present_after nodes event) rest

pub from_node-says : (props : NodeInfo) → from_node props ≡ says props
unfolding from_node
from_node-says none = refl
from_node-says (some props) = ground arith

note_info-tell :
    (m : Managed) (id : ℕ) (found : Option ℕ) → (note_info m id found).nodes ≡ tell m.nodes id found
unfolding note_info
note_info-tell m id none = refl
note_info-tell m id (some pid) = refl

-- The map `managed` of the closure holds these nodes.
pub on_node-present :
    (m : Managed) (event : NodeEvent) → (on_node m event).nodes ≡ present_after m.nodes event
unfolding on_node note_removed
on_node-present m (NodeEvent.info id props) =
    note_info-tell m id (from_node props) ∙ ap (tell m.nodes id) (from_node-says props)
on_node-present m (NodeEvent.removed id) = elim (Option-cases (lookup id m.nodes)) [
  | inl e ↦ rw e (sym (remove-absent id m.nodes e))
  | inr (pid, e) ↦ rw e refl
]

pub on_nodes-present :
    (m : Managed) (events : List NodeEvent) → (on_nodes m events).nodes ≡ present m.nodes events
unfolding on_nodes
on_nodes-present m [] = refl
on_nodes-present m (event ∷ rest) =
    on_nodes-present (on_node m event) rest
    ∙ ap (λ (nodes : Dict ℕ ℕ). present nodes rest) (on_node-present m event)
