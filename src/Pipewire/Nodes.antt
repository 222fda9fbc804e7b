-- ===== src/Pipewire/Nodes.antt =====
-- pipewire/src/lib.rs, `Process::from_node` and `processes_from_socket`: from the nodes of a pipewire
-- server to the processes behind them.
pub mod Counts
pub mod Present
pub mod Tally
use system76_scheduler.Base.{
  List, Option, String, [], if◌then◌else◌, is_some, nat_eq, none, some, string_eq, ℕ, ◌++◌, ◌∷◌,
}
use system76_scheduler.Base.Dict.{Dict, insert, lookup, remove}
use system76_scheduler.Base.Number.{parse_u32}
use system76_scheduler.Pipewire.{ProcessEvent}

-- `NodeInfoRef`, by its properties
abbrev pub NodeInfo : Type 0
NodeInfo = Option (Dict String String)

pub data NodeEvent : Type 0 where
  info : ℕ → NodeInfo → NodeEvent
  removed : ℕ → NodeEvent

-- `Process::from_node`: the ID of the process
unfoldable pub from_node : NodeInfo → Option ℕ
from_node none = none
from_node (some props) = elim (lookup "application.process.binary" props) [
  | none ↦ none
  | some binary ↦ elim (lookup "application.process.id" props) [
    | none ↦ none
    | some id ↦ parse_u32 id
  ]
]

-- The state of the closure: the map `managed`, and what was passed to `func` so far
pub record Managed : Type 0 where
  pub nodes : Dict ℕ ℕ
  pub passed : List ProcessEvent

abbrev pub new_managed : Managed
new_managed = record { nodes = []; passed = [] }

-- `if managed.insert(pw_id, process.id).is_none() { func(..) }`
unfoldable pub note_info : Managed → ℕ → Option ℕ → Managed
note_info m pw_id none = m
note_info m pw_id (some pid) = record m {
  nodes = insert pw_id pid m.nodes;
  passed =
      if is_some (lookup pw_id m.nodes) then m.passed else m.passed ++ ProcessEvent.add pid ∷ [];
}

-- `if let Some(pid) = managed.remove(&pw_id) { func(..) }`
unfoldable pub note_removed : Managed → ℕ → Option ℕ → Managed
note_removed m pw_id none = m
note_removed m pw_id (some pid) = record m {
  nodes = remove pw_id m.nodes;
  passed = m.passed ++ ProcessEvent.remove pid ∷ [];
}

-- The closure of `processes_from_socket`
unfoldable pub on_node : Managed → NodeEvent → Managed
unfolding note_info note_removed
on_node m (NodeEvent.info pw_id node) = note_info m pw_id (from_node node)
on_node m (NodeEvent.removed pw_id) = note_removed m pw_id (lookup pw_id m.nodes)

unfoldable pub on_nodes : Managed → List NodeEvent → Managed
on_nodes m [] = m
on_nodes m (event ∷ rest) = on_nodes (on_node m event) rest
