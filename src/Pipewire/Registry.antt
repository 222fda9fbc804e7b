-- ===== src/Pipewire/Registry.antt =====
-- pipewire/src/lib.rs, `nodes_from_socket`: the nodes that are listened to, and the timer that forgets
-- those that are gone. What the bindings of libpipewire do is taken as notices; a listener is told of
-- its node as long as it is kept in the map `nodes`.
pub mod Heard
use system76_scheduler.Base.{
  Bool, List, Option, [], adjoin, contains, discard, false, if◌then◌else◌, nat_eq, none, some,
  string_eq, true, ℕ, ◌++◌, ◌∷◌,
}
use system76_scheduler.Pipewire.Nodes.{Managed, NodeEvent, NodeInfo, new_managed, on_node}

-- What libpipewire tells: an object of the registry, with whether it is a node and the ID of the proxy
-- that `bind` gives; information on the node of a proxy; that a proxy is gone; the timer
pub data Notice : Type 0 where
  global : Bool → Option ℕ → Notice
  info : ℕ → NodeInfo → Notice
  gone : ℕ → Notice
  timer : Notice

-- The keys of the map `nodes`, the list `remove_ids`, and the state of `func`, which is the closure of
-- `processes_from_socket`
pub record Registry : Type 0 where
  pub nodes : List ℕ
  pub remove_ids : List ℕ
  pub managed : Managed

abbrev pub new_registry : Registry
new_registry = record { nodes = []; remove_ids = []; managed = new_managed }

-- The listener of `global`
unfoldable pub listen_to : Registry → Bool → Option ℕ → Registry
listen_to m false bound = m
listen_to m true none = m
listen_to m true (some id) = record m { nodes = adjoin id m.nodes }

-- The listeners of `info` and `removed`
unfoldable pub hear_info : Registry → ℕ → NodeInfo → Registry
hear_info m id node = record m { managed = on_node m.managed (NodeEvent.info id node) }

unfoldable pub hear_removed : Registry → ℕ → Registry
hear_removed m id = record m {
  remove_ids = m.remove_ids ++ id ∷ [];
  managed = on_node m.managed (NodeEvent.removed id);
}

-- `for id in remove_ids.borrow_mut().drain(..) { nodes.borrow_mut().remove(&id); }`
unfoldable pub forget : List ℕ → List ℕ → List ℕ
forget nodes [] = nodes
forget nodes (id ∷ rest) = forget (discard id nodes) rest

unfoldable pub on_notice : Registry → Notice → Registry
unfolding listen_to hear_info hear_removed
on_notice m (Notice.global is_node bound) = listen_to m is_node bound
on_notice m (Notice.info id node) = if contains m.nodes id then hear_info m id node else m
on_notice m (Notice.gone id) = if contains m.nodes id then hear_removed m id else m
on_notice m Notice.timer = record m { nodes = forget m.nodes m.remove_ids; remove_ids = [] }

unfoldable pub on_notices : Registry → List Notice → Registry
on_notices m [] = m
on_notices m (notice ∷ rest) = on_notices (on_notice m notice) rest
