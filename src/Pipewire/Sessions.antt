-- ===== src/Pipewire/Sessions.antt =====
-- daemon/src/pw.rs, `pipewire_service`: the threads that watch the pipewire sockets of user sessions.
pub mod Single
use Prim.Native.String.{◌++◌ as text_append}
use system76_scheduler.Base.{
  Bool, List, Option, String, [], adjoin, contains, discard, if◌then◌else◌, nat_eq, none, some,
  string_eq, ◌∷◌, ◌++◌,
}
use system76_scheduler.Process.Files.{exists}

pub data SocketEvent : Type 0 where
  add : String → SocketEvent
  remove : String → SocketEvent

-- A round of `session_monitor`: the sockets that are there, for the entries of /run/user, which cannot
-- be read where it is `none`, nor can an entry that is `none`
unfoldable pub look_for_sockets : (String → Bool) → Option (List (Option String)) → List SocketEvent
look_for_sockets exists none = []
look_for_sockets exists (some []) = []
look_for_sockets exists (some (none ∷ rest)) = look_for_sockets exists (some rest)
look_for_sockets exists (some (some path ∷ rest)) =
    let socket = text_append path "/pipewire-0" in
    let more = look_for_sockets exists (some rest) in
    if exists socket then SocketEvent.add socket ∷ more else more

-- The set `active_sessions`, the sockets for which a thread was started, and those whose thread has
-- sent its `SocketEvent::Remove`
pub record Sessions : Type 0 where
  pub active : List String
  pub started : List String
  pub ended : List String

abbrev pub new_sessions : Sessions
new_sessions = record { active = []; started = []; ended = [] }

-- The body of the loop of `session_spawner`; `connects` is whether `UnixStream::connect` succeeds.
unfoldable pub on_socket : Sessions → SocketEvent × Bool → Sessions
on_socket m (SocketEvent.add socket, connects) =
    if contains m.active socket
    then m
    else if connects
    then record m { active = adjoin socket m.active; started = m.started ++ socket ∷ [] }
    else m
on_socket m (SocketEvent.remove socket, connects) = record m {
  active = discard socket m.active;
  ended = m.ended ++ socket ∷ [];
}

unfoldable pub on_sockets : Sessions → List (SocketEvent × Bool) → Sessions
on_sockets m [] = m
on_sockets m (event ∷ rest) = on_sockets (on_socket m event) rest
