-- ===== src/Daemon/System.antt =====
-- daemon/src/main.rs, daemon/src/dbus.rs, daemon/src/pw.rs: the event loop, the D-Bus interface and the
-- tasks at work together, interleaved in any order. What is taken of `tokio` and `zbus` is what they
-- document: the channel holds its capacity, gives out events in the order in which the sends were
-- requested, and lets further sends wait in that order; a method that takes `&mut self` has the
-- interface for itself until it returns, and `InterfaceRef::get` waits for that.
pub mod History
pub mod Drained
pub mod Stuck
pub mod Latest
use system76_scheduler.Base.{
  Bool, List, Option, String, [], any, drop, false, map, nat_eq, none, not, some, string_eq, true,
  ℕ, ◌&&◌, ◌++◌, ◌||◌, ◌∷◌, ◌≡◌, ◌⊎◌,
}
use system76_scheduler.Config.Kdl.{Kdl}
use system76_scheduler.Daemon.Bus.{
  CpuMode, Event, ExecCreate, Server, bus_reload_configuration, bus_set_cpu_mode,
  bus_set_cpu_profile, bus_set_foreground_process, new_server,
}
use system76_scheduler.Daemon.Cfs.{Floats}
use system76_scheduler.Daemon.Events.{Moment, handle, start}
use system76_scheduler.Externals.{Externals}
use system76_scheduler.Pipewire.{ProcessEvent}
use system76_scheduler.Service.State.{SchedPaths, Service}

-- Who sends an event: a task, or a method of the interface, which holds it shared (`&self`) or
-- exclusively (`&mut self`)
pub data Sender : Type 0 where
  battery refresher execsnoop monitor shared exclusive : Sender

unfoldable pub is_same : Sender → Sender → Bool
is_same Sender.battery Sender.battery = true
is_same Sender.refresher Sender.refresher = true
is_same Sender.execsnoop Sender.execsnoop = true
is_same Sender.monitor Sender.monitor = true
is_same Sender.shared Sender.shared = true
is_same Sender.exclusive Sender.exclusive = true
is_same _ _ = false

-- What a task meets, and sends an event for
pub data Signal : Type 0 where
  changed : Bool → Signal
  tick : Signal
  executed : ExecCreate → Signal
  used : ProcessEvent → Signal

unfoldable pub signal_sender : Signal → Sender
signal_sender (Signal.changed on_battery) = Sender.battery
signal_sender Signal.tick = Sender.refresher
signal_sender (Signal.executed process) = Sender.execsnoop
signal_sender (Signal.used event) = Sender.monitor

unfoldable pub signal_event : Signal → Event
signal_event (Signal.changed on_battery) = Event.on_battery on_battery
signal_event Signal.tick = Event.refresh_process_map
signal_event (Signal.executed process) = Event.exec_create process
signal_event (Signal.used event) = Event.pipewire event

-- The calls of the interface's methods
pub data Call : Type 0 where
  reload_configuration : Call
  set_cpu_mode : CpuMode → Call
  set_cpu_profile : String → Call
  set_foreground_process : ℕ → Call

unfoldable pub call_sender : Call → Sender
call_sender Call.reload_configuration = Sender.shared
call_sender _ = Sender.exclusive

unfoldable pub answer : Server → Call → Server
answer b Call.reload_configuration = bus_reload_configuration b
answer b (Call.set_cpu_mode mode) = bus_set_cpu_mode b mode
answer b (Call.set_cpu_profile profile) = bus_set_cpu_profile b profile
answer b (Call.set_foreground_process pid) = bus_set_foreground_process b pid

-- Where the event loop stands: before `rx.recv()`, in the branch of an event, or behind its `break`
pub data Phase : Type 0 where
  ready : Phase
  busy : Event → Phase
  broken : Phase

-- `tokio::sync::mpsc::channel(4)`
abbrev pub channel_capacity : ℕ
channel_capacity = 4

-- `pending` are the sends that the loop has not received yet, the oldest first: those in the channel,
-- then those that wait. `server.sent` is empty between two calls. `requested` and `handled` are the
-- history: all events that were sent, and those whose branch has run, with what was there.
pub record System : Type 0 where
  pub service : Service
  pub server : Server
  pub pending : List (Event × Sender)
  pub phase : Phase
  pub requested : List Event
  pub handled : List (Moment × Event)

-- Whether a send of `who` waits for room in the channel
unfoldable pub is_waiting : Sender → List (Event × Sender) → Bool
is_waiting who pending =
    any (λ (entry : Event × Sender). is_same who entry.1) (drop channel_capacity pending)

-- A method starts when no other has the interface for itself; one that takes `&mut self`, when no
-- other has it at all.
unfoldable pub may_start : Call → List (Event × Sender) → Bool
may_start Call.reload_configuration pending = not (is_waiting Sender.exclusive pending)
may_start _ pending =
    not (is_waiting Sender.exclusive pending) && not (is_waiting Sender.shared pending)

-- The branches that call `interface_handle` and `get`
unfoldable pub needs_interface : Event → Bool
needs_interface (Event.on_battery b) = true
needs_interface Event.set_cpu_mode = true
needs_interface Event.set_custom_cpu_mode = true
needs_interface _ = false

unfoldable pub may_finish : Event → List (Event × Sender) → Bool
may_finish event pending = not (needs_interface event) || not (is_waiting Sender.exclusive pending)

abbrev pub sent_by : Sender → List Event → List (Event × Sender)
sent_by who = map (λ event. (event, who))

-- A task sends its event.
unfoldable pub accept_signal : System → Signal → System
accept_signal m g = record m {
  pending = m.pending ++ (signal_event g, signal_sender g) ∷ [];
  requested = m.requested ++ signal_event g ∷ [];
}

-- A method changes the interface and sends what it sends.
unfoldable pub accept_call : System → Call → System
accept_call m c =
    let b : Server = answer m.server c in
    record m {
      server = record b { sent = [] };
      pending = m.pending ++ sent_by (call_sender c) b.sent;
      requested = m.requested ++ b.sent;
    }

-- `rx.recv()`
unfoldable pub receive : System → Event → List (Event × Sender) → System
receive m event rest = record m { pending = rest; phase = Phase.busy event }

unfoldable pub after_branch : System → Moment → Event → Option Service → System
after_branch m w event none = record m {
  phase = Phase.broken;
  handled = m.handled ++ (w, event) ∷ [];
}
after_branch m w event (some s) = record m {
  service = s;
  phase = Phase.ready;
  handled = m.handled ++ (w, event) ∷ [];
}

module _ (x : Externals) (k : Kdl) (f : Floats) (cpus : ℕ) where
  -- The system as the event loop begins
  unfoldable pub boot : Moment → Option SchedPaths → System
  boot w paths = record {
    service = start x k f cpus w paths;
    server = new_server;
    pending = [];
    phase = Phase.ready;
    requested = [];
    handled = [];
  }

  -- The branch of an event runs.
  unfoldable pub finish_branch : System → Moment → Event → System
  unfolding after_branch
  finish_branch m w event = after_branch m w event (handle x k f cpus w m.service event)

  -- A task sends one event after the other; a branch finds the interface as it is, or cannot reach it.
  pub data Step : System → System → Type 0 where
    signal :
        {m : System} (g : Signal)
        → is_waiting (signal_sender g) m.pending ≡ false
        → Step m (accept_signal m g)
    call : {m : System} (c : Call) → may_start c m.pending ≡ true → Step m (accept_call m c)
    take :
        {m : System} (event : Event) (who : Sender) (rest : List (Event × Sender))
        → m.phase ≡ Phase.ready
        → m.pending ≡ (event, who) ∷ rest
        → Step m (receive m event rest)
    done :
        {m : System} (w : Moment) (event : Event)
        → m.phase ≡ Phase.busy event
        → may_finish event m.pending ≡ true
        → (w.server ≡ none) ⊎ (w.server ≡ some m.server)
        → Step m (finish_branch m w event)

  pub data Reach (m : System) : System → Type 0 where
    here : Reach m m
    later : {n o : System} → Reach m n → Step n o → Reach m o
