-- ===== src/Daemon/System/Latest.antt =====
-- daemon/src/dbus.rs, daemon/src/main.rs: which of several CPU profiles that are chosen over D-Bus is in
-- force.
use system76_scheduler.Base.{
  ==_iff, Bool, Bool-cases, List, Option, Option-cases, String, ap, arith, false, if◌then◌else◌,
  inl, inr, nat_eq, none, refl, some, string_eq, true, ℕ, ◌==◌, ◌∙◌, ◌≡◌, ◌⊎◌,
}
use system76_scheduler.Config.Cfs.{CfsProfile}
use system76_scheduler.Config.Kdl.{Kdl}
use system76_scheduler.Daemon.Bus.{
  CpuMode, Event, Server, bus_reload_configuration, bus_set_cpu_mode, bus_set_cpu_profile,
  bus_set_foreground_process, send,
}
use system76_scheduler.Daemon.Cfs.{
  Floats, cfs_config, cfs_default_config, cfs_on_battery, cfs_responsive_config,
}
use system76_scheduler.Daemon.Commands.{Argument, Command, Outcome, dispatch}
use system76_scheduler.Daemon.Events.{Moment, apply_cpu_mode, apply_custom, handle, with_server}
use system76_scheduler.Daemon.Events.CpuModes.{chosen}
use system76_scheduler.Daemon.System.{
  Call, Sender, Signal, System, accept_call, accept_signal, after_branch, answer, finish_branch,
  receive,
}
use system76_scheduler.Externals.{Externals}
use system76_scheduler.Service.State.{Service}

-- The calls that choose a mode or a profile
abbrev pub is_cpu_call : Call → Bool
is_cpu_call (Call.set_cpu_mode mode) = true
is_cpu_call (Call.set_cpu_profile profile) = true
is_cpu_call _ = false

-- The mode that a profile's name stands for, and the event that is sent for it
abbrev pub mode_of : String → CpuMode
mode_of profile =
    if profile == "auto"
    then CpuMode.auto
    else if profile == "default"
    then CpuMode.default
    else if profile == "responsive"
    then CpuMode.responsive
    else CpuMode.custom

abbrev pub event_for : CpuMode → Event
event_for CpuMode.custom = Event.set_custom_cpu_mode
event_for _ = Event.set_cpu_mode

-- What the interface says is as it was.
abbrev pub SaysAlike : Server → Server → Type 0
SaysAlike b c = (c.cpu_mode ≡ b.cpu_mode) × (c.cpu_profile ≡ b.cpu_profile)

answer-SaysAlike : (b : Server) (c : Call) → is_cpu_call c ≡ false → SaysAlike b (answer b c)
unfolding answer bus_reload_configuration bus_set_foreground_process send
answer-SaysAlike b Call.reload_configuration h = (refl, refl)
answer-SaysAlike b (Call.set_foreground_process pid) h = (refl, refl)
answer-SaysAlike b (Call.set_cpu_mode mode) h = absurd (cc)
answer-SaysAlike b (Call.set_cpu_profile profile) h = absurd (cc)

says_profile :
    (b : Server) (profile : String)
    → (profile == "") ≡ false
    → ((bus_set_cpu_profile b profile).cpu_mode ≡ mode_of profile)
      × ((bus_set_cpu_profile b profile).cpu_profile ≡ profile)
unfolding bus_set_cpu_profile bus_set_cpu_mode send
says_profile b profile named = (ground arith, ground arith)

module _ (x : Externals) (k : Kdl) (f : Floats) (cpus : ℕ) where
  -- What the daemon comes to while no other mode or profile is chosen
  pub data Undisturbed (m : System) : System → Type 0 where
    here : Undisturbed m m
    signalled : {n : System} (g : Signal) → Undisturbed m n → Undisturbed m (accept_signal n g)
    called :
        {n : System} (c : Call)
        → is_cpu_call c ≡ false
        → Undisturbed m n
        → Undisturbed m (accept_call n c)
    took :
        {n : System} (event : Event) (rest : List (Event × Sender))
        → Undisturbed m n
        → Undisturbed m (receive n event rest)
    finished :
        {n : System} (w : Moment) (event : Event)
        → Undisturbed m n
        → Undisturbed m (finish_branch x k f cpus n w event)

  server-after_branch :
      (m : System) (w : Moment) (event : Event) (result : Option Service)
      → (after_branch m w event result).server ≡ m.server
  unfolding after_branch
  server-after_branch m w event none = refl
  server-after_branch m w event (some s) = refl

  Undisturbed-SaysAlike : {m n : System} → Undisturbed m n → SaysAlike m.server n.server
  unfolding accept_signal accept_call receive finish_branch
  Undisturbed-SaysAlike Undisturbed.here = (refl, refl)
  Undisturbed-SaysAlike (Undisturbed.signalled g u) = Undisturbed-SaysAlike u
  Undisturbed-SaysAlike (Undisturbed.called {n} c h u) =
      let (mode, profile) = answer-SaysAlike n.server c h in
      let (mode0, profile0) = Undisturbed-SaysAlike u in (mode ∙ mode0, profile ∙ profile0)
  Undisturbed-SaysAlike (Undisturbed.took event rest u) = Undisturbed-SaysAlike u
  Undisturbed-SaysAlike (Undisturbed.finished {n} w event u) =
      let (mode, profile) = Undisturbed-SaysAlike u in
      let kept = server-after_branch n w event (handle x k f cpus w n.service event) in
      (
        ap (λ (b : Server). b.cpu_mode) kept ∙ mode,
        ap (λ (b : Server). b.cpu_profile) kept ∙ profile,
      )

  -- The events of a mode, while the interface says a profile
  mode_event :
      (w : Moment) (s : Service) (b : Server) (profile : String)
      → w.server ≡ some b
      → b.cpu_mode ≡ mode_of profile
      → b.cpu_profile ≡ profile
      → handle x k f cpus w s (event_for (mode_of profile))
        ≡ some (apply_custom x k f cpus s (chosen x k f cpus w s profile))
  unfolding handle with_server apply_cpu_mode apply_custom cfs_on_battery
  mode_event w s b profile seen mode named = elim (Bool-cases (profile == "auto")) [
    | inl e ↦ ground (arith, seen, mode, e)
    | inr e ↦ elim (Bool-cases (profile == "default")) [
      | inl g ↦ ground (arith, seen, mode, e, g)
      | inr g ↦ elim (Bool-cases (profile == "responsive")) [
        | inl h ↦ ground (arith, seen, mode, e, g, h)
        | inr h ↦ ground (arith, seen, mode, named, e, g, h)
      ]
    ]
  ]

  -- What an event of a mode may come to
  abbrev pub StaysOr : Moment → Service → Event → Option CfsProfile → Type 0
  StaysOr w s event profile =
      (handle x k f cpus w s event ≡ some s)
      ⊎ (handle x k f cpus w s event ≡ some (apply_custom x k f cpus s profile))

  set_cpu_mode-StaysOr :
      (w : Moment) (s : Service) (b : Server) (profile : String)
      → w.server ≡ some b
      → b.cpu_mode ≡ mode_of profile
      → StaysOr w s Event.set_cpu_mode (chosen x k f cpus w s profile)
  unfolding handle with_server apply_cpu_mode apply_custom cfs_on_battery
  set_cpu_mode-StaysOr w s b profile seen mode = elim (Bool-cases (profile == "auto")) [
    | inl e ↦ inr (ground (arith, seen, mode, e))
    | inr e ↦ elim (Bool-cases (profile == "default")) [
      | inl g ↦ inr (ground (arith, seen, mode, e, g))
      | inr g ↦ elim (Bool-cases (profile == "responsive")) [
        | inl h ↦ inr (ground (arith, seen, mode, e, g, h))
        | inr h ↦ inl (ground (arith, seen, mode, e, g, h))
      ]
    ]
  ]

  -- The profile that is looked up under a name is there, and then it is what the name stands for.
  set_custom_cpu_mode-StaysOr :
      (w : Moment) (s : Service) (b : Server) (profile : String)
      → cfs_config s "auto" ≡ none
      → w.server ≡ some b
      → b.cpu_profile ≡ profile
      → StaysOr w s Event.set_custom_cpu_mode (chosen x k f cpus w s profile)
  unfolding handle with_server apply_custom cfs_default_config cfs_responsive_config
  set_custom_cpu_mode-StaysOr w s b profile plain seen named =
      elim (Option-cases (cfs_config s profile)) [
        | inl e ↦ inl (rw (seen, with_server, named, e, apply_custom) refl)
        | inr (c, e) ↦ inr (
            rw (seen, with_server, named)
              (ap (λ (o : Option CfsProfile). some (apply_custom x k f cpus s o)) (looked_up c e)))
      ]
    where
      looked_up :
          (c : CfsProfile)
          → cfs_config s profile ≡ some c
          → cfs_config s profile ≡ chosen x k f cpus w s profile
      looked_up c e = ground (
        arith,
        e,
        plain,
        ==_iff profile "auto",
        ==_iff profile "default",
        ==_iff profile "responsive",
      )

  -- After `set_cpu_profile` with a name that is not empty, and until another mode or profile is chosen,
  -- in whatever order the tasks, the other calls and the event loop go on, where no profile of the
  -- configuration is called `auto`: the event for the name writes the profile that it stands for, and
  -- every event of a mode, also one that an earlier call sent, either writes this profile or nothing;
  -- and the command `cpu` shows the name.
  pub Undisturbed-latest :
      (m n : System) (profile : String) (w : Moment)
      → (profile == "") ≡ false
      → Undisturbed (accept_call m (Call.set_cpu_profile profile)) n
      → w.server ≡ some n.server
      → cfs_config n.service "auto" ≡ none
      → (handle x k f cpus w n.service (event_for (mode_of profile))
          ≡ some (apply_custom x k f cpus n.service (chosen x k f cpus w n.service profile)))
        × StaysOr w n.service Event.set_cpu_mode (chosen x k f cpus w n.service profile)
        × StaysOr w n.service Event.set_custom_cpu_mode (chosen x k f cpus w n.service profile)
        × (dispatch (some n.server) (Command.cpu Argument.absent) ≡ Outcome.shown profile)
  unfolding accept_call answer dispatch
  Undisturbed-latest m n profile w named u seen plain =
      let (mode0, profile0) = says_profile m.server profile named in
      let (mode1, profile1) = Undisturbed-SaysAlike u in
      let mode : n.server.cpu_mode ≡ mode_of profile = mode1 ∙ mode0 in
      let says : n.server.cpu_profile ≡ profile = profile1 ∙ profile0 in
      (
        mode_event w n.service n.server profile seen mode says,
        set_cpu_mode-StaysOr w n.service n.server profile seen mode,
        set_custom_cpu_mode-StaysOr w n.service n.server profile plain seen says,
        ap Outcome.shown says,
      )
