-- ===== src/Daemon/System/Drained.antt =====
-- daemon/src/main.rs: which of the events that were sent the event loop comes to.
use mathlib.Core.List.{append-nil}
use system76_scheduler.Base.{
  Bool, List, Option, [], any, arith, drop, false, inr, nat_eq, refl, some, string_eq, suc, true,
  zero, ℕ, ◌++◌, ◌∙◌, ◌∷◌, ◌≡◌,
}
use system76_scheduler.Config.Kdl.{Kdl}
use system76_scheduler.Daemon.Bus.{Event, Server}
use system76_scheduler.Daemon.Cfs.{Floats, cfs_config}
use system76_scheduler.Daemon.Events.{
  Moment, apply_battery, apply_cpu_mode, apply_custom, handle, with_server,
}
use system76_scheduler.Daemon.System.{
  Phase, Reach, Sender, Step, System, after_branch, boot, finish_branch, is_waiting, may_finish,
  receive,
}
use system76_scheduler.Daemon.System.History.{Reach-run, events_of, held, is_running, sent_events}
use system76_scheduler.Externals.{Externals}
use system76_scheduler.Pipewire.{ProcessEvent}
use system76_scheduler.Service.State.{SchedPaths, Service}

-- No method of the interface waits for room in the channel.
abbrev pub IsFree : List (Event × Sender) → Type 0
IsFree pending =
    (is_waiting Sender.exclusive pending ≡ false) × (is_waiting Sender.shared pending ≡ false)

any-drop {ℓ} :
    {A : Type ℓ} (p : A → Bool) (n : ℕ) (xs : List A)
    → any p (drop n xs) ≡ false
    → any p (drop (suc n) xs) ≡ false
any-drop p zero [] h = refl
any-drop p zero (a ∷ xs) h = ground arith
any-drop p (suc n) [] h = refl
any-drop p (suc n) (a ∷ xs) h = any-drop p n xs h

is_waiting-tail :
    (who : Sender) (entry : Event × Sender) (rest : List (Event × Sender))
    → is_waiting who (entry ∷ rest) ≡ false
    → is_waiting who rest ≡ false
unfolding is_waiting
is_waiting-tail who entry rest h = any-drop _ 3 rest h

may_finish-free :
    (event : Event) (pending : List (Event × Sender))
    → is_waiting Sender.exclusive pending ≡ false
    → may_finish event pending ≡ true
unfolding may_finish
may_finish-free event pending h = ground arith

emptied :
    (front : List Event) {phase : Phase} {pending : List (Event × Sender)} {requested : List Event}
    → phase ≡ Phase.ready
    → pending ≡ []
    → front ++ held phase ++ sent_events pending ≡ requested
    → front ≡ requested
emptied front p e h = rw (← h) (rw (p, e) (simp append-nil))

module _ (x : Externals) (k : Kdl) (f : Floats) (cpus : ℕ) where
  -- With the interface at hand every branch comes to its end.
  handle-total :
      (w : Moment) (s : Service) (b : Server) (event : Event)
      → w.server ≡ some b
      → (t : Service) × (handle x k f cpus w s event ≡ some t)
  unfolding handle with_server
  handle-total w s b (Event.exec_create e) h = (_, refl)
  handle-total w s b Event.refresh_process_map h = (_, refl)
  handle-total w s b (Event.set_foreground_process pid) h = (_, refl)
  handle-total w s b (Event.pipewire (ProcessEvent.add pid)) h = (_, refl)
  handle-total w s b (Event.pipewire (ProcessEvent.remove pid)) h = (_, refl)
  handle-total w s b (Event.on_battery on) h = (apply_battery x k f cpus s on b.cpu_mode, rw h refl)
  handle-total w s b Event.set_cpu_mode h = (apply_cpu_mode x k f cpus w s b.cpu_mode, rw h refl)
  handle-total w s b Event.set_custom_cpu_mode h =
      (apply_custom x k f cpus s (cfs_config s b.cpu_profile), rw h refl)
  handle-total w s b Event.reload_configuration h = (_, refl)

  finish-ready :
      (m : System) (w : Moment) (b : Server) (event : Event)
      → w.server ≡ some b
      → ((finish_branch x k f cpus m w event).phase ≡ Phase.ready)
        × ((finish_branch x k f cpus m w event).pending ≡ m.pending)
        × ((finish_branch x k f cpus m w event).requested ≡ m.requested)
  unfolding finish_branch after_branch
  finish-ready m w b event h =
      let (t, e) = handle-total w m.service b event h in rw (e, after_branch) (refl, refl, refl)

  Reach-trans :
      {m n o : System} → Reach x k f cpus m n → Reach x k f cpus n o → Reach x k f cpus m o
  Reach-trans r Reach.here = r
  Reach-trans r (Reach.later s st) = Reach.later (Reach-trans r s) st

  -- What the event loop comes to when it empties the channel
  record Drains (m n : System) : Type 0 where
    reached : Reach x k f cpus m n
    empty : n.pending ≡ []
    phase : n.phase ≡ Phase.ready
    requested : n.requested ≡ m.requested

  -- `w` says what is there at each event, but for the interface, which is as it is.
  drain :
      (w : Moment) (m0 m : System) (pending : List (Event × Sender))
      → Reach x k f cpus m0 m
      → m.requested ≡ m0.requested
      → m.phase ≡ Phase.ready
      → m.pending ≡ pending
      → IsFree pending
      → (n : System) × Drains m0 n
  unfolding receive
  drain w m0 m [] r q p e free = (m, record { reached = r; empty = e; phase = p; requested = q })
  drain w m0 m ((event, who) ∷ rest) r q p e (exclusive, shared) =
      let m1 : System = receive m event rest in
      let w1 : Moment = record w { server = some m.server } in
      let (ready, kept, asked) = finish-ready m1 w1 m.server event refl in
      let free1 = is_waiting-tail Sender.exclusive (event, who) rest exclusive in
      drain w m0 (finish_branch x k f cpus m1 w1 event) rest
        (Reach.later (Reach.later r (Step.take event who rest p e))
          (Step.done w1 event refl (may_finish-free event rest free1) (inr refl)))
        (asked ∙ q) ready kept (free1, is_waiting-tail Sender.shared (event, who) rest shared)

  drain_from :
      (w : Moment) (m : System) (phase : Phase)
      → m.phase ≡ phase
      → is_running phase ≡ true
      → IsFree m.pending
      → (n : System) × Drains m n
  drain_from w m Phase.broken p running free = absurd (cc)
  drain_from w m Phase.ready p running free = drain w m m m.pending Reach.here refl p refl free
  drain_from w m (Phase.busy event) p running free =
      let w1 : Moment = record w { server = some m.server } in
      let (ready, kept, asked) = finish-ready m w1 m.server event refl in
      drain w m (finish_branch x k f cpus m w1 event) m.pending
        (Reach.later Reach.here
          (Step.done w1 event p (may_finish-free event m.pending free.0) (inr refl)))
        asked ready kept free

  -- From every state that the daemon reaches in which its loop is not left and no method of the
  -- interface waits for room in the channel, whatever files there are: the loop can go on until the
  -- channel is empty, and then every event that was sent has been handled, in the order of the sends.
  pub Reach-drained :
      (first w : Moment) (paths : Option SchedPaths) (m : System)
      → Reach x k f cpus (boot x k f cpus first paths) m
      → is_running m.phase ≡ true
      → IsFree m.pending
      → (n : System) × Reach x k f cpus m n
        × (n.pending ≡ [])
        × (n.phase ≡ Phase.ready)
        × (events_of n.handled ≡ m.requested)
  Reach-drained first w paths m r running free =
      let (n, d) = drain_from w m m.phase refl running free in
      let ordered = (Reach-run x k f cpus first paths (Reach-trans r d.reached)).2 in
      (
        n,
        d.reached,
        d.empty,
        d.phase,
        emptied (events_of n.handled) d.phase d.empty ordered ∙ d.requested,
      )
