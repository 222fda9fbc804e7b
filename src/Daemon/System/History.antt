-- ===== src/Daemon/System/History.antt =====
-- daemon/src/main.rs: the interleaved system beside the event loop alone, which takes the events in the
-- order in which they were sent.
use mathlib.Core.List.{append-nil, append_assoc, map-append}
use system76_scheduler.Base.{
  Bool, List, Option, Option-cases, [], ap, arith, false, inl, inr, map, nat_eq, none, refl, some,
  string_eq, sym, true, ℕ, ◌++◌, ◌∙◌, ◌∷◌, ◌≡◌,
}
use system76_scheduler.Config.Kdl.{Kdl}
use system76_scheduler.Daemon.Bus.{Event}
use system76_scheduler.Daemon.Cfs.{Floats}
use system76_scheduler.Daemon.Events.{Moment, handle, run, start}
use system76_scheduler.Daemon.Events.Accepted.{run-start}
use system76_scheduler.Daemon.Events.Good.{IsGood}
use system76_scheduler.Daemon.System.{
  Phase, Reach, Sender, Step, System, accept_call, accept_signal, after_branch, answer, boot,
  call_sender, finish_branch, receive, sent_by,
}
use system76_scheduler.Externals.{Externals}
use system76_scheduler.Service.State.{SchedPaths, Service}

-- The event whose branch runs
abbrev pub held : Phase → List Event
held (Phase.busy event) = event ∷ []
held _ = []

abbrev pub is_running : Phase → Bool
is_running Phase.broken = false
is_running _ = true

abbrev pub events_of : List (Moment × Event) → List Event
events_of = map (λ (entry : Moment × Event). entry.1)

abbrev pub sent_events : List (Event × Sender) → List Event
sent_events = map (λ (entry : Event × Sender). entry.0)

sent_events-sent_by :
    (who : Sender) (events : List Event) → sent_events (sent_by who events) ≡ events
sent_events-sent_by who [] = refl
sent_events-sent_by who (event ∷ rest) = ap (◌∷◌ event) (sent_events-sent_by who rest)

module _ (x : Externals) (k : Kdl) (f : Floats) (cpus : ℕ) where
  -- The branches one after the other, `none` where one leaves the loop
  through : Service → List (Moment × Event) → Option Service
  through s [] = some s
  through s ((w, event) ∷ rest) = elim (handle x k f cpus w s event) [
    | none ↦ none
    | some s' ↦ through s' rest
  ]

  through-append :
      (s t : Service) (front back : List (Moment × Event))
      → through s front ≡ some t
      → through s (front ++ back) ≡ through t back
  unfolding through
  through-append s t [] back h = ground arith
  through-append s t ((w, event) ∷ front) back h =
      elim (Option-cases (handle x k f cpus w s event)) [
        | inl e ↦ absurd (ground arith)
        | inr (s', e) ↦ rw (e, through) (through-append s' t front back (ground arith))
      ]

  run-append :
      (s t : Service) (front back : List (Moment × Event))
      → through s front ≡ some t
      → run x k f cpus s (front ++ back) ≡ run x k f cpus t back
  unfolding through run
  run-append s t [] back h = ground arith
  run-append s t ((w, event) ∷ front) back h = elim (Option-cases (handle x k f cpus w s event)) [
    | inl e ↦ absurd (ground arith)
    | inr (s', e) ↦ rw (e, run) (run-append s' t front back (ground arith))
  ]

  -- What a system's history says of it, from the service `s` on
  record Follows (s : Service) (m : System) : Type 0 where
    passed : is_running m.phase ≡ true → through s m.handled ≡ some m.service
    same : run x k f cpus s m.handled ≡ m.service
    ordered : events_of m.handled ++ held m.phase ++ sent_events m.pending ≡ m.requested

  pushed :
      (front middle : List Event) (pending new : List (Event × Sender)) (requested : List Event)
      → front ++ middle ++ sent_events pending ≡ requested
      → front ++ middle ++ sent_events (pending ++ new) ≡ requested ++ sent_events new
  pushed front middle pending new requested h = rw (← h) (simp (map-append, append_assoc))

  shifted :
      (handled : List (Moment × Event)) (w : Moment) (event : Event) (phase : Phase)
      (pending : List (Event × Sender)) (requested : List Event)
      → phase ≡ Phase.busy event
      → events_of handled ++ held phase ++ sent_events pending ≡ requested
      → events_of (handled ++ (w, event) ∷ []) ++ [] ++ sent_events pending ≡ requested
  shifted handled w event phase pending requested p h =
      rw (← h) (rw p (simp (map-append, append_assoc, append-nil)))

  finish-Follows :
      (s : Service) (m : System) (w : Moment) (event : Event) (result : Option Service)
      → handle x k f cpus w m.service event ≡ result
      → m.phase ≡ Phase.busy event
      → Follows s m
      → Follows s (after_branch m w event result)
  unfolding after_branch run through
  finish-Follows s m w event none e p h = record {
    passed = λ q. absurd (cc);
    same =
        run-append s m.service m.handled ((w, event) ∷ []) (h.passed (rw p refl))
        ∙ rw (e, run) refl;
    ordered = shifted m.handled w event m.phase m.pending m.requested p h.ordered;
  }
  finish-Follows s m w event (some t) e p h = record {
    passed = λ q.
        through-append s m.service m.handled ((w, event) ∷ []) (h.passed (rw p refl))
        ∙ rw (e, through) refl;
    same =
        run-append s m.service m.handled ((w, event) ∷ []) (h.passed (rw p refl))
        ∙ rw (e, run) refl;
    ordered = shifted m.handled w event m.phase m.pending m.requested p h.ordered;
  }

  Step-Follows : (s : Service) {m n : System} → Step x k f cpus m n → Follows s m → Follows s n
  unfolding accept_signal accept_call receive finish_branch
  Step-Follows s {m} (Step.signal g free) h = record {
    passed = h.passed;
    same = h.same;
    ordered = pushed (events_of m.handled) (held m.phase) m.pending _ m.requested h.ordered;
  }
  Step-Follows s {m} (Step.call c free) h = record {
    passed = h.passed;
    same = h.same;
    ordered = called (answer m.server c).sent;
  }
    where
      called :
          (events : List Event)
          → events_of m.handled
              ++ held m.phase
              ++ sent_events (m.pending ++ sent_by (call_sender c) events)
            ≡ m.requested ++ events
      called events =
          pushed (events_of m.handled) (held m.phase) m.pending _ m.requested h.ordered
          ∙ ap (◌++◌ m.requested) (sent_events-sent_by (call_sender c) events)
  Step-Follows s {m} (Step.take event who rest p q) h = record {
    passed = λ r. h.passed (rw p refl);
    same = h.same;
    ordered = taken m.phase m.pending p q h.ordered;
  }
    where
      taken :
          (phase : Phase) (pending : List (Event × Sender))
          → phase ≡ Phase.ready
          → pending ≡ (event, who) ∷ rest
          → events_of m.handled ++ held phase ++ sent_events pending ≡ m.requested
          → events_of m.handled ++ (event ∷ []) ++ sent_events rest ≡ m.requested
      taken phase pending p q e = rw (← e) (rw (p, q) (simp (append_assoc, append-nil)))
  Step-Follows s {m} (Step.done w event p free sees) h =
      finish-Follows s m w event (handle x k f cpus w m.service event) refl p h

  Reach-Follows :
      (w : Moment) (paths : Option SchedPaths) {m : System}
      → Reach x k f cpus (boot x k f cpus w paths) m
      → Follows (start x k f cpus w paths) m
  unfolding boot through run
  Reach-Follows w paths Reach.here = record { passed = λ q. refl; same = refl; ordered = refl }
  Reach-Follows w paths (Reach.later r st) = Step-Follows _ st (Reach-Follows w paths r)

  -- However the tasks, the calls over D-Bus and the event loop interleave: the service is the one that
  -- `run` makes from the daemon's start on of the events handled so far, the daemon's invariant holds
  -- of it, and the events that were handled, the one whose branch runs and those still to be received
  -- are all events that were sent, once each and in the order of the sends.
  pub Reach-run :
      (w : Moment) (paths : Option SchedPaths) {m : System}
      → Reach x k f cpus (boot x k f cpus w paths) m
      → (m.service ≡ run x k f cpus (start x k f cpus w paths) m.handled)
        × IsGood x m.service
        × (events_of m.handled ++ held m.phase ++ sent_events m.pending ≡ m.requested)
  Reach-run w paths {m} r =
      let h : Follows (start x k f cpus w paths) m = Reach-Follows w paths r in
      (sym h.same, rw (← h.same) (run-start x k f cpus w paths m.handled), h.ordered)
