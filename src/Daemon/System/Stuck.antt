-- ===== src/Daemon/System/Stuck.antt =====
-- daemon/src/main.rs, daemon/src/dbus.rs: a method of the interface that waits for room in the channel
-- and an event loop that waits for the interface.
use system76_scheduler.Base.{
  Bool, List, [], any, any-append, arith, drop, nat_eq, refl, string_eq, suc, true, zero, ℕ, ◌++◌,
  ◌∙◌, ◌∷◌, ◌≡◌,
}
use system76_scheduler.Config.Kdl.{Kdl}
use system76_scheduler.Daemon.Bus.{Event}
use system76_scheduler.Daemon.Cfs.{Floats}
use system76_scheduler.Daemon.System.{
  Phase, Reach, Sender, Step, System, accept_call, accept_signal, channel_capacity, is_waiting,
  may_finish, needs_interface, receive,
}
use system76_scheduler.Externals.{Externals}

-- The branch of an event wants the interface, which a method holds that waits for room in the channel.
pub record IsStuck (event : Event) (m : System) : Type 0 where
  pub phase : m.phase ≡ Phase.busy event
  pub wants : needs_interface event ≡ true
  pub blocked : is_waiting Sender.exclusive m.pending ≡ true

any-drop_append {ℓ} :
    {A : Type ℓ} (p : A → Bool) (n : ℕ) (xs ys : List A)
    → any p (drop n xs) ≡ true
    → any p (drop n (xs ++ ys)) ≡ true
any-drop_append p zero xs ys h = rw (any-append p xs ys) (rw h refl)
any-drop_append p (suc n) [] ys h = absurd (cc)
any-drop_append p (suc n) (a ∷ xs) ys h = any-drop_append p n xs ys h

is_waiting-append :
    (who : Sender) (pending more : List (Event × Sender))
    → is_waiting who pending ≡ true
    → is_waiting who (pending ++ more) ≡ true
unfolding is_waiting
is_waiting-append who pending more h = any-drop_append _ channel_capacity pending more h

module _ (x : Externals) (k : Kdl) (f : Floats) (cpus : ℕ) where
  -- What stays as it is
  pub record Unchanged (m n : System) : Type 0 where
    pub service : n.service ≡ m.service
    pub handled : n.handled ≡ m.handled

  Step-IsStuck :
      {event : Event} {m n : System}
      → Step x k f cpus m n
      → IsStuck event m
      → IsStuck event n × Unchanged m n
  unfolding accept_signal accept_call may_finish
  Step-IsStuck (Step.signal g free) h = (
    record { phase = h.phase; wants = h.wants; blocked = is_waiting-append _ _ _ h.blocked },
    record { service = refl; handled = refl },
  )
  Step-IsStuck (Step.call c free) h = (
    record { phase = h.phase; wants = h.wants; blocked = is_waiting-append _ _ _ h.blocked },
    record { service = refl; handled = refl },
  )
  Step-IsStuck (Step.take event who rest p q) h = absurd (ground (arith, h.phase, p))
  Step-IsStuck (Step.done w event p free sees) h =
      absurd (ground (arith, h.phase, h.wants, h.blocked, p, free))

  Reach-IsStuck :
      {event : Event} {m n : System}
      → IsStuck event m
      → Reach x k f cpus m n
      → IsStuck event n × Unchanged m n
  Reach-IsStuck h Reach.here = (h, record { service = refl; handled = refl })
  Reach-IsStuck h (Reach.later r st) =
      let (h1, u1) = Reach-IsStuck h r in
      let (h2, u2) = Step-IsStuck st h1 in
      (h2, record { service = u2.service ∙ u1.service; handled = u2.handled ∙ u1.handled })

  -- Where the event loop comes to an event whose branch wants the interface, while behind it a method
  -- that takes `&mut self` waits for room in the channel, another send before it: from then on, however
  -- the tasks and the calls go on, the branch does not end, no event is handled and the service stays
  -- as it is.
  pub Reach-deadlock :
      (m : System) (event : Event) (who : Sender) (rest : List (Event × Sender))
      → m.phase ≡ Phase.ready
      → m.pending ≡ (event, who) ∷ rest
      → needs_interface event ≡ true
      → is_waiting Sender.exclusive rest ≡ true
      → Step x k f cpus m (receive m event rest)
        × ((n : System)
            → Reach x k f cpus (receive m event rest) n
            → (n.phase ≡ Phase.busy event) × (n.service ≡ m.service) × (n.handled ≡ m.handled))
  unfolding receive
  Reach-deadlock m event who rest p q wants blocked = (
    Step.take event who rest p q,
    λ n r.
        let (h, u) = Reach-IsStuck (record { phase = refl; wants = wants; blocked = blocked }) r in
        (h.phase, u.service, u.handled),
  )
