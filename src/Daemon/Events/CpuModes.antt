-- ===== src/Daemon/Events/CpuModes.antt =====
-- daemon/src/main.rs: how a profile that is chosen over D-Bus reaches the kernel.
use system76_scheduler.Base.{
  Bool, Bool-cases, Option, String, [], arith, false, if◌then◌else◌, inl, inr, nat_eq, some,
  string_eq, ℕ, ◌++◌, ◌==◌, ◌∷◌, ◌≡◌,
}
use system76_scheduler.Config.Cfs.{CfsProfile}
use system76_scheduler.Config.Kdl.{Kdl}
use system76_scheduler.Daemon.Bus.{Event, Server, bus_set_cpu_mode, bus_set_cpu_profile, send}
use system76_scheduler.Daemon.Cfs.{
  Floats, cfs_config, cfs_default_config, cfs_on_battery, cfs_responsive_config,
}
use system76_scheduler.Daemon.Events.{
  Moment, apply_battery, apply_cpu_mode, apply_custom, handle, with_server,
}
use system76_scheduler.Externals.{Externals}
use system76_scheduler.Service.State.{Service}

module _ (x : Externals) (k : Kdl) (f : Floats) (cpus : ℕ) where
  -- The CFS profile that a name stands for
  abbrev pub chosen : Moment → Service → String → Option CfsProfile
  chosen w s profile =
      if profile == "auto"
      then some (if w.on_battery then cfs_default_config s else cfs_responsive_config s)
      else if profile == "default"
      then some (cfs_default_config s)
      else if profile == "responsive"
      then some (cfs_responsive_config s)
      else cfs_config s profile

  -- A call of `set_cpu_profile` with a name that is not empty sends one event, and its handling writes
  -- the profile that the name stands for, or nothing where there is none.
  pub handle-bus_set_cpu_profile :
      (w : Moment) (s : Service) (b : Server) (profile : String)
      → (profile == "") ≡ false
      → w.server ≡ some (bus_set_cpu_profile b profile)
      → (event : Event) × ((bus_set_cpu_profile b profile).sent ≡ b.sent ++ event ∷ [])
        × (handle x k f cpus w s event ≡ some (apply_custom x k f cpus s (chosen w s profile)))
  unfolding handle with_server apply_cpu_mode apply_custom cfs_on_battery bus_set_cpu_profile
      bus_set_cpu_mode send
  handle-bus_set_cpu_profile w s b profile named here = elim (Bool-cases (profile == "auto")) [
    | inl e ↦ (Event.set_cpu_mode, ground (arith, here), ground (arith, here))
    | inr e ↦ elim (Bool-cases (profile == "default")) [
      | inl g ↦ (Event.set_cpu_mode, ground (arith, here), ground (arith, here))
      | inr g ↦ elim (Bool-cases (profile == "responsive")) [
        | inl h ↦ (Event.set_cpu_mode, ground (arith, here), ground (arith, here))
        | inr h ↦ (Event.set_custom_cpu_mode, ground (arith, here), ground (arith, here))
      ]
    ]
  ]

  -- After `set_cpu_profile` with a name that is not empty, a change of the battery's state is applied
  -- exactly in automatic mode.
  pub handle-on_battery :
      (w : Moment) (s : Service) (b : Server) (profile : String) (on_battery : Bool)
      → (profile == "") ≡ false
      → w.server ≡ some (bus_set_cpu_profile b profile)
      → handle x k f cpus w s (Event.on_battery on_battery)
        ≡ some (if profile == "auto" then cfs_on_battery f cpus s on_battery else s)
  unfolding handle with_server apply_battery bus_set_cpu_profile bus_set_cpu_mode
  handle-on_battery w s b profile on_battery named here = ground (arith, here)
