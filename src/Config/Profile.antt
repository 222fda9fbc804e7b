-- ===== src/Config/Profile.antt =====
-- config/src/scheduler/profile.rs
use system76_scheduler.Base.{ℕ, String, Option, none}
use system76_scheduler.Externals.{Externals}
use system76_scheduler.Config.Policy.{Niceness, SchedPolicy, SchedPriority}

-- `ioprio::Class`, by the constructors that the code names
pub data Class : Type 0 where
  best_effort : ℕ → Class
  idle : Class
  realtime : ℕ → Class

pub record Profile : Type 0 where
  pub name : String
  pub nice : Option Niceness
  pub io : Class
  pub sched_policy : SchedPolicy
  pub sched_priority : SchedPriority

-- `Profile::new`
unfoldable pub new_profile : Externals → String → Profile
new_profile x name = record {
  name = name;
  nice = none;
  io = Class.best_effort x.be_lowest;
  sched_policy = SchedPolicy.other;
  sched_priority = 1;
}
