-- ===== src/Daemon/Commands.antt =====
-- daemon/src/main.rs: the command line, and what its commands ask of a running daemon over D-Bus.
use system76_scheduler.Base.{Bool, Option, String, false, nat_eq, none, some, string_eq, true}
use system76_scheduler.Daemon.Bus.{Server}
use system76_scheduler.Daemon.System.{Call}

-- `args.get_one::<&str>("PROFILE")`: clap documents that it panics where the argument's values are of
-- another type than the one that is asked for.
pub data Argument : Type 0 where
  absent : Argument
  given : String → Argument
  mismatched : Argument

-- The subcommands: `cpu`, `daemon` with or without `reload`, `pipewire`
pub data Command : Type 0 where
  cpu : Argument → Command
  daemon : Bool → Command
  pipewire : Command
  other : Command

-- What a command comes to: a method call, a line on the standard output, the daemon or the pipewire
-- process, none of them, an error where the daemon's interface cannot be reached, or a panic
pub data Outcome : Type 0 where
  called : Call → Outcome
  shown : String → Outcome
  runs_daemon runs_pipewire no_command failed panicked : Outcome

-- The property `cpu_profile` of the interface
abbrev pub bus_cpu_profile : Server → String
bus_cpu_profile b = b.cpu_profile

-- `cpu`
unfoldable pub cpu_command : Option Server → Argument → Outcome
cpu_command none profile = Outcome.failed
cpu_command (some b) (Argument.given profile) = Outcome.called (Call.set_cpu_profile profile)
cpu_command (some b) Argument.absent = Outcome.shown (bus_cpu_profile b)
cpu_command (some b) Argument.mismatched = Outcome.panicked

-- `reload`
unfoldable pub reload_command : Option Server → Outcome
reload_command none = Outcome.failed
reload_command (some b) = Outcome.called Call.reload_configuration

-- `main`
unfoldable pub dispatch : Option Server → Command → Outcome
unfolding cpu_command reload_command
dispatch b (Command.cpu profile) = cpu_command b profile
dispatch b (Command.daemon true) = reload_command b
dispatch b (Command.daemon false) = Outcome.runs_daemon
dispatch b Command.pipewire = Outcome.runs_pipewire
dispatch b Command.other = Outcome.no_command
