-- ===== src/Daemon/Startup.antt =====
-- daemon/src/main.rs: the times that the daemon waits for, at its start and before it handles a process
-- that execsnoop reports.
use Prim.Native.Char.{code}
use system76_scheduler.Base.{
  List, Option, String, [], arith, if◌then◌else◌, ltb, map, nat_eq, none, refl, some, string_eq, ℕ,
  ◌+◌, ◌-◌, ◌==◌, ◌∷◌, ◌≡◌, ◌≤◌,
}
use system76_scheduler.Base.Number.{parse_u64}
use system76_scheduler.Daemon.Bus.{ExecCreate}

-- `text.split('.').next()`
unfoldable pub before_dot : String → String
before_dot String.[] = ""
before_dot (String.◌∷◌ c rest) =
    let more = before_dot rest in if code c == b'.' then "" else String.◌∷◌ c more

-- `uptime`, where `read` is the text of /proc/uptime
unfoldable pub uptime : Option String → Option ℕ
unfolding before_dot
uptime none = none
uptime (some text) = parse_u64 (before_dot text)

-- The seconds that the daemon sleeps before its event loop
unfoldable pub start_delay : Option ℕ → ℕ
start_delay none = 0
start_delay (some seconds) = if ltb seconds 10 then 10 - seconds else 0

-- Where the uptime can be read, the event loop begins at ten seconds of uptime at least, and the daemon
-- does not sleep longer than for that.
pub start_delay_bounds :
    (seconds : ℕ)
    → (10 ≤ seconds + start_delay (some seconds))
      × (start_delay (some seconds) ≤ 10)
      × ((10 ≤ seconds) → start_delay (some seconds) ≡ 0)
unfolding start_delay
start_delay_bounds seconds = (ground arith, ground arith, λ h. ground arith)

-- What the thread of `integrate_execsnoop` hands over for a process that it reports at `now`, with the
-- time from which on it is sent
unfoldable pub schedule : ℕ → ExecCreate → ℕ × ExecCreate
schedule now process = (now + 2, process)

-- The task that sends: it sleeps until the time of each process in turn.
unfoldable pub send_delayed : ℕ → List (ℕ × ExecCreate) → List (ℕ × ExecCreate)
send_delayed now [] = []
send_delayed now ((due, process) ∷ rest) =
    let time : ℕ = if ltb now due then due else now in (time, process) ∷ send_delayed time rest

-- Every process is sent two seconds after its report at the earliest, in the order of the reports.
abbrev pub AllDue : List (ℕ × ExecCreate) → List (ℕ × ExecCreate) → Type 0
AllDue [] [] = Unit {0}
AllDue ((now, process) ∷ reports) ((time, sent) ∷ rest) =
    ((now + 2 ≤ time) × (sent ≡ process)) × AllDue reports rest
AllDue _ _ = ⊥

pub send_delayed-AllDue :
    (now : ℕ) (reports : List (ℕ × ExecCreate))
    → AllDue reports (send_delayed now (map (λ (r : ℕ × ExecCreate). schedule r.0 r.1) reports))
unfolding send_delayed schedule
send_delayed-AllDue now [] = tt
send_delayed-AllDue now ((reported, process) ∷ rest) = (
  (ground arith, refl),
  send_delayed-AllDue (if ltb now (reported + 2) then reported + 2 else now) rest,
)
