-- ===== src/Pipewire/Child/Printed.antt =====
-- daemon/src/pw.rs: what the pipewire process prints is what the monitor reads.
use system76_scheduler.Base.{
  All, List, [], arith, contains, false, length, length-append, nat_eq, refl, some, string_eq, suc,
  zero, ℕ, ◌++◌, ◌∙◌, ◌∷◌, ◌≡◌, ◌≤◌,
}
use system76_scheduler.Externals.{Externals}
use system76_scheduler.Pipewire.{ProcessEvent, from_bytes, to_bytes}
use system76_scheduler.Pipewire.Bytes.{event_pid, from_bytes-to_bytes}
use system76_scheduler.Pipewire.Child.{monitor_child, printed, read_loop, read_until}
use system76_scheduler.Pipewire.Monitor.{Monitor, pass_event, pass_events, pass_found}

-- `itoa` writes the process ID of an event without spaces and line feeds, and `atoi` reads it back from
-- the line.
abbrev pub IsReadable : Externals → (ℕ → List ℕ) → ProcessEvent → Type 0
IsReadable x itoa event =
    (contains (itoa (event_pid event) ++ b'\n' ∷ []) b' ' ≡ false)
    × (contains (itoa (event_pid event)) b'\n' ≡ false)
    × (x.atoi (itoa (event_pid event) ++ b'\n' ∷ []) ≡ some (event_pid event))

read_until-append :
    (line rest : List ℕ)
    → contains line b'\n' ≡ false
    → read_until (line ++ (b'\n' ∷ rest)) ≡ (line ++ b'\n' ∷ [], rest)
unfolding read_until
read_until-append [] rest h = refl
read_until-append (b ∷ line) rest h = ground (arith, read_until-append line rest)

contains-to_bytes :
    (itoa : ℕ → List ℕ) (event : ProcessEvent)
    → contains (to_bytes itoa event) b'\n' ≡ contains (itoa (event_pid event)) b'\n'
unfolding to_bytes
contains-to_bytes itoa (ProcessEvent.add pid) = refl
contains-to_bytes itoa (ProcessEvent.remove pid) = refl

-- The first byte of an event
first_byte :
    (itoa : ℕ → List ℕ) (event : ProcessEvent) (more : List ℕ)
    → (b : ℕ) × (bs : List ℕ) × (to_bytes itoa event ++ more ≡ b ∷ bs)
unfolding to_bytes
first_byte itoa (ProcessEvent.add pid) more = (_, _, refl)
first_byte itoa (ProcessEvent.remove pid) more = (_, _, refl)

read_loop-step :
    (x : Externals) (fuel : ℕ) (m : Monitor) (output : List ℕ) (b : ℕ) (bs : List ℕ)
    → output ≡ b ∷ bs
    → read_loop x (suc fuel) m output
      ≡ read_loop x fuel (pass_found m (from_bytes x (read_until output).0)) (read_until output).1
unfolding read_loop
read_loop-step x fuel m output b bs e = rw e refl

length-printed_le :
    (itoa : ℕ → List ℕ) (event : ProcessEvent) (events : List ProcessEvent)
    → suc (length (printed itoa events)) ≤ length (printed itoa (event ∷ events))
unfolding printed
length-printed_le itoa event events =
    omega (arith, length-append (to_bytes itoa event) (b'\n' ∷ printed itoa events))

read_loop-printed :
    (x : Externals) (itoa : ℕ → List ℕ) (fuel : ℕ) (m : Monitor) (events : List ProcessEvent)
    → All (IsReadable x itoa) events
    → length (printed itoa events) ≤ fuel
    → read_loop x fuel m (printed itoa events) ≡ pass_events m events
unfolding printed pass_found
read_loop-printed x itoa zero m [] h e = unfold read_loop in refl
read_loop-printed x itoa (suc fuel) m [] h e = unfold read_loop in refl
read_loop-printed x itoa zero m (event ∷ rest) h e =
    absurd (omega (arith, length-printed_le itoa event rest))
read_loop-printed x itoa (suc fuel) m (event ∷ rest) (good, all) e =
    let (b, bs, starts) = first_byte itoa event (b'\n' ∷ printed itoa rest) in
    let cut =
      read_until-append (to_bytes itoa event) (printed itoa rest)
        (contains-to_bytes itoa event ∙ good.1) in
    read_loop-step x fuel m (to_bytes itoa event ++ (b'\n' ∷ printed itoa rest)) b bs starts
    ∙ rw (cut, pass_found, from_bytes-to_bytes x itoa event (b'\n' ∷ []) good.0 good.2)
        (read_loop-printed x itoa fuel (pass_event m event) rest all
          (omega (arith, length-printed_le itoa event rest)))

-- What the pipewire process prints for its events the monitor reads as these events, one after the
-- other, where the process IDs are written and read back as `itoa` and `atoi` do; the fuel is enough.
pub monitor_child-printed :
    (x : Externals) (itoa : ℕ → List ℕ) (m : Monitor) (events : List ProcessEvent)
    → All (IsReadable x itoa) events
    → monitor_child x m (printed itoa events) ≡ pass_events m events
unfolding monitor_child
monitor_child-printed x itoa m events h =
    read_loop-printed x itoa (length (printed itoa events)) m events h (omega arith)
