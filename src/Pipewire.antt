-- ===== src/Pipewire.antt =====
-- pipewire/src/lib.rs: the events of processes that use pipewire, and how they are written in bytes.
pub mod Bytes
pub mod Nodes
pub mod Registry
pub mod Monitor
pub mod Child
pub mod Sessions
use system76_scheduler.Base.{
  List, Option, [], if◌then◌else◌, nat_eq, none, some, string_eq, ℕ, ◌++◌, ◌==◌, ◌∷◌,
}
use system76_scheduler.Base.Text.{bytes_eq, codes}
use system76_scheduler.Externals.{Externals}

pub data ProcessEvent : Type 0 where
  add : ℕ → ProcessEvent
  remove : ℕ → ProcessEvent

-- `bytes.split(|b| *b == b' ')`: the first field, and what follows the first space
unfoldable pub cut_field : List ℕ → List ℕ × Option (List ℕ)
cut_field [] = ([], none)
cut_field (b ∷ bs) =
    let (field, rest) = cut_field bs in if b == b' ' then ([], some bs) else (b ∷ field, rest)

-- `match method`
unfoldable pub event_of : List ℕ → ℕ → Option ProcessEvent
event_of method pid =
    if bytes_eq method (codes "add")
    then some (ProcessEvent.add pid)
    else if bytes_eq method (codes "rem")
    then some (ProcessEvent.remove pid)
    else none

unfoldable pub second_field : Option (List ℕ) → Option (List ℕ)
second_field none = none
second_field (some rest) = some (cut_field rest).0

-- `ProcessEvent::from_bytes`
unfoldable pub from_bytes : Externals → List ℕ → Option ProcessEvent
unfolding second_field
from_bytes x bytes =
    let (method, rest) = cut_field bytes in
    elim (second_field rest) [
      | none ↦ none
      | some field ↦ elim (x.atoi field) [ none ↦ none | some pid ↦ event_of method pid ]
    ]

-- `ProcessEvent::to_bytes`, where `itoa` formats a process ID
unfoldable pub to_bytes : (ℕ → List ℕ) → ProcessEvent → List ℕ
to_bytes itoa (ProcessEvent.add pid) = codes "add" ++ (b' ' ∷ itoa pid)
to_bytes itoa (ProcessEvent.remove pid) = codes "rem" ++ (b' ' ∷ itoa pid)
