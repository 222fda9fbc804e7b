-- ===== src/Pipewire/Bytes.antt =====
-- pipewire/src/lib.rs: the bytes of an event can be read back.
use system76_scheduler.Base.{
  List, [], arith, contains, false, nat_eq, none, refl, some, string_eq, ℕ, ◌++◌, ◌∷◌, ◌≡◌,
}
use system76_scheduler.Base.Text.{codes}
use system76_scheduler.Externals.{Externals}
use system76_scheduler.Pipewire.{ProcessEvent, cut_field, event_of, from_bytes, to_bytes}

cut_field-append :
    (field rest : List ℕ)
    → contains field b' ' ≡ false
    → cut_field (field ++ (b' ' ∷ rest)) ≡ (field, some rest)
unfolding cut_field
cut_field-append [] rest h = refl
cut_field-append (b ∷ field) rest h = ground (arith, cut_field-append field rest)

cut_field-last : (field : List ℕ) → contains field b' ' ≡ false → cut_field field ≡ (field, none)
unfolding cut_field
cut_field-last [] h = refl
cut_field-last (b ∷ field) h = ground (arith, cut_field-last field)

read_back :
    (x : Externals) (method digits : List ℕ) (pid : ℕ)
    → contains method b' ' ≡ false
    → contains digits b' ' ≡ false
    → x.atoi digits ≡ some pid
    → from_bytes x (method ++ (b' ' ∷ digits)) ≡ event_of method pid
unfolding from_bytes
read_back x method digits pid m d e =
    ground (arith, cut_field-append method digits m, cut_field-last digits d)

abbrev pub event_pid : ProcessEvent → ℕ
event_pid (ProcessEvent.add pid) = pid
event_pid (ProcessEvent.remove pid) = pid

-- An event that was written is read back, with the line feed that ends its line or without: for a
-- process ID that `itoa` formats without a space and `atoi` reads from these bytes.
pub from_bytes-to_bytes :
    (x : Externals) (itoa : ℕ → List ℕ) (event : ProcessEvent) (ending : List ℕ)
    → contains (itoa (event_pid event) ++ ending) b' ' ≡ false
    → x.atoi (itoa (event_pid event) ++ ending) ≡ some (event_pid event)
    → from_bytes x (to_bytes itoa event ++ ending) ≡ some event
unfolding to_bytes event_of
from_bytes-to_bytes x itoa (ProcessEvent.add pid) ending d e =
    read_back x (codes "add") (itoa pid ++ ending) pid refl d e
from_bytes-to_bytes x itoa (ProcessEvent.remove pid) ending d e =
    read_back x (codes "rem") (itoa pid ++ ending) pid refl d e
