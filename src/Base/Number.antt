-- ===== src/Base/Number.antt =====
-- `str::parse` of unsigned numbers.
use Prim.Native.Nat.{ℕ, ◌+◌, ◌-◌, ◌*◌, ◌^◌}
use Prim.Native.String.{String}
use mathlib.Core.Bool.{◌&&◌}
use mathlib.Core.Option.{Option, none, some}
use mathlib.Core.List.{List, [], ◌∷◌}
use system76_scheduler.Base.Eq.{◌==◌, if◌then◌else◌, leb, ltb, nat_eq}
use system76_scheduler.Base.Text.{codes}

-- The digits of a number
digits_from : ℕ → List ℕ → Option ℕ
digits_from n [] = some n
digits_from n (b ∷ bs) =
    let rest = digits_from (n * 10 + (b - b'0')) bs in
    if leb b'0' b && leb b b'9' then rest else none

some_digits : List ℕ → Option ℕ
some_digits [] = none
some_digits (b ∷ bs) = digits_from 0 (b ∷ bs)

-- A sign `+` is allowed.
unsigned : List ℕ → Option ℕ
unsigned [] = none
unsigned (b ∷ bs) = if b == b'+' then some_digits bs else some_digits (b ∷ bs)

below_bound : ℕ → Option ℕ → Option ℕ
below_bound bound none = none
below_bound bound (some n) = if ltb n bound then some n else none

-- `str::parse` of an unsigned number
parse_below : ℕ → String → Option ℕ
unfolding digits_from some_digits unsigned below_bound
parse_below bound text = below_bound bound (unsigned (codes text))

-- `str::parse::<u32>` and `str::parse::<u64>`
unfoldable pub parse_u32 : String → Option ℕ
unfolding parse_below
parse_u32 text = parse_below (2 ^ 32) text

unfoldable pub parse_u64 : String → Option ℕ
unfolding parse_below
parse_u64 text = parse_below (2 ^ 64) text
