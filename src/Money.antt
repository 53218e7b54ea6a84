-- ===== src/Money.antt =====
-- Python's `decimal.Decimal`, as the execution motor uses it: a value may be infinite or not a
-- number, and the result of an operation is rounded half-even to 28 significant digits, the
-- precision of the default context. Quantities and prices are counted in nanos (10^-9), money and
-- notionals in 10^-18; both are the finest values that the signed orders can carry.
pub mod Exact
use agentic_fintech_ecosyste.Prelude.{
  ℕ, zero, suc, ◌+◌, ◌-◌, ◌*◌, ◌/◌, ◌%◌, ◌^◌, Bool, Option, none, some, ◌&&◌, ◌||◌, ltb, ◌==◌,
  if◌then◌else◌,
}

-- A value of unknown origin; `negative n` is -(n + 1).
pub data Decimal : Type 0 where
  positive : ℕ → Decimal
  negative : ℕ → Decimal
  infinite : Bool → Decimal
  nan : Decimal

-- A finite value, as a pydantic model keeps it; `below_zero n` is -(n + 1).
pub data Finite : Type 0 where
  at_least_zero below_zero : ℕ → Finite

-- `None` where the value is missing, not finite, or not above zero.
unfoldable pub usable : Option Decimal → Option ℕ
usable (some (positive (suc n))) = some (suc n)
usable _ = none

abbrev pub precision_limit : ℕ
precision_limit = 10 ^ 28

-- The power of ten at which `n` has at most 28 digits; a number has fewer digits than its value.
last_place : ℕ → ℕ → ℕ → ℕ
last_place zero n unit = unit
last_place (suc fuel) n unit =
    let coarser = last_place fuel n (unit * 10) in
    if ltb (n / unit) precision_limit then unit else coarser

-- Half-even at the last place kept.
round_at : ℕ → ℕ → ℕ
round_at n unit =
    let q = n / unit in
    let r = n % unit in
    if ltb unit (2 * r) || (2 * r == unit && q % 2 == 1) then (q + 1) * unit else q * unit

unfoldable pub round : ℕ → ℕ
unfolding last_place round_at
round n = if ltb n precision_limit then n else round_at n (last_place n n 1)

unfoldable pub add : ℕ → ℕ → ℕ
add a b = round (a + b)

-- `max(Decimal(0), a - b)`
unfoldable pub sub_clipped : ℕ → ℕ → ℕ
sub_clipped a b = round (a - b)

unfoldable pub mul : ℕ → ℕ → ℕ
mul a b = round (a * b)
