-- ===== src/MathUtil.antt =====
-- include/fpag/base/math_util.h at N = T = usize: powers of two and rounding to an alignment.
-- FPAG_DCHECK is compiled out of release builds; what it asserts is a hypothesis here.
mod Tests
pub mod Round
pub mod Power
use fpag.Common.{ℕ, ◌+◌, ◌-◌, ◌/◌, ◌^◌, Bool, ◌&&◌, ltb, leb, ◌==◌, if◌then◌else◌}
use fpag.Common.{bit_and, bit_or, add64, sub64, not64}

unfoldable pub is_power_of_two : ℕ → Bool
is_power_of_two n = ltb 0 n && (bit_and n (sub64 n 1) == 0)

-- `v |= v >> s`
smear : ℕ → ℕ → ℕ
smear s v = bit_or v (v / 2 ^ s)

unfoldable pub next_power_of_two : ℕ → ℕ
unfolding smear
next_power_of_two v =
    if leb v 1
    then 1
    else add64 (smear 32 (smear 16 (smear 8 (smear 4 (smear 2 (smear 1 (v - 1))))))) 1

unfoldable pub round_up : ℕ → ℕ → ℕ
round_up value alignment = let mask = sub64 alignment 1 in bit_and (add64 value mask) (not64 mask)

unfoldable pub round_down : ℕ → ℕ → ℕ
round_down value alignment = bit_and value (not64 (sub64 alignment 1))
