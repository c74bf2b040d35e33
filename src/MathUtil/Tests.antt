-- ===== src/MathUtil/Tests.antt =====
-- Examples for the arithmetic of include/fpag/base/math_util.h.
use fpag.Common.{ℕ, ◌^◌, ◌≤◌, ◌%◌, ◌≡◌, ◌↔◌, true, arith}
use fpag.MathUtil.{is_power_of_two, round_up, round_down}
use fpag.MathUtil.Round.{round_up_least, round_down_greatest}
use fpag.MathUtil.Power.{is_power_of_two_iff}

round_up_least_example : (13 ≤ round_up 13 8) × (round_up 13 8 % 8 ≡ 0) × (round_up 13 8 ≤ 24)
round_up_least_example =
    round_up_least 3 13 24 (omega arith) (omega arith) (omega arith) (omega arith)

round_down_greatest_example :
    (round_down 13 8 ≤ 13) × (round_down 13 8 % 8 ≡ 0) × (8 ≤ round_down 13 8)
round_down_greatest_example =
    round_down_greatest 3 13 8 (omega arith) (omega arith) (omega arith) (omega arith)

is_power_of_two_iff_example : (is_power_of_two 4096 ≡ true) ↔ ((k : ℕ) × (◌≡◌ {A = ℕ} 4096 (2 ^ k)))
is_power_of_two_iff_example = is_power_of_two_iff 4096 (omega arith)
