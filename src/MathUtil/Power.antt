-- ===== src/MathUtil/Power.antt =====
-- `is_power_of_two` of include/fpag/base/math_util.h and the powers of two.
use fpag.Common.{ℕ, zero, suc, ◌-◌, ◌/◌, ◌%◌, ◌^◌, ◌≤◌, ◌<◌, ◌≡◌, ap, ◌∙◌, sym, inl, inr, ◌↔◌}
use fpag.Common.{true, Bool-cases, ◌==◌, IsWord, sub64, bit_and, arith}
use fpag.Common.Bits.{bit_and_digit, bit_and_self, two_pow_pos, two_pow_suc, bit_and_mask}
use fpag.MathUtil.{is_power_of_two}
use native.Mathlib.Nat.{mod_self}

-- Clearing the lowest one bit of a number leaves nothing only if it is a power of two.
one_bit : (fuel n : ℕ) → n ≤ fuel → 0 < n → bit_and n (n - 1) ≡ 0 → (k : ℕ) × (n ≡ 2 ^ k)
one_bit zero n h pos e = absurd (omega arith)
one_bit (suc fuel) n h pos e = elim (Bool-cases (n % 2 == 0)) [
  | inl even ↦
      let parity : n % 2 ≡ 0 = ground arith in
      let halves : (n - 1) / 2 ≡ n / 2 - 1 = omega arith in
      let smaller : bit_and (n / 2) (n / 2 - 1) ≡ 0 =
        ap (bit_and (n / 2)) (sym halves) ∙ omega (arith, bit_and_digit n (n - 1)) in
      let (k, p) = one_bit fuel (n / 2) (omega arith) (omega arith) smaller in
      (suc k, omega (arith, two_pow_suc k))
  | inr odd ↦
      let parity : n % 2 ≡ 1 = ground arith in
      let halves : (n - 1) / 2 ≡ n / 2 = omega arith in
      let same : bit_and (n / 2) ((n - 1) / 2) ≡ n / 2 =
        ap (bit_and (n / 2)) halves ∙ bit_and_self (n / 2) in
      (0, omega (arith, bit_and_digit n (n - 1)))
]

two_pow_clear : (k : ℕ) → bit_and (2 ^ k) (2 ^ k - 1) ≡ 0
two_pow_clear k = bit_and_mask k (2 ^ k) ∙ mod_self (2 ^ k)

-- `is_power_of_two` holds of exactly the powers of two.
pub is_power_of_two_iff : (n : ℕ) → IsWord n → (is_power_of_two n ≡ true) ↔ ((k : ℕ) × (n ≡ 2 ^ k))
unfolding is_power_of_two
is_power_of_two_iff n w = (
  λ test.
      let pos : 0 < n = ground arith in
      let one : sub64 n 1 ≡ n - 1 = omega arith in
      one_bit n n (omega arith) pos (ap (bit_and n) (sym one) ∙ ground arith),
  λ (k, p).
      let pos : 0 < n = omega (arith, two_pow_pos k) in
      let one : sub64 n 1 ≡ n - 1 = omega arith in
      let clear : bit_and n (sub64 n 1) ≡ 0 =
        ap (bit_and n) one ∙ ap (λ t. bit_and t (t - 1)) p ∙ two_pow_clear k in
      ground arith,
)
