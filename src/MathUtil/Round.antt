-- ===== src/MathUtil/Round.antt =====
-- What `round_up` and `round_down` compute for an alignment that is a power of two.
use fpag.Common.{ℕ, ◌+◌, ◌-◌, ◌*◌, ◌/◌, ◌%◌, ◌^◌, ◌≤◌, ◌<◌, ◌≡◌, sym, ap, ◌∙◌, arith}
use fpag.Common.{
  Bool-cases, inl, inr, ◌==◌, if◌then◌else◌, bit_and, word_size, IsWord, add64, sub64, not64,
}
use fpag.Common.Bits.{two_pow_pos, two_pow_add, bit_and_high}
use fpag.MathUtil.{round_up, round_down}
use native.Mathlib.Decide.{dec_lt}
use native.Mathlib.Nat.{
  add-zero, mul-mod_left, mul-le-mul_right, le-div_iff_mul-le, div-lt_iff_lt-mul, mul_comm,
  mod-eq_of_lt, div-eq_of_lt, div-mul-le_self, mod-lt, div-add-mod', div-eq_of_lt-le,
  mul-le-mul_left,
}

-- What has to be added to `v` to reach a multiple of `a`.
abbrev pub padding : ℕ → ℕ → ℕ
padding v a = if v % a == 0 then 0 else a - v % a

pub padding-lt : (v a : ℕ) → 0 < a → padding v a < a
padding-lt v a h = ground arith

-- `2 ^ 64` is a multiple of every alignment.
pub word_split : (k : ℕ) → k ≤ 64 → 2 ^ k * 2 ^ (64 - k) ≡ word_size
word_split k h = sym (two_pow_add k (64 - k)) ∙ ap (λ (t : ℕ). 2 ^ t) whole
  where
    whole : k + (64 - k) ≡ 64
    whole = omega arith

pub two_pow_le_word : (k : ℕ) → k ≤ 64 → 2 ^ k ≤ word_size
two_pow_le_word k h = omega (arith, word_split k h, mul-le-mul_left (2 ^ k) (two_pow_pos (64 - k)))

clear_low : (k v : ℕ) → k ≤ 64 → IsWord v → bit_and v (not64 (sub64 (2 ^ k) 1)) ≡ v / 2 ^ k * 2 ^ k
clear_low k v h w =
    let mask : not64 (sub64 (2 ^ k) 1) ≡ 2 ^ k * 2 ^ (64 - k) - 2 ^ k =
      omega (arith, two_pow_pos k, two_pow_le_word k h, word_split k h) in
    ap (bit_and v) mask ∙ bit_and_high k (64 - k) v (omega (arith, word_split k h))

-- Rounding down to a multiple, on numbers that do not wrap.
up_multiple : (v a : ℕ) → 0 < a → (v + (a - 1)) / a * a ≡ v + padding v a
up_multiple v a h = elim (Bool-cases (v % a == 0)) [
  | inl e ↦ rw e (
      let exact : v / a * a ≡ v = ground (arith, div-add-mod' v a) in
      ap (λ t. t * a) (div-eq_of_lt-le {k = v / a} a (omega arith) (omega arith))
      ∙ exact
      ∙ sym (add-zero v))
  | inr e ↦ rw e (
      let rest : 0 < v % a = ground arith in
      let below : v % a < a = mod-lt v h in
      let parts : v / a * a + v % a ≡ v = div-add-mod' v a in
      ap (λ t. t * a) (div-eq_of_lt-le {k = v / a + 1} a (omega arith) (omega arith)) ∙ omega arith)
]

-- Where the sum wraps, the padding reaches the word size.
padding_wraps :
    (k v : ℕ) → k ≤ 64 → IsWord v → word_size ≤ v + (2 ^ k - 1) → v + padding v (2 ^ k) ≡ word_size
padding_wraps k v h w over =
    let split : 2 ^ (64 - k) * 2 ^ k ≡ word_size =
      mul_comm (2 ^ (64 - k)) (2 ^ k) ∙ word_split k h in
    let q : (v + (2 ^ k - 1)) / 2 ^ k ≡ 2 ^ (64 - k) =
      div-eq_of_lt-le {k = 2 ^ (64 - k)} (2 ^ k) (omega arith) (omega (arith, two_pow_pos k)) in
    sym (up_multiple v (2 ^ k) (two_pow_pos k)) ∙ ap (λ t. t * 2 ^ k) q ∙ split

-- What a wrapped sum rounds down to.
word_multiple :
    (k v : ℕ)
    → k ≤ 64
    → IsWord v
    → add64 v (2 ^ k - 1) / 2 ^ k * 2 ^ k ≡ add64 v (padding v (2 ^ k))
word_multiple k v h w = elim (dec_lt (v + (2 ^ k - 1)) word_size) [
  | yes p ↦
      let exact : add64 v (2 ^ k - 1) ≡ v + (2 ^ k - 1) = mod-eq_of_lt p in
      let below : v + padding v (2 ^ k) ≤ v + (2 ^ k - 1) =
        omega (
          arith,
          up_multiple v (2 ^ k) (two_pow_pos k),
          div-mul-le_self (v + (2 ^ k - 1)) (2 ^ k),
        ) in
      ap (λ t. t / 2 ^ k * 2 ^ k) exact
      ∙ up_multiple v (2 ^ k) (two_pow_pos k)
      ∙ sym (mod-eq_of_lt (omega arith))
  | no p ↦
      let small : add64 v (2 ^ k - 1) < 2 ^ k = omega (arith, two_pow_pos k, two_pow_le_word k h) in
      ap (λ t. t * 2 ^ k) (div-eq_of_lt small) ∙ omega (arith, padding_wraps k v h w (omega arith))
]

-- Rounding up adds the padding, modulo the word size, for every alignment that is a power of two.
pub round_up_lem : (k v : ℕ) → k ≤ 63 → IsWord v → round_up v (2 ^ k) ≡ add64 v (padding v (2 ^ k))
unfolding round_up
round_up_lem k v h w =
    let mask : sub64 (2 ^ k) 1 ≡ 2 ^ k - 1 =
      omega (arith, two_pow_pos k, two_pow_le_word k (omega arith)) in
    clear_low k (add64 v (sub64 (2 ^ k) 1)) (omega arith) (omega arith)
    ∙ ap (λ t. add64 v t / 2 ^ k * 2 ^ k) mask
    ∙ word_multiple k v (omega arith) w

-- The distance from `v` to where it is rounded up is the padding, also where the sum wraps.
pub sub-round_up : (k v : ℕ) → k ≤ 63 → IsWord v → sub64 (round_up v (2 ^ k)) v ≡ padding v (2 ^ k)
sub-round_up k v h w =
    rw (round_up_lem k v h w)
      (omega (arith, padding-lt v (2 ^ k) (two_pow_pos k), two_pow_le_word k (omega arith)))

pred_le : {a b : ℕ} → a < b + 1 → a ≤ b
pred_le h = omega arith

round_up-multiple :
    (k v : ℕ)
    → k ≤ 63
    → v + (2 ^ k - 1) < word_size
    → round_up v (2 ^ k) ≡ (v + (2 ^ k - 1)) / 2 ^ k * 2 ^ k
round_up-multiple k v h fits =
    let multiple : (v + (2 ^ k - 1)) / 2 ^ k * 2 ^ k ≡ v + padding v (2 ^ k) =
      up_multiple v (2 ^ k) (two_pow_pos k) in
    let below : (v + (2 ^ k - 1)) / 2 ^ k * 2 ^ k ≤ v + (2 ^ k - 1) =
      div-mul-le_self (v + (2 ^ k - 1)) (2 ^ k) in
    round_up_lem k v h (omega arith) ∙ mod-eq_of_lt (omega arith) ∙ sym multiple

-- If the sum does not wrap, `round_up` gives a multiple of the alignment that is not below the
-- value, and no multiple m that is not below the value is smaller.
pub round_up_least :
    (k v m : ℕ)
    → k ≤ 63
    → v + (2 ^ k - 1) < word_size
    → v ≤ m
    → m % 2 ^ k ≡ 0
    → (v ≤ round_up v (2 ^ k)) × (round_up v (2 ^ k) % 2 ^ k ≡ 0) × (round_up v (2 ^ k) ≤ m)
round_up_least k v m h fits le aligned =
    let pos : 0 < 2 ^ k = two_pow_pos k in
    let multiple : round_up v (2 ^ k) ≡ (v + (2 ^ k - 1)) / 2 ^ k * 2 ^ k =
      round_up-multiple k v h fits in
    let sum : round_up v (2 ^ k) ≡ v + padding v (2 ^ k) = multiple ∙ up_multiple v (2 ^ k) pos in
    (
      omega arith,
      ap (λ t. t % 2 ^ k) multiple ∙ mul-mod_left ((v + (2 ^ k - 1)) / 2 ^ k) (2 ^ k),
      let quotient : m / 2 ^ k * 2 ^ k ≡ m = omega (arith, div-add-mod' m (2 ^ k)) in
          let below : (v + (2 ^ k - 1)) / 2 ^ k < m / 2 ^ k + 1 =
            (div-lt_iff_lt-mul pos).1 (omega arith) in
          omega (arith, mul-le-mul_right (2 ^ k) (pred_le below)),
    )

-- `round_down` gives a multiple of the alignment that is not above the value, and no multiple m
-- that is not above the value is greater.
pub round_down_greatest :
    (k v m : ℕ)
    → k ≤ 63
    → IsWord v
    → m ≤ v
    → m % 2 ^ k ≡ 0
    → (round_down v (2 ^ k) ≤ v) × (round_down v (2 ^ k) % 2 ^ k ≡ 0) × (m ≤ round_down v (2 ^ k))
unfolding round_down
round_down_greatest k v m h w le aligned =
    let pos : 0 < 2 ^ k = two_pow_pos k in
    let multiple : round_down v (2 ^ k) ≡ v / 2 ^ k * 2 ^ k = clear_low k v (omega arith) w in
    (
      omega (arith, div-mul-le_self v (2 ^ k)),
      ap (λ t. t % 2 ^ k) multiple ∙ mul-mod_left (v / 2 ^ k) (2 ^ k),
      let quotient : m / 2 ^ k * 2 ^ k ≡ m = omega (arith, div-add-mod' m (2 ^ k)) in
          let below : m / 2 ^ k ≤ v / 2 ^ k = (le-div_iff_mul-le pos).1 (omega arith) in
          omega (arith, mul-le-mul_right (2 ^ k) below),
    )
