-- ===== src/Common/Bits.antt =====
-- The bit operations that the source uses, as arithmetic: a mask of low ones, a mask of high ones,
-- and a disjunction of disjoint fields.
mod Digits
pub use Digits.{bit_and_digit, bit_or_digit}
use Prim.Native.Nat.{ℕ, zero, suc, ◌+◌, ◌-◌, ◌*◌, ◌/◌, ◌%◌, ◌^◌, ◌≤◌, ◌<◌, bit_and, bit_or}
use mathlib.Core.Path.{◌≡◌, refl, ap, ◌∙◌}
use native.Mathlib.Nat.{
  one-le-pow, mul-suc, mul_comm, mod-one, div-one, zero-add, div-lt_iff_lt-mul, mul-one, mod-lt,
  mod-eq_of_lt, mul-add-mod_self_left, div-add-mod, div-div-eq-div-mul,
}
use native.Mathlib.Omega.{arith}

pub two_pow_pos : (k : ℕ) → 0 < 2 ^ k
two_pow_pos k = one-le-pow k 2 (omega arith)

bit_and-zero_below : (n a : ℕ) → a ≤ n → bit_and a 0 ≡ 0
bit_and-zero_below n zero h = refl
bit_and-zero_below zero (suc a) h = absurd (omega arith)
bit_and-zero_below (suc n) (suc a) h =
    omega (arith, bit_and_digit (suc a) 0, bit_and-zero_below n (suc a / 2) (omega arith))

pub bit_and-zero : (a : ℕ) → bit_and a 0 ≡ 0
bit_and-zero a = bit_and-zero_below a a (omega arith)

bit_or-zero_below : (n a : ℕ) → a ≤ n → bit_or a 0 ≡ a
bit_or-zero_below n zero h = refl
bit_or-zero_below zero (suc a) h = absurd (omega arith)
bit_or-zero_below (suc n) (suc a) h =
    omega (arith, bit_or_digit (suc a) 0, bit_or-zero_below n (suc a / 2) (omega arith))

pub bit_or-zero : (a : ℕ) → bit_or a 0 ≡ a
bit_or-zero a = bit_or-zero_below a a (omega arith)

zero-bit_or_below : (n a : ℕ) → a ≤ n → bit_or 0 a ≡ a
zero-bit_or_below n zero h = refl
zero-bit_or_below zero (suc a) h = absurd (omega arith)
zero-bit_or_below (suc n) (suc a) h =
    omega (arith, bit_or_digit 0 (suc a), zero-bit_or_below n (suc a / 2) (omega arith))

pub zero-bit_or : (a : ℕ) → bit_or 0 a ≡ a
zero-bit_or a = zero-bit_or_below a a (omega arith)

bit_and_self_below : (n a : ℕ) → a ≤ n → bit_and a a ≡ a
bit_and_self_below n zero h = refl
bit_and_self_below zero (suc a) h = absurd (omega arith)
bit_and_self_below (suc n) (suc a) h =
    omega (arith, bit_and_digit (suc a) (suc a), bit_and_self_below n (suc a / 2) (omega arith))

pub bit_and_self : (a : ℕ) → bit_and a a ≡ a
bit_and_self a = bit_and_self_below a a (omega arith)

pub two_pow_suc : (k : ℕ) → 2 ^ suc k ≡ 2 ^ k + 2 ^ k
two_pow_suc k = omega arith

mul-two_pow_suc : (b k : ℕ) → b * 2 ^ suc k ≡ b * 2 ^ k + b * 2 ^ k
mul-two_pow_suc b k = omega (arith, ap (λ (t : ℕ). b * t) (two_pow_suc k))

half_split : (a p : ℕ) → 0 < p → a % (p + p) ≡ a / 2 % p * 2 + a % 2
half_split a p h =
    let q = a / 2 / p in
    let r = a / 2 % p in
    let below : r < p = mod-lt (a / 2) h in
    let whole : a ≡ (p + p) * q + (r * 2 + a % 2) = omega (arith, div-add-mod (a / 2) p) in
    ap (λ t. t % (p + p)) whole
    ∙ mul-add-mod_self_left (p + p) q (r * 2 + a % 2)
    ∙ mod-eq_of_lt (omega arith)

pub two_pow_add : (k d : ℕ) → 2 ^ (k + d) ≡ 2 ^ k * 2 ^ d
two_pow_add zero d = omega (arith, zero-add d, ap (λ (t : ℕ). 2 ^ t) (zero-add d))
two_pow_add (suc k) d =
    let e : suc k + d ≡ suc (k + d) = omega arith in
    rw e (grind (arith, two_pow_add k d, two_pow_suc (k + d), two_pow_suc k))

-- `a & (b << k)` looks at `a` from bit k on.
pub bit_and_shift : (k a b : ℕ) → bit_and a (b * 2 ^ k) ≡ bit_and (a / 2 ^ k) b * 2 ^ k
bit_and_shift zero a b = omega (
  arith,
  mul-one b,
  div-one a,
  ap (λ (t : ℕ). bit_and a t) (mul-one b),
  ap (λ (t : ℕ). bit_and t b) (div-one a),
)
bit_and_shift (suc k) a b = ground (
  arith,
  mul-two_pow_suc b k,
  mul-two_pow_suc (bit_and (a / 2 ^ suc k) b) k,
  bit_and_digit a (b * 2 ^ suc k),
  bit_and_shift k (a / 2) b,
  two_pow_suc k,
  div-div-eq-div-mul a 2 (2 ^ k),
)

-- `a & (2^k - 1)` keeps the lowest k bits.
pub bit_and_mask : (k a : ℕ) → bit_and a (2 ^ k - 1) ≡ a % 2 ^ k
bit_and_mask zero a = omega (arith, bit_and-zero a, mod-one a)
bit_and_mask (suc k) a = ground (
  arith,
  two_pow_pos k,
  two_pow_suc k,
  bit_and_digit a (2 ^ suc k - 1),
  bit_and_mask k (a / 2),
  half_split a (2 ^ k),
)

-- A disjunction of disjoint fields is their sum.
pub bit_or_fields : (k a b : ℕ) → a < 2 ^ k → bit_or a (b * 2 ^ k) ≡ a + b * 2 ^ k
bit_or_fields zero a b h = ground (arith, zero-bit_or (b * 1))
bit_or_fields (suc k) a b h = ground (
  arith,
  mul-two_pow_suc b k,
  two_pow_suc k,
  bit_or_digit a (b * 2 ^ suc k),
  bit_or_fields k (a / 2) b,
)

mul-sub_self : (p q : ℕ) → p * q - p ≡ (q - 1) * p
mul-sub_self p zero = omega arith
mul-sub_self p (suc q) =
    let pred_suc : suc q - 1 ≡ q = omega arith in
    rw pred_suc (omega (arith, mul-suc p q, mul_comm p q))

-- `a & ~(2^k - 1)` in a word of k + d bits clears the lowest k bits.
pub bit_and_high :
    (k d a : ℕ) → a < 2 ^ k * 2 ^ d → bit_and a (2 ^ k * 2 ^ d - 2 ^ k) ≡ a / 2 ^ k * 2 ^ k
bit_and_high k d a h =
    let top : a / 2 ^ k < 2 ^ d = (div-lt_iff_lt-mul (two_pow_pos k)).1 (omega arith) in
    ap (bit_and a) (mul-sub_self (2 ^ k) (2 ^ d))
    ∙ bit_and_shift k a (2 ^ d - 1)
    ∙ ap (λ t. t * 2 ^ k) (bit_and_mask d (a / 2 ^ k) ∙ mod-eq_of_lt top)
