-- ===== src/SpscQueue/Positions.antt =====
-- What the index arithmetic of src/container/spsc_queue.cc computes on a queue that holds records.
use fpag.Common.{ℕ, ◌+◌, ◌-◌, ◌%◌, ◌^◌, ◌≤◌, ◌<◌, ◌≡◌, ap, ◌∙◌, arith}
use fpag.Common.{List, IsWord, add64, sub64, bit_and}
use fpag.Common.Bits.{two_pow_pos, bit_and_mask}
use fpag.MathUtil.{round_up}
use fpag.MathUtil.Round.{padding, padding-lt, round_up_lem, sub-round_up}
use fpag.SpscQueue.{SpscQueue, size_consumer, available_producer, capacity_mask}
use fpag.SpscQueue.Items.{Item, span, Contains, add64_mod}
use native.Mathlib.Nat.{pow-le-pow_right}

pub capacity_bound : (k : ℕ) → k ≤ 35 → (0 < 2 ^ k) × (2 ^ k ≤ 2 ^ 35)
capacity_bound k h = (two_pow_pos k, pow-le-pow_right (omega arith) h)

-- What `reserve` and `dequeue` compute as `total_needed`.
pub total_needed :
    (p e n : ℕ)
    → e ≤ 63
    → IsWord p
    → n ≤ 2 ^ 35
    → add64 n (sub64 (round_up p (2 ^ e)) p) ≡ padding p (2 ^ e) + n
total_needed p e n he w small =
    let pad : padding p (2 ^ e) < 2 ^ e = padding-lt p (2 ^ e) (two_pow_pos e) in
    let bound : 2 ^ e ≤ 2 ^ 63 = pow-le-pow_right (omega arith) he in
    ap (add64 n) (sub-round_up e p he w) ∙ omega arith

module _ {k : ℕ} {q : SpscQueue} {items : List Item} (c : Contains k q items) where
  pub size_consumer-eq-span : size_consumer q ≡ span q.head items
  size_consumer-eq-span =
      let (_, bound) = capacity_bound k c.capacity_small in
      ap (λ (t : ℕ). sub64 q.tail t) c.head_sync
      ∙ ap (λ (t : ℕ). sub64 t q.head) c.tail_end
      ∙ omega arith

  pub available_producer-eq : available_producer q ≡ 2 ^ k - span q.head items
  available_producer-eq =
      let (_, bound) = capacity_bound k c.capacity_small in
      ap (λ (t : ℕ). sub64 q.capacity (sub64 t q.head)) (c.tail_sync ∙ c.tail_end)
      ∙ ap (λ (t : ℕ). sub64 t (sub64 (add64 q.head (span q.head items)) q.head)) c.capacity_pow
      ∙ omega arith

  -- The position of a record behind its padding, as a pointer into the ring.
  pub masked :
      (p e : ℕ)
      → e ≤ 63
      → IsWord p
      → bit_and (round_up p (2 ^ e)) (capacity_mask q) ≡ (p + padding p (2 ^ e)) % 2 ^ k
  masked p e he w =
      let (pos, bound) = capacity_bound k c.capacity_small in
      let mask : capacity_mask q ≡ 2 ^ k - 1 =
        ap (λ (t : ℕ). sub64 t 1) c.capacity_pow ∙ omega arith in
      ap (bit_and (round_up p (2 ^ e))) mask
      ∙ bit_and_mask k (round_up p (2 ^ e))
      ∙ ap (λ (t : ℕ). t % 2 ^ k) (round_up_lem e p he w)
      ∙ add64_mod k p (padding p (2 ^ e)) (omega (arith, c.capacity_small))

  pub tail-IsWord : IsWord q.tail
  tail-IsWord = omega arith
