-- ===== src/SpscQueue/Consumer.antt =====
-- `peek`, `discard` and `dequeue` of src/container/spsc_queue.cc on a ring that holds records.
use fpag.Common.{ℕ, ◌+◌, ◌%◌, ◌^◌, ◌≤◌, ◌<◌, ◌≡◌, refl, sym, ap, ◌∙◌, arith}
use fpag.Common.{List, [], ◌∷◌, length, add64, sub64, ltb, le→ltb, lt→ltb}
use fpag.Common.{true, false, bit_and}
use mathlib.Core.Path.{subst}
use native.Mathlib.Nat.{mod-mod}
use fpag.MathUtil.{round_up}
use fpag.MathUtil.Round.{padding, round_up_lem}
use fpag.SpscQueue.{SpscQueue, DequeueStatus, size_consumer, peek, discard, dequeue, capacity_mask}
use fpag.SpscQueue.Ring.{load, load_mod}
use fpag.SpscQueue.Items.{
  Item, align, IsAlignable, room, span, Holds, Contains, Contains-advance, add64_assoc,
}
use fpag.SpscQueue.Positions.{capacity_bound, total_needed, size_consumer-eq-span, masked}

module _ {k : ℕ} {q : SpscQueue} (i : Item) (items : List Item) where
  -- `peek` points at the oldest record.
  pub peek_front :
      IsAlignable i
      → Contains k q (i ∷ items)
      → load q.capacity q.ring (peek q (length i.bytes) (align i)) (length i.bytes) ≡ i.bytes
  unfolding peek Holds
  peek_front h c =
      let at : peek q (length i.bytes) (align i) ≡ (q.head + padding q.head (align i)) % 2 ^ k =
        ap (λ t. bit_and (round_up t (align i)) (capacity_mask q)) c.head_sync
        ∙ masked c q.head i.exponent h c.head_word in
      ap (λ t. load t q.ring (peek q (length i.bytes) (align i)) (length i.bytes)) c.capacity_pow
      ∙ ap (λ t. load (2 ^ k) q.ring t (length i.bytes)) at
      ∙ load_mod (2 ^ k) q.ring _ _ (length i.bytes)
          (mod-mod (q.head + padding q.head (align i)) (2 ^ k))
      ∙ c.holds.0

  -- `discard` moves the consumer's position behind the record.
  pub head-discard :
      IsAlignable i
      → Contains k q (i ∷ items)
      → (discard q (length i.bytes) (align i)).head ≡ add64 q.head (room q.head i)
  unfolding discard
  head-discard h c =
      ap (λ t. add64 (round_up t (align i)) (length i.bytes)) c.head_sync
      ∙ ap (λ t. add64 t (length i.bytes)) (round_up_lem i.exponent q.head h c.head_word)
      ∙ add64_assoc q.head (padding q.head (align i)) (length i.bytes)

  -- `discard` of the oldest record leaves the others.
  pub discard_front :
      IsAlignable i
      → Contains k q (i ∷ items)
      → Contains k (discard q (length i.bytes) (align i)) items
  unfolding discard
  discard_front h c =
      subst (λ t. Contains k (record q { head_cache = t; head = t }) items) (sym (head-discard h c))
        (Contains-advance i items c)

  has_front :
      IsAlignable i
      → Contains k q (i ∷ items)
      → ltb
          (size_consumer q)
          (add64 (length i.bytes) (sub64 (round_up q.head_cache (align i)) q.head_cache))
        ≡ false
  unfolding span
  has_front h c =
      let (pos, bound) = capacity_bound k c.capacity_small in
      let needed =
        ap (λ t. add64 (length i.bytes) (sub64 (round_up t (align i)) t)) c.head_sync
        ∙ total_needed q.head i.exponent (length i.bytes) h c.head_word (omega (arith, c.fits)) in
      le→ltb _ _ (omega (arith, needed, size_consumer-eq-span c))

  -- `dequeue` with the size and alignment of the oldest record answers `Ok` and the record's bytes,
  -- and leaves a queue that holds the other records, with the consumer's position behind that
  -- record and the same mode.
  pub dequeue_front :
      IsAlignable i
      → Contains k q (i ∷ items)
      → let (status, bytes, q') = dequeue q (length i.bytes) (align i) in
        (status ≡ DequeueStatus.ok)
        × (bytes ≡ i.bytes)
        × Contains k q' items
        × (q'.head ≡ add64 q.head (room q.head i))
        × (q'.mode ≡ q.mode)
  unfolding dequeue
  dequeue_front h c =
      rw (has_front h c) (refl, peek_front h c, discard_front h c, head-discard h c, refl)

-- `dequeue`, of one byte at least and at most the capacity, from a queue that holds no record
-- answers `Empty` and changes nothing.
pub dequeue_empty :
    {k : ℕ} {q : SpscQueue} (n e : ℕ)
    → e ≤ 63
    → 0 < n
    → n ≤ q.capacity
    → Contains k q []
    → dequeue q n (2 ^ e) ≡ (DequeueStatus.empty, [], q)
unfolding dequeue span
dequeue_empty {k} {q} n e he pos le c =
    let (_, bound) = capacity_bound k c.capacity_small in
    let needed =
      ap (λ t. add64 n (sub64 (round_up t (2 ^ e)) t)) c.head_sync
      ∙ total_needed q.head e n he c.head_word (omega (arith, c.capacity_pow)) in
    let short : ltb (size_consumer q) (add64 n (sub64 (round_up q.head_cache (2 ^ e)) q.head_cache))
        ≡ true =
      lt→ltb _ _ (omega (arith, needed, size_consumer-eq-span c)) in
    rw short
