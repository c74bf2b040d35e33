-- ===== src/SpscQueue/Producer.antt =====
-- `enqueue` of src/container/spsc_queue.cc on a ring that holds records.
use fpag.Common.{ℕ, ◌+◌, ◌%◌, ◌^◌, ◌≤◌, ◌<◌, ◌≡◌, refl, sym, ap, ◌∙◌, arith, some}
use fpag.Common.{List, [], ◌∷◌, ◌++◌, length, add64, sub64, bit_and}
use fpag.Common.{le→ltb, lt→ltb}
use fpag.MathUtil.{round_up}
use fpag.MathUtil.Round.{padding, round_up_lem}
use fpag.SpscQueue.{SpscQueue, Mode, EnqueueStatus, capacity_mask, available_producer}
use fpag.SpscQueue.{commit, copy_in, enqueue}
use fpag.SpscQueue.Ring.{store, load_mod, load-store}
use fpag.SpscQueue.Items.{Item, align, IsAlignable, room, span, Holds, Contains, add64_assoc}
use fpag.SpscQueue.Items.{add64_mod_shift, span-append, Holds-store, Holds-append}
use fpag.SpscQueue.Positions.{
  capacity_bound, total_needed, available_producer-eq, masked, tail-IsWord,
}
use mathlib.Core.Path.{subst, subst₂, ap₂}
use native.Mathlib.Nat.{mod-mod}

module _ {k : ℕ} {q : SpscQueue} (i : Item) (items : List Item) (c : Contains k q items) where
  -- The new record in the ring, behind the others.
  Contains-append :
      span q.head items + room q.tail i ≤ 2 ^ k
      → Contains k
          (record q {
            ring = store (2 ^ k) q.ring ((q.tail + padding q.tail (align i)) % 2 ^ k) i.bytes;
            tail = add64 q.tail (room q.tail i);
            tail_cache = add64 q.tail (room q.tail i);
          })
          (items ++ (i ∷ []))
  unfolding Holds
  Contains-append fits =
      let pad = padding q.tail (align i) in
      let start = (q.tail + pad) % 2 ^ k in
      let ring = store (2 ^ k) q.ring start i.bytes in
      let used = span q.head items in
      let grown : span q.head (items ++ (i ∷ [])) ≡ used + room q.tail i =
        span-append q.head items i c.head_word ∙ ap (λ (t : ℕ). used + room t i) (sym c.tail_end) in
      let behind : start % 2 ^ k ≡ (q.head + (used + pad)) % 2 ^ k =
        mod-mod (q.tail + pad) (2 ^ k)
        ∙ ap (λ (t : ℕ). (t + pad) % 2 ^ k) c.tail_end
        ∙ add64_mod_shift k q.head used pad (omega (arith, c.capacity_small)) in
      let old : Holds (2 ^ k) ring q.head items =
        Holds-store k q.ring q.head start (used + pad) i.bytes items c.capacity_small behind
          (omega arith) (omega arith) c.holds in
      let new : Holds (2 ^ k) ring (add64 q.head used) (i ∷ []) =
        subst (λ (t : ℕ). Holds (2 ^ k) ring t (i ∷ [])) c.tail_end
          (
            load_mod (2 ^ k) ring (q.tail + pad) start (length i.bytes)
                  (sym (mod-mod (q.tail + pad) (2 ^ k)))
                ∙ load-store (2 ^ k) q.ring start i.bytes (omega arith),
            tt,
          ) in
      record {
        mapped_data = c.mapped_data;
        capacity_pow = c.capacity_pow;
        capacity_small = c.capacity_small;
        head_word = c.head_word;
        head_sync = c.head_sync;
        tail_sync = refl;
        tail_end =
            ap (λ (t : ℕ). add64 t (room q.tail i)) c.tail_end
            ∙ add64_assoc q.head used (room q.tail i)
            ∙ ap (add64 q.head) (sym grown);
        fits = omega arith;
        holds = Holds-append (2 ^ k) ring q.head items i c.head_word old new;
      }

-- What `enqueue` leaves behind once there is room, where `tail_cache` was read before the wait.
unfoldable pub publish : ℕ → SpscQueue → Item → SpscQueue
publish tail_cache q i =
    let aligned_tail = round_up tail_cache (align i) in
    commit
      (copy_in (record q { tail_cache = aligned_tail }) (bit_and aligned_tail (capacity_mask q))
        i.bytes)
      (length i.bytes)

module _ {k : ℕ} {q : SpscQueue} (i : Item) (items : List Item) (c : Contains k q items) where
  pub publish-Contains :
      IsAlignable i
      → span q.head items + room q.tail i ≤ 2 ^ k
      → Contains k (publish q.tail_cache q i) (items ++ (i ∷ []))
  unfolding publish copy_in commit
  publish-Contains h fits =
      let pad = padding q.tail (align i) in
      let start : bit_and (round_up q.tail_cache (align i)) (capacity_mask q)
          ≡ (q.tail + pad) % 2 ^ k =
        ap (λ t. bit_and (round_up t (align i)) (capacity_mask q)) c.tail_sync
        ∙ masked c q.tail i.exponent h (tail-IsWord c) in
      let written : store q.capacity q.ring
            (bit_and (round_up q.tail_cache (align i)) (capacity_mask q)) i.bytes
          ≡ store (2 ^ k) q.ring ((q.tail + pad) % 2 ^ k) i.bytes =
        ap₂ (λ m t. store m q.ring t i.bytes) c.capacity_pow start in
      let next : add64 (round_up q.tail_cache (align i)) (length i.bytes)
          ≡ add64 q.tail (room q.tail i) =
        ap (λ t. add64 (round_up t (align i)) (length i.bytes)) c.tail_sync
        ∙ ap (λ t. add64 t (length i.bytes)) (round_up_lem i.exponent q.tail h (tail-IsWord c))
        ∙ add64_assoc q.tail pad (length i.bytes) in
      subst₂
        (λ ring t.
          Contains k (record q { ring = ring; tail = t; tail_cache = t }) (items ++ (i ∷ [])))
        (sym written) (sym next) (Contains-append i items c fits)

  -- What the producer compares.
  pub needs :
      IsAlignable i
      → length i.bytes ≤ 2 ^ 35
      → add64 (length i.bytes) (sub64 (round_up q.tail_cache (align i)) q.tail_cache)
        ≡ room q.tail i
  needs h small =
      ap (λ t. add64 (length i.bytes) (sub64 (round_up t (align i)) t)) c.tail_sync
      ∙ total_needed q.tail i.exponent (length i.bytes) h (tail-IsWord c) small

  -- `enqueue` accepts a record for which there is room behind the others, whatever the mode, and
  -- leaves a queue that holds the records in order with the new one last; the consumer's position
  -- and the mode stay.
  pub enqueue_accepts :
      (heads : List ℕ)
      → IsAlignable i
      → span q.head items + room q.tail i ≤ 2 ^ k
      → (q' : SpscQueue) × (enqueue q i.bytes (align i) heads ≡ some (EnqueueStatus.ok, q'))
        × Contains k q' (items ++ (i ∷ []))
        × (q'.head ≡ q.head)
        × (q'.mode ≡ q.mode)
  unfolding enqueue publish commit copy_in
  enqueue_accepts heads h fits =
      let (_, bound) = capacity_bound k c.capacity_small in
      let space =
        le→ltb (available_producer q)
          (add64 (length i.bytes) (sub64 (round_up q.tail_cache (align i)) q.tail_cache))
          (omega (arith, available_producer-eq c, needs h (omega arith))) in
      (publish q.tail_cache q i, rw (space, enqueue), publish-Contains h fits, refl, refl)

  -- In the mode `Drop` a record that is no longer than the ring and for which there is no room is
  -- counted, and changes nothing else.
  pub enqueue_drops :
      (heads : List ℕ)
      → IsAlignable i
      → length i.bytes ≤ q.capacity
      → q.mode ≡ Mode.drop
      → 2 ^ k < span q.head items + room q.tail i
      → enqueue q i.bytes (align i) heads
        ≡ some (EnqueueStatus.dropped, record q { dropped_count = add64 q.dropped_count 1 })
  unfolding enqueue
  enqueue_drops heads h le mode over =
      let (_, bound) = capacity_bound k c.capacity_small in
      let full =
        lt→ltb (available_producer q)
          (add64 (length i.bytes) (sub64 (round_up q.tail_cache (align i)) q.tail_cache))
          (omega (arith, available_producer-eq c, needs h (omega (arith, c.capacity_pow)))) in
      rw (full, enqueue) (ground arith)
