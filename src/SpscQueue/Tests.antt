-- ===== src/SpscQueue/Tests.antt =====
-- Runs of the queue, and its theorems at concrete inputs.
use fpag.Common.{ℕ, ◌%◌, ◌^◌, ◌≤◌, ◌≡◌, refl, arith, some, List, [], ◌∷◌, ◌++◌}
use fpag.Common.{drop, true}
use fpag.SpscQueue.{SpscQueue, Mode, EnqueueStatus, new_queue, init, reset}
use fpag.SpscQueue.{move_construct, move_assign, enqueue}
use fpag.MathUtil.{is_power_of_two}
use fpag.SpscQueue.Ring.{Bytes, load, store}
use fpag.SpscQueue.Items.{Item, span, Holds, Contains}
use fpag.SpscQueue.Setup.{IsFresh, Renewed, init-Contains, reset-IsFresh}
use fpag.SpscQueue.Blocking.{positions, position_after, enqueue_waits}
use fpag.SpscQueue.Run.{Op, run, fifo_run, Protocol, run_refines}

abbrev first : Item
first = record { bytes = 1 ∷ 2 ∷ 3 ∷ []; exponent = 0 }

abbrev second : Item
second = record { bytes = 4 ∷ 5 ∷ []; exponent = 2 }

abbrev third : Item
third = record { bytes = 6 ∷ 7 ∷ 8 ∷ 9 ∷ 10 ∷ 11 ∷ 12 ∷ 13 ∷ []; exponent = 3 }

-- Sixteen bytes, with the positions about to pass the end of a word: the records stand at the bytes
-- 12 to 14, and 0 to 1 behind a byte of padding.
wrapped_ring : Bytes
unfolding store
wrapped_ring = store 16 (store 16 (λ _. 0) 12 first.bytes) 16 second.bytes

abbrev wrapped : Mode → SpscQueue
wrapped mode = record {
  mapped = true;
  ring = wrapped_ring;
  capacity = 16;
  mode = mode;
  dropped_count = 0;
  blocked_count = 0;
  head = 18446744073709551612;
  head_cache = 18446744073709551612;
  tail = 2;
  tail_cache = 2;
}

wrapped-Contains : (mode : Mode) → Contains 4 (wrapped mode) (first ∷ second ∷ [])
unfolding span Holds load wrapped_ring
wrapped-Contains mode = record {
  mapped_data = refl;
  capacity_pow = refl;
  capacity_small = omega arith;
  head_word = omega arith;
  head_sync = refl;
  tail_sync = refl;
  tail_end = refl;
  fits = omega arith;
  holds = (refl, (refl, tt));
}

abbrev empty_queue : SpscQueue
empty_queue = record (wrapped Mode.drop) { head = 2; head_cache = 2 }

empty_queue-Contains : Contains 4 empty_queue []
unfolding span Holds
empty_queue-Contains = record {
  mapped_data = refl;
  capacity_pow = refl;
  capacity_small = omega arith;
  head_word = omega arith;
  head_sync = refl;
  tail_sync = refl;
  tail_end = refl;
  fits = omega arith;
  holds = tt;
}

new_queue-IsFresh : IsFresh new_queue
new_queue-IsFresh = record {
  unmapped = refl;
  head_zero = refl;
  head_cache_zero = refl;
  tail_zero = refl;
  tail_cache_zero = refl;
}

init-Contains_example :
    (k : ℕ) × Contains k
      (record new_queue { mapped = true; capacity = 4096; mode = Mode.block; ring = λ _. 0 })
      []
    × ◌≡◌ {A = ℕ} 4096 4096
    × (Mode.block ≡ Mode.block)
    × (4096 ≡ 2 ^ k)
    × (4096 % 4096 ≡ 0)
unfolding init is_power_of_two
init-Contains_example =
    init-Contains new_queue 4096 (some (λ _. 0)) 4096 Mode.block new_queue-IsFresh (omega arith)
      made
  where
    made :
        init new_queue 4096 (some (λ _. 0)) 4096 Mode.block
        ≡ some
            (record new_queue { mapped = true; capacity = 4096; mode = Mode.block; ring = λ _. 0 })
    made = refl

reset-IsFresh_example :
    (IsFresh (reset (wrapped Mode.drop))
      × Renewed 4096 12 (λ _. 0) Mode.block (reset (wrapped Mode.drop)))
    × Renewed 4096 12 (λ _. 0) Mode.block (move_construct (wrapped Mode.drop)).1
    × Renewed 4096 12 (λ _. 0) Mode.block (move_assign empty_queue (wrapped Mode.drop)).1
    × Contains 4 (move_construct (wrapped Mode.drop)).0 (first ∷ second ∷ [])
    × Contains 4 (move_assign empty_queue (wrapped Mode.drop)).0 (first ∷ second ∷ [])
reset-IsFresh_example =
    reset-IsFresh (wrapped Mode.drop) empty_queue 4096 12 (λ _. 0) Mode.block
      (wrapped-Contains Mode.drop) (omega arith) refl

-- The third record fits once the first is gone.
enqueue_waits_example :
    (taken : ℕ) × (q' : SpscQueue) × (taken ≤ 2)
    × (enqueue
          (wrapped Mode.block)
          (6 ∷ 7 ∷ 8 ∷ 9 ∷ 10 ∷ 11 ∷ 12 ∷ 13 ∷ [])
          8
          (18446744073709551615 ∷ 2 ∷ [])
        ≡ some (EnqueueStatus.ok, q'))
    × Contains 4 q' (drop taken (first ∷ second ∷ []) ++ (third ∷ []))
unfolding span positions position_after
enqueue_waits_example =
    enqueue_waits third (first ∷ second ∷ []) [] (wrapped-Contains Mode.block) (omega arith) refl
      (omega arith)

abbrev script : List Op
script = Op.put third ∷ Op.get 3 0 ∷ Op.put third ∷ Op.get 2 2 ∷ Op.get 8 3 ∷ []

run_refines_example :
    run (wrapped Mode.drop) script ≡ fifo_run 16 18446744073709551612 (first ∷ second ∷ []) script
unfolding Protocol span
run_refines_example =
    run_refines script (first ∷ second ∷ []) (wrapped Mode.drop) (wrapped-Contains Mode.drop) refl
      (omega arith)
