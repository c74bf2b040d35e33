-- ===== src/ConcurrentArena/Threads.antt =====
-- Several threads in `alloc`, `alloc_exact`, `alloc_from` and `commit_until` of
-- src/mem/concurrent_arena.cc, one atomic access to the offset or the watermark at a time. A lane
-- has one writer, so its cursor is read and moved in one turn. `commit_pages` makes bytes writable
-- or fails, at any turn.
mod Blocks
pub mod Separate
mod Sound
mod Turns
pub mod Safety
use fpag.Common.{
  ℕ, ◌+◌, ◌%◌, ◌^◌, ◌≤◌, ◌<◌, ◌≢◌, ◌≡◌, Bool, not, ◌&&◌, ◌||◌, ◌==◌, List, [], ◌∷◌, Option, none,
  some, true, if◌then◌else◌, ltb, leb, add64, sub64,
}
use fpag.MathUtil.{round_up}
use fpag.ConcurrentArena.{ConcurrentArena, Lane, next_watermark}

pub record Block : Type 0 where
  pub offset : ℕ
  pub size : ℕ
  pub align : ℕ

abbrev pub block_end : Block → ℕ
block_end b = add64 b.offset b.size

-- Where a thread stands: between calls, stopped by a debug check, at the head of the loop of `alloc`,
-- before its exchange of the offset, before the checks of `alloc_exact` on what it took, and in `commit_until` at its head, before the pages are opened and before its exchange
-- of the watermark.
pub data Stage : Type 0 where
  idle : Stage
  stopped : Stage
  bumping : ℕ → ℕ → Stage
  swapping : ℕ → ℕ → ℕ → Stage
  checking : Block → Stage
  committing : Block → Stage
  opening : Block → ℕ → Stage
  publishing : Block → ℕ → Stage

-- The atomics, the cursors of the lanes, the bytes that can be written, and the blocks that were
-- answered.
pub record Shared : Type 0 where
  pub size : ℕ
  pub committed_size : ℕ
  pub cursors : ℕ → ℕ
  pub writable : ℕ → Bool
  pub given : List Block
  pub stages : ℕ → Stage

abbrev pub set_stage : ℕ → Stage → Shared → Shared
set_stage i p s = record s { stages = λ j. if j == i then p else s.stages j }

-- The thread is answered the block.
abbrev pub give : ℕ → Block → Shared → Shared
give i b s = set_stage i idle (record s { given = b ∷ s.given })

abbrev pub move_cursor : ℕ → ℕ → Shared → Shared
move_cursor l c s = record s { cursors = λ m. if m == l then c else s.cursors m }

abbrev pub open_bytes : ℕ → ℕ → (ℕ → Bool) → ℕ → Bool
open_bytes from to writable x = if leb from x && ltb x to then true else writable x

abbrev pub pool_block : ℕ → ℕ → ℕ → Block
pool_block size k old = record { offset = round_up old (2 ^ k); size = size; align = 2 ^ k }

module _ (a : ConcurrentArena) (most : ℕ) where
  abbrev pub start_shared : Shared
  start_shared = record {
    size = a.size;
    committed_size = a.committed_size;
    cursors = λ l. (a.lanes l).cursor;
    writable = λ x. ltb x a.committed_size;
    given = [];
    stages = λ i. idle;
  }

  -- A request that does not fit is answered a null pointer.
  abbrev pub offset_loaded : ℕ → ℕ → ℕ → Stage
  offset_loaded size k old =
      let aligned = round_up old (2 ^ k) in
      if ltb a.capacity aligned || ltb (sub64 a.capacity aligned) size
      then idle
      else swapping size k old

  abbrev pub take_from : ℕ → ℕ → ℕ → ℕ → Shared → Shared
  take_from i l size align s =
      let cursor = s.cursors l in
      if not (cursor % align == 0)
      then set_stage i stopped s
      else if ltb (sub64 (a.lanes l).end cursor) size
      then s
      else set_stage i (committing (record { offset = cursor; size = size; align = align }))
          (move_cursor l (add64 cursor size) s)

  -- The two debug checks of `alloc_exact` behind its addition to the offset.
  abbrev pub checked : Block → Stage
  checked b =
      if not (b.offset % b.align == 0) || ltb (sub64 a.capacity b.offset) b.size
      then stopped
      else committing b

  abbrev pub watermark_loaded : ℕ → Block → Shared → Shared
  watermark_loaded i b s =
      if leb (block_end b) s.committed_size
      then give i b s
      else set_stage i (opening b s.committed_size) s

  abbrev pub target : Block → ℕ
  target b = next_watermark a.capacity (block_end b)

  -- Alignments of `alloc` are powers of two up to `most`. A caller of `alloc_exact` has made sure that
  -- there is room when it takes, for the takes that race with it too, as the comment in `alloc_exact`
  -- has it, and a caller of `alloc_from` names a lane that exists. A weak exchange can fail at any
  -- time.
  pub data Advance : Shared → Shared → Type 0 where
    begin :
        {s : Shared} (i size k : ℕ)
        → s.stages i ≡ idle
        → k ≤ most
        → Advance s (set_stage i (bumping size k) s)
    load :
        {s : Shared} (i size k : ℕ)
        → s.stages i ≡ bumping size k
        → Advance s (set_stage i (offset_loaded size k s.size) s)
    swap :
        {s : Shared} (i size k old : ℕ)
        → s.stages i ≡ swapping size k old
        → s.size ≡ old
        → Advance s (
            set_stage i
              (committing (pool_block size k old))
              (record s { size = block_end (pool_block size k old) }))
    miss :
        {s : Shared} (i size k old : ℕ)
        → s.stages i ≡ swapping size k old
        → Advance s (set_stage i (bumping size k) s)
    take_exact :
        {s : Shared} (i size align : ℕ)
        → s.stages i ≡ idle
        → s.size + size ≤ a.capacity
        → Advance s (
            set_stage i
              (checking (record { offset = s.size; size = size; align = align }))
              (record s { size = add64 s.size size }))
    check :
        {s : Shared} (i : ℕ) (b : Block)
        → s.stages i ≡ checking b
        → Advance s (set_stage i (checked b) s)
    take_lane :
        {s : Shared} (i l size align : ℕ)
        → s.stages i ≡ idle
        → l < a.lane_count
        → Advance s (take_from i l size align s)
    look :
        {s : Shared} (i : ℕ) (b : Block)
        → s.stages i ≡ committing b
        → Advance s (watermark_loaded i b s)
    unlock :
        {s : Shared} (i seen : ℕ) (b : Block)
        → s.stages i ≡ opening b seen
        → Advance s (
            set_stage i
              (publishing b seen)
              (record s { writable = open_bytes seen (target b) s.writable }))
    fail :
        {s : Shared} (i seen : ℕ) (b : Block)
        → s.stages i ≡ opening b seen
        → Advance s (set_stage i idle s)
    publish :
        {s : Shared} (i seen : ℕ) (b : Block)
        → s.stages i ≡ publishing b seen
        → s.committed_size ≡ seen
        → Advance s (give i b (record s { committed_size = target b }))
    stale :
        {s : Shared} (i seen : ℕ) (b : Block)
        → s.stages i ≡ publishing b seen
        → Advance s (set_stage i (committing b) s)

  pub data Runs : Shared → Type 0 where
    at_start : Runs start_shared
    turn : {s t : Shared} → Runs s → Advance s t → Runs t
