-- ===== src/ConcurrentArena.antt =====
-- include/fpag/mem/concurrent_arena.h and src/mem/concurrent_arena.cc, one call at a time. A block
-- stands by its offset from `ptr_`. Whether `commit_pages` succeeds comes from the platform. None
-- is where a debug check on what the caller does stops the program; a check before an answer of
-- `nullptr` is left out, as in a release build.
pub mod Lanes
pub mod Threads
mod Tests
use fpag.Common.{
  ℕ, ◌+◌, ◌-◌, ◌*◌, ◌/◌, ◌%◌, ◌^◌, Bool, true, false, ◌&&◌, ◌||◌, ◌==◌, not, Option, none, some,
}
use fpag.Common.{if◌then◌else◌, ltb, leb, add64, sub64, mul64}
use fpag.MathUtil.{round_up}

pub record Lane : Type 0 where
  pub cursor : ℕ
  pub begin : ℕ
  pub end : ℕ

abbrev pub no_lane : Lane
no_lane = record { cursor = 0; begin = 0; end = 0 }

-- `mapped` says that `ptr_` is not null, and `lanes` are read below `lane_count`.
pub record ConcurrentArena : Type 0 where
  pub mapped : Bool
  pub capacity : ℕ
  pub lane_unit : ℕ
  pub pool_begin : ℕ
  pub lane_count : ℕ
  pub lanes : ℕ → Lane
  pub size : ℕ
  pub committed_size : ℕ

abbrev pub unmapped_arena : ConcurrentArena
unmapped_arena = record {
  mapped = false;
  capacity = 0;
  lane_unit = 1;
  pool_begin = 0;
  lane_count = 0;
  lanes = λ i. no_lane;
  size = 0;
  committed_size = 0;
}

-- The members that an arena takes from another, and what is left of the other.
abbrev pub take_region : ConcurrentArena → ConcurrentArena → ConcurrentArena
take_region other this = record this {
  mapped = other.mapped;
  capacity = other.capacity;
  lane_count = other.lane_count;
  lanes = other.lanes;
  size = other.size;
  committed_size = other.committed_size;
}

abbrev pub without_region : ConcurrentArena → ConcurrentArena
without_region other = take_region unmapped_arena other

unfoldable pub move_arena : ConcurrentArena → ConcurrentArena × ConcurrentArena
move_arena other = (take_region other unmapped_arena, without_region other)

unfoldable pub reset_arena : ConcurrentArena → Option ConcurrentArena
reset_arena a = if a.mapped then some (record (without_region a) { pool_begin = 0 }) else none

-- For two different arenas; the pages of `this` are freed first.
unfoldable pub assign_arena :
    ConcurrentArena → ConcurrentArena → Option (ConcurrentArena × ConcurrentArena)
unfolding reset_arena
assign_arena this other =
    let taken = λ (this' : ConcurrentArena). some (take_region other this', without_region other) in
    if this.mapped then elim (reset_arena this) [ none ↦ none | some r ↦ taken r ] else taken this

-- The second argument is whether `reserve_pages` answers a region.
unfoldable pub reserve_arena : ℕ → Bool → ℕ → ConcurrentArena → Option ConcurrentArena
reserve_arena page_size pages capacity a =
    if (a.mapped || not (capacity % page_size == 0)) || not pages
    then none
    else some (record a { mapped = true; capacity = capacity; size = 0; committed_size = 0 })

abbrev pub commit_chunk_bytes : ℕ
commit_chunk_bytes = 262144

-- Where the watermark goes that is asked for the first `end` bytes.
abbrev pub next_watermark : ℕ → ℕ → ℕ
next_watermark capacity end =
    let rounded = round_up end commit_chunk_bytes in
    if ltb capacity rounded then capacity else rounded

-- With one thread the exchange of the watermark does not fail.
unfoldable pub commit_chunks : Bool → ℕ → ConcurrentArena → Bool × ConcurrentArena
commit_chunks commits end a =
    if leb end a.committed_size
    then (true, a)
    else (if commits
        then (true, record a { committed_size = next_watermark a.capacity end })
        else (false, a))

-- The offset of the block, or none for a null pointer, and the arena that is left.
abbrev pub committed_block : ℕ → Bool × ConcurrentArena → Option ℕ × ConcurrentArena
committed_block at r = (if r.0 then some at else none, r.1)

-- `alloc`
unfoldable pub bump : Bool → ℕ → ℕ → ConcurrentArena → Option ℕ × ConcurrentArena
bump commits size align a =
    let aligned = round_up a.size align in
    if ltb a.capacity aligned || ltb (sub64 a.capacity aligned) size
    then (none, a)
    else committed_block aligned
        (commit_chunks commits (add64 aligned size) (record a { size = add64 aligned size }))

unfoldable pub alloc_exact : Bool → ℕ → ℕ → ConcurrentArena → Option (Option ℕ × ConcurrentArena)
alloc_exact commits size align a =
    if ((not a.mapped || align == 0) || not (size % align == 0))
      || (not (a.size % align == 0) || ltb (sub64 a.capacity a.size) size)
    then none
    else some (
        committed_block a.size
          (commit_chunks commits (add64 a.size size) (record a { size = add64 a.size size })))

-- One end of a slice: the room's share of `i` of `n` lanes, cut on the unit.
abbrev pub slice_end : ℕ → ℕ → ℕ → ℕ → ℕ
slice_end room n unit i = mul64 (mul64 room i / n / unit) unit

abbrev pub slice : ℕ → ℕ → ℕ → ℕ → Lane
slice room n unit i =
    let begin = slice_end room n unit i in
    let end = slice_end room n unit (add64 i 1) in
    record { cursor = begin; begin = begin; end = if ltb begin end then end else begin }

-- The bytes of the pool, and of the lanes below it.
abbrev pub pool_room : ℕ → ℕ → ℕ → ℕ
pool_room capacity unit pool_bytes =
    mul64 ((if ltb capacity pool_bytes then capacity else pool_bytes) / unit) unit

abbrev pub lane_room : ℕ → ℕ → ℕ → ℕ
lane_room capacity unit pool_bytes =
    mul64 (sub64 capacity (pool_room capacity unit pool_bytes) / unit) unit

abbrev pub with_lanes : ℕ → ℕ → ℕ → ConcurrentArena → ConcurrentArena
with_lanes n unit room a = record a {
  lane_unit = unit;
  pool_begin = room;
  lane_count = n;
  lanes = λ i. slice room n unit i;
  size = room;
}

unfoldable pub set_lanes : ℕ → ℕ → ℕ → ConcurrentArena → Option ConcurrentArena
set_lanes n unit pool_bytes a =
    if (not (a.lane_count == 0) || not (a.pool_begin == 0 && a.size == 0)) || (n == 0 || unit == 0)
    then none
    else some (with_lanes n unit (lane_room a.capacity unit pool_bytes) a)

abbrev pub with_lane : ℕ → Lane → ConcurrentArena → ConcurrentArena
with_lane i l a = record a { lanes = λ j. if j == i then l else a.lanes j }

-- The cursor moves before the pages are committed.
unfoldable pub alloc_from : Bool → ℕ → ℕ → ℕ → ConcurrentArena → Option (Option ℕ × ConcurrentArena)
alloc_from commits lane size align a =
    let l = a.lanes lane in
    let moved = with_lane lane (record l { cursor = add64 l.cursor size }) a in
    if ((not a.mapped || not (ltb lane a.lane_count)) || (align == 0))
      || (not (size % a.lane_unit == 0) || not (l.cursor % align == 0))
    then none
    else some (
        if ltb (sub64 l.end l.cursor) size
        then (none, a)
        else committed_block l.cursor (commit_chunks commits (add64 l.cursor size) moved))

-- An arena without lanes is one lane.
abbrev pub read_lane : ConcurrentArena → ℕ → ℕ → (Lane → ℕ) → Option ℕ
read_lane a lane whole read =
    if a.lane_count == 0
    then (if lane == 0 then some whole else none)
    else if ltb lane a.lane_count
    then some (read (a.lanes lane))
    else none

unfoldable pub lane_size : ConcurrentArena → ℕ → Option ℕ
lane_size a lane = read_lane a lane a.size (λ l. sub64 l.cursor l.begin)

unfoldable pub lane_begin : ConcurrentArena → ℕ → Option ℕ
lane_begin a lane = read_lane a lane 0 (λ l. l.begin)

unfoldable pub lane_end : ConcurrentArena → ℕ → Option ℕ
lane_end a lane = read_lane a lane a.size (λ l. l.end)

unfoldable pub pool_size : ConcurrentArena → ℕ
pool_size a = sub64 a.size a.pool_begin
