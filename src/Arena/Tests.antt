-- ===== src/Arena/Tests.antt =====
-- Examples for the arena.
use fpag.Common.{◌+◌, ◌%◌, ◌≤◌, ◌≡◌, refl, arith, true, false, none, some}
use fpag.MathUtil.{round_up}
use fpag.Arena.{Arena, alloc}
use fpag.Arena.Blocks.{IsValid, alloc_block, alloc_full}

-- Two pages of 16 bytes, one of them committed, and 5 bytes handed out.
abbrev small : Arena
small = record { reserved = true; capacity = 32; size = 5; committed_size = 16 }

small-IsValid : IsValid 4 small
small-IsValid = record {
  page_small = omega arith;
  capacity_word = omega arith;
  whole = refl;
  size_committed = omega arith;
  committed_reserved = omega arith;
}

alloc_block_example :
    (a' : Arena) × (alloc 16 true small 12 8 ≡ (some (round_up 5 8), a'))
    × (round_up 5 8 % 8 ≡ 0)
    × (5 ≤ round_up 5 8)
    × (a'.size ≡ round_up 5 8 + 12)
    × IsValid 4 a'
unfolding round_up
alloc_block_example = alloc_block 3 12 small-IsValid (omega arith) refl (omega arith)

alloc_full_example : alloc 16 true small 25 8 ≡ (none, small)
unfolding round_up
alloc_full_example = alloc_full 3 25 small-IsValid true (omega arith) refl (omega arith)

-- An alignment above the capacity: the offset is past the region, and the block is handed out.
alloc_outside :
    alloc 16 true small 4 64
    ≡ (some 64, record { reserved = true; capacity = 32; size = 68; committed_size = 32 })
unfolding alloc round_up
alloc_outside = refl

-- A block that the platform has not committed is handed out.
alloc_uncommitted : alloc 16 false small 12 8 ≡ (some 8, record small { size = 20 })
unfolding alloc round_up
alloc_uncommitted = refl
