-- ===== src/Arena.antt =====
-- include/fpag/mem/arena.h and src/mem/arena.cc: a region of reserved pages, from which blocks are
-- cut one behind the other. A pointer into the region is its offset. The page size, and whether
-- `commit_pages` succeeds, come from the platform. FPAG_DCHECK is compiled out of release builds.
mod Tests
pub mod Blocks
use fpag.Common.{ℕ, Bool, true, false, Option, none, some, ltb, leb, if◌then◌else◌, add64, sub64}
use fpag.MathUtil.{round_up}

-- `reserved` says that `ptr_` is not null.
pub record Arena : Type 0 where
  pub reserved : Bool
  pub capacity : ℕ
  pub size : ℕ
  pub committed_size : ℕ

abbrev pub new_arena : Arena
new_arena = record { reserved = false; capacity = 0; size = 0; committed_size = 0 }

-- The new arena, and what is left of the other.
unfoldable pub move_construct : Arena → Arena × Arena
move_construct other = (other, new_arena)

unfoldable pub reset : Arena → Arena
reset a = new_arena

-- `*this = std::move(other)` for two different arenas; the pages of `this` are freed first.
unfoldable pub move_assign : Arena → Arena → Arena × Arena
unfolding reset
move_assign this other =
    let this' = if this.reserved then reset this else this in
    (
      record this' {
        reserved = other.reserved;
        capacity = other.capacity;
        size = other.size;
        committed_size = other.committed_size;
      },
      new_arena,
    )

-- The first argument is whether `reserve_pages` answers pages.
unfoldable pub reserve : Bool → Arena → ℕ → Arena
reserve pages a capacity = record a { reserved = pages; capacity = capacity }

unfoldable pub commit_until : ℕ → Bool → Arena → ℕ → Arena
commit_until page_size commits a end_offset =
    let rounded = round_up end_offset page_size in
    let target_end = if ltb a.capacity rounded then a.capacity else rounded in
    if leb end_offset a.committed_size
    then a
    else if commits
    then record a { committed_size = target_end }
    else a

unfoldable pub alloc : ℕ → Bool → Arena → ℕ → ℕ → Option ℕ × Arena
unfolding commit_until
alloc page_size commits a size align =
    let current_offset = round_up a.size align in
    let next_offset = add64 current_offset size in
    if ltb (sub64 a.capacity current_offset) size then (none, a) else (
      some current_offset,
      record (commit_until page_size commits a next_offset) { size = next_offset },
    )
