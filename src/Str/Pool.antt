-- ===== src/Str/Pool.antt =====
-- include/fpag/str/string_pool.h, src/str/string_pool.cc and string_pool_id.h, one thread at a time.
-- The bytes of the arena's region stand beside its members. Whether `commit_pages` succeeds comes
-- from the platform.
pub mod Blocks
pub mod Names
use fpag.Common.{
  ℕ, zero, suc, ◌+◌, ◌-◌, ◌*◌, ◌/◌, ◌%◌, ◌^◌, Bool, true, false, ◌||◌, ◌==◌, not, Option, none,
  some,
}
use fpag.Common.{
  List, [], ◌∷◌, Text, if◌then◌else◌, ltb, leb, length, add64, sub64, mul64, bit_or, bit_and,
}
use fpag.ConcurrentArena.{ConcurrentArena, unmapped_arena, bump}
use fpag.Str.Memory.{Memory, write, read, read_word, word_bytes}

-- The region that the constructor and `reset` reserve.
abbrev pub reserved_arena : ℕ → ConcurrentArena
reserved_arena capacity = record unmapped_arena { mapped = true; capacity = capacity }

abbrev pub length_prefix_bytes : ℕ
length_prefix_bytes = 4

abbrev pub empty_string_id : ℕ
empty_string_id = 4

pub record StringPool : Type 0 where
  pub memory : Memory
  pub arena : ConcurrentArena
  pub totals : ℕ
  pub capacity : ℕ

-- The name's length and its bytes, at the block that the arena has cut.
abbrev pub store_name : Text → ℕ → StringPool → StringPool
store_name t at p = record p {
  memory = write (at + length_prefix_bytes) t (write at (word_bytes (length t % 2 ^ 32)) p.memory);
  totals = add64 p.totals (bit_or (mul64 (length t) (2 ^ 32)) 1);
}

abbrev pub appended_at : Text → StringPool → Option ℕ × ConcurrentArena → Option (ℕ × StringPool)
appended_at t p (none, a) = none
appended_at t p (some at, a) =
    some ((at + length_prefix_bytes) % 2 ^ 32, store_name t at (record p { arena = a }))

-- None where the check that the pool has room stops the program.
unfoldable pub append : Bool → Text → StringPool → Option (ℕ × StringPool)
append commits [] p = some (empty_string_id, p)
append commits (c ∷ t) p =
    appended_at (c ∷ t) p (bump commits (length_prefix_bytes + length (c ∷ t)) 4 p.arena)

unfoldable pub length_at : StringPool → ℕ → ℕ
length_at p at = read_word (at - length_prefix_bytes) p.memory

-- `StringPool::get`
unfoldable pub get_name : StringPool → ℕ → Text
get_name p id = read id (length_at p id) p.memory

-- `StringPool::size` and `string_count`
unfoldable pub pool_size : StringPool → ℕ
pool_size p = p.totals / 2 ^ 32

unfoldable pub string_count : StringPool → ℕ
string_count p = bit_and p.totals (2 ^ 32 - 1)

abbrev pub stored_empty : StringPool → Option ℕ × ConcurrentArena → Option StringPool
stored_empty p (none, a) = none
stored_empty p (some at, a) =
    some (record p { memory = write at (word_bytes 0) p.memory; arena = a })

-- None where the check that the pool has room stops the program.
unfoldable pub reserve_empty_name : Bool → StringPool → Option StringPool
reserve_empty_name commits p = stored_empty p (bump commits length_prefix_bytes 4 p.arena)

-- The constructor; a fresh mapping reads as zero. None where a check stops the program.
unfoldable pub new_pool : ℕ → Bool → ℕ → Option StringPool
new_pool page_size commits capacity =
    if (capacity == 0 || ltb (2 ^ 32 - 1) capacity) || not (capacity % page_size == 0)
    then none
    else reserve_empty_name commits (record {
      memory = λ i. 0;
      arena = reserved_arena capacity;
      totals = 0;
      capacity = capacity;
    })

-- The moves; what is left of the other pool has no region.
abbrev pub no_pool : StringPool
no_pool = record { memory = λ i. 0; arena = unmapped_arena; totals = 0; capacity = 0 }

abbrev pub move_pool : StringPool → StringPool × StringPool
move_pool other = (other, no_pool)

-- For two different pools; the pages of `this` are freed first.
abbrev pub assign_pool : StringPool → StringPool → StringPool × StringPool
assign_pool this other = (other, no_pool)

-- `reset`, whose new region is the first again. None where a check stops the program.
unfoldable pub reset_pool : Bool → StringPool → Option StringPool
reset_pool commits p =
    reserve_empty_name commits
      (record p { memory = λ i. 0; arena = reserved_arena p.capacity; totals = 0 })
