-- ===== src/Dwarf/Ranges/Safety.antt =====
-- How the walks of range lists in src/debug/dwarf/reader.cc move a cursor.
use fpag.Common.{
  ℕ, zero, suc, ◌-◌, Bool, Bool-cases, inl, inr, true, false, arith, ◌==◌, leb, ltb, ◌&&◌, length,
  IsWord, if◌then◌else◌, add64,
}
use fpag.Dwarf.Cursor.{Cursor, Reader, fixed, seek, ◌>>◌}
use fpag.Dwarf.Cursor.Safety.{
  IsInside, Post, IsSafe, >>=-IsSafe, pure-IsSafe, refuse-IsSafe, if-IsSafe, IsSafe-weaken,
  fixed-IsSafe, uleb-IsSafe,
}
use fpag.Dwarf.Cursor.Fuel.{
  IsSafeIn, IsSafe-IsSafeIn, >>=-IsSafeIn, if-IsSafeIn, zero-IsSafeIn, with_fuel-IsSafe,
  seek-IsSafeOn, on_section-IsSafe,
}
use fpag.Dwarf.Forms.{Tables}
use fpag.Dwarf.Forms.Safety.{IsSized, Option-IsSafe, indexed_address-IsSafe}
use fpag.Dwarf.Ranges.{
  Entry, rebase, range, CompilationUnit, named_address, read_entry, ranges_loop, walk_ranges,
}
use fpag.Dwarf.Ranges.{
  all_ones, legacy_loop, walk_legacy_ranges, unit_walk, list_section, unit_covers, passes, or_false,
}
use fpag.Dwarf.Constants.{
  dw_rle_end_of_list, dw_rle_base_addressx, dw_rle_startx_endx, dw_rle_startx_length,
  dw_rle_offset_pair, dw_rle_base_address, dw_rle_start_end, dw_rle_start_length,
}

named_address-IsSafe :
    (tables : Tables) (index : ℕ) → IsSized tables → IsSafe 0 (named_address tables index)
unfolding named_address
named_address-IsSafe tables index s =
    >>=-IsSafe 0 0 (omega arith) (indexed_address-IsSafe tables index s)
      λ found. Option-IsSafe found (refuse-IsSafe 0) λ a. pure-IsSafe a

read_entry-IsSafe :
    (tables : Tables) (base entry : ℕ) → IsSized tables → IsSafe 0 (read_entry tables base entry)
unfolding read_entry
read_entry-IsSafe tables base entry s =
    let width =
      IsSafe-weaken tables.address_size {m = 0} (omega arith) (fixed-IsSafe tables.address_size) in
    let number = IsSafe-weaken 1 {m = 0} (omega arith) uleb-IsSafe in
    if-IsSafe (entry == dw_rle_base_addressx)
      (>>=-IsSafe 0 0 (omega arith) number λ index.
        >>=-IsSafe 0 0 (omega arith) (named_address-IsSafe tables index s)
          λ a. pure-IsSafe (Entry.rebase a))
      (if-IsSafe (entry == dw_rle_base_address)
        (>>=-IsSafe 0 0 (omega arith) width λ a. pure-IsSafe (Entry.rebase a))
        (if-IsSafe (entry == dw_rle_offset_pair)
          (>>=-IsSafe 0 0 (omega arith) number λ start.
            >>=-IsSafe 0 0 (omega arith) number
              λ end. pure-IsSafe (Entry.range (add64 base start) (add64 base end)))
          (if-IsSafe (entry == dw_rle_startx_length)
            (>>=-IsSafe 0 0 (omega arith) number λ index.
              >>=-IsSafe 0 0 (omega arith) number λ length.
                >>=-IsSafe 0 0 (omega arith) (named_address-IsSafe tables index s)
                  λ start. pure-IsSafe (Entry.range start (add64 start length)))
            (if-IsSafe (entry == dw_rle_startx_endx)
              (>>=-IsSafe 0 0 (omega arith) number λ index.
                >>=-IsSafe 0 0 (omega arith) (named_address-IsSafe tables index s) λ start.
                  >>=-IsSafe 0 0 (omega arith) number λ index'.
                    >>=-IsSafe 0 0 (omega arith) (named_address-IsSafe tables index' s)
                      λ end. pure-IsSafe (Entry.range start end))
              (if-IsSafe (entry == dw_rle_start_length)
                (>>=-IsSafe 0 0 (omega arith) width λ start.
                  >>=-IsSafe 0 0 (omega arith) number
                    λ length. pure-IsSafe (Entry.range start (add64 start length)))
                (if-IsSafe (entry == dw_rle_start_end)
                  (>>=-IsSafe 0 0 (omega arith) width λ start.
                    >>=-IsSafe 0 0 (omega arith) width λ end. pure-IsSafe (Entry.range start end))
                  (refuse-IsSafe 0)))))))

entry-IsSafeIn :
    {fuel : ℕ} (e : Entry) {f : ℕ → Reader Bool} {g : ℕ → ℕ → Reader Bool}
    → ((base : ℕ) → IsSafeIn fuel 0 (f base))
    → ((start end : ℕ) → IsSafeIn fuel 0 (g start end))
    → IsSafeIn fuel 0 (elim e [ rebase base ↦ f base | range start end ↦ g start end ])
entry-IsSafeIn (Entry.rebase base) p q = p base
entry-IsSafeIn (Entry.range start end) p q = q start end

ranges_loop-IsSafe :
    (fuel : ℕ) (tables : Tables) (base : ℕ) (visit : ℕ → ℕ → Bool)
    → IsSized tables
    → IsSafeIn fuel 0 (ranges_loop fuel tables base visit)
unfolding ranges_loop
ranges_loop-IsSafe zero tables base visit s = zero-IsSafeIn 0 _
ranges_loop-IsSafe (suc fuel) tables base visit s =
    >>=-IsSafeIn fuel 1 0 (omega arith) (omega arith) uleb-IsSafe λ entry.
      if-IsSafeIn (entry == dw_rle_end_of_list) (IsSafe-IsSafeIn (pure-IsSafe false)) (
        >>=-IsSafeIn fuel 0 0 (omega arith) (omega arith) (read_entry-IsSafe tables base entry s)
          λ read.
            entry-IsSafeIn read (λ base'. ranges_loop-IsSafe fuel tables base' visit s)
              λ start end.
                if-IsSafeIn (visit start end) (ranges_loop-IsSafe fuel tables base visit s)
                  (IsSafe-IsSafeIn (pure-IsSafe true)))

pub walk_ranges-IsSafe :
    (tables : Tables) (base : ℕ) (visit : ℕ → ℕ → Bool)
    → IsSized tables
    → IsSafe 0 (walk_ranges tables base visit)
unfolding walk_ranges
walk_ranges-IsSafe tables base visit s =
    with_fuel-IsSafe 0 (λ fuel. ranges_loop fuel tables base visit)
      λ fuel. ranges_loop-IsSafe fuel tables base visit s

-- A read of a fixed width that succeeds takes a byte at least: a width of zero is refused.
fixed-IsSafe_pos : (n : ℕ) → IsSafe 1 (fixed n)
unfolding fixed
fixed-IsSafe_pos zero = refuse-IsSafe 1
fixed-IsSafe_pos (suc n) = IsSafe-weaken (suc n) (omega arith) (fixed-IsSafe (suc n))

legacy_loop-IsSafe :
    (fuel address_size base : ℕ) (visit : ℕ → ℕ → Bool)
    → IsSafeIn fuel 0 (legacy_loop fuel address_size base visit)
unfolding legacy_loop
legacy_loop-IsSafe zero address_size base visit = zero-IsSafeIn 0 _
legacy_loop-IsSafe (suc fuel) address_size base visit =
    let width = IsSafe-weaken address_size {m = 0} (omega arith) (fixed-IsSafe address_size) in
    >>=-IsSafeIn fuel 1 0 (omega arith) (omega arith) (fixed-IsSafe_pos address_size) λ start.
      if-IsSafeIn (start == all_ones address_size)
        (>>=-IsSafeIn fuel 0 0 (omega arith) (omega arith) width
          λ base'. legacy_loop-IsSafe fuel address_size base' visit)
        (if-IsSafeIn (start == all_ones address_size - 1) (IsSafe-IsSafeIn (pure-IsSafe false)) (
          >>=-IsSafeIn fuel 0 0 (omega arith) (omega arith) width λ end.
            if-IsSafeIn (visit start end) (legacy_loop-IsSafe fuel address_size base visit)
              (IsSafe-IsSafeIn (pure-IsSafe true))))

pub walk_legacy_ranges-IsSafe :
    (address_size base : ℕ) (visit : ℕ → ℕ → Bool)
    → IsSafe 0 (walk_legacy_ranges address_size base visit)
unfolding walk_legacy_ranges
walk_legacy_ranges-IsSafe address_size base visit =
    with_fuel-IsSafe 0 (λ fuel. legacy_loop fuel address_size base visit)
      λ fuel. legacy_loop-IsSafe fuel address_size base visit

unit_walk-IsSafe :
    (tables : Tables) (unit : CompilationUnit) (link_address : ℕ)
    → IsSized tables
    → IsSafe 0 (unit_walk tables unit link_address)
unfolding unit_walk
unit_walk-IsSafe tables unit link_address s =
    if-IsSafe unit.legacy_ranges
      (walk_legacy_ranges-IsSafe unit.address_size unit.low_pc (passes link_address))
      (walk_ranges-IsSafe
        (record tables { address_size = unit.address_size; addr_base = unit.addr_base }) unit.low_pc
        (passes link_address) s)

list_section-IsWord :
    (tables : Tables) (unit : CompilationUnit)
    → IsSized tables
    → IsWord (length (list_section tables unit))
unfolding list_section
list_section-IsWord tables unit s = elim (Bool-cases unit.legacy_ranges) [
  | inl old ↦ rw old s.6
  | inr new ↦ rw new s.5
]

unit_covers-IsSafe :
    (tables : Tables) (unit : CompilationUnit) (link_address : ℕ)
    → IsSized tables
    → IsSafe 0 (unit_covers tables unit link_address)
unfolding unit_covers
unit_covers-IsSafe tables unit link_address s =
    let end = if unit.offset_high_pc then add64 unit.low_pc unit.high_pc else unit.high_pc in
    if-IsSafe unit.has_ranges
      (if-IsSafe (leb (length (list_section tables unit)) unit.ranges) (pure-IsSafe false) (
        >>=-IsSafe 0 0 (omega arith)
          (on_section-IsSafe (list_section tables unit)
            (seek unit.ranges >> unit_walk tables unit link_address)
            (seek-IsSafeOn (list_section tables unit) unit.ranges 0
              (list_section-IsWord tables unit s) (unit_walk-IsSafe tables unit link_address s)))
          λ covered. pure-IsSafe (or_false covered)))
      (if-IsSafe (unit.high_pc == 0) (pure-IsSafe false)
        (pure-IsSafe (leb unit.low_pc link_address && ltb link_address end)))

-- `unit_covers` looks at no byte outside the section of the unit's range list and always ends,
-- whatever the unit and the bytes are, if the sizes of the sections are words; the cursor at hand
-- is a valid one.
pub unit_covers_bounded :
    (tables : Tables) (unit : CompilationUnit) (link_address : ℕ) (c : Cursor)
    → IsSized tables
    → IsInside c
    → Post 0 c (unit_covers tables unit link_address c)
unit_covers_bounded tables unit link_address c s i =
    (unit_covers-IsSafe tables unit link_address s).apply c i
