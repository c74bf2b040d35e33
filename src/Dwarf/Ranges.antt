-- ===== src/Dwarf/Ranges.antt =====
-- Range lists and what a unit covers: `walk_ranges`, `walk_legacy_ranges` and `unit_covers` of
-- src/debug/dwarf/reader.cc.
-- `visit` is a test that says whether the walk goes on. A walk answers whether `visit` has stopped
-- it; a walk that is refused has not been stopped.
pub mod Safety
use fpag.Common.{ℕ, zero, suc, ◌-◌, Bool, true, false, not, ◌&&◌, Option, none, some, List, length}
use fpag.Common.{ltb, leb, ◌==◌, if◌then◌else◌, add64, not64}
use fpag.Dwarf.Constants.{
  dw_rle_end_of_list, dw_rle_base_addressx, dw_rle_startx_endx, dw_rle_startx_length,
  dw_rle_offset_pair, dw_rle_base_address, dw_rle_start_end, dw_rle_start_length,
}
use fpag.Dwarf.Cursor.{Outcome, ok, refused, fault, stuck, Reader, ◌>>=◌, ◌>>◌, pure, refuse}
use fpag.Dwarf.Cursor.{SectionView, seek, fixed, uleb, on_section, with_fuel}
use fpag.Dwarf.Forms.{Tables, Text, indexed_address}

-- One compilation unit. `files` is the file table.
pub record CompilationUnit : Type 0 where
  pub line_program : ℕ
  pub ranges : ℕ
  pub low_pc : ℕ
  pub high_pc : ℕ
  pub addr_base : ℕ
  pub str_offsets_base : ℕ
  pub address_size : ℕ
  pub offset_high_pc : Bool
  pub indexed_addresses : Bool
  pub has_line_program : Bool
  pub has_ranges : Bool
  pub legacy_ranges : Bool
  pub files : List Text

-- What one entry does: it moves the base, or names a range.
pub data Entry : Type 0 where
  rebase : ℕ → Entry
  range : ℕ → ℕ → Entry

-- `indexed_address`, where an index that names nothing ends the walk.
unfoldable pub named_address : Tables → ℕ → Reader ℕ
unfolding indexed_address
named_address tables index =
    indexed_address tables index >>= λ found. elim found [ none ↦ refuse | some a ↦ pure a ]

-- The `switch` over the kinds of entry.
unfoldable pub read_entry : Tables → ℕ → ℕ → Reader Entry
unfolding named_address
read_entry tables address_base entry =
    if entry == dw_rle_base_addressx
    then (uleb >>= λ index. named_address tables index >>= λ a. pure (Entry.rebase a))
    else if entry == dw_rle_base_address
    then (fixed tables.address_size >>= λ a. pure (Entry.rebase a))
    else if entry == dw_rle_offset_pair
    then (uleb >>= λ start_offset. uleb >>= λ end_offset.
        pure (Entry.range (add64 address_base start_offset) (add64 address_base end_offset)))
    else if entry == dw_rle_startx_length
    then (uleb >>= λ index. uleb >>= λ length.
        named_address tables index >>= λ start. pure (Entry.range start (add64 start length)))
    else if entry == dw_rle_startx_endx
    then (uleb >>= λ index. named_address tables index >>= λ start.
        uleb >>= λ index'. named_address tables index' >>= λ end. pure (Entry.range start end))
    else if entry == dw_rle_start_length
    then (fixed tables.address_size >>= λ start.
        uleb >>= λ length. pure (Entry.range start (add64 start length)))
    else if entry == dw_rle_start_end
    then (fixed tables.address_size >>= λ start.
        fixed tables.address_size >>= λ end. pure (Entry.range start end))
    else refuse

unfoldable pub ranges_loop : ℕ → Tables → ℕ → (ℕ → ℕ → Bool) → Reader Bool
unfolding read_entry
ranges_loop zero tables address_base visit = λ c. stuck
ranges_loop (suc fuel) tables address_base visit = uleb >>= λ entry.
    if entry == dw_rle_end_of_list
    then pure false
    else read_entry tables address_base entry >>= λ read. elim read [
      | rebase base ↦ ranges_loop fuel tables base visit
      | range start end ↦
          let rest = ranges_loop fuel tables address_base visit in
          if visit start end then rest else pure true
    ]

unfoldable pub walk_ranges : Tables → ℕ → (ℕ → ℕ → Bool) → Reader Bool
unfolding ranges_loop with_fuel
walk_ranges tables base visit = with_fuel (λ fuel. ranges_loop fuel tables base visit)

abbrev pub all_ones : ℕ → ℕ
all_ones address_size = if address_size == 8 then not64 0 else 0xFFFFFFFF

-- `address_base` is read and goes into no range.
unfoldable pub legacy_loop : ℕ → ℕ → ℕ → (ℕ → ℕ → Bool) → Reader Bool
legacy_loop zero address_size address_base visit = λ c. stuck
legacy_loop (suc fuel) address_size address_base visit = fixed address_size >>= λ start.
    if start == all_ones address_size
    then (fixed address_size >>= λ base. legacy_loop fuel address_size base visit)
    else if start == all_ones address_size - 1
    then pure false
    else fixed address_size >>= λ end.
        let rest = legacy_loop fuel address_size address_base visit in
        if visit start end then rest else pure true

unfoldable pub walk_legacy_ranges : ℕ → ℕ → (ℕ → ℕ → Bool) → Reader Bool
unfolding legacy_loop with_fuel
walk_legacy_ranges address_size base visit =
    with_fuel (λ fuel. legacy_loop fuel address_size base visit)

-- The visitor of `unit_covers`: it goes on past a range that does not cover the address.
abbrev pub passes : ℕ → ℕ → ℕ → Bool
passes link_address start end = not (leb start link_address && ltb link_address end)

-- The list of ranges of a unit, from its offset.
unfoldable pub unit_walk : Tables → CompilationUnit → ℕ → Reader Bool
unfolding walk_ranges walk_legacy_ranges
unit_walk tables unit link_address =
    if unit.legacy_ranges
    then walk_legacy_ranges unit.address_size unit.low_pc (passes link_address)
    else walk_ranges
        (record tables { address_size = unit.address_size; addr_base = unit.addr_base }) unit.low_pc
        (passes link_address)

unfoldable pub list_section : Tables → CompilationUnit → SectionView
list_section tables unit = if unit.legacy_ranges then tables.debug_ranges else tables.debug_rnglists

abbrev pub or_false : Option Bool → Bool
or_false none = false
or_false (some b) = b

-- The cursor at hand stays where it is.
unfoldable pub unit_covers : Tables → CompilationUnit → ℕ → Reader Bool
unfolding unit_walk list_section on_section
unit_covers tables unit link_address =
    if unit.has_ranges
    then if leb (length (list_section tables unit)) unit.ranges
      then pure false
      else (on_section (list_section tables unit)
            (seek unit.ranges >> unit_walk tables unit link_address)
          >>= λ covered. pure (or_false covered))
    else if unit.high_pc == 0
    then pure false
    else let end = if unit.offset_high_pc then add64 unit.low_pc unit.high_pc else unit.high_pc in
      pure (leb unit.low_pc link_address && ltb link_address end)
