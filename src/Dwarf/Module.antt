-- ===== src/Dwarf/Module.antt =====
-- The units of a module and the lookups in them: `read_compilation_units`, `source_at` and
-- `function_at` of src/debug/dwarf/module.cc. The object file around the sections is not modelled.
pub mod Safety
pub mod Functions
use fpag.Common.{ℕ, zero, suc, Bool, true, false, Option, none, some, List, [], ◌∷◌, ◌++◌, length}
use fpag.Common.{ltb, leb, ◌==◌, if◌then◌else◌, add64}
use fpag.Dwarf.Cursor.{SectionView, stuck, Reader, ◌>>=◌, ◌>>◌, pure, seek, with_fuel}
use fpag.Dwarf.Forms.{Text, Tables}
use fpag.Dwarf.Ranges.{CompilationUnit, unit_covers}
use fpag.Dwarf.Line.{SourcePosition, line_position}
use fpag.Dwarf.Unit.{or_return, read_unit}

abbrev pub new_unit : CompilationUnit
new_unit = record {
  line_program = 0;
  ranges = 0;
  low_pc = 0;
  high_pc = 0;
  addr_base = 0;
  str_offsets_base = 0;
  address_size = 8;
  offset_high_pc = false;
  indexed_addresses = false;
  has_line_program = false;
  has_ranges = false;
  legacy_ranges = false;
  files = [];
}

-- Only a unit with a line program is kept.
abbrev pub keep : CompilationUnit → List CompilationUnit → List CompilationUnit
keep unit units = if unit.has_line_program then units ++ (unit ∷ []) else units

-- The cursor is on the section of units, whose size is the first number after the fuel.
unfoldable pub units_loop :
    ℕ → ℕ → SectionView → Tables → ℕ → List CompilationUnit → Reader (List CompilationUnit)
unfolding or_return
units_loop zero size abbrev_section tables offset units = λ c. stuck
units_loop (suc fuel) size abbrev_section tables offset units =
    if ltb offset size
    then or_return (seek offset >> read_unit abbrev_section tables new_unit) units
        (λ (unit, next_offset).
          if leb next_offset offset
          then pure units
          else units_loop fuel size abbrev_section tables next_offset (keep unit units))
    else pure units

-- A section that is empty is not present.
unfoldable pub read_compilation_units :
    SectionView → SectionView → Tables → Reader (List CompilationUnit)
unfolding units_loop with_fuel
read_compilation_units info abbrev_section tables =
    if length info == 0
    then pure []
    else if length abbrev_section == 0
    then pure []
    else with_fuel (λ fuel. units_loop fuel (length info) abbrev_section tables 0 [])

-- The first unit that covers the address and knows its position.
unfoldable pub source_at : Tables → List CompilationUnit → ℕ → Reader (Option SourcePosition)
source_at tables [] link_address = pure none
source_at tables (unit ∷ units) link_address = unit_covers tables unit link_address >>= λ covered.
    if covered
    then (line_position tables unit link_address >>= λ found. elim found [
      | none ↦ source_at tables units link_address
      | some position ↦ pure (some position)
    ])
    else source_at tables units link_address

pub record Function : Type 0 where
  pub address : ℕ
  pub size : ℕ
  pub name : Text

-- `std::upper_bound` and `std::prev` on the functions in order of their addresses: the last one
-- that starts at or before the address. The second argument is the last one so far.
unfoldable pub last_at : ℕ → Option Function → List Function → Option Function
last_at link_address last [] = last
last_at link_address last (f ∷ functions) =
    let rest = last_at link_address (some f) functions in
    if ltb link_address f.address then last else rest

unfoldable pub function_at : List Function → ℕ → Option Text
unfolding last_at
function_at functions link_address = elim (last_at link_address none functions) [
  | none ↦ none
  | some f ↦ if leb (add64 f.address f.size) link_address then none else some f.name
]
