-- ===== src/Dwarf/Unit.antt =====
-- Compilation units: `read_unit` of src/debug/dwarf/reader.cc. Once the length of a unit is known,
-- a part that cannot be read ends the reading with the unit as far as it is; the caller goes on at
-- the next offset. The caller passes a fresh unit, so that a read of an address that fails, and
-- writes 0, leaves the 0 that is there.
pub mod Safety
use fpag.Common.{
  ℕ, ◌+◌, Bool, true, false, not, ◌||◌, ◌&&◌, Option, none, some, List, [], ◌∷◌, ◌++◌,
}
use fpag.Common.{ltb, leb, ◌==◌, if◌then◌else◌, add64, length}
use fpag.Dwarf.Constants.{
  dw_ut_compile, dw_tag_compile_unit, dw_at_name, dw_at_comp_dir, dw_at_stmt_list, dw_at_low_pc,
  dw_at_high_pc, dw_at_ranges, dw_at_addr_base, dw_at_str_offsets_base, dw_at_rnglists_base,
  dw_form_addr, dw_form_rnglistx, max_tracked_attributes,
}
use fpag.Dwarf.Cursor.{
  SectionView, ok, refused, fault, stuck, Reader, ◌>>=◌, ◌>>◌, pure, here, seek,
}
use fpag.Dwarf.Cursor.{fixed, uleb, on_section}
use fpag.Dwarf.Forms.{Text, Tables, AbbreviationAttribute, Abbreviation, FormValue, is_empty}
use fpag.Dwarf.Forms.{read_abbreviation, read_form, indexed_offset, indexed_string, indexed_address}
use fpag.Dwarf.Ranges.{CompilationUnit}
use fpag.Dwarf.LineHeader.{read_unit_length, read_line_header}

-- An attribute that this reader wants.
pub record Found : Type 0 where
  pub attribute : ℕ
  pub form : ℕ
  pub value : ℕ
  pub text : Option Text
  pub indexed : Bool

-- `if (!m) return b;`
unfoldable pub or_return {ℓ κ} :
    {A : Type ℓ} {B : Type κ} → Reader A → B → (A → Reader B) → Reader B
or_return m b f c = elim (m c) [
  | ok a c' ↦ f a c'
  | refused ↦ ok b c
  | fault ↦ fault
  | stuck ↦ stuck
]

abbrev pub is_wanted : ℕ → Bool
is_wanted a =
    a == dw_at_name
    || (a == dw_at_comp_dir
        || (a == dw_at_stmt_list
            || (a == dw_at_low_pc
                || (a == dw_at_high_pc
                    || (a == dw_at_ranges
                        || (a == dw_at_addr_base
                            || (a == dw_at_str_offsets_base || a == dw_at_rnglists_base)))))))

abbrev pub new_found : AbbreviationAttribute → FormValue → Found
new_found declaration value = record {
  attribute = declaration.attribute;
  form = declaration.form;
  value = value.value;
  text = value.text;
  indexed = value.indexed;
}

unfoldable pub track : AbbreviationAttribute → FormValue → List Found → List Found
track declaration value found =
    if is_wanted declaration.attribute && ltb (length found) max_tracked_attributes
    then found ++ (new_found declaration value ∷ [])
    else found

-- The attributes of the entry in order, up to one that cannot be read.
unfoldable pub read_found : Tables → List AbbreviationAttribute → List Found → Reader (List Found)
unfolding or_return track
read_found tables [] found = pure found
read_found tables (declaration ∷ declarations) found =
    or_return (read_form declaration.form tables declaration) found
      λ value. read_found tables declarations (track declaration value found)

unfoldable pub lookup : ℕ → List Found → Option Found
lookup attribute [] = none
lookup attribute (f ∷ found) =
    let rest = lookup attribute found in if f.attribute == attribute then some f else rest

abbrev pub value_or : ℕ → Option Found → ℕ
value_or d none = d
value_or d (some f) = f.value

unfoldable pub set_bases : List Found → CompilationUnit → CompilationUnit
unfolding lookup
set_bases found unit = record unit {
  addr_base = value_or unit.addr_base (lookup dw_at_addr_base found);
  str_offsets_base = value_or unit.str_offsets_base (lookup dw_at_str_offsets_base found);
}

unfoldable pub base_tables : List Found → CompilationUnit → Tables → Tables
unfolding lookup
base_tables found unit tables = record tables {
  str_offsets_base = value_or tables.str_offsets_base (lookup dw_at_str_offsets_base found);
  addr_base = unit.addr_base;
}

-- The address that an attribute names, `none` if an index names nothing.
unfoldable pub found_address : Tables → Found → Reader (Option ℕ)
found_address tables f = if f.indexed then indexed_address tables f.value else pure (some f.value)

-- The unit, and whether the reading goes on.
unfoldable pub set_low : Tables → List Found → CompilationUnit → Reader (Bool × CompilationUnit)
unfolding lookup found_address
set_low tables found unit = elim (lookup dw_at_low_pc found) [
  | none ↦ pure (true, unit)
  | some low ↦
      (found_address tables low >>= λ address. elim address [
        | none ↦ pure (false, record unit { indexed_addresses = low.indexed })
        | some a ↦ pure (true, record unit { indexed_addresses = low.indexed; low_pc = a })
      ])
]

abbrev pub is_offset : Found → Bool
is_offset high = not high.indexed && not (high.form == dw_form_addr)

unfoldable pub set_high : Tables → List Found → CompilationUnit → Reader (Bool × CompilationUnit)
unfolding lookup found_address
set_high tables found unit = elim (lookup dw_at_high_pc found) [
  | none ↦ pure (true, unit)
  | some high ↦
      (found_address tables high >>= λ address. elim address [
        | none ↦ pure (false, record unit { offset_high_pc = is_offset high })
        | some a ↦ pure (true, record unit { offset_high_pc = is_offset high; high_pc = a })
      ])
]

unfoldable pub set_ranges : ℕ → Tables → List Found → CompilationUnit → Reader CompilationUnit
unfolding lookup
set_ranges version tables found unit = elim (lookup dw_at_ranges found) [
  | none ↦ pure unit
  | some ranges ↦
      let base = value_or 0 (lookup dw_at_rnglists_base found) in
      if ranges.form == dw_form_rnglistx
      then (indexed_offset tables.debug_rnglists base ranges.value 4 >>= λ offset.
          pure (record unit { has_ranges = true; ranges = add64 offset base }))
      else pure
          (record unit { has_ranges = true; ranges = ranges.value; legacy_ranges = ltb version 5 })
]

-- The text of an attribute, where an index is looked up only if there is no text.
unfoldable pub found_text : Tables → Option Found → Reader (Option Text)
found_text tables none = pure none
found_text tables (some f) = elim f.text [
  | some text ↦ pure (some text)
  | none ↦ if f.indexed then indexed_string tables f.value else pure none
]

abbrev pub text_or : Text → Option Text → Text
text_or d none = d
text_or d (some text) = text

-- Before version 5 index 0 stands for the name of the unit.
unfoldable pub name_first : ℕ → Text → List Text → List Text
name_first version name [] = []
name_first version name (first ∷ files) =
    if ltb version 5 && not (is_empty name) then name ∷ files else first ∷ files

abbrev pub has_program : Tables → Option Found → Bool
has_program tables none = false
has_program tables (some f) = not (leb (length tables.debug_line) f.value)

unfoldable pub set_files : ℕ → Tables → Text → CompilationUnit → Reader CompilationUnit
unfolding name_first on_section
set_files version tables name unit =
    on_section tables.debug_line (seek unit.line_program >> read_line_header tables true)
    >>= λ read. elim read [
      | none ↦ pure (record unit { files = [] })
      | some (header, files) ↦
          pure (record unit { files = name_first version name (unit.files ++ files) })
    ]

unfoldable pub set_line_program : ℕ → Tables → List Found → CompilationUnit → Reader CompilationUnit
unfolding lookup found_text set_files
set_line_program version tables found unit =
    if has_program tables (lookup dw_at_stmt_list found)
    then (found_text tables (lookup dw_at_name found) >>= λ name.
        found_text tables (lookup dw_at_comp_dir found) >>= λ directory.
        set_files version
          (record tables { working_directory = text_or tables.working_directory directory })
          (text_or [] name)
          (record unit {
            line_program = value_or 0 (lookup dw_at_stmt_list found);
            has_line_program = true;
          }))
    else pure unit

-- What the attributes say of the unit.
unfoldable pub set_addresses : ℕ → Tables → List Found → CompilationUnit → Reader CompilationUnit
unfolding set_low set_high set_ranges set_line_program
set_addresses version tables found unit = set_low tables found unit >>= λ (low, unit').
    if not low
    then pure unit'
    else set_high tables found unit' >>= λ (high, unit'').
        if not high
        then pure unit''
        else set_ranges version tables found unit'' >>= λ unit'''.
            set_line_program version tables found unit'''

unfoldable pub read_entry : ℕ → Tables → Abbreviation → CompilationUnit → Reader CompilationUnit
unfolding read_found set_bases base_tables set_addresses
read_entry version tables declaration unit =
    if declaration.tag == dw_tag_compile_unit
    then (read_found tables declaration.attributes [] >>= λ found.
        set_addresses version (base_tables found (set_bases found unit) tables) found
          (set_bases found unit))
    else pure unit

-- From the offset of the abbreviations on. A read of the address size that fails leaves 0 there.
unfoldable pub read_root : ℕ → SectionView → Tables → CompilationUnit → Reader CompilationUnit
unfolding or_return read_entry on_section
read_root version abbreviations tables unit =
    or_return (fixed tables.offset_size) unit λ abbrev_offset.
      or_return (if ltb version 5 then fixed 1 else pure unit.address_size)
        (record unit { address_size = 0 })
        λ address_size.
          or_return uleb (record unit { address_size = address_size })
            λ code.
              if code == 0
              then pure (record unit { address_size = address_size })
              else on_section abbreviations (seek abbrev_offset >> read_abbreviation code)
                >>= λ found. elim found [
                  | none ↦ pure (record unit { address_size = address_size })
                  | some declaration ↦
                      read_entry version (record tables { address_size = address_size }) declaration
                        (record unit { address_size = address_size })
                ]

-- A unit from version 5 on says its type, and only code has a root to read.
unfoldable pub read_typed : ℕ → SectionView → Tables → CompilationUnit → Reader CompilationUnit
unfolding or_return read_root
read_typed version abbreviations tables unit = or_return (fixed 1) unit λ unit_type.
    or_return (fixed 1) (record unit { address_size = 0 })
      λ address_size.
        if unit_type == dw_ut_compile
        then read_root version abbreviations tables (record unit { address_size = address_size })
        else pure (record unit { address_size = address_size })

-- The unit that is read into `unit`, and the offset of the next one.
unfoldable pub read_unit : SectionView → Tables → CompilationUnit → Reader (CompilationUnit × ℕ)
unfolding or_return read_typed read_root
read_unit abbreviations tables unit =
    read_unit_length tables.offset_size >>= λ (unit_length, offset_size). here >>= λ position.
    or_return (fixed 2) unit (λ version.
      if ltb version 2 || ltb 5 version
      then pure unit
      else if leb 5 version
      then read_typed version abbreviations (record tables { offset_size = offset_size }) unit
      else read_root version abbreviations (record tables { offset_size = offset_size }) unit)
    >>= λ unit'. pure (unit', add64 position unit_length)
