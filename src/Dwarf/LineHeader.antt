-- ===== src/Dwarf/LineHeader.antt =====
-- The header of a line program: `read_line_header` of src/debug/dwarf/reader.cc.
pub mod Safety
use fpag.Common.{ℕ, zero, suc, ◌+◌, ◌-◌, Bool, true, false, not, ◌||◌, ◌&&◌, Option, none, some}
use fpag.Common.{List, [], ◌∷◌, ◌++◌, leb, ◌==◌, if◌then◌else◌, add64, sub64, get_elem?}
use fpag.Dwarf.Constants.{
  dwarf64_unit_length, reserved_unit_length, max_line_header_entries, max_standard_opcodes,
  dw_lnct_path, dw_lnct_directory_index,
}
use fpag.Dwarf.Cursor.{stuck, Reader, ◌>>=◌, ◌>>◌, pure, refuse, require, here, section_size}
use fpag.Dwarf.Cursor.{fixed, uleb, string, with_fuel}
use fpag.Dwarf.Forms.{
  Text, Tables, AbbreviationAttribute, FormValue, read_form, join_path, is_empty,
}

-- The part of a line program header that a row depends on. `program` is the offset of the first
-- opcode and `end` the offset just past the unit. `standard_lengths` starts with an opcode 0.
pub record LineHeader : Type 0 where
  pub version : ℕ
  pub address_size : ℕ
  pub minimum_instruction_length : ℕ
  pub maximum_operations : ℕ
  pub line_base : ℕ
  pub line_range : ℕ
  pub opcode_base : ℕ
  pub standard_lengths : List ℕ
  pub program : ℕ
  pub end : ℕ

-- The length of a unit, and the size of an offset that the length implies.
unfoldable pub read_unit_length : ℕ → Reader (ℕ × ℕ)
read_unit_length offset_size = do
  first ← fixed 4
  (unit_length, offset_size') ←
      if first == dwarf64_unit_length
      then (fixed 8 >>= λ long. pure (long, 8))
      else if leb reserved_unit_length first
      then refuse
      else pure (first, offset_size)
  size ← section_size
  position ← here
  require (leb unit_length (sub64 size position)) >> pure (unit_length, offset_size')

-- The width of an address, which the header says from version 5 on.
unfoldable pub header_address_size : ℕ → Tables → Reader ℕ
header_address_size version tables =
    if leb 5 version
    then (fixed 1 >>= λ address_size. fixed 1 >>= λ segment_selector_size.
        require (not (address_size == 0 || leb 9 address_size)) >> pure address_size)
    else pure tables.address_size

unfoldable pub read_lengths : ℕ → List ℕ → Reader (List ℕ)
read_lengths zero lengths = pure lengths
read_lengths (suc n) lengths = fixed 1 >>= λ length. read_lengths n (lengths ++ (length ∷ []))

unfoldable pub formats_loop : ℕ → List (ℕ × ℕ) → Reader (List (ℕ × ℕ))
formats_loop zero formats = pure formats
formats_loop (suc n) formats =
    uleb >>= λ content. uleb >>= λ form. formats_loop n (formats ++ ((content, form) ∷ []))

-- What the entries of a table hold, as pairs of a content and a form.
unfoldable pub read_formats : Reader (List (ℕ × ℕ))
unfolding formats_loop
read_formats =
    uleb >>= λ count. require (leb count max_line_header_entries) >> formats_loop count []

abbrev pub no_attribute : AbbreviationAttribute
no_attribute = record { attribute = 0; form = 0; implicit = 0 }

-- `if (content == DW_LNCT_PATH && value.text != nullptr) path.assign(value.text);`
abbrev pub assign_path : ℕ → FormValue → Text → Text
assign_path content value path =
    if content == dw_lnct_path then elim value.text [ none ↦ path | some text ↦ text ] else path

-- The directory index is taken from a field that did not give the path.
abbrev pub assign_directory : ℕ → FormValue → ℕ → ℕ
assign_directory content value directory_index =
    if content == dw_lnct_directory_index then value.value else directory_index

-- The fields of one entry: the path and the index of its directory.
unfoldable pub read_entry : Tables → List (ℕ × ℕ) → Text → ℕ → Reader (Text × ℕ)
read_entry tables [] path directory_index = pure (path, directory_index)
read_entry tables ((content, form) ∷ formats) path directory_index =
    read_form form tables no_attribute >>= λ value.
    read_entry tables formats (assign_path content value path)
      (assign_directory content value directory_index)

-- The loop over the directories; the index that an entry may hold is not used.
unfoldable pub directories_loop : ℕ → Tables → List (ℕ × ℕ) → List Text → Reader (List Text)
unfolding read_entry
directories_loop zero tables formats found = pure found
directories_loop (suc n) tables formats found =
    read_entry tables formats [] 0 >>= λ (path, directory_index).
    directories_loop n tables formats (found ++ (path ∷ []))

-- The directory at an index, empty past the end.
unfoldable pub directory_at : List Text → ℕ → Text
directory_at directories index = elim (get_elem? directories index) [ none ↦ [] | some d ↦ d ]

-- The loop over the files; nothing is kept if no file table is wanted.
unfoldable pub files_loop :
    ℕ → Tables → List (ℕ × ℕ) → List Text → Bool → List Text → Reader (List Text)
unfolding read_entry directory_at
files_loop zero tables formats directories wanted files = pure files
files_loop (suc n) tables formats directories wanted files =
    read_entry tables formats [] 0 >>= λ (path, directory_index).
    files_loop n tables formats directories wanted (
      if wanted
      then files ++ (join_path tables (directory_at directories directory_index) path ∷ [])
      else files)

unfoldable pub read_tables : Tables → Bool → Reader (List Text)
unfolding read_formats directories_loop files_loop
read_tables tables wanted = do
  formats ← read_formats
  count ← uleb
  directories ← directories_loop count tables formats []
  file_formats ← read_formats
  file_count ← uleb
  files_loop file_count tables file_formats directories wanted []

-- The tables before version 5: strings up to an empty one.
unfoldable pub legacy_directories : ℕ → List Text → Reader (List Text)
legacy_directories zero found = λ c. stuck
legacy_directories (suc fuel) found = string >>= λ directory.
    if is_empty directory then pure found else legacy_directories fuel (found ++ (directory ∷ []))

-- Directories count from one; zero is the working directory.
unfoldable pub legacy_directory_at : Tables → List Text → ℕ → Text
unfolding directory_at
legacy_directory_at tables directories index =
    if index == 0 then tables.working_directory else directory_at directories (index - 1)

unfoldable pub legacy_files : ℕ → Tables → List Text → Bool → List Text → Reader (List Text)
unfolding legacy_directory_at
legacy_files zero tables directories wanted files = λ c. stuck
legacy_files (suc fuel) tables directories wanted files = string >>= λ path.
    if is_empty path
    then pure files
    else uleb >>= λ directory_index. uleb >>= λ timestamp. uleb >>= λ length.
        legacy_files fuel tables directories wanted (
          if wanted
          then files
            ++ (join_path tables (legacy_directory_at tables directories directory_index) path ∷ [])
          else files)

-- Index 0 names the unit's own file.
unfoldable pub read_legacy_tables : Tables → Bool → Reader (List Text)
unfolding legacy_directories legacy_files with_fuel
read_legacy_tables tables wanted = do
  directories ← with_fuel (λ fuel. legacy_directories fuel [])
  let first : List Text = if wanted then [] ∷ [] else []
  with_fuel (λ fuel. legacy_files fuel tables directories wanted first)

-- The numbers that a header may not hold.
abbrev pub plausible : LineHeader → Bool
plausible h = not (
    h.minimum_instruction_length == 0
    || (h.maximum_operations == 0
        || (h.line_range == 0
            || (h.opcode_base == 0 || leb (max_standard_opcodes + 1) h.opcode_base))))

-- The fields from `minimum_instruction_length` to `standard_lengths`. The byte of `line_base` is
-- read, and the header keeps its default of -5.
unfoldable pub read_opcode_fields : LineHeader → Reader LineHeader
unfolding read_lengths
read_opcode_fields header = do
  minimum ← fixed 1
  maximum ← if leb 4 header.version then fixed 1 else pure 1
  default_is_stmt ← fixed 1
  line_base ← fixed 1
  line_range ← fixed 1
  opcode_base ← fixed 1
  let header' : LineHeader = record header {
    minimum_instruction_length = minimum;
    maximum_operations = maximum;
    line_range = line_range;
    opcode_base = opcode_base;
  }
  require (plausible header')
  lengths ← read_lengths (opcode_base - 1) (0 ∷ [])
  pure (record header' { standard_lengths = lengths })

-- The defaults of the members, and what is read before the opcode fields.
abbrev pub new_header : ℕ → ℕ → ℕ → ℕ → LineHeader
new_header version address_size program end = record {
  version = version;
  address_size = address_size;
  minimum_instruction_length = 1;
  maximum_operations = 1;
  line_base = sub64 0 5;
  line_range = 14;
  opcode_base = 13;
  standard_lengths = [];
  program = program;
  end = end;
}

unfoldable pub read_line_header : Tables → Bool → Reader (LineHeader × List Text)
unfolding read_unit_length header_address_size read_opcode_fields read_tables read_legacy_tables
read_line_header tables wanted = do
  (unit_length, offset_size) ← read_unit_length tables.offset_size
  after_length ← here
  let end = add64 after_length unit_length
  version ← fixed 2
  require (leb 2 version && leb version 5)
  address_size ← header_address_size version tables
  let tables' : Tables = record tables { offset_size = offset_size; address_size = address_size }
  header_length ← fixed offset_size
  position ← here
  size ← section_size
  require (leb header_length (sub64 end position) && leb end size)
  header ← read_opcode_fields (new_header version address_size (add64 position header_length) end)
  files ← if leb 5 version then read_tables tables' wanted else read_legacy_tables tables' wanted
  pure (header, files)
