-- ===== src/Dwarf/Line.antt =====
-- The line program: `line_position` of src/debug/dwarf/reader.cc.
-- A line number is an i64 as its bit pattern, and its additions wrap.
pub mod Safety
pub mod Rows
use fpag.Common.{
  ℕ, zero, suc, ◌-◌, ◌*◌, ◌/◌, ◌%◌, ◌^◌, Bool, true, false, not, ◌||◌, ◌&&◌, Option, none, some,
}
use fpag.Common.{
  List, [], ◌∷◌, ltb, leb, ◌==◌, if◌then◌else◌, add64, sub64, mul64, get_elem?, length,
}
use fpag.Dwarf.Constants.{
  dw_lns_copy, dw_lns_advance_pc, dw_lns_advance_line, dw_lns_set_file, dw_lns_set_column,
  dw_lns_negate_stmt, dw_lns_set_basic_block, dw_lns_const_add_pc, dw_lns_fixed_advance_pc,
  dw_lns_set_prologue_end, dw_lns_set_epilogue_begin, dw_lns_set_isa, dw_lne_end_sequence,
  dw_lne_set_address,
}
use fpag.Dwarf.Cursor.{
  stuck, Reader, ◌>>=◌, ◌>>◌, pure, refuse, require, here, seek, fixed, uleb, sleb,
}
use fpag.Dwarf.Cursor.{with_fuel, on_section}
use fpag.Dwarf.Forms.{Text, Tables, is_empty}
use fpag.Dwarf.Ranges.{CompilationUnit}
use fpag.Dwarf.LineHeader.{LineHeader, read_line_header}

pub record SourcePosition : Type 0 where
  pub file : Text
  pub line : ℕ
  pub column : ℕ

-- The variables of the state machine. `answer` is `*out`, once `answered`.
pub record LineState : Type 0 where
  pub address : ℕ
  pub file : ℕ
  pub line_number : ℕ
  pub column : ℕ
  pub row_open : Bool
  pub row_address : ℕ
  pub row_file : ℕ
  pub row_line : ℕ
  pub row_column : ℕ
  pub answer : Option SourcePosition

abbrev pub initial_state : LineState
initial_state = record {
  address = 0;
  file = 1;
  line_number = 1;
  column = 0;
  row_open = false;
  row_address = 0;
  row_file = 1;
  row_line = 1;
  row_column = 0;
  answer = none;
}

unfoldable pub open_row : LineState → LineState
open_row s = record s {
  row_address = s.address;
  row_file = s.file;
  row_line = s.line_number;
  row_column = s.column;
  row_open = true;
}

-- `row_line <= 0`
abbrev pub not_positive : ℕ → Bool
not_positive line = line == 0 || leb (2 ^ 63) line

-- The position of the open row, if its file has a name.
unfoldable pub row_answer : List Text → LineState → Option SourcePosition
row_answer files s = elim (get_elem? files s.row_file) [
  | none ↦ s.answer
  | some file ↦
      if is_empty file
      then s.answer
      else some (record { file = file; line = s.row_line % 2 ^ 32; column = s.row_column % 2 ^ 32 })
]

-- Answers when the open row is the one that ends at `end`.
unfoldable pub close_row_at : List Text → ℕ → ℕ → LineState → LineState
unfolding row_answer
close_row_at files link_address end s =
    if not s.row_open
      || (ltb link_address s.row_address
          || (leb end link_address || (leb (length files) s.row_file || not_positive s.row_line)))
    then s
    else record s { answer = row_answer files s }

unfoldable pub advance : LineHeader → ℕ → LineState → LineState
advance header operation_advance s = record s {
  address =
      add64 s.address
        (mul64 (operation_advance / header.maximum_operations) header.minimum_instruction_length);
}

unfoldable pub emit_row : List Text → ℕ → LineState → LineState
unfolding close_row_at open_row
emit_row files link_address s = open_row (close_row_at files link_address s.address s)

-- An opcode from `opcode_base` on.
unfoldable pub special : LineHeader → List Text → ℕ → ℕ → LineState → LineState
unfolding advance emit_row
special header files link_address opcode s =
    let adjusted = opcode - header.opcode_base in
    let s' = advance header (adjusted / header.line_range) s in
    emit_row files link_address (record s' {
      line_number = add64 s'.line_number (add64 header.line_base (adjusted % header.line_range));
    })

-- What DW_LNE_END_SEQUENCE does: what follows belongs to another sequence.
unfoldable pub end_sequence : List Text → ℕ → LineState → LineState
unfolding close_row_at
end_sequence files link_address s = record (close_row_at files link_address s.address s) {
  row_open = false;
  address = 0;
  file = 1;
  line_number = 1;
  column = 0;
}

-- The operands that this reader looks at.
unfoldable pub extended_body : LineHeader → List Text → ℕ → LineState → Reader LineState
unfolding end_sequence emit_row
extended_body header files link_address s = fixed 1 >>= λ sub_opcode.
    if sub_opcode == dw_lne_end_sequence
    then pure (end_sequence files link_address s)
    else if sub_opcode == dw_lne_set_address
    then (fixed header.address_size >>= λ address.
        pure (emit_row files link_address (record s { address = address })))
    else pure s

-- Opcode 0: a length, and an operation that the cursor steps over whatever it is.
unfoldable pub extended : LineHeader → List Text → ℕ → LineState → Reader LineState
unfolding extended_body
extended header files link_address s = uleb >>= λ length. here >>= λ position.
    if ltb (sub64 header.end position) length
    then refuse
    else extended_body header files link_address s >>= λ s'. seek (add64 position length) >> pure s'

-- A standard opcode that is not known: its operands are read and dropped.
unfoldable pub skip_operands : ℕ → Reader (Unit {0})
skip_operands zero = pure tt
skip_operands (suc n) = uleb >>= λ operand. skip_operands n

abbrev pub operand_count : LineHeader → ℕ → ℕ
operand_count header opcode = elim (get_elem? header.standard_lengths opcode) [
  | none ↦ 0
  | some n ↦ n
]

-- The standard opcodes that change nothing that is reported, and have no operand.
abbrev pub is_silent : ℕ → Bool
is_silent opcode =
    opcode == dw_lns_negate_stmt
    || (opcode == dw_lns_set_basic_block
        || (opcode == dw_lns_set_prologue_end || opcode == dw_lns_set_epilogue_begin))

-- The standard opcodes from DW_LNS_SET_COLUMN on.
unfoldable pub standard_rest : LineHeader → ℕ → LineState → Reader LineState
unfolding advance skip_operands
standard_rest header opcode s =
    if opcode == dw_lns_set_column
    then (uleb >>= λ operand. pure (record s { column = operand }))
    else if opcode == dw_lns_const_add_pc
    then pure (advance header ((255 - header.opcode_base) / header.line_range) s)
    else if opcode == dw_lns_fixed_advance_pc
    then (fixed 2 >>= λ operand. pure (record s { address = add64 s.address operand }))
    else if opcode == dw_lns_set_isa
    then (uleb >>= λ operand. pure s)
    else if is_silent opcode
    then pure s
    else skip_operands (operand_count header opcode) >> pure s

unfoldable pub standard : LineHeader → List Text → ℕ → ℕ → LineState → Reader LineState
unfolding emit_row advance standard_rest
standard header files link_address opcode s =
    if opcode == dw_lns_copy
    then pure (emit_row files link_address s)
    else if opcode == dw_lns_advance_pc
    then (uleb >>= λ operand. pure (advance header operand s))
    else if opcode == dw_lns_advance_line
    then (sleb >>= λ delta. pure (record s { line_number = add64 s.line_number delta }))
    else if opcode == dw_lns_set_file
    then (uleb >>= λ operand. pure (record s { file = operand }))
    else standard_rest header opcode s

-- One round of the loop, from the opcode on.
unfoldable pub line_step : LineHeader → List Text → ℕ → LineState → Reader LineState
unfolding special extended standard
line_step header files link_address s = fixed 1 >>= λ opcode.
    if leb header.opcode_base opcode
    then pure (special header files link_address opcode s)
    else if opcode == 0
    then extended header files link_address s
    else standard header files link_address opcode s

abbrev pub answered : LineState → Bool
answered s = elim s.answer [ none ↦ false | some p ↦ true ]

unfoldable pub line_loop :
    ℕ → LineHeader → List Text → ℕ → ℕ → LineState → Reader (Option SourcePosition)
unfolding line_step
line_loop zero header files link_address position s = λ c. stuck
line_loop (suc fuel) header files link_address position s =
    if ltb position header.end && not (answered s)
    then (seek position
        >> (line_step header files link_address s >>= λ s'.
            here >>= λ position'. line_loop fuel header files link_address position' s'))
    else pure s.answer

-- The opcodes of the unit, with fuel for a round on each byte.
unfoldable pub run_program : LineHeader → List Text → ℕ → Reader (Option SourcePosition)
unfolding line_loop with_fuel
run_program header files link_address =
    with_fuel (λ fuel. line_loop fuel header files link_address header.program initial_state)

abbrev pub join_option : Option (Option SourcePosition) → Option SourcePosition
join_option none = none
join_option (some p) = p

abbrev pub no_files : List Text → Bool
no_files [] = true
no_files (f ∷ files) = false

-- `none` is the answer `false`; the cursor at hand stays where it is.
unfoldable pub line_position : Tables → CompilationUnit → ℕ → Reader (Option SourcePosition)
unfolding run_program on_section
line_position tables unit link_address =
    if not unit.has_line_program
      || (no_files unit.files || leb (length tables.debug_line) unit.line_program)
    then pure none
    else (on_section tables.debug_line (
          seek unit.line_program
          >> (read_line_header tables false >>= λ (header, files).
              run_program header unit.files link_address))
        >>= λ found. pure (join_option found))
