-- ===== src/Dwarf/Tests.antt =====
-- Examples for the reader of debug information.
use fpag.Common.{zero, suc, true, false, some, ℕ, ◌≡◌, refl, List, [], ◌∷◌, arith}
use fpag.Dwarf.Cursor.{Cursor, ok, stuck, seek, fixed, uleb}
use fpag.Dwarf.Cursor.Safety.{IsInside, Post}
use fpag.Dwarf.Cursor.Values.{fixed_lem}
use fpag.Dwarf.Cursor.Uleb.{uleb_encode, uleb-uleb_encode}
use fpag.Dwarf.Forms.{Tables, is_empty, AbbreviationAttribute, read_form, read_abbreviation}
use fpag.Dwarf.Forms.Safety.{read_abbreviation_bounded, read_form_bounded}
use fpag.Dwarf.Ranges.{CompilationUnit, unit_covers}
use fpag.Dwarf.Ranges.Safety.{unit_covers_bounded}
use fpag.Dwarf.LineHeader.{LineHeader, new_header, read_line_header}
use fpag.Dwarf.LineHeader.Safety.{read_line_header_bounded}
use fpag.Dwarf.Line.{initial_state, run_program, line_loop}
use fpag.Dwarf.Line.Safety.{run_program_bounded}
use fpag.Dwarf.Line.Rows.{Sequence, run_sequences, first_sequence, run_sequences-first_sequence}
use fpag.Dwarf.Unit.{read_unit}
use fpag.Dwarf.Unit.Safety.{read_unit_bounded}
use fpag.Dwarf.Module.{Function, read_compilation_units, function_at}
use fpag.Dwarf.Module.Safety.{read_compilation_units_bounded}
use fpag.Dwarf.Module.Functions.{function_at_lem}

abbrev section : List ℕ
section = 0xE5 ∷ 0x8E ∷ 0x26 ∷ 0x08 ∷ 0x00 ∷ []

abbrev start : Cursor
start = record { bytes = section; position = 0 }

start-IsInside : IsInside start
start-IsInside = record { inside = omega arith; size_word = omega arith }

abbrev no_tables : Tables
no_tables = record {
  debug_str = [];
  debug_line_str = [];
  debug_str_offsets = [];
  debug_addr = [];
  debug_line = [];
  debug_rnglists = [];
  debug_ranges = [];
  working_directory = [];
  str_offsets_base = 0;
  addr_base = 0;
  address_size = 8;
  offset_size = 4;
}

abbrev udata : AbbreviationAttribute
udata = record { attribute = 0x03; form = 0x0F; implicit = 0 }

fixed_lem_example : fixed 3 start ≡ ok 2526949 (record start { position = 3 })
fixed_lem_example =
    fixed_lem 3 start start-IsInside (omega arith) (omega arith) (omega arith) (omega arith)

uleb-uleb_encode_example : uleb start ≡ ok 624485 (record start { position = 3 })
unfolding uleb_encode
uleb-uleb_encode_example =
    uleb-uleb_encode start 624485 (0x08 ∷ 0x00 ∷ []) start-IsInside (omega arith) (omega arith) refl

read_abbreviation_bounded_example : Post 1 start (read_abbreviation 1 start)
read_abbreviation_bounded_example = read_abbreviation_bounded 1 start start-IsInside

read_form_bounded_example : Post 0 start (read_form 0x0F no_tables udata start)
read_form_bounded_example = read_form_bounded 0x0F no_tables udata start start-IsInside

abbrev no_unit : CompilationUnit
no_unit = record {
  line_program = 0;
  ranges = 0;
  low_pc = 0;
  high_pc = 0;
  addr_base = 0;
  str_offsets_base = 0;
  address_size = 8;
  offset_high_pc = false;
  indexed_addresses = false;
  has_line_program = false;
  has_ranges = false;
  legacy_ranges = false;
  files = [];
}

-- A range list with one pair of offsets.
abbrev ranged : Tables
ranged = record no_tables { debug_rnglists = 0x04 ∷ 0x10 ∷ 0x20 ∷ 0x00 ∷ [] }

abbrev ranged_unit : CompilationUnit
ranged_unit = record no_unit { low_pc = 0x1000; has_ranges = true }

unit_covers_bounded_example : Post 0 start (unit_covers ranged ranged_unit 0x1010 start)
unit_covers_bounded_example =
    unit_covers_bounded ranged ranged_unit 0x1010 start (omega arith) start-IsInside

covers_inside : unit_covers ranged ranged_unit 0x1010 start ≡ ok true start
unfolding unit_covers seek uleb
covers_inside = refl

covers_past : unit_covers ranged ranged_unit 0x1020 start ≡ ok false start
unfolding unit_covers seek uleb
covers_past = refl

read_line_header_bounded_example : Post 0 start (read_line_header no_tables true start)
read_line_header_bounded_example = read_line_header_bounded no_tables true start start-IsInside

read_unit_bounded_example : Post 0 start (read_unit [] no_tables no_unit start)
read_unit_bounded_example =
    read_unit_bounded [] no_tables no_unit start (omega arith) (omega arith) start-IsInside

-- DW_LNS_COPY, a special opcode that moves by one address, and DW_LNE_END_SEQUENCE.
abbrev program : Cursor
program = record { bytes = 0x01 ∷ 0x20 ∷ 0x00 ∷ 0x01 ∷ 0x01 ∷ []; position = 0 }

abbrev header : LineHeader
header = record (new_header 4 8 0 5) { standard_lengths = 0 ∷ [] }

run_program_bounded_example : Post 0 program (run_program header ([] ∷ (0x61 ∷ []) ∷ []) 0 program)
run_program_bounded_example =
    run_program_bounded header ([] ∷ (0x61 ∷ []) ∷ []) 0 program
      (record { inside = omega arith; size_word = omega arith }) refl

program_answers :
    run_program header ([] ∷ (0x61 ∷ []) ∷ []) 0 program
    ≡ ok
        (some (record { file = 0x61 ∷ []; line = 1; column = 0 }))
        (record program { position = 2 })
unfolding run_program seek fixed is_empty
program_answers = refl

-- The second sequence has the address 4, in its first row.
abbrev two_sequences : List Sequence
two_sequences =
    record { rows = record { address = 0; file = 1; line_number = 3; column = 0 } ∷ []; end = 2 }
    ∷ record {
      rows =
          record { address = 3; file = 1; line_number = 7; column = 2 }
          ∷ record { address = 6; file = 1; line_number = 8; column = 0 }
          ∷ [];
      end = 9;
    }
    ∷ []

run_sequences-first_sequence_example :
    (run_sequences ([] ∷ (0x61 ∷ []) ∷ []) 4 two_sequences initial_state).answer
    ≡ some (record { file = 0x61 ∷ []; line = 7; column = 2 })
unfolding first_sequence is_empty
run_sequences-first_sequence_example =
    run_sequences-first_sequence ([] ∷ (0x61 ∷ []) ∷ []) 4 two_sequences initial_state
      (record { shut = refl; unanswered = refl })

-- A unit that ends with the first byte of an extended opcode: its length, which stands past the
-- end, takes the cursor back to that byte.
abbrev loops : Cursor
loops = record {
  bytes = 0x00 ∷ 0xF5 ∷ 0xFF ∷ 0xFF ∷ 0xFF ∷ 0xFF ∷ 0xFF ∷ 0xFF ∷ 0xFF ∷ 0xFF ∷ 0x01 ∷ 0x03 ∷ [];
  position = 0;
}

abbrev short_header : LineHeader
short_header = record (new_header 4 8 0 1) { standard_lengths = 0 ∷ [] }

-- No number of rounds ends the program.
line_loop_stuck : (fuel : ℕ) → line_loop fuel short_header [] 0 0 initial_state loops ≡ stuck
unfolding line_loop seek fixed uleb
line_loop_stuck zero = refl
line_loop_stuck (suc fuel) = line_loop_stuck fuel

read_compilation_units_bounded_example :
    Post 0 start (read_compilation_units section [] no_tables start)
read_compilation_units_bounded_example =
    read_compilation_units_bounded [] no_tables (omega arith) (omega arith) section (omega arith)

abbrev first_function : Function
first_function = record { address = 16; size = 8; name = 0x66 ∷ [] }

abbrev second_function : Function
second_function = record { address = 32; size = 8; name = 0x67 ∷ [] }

function_at_lem_example : function_at (first_function ∷ second_function ∷ []) 20 ≡ some (0x66 ∷ [])
function_at_lem_example =
    function_at_lem [] (second_function ∷ []) first_function 20 tt (omega arith) (omega arith)
      (omega arith)
