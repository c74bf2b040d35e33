-- ===== src/Dwarf/Constants.antt =====
-- The tags, attributes, forms, opcodes and limits that src/debug/dwarf/reader.cc names.
use fpag.Common.{ℕ}

abbrev pub dw_tag_compile_unit : ℕ
dw_tag_compile_unit = 0x11

abbrev pub dw_ut_compile : ℕ
dw_ut_compile = 0x01

abbrev pub dw_at_name : ℕ
dw_at_name = 0x03

abbrev pub dw_at_stmt_list : ℕ
dw_at_stmt_list = 0x10

abbrev pub dw_at_low_pc : ℕ
dw_at_low_pc = 0x11

abbrev pub dw_at_high_pc : ℕ
dw_at_high_pc = 0x12

abbrev pub dw_at_comp_dir : ℕ
dw_at_comp_dir = 0x1B

abbrev pub dw_at_ranges : ℕ
dw_at_ranges = 0x55

abbrev pub dw_at_str_offsets_base : ℕ
dw_at_str_offsets_base = 0x72

abbrev pub dw_at_addr_base : ℕ
dw_at_addr_base = 0x73

abbrev pub dw_at_rnglists_base : ℕ
dw_at_rnglists_base = 0x74

abbrev pub dw_form_addr : ℕ
dw_form_addr = 0x01

abbrev pub dw_form_block2 : ℕ
dw_form_block2 = 0x03

abbrev pub dw_form_block4 : ℕ
dw_form_block4 = 0x04

abbrev pub dw_form_data2 : ℕ
dw_form_data2 = 0x05

abbrev pub dw_form_data4 : ℕ
dw_form_data4 = 0x06

abbrev pub dw_form_data8 : ℕ
dw_form_data8 = 0x07

abbrev pub dw_form_string : ℕ
dw_form_string = 0x08

abbrev pub dw_form_block : ℕ
dw_form_block = 0x09

abbrev pub dw_form_block1 : ℕ
dw_form_block1 = 0x0A

abbrev pub dw_form_data1 : ℕ
dw_form_data1 = 0x0B

abbrev pub dw_form_flag : ℕ
dw_form_flag = 0x0C

abbrev pub dw_form_sdata : ℕ
dw_form_sdata = 0x0D

abbrev pub dw_form_strp : ℕ
dw_form_strp = 0x0E

abbrev pub dw_form_udata : ℕ
dw_form_udata = 0x0F

abbrev pub dw_form_ref_addr : ℕ
dw_form_ref_addr = 0x10

abbrev pub dw_form_ref1 : ℕ
dw_form_ref1 = 0x11

abbrev pub dw_form_ref2 : ℕ
dw_form_ref2 = 0x12

abbrev pub dw_form_ref4 : ℕ
dw_form_ref4 = 0x13

abbrev pub dw_form_ref8 : ℕ
dw_form_ref8 = 0x14

abbrev pub dw_form_ref_udata : ℕ
dw_form_ref_udata = 0x15

abbrev pub dw_form_indirect : ℕ
dw_form_indirect = 0x16

abbrev pub dw_form_sec_offset : ℕ
dw_form_sec_offset = 0x17

abbrev pub dw_form_exprloc : ℕ
dw_form_exprloc = 0x18

abbrev pub dw_form_flag_present : ℕ
dw_form_flag_present = 0x19

abbrev pub dw_form_strx : ℕ
dw_form_strx = 0x1A

abbrev pub dw_form_addrx : ℕ
dw_form_addrx = 0x1B

abbrev pub dw_form_ref_sup4 : ℕ
dw_form_ref_sup4 = 0x1C

abbrev pub dw_form_strp_sup : ℕ
dw_form_strp_sup = 0x1D

abbrev pub dw_form_data16 : ℕ
dw_form_data16 = 0x1E

abbrev pub dw_form_line_strp : ℕ
dw_form_line_strp = 0x1F

abbrev pub dw_form_ref_sig8 : ℕ
dw_form_ref_sig8 = 0x20

abbrev pub dw_form_implicit_const : ℕ
dw_form_implicit_const = 0x21

abbrev pub dw_form_loclistx : ℕ
dw_form_loclistx = 0x22

abbrev pub dw_form_rnglistx : ℕ
dw_form_rnglistx = 0x23

abbrev pub dw_form_ref_sup8 : ℕ
dw_form_ref_sup8 = 0x24

abbrev pub dw_form_strx1 : ℕ
dw_form_strx1 = 0x25

abbrev pub dw_form_strx4 : ℕ
dw_form_strx4 = 0x28

abbrev pub dw_form_addrx1 : ℕ
dw_form_addrx1 = 0x29

abbrev pub dw_form_addrx4 : ℕ
dw_form_addrx4 = 0x2C

abbrev pub dw_lns_copy : ℕ
dw_lns_copy = 1

abbrev pub dw_lns_advance_pc : ℕ
dw_lns_advance_pc = 2

abbrev pub dw_lns_advance_line : ℕ
dw_lns_advance_line = 3

abbrev pub dw_lns_set_file : ℕ
dw_lns_set_file = 4

abbrev pub dw_lns_set_column : ℕ
dw_lns_set_column = 5

abbrev pub dw_lns_negate_stmt : ℕ
dw_lns_negate_stmt = 6

abbrev pub dw_lns_set_basic_block : ℕ
dw_lns_set_basic_block = 7

abbrev pub dw_lns_const_add_pc : ℕ
dw_lns_const_add_pc = 8

abbrev pub dw_lns_fixed_advance_pc : ℕ
dw_lns_fixed_advance_pc = 9

abbrev pub dw_lns_set_prologue_end : ℕ
dw_lns_set_prologue_end = 10

abbrev pub dw_lns_set_epilogue_begin : ℕ
dw_lns_set_epilogue_begin = 11

abbrev pub dw_lns_set_isa : ℕ
dw_lns_set_isa = 12

abbrev pub dw_lne_end_sequence : ℕ
dw_lne_end_sequence = 1

abbrev pub dw_lne_set_address : ℕ
dw_lne_set_address = 2

abbrev pub dw_lnct_path : ℕ
dw_lnct_path = 1

abbrev pub dw_lnct_directory_index : ℕ
dw_lnct_directory_index = 2

abbrev pub dw_rle_end_of_list : ℕ
dw_rle_end_of_list = 0x00

abbrev pub dw_rle_base_addressx : ℕ
dw_rle_base_addressx = 0x01

abbrev pub dw_rle_startx_endx : ℕ
dw_rle_startx_endx = 0x02

abbrev pub dw_rle_startx_length : ℕ
dw_rle_startx_length = 0x03

abbrev pub dw_rle_offset_pair : ℕ
dw_rle_offset_pair = 0x04

abbrev pub dw_rle_base_address : ℕ
dw_rle_base_address = 0x05

abbrev pub dw_rle_start_end : ℕ
dw_rle_start_end = 0x06

abbrev pub dw_rle_start_length : ℕ
dw_rle_start_length = 0x07

abbrev pub reserved_unit_length : ℕ
reserved_unit_length = 0xFFFFFFF0

abbrev pub dwarf64_unit_length : ℕ
dwarf64_unit_length = 0xFFFFFFFF

abbrev pub max_attributes_per_abbreviation : ℕ
max_attributes_per_abbreviation = 24

abbrev pub max_tracked_attributes : ℕ
max_tracked_attributes = 16

abbrev pub max_line_header_entries : ℕ
max_line_header_entries = 16

abbrev pub max_standard_opcodes : ℕ
max_standard_opcodes = 32
