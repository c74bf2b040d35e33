-- ===== src/Dwarf/Forms.antt =====
-- Abbreviations, attribute values and indexed values: the first part of src/debug/dwarf/reader.cc.
pub mod Safety
use fpag.Common.{ℕ, zero, suc, ◌+◌, ◌-◌, Bool, true, false, not, ◌||◌, ◌&&◌, Option, none, some}
use fpag.Common.{List, [], ◌∷◌, ◌++◌, leb, ◌==◌, if◌then◌else◌, add64, mul64, length}
use fpag.Dwarf.Constants.{
  max_attributes_per_abbreviation, dw_form_implicit_const, dw_form_indirect, dw_form_flag_present,
  dw_form_addr, dw_form_strx1, dw_form_strx4, dw_form_addrx1, dw_form_addrx4, dw_form_data1,
  dw_form_flag, dw_form_ref1, dw_form_data2, dw_form_ref2, dw_form_data4, dw_form_ref4,
  dw_form_ref_sup4, dw_form_data8, dw_form_ref8, dw_form_ref_sig8, dw_form_ref_sup8, dw_form_data16,
  dw_form_udata, dw_form_ref_udata, dw_form_loclistx, dw_form_rnglistx, dw_form_strx, dw_form_addrx,
  dw_form_sdata, dw_form_sec_offset, dw_form_strp, dw_form_ref_addr, dw_form_line_strp,
  dw_form_strp_sup, dw_form_string, dw_form_block1, dw_form_block2, dw_form_block4, dw_form_block,
  dw_form_exprloc,
}
use fpag.Dwarf.Cursor.{SectionView, Outcome, ok, refused, fault, stuck, Reader, ◌>>=◌, ◌>>◌, pure}
use fpag.Dwarf.Cursor.{
  refuse, seek, fixed, uleb, sleb, skip, string, string_at, on_section, with_fuel,
}

-- A text is the list of its bytes, without the NUL.
abbrev pub Text : Type 0
Text = List ℕ

pub record Tables : Type 0 where
  pub debug_str : SectionView
  pub debug_line_str : SectionView
  pub debug_str_offsets : SectionView
  pub debug_addr : SectionView
  pub debug_line : SectionView
  pub debug_rnglists : SectionView
  pub debug_ranges : SectionView
  pub working_directory : Text
  pub str_offsets_base : ℕ
  pub addr_base : ℕ
  pub address_size : ℕ
  pub offset_size : ℕ

pub record AbbreviationAttribute : Type 0 where
  pub attribute : ℕ
  pub form : ℕ
  pub implicit : ℕ

-- `count` is the length of the list.
pub record Abbreviation : Type 0 where
  pub tag : ℕ
  pub attributes : List AbbreviationAttribute

pub record FormValue : Type 0 where
  pub value : ℕ
  pub text : Option Text
  pub indexed : Bool

abbrev pub no_value : FormValue
no_value = record { value = 0; text = none; indexed = false }

abbrev pub plain_value : ℕ → FormValue
plain_value v = record { value = v; text = none; indexed = false }

abbrev pub indexed_value : ℕ → FormValue
indexed_value v = record { value = v; text = none; indexed = true }

-- The attributes of one abbreviation; the first number counts the slots that are left.
unfoldable pub read_attributes :
    ℕ → List AbbreviationAttribute → Reader (List AbbreviationAttribute)
read_attributes zero found = do
  attribute ← uleb
  form ← uleb
  if attribute == 0 && form == 0 then pure found else refuse
read_attributes (suc slots) found = do
  attribute ← uleb
  form ← uleb
  if attribute == 0 && form == 0 then pure found else do
    implicit ← if form == dw_form_implicit_const then sleb else pure 0
    let entry : AbbreviationAttribute = record {
      attribute = attribute;
      form = form;
      implicit = implicit;
    }
    read_attributes slots (found ++ (entry ∷ []))

unfoldable pub abbreviation_loop : ℕ → ℕ → Reader Abbreviation
unfolding read_attributes
abbreviation_loop zero code = λ c. stuck
abbreviation_loop (suc fuel) code = do
  entry_code ← uleb
  if entry_code == 0 then refuse else do
    tag ← uleb
    has_children ← fixed 1
    attributes ← read_attributes max_attributes_per_abbreviation []
    if entry_code == code
        then pure (record { tag = tag; attributes = attributes })
        else abbreviation_loop fuel code

unfoldable pub read_abbreviation : ℕ → Reader Abbreviation
unfolding abbreviation_loop with_fuel
read_abbreviation code = with_fuel (λ fuel. abbreviation_loop fuel code)

-- The cases of the `switch` that read a number of a fixed width, with that width.
fixed_width : ℕ → Tables → Option ℕ
fixed_width form tables =
    if form == dw_form_data1 || (form == dw_form_flag || form == dw_form_ref1)
    then some 1
    else if form == dw_form_data2 || form == dw_form_ref2
    then some 2
    else if form == dw_form_data4 || (form == dw_form_ref4 || form == dw_form_ref_sup4)
    then some 4
    else if form == dw_form_data8
        || (form == dw_form_ref8 || (form == dw_form_ref_sig8 || form == dw_form_ref_sup8))
    then some 8
    else if form == dw_form_sec_offset
        || (form == dw_form_strp
            || (form == dw_form_ref_addr
                || (form == dw_form_line_strp || form == dw_form_strp_sup)))
    then some tables.offset_size
    else none

-- The width of the length that stands before a block.
block_width : ℕ → Option ℕ
block_width form =
    if form == dw_form_block1
    then some 1
    else if form == dw_form_block2
    then some 2
    else if form == dw_form_block4
    then some 4
    else none

-- A string named by an offset resolves now.
resolve : ℕ → Tables → ℕ → FormValue
resolve form tables value =
    if form == dw_form_strp
    then record { value = value; text = string_at tables.debug_str value; indexed = false }
    else if form == dw_form_line_strp
    then record { value = value; text = string_at tables.debug_line_str value; indexed = false }
    else plain_value value

-- The `switch`, for the forms with no width of their own.
read_other_form : ℕ → Reader FormValue
read_other_form form =
    if form == dw_form_data16
    then skip 16 >> pure no_value
    else if form == dw_form_udata
        || (form == dw_form_ref_udata
            || (form == dw_form_loclistx
                || (form == dw_form_rnglistx || (form == dw_form_strx || form == dw_form_addrx))))
    then (uleb >>= λ value. pure (record {
      value = value;
      text = none;
      indexed = form == dw_form_strx || form == dw_form_addrx;
    }))
    else if form == dw_form_sdata
    then (sleb >>= λ value. pure (plain_value value))
    else if form == dw_form_string
    then (string >>= λ text. pure (record { value = 0; text = some text; indexed = false }))
    else if form == dw_form_block || form == dw_form_exprloc
    then (uleb >>= λ length. skip length >> pure no_value)
    else refuse

read_switch : ℕ → Tables → Reader FormValue
unfolding fixed_width block_width resolve read_other_form
read_switch form tables = elim (fixed_width form tables) [
  | some width ↦ (fixed width >>= λ value. pure (resolve form tables value))
  | none ↦ elim (block_width form) [
    | some width ↦ (fixed width >>= λ length. skip length >> pure no_value)
    | none ↦ read_other_form form
  ]
]

-- The call for DW_FORM_INDIRECT takes a byte at least.
unfoldable pub form_loop : ℕ → ℕ → Tables → AbbreviationAttribute → Reader FormValue
unfolding read_switch
form_loop zero form tables declaration = λ c. stuck
form_loop (suc fuel) form tables declaration =
    if form == dw_form_indirect
    then (uleb >>= λ indirect.
        form_loop fuel indirect tables (record declaration { form = indirect }))
    else if form == dw_form_implicit_const
    then pure (plain_value declaration.implicit)
    else if form == dw_form_flag_present
    then pure (plain_value 1)
    else if form == dw_form_addr
    then (fixed tables.address_size >>= λ value. pure (plain_value value))
    else if leb dw_form_strx1 form && leb form dw_form_strx4
    then (fixed (form - dw_form_strx1 + 1) >>= λ value. pure (indexed_value value))
    else if leb dw_form_addrx1 form && leb form dw_form_addrx4
    then (fixed (form - dw_form_addrx1 + 1) >>= λ value. pure (indexed_value value))
    else read_switch form tables

unfoldable pub read_form : ℕ → Tables → AbbreviationAttribute → Reader FormValue
unfolding form_loop with_fuel
read_form form tables declaration = with_fuel (λ fuel. form_loop fuel form tables declaration)

unfoldable pub indexed_offset : SectionView → ℕ → ℕ → ℕ → Reader ℕ
unfolding on_section
indexed_offset table base index entry_size = if base == 0 then pure 0 else do
  found ← on_section table (seek (add64 base (mul64 index entry_size)) >> fixed entry_size)
  elim found [ none ↦ pure 0 | some offset ↦ pure offset ]

unfoldable pub indexed_string : Tables → ℕ → Reader (Option Text)
unfolding indexed_offset
indexed_string tables index = if tables.str_offsets_base == 0 then pure none else do
  offset ← indexed_offset tables.debug_str_offsets tables.str_offsets_base index tables.offset_size
  pure (if offset == 0 then none else string_at tables.debug_str offset)

-- `none` says that the index names nothing.
unfoldable pub indexed_address : Tables → ℕ → Reader (Option ℕ)
unfolding on_section
indexed_address tables index =
    if tables.addr_base == 0
    then pure none
    else on_section tables.debug_addr (
        seek (add64 tables.addr_base (mul64 index tables.address_size))
        >> fixed tables.address_size)

starts_with_slash : Text → Bool
starts_with_slash [] = false
starts_with_slash (c ∷ text) = c == b'/'

ends_with_slash : Text → Bool
ends_with_slash [] = false
ends_with_slash (c ∷ []) = c == b'/'
ends_with_slash (c ∷ d ∷ text) = ends_with_slash (d ∷ text)

unfoldable pub is_empty : Text → Bool
is_empty [] = true
is_empty (c ∷ text) = false

-- The directory that a file is joined onto.
base_directory : Tables → Text → Text
unfolding starts_with_slash is_empty
base_directory tables directory =
    if is_empty directory
    then tables.working_directory
    else if not (starts_with_slash directory) && not (is_empty tables.working_directory)
    then tables.working_directory ++ (b'/' ∷ directory)
    else directory

unfoldable pub join_path : Tables → Text → Text → Text
unfolding base_directory starts_with_slash ends_with_slash is_empty
join_path tables directory file =
    let base = base_directory tables directory in
    if is_empty file || (starts_with_slash file || is_empty base)
    then file
    else if ends_with_slash base
    then base ++ file
    else base ++ (b'/' ∷ file)
