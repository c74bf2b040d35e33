-- ===== src/Dwarf/Forms/Safety.antt =====
-- How the readers of abbreviations and attribute values in src/debug/dwarf/reader.cc move a cursor.
use fpag.Common.{
  ℕ, zero, suc, ◌+◌, ◌-◌, arith, ◌&&◌, none, some, List, length, IsWord, ◌==◌, leb, if◌then◌else◌,
}
use fpag.Common.{[], Option}
use fpag.Dwarf.Constants.{
  max_attributes_per_abbreviation, dw_form_implicit_const, dw_form_strx1, dw_form_addrx1,
  dw_form_indirect, dw_form_flag_present, dw_form_addr, dw_form_strx4, dw_form_addrx4,
}
use fpag.Dwarf.Cursor.{Cursor, Reader, ◌>>=◌, pure, fixed, string_at}
use fpag.Dwarf.Cursor.Safety.{
  IsInside, Post, IsSafe, >>=-IsSafe, pure-IsSafe, refuse-IsSafe, if-IsSafe, IsSafe-weaken,
  fixed-IsSafe, uleb-IsSafe, sleb-IsSafe, skip-IsSafe, string-IsSafe,
}
use fpag.Dwarf.Cursor.Fuel.{
  IsSafeIn, IsSafe-IsSafeIn, >>=-IsSafeIn, if-IsSafeIn, zero-IsSafeIn, IsSafeIn-weaken,
  with_fuel-IsSafe, seek-IsSafeOn, on_section-IsSafe,
}
use fpag.Dwarf.Forms.{
  FormValue, plain_value, indexed_value, Tables, AbbreviationAttribute, read_attributes,
  abbreviation_loop,
}
use fpag.Dwarf.Forms.{read_abbreviation, read_other_form, read_switch, form_loop, read_form}
use fpag.Dwarf.Forms.{indexed_offset, indexed_string, indexed_address}

-- The size of every section is a word.
abbrev pub IsSized : Tables → Type 0
IsSized t =
    IsWord (length t.debug_str)
    × IsWord (length t.debug_line_str)
    × IsWord (length t.debug_str_offsets)
    × IsWord (length t.debug_addr)
    × IsWord (length t.debug_line)
    × IsWord (length t.debug_rnglists)
    × IsWord (length t.debug_ranges)

read_attributes-IsSafe :
    (slots : ℕ) (found : List AbbreviationAttribute) → IsSafe 0 (read_attributes slots found)
unfolding read_attributes
read_attributes-IsSafe zero found = >>=-IsSafe 1 0 (omega arith) uleb-IsSafe λ attribute.
    >>=-IsSafe 1 0 (omega arith) uleb-IsSafe
      λ form. if-IsSafe (attribute == 0 && form == 0) (pure-IsSafe found) (refuse-IsSafe 0)
read_attributes-IsSafe (suc slots) found = >>=-IsSafe 1 0 (omega arith) uleb-IsSafe λ attribute.
    >>=-IsSafe 1 0 (omega arith) uleb-IsSafe λ form.
      if-IsSafe (attribute == 0 && form == 0) (pure-IsSafe found) (
        >>=-IsSafe 0 0 (omega arith)
          (if-IsSafe (form == dw_form_implicit_const) (IsSafe-weaken 1 (omega arith) sleb-IsSafe)
            (pure-IsSafe 0))
          λ implicit. read_attributes-IsSafe slots _)

abbreviation_loop-IsSafe : (fuel code : ℕ) → IsSafeIn fuel 1 (abbreviation_loop fuel code)
unfolding abbreviation_loop
abbreviation_loop-IsSafe zero code = zero-IsSafeIn 1 _
abbreviation_loop-IsSafe (suc fuel) code =
    >>=-IsSafeIn fuel 1 0 (omega arith) (omega arith) uleb-IsSafe λ entry_code.
      if-IsSafeIn (entry_code == 0) (IsSafe-IsSafeIn (refuse-IsSafe 0)) (
        >>=-IsSafeIn fuel 1 0 (omega arith) (omega arith) uleb-IsSafe λ tag.
          >>=-IsSafeIn fuel 1 0 (omega arith) (omega arith) (fixed-IsSafe 1) λ has_children.
            >>=-IsSafeIn fuel 0 0 (omega arith) (omega arith)
              (read_attributes-IsSafe max_attributes_per_abbreviation [])
              λ attributes.
                if-IsSafeIn (entry_code == code) (IsSafe-IsSafeIn (pure-IsSafe _))
                  (IsSafeIn-weaken 1 (omega arith) (abbreviation_loop-IsSafe fuel code)))

pub read_abbreviation-IsSafe : (code : ℕ) → IsSafe 1 (read_abbreviation code)
unfolding read_abbreviation
read_abbreviation-IsSafe code =
    with_fuel-IsSafe 1 (λ fuel. abbreviation_loop fuel code)
      (λ fuel. abbreviation_loop-IsSafe fuel code)

pub Option-IsSafe {ℓ κ} :
    {A : Type ℓ} {B : Type κ} {n : ℕ} (o : Option A) {r : Reader B} {f : A → Reader B}
    → IsSafe n r
    → ((a : A) → IsSafe n (f a))
    → IsSafe n (elim o [ none ↦ r | some a ↦ f a ])
Option-IsSafe none p q = p
Option-IsSafe (some a) p q = q a

read_other_form-IsSafe : (form : ℕ) → IsSafe 0 (read_other_form form)
unfolding read_other_form
read_other_form-IsSafe form =
    if-IsSafe _ (>>=-IsSafe 16 0 (omega arith) (skip-IsSafe 16) λ _. pure-IsSafe _) (
      if-IsSafe _ (>>=-IsSafe 1 0 (omega arith) uleb-IsSafe λ value. pure-IsSafe _) (
        if-IsSafe _ (>>=-IsSafe 1 0 (omega arith) sleb-IsSafe λ value. pure-IsSafe _) (
          if-IsSafe _ (>>=-IsSafe 1 0 (omega arith) string-IsSafe λ text. pure-IsSafe _) (
            if-IsSafe _
              (>>=-IsSafe 1 0 (omega arith) uleb-IsSafe
                λ length. >>=-IsSafe length 0 (omega arith) (skip-IsSafe length) λ _. pure-IsSafe _)
              (refuse-IsSafe 0)))))

read_switch-IsSafe : (form : ℕ) (tables : Tables) → IsSafe 0 (read_switch form tables)
unfolding read_switch
read_switch-IsSafe form tables =
    Option-IsSafe _
      (Option-IsSafe _ (read_other_form-IsSafe form) λ width.
        >>=-IsSafe width 0 (omega arith) (fixed-IsSafe width)
          λ length. >>=-IsSafe length 0 (omega arith) (skip-IsSafe length) λ _. pure-IsSafe _)
      λ width. >>=-IsSafe width 0 (omega arith) (fixed-IsSafe width) λ value. pure-IsSafe _

fixed_then-IsSafe : (n : ℕ) (f : ℕ → FormValue) → IsSafe 0 (fixed n >>= λ value. pure (f value))
fixed_then-IsSafe n f = >>=-IsSafe n 0 (omega arith) (fixed-IsSafe n) λ value. pure-IsSafe (f value)

form_loop-IsSafe :
    (fuel form : ℕ) (tables : Tables) (declaration : AbbreviationAttribute)
    → IsSafeIn fuel 0 (form_loop fuel form tables declaration)
unfolding form_loop
form_loop-IsSafe zero form tables declaration = zero-IsSafeIn 0 _
form_loop-IsSafe (suc fuel) form tables declaration =
    if-IsSafeIn (form == dw_form_indirect)
      (>>=-IsSafeIn fuel 1 0 (omega arith) (omega arith) uleb-IsSafe
        λ indirect. form_loop-IsSafe fuel indirect tables _)
      (IsSafe-IsSafeIn (
        if-IsSafe (form == dw_form_implicit_const) (pure-IsSafe (plain_value declaration.implicit))
          (if-IsSafe (form == dw_form_flag_present) (pure-IsSafe (plain_value 1)) (
            if-IsSafe (form == dw_form_addr) (fixed_then-IsSafe tables.address_size plain_value) (
              if-IsSafe (leb dw_form_strx1 form && leb form dw_form_strx4)
                (fixed_then-IsSafe (form - dw_form_strx1 + 1) indexed_value)
                (if-IsSafe (leb dw_form_addrx1 form && leb form dw_form_addrx4)
                  (fixed_then-IsSafe (form - dw_form_addrx1 + 1) indexed_value)
                  (read_switch-IsSafe form tables)))))))

pub read_form-IsSafe :
    (form : ℕ) (tables : Tables) (declaration : AbbreviationAttribute)
    → IsSafe 0 (read_form form tables declaration)
unfolding read_form
read_form-IsSafe form tables declaration =
    with_fuel-IsSafe 0 (λ fuel. form_loop fuel form tables declaration)
      (λ fuel. form_loop-IsSafe fuel form tables declaration)

pub indexed_offset-IsSafe :
    (table : List ℕ) (base index entry_size : ℕ)
    → IsWord (length table)
    → IsSafe 0 (indexed_offset table base index entry_size)
unfolding indexed_offset
indexed_offset-IsSafe table base index entry_size w = if-IsSafe _ (pure-IsSafe 0) (
    >>=-IsSafe 0 0 (omega arith)
      (on_section-IsSafe table _ (seek-IsSafeOn table _ entry_size w (fixed-IsSafe entry_size)))
      λ found. Option-IsSafe found (pure-IsSafe 0) (λ offset. pure-IsSafe offset))

pub indexed_string-IsSafe :
    (tables : Tables) (index : ℕ) → IsSized tables → IsSafe 0 (indexed_string tables index)
unfolding indexed_string
indexed_string-IsSafe tables index s = if-IsSafe (tables.str_offsets_base == 0) (pure-IsSafe none) (
    >>=-IsSafe 0 0 (omega arith)
      (indexed_offset-IsSafe tables.debug_str_offsets tables.str_offsets_base index
        tables.offset_size s.2)
      λ offset. pure-IsSafe (if offset == 0 then none else string_at tables.debug_str offset))

pub indexed_address-IsSafe :
    (tables : Tables) (index : ℕ) → IsSized tables → IsSafe 0 (indexed_address tables index)
unfolding indexed_address
indexed_address-IsSafe tables index s = if-IsSafe _ (pure-IsSafe none) (
    on_section-IsSafe tables.debug_addr _ (
      seek-IsSafeOn tables.debug_addr _ tables.address_size s.3 (fixed-IsSafe tables.address_size)))

-- `read_abbreviation`, from a position inside a section whose size is a word, looks at no byte
-- outside it and ends whatever the bytes are; if it finds the abbreviation, the cursor has moved on
-- by a byte at least and is still inside.
pub read_abbreviation_bounded :
    (code : ℕ) (c : Cursor) → IsInside c → Post 1 c (read_abbreviation code c)
read_abbreviation_bounded code c i = (read_abbreviation-IsSafe code).apply c i

-- `read_form`, from a position inside a section whose size is a word, looks at no byte outside it
-- and ends whatever the form and the bytes are, a chain of DW_FORM_INDIRECT included; a value
-- leaves the cursor inside the section, no further back than it was.
pub read_form_bounded :
    (form : ℕ) (tables : Tables) (declaration : AbbreviationAttribute) (c : Cursor)
    → IsInside c
    → Post 0 c (read_form form tables declaration c)
read_form_bounded form tables declaration c i = (read_form-IsSafe form tables declaration).apply c i
