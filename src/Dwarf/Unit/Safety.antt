-- ===== src/Dwarf/Unit/Safety.antt =====
-- How `read_unit` of src/debug/dwarf/reader.cc moves a cursor.
use fpag.Common.{
  ℕ, not, true, Option, none, some, ◌==◌, ltb, leb, ◌||◌, List, [], ◌∷◌, ◌++◌, length, IsWord,
  add64, refl, arith,
}
use fpag.Dwarf.Constants.{
  dw_tag_compile_unit, dw_ut_compile, dw_at_low_pc, dw_at_high_pc, dw_at_ranges,
  dw_at_rnglists_base, dw_form_rnglistx, dw_at_stmt_list, dw_at_name, dw_at_comp_dir,
}
use fpag.Dwarf.Cursor.{Cursor, Outcome, ok, refused, fault, stuck, SectionView, Reader, ◌>>◌, seek}
use fpag.Dwarf.Cursor.Safety.{IsInside, Post, IsSafe, pure-IsSafe, if-IsSafe, Post-bind}
use fpag.Dwarf.Cursor.Fuel.{on_section-IsSafe, seek-IsSafeOn}
use fpag.Dwarf.Forms.{Text, Tables, Abbreviation, AbbreviationAttribute, read_abbreviation}
use fpag.Dwarf.Forms.Safety.{IsSized, Option-IsSafe, read_form-IsSafe, read_abbreviation-IsSafe}
use fpag.Dwarf.Forms.Safety.{indexed_offset-IsSafe, indexed_string-IsSafe, indexed_address-IsSafe}
use fpag.Dwarf.Ranges.{CompilationUnit}
use fpag.Dwarf.LineHeader.{read_line_header}
use fpag.Dwarf.LineHeader.Safety.{
  and_then-IsSafe, number-IsSafe, width-IsSafe, here-IsSafe, read_unit_length-IsSafe,
  read_line_header-IsSafe,
}
use fpag.Dwarf.Unit.{
  Found, or_return, track, read_found, lookup, value_or, set_bases, base_tables, found_address,
  set_low, set_high, set_ranges, found_text, text_or, has_program, set_files, set_line_program,
  set_addresses, read_entry, read_root, read_typed, read_unit, name_first,
}

or_return-Post {ℓ κ} :
    {A : Type ℓ} {B : Type κ} (c : Cursor) (r : Outcome A) (b : B) (f : A → Reader B)
    → IsInside c
    → Post 0 c r
    → ((a : A) → IsSafe 0 (f a))
    → Post 0 c (elim r [ ok a c' ↦ f a c' | refused ↦ ok b c | fault ↦ fault | stuck ↦ stuck ])
or_return-Post c (ok a c') b f i p s = Post-bind 0 0 0 c (ok a c') f i (omega arith) p s
or_return-Post c refused b f i p s = record {
  same_bytes = refl;
  ahead = omega arith;
  still_inside = i.inside;
}
or_return-Post c fault b f i p s = p
or_return-Post c stuck b f i p s = p

or_return-IsSafe {ℓ κ} :
    {A : Type ℓ} {B : Type κ} (b : B) {m : Reader A} {f : A → Reader B}
    → IsSafe 0 m
    → ((a : A) → IsSafe 0 (f a))
    → IsSafe 0 (or_return m b f)
unfolding or_return
or_return-IsSafe b {m = m} {f = f} p s = record {
  apply = λ c i. or_return-Post c (m c) b f i (p.apply c i) s;
}

read_found-IsSafe :
    (tables : Tables) (declarations : List AbbreviationAttribute) (found : List Found)
    → IsSafe 0 (read_found tables declarations found)
unfolding read_found
read_found-IsSafe tables [] found = pure-IsSafe found
read_found-IsSafe tables (declaration ∷ declarations) found =
    or_return-IsSafe _ (read_form-IsSafe declaration.form tables declaration)
      λ value. read_found-IsSafe tables declarations (track declaration value found)

found_address-IsSafe :
    (tables : Tables) (f : Found) → IsSized tables → IsSafe 0 (found_address tables f)
unfolding found_address
found_address-IsSafe tables f s =
    if-IsSafe f.indexed (indexed_address-IsSafe tables f.value s) (pure-IsSafe (some f.value))

set_low-IsSafe :
    (tables : Tables) (found : List Found) (unit : CompilationUnit)
    → IsSized tables
    → IsSafe 0 (set_low tables found unit)
unfolding set_low
set_low-IsSafe tables found unit s =
    Option-IsSafe (lookup dw_at_low_pc found) (pure-IsSafe (true, unit)) λ low.
      and_then-IsSafe (found_address-IsSafe tables low s)
        λ address. Option-IsSafe address (pure-IsSafe _) λ a. pure-IsSafe _

set_high-IsSafe :
    (tables : Tables) (found : List Found) (unit : CompilationUnit)
    → IsSized tables
    → IsSafe 0 (set_high tables found unit)
unfolding set_high
set_high-IsSafe tables found unit s =
    Option-IsSafe (lookup dw_at_high_pc found) (pure-IsSafe (true, unit)) λ high.
      and_then-IsSafe (found_address-IsSafe tables high s)
        λ address. Option-IsSafe address (pure-IsSafe _) λ a. pure-IsSafe _

set_ranges-IsSafe :
    (version : ℕ) (tables : Tables) (found : List Found) (unit : CompilationUnit)
    → IsSized tables
    → IsSafe 0 (set_ranges version tables found unit)
unfolding set_ranges
set_ranges-IsSafe version tables found unit s =
    let base = value_or 0 (lookup dw_at_rnglists_base found) in
    Option-IsSafe (lookup dw_at_ranges found) (pure-IsSafe unit) λ ranges.
      if-IsSafe (ranges.form == dw_form_rnglistx)
        (and_then-IsSafe (indexed_offset-IsSafe tables.debug_rnglists base ranges.value 4 s.5)
          λ offset. pure-IsSafe (record unit { has_ranges = true; ranges = add64 offset base }))
        (pure-IsSafe
          (record unit { has_ranges = true; ranges = ranges.value; legacy_ranges = ltb version 5 }))

found_text-IsSafe :
    (tables : Tables) (f : Option Found) → IsSized tables → IsSafe 0 (found_text tables f)
unfolding found_text
found_text-IsSafe tables none s = pure-IsSafe none
found_text-IsSafe tables (some f) s =
    Option-IsSafe f.text
      (if-IsSafe f.indexed (indexed_string-IsSafe tables f.value s) (pure-IsSafe none))
      λ text. pure-IsSafe (some text)

set_files-IsSafe :
    (version : ℕ) (tables : Tables) (name : Text) (unit : CompilationUnit)
    → IsSized tables
    → IsSafe 0 (set_files version tables name unit)
unfolding set_files
set_files-IsSafe version tables name unit s =
    and_then-IsSafe
      (on_section-IsSafe tables.debug_line (seek unit.line_program >> read_line_header tables true)
        (seek-IsSafeOn tables.debug_line unit.line_program 0 s.4
          (read_line_header-IsSafe tables true)))
      λ read. Option-IsSafe read (pure-IsSafe (record unit { files = [] })) λ (header, files).
        pure-IsSafe (record unit { files = name_first version name (unit.files ++ files) })

set_line_program-IsSafe :
    (version : ℕ) (tables : Tables) (found : List Found) (unit : CompilationUnit)
    → IsSized tables
    → IsSafe 0 (set_line_program version tables found unit)
unfolding set_line_program
set_line_program-IsSafe version tables found unit s =
    if-IsSafe (has_program tables (lookup dw_at_stmt_list found))
      (and_then-IsSafe (found_text-IsSafe tables (lookup dw_at_name found) s) λ name.
        and_then-IsSafe (found_text-IsSafe tables (lookup dw_at_comp_dir found) s) λ directory.
          set_files-IsSafe version
            (record tables { working_directory = text_or tables.working_directory directory })
            (text_or [] name)
            (record unit {
              line_program = value_or 0 (lookup dw_at_stmt_list found);
              has_line_program = true;
            })
            s)
      (pure-IsSafe unit)

set_addresses-IsSafe :
    (version : ℕ) (tables : Tables) (found : List Found) (unit : CompilationUnit)
    → IsSized tables
    → IsSafe 0 (set_addresses version tables found unit)
unfolding set_addresses
set_addresses-IsSafe version tables found unit s =
    and_then-IsSafe (set_low-IsSafe tables found unit s) λ (low, unit').
      if-IsSafe (not low) (pure-IsSafe unit') (
        and_then-IsSafe (set_high-IsSafe tables found unit' s) λ (high, unit'').
          if-IsSafe (not high) (pure-IsSafe unit'') (
            and_then-IsSafe (set_ranges-IsSafe version tables found unit'' s)
              λ unit'''. set_line_program-IsSafe version tables found unit''' s))

read_entry-IsSafe :
    (version : ℕ) (tables : Tables) (declaration : Abbreviation) (unit : CompilationUnit)
    → IsSized tables
    → IsSafe 0 (read_entry version tables declaration unit)
unfolding read_entry base_tables
read_entry-IsSafe version tables declaration unit s =
    if-IsSafe (declaration.tag == dw_tag_compile_unit)
      (and_then-IsSafe (read_found-IsSafe tables declaration.attributes []) λ found.
        set_addresses-IsSafe version (base_tables found (set_bases found unit) tables) found
          (set_bases found unit) s)
      (pure-IsSafe unit)

read_root-IsSafe :
    (version : ℕ) (abbreviations : SectionView) (tables : Tables) (unit : CompilationUnit)
    → IsWord (length abbreviations)
    → IsSized tables
    → IsSafe 0 (read_root version abbreviations tables unit)
unfolding read_root
read_root-IsSafe version abbreviations tables unit w s =
    or_return-IsSafe _ (width-IsSafe tables.offset_size) λ abbrev_offset.
      or_return-IsSafe _
        (if-IsSafe (ltb version 5) (width-IsSafe 1) (pure-IsSafe unit.address_size))
        λ address_size. or_return-IsSafe _ number-IsSafe λ code.
          if-IsSafe (code == 0) (pure-IsSafe _) (
            and_then-IsSafe
              (on_section-IsSafe abbreviations (seek abbrev_offset >> read_abbreviation code)
                (seek-IsSafeOn abbreviations abbrev_offset 1 w (read_abbreviation-IsSafe code)))
              λ found. Option-IsSafe found (pure-IsSafe _) λ declaration.
                read_entry-IsSafe version (record tables { address_size = address_size })
                  declaration (record unit { address_size = address_size }) s)

read_typed-IsSafe :
    (version : ℕ) (abbreviations : SectionView) (tables : Tables) (unit : CompilationUnit)
    → IsWord (length abbreviations)
    → IsSized tables
    → IsSafe 0 (read_typed version abbreviations tables unit)
unfolding read_typed
read_typed-IsSafe version abbreviations tables unit w s =
    or_return-IsSafe _ (width-IsSafe 1) λ unit_type.
      or_return-IsSafe _ (width-IsSafe 1) λ address_size.
        if-IsSafe (unit_type == dw_ut_compile)
          (read_root-IsSafe version abbreviations tables
            (record unit { address_size = address_size }) w s)
          (pure-IsSafe _)

read_unit-IsSafe :
    (abbreviations : SectionView) (tables : Tables) (unit : CompilationUnit)
    → IsWord (length abbreviations)
    → IsSized tables
    → IsSafe 0 (read_unit abbreviations tables unit)
unfolding read_unit
read_unit-IsSafe abbreviations tables unit w s =
    and_then-IsSafe (read_unit_length-IsSafe tables.offset_size) λ (unit_length, offset_size).
      and_then-IsSafe here-IsSafe λ position.
        and_then-IsSafe
          (or_return-IsSafe unit (width-IsSafe 2) λ version.
            if-IsSafe (ltb version 2 || ltb 5 version) (pure-IsSafe unit) (
              if-IsSafe (leb 5 version)
                (read_typed-IsSafe version abbreviations
                  (record tables { offset_size = offset_size }) unit w s)
                (read_root-IsSafe version abbreviations
                  (record tables { offset_size = offset_size }) unit w s)))
          λ unit'. pure-IsSafe (unit', add64 position unit_length)

-- `read_unit`, from a position inside a section whose size is a word, looks at no byte outside any
-- of the sections and ends whatever their bytes are, if the sizes of the sections are words; a unit
-- leaves the cursor inside the section, no further back than it was.
pub read_unit_bounded :
    (abbreviations : SectionView) (tables : Tables) (unit : CompilationUnit) (c : Cursor)
    → IsWord (length abbreviations)
    → IsSized tables
    → IsInside c
    → Post 0 c (read_unit abbreviations tables unit c)
read_unit_bounded abbreviations tables unit c w s i =
    (read_unit-IsSafe abbreviations tables unit w s).apply c i
