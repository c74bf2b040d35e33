-- ===== src/Dwarf/LineHeader/Safety.antt =====
-- How `read_line_header` of src/debug/dwarf/reader.cc moves a cursor.
use fpag.Common.{ℕ, zero, suc, ◌-◌, Bool, not, ◌||◌, ◌&&◌, arith, ◌==◌, leb, List, [], ◌∷◌, ◌++◌}
use fpag.Common.{if◌then◌else◌, add64, sub64, refl}
use fpag.Dwarf.Constants.{dwarf64_unit_length, reserved_unit_length, max_line_header_entries}
use fpag.Dwarf.Cursor.{Cursor, Reader, ◌>>=◌, fixed, uleb, here, section_size}
use fpag.Dwarf.Cursor.Safety.{
  IsInside, Post, IsSafe, >>=-IsSafe, pure-IsSafe, refuse-IsSafe, require-IsSafe, if-IsSafe,
  IsSafe-weaken, fixed-IsSafe, uleb-IsSafe, string-IsSafe,
}
use fpag.Dwarf.Cursor.Fuel.{
  IsSafeIn, IsSafe-IsSafeIn, >>=-IsSafeIn, if-IsSafeIn, zero-IsSafeIn, with_fuel-IsSafe,
}
use fpag.Dwarf.Forms.{Text, Tables, is_empty}
use fpag.Dwarf.Forms.Safety.{read_form-IsSafe}
use fpag.Dwarf.LineHeader.{
  LineHeader, read_unit_length, header_address_size, read_lengths, formats_loop, read_formats,
  no_attribute, read_entry, directories_loop, files_loop, read_tables, legacy_directories,
  legacy_files, read_legacy_tables, read_opcode_fields, read_line_header, new_header,
}

-- Reads in a row, where how far each moves on does not matter.
pub and_then-IsSafe {ℓ κ} :
    {A : Type ℓ} {B : Type κ} {r : Reader A} {f : A → Reader B}
    → IsSafe 0 r
    → ((a : A) → IsSafe 0 (f a))
    → IsSafe 0 (r >>= f)
and_then-IsSafe p s = >>=-IsSafe 0 0 (omega arith) p s

pub number-IsSafe : IsSafe 0 uleb
number-IsSafe = IsSafe-weaken 1 (omega arith) uleb-IsSafe

pub width-IsSafe : (n : ℕ) → IsSafe 0 (fixed n)
width-IsSafe n = IsSafe-weaken n (omega arith) (fixed-IsSafe n)

pub here-IsSafe : IsSafe 0 here
here-IsSafe = record {
  apply = λ c i. record { same_bytes = refl; ahead = omega arith; still_inside = i.inside };
}

section_size-IsSafe : IsSafe 0 section_size
section_size-IsSafe = record {
  apply = λ c i. record { same_bytes = refl; ahead = omega arith; still_inside = i.inside };
}

pub read_unit_length-IsSafe : (offset_size : ℕ) → IsSafe 0 (read_unit_length offset_size)
unfolding read_unit_length
read_unit_length-IsSafe offset_size = and_then-IsSafe (width-IsSafe 4) λ first.
    and_then-IsSafe
      (if-IsSafe (first == dwarf64_unit_length)
        (and_then-IsSafe (width-IsSafe 8) λ long. pure-IsSafe (long, 8))
        (if-IsSafe (leb reserved_unit_length first) (refuse-IsSafe 0)
          (pure-IsSafe (first, offset_size))))
      λ (unit_length, offset_size'). and_then-IsSafe section_size-IsSafe λ size.
        and_then-IsSafe here-IsSafe λ position.
          and_then-IsSafe (require-IsSafe (leb unit_length (sub64 size position)))
            λ _. pure-IsSafe (unit_length, offset_size')

header_address_size-IsSafe :
    (version : ℕ) (tables : Tables) → IsSafe 0 (header_address_size version tables)
unfolding header_address_size
header_address_size-IsSafe version tables =
    if-IsSafe (leb 5 version)
      (and_then-IsSafe (width-IsSafe 1) λ address_size. and_then-IsSafe (width-IsSafe 1) λ segment.
        and_then-IsSafe (require-IsSafe (not (address_size == 0 || leb 9 address_size)))
          λ _. pure-IsSafe address_size)
      (pure-IsSafe tables.address_size)

read_lengths-IsSafe : (n : ℕ) (lengths : List ℕ) → IsSafe 0 (read_lengths n lengths)
unfolding read_lengths
read_lengths-IsSafe zero lengths = pure-IsSafe lengths
read_lengths-IsSafe (suc n) lengths =
    and_then-IsSafe (width-IsSafe 1) λ length. read_lengths-IsSafe n (lengths ++ (length ∷ []))

formats_loop-IsSafe : (n : ℕ) (formats : List (ℕ × ℕ)) → IsSafe 0 (formats_loop n formats)
unfolding formats_loop
formats_loop-IsSafe zero formats = pure-IsSafe formats
formats_loop-IsSafe (suc n) formats = and_then-IsSafe number-IsSafe λ content.
    and_then-IsSafe number-IsSafe λ form. formats_loop-IsSafe n (formats ++ ((content, form) ∷ []))

read_formats-IsSafe : IsSafe 0 read_formats
unfolding read_formats
read_formats-IsSafe = and_then-IsSafe number-IsSafe λ count.
    and_then-IsSafe (require-IsSafe (leb count max_line_header_entries))
      λ _. formats_loop-IsSafe count []

read_entry-IsSafe :
    (tables : Tables) (formats : List (ℕ × ℕ)) (path : Text) (index : ℕ)
    → IsSafe 0 (read_entry tables formats path index)
unfolding read_entry
read_entry-IsSafe tables [] path index = pure-IsSafe (path, index)
read_entry-IsSafe tables ((content, form) ∷ formats) path index =
    and_then-IsSafe (read_form-IsSafe form tables no_attribute)
      λ value. read_entry-IsSafe tables formats _ _

directories_loop-IsSafe :
    (n : ℕ) (tables : Tables) (formats : List (ℕ × ℕ)) (found : List Text)
    → IsSafe 0 (directories_loop n tables formats found)
unfolding directories_loop
directories_loop-IsSafe zero tables formats found = pure-IsSafe found
directories_loop-IsSafe (suc n) tables formats found =
    and_then-IsSafe (read_entry-IsSafe tables formats [] 0)
      λ (path, index). directories_loop-IsSafe n tables formats (found ++ (path ∷ []))

files_loop-IsSafe :
    (n : ℕ) (tables : Tables) (formats : List (ℕ × ℕ)) (directories : List Text) (wanted : Bool)
    (files : List Text)
    → IsSafe 0 (files_loop n tables formats directories wanted files)
unfolding files_loop
files_loop-IsSafe zero tables formats directories wanted files = pure-IsSafe files
files_loop-IsSafe (suc n) tables formats directories wanted files =
    and_then-IsSafe (read_entry-IsSafe tables formats [] 0)
      λ (path, index). files_loop-IsSafe n tables formats directories wanted _

read_tables-IsSafe : (tables : Tables) (wanted : Bool) → IsSafe 0 (read_tables tables wanted)
unfolding read_tables
read_tables-IsSafe tables wanted = and_then-IsSafe read_formats-IsSafe λ formats.
    and_then-IsSafe number-IsSafe λ count.
      and_then-IsSafe (directories_loop-IsSafe count tables formats []) λ directories.
        and_then-IsSafe read_formats-IsSafe λ file_formats.
          and_then-IsSafe number-IsSafe
            λ file_count. files_loop-IsSafe file_count tables file_formats directories wanted []

legacy_directories-IsSafe :
    (fuel : ℕ) (found : List Text) → IsSafeIn fuel 0 (legacy_directories fuel found)
unfolding legacy_directories
legacy_directories-IsSafe zero found = zero-IsSafeIn 0 _
legacy_directories-IsSafe (suc fuel) found =
    >>=-IsSafeIn fuel 1 0 (omega arith) (omega arith) string-IsSafe λ directory.
      if-IsSafeIn (is_empty directory) (IsSafe-IsSafeIn (pure-IsSafe found))
        (legacy_directories-IsSafe fuel (found ++ (directory ∷ [])))

legacy_files-IsSafe :
    (fuel : ℕ) (tables : Tables) (directories : List Text) (wanted : Bool) (files : List Text)
    → IsSafeIn fuel 0 (legacy_files fuel tables directories wanted files)
unfolding legacy_files
legacy_files-IsSafe zero tables directories wanted files = zero-IsSafeIn 0 _
legacy_files-IsSafe (suc fuel) tables directories wanted files =
    >>=-IsSafeIn fuel 1 0 (omega arith) (omega arith) string-IsSafe λ path.
      if-IsSafeIn (is_empty path) (IsSafe-IsSafeIn (pure-IsSafe files)) (
        >>=-IsSafeIn fuel 0 0 (omega arith) (omega arith) number-IsSafe λ index.
          >>=-IsSafeIn fuel 0 0 (omega arith) (omega arith) number-IsSafe λ timestamp.
            >>=-IsSafeIn fuel 0 0 (omega arith) (omega arith) number-IsSafe
              λ length. legacy_files-IsSafe fuel tables directories wanted _)

read_legacy_tables-IsSafe :
    (tables : Tables) (wanted : Bool) → IsSafe 0 (read_legacy_tables tables wanted)
unfolding read_legacy_tables
read_legacy_tables-IsSafe tables wanted =
    and_then-IsSafe
      (with_fuel-IsSafe 0 (λ fuel. legacy_directories fuel [])
        λ fuel. legacy_directories-IsSafe fuel [])
      λ directories.
        with_fuel-IsSafe 0
          (λ fuel. legacy_files fuel tables directories wanted (if wanted then [] ∷ [] else []))
          λ fuel. legacy_files-IsSafe fuel tables directories wanted _

read_opcode_fields-IsSafe : (header : LineHeader) → IsSafe 0 (read_opcode_fields header)
unfolding read_opcode_fields
read_opcode_fields-IsSafe header = and_then-IsSafe (width-IsSafe 1) λ minimum.
    and_then-IsSafe (if-IsSafe (leb 4 header.version) (width-IsSafe 1) (pure-IsSafe 1)) λ maximum.
      and_then-IsSafe (width-IsSafe 1) λ default_is_stmt.
        and_then-IsSafe (width-IsSafe 1) λ line_base. and_then-IsSafe (width-IsSafe 1) λ line_range.
          and_then-IsSafe (width-IsSafe 1) λ opcode_base. and_then-IsSafe (require-IsSafe _) λ _.
            and_then-IsSafe (read_lengths-IsSafe (opcode_base - 1) (0 ∷ []))
              λ lengths. pure-IsSafe _

pub read_line_header-IsSafe :
    (tables : Tables) (wanted : Bool) → IsSafe 0 (read_line_header tables wanted)
unfolding read_line_header
read_line_header-IsSafe tables wanted =
    and_then-IsSafe (read_unit_length-IsSafe tables.offset_size) λ (unit_length, offset_size).
      and_then-IsSafe here-IsSafe λ after_length. and_then-IsSafe (width-IsSafe 2) λ version.
        and_then-IsSafe (require-IsSafe (leb 2 version && leb version 5)) λ _.
          and_then-IsSafe (header_address_size-IsSafe version tables) λ address_size.
            and_then-IsSafe (width-IsSafe offset_size) λ header_length.
              and_then-IsSafe here-IsSafe λ position. and_then-IsSafe section_size-IsSafe λ size.
                and_then-IsSafe
                  (require-IsSafe (
                    leb header_length (sub64 (add64 after_length unit_length) position)
                    && leb (add64 after_length unit_length) size))
                  λ _.
                    and_then-IsSafe
                      (read_opcode_fields-IsSafe (
                        new_header version address_size (add64 position header_length)
                          (add64 after_length unit_length)))
                      λ header.
                        and_then-IsSafe
                          (if-IsSafe (leb 5 version)
                            (read_tables-IsSafe
                              (record tables {
                                offset_size = offset_size;
                                address_size = address_size;
                              })
                              wanted)
                            (read_legacy_tables-IsSafe
                              (record tables {
                                offset_size = offset_size;
                                address_size = address_size;
                              })
                              wanted))
                          λ files. pure-IsSafe (header, files)

-- `read_line_header`, from a position inside a section whose size is a word, looks at no byte
-- outside it and ends whatever the bytes are, with and without a file table; a header leaves the
-- cursor inside the section, no further back than it was.
pub read_line_header_bounded :
    (tables : Tables) (wanted : Bool) (c : Cursor)
    → IsInside c
    → Post 0 c (read_line_header tables wanted c)
read_line_header_bounded tables wanted c i = (read_line_header-IsSafe tables wanted).apply c i
