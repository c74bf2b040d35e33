-- ===== src/Dwarf/Module/Safety.antt =====
-- How the loop over the units in src/debug/dwarf/module.cc moves a cursor.
use fpag.Common.{
  ℕ, zero, suc, ◌+◌, ◌<◌, ◌≡◌, ap, sym, refl, arith, ltb, leb, ◌==◌, List, [], length, IsWord,
}
use mathlib.Core.Path.{subst}
use fpag.Dwarf.Cursor.{
  SectionView, Cursor, Outcome, ok, refused, fault, stuck, Reader, pure, size, cursor, with_fuel,
}
use fpag.Dwarf.Cursor.Safety.{IsInside, IsAhead, Post, IsAhead-IsInside}
use fpag.Dwarf.Forms.{Tables}
use fpag.Dwarf.Forms.Safety.{IsSized}
use fpag.Dwarf.Ranges.{CompilationUnit}
use fpag.Dwarf.Unit.{or_return, read_unit}
use fpag.Dwarf.Unit.Safety.{read_unit_bounded}
use fpag.Dwarf.Line.Safety.{Post-if, seek_within}
use fpag.Dwarf.Module.{new_unit, keep, units_loop, read_compilation_units}

Post-or_return {ℓ κ} :
    {A : Type ℓ} {B : Type κ} (start at c : Cursor) (r : Outcome A) (b : B) (f : A → Reader B)
    → Post 0 at r
    → Post 0 start (ok b c)
    → ((a : A) (c' : Cursor) → IsAhead 0 at c' → Post 0 start (f a c'))
    → Post 0 start (elim r [ ok a c' ↦ f a c' | refused ↦ ok b c | fault ↦ fault | stuck ↦ stuck ])
Post-or_return start at c (ok a c') b f p q s = s a c' p
Post-or_return start at c refused b f p q s = q
Post-or_return start at c fault b f p q s = p
Post-or_return start at c stuck b f p q s = p

module _ (abbrev_section : SectionView) (tables : Tables) (w : IsWord (length abbrev_section))
    (sized : IsSized tables) where
  units_loop-Post :
      (fuel n offset : ℕ) (units : List CompilationUnit) (c : Cursor)
      → IsInside c
      → n ≡ size c
      → 0 < fuel
      → n < offset + fuel
      → Post 0 (cursor c.bytes) (units_loop fuel n abbrev_section tables offset units c)
  unfolding units_loop or_return
  units_loop-Post zero n offset units c i whole some_fuel left = absurd (omega arith)
  units_loop-Post (suc fuel) n offset units c i whole some_fuel left =
      let done : Post 0 (cursor c.bytes) (ok units c) = record {
        same_bytes = refl;
        ahead = omega arith;
        still_inside = i.inside;
      } in
      Post-if (ltb offset n) 0 (cursor c.bytes) c _ (pure units)
        (λ go.
          let below : offset < n = ground arith in
          let at : Cursor = record c { position = offset } in
          let i' : IsInside at = record { inside = omega arith; size_word = i.size_word } in
          let safe =
            subst (Post 0 at)
              (sym (seek_within offset (read_unit abbrev_section tables new_unit) c (omega arith)))
              (read_unit_bounded abbrev_section tables new_unit at w sized i') in
          Post-or_return (cursor c.bytes) at c _ units _ safe done λ (unit, next_offset) c' ahead.
            let same : size c' ≡ size c = ap length ahead.same_bytes in
            Post-if (leb next_offset offset) 0 (cursor c.bytes) c' (pure units) _
              (λ stays. record {
                same_bytes = ahead.same_bytes;
                ahead = omega arith;
                still_inside = ahead.still_inside;
              })
              λ on.
                let further : offset < next_offset = ground arith in
                subst
                  (λ v.
                    Post 0 (cursor v)
                      (units_loop fuel n abbrev_section tables next_offset (keep unit units) c'))
                  ahead.same_bytes
                  (units_loop-Post fuel n next_offset (keep unit units) c'
                    (IsAhead-IsInside i' ahead) (omega arith) (omega arith) (omega arith)))
        λ over. done

  -- From the start of the section of units, `read_compilation_units` looks at no byte outside its
  -- sections and ends after at most one round for each byte and one more, whatever the bytes are: a
  -- unit that does not end behind its start ends the loop. The sizes of the sections are words.
  pub read_compilation_units_bounded :
      (info : SectionView)
      → IsWord (length info)
      → Post 0 (cursor info) (read_compilation_units info abbrev_section tables (cursor info))
  unfolding read_compilation_units with_fuel
  read_compilation_units_bounded info size_word =
      let start : IsInside (cursor info) = record { inside = omega arith; size_word = size_word } in
      let done : Post {A = List CompilationUnit} 0 (cursor info) (ok [] (cursor info)) = record {
        same_bytes = refl;
        ahead = omega arith;
        still_inside = omega arith;
      } in
      Post-if (length info == 0) 0 (cursor info) (cursor info) (pure []) _ (λ _. done)
        λ _.
          Post-if (length abbrev_section == 0) 0 (cursor info) (cursor info) (pure []) _ (λ _. done)
            λ _.
              units_loop-Post (suc (length info)) (length info) 0 [] (cursor info) start refl
                (omega arith) (omega arith)
