-- ===== src/Dwarf/Line/Safety.antt =====
-- How the line program of src/debug/dwarf/reader.cc moves a cursor.
use fpag.Common.{
  ℕ, zero, suc, ◌+◌, ◌-◌, ◌/◌, Bool, true, false, ◌≤◌, ◌<◌, ◌≡◌, ap, ◌∙◌, refl, sym, arith, ◌==◌,
  leb, ltb, ◌&&◌, not, List, add64, sub64,
}
use fpag.Common.{if◌then◌else◌, length}
use mathlib.Core.Path.{subst}
use fpag.Dwarf.Cursor.Uleb.{>>=-ok}
use fpag.Dwarf.Constants.{
  dw_lns_copy, dw_lns_advance_pc, dw_lns_advance_line, dw_lns_set_file, dw_lns_set_column,
  dw_lns_const_add_pc, dw_lns_fixed_advance_pc, dw_lns_set_isa, dw_lne_end_sequence,
  dw_lne_set_address,
}
use fpag.Dwarf.Cursor.{
  Cursor, Outcome, ok, refused, fault, stuck, Reader, ◌>>◌, pure, refuse, size, cursor, seek, fixed,
  uleb,
}
use fpag.Dwarf.Cursor.Safety.{
  IsInside, IsAhead, Post, IsSafe, IsAhead-IsInside, Post-after, pure-IsSafe, if-IsSafe,
  IsSafe-weaken, fixed-IsSafe, uleb-IsSafe, sleb-IsSafe,
}
use fpag.Dwarf.LineHeader.{LineHeader}
use fpag.Dwarf.LineHeader.Safety.{and_then-IsSafe, number-IsSafe, width-IsSafe}
use fpag.Dwarf.Forms.{Text}
use fpag.Dwarf.Line.{
  LineState, initial_state, emit_row, advance, special, end_sequence, extended_body, extended,
  skip_operands, operand_count, is_silent, standard_rest, standard, line_step, answered, line_loop,
  run_program,
}

extended_body-IsSafe :
    (header : LineHeader) (files : List Text) (link_address : ℕ) (s : LineState)
    → IsSafe 0 (extended_body header files link_address s)
unfolding extended_body
extended_body-IsSafe header files link_address s = and_then-IsSafe (width-IsSafe 1) λ sub_opcode.
    if-IsSafe (sub_opcode == dw_lne_end_sequence) (pure-IsSafe (end_sequence files link_address s))
      (if-IsSafe (sub_opcode == dw_lne_set_address)
        (and_then-IsSafe (width-IsSafe header.address_size)
          λ address. pure-IsSafe (emit_row files link_address (record s { address = address })))
        (pure-IsSafe s))

skip_operands-IsSafe : (n : ℕ) → IsSafe 0 (skip_operands n)
unfolding skip_operands
skip_operands-IsSafe zero = pure-IsSafe tt
skip_operands-IsSafe (suc n) = and_then-IsSafe number-IsSafe λ operand. skip_operands-IsSafe n

standard_rest-IsSafe :
    (header : LineHeader) (opcode : ℕ) (s : LineState) → IsSafe 0 (standard_rest header opcode s)
unfolding standard_rest
standard_rest-IsSafe header opcode s =
    if-IsSafe (opcode == dw_lns_set_column)
      (and_then-IsSafe number-IsSafe λ operand. pure-IsSafe (record s { column = operand }))
      (if-IsSafe (opcode == dw_lns_const_add_pc)
        (pure-IsSafe (advance header ((255 - header.opcode_base) / header.line_range) s))
        (if-IsSafe (opcode == dw_lns_fixed_advance_pc)
          (and_then-IsSafe (width-IsSafe 2)
            λ operand. pure-IsSafe (record s { address = add64 s.address operand }))
          (if-IsSafe (opcode == dw_lns_set_isa)
            (and_then-IsSafe number-IsSafe λ operand. pure-IsSafe s)
            (if-IsSafe (is_silent opcode) (pure-IsSafe s) (
              and_then-IsSafe (skip_operands-IsSafe (operand_count header opcode))
                λ _. pure-IsSafe s)))))

standard-IsSafe :
    (header : LineHeader) (files : List Text) (link_address opcode : ℕ) (s : LineState)
    → IsSafe 0 (standard header files link_address opcode s)
unfolding standard
standard-IsSafe header files link_address opcode s =
    if-IsSafe (opcode == dw_lns_copy) (pure-IsSafe (emit_row files link_address s)) (
      if-IsSafe (opcode == dw_lns_advance_pc)
        (and_then-IsSafe number-IsSafe λ operand. pure-IsSafe (advance header operand s))
        (if-IsSafe (opcode == dw_lns_advance_line)
          (and_then-IsSafe (IsSafe-weaken 1 (omega arith) sleb-IsSafe)
            λ delta. pure-IsSafe (record s { line_number = add64 s.line_number delta }))
          (if-IsSafe (opcode == dw_lns_set_file)
            (and_then-IsSafe number-IsSafe λ operand. pure-IsSafe (record s { file = operand }))
            (standard_rest-IsSafe header opcode s))))

-- The rule for `>>=` where the second reader is only looked at where the first has left the cursor,
-- and the whole is measured from another one.
Post-bind_from {ℓ κ} :
    {A : Type ℓ} {B : Type κ} (n k : ℕ) (start c : Cursor) (r : Outcome A) (f : A → Reader B)
    → Post n c r
    → ((a : A) (c' : Cursor) → IsAhead n c c' → Post k start (f a c'))
    → Post k start (elim r [ ok a c' ↦ f a c' | refused ↦ refused | fault ↦ fault | stuck ↦ stuck ])
Post-bind_from n k start c (ok a c') f p s = s a c' p
Post-bind_from n k start c refused f p s = tt
Post-bind_from n k start c fault f p s = p
Post-bind_from n k start c stuck f p s = p

Post-bind_at {ℓ κ} :
    {A : Type ℓ} {B : Type κ} (n m k : ℕ) (c : Cursor) (r : Outcome A) (f : A → Reader B)
    → k ≤ n + m
    → Post n c r
    → ((a : A) (c' : Cursor) → IsAhead n c c' → Post m c' (f a c'))
    → Post k c (elim r [ ok a c' ↦ f a c' | refused ↦ refused | fault ↦ fault | stuck ↦ stuck ])
Post-bind_at n m k c r f h p s =
    Post-bind_from n k c c r f p λ a c' ahead. Post-after n m k c c' (f a c') h ahead (s a c' ahead)

pub Post-if {ℓ} :
    {A : Type ℓ} (b : Bool) (n : ℕ) (start c : Cursor) (r s : Reader A)
    → (b ≡ true → Post n start (r c))
    → (b ≡ false → Post n start (s c))
    → Post n start ((if b then r else s) c)
Post-if true n start c r s p q = p refl
Post-if false n start c r s p q = q refl

pub seek_within {ℓ} :
    {A : Type ℓ} (p : ℕ) (m : Reader A) (c : Cursor)
    → p ≤ size c
    → (seek p >> m) c ≡ m (record c { position = p })
unfolding seek
seek_within p m c h =
    let test : ltb (size c) p ≡ false = ground arith in >>=-ok (seek p) (λ _. m) c (rw test refl)

-- A seek to a position that is not before the start is safe wherever the cursor has gone.
seek_past :
    (c : Cursor) (r : Outcome LineState) (p : ℕ)
    → c.position ≤ p
    → p ≤ size c
    → Post 0 c r
    → Post 0 c (elim r [
      | ok s c' ↦ (seek p >> pure s) c'
      | refused ↦ refused
      | fault ↦ fault
      | stuck ↦ stuck
    ])
seek_past c r p ahead within h =
    Post-bind_from 0 0 c c r (λ s. seek p >> pure s) h
      λ s c' moved.
        let same : size c' ≡ size c = ap length moved.same_bytes in
        subst (Post 0 c) (sym (seek_within p (pure s) c' (omega arith)))
          (record { same_bytes = moved.same_bytes; ahead = omega arith; still_inside = within })

extended-Post :
    (header : LineHeader) (files : List Text) (link_address : ℕ) (s : LineState) (c : Cursor)
    → IsInside c
    → header.end ≡ size c
    → Post 0 c (extended header files link_address s c)
unfolding extended
extended-Post header files link_address s c i last =
    Post-bind_at 1 0 0 c (uleb c) _ (omega arith) (uleb-IsSafe.apply c i) λ length_read c' ahead.
      let i' = IsAhead-IsInside i ahead in
      let same : size c' ≡ size c = ap length ahead.same_bytes in
      Post-if (ltb (sub64 header.end c'.position) length_read) 0 c' c' refuse _ (λ over. tt)
        λ fits.
          let room : length_read + c'.position ≤ size c' =
            ground (arith, i'.size_word, i'.inside) in
          let plain : add64 c'.position length_read ≡ c'.position + length_read =
            omega (arith, i'.size_word) in
          seek_past c' (extended_body header files link_address s c')
            (add64 c'.position length_read) (omega arith) (omega arith)
            ((extended_body-IsSafe header files link_address s).apply c' i')

line_step-Post :
    (header : LineHeader) (files : List Text) (link_address : ℕ) (s : LineState) (c : Cursor)
    → IsInside c
    → header.end ≡ size c
    → Post 1 c (line_step header files link_address s c)
unfolding line_step
line_step-Post header files link_address s c i last =
    Post-bind_at 1 0 1 c (fixed 1 c) _ (omega arith) ((fixed-IsSafe 1).apply c i) λ opcode c' ahead.
      let i' = IsAhead-IsInside i ahead in
      let same : size c' ≡ size c = ap length ahead.same_bytes in
      Post-if (leb header.opcode_base opcode) 0 c' c' _ _
        (λ _. (pure-IsSafe (special header files link_address opcode s)).apply c' i')
        λ _.
          Post-if (opcode == 0) 0 c' c' _ _
            (λ _. extended-Post header files link_address s c' i' (last ∙ sym same))
            λ _. (standard-IsSafe header files link_address opcode s).apply c' i'

line_loop-Post :
    (fuel : ℕ) (header : LineHeader) (files : List Text) (link_address position : ℕ) (s : LineState)
    (c : Cursor)
    → IsInside c
    → header.end ≡ size c
    → 0 < fuel
    → size c < position + fuel
    → Post 0 (cursor c.bytes) (line_loop fuel header files link_address position s c)
unfolding line_loop
line_loop-Post zero header files link_address position s c i last some_fuel left =
    absurd (omega arith)
line_loop-Post (suc fuel) header files link_address position s c i last some_fuel left =
    Post-if (ltb position header.end && not (answered s)) 0 (cursor c.bytes) c _ (pure s.answer)
      (λ go.
        let below : position < size c = ground arith in
        let at : Cursor = record c { position = position } in
        let i' : IsInside at = record { inside = omega arith; size_word = i.size_word } in
        subst (Post 0 (cursor c.bytes)) (sym (seek_within position _ c (omega arith))) (
          Post-bind_from 1 0 (cursor c.bytes) at (line_step header files link_address s at) _
            (line_step-Post header files link_address s at i' last)
            λ s' c' ahead.
              let same : size c' ≡ size c = ap length ahead.same_bytes in
              subst
                (λ v.
                  Post 0 (cursor v) (line_loop fuel header files link_address c'.position s' c'))
                ahead.same_bytes
                (line_loop-Post fuel header files link_address c'.position s' c'
                  (IsAhead-IsInside i' ahead) (last ∙ sym same)
                  (omega (arith, ahead.ahead, ahead.still_inside)) (omega (arith, ahead.ahead)))))
      λ over. record { same_bytes = refl; ahead = omega arith; still_inside = i.inside }

-- If the unit of a line program ends where the section ends, and the size of the section is a word,
-- `run_program` looks at no byte outside the section and ends after at most one round for each byte
-- and one more, whatever the program is; an answer leaves the cursor inside the section.
pub run_program_bounded :
    (header : LineHeader) (files : List Text) (link_address : ℕ) (c : Cursor)
    → IsInside c
    → header.end ≡ size c
    → Post 0 (cursor c.bytes) (run_program header files link_address c)
unfolding run_program
run_program_bounded header files link_address c i last =
    line_loop-Post (suc (size c)) header files link_address header.program initial_state c i last
      (omega arith) (omega arith)
