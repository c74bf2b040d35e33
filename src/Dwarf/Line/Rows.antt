-- ===== src/Dwarf/Line/Rows.antt =====
-- The rows that the line program of src/debug/dwarf/reader.cc emits, one sequence after the other.
use fpag.Common.{
  ℕ, ◌≡◌, ◌%◌, ◌^◌, refl, sym, ap, ◌∙◌, arith, Bool, true, false, not, ◌&&◌, ◌||◌, Bool-cases,
  Option-cases, inl, inr, Option, none, some, List, [], ◌∷◌, length, get_elem?, ltb, leb,
  if◌then◌else◌, if_true, if_false, ◌<◌, zero, suc, split_if,
}
use mathlib.Core.Path.{ap₂}
use fpag.Dwarf.Forms.{Text, is_empty}
use fpag.Dwarf.Line.{
  SourcePosition, LineState, not_positive, row_answer, open_row, close_row_at, emit_row,
  end_sequence,
}

-- The registers where a row is emitted.
pub record Row : Type 0 where
  pub address : ℕ
  pub file : ℕ
  pub line_number : ℕ
  pub column : ℕ

-- Rows, and the address where the sequence ends.
pub record Sequence : Type 0 where
  pub rows : List Row
  pub end : ℕ

abbrev pub set_registers : Row → LineState → LineState
set_registers r s = record s {
  address = r.address;
  file = r.file;
  line_number = r.line_number;
  column = r.column;
}

-- As the loop does, the run stops where it has an answer.
abbrev pub unless_answered : LineState → LineState → LineState
unless_answered s next = elim s.answer [ none ↦ next | some p ↦ s ]

-- Every row is emitted in turn, and the sequence is ended.
unfoldable pub run_rows : List Text → ℕ → List Row → ℕ → LineState → LineState
run_rows files link_address [] end s = end_sequence files link_address (record s { address = end })
run_rows files link_address (r ∷ rows) end s =
    let s' = emit_row files link_address (set_registers r s) in
    unless_answered s' (run_rows files link_address rows end s')

unfoldable pub run_sequences : List Text → ℕ → List Sequence → LineState → LineState
unfolding run_rows
run_sequences files link_address [] s = s
run_sequences files link_address (q ∷ later) s =
    let s' = run_rows files link_address q.rows q.end s in
    unless_answered s' (run_sequences files link_address later s')

abbrev pub or_else : Option SourcePosition → Option SourcePosition → Option SourcePosition
or_else none later = later
or_else (some p) later = some p

-- The position that a row names: of a file with a name, on a line above zero.
abbrev pub named_file : Row → Option Text → Option SourcePosition
named_file r none = none
named_file r (some file) =
    if is_empty file || not_positive r.line_number
    then none
    else some (record { file = file; line = r.line_number % 2 ^ 32; column = r.column % 2 ^ 32 })

-- A row is about the addresses from its own up to the end it is given.
abbrev pub position_in : List Text → ℕ → Row → ℕ → Option SourcePosition
position_in files link_address r end =
    if leb r.address link_address && ltb link_address end
    then named_file r (get_elem? files r.file)
    else none

-- A row ends where the next one begins, and the last one where the sequence ends.
unfoldable pub first_from : List Text → ℕ → Row → List Row → ℕ → Option SourcePosition
first_from files link_address r [] end = position_in files link_address r end
first_from files link_address r (next ∷ rows) end =
    or_else (position_in files link_address r next.address)
      (first_from files link_address next rows end)

abbrev pub first_position : List Text → ℕ → List Row → ℕ → Option SourcePosition
first_position files link_address [] end = none
first_position files link_address (r ∷ rows) end = first_from files link_address r rows end

unfoldable pub first_sequence : List Text → ℕ → List Sequence → Option SourcePosition
unfolding first_from
first_sequence files link_address [] = none
first_sequence files link_address (q ∷ later) =
    or_else (first_position files link_address q.rows q.end)
      (first_sequence files link_address later)

-- The open row is r, and nothing is answered.
record IsAt (r : Row) (s : LineState) : Type 0 where
  is_open : s.row_open ≡ true
  from : s.row_address ≡ r.address
  in_file : s.row_file ≡ r.file
  on_line : s.row_line ≡ r.line_number
  at_column : s.row_column ≡ r.column
  unanswered : s.answer ≡ none

-- No row is open, and nothing is answered.
pub record IsClosed (s : LineState) : Type 0 where
  pub shut : s.row_open ≡ false
  pub unanswered : s.answer ≡ none

-- The state after a run, against what the run has to answer: the answer, or one to go on from.
record IsRun (P : LineState → Type 0) (o : Option SourcePosition) (s : LineState) : Type 0 where
  answer : s.answer ≡ o
  onward : o ≡ none → P s

module _ (files : List Text) (link_address : ℕ) where
  get_elem?-lt : (xs : List Text) (i : ℕ) (a : Text) → get_elem? xs i ≡ some a → i < length xs
  get_elem?-lt [] i a e = ground arith
  get_elem?-lt (x ∷ xs) zero a e = omega arith
  get_elem?-lt (x ∷ xs) (suc i) a e = omega (arith, get_elem?-lt xs i a e)

  close-closed : (s : LineState) (end : ℕ) → IsClosed s → close_row_at files link_address end s ≡ s
  unfolding close_row_at
  close-closed s end c = rw (c.shut, close_row_at) refl

  -- The test of `close_row_at` on the open row.
  abbrev is_outside : ℕ → Row → Bool
  is_outside end r =
      ltb link_address r.address
      || (leb end link_address || (leb (length files) r.file || not_positive r.line_number))

  within_outside :
      (r : Row) (end : ℕ) → is_outside end r ≡ true → position_in files link_address r end ≡ none
  within_outside r end out =
      split_if (λ o. o ≡ none) (leb r.address link_address && ltb link_address end)
        (λ e. elim (Option-cases (get_elem? files r.file)) [
          | inl absent ↦ ap (named_file r) absent
          | inr (file, found) ↦
              let room = get_elem?-lt files r.file file found in
              let low : (is_empty file || not_positive r.line_number) ≡ true =
                ground (arith, out, e, room) in
              ap (named_file r) found ∙ if_true _ _ low
        ])
        (λ e. refl)

  row_answer_lem :
      (r : Row) (s : LineState) (end : ℕ)
      → IsAt r s
      → is_outside end r ≡ false
      → row_answer files s ≡ position_in files link_address r end
  unfolding row_answer
  row_answer_lem r s end a inside =
      let here : (leb r.address link_address && ltb link_address end) ≡ true =
        ground (arith, inside) in
      elim (Option-cases (get_elem? files r.file)) [
        | inl absent ↦
            rw (a.in_file, row_answer) (rw absent a.unanswered)
            ∙ sym (if_true _ _ here ∙ ap (named_file r) absent)
        | inr (file, found) ↦
            let shown : ℕ → ℕ → Option SourcePosition =
              λ l k. some (record { file = file; line = l % 2 ^ 32; column = k % 2 ^ 32 }) in
            elim (Bool-cases (is_empty file)) [
              | inl empty ↦
                  let low : (is_empty file || not_positive r.line_number) ≡ true =
                    ground (arith, empty) in
                  rw (a.in_file, row_answer) (rw found (if_true _ _ empty ∙ a.unanswered))
                  ∙ sym (if_true _ _ here ∙ ap (named_file r) found ∙ if_true _ _ low)
              | inr full ↦
                  let low : (is_empty file || not_positive r.line_number) ≡ false =
                    ground (arith, full, inside) in
                  rw (a.in_file, row_answer)
                    (rw found (if_false _ _ full ∙ ap₂ shown a.on_line a.at_column))
                  ∙ sym (if_true _ _ here ∙ ap (named_file r) found ∙ if_false _ _ low)
            ]
      ]

  close-answer :
      (r : Row) (s : LineState) (end : ℕ)
      → IsAt r s
      → (close_row_at files link_address end s).answer ≡ position_in files link_address r end
  unfolding close_row_at
  close-answer r s end a =
      let test = λ (b : Bool). if b then s else record s { answer = row_answer files s } in
      let same : (not s.row_open
            || (ltb link_address s.row_address
                || (leb end link_address
                    || (leb (length files) s.row_file || not_positive s.row_line))))
          ≡ is_outside end r =
        rw (a.is_open, a.from, a.in_file, a.on_line) refl in
      elim (Bool-cases (is_outside end r)) [
        | inl out ↦
            ap (λ b. (test b).answer) (same ∙ out) ∙ a.unanswered ∙ sym (within_outside r end out)
        | inr inside ↦ ap (λ b. (test b).answer) (same ∙ inside) ∙ row_answer_lem r s end a inside
      ]

  -- `close_row_at` changes nothing but the answer.
  close-keeps :
      (P : LineState → Type 0) (s : LineState) (end : ℕ)
      → ((o : Option SourcePosition) → P (record s { answer = o }))
      → P (close_row_at files link_address end s)
  unfolding close_row_at
  close-keeps P s end h =
      split_if P
        (not s.row_open
          || (ltb link_address s.row_address
              || (leb end link_address
                  || (leb (length files) s.row_file || not_positive s.row_line))))
        (λ e. h s.answer) (λ e. h (row_answer files s))

  abbrev emitted : Row → LineState → LineState
  emitted r s = emit_row files link_address (set_registers r s)

  emitted-answer :
      (r : Row) (s : LineState)
      → (emitted r s).answer
        ≡ (close_row_at files link_address r.address (set_registers r s)).answer
  unfolding emit_row open_row
  emitted-answer r s = refl

  emitted-IsAt : (r : Row) (s : LineState) → (emitted r s).answer ≡ none → IsAt r (emitted r s)
  unfolding emit_row open_row
  emitted-IsAt r s e =
      let t = set_registers r s in
      let keeps : (Q : LineState → Type 0)
          → ((o : Option SourcePosition) → Q (record t { answer = o }))
          → Q (close_row_at files link_address r.address t) =
        λ Q h. close-keeps Q t r.address h in
      record {
        is_open = refl;
        from = keeps (λ u. u.address ≡ r.address) (λ o. refl);
        in_file = keeps (λ u. u.file ≡ r.file) (λ o. refl);
        on_line = keeps (λ u. u.line_number ≡ r.line_number) (λ o. refl);
        at_column = keeps (λ u. u.column ≡ r.column) (λ o. refl);
        unanswered = e;
      }

  IsAt-registers : (r n : Row) (s : LineState) → IsAt r s → IsAt r (set_registers n s)
  IsAt-registers r n s a = record {
    is_open = a.is_open;
    from = a.from;
    in_file = a.in_file;
    on_line = a.on_line;
    at_column = a.at_column;
    unanswered = a.unanswered;
  }

  -- One run behind another.
  IsRun-then :
      (P Q : LineState → Type 0) (o o' : Option SourcePosition) (s t : LineState)
      → IsRun P o s
      → (P s → IsRun Q o' t)
      → IsRun Q (or_else o o') (unless_answered s t)
  IsRun-then P Q none o' s t i next = rw (i.answer, unless_answered) (next (i.onward refl))
  IsRun-then P Q (some p) o' s t i next =
      rw (i.answer, unless_answered)
        (record { answer = i.answer; onward = λ e. absurd (ground (arith, e)) })

  ended :
      (s : LineState) (end : ℕ) (o : Option SourcePosition)
      → (close_row_at files link_address end (record s { address = end })).answer ≡ o
      → IsRun IsClosed o (end_sequence files link_address (record s { address = end }))
  unfolding end_sequence
  ended s end o e = record { answer = e; onward = λ n. record { shut = refl; unanswered = e ∙ n } }

  rows_from :
      (r : Row) (rows : List Row) (end : ℕ) (s : LineState)
      → IsAt r s
      → IsRun IsClosed
          (first_from files link_address r rows end)
          (run_rows files link_address rows end s)
  unfolding first_from run_rows
  rows_from r [] end s a =
      let t = record s { address = end } in
      let b : IsAt r t = record {
        is_open = a.is_open;
        from = a.from;
        in_file = a.in_file;
        on_line = a.on_line;
        at_column = a.at_column;
        unanswered = a.unanswered;
      } in
      ended s end (position_in files link_address r end) (close-answer r t end b)
  rows_from r (n ∷ rows) end s a =
      let s' = emitted n s in
      let answer =
        emitted-answer n s
        ∙ close-answer r (set_registers n s) n.address (IsAt-registers r n s a) in
      let o = position_in files link_address r n.address in
      IsRun-then (IsAt n) IsClosed o (first_from files link_address n rows end) s'
        (run_rows files link_address rows end s')
        (record { answer = answer; onward = λ e. emitted-IsAt n s (answer ∙ e) })
        (λ i. rows_from n rows end s' i)

  rows_lem :
      (rows : List Row) (end : ℕ) (s : LineState)
      → IsClosed s
      → IsRun IsClosed
          (first_position files link_address rows end)
          (run_rows files link_address rows end s)
  unfolding run_rows
  rows_lem [] end s c =
      let t = record s { address = end } in
      ended s end none (
        ap (λ u. u.answer)
          (close-closed t end (record { shut = c.shut; unanswered = c.unanswered }))
        ∙ c.unanswered)
  rows_lem (r ∷ rows) end s c =
      let t = set_registers r s in
      let s' = emitted r s in
      let answer =
        emitted-answer r s
        ∙ ap (λ u. u.answer)
            (close-closed t r.address (record { shut = c.shut; unanswered = c.unanswered }))
        ∙ c.unanswered in
      IsRun-then (IsAt r) IsClosed none (first_from files link_address r rows end) s'
        (run_rows files link_address rows end s')
        (record { answer = answer; onward = λ e. emitted-IsAt r s answer })
        (λ i. rows_from r rows end s' i)

  sequences_lem :
      (qs : List Sequence) (s : LineState)
      → IsClosed s
      → IsRun IsClosed
          (first_sequence files link_address qs)
          (run_sequences files link_address qs s)
  unfolding first_sequence run_sequences
  sequences_lem [] s c = record { answer = c.unanswered; onward = λ e. c }
  sequences_lem (q ∷ later) s c =
      let s' = run_rows files link_address q.rows q.end s in
      IsRun-then IsClosed IsClosed (first_position files link_address q.rows q.end)
        (first_sequence files link_address later) s' (run_sequences files link_address later s')
        (rows_lem q.rows q.end s c) (λ i. sequences_lem later s' i)

  -- From a state with no open row and no answer, sequences of rows that are emitted and ended answer
  -- the position of the first row that names one and covers the address: from its own address up to
  -- that of the next row, or to the end of its sequence. No row reaches into another sequence.
  pub run_sequences-first_sequence :
      (qs : List Sequence) (s : LineState)
      → IsClosed s
      → (run_sequences files link_address qs s).answer ≡ first_sequence files link_address qs
  run_sequences-first_sequence qs s c = (sequences_lem qs s c).answer
