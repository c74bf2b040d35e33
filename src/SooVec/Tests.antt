-- ===== src/SooVec/Tests.antt =====
-- Concrete vectors for include/fpag/base/soo_vec.h, with room for two elements in themselves.
use fpag.Common.{ℕ, zero, suc, ◌≡◌, refl, arith, some, List, [], ◌∷◌}
use fpag.SooVec.{
  Shape, SooVec, inline_storage, no_cells, with_cell, new_vec, copy, copy_assign, from_list,
  move_from, move_assign,
}
use fpag.SooVec.Cells.{Holds}
use fpag.SooVec.Lists.{IsVec}
use fpag.SooVec.Run.{
  Op, push, pop, wipe, widen, fetch, index, element, done, run, list_run, Allowed, run-list_run,
}
use fpag.SooVec.Copies.{Made, Moved, new_vec-IsVec, copy-IsVec}

abbrev shape : Shape
shape = record { inline_capacity = 2; index_bits = 8 }

abbrev empty : SooVec ℕ
empty = new_vec shape

empty-IsVec : IsVec shape 8 empty []
empty-IsVec = new_vec-IsVec shape 8 (omega arith) (omega arith) (omega arith)

-- The third element moves the others into a block.
abbrev script : List (Op ℕ)
script = push 5 ∷ push 6 ∷ push 7 ∷ fetch 0 ∷ pop ∷ widen 9 ∷ fetch 1 ∷ wipe ∷ push 8 ∷ []

run-list_run_example : run shape empty script ≡ some (list_run shape [] script)
unfolding Allowed
run-list_run_example =
    run-list_run shape 8 script empty [] (omega arith) (omega arith) empty-IsVec (
      omega arith,
      (
        omega arith,
        (
          omega arith,
          (omega arith, (omega arith, (omega arith, (omega arith, (omega arith, tt))))),
        ),
      ),
    )

script_replies :
    list_run shape [] script
    ≡ index 0 ∷ index 1 ∷ index 2 ∷ element 5 ∷ done ∷ done ∷ element 6 ∷ done ∷ index 0 ∷ []
unfolding list_run
script_replies = refl

abbrev two : List ℕ
two = 5 ∷ 6 ∷ []

abbrev pair : SooVec ℕ
pair = record {
  size = 2;
  capacity = 2;
  storage = inline_storage (with_cell 1 (some 6) (with_cell 0 (some 5) no_cells));
}

pair-IsVec : IsVec shape 8 pair two
pair-IsVec = record {
  cells = with_cell 1 (some 6) (with_cell 0 (some 5) no_cells);
  active = refl;
  holds = held;
  sized = refl;
  fits = omega arith;
  least = omega arith;
  bounded = omega arith;
  roomy = omega arith;
}
  where
    held : Holds {A = ℕ} (with_cell 1 (some 6) (with_cell 0 (some 5) no_cells)) two
    held zero = refl
    held (suc zero) = refl
    held (suc (suc i)) = ground arith

copy-IsVec_example :
    Made shape 8 (from_list shape two) two
    × Made shape 8 (copy shape pair) two
    × Made shape 8 (copy_assign shape empty pair) two
    × Moved shape 8 (move_from shape pair) two
    × Moved shape 8 (move_assign shape empty pair) two
copy-IsVec_example =
    copy-IsVec shape 8 (omega arith) (omega arith) (omega arith) empty pair [] two empty-IsVec
      pair-IsVec (omega arith) (omega arith)
