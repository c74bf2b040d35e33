-- ===== src/SooVec/Copies.antt =====
-- The constructors and the assignments of include/fpag/base/soo_vec.h.
use mathlib.Core.Path.{subst}
use native.Mathlib.Nat.{mod-eq_of_lt}
use fpag.Common.{
  ℕ, suc, ◌*◌, ◌%◌, ◌^◌, ◌≤◌, ◌<◌, ◌≡◌, refl, sym, ap, ◌∙◌, arith, Option, false, none, some, List,
  [], ◌∷◌, ◌++◌, length, get_elem?, append_assoc, append-nil, length-append, if_true, if_false,
  Bool-cases, inl, inr, if◌then◌else◌, le→ltb,
}
use fpag.SooVec.{
  Shape, Cells, inline_storage, SooVec, no_cells, move_items, inline_room, new_vec, is_dynamic,
  member, emplace_back, get, append_all, from_list, copy_items, copy_into, copy, copy_assign,
  emptied, moved_inline, move_from, move_assign,
}
use fpag.SooVec.Cells.{move_items_lem}
use fpag.SooVec.Lists.{
  IsVec, reserve_lem, emplace_back_lem, clear_lem, get_lem, emptied-IsVec, inline_room_lem,
}

get_elem?-middle :
    {A : Type 0} (xs ys : List A) (y : A) → get_elem? (xs ++ y ∷ ys) (length xs) ≡ some y
get_elem?-middle [] ys y = refl
get_elem?-middle (x ∷ xs) ys y = get_elem?-middle xs ys y

module _ {A : Type 0} (shape : Shape) (limit : ℕ) where
  abbrev pub Vec : SooVec A → List A → Type 0
  Vec v xs = IsVec shape limit v xs

  abbrev pub Made : Option (SooVec A) → List A → Type 0
  Made r xs = (v : SooVec A) × (r ≡ some v) × Vec v xs

  abbrev pub Moved : Option (SooVec A × SooVec A) → List A → Type 0
  Moved r xs = (v : SooVec A) × (rest : SooVec A) × (r ≡ some (v, rest)) × Vec v xs × Vec rest []

module _ {A : Type 0} (shape : Shape) (limit : ℕ) (small : limit < 2 ^ 62) (positive : 0 < limit)
    (room : shape.inline_capacity ≤ 2 * limit) where
  pub new_vec-IsVec : Vec {A = A} shape limit (new_vec shape) []
  new_vec-IsVec = record {
    cells = no_cells;
    active =
        ap (λ b. member shape b (inline_storage no_cells))
          (le→ltb shape.inline_capacity shape.inline_capacity (omega arith));
    holds = λ i. refl;
    sized = refl;
    fits = omega arith;
    least = omega arith;
    bounded = room;
    roomy = inline_room_lem shape;
  }

  append_all_lem :
      (ys xs : List A) (v : SooVec A)
      → Vec shape limit v xs
      → length (xs ++ ys) ≤ limit
      → (v' : SooVec A) × (append_all shape ys v ≡ some v') × Vec shape limit v' (xs ++ ys)
  unfolding append_all
  append_all_lem [] xs v h le = (v, refl, subst (Vec shape limit v) (sym (append-nil xs)) h)
  append_all_lem (y ∷ ys) xs v h le =
      let sum = length-append xs (y ∷ ys) in
      let (w, pushed, held) =
        emplace_back_lem shape limit small positive v xs y h (omega (arith, sum)) in
      let joined = append_assoc xs (y ∷ []) ys in
      let (v', all, now) =
        append_all_lem ys (xs ++ y ∷ []) w held (omega (arith, ap length joined)) in
      let next : Option (ℕ × SooVec A) → Option (SooVec A) =
        λ o. elim o [ none ↦ none | some (i, r) ↦ append_all shape ys r ] in
      (v', ap next pushed ∙ all, subst (Vec shape limit v') joined now)

  from_list_lem :
      (init : List A)
      → length init ≤ limit
      → (v : SooVec A) × (from_list shape init ≡ some v) × Vec shape limit v init
  unfolding from_list
  from_list_lem init le =
      let (w, wide, held, enough) =
        reserve_lem shape limit small positive (new_vec shape) [] (length init) new_vec-IsVec
          (omega arith) in
      let (v, all, now) = append_all_lem init [] w held le in
      let next : Option (SooVec A) → Option (SooVec A) =
        λ o. elim o [ none ↦ none | some r ↦ append_all shape init r ] in
      (v, ap next wide ∙ all, now)

  copy_items_lem :
      (ys xs : List A) (other v : SooVec A)
      → Vec shape limit other (xs ++ ys)
      → Vec shape limit v xs
      → length (xs ++ ys) ≤ limit
      → length (xs ++ ys) ≤ 2 ^ shape.index_bits
      → (v' : SooVec A) × (copy_items shape (length ys) (length xs) other v ≡ some v')
        × Vec shape limit v' (xs ++ ys)
  unfolding copy_items
  copy_items_lem [] xs other v from h le few =
      (v, refl, subst (Vec shape limit v) (sym (append-nil xs)) h)
  copy_items_lem (y ∷ ys) xs other v from h le few =
      let sum = length-append xs (y ∷ ys) in
      let joined = append_assoc xs (y ∷ []) ys in
      let whole = ap length joined in
      let at_index : length xs % 2 ^ shape.index_bits ≡ length xs =
        mod-eq_of_lt (omega (arith, sum)) in
      let found =
        ap (get shape other) at_index
        ∙ get_lem shape limit small positive other (xs ++ y ∷ ys) (length xs) from
        ∙ get_elem?-middle xs ys y in
      let (w, pushed, held) =
        emplace_back_lem shape limit small positive v xs y h (omega (arith, sum)) in
      let size : suc (length xs) ≡ length (xs ++ y ∷ []) =
        omega (arith, length-append xs (y ∷ [])) in
      let (v', all, now) =
        copy_items_lem ys (xs ++ y ∷ []) other w (subst (Vec shape limit other) (sym joined) from)
          held (omega (arith, whole)) (omega (arith, whole)) in
      let build : Option (ℕ × SooVec A) → Option (SooVec A) = λ o. elim o [
        | none ↦ none
        | some (j, r) ↦ copy_items shape (length ys) (suc (length xs)) other r
      ] in
      let read : Option A → Option (SooVec A) =
        λ o. elim o [ none ↦ none | some a ↦ build (emplace_back shape a v) ] in
      (
        v',
        ap read found
            ∙ ap build pushed
            ∙ ap (λ n. copy_items shape (length ys) n other w) size
            ∙ all,
        subst (Vec shape limit v') joined now,
      )

  copy_into_lem :
      (other v : SooVec A) (xs : List A)
      → Vec shape limit other xs
      → Vec shape limit v []
      → length xs ≤ limit
      → length xs ≤ 2 ^ shape.index_bits
      → (v' : SooVec A) × (copy_into shape other v ≡ some v') × Vec shape limit v' xs
  unfolding copy_into
  copy_into_lem other v xs from h le few =
      let (w, wide, held, enough) =
        reserve_lem shape limit small positive v [] other.size h (omega (arith, from.sized)) in
      let (v', all, now) = copy_items_lem xs [] other w from held le few in
      let next : Option (SooVec A) → Option (SooVec A) =
        λ o. elim o [ none ↦ none | some r ↦ copy_items shape other.size 0 other r ] in
      (v', ap next wide ∙ ap (λ n. copy_items shape n 0 other w) from.sized ∙ all, now)

  move_from_lem :
      (other : SooVec A) (xs : List A)
      → Vec shape limit other xs
      → Moved shape limit (move_from shape other) xs
  unfolding move_from
  move_from_lem other xs h =
      let inside = inline_room shape in
      let next : Option (Cells A) → Option (SooVec A × SooVec A) = λ o. elim o [
        | none ↦ none
        | some c ↦
            if is_dynamic shape other
            then some (other, emptied shape other no_cells)
            else moved_inline shape other (move_items inside other.size 0 c no_cells)
      ] in
      elim (Bool-cases (is_dynamic shape other)) [
        | inl e ↦ (
          other,
          emptied shape other no_cells,
          ap next h.active ∙ if_true _ _ e,
          h,
          emptied-IsVec shape limit small positive other no_cells room (λ i. refl),
        )
        | inr e ↦
            let (old, c, moved, gone, held) =
              move_items_lem inside xs h.cells h.holds (omega (arith, h.sized, h.fits, within e)) in
            (
              record other { storage = inline_storage c },
              emptied shape other old,
              ap next h.active
                  ∙ if_false _ _ e
                  ∙ ap (λ n. moved_inline shape other (move_items inside n 0 h.cells no_cells))
                      h.sized
                  ∙ ap (moved_inline shape other) moved,
              record {
                cells = c;
                active = ap (λ b. member shape b (inline_storage c)) e;
                holds = held;
                sized = h.sized;
                fits = h.fits;
                least = h.least;
                bounded = h.bounded;
                roomy = within e;
              },
              emptied-IsVec shape limit small positive other old room gone,
            )
      ]
    where
      within : is_dynamic shape other ≡ false → other.capacity ≤ inline_room shape
      within e = let le = inline_room_lem shape in ground (arith, e, le)

  -- The constructor of a list of values, and copies and moves of a vector of no more elements than the
  -- limit and the index type admit, over an empty vector or over one that holds any list, hold the
  -- elements in their order; what a move leaves is an empty vector that can be used again. The limit
  -- is positive, below 2 ^ 62 and at least half of the inline room.
  pub copy-IsVec :
      (this other : SooVec A) (ys xs : List A)
      → Vec shape limit this ys
      → Vec shape limit other xs
      → length xs ≤ limit
      → length xs ≤ 2 ^ shape.index_bits
      → Made shape limit (from_list shape xs) xs
        × Made shape limit (copy shape other) xs
        × Made shape limit (copy_assign shape this other) xs
        × Moved shape limit (move_from shape other) xs
        × Moved shape limit (move_assign shape this other) xs
  unfolding copy copy_assign move_assign
  copy-IsVec this other ys xs old h le few =
      let empty = new_vec shape in
      let (w, wiped, nothing) = clear_lem shape limit small positive this ys old in
      let (v, copied, held) = copy_into_lem other w xs h nothing le few in
      let (t, rest, moved, taken, unused) = move_from_lem other xs h in
      let assign : Option (SooVec A) → Option (SooVec A) =
        λ o. elim o [ none ↦ none | some r ↦ copy_into shape other r ] in
      let replace : Option (SooVec A) → Option (SooVec A × SooVec A) =
        λ o. elim o [ none ↦ none | some r ↦ move_from shape other ] in
      (
        from_list_lem xs le,
        copy_into_lem other empty xs h new_vec-IsVec le few,
        (v, ap assign wiped ∙ copied, held),
        (t, rest, moved, taken, unused),
        (t, rest, ap replace wiped ∙ moved, taken, unused),
      )
