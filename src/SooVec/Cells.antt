-- ===== src/SooVec/Cells.antt =====
-- The loops over the elements of include/fpag/base/soo_vec.h.
use mathlib.Core.Path.{subst}
use fpag.Common.{
  ℕ, zero, suc, ◌+◌, ◌-◌, ◌≤◌, ◌<◌, ◌≡◌, refl, sym, ap, ◌∙◌, arith, false, Option, none, some, List,
  [], ◌∷◌, ◌++◌, length, get_elem?, take, if◌then◌else◌, ltb, ◌==◌, if_true, if_false, lt→ltb,
  split_if, append_assoc, append-nil, length-append, get_elem?_lt,
}
use native.Mathlib.Decide.{dec_lt}
use fpag.SooVec.{
  Cells, no_cells, with_cell, built, construct_at, destroyed, destroy_at, move_items, destroy_items,
}

module _ {A : Type 0} where
  -- The cells have the elements of the list, and no others.
  abbrev pub Holds : Cells A → List A → Type 0
  Holds c xs = (i : ℕ) → c i ≡ get_elem? xs i

  pub get_elem?-length : (xs : List A) → get_elem? xs (length xs) ≡ none
  get_elem?-length [] = refl
  get_elem?-length (x ∷ xs) = get_elem?-length xs

  get_elem?-append :
      (xs : List A) (a : A) (j : ℕ)
      → get_elem? (xs ++ a ∷ []) j ≡ (if j == length xs then some a else get_elem? xs j)
  get_elem?-append [] a zero = refl
  get_elem?-append [] a (suc j) = ground arith
  get_elem?-append (x ∷ xs) a zero = ground arith
  get_elem?-append (x ∷ xs) a (suc j) = ground (arith, get_elem?-append xs a j)

  get_elem?-take :
      (n : ℕ) (xs : List A) (j : ℕ)
      → get_elem? (take n xs) j ≡ (if ltb j n then get_elem? xs j else none)
  get_elem?-take zero xs j = ground arith
  get_elem?-take (suc n) [] j = ground arith
  get_elem?-take (suc n) (x ∷ xs) zero = ground arith
  get_elem?-take (suc n) (x ∷ xs) (suc j) = ground (arith, get_elem?-take n xs j)

  pub construct_at_lem :
      (room : ℕ) (c : Cells A) (xs : List A) (a : A)
      → Holds c xs
      → length xs < room
      → (c' : Cells A) × (construct_at room c (length xs) a ≡ some c') × Holds c' (xs ++ a ∷ [])
  unfolding construct_at
  construct_at_lem room c xs a h free = (
    with_cell (length xs) (some a) c,
    if_true _ _ (lt→ltb (length xs) room free)
        ∙ ap (λ o. built o a c (length xs)) (h (length xs) ∙ get_elem?-length xs),
    (λ j. ap (λ o. if j == length xs then some a else o) (h j) ∙ sym (get_elem?-append xs a j)),
  )

  destroy_at_lem :
      (c : Cells A) (i : ℕ) (a : A) → c i ≡ some a → destroy_at c i ≡ some (a, with_cell i none c)
  unfolding destroy_at
  destroy_at_lem c i a e = ap (λ o. destroyed o c i) e

  -- The last element is destroyed.
  pub destroy_last_lem :
      (c : Cells A) (xs : List A) (n : ℕ)
      → length xs ≡ suc n
      → Holds c xs
      → (a : A) × (c' : Cells A) × (destroy_at c n ≡ some (a, c')) × Holds c' (take n xs)
  destroy_last_lem c xs n e h =
      let (a, there) = get_elem?_lt xs n (omega arith) in
      (
        a,
        with_cell n none c,
        destroy_at_lem c n a (h n ∙ there),
        (λ j.
            ap (λ o. if j == n then none else o) (h j)
            ∙ last xs n e j
            ∙ sym (get_elem?-take n xs j)),
      )
    where
      last :
          (xs : List A) (n : ℕ)
          → length xs ≡ suc n
          → (j : ℕ)
          → (if j == n then none else get_elem? xs j) ≡ (if ltb j n then get_elem? xs j else none)
      last [] n e j = absurd (omega arith)
      last (x ∷ []) zero e zero = refl
      last (x ∷ []) zero e (suc j) = ground arith
      last (x ∷ []) (suc n) e j = absurd (omega arith)
      last (x ∷ y ∷ xs) zero e j = absurd (omega arith)
      last (x ∷ y ∷ xs) (suc n) e zero = ground arith
      last (x ∷ y ∷ xs) (suc n) e (suc j) = ground (arith, last (y ∷ xs) n (omega arith) j)

  -- From i on the cells have the elements of the list, and before i they have none.
  record IsRest (c : Cells A) (i : ℕ) (ys : List A) : Type 0 where
    here : (j : ℕ) → c (i + j) ≡ get_elem? ys j
    done : (j : ℕ) → j < i → c j ≡ none

  rest_first : (c : Cells A) (i : ℕ) (y : A) (ys : List A) → IsRest c i (y ∷ ys) → c i ≡ some y
  rest_first c i y ys r = ap c (omega arith) ∙ r.here 0

  IsRest-next :
      (c : Cells A) (i : ℕ) (y : A) (ys : List A)
      → IsRest c i (y ∷ ys)
      → IsRest (with_cell i none c) (suc i) ys
  IsRest-next c i y ys r = record {
    here = λ j. if_false _ _ (apart j) ∙ ap c (omega arith) ∙ r.here (suc j);
    done = λ j h. split_if (λ o. o ≡ none) (j == i) (λ e. refl) (λ e. r.done j (ground arith));
  }
    where
      apart : (j : ℕ) → (suc i + j == i) ≡ false
      apart j = ground arith

  rest_none : (c : Cells A) (i : ℕ) → IsRest c i [] → Holds c []
  rest_none c i r j = elim (dec_lt j i) [
    | yes h ↦ r.done j h
    | no h ↦ ap c (omega arith) ∙ r.here (j - i)
  ]

  move_items_rest :
      (room : ℕ) (ys xs : List A) (from to : Cells A)
      → IsRest from (length xs) ys
      → Holds to xs
      → length (xs ++ ys) ≤ room
      → (from' : Cells A) × (to' : Cells A) × (move_items room (length ys) (length xs) from to
          ≡ some (from', to'))
        × Holds from' []
        × Holds to' (xs ++ ys)
  unfolding move_items
  move_items_rest room [] xs from to r h le =
      (from, to, refl, rest_none from (length xs) r, subst (Holds to) (sym (append-nil xs)) h)
  move_items_rest room (y ∷ ys) xs from to r h le =
      let i = length xs in
      let from' = with_cell i none from in
      let (to', made, now) =
        construct_at_lem room to xs y h (omega (arith, length-append xs (y ∷ ys))) in
      let size : suc i ≡ length (xs ++ y ∷ []) = omega (arith, length-append xs (y ∷ [])) in
      let (f, t, moved, gone, held) =
        move_items_rest room ys (xs ++ y ∷ []) from' to'
          (subst (λ n. IsRest from' n ys) size (IsRest-next from i y ys r)) now
          (omega (arith, ap length (append_assoc xs (y ∷ []) ys))) in
      let build : Option (Cells A) → Option (Cells A × Cells A) =
        λ o. elim o [ none ↦ none | some c ↦ move_items room (length ys) (suc i) from' c ] in
      let step : Option (A × Cells A) → Option (Cells A × Cells A) = λ o. elim o [
        | none ↦ none
        | some (a, c) ↦ elim (construct_at room to i a) [
          | none ↦ none
          | some d ↦ move_items room (length ys) (suc i) c d
        ]
      ] in
      (
        f,
        t,
        ap step (destroy_at_lem from i y (rest_first from i y ys r))
            ∙ ap build made
            ∙ ap (λ n. move_items room (length ys) n from' to') size
            ∙ moved,
        gone,
        subst (Holds t) (append_assoc xs (y ∷ []) ys) held,
      )

  pub move_items_lem :
      (room : ℕ) (xs : List A) (c : Cells A)
      → Holds c xs
      → length xs ≤ room
      → (old : Cells A) × (new : Cells A) × (move_items room (length xs) 0 c no_cells
          ≡ some (old, new))
        × Holds old []
        × Holds new xs
  move_items_lem room xs c h le =
      move_items_rest room xs [] c no_cells
        (record { here = λ j. ap c (omega arith) ∙ h j; done = λ j l. absurd (omega arith) })
        (λ j. refl) le

  destroy_items_rest :
      (ys : List A) (i : ℕ) (c : Cells A)
      → IsRest c i ys
      → (c' : Cells A) × (destroy_items (length ys) i c ≡ some c') × Holds c' []
  unfolding destroy_items
  destroy_items_rest [] i c r = (c, refl, rest_none c i r)
  destroy_items_rest (y ∷ ys) i c r =
      let (c', gone, none_left) =
        destroy_items_rest ys (suc i) (with_cell i none c) (IsRest-next c i y ys r) in
      let step : Option (A × Cells A) → Option (Cells A) =
        λ o. elim o [ none ↦ none | some (a, d) ↦ destroy_items (length ys) (suc i) d ] in
      (c', ap step (destroy_at_lem c i y (rest_first c i y ys r)) ∙ gone, none_left)

  pub destroy_items_lem :
      (xs : List A) (c : Cells A)
      → Holds c xs
      → (c' : Cells A) × (destroy_items (length xs) 0 c ≡ some c') × Holds c' []
  destroy_items_lem xs c h =
      destroy_items_rest xs 0 c
        (record { here = λ j. ap c (omega arith) ∙ h j; done = λ j l. absurd (omega arith) })
