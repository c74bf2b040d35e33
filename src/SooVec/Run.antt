-- ===== src/SooVec/Run.antt =====
-- Sequences of calls on the vector of include/fpag/base/soo_vec.h, and on a list.
use fpag.Common.{
  ℕ, ◌-◌, ◌*◌, ◌%◌, ◌^◌, ◌≤◌, ◌<◌, ◌≡◌, refl, sym, ap, ◌∙◌, Option, none, some, List, [], ◌∷◌, ◌++◌,
  length, get_elem?, get_elem?_lt, take,
}
use fpag.SooVec.{Shape, SooVec, reserve, emplace_back, pop_back, clear, get}
use fpag.SooVec.Lists.{IsVec, reserve_lem, emplace_back_lem, pop_back_lem, clear_lem, get_lem}

module _ (A : Type 0) where
  pub data Op : Type 0 where
    push : A → Op
    pop : Op
    wipe : Op
    widen : ℕ → Op
    fetch : ℕ → Op

  pub data Reply : Type 0 where
    index : ℕ → Reply
    element : A → Reply
    done : Reply

module _ {A : Type 0} (shape : Shape) where
  abbrev pub answer : Reply A → Option (List (Reply A)) → Option (List (Reply A))
  answer r none = none
  answer r (some rs) = some (r ∷ rs)

  -- The calls on the vector. None where one of them stops the program.
  unfoldable pub run : SooVec A → List (Op A) → Option (List (Reply A))
  run v [] = some []
  run v (push a ∷ ops) = elim (emplace_back shape a v) [
    | none ↦ none
    | some (i, v') ↦ answer (index i) (run v' ops)
  ]
  run v (pop ∷ ops) = elim (pop_back shape v) [ none ↦ none | some v' ↦ answer done (run v' ops) ]
  run v (wipe ∷ ops) = elim (clear shape v) [ none ↦ none | some v' ↦ answer done (run v' ops) ]
  run v (widen n ∷ ops) = elim (reserve shape n v) [
    | none ↦ none
    | some v' ↦ answer done (run v' ops)
  ]
  run v (fetch i ∷ ops) =
      let rest = run v ops in
      elim (get shape v i) [ none ↦ none | some a ↦ answer (element a) rest ]

  -- The same calls on a list. An index out of range has no reply.
  unfoldable pub list_run : List A → List (Op A) → List (Reply A)
  list_run xs [] = []
  list_run xs (push a ∷ ops) =
      index (length xs % 2 ^ shape.index_bits) ∷ list_run (xs ++ a ∷ []) ops
  list_run xs (pop ∷ ops) = done ∷ list_run (take (length xs - 1) xs) ops
  list_run xs (wipe ∷ ops) = done ∷ list_run [] ops
  list_run xs (widen n ∷ ops) = done ∷ list_run xs ops
  list_run xs (fetch i ∷ ops) =
      let rest = list_run xs ops in elim (get_elem? xs i) [ none ↦ [] | some a ↦ element a ∷ rest ]

  -- The caller's side: at most `limit` elements and room for twice as many, no pop of an empty vector
  -- and no index that is out of range.
  unfoldable pub Allowed : ℕ → List A → List (Op A) → Type 0
  Allowed limit xs [] = Unit
  Allowed limit xs (push a ∷ ops) = (length xs < limit) × Allowed limit (xs ++ a ∷ []) ops
  Allowed limit xs (pop ∷ ops) = (0 < length xs) × Allowed limit (take (length xs - 1) xs) ops
  Allowed limit xs (wipe ∷ ops) = Allowed limit [] ops
  Allowed limit xs (widen n ∷ ops) = (n ≤ 2 * limit) × Allowed limit xs ops
  Allowed limit xs (fetch i ∷ ops) = (i < length xs) × Allowed limit xs ops

  -- On a vector that holds the elements of a list, every sequence of calls that keeps to the caller's
  -- side answers what the list answers, in the storage of the vector and in blocks alike: no check
  -- fails, no object is read or destroyed that is not there, and none is built where one is or outside
  -- of the room of the storage. The limit is positive and below 2 ^ 62.
  pub run-list_run :
      (limit : ℕ) (ops : List (Op A)) (v : SooVec A) (xs : List A)
      → limit < 2 ^ 62
      → 0 < limit
      → IsVec shape limit v xs
      → Allowed limit xs ops
      → run v ops ≡ some (list_run xs ops)
  unfolding run list_run Allowed
  run-list_run limit [] v xs small pos h k = refl
  run-list_run limit (push a ∷ ops) v xs small pos h k =
      let (v', pushed, held) = emplace_back_lem shape limit small pos v xs a h k.0 in
      let ih = run-list_run limit ops v' (xs ++ a ∷ []) small pos held k.1 in
      let next : Option (ℕ × SooVec A) → Option (List (Reply A)) =
        λ o. elim o [ none ↦ none | some (i, w) ↦ answer (index i) (run w ops) ] in
      ap next pushed ∙ ap (answer (index (length xs % 2 ^ shape.index_bits))) ih
  run-list_run limit (pop ∷ ops) v xs small pos h k =
      let (v', popped, held) = pop_back_lem shape limit small pos v xs h k.0 in
      let ih = run-list_run limit ops v' (take (length xs - 1) xs) small pos held k.1 in
      ap (then_done ops) popped ∙ ap (answer done) ih
    where
      then_done : List (Op A) → Option (SooVec A) → Option (List (Reply A))
      then_done ops o = elim o [ none ↦ none | some w ↦ answer done (run w ops) ]
  run-list_run limit (wipe ∷ ops) v xs small pos h k =
      let (v', wiped, held) = clear_lem shape limit small pos v xs h in
      let ih = run-list_run limit ops v' [] small pos held k in
      let next : Option (SooVec A) → Option (List (Reply A)) =
        λ o. elim o [ none ↦ none | some w ↦ answer done (run w ops) ] in
      ap next wiped ∙ ap (answer done) ih
  run-list_run limit (widen n ∷ ops) v xs small pos h k =
      let (v', widened, held, wide) = reserve_lem shape limit small pos v xs n h k.0 in
      let ih = run-list_run limit ops v' xs small pos held k.1 in
      let next : Option (SooVec A) → Option (List (Reply A)) =
        λ o. elim o [ none ↦ none | some w ↦ answer done (run w ops) ] in
      ap next widened ∙ ap (answer done) ih
  run-list_run limit (fetch i ∷ ops) v xs small pos h k =
      let (a, there) = get_elem?_lt xs i k.0 in
      let ih = run-list_run limit ops v xs small pos h k.1 in
      let next : Option A → Option (List (Reply A)) =
        λ o. elim o [ none ↦ none | some b ↦ answer (element b) (run v ops) ] in
      let shown : Option A → List (Reply A) =
        λ o. elim o [ none ↦ [] | some b ↦ element b ∷ list_run xs ops ] in
      ap next (get_lem shape limit small pos v xs i h ∙ there)
      ∙ ap (answer (element a)) ih
      ∙ ap some (sym (ap shown there))
