-- ===== src/SooVec/Lists.antt =====
-- The operations of include/fpag/base/soo_vec.h on a vector that holds a list.
use fpag.Common.{
  ℕ, zero, suc, ◌+◌, ◌-◌, ◌*◌, ◌%◌, ◌^◌, ◌≤◌, ◌<◌, ◌≡◌, refl, sym, ap, ◌∙◌, arith, Bool, true,
  false, Option, none, some, List, [], ◌∷◌, ◌++◌, length, get_elem?, take, if◌then◌else◌, ltb, leb,
  ◌==◌, ==_iff, if_true, if_false, Bool-cases, inl, inr, leb→le, leb→lt, lt→ltb, add64, sub64,
  mul64, length-append, split_if,
}
use fpag.SooVec.{
  Shape, Cells, Storage, inline_storage, dynamic_data, SooVec, no_cells, construct_at, destroy_at,
  move_items, destroy_items, is_dynamic, member, cells_of, put_cells, storage_room, inline_room,
  grown, reserve, appended, built_last, emplace_back, popped, pop_back, emptied, cleared, clear,
  get,
}
use fpag.SooVec.Cells.{Holds, construct_at_lem, destroy_last_lem, move_items_lem, destroy_items_lem}

-- The capacity that `emplace_back` asks for.
abbrev wider : ℕ → ℕ
wider capacity = if capacity == 0 then 1 else mul64 capacity 2

wider_lem :
    (limit capacity : ℕ)
    → limit < 2 ^ 62
    → capacity < limit
    → (capacity < wider capacity) × (wider capacity ≤ 2 * limit)
wider_lem limit capacity small h = elim (Bool-cases (capacity == 0)) [
  | inl e ↦ rw e (omega (arith, (==_iff capacity 0).0 e), omega arith)
  | inr e ↦ rw e (ground arith, omega arith)
]

pub inline_room_lem : (shape : Shape) → shape.inline_capacity ≤ inline_room shape
inline_room_lem shape = ground arith

module _ {A : Type 0} (shape : Shape) (limit : ℕ) where
  -- The vector holds the list in the active member of its storage.
  pub record IsVec (v : SooVec A) (xs : List A) : Type 0 where
    pub cells : Cells A
    pub active : cells_of shape v ≡ some cells
    pub holds : Holds cells xs
    pub sized : v.size ≡ length xs
    pub fits : v.size ≤ v.capacity
    pub least : shape.inline_capacity ≤ v.capacity
    pub bounded : v.capacity ≤ 2 * limit
    pub roomy : v.capacity ≤ storage_room shape v.storage

  member-put_cells :
      (b : Bool) (s : Storage A) (c d : Cells A)
      → member shape b s ≡ some c
      → member shape b (put_cells shape d s) ≡ some d
  member-put_cells true (dynamic_data m e) c d h = refl
  member-put_cells false (inline_storage e) c d h = refl
  member-put_cells true (inline_storage e) c d h = absurd (ground (arith, h))
  member-put_cells false (dynamic_data m e) c d h = absurd (ground (arith, h))

  room-put_cells :
      (s : Storage A) (d : Cells A)
      → storage_room shape (put_cells shape d s) ≡ storage_room shape s
  room-put_cells (inline_storage e) d = refl
  room-put_cells (dynamic_data m e) d = refl

  module _ (small : limit < 2 ^ 62) (positive : 0 < limit) where
    built_last_lem :
        (v : SooVec A) (xs : List A) (a : A)
        → IsVec v xs
        → v.size < v.capacity
        → (v' : SooVec A) × (built_last shape a v ≡ some (length xs % 2 ^ shape.index_bits, v'))
          × IsVec v' (xs ++ a ∷ [])
    built_last_lem v xs a h free =
        let m = storage_room shape v.storage in
        let (c', made, now) =
          construct_at_lem m h.cells xs a h.holds (omega (arith, h.sized, h.roomy)) in
        let v' = record v { size = add64 v.size 1; storage = put_cells shape c' v.storage } in
        let more : add64 v.size 1 ≡ v.size + 1 = omega (arith, h.bounded) in
        let build : Option (Cells A) → Option (ℕ × SooVec A) =
          λ o. elim o [ none ↦ none | some c ↦ appended shape v (construct_at m c v.size a) ] in
        (
          v',
          ap build h.active
              ∙ ap (λ n. appended shape v (construct_at m h.cells n a)) h.sized
              ∙ ap (appended shape v) made
              ∙ ap (λ m. some (m % 2 ^ shape.index_bits, v')) h.sized,
          record {
            cells = c';
            active = member-put_cells (is_dynamic shape v) v.storage h.cells c' h.active;
            holds = now;
            sized = omega (arith, more, h.sized, length-append xs (a ∷ []));
            fits = omega (arith, more);
            least = h.least;
            bounded = h.bounded;
            roomy = omega (arith, room-put_cells v.storage c', h.roomy);
          },
        )

    pub reserve_lem :
        (v : SooVec A) (xs : List A) (k : ℕ)
        → IsVec v xs
        → k ≤ 2 * limit
        → (v' : SooVec A) × (reserve shape k v ≡ some v') × IsVec v' xs × (k ≤ v'.capacity)
    unfolding reserve
    reserve_lem v xs k h le = elim (Bool-cases (leb k v.capacity)) [
      | inl e ↦ (v, if_true _ _ e, h, leb→le k v.capacity e)
      | inr e ↦
          let above = leb→lt k v.capacity e in
          let (old, c, moved, gone, held) =
            move_items_lem k xs h.cells h.holds (omega (arith, above, h.sized, h.fits)) in
          let v' = record v { capacity = k; storage = dynamic_data k c } in
          let move : Option (Cells A) → Option (SooVec A) = λ o. elim o [
            | none ↦ none
            | some d ↦ grown shape k v (move_items k v.size 0 d no_cells)
          ] in
          (
            v',
            if_false _ _ e
                ∙ ap move h.active
                ∙ ap (λ m. grown shape k v (move_items k m 0 h.cells no_cells)) h.sized
                ∙ ap (grown shape k v) moved,
            record {
              cells = c;
              active =
                  ap (λ b. member shape b (dynamic_data k c))
                    (lt→ltb shape.inline_capacity k (omega (arith, above, h.least)));
              holds = held;
              sized = h.sized;
              fits = omega (arith, above, h.fits);
              least = omega (arith, above, h.least);
              bounded = le;
              roomy = omega arith;
            },
            omega arith,
          )
    ]

    pub emplace_back_lem :
        (v : SooVec A) (xs : List A) (a : A)
        → IsVec v xs
        → length xs < limit
        → (v' : SooVec A) × (emplace_back shape a v ≡ some (length xs % 2 ^ shape.index_bits, v'))
          × IsVec v' (xs ++ a ∷ [])
    unfolding emplace_back
    emplace_back_lem v xs a h more = elim (Bool-cases (v.size == v.capacity)) [
      | inl e ↦
          let full = (==_iff v.size v.capacity).0 e in
          let (above, le) = wider_lem limit v.capacity small (omega (arith, full, h.sized)) in
          let (w, wide, now, room) = reserve_lem v xs (wider v.capacity) h le in
          let (v', built, held) = built_last_lem w xs a now (omega (arith, now.sized, h.sized)) in
          let build : Option (SooVec A) → Option (ℕ × SooVec A) =
            λ o. elim o [ none ↦ none | some r ↦ built_last shape a r ] in
          (v', if_true _ _ e ∙ ap build wide ∙ built, held)
      | inr e ↦
          let (v', built, held) = built_last_lem v xs a h (ground (arith, h.fits)) in
          (v', if_false _ _ e ∙ built, held)
    ]

    pub pop_back_lem :
        (v : SooVec A) (xs : List A)
        → IsVec v xs
        → 0 < length xs
        → (v' : SooVec A) × (pop_back shape v ≡ some v') × IsVec v' (take (length xs - 1) xs)
    unfolding pop_back
    pop_back_lem v xs h some_left =
        let n = length xs - 1 in
        let less : sub64 v.size 1 ≡ n = omega (arith, h.sized, h.fits, h.bounded) in
        let (a, c', gone, held) = destroy_last_lem h.cells xs n (omega arith) h.holds in
        let w = record v { size = sub64 v.size 1 } in
        let v' = record w { storage = put_cells shape c' v.storage } in
        let test : (v.size == 0) ≡ false = ground (arith, h.sized) in
        let pop : Option (Cells A) → Option (SooVec A) =
          λ o. elim o [ none ↦ none | some c ↦ popped shape w (destroy_at c w.size) ] in
        (
          v',
          if_false _ _ test
              ∙ ap pop h.active
              ∙ ap (λ m. popped shape w (destroy_at h.cells m)) less
              ∙ ap (popped shape w) gone,
          record {
            cells = c';
            active = member-put_cells (is_dynamic shape v) v.storage h.cells c' h.active;
            holds = held;
            sized = less ∙ sym (length-take n xs (omega arith));
            fits = omega (arith, less, h.sized, h.fits);
            least = h.least;
            bounded = h.bounded;
            roomy = omega (arith, room-put_cells v.storage c', h.roomy);
          },
        )
      where
        length-take : (n : ℕ) (xs : List A) → n ≤ length xs → length (take n xs) ≡ n
        length-take zero xs h = refl
        length-take (suc n) [] h = absurd (omega arith)
        length-take (suc n) (x ∷ xs) h = ap suc (length-take n xs (omega arith))

    pub emptied-IsVec :
        (v : SooVec A) (c : Cells A)
        → shape.inline_capacity ≤ 2 * limit
        → Holds c []
        → IsVec (emptied shape v c) []
    emptied-IsVec v c le h = record {
      cells = if is_dynamic shape v then no_cells else c;
      active =
          ap (λ b. member shape b (inline_storage (if is_dynamic shape v then no_cells else c)))
            (same shape.inline_capacity);
      holds = split_if (λ d. Holds d []) (is_dynamic shape v) (λ e j. refl) (λ e. h);
      sized = refl;
      fits = omega arith;
      least = omega arith;
      bounded = le;
      roomy = inline_room_lem shape;
    }
      where
        same : (m : ℕ) → ltb m m ≡ false
        same m = ground arith

    pub clear_lem :
        (v : SooVec A) (xs : List A)
        → IsVec v xs
        → (v' : SooVec A) × (clear shape v ≡ some v') × IsVec v' []
    unfolding clear
    clear_lem v xs h =
        let (c, gone, none_left) = destroy_items_lem xs h.cells h.holds in
        let destroy : Option (Cells A) → Option (SooVec A) =
          λ o. elim o [ none ↦ none | some d ↦ cleared shape v (destroy_items v.size 0 d) ] in
        (
          emptied shape v c,
          ap destroy h.active
              ∙ ap (λ m. cleared shape v (destroy_items m 0 h.cells)) h.sized
              ∙ ap (cleared shape v) gone,
          emptied-IsVec v c (omega (arith, h.least, h.bounded)) none_left,
        )

    pub get_lem : (v : SooVec A) (xs : List A) (i : ℕ) → IsVec v xs → get shape v i ≡ get_elem? xs i
    unfolding get
    get_lem v xs i h =
        let read : Option (Cells A) → Option A = λ o. elim o [ none ↦ none | some c ↦ c i ] in
        elim (Bool-cases (ltb i v.size)) [
          | inl e ↦ if_true _ _ e ∙ ap read h.active ∙ h.holds i
          | inr e ↦ if_false _ _ e ∙ sym (outside xs i (ground (arith, h.sized)))
        ]
      where
        outside : (xs : List A) (i : ℕ) → length xs ≤ i → get_elem? xs i ≡ none
        outside [] i h = refl
        outside (x ∷ xs) zero h = absurd (omega arith)
        outside (x ∷ xs) (suc i) h = outside xs i (omega arith)
