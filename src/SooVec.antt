-- ===== src/SooVec.antt =====
-- include/fpag/base/soo_vec.h: a vector with room for N elements in itself. A cell of its storage has
-- an object or none, and there are as many cells as the storage has room for. None is where a debug
-- check stops the program, where an object is read or destroyed that is not there, and where one is
-- built over another or outside of the room.
pub mod Cells
pub mod Lists
pub mod Run
pub mod Copies
mod Tests
use fpag.Common.{
  ℕ, zero, suc, ◌+◌, ◌-◌, ◌%◌, ◌^◌, Bool, true, false, Option, none, some, List, [], ◌∷◌, length,
  if◌then◌else◌, ltb, leb, ◌==◌, add64, sub64, mul64,
}

-- The template's N, and the width of its index type.
pub record Shape : Type 0 where
  pub inline_capacity : ℕ
  pub index_bits : ℕ

-- `inline_storage_` has a cell even where N is zero.
abbrev pub inline_room : Shape → ℕ
inline_room shape = if ltb 0 shape.inline_capacity then shape.inline_capacity else 1

module _ (A : Type 0) where
  abbrev pub Cells : Type 0
  Cells = ℕ → Option A

  -- The members of the union: the elements themselves, or the block that they stand in, with the room
  -- that it was allocated with.
  pub data Storage : Type 0 where
    inline_storage : Cells → Storage
    dynamic_data : ℕ → Cells → Storage

  pub record SooVec : Type 0 where
    pub size : ℕ
    pub capacity : ℕ
    pub storage : Storage

module _ {A : Type 0} where
  abbrev pub no_cells : Cells A
  no_cells i = none

  abbrev pub with_cell : ℕ → Option A → Cells A → Cells A
  with_cell i o c j = if j == i then o else c j

  abbrev pub built : Option A → A → Cells A → ℕ → Option (Cells A)
  built none a c i = some (with_cell i (some a) c)
  built (some b) a c i = none

  -- `std::construct_at`, in storage with so much room.
  unfoldable pub construct_at : ℕ → Cells A → ℕ → A → Option (Cells A)
  construct_at room c i a = if ltb i room then built (c i) a c i else none

  abbrev pub destroyed : Option A → Cells A → ℕ → Option (A × Cells A)
  destroyed none c i = none
  destroyed (some a) c i = some (a, with_cell i none c)

  -- `std::destroy_at`, with what was in the object.
  unfoldable pub destroy_at : Cells A → ℕ → Option (A × Cells A)
  destroy_at c i = destroyed (c i) c i

  -- The elements from i on are moved, so many of them, each destroyed where it was. The first number
  -- is the room where they go.
  unfoldable pub move_items : ℕ → ℕ → ℕ → Cells A → Cells A → Option (Cells A × Cells A)
  unfolding construct_at destroy_at
  move_items room zero i from to = some (from, to)
  move_items room (suc count) i from to = elim (destroy_at from i) [
    | none ↦ none
    | some (a, from') ↦ elim (construct_at room to i a) [
      | none ↦ none
      | some to' ↦ move_items room count (suc i) from' to'
    ]
  ]

  unfoldable pub destroy_items : ℕ → ℕ → Cells A → Option (Cells A)
  unfolding destroy_at
  destroy_items zero i c = some c
  destroy_items (suc count) i c = elim (destroy_at c i) [
    | none ↦ none
    | some (a, c') ↦ destroy_items count (suc i) c'
  ]

module _ {A : Type 0} (shape : Shape) where
  abbrev pub new_vec : SooVec A
  new_vec = record { size = 0; capacity = shape.inline_capacity; storage = inline_storage no_cells }

  abbrev pub storage_room : Storage A → ℕ
  storage_room (inline_storage c) = inline_room shape
  storage_room (dynamic_data room c) = room

  abbrev pub is_dynamic : SooVec A → Bool
  is_dynamic v = ltb shape.inline_capacity v.capacity

  abbrev pub member : Bool → Storage A → Option (Cells A)
  member true (dynamic_data room c) = some c
  member true (inline_storage c) = none
  member false (dynamic_data room c) = none
  member false (inline_storage c) = some c

  -- `data()`; none if the other member of the union is the active one.
  abbrev pub cells_of : SooVec A → Option (Cells A)
  cells_of v = member (is_dynamic v) v.storage

  abbrev pub put_cells : Cells A → Storage A → Storage A
  put_cells c (inline_storage d) = inline_storage c
  put_cells c (dynamic_data room d) = dynamic_data room c

  abbrev pub grown : ℕ → SooVec A → Option (Cells A × Cells A) → Option (SooVec A)
  grown new_capacity v none = none
  grown new_capacity v (some (old, c)) =
      some (record v { capacity = new_capacity; storage = dynamic_data new_capacity c })

  -- The block that the elements leave is given back.
  unfoldable pub reserve : ℕ → SooVec A → Option (SooVec A)
  unfolding move_items
  reserve new_capacity v = if leb new_capacity v.capacity then some v else elim (cells_of v) [
    | none ↦ none
    | some c ↦ grown new_capacity v (move_items new_capacity v.size 0 c no_cells)
  ]

  abbrev pub appended : SooVec A → Option (Cells A) → Option (ℕ × SooVec A)
  appended v none = none
  appended v (some c) = some (
    v.size % 2 ^ shape.index_bits,
    record v { size = add64 v.size 1; storage = put_cells c v.storage },
  )

  abbrev pub built_last : A → SooVec A → Option (ℕ × SooVec A)
  built_last a v = elim (cells_of v) [
    | none ↦ none
    | some c ↦ appended v (construct_at (storage_room v.storage) c v.size a)
  ]

  -- The index of the new element, cut to the bits of the index type.
  unfoldable pub emplace_back : A → SooVec A → Option (ℕ × SooVec A)
  unfolding construct_at reserve
  emplace_back a v =
      if v.size == v.capacity
      then elim (reserve (if v.capacity == 0 then 1 else mul64 v.capacity 2) v) [
        | none ↦ none
        | some v' ↦ built_last a v'
      ]
      else built_last a v

  abbrev pub popped : SooVec A → Option (A × Cells A) → Option (SooVec A)
  popped v none = none
  popped v (some (a, c)) = some (record v { storage = put_cells c v.storage })

  unfoldable pub pop_back : SooVec A → Option (SooVec A)
  unfolding destroy_at
  pop_back v =
      let v' = record v { size = sub64 v.size 1 } in
      if v.size == 0
      then none
      else elim (cells_of v') [ none ↦ none | some c ↦ popped v' (destroy_at c v'.size) ]

  -- An empty vector over what is left of the storage.
  abbrev pub emptied : SooVec A → Cells A → SooVec A
  emptied v c = record new_vec { storage = inline_storage (if is_dynamic v then no_cells else c) }

  abbrev pub cleared : SooVec A → Option (Cells A) → Option (SooVec A)
  cleared v none = none
  cleared v (some c) = some (emptied v c)

  unfoldable pub clear : SooVec A → Option (SooVec A)
  unfolding destroy_items
  clear v = elim (cells_of v) [ none ↦ none | some c ↦ cleared v (destroy_items v.size 0 c) ]

  -- `operator[]`, `front` and `back`.
  abbrev pub read_at : SooVec A → ℕ → Option A
  read_at v i = elim (cells_of v) [ none ↦ none | some c ↦ c i ]

  unfoldable pub get : SooVec A → ℕ → Option A
  get v i = if ltb i v.size then read_at v i else none

  unfoldable pub front : SooVec A → Option A
  front v = if v.size == 0 then none else read_at v 0

  unfoldable pub back : SooVec A → Option A
  back v = if v.size == 0 then none else read_at v (sub64 v.size 1)

  unfoldable pub append_all : List A → SooVec A → Option (SooVec A)
  unfolding emplace_back
  append_all [] v = some v
  append_all (a ∷ rest) v = elim (emplace_back a v) [
    | none ↦ none
    | some (i, v') ↦ append_all rest v'
  ]

  -- The constructor of a list of values.
  unfoldable pub from_list : List A → Option (SooVec A)
  unfolding reserve append_all
  from_list init = elim (reserve (length init) new_vec) [ none ↦ none | some v ↦ append_all init v ]

  -- The elements of another vector from i on, so many of them, are read one after the other.
  unfoldable pub copy_items : ℕ → ℕ → SooVec A → SooVec A → Option (SooVec A)
  unfolding get emplace_back
  copy_items zero i other v = some v
  copy_items (suc count) i other v = elim (get other (i % 2 ^ shape.index_bits)) [
    | none ↦ none
    | some a ↦ elim (emplace_back a v) [
      | none ↦ none
      | some (j, v') ↦ copy_items count (suc i) other v'
    ]
  ]

  unfoldable pub copy_into : SooVec A → SooVec A → Option (SooVec A)
  unfolding reserve copy_items
  copy_into other v = elim (reserve other.size v) [
    | none ↦ none
    | some v' ↦ copy_items other.size 0 other v'
  ]

  unfoldable pub copy : SooVec A → Option (SooVec A)
  unfolding copy_into
  copy other = copy_into other new_vec

  -- For two different vectors, here and in `move_assign`.
  unfoldable pub copy_assign : SooVec A → SooVec A → Option (SooVec A)
  unfolding clear copy_into
  copy_assign this other = elim (clear this) [ none ↦ none | some v ↦ copy_into other v ]

  abbrev pub moved_inline : SooVec A → Option (Cells A × Cells A) → Option (SooVec A × SooVec A)
  moved_inline other none = none
  moved_inline other (some (old, c)) =
      some (record other { storage = inline_storage c }, emptied other old)

  -- The vector that has the elements, and what is left of the other. A block is handed over.
  unfoldable pub move_from : SooVec A → Option (SooVec A × SooVec A)
  unfolding move_items
  move_from other = elim (cells_of other) [
    | none ↦ none
    | some c ↦
        if is_dynamic other
        then some (other, emptied other no_cells)
        else moved_inline other (move_items (inline_room shape) other.size 0 c no_cells)
  ]

  unfoldable pub move_assign : SooVec A → SooVec A → Option (SooVec A × SooVec A)
  unfolding clear move_from
  move_assign this other = elim (clear this) [ none ↦ none | some v ↦ move_from other ]
