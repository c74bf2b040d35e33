-- ===== src/Str/Interner.antt =====
-- include/fpag/str/string_interner.h and src/str/string_interner.cc: the pool and the table over it.
pub mod Names
use fpag.Common.{
  ℕ, ◌^◌, Bool, true, false, Option, none, some, List, [], ◌∷◌, Text, if◌then◌else◌, ◌==◌,
}
use fpag.Str.Pool.{StringPool, new_pool, get_name}
use fpag.Str.Table.{
  InternTable, empty, Turn, interned, no_slot, wait, stopped, reserve_table, try_intern,
}

abbrev pub default_pool_capacity : ℕ
default_pool_capacity = 2 ^ 30

-- The constructor of the table.
abbrev pub table_over : Bool → ℕ → ℕ → Option StringPool → Option InternTable
table_over pages page_size names none = none
table_over pages page_size names (some p) =
    reserve_table pages page_size names
      (record { pool = p; region = λ i. empty; slots = 0; region_bytes = 0; count = 0 })

-- The interner is its table, with the pool that the table points to. None where a check stops the
-- program.
unfoldable pub new_interner : Bool → Bool → ℕ → ℕ → ℕ → Option InternTable
new_interner pages commits page_size names pool_bytes =
    let capacity = if pool_bytes == 0 then default_pool_capacity else pool_bytes in
    table_over pages page_size names (new_pool page_size commits capacity)

module _ (hash : Text → ℕ) where
  -- What is left of `intern`: a full table stops the program, and no other writer is waited for.
  abbrev pub interned_as : Turn → Option (ℕ × InternTable)
  interned_as (interned id t) = some (id, t)
  interned_as no_slot = none
  interned_as wait = none
  interned_as stopped = none

  unfoldable pub intern : Bool → Text → InternTable → Option (ℕ × InternTable)
  intern commits content t = interned_as (try_intern hash commits content t)

  abbrev pub put_first : ℕ → Option (List ℕ × InternTable) → Option (List ℕ × InternTable)
  put_first id none = none
  put_first id (some (ids, t)) = some (id ∷ ids, t)

  -- One call behind the other.
  unfoldable pub intern_all : Bool → List Text → InternTable → Option (List ℕ × InternTable)
  intern_all commits [] t = some ([], t)
  intern_all commits (c ∷ cs) t = elim (intern commits c t) [
    | none ↦ none
    | some r ↦ put_first r.0 (intern_all commits cs r.1)
  ]
