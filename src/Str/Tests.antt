-- ===== src/Str/Tests.antt =====
-- Concrete names for src/str and include/fpag/str.
use fpag.Common.{
  ℕ, ◌==◌, same_text, true, Option, none, some, List, [], ◌∷◌, Text, ◌≡◌, ap, refl, ◌↔◌, arith,
  get_elem?, length, if◌then◌else◌,
}
use fpag.MathUtil.{round_up, next_power_of_two}
use fpag.Str.Memory.{read, write, read_word}
use fpag.ConcurrentArena.{bump, commit_chunks}
use fpag.Str.Pool.{
  reserved_arena, StringPool, append, new_pool, reserve_empty_name, get_name, length_at,
}
use fpag.Str.Pool.Names.{IsPool}
use fpag.Str.Table.{
  InternTable, empty, same_name, same_words, same_tail, try_intern, reserve_table, slots_for,
  lookup, walk, holds_name, fingerprint_of,
}
use fpag.Common.{ltb, lt→ltb, if_true, ◌<◌}
use fpag.Str.Table.{Region, claimed}
use fpag.Str.Table.Bounds.{lookup_inside}
use fpag.Common.{◌≢◌, false}
use fpag.Str.Threads.{
  held, holds, walking, facing, holding, idle, System, new_system, set_phase, set_cell, slot_at,
  seen_cell, begin, load, claim, store, Reach, at_start, act,
}
use fpag.Str.Threads.Once.{Reach-once}
use fpag.Str.Table.Names.{same_name_iff}
use fpag.Str.Table.Intern.{IsTable, IsIntern, try_intern-IsIntern}
use fpag.Str.Interner.{new_interner, intern, intern_all}
use fpag.Str.Interner.Names.{intern_all-names}

-- A hash that sends many names to one slot.
abbrev size_hash : Text → ℕ
size_hash t = length t

abbrev sample_pool : StringPool
sample_pool = record {
  memory = λ i. 0;
  arena = record (reserved_arena 8192) { size = 4; committed_size = 4096 };
  totals = 0;
  capacity = 8192;
}

sample_pool-IsPool : IsPool sample_pool
unfolding read_word read
sample_pool-IsPool = record {
  roomy = record { within = omega arith; capped = omega arith };
  begun = omega arith;
  empty = refl;
}

-- "ab"
abbrev sample_table : InternTable
sample_table = record {
  pool = sample_pool;
  region = λ i. empty;
  slots = 4;
  region_bytes = 4096;
  count = 0;
}

sample_table-IsTable : IsTable sample_table
sample_table-IsTable = record {
  pool = sample_pool-IsPool;
  entries = λ i f id e. absurd (ground (arith, e));
}

try_intern-IsIntern_example :
    IsIntern size_hash sample_table
      (97 ∷ 98 ∷ [])
      (try_intern size_hash true (97 ∷ 98 ∷ []) sample_table)
try_intern-IsIntern_example =
    try_intern-IsIntern size_hash true (97 ∷ 98 ∷ []) sample_table sample_table-IsTable

-- Eleven bytes that differ in the last, which is compared in the overlapping word.
same_name_iff_example :
    (same_name (λ i. i) (λ i. if i == 10 then 0 else i) 11 ≡ true)
    ↔ (read 0 11 (λ i. i) ≡ read 0 11 (λ i. if i == 10 then 0 else i))
same_name_iff_example = same_name_iff (λ i. i) (λ i. if i == 10 then 0 else i) 11

-- "ab", "cd" and "ab" again, in one chain of slots
abbrev three_names : List Text
three_names = (97 ∷ 98 ∷ []) ∷ (99 ∷ 100 ∷ []) ∷ (97 ∷ 98 ∷ []) ∷ []

abbrev interner_or : Option InternTable → InternTable
interner_or none = sample_table
interner_or (some t) = t

abbrev made : InternTable
made = interner_or (new_interner true true 4096 6 8192)

abbrev run_or : Option (List ℕ × InternTable) → List ℕ × InternTable
run_or none = ([], sample_table)
run_or (some r) = r

abbrev ran : List ℕ × InternTable
ran = run_or (intern_all size_hash true three_names made)

made_lem : new_interner true true 4096 6 8192 ≡ some made
unfolding new_interner new_pool reserve_empty_name bump commit_chunks round_up reserve_table
    slots_for next_power_of_two
made_lem = refl

ran_lem : intern_all size_hash true three_names made ≡ some ran
unfolding intern_all intern try_intern lookup walk fingerprint_of holds_name same_name same_words
    same_tail same_text append bump commit_chunks round_up length_at read_word read write
    new_interner new_pool reserve_empty_name reserve_table slots_for next_power_of_two
ran_lem = refl

ran-ids : ran.0 ≡ 8 ∷ 16 ∷ 8 ∷ []
unfolding intern_all intern try_intern lookup walk fingerprint_of holds_name same_name same_words
    same_tail same_text append bump commit_chunks round_up length_at read_word read write
    new_interner new_pool reserve_empty_name reserve_table slots_for next_power_of_two
ran-ids = refl

-- "ab" under 8 against "cd" under 16
intern_all-names_example :
    (get_name ran.1.pool 8 ≡ 97 ∷ 98 ∷ [])
    × ((Path ℕ 8 16) ↔ (Path Text (97 ∷ 98 ∷ []) (99 ∷ 100 ∷ [])))
intern_all-names_example =
    intern_all-names size_hash true true 4096 6 8192 made ran.1 three_names ran.0 made_lem ran_lem 0
      1 (97 ∷ 98 ∷ []) (99 ∷ 100 ∷ []) 8 16 refl (ap (λ (l : List ℕ). get_elem? l 0) ran-ids) refl
      (ap (λ (l : List ℕ). get_elem? l 1) ran-ids)

-- A table for two names has one slot, and one for five names has four.
slots_for-few : (slots_for 2 ≡ 1) × (slots_for 5 ≡ 4)
unfolding slots_for next_power_of_two
slots_for-few = (refl, refl)

-- A region that differs from the table's behind its last slot.
abbrev longer_region : Region
longer_region i = if ltb i 4 then empty else claimed

lookup_inside_example :
    (lookup size_hash (record sample_table { region = longer_region }) (97 ∷ [])
      ≡ lookup size_hash sample_table (97 ∷ []))
    × ((lookup size_hash sample_table (97 ∷ [])).index < 4)
lookup_inside_example =
    lookup_inside size_hash 2 (omega arith) sample_table longer_region (97 ∷ []) refl
      (λ i h. if_true _ _ (lt→ltb i 4 h))

abbrev zero_hash : Text → ℕ
zero_hash t = 0

-- Writer 0 publishes "a" in slot 0, and writer 1 walks past it and claims slot 1 for "b".
abbrev two_writers : System
two_writers = set_cell 1 (held (98 ∷ []) 1) (
    set_phase 1 (holding (98 ∷ []) 1) (
      set_phase 1 (facing (98 ∷ []) 1 false) (
        set_phase 1 (walking (98 ∷ []) 1 false) (
          set_phase 1 (walking (98 ∷ []) 0 false) (
            set_cell 0 (holds (97 ∷ [])) (
              set_phase 0 idle (
                set_cell 0 (held (97 ∷ []) 0) (
                  set_phase 0 (holding (97 ∷ []) 0) (
                    set_phase 0 (facing (97 ∷ []) 0 false)
                      (set_phase 0 (walking (97 ∷ []) 0 false) new_system))))))))))

two_writers_reached : Reach zero_hash 3 two_writers
unfolding slot_at seen_cell same_text
two_writers_reached =
    let a : Text = 97 ∷ [] in
    let b : Text = 98 ∷ [] in
    act
      (act
        (act
          (act
            (act
              (act (act (act at_start (begin 0 a refl)) (load 0 a 0 false refl))
                (claim 0 a 0 refl refl))
              (store 0 a 0 refl))
            (begin 1 b refl))
          (load 1 b 0 false refl))
        (load 1 b 1 false refl))
      (claim 1 b 1 refl refl)

Reach-once_example :
    (two_writers.cells 1 ≢ holds (97 ∷ [])) × (two_writers.cells 1 ≢ held (97 ∷ []) 1)
Reach-once_example =
    Reach-once zero_hash 3 two_writers two_writers_reached 0 1 1 (97 ∷ [])
      (λ e. absurd (omega arith)) refl
