-- ===== src/Str/Table.antt =====
-- include/fpag/str/intern_table.h: the table from a name to the id that holds it in the pool. The
-- hash is the parameter that it is of the source's template.
pub mod Names
pub mod Walk
pub mod Intern
pub mod Bounds
pub mod Progress
use fpag.Common.{
  ℕ, zero, suc, ◌+◌, ◌-◌, ◌*◌, ◌/◌, ◌%◌, ◌^◌, Bool, true, false, ◌&&◌, ◌||◌, Option, none, some,
}
use fpag.Common.{
  List, [], ◌∷◌, Text, if◌then◌else◌, ltb, leb, ◌==◌, length, add64, mul64, bit_or, bit_and,
  same_text,
}
use fpag.MathUtil.{round_up, next_power_of_two}
use fpag.Str.Memory.{Memory, read, write}
use fpag.Str.Pool.{StringPool, append, length_at, length_prefix_bytes}

-- A control byte with the entry behind it: EMPTY_CONTROL, CLAIMED_CONTROL, or a fingerprint, with
-- the entry that it publishes.
pub data Slot : Type 0 where
  empty : Slot
  claimed : Slot
  published : ℕ → ℕ → Slot

abbrev pub Region : Type 0
Region = ℕ → Slot

-- The region holds `slots` slots.
pub record InternTable : Type 0 where
  pub pool : StringPool
  pub region : Region
  pub slots : ℕ
  pub region_bytes : ℕ
  pub count : ℕ

pub record Probe : Type 0 where
  pub id : ℕ
  pub index : ℕ
  pub found : Bool
  pub blocked : Bool
  pub full : Bool

-- `published(hash)`
unfoldable pub fingerprint_of : ℕ → ℕ
fingerprint_of hash = bit_or (bit_and (hash / 2 ^ 56) 127) 128

-- Eight bytes, as `word_at` loads them.
abbrev pub word_at : ℕ → Memory → Text
word_at at m = read at 8 m

-- The loop over the whole words, from the offset on.
unfoldable pub same_words : ℕ → ℕ → Memory → Memory → Bool
same_words zero at lhs rhs = true
same_words (suc n) at lhs rhs =
    let later = same_words n (8 + at) lhs rhs in
    if same_text (word_at at lhs) (word_at at rhs) then later else false

-- The loop over the bytes of the tail.
unfoldable pub same_tail : ℕ → ℕ → Memory → Memory → Bool
same_tail zero at lhs rhs = true
same_tail (suc n) at lhs rhs =
    let later = same_tail n (suc at) lhs rhs in if lhs at == rhs at then later else false

unfoldable pub same_name : Memory → Memory → ℕ → Bool
same_name lhs rhs size =
    let at = size / 8 * 8 in
    if same_words (size / 8) 0 lhs rhs
    then if at == size
      then true
      else (if leb 8 size
          then same_text (word_at (size - 8) lhs) (word_at (size - 8) rhs)
          else same_tail (size - at) at lhs rhs)
    else false

-- The bytes from an offset on, as a pointer to them sees them.
abbrev pub from : ℕ → Memory → Memory
from at m i = m (at + i)

-- `content.data()`
abbrev pub data_of : Text → Memory
data_of t = write 0 t (λ i. 0)

-- Whether the entry holds the name.
unfoldable pub holds_name : StringPool → ℕ → Text → Bool
holds_name p id content =
    (length_at p id == length content)
    && same_name (from id p.memory) (data_of content) (length content)

abbrev pub next_index : ℕ → ℕ → ℕ
next_index mask index = bit_and ((index + 1) % 2 ^ 32) mask

-- The walk of `lookup` over so many slots from an index on, with its flag `claimed`.
unfoldable pub walk : ℕ → StringPool → Region → ℕ → ℕ → Text → ℕ → Bool → Probe
walk zero p r mask fingerprint content index seen = record {
  id = 0;
  index = index;
  found = false;
  blocked = seen;
  full = true;
}
walk (suc n) p r mask fingerprint content index seen = elim (r index) [
  | empty ↦ record { id = 0; index = index; found = false; blocked = seen; full = false }
  | claimed ↦ walk n p r mask fingerprint content (next_index mask index) true
  | published f id ↦ elim (f == fingerprint && holds_name p id content) [
    | true ↦ record { id = id; index = index; found = true; blocked = false; full = false }
    | false ↦ walk n p r mask fingerprint content (next_index mask index) seen
  ]
]

abbrev pub mask_of : InternTable → ℕ
mask_of t = (t.slots - 1) % 2 ^ 32

abbrev pub set_slot : ℕ → Slot → Region → Region
set_slot index s r i = if i == index then s else r i

-- One turn of the loop of `try_intern`: an answer, or a wait for another writer.
pub data Turn : Type 0 where
  interned : ℕ → InternTable → Turn
  no_slot : Turn
  wait : Turn
  stopped : Turn

-- The claim of a free slot, and the name's publication in it.
abbrev pub publish : ℕ → ℕ → InternTable → Option (ℕ × StringPool) → Turn
publish index fingerprint t none = stopped
publish index fingerprint t (some (id, p)) = interned id (record t {
  pool = p;
  region = set_slot index (published fingerprint id) t.region;
  count = add64 t.count 1;
})

abbrev pub default_names : ℕ
default_names = 2 ^ 24

abbrev pub max_names : ℕ
max_names = 2 ^ 30 / 4 * 3

abbrev pub slot_bytes : ℕ
slot_bytes = 5

-- `release`, which frees the region.
abbrev pub release : InternTable → InternTable
release t = record t { region = λ i. empty; slots = 0; region_bytes = 0; count = 0 }

unfoldable pub slots_for : ℕ → ℕ
slots_for wanted = next_power_of_two (mul64 (wanted / 3) 4)

abbrev pub with_region : Bool → ℕ → ℕ → InternTable → Option InternTable
with_region pages page_size slots t =
    if pages
    then some
        (record t { slots = slots; region_bytes = round_up (mul64 slots slot_bytes) page_size })
    else none

-- `InternTable::reserve`, over whether `allocate_pages` answers pages, which read as zero. None
-- where a check stops the program.
unfoldable pub reserve_table : Bool → ℕ → ℕ → InternTable → Option InternTable
reserve_table pages page_size names t =
    let wanted = if names == 0 then default_names else names in
    let slots = slots_for wanted in
    if leb wanted max_names && leb slots ((2 ^ 64 - 1) / slot_bytes)
    then with_region pages page_size slots (release t)
    else none

module _ (hash : Text → ℕ) where
  unfoldable pub lookup : InternTable → Text → Probe
  lookup t content =
      walk (suc (mask_of t)) t.pool t.region (mask_of t) (fingerprint_of (hash content)) content
        (bit_and (hash content % 2 ^ 32) (mask_of t)) false

  abbrev pub answer : Probe → Option ℕ
  answer probe = if probe.found then some probe.id else none

  -- `find`
  unfoldable pub find : InternTable → Text → Option ℕ
  find t content = answer (lookup t content)

  -- With no other writer between them, the claim of the slot that the walk has found free succeeds.
  abbrev pub turn_on : Bool → Text → InternTable → Probe → Turn
  turn_on commits content t probe =
      if probe.found
      then interned probe.id t
      else (if probe.full
          then no_slot
          else (if probe.blocked
              then wait
              else publish probe.index (fingerprint_of (hash content)) t
                  (append commits content t.pool)))

  unfoldable pub try_intern : Bool → Text → InternTable → Turn
  try_intern commits content t = turn_on commits content t (lookup t content)
