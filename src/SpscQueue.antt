-- ===== src/SpscQueue.antt =====
-- src/container/spsc_queue.cc and include/fpag/container/spsc_queue.h: the byte ring between one
-- producer and one consumer. A method returns the queue it leaves beside its result.
-- `usize` is a 64-bit word. `data_` is the flag `mapped` with the bytes behind it, and a pointer
-- into the ring is its distance from `data_`. A failed FPAG_CHECK ends the process: `none`.
pub mod Ring
pub mod Items
pub mod Setup
pub mod Positions
pub mod Producer
pub mod Blocking
pub mod Consumer
mod Tests
pub mod Run
use Ring.{Bytes, load, store}
use fpag.Common.{ℕ, ◌+◌, ◌-◌, ◌%◌, ◌^◌, Option, none, some, List, [], ◌∷◌, length}
use fpag.Common.{Bool, true, false, ltb, leb, ◌==◌, if◌then◌else◌, bit_and, add64, sub64}
use fpag.MathUtil.{is_power_of_two, round_up}

pub data Mode : Type 0 where
  drop block : Mode

pub data EnqueueStatus : Type 0 where
  ok dropped : EnqueueStatus

pub data DequeueStatus : Type 0 where
  ok empty : DequeueStatus

pub record SpscQueue : Type 0 where
  pub mapped : Bool
  pub ring : Bytes
  pub capacity : ℕ
  pub mode : Mode
  pub dropped_count : ℕ
  pub blocked_count : ℕ
  pub head : ℕ
  pub head_cache : ℕ
  pub tail : ℕ
  pub tail_cache : ℕ

-- The members' initialisers.
abbrev pub new_queue : SpscQueue
new_queue = record {
  mapped = false;
  ring = λ _. 0;
  capacity = 0;
  mode = Mode.drop;
  dropped_count = 0;
  blocked_count = 0;
  head = 0;
  head_cache = 0;
  tail = 0;
  tail_cache = 0;
}

abbrev pub max_capacity : ℕ
max_capacity = 2 ^ 35

-- The first queue is the one constructed, the second is `other` afterwards.
pub move_construct : SpscQueue → SpscQueue × SpscQueue
move_construct other = (
  other,
  record other {
    mapped = false;
    capacity = 0;
    mode = Mode.drop;
    head = 0;
    head_cache = 0;
    tail = 0;
    tail_cache = 0;
    dropped_count = 0;
    blocked_count = 0;
  },
)

-- A queue that is mapped is not initialised again. The page size, and what `mem::allocate_aliased_pages` answers, come from the platform.
pub init : SpscQueue → ℕ → Option Bytes → ℕ → Mode → Option SpscQueue
init q page_size pages capacity mode =
    if q.mapped
    then none
    else if is_power_of_two capacity
    then if capacity % page_size == 0
      then if leb capacity max_capacity
        then elim pages [
          | none ↦ none
          | some ring ↦
              some (record q { capacity = capacity; mode = mode; mapped = true; ring = ring })
        ]
        else none
      else none
    else none

-- The two counters are left as they are.
pub reset : SpscQueue → SpscQueue
reset q = record q {
  mapped = false;
  capacity = 0;
  mode = Mode.drop;
  head = 0;
  head_cache = 0;
  tail = 0;
  tail_cache = 0;
}

-- `*this = std::move(other)` for two different queues.
pub move_assign : SpscQueue → SpscQueue → SpscQueue × SpscQueue
unfolding reset
move_assign this other =
    let this' = reset this in
    let (_, other') = move_construct other in
    (
      record this' {
        mapped = other.mapped;
        ring = other.ring;
        capacity = other.capacity;
        mode = other.mode;
        head = other.head;
        head_cache = other.head_cache;
        tail = other.tail;
        tail_cache = other.tail_cache;
        dropped_count = other.dropped_count;
        blocked_count = other.blocked_count;
      },
      other',
    )

unfoldable pub size : SpscQueue → ℕ
size q = sub64 q.tail q.head

unfoldable pub is_empty : SpscQueue → Bool
unfolding size
is_empty q = size q == 0

unfoldable pub available : SpscQueue → ℕ
unfolding size
available q = sub64 q.capacity (size q)

abbrev pub size_consumer : SpscQueue → ℕ
size_consumer q = sub64 q.tail q.head_cache

abbrev pub size_producer : SpscQueue → ℕ
size_producer q = sub64 q.tail_cache q.head

abbrev pub available_producer : SpscQueue → ℕ
available_producer q = sub64 q.capacity (size_producer q)

abbrev pub capacity_mask : SpscQueue → ℕ
capacity_mask q = sub64 q.capacity 1

unfoldable pub peek : SpscQueue → ℕ → ℕ → ℕ
peek q size align = bit_and (round_up q.head_cache align) (capacity_mask q)

unfoldable pub discard : SpscQueue → ℕ → ℕ → SpscQueue
discard q size align =
    let head_cache = add64 (round_up q.head_cache align) size in
    record q { head_cache = head_cache; head = head_cache }

-- The list is what is copied to `dest`.
unfoldable pub dequeue : SpscQueue → ℕ → ℕ → DequeueStatus × List ℕ × SpscQueue
unfolding peek discard
dequeue q size align =
    let aligned_head = round_up q.head_cache align in
    let total_needed = add64 size (sub64 aligned_head q.head_cache) in
    if ltb (size_consumer q) total_needed
    then (empty, [], q)
    else (ok, load q.capacity q.ring (peek q size align) size, discard q size align)

-- `heads` are the positions that the consumer publishes while the producer waits, one before each
-- further load of `head_`. `none` says that the producer still waits after the last of them.
unfoldable pub wait_for_space_producer : SpscQueue → ℕ → List ℕ → Option SpscQueue
wait_for_space_producer q size [] = if ltb (available_producer q) size then none else some q
wait_for_space_producer q size (h ∷ heads) =
    if ltb (available_producer q) size
    then wait_for_space_producer (record q { head = h; head_cache = h }) size heads
    else some q

-- The position is `*out`, which is not written when the record is dropped.
unfoldable pub reserve : SpscQueue → ℕ → ℕ → List ℕ → Option (EnqueueStatus × Option ℕ × SpscQueue)
reserve q size align heads =
    let current_tail = q.tail_cache in
    let aligned_tail = round_up current_tail align in
    let padding = sub64 aligned_tail current_tail in
    let total_needed = add64 size padding in
    let advance : SpscQueue → EnqueueStatus × Option ℕ × SpscQueue = λ q'. (
      ok,
      some (bit_and aligned_tail (capacity_mask q')),
      record q' { tail_cache = aligned_tail },
    ) in
    if ltb (available_producer q) total_needed
    then elim q.mode [
      | drop ↦ some (dropped, none, record q { dropped_count = add64 q.dropped_count 1 })
      | block ↦
          elim (wait_for_space_producer (record q { blocked_count = add64 q.blocked_count 1 })
            total_needed heads) [ none ↦ none | some q' ↦ some (advance q') ]
    ]
    else some (advance q)

unfoldable pub commit : SpscQueue → ℕ → SpscQueue
commit q size =
    let tail_cache = add64 q.tail_cache size in
    record q { tail_cache = tail_cache; tail = tail_cache }

-- `memcpy(buf, new_data, size)`
unfoldable pub copy_in : SpscQueue → ℕ → List ℕ → SpscQueue
copy_in q buf bytes = record q { ring = store q.capacity q.ring buf bytes }

unfoldable pub enqueue : SpscQueue → List ℕ → ℕ → List ℕ → Option (EnqueueStatus × SpscQueue)
unfolding reserve commit copy_in
enqueue q bytes align heads = elim (reserve q (length bytes) align heads) [
  | none ↦ none
  | some (status, out, q') ↦ elim out [
    | none ↦ some (status, q')
    | some buf ↦ some (ok, commit (copy_in q' buf bytes) (length bytes))
  ]
]
