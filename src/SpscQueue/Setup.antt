-- ===== src/SpscQueue/Setup.antt =====
-- `init`, `reset` and the moves of src/container/spsc_queue.cc.
use fpag.Common.{ℕ, ◌%◌, ◌^◌, ◌≤◌, ◌≡◌, refl, sym, ap, ◌∙◌, arith, Option, some, none}
use fpag.Common.{List, [], IsWord, true, false, if_true, if_false, ==_iff, leb}
use fpag.MathUtil.{is_power_of_two}
use fpag.MathUtil.Power.{is_power_of_two_iff}
use fpag.SpscQueue.{SpscQueue, Mode, max_capacity, init, reset, move_construct, move_assign}
use fpag.SpscQueue.Ring.{Bytes}
use fpag.SpscQueue.Items.{Item, span, Holds, Contains}
use mathlib.Core.Path.{subst}
use native.Mathlib.Nat.{pow-le-pow_right}
use native.Mathlib.Decide.{dec_lt}

-- A queue without memory whose positions are all at the start, as it is constructed, and as `reset`
-- leaves it.
pub record IsFresh (q : SpscQueue) : Type 0 where
  pub unmapped : q.mapped ≡ false
  pub head_zero : q.head ≡ 0
  pub head_cache_zero : q.head_cache ≡ 0
  pub tail_zero : q.tail ≡ 0
  pub tail_cache_zero : q.tail_cache ≡ 0

exponent_le : (k : ℕ) → 2 ^ k ≤ 2 ^ 35 → k ≤ 35
exponent_le k h = elim (dec_lt 35 k) [
  | yes over ↦ absurd (omega (arith, pow-le-pow_right {n = 2} (omega arith) {i = 36} {j = k} over))
  | no within ↦ omega arith
]

-- What a successful `init` says of its arguments, and what it leaves.
record Initialised (q : SpscQueue) (page_size : ℕ) (pages : Option Bytes) (capacity : ℕ)
    (mode : Mode) (q' : SpscQueue) : Type 0 where
  power : is_power_of_two capacity ≡ true
  whole : capacity % page_size ≡ 0
  small : capacity ≤ max_capacity
  bytes : Bytes
  allocated : pages ≡ some bytes
  result : q' ≡ record q { capacity = capacity; mode = mode; mapped = true; ring = bytes }

init_inversion :
    (q : SpscQueue) (page_size : ℕ) (pages : Option Bytes) (capacity : ℕ) (mode : Mode)
    {q' : SpscQueue}
    → init q page_size pages capacity mode ≡ some q'
    → Initialised q page_size pages capacity mode q'
unfolding init
init_inversion q page_size none capacity mode e = ground arith
init_inversion q page_size (some bytes) capacity mode e = record {
  power = ground arith;
  whole = ground arith;
  small = ground arith;
  bytes = bytes;
  allocated = refl;
  result = ground arith;
}

made-Contains :
    (q : SpscQueue) (k capacity : ℕ) (mode : Mode) (bytes : Bytes)
    → IsFresh q
    → capacity ≡ 2 ^ k
    → k ≤ 35
    → Contains k (record q { capacity = capacity; mode = mode; mapped = true; ring = bytes }) []
unfolding span Holds
made-Contains q k capacity mode bytes fresh power small = record {
  mapped_data = refl;
  capacity_pow = power;
  capacity_small = small;
  head_word = omega (arith, fresh.head_zero);
  head_sync = fresh.head_cache_zero ∙ sym fresh.head_zero;
  tail_sync = fresh.tail_cache_zero ∙ sym fresh.tail_zero;
  tail_end = omega (arith, fresh.head_zero, fresh.tail_zero);
  fits = omega arith;
  holds = tt;
}

-- A successful `init` of a fresh queue leaves an empty queue of the requested capacity and mode,
-- and the capacity is a power of two, at most 2 ^ 35, and a whole number of pages.
pub init-Contains :
    (q : SpscQueue) (page_size : ℕ) (pages : Option Bytes) (capacity : ℕ) (mode : Mode)
    {q' : SpscQueue}
    → IsFresh q
    → IsWord capacity
    → init q page_size pages capacity mode ≡ some q'
    → (k : ℕ) × Contains k q' []
      × (q'.capacity ≡ capacity)
      × (q'.mode ≡ mode)
      × (capacity ≡ 2 ^ k)
      × (capacity % page_size ≡ 0)
unfolding span Holds
init-Contains q page_size pages capacity mode {q'} fresh w e =
    let i = init_inversion q page_size pages capacity mode e in
    let (k, power) = (is_power_of_two_iff capacity w).0 i.power in
    let empty_ring =
      made-Contains q k capacity mode i.bytes fresh power
        (exponent_le k (omega (arith, i.small))) in
    (
      k,
      subst (λ q. Contains k q []) (sym i.result) empty_ring,
      ap (λ q. q.capacity) i.result,
      ap (λ q. q.mode) i.result,
      power,
      i.whole,
    )

-- `init` takes the queue, and leaves it empty.
abbrev pub Renewed : ℕ → ℕ → Bytes → Mode → SpscQueue → Type 0
Renewed page_size k bytes mode q =
    (q' : SpscQueue) × (init q page_size (some bytes) (2 ^ k) mode ≡ some q') × Contains k q' []

IsFresh-Renewed :
    (page_size k : ℕ) (bytes : Bytes) (mode : Mode) (q : SpscQueue)
    → k ≤ 35
    → 2 ^ k % page_size ≡ 0
    → IsFresh q
    → Renewed page_size k bytes mode q
unfolding init
IsFresh-Renewed page_size k bytes mode q small whole fresh =
    let le : 2 ^ k ≤ 2 ^ 35 = pow-le-pow_right {n = 2} (omega arith) {i = k} {j = 35} small in
    let power = (is_power_of_two_iff (2 ^ k) (omega arith)).1 (k, refl) in
    let q' = record q { capacity = 2 ^ k; mode = mode; mapped = true; ring = bytes } in
    let made : init q page_size (some bytes) (2 ^ k) mode ≡ some q' =
      if_false _ _ fresh.unmapped
      ∙ if_true _ _ power
      ∙ if_true _ _ ((==_iff (2 ^ k % page_size) 0).1 whole)
      ∙ if_true _ _ (admitted (2 ^ k) le) in
    (q', made, made-Contains q k (2 ^ k) mode bytes fresh refl small)
  where
    admitted : (n : ℕ) → n ≤ 2 ^ 35 → leb n max_capacity ≡ true
    admitted n h = ground arith

-- After `reset`, and after it was moved from by the constructor or by the assignment, a queue has no
-- memory and can be initialised again with any capacity that `init` admits, and is empty then. Both
-- moves hand the memory and the records of a queue over.
pub reset-IsFresh :
    {k : ℕ} {items : List Item} (q other : SpscQueue) (page_size j : ℕ) (bytes : Bytes)
    (mode : Mode)
    → Contains k q items
    → j ≤ 35
    → 2 ^ j % page_size ≡ 0
    → (IsFresh (reset q) × Renewed page_size j bytes mode (reset q))
      × Renewed page_size j bytes mode (move_construct q).1
      × Renewed page_size j bytes mode (move_assign other q).1
      × Contains k (move_construct q).0 items
      × Contains k (move_assign other q).0 items
unfolding reset move_construct move_assign
reset-IsFresh {k} {items} q other page_size j bytes mode c small whole =
    let renew =
      λ (r : SpscQueue) (f : IsFresh r). IsFresh-Renewed page_size j bytes mode r small whole f in
    let fresh : IsFresh (reset q) = record {
      unmapped = refl;
      head_zero = refl;
      head_cache_zero = refl;
      tail_zero = refl;
      tail_cache_zero = refl;
    } in
    let left : IsFresh (move_construct q).1 = record {
      unmapped = refl;
      head_zero = refl;
      head_cache_zero = refl;
      tail_zero = refl;
      tail_cache_zero = refl;
    } in
    (
      (fresh, renew (reset q) fresh),
      renew (move_construct q).1 left,
      renew (move_assign other q).1 left,
      c,
      moved,
    )
  where
    moved : Contains k (move_assign other q).0 items
    moved = record {
      mapped_data = c.mapped_data;
      capacity_pow = c.capacity_pow;
      capacity_small = c.capacity_small;
      head_word = c.head_word;
      head_sync = c.head_sync;
      tail_sync = c.tail_sync;
      tail_end = c.tail_end;
      fits = c.fits;
      holds = c.holds;
    }
