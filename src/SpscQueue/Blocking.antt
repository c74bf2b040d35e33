-- ===== src/SpscQueue/Blocking.antt =====
-- `enqueue` in the mode `Block`, with a consumer that takes records while the producer waits.
use fpag.Common.{ℕ, suc, ◌+◌, ◌^◌, ◌≤◌, ◌≡◌, refl, ap, arith, some}
use fpag.Common.{List, [], ◌∷◌, ◌++◌, drop, length, add64, sub64, true, ltb}
use fpag.Common.{le→ltb, ltb→le, Bool-cases, inl, inr}
use fpag.MathUtil.{round_up}
use fpag.SpscQueue.{SpscQueue, Mode, EnqueueStatus, available_producer}
use fpag.SpscQueue.{wait_for_space_producer, enqueue}
use fpag.SpscQueue.Items.{Item, align, IsAlignable, room, span, Contains, Contains-advance}
use mathlib.Core.Path.{subst}
use fpag.SpscQueue.Positions.{capacity_bound, available_producer-eq}
use fpag.SpscQueue.Producer.{publish, publish-Contains, needs, enqueue_accepts}

-- The positions that the consumer publishes when it takes these records one by one, and the last.
unfoldable pub positions : ℕ → List Item → List ℕ
positions p [] = []
positions p (i ∷ items) = add64 p (room p i) ∷ positions (add64 p (room p i)) items

unfoldable pub position_after : ℕ → List Item → ℕ
position_after p [] = p
position_after p (i ∷ items) = position_after (add64 p (room p i)) items

abbrev take_one : SpscQueue → Item → SpscQueue
take_one q i = record q {
  head = add64 q.head (room q.head i);
  head_cache = add64 q.head (room q.head i);
}

-- The loop ends once enough records are gone, and has lost none that the consumer has not taken.
record Waited (k : ℕ) (q : SpscQueue) (need : ℕ) (front back : List Item) (heads : List ℕ)
    : Type 0 where
  after : SpscQueue
  taken : ℕ
  ends : wait_for_space_producer q need heads ≡ some after
  taken_few : taken ≤ length front
  keeps : Contains k after (drop taken (front ++ back))
  space : span after.head (drop taken (front ++ back)) + need ≤ 2 ^ k
  same_tail : after.tail ≡ q.tail
  same_cache : after.tail_cache ≡ q.tail_cache

wait_ends :
    {k : ℕ} (need : ℕ) (front back : List Item) (q : SpscQueue)
    → Contains k q (front ++ back)
    → span (position_after q.head front) back + need ≤ 2 ^ k
    → Waited k q need front back (positions q.head front)
unfolding wait_for_space_producer positions position_after
wait_ends {k} need [] back q c fits = record {
  after = q;
  taken = 0;
  ends = rw (le→ltb (available_producer q) need (omega (arith, available_producer-eq c)));
  taken_few = omega arith;
  keeps = c;
  space = fits;
  same_tail = refl;
  same_cache = refl;
}
wait_ends {k} need (i ∷ front) back q c fits = elim (Bool-cases (ltb (available_producer q) need)) [
  | inl short ↦
      let w =
        wait_ends need front back (take_one q i) (Contains-advance i (front ++ back) c) fits in
      record {
        after = w.after;
        taken = suc w.taken;
        ends = rw short w.ends;
        taken_few = omega (arith, w.taken_few);
        keeps = w.keeps;
        space = w.space;
        same_tail = w.same_tail;
        same_cache = w.same_cache;
      }
  | inr enough ↦ record {
    after = q;
    taken = 0;
    ends = rw enough;
    taken_few = omega arith;
    keeps = c;
    space = omega (arith, ltb→le _ _ enough, available_producer-eq c, c.fits);
    same_tail = refl;
    same_cache = refl;
  }
]

abbrev count_blocked : SpscQueue → SpscQueue
count_blocked q = record q { blocked_count = add64 q.blocked_count 1 }

Contains-count_blocked :
    {k : ℕ} {q : SpscQueue} {items : List Item}
    → Contains k q items
    → Contains k (count_blocked q) items
Contains-count_blocked c = record {
  mapped_data = c.mapped_data;
  capacity_pow = c.capacity_pow;
  capacity_small = c.capacity_small;
  head_word = c.head_word;
  head_sync = c.head_sync;
  tail_sync = c.tail_sync;
  tail_end = c.tail_end;
  fits = c.fits;
  holds = c.holds;
}

enqueue_blocked :
    (q q' : SpscQueue) (i : Item) (heads : List ℕ) (need : ℕ)
    → need ≡ add64 (length i.bytes) (sub64 (round_up q.tail_cache (align i)) q.tail_cache)
    → ltb (available_producer q) need ≡ true
    → q.mode ≡ Mode.block
    → wait_for_space_producer (count_blocked q) need heads ≡ some q'
    → enqueue q i.bytes (align i) heads ≡ some (EnqueueStatus.ok, publish q.tail_cache q' i)
unfolding enqueue publish
enqueue_blocked q q' i heads need e short mode waited =
    let short' = rw e at short in
    let waited' = rw e at waited in rw (short', enqueue) (ground arith)

-- `enqueue` in the mode `Block` succeeds once the consumer has taken enough records: if it takes
-- the records `front` one by one, and the new record fits behind the records `back`, then the call
-- answers `Ok`. The queue then holds the records in order, less some that the consumer took, with
-- the new record last.
pub enqueue_waits :
    {k : ℕ} {q : SpscQueue} (i : Item) (front back : List Item)
    → Contains k q (front ++ back)
    → IsAlignable i
    → q.mode ≡ Mode.block
    → span (position_after q.head front) back + room q.tail i ≤ 2 ^ k
    → (taken : ℕ) × (q' : SpscQueue) × (taken ≤ length front)
      × (enqueue q i.bytes (align i) (positions q.head front) ≡ some (EnqueueStatus.ok, q'))
      × Contains k q' (drop taken (front ++ back) ++ (i ∷ []))
enqueue_waits {k} {q} i front back c h mode fits =
    let (_, bound) = capacity_bound k c.capacity_small in
    let need = add64 (length i.bytes) (sub64 (round_up q.tail_cache (align i)) q.tail_cache) in
    let needed : need ≡ room q.tail i = needs i (front ++ back) c h (omega arith) in
    elim (Bool-cases (ltb (available_producer q) need)) [
      | inl short ↦
          let w =
            wait_ends need front back (count_blocked q) (Contains-count_blocked c) (omega arith) in
          (
            w.taken,
            publish q.tail_cache w.after i,
            w.taken_few,
            enqueue_blocked q w.after i (positions q.head front) need refl short mode w.ends,
            subst (λ t. Contains k (publish t w.after i) (drop w.taken (front ++ back) ++ (i ∷ [])))
                w.same_cache
                (publish-Contains i (drop w.taken (front ++ back)) w.keeps h
                  (omega (arith, w.space, ap (λ (t : ℕ). room t i) w.same_tail))),
          )
      | inr enough ↦
          let (q', e, kept, _, _) =
            enqueue_accepts i (front ++ back) c (positions q.head front) h
              (omega (arith, ltb→le _ _ enough, available_producer-eq c, c.fits)) in
          (0, q', omega arith, e, kept)
    ]
