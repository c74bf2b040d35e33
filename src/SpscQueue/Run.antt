-- ===== src/SpscQueue/Run.antt =====
-- Sequences of calls on the queue of src/container/spsc_queue.cc, and on a bounded list of records.
use fpag.Common.{ℕ, ◌+◌, ◌^◌, ◌≤◌, ◌<◌, ◌≡◌, refl, sym, ap, ◌∙◌, arith, some, none}
use fpag.Common.{
  List, [], ◌∷◌, ◌++◌, length, add64, leb, leb→le, leb→lt, if◌then◌else◌, Bool-cases, inl, inr,
}
use fpag.SpscQueue.{SpscQueue, Mode, EnqueueStatus, DequeueStatus, enqueue, dequeue}
use fpag.SpscQueue.Items.{Item, align, IsAlignable, room, span, Contains}
use fpag.SpscQueue.Producer.{enqueue_accepts, enqueue_drops}
use fpag.SpscQueue.Consumer.{dequeue_front, dequeue_empty}
use mathlib.Core.Path.{ap₂, subst}

-- `get n e` asks for n bytes at an alignment of 2 ^ e.
pub data Op : Type 0 where
  put : Item → Op
  get : ℕ → ℕ → Op

pub data Reply : Type 0 where
  enqueued : EnqueueStatus → Reply
  dequeued : DequeueStatus → List ℕ → Reply
  waiting : Reply

-- The calls on the ring. In the mode `Drop` no call waits.
pub run : SpscQueue → List Op → List Reply
run q [] = []
run q (put i ∷ ops) = elim (enqueue q i.bytes (align i) []) [
  | none ↦ waiting ∷ []
  | some (status, q') ↦ enqueued status ∷ run q' ops
]
run q (get n e ∷ ops) =
    let (status, bytes, q') = dequeue q n (2 ^ e) in dequeued status bytes ∷ run q' ops

-- The same calls on a list of records that starts at position p and has room for `capacity` bytes.
pub fifo_run : ℕ → ℕ → List Item → List Op → List Reply
fifo_run capacity p items [] = []
fifo_run capacity p items (put i ∷ ops) =
    let accepted = enqueued EnqueueStatus.ok ∷ fifo_run capacity p (items ++ (i ∷ [])) ops in
    let refused = enqueued EnqueueStatus.dropped ∷ fifo_run capacity p items ops in
    if leb (span p items + room (add64 p (span p items)) i) capacity then accepted else refused
fifo_run capacity p [] (get n e ∷ ops) =
    dequeued DequeueStatus.empty [] ∷ fifo_run capacity p [] ops
fifo_run capacity p (i ∷ items) (get n e ∷ ops) =
    dequeued DequeueStatus.ok i.bytes ∷ fifo_run capacity (add64 p (room p i)) items ops

-- The client's side: a record fits the ring, its alignment is one of a word, and the consumer asks
-- for the size and the alignment of the record that is next.
unfoldable pub Protocol : ℕ → ℕ → List Item → List Op → Type 0
Protocol capacity p items [] = Unit {0}
Protocol capacity p items (put i ∷ ops) =
    IsAlignable i
    × (length i.bytes ≤ capacity)
    × (if leb (span p items + room (add64 p (span p items)) i) capacity
        then Protocol capacity p (items ++ (i ∷ [])) ops
        else Protocol capacity p items ops)
Protocol capacity p [] (get n e ∷ ops) =
    (e ≤ 63) × (0 < n) × (n ≤ capacity) × Protocol capacity p [] ops
Protocol capacity p (i ∷ items) (get n e ∷ ops) =
    IsAlignable i
    × (n ≡ length i.bytes)
    × (e ≡ i.exponent)
    × Protocol capacity (add64 p (room p i)) items ops

Contains-count_dropped :
    {k : ℕ} {q : SpscQueue} {items : List Item}
    → Contains k q items
    → Contains k (record q { dropped_count = add64 q.dropped_count 1 }) items
Contains-count_dropped c = record {
  mapped_data = c.mapped_data;
  capacity_pow = c.capacity_pow;
  capacity_small = c.capacity_small;
  head_word = c.head_word;
  head_sync = c.head_sync;
  tail_sync = c.tail_sync;
  tail_end = c.tail_end;
  fits = c.fits;
  holds = c.holds;
}

run_put :
    (q : SpscQueue) {q' : SpscQueue} {status : EnqueueStatus} (i : Item) (ops : List Op)
    → enqueue q i.bytes (align i) [] ≡ some (status, q')
    → run q (put i ∷ ops) ≡ enqueued status ∷ run q' ops
unfolding run
run_put q i ops e = rw (e, run)

-- Every sequence of calls on a queue in the mode `Drop` that follows the protocol answers what the
-- bounded list of records answers.
pub run_refines :
    {k : ℕ} (ops : List Op) (items : List Item) (q : SpscQueue)
    → Contains k q items
    → q.mode ≡ Mode.drop
    → Protocol (2 ^ k) q.head items ops
    → run q ops ≡ fifo_run (2 ^ k) q.head items ops
unfolding run fifo_run Protocol span
run_refines [] items q c mode p = refl
run_refines {k} (put i ∷ ops) items q c mode p =
    let at_tail : room q.tail i ≡ room (add64 q.head (span q.head items)) i =
      ap (λ (t : ℕ). room t i) c.tail_end in
    elim (Bool-cases
      (leb (span q.head items + room (add64 q.head (span q.head items)) i) (2 ^ k))) [
        | inl fits ↦
            let (q', e, kept, same_head, same_mode) =
              enqueue_accepts i items c [] p.0 (omega (arith, leb→le _ _ fits)) in
            let rest : Protocol (2 ^ k) q.head (items ++ (i ∷ [])) ops = rw fits at p.2 in
            run_put q i ops e
            ∙ ap (◌∷◌ (enqueued EnqueueStatus.ok)) (
                run_refines ops (items ++ (i ∷ [])) q' kept (same_mode ∙ mode)
                  (subst (λ t. Protocol (2 ^ k) t (items ++ (i ∷ [])) ops) (sym same_head) rest)
                ∙ ap (λ t. fifo_run (2 ^ k) t (items ++ (i ∷ [])) ops) same_head)
            ∙ rw fits
        | inr over ↦
            let full = record q { dropped_count = add64 q.dropped_count 1 } in
            let kept : Contains k full items = Contains-count_dropped c in
            let rest : Protocol (2 ^ k) q.head items ops = rw over at p.2 in
            run_put q i ops (
              enqueue_drops i items c [] p.0 (omega (arith, c.capacity_pow, p.1)) mode
                (omega (arith, leb→lt _ _ over)))
            ∙ ap (◌∷◌ (enqueued EnqueueStatus.dropped)) (run_refines ops items full kept mode rest)
            ∙ rw over
      ]
run_refines {k} (get n e ∷ ops) [] q c mode p =
    let empty = dequeue_empty n e p.0 p.1 (omega (arith, c.capacity_pow, p.2)) c in
    ap (λ r. dequeued r.0 r.1 ∷ run r.2 ops) empty
    ∙ ap (◌∷◌ (dequeued DequeueStatus.empty [])) (run_refines ops [] q c mode p.3)
run_refines {k} (get n e ∷ ops) (i ∷ items) q c mode p =
    let (ok, bytes, kept, head, same_mode) = dequeue_front i items p.0 c in
    let q' = (dequeue q (length i.bytes) (align i)).2 in
    let asked : run q (get n e ∷ ops) ≡ run q (get (length i.bytes) i.exponent ∷ ops) =
      ap₂ (λ m d. run q (get m d ∷ ops)) p.1 p.2 in
    asked
    ∙ ap₂ ◌∷◌ (ap₂ dequeued ok bytes) (
        run_refines ops items q' kept (same_mode ∙ mode)
          (subst (λ t. Protocol (2 ^ k) t items ops) (sym head) p.3)
        ∙ ap (λ t. fifo_run (2 ^ k) t items ops) head)
