-- ===== src/Logging/Records.antt =====
-- What `serialize_to` of include/fpag/logging/async/serializer.h leaves in the queue.
use mathlib.Core.Path.{ap₂}
use fpag.Common.{
  ℕ, ◌+◌, ◌≤◌, ◌≡◌, refl, sym, ap, ◌∙◌, arith, Option, none, some, List, [], ◌∷◌, length, ltb,
  add64, split_if, split_option, sub64,
}
use fpag.SpscQueue.{
  SpscQueue, Mode, EnqueueStatus, reserve, commit, copy_in, enqueue, wait_for_space_producer,
  available_producer,
}
use fpag.SpscQueue.Ring.{length-load}
use fpag.MathUtil.{round_up}
use fpag.Logging.Serializer.{payload_align, Call, payload_size, write_record, serialize_to}
use fpag.Logging.Pieces.{
  IsCall, record_bytes, record_length, length-record_bytes, write_record_lem, pad_of, levelled,
}

-- `reserve` keeps the capacity.
abbrev KeepsCapacity : ℕ → Option (EnqueueStatus × Option ℕ × SpscQueue) → Type 0
KeepsCapacity n none = Unit
KeepsCapacity n (some (status, out, q)) = q.capacity ≡ n

wait-capacity :
    (q : SpscQueue) (size : ℕ) (heads : List ℕ) (q' : SpscQueue)
    → wait_for_space_producer q size heads ≡ some q'
    → q'.capacity ≡ q.capacity
unfolding wait_for_space_producer
wait-capacity q size [] q' =
    split_if (λ o. o ≡ some q' → q'.capacity ≡ q.capacity) (ltb (available_producer q) size)
      (λ t e. absurd (ground (arith, e))) (λ t e. sym (kept q e))
  where
    kept : (r : SpscQueue) → some r ≡ some q' → r.capacity ≡ q'.capacity
    kept r e = ap (λ o. elim o [ none ↦ r.capacity | some x ↦ x.capacity ]) e
wait-capacity q size (h ∷ heads) q' =
    let rest = wait-capacity (record q { head = h; head_cache = h }) size heads q' in
    split_if (λ o. o ≡ some q' → q'.capacity ≡ q.capacity) (ltb (available_producer q) size)
      (λ t e. rest e) (λ t e. sym (kept q e))
  where
    kept : (r : SpscQueue) → some r ≡ some q' → r.capacity ≡ q'.capacity
    kept r e = ap (λ o. elim o [ none ↦ r.capacity | some x ↦ x.capacity ]) e

split_mode :
    {A : Type 0} (P : A → Type 0) (m : Mode) {x y : A}
    → P x
    → P y
    → P (elim m [ Mode.drop ↦ x | Mode.block ↦ y ])
split_mode P Mode.drop hx hy = hx
split_mode P Mode.block hx hy = hy

reserve-capacity :
    (q : SpscQueue) (size align : ℕ) (heads : List ℕ)
    → KeepsCapacity q.capacity (reserve q size align heads)
unfolding reserve
reserve-capacity q size align heads =
    let needed = add64 size (sub64 (round_up q.tail_cache align) q.tail_cache) in
    let blocked = record q { blocked_count = add64 q.blocked_count 1 } in
    split_if (KeepsCapacity q.capacity) (ltb (available_producer q) needed)
      (λ t. split_mode (KeepsCapacity q.capacity) q.mode refl (
        split_option (KeepsCapacity q.capacity) (wait_for_space_producer blocked needed heads)
          (λ e. tt) (λ q' e. wait-capacity blocked needed heads q' e)))
      (λ t. refl)

abbrev serialized :
    Call → Option (EnqueueStatus × Option ℕ × SpscQueue) → Option (EnqueueStatus × SpscQueue)
serialized c r = elim r [
  | none ↦ none
  | some (status, out, q') ↦ elim out [
    | none ↦ some (status, q')
    | some head ↦ some (EnqueueStatus.ok, commit (write_record q' head c) (payload_size c))
  ]
]

abbrev enqueued :
    List ℕ → Option (EnqueueStatus × Option ℕ × SpscQueue) → Option (EnqueueStatus × SpscQueue)
enqueued bytes r = elim r [
  | none ↦ none
  | some (status, out, q') ↦ elim out [
    | none ↦ some (status, q')
    | some buf ↦ some (EnqueueStatus.ok, commit (copy_in q' buf bytes) (length bytes))
  ]
]

-- What is left in the padding, where the record is written.
abbrev padding_left : Call → Option (EnqueueStatus × Option ℕ × SpscQueue) → List ℕ
padding_left c none = 0 ∷ 0 ∷ 0 ∷ 0 ∷ 0 ∷ 0 ∷ 0 ∷ []
padding_left c (some (status, none, q)) = 0 ∷ 0 ∷ 0 ∷ 0 ∷ 0 ∷ 0 ∷ 0 ∷ []
padding_left c (some (status, some out, q)) = pad_of q out c

length-padding_left :
    (c : Call) (r : Option (EnqueueStatus × Option ℕ × SpscQueue)) → length (padding_left c r) ≡ 7
length-padding_left c none = refl
length-padding_left c (some (status, none, q)) = refl
length-padding_left c (some (status, some out, q)) =
    length-load q.capacity (levelled q out (payload_size c) c) (out + 17) 7

serialized-enqueued :
    (c : Call) (n : ℕ) (r : Option (EnqueueStatus × Option ℕ × SpscQueue))
    → IsCall c
    → record_length c ≤ n
    → KeepsCapacity n r
    → serialized c r ≡ enqueued (record_bytes (padding_left c r) c) r
serialized-enqueued c n none h fits k = refl
serialized-enqueued c n (some (status, none, q)) h fits k = refl
serialized-enqueued c n (some (status, some out, q)) h fits k =
    let size =
      length-record_bytes (pad_of q out c) c h
        (length-padding_left c (some (status, some out, q))) in
    ap₂ (λ r m. some (EnqueueStatus.ok, commit r m))
      (write_record_lem q out c (omega (arith, k, fits))) (sym size)

-- `serialize_to` of a call whose arguments are typed and whose record fits the ring does what
-- `enqueue` does with the record in one piece: the size, the address of the deserialize function, the
-- level, some seven bytes of padding, the four bytes of the id of an interned format, and the
-- arguments. This holds whether the record is accepted, dropped or has to wait.
pub serialize_to-enqueue :
    (q : SpscQueue) (c : Call) (heads : List ℕ)
    → IsCall c
    → record_length c ≤ q.capacity
    → (pad : List ℕ) × (length pad ≡ 7)
      × (serialize_to q c heads ≡ enqueue q (record_bytes pad c) payload_align heads)
unfolding serialize_to enqueue
serialize_to-enqueue q c heads h fits =
    let r = reserve q (payload_size c) payload_align heads in
    let pad = padding_left c r in
    let seven = length-padding_left c r in
    (
      pad,
      seven,
      serialized-enqueued c q.capacity r h fits
            (reserve-capacity q (payload_size c) payload_align heads)
          ∙ ap (λ n. enqueued (record_bytes pad c) (reserve q n payload_align heads))
              (sym (length-record_bytes pad c h seven)),
    )
