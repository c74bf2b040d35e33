-- ===== src/Logging/Batches.antt =====
-- What `process_batch` of include/fpag/logging/async/backend_worker.h gives the sink.
use mathlib.Core.Path.{subst, ap₂}
use fpag.Common.{
  ℕ, zero, suc, ◌+◌, ◌-◌, ◌≤◌, ◌<◌, ◌≡◌, refl, sym, ap, ◌∙◌, arith, Bool, true, false, Option, none,
  some, List, [], ◌∷◌, ◌++◌, Text, length, All, map, leb, ◌==◌, ==_iff, add64, word_size, if_true,
  if_false, le→ltb, lt→ltb,
}
use fpag.MathUtil.{round_up}
use fpag.SpscQueue.{SpscQueue, size_consumer, peek, discard}
use fpag.SpscQueue.Ring.{load, length-load, load-append}
use fpag.SpscQueue.Items.{Item, room, span, Contains}
use fpag.SpscQueue.Positions.{size_consumer-eq-span}
use fpag.SpscQueue.Consumer.{peek_front, head-discard, discard_front}
use fpag.Str.Memory.{word_value}
use fpag.Logging.Codec.{Argument, size_bytes}
use fpag.Logging.Serializer.{payload_size, payload_align, payload_min_header_size, fmt_slot}
use fpag.Logging.Worker.{
  Deserializer, LogEntry, deserialize, logged, process_payload, process_record, batch_loop,
  process_batch,
}
use fpag.Logging.Roundtrip.{all_bytes, word_value-size_bytes}
use fpag.Logging.Messages.{Logged, item_of, IsSite, entry_for, deserialize_lem, at_least_24}
use fpag.Logging.Pieces.{record_bytes, payload_size_lem, length-record_bytes}

append-parts :
    (xs xs' ys ys' : List ℕ)
    → length xs ≡ length xs'
    → xs ++ ys ≡ xs' ++ ys'
    → (xs ≡ xs') × (ys ≡ ys')
append-parts [] [] ys ys' h e = (refl, e)
append-parts [] (x ∷ xs') ys ys' h e = absurd (omega arith)
append-parts (x ∷ xs) [] ys ys' h e = absurd (omega arith)
append-parts (x ∷ xs) (x' ∷ xs') ys ys' h e =
    let first : x ≡ x' = ap (λ l. elim l [ [] ↦ x | y ∷ r ↦ y ]) e in
    let rest : xs ++ ys ≡ xs' ++ ys' = ap (λ l. elim l [ [] ↦ xs ++ ys | y ∷ r ↦ r ]) e in
    let (front, back) = append-parts xs xs' ys ys' (omega arith) rest in (ap₂ ◌∷◌ first front, back)

abbrev pub has_records : {A : Type 0} → List A → Bool
has_records [] = false
has_records (x ∷ xs) = true

module _ (code : ℕ → Deserializer) (name : ℕ → Text) (format : Text → List Argument → Text) where
  module _ {k : ℕ} {q : SpscQueue} (l : Logged) (s : IsSite code name format l) (rest : List Item)
      (held : Contains k q (item_of l ∷ rest)) where
    abbrev head : ℕ
    head = peek q payload_min_header_size payload_align

    abbrev total : ℕ
    total = payload_size l.call

    at_least : payload_min_header_size ≤ total
    at_least = at_least_24 code name format l s

    total_word : total < word_size
    total_word = omega (arith, payload_size_lem l.call s.known.call, s.known.call.small)

    payload_lem : load q.capacity q.ring head total ≡ record_bytes l.pad l.call
    unfolding peek
    payload_lem =
        ap (load q.capacity q.ring head)
          (sym (length-record_bytes l.pad l.call s.known.call s.seven))
        ∙ peek_front (item_of l) rest (omega arith) held

    -- The three parts of the header.
    header_parts :
        (load q.capacity q.ring head 8 ≡ size_bytes total)
        × (load q.capacity q.ring (head + 8) 8 ≡ size_bytes l.call.function)
        × (load q.capacity q.ring (head + 16) 1 ≡ l.call.level ∷ [])
    header_parts =
        let n = q.capacity in
        let r = q.ring in
        let c = l.call in
        let behind = l.pad ++ (fmt_slot c.format_id ++ all_bytes c.args) in
        let sum : total ≡ 8 + (8 + (1 + (total - 17))) = omega (arith, at_least) in
        let whole =
          sym (
            ap (load n r head) sum
            ∙ load-append n r head 8 (8 + (1 + (total - 17)))
            ∙ ap (λ t. load n r head 8 ++ t) (load-append n r (head + 8) 8 (1 + (total - 17)))
            ∙ ap (λ t. load n r head 8 ++ (load n r (head + 8) 8 ++ t))
                (load-append n r (head + 8 + 8) 1 (total - 17)))
          ∙ payload_lem in
        let (first, others) =
          append-parts (load n r head 8) (size_bytes total) _ _ (length-load n r head 8) whole in
        let (second, more) =
          append-parts (load n r (head + 8) 8) (size_bytes c.function) _ _
            (length-load n r (head + 8) 8) others in
        let (third, last) =
          append-parts (load n r (head + 8 + 8) 1) (c.level ∷ []) _ _
            (length-load n r (head + 8 + 8) 1) more in
        (first, second, ap (λ t. load n r t 1) (omega arith) ∙ third)

    process_record_lem :
        (timestamp : ℕ)
        → process_record code name format q timestamp
          ≡ some (entry_for code name format timestamp l.call, total, discard q total payload_align)
    unfolding process_record
    process_record_lem timestamp =
        let c = l.call in
        let (first, second, third) = header_parts in
        let step = process_payload code name format q timestamp head in
        let size = ap word_value first ∙ word_value-size_bytes total total_word in
        let function = ap word_value second ∙ word_value-size_bytes c.function s.known.address in
        let level : word_value (load q.capacity q.ring (head + 16) 1) ≡ c.level =
          ap word_value third ∙ omega arith in
        let answer = logged code name format timestamp c.level total q in
        ap₂ (λ n f. step n f (word_value (load q.capacity q.ring (head + 16) 1))) size function
        ∙ ap (step total c.function) level
        ∙ if_true
            (answer
              (deserialize code name format (code c.function) (load q.capacity q.ring head total)))
            none (le→leb at_least)
        ∙ ap (λ b. answer (deserialize code name format (code c.function) b)) payload_lem
        ∙ ap answer (deserialize_lem code name format l s)
      where
        le→leb : {m n : ℕ} → m ≤ n → leb m n ≡ true
        le→leb h = ground arith

    abbrev after : SpscQueue
    after = discard q total payload_align

    after-Contains : Contains k after rest
    after-Contains =
        subst (λ n. Contains k (discard q n payload_align) rest)
          (length-record_bytes l.pad l.call s.known.call s.seven)
          (discard_front (item_of l) rest (omega arith) held)

    after-head : after.head ≡ add64 q.head (room q.head (item_of l))
    after-head =
        ap (λ n. (discard q n payload_align).head)
          (sym (length-record_bytes l.pad l.call s.known.call s.seven))
        ∙ head-discard (item_of l) rest (omega arith) held

    room-pos : 0 < room q.head (item_of l)
    room-pos = omega (arith, length-record_bytes l.pad l.call s.known.call s.seven, at_least)

    -- Where the loop goes on.
    next_place :
        (current : ℕ) → current ≡ q.head → add64 (round_up current payload_align) total ≡ after.head
    unfolding discard
    next_place current e = ap (λ p. add64 (round_up p payload_align) total) (e ∙ sym held.head_sync)

  abbrev pub entry_of : ℕ → Logged → LogEntry
  entry_of timestamp l = entry_for code name format timestamp l.call

  abbrev Emptied : ℕ → Option (List LogEntry × SpscQueue) → List LogEntry → Type 0
  Emptied k r entries = (q' : SpscQueue) × (r ≡ some (entries, q')) × Contains k q' []

  batch_loop_lem :
      {k : ℕ} (fuel current target timestamp : ℕ) (q : SpscQueue) (ls : List Logged)
      → All (IsSite code name format) ls
      → Contains k q (map item_of ls)
      → length ls < fuel
      → current ≡ q.head
      → target ≡ q.head + span q.head (map item_of ls)
      → target < word_size
      → Emptied k
          (batch_loop code name format fuel current target timestamp q)
          (map (entry_of timestamp) ls)
  unfolding batch_loop span
  batch_loop_lem zero current target timestamp q ls s held h e f w = absurd (omega arith)
  batch_loop_lem (suc fuel) current target timestamp q [] s held h e f w =
      (q, if_false _ _ (le→ltb current target (omega arith)), held)
  batch_loop_lem (suc fuel) current target timestamp q (l ∷ ls) s held h e f w =
      let rest = map item_of ls in
      let q' = after l s.0 rest held in
      let n = total l s.0 rest held in
      let front = room q.head (item_of l) in
      let moved : q'.head ≡ add64 q.head front = after-head l s.0 rest held in
      let spans : span q'.head rest ≡ span (add64 q.head front) rest =
        ap (λ (p : ℕ). span p rest) moved in
      let positive : 0 < front = room-pos l s.0 rest held in
      let prepend : LogEntry
          → Option (List LogEntry × SpscQueue)
          → Option (List LogEntry × SpscQueue) =
        λ entry o. elim o [ none ↦ none | some (entries, q'') ↦ some (entry ∷ entries, q'') ] in
      let round : Option (LogEntry × ℕ × SpscQueue) → Option (List LogEntry × SpscQueue) = λ o.
        elim o [
          | none ↦ none
          | some (entry, size, r) ↦ prepend entry (
              batch_loop code name format fuel (add64 (round_up current payload_align) size) target
                timestamp r)
        ] in
      let (last, answer, empty) =
        batch_loop_lem fuel q'.head target timestamp q' ls s.1 (after-Contains l s.0 rest held)
          (omega arith) refl (omega (arith, moved, spans)) w in
      (
        last,
        if_true _ _ (lt→ltb current target (omega (arith, positive)))
            ∙ ap round (process_record_lem l s.0 rest held timestamp)
            ∙ ap
                (λ p.
                  prepend (entry_for code name format timestamp l.call)
                    (batch_loop code name format fuel p target timestamp q'))
                (next_place l s.0 rest held current e)
            ∙ ap (prepend (entry_for code name format timestamp l.call)) answer,
        empty,
      )

  length-le-span :
      (p : ℕ) (ls : List Logged)
      → All (IsSite code name format) ls
      → length ls ≤ span p (map item_of ls)
  unfolding span
  length-le-span p [] s = omega arith
  length-le-span p (l ∷ ls) s = omega (
    arith,
    length-le-span (add64 p (room p (item_of l))) ls s.1,
    length-record_bytes l.pad l.call s.0.known.call s.0.seven,
    at_least_24 code name format l s.0,
  )

  -- If the queue holds the records of calls whose code is known, at positions that do not wrap, then
  -- `process_batch` hands the sink one entry for each, in order, with the level of the call, its
  -- message and the timestamp of the batch, answers whether there was a record, and leaves the queue
  -- empty. No check fails, and the loop ends.
  pub process_batch_lem :
      (k timestamp : ℕ) (q : SpscQueue) (ls : List Logged)
      → All (IsSite code name format) ls
      → Contains k q (map item_of ls)
      → q.head + span q.head (map item_of ls) < word_size
      → (q' : SpscQueue) × (process_batch code name format q timestamp
          ≡ some (has_records ls, map (entry_of timestamp) ls, q'))
        × Contains k q' []
  unfolding process_batch span
  process_batch_lem k timestamp q [] s held w =
      let none_left = size_consumer-eq-span held in
      (q, if_true _ _ ((==_iff (size_consumer q) 0).1 none_left), held)
  process_batch_lem k timestamp q (l ∷ ls) s held w =
      let used = size_consumer-eq-span held in
      let long = length-le-span q.head (l ∷ ls) s in
      let some_left : (size_consumer q == 0) ≡ false =
        not_zero (size_consumer q) (omega (arith, long, used)) in
      let sum : add64 q.head_cache (size_consumer q) ≡ q.head + span q.head (map item_of (l ∷ ls)) =
        omega (arith, used, held.head_sync) in
      let finish : Option (List LogEntry × SpscQueue) → Option (Bool × List LogEntry × SpscQueue) =
        λ o. elim o [ none ↦ none | some (entries, q') ↦ some (true, entries, q') ] in
      let (last, answer, empty) =
        batch_loop_lem (suc (size_consumer q)) q.head_cache (add64 q.head_cache (size_consumer q))
          timestamp q (l ∷ ls) s held (omega (arith, long, used)) held.head_sync sum
          (omega (arith, sum)) in
      (last, if_false _ _ some_left ∙ ap finish answer, empty)
    where
      not_zero : (n : ℕ) → 0 < n → (n == 0) ≡ false
      not_zero n h = ground arith
