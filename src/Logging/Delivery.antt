-- ===== src/Logging/Delivery.antt =====
-- A log call of include/fpag/logging/async from `serialize_to` to the sink.
use mathlib.Core.Path.{subst, ap₂}
use fpag.Common.{
  ℕ, ◌+◌, ◌^◌, ◌≤◌, ◌<◌, ◌≡◌, refl, sym, ap, ◌∙◌, arith, Option, none, some, List, [], ◌∷◌, ◌++◌,
  Text, All, map, word_size, append_assoc, append-nil,
}
use fpag.MathUtil.Round.{padding, padding-lt}
use fpag.SpscQueue.{SpscQueue, EnqueueStatus}
use fpag.SpscQueue.Items.{room, span, Contains, span-append}
use fpag.SpscQueue.Producer.{enqueue_accepts}
use fpag.Logging.Codec.{Argument}
use fpag.Logging.Serializer.{Call, serialize_to}
use fpag.Logging.Worker.{Deserializer, process_batch}
use fpag.Logging.Pieces.{record_length, payload_size_lem, length-record_bytes}
use fpag.Logging.Records.{serialize_to-enqueue}
use fpag.Logging.Messages.{Logged, item_of, IsKnown, IsSite, entry_for}
use fpag.Logging.Batches.{has_records, entry_of, process_batch_lem}

-- The calls one behind the other on a thread that finds room for each. None where one is dropped.
unfoldable pub log_all : SpscQueue → List Call → Option SpscQueue
log_all q [] = some q
log_all q (c ∷ calls) = elim (serialize_to q c []) [
  | none ↦ none
  | some (EnqueueStatus.ok, q') ↦ log_all q' calls
  | some (EnqueueStatus.dropped, q') ↦ none
]

-- The room that the records of some calls take at most.
unfoldable pub budget : List Call → ℕ
budget [] = 0
budget (c ∷ calls) = record_length c + 7 + budget calls

map-append_item :
    (ls : List Logged) (l : Logged) → map item_of (ls ++ l ∷ []) ≡ map item_of ls ++ item_of l ∷ []
map-append_item [] l = refl
map-append_item (x ∷ ls) l = ap (◌∷◌ (item_of x)) (map-append_item ls l)

calls_of : List Logged → List Call
calls_of [] = []
calls_of (l ∷ ls) = l.call ∷ calls_of ls

calls_of-lem {ℓ} :
    {A : Type ℓ} (f : Call → A) (ls : List Logged) → map (λ l. f l.call) ls ≡ map f (calls_of ls)
unfolding calls_of
calls_of-lem f [] = refl
calls_of-lem f (l ∷ ls) = ap (◌∷◌ (f l.call)) (calls_of-lem f ls)

calls_of-has_records : (ls : List Logged) → has_records ls ≡ has_records (calls_of ls)
unfolding calls_of
calls_of-has_records [] = refl
calls_of-has_records (l ∷ ls) = refl

module _ (code : ℕ → Deserializer) (name : ℕ → Text) (format : Text → List Argument → Text) where
  abbrev Delivers : ℕ → SpscQueue → List Logged → List Call → Option SpscQueue → Type 0
  Delivers k q before calls r =
      (q' : SpscQueue) × (ls : List Logged) × (r ≡ some q')
      × Contains k q' (map item_of (before ++ ls))
      × (q'.head ≡ q.head)
      × All (IsSite code name format) ls
      × (calls_of ls ≡ calls)

  -- One call that finds room.
  serialize_to-accepts :
      (k : ℕ) (q : SpscQueue) (before : List Logged) (c : Call)
      → IsKnown code name format c
      → Contains k q (map item_of before)
      → span q.head (map item_of before) + (record_length c + 7) ≤ 2 ^ k
      → (q' : SpscQueue) × (l : Logged) × (serialize_to q c [] ≡ some (EnqueueStatus.ok, q'))
        × Contains k q' (map item_of (before ++ l ∷ []))
        × (q'.head ≡ q.head)
        × IsSite code name format l
        × (l.call ≡ c)
        × (span q.head (map item_of (before ++ l ∷ []))
            ≤ span q.head (map item_of before) + (record_length c + 7))
  serialize_to-accepts k q before c known held fits =
      let items = map item_of before in
      let (pad, seven, same) =
        serialize_to-enqueue q c [] known.call (omega (arith, held.capacity_pow)) in
      let l : Logged = record { call = c; pad = pad } in
      let bytes = length-record_bytes pad c known.call seven in
      let aligned : padding q.tail 8 < 8 = padding-lt q.tail 8 (omega arith) in
      let taken : room q.tail (item_of l) ≤ record_length c + 7 =
        omega (arith, bytes, payload_size_lem c known.call, aligned) in
      let (q', accepted, kept, head, mode) =
        enqueue_accepts (item_of l) items held [] (omega arith) (omega (arith, taken)) in
      let grown : span q.head (map item_of (before ++ l ∷ []))
          ≡ span q.head items + room q.tail (item_of l) =
        ap (span q.head) (map-append_item before l)
        ∙ span-append q.head items (item_of l) held.head_word
        ∙ ap (λ (t : ℕ). span q.head items + room t (item_of l)) (sym held.tail_end) in
      (
        q',
        l,
        same ∙ accepted,
        subst (Contains k q') (sym (map-append_item before l)) kept,
        head,
        record { known = known; seven = seven },
        refl,
        omega (arith, grown, taken),
      )

  log_all-Delivers :
      (k : ℕ) (q : SpscQueue) (before : List Logged) (calls : List Call)
      → All (IsKnown code name format) calls
      → Contains k q (map item_of before)
      → span q.head (map item_of before) + budget calls ≤ 2 ^ k
      → Delivers k q before calls (log_all q calls)
  unfolding log_all budget calls_of
  log_all-Delivers k q before [] known held fits = (
    q,
    [],
    refl,
    subst (λ ls. Contains k q (map item_of ls)) (sym (append-nil before)) held,
    refl,
    tt,
    refl,
  )
  log_all-Delivers k q before (c ∷ calls) known held fits =
      let next : Option (EnqueueStatus × SpscQueue) → Option SpscQueue = λ o. elim o [
        | none ↦ none
        | some (EnqueueStatus.ok, r) ↦ log_all r calls
        | some (EnqueueStatus.dropped, r) ↦ none
      ] in
      let (q1, l, accepted, kept, head, site, same, grown) =
        serialize_to-accepts k q before c known.0 held (omega arith) in
      let used : span q1.head (map item_of (before ++ l ∷ []))
          ≡ span q.head (map item_of (before ++ l ∷ [])) =
        ap (λ (p : ℕ). span p (map item_of (before ++ l ∷ []))) head in
      let (last, ls, answer, all, still, sites, named) =
        log_all-Delivers k q1 (before ++ l ∷ []) calls known.1 kept (omega (arith, used, grown)) in
      (
        last,
        l ∷ ls,
        ap next accepted ∙ answer,
        subst (λ xs. Contains k last (map item_of xs)) (append_assoc before (l ∷ []) ls) all,
        still ∙ head,
        (site, sites),
        ap₂ ◌∷◌ same named,
      )

  -- Calls whose code is known and whose records fit an empty queue together, logged one behind the
  -- other and then taken in one batch, at positions that do not wrap, are all accepted, and the sink is
  -- given an entry for each, in order: its level, its message, and the timestamp of the batch. The
  -- message is the format applied to the arguments that were logged, but for a call without arguments
  -- whose format is interned, where it is the text of the format as it stands. The queue is left
  -- empty.
  pub log_all-process_batch :
      (k timestamp : ℕ) (q : SpscQueue) (calls : List Call)
      → All (IsKnown code name format) calls
      → Contains k q []
      → budget calls ≤ 2 ^ k
      → q.head + 2 ^ k < word_size
      → (q' : SpscQueue) × (q'' : SpscQueue) × (log_all q calls ≡ some q')
        × (process_batch code name format q' timestamp
            ≡ some (has_records calls, map (entry_for code name format timestamp) calls, q''))
        × Contains k q'' []
  unfolding span
  log_all-process_batch k timestamp q calls known held fits w =
      let (q', ls, answer, all, head, sites, named) =
        log_all-Delivers k q [] calls known held (omega arith) in
      let (q'', batch, empty) =
        process_batch_lem code name format k timestamp q' ls sites all
          (omega (arith, all.fits, head)) in
      let entries : map (entry_of code name format timestamp) ls
          ≡ map (entry_for code name format timestamp) calls =
        calls_of-lem (entry_for code name format timestamp) ls
        ∙ ap (map (entry_for code name format timestamp)) named in
      let some_left : has_records ls ≡ has_records calls =
        calls_of-has_records ls ∙ ap has_records named in
      (q', q'', answer, batch ∙ ap₂ (λ b es. some (b, es, q'')) some_left entries, empty)
