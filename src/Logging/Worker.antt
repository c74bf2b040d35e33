-- ===== src/Logging/Worker.antt =====
-- `deserialize` of include/fpag/logging/async/deserializer.h and `process_batch` of
-- backend_worker.h. The formatter and the clock are parameters, and so is the code at the address of a
-- deserialize function: the format, if it is compiled, and the types of the arguments. None is where a
-- debug check stops the program, or where the fuel of the loop is not enough.
use fpag.Common.{
  ℕ, zero, suc, ◌+◌, Bool, true, false, Option, none, some, List, [], ◌∷◌, Text, take, drop,
  if◌then◌else◌, ltb, leb, ◌==◌, add64,
}
use fpag.MathUtil.{round_up}
use fpag.SpscQueue.{SpscQueue, size_consumer, peek, discard}
use fpag.SpscQueue.Ring.{load}
use fpag.Str.Memory.{word_value}
use fpag.Logging.Codec.{Kind, Argument, decode_args}
use fpag.Logging.Serializer.{payload_align, payload_min_header_size}

pub record Deserializer : Type 0 where
  pub compiled : Option Text
  pub kinds : List Kind

pub record LogEntry : Type 0 where
  pub level : ℕ
  pub message : Text
  pub timestamp_ns : ℕ

abbrev pub fmt_slot_size : ℕ
fmt_slot_size = 4

module _ (code : ℕ → Deserializer) (name : ℕ → Text) (format : Text → List Argument → Text) where
  abbrev pub formatted : Text → Option (List Argument) → Option Text
  formatted fmt none = none
  formatted fmt (some args) = some (format fmt args)

  -- Without arguments the string that was interned is the message as it stands.
  abbrev pub interned_message : Text → List Kind → List ℕ → Option Text
  interned_message fmt [] bytes = some fmt
  interned_message fmt (k ∷ kinds) bytes = formatted fmt (decode_args (k ∷ kinds) bytes)

  abbrev pub message_with : Option Text → List Kind → List ℕ → Option Text
  message_with (some fmt) kinds bytes = formatted fmt (decode_args kinds bytes)
  message_with none kinds bytes =
      interned_message (name (word_value (take fmt_slot_size bytes))) kinds
        (drop fmt_slot_size bytes)

  unfoldable pub deserialize : Deserializer → List ℕ → Option Text
  unfolding decode_args
  deserialize d payload = message_with d.compiled d.kinds (drop payload_min_header_size payload)

  abbrev pub logged : ℕ → ℕ → ℕ → SpscQueue → Option Text → Option (LogEntry × ℕ × SpscQueue)
  logged timestamp level size q none = none
  logged timestamp level size q (some message) = some (
    record { level = level; message = message; timestamp_ns = timestamp },
    size,
    discard q size payload_align,
  )

  -- The record at a place of the ring with what its header says.
  abbrev pub process_payload : SpscQueue → ℕ → ℕ → ℕ → ℕ → ℕ → Option (LogEntry × ℕ × SpscQueue)
  process_payload q timestamp head size function level =
      if leb payload_min_header_size size
      then logged timestamp level size q
          (deserialize (code function) (load q.capacity q.ring head size))
      else none

  -- One round of the loop: the entry for the sink, and the size of the record.
  unfoldable pub process_record : SpscQueue → ℕ → Option (LogEntry × ℕ × SpscQueue)
  unfolding deserialize peek discard
  process_record q timestamp =
      let head = peek q payload_min_header_size payload_align in
      process_payload q timestamp head (word_value (load q.capacity q.ring head 8))
        (word_value (load q.capacity q.ring (head + 8) 8))
        (word_value (load q.capacity q.ring (head + 16) 1))

  -- The entries that the sink is given, in order.
  unfoldable pub batch_loop : ℕ → ℕ → ℕ → ℕ → SpscQueue → Option (List LogEntry × SpscQueue)
  batch_loop zero current target timestamp q = none
  batch_loop (suc fuel) current target timestamp q =
      let round : Option (List LogEntry × SpscQueue) = elim (process_record q timestamp) [
        | none ↦ none
        | some (entry, size, q') ↦
            elim (batch_loop fuel (add64 (round_up current payload_align) size) target timestamp
              q') [ none ↦ none | some (entries, q'') ↦ some (entry ∷ entries, q'') ]
      ] in
      if ltb current target then round else some ([], q)

  -- The answer is whether there was a record.
  unfoldable pub process_batch : SpscQueue → ℕ → Option (Bool × List LogEntry × SpscQueue)
  process_batch q timestamp =
      let size = size_consumer q in
      if size == 0
      then some (false, [], q)
      else elim (batch_loop (suc size) q.head_cache (add64 q.head_cache size) timestamp q) [
        | none ↦ none
        | some (entries, q') ↦ some (true, entries, q')
      ]
