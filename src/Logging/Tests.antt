-- ===== src/Logging/Tests.antt =====
-- Concrete log calls for include/fpag/logging/async.
use fpag.Common.{
  ℕ, ◌≡◌, refl, arith, none, some, true, List, [], ◌∷◌, ◌++◌, Text, length, ◌==◌, if◌then◌else◌,
}
use fpag.SpscQueue.{SpscQueue, new_queue, enqueue}
use fpag.SpscQueue.Items.{span, Holds, Contains}
use fpag.Logging.Codec.{
  fixed_size, characters, elements, Argument, copied, text, vector, encode, joined_elements,
  decode_args,
}
use fpag.Logging.Serializer.{Call, payload_align, serialize_to}
use fpag.Logging.Worker.{Deserializer, process_batch}
use fpag.Logging.Roundtrip.{all_bytes, decode_args-all_bytes}
use fpag.Logging.Pieces.{IsCall, record_bytes}
use fpag.Logging.Records.{serialize_to-enqueue}
use fpag.Logging.Delivery.{log_all, budget, log_all-process_batch}

-- The function at 7 is that of an interned format with a string and two bytes, and the one at 9 that
-- of the compiled format "!".
abbrev code : ℕ → Deserializer
code address =
    if address == 7
    then record { compiled = none; kinds = characters ∷ fixed_size 2 ∷ [] }
    else record { compiled = some (33 ∷ []); kinds = [] }

abbrev name : ℕ → Text
name id = 58 ∷ []

-- The format, and behind it the bytes of the arguments.
abbrev format : Text → List Argument → Text
format fmt args = fmt ++ all_bytes args

abbrev greeting : List Argument
greeting = text (97 ∷ 98 ∷ []) ∷ copied (1 ∷ 2 ∷ []) ∷ []

abbrev first_call : Call
first_call = record { function = 7; level = 3; format_id = some 5; args = greeting }

abbrev second_call : Call
second_call = record { function = 9; level = 1; format_id = none; args = [] }

abbrev queue : SpscQueue
queue = record new_queue { mapped = true; capacity = 128 }

queue-Contains : Contains 7 queue []
unfolding span Holds
queue-Contains = record {
  mapped_data = refl;
  capacity_pow = refl;
  capacity_small = omega arith;
  head_word = omega arith;
  head_sync = refl;
  tail_sync = refl;
  tail_end = refl;
  fits = omega arith;
  holds = tt;
}

first_call-IsCall : IsCall first_call
unfolding encode
first_call-IsCall = record { typed = (tt, (tt, tt)); small = omega arith }

second_call-IsCall : IsCall second_call
second_call-IsCall = record { typed = tt; small = omega arith }

decode_args-all_bytes_example :
    decode_args
      (characters ∷ elements 2 ∷ [])
      (all_bytes (text (97 ∷ []) ∷ vector 2 ((1 ∷ 2 ∷ []) ∷ (3 ∷ 4 ∷ []) ∷ []) ∷ []) ++ (255 ∷ []))
    ≡ some (text (97 ∷ []) ∷ vector 2 ((1 ∷ 2 ∷ []) ∷ (3 ∷ 4 ∷ []) ∷ []) ∷ [])
unfolding encode joined_elements
decode_args-all_bytes_example =
    decode_args-all_bytes (text (97 ∷ []) ∷ vector 2 ((1 ∷ 2 ∷ []) ∷ (3 ∷ 4 ∷ []) ∷ []) ∷ [])
      (255 ∷ []) (tt, ((omega arith, (refl, (refl, tt))), tt)) (omega arith)

serialize_to-enqueue_example :
    (pad : List ℕ) × (length pad ≡ 7)
    × (serialize_to queue first_call []
        ≡ enqueue queue (record_bytes pad first_call) payload_align [])
unfolding encode
serialize_to-enqueue_example =
    serialize_to-enqueue queue first_call [] first_call-IsCall (omega arith)

log_all-process_batch_example :
    (q' : SpscQueue) × (q'' : SpscQueue) × (log_all queue (first_call ∷ second_call ∷ []) ≡ some q')
    × (process_batch code name format q' 17
        ≡ some (
          true,
          record { level = 3; message = 58 ∷ (all_bytes greeting); timestamp_ns = 17 }
              ∷ record { level = 1; message = 33 ∷ []; timestamp_ns = 17 }
              ∷ [],
          q'',
        ))
    × Contains 7 q'' []
unfolding budget encode
log_all-process_batch_example =
    log_all-process_batch code name format 7 17 queue (first_call ∷ second_call ∷ [])
      (
        record {
          call = first_call-IsCall;
          address = omega arith;
          kinds = refl;
          agrees = omega arith;
        },
        (
          record { call = second_call-IsCall; address = omega arith; kinds = refl; agrees = tt },
          tt,
        ),
      )
      queue-Contains (omega arith) (omega arith)
