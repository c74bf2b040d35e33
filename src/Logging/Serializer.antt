-- ===== src/Logging/Serializer.antt =====
-- include/fpag/logging/async/serializer.h: a log call as a record of the queue. The three bodies of
-- `serialize_to` are one here: without arguments and with arguments of fixed size the sums are known
-- when the program is compiled. The address of the deserialize function is a number, and a format
-- string that is not compiled is interned, as with USE_INTERNER.
use fpag.Common.{ℕ, ◌+◌, Option, none, some, List, [], ◌∷◌, length, if◌then◌else◌, add64}
use fpag.SpscQueue.{SpscQueue, EnqueueStatus, reserve, commit, copy_in}
use fpag.Str.Memory.{word_bytes}
use fpag.Logging.Codec.{
  Argument, kind, is_fixed_size, body_size, encoded_size, encode, size_slot, size_bytes,
}

abbrev pub payload_align : ℕ
payload_align = 8

abbrev pub payload_min_header_size : ℕ
payload_min_header_size = 24

-- None for a compiled format.
abbrev pub fmt_slot : Option ℕ → List ℕ
fmt_slot none = []
fmt_slot (some id) = word_bytes id

abbrev pub payload_header_size : Option ℕ → ℕ
payload_header_size none = payload_min_header_size
payload_header_size (some id) = payload_min_header_size + 4

pub record Call : Type 0 where
  pub function : ℕ
  pub level : ℕ
  pub format_id : Option ℕ
  pub args : List Argument

unfoldable pub args_body_size : ℕ → List Argument → ℕ
unfolding encoded_size
args_body_size size [] = size
args_body_size size (a ∷ args) =
    args_body_size
      (add64 size
        (if is_fixed_size (kind a) then body_size (kind a) else add64 size_slot (encoded_size a)))
      args

unfoldable pub payload_size : Call → ℕ
unfolding args_body_size
payload_size c = add64 (payload_header_size c.format_id) (args_body_size 0 c.args)

unfoldable pub write_header : SpscQueue → ℕ → ℕ → Call → SpscQueue
unfolding copy_in
write_header q out total c =
    let q1 = copy_in q out (size_bytes total) in
    let q2 = copy_in q1 (out + 8) (size_bytes c.function) in
    let q3 = copy_in q2 (out + 16) (c.level ∷ []) in
    elim c.format_id [ none ↦ q3 | some id ↦ copy_in q3 (out + 24) (word_bytes id) ]

-- The body of an argument of variable length is written before its size.
unfoldable pub write_arg : SpscQueue → ℕ → Argument → SpscQueue
unfolding copy_in encode
write_arg q cursor a =
    if is_fixed_size (kind a)
    then copy_in q cursor (encode a)
    else copy_in (copy_in q (cursor + size_slot) (encode a)) cursor (size_bytes (length (encode a)))

abbrev pub arg_length : Argument → ℕ
arg_length a = if is_fixed_size (kind a) then body_size (kind a) else size_slot + length (encode a)

unfoldable pub write_args : SpscQueue → ℕ → List Argument → SpscQueue
unfolding write_arg
write_args q cursor [] = q
write_args q cursor (a ∷ args) = write_args (write_arg q cursor a) (cursor + arg_length a) args

unfoldable pub write_record : SpscQueue → ℕ → Call → SpscQueue
unfolding write_header write_args
write_record q head c =
    write_args (write_header q head (payload_size c) c) (head + payload_header_size c.format_id)
      c.args

unfoldable pub serialize_to : SpscQueue → Call → List ℕ → Option (EnqueueStatus × SpscQueue)
unfolding payload_size write_record reserve commit
serialize_to q c heads = elim (reserve q (payload_size c) payload_align heads) [
  | none ↦ none
  | some (status, out, q') ↦ elim out [
    | none ↦ some (status, q')
    | some head ↦ some (EnqueueStatus.ok, commit (write_record q' head c) (payload_size c))
  ]
]
