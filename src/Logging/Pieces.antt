-- ===== src/Logging/Pieces.antt =====
-- The pieces in which include/fpag/logging/async/serializer.h writes a record.
use mathlib.Core.Path.{ap₂}
use fpag.Common.{
  ℕ, ◌+◌, ◌≤◌, ◌<◌, ◌≡◌, refl, sym, ap, ◌∙◌, arith, Option, none, some, List, [], ◌∷◌, ◌++◌, length,
  All, word_size, length-append,
}
use fpag.SpscQueue.{SpscQueue, copy_in}
use fpag.SpscQueue.Ring.{Bytes, load, store, store-append, store-load, store-store, length-load}
use fpag.Str.Memory.{word_bytes}
use fpag.Logging.Codec.{Argument, copied, text, vector, encode, size_bytes}
use fpag.Logging.Serializer.{
  fmt_slot, payload_header_size, Call, payload_size, write_header, write_arg, write_args,
  write_record,
}
use fpag.Logging.Roundtrip.{IsTyped, arg_bytes, all_bytes, args_body_size_lem, arg_length_lem}

-- A record: the bytes behind the level are those that stood in the ring.
abbrev pub record_bytes : List ℕ → Call → List ℕ
record_bytes pad c =
    size_bytes (payload_size c)
    ++ (size_bytes c.function
        ++ ((c.level ∷ []) ++ (pad ++ (fmt_slot c.format_id ++ all_bytes c.args))))

abbrev pub record_length : Call → ℕ
record_length c = payload_header_size c.format_id + length (all_bytes c.args)

-- The arguments are typed, and the record fits in a word.
pub record IsCall (c : Call) : Type 0 where
  pub typed : All IsTyped c.args
  pub small : record_length c < word_size

header_lem : (id : Option ℕ) → payload_header_size id ≡ 24 + length (fmt_slot id)
header_lem none = refl
header_lem (some id) = refl

pub payload_size_lem : (c : Call) → IsCall c → payload_size c ≡ record_length c
unfolding payload_size
payload_size_lem c h =
    let body = args_body_size_lem 0 c.args h.typed (omega (arith, h.small)) in
    omega (arith, h.small, body)

pub length-record_bytes :
    (pad : List ℕ) (c : Call)
    → IsCall c
    → length pad ≡ 7
    → length (record_bytes pad c) ≡ payload_size c
length-record_bytes pad c h e =
    let back = fmt_slot c.format_id ++ all_bytes c.args in
    omega (
      arith,
      payload_size_lem c h,
      header_lem c.format_id,
      length-append (fmt_slot c.format_id) (all_bytes c.args),
      length-append pad back,
      length-append (c.level ∷ []) (pad ++ back),
      e,
    )

abbrev with_ring : Bytes → SpscQueue → SpscQueue
with_ring ring q = record q { ring = ring }

write_arg_lem :
    (q : SpscQueue) (cursor : ℕ) (a : Argument)
    → length (arg_bytes a) ≤ q.capacity
    → write_arg q cursor a ≡ with_ring (store q.capacity q.ring cursor (arg_bytes a)) q
unfolding write_arg copy_in encode
write_arg_lem q cursor (copied bytes) h = refl
write_arg_lem q cursor (text t) h =
    ap (λ r. with_ring r q)
      (store-store q.capacity q.ring cursor (size_bytes (length t)) t
        (omega (arith, length-append (size_bytes (length t)) t)))
write_arg_lem q cursor (vector n xs) h =
    let body = encode (vector n xs) in
    ap (λ r. with_ring r q)
      (store-store q.capacity q.ring cursor (size_bytes (length body)) body
        (omega (arith, length-append (size_bytes (length body)) body)))

write_args_lem :
    (q : SpscQueue) (cursor : ℕ) (args : List Argument)
    → length (all_bytes args) ≤ q.capacity
    → write_args q cursor args ≡ with_ring (store q.capacity q.ring cursor (all_bytes args)) q
unfolding write_args store
write_args_lem q cursor [] h = refl
write_args_lem q cursor (a ∷ args) h =
    let parts = length-append (arg_bytes a) (all_bytes args) in
    let q' = with_ring (store q.capacity q.ring cursor (arg_bytes a)) q in
    ap₂ (λ r n. write_args r (cursor + n) args) (write_arg_lem q cursor a (omega (arith, parts)))
      (arg_length_lem a)
    ∙ write_args_lem q' (cursor + length (arg_bytes a)) args (omega (arith, parts))
    ∙ ap (λ r. with_ring r q)
        (sym (store-append q.capacity q.ring cursor (arg_bytes a) (all_bytes args)))

write_slot :
    (q : SpscQueue) (out : ℕ) (id : Option ℕ)
    → (elim id [ none ↦ q | some n ↦ copy_in q (out + 24) (word_bytes n) ])
      ≡ with_ring (store q.capacity q.ring (out + 24) (fmt_slot id)) q
unfolding copy_in store
write_slot q out none = refl
write_slot q out (some n) = refl

-- The ring behind the level byte, when the level was written.
abbrev pub levelled : SpscQueue → ℕ → ℕ → Call → Bytes
levelled q out total c =
    store q.capacity
      (store q.capacity (store q.capacity q.ring out (size_bytes total)) (out + 8)
        (size_bytes c.function))
      (out + 16) (c.level ∷ [])

abbrev pub pad_of : SpscQueue → ℕ → Call → List ℕ
pad_of q out c = load q.capacity (levelled q out (payload_size c) c) (out + 17) 7

write_header_lem :
    (q : SpscQueue) (out : ℕ) (c : Call)
    → write_header q out (payload_size c) c
      ≡ with_ring
          (store q.capacity (levelled q out (payload_size c) c) (out + 24) (fmt_slot c.format_id))
          q
unfolding write_header copy_in
write_header_lem q out c =
    write_slot (with_ring (levelled q out (payload_size c) c) q) out c.format_id

record_store :
    (q : SpscQueue) (out : ℕ) (c : Call)
    → store q.capacity q.ring out (record_bytes (pad_of q out c) c)
      ≡ store q.capacity
          (store q.capacity (levelled q out (payload_size c) c) (out + 24) (fmt_slot c.format_id))
          (out + payload_header_size c.format_id)
          (all_bytes c.args)
record_store q out c =
    let n = q.capacity in
    let pad = pad_of q out c in
    let slot = fmt_slot c.format_id in
    let body = all_bytes c.args in
    let sized = store n q.ring out (size_bytes (payload_size c)) in
    let pointed = store n sized (out + 8) (size_bytes c.function) in
    let ring = levelled q out (payload_size c) c in
    let behind_function = (c.level ∷ []) ++ (pad ++ (slot ++ body)) in
    let place : out + 17 + length pad ≡ out + 24 = omega (arith, length-load n ring (out + 17) 7) in
    store-append n q.ring out (size_bytes (payload_size c))
      (size_bytes c.function ++ behind_function)
    ∙ store-append n sized (out + 8) (size_bytes c.function) behind_function
    ∙ ap (λ t. store n pointed t behind_function) (omega arith)
    ∙ store-append n pointed (out + 16) (c.level ∷ []) (pad ++ (slot ++ body))
    ∙ ap (λ t. store n ring t (pad ++ (slot ++ body))) (omega arith)
    ∙ store-append n ring (out + 17) pad (slot ++ body)
    ∙ ap₂ (λ r t. store n r t (slot ++ body)) (store-load n ring (out + 17) 7) place
    ∙ store-append n ring (out + 24) slot body
    ∙ ap (λ t. store n (store n ring (out + 24) slot) t body)
        (omega (arith, header_lem c.format_id))

pub write_record_lem :
    (q : SpscQueue) (out : ℕ) (c : Call)
    → record_length c ≤ q.capacity
    → write_record q out c ≡ copy_in q out (record_bytes (pad_of q out c) c)
unfolding write_record copy_in
write_record_lem q out c h =
    let hdr = out + payload_header_size c.format_id in
    let ring =
      store q.capacity (levelled q out (payload_size c) c) (out + 24) (fmt_slot c.format_id) in
    ap (λ r. write_args r hdr c.args) (write_header_lem q out c)
    ∙ write_args_lem (with_ring ring q) hdr c.args (omega arith)
    ∙ ap (λ r. with_ring r q) (sym (record_store q out c))
