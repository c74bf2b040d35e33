-- ===== src/Logging/Messages.antt =====
-- The messages that `deserialize` of include/fpag/logging/async/deserializer.h makes of a record.
use fpag.Common.{
  ℕ, ◌^◌, ◌≤◌, ◌<◌, ◌≡◌, sym, ap, ◌∙◌, arith, Option, none, some, List, [], ◌∷◌, ◌++◌, Text, length,
  drop, map, word_size, append-nil, drop-append,
}
use fpag.SpscQueue.Items.{Item}
use fpag.Str.Memory.{word_bytes, word_value}
use fpag.Logging.Codec.{Argument, kind, decode_args}
use fpag.Logging.Serializer.{Call, payload_size, payload_header_size, fmt_slot}
use fpag.Logging.Worker.{Deserializer, LogEntry, formatted, message_with, deserialize}
use fpag.Logging.Roundtrip.{all_bytes, decode_args-all_bytes}
use fpag.Logging.Pieces.{record_bytes, IsCall, payload_size_lem}

-- A call and the bytes that its record has behind the level.
pub record Logged : Type 0 where
  pub call : Call
  pub pad : List ℕ

abbrev pub item_of : Logged → Item
item_of l = record { bytes = record_bytes l.pad l.call; exponent = 3 }

id_lem : (id : ℕ) → id < 2 ^ 32 → word_value (word_bytes id) ≡ id
id_lem id h = omega arith

module _ (code : ℕ → Deserializer) (name : ℕ → Text) (format : Text → List Argument → Text) where
  -- A compiled format is applied to the arguments. A format that is interned is, too, if there are
  -- arguments, and is the message itself if there are none.
  abbrev pub message_for : Option Text → Option ℕ → List Argument → Text
  message_for (some fmt) id args = format fmt args
  message_for none none args = []
  message_for none (some id) [] = name id
  message_for none (some id) (a ∷ args) = format (name id) (a ∷ args)

  abbrev pub Agrees : Option Text → Option ℕ → Type 0
  Agrees (some fmt) none = Unit
  Agrees (some fmt) (some id) = ⊥
  Agrees none none = ⊥
  Agrees none (some id) = id < 2 ^ 32

  -- The code at the address is that of the call.
  pub record IsKnown (c : Call) : Type 0 where
    pub call : IsCall c
    pub address : c.function < word_size
    pub kinds : (code c.function).kinds ≡ map kind c.args
    pub agrees : Agrees (code c.function).compiled c.format_id

  pub record IsSite (l : Logged) : Type 0 where
    pub known : IsKnown l.call
    pub seven : length l.pad ≡ 7

  abbrev pub message_of : Call → Text
  message_of c = message_for (code c.function).compiled c.format_id c.args

  -- What the sink is given for a call.
  abbrev pub entry_for : ℕ → Call → LogEntry
  entry_for timestamp c = record {
    level = c.level;
    message = message_of c;
    timestamp_ns = timestamp;
  }

  decoded : (c : Call) → IsCall c → decode_args (map kind c.args) (all_bytes c.args) ≡ some c.args
  decoded c h =
      ap (decode_args (map kind c.args)) (sym (append-nil (all_bytes c.args)))
      ∙ decode_args-all_bytes c.args [] h.typed (omega (arith, h.small))

  message_lem :
      (fmt : Option Text) (id : Option ℕ) (args : List Argument)
      → Agrees fmt id
      → decode_args (map kind args) (all_bytes args) ≡ some args
      → message_with code name format fmt (map kind args) (fmt_slot id ++ all_bytes args)
        ≡ some (message_for fmt id args)
  message_lem (some fmt) none args h e = ap (formatted code name format fmt) e
  message_lem (some fmt) (some id) args h e = absurd h
  message_lem none none args h e = absurd h
  message_lem none (some id) [] h e = ap (λ n. some (name n)) (id_lem id h)
  message_lem none (some id) (a ∷ args) h e =
      ap
        (λ n.
          formatted code name format (name n)
            (decode_args (map kind (a ∷ args)) (all_bytes (a ∷ args))))
        (id_lem id h)
      ∙ ap (formatted code name format (name id)) e

  pub deserialize_lem :
      (l : Logged)
      → IsSite l
      → deserialize code name format (code l.call.function) (record_bytes l.pad l.call)
        ≡ some (message_of l.call)
  unfolding deserialize
  deserialize_lem l s =
      let c = l.call in
      let d = code c.function in
      let behind = fmt_slot c.format_id ++ all_bytes c.args in
      let cut : drop 7 (l.pad ++ behind) ≡ behind =
        ap (λ n. drop n (l.pad ++ behind)) (sym s.seven) ∙ drop-append l.pad behind in
      ap (message_with code name format d.compiled d.kinds) cut
      ∙ ap (λ ks. message_with code name format d.compiled ks behind) s.known.kinds
      ∙ message_lem d.compiled c.format_id c.args s.known.agrees (decoded c s.known.call)

  pub at_least_24 : (l : Logged) → IsSite l → 24 ≤ payload_size l.call
  at_least_24 l s =
      omega (arith, payload_size_lem l.call s.known.call, header_at_least l.call.format_id)
    where
      header_at_least : (id : Option ℕ) → 24 ≤ payload_header_size id
      header_at_least none = omega arith
      header_at_least (some id) = omega arith
