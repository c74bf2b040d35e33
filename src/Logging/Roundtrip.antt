-- ===== src/Logging/Roundtrip.antt =====
-- `encode` and `decode_args` of include/fpag/logging/async against each other.
use mathlib.Core.Path.{ap₂}
use native.Mathlib.Nat.{mul-div_cancel, mod-eq_of_lt, mul-suc}
use fpag.Common.{
  ℕ, suc, ◌+◌, ◌*◌, ◌/◌, ◌≤◌, ◌<◌, ◌≡◌, refl, sym, ap, ◌∙◌, arith, true, Option, none, some, List,
  [], ◌∷◌, ◌++◌, length, take, drop, All, if◌then◌else◌, leb, add64, map, append_assoc, word_size,
  length-append, take-append, drop-append, if_true,
}
use fpag.Str.Memory.{word_value}
use fpag.Logging.Codec.{
  Kind, fixed_size, characters, elements, Argument, copied, text, vector, kind, is_fixed_size,
  body_size, encoded_size, joined_elements, encode, split_elements, decode, size_slot, size_bytes,
  take_body, decode_arg, decode_args,
}
use fpag.Logging.Serializer.{arg_length, args_body_size}

-- The elements of a vector have the size of their type, which is not zero.
abbrev pub IsTyped : Argument → Type 0
IsTyped (copied bytes) = Unit
IsTyped (text t) = Unit
IsTyped (vector n xs) = (0 < n) × All (λ x. length x ≡ n) xs

-- The bytes of an argument in a record.
abbrev pub arg_bytes : Argument → List ℕ
arg_bytes a =
    if is_fixed_size (kind a) then encode a else size_bytes (length (encode a)) ++ encode a

abbrev pub all_bytes : List Argument → List ℕ
all_bytes [] = []
all_bytes (a ∷ args) = arg_bytes a ++ all_bytes args

pub word_value-size_bytes : (n : ℕ) → n < word_size → word_value (size_bytes n) ≡ n
word_value-size_bytes n h = omega arith

length-joined_elements :
    (n : ℕ) (xs : List (List ℕ))
    → All (λ x. length x ≡ n) xs
    → length (joined_elements xs) ≡ n * length xs
unfolding joined_elements
length-joined_elements n [] h = omega arith
length-joined_elements n (x ∷ xs) h = omega (
  arith,
  length-append x (joined_elements xs),
  length-joined_elements n xs h.1,
  h.0,
  mul-suc n (length xs),
)

split_elements-joined_elements :
    (n : ℕ) (xs : List (List ℕ))
    → All (λ x. length x ≡ n) xs
    → split_elements n (length xs) (joined_elements xs) ≡ xs
unfolding split_elements joined_elements
split_elements-joined_elements n [] h = refl
split_elements-joined_elements n (x ∷ xs) h =
    ap₂ ◌∷◌
      (ap (λ k. take k (x ++ joined_elements xs)) (sym h.0) ∙ take-append x (joined_elements xs))
      (ap (λ k. split_elements n (length xs) (drop k (x ++ joined_elements xs))) (sym h.0)
        ∙ ap (split_elements n (length xs)) (drop-append x (joined_elements xs))
        ∙ split_elements-joined_elements n xs h.1)

pub decode-encode : (a : Argument) → IsTyped a → decode (kind a) (encode a) ≡ a
unfolding decode encode
decode-encode (copied bytes) h = refl
decode-encode (text t) h = refl
decode-encode (vector n xs) h =
    let count : length (joined_elements xs) / n ≡ length xs =
      count_lem n (length xs) h.0 (length-joined_elements n xs h.1) in
    ap (λ c. vector n (split_elements n c (joined_elements xs))) count
    ∙ ap (vector n) (split_elements-joined_elements n xs h.1)
  where
    count_lem : {m : ℕ} (n k : ℕ) → 0 < n → m ≡ n * k → m / n ≡ k
    count_lem {m} n k p e = ap (λ t. t / n) (e ∙ omega arith) ∙ mul-div_cancel k p

take_body_lem :
    (k : Kind) (body rest : List ℕ)
    → take_body k (length body) (body ++ rest) ≡ some (decode k body, rest)
take_body_lem k body rest =
    if_true _ _ (room (length body) (length rest) (length (body ++ rest)) (length-append body rest))
    ∙ ap₂ (λ b r. some (decode k b, r)) (take-append body rest) (drop-append body rest)
  where
    room : (m n t : ℕ) → t ≡ m + n → leb m t ≡ true
    room m n t e = ground arith

-- An argument of variable length, behind its size.
sized_lem :
    (k : Kind) (body rest : List ℕ)
    → length body < word_size
    → (if leb size_slot (length ((size_bytes (length body) ++ body) ++ rest))
        then take_body k
            (word_value (take size_slot ((size_bytes (length body) ++ body) ++ rest)))
            (drop size_slot ((size_bytes (length body) ++ body) ++ rest))
        else none)
      ≡ some (decode k body, rest)
sized_lem k body rest h =
    if_true _ _ (eight (length (body ++ rest)))
    ∙ ap (λ n. take_body k n (body ++ rest)) (word_value-size_bytes (length body) h)
    ∙ take_body_lem k body rest
  where
    eight : (n : ℕ) → leb 8 (suc (suc (suc (suc (suc (suc (suc (suc n)))))))) ≡ true
    eight n = ground arith

decode_arg_lem :
    (a : Argument) (rest : List ℕ)
    → IsTyped a
    → length (encode a) < word_size
    → decode_arg (kind a) (arg_bytes a ++ rest) ≡ some (a, rest)
unfolding decode_arg encode decode
decode_arg_lem (copied bytes) rest h small = take_body_lem (fixed_size (length bytes)) bytes rest
decode_arg_lem (text t) rest h small = sized_lem characters t rest small
decode_arg_lem (vector n xs) rest h small =
    sized_lem (elements n) (joined_elements xs) rest small
    ∙ ap (λ a. some (a, rest)) (decode-encode (vector n xs) h)

encode-le : (a : Argument) → length (encode a) ≤ length (arg_bytes a)
unfolding encode
encode-le (copied bytes) = omega arith
encode-le (text t) = omega arith
encode-le (vector n xs) = omega arith

-- The arguments of a call, whose bytes are fewer than 2 ^ 64 and whose vectors have elements of the
-- size of their type, are read back from their types and the bytes that were written for them,
-- whatever stands behind these.
pub decode_args-all_bytes :
    (args : List Argument) (rest : List ℕ)
    → All IsTyped args
    → length (all_bytes args) < word_size
    → decode_args (map kind args) (all_bytes args ++ rest) ≡ some args
unfolding decode_args
decode_args-all_bytes [] rest h small = refl
decode_args-all_bytes (a ∷ args) rest h small =
    let parts = length-append (arg_bytes a) (all_bytes args) in
    let first =
      ap (decode_arg (kind a)) (append_assoc (arg_bytes a) (all_bytes args) rest)
      ∙ decode_arg_lem a (all_bytes args ++ rest) h.0 (omega (arith, parts, encode-le a)) in
    let others = decode_args-all_bytes args rest h.1 (omega (arith, parts)) in
    ap (next (map kind args)) first ∙ ap (with_first a) others
  where
    with_first : Argument → Option (List Argument) → Option (List Argument)
    with_first a o = elim o [ none ↦ none | some args ↦ some (a ∷ args) ]

    next : List Kind → Option (Argument × List ℕ) → Option (List Argument)
    next kinds o = elim o [
      | none ↦ none
      | some (arg, r) ↦ elim (decode_args kinds r) [ none ↦ none | some args ↦ some (arg ∷ args) ]
    ]

encoded_size_lem :
    (a : Argument) → IsTyped a → length (encode a) < word_size → encoded_size a ≡ length (encode a)
unfolding encoded_size encode
encoded_size_lem (copied bytes) h small = refl
encoded_size_lem (text t) h small = refl
encoded_size_lem (vector n xs) h small =
    let e = length-joined_elements n xs h.1 in mod-eq_of_lt (omega (arith, e)) ∙ sym e

slot_lem :
    (a : Argument)
    → IsTyped a
    → length (arg_bytes a) < word_size
    → (if is_fixed_size (kind a) then body_size (kind a) else add64 size_slot (encoded_size a))
      ≡ length (arg_bytes a)
unfolding encode
slot_lem (copied bytes) h small = refl
slot_lem (text t) h small = ap (add64 8) (encoded_size_lem (text t) h (omega arith)) ∙ omega arith
slot_lem (vector n xs) h small =
    ap (add64 8) (encoded_size_lem (vector n xs) h (omega (arith, encode-le (vector n xs))))
    ∙ omega arith

-- The pass over the sizes counts what the pass over the arguments writes.
pub args_body_size_lem :
    (n : ℕ) (args : List Argument)
    → All IsTyped args
    → n + length (all_bytes args) < word_size
    → args_body_size n args ≡ n + length (all_bytes args)
unfolding args_body_size
args_body_size_lem n [] h small = omega arith
args_body_size_lem n (a ∷ args) h small =
    let parts = length-append (arg_bytes a) (all_bytes args) in
    let slot = slot_lem a h.0 (omega (arith, parts)) in
    let one : add64 n
          (if is_fixed_size (kind a) then body_size (kind a) else add64 size_slot (encoded_size a))
        ≡ n + length (arg_bytes a) =
      ap (add64 n) slot ∙ omega (arith, parts) in
    ap (λ m. args_body_size m args) one
    ∙ args_body_size_lem (n + length (arg_bytes a)) args h.1 (omega (arith, parts))
    ∙ omega (arith, parts)

pub arg_length_lem : (a : Argument) → arg_length a ≡ length (arg_bytes a)
unfolding encode
arg_length_lem (copied bytes) = refl
arg_length_lem (text t) = omega arith
arg_length_lem (vector n xs) = omega arith
