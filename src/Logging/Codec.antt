-- ===== src/Logging/Codec.antt =====
-- include/fpag/logging/async/codec and `decode_args` of deserializer.h: the arguments of a log call as
-- bytes. An argument stands by its kind, which is its type, and its bytes; a pointer with a size is the
-- list of the bytes there. None is where a debug check stops the program.
use fpag.Common.{
  ℕ, zero, suc, ◌/◌, ◌%◌, ◌^◌, Bool, true, false, Option, none, some, List, [], ◌∷◌, ◌++◌, Text,
  length, take, drop, if◌then◌else◌, leb, mul64,
}
use fpag.Str.Memory.{word_value}

-- A trivially copyable type of so many bytes, a string, or a vector of such elements.
pub data Kind : Type 0 where
  fixed_size : ℕ → Kind
  characters : Kind
  elements : ℕ → Kind

pub data Argument : Type 0 where
  copied : List ℕ → Argument
  text : Text → Argument
  vector : ℕ → List (List ℕ) → Argument

abbrev pub kind : Argument → Kind
kind (copied bytes) = fixed_size (length bytes)
kind (text t) = characters
kind (vector n xs) = elements n

abbrev pub is_fixed_size : Kind → Bool
is_fixed_size (fixed_size n) = true
is_fixed_size characters = false
is_fixed_size (elements n) = false

abbrev pub body_size : Kind → ℕ
body_size (fixed_size n) = n
body_size characters = 0
body_size (elements n) = 0

unfoldable pub encoded_size : Argument → ℕ
encoded_size (copied bytes) = length bytes
encoded_size (text t) = length t
encoded_size (vector n xs) = mul64 n (length xs)

-- The elements one behind the other.
unfoldable pub joined_elements : List (List ℕ) → List ℕ
joined_elements [] = []
joined_elements (x ∷ xs) = x ++ joined_elements xs

-- What `encode` writes; its length is what it answers.
unfoldable pub encode : Argument → List ℕ
encode (copied bytes) = bytes
encode (text t) = t
encode (vector n xs) = joined_elements xs

unfoldable pub split_elements : ℕ → ℕ → List ℕ → List (List ℕ)
split_elements n zero bytes = []
split_elements n (suc count) bytes = take n bytes ∷ split_elements n count (drop n bytes)

unfoldable pub decode : Kind → List ℕ → Argument
decode (fixed_size n) bytes = copied bytes
decode characters bytes = text bytes
decode (elements n) bytes = vector n (split_elements n (length bytes / n) bytes)

-- A usize in memory, its lowest byte first.
abbrev pub size_slot : ℕ
size_slot = 8

abbrev pub size_bytes : ℕ → List ℕ
size_bytes n =
    let rest = n / 2 ^ 32 in
    n % 256
    ∷ n / 256 % 256
    ∷ n / 256 / 256 % 256
    ∷ n / 256 / 256 / 256 % 256
    ∷ rest % 256
    ∷ rest / 256 % 256
    ∷ rest / 256 / 256 % 256
    ∷ rest / 256 / 256 / 256 % 256
    ∷ []

-- One argument, and the bytes behind it.
abbrev pub take_body : Kind → ℕ → List ℕ → Option (Argument × List ℕ)
take_body k n bytes =
    if leb n (length bytes) then some (decode k (take n bytes), drop n bytes) else none

unfoldable pub decode_arg : Kind → List ℕ → Option (Argument × List ℕ)
decode_arg k bytes =
    if is_fixed_size k
    then take_body k (body_size k) bytes
    else if leb size_slot (length bytes)
    then take_body k (word_value (take size_slot bytes)) (drop size_slot bytes)
    else none

unfoldable pub decode_args : List Kind → List ℕ → Option (List Argument)
decode_args [] bytes = some []
decode_args (k ∷ kinds) bytes = elim (decode_arg k bytes) [
  | none ↦ none
  | some (arg, rest) ↦ elim (decode_args kinds rest) [ none ↦ none | some args ↦ some (arg ∷ args) ]
]
