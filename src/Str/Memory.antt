-- ===== src/Str/Memory.antt =====
-- Bytes by their offset, and texts in them: what include/fpag/str and src/str use `memcpy` for.
use fpag.Common.{ℕ, zero, suc, ◌+◌, ◌*◌, ◌/◌, ◌%◌, ◌^◌, ◌≤◌, ◌<◌, [], ◌∷◌, Text}
use fpag.Common.{◌≡◌, refl, ap, ◌∙◌, ◌==◌, if◌then◌else◌, length, arith, ==_iff, if_true, if_false}

abbrev pub Memory : Type 0
Memory = ℕ → ℕ

-- The bytes of a text, from the offset on.
unfoldable pub write : ℕ → Text → Memory → Memory
write at [] m = m
write at (c ∷ t) m = write (suc at) t (λ i. if i == at then c else m i)

-- So many bytes, from the offset on.
unfoldable pub read : ℕ → ℕ → Memory → Text
read at zero m = []
read at (suc n) m = m at ∷ read (suc at) n m

-- A u32 with its lowest byte first.
abbrev pub word_bytes : ℕ → Text
word_bytes n = n % 256 ∷ n / 256 % 256 ∷ n / 256 / 256 % 256 ∷ n / 256 / 256 / 256 % 256 ∷ []

abbrev pub word_value : Text → ℕ
word_value [] = 0
word_value (c ∷ t) = c + 256 * word_value t

unfoldable pub read_word : ℕ → Memory → ℕ
read_word at m = word_value (read at 4 m)

pub write-below : (at : ℕ) (t : Text) (m : Memory) (i : ℕ) → i < at → write at t m i ≡ m i
unfolding write
write-below at [] m i h = refl
write-below at (c ∷ t) m i h =
    write-below (suc at) t (λ j. if j == at then c else m j) i (omega arith)
    ∙ if_false {b = i == at} _ _ (ground arith)

write-head : (at c : ℕ) (t : Text) (m : Memory) → write at (c ∷ t) m at ≡ c
unfolding write
write-head at c t m =
    write-below (suc at) t (λ j. if j == at then c else m j) at (omega arith)
    ∙ if_true _ _ ((==_iff at at).1 refl)

pub read-write : (at : ℕ) (t : Text) (m : Memory) → read at (length t) (write at t m) ≡ t
unfolding read write
read-write at [] m = refl
read-write at (c ∷ t) m =
    ap (λ (x : ℕ). x ∷ read (suc at) (length t) (write at (c ∷ t) m)) (write-head at c t m)
    ∙ ap (λ (x : Text). c ∷ x) (read-write (suc at) t (λ j. if j == at then c else m j))

pub read-same :
    (at n : ℕ) (m m' : Memory)
    → ((i : ℕ) → at ≤ i → i < at + n → m i ≡ m' i)
    → read at n m ≡ read at n m'
unfolding read
read-same at zero m m' h = refl
read-same at (suc n) m m' h =
    rw
      (
        h at (omega arith) (omega arith),
        read-same (suc at) n m m' (λ i a b. h i (omega arith) (omega arith)),
      )
      refl

pub read_word-same :
    (at : ℕ) (m m' : Memory)
    → ((i : ℕ) → at ≤ i → i < at + 4 → m i ≡ m' i)
    → read_word at m ≡ read_word at m'
unfolding read_word
read_word-same at m m' h = ap word_value (read-same at 4 m m' h)

word_value-word_bytes : (n : ℕ) → n < 2 ^ 32 → word_value (word_bytes n) ≡ n
word_value-word_bytes n h = omega arith

pub read_word-write :
    (at n : ℕ) (m : Memory) → n < 2 ^ 32 → read_word at (write at (word_bytes n) m) ≡ n
unfolding read_word
read_word-write at n m h =
    ap word_value (read-write at (word_bytes n) m) ∙ word_value-word_bytes n h
