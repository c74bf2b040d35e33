-- ===== src/Common/Words.antt =====
-- The arithmetic of an unsigned 64-bit word (u64, and usize on the 64-bit targets).
use Prim.Native.Nat.{ℕ, ◌+◌, ◌-◌, ◌*◌, ◌%◌, ◌^◌, ◌<◌}

abbrev pub word_size : ℕ
word_size = 2 ^ 64

abbrev pub IsWord : ℕ → Type 0
IsWord x = x < word_size

abbrev pub add64 : ℕ → ℕ → ℕ
add64 a b = (a + b) % word_size

-- For b at most 2 ^ 64.
abbrev pub sub64 : ℕ → ℕ → ℕ
sub64 a b = (a + word_size - b) % word_size

abbrev pub mul64 : ℕ → ℕ → ℕ
mul64 a b = a * b % word_size

-- `~a`
abbrev pub not64 : ℕ → ℕ
not64 a = word_size - 1 - a
