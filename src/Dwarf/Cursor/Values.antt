-- ===== src/Dwarf/Cursor/Values.antt =====
-- The values that `Cursor::fixed` of src/debug/dwarf/reader.cc reads.
use fpag.Common.{ℕ, zero, suc, ◌+◌, ◌*◌, ◌%◌, ◌^◌, ◌≤◌, ◌<◌, ◌≡◌, refl, ap, ◌∙◌, arith}
use fpag.Common.{false, ◌||◌, some, List, [], ◌∷◌}
use fpag.Common.{length, get_elem?, take, drop, All, add64, IsWord, ◌==◌, ltb, word_size}
use fpag.Common.{bit_or}
use fpag.Common.Bits.{two_pow_pos, two_pow_add, bit_or_fields}
use fpag.Dwarf.Cursor.{Cursor, ok, remaining, size, fixed_loop, fixed}
use fpag.Dwarf.Cursor.Safety.{IsInside}
use native.Mathlib.Nat.{add-zero, mod-eq_of_lt, pow-le-pow_right, mul-le-mul_right}

-- The value of bytes that stand with the lowest first.
abbrev pub little_endian : List ℕ → ℕ
little_endian [] = 0
little_endian (b ∷ bytes) = b + 256 * little_endian bytes

drop_next :
    (p : ℕ) (xs : List ℕ)
    → p < length xs
    → (b : ℕ) × (get_elem? xs p ≡ some b) × (drop p xs ≡ b ∷ drop (suc p) xs)
drop_next p [] h = absurd (omega arith)
drop_next zero (x ∷ xs) h = (x, refl, refl)
drop_next (suc p) (x ∷ xs) h = drop_next p xs (omega arith)

All-get_elem? : (xs : List ℕ) (p b : ℕ) → All (λ x. x < 256) xs → get_elem? xs p ≡ some b → b < 256
All-get_elem? [] p b h e = ground arith
All-get_elem? (x ∷ xs) zero b h e = ground (arith, h.0)
All-get_elem? (x ∷ xs) (suc p) b h e = All-get_elem? xs p b h.1 e

shifted : (i b : ℕ) → i < 8 → b < 256 → b * 2 ^ (i * 8) < 2 ^ (8 + i * 8)
shifted i b h k =
    omega
      (arith, two_pow_pos (i * 8), two_pow_add 8 (i * 8), mul-le-mul_right (2 ^ (i * 8)) (le b k))
  where
    le : (b : ℕ) → b < 256 → b ≤ 255
    le b k = omega arith

join_byte : (v b p r : ℕ) → v + b * p + r * (256 * p) ≡ v + (b + 256 * r) * p
join_byte v b p r = grind arith

word_shift : (i : ℕ) → i < 8 → 2 ^ (8 + i * 8) ≤ word_size
word_shift i h = pow-le-pow_right {n = 2} (omega arith) {i = 8 + i * 8} {j = 64} (omega arith)

-- One round of `fixed`: a byte joins the value above the bits that are there.
or_byte :
    (i b v : ℕ)
    → i < 8
    → b < 256
    → v < 2 ^ (i * 8)
    → bit_or v (b * 2 ^ (i * 8) % word_size) ≡ v + b * 2 ^ (i * 8)
or_byte i b v h k l =
    let fits : b * 2 ^ (i * 8) < word_size = omega (arith, shifted i b h k, word_shift i h) in
    ap (bit_or v) (mod-eq_of_lt fits) ∙ bit_or_fields (i * 8) v b l

next_power : (i : ℕ) → 2 ^ ((i + 1) * 8) ≡ 256 * 2 ^ (i * 8)
next_power i =
    let e : (i + 1) * 8 ≡ 8 + i * 8 = omega arith in ap (λ (t : ℕ). 2 ^ t) e ∙ two_pow_add 8 (i * 8)

next_bound : (i b v : ℕ) → b < 256 → v < 2 ^ (i * 8) → v + b * 2 ^ (i * 8) < 2 ^ ((i + 1) * 8)
next_bound i b v k l =
    omega (arith, next_power i, mul-le-mul_right {m = b} {n = 255} (2 ^ (i * 8)) (omega arith))

fixed_loop_lem :
    (n : ℕ) (bytes : List ℕ) (p i v : ℕ)
    → p + (i + n) ≤ length bytes
    → IsWord (length bytes)
    → i + n ≤ 8
    → v < 2 ^ (i * 8)
    → All (λ b. b < 256) bytes
    → fixed_loop n bytes p i v
      ≡ some (v + little_endian (take n (drop (p + i) bytes)) * 2 ^ (i * 8))
unfolding fixed_loop
fixed_loop_lem zero bytes p i v h w e l all = ap some (omega arith)
fixed_loop_lem (suc n) bytes p i v h w e l all =
    let (b, found, split) = drop_next (p + i) bytes (omega arith) in
    let byte = All-get_elem? bytes (p + i) b all found in
    let plain : add64 p i ≡ p + i = mod-eq_of_lt (omega arith) in
    let next : p + (i + 1) ≡ suc (p + i) = omega arith in
    let rest =
      fixed_loop_lem n bytes p (i + 1) (v + b * 2 ^ (i * 8)) (omega arith) w (omega arith)
        (next_bound i b v byte l) all in
    rw (plain, found, fixed_loop)
      (rw (or_byte i b v (omega arith) byte l) (
        rest
        ∙ ap some (
            rw (next, next_power i, split)
              (join_byte v b (2 ^ (i * 8)) (little_endian (take n (drop (suc (p + i)) bytes)))))))

-- From a position with n bytes left, n from 1 to 8, `fixed` reads the number that these bytes hold
-- with the lowest first, and moves past them; the section holds bytes.
pub fixed_lem :
    (n : ℕ) (c : Cursor)
    → IsInside c
    → 1 ≤ n
    → n ≤ 8
    → c.position + n ≤ size c
    → All (λ b. b < 256) c.bytes
    → fixed n c
      ≡ ok
          (little_endian (take n (drop c.position c.bytes)))
          (record c { position = c.position + n })
unfolding fixed
fixed_lem n c i low high room all =
    let test : (n == 0 || (ltb 8 n || ltb (remaining c) n)) ≡ false = ground (arith, i.size_word) in
    let value : fixed_loop n c.bytes c.position 0 0
        ≡ some (little_endian (take n (drop c.position c.bytes))) =
      fixed_loop_lem n c.bytes c.position 0 0 (omega arith) i.size_word (omega arith) (omega arith)
        all
      ∙ ap some (rw (add-zero c.position) (omega arith)) in
    let plain : add64 c.position n ≡ c.position + n = mod-eq_of_lt (omega (arith, i.size_word)) in
    rw (test, value, plain, fixed) refl

pub length-drop_cons :
    (p : ℕ) (xs : List ℕ) (b : ℕ) (rest : List ℕ)
    → drop p xs ≡ b ∷ rest
    → (p < length xs) × (drop (suc p) xs ≡ rest)
length-drop_cons zero [] b rest e = ground arith
length-drop_cons (suc p) [] b rest e = ground arith
length-drop_cons zero (x ∷ xs) b rest e = (omega arith, ap (drop 1) e)
length-drop_cons (suc p) (x ∷ xs) b rest e =
    let (below, next) = length-drop_cons p xs b rest e in (omega arith, next)

-- `fixed` of one byte reads the next byte.
pub fixed_byte :
    (c : Cursor) (b : ℕ) (rest : List ℕ)
    → IsInside c
    → All (λ b. b < 256) c.bytes
    → drop c.position c.bytes ≡ b ∷ rest
    → fixed 1 c ≡ ok b (record c { position = c.position + 1 })
fixed_byte c b rest i all e =
    let (below, next) = length-drop_cons c.position c.bytes b rest e in
    let value : little_endian (take 1 (drop c.position c.bytes)) ≡ b = rw e (omega arith) in
    fixed_lem 1 c i (omega arith) (omega arith) (omega arith) all
    ∙ ap (λ (v : ℕ). ok v (record c { position = c.position + 1 })) value
