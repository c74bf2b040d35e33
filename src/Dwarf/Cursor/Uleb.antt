-- ===== src/Dwarf/Cursor/Uleb.antt =====
-- `Cursor::uleb` of src/debug/dwarf/reader.cc against an encoder.
use fpag.Common.{ℕ, zero, suc, ◌+◌, ◌*◌, ◌/◌, ◌%◌, ◌^◌, ◌≤◌, ◌<◌, ◌≡◌, refl, ap, ◌∙◌, arith}
use fpag.Common.{true, false, Bool-cases, inl, inr, List, [], ◌∷◌, ◌++◌}
use fpag.Common.{length, drop, All, IsWord, ◌==◌, if◌then◌else◌, ltb, word_size}
use fpag.Common.{bit_or, bit_and}
use fpag.Common.Bits.{two_pow_add, bit_or_fields, bit_and_mask, bit_and_shift}
use fpag.Dwarf.Cursor.{
  Cursor, ok, refused, fault, stuck, Reader, ◌>>=◌, pure, fixed, uleb_loop, uleb, add_group,
}
use fpag.Dwarf.Cursor.Safety.{IsInside}
use native.Mathlib.Nat.{mod-eq_of_lt, mul-le-mul_right}
use fpag.Dwarf.Cursor.Values.{length-drop_cons, fixed_byte}

high_bit : (b : ℕ) → bit_and b 0x80 ≡ b / 128 % 2 * 128
high_bit b = bit_and_shift 7 b 1 ∙ ap (λ (t : ℕ). t * 2 ^ 7) (bit_and_mask 1 (b / 2 ^ 7))

low_bits : (b : ℕ) → bit_and b 0x7F ≡ b % 128
low_bits b = bit_and_mask 7 b

-- The shortest encoding of a number, in at most as many bytes as the first number says.
unfoldable pub uleb_encode : ℕ → ℕ → List ℕ
uleb_encode zero v = []
uleb_encode (suc k) v =
    let rest = uleb_encode k (v / 128) in if ltb v 128 then v ∷ [] else (v % 128 + 128) ∷ rest

-- A group of seven bits joins the value above the bits that are there.
add_group_lem :
    (i v b : ℕ)
    → i < 10
    → v < 2 ^ (i * 7)
    → b % 128 * 2 ^ (i * 7) < word_size
    → add_group v b (i * 7) ≡ v + b % 128 * 2 ^ (i * 7)
add_group_lem i v b h l w =
    let test : ltb (i * 7) 64 ≡ true = ground arith in
    rw (test, low_bits b) (ap (bit_or v) (mod-eq_of_lt w) ∙ bit_or_fields (i * 7) v (b % 128) l)

scale : (v p : ℕ) → v / 128 * (128 * p) + v % 128 * p ≡ v * p
scale v p =
    let whole : v / 128 * 128 + v % 128 ≡ v = omega arith in
    let factor : v / 128 * (128 * p) + v % 128 * p ≡ (v / 128 * 128 + v % 128) * p = grind arith in
    factor ∙ ap (λ (t : ℕ). t * p) whole

next_group : (i : ℕ) → 2 ^ ((i + 1) * 7) ≡ 128 * 2 ^ (i * 7)
next_group i =
    let e : (i + 1) * 7 ≡ 7 + i * 7 = omega arith in ap (λ (t : ℕ). 2 ^ t) e ∙ two_pow_add 7 (i * 7)

pub >>=-ok {ℓ κ} :
    {A : Type ℓ} {B : Type κ} (m : Reader A) (f : A → Reader B) (c : Cursor) {c' : Cursor} {a : A}
    → m c ≡ ok a c'
    → (m >>= f) c ≡ f a c'
>>=-ok m f c e =
    ap (λ r. elim r [ ok a c' ↦ f a c' | refused ↦ refused | fault ↦ fault | stuck ↦ stuck ]) e

uleb_round :
    (k acc shift b : ℕ) (c c' : Cursor)
    → fixed 1 c ≡ ok b c'
    → uleb_loop (suc k) acc shift c
      ≡ (if bit_and b 0x80 == 0
            then pure (add_group acc b shift)
            else uleb_loop k (add_group acc b shift) (shift + 7))
          c'
unfolding uleb_loop
uleb_round k acc shift b c c' read =
    >>=-ok (fixed 1)
      (λ byte.
        if bit_and byte 0x80 == 0
        then pure (add_group acc byte shift)
        else uleb_loop k (add_group acc byte shift) (shift + 7))
      c read

encode_last : (k v : ℕ) → ltb v 128 ≡ true → uleb_encode (suc k) v ≡ v ∷ []
unfolding uleb_encode
encode_last k v h = rw h refl

encode_more :
    (k v : ℕ)
    → ltb v 128 ≡ false
    → uleb_encode (suc k) v ≡ (v % 128 + 128) ∷ uleb_encode k (v / 128)
unfolding uleb_encode
encode_more k v h = rw h refl

group_bound :
    (i g acc : ℕ) → g < 128 → acc < 2 ^ (i * 7) → acc + g * 2 ^ (i * 7) < 2 ^ ((i + 1) * 7)
group_bound i g acc h low =
    omega (arith, next_group i, mul-le-mul_right {m = g} {n = 127} (2 ^ (i * 7)) (omega arith))

high_next : (k v : ℕ) → v < 2 ^ (suc k * 7) → v / 128 < 2 ^ (k * 7)
high_next k v h =
    let e : suc k * 7 ≡ 7 + k * 7 = omega arith in
    omega (arith, ap (λ (t : ℕ). 2 ^ t) e, two_pow_add 7 (k * 7))

uleb_last :
    (k i acc v : ℕ) (c : Cursor) (rest : List ℕ)
    → IsInside c
    → All (λ b. b < 256) c.bytes
    → i < 10
    → acc < 2 ^ (i * 7)
    → v * 2 ^ (i * 7) < word_size
    → ltb v 128 ≡ true
    → drop c.position c.bytes ≡ uleb_encode (suc k) v ++ rest
    → uleb_loop (suc k) acc (i * 7) c
      ≡ ok
          (acc + v * 2 ^ (i * 7))
          (record c { position = c.position + length (uleb_encode (suc k) v) })
uleb_last k i acc v c rest inside all count low fits last e =
    let enc = encode_last k v last in
    let small : v < 128 = ground arith in
    let read = fixed_byte c v rest inside all (e ∙ ap (λ t. t ++ rest) enc) in
    let whole : v % 128 ≡ v = omega arith in
    let joined = add_group_lem i acc v count low (rw whole fits) in
    let stop : (bit_and v 0x80 == 0) ≡ true = ground (arith, high_bit v) in
    uleb_round k acc (i * 7) v c _ read ∙ rw (enc, stop, joined, whole) refl

uleb_loop_lem :
    (k i acc v : ℕ) (c : Cursor) (rest : List ℕ)
    → IsInside c
    → All (λ b. b < 256) c.bytes
    → i + suc k ≡ 10
    → acc < 2 ^ (i * 7)
    → v < 2 ^ (suc k * 7)
    → v * 2 ^ (i * 7) < word_size
    → drop c.position c.bytes ≡ uleb_encode (suc k) v ++ rest
    → uleb_loop (suc k) acc (i * 7) c
      ≡ ok
          (acc + v * 2 ^ (i * 7))
          (record c { position = c.position + length (uleb_encode (suc k) v) })
uleb_loop_lem zero i acc v c rest inside all count low high fits e =
    uleb_last zero i acc v c rest inside all (omega arith) low fits (ground arith) e
uleb_loop_lem (suc k) i acc v c rest inside all count low high fits e =
    elim (Bool-cases (ltb v 128)) [
      | inl last ↦ uleb_last (suc k) i acc v c rest inside all (omega arith) low fits last e
      | inr more ↦
          let enc = encode_more (suc k) v more in
          let big : 128 ≤ v = ground arith in
          let byte = v % 128 + 128 in
          let left = uleb_encode (suc k) (v / 128) in
          let here = e ∙ ap (λ t. t ++ rest) enc in
          let (below, next) = length-drop_cons c.position c.bytes byte (left ++ rest) here in
          let read = fixed_byte c byte (left ++ rest) inside all here in
          let digit : byte % 128 ≡ v % 128 = omega arith in
          let scaled = scale v (2 ^ (i * 7)) in
          let power = next_group i in
          let joined = add_group_lem i acc byte (omega arith) low (rw digit (omega arith)) in
          let go : (bit_and byte 0x80 == 0) ≡ false = ground (arith, high_bit byte) in
          let shift : i * 7 + 7 ≡ (i + 1) * 7 = omega arith in
          let after : Cursor = record c { position = c.position + 1 } in
          let one : c.position + 1 ≡ suc c.position = omega arith in
          let value : acc + v % 128 * 2 ^ (i * 7) + v / 128 * 2 ^ ((i + 1) * 7)
              ≡ acc + v * 2 ^ (i * 7) =
            rw power (omega arith) in
          let end : c.position + 1 + length left ≡ c.position + suc (length left) = omega arith in
          uleb_round (suc k) acc (i * 7) byte c _ read
          ∙ rw (enc, go, joined, digit, shift)
              (uleb_loop_lem k (i + 1) (acc + v % 128 * 2 ^ (i * 7)) (v / 128) after rest
                  (record { inside = omega arith; size_word = inside.size_word }) all (omega arith)
                  (group_bound i (v % 128) acc (omega arith) low) (high_next (suc k) v high)
                  (rw power (omega arith)) (rw one next)
                ∙ rw (value, end) refl)
    ]

-- `uleb` reads the shortest encoding of a u64 back, and moves past it and no further, whatever
-- follows; the section holds bytes.
pub uleb-uleb_encode :
    (c : Cursor) (v : ℕ) (rest : List ℕ)
    → IsInside c
    → All (λ b. b < 256) c.bytes
    → IsWord v
    → drop c.position c.bytes ≡ uleb_encode 10 v ++ rest
    → uleb c ≡ ok v (record c { position = c.position + length (uleb_encode 10 v) })
unfolding uleb
uleb-uleb_encode c v rest inside all w e =
    uleb_loop_lem 9 0 0 v c rest inside all (omega arith) (omega arith) (omega arith) (omega arith)
      e
    ∙ ap (λ (t : ℕ). ok t (record c { position = c.position + length (uleb_encode 10 v) }))
        (omega arith)
