-- ===== src/Dwarf/Cursor/Safety.antt =====
-- A predicate on the readers of src/debug/dwarf/reader.cc, that they look at no byte outside their
-- section and only move on, with a rule for `>>=`: a reader is safe because its parts are.
use fpag.Common.{ℕ, zero, suc, ◌+◌, ◌≤◌, ◌<◌, ◌≡◌, refl, ap, ◌∙◌, arith}
use fpag.Common.{Bool, true, false, Bool-cases, inl, inr, ◌||◌, some, List, [], ◌∷◌}
use fpag.Common.{
  length, get_elem?_lt, drop, length-drop, Option-cases, add64, IsWord, ◌==◌, if◌then◌else◌,
}
use fpag.Common.{ltb, leb}
use fpag.Dwarf.Cursor.{
  Cursor, Outcome, ok, refused, fault, stuck, Reader, remaining, ◌>>=◌, pure, refuse, require, size,
}
use fpag.Common.{bit_and}
use fpag.Dwarf.Cursor.{add_group, extend_sign}
use fpag.Dwarf.Cursor.{fixed_loop, fixed, uleb_loop, uleb, sleb_loop, sleb, skip, string, c_string}

-- The position is inside the section, whose size is a word.
pub record IsInside (c : Cursor) : Type 0 where
  pub inside : c.position ≤ size c
  pub size_word : IsWord (size c)

-- The second cursor is on the same section, at least n bytes ahead of the first.
pub record IsAhead (n : ℕ) (c c' : Cursor) : Type 0 where
  pub same_bytes : c'.bytes ≡ c.bytes
  pub ahead : c.position + n ≤ c'.position
  pub still_inside : c'.position ≤ size c

abbrev pub Post {ℓ} : {A : Type ℓ} → ℕ → Cursor → Outcome A → Type 0
Post n c (ok a c') = IsAhead n c c'
Post n c refused = Unit
Post n c fault = ⊥
Post n c stuck = ⊥

-- The reader never faults and never gets stuck, and takes n bytes at least if it succeeds.
pub record IsSafe {ℓ} {A : Type ℓ} (n : ℕ) (m : Reader A) : Type 0 where
  pub apply : (c : Cursor) → IsInside c → Post n c (m c)

pub IsAhead-IsInside : {n : ℕ} {c c' : Cursor} → IsInside c → IsAhead n c c' → IsInside c'
IsAhead-IsInside {n} {c} {c'} i a =
    let same : size c' ≡ size c = ap length a.same_bytes in
    record { inside = omega (arith, a.still_inside); size_word = omega (arith, i.size_word) }

pub IsAhead-trans :
    {n m k : ℕ} {a b c : Cursor} → k ≤ n + m → IsAhead n a b → IsAhead m b c → IsAhead k a c
IsAhead-trans {a = a} {b = b} h p q =
    let same : size b ≡ size a = ap length p.same_bytes in
    record {
      same_bytes = q.same_bytes ∙ p.same_bytes;
      ahead = omega (arith, p.ahead, q.ahead);
      still_inside = omega (arith, q.still_inside);
    }

pub Post-after {ℓ} :
    {A : Type ℓ} (n m k : ℕ) (c c' : Cursor) (r : Outcome A)
    → k ≤ n + m
    → IsAhead n c c'
    → Post m c' r
    → Post k c r
Post-after n m k c c' (ok a c'') h p q = IsAhead-trans h p q
Post-after n m k c c' refused h p q = tt
Post-after n m k c c' fault h p q = q
Post-after n m k c c' stuck h p q = q

pub Post-bind {ℓ κ} :
    {A : Type ℓ} {B : Type κ} (n m k : ℕ) (c : Cursor) (r : Outcome A) (f : A → Reader B)
    → IsInside c
    → k ≤ n + m
    → Post n c r
    → ((a : A) → IsSafe m (f a))
    → Post k c (elim r [ ok a c' ↦ f a c' | refused ↦ refused | fault ↦ fault | stuck ↦ stuck ])
Post-bind n m k c (ok a c') f i h p s =
    Post-after n m k c c' (f a c') h p ((s a).apply c' (IsAhead-IsInside i p))
Post-bind n m k c refused f i h p s = tt
Post-bind n m k c fault f i h p s = p
Post-bind n m k c stuck f i h p s = p

pub >>=-IsSafe {ℓ κ} :
    {A : Type ℓ} {B : Type κ} (n m : ℕ) {k : ℕ} {r : Reader A} {f : A → Reader B}
    → k ≤ n + m
    → IsSafe n r
    → ((a : A) → IsSafe m (f a))
    → IsSafe k (r >>= f)
>>=-IsSafe n m {k} {r} {f} h p s = record {
  apply = λ c i. Post-bind n m k c (r c) f i h (p.apply c i) s;
}

pub pure-IsSafe {ℓ} : {A : Type ℓ} (a : A) → IsSafe 0 (pure a)
pure-IsSafe a = record {
  apply = λ c i. record { same_bytes = refl; ahead = omega arith; still_inside = i.inside };
}

pub refuse-IsSafe {ℓ} : {A : Type ℓ} (n : ℕ) → IsSafe n (refuse {A = A})
refuse-IsSafe n = record { apply = λ c i. tt }

pub require-IsSafe : (b : Bool) → IsSafe 0 (require b)
require-IsSafe true = pure-IsSafe tt
require-IsSafe false = record { apply = λ c i. tt }

pub if-IsSafe {ℓ} :
    {A : Type ℓ} {n : ℕ} (b : Bool) {r s : Reader A}
    → IsSafe n r
    → IsSafe n s
    → IsSafe n (if b then r else s)
if-IsSafe true p q = p
if-IsSafe false p q = q

pub Post-weaken {ℓ} :
    {A : Type ℓ} {n m : ℕ} (c : Cursor) (r : Outcome A) → m ≤ n → Post n c r → Post m c r
Post-weaken c (ok a c') h p = record {
  same_bytes = p.same_bytes;
  ahead = omega (arith, p.ahead);
  still_inside = p.still_inside;
}
Post-weaken c refused h p = tt
Post-weaken c fault h p = p
Post-weaken c stuck h p = p

pub IsSafe-weaken {ℓ} :
    {A : Type ℓ} (n : ℕ) {m : ℕ} {r : Reader A} → m ≤ n → IsSafe n r → IsSafe m r
IsSafe-weaken n {r = r} h s = record { apply = λ c i. Post-weaken c (r c) h (s.apply c i) }

fixed_loop_total :
    (n : ℕ) (bytes : List ℕ) (position index value : ℕ)
    → position + (index + n) ≤ length bytes
    → IsWord (length bytes)
    → (v : ℕ) × (fixed_loop n bytes position index value ≡ some v)
unfolding fixed_loop
fixed_loop_total zero bytes position index value h w = (value, refl)
fixed_loop_total (suc n) bytes position index value h w =
    let (byte, e) = get_elem?_lt bytes (add64 position index) (omega arith) in
    rw (e, fixed_loop) (fixed_loop_total n bytes position (index + 1) _ (omega arith) w)

fixed-Post : (n : ℕ) (c : Cursor) → IsInside c → Post n c (fixed n c)
unfolding fixed
fixed-Post n c i = elim (Bool-cases (n == 0 || (ltb 8 n || ltb (remaining c) n))) [
  | inl short ↦ rw (short, fixed) tt
  | inr fits ↦
      let room : c.position + n ≤ size c = ground arith in
      let (v, e) =
        fixed_loop_total n c.bytes c.position 0 0 (omega (arith, i.size_word)) i.size_word in
      rw (fits, e, fixed)
        record {
          same_bytes = refl;
          ahead = omega (arith, i.size_word);
          still_inside = omega (arith, i.size_word);
        }
]

pub fixed-IsSafe : (n : ℕ) → IsSafe n (fixed n)
fixed-IsSafe n = record { apply = fixed-Post n }

uleb_loop-IsSafe : (count value shift : ℕ) → IsSafe 1 (uleb_loop count value shift)
unfolding uleb_loop
uleb_loop-IsSafe zero value shift = refuse-IsSafe 1
uleb_loop-IsSafe (suc count) value shift = >>=-IsSafe 1 0 (omega arith) (fixed-IsSafe 1) λ byte.
    if-IsSafe (bit_and byte 0x80 == 0) (pure-IsSafe (add_group value byte shift)) (
      IsSafe-weaken 1 (omega arith)
        (uleb_loop-IsSafe count (add_group value byte shift) (shift + 7)))

pub uleb-IsSafe : IsSafe 1 uleb
unfolding uleb
uleb-IsSafe = uleb_loop-IsSafe 10 0 0

sleb_loop-IsSafe : (count value shift : ℕ) → IsSafe 1 (sleb_loop count value shift)
unfolding sleb_loop
sleb_loop-IsSafe zero value shift = refuse-IsSafe 1
sleb_loop-IsSafe (suc count) value shift = >>=-IsSafe 1 0 (omega arith) (fixed-IsSafe 1) λ byte.
    if-IsSafe (bit_and byte 0x80 == 0)
      (pure-IsSafe (extend_sign (add_group value byte shift) byte (shift + 7)))
      (IsSafe-weaken 1 (omega arith)
        (sleb_loop-IsSafe count (add_group value byte shift) (shift + 7)))

pub sleb-IsSafe : IsSafe 1 sleb
unfolding sleb
sleb-IsSafe = sleb_loop-IsSafe 10 0 0

skip-Post : (n : ℕ) (c : Cursor) → IsInside c → Post n c (skip n c)
unfolding skip
skip-Post n c i = elim (Bool-cases (ltb (remaining c) n)) [
  | inl short ↦ rw (short, skip) tt
  | inr fits ↦
      let room : c.position + n ≤ size c = ground arith in
      rw (fits, skip)
        record {
          same_bytes = refl;
          ahead = omega (arith, i.size_word);
          still_inside = omega (arith, i.size_word);
        }
]

pub skip-IsSafe : (n : ℕ) → IsSafe n (skip n)
skip-IsSafe n = record { apply = skip-Post n }

pub length-c_string :
    (bytes text : List ℕ) → c_string bytes ≡ some text → length text < length bytes
unfolding c_string
length-c_string [] text e = ground arith
length-c_string (b ∷ bytes) text e = elim (Option-cases (c_string bytes)) [
  | inl absent ↦ ground arith
  | inr (rest, found) ↦ ground (arith, length-c_string bytes rest found)
]

string-Post : (c : Cursor) → IsInside c → Post 1 c (string c)
unfolding string
string-Post c i = elim (Bool-cases (leb (size c) c.position)) [
  | inl past ↦ rw (past, string) tt
  | inr before ↦ elim (Option-cases (c_string (drop c.position c.bytes))) [
    | inl absent ↦ rw (before, absent, string) tt
    | inr (text, found) ↦
        let short = length-c_string (drop c.position c.bytes) text found in
        let left = length-drop c.position c.bytes in
        rw (before, found, string)
          record {
            same_bytes = refl;
            ahead = omega (arith, i.size_word);
            still_inside = omega (arith, i.size_word);
          }
  ]
]

pub string-IsSafe : IsSafe 1 string
string-IsSafe = record { apply = string-Post }
