-- ===== src/Str/Table/Names.antt =====
-- The comparison of names: `same_name` of include/fpag/str/intern_table.h.
use fpag.Common.{ℕ, zero, suc, ◌+◌, ◌-◌, ◌*◌, ◌/◌, ◌≤◌, ◌<◌, Bool, true, false}
use fpag.Common.{
  ◌∷◌, Text, if◌then◌else◌, leb, ◌==◌, ==_iff, length, same_text, same_text_iff, ◌≡◌, refl, sym, ap,
  ◌∙◌, ◌↔◌, arith, split_if, Bool-cases, inl, inr, if_true, if_false,
}
use fpag.Str.Memory.{Memory, read, read-same, read-write}
use fpag.Str.Pool.{StringPool, length_at, get_name}
use fpag.Str.Table.{same_words, same_tail, same_name, word_at, from, data_of, holds_name}

-- The bytes of two memories are the same, so many from an offset on.
abbrev Agree : ℕ → ℕ → Memory → Memory → Type 0
Agree at n l r = (i : ℕ) → at ≤ i → i < at + n → l i ≡ r i

cons-parts : {x y : ℕ} {xs ys : Text} → x ∷ xs ≡ y ∷ ys → (x ≡ y) × (xs ≡ ys)
cons-parts e = ground (arith, e)

read-Agree : (n at : ℕ) (l r : Memory) → read at n l ≡ read at n r → Agree at n l r
unfolding read
read-Agree zero at l r e = λ i a b. absurd (omega arith)
read-Agree (suc n) at l r e = λ i a b. elim (Bool-cases (i == at)) [
  | inl h ↦ ap l ((==_iff i at).0 h) ∙ (cons-parts e).0 ∙ sym (ap r ((==_iff i at).0 h))
  | inr h ↦ read-Agree n (suc at) l r (cons-parts e).1 i (ground arith) (omega arith)
]

word-Agree :
    (at : ℕ) (l r : Memory) → same_text (word_at at l) (word_at at r) ≡ true → Agree at 8 l r
word-Agree at l r e = read-Agree 8 at l r ((same_text_iff (word_at at l) (word_at at r)).0 e)

Agree-word :
    (at : ℕ) (l r : Memory) → Agree at 8 l r → same_text (word_at at l) (word_at at r) ≡ true
Agree-word at l r h = (same_text_iff (word_at at l) (word_at at r)).1 (read-same at 8 l r h)

same_words-Agree : (n at : ℕ) (l r : Memory) → same_words n at l r ≡ true → Agree at (8 * n) l r
unfolding same_words
same_words-Agree zero at l r e = λ i a b. absurd (omega arith)
same_words-Agree (suc n) at l r e =
    let w : same_text (word_at at l) (word_at at r) ≡ true = ground arith in
    let rest : same_words n (8 + at) l r ≡ true = ground arith in
    λ i a b. elim (Bool-cases (leb (8 + at) i)) [
      | inl h ↦ same_words-Agree n (8 + at) l r rest i (ground arith) (omega arith)
      | inr h ↦ word-Agree at l r w i a (ground arith)
    ]

Agree-same_words : (n at : ℕ) (l r : Memory) → Agree at (8 * n) l r → same_words n at l r ≡ true
unfolding same_words
Agree-same_words zero at l r h = refl
Agree-same_words (suc n) at l r h =
    if_true _ _ (Agree-word at l r (λ i a b. h i a (omega arith)))
    ∙ Agree-same_words n (8 + at) l r (λ i a b. h i (omega arith) (omega arith))

same_tail-Agree : (n at : ℕ) (l r : Memory) → same_tail n at l r ≡ true → Agree at n l r
unfolding same_tail
same_tail-Agree zero at l r e = λ i a b. absurd (omega arith)
same_tail-Agree (suc n) at l r e =
    let rest : same_tail n (suc at) l r ≡ true = ground arith in
    let first : l at ≡ r at = (==_iff (l at) (r at)).0 (ground arith) in
    λ i a b. elim (Bool-cases (i == at)) [
      | inl h ↦ ap l ((==_iff i at).0 h) ∙ first ∙ sym (ap r ((==_iff i at).0 h))
      | inr h ↦ same_tail-Agree n (suc at) l r rest i (ground arith) (omega arith)
    ]

Agree-same_tail : (n at : ℕ) (l r : Memory) → Agree at n l r → same_tail n at l r ≡ true
unfolding same_tail
Agree-same_tail zero at l r h = refl
Agree-same_tail (suc n) at l r h =
    if_true _ _ ((==_iff (l at) (r at)).1 (h at (omega arith) (omega arith)))
    ∙ Agree-same_tail n (suc at) l r (λ i a b. h i (omega arith) (omega arith))

-- What `same_name` compares behind the whole words.
abbrev same_rest : ℕ → Memory → Memory → Bool
same_rest size l r =
    if size / 8 * 8 == size
    then true
    else (if leb 8 size
        then same_text (word_at (size - 8) l) (word_at (size - 8) r)
        else same_tail (size - size / 8 * 8) (size / 8 * 8) l r)

same_rest-Agree :
    (size : ℕ) (l r : Memory)
    → same_rest size l r ≡ true
    → Agree 0 (8 * (size / 8)) l r
    → Agree 0 size l r
same_rest-Agree size l r e h = λ i a b. elim (Bool-cases (leb (8 * (size / 8)) i)) [
  | inr k ↦ h i a (ground arith)
  | inl k ↦ elim (Bool-cases (leb 8 size)) [
    | inl c ↦
        let w : same_text (word_at (size - 8) l) (word_at (size - 8) r) ≡ true = ground arith in
        word-Agree (size - 8) l r w i (ground arith) (ground arith)
    | inr c ↦
        let w : same_tail (size - size / 8 * 8) (size / 8 * 8) l r ≡ true = ground arith in
        same_tail-Agree (size - size / 8 * 8) (size / 8 * 8) l r w i (ground arith) (ground arith)
  ]
]

Agree-same_rest : (size : ℕ) (l r : Memory) → Agree 0 size l r → same_rest size l r ≡ true
Agree-same_rest size l r h =
    split_if (λ (x : Bool). x ≡ true) (size / 8 * 8 == size) (λ e. refl)
      (λ e.
        split_if (λ (x : Bool). x ≡ true) (leb 8 size)
          (λ k. Agree-word (size - 8) l r (λ i a b. h i (omega arith) (ground arith)))
          (λ k.
            Agree-same_tail (size - size / 8 * 8) (size / 8 * 8) l r
              (λ i a b. h i (omega arith) (omega arith))))

same_name-true :
    (size : ℕ) (l r : Memory)
    → same_name l r size ≡ true
    → (same_words (size / 8) 0 l r ≡ true) × (same_rest size l r ≡ true)
unfolding same_name
same_name-true size l r e = elim (Bool-cases (same_words (size / 8) 0 l r)) [
  | inl h ↦ (h, sym (if_true _ _ h) ∙ e)
  | inr h ↦ absurd (ground (arith, sym (if_false (same_rest size l r) false h) ∙ e))
]

-- `same_name`, with its whole words, its overlapping last word and its short tail, holds exactly if
-- the two names have the same bytes.
pub same_name_iff :
    (l r : Memory) (size : ℕ) → (same_name l r size ≡ true) ↔ (read 0 size l ≡ read 0 size r)
unfolding same_name
same_name_iff l r size = (
  λ e.
      let parts = same_name-true size l r e in
      let words = same_words-Agree (size / 8) 0 l r parts.0 in
      read-same 0 size l r (same_rest-Agree size l r parts.1 words),
  λ e.
      let all = read-Agree size 0 l r e in
      if_true _ _ (Agree-same_words (size / 8) 0 l r (λ i a b. all i a (omega arith)))
      ∙ Agree-same_rest size l r all,
)

read-from : (n at k : ℕ) (m : Memory) → read k n (from at m) ≡ read (at + k) n m
unfolding read
read-from zero at k m = refl
read-from (suc n) at k m =
    let next : at + suc k ≡ suc (at + k) = omega arith in
    ap (λ (t : Text). m (at + k) ∷ t) (read-from n at (suc k) m ∙ ap (λ (j : ℕ). read j n m) next)

read-length : (n at : ℕ) (m : Memory) → length (read at n m) ≡ n
unfolding read
read-length zero at m = refl
read-length (suc n) at m = ap suc (read-length n (suc at) m)

same_name-get :
    (p : StringPool) (id : ℕ) (content : Text)
    → (same_name (from id p.memory) (data_of content) (length content) ≡ true)
      ↔ (read id (length content) p.memory ≡ content)
same_name-get p id content =
    let n = length content in
    let both = same_name_iff (from id p.memory) (data_of content) n in
    let back = read-write 0 content (λ i. 0) in
    let plain : id + 0 ≡ id = omega arith in
    let here = read-from n id 0 p.memory ∙ ap (λ (j : ℕ). read j n p.memory) plain in
    (λ e. sym here ∙ both.0 e ∙ back, λ e. both.1 (here ∙ e ∙ sym back))

-- An entry is taken for a name exactly if the pool has that name under the entry's id.
pub holds_name_iff :
    (p : StringPool) (id : ℕ) (content : Text)
    → (holds_name p id content ≡ true) ↔ (get_name p id ≡ content)
unfolding holds_name get_name
holds_name_iff p id content =
    let n = length content in
    let same = same_name-get p id content in
    let size = ==_iff (length_at p id) n in
    (
      λ e.
          let a : (length_at p id == n) ≡ true = ground arith in
          let b : same_name (from id p.memory) (data_of content) n ≡ true = ground arith in
          ap (λ k. read id k p.memory) (size.0 a) ∙ same.0 b,
      λ e.
          let k : length_at p id ≡ n =
            sym (read-length (length_at p id) id p.memory) ∙ ap length e in
          let b = same.1 (ap (λ k. read id k p.memory) (sym k) ∙ e) in ground (arith, size.1 k, b),
    )
