-- ===== src/Arena/Blocks.antt =====
-- The blocks that `alloc` of src/mem/arena.cc cuts.
use fpag.Common.{ℕ, ◌+◌, ◌%◌, ◌^◌, ◌≤◌, ◌<◌, ◌≡◌, refl, ap, ◌∙◌, arith, true, false, none, some}
use fpag.Common.{Bool, ltb, leb, Bool-cases, inl, inr, word_size, add64, sub64, lt→ltb, le→ltb}
use fpag.Common.Bits.{two_pow_pos}
use fpag.MathUtil.{round_up}
use fpag.MathUtil.Round.{round_up_least}
use fpag.Arena.{Arena, commit_until, alloc}
use native.Mathlib.Nat.{pow-le-pow_right, mod-eq_of_lt}

-- What is handed out is committed, and what is committed is reserved; the region is a whole number
-- of pages of 2 ^ p bytes, and a page fits behind it in the address space.
pub record IsValid (p : ℕ) (a : Arena) : Type 0 where
  pub page_small : p ≤ 63
  pub capacity_word : a.capacity + 2 ^ p < word_size
  pub whole : a.capacity % 2 ^ p ≡ 0
  pub size_committed : a.size ≤ a.committed_size
  pub committed_reserved : a.committed_size ≤ a.capacity

-- `commit_until` commits up to the offset and no further than the region.
record Commits (a : Arena) (end_offset : ℕ) (a' : Arena) : Type 0 where
  same_capacity : a'.capacity ≡ a.capacity
  enough : end_offset ≤ a'.committed_size
  reserved : a'.committed_size ≤ a.capacity

commit_until-Commits :
    (p : ℕ) (a : Arena) (end_offset : ℕ)
    → IsValid p a
    → end_offset ≤ a.capacity
    → Commits a end_offset (commit_until (2 ^ p) true a end_offset)
unfolding commit_until
commit_until-Commits p a end_offset v h = elim (Bool-cases (leb end_offset a.committed_size)) [
  | inl done ↦
      rw (done, commit_until)
        record { same_capacity = refl; enough = ground arith; reserved = v.committed_reserved }
  | inr more ↦
      let (above, aligned, least) =
        round_up_least p end_offset a.capacity v.page_small
          (omega (arith, v.capacity_word, two_pow_pos p)) h v.whole in
      let within : ltb a.capacity (round_up end_offset (2 ^ p)) ≡ false = le→ltb _ _ least in
      rw (more, commit_until)
        (rw within record { same_capacity = refl; enough = above; reserved = least })
]

module _ {p : ℕ} {a : Arena} (k n : ℕ) (v : IsValid p a) where
  offset_facts :
      k ≤ p
      → a.capacity % 2 ^ k ≡ 0
      → (a.size ≤ round_up a.size (2 ^ k))
        × (round_up a.size (2 ^ k) % 2 ^ k ≡ 0)
        × (round_up a.size (2 ^ k) ≤ a.capacity)
  offset_facts h divides =
      let page : 2 ^ k ≤ 2 ^ p = pow-le-pow_right {n = 2} (omega arith) {i = k} {j = p} h in
      round_up_least k a.size a.capacity (omega (arith, v.page_small))
        (omega (arith, v.capacity_word, v.size_committed, v.committed_reserved, two_pow_pos k))
        (omega (arith, v.size_committed, v.committed_reserved)) divides

  -- On a valid arena, for an alignment of at most a page that divides the capacity, `alloc` of n
  -- bytes that fit behind the aligned offset answers that offset, if the platform commits the
  -- pages: it is aligned, no byte of the block was handed out before, the block is inside the
  -- region, and what is handed out is committed again: the arena stays valid.
  pub alloc_block :
      k ≤ p
      → a.capacity % 2 ^ k ≡ 0
      → round_up a.size (2 ^ k) + n ≤ a.capacity
      → (a' : Arena) × (alloc (2 ^ p) true a n (2 ^ k) ≡ (some (round_up a.size (2 ^ k)), a'))
        × (round_up a.size (2 ^ k) % 2 ^ k ≡ 0)
        × (a.size ≤ round_up a.size (2 ^ k))
        × (a'.size ≡ round_up a.size (2 ^ k) + n)
        × IsValid p a'
  unfolding alloc
  alloc_block h divides fits =
      let (above, aligned, within) = offset_facts h divides in
      let test : ltb (sub64 a.capacity (round_up a.size (2 ^ k))) n ≡ false =
        le→ltb _ _ (omega (arith, v.capacity_word)) in
      let next : add64 (round_up a.size (2 ^ k)) n ≡ round_up a.size (2 ^ k) + n =
        mod-eq_of_lt (omega (arith, v.capacity_word)) in
      let c = commit_until-Commits p a (round_up a.size (2 ^ k) + n) v fits in
      (
        record (commit_until (2 ^ p) true a (round_up a.size (2 ^ k) + n)) {
          size = round_up a.size (2 ^ k) + n;
        },
        rw (test, next) refl,
        aligned,
        above,
        refl,
        record {
          page_small = v.page_small;
          capacity_word = omega (arith, v.capacity_word, c.same_capacity);
          whole = ap (λ (t : ℕ). t % 2 ^ p) c.same_capacity ∙ v.whole;
          size_committed = c.enough;
          committed_reserved = omega (arith, c.reserved, c.same_capacity);
        },
      )

  -- On a valid arena, for an alignment of at most a page that divides the capacity, `alloc` of a
  -- number of bytes that do not fit behind the aligned offset answers a null pointer and changes
  -- nothing, whether or not the platform would commit pages.
  pub alloc_full :
      (commits : Bool)
      → k ≤ p
      → a.capacity % 2 ^ k ≡ 0
      → a.capacity < round_up a.size (2 ^ k) + n
      → alloc (2 ^ p) commits a n (2 ^ k) ≡ (none, a)
  unfolding alloc
  alloc_full commits h divides over =
      let (above, aligned, within) = offset_facts h divides in
      let test : ltb (sub64 a.capacity (round_up a.size (2 ^ k))) n ≡ true =
        lt→ltb _ _ (omega (arith, v.capacity_word)) in
      rw test refl
