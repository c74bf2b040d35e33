-- ===== src/ConcurrentArena/Threads/Blocks.antt =====
-- The blocks of src/mem/concurrent_arena.cc that are cut, against the offset and the cursors.
use fpag.Common.{
  ℕ, ◌+◌, ◌-◌, ◌*◌, ◌%◌, ◌^◌, ◌≤◌, ◌<◌, ◌≡◌, ◌⊎◌, ◌||◌, inl, inr, arith, ltb, false, ap, sub64, All,
  List, [], ◌∷◌, split_if, word_size,
}
use fpag.Common.Bits.{two_pow_pos}
use native.Mathlib.Nat.{pow-le-pow_right, mul-le-mul_left, mul-mod_left}
use native.Mathlib.Decide.{dec_lt}
use fpag.MathUtil.{round_up}
use fpag.MathUtil.Round.{round_up_least}
use fpag.ConcurrentArena.{ConcurrentArena, next_watermark}
use fpag.ConcurrentArena.Lanes.{IsDivided}
use fpag.ConcurrentArena.Threads.{Block, block_end}

-- No byte is in both.
abbrev pub Apart : Block → Block → Type 0
Apart b c = (b.offset + b.size ≤ c.offset) ⊎ (c.offset + c.size ≤ b.offset)

pub Apart-sym : (b c : Block) → Apart b c → Apart c b
Apart-sym b c (inl h) = inr h
Apart-sym b c (inr h) = inl h

pub All_weaken {ℓ κ} :
    {A : Type 0} (P : A → Type ℓ) (Q : A → Type κ)
    → ((x : A) → P x → Q x)
    → (xs : List A) → All P xs
    → All Q xs
All_weaken P Q f [] h = tt
All_weaken P Q f (x ∷ xs) h = (f x h.0, All_weaken P Q f xs h.1)

pub end_lem : (b : Block) → b.offset + b.size < word_size → block_end b ≡ b.offset + b.size
end_lem b h = omega arith

module _ (a : ConcurrentArena) where
  -- Where the offset and the cursors may stand.
  pub record IsCounted (size : ℕ) (cursors : ℕ → ℕ) : Type 0 where
    pub behind : a.pool_begin ≤ size
    pub within : size ≤ a.capacity
    pub after : (l : ℕ) → l < a.lane_count → (a.lanes l).begin ≤ cursors l
    pub before : (l : ℕ) → l < a.lane_count → cursors l ≤ (a.lanes l).end

  -- The block was cut from the pool or from a lane.
  pub data IsTaken (size : ℕ) (cursors : ℕ → ℕ) (b : Block) : Type 0 where
    in_pool : a.pool_begin ≤ b.offset → b.offset + b.size ≤ size → IsTaken size cursors b
    in_lane :
        (l : ℕ)
        → l < a.lane_count
        → (a.lanes l).begin ≤ b.offset
        → b.offset + b.size ≤ cursors l
        → IsTaken size cursors b

  pub IsTaken-grow :
      (n n' : ℕ) (c c' : ℕ → ℕ) (b : Block)
      → n ≤ n'
      → ((l : ℕ) → c l ≤ c' l)
      → IsTaken n c b
      → IsTaken n' c' b
  IsTaken-grow n n' c c' b h k (in_pool p q) = in_pool p (omega arith)
  IsTaken-grow n n' c c' b h k (in_lane l m p q) = in_lane l m p (omega (arith, k l))

  module _ (d : IsDivided a) where
    pub IsTaken-within :
        (n : ℕ) (c : ℕ → ℕ) (b : Block)
        → IsCounted n c
        → IsTaken n c b
        → b.offset + b.size ≤ a.capacity
    IsTaken-within n c b i (in_pool p q) = omega (arith, i.within)
    IsTaken-within n c b i (in_lane l m p q) = omega (arith, i.before l m, d.below l m, d.pool)

    -- A block at the offset is apart from every block that was cut.
    pub pool_fresh :
        (n : ℕ) (c : ℕ → ℕ) (b e : Block) → IsCounted n c → n ≤ b.offset → IsTaken n c e → Apart b e
    pool_fresh n c b e i h (in_pool p q) = inr (omega arith)
    pool_fresh n c b e i h (in_lane l m p q) =
        inr (omega (arith, i.before l m, d.below l m, i.behind))

    -- So is a block at the cursor of a lane that does not pass the lane's end.
    pub lane_fresh :
        (n : ℕ) (c : ℕ → ℕ) (l : ℕ) (b e : Block)
        → IsCounted n c
        → l < a.lane_count
        → b.offset ≡ c l
        → b.offset + b.size ≤ (a.lanes l).end
        → IsTaken n c e
        → Apart b e
    lane_fresh n c l b e i m h fits (in_pool p q) = inl (omega (arith, d.below l m))
    lane_fresh n c l b e i m h fits (in_lane o v p q) = elim (dec_lt l o) [
      | yes lt ↦ inl (omega (arith, d.ordered l o lt v))
      | no ge ↦ elim (dec_lt o l) [
        | yes lt ↦ inr (omega (arith, d.ordered o l lt m, i.before o v, i.after l m))
        | no le ↦ let same : o ≡ l = omega arith in inr (omega (arith, ap c same))
      ]
    ]

    pub request_fits :
        (aligned size : ℕ)
        → (ltb a.capacity aligned || ltb (sub64 a.capacity aligned) size) ≡ false
        → aligned + size ≤ a.capacity
    request_fits aligned size e = room a.capacity aligned size d.capped e
      where
        room :
            (capacity aligned size : ℕ)
            → capacity < 2 ^ 63
            → (ltb capacity aligned || ltb (sub64 capacity aligned) size) ≡ false
            → aligned + size ≤ capacity
        room capacity aligned size h e = ground arith

    -- Where `alloc` puts its block.
    pub pool_block_lem :
        (most k old : ℕ)
        → most ≤ 62
        → k ≤ most
        → old ≤ a.capacity
        → (old ≤ round_up old (2 ^ k)) × (round_up old (2 ^ k) % 2 ^ k ≡ 0)
    pool_block_lem most k old h le in_room =
        let small : 2 ^ k ≤ 2 ^ 62 =
          pow-le-pow_right {n = 2} (omega arith) {i = k} {j = 62} (omega arith) in
        let pos : 0 < 2 ^ k = two_pow_pos k in
        let r =
          round_up_least k old (old * 2 ^ k) (omega arith) (omega (arith, d.capped))
            (omega (arith, mul-le-mul_left old pos)) (mul-mod_left old (2 ^ k)) in
        (r.0, r.1)

    -- The pages that are opened for a block reach its end.
    pub watermark-enough : (end : ℕ) → end ≤ a.capacity → end ≤ next_watermark a.capacity end
    watermark-enough end h =
        split_if (λ n. end ≤ n) (ltb a.capacity (round_up end 262144)) (λ e. h)
          (λ e.
            (round_up_least 18 end (end + 262143 - (end + 262143) % 262144) (omega arith)
              (omega (arith, d.capped)) (omega arith) (omega arith)).0)
