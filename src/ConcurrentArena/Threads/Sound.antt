-- ===== src/ConcurrentArena/Threads/Sound.antt =====
-- The offset, the watermark, the lanes and the threads of src/mem/concurrent_arena.cc at every moment.
use mathlib.Core.Path.{subst}
use fpag.Common.{
  ℕ, ◌+◌, ◌%◌, ◌^◌, ◌≤◌, ◌<◌, ◌≡◌, ◌||◌, ◌&&◌, refl, arith, Bool, true, false, some, All,
  if◌then◌else◌, ltb, leb, ◌==◌, split_if, sub64,
}
use fpag.MathUtil.{round_up}
use fpag.ConcurrentArena.{ConcurrentArena}
use fpag.ConcurrentArena.Threads.{
  Block, Stage, idle, stopped, bumping, swapping, checking, committing, opening, publishing, Shared,
  set_stage, give, open_bytes, target,
}
use fpag.ConcurrentArena.Threads.Blocks.{Apart, All_weaken, IsCounted, IsTaken, IsTaken-grow}
use fpag.ConcurrentArena.Threads.Separate.{
  pending, IsSeparate, some-parts, keep-IsSeparate, take-IsSeparate, give-IsSeparate,
}

-- What can be written stays so.
abbrev pub Grows : (ℕ → Bool) → (ℕ → Bool) → Type 0
Grows w w' = (x : ℕ) → w x ≡ true → w' x ≡ true

pub open_bytes-Grows : (from to : ℕ) (w : ℕ → Bool) → Grows w (open_bytes from to w)
open_bytes-Grows from to w x h =
    split_if (λ b. b ≡ true) (leb from x && ltb x to) (λ e. refl) (λ e. h)

pub open_bytes_lem :
    (from to : ℕ) (w : ℕ → Bool) (x : ℕ) → from ≤ x → x < to → open_bytes from to w x ≡ true
open_bytes_lem from to w x h k = ground arith

module _ (a : ConcurrentArena) (most : ℕ) where
  abbrev pub IsBlock : ℕ → (ℕ → ℕ) → Block → Type 0
  IsBlock n c b = IsTaken a n c b × (b.offset % b.align ≡ 0)

  -- What a thread knows where it stands.
  abbrev pub IsHeld : ℕ → (ℕ → ℕ) → (ℕ → Bool) → Stage → Type 0
  IsHeld n c w idle = Unit
  IsHeld n c w stopped = Unit
  IsHeld n c w (bumping size k) = k ≤ most
  IsHeld n c w (swapping size k old) =
      (k ≤ most)
      × ((ltb a.capacity (round_up old (2 ^ k))
            || ltb (sub64 a.capacity (round_up old (2 ^ k))) size)
          ≡ false)
  IsHeld n c w (checking b) = IsTaken a n c b
  IsHeld n c w (committing b) = IsBlock n c b
  IsHeld n c w (opening b seen) = IsBlock n c b
  IsHeld n c w (publishing b seen) =
      IsBlock n c b × ((x : ℕ) → seen ≤ x → x < target a most b → w x ≡ true)

  abbrev pub IsGiven : ℕ → (ℕ → ℕ) → (ℕ → Bool) → Block → Type 0
  IsGiven n c w b = IsBlock n c b × ((x : ℕ) → x < b.offset + b.size → w x ≡ true)

  pub record IsSound (s : Shared) : Type 0 where
    pub counted : IsCounted a s.size s.cursors
    pub opened : (x : ℕ) → x < s.committed_size → s.writable x ≡ true
    pub holds : (i : ℕ) → IsHeld s.size s.cursors s.writable (s.stages i)
    pub separate : IsSeparate s.given s.stages
    pub served : All (IsGiven s.size s.cursors s.writable) s.given

  IsHeld-grow :
      (n n' : ℕ) (c c' : ℕ → ℕ) (w w' : ℕ → Bool) (p : Stage)
      → n ≤ n'
      → ((l : ℕ) → c l ≤ c' l)
      → Grows w w'
      → IsHeld n c w p
      → IsHeld n' c' w' p
  IsHeld-grow n n' c c' w w' idle h k g i = tt
  IsHeld-grow n n' c c' w w' stopped h k g i = tt
  IsHeld-grow n n' c c' w w' (checking b) h k g i = IsTaken-grow a n n' c c' b h k i
  IsHeld-grow n n' c c' w w' (bumping size e) h k g i = i
  IsHeld-grow n n' c c' w w' (swapping size e old) h k g i = i
  IsHeld-grow n n' c c' w w' (committing b) h k g i = (IsTaken-grow a n n' c c' b h k i.0, i.1)
  IsHeld-grow n n' c c' w w' (opening b seen) h k g i = (IsTaken-grow a n n' c c' b h k i.0, i.1)
  IsHeld-grow n n' c c' w w' (publishing b seen) h k g i =
      ((IsTaken-grow a n n' c c' b h k i.0.0, i.0.1), (λ x u v. g x (i.1 x u v)))

  IsGiven-grow :
      (n n' : ℕ) (c c' : ℕ → ℕ) (w w' : ℕ → Bool)
      → n ≤ n'
      → ((l : ℕ) → c l ≤ c' l)
      → Grows w w'
      → (b : Block) → IsGiven n c w b
      → IsGiven n' c' w' b
  IsGiven-grow n n' c c' w w' h k g b i =
      ((IsTaken-grow a n n' c c' b h k i.0.0, i.0.1), (λ x u. g x (i.1 x u)))

  -- The block of a thread that has one was cut.
  pending-IsTaken :
      (n : ℕ) (c : ℕ → ℕ) (w : ℕ → Bool) (p : Stage) (b : Block)
      → IsHeld n c w p
      → pending p ≡ some b
      → IsTaken a n c b
  pending-IsTaken n c w (checking e) b i h = subst (IsTaken a n c) (some-parts h) i
  pending-IsTaken n c w (committing e) b i h = subst (IsTaken a n c) (some-parts h) i.0
  pending-IsTaken n c w (opening e seen) b i h = subst (IsTaken a n c) (some-parts h) i.0
  pending-IsTaken n c w (publishing e seen) b i h = subst (IsTaken a n c) (some-parts h) i.0.0
  pending-IsTaken n c w idle b i h = absurd (ground (arith, h))
  pending-IsTaken n c w stopped b i h = absurd (ground (arith, h))
  pending-IsTaken n c w (bumping size k) b i h = absurd (ground (arith, h))
  pending-IsTaken n c w (swapping size k old) b i h = absurd (ground (arith, h))

  with_stage-IsHeld :
      (n : ℕ) (c : ℕ → ℕ) (w : ℕ → Bool) (stages : ℕ → Stage) (i : ℕ) (p : Stage)
      → IsHeld n c w p
      → ((j : ℕ) → IsHeld n c w (stages j))
      → (j : ℕ) → IsHeld n c w (if j == i then p else stages j)
  with_stage-IsHeld n c w stages i p h rest j =
      split_if (IsHeld n c w) (j == i) (λ e. h) (λ e. rest j)

  -- A thread goes on, and holds what it held or nothing.
  pub stage-IsSound :
      (s : Shared) (i : ℕ) (p : Stage)
      → IsSound s
      → IsHeld s.size s.cursors s.writable p
      → ((b : Block) → pending p ≡ some b → pending (s.stages i) ≡ some b)
      → IsSound (set_stage i p s)
  stage-IsSound s i p o h keep = record {
    counted = o.counted;
    opened = o.opened;
    holds = with_stage-IsHeld s.size s.cursors s.writable s.stages i p h o.holds;
    separate = keep-IsSeparate s.given s.stages i p o.separate keep;
    served = o.served;
  }

  -- A thread cuts a block.
  pub take-IsSound :
      (s : Shared) (i n : ℕ) (c : ℕ → ℕ) (p : Stage) (b : Block)
      → pending p ≡ some b
      → IsSound s
      → s.size ≤ n
      → ((l : ℕ) → s.cursors l ≤ c l)
      → IsCounted a n c
      → IsHeld n c s.writable p
      → ((e : Block) → IsTaken a s.size s.cursors e → Apart b e)
      → IsSound (set_stage i p (record s { size = n; cursors = c }))
  take-IsSound s i n c p b cut o h k counted here fresh =
      let w = s.writable in
      record {
        counted = counted;
        opened = o.opened;
        holds =
            with_stage-IsHeld n c w s.stages i p here
              (λ j. IsHeld-grow s.size n s.cursors c w w (s.stages j) h k (λ x e. e) (o.holds j));
        separate =
            take-IsSeparate s.given s.stages i p b cut o.separate
              (All_weaken (IsGiven s.size s.cursors w) (Apart b) (λ e g. fresh e g.0.0) s.given
                o.served)
              (λ j e q. fresh e (pending-IsTaken s.size s.cursors w (s.stages j) e (o.holds j) q));
        served =
            All_weaken (IsGiven s.size s.cursors w) (IsGiven n c w)
              (IsGiven-grow s.size n s.cursors c w w h k (λ x e. e)) s.given o.served;
      }

  pub give-IsSound :
      (s : Shared) (i : ℕ) (b : Block)
      → IsSound s
      → pending (s.stages i) ≡ some b
      → IsBlock s.size s.cursors b
      → b.offset + b.size ≤ s.committed_size
      → IsSound (give i b s)
  give-IsSound s i b o e here h = record {
    counted = o.counted;
    opened = o.opened;
    holds = with_stage-IsHeld s.size s.cursors s.writable s.stages i idle tt o.holds;
    separate = give-IsSeparate s.given s.stages i b o.separate e;
    served = ((here, (λ x l. o.opened x (omega arith))), o.served);
  }

  -- More bytes become writable.
  pub open-IsSound :
      (s : Shared) (w : ℕ → Bool)
      → Grows s.writable w
      → IsSound s
      → IsSound (record s { writable = w })
  open-IsSound s w g o = record {
    counted = o.counted;
    opened = λ x l. g x (o.opened x l);
    holds = λ j.
        IsHeld-grow s.size s.size s.cursors s.cursors s.writable w (s.stages j) (omega arith)
          (λ l. omega arith) g (o.holds j);
    separate = o.separate;
    served =
        All_weaken (IsGiven s.size s.cursors s.writable) (IsGiven s.size s.cursors w)
          (IsGiven-grow s.size s.size s.cursors s.cursors s.writable w (omega arith)
            (λ l. omega arith) g)
          s.given o.served;
  }
