-- ===== src/ConcurrentArena/Threads/Safety.antt =====
-- The blocks that the threads of src/mem/concurrent_arena.cc are given.
use fpag.Common.{ℕ, ◌+◌, ◌%◌, ◌≤◌, ◌<◌, ◌≡◌, arith, true, All, lt→ltb}
use fpag.ConcurrentArena.{ConcurrentArena}
use fpag.ConcurrentArena.Lanes.{IsDivided}
use fpag.ConcurrentArena.Threads.{Block, Shared, start_shared, Runs, at_start, turn}
use fpag.ConcurrentArena.Threads.Blocks.{All_weaken, IsTaken-within}
use fpag.ConcurrentArena.Threads.Separate.{IsApart}
use fpag.ConcurrentArena.Threads.Sound.{IsSound, IsGiven}
use fpag.ConcurrentArena.Threads.Turns.{Advance-IsSound}

-- A block stands inside the region, on its alignment, and each of its bytes can be written.
abbrev pub IsUsable : ℕ → Shared → Block → Type 0
IsUsable capacity s b =
    (b.offset + b.size ≤ capacity)
    × (b.offset % b.align ≡ 0)
    × ((x : ℕ) → x < b.offset + b.size → s.writable x ≡ true)

module _ (a : ConcurrentArena) (most : ℕ) (small : most ≤ 62) (d : IsDivided a) where
  start_shared-IsSound : IsSound a most (start_shared a most)
  start_shared-IsSound = record {
    counted = record {
      behind = omega (arith, d.fresh);
      within = omega (arith, d.fresh, d.pool);
      after = λ l h. omega (arith, d.starts l h);
      before = λ l h. omega (arith, d.starts l h, d.slices l h);
    };
    opened = λ x h. lt→ltb x a.committed_size h;
    holds = λ i. tt;
    separate = record {
      among = tt;
      waiting = λ i b e. absurd (ground (arith, e));
      pairs = λ i j b c other e f. absurd (ground (arith, e));
    };
    served = tt;
  }

  Runs-IsSound : {s : Shared} → Runs a most s → IsSound a most s
  Runs-IsSound at_start = start_shared-IsSound
  Runs-IsSound (turn r t) = Advance-IsSound a most small d t (Runs-IsSound r)

  -- From an arena that is divided, with any number of threads in `alloc`, `alloc_exact` and
  -- `alloc_from`, at every moment of every interleaving: no byte is in two of the blocks that were
  -- answered, and each of them is inside the region, stands on a multiple of its alignment, and can
  -- be written throughout. Alignments of `alloc` are powers of two up to 2 ^ 62, `alloc_exact` is
  -- called only where the offset leaves room for it when it takes, `alloc_from` names a lane that
  -- exists, and a debug check that fails stops its thread.
  pub Runs-IsUsable :
      {s : Shared} → Runs a most s → IsApart s.given × All (IsUsable a.capacity s) s.given
  Runs-IsUsable {s} r =
      let o = Runs-IsSound r in
      (
        o.separate.among,
        All_weaken (IsGiven a most s.size s.cursors s.writable) (IsUsable a.capacity s)
            (λ b g. (IsTaken-within a d s.size s.cursors b o.counted g.0.0, g.0.1, g.1)) s.given
            o.served,
      )
