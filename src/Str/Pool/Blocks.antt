-- ===== src/Str/Pool/Blocks.antt =====
-- The blocks that the allocator of src/mem/concurrent_arena.cc cuts for the pool.
use fpag.Common.{ℕ, ◌+◌, ◌-◌, ◌%◌, ◌^◌, ◌≤◌, ◌<◌, Bool, true, false, ◌||◌, Option, none, some}
use fpag.Common.{ltb, leb, add64, sub64, ◌≡◌, refl, arith, split_if}
use fpag.MathUtil.{round_up}
use fpag.MathUtil.Round.{round_up_least}
use fpag.ConcurrentArena.{ConcurrentArena, bump, commit_chunks, committed_block}

-- The arena stands inside its capacity, which fits a u32.
pub record IsRoomy (a : ConcurrentArena) : Type 0 where
  pub within : a.size ≤ a.capacity
  pub capped : a.capacity < 2 ^ 32

pub record IsCut (a : ConcurrentArena) (size : ℕ) (at : ℕ) (a' : ConcurrentArena) : Type 0 where
  pub exact : at ≡ round_up a.size 4
  pub behind : a.size ≤ at
  pub ends : a'.size ≡ at + size
  pub roomy : IsRoomy a'

abbrev pub IsBump : ConcurrentArena → ℕ → Option ℕ × ConcurrentArena → Type 0
IsBump a size (none, a') = Unit
IsBump a size (some at, a') = IsCut a size at a'

block-IsBump :
    (a : ConcurrentArena) (size at : ℕ) (r : Bool × ConcurrentArena)
    → IsCut a size at r.1
    → IsBump a size (committed_block at r)
block-IsBump a size at (true, a') c = c
block-IsBump a size at (false, a') c = tt

commit_chunks-IsCut :
    (commits : Bool) (a b : ConcurrentArena) (size at end : ℕ)
    → IsCut a size at b
    → IsCut a size at (commit_chunks commits end b).1
unfolding commit_chunks
commit_chunks-IsCut commits a b size at end c =
    split_if (λ (r : Bool × ConcurrentArena). IsCut a size at r.1) (leb end b.committed_size)
      (λ h. c)
      (λ h.
        split_if (λ (r : Bool × ConcurrentArena). IsCut a size at r.1) commits
          (λ e. record {
            exact = c.exact;
            behind = c.behind;
            ends = c.ends;
            roomy = record { within = c.roomy.within; capped = c.roomy.capped };
          })
          (λ e. c))

room :
    (capacity aligned size : ℕ)
    → capacity < 2 ^ 32
    → (ltb capacity aligned || ltb (sub64 capacity aligned) size) ≡ false
    → aligned + size ≤ capacity
room capacity aligned size h e = ground arith

-- A block that is answered is cut behind everything before it.
pub bump-IsBump :
    (commits : Bool) (size : ℕ) (a : ConcurrentArena)
    → IsRoomy a
    → IsBump a size (bump commits size 4 a)
unfolding bump
bump-IsBump commits size a r =
    let aligned = round_up a.size 4 in
    let above =
      (round_up_least 2 a.size (a.size + 3 - (a.size + 3) % 4) (omega arith)
        (omega (arith, r.within, r.capped)) (omega arith) (omega arith)).0 in
    split_if (IsBump a size) (ltb a.capacity aligned || ltb (sub64 a.capacity aligned) size)
      (λ e. tt)
      (λ e.
        let fits = room a.capacity aligned size r.capped e in
        let size' : add64 aligned size ≡ aligned + size = omega (arith, fits, r.capped) in
        let b : ConcurrentArena = record a { size = add64 aligned size } in
        block-IsBump a size aligned (commit_chunks commits (add64 aligned size) b) (
          commit_chunks-IsCut commits a b size aligned (add64 aligned size) (record {
            exact = refl;
            behind = above;
            ends = size';
            roomy = record { within = omega (arith, fits, size'); capped = r.capped };
          })))
