-- ===== src/ConcurrentArena/Tests.antt =====
-- Concrete arenas for src/mem/concurrent_arena.cc.
use fpag.Common.{◌≡◌, refl, arith, some, true, All, [], ◌∷◌}
use fpag.MathUtil.{round_up}
use fpag.ConcurrentArena.{
  ConcurrentArena, unmapped_arena, set_lanes, lane_begin, lane_end, lane_size, with_lanes,
}
use fpag.ConcurrentArena.Lanes.{IsDivided, IsCutOn, set_lanes-IsDivided}
use fpag.ConcurrentArena.Threads.{
  Block, Shared, start_shared, set_stage, committing, publishing, bumping, pool_block, block_end,
  offset_loaded, take_from, watermark_loaded, target, open_bytes, give, Runs, at_start, turn, begin,
  load, swap, take_lane, look, unlock, publish,
}
use fpag.ConcurrentArena.Threads.Separate.{IsApart}
use fpag.ConcurrentArena.Threads.Safety.{IsUsable, Runs-IsUsable}

-- 64 bytes for two lanes of units of 8 bytes, with a pool of 20 bytes that is cut to 16.
abbrev region : ConcurrentArena
region = record unmapped_arena { mapped = true; capacity = 64 }

abbrev divided : ConcurrentArena
divided = with_lanes 2 8 48 region

divided_lem : set_lanes 2 8 20 region ≡ some divided
unfolding set_lanes
divided_lem = refl

second_lane :
    (lane_begin divided 1 ≡ some 24)
    × (lane_end divided 1 ≡ some 48)
    × (lane_size divided 1 ≡ some 0)
unfolding lane_begin lane_end lane_size
second_lane = (refl, refl, refl)

set_lanes-IsDivided_example : IsDivided divided × IsCutOn 8 20 divided
set_lanes-IsDivided_example =
    set_lanes-IsDivided 2 8 20 region divided (omega arith) (omega arith) (omega arith) divided_lem

divided-IsDivided : IsDivided divided
divided-IsDivided =
    (set_lanes-IsDivided 2 8 20 region divided (omega arith) (omega arith) (omega arith)
      divided_lem).0

-- Thread 0 takes 8 bytes of the pool while thread 1 takes 8 bytes of its lane.
abbrev lane_block : Block
lane_block = record { offset = 24; size = 8; align = 8 }

abbrev both_cut : Shared
both_cut =
    set_stage 0 (committing (pool_block 8 3 48))
      (record (take_from divided 62 1 1 8 8 (
        set_stage 0 (offset_loaded divided 62 8 3 48)
          (set_stage 0 (bumping 8 3) (start_shared divided 62)))) {
            size = block_end (pool_block 8 3 48);
          })

both_cut_reached : Runs divided 62 both_cut
unfolding round_up
both_cut_reached =
    turn
      (turn (turn (turn at_start (begin 0 8 3 refl (omega arith))) (load 0 8 3 refl))
        (take_lane 1 1 8 8 refl (omega arith)))
      (swap 0 8 3 48 refl refl)

abbrev both_given : Shared
both_given = watermark_loaded divided 62 0 (pool_block 8 3 48) (
    give 1 lane_block
      (record (set_stage 1 (publishing lane_block 0)
        (record (watermark_loaded divided 62 1 lane_block both_cut) {
          writable =
              open_bytes 0 (target divided 62 lane_block)
                (watermark_loaded divided 62 1 lane_block both_cut).writable;
        })) { committed_size = target divided 62 lane_block }))

both_given_reached : Runs divided 62 both_given
unfolding round_up
both_given_reached =
    turn
      (turn (turn (turn both_cut_reached (look 1 lane_block refl)) (unlock 1 0 lane_block refl))
        (publish 1 0 lane_block refl refl))
      (look 0 (pool_block 8 3 48) refl)

both_given_lem : both_given.given ≡ record { offset = 48; size = 8; align = 8 } ∷ lane_block ∷ []
unfolding round_up
both_given_lem = refl

Runs-IsUsable_example : IsApart both_given.given × All (IsUsable 64 both_given) both_given.given
Runs-IsUsable_example =
    Runs-IsUsable divided 62 (omega arith) divided-IsDivided {s = both_given} both_given_reached
