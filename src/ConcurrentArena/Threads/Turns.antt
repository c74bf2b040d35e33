-- ===== src/ConcurrentArena/Threads/Turns.antt =====
-- What each turn of a thread of src/mem/concurrent_arena.cc keeps.
use mathlib.Core.Path.{subst}
use fpag.Common.{
  ℕ, ◌+◌, ◌%◌, ◌^◌, ◌≤◌, ◌<◌, ◌≡◌, ◌||◌, not, refl, sym, ap, ◌∙◌, arith, false, some, if◌then◌else◌,
  ltb, leb, ◌==◌, ==_iff, split_if, if_true, Bool-cases, inl, inr, add64, sub64, leb→le,
}
use fpag.MathUtil.{round_up}
use fpag.ConcurrentArena.{ConcurrentArena}
use fpag.ConcurrentArena.Lanes.{IsDivided}
use fpag.ConcurrentArena.Threads.{
  Block, block_end, pool_block, Stage, idle, stopped, bumping, swapping, checking, committing,
  opening, publishing, Shared, set_stage, give, move_cursor, open_bytes, target, offset_loaded,
  checked, watermark_loaded, Advance, begin, load, swap, miss, take_exact, check, take_lane, look,
  unlock, fail, publish, stale,
}
use fpag.ConcurrentArena.Threads.Blocks.{
  end_lem, in_pool, in_lane, IsTaken-within, pool_fresh, lane_fresh, request_fits, pool_block_lem,
  watermark-enough,
}
use fpag.ConcurrentArena.Threads.Separate.{pending}
use fpag.ConcurrentArena.Threads.Sound.{
  open_bytes-Grows, open_bytes_lem, IsBlock, IsHeld, IsSound, stage-IsSound, take-IsSound,
  give-IsSound, open-IsSound,
}

module _ (a : ConcurrentArena) (most : ℕ) (small : most ≤ 62) (d : IsDivided a) where
  held :
      (s : Shared) (i : ℕ) (p : Stage)
      → IsSound a most s
      → s.stages i ≡ p
      → IsHeld a most s.size s.cursors s.writable p
  held s i p o e = subst (IsHeld a most s.size s.cursors s.writable) e (o.holds i)

  same :
      (s : Shared) (i : ℕ) (p q : Stage)
      → s.stages i ≡ p
      → pending q ≡ pending p
      → (b : Block) → pending q ≡ some b
      → pending (s.stages i) ≡ some b
  same s i p q e f b g = ap pending e ∙ sym f ∙ g

  fits :
      (s : Shared) (b : Block)
      → IsSound a most s
      → IsBlock a most s.size s.cursors b
      → b.offset + b.size ≤ a.capacity
  fits s b o h = IsTaken-within a d s.size s.cursors b o.counted h.0

  ends : (b : Block) → b.offset + b.size ≤ a.capacity → block_end b ≡ b.offset + b.size
  ends b h = end_lem b (omega (arith, d.capped))

  offset_loaded-IsSound :
      (s : Shared) (i size k : ℕ)
      → IsSound a most s
      → s.stages i ≡ bumping size k
      → IsSound a most (set_stage i (offset_loaded a most size k s.size) s)
  offset_loaded-IsSound s i size k o e =
      let aligned = round_up s.size (2 ^ k) in
      let h = held s i (bumping size k) o e in
      split_if (λ p. IsSound a most (set_stage i p s))
        (ltb a.capacity aligned || ltb (sub64 a.capacity aligned) size)
        (λ t. stage-IsSound a most s i idle o tt (same s i (bumping size k) idle e refl))
        (λ t.
          stage-IsSound a most s i (swapping size k s.size) o (h, t)
            (same s i (bumping size k) (swapping size k s.size) e refl))

  swap-IsSound :
      (s : Shared) (i size k : ℕ)
      → IsSound a most s
      → s.stages i ≡ swapping size k s.size
      → IsSound a most (
          set_stage i
            (committing (pool_block size k s.size))
            (record s { size = block_end (pool_block size k s.size) }))
  swap-IsSound s i size k o e =
      let h = held s i (swapping size k s.size) o e in
      let b = pool_block size k s.size in
      let room : b.offset + b.size ≤ a.capacity = request_fits a d b.offset size h.1 in
      let to : block_end b ≡ b.offset + b.size = ends b room in
      let put = pool_block_lem a d most k s.size small h.0 o.counted.within in
      take-IsSound a most s i (block_end b) s.cursors (committing b) b refl o
        (omega (arith, put.0, to)) (λ l. omega arith)
        (record {
          behind = omega (arith, put.0, to, o.counted.behind);
          within = omega (arith, to);
          after = o.counted.after;
          before = o.counted.before;
        })
        ((in_pool (omega (arith, put.0, o.counted.behind)) (omega (arith, to))), put.1)
        (λ f t. pool_fresh a d s.size s.cursors b f o.counted put.0 t)

  exact-IsSound :
      (s : Shared) (i size align : ℕ)
      → IsSound a most s
      → s.size + size ≤ a.capacity
      → IsSound a most (
          set_stage i
            (checking (record { offset = s.size; size = size; align = align }))
            (record s { size = add64 s.size size }))
  exact-IsSound s i size align o room =
      let b : Block = record { offset = s.size; size = size; align = align } in
      let to : block_end b ≡ s.size + size = ends b room in
      take-IsSound a most s i (add64 s.size size) s.cursors (checking b) b refl o
        (omega (arith, to)) (λ l. omega arith)
        (record {
          behind = omega (arith, to, o.counted.behind);
          within = omega (arith, to);
          after = o.counted.after;
          before = o.counted.before;
        })
        (in_pool o.counted.behind (omega (arith, to)))
        (λ f t. pool_fresh a d s.size s.cursors b f o.counted (omega arith) t)

  moved_up : (c : ℕ → ℕ) (l to m : ℕ) → c l ≤ to → c m ≤ (if m == l then to else c m)
  moved_up c l to m h =
      split_if (λ n. c m ≤ n) (m == l) (λ e. subst (λ n. c n ≤ to) (sym ((==_iff m l).0 e)) h)
        (λ e. omega arith)

  lane-IsSound :
      (s : Shared) (i l size align : ℕ)
      → IsSound a most s
      → l < a.lane_count
      → s.cursors l % align ≡ 0
      → ltb (sub64 (a.lanes l).end (s.cursors l)) size ≡ false
      → IsSound a most (
          set_stage i
            (committing (record { offset = s.cursors l; size = size; align = align }))
            (move_cursor l (add64 (s.cursors l) size) s))
  lane-IsSound s i l size align o inside whole free =
      let b : Block = record { offset = s.cursors l; size = size; align = align } in
      let before = o.counted.before l inside in
      let below = d.below l inside in
      let room : s.cursors l + size ≤ (a.lanes l).end =
        lane_fits (s.cursors l) (a.lanes l).end size before (omega (arith, below, d.pool, d.capped))
          free in
      let to : block_end b ≡ s.cursors l + size = ends b (omega (arith, below, d.pool)) in
      let up = λ (m : ℕ). moved_up s.cursors l (block_end b) m (omega (arith, to)) in
      take-IsSound a most s i s.size (λ m. if m == l then block_end b else s.cursors m)
        (committing b) b refl o (omega arith) up
        (record {
          behind = o.counted.behind;
          within = o.counted.within;
          after = λ m h. omega (arith, up m, o.counted.after m h);
          before = λ m h.
              split_if (λ n. n ≤ (a.lanes m).end) (m == l)
                (λ e.
                  subst (λ n. block_end b ≤ (a.lanes n).end) (sym ((==_iff m l).0 e))
                    (omega (arith, to)))
                (λ e. o.counted.before m h);
        })
        (
          (in_lane l inside (o.counted.after l inside)
              (omega (arith, to, if_true (block_end b) (s.cursors l) ((==_iff l l).1 refl)))),
          whole,
        )
        (λ f t. lane_fresh a d s.size s.cursors l b f o.counted inside refl room t)
    where
      lane_fits :
          (cursor end size : ℕ)
          → cursor ≤ end
          → end < 2 ^ 63
          → ltb (sub64 end cursor) size ≡ false
          → cursor + size ≤ end
      lane_fits cursor end size h k e = ground arith

  checked-IsSound :
      (s : Shared) (i : ℕ) (b : Block)
      → IsSound a most s
      → s.stages i ≡ checking b
      → IsSound a most (set_stage i (checked a most b) s)
  checked-IsSound s i b o e =
      split_if (λ p. IsSound a most (set_stage i p s))
        (not (b.offset % b.align == 0) || ltb (sub64 a.capacity b.offset) b.size)
        (λ t. stage-IsSound a most s i stopped o tt (λ c f. absurd (ground (arith, f))))
        (λ t.
          stage-IsSound a most s i (committing b) o (held s i (checking b) o e, ground (arith, t))
            (same s i (checking b) (committing b) e refl))

  look-IsSound :
      (s : Shared) (i : ℕ) (b : Block)
      → IsSound a most s
      → s.stages i ≡ committing b
      → IsSound a most (watermark_loaded a most i b s)
  look-IsSound s i b o e =
      let h = held s i (committing b) o e in
      let to = ends b (fits s b o h) in
      split_if (IsSound a most) (leb (block_end b) s.committed_size)
        (λ t.
          give-IsSound a most s i b o (ap pending e) h
            (omega (arith, to, leb→le (block_end b) s.committed_size t)))
        (λ t.
          stage-IsSound a most s i (opening b s.committed_size) o h
            (same s i (committing b) (opening b s.committed_size) e refl))

  unlock-IsSound :
      (s : Shared) (i seen : ℕ) (b : Block)
      → IsSound a most s
      → s.stages i ≡ opening b seen
      → IsSound a most (
          set_stage i
            (publishing b seen)
            (record s { writable = open_bytes seen (target a most b) s.writable }))
  unlock-IsSound s i seen b o e =
      let h = held s i (opening b seen) o e in
      let w = open_bytes seen (target a most b) s.writable in
      let t : Shared = record s { writable = w } in
      stage-IsSound a most t i (publishing b seen)
        (open-IsSound a most s w (open_bytes-Grows seen (target a most b) s.writable) o)
        (h, (λ x p q. open_bytes_lem seen (target a most b) s.writable x p q))
        (same s i (opening b seen) (publishing b seen) e refl)

  publish-IsSound :
      (s : Shared) (i : ℕ) (b : Block)
      → IsSound a most s
      → s.stages i ≡ publishing b s.committed_size
      → IsSound a most (give i b (record s { committed_size = target a most b }))
  publish-IsSound s i b o e =
      let h = held s i (publishing b s.committed_size) o e in
      let room = fits s b o h.0 in
      let enough = watermark-enough a d (block_end b) (omega (arith, ends b room)) in
      let t : Shared = record s { committed_size = target a most b } in
      let sound : IsSound a most t = record {
        counted = o.counted;
        opened = λ x l. elim (Bool-cases (ltb x s.committed_size)) [
          | inl p ↦ o.opened x (ground arith)
          | inr p ↦ h.1 x (ground arith) l
        ];
        holds = o.holds;
        separate = o.separate;
        served = o.served;
      } in
      give-IsSound a most t i b sound (ap pending e) h.0 (omega (arith, ends b room, enough))

  pub Advance-IsSound : {s t : Shared} → Advance a most s t → IsSound a most s → IsSound a most t
  Advance-IsSound (begin {s} i size k e le) o =
      stage-IsSound a most s i (bumping size k) o le (same s i idle (bumping size k) e refl)
  Advance-IsSound (load {s} i size k e) o = offset_loaded-IsSound s i size k o e
  Advance-IsSound (swap {s} i size k old e now) o =
      subst
        (λ n. IsSound a most (
          set_stage i (committing (pool_block size k n))
            (record s { size = block_end (pool_block size k n) })))
        now (swap-IsSound s i size k o (e ∙ ap (swapping size k) (sym now)))
  Advance-IsSound (miss {s} i size k old e) o =
      stage-IsSound a most s i (bumping size k) o (held s i (swapping size k old) o e).0
        (same s i (swapping size k old) (bumping size k) e refl)
  Advance-IsSound (take_exact {s} i size align e room) o = exact-IsSound s i size align o room
  Advance-IsSound (check {s} i b e) o = checked-IsSound s i b o e
  Advance-IsSound (take_lane {s} i l size align e inside) o =
      split_if (IsSound a most) (not (s.cursors l % align == 0))
        (λ t. stage-IsSound a most s i stopped o tt (λ c f. absurd (ground (arith, f))))
        (λ w.
          split_if (IsSound a most) (ltb (sub64 (a.lanes l).end (s.cursors l)) size) (λ t. o)
            (λ t. lane-IsSound s i l size align o inside (ground (arith, w)) t))
  Advance-IsSound (look {s} i b e) o = look-IsSound s i b o e
  Advance-IsSound (unlock {s} i seen b e) o = unlock-IsSound s i seen b o e
  Advance-IsSound (fail {s} i seen b e) o =
      stage-IsSound a most s i idle o tt (λ c f. absurd (ground (arith, f)))
  Advance-IsSound (publish {s} i seen b e now) o =
      publish-IsSound s i b o (e ∙ ap (publishing b) (sym now))
  Advance-IsSound (stale {s} i seen b e) o =
      stage-IsSound a most s i (committing b) o (held s i (publishing b seen) o e).0
        (same s i (publishing b seen) (committing b) e refl)
