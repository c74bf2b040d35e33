-- ===== src/ConcurrentArena/Lanes.antt =====
-- The slices that `set_lanes` of src/mem/concurrent_arena.cc cuts.
use mathlib.Core.Path.{subst}
use native.Mathlib.Nat.{
  le-div_iff_mul-le, div-mul-le_self, mul-mod_left, mul-le-mul_left, mul-le-mul_right, mod-eq_of_lt,
  div-add-mod', mul-div_cancel, mul-zero, zero-div, zero-mul, mod-lt,
}
use fpag.Common.{
  ℕ, suc, ◌+◌, ◌-◌, ◌*◌, ◌/◌, ◌%◌, ◌^◌, ◌≤◌, ◌<◌, ◌≡◌, refl, sym, ap, ◌∙◌, arith, Option, none,
  some, false, Bool, ◌||◌, ◌&&◌, not, ◌==◌, if◌then◌else◌, ltb, word_size, mul64, add64, sub64,
  split_if,
}
use fpag.ConcurrentArena.{
  ConcurrentArena, slice_end, slice, pool_room, lane_room, with_lanes, set_lanes,
}

-- Nothing is handed out, and the lanes stand one behind the other below the pool.
pub record IsDivided (a : ConcurrentArena) : Type 0 where
  pub capped : a.capacity < 2 ^ 63
  pub pool : a.pool_begin ≤ a.capacity
  pub fresh : a.size ≡ a.pool_begin
  pub starts : (l : ℕ) → l < a.lane_count → (a.lanes l).cursor ≡ (a.lanes l).begin
  pub slices : (l : ℕ) → l < a.lane_count → (a.lanes l).begin ≤ (a.lanes l).end
  pub below : (l : ℕ) → l < a.lane_count → (a.lanes l).end ≤ a.pool_begin
  pub ordered : (l m : ℕ) → l < m → m < a.lane_count → (a.lanes l).end ≤ (a.lanes m).begin

-- The bytes that a pool can have of those that it is asked for.
abbrev pub granted : ℕ → ℕ → ℕ
granted capacity pool_bytes = if ltb capacity pool_bytes then capacity else pool_bytes

-- The lanes leave no byte below the pool, and each is a whole number of units. From where the pool
-- begins the region has the whole units of so many bytes, and not one unit more.
pub record IsCutOn (unit bytes : ℕ) (a : ConcurrentArena) : Type 0 where
  pub first : (a.lanes 0).begin ≡ 0
  pub next : (l : ℕ) → suc l < a.lane_count → (a.lanes l).end ≡ (a.lanes (suc l)).begin
  pub last : (l : ℕ) → suc l ≡ a.lane_count → (a.lanes l).end ≡ a.pool_begin
  pub begins : (l : ℕ) → l < a.lane_count → (a.lanes l).begin % unit ≡ 0
  pub ends : (l : ℕ) → l < a.lane_count → (a.lanes l).end % unit ≡ 0
  pub left : a.pool_begin + bytes / unit * unit ≤ a.capacity
  pub tight : a.capacity < a.pool_begin + bytes / unit * unit + unit

div_mono : (x y k : ℕ) → 0 < k → x ≤ y → x / k ≤ y / k
div_mono x y k p h = (le-div_iff_mul-le p).1 (omega (arith, div-mul-le_self x k))

-- An end of a slice where no product wraps.
share : ℕ → ℕ → ℕ → ℕ → ℕ
share room n unit i = room * i / n / unit * unit

module _ (n unit : ℕ) (n_pos : 0 < n) (unit_pos : 0 < unit) where
  share_mono : (room i j : ℕ) → i ≤ j → share room n unit i ≤ share room n unit j
  unfolding share
  share_mono room i j h = mul-le-mul_right unit (
      div_mono (room * i / n) (room * j / n) unit unit_pos
        (div_mono (room * i) (room * j) n n_pos (mul-le-mul_left room h)))

  share-whole : (room i : ℕ) → share room n unit i % unit ≡ 0
  unfolding share
  share-whole room i = mul-mod_left (room * i / n / unit) unit

  share-all : (room : ℕ) → room % unit ≡ 0 → share room n unit n ≡ room
  unfolding share
  share-all room h = ap (λ t. t / unit * unit) (mul-div_cancel room n_pos) ∙ exact
    where
      exact : room / unit * unit ≡ room
      exact = omega (arith, h, div-add-mod' room unit)

  share-none : (room : ℕ) → share room n unit 0 ≡ 0
  unfolding share
  share-none room =
      ap (λ t. t / n / unit * unit) (mul-zero room)
      ∙ ap (λ t. t / unit * unit) (zero-div n)
      ∙ ap (λ t. t * unit) (zero-div unit)
      ∙ zero-mul unit

  share-le : (room i : ℕ) → room % unit ≡ 0 → i ≤ n → share room n unit i ≤ room
  share-le room i whole h = omega (arith, share_mono room i n h, share-all room whole)

  slice_end_lem :
      (room i : ℕ)
      → room < 2 ^ 63
      → room % unit ≡ 0
      → room * n < word_size
      → i ≤ n
      → slice_end room n unit i ≡ share room n unit i
  unfolding share
  slice_end_lem room i small whole fits h =
      let product : mul64 room i ≡ room * i =
        mod-eq_of_lt (omega (arith, mul-le-mul_left room h)) in
      ap (λ t. mul64 (t / n / unit) unit) product
      ∙ mod-eq_of_lt (omega (arith, share-le room i whole h))

  module _ (room : ℕ) (small : room < 2 ^ 63) (whole : room % unit ≡ 0)
      (fits : room * n < word_size) (few : n < word_size) where
    begin_lem : (l : ℕ) → l < n → (slice room n unit l).begin ≡ share room n unit l
    begin_lem l h = slice_end_lem room l small whole fits (omega arith)

    end_lem : (l : ℕ) → l < n → (slice room n unit l).end ≡ share room n unit (suc l)
    end_lem l h =
        let from = slice_end_lem room l small whole fits (omega arith) in
        let one : add64 l 1 ≡ suc l = omega arith in
        let to : slice_end room n unit (add64 l 1) ≡ share room n unit (suc l) =
          ap (slice_end room n unit) one
          ∙ slice_end_lem room (suc l) small whole fits (omega arith) in
        let up = share_mono room l (suc l) (omega arith) in
        split_if (λ t. t ≡ share room n unit (suc l))
          (ltb (slice_end room n unit l) (slice_end room n unit (add64 l 1))) (λ e. to)
          (λ e. ground (arith, e, from, to, up))

    module _ (a : ConcurrentArena) where
      abbrev laned : ConcurrentArena
      laned = with_lanes n unit room a

      laned-IsDivided : a.capacity < 2 ^ 63 → room ≤ a.capacity → IsDivided laned
      laned-IsDivided capped le = record {
        capped = capped;
        pool = le;
        fresh = refl;
        starts = λ l h. refl;
        slices = λ l h.
            omega (arith, begin_lem l h, end_lem l h, share_mono room l (suc l) (omega arith));
        below = λ l h. omega (arith, end_lem l h, share-le room (suc l) whole (omega arith));
        ordered = λ l m h k. omega (
          arith,
          end_lem l (omega arith),
          begin_lem m k,
          share_mono room (suc l) m (omega arith),
        );
      }

      laned-IsCutOn :
          (bytes : ℕ)
          → room + bytes / unit * unit ≤ a.capacity
          → a.capacity < room + bytes / unit * unit + unit
          → IsCutOn unit bytes laned
      laned-IsCutOn bytes h k = record {
        first = begin_lem 0 n_pos ∙ share-none room;
        next = λ l k. end_lem l (omega arith) ∙ sym (begin_lem (suc l) k);
        last = λ l e. end_lem l (omega arith) ∙ ap (share room n unit) e ∙ share-all room whole;
        begins = λ l k. ap (λ t. t % unit) (begin_lem l k) ∙ share-whole room l;
        ends = λ l k. ap (λ t. t % unit) (end_lem l k) ∙ share-whole room (suc l);
        left = h;
        tight = k;
      }

-- What is left of the capacity below the pool.
rooms :
    (capacity unit pool_bytes : ℕ)
    → capacity < 2 ^ 63
    → 0 < unit
    → let units = granted capacity pool_bytes / unit * unit in
      (lane_room capacity unit pool_bytes % unit ≡ 0)
      × (lane_room capacity unit pool_bytes + units ≤ capacity)
      × (capacity < lane_room capacity unit pool_bytes + units + unit)
rooms capacity unit pool_bytes h positive =
    let asked = granted capacity pool_bytes in
    let pool : pool_room capacity unit pool_bytes ≡ asked / unit * unit =
      mod-eq_of_lt (ground (arith, div-mul-le_self asked unit)) in
    let left = sub64 capacity (pool_room capacity unit pool_bytes) in
    let left_lem : left ≡ capacity - asked / unit * unit =
      ground (arith, pool, div-mul-le_self asked unit) in
    let room : lane_room capacity unit pool_bytes ≡ left / unit * unit =
      mod-eq_of_lt (ground (arith, left_lem, div-mul-le_self left unit)) in
    (
      ap (λ t. t % unit) room ∙ mul-mod_left (left / unit) unit,
      ground (arith, room, pool, left_lem, div-mul-le_self left unit, div-mul-le_self asked unit),
      ground (arith, room, left_lem, short left, div-mul-le_self asked unit),
    )
  where
    short : (x : ℕ) → x < x / unit * unit + unit
    short x = omega (arith, div-add-mod' x unit, mod-lt x positive)

-- `set_lanes` on an arena below 2 ^ 63 bytes, whose capacity times the number of lanes does not wrap,
-- and which passes its checks, cuts lanes one behind the other that leave no byte below the pool: each
-- begins and ends on a multiple of the unit, nothing is handed out, and the bytes above the lanes are
-- the whole units of the pool that was asked for, or of the capacity if that is less, and fewer than
-- one unit more.
pub set_lanes-IsDivided :
    (n unit pool_bytes : ℕ) (a b : ConcurrentArena)
    → a.capacity < 2 ^ 63
    → a.capacity * n < word_size
    → n < word_size
    → set_lanes n unit pool_bytes a ≡ some b
    → IsDivided b × IsCutOn unit (granted a.capacity pool_bytes) b
unfolding set_lanes
set_lanes-IsDivided n unit pool_bytes a b capped fits few =
    let room = lane_room a.capacity unit pool_bytes in
    let bytes = granted a.capacity pool_bytes in
    let P = λ (o : Option ConcurrentArena). o ≡ some b → IsDivided b × IsCutOn unit bytes b in
    split_if P
      ((not (a.lane_count == 0) || not (a.pool_begin == 0 && a.size == 0)) || (n == 0 || unit == 0))
      (λ e f. absurd (ground (arith, f)))
      (λ e f.
        let counts : (n == 0 || unit == 0) ≡ false =
          second (not (a.lane_count == 0) || not (a.pool_begin == 0 && a.size == 0))
            (n == 0 || unit == 0) e in
        let n_pos : 0 < n = pos_left n unit counts in
        let unit_pos : 0 < unit = pos_right n unit counts in
        let r = rooms a.capacity unit pool_bytes capped unit_pos in
        let le = le_sum room (bytes / unit * unit) a.capacity r.1 in
        let inside : room * n < word_size = omega (arith, mul-le-mul_right n le) in
        let small : room < 2 ^ 63 = omega (arith, le) in
        subst (λ c. IsDivided c × IsCutOn unit bytes c) (some-parts f)
          (
            laned-IsDivided n unit n_pos unit_pos room small r.0 inside few a capped le,
            laned-IsCutOn n unit n_pos unit_pos room small r.0 inside few a bytes r.1 r.2,
          ))
  where
    second : (x y : Bool) → (x || y) ≡ false → y ≡ false
    second x y e = ground (arith, e)

    pos_left : (x y : ℕ) → (x == 0 || y == 0) ≡ false → 0 < x
    pos_left x y e = ground (arith, e)

    pos_right : (x y : ℕ) → (x == 0 || y == 0) ≡ false → 0 < y
    pos_right x y e = ground (arith, e)

    le_sum : (x y z : ℕ) → x + y ≤ z → x ≤ z
    le_sum x y z h = omega arith

    some-parts : {x y : ConcurrentArena} → some x ≡ some y → x ≡ y
    some-parts {x} e = ap (λ o. elim o [ none ↦ x | some z ↦ z ]) e
