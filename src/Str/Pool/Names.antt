-- ===== src/Str/Pool/Names.antt =====
-- The names of a pool: src/str/string_pool.cc.
use fpag.Common.{ℕ, ◌+◌, ◌-◌, ◌%◌, ◌^◌, ◌≤◌, ◌<◌, Bool, ◌||◌, not, ◌==◌, Option, none, some}
use fpag.Common.{[], ◌∷◌, Text, ltb, length, ◌≡◌, refl, ap, ◌∙◌, arith, split_if}
use fpag.MathUtil.{round_up}
use fpag.Str.Memory.{
  Memory, write, read, read_word, word_bytes, write-below, read-write, read-same, read_word-same,
  read_word-write,
}
use fpag.ConcurrentArena.{ConcurrentArena, bump}
use fpag.Str.Pool.{
  reset_pool, stored_empty, reserve_empty_name, new_pool, reserved_arena, StringPool, append,
  appended_at, store_name, length_at, get_name,
}
use fpag.Str.Pool.Blocks.{IsRoomy, IsCut, IsBump, bump-IsBump}

-- The pool keeps the empty name at its beginning.
pub record IsPool (p : StringPool) : Type 0 where
  pub roomy : IsRoomy p.arena
  pub begun : 4 ≤ p.arena.size
  pub empty : read_word 0 p.memory ≡ 0

-- The name's length and bytes stand in what the arena has cut.
pub record IsHeld (p : StringPool) (id : ℕ) : Type 0 where
  pub prefixed : 4 ≤ id
  pub inside : id + length_at p id ≤ p.arena.size

-- The name that the pool has stored, and those that it held before.
pub record IsAppended (p : StringPool) (t : Text) (id : ℕ) (p' : StringPool) : Type 0 where
  pub pool : IsPool p'
  pub held : IsHeld p' id
  pub stored : get_name p' id ≡ t
  pub keeps : (i : ℕ) → IsHeld p i → IsHeld p' i × (get_name p' i ≡ get_name p i)

abbrev pub IsAppend : StringPool → Text → Option (ℕ × StringPool) → Type 0
IsAppend p t none = Unit
IsAppend p t (some (id, p')) = IsAppended p t id p'

stored_memory : Text → ℕ → Memory → Memory
stored_memory t at m = write (at + 4) t (write at (word_bytes (length t % 2 ^ 32)) m)

store-below : (t : Text) (at : ℕ) (m : Memory) (i : ℕ) → i < at → stored_memory t at m i ≡ m i
unfolding stored_memory
store-below t at m i h =
    let w = word_bytes (length t % 2 ^ 32) in
    write-below (at + 4) t (write at w m) i (omega arith) ∙ write-below at w m i h

store-length :
    (t : Text) (at : ℕ) (m : Memory)
    → length t < 2 ^ 32
    → read_word at (stored_memory t at m) ≡ length t
unfolding stored_memory
store-length t at m h =
    let n = length t % 2 ^ 32 in
    read_word-same at (stored_memory t at m) (write at (word_bytes n) m)
      (λ i a b. write-below (at + 4) t (write at (word_bytes n) m) i b)
    ∙ read_word-write at n m (omega arith)
    ∙ omega arith

store-keeps :
    (p : StringPool) (a : ConcurrentArena) (t : Text) (at i : ℕ)
    → p.arena.size ≤ at
    → at ≤ a.size
    → IsHeld p i
    → IsHeld (store_name t at (record p { arena = a })) i
      × (get_name (store_name t at (record p { arena = a })) i ≡ get_name p i)
unfolding length_at get_name stored_memory
store-keeps p a t at i h k held =
    let m = p.memory in
    let m' = stored_memory t at m in
    let inside : i + read_word (i - 4) m ≤ p.arena.size = held.inside in
    let len : read_word (i - 4) m' ≡ read_word (i - 4) m =
      read_word-same (i - 4) m' m
        (λ j a b. store-below t at m j (omega (arith, inside, held.prefixed))) in
    (
      record { prefixed = held.prefixed; inside = omega (arith, inside, len) },
      ap (λ n. read i n m') len
          ∙ read-same i (read_word (i - 4) m) m' m
              (λ j a b. store-below t at m j (omega (arith, inside))),
    )

store-length_at :
    (p : StringPool) (t : Text) (at : ℕ)
    → length t < 2 ^ 32
    → length_at (store_name t at p) (at + 4) ≡ length t
unfolding length_at stored_memory
store-length_at p t at h =
    let back : at + 4 - 4 ≡ at = omega arith in
    ap (λ i. read_word i (stored_memory t at p.memory)) back ∙ store-length t at p.memory h

store-get_name :
    (p : StringPool) (t : Text) (at : ℕ)
    → length t < 2 ^ 32
    → get_name (store_name t at p) (at + 4) ≡ t
unfolding get_name
store-get_name p t at h =
    let w = word_bytes (length t % 2 ^ 32) in
    ap (λ n. read (at + 4) n (store_name t at p).memory) (store-length_at p t at h)
    ∙ read-write (at + 4) t (write at w p.memory)

-- The name at a block that the arena has cut.
store-IsAppended :
    (p : StringPool) (t : Text) (at : ℕ) (a : ConcurrentArena)
    → IsPool p
    → IsCut p.arena (4 + length t) at a
    → IsAppended p t ((at + 4) % 2 ^ 32) (store_name t at (record p { arena = a }))
unfolding stored_memory
store-IsAppended p t at a i c =
    let q : StringPool = record p { arena = a } in
    let short : length t < 2 ^ 32 = omega (arith, c.ends, c.roomy.within, c.roomy.capped) in
    let same : (at + 4) % 2 ^ 32 ≡ at + 4 = omega (arith, c.ends, c.roomy.within, c.roomy.capped) in
    let len = store-length_at q t at short in
    rw same (record {
      pool = record {
        roomy = c.roomy;
        begun = omega (arith, c.ends, c.behind, i.begun);
        empty =
            read_word-same 0 (stored_memory t at p.memory) p.memory
              (λ j a b. store-below t at p.memory j (omega (arith, c.behind, i.begun)))
            ∙ i.empty;
      };
      held = record { prefixed = omega arith; inside = omega (arith, len, c.ends) };
      stored = store-get_name q t at short;
      keeps = λ k h. store-keeps p a t at k c.behind (omega (arith, c.ends)) h;
    })

appended-IsAppend :
    (p : StringPool) (t : Text) (r : Option ℕ × ConcurrentArena)
    → IsPool p
    → IsBump p.arena (4 + length t) r
    → IsAppend p t (appended_at t p r)
appended-IsAppend p t (none, a) i c = tt
appended-IsAppend p t (some at, a) i c = store-IsAppended p t at a i c

empty-length_at : (p : StringPool) → IsPool p → length_at p 4 ≡ 0
unfolding length_at
empty-length_at p i = i.empty

empty-get_name : (p : StringPool) → IsPool p → get_name p 4 ≡ []
unfolding get_name read
empty-get_name p i = ap (λ n. read 4 n p.memory) (empty-length_at p i)

-- In a pool that is well formed, a name that `append` has room for is read back under the id that
-- it answers, the pool stays well formed, and every name that it held is read back as before.
pub append-IsAppend :
    (commits : Bool) (t : Text) (p : StringPool) → IsPool p → IsAppend p t (append commits t p)
unfolding append
append-IsAppend commits [] p i = record {
  pool = i;
  held = record { prefixed = omega arith; inside = omega (arith, empty-length_at p i, i.begun) };
  stored = empty-get_name p i;
  keeps = λ k h. (h, refl);
}
append-IsAppend commits (c ∷ t) p i =
    appended-IsAppend p (c ∷ t) (bump commits (4 + length (c ∷ t)) 4 p.arena) i
      (bump-IsBump commits (4 + length (c ∷ t)) p.arena i.roomy)

abbrev pub IsNew : Option StringPool → Type 0
IsNew none = Unit
IsNew (some p) = IsPool p

-- The first block of an arena stands at its beginning.
abbrev IsFirst : ConcurrentArena → Option ℕ × ConcurrentArena → Type 0
IsFirst a (none, a') = Unit
IsFirst a (some at, a') = (at ≡ 0) × IsCut a 4 at a'

stored_empty-IsPool :
    (p : StringPool) (r : Option ℕ × ConcurrentArena)
    → p.arena.size ≡ 0
    → IsFirst p.arena r
    → IsNew (stored_empty p r)
stored_empty-IsPool p (none, a) e b = tt
stored_empty-IsPool p (some at, a) e b = record {
  roomy = b.1.roomy;
  begun = omega (arith, b.1.ends);
  empty = rw b.0 (read_word-write 0 0 p.memory (omega arith));
}

IsBump-IsFirst :
    (a : ConcurrentArena) (r : Option ℕ × ConcurrentArena) → a.size ≡ 0 → IsBump a 4 r → IsFirst a r
unfolding round_up
IsBump-IsFirst a (none, a') e b = tt
IsBump-IsFirst a (some at, a') e b = (b.exact ∙ ap (λ v. round_up v 4) e, b)

fresh-IsNew :
    (commits : Bool) (p : StringPool)
    → IsRoomy p.arena
    → p.arena.size ≡ 0
    → IsNew (reserve_empty_name commits p)
unfolding reserve_empty_name
fresh-IsNew commits p r e =
    stored_empty-IsPool p (bump commits 4 4 p.arena) e
      (IsBump-IsFirst p.arena (bump commits 4 4 p.arena) e (bump-IsBump commits 4 p.arena r))

-- Where no check stops the program, the constructor leaves a pool that is well formed, and `reset`
-- does of every pool whose capacity fits a u32.
pub new_pool-IsNew :
    (page_size : ℕ) (commits : Bool) (capacity : ℕ) (p : StringPool)
    → p.capacity < 2 ^ 32
    → IsNew (new_pool page_size commits capacity) × IsNew (reset_pool commits p)
unfolding new_pool reset_pool
new_pool-IsNew page_size commits capacity p h =
    let q : StringPool = record {
      memory = λ i. 0;
      arena = reserved_arena capacity;
      totals = 0;
      capacity = capacity;
    } in
    let again : StringPool = record p {
      memory = λ i. 0;
      arena = reserved_arena p.capacity;
      totals = 0;
    } in
    (
      split_if IsNew
          ((capacity == 0 || ltb (2 ^ 32 - 1) capacity) || not (capacity % page_size == 0))
          (λ e. tt)
          (λ e.
            fresh-IsNew commits q (record { within = omega arith; capped = ground arith }) refl),
      fresh-IsNew commits again (record { within = omega arith; capped = h }) refl,
    )
