-- ===== src/Str/Table/Intern.antt =====
-- Interning a name: `try_intern` and `find` of include/fpag/str/intern_table.h.
use mathlib.Core.Path.{subst}
use fpag.Common.{ℕ, suc, ◌%◌, ◌^◌, Bool, true, false, Option, none, some, Text, inl, inr}
use fpag.Common.{
  ◌==◌, ◌≡◌, refl, sym, ap, ◌∙◌, arith, Bool-cases, split_if, if_true, if_false, bit_and, add64,
}
use fpag.Str.Pool.{StringPool, get_name, append}
use fpag.Str.Pool.Names.{IsPool, IsHeld, IsAppend, IsAppended, append-IsAppend}
use fpag.Str.Table.{
  empty, published, Region, InternTable, Probe, Turn, interned, no_slot, wait, stopped, publish,
  set_slot, lookup, answer, find, turn_on, try_intern, mask_of, fingerprint_of,
}
use fpag.Str.Table.Walk.{walk-IsFree, walk-IsRight, walk-IsKept, walk-IsPlaced, found_at}

-- Every published entry names what the pool holds.
pub record IsTable (t : InternTable) : Type 0 where
  pub pool : IsPool t.pool
  pub entries : (i f id : ℕ) → t.region i ≡ published f id → IsHeld t.pool id

pub some-injective : {n k : ℕ} → some n ≡ some k → n ≡ k
some-injective e = ground (arith, e)

published-parts : {f id g k : ℕ} → published f id ≡ published g k → (f ≡ g) × (id ≡ k)
published-parts e = ground (arith, e)

set_slot-IsHeld :
    (r : Region) (p p' : StringPool) (index fp id : ℕ)
    → IsHeld p' id
    → ((i f k : ℕ) → r i ≡ published f k → IsHeld p' k)
    → (i f k : ℕ) → set_slot index (published fp id) r i ≡ published f k
    → IsHeld p' k
set_slot-IsHeld r p p' index fp id h rest i f k e = elim (Bool-cases (i == index)) [
  | inl c ↦ subst (IsHeld p') (published-parts (sym (if_true _ _ c) ∙ e)).1 h
  | inr c ↦ rest i f k (sym (if_false (published fp id) _ c) ∙ e)
]

module _ (hash : Text → ℕ) where
  -- What a name that has been interned comes with: the pool has it under the id, a search and a
  -- second interning answer the id, and every other name is found and reads as before.
  pub record IsInterned (t : InternTable) (content : Text) (id : ℕ) (t' : InternTable)
      : Type 0 where
    pub table : IsTable t'
    pub stored : get_name t'.pool id ≡ content
    pub finds : find hash t' content ≡ some id
    pub again : (b : Bool) → try_intern hash b content t' ≡ interned id t'
    pub keeps : (c : Text) (k : ℕ) → find hash t c ≡ some k → find hash t' c ≡ some k
    pub names : (k : ℕ) → IsHeld t.pool k → get_name t'.pool k ≡ get_name t.pool k

  abbrev pub IsIntern : InternTable → Text → Turn → Type 0
  IsIntern t content (interned id t') = IsInterned t content id t'
  IsIntern t content no_slot = find hash t content ≡ none
  IsIntern t content wait = find hash t content ≡ none
  IsIntern t content stopped = find hash t content ≡ none

  answer_found : (q : Probe) (k : ℕ) → answer hash q ≡ some k → q.found ≡ true
  answer_found q k e = elim (Bool-cases q.found) [
    | inl h ↦ h
    | inr h ↦ absurd (ground (arith, sym (if_false (some q.id) none h) ∙ e))
  ]

  found-IsInterned :
      (t : InternTable) (content : Text)
      → IsTable t
      → (lookup hash t content).found ≡ true
      → IsInterned t content (lookup hash t content).id t
  unfolding find try_intern lookup
  found-IsInterned t content i h = record {
    table = i;
    stored =
        walk-IsRight t.pool t.region (mask_of t) (fingerprint_of (hash content)) content
          (suc (mask_of t)) (bit_and (hash content % 2 ^ 32) (mask_of t)) false h;
    finds = if_true _ _ h;
    again = λ b. if_true _ _ h;
    keeps = λ c k e. e;
    names = λ k e. refl;
  }

  abbrev placed : InternTable → Text → ℕ → StringPool → InternTable
  placed t content id p = record t {
    pool = p;
    region =
        set_slot (lookup hash t content).index (published (fingerprint_of (hash content)) id)
          t.region;
    count = add64 t.count 1;
  }

  lookup_free :
      (t : InternTable) (content : Text)
      → (lookup hash t content).found ≡ false
      → (lookup hash t content).full ≡ false
      → t.region (lookup hash t content).index ≡ empty
  unfolding lookup
  lookup_free t content a b =
      walk-IsFree t.pool t.region (mask_of t) (fingerprint_of (hash content)) content
        (suc (mask_of t)) (bit_and (hash content % 2 ^ 32) (mask_of t)) false a b

  module _ (t : InternTable) (content : Text) (id : ℕ) (p : StringPool) (i : IsTable t)
      (new : IsAppended t.pool content id p) (absent : (lookup hash t content).found ≡ false)
      (room : (lookup hash t content).full ≡ false) where
    same-names : (k f n : ℕ) → t.region k ≡ published f n → get_name p n ≡ get_name t.pool n
    same-names k f n e = (new.keeps n (i.entries k f n e)).1

    lookup-placed :
        lookup hash (placed t content id p) content ≡ found_at (lookup hash t content).index id
    unfolding lookup
    lookup-placed =
        walk-IsPlaced t.pool p t.region (mask_of t) (lookup hash t content).index
          (fingerprint_of (hash content)) id (lookup_free t content absent room) same-names content
          new.stored (suc (mask_of t)) (bit_and (hash content % 2 ^ 32) (mask_of t)) false absent
          room refl

    lookup-kept :
        (c : Text)
        → (lookup hash t c).found ≡ true
        → lookup hash (placed t content id p) c ≡ lookup hash t c
    unfolding lookup
    lookup-kept c h =
        walk-IsKept t.pool p t.region (mask_of t) (lookup hash t content).index
          (fingerprint_of (hash content)) id (lookup_free t content absent room) same-names
          (fingerprint_of (hash c)) c (suc (mask_of t)) (bit_and (hash c % 2 ^ 32) (mask_of t))
          false h

    placed-IsInterned : IsInterned t content id (placed t content id p)
    unfolding find try_intern
    placed-IsInterned = record {
      table = record {
        pool = new.pool;
        entries =
            set_slot-IsHeld t.region t.pool p (lookup hash t content).index
              (fingerprint_of (hash content)) id new.held
              (λ k f n e. (new.keeps n (i.entries k f n e)).0);
      };
      stored = new.stored;
      finds = ap (answer hash) lookup-placed;
      again = λ b. ap (turn_on hash b content (placed t content id p)) lookup-placed;
      keeps = λ c k e. ap (answer hash) (lookup-kept c (answer_found (lookup hash t c) k e)) ∙ e;
      names = λ k h. (new.keeps k h).1;
    }

  publish-IsIntern :
      (t : InternTable) (content : Text) (r : Option (ℕ × StringPool))
      → IsTable t
      → IsAppend t.pool content r
      → (lookup hash t content).found ≡ false
      → (lookup hash t content).full ≡ false
      → IsIntern t content
          (publish (lookup hash t content).index (fingerprint_of (hash content)) t r)
  unfolding find
  publish-IsIntern t content none i a h k = if_false _ _ h
  publish-IsIntern t content (some (id, p)) i a h k = placed-IsInterned t content id p i a h k

  -- In a well-formed table a turn of `try_intern` that answers an id leaves a well-formed table in
  -- which the id reads as the name, a search and a second interning answer the same id, every name
  -- that was found is found under its id, and everything that the pool held reads as before. A turn
  -- that answers no id is for a name that no search finds.
  pub try_intern-IsIntern :
      (commits : Bool) (content : Text) (t : InternTable)
      → IsTable t
      → IsIntern t content (try_intern hash commits content t)
  unfolding try_intern find
  try_intern-IsIntern commits content t i =
      let q = lookup hash t content in
      split_if (IsIntern t content) q.found (λ h. found-IsInterned t content i h)
        (λ h.
          split_if (IsIntern t content) q.full (λ k. if_false _ _ h)
            (λ k.
              split_if (IsIntern t content) q.blocked (λ b. if_false _ _ h)
                (λ b.
                  publish-IsIntern t content (append commits content t.pool) i
                    (append-IsAppend commits content t.pool i.pool) h k)))

  -- An id that a search answers reads as the name.
  pub find-get_name :
      (t : InternTable) (c : Text) (id : ℕ) → find hash t c ≡ some id → get_name t.pool id ≡ c
  unfolding find lookup
  find-get_name t c id e =
      let q = lookup hash t c in
      let h = answer_found q id e in
      let same : q.id ≡ id = some-injective (sym (if_true _ _ h) ∙ e) in
      let right =
        walk-IsRight t.pool t.region (mask_of t) (fingerprint_of (hash c)) c (suc (mask_of t))
          (bit_and (hash c % 2 ^ 32) (mask_of t)) false h in
      ap (get_name t.pool) (sym same) ∙ right
