-- ===== src/Str/Table/Bounds.antt =====
-- The slots that a walk of include/fpag/str/intern_table.h looks at.
use native.Mathlib.Nat.{mod-eq_of_lt, mod-lt, mod_self, mul-le-mul_left}
use mathlib.Core.Path.{subst}
use fpag.Common.{
  ℕ, zero, suc, ◌+◌, ◌-◌, ◌%◌, ◌^◌, ◌≤◌, ◌<◌, Bool, true, false, Text, ltb, if◌then◌else◌, ◌≡◌,
  refl, sym, ap, ◌∙◌, inl, inr, arith, Bool-cases, bit_and, split_if,
}
use fpag.Common.Bits.{bit_and_mask, two_pow_pos, two_pow_add}
use fpag.Str.Pool.{StringPool}
use fpag.Str.Table.{Region, InternTable, Probe, lookup, mask_of, fingerprint_of, walk, next_index}
use fpag.Str.Table.Walk.{Slot-cases, walk_empty, walk_claimed, walk_hit, walk_miss, hits}

-- The slot behind another in a ring of N.
abbrev pub behind : ℕ → ℕ → ℕ
behind N index = if ltb (suc index) N then suc index else 0

pow_below : (k : ℕ) → k ≤ 30 → 2 ^ k ≤ 2 ^ 30
pow_below k h =
    let split : k + (30 - k) ≡ 30 = omega arith in
    let whole = sym (two_pow_add k (30 - k)) ∙ ap (λ n. 2 ^ n) split in
    omega (arith, whole, mul-le-mul_left (2 ^ k) (two_pow_pos (30 - k)))

pub next_index-behind :
    (k index : ℕ) → k ≤ 30 → index < 2 ^ k → next_index (2 ^ k - 1) index ≡ behind (2 ^ k) index
next_index-behind k index h b =
    let small = pow_below k h in
    let low : (index + 1) % 2 ^ 32 ≡ index + 1 = omega arith in
    ap (λ n. bit_and n (2 ^ k - 1)) low
    ∙ bit_and_mask k (index + 1)
    ∙ split_if (λ (n : ℕ). (index + 1) % 2 ^ k ≡ n) (ltb (suc index) (2 ^ k))
        (λ e. mod-eq_of_lt (ground arith) ∙ omega arith)
        (λ e.
          let whole : index + 1 ≡ 2 ^ k = ground arith in
          ap (λ n. n % 2 ^ k) whole ∙ mod_self (2 ^ k))

pub behind_lt : (N index : ℕ) → 0 < N → behind N index < N
behind_lt N index h = ground arith

module _ (p : StringPool) (k fingerprint : ℕ) (content : Text) (small : k ≤ 30) where
  abbrev steps : Region → ℕ → ℕ → Bool → Probe
  steps r n index seen = walk n p r (2 ^ k - 1) fingerprint content index seen

  abbrev IsLike : Region → Region → Type 0
  IsLike r r' = (i : ℕ) → i < 2 ^ k → r' i ≡ r i

  abbrev pub next_of : ℕ → ℕ
  next_of index = next_index (2 ^ k - 1) index

  pub next_of_lt : (index : ℕ) → index < 2 ^ k → next_of index < 2 ^ k
  next_of_lt index h =
      subst (λ n. n < 2 ^ k) (sym (next_index-behind k index small h))
        (behind_lt (2 ^ k) index (two_pow_pos k))

  -- A walk looks at no slot outside the table, and stays inside it.
  walk-inside :
      (r r' : Region)
      → IsLike r r'
      → (n index : ℕ) (seen : Bool) → index < 2 ^ k
      → (steps r' n index seen ≡ steps r n index seen) × ((steps r n index seen).index < 2 ^ k)
  unfolding walk
  walk-inside r r' like zero index seen h = (refl, h)
  walk-inside r r' like (suc n) index seen h =
      let on = next_of_lt index h in
      let mask = 2 ^ k - 1 in
      elim (Slot-cases (r index)) [
        | inl e ↦
            let w = walk_empty p r mask fingerprint content n index seen e in
            let w' = walk_empty p r' mask fingerprint content n index seen (like index h ∙ e) in
            (w' ∙ sym w, subst (λ (q : Probe). q.index < 2 ^ k) (sym w) h)
        | inr (inl e) ↦
            let w = walk_claimed p r mask fingerprint content n index seen e in
            let w' = walk_claimed p r' mask fingerprint content n index seen (like index h ∙ e) in
            let rest = walk-inside r r' like n (next_of index) true on in
            (w' ∙ rest.0 ∙ sym w, subst (λ (q : Probe). q.index < 2 ^ k) (sym w) rest.1)
        | inr (inr (f, id, e)) ↦ elim (Bool-cases (hits p fingerprint content f id)) [
          | inl c ↦
              let w = walk_hit p r mask fingerprint content n index f id seen e c in
              let w' =
                walk_hit p r' mask fingerprint content n index f id seen (like index h ∙ e) c in
              (w' ∙ sym w, subst (λ (q : Probe). q.index < 2 ^ k) (sym w) h)
          | inr c ↦
              let w = walk_miss p r mask fingerprint content n index f id seen e c in
              let w' =
                walk_miss p r' mask fingerprint content n index f id seen (like index h ∙ e) c in
              let rest = walk-inside r r' like n (next_of index) seen on in
              (w' ∙ rest.0 ∙ sym w, subst (λ (q : Probe). q.index < 2 ^ k) (sym w) rest.1)
        ]
      ]

-- The slot at which a walk begins.
abbrev pub start_of : ℕ → ℕ → ℕ
start_of k hash = bit_and (hash % 2 ^ 32) (2 ^ k - 1)

pub start_of_lt : (k hash : ℕ) → start_of k hash < 2 ^ k
start_of_lt k hash =
    subst (λ n. n < 2 ^ k) (sym (bit_and_mask k (hash % 2 ^ 32)))
      (mod-lt (hash % 2 ^ 32) (two_pow_pos k))

module _ (hash : Text → ℕ) (k : ℕ) (small : k ≤ 30) where
  abbrev pub lookup_in : StringPool → Region → Text → Probe
  lookup_in p r c =
      walk (2 ^ k) p r (2 ^ k - 1) (fingerprint_of (hash c)) c (start_of k (hash c)) false

  pub lookup_lem :
      (t : InternTable) (c : Text) → t.slots ≡ 2 ^ k → lookup hash t c ≡ lookup_in t.pool t.region c
  unfolding lookup
  lookup_lem t c e =
      let mask : mask_of t ≡ 2 ^ k - 1 = omega (arith, e, pow_below k small, two_pow_pos k) in
      let size : suc (2 ^ k - 1) ≡ 2 ^ k = omega (arith, two_pow_pos k) in
      ap
        (λ (m : ℕ).
          walk (suc m) t.pool t.region m (fingerprint_of (hash c)) c (bit_and (hash c % 2 ^ 32) m)
            false)
        mask
      ∙ ap
          (λ (n : ℕ).
            walk n t.pool t.region (2 ^ k - 1) (fingerprint_of (hash c)) c (start_of k (hash c))
              false)
          size

  -- In a table whose slots are a power of two, 2 ^ 30 at most, `lookup` depends on no slot outside
  -- the table, and the slot that it answers is inside.
  pub lookup_inside :
      (t : InternTable) (r : Region) (c : Text)
      → t.slots ≡ 2 ^ k
      → ((i : ℕ) → i < 2 ^ k → r i ≡ t.region i)
      → (lookup hash (record t { region = r }) c ≡ lookup hash t c)
        × ((lookup hash t c).index < t.slots)
  lookup_inside t r c e like =
      let fp = fingerprint_of (hash c) in
      let at = start_of k (hash c) in
      let inside =
        walk-inside t.pool k fp c small t.region r like (2 ^ k) at false (start_of_lt k (hash c)) in
      let old = lookup_lem t c e in
      (
        lookup_lem (record t { region = r }) c e ∙ inside.0 ∙ sym old,
        subst (λ (q : Probe). q.index < t.slots) (sym old) (omega (arith, inside.1, e)),
      )
