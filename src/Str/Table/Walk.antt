-- ===== src/Str/Table/Walk.antt =====
-- The walk of `lookup` in include/fpag/str/intern_table.h, and what a publication changes in it.
use fpag.Common.{ℕ, zero, suc, Bool, true, false, ◌&&◌, Text}
use fpag.Common.{
  ◌==◌, ==_iff, ◌≡◌, refl, sym, ap, ◌∙◌, ◌⊎◌, inl, inr, arith, Bool-cases, if_true, if_false,
}
use mathlib.Core.Path.{subst}
use fpag.Str.Pool.{StringPool, get_name}
use fpag.Str.Table.{
  Slot, empty, claimed, published, Region, Probe, holds_name, next_index, walk, set_slot,
}
use fpag.Str.Table.Names.{holds_name_iff}

abbrev pub free_at : ℕ → Bool → Probe
free_at index seen = record { id = 0; index = index; found = false; blocked = seen; full = false }

abbrev pub found_at : ℕ → ℕ → Probe
found_at index id = record { id = id; index = index; found = true; blocked = false; full = false }

-- Whether a published slot holds the name.
abbrev pub hits : StringPool → ℕ → Text → ℕ → ℕ → Bool
hits p fingerprint content f id = f == fingerprint && holds_name p id content

pub Slot-cases :
    (s : Slot) → (s ≡ empty) ⊎ ((s ≡ claimed) ⊎ ((f : ℕ) × (id : ℕ) × (s ≡ published f id)))
Slot-cases empty = inl refl
Slot-cases claimed = inr (inl refl)
Slot-cases (published f id) = inr (inr (f, id, refl))

pub empty-claimed : {A : Type 0} {s : Slot} → s ≡ empty → s ≡ claimed → A
empty-claimed e f = absurd (ground (arith, e, f))

pub empty-published : {A : Type 0} {s : Slot} {f id : ℕ} → s ≡ empty → s ≡ published f id → A
empty-published e f = absurd (ground (arith, e, f))

module _ (p : StringPool) (r : Region) (mask fingerprint : ℕ) (content : Text) where
  abbrev steps : ℕ → ℕ → Bool → Probe
  steps n index seen = walk n p r mask fingerprint content index seen

  pub walk_empty :
      (n index : ℕ) (seen : Bool) → r index ≡ empty → steps (suc n) index seen ≡ free_at index seen
  unfolding walk
  walk_empty n index seen e = rw (e, walk) refl

  pub walk_claimed :
      (n index : ℕ) (seen : Bool)
      → r index ≡ claimed
      → steps (suc n) index seen ≡ steps n (next_index mask index) true
  unfolding walk
  walk_claimed n index seen e = rw (e, walk) refl

  pub walk_hit :
      (n index f id : ℕ) (seen : Bool)
      → r index ≡ published f id
      → hits p fingerprint content f id ≡ true
      → steps (suc n) index seen ≡ found_at index id
  unfolding walk
  walk_hit n index f id seen e h = rw (e, walk) (rw (h, walk) refl)

  pub walk_miss :
      (n index f id : ℕ) (seen : Bool)
      → r index ≡ published f id
      → hits p fingerprint content f id ≡ false
      → steps (suc n) index seen ≡ steps n (next_index mask index) seen
  unfolding walk
  walk_miss n index f id seen e h = rw (e, walk) (rw (h, walk) refl)

  abbrev IsFree : Probe → Type 0
  IsFree q = q.found ≡ false → q.full ≡ false → r q.index ≡ empty

  -- The slot where a walk ends without the name is free.
  pub walk-IsFree : (n index : ℕ) (seen : Bool) → IsFree (steps n index seen)
  unfolding walk
  walk-IsFree zero index seen = λ a b. absurd (ground (arith, b))
  walk-IsFree (suc n) index seen =
      let on = next_index mask index in
      elim (Slot-cases (r index)) [
        | inl e ↦ subst IsFree (sym (walk_empty n index seen e)) (λ a b. e)
        | inr (inl e) ↦ subst IsFree (sym (walk_claimed n index seen e)) (walk-IsFree n on true)
        | inr (inr (f, id, e)) ↦ elim (Bool-cases (hits p fingerprint content f id)) [
          | inl h ↦
              subst IsFree (sym (walk_hit n index f id seen e h))
                (λ a b. absurd (ground (arith, a)))
          | inr h ↦ subst IsFree (sym (walk_miss n index f id seen e h)) (walk-IsFree n on seen)
        ]
      ]

  abbrev IsRight : Probe → Type 0
  IsRight q = q.found ≡ true → get_name p q.id ≡ content

  -- The entry that a walk finds holds the name.
  pub walk-IsRight : (n index : ℕ) (seen : Bool) → IsRight (steps n index seen)
  unfolding walk
  walk-IsRight zero index seen = λ a. absurd (ground (arith, a))
  walk-IsRight (suc n) index seen =
      let on = next_index mask index in
      elim (Slot-cases (r index)) [
        | inl e ↦ subst IsRight (sym (walk_empty n index seen e)) (λ a. absurd (ground (arith, a)))
        | inr (inl e) ↦ subst IsRight (sym (walk_claimed n index seen e)) (walk-IsRight n on true)
        | inr (inr (f, id, e)) ↦ elim (Bool-cases (hits p fingerprint content f id)) [
          | inl h ↦
              let held : holds_name p id content ≡ true = ground (arith, h) in
              subst IsRight (sym (walk_hit n index f id seen e h))
                (λ a. (holds_name_iff p id content).0 held)
          | inr h ↦ subst IsRight (sym (walk_miss n index f id seen e h)) (walk-IsRight n on seen)
        ]
      ]

holds_name-same :
    (p p' : StringPool) (id : ℕ) (content : Text)
    → get_name p' id ≡ get_name p id
    → holds_name p' id content ≡ holds_name p id content
holds_name-same p p' id content e =
    let old = holds_name_iff p id content in
    let new = holds_name_iff p' id content in
    elim (Bool-cases (holds_name p id content)) [
      | inl h ↦ new.1 (e ∙ old.0 h) ∙ sym h
      | inr h ↦ elim (Bool-cases (holds_name p' id content)) [
        | inl k ↦ absurd (ground (arith, h, old.1 (sym e ∙ new.0 k)))
        | inr k ↦ k ∙ sym h
      ]
    ]

-- A name published in a free slot, over a pool in which the published names read as before.
module _ (p p' : StringPool) (r : Region) (mask j f' id' : ℕ) (free : r j ≡ empty)
    (same : (i f id : ℕ) → r i ≡ published f id → get_name p' id ≡ get_name p id) where
  abbrev with_name : Region
  with_name = set_slot j (published f' id') r

  with_name_other : (i : ℕ) (s : Slot) → r i ≡ s → (s ≡ empty → ⊥) → with_name i ≡ s
  with_name_other i s e h = elim (Bool-cases (i == j)) [
    | inl k ↦ absurd (h (sym e ∙ ap r ((==_iff i j).0 k) ∙ free))
    | inr k ↦ if_false _ _ k ∙ e
  ]

  with_name_claimed : (i : ℕ) → r i ≡ claimed → with_name i ≡ claimed
  with_name_claimed i e = with_name_other i claimed e (λ k. absurd (ground (arith, k)))

  with_name_published : (i f id : ℕ) → r i ≡ published f id → with_name i ≡ published f id
  with_name_published i f id e =
      with_name_other i (published f id) e (λ k. absurd (ground (arith, k)))

  hits-same :
      (fp : ℕ) (content : Text) (i f id : ℕ)
      → r i ≡ published f id
      → hits p' fp content f id ≡ hits p fp content f id
  hits-same fp content i f id e =
      ap (λ b. f == fp && b) (holds_name-same p p' id content (same i f id e))

  abbrev old_walk : ℕ → Text → ℕ → ℕ → Bool → Probe
  old_walk fp content n index seen = walk n p r mask fp content index seen

  abbrev new_walk : ℕ → Text → ℕ → ℕ → Bool → Probe
  new_walk fp content n index seen = walk n p' with_name mask fp content index seen

  new_claimed :
      (fp : ℕ) (content : Text) (n index : ℕ) (seen : Bool)
      → r index ≡ claimed
      → new_walk fp content (suc n) index seen ≡ new_walk fp content n (next_index mask index) true
  new_claimed fp content n index seen e =
      walk_claimed p' with_name mask fp content n index seen (with_name_claimed index e)

  new_hit :
      (fp : ℕ) (content : Text) (n index f id : ℕ) (seen : Bool)
      → r index ≡ published f id
      → hits p fp content f id ≡ true
      → new_walk fp content (suc n) index seen ≡ found_at index id
  new_hit fp content n index f id seen e h =
      walk_hit p' with_name mask fp content n index f id seen (with_name_published index f id e)
        (hits-same fp content index f id e ∙ h)

  new_miss :
      (fp : ℕ) (content : Text) (n index f id : ℕ) (seen : Bool)
      → r index ≡ published f id
      → hits p fp content f id ≡ false
      → new_walk fp content (suc n) index seen ≡ new_walk fp content n (next_index mask index) seen
  new_miss fp content n index f id seen e h =
      walk_miss p' with_name mask fp content n index f id seen (with_name_published index f id e)
        (hits-same fp content index f id e ∙ h)

  abbrev IsKept : Probe → Probe → Type 0
  IsKept new old = old.found ≡ true → new ≡ old

  -- A walk that finds its name finds it as before.
  pub walk-IsKept :
      (fp : ℕ) (content : Text) (n index : ℕ) (seen : Bool)
      → IsKept (new_walk fp content n index seen) (old_walk fp content n index seen)
  unfolding walk
  walk-IsKept fp content zero index seen = λ a. refl
  walk-IsKept fp content (suc n) index seen =
      let kept : Probe → Type 0 = IsKept (new_walk fp content (suc n) index seen) in
      let on = next_index mask index in
      elim (Slot-cases (r index)) [
        | inl e ↦
            subst kept (sym (walk_empty p r mask fp content n index seen e))
              (λ a. absurd (ground (arith, a)))
        | inr (inl e) ↦
            subst kept (sym (walk_claimed p r mask fp content n index seen e))
              (λ a. new_claimed fp content n index seen e ∙ walk-IsKept fp content n on true a)
        | inr (inr (f, id, e)) ↦ elim (Bool-cases (hits p fp content f id)) [
          | inl h ↦
              subst kept (sym (walk_hit p r mask fp content n index f id seen e h))
                (λ a. new_hit fp content n index f id seen e h)
          | inr h ↦
              subst kept (sym (walk_miss p r mask fp content n index f id seen e h)) (λ a.
                new_miss fp content n index f id seen e h ∙ walk-IsKept fp content n on seen a)
        ]
      ]

  here :
      (content : Text) (stored : get_name p' id' ≡ content) (n index : ℕ) (seen : Bool)
      → index ≡ j
      → new_walk f' content (suc n) index seen ≡ found_at j id'
  here content stored n index seen e =
      let held : holds_name p' id' content ≡ true = (holds_name_iff p' id' content).1 stored in
      let at_slot : with_name index ≡ published f' id' = if_true _ _ ((==_iff index j).1 e) in
      let hit : hits p' f' content f' id' ≡ true = ground (arith, held, (==_iff f' f').1 refl) in
      walk_hit p' with_name mask f' content n index f' id' seen at_slot hit
      ∙ ap (λ (i : ℕ). found_at i id') e

  abbrev IsPlaced : Probe → Probe → Type 0
  IsPlaced new old = old.found ≡ false → old.full ≡ false → old.index ≡ j → new ≡ found_at j id'

  -- A walk that ended in the slot finds the name there.
  pub walk-IsPlaced :
      (content : Text) (stored : get_name p' id' ≡ content) (n index : ℕ) (seen : Bool)
      → IsPlaced (new_walk f' content n index seen) (old_walk f' content n index seen)
  unfolding walk
  walk-IsPlaced content stored zero index seen = λ a b c. absurd (ground (arith, b))
  walk-IsPlaced content stored (suc n) index seen =
      let placed : Probe → Type 0 = IsPlaced (new_walk f' content (suc n) index seen) in
      let on = next_index mask index in
      elim (Slot-cases (r index)) [
        | inl e ↦
            subst placed (sym (walk_empty p r mask f' content n index seen e))
              (λ a b c. here content stored n index seen c)
        | inr (inl e) ↦
            subst placed (sym (walk_claimed p r mask f' content n index seen e)) (λ a b c.
              new_claimed f' content n index seen e ∙ walk-IsPlaced content stored n on true a b c)
        | inr (inr (f, id, e)) ↦ elim (Bool-cases (hits p f' content f id)) [
          | inl h ↦
              subst placed (sym (walk_hit p r mask f' content n index f id seen e h))
                (λ a b c. absurd (ground (arith, a)))
          | inr h ↦
              subst placed (sym (walk_miss p r mask f' content n index f id seen e h)) (λ a b c.
                new_miss f' content n index f id seen e h
                ∙ walk-IsPlaced content stored n on seen a b c)
        ]
      ]
