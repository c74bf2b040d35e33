-- ===== src/Str/Threads/Once.antt =====
-- How often a name is published by the writers of include/fpag/str/intern_table.h.
use fpag.Common.{
  ℕ, ◌≤◌, Text, ltb, ltb→lt, ltb→le, ◌≡◌, ◌≢◌, sym, ap, ◌∙◌, inl, inr, arith, Bool-cases,
}
use fpag.Str.Threads.{Cell, held, holds, System, Reach}
use fpag.Str.Threads.Orderly.{holds-parts, held-apart, way, Passed, IsPlaced, Reach-IsOrderly}

module _ (hash : Text → ℕ) (mask : ℕ) where
  abbrev on_way : Text → ℕ → ℕ
  on_way c n = way hash mask c n

  not_before :
      (cells : ℕ → Cell) (x : ℕ) (c : Text) (a b : ℕ)
      → on_way c a ≡ x
      → cells x ≡ holds c
      → Passed hash mask cells c b
      → b ≤ a
  not_before cells x c a b e h p = elim (Bool-cases (ltb a b)) [
    | inl q ↦
        let other = p a (ltb→lt a b q) in
        absurd (other.2 (holds-parts (sym other.1 ∙ ap cells e ∙ h)))
    | inr q ↦ ltb→le a b q
  ]

  not_before_held :
      (cells : ℕ → Cell) (y : ℕ) (c : Text) (i a b : ℕ)
      → on_way c b ≡ y
      → cells y ≡ held c i
      → Passed hash mask cells c a
      → a ≤ b
  not_before_held cells y c i a b e h p = elim (Bool-cases (ltb b a)) [
    | inl q ↦ let other = p b (ltb→lt b a q) in held-apart (ap cells e ∙ h) other.1
    | inr q ↦ ltb→le b a q
  ]

  one_step :
      (cells : ℕ → Cell) (x y : ℕ) (c : Text) (p : IsPlaced hash mask cells x c)
      (q : IsPlaced hash mask cells y c)
      → p.step ≤ q.step
      → q.step ≤ p.step
      → x ≡ y
  one_step cells x y c p q h k =
      let same : p.step ≡ q.step = omega arith in sym p.slot ∙ ap (on_way c) same ∙ q.slot

  -- Whatever the order in which any number of writers take their steps, two slots never publish the
  -- same name, and while one slot publishes a name no writer claims another slot for it.
  pub Reach-once :
      (s : System)
      → Reach hash mask s
      → (x y i : ℕ) (c : Text) → x ≢ y
      → s.cells x ≡ holds c
      → (s.cells y ≢ holds c) × (s.cells y ≢ held c i)
  Reach-once s r x y i c other h =
      let o = Reach-IsOrderly hash mask r in
      let p = o.publications x c h in
      (
        λ e.
            let q = o.publications y c e in
            let down = not_before s.cells y c q.step p.step q.slot e p.passed in
            let up = not_before s.cells x c p.step q.step p.slot h q.passed in
            other (one_step s.cells x y c p q down up),
        λ e.
            let q = o.claims y c i e in
            let down = not_before_held s.cells y c i p.step q.step q.slot e p.passed in
            let up = not_before s.cells x c p.step q.step p.slot h q.passed in
            other (one_step s.cells x y c p q down up),
      )
