-- ===== src/Str/Threads/Orderly.antt =====
-- The slots and the writers of include/fpag/str/intern_table.h, at every moment.
use mathlib.Core.Path.{subst}
use fpag.Common.{
  ℕ, suc, ◌<◌, Bool, true, false, Text, if◌then◌else◌, ◌==◌, ==_iff, ltb, same_text, same_text_iff,
  ◌≡◌, ◌≢◌, refl, sym, ap, ◌∙◌, inl, inr, arith, Bool-cases, split_if, if_true, if_false,
}
use fpag.Str.Threads.{
  Cell, vacant, held, holds, Phase, idle, walking, facing, holding, lacking, System, new_system,
  set_phase, set_cell, slot_at, onward, seen_cell, Action, begin, load, claim, lose, retry, store,
  give_up, Reach, at_start, act,
}

vacant-apart : {A : Type 0} {c : Cell} {d : Text} → c ≡ vacant → c ≡ holds d → A
vacant-apart e f = absurd (ground (arith, e, f))

pub held-apart : {A : Type 0} {x : Cell} {c d : Text} {i : ℕ} → x ≡ held c i → x ≡ holds d → A
held-apart e f = absurd (ground (arith, e, f))

pub holds-parts : {c d : Text} → holds c ≡ holds d → c ≡ d
holds-parts e = ground (arith, e)

held-parts : {c d : Text} {i j : ℕ} → held c i ≡ held d j → (c ≡ d) × (i ≡ j)
held-parts e = ground (arith, e)

holds-held : {A : Type 0} {c d : Text} {i : ℕ} → holds c ≡ held d i → A
holds-held e = absurd (ground (arith, e))

vacant-held : {A : Type 0} {x : Cell} {d : Text} {i : ℕ} → x ≡ vacant → x ≡ held d i → A
vacant-held e f = absurd (ground (arith, e, f))

abbrev with_cell : ℕ → Cell → (ℕ → Cell) → ℕ → Cell
with_cell x c cells y = if y == x then c else cells y

module _ (hash : Text → ℕ) (mask : ℕ) where
  abbrev pub way : Text → ℕ → ℕ
  way c n = slot_at hash mask c n

  -- Another name stands in each slot before the step.
  abbrev pub Passed : (ℕ → Cell) → Text → ℕ → Type 0
  Passed cells c n = (k : ℕ) → k < n → (d : Text) × (cells (way c k) ≡ holds d) × (d ≢ c)

  abbrev pub IsSteady : (ℕ → Cell) → ℕ → Phase → Type 0
  IsSteady cells i idle = Unit
  IsSteady cells i (walking c n true) = Unit
  IsSteady cells i (walking c n false) = Passed cells c n
  IsSteady cells i (facing c n true) = Unit
  IsSteady cells i (facing c n false) = Passed cells c n
  IsSteady cells i (holding c n) = cells (way c n) ≡ held c i
  IsSteady cells i lacking = Unit

  -- The slot was the first free one on the way of its name.
  pub record IsPlaced (cells : ℕ → Cell) (x : ℕ) (c : Text) : Type 0 where
    pub step : ℕ
    pub slot : way c step ≡ x
    pub passed : Passed cells c step

  pub record IsOrderly (s : System) : Type 0 where
    pub writers : (i : ℕ) → IsSteady s.cells i (s.phases i)
    pub publications : (x : ℕ) (c : Text) → s.cells x ≡ holds c → IsPlaced s.cells x c
    pub claims : (x : ℕ) (c : Text) (i : ℕ) → s.cells x ≡ held c i → IsPlaced s.cells x c

  -- What is published stays published.
  abbrev Keeps : (ℕ → Cell) → (ℕ → Cell) → Type 0
  Keeps s t = (x : ℕ) (c : Text) → s x ≡ holds c → t x ≡ holds c

  Keeps-Passed : (s t : ℕ → Cell) (c : Text) (n : ℕ) → Keeps s t → Passed s c n → Passed t c n
  Keeps-Passed s t c n keeps p = λ k l. let h = p k l in (h.0, keeps (way c k) h.0 h.1, h.2)

  Keeps-IsPlaced : (s t : ℕ → Cell) (x : ℕ) (c : Text) → Keeps s t → IsPlaced s x c → IsPlaced t x c
  Keeps-IsPlaced s t x c keeps p = record {
    step = p.step;
    slot = p.slot;
    passed = Keeps-Passed s t c p.step keeps p.passed;
  }

  Keeps-IsSteady :
      (s t : ℕ → Cell) (i : ℕ) (p : Phase)
      → Keeps s t
      → ((x : ℕ) (c : Text) → s x ≡ held c i → t x ≡ held c i)
      → IsSteady s i p
      → IsSteady t i p
  Keeps-IsSteady s t i idle k h w = tt
  Keeps-IsSteady s t i (walking c n true) k h w = tt
  Keeps-IsSteady s t i (walking c n false) k h w = Keeps-Passed s t c n k w
  Keeps-IsSteady s t i (facing c n true) k h w = tt
  Keeps-IsSteady s t i (facing c n false) k h w = Keeps-Passed s t c n k w
  Keeps-IsSteady s t i (holding c n) k h w = h (way c n) c w
  Keeps-IsSteady s t i lacking k h w = tt

  set_phase-writers :
      (cells : ℕ → Cell) (phases : ℕ → Phase) (i : ℕ) (p : Phase)
      → IsSteady cells i p
      → ((j : ℕ) → j ≢ i → IsSteady cells j (phases j))
      → (j : ℕ) → IsSteady cells j (if j == i then p else phases j)
  set_phase-writers cells phases i p h rest j =
      split_if (IsSteady cells j) (j == i)
        (λ e. subst (λ n. IsSteady cells n p) (sym ((==_iff j i).0 e)) h)
        (λ e. rest j (λ q. absurd (ground (arith, e, (==_iff j i).1 q))))

  set_phase-IsOrderly :
      (s : System) (i : ℕ) (p : Phase)
      → IsOrderly s
      → IsSteady s.cells i p
      → IsOrderly (set_phase i p s)
  set_phase-IsOrderly s i p o h = record {
    writers = set_phase-writers s.cells s.phases i p h (λ j q. o.writers j);
    publications = o.publications;
    claims = o.claims;
  }

  onward-IsSteady :
      (cells : ℕ → Cell) (i : ℕ) (c : Text) (n : ℕ) (seen : Bool)
      → IsSteady cells i (walking c (suc n) seen)
      → IsSteady cells i (onward hash mask c n seen)
  onward-IsSteady cells i c n seen h = split_if (IsSteady cells i) (ltb n mask) (λ e. h) (λ e. tt)

  Passed-suc :
      (cells : ℕ → Cell) (c d : Text) (n : ℕ)
      → Passed cells c n
      → cells (way c n) ≡ holds d
      → d ≢ c
      → Passed cells c (suc n)
  Passed-suc cells c d n p e h = λ k l. elim (Bool-cases (k == n)) [
    | inl q ↦ (d, ap (λ m. cells (way c m)) ((==_iff k n).0 q) ∙ e, h)
    | inr q ↦ p k (ground arith)
  ]

  seen_cell-IsSteady :
      (cells : ℕ → Cell) (i : ℕ) (c : Text) (n : ℕ) (seen : Bool) (x : Cell)
      → cells (way c n) ≡ x
      → IsSteady cells i (walking c n seen)
      → IsSteady cells i (seen_cell hash mask c n seen x)
  unfolding seen_cell
  seen_cell-IsSteady cells i c n true vacant e w = tt
  seen_cell-IsSteady cells i c n false vacant e w = w
  seen_cell-IsSteady cells i c n seen (held d j) e w = onward-IsSteady cells i c n true tt
  seen_cell-IsSteady cells i c n true (holds d) e w =
      split_if (IsSteady cells i) (same_text d c) (λ h. tt)
        (λ h. onward-IsSteady cells i c n true tt)
  seen_cell-IsSteady cells i c n false (holds d) e w =
      split_if (IsSteady cells i) (same_text d c) (λ h. tt)
        (λ h.
          let other : d ≢ c = λ q. absurd (ground (arith, h, (same_text_iff d c).1 q)) in
          onward-IsSteady cells i c n false (Passed-suc cells c d n w e other))

  -- A change of a cell that was not published.
  with_cell-Keeps :
      (cells : ℕ → Cell) (x : ℕ) (c : Cell)
      → ((d : Text) → cells x ≢ holds d)
      → Keeps cells (with_cell x c cells)
  with_cell-Keeps cells x c h y d e = elim (Bool-cases (y == x)) [
    | inl q ↦ absurd (h d (sym (ap cells ((==_iff y x).0 q)) ∙ e))
    | inr q ↦ if_false _ _ q ∙ e
  ]

  claim-IsOrderly :
      (s : System) (i : ℕ) (c : Text) (n : ℕ)
      → IsOrderly s
      → Passed s.cells c n
      → s.cells (way c n) ≡ vacant
      → IsOrderly (set_cell (way c n) (held c i) (set_phase i (holding c n) s))
  claim-IsOrderly s i c n o p free =
      let x = way c n in
      let cells = with_cell x (held c i) s.cells in
      let keeps = with_cell-Keeps s.cells x (held c i) (λ d e. vacant-apart free e) in
      let kept : (j y : ℕ) (d : Text) → s.cells y ≡ held d j → cells y ≡ held d j = λ j y d e.
        elim (Bool-cases (y == x)) [
          | inl q ↦ vacant-held free (sym (ap s.cells ((==_iff y x).0 q)) ∙ e)
          | inr q ↦ if_false _ _ q ∙ e
        ] in
      record {
        writers =
            set_phase-writers cells s.phases i (holding c n) (if_true _ _ ((==_iff x x).1 refl))
              (λ j q. Keeps-IsSteady s.cells cells j (s.phases j) keeps (kept j) (o.writers j));
        publications = λ y d e. elim (Bool-cases (y == x)) [
          | inl q ↦ holds-held (sym e ∙ if_true _ _ q)
          | inr q ↦
              Keeps-IsPlaced s.cells cells y d keeps (o.publications y d (sym (if_false _ _ q) ∙ e))
        ];
        claims = λ y d j e. elim (Bool-cases (y == x)) [
          | inl q ↦
              let same = (held-parts (sym (if_true _ _ q) ∙ e)).0 in
              let here : IsPlaced cells y c = record {
                step = n;
                slot = sym ((==_iff y x).0 q);
                passed = Keeps-Passed s.cells cells c n keeps p;
              } in
              subst (IsPlaced cells y) same here
          | inr q ↦
              Keeps-IsPlaced s.cells cells y d keeps (o.claims y d j (sym (if_false _ _ q) ∙ e))
        ];
      }

  store-IsOrderly :
      (s : System) (i : ℕ) (c : Text) (n : ℕ)
      → IsOrderly s
      → s.cells (way c n) ≡ held c i
      → IsOrderly (set_cell (way c n) (holds c) (set_phase i idle s))
  store-IsOrderly s i c n o mine =
      let x = way c n in
      let cells = with_cell x (holds c) s.cells in
      let keeps = with_cell-Keeps s.cells x (holds c) (λ d e. held-apart mine e) in
      let kept : (j : ℕ) → j ≢ i → (y : ℕ) (d : Text) → s.cells y ≡ held d j → cells y ≡ held d j =
        λ j other y d e. elim (Bool-cases (y == x)) [
          | inl q ↦
              let both = sym mine ∙ sym (ap s.cells ((==_iff y x).0 q)) ∙ e in
              absurd (other (sym (held-parts both).1))
          | inr q ↦ if_false _ _ q ∙ e
        ] in
      record {
        writers =
            set_phase-writers cells s.phases i idle tt
              (λ j q. Keeps-IsSteady s.cells cells j (s.phases j) keeps (kept j q) (o.writers j));
        publications = λ y d e. elim (Bool-cases (y == x)) [
          | inl q ↦
              let same = holds-parts (sym (if_true _ _ q) ∙ e) in
              let was = o.claims y c i (ap s.cells ((==_iff y x).0 q) ∙ mine) in
              subst (IsPlaced cells y) same (Keeps-IsPlaced s.cells cells y c keeps was)
          | inr q ↦
              Keeps-IsPlaced s.cells cells y d keeps (o.publications y d (sym (if_false _ _ q) ∙ e))
        ];
        claims = λ y d j e. elim (Bool-cases (y == x)) [
          | inl q ↦ holds-held (sym (if_true _ _ q) ∙ e)
          | inr q ↦
              Keeps-IsPlaced s.cells cells y d keeps (o.claims y d j (sym (if_false _ _ q) ∙ e))
        ];
      }

  Action-IsOrderly : {s t : System} → Action hash mask s t → IsOrderly s → IsOrderly t
  Action-IsOrderly (begin {s} i c e) o =
      set_phase-IsOrderly s i (walking c 0 false) o (λ k l. absurd (omega arith))
  Action-IsOrderly (load {s} i c n seen e) o =
      let w = subst (IsSteady s.cells i) e (o.writers i) in
      let p = seen_cell hash mask c n seen (s.cells (way c n)) in
      set_phase-IsOrderly s i p o (seen_cell-IsSteady s.cells i c n seen (s.cells (way c n)) refl w)
  Action-IsOrderly (claim {s} i c n e free) o =
      claim-IsOrderly s i c n o (subst (IsSteady s.cells i) e (o.writers i)) free
  Action-IsOrderly (lose {s} i c n e taken) o =
      set_phase-IsOrderly s i (walking c 0 false) o (λ k l. absurd (omega arith))
  Action-IsOrderly (retry {s} i c n e) o =
      set_phase-IsOrderly s i (walking c 0 false) o (λ k l. absurd (omega arith))
  Action-IsOrderly (store {s} i c n e) o =
      store-IsOrderly s i c n o (subst (IsSteady s.cells i) e (o.writers i))
  Action-IsOrderly (give_up {s} i e) o = set_phase-IsOrderly s i idle o tt

  new_system-IsOrderly : IsOrderly new_system
  new_system-IsOrderly = record {
    writers = λ i. tt;
    publications = λ x c e. absurd (ground (arith, e));
    claims = λ x c i e. absurd (ground (arith, e));
  }

  pub Reach-IsOrderly : {s : System} → Reach hash mask s → IsOrderly s
  Reach-IsOrderly at_start = new_system-IsOrderly
  Reach-IsOrderly (act r a) = Action-IsOrderly a (Reach-IsOrderly r)
