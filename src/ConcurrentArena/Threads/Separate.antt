-- ===== src/ConcurrentArena/Threads/Separate.antt =====
-- The blocks that the threads of src/mem/concurrent_arena.cc hold and were given, against each other.
use fpag.Common.{
  ℕ, ◌≢◌, ◌≡◌, ◌⊎◌, inl, inr, sym, ap, ◌∙◌, arith, Option, none, some, All, List, [], ◌∷◌,
  if◌then◌else◌, ◌==◌, ==_iff, Bool-cases, if_true, if_false,
}
use mathlib.Core.Path.{subst}
use fpag.ConcurrentArena.Threads.{
  Block, Stage, idle, stopped, bumping, swapping, checking, committing, opening, publishing,
}
use fpag.ConcurrentArena.Threads.Blocks.{Apart, Apart-sym}

-- The block that a thread has cut and was not given yet.
abbrev pub pending : Stage → Option Block
pending idle = none
pending stopped = none
pending (bumping n k) = none
pending (swapping n k old) = none
pending (checking b) = some b
pending (committing b) = some b
pending (opening b seen) = some b
pending (publishing b seen) = some b

abbrev pub with_stage : ℕ → Stage → (ℕ → Stage) → ℕ → Stage
with_stage i p stages j = if j == i then p else stages j

-- Each block is apart from those that follow it.
abbrev pub IsApart : List Block → Type 0
IsApart [] = Unit
IsApart (b ∷ bs) = All (Apart b) bs × IsApart bs

pub record IsSeparate (given : List Block) (stages : ℕ → Stage) : Type 0 where
  pub among : IsApart given
  pub waiting : (i : ℕ) (b : Block) → pending (stages i) ≡ some b → All (Apart b) given
  pub pairs :
      (i j : ℕ) (b c : Block)
      → i ≢ j
      → pending (stages i) ≡ some b
      → pending (stages j) ≡ some c
      → Apart b c

pub some-parts : {b c : Block} → some b ≡ some c → b ≡ c
some-parts {b} e = ap (λ o. elim o [ none ↦ b | some x ↦ x ]) e

-- Whose block it is.
holder :
    (i j : ℕ) (p : Stage) (stages : ℕ → Stage) (b : Block)
    → pending (with_stage i p stages j) ≡ some b
    → ((j ≡ i) × (pending p ≡ some b)) ⊎ ((j ≢ i) × (pending (stages j) ≡ some b))
holder i j p stages b e = elim (Bool-cases (j == i)) [
  | inl q ↦ inl ((==_iff j i).0 q, sym (ap pending (if_true p (stages j) q)) ∙ e)
  | inr q ↦ inr (
    (λ same. absurd (ground (arith, q, (==_iff j i).1 same))),
    sym (ap pending (if_false p (stages j) q)) ∙ e,
  )
]

-- The thread holds what it held, or nothing.
pub keep-IsSeparate :
    (given : List Block) (stages : ℕ → Stage) (i : ℕ) (p : Stage)
    → IsSeparate given stages
    → ((b : Block) → pending p ≡ some b → pending (stages i) ≡ some b)
    → IsSeparate given (with_stage i p stages)
keep-IsSeparate given stages i p s keep =
    let held : (j : ℕ) (b : Block)
        → pending (with_stage i p stages j) ≡ some b
        → pending (stages j) ≡ some b =
      λ j b e. elim (holder i j p stages b e) [
        | inl h ↦ ap (λ n. pending (stages n)) h.0 ∙ keep b h.1
        | inr h ↦ h.1
      ] in
    record {
      among = s.among;
      waiting = λ j b e. s.waiting j b (held j b e);
      pairs = λ j k b c d e f. s.pairs j k b c d (held j b e) (held k c f);
    }

-- The thread has cut a block that is apart from all others.
pub take-IsSeparate :
    (given : List Block) (stages : ℕ → Stage) (i : ℕ) (p : Stage) (b : Block)
    → pending p ≡ some b
    → IsSeparate given stages
    → All (Apart b) given
    → ((j : ℕ) (c : Block) → pending (stages j) ≡ some c → Apart b c)
    → IsSeparate given (with_stage i p stages)
take-IsSeparate given stages i p b cut s free others =
    let own : (c : Block) → some b ≡ some c → All (Apart c) given =
      λ c e. subst (λ x. All (Apart x) given) (some-parts e) free in
    record {
      among = s.among;
      waiting = λ j c e. elim (holder i j p stages c e) [
        | inl h ↦ own c (sym cut ∙ h.1)
        | inr h ↦ s.waiting j c h.1
      ];
      pairs = λ j k c d other e f. elim (holder i j p stages c e) [
        | inl h ↦ elim (holder i k p stages d f) [
          | inl h' ↦ absurd (other (h.0 ∙ sym h'.0))
          | inr h' ↦ subst (λ x. Apart x d) (some-parts (sym cut ∙ h.1)) (others k d h'.1)
        ]
        | inr h ↦ elim (holder i k p stages d f) [
          | inl h' ↦
              Apart-sym d c (subst (λ x. Apart x c) (some-parts (sym cut ∙ h'.1)) (others j c h.1))
          | inr h' ↦ s.pairs j k c d other h.1 h'.1
        ]
      ];
    }

-- The thread is given the block that it held.
pub give-IsSeparate :
    (given : List Block) (stages : ℕ → Stage) (i : ℕ) (b : Block)
    → IsSeparate given stages
    → pending (stages i) ≡ some b
    → IsSeparate (b ∷ given) (with_stage i idle stages)
give-IsSeparate given stages i b s e =
    let rest : (j : ℕ) (c : Block)
        → pending (with_stage i idle stages j) ≡ some c
        → (j ≢ i) × (pending (stages j) ≡ some c) =
      λ j c f. elim (holder i j idle stages c f) [
        | inl h ↦ absurd (ground (arith, h.1))
        | inr h ↦ h
      ] in
    record {
      among = (s.waiting i b e, s.among);
      waiting = λ j c f. let h = rest j c f in (s.pairs j i c b h.0 h.1 e, s.waiting j c h.1);
      pairs = λ j k c d other f g. s.pairs j k c d other (rest j c f).1 (rest k d g).1;
    }
