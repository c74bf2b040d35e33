-- ===== src/Str/Threads.antt =====
-- Several writers in the loop of `try_intern` of include/fpag/str/intern_table.h, one atomic access
-- to a control byte at a time. A published slot stands by the name that its entry holds in the pool,
-- and a claimed one by the name and the writer that it is claimed for.
pub mod Orderly
pub mod Once
use fpag.Common.{
  ℕ, zero, suc, ◌%◌, ◌^◌, Bool, true, false, Text, if◌then◌else◌, ◌==◌, bit_and, same_text, ltb,
  ◌≡◌, ◌≢◌, ◌⊎◌,
}
use fpag.Str.Table.{next_index}

pub data Cell : Type 0 where
  vacant : Cell
  held : Text → ℕ → Cell
  holds : Text → Cell

-- Where a writer is: between calls, at a step of its walk with the flag `claimed`, behind a walk that
-- met an empty slot, at its append, or at an answer. `lacking` is behind a walk with no empty slot.
pub data Phase : Type 0 where
  idle : Phase
  walking : Text → ℕ → Bool → Phase
  facing : Text → ℕ → Bool → Phase
  holding : Text → ℕ → Phase
  lacking : Phase

pub record System : Type 0 where
  pub cells : ℕ → Cell
  pub phases : ℕ → Phase

abbrev pub new_system : System
new_system = record { cells = λ x. vacant; phases = λ i. idle }

abbrev pub set_phase : ℕ → Phase → System → System
set_phase i p s = record s { phases = λ j. if j == i then p else s.phases j }

abbrev pub set_cell : ℕ → Cell → System → System
set_cell x c s = record s { cells = λ y. if y == x then c else s.cells y }

module _ (hash : Text → ℕ) (mask : ℕ) where
  -- The slot at a step of the walk for a name.
  unfoldable pub slot_at : Text → ℕ → ℕ
  slot_at c zero = bit_and (hash c % 2 ^ 32) mask
  slot_at c (suc s) = next_index mask (slot_at c s)

  abbrev pub onward : Text → ℕ → Bool → Phase
  onward c s seen = if ltb s mask then walking c (suc s) seen else lacking

  -- What a writer does with the control byte that it has loaded.
  unfoldable pub seen_cell : Text → ℕ → Bool → Cell → Phase
  seen_cell c s seen vacant = facing c s seen
  seen_cell c s seen (held d i) = onward c s true
  seen_cell c s seen (holds d) = if same_text d c then idle else onward c s seen

  pub data Action : System → System → Type 0 where
    begin :
        {s : System} (i : ℕ) (c : Text)
        → s.phases i ≡ idle
        → Action s (set_phase i (walking c 0 false) s)
    load :
        {s : System} (i : ℕ) (c : Text) (n : ℕ) (seen : Bool)
        → s.phases i ≡ walking c n seen
        → Action s (set_phase i (seen_cell c n seen (s.cells (slot_at c n))) s)
    claim :
        {s : System} (i : ℕ) (c : Text) (n : ℕ)
        → s.phases i ≡ facing c n false
        → s.cells (slot_at c n) ≡ vacant
        → Action s (set_cell (slot_at c n) (held c i) (set_phase i (holding c n) s))
    lose :
        {s : System} (i : ℕ) (c : Text) (n : ℕ)
        → s.phases i ≡ facing c n false
        → s.cells (slot_at c n) ≢ vacant
        → Action s (set_phase i (walking c 0 false) s)
    retry :
        {s : System} (i : ℕ) (c : Text) (n : ℕ)
        → s.phases i ≡ facing c n true
        → Action s (set_phase i (walking c 0 false) s)
    store :
        {s : System} (i : ℕ) (c : Text) (n : ℕ)
        → s.phases i ≡ holding c n
        → Action s (set_cell (slot_at c n) (holds c) (set_phase i idle s))
    give_up : {s : System} (i : ℕ) → s.phases i ≡ lacking → Action s (set_phase i idle s)

  pub data Reach : System → Type 0 where
    at_start : Reach new_system
    act : {s t : System} → Reach s → Action s t → Reach t
