-- ===== src/Str/Table/Progress.antt =====
-- When `lookup` of include/fpag/str/intern_table.h reports a full table, and when it has to wait.
use fpag.Common.{ℕ, ◌+◌, ◌-◌, ◌^◌, ◌≤◌, ◌<◌, Bool, true, false, Text, ltb, if◌then◌else◌, ◌≡◌, ◌≢◌}
use fpag.Str.Pool.{StringPool}
use fpag.Str.Table.{empty, Region, Probe, Turn, no_slot, wait, walk}

-- The slot that a walk from an index looks at after so many steps.
abbrev visited : ℕ → ℕ → ℕ → ℕ
visited N index s = if ltb (index + s) N then index + s else index + s - N

module _ (p : StringPool) (k fingerprint : ℕ) (content : Text) (small : k ≤ 30) where
  abbrev steps : Region → ℕ → ℕ → Bool → Probe
  steps r n index seen = walk n p r (2 ^ k - 1) fingerprint content index seen

  abbrev IsTaken : Region → ℕ → ℕ → Probe → Type 0
  IsTaken r n index q = q.full ≡ true → (s : ℕ) → s < n → r (visited (2 ^ k) index s) ≢ empty

  abbrev IsOpen : Probe → Type 0
  IsOpen q = q.blocked ≡ false

-- A turn that neither finds the table full nor waits.
abbrev pub IsProgress : Turn → Type 0
IsProgress r = (r ≢ no_slot) × (r ≢ wait)
