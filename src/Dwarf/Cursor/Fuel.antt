-- ===== src/Dwarf/Cursor/Fuel.antt =====
-- The same predicate for the loops of src/debug/dwarf/reader.cc, which run on fuel: each round
-- takes a byte at least.
use fpag.Common.{ℕ, suc, ◌+◌, ◌≤◌, ◌<◌, ◌≡◌, refl, ap, arith, Bool, true, false, length, none, some}
use fpag.Common.{IsWord, ltb, Bool-cases, inl, inr, if◌then◌else◌}
use fpag.Dwarf.Cursor.{
  SectionView, Cursor, Outcome, ok, refused, fault, stuck, Reader, ◌>>=◌, ◌>>◌, size,
}
use fpag.Dwarf.Cursor.{cursor, seek, on_section, with_fuel}
use fpag.Dwarf.Cursor.Safety.{
  IsInside, Post, IsSafe, IsAhead-IsInside, Post-after, Post-weaken, Post-bind,
}

-- Safe wherever fewer than `fuel` bytes are left.
pub record IsSafeIn {ℓ} {A : Type ℓ} (fuel n : ℕ) (m : Reader A) : Type 0 where
  pub apply : (c : Cursor) → IsInside c → size c < c.position + fuel → Post n c (m c)

pub IsSafe-IsSafeIn {ℓ} : {A : Type ℓ} {fuel n : ℕ} {m : Reader A} → IsSafe n m → IsSafeIn fuel n m
IsSafe-IsSafeIn s = record { apply = λ c i h. s.apply c i }

Post-bind_in {ℓ κ} :
    {A : Type ℓ} {B : Type κ} (fuel fuel' n m k : ℕ) (c : Cursor) (r : Outcome A) (f : A → Reader B)
    → IsInside c
    → size c < c.position + fuel
    → fuel ≤ fuel' + n
    → k ≤ n + m
    → Post n c r
    → ((a : A) → IsSafeIn fuel' m (f a))
    → Post k c (elim r [ ok a c' ↦ f a c' | refused ↦ refused | fault ↦ fault | stuck ↦ stuck ])
Post-bind_in fuel fuel' n m k c (ok a c') f i left enough h p s =
    let same : size c' ≡ size c = ap length p.same_bytes in
    Post-after n m k c c' (f a c') h p
      ((s a).apply c' (IsAhead-IsInside i p) (omega (arith, p.ahead)))
Post-bind_in fuel fuel' n m k c refused f i left enough h p s = tt
Post-bind_in fuel fuel' n m k c fault f i left enough h p s = p
Post-bind_in fuel fuel' n m k c stuck f i left enough h p s = p

pub >>=-IsSafeIn {ℓ κ} :
    {A : Type ℓ} {B : Type κ} (fuel' n m : ℕ) {fuel k : ℕ} {r : Reader A} {f : A → Reader B}
    → fuel ≤ fuel' + n
    → k ≤ n + m
    → IsSafe n r
    → ((a : A) → IsSafeIn fuel' m (f a))
    → IsSafeIn fuel k (r >>= f)
>>=-IsSafeIn fuel' n m {fuel} {k} {r} {f} enough h p s = record {
  apply = λ c i left. Post-bind_in fuel fuel' n m k c (r c) f i left enough h (p.apply c i) s;
}

pub if-IsSafeIn {ℓ} :
    {A : Type ℓ} {fuel n : ℕ} (b : Bool) {r s : Reader A}
    → IsSafeIn fuel n r
    → IsSafeIn fuel n s
    → IsSafeIn fuel n (if b then r else s)
if-IsSafeIn true p q = p
if-IsSafeIn false p q = q

-- With no fuel there is no cursor to be safe at.
pub zero-IsSafeIn {ℓ} : {A : Type ℓ} (n : ℕ) (m : Reader A) → IsSafeIn 0 n m
zero-IsSafeIn n m = record { apply = λ c i left. absurd (omega (arith, i.inside)) }

pub IsSafeIn-weaken {ℓ} :
    {A : Type ℓ} {fuel : ℕ} (n : ℕ) {m : ℕ} {r : Reader A}
    → m ≤ n
    → IsSafeIn fuel n r
    → IsSafeIn fuel m r
IsSafeIn-weaken n {m} {r} h s = record {
  apply = λ c i left. Post-weaken c (r c) h (s.apply c i left);
}

pub with_fuel-IsSafe {ℓ} :
    {A : Type ℓ} (n : ℕ) (loop : ℕ → Reader A)
    → ((fuel : ℕ) → IsSafeIn fuel n (loop fuel))
    → IsSafe n (with_fuel loop)
unfolding with_fuel
with_fuel-IsSafe n loop s = record { apply = λ c i. (s (suc (size c))).apply c i (omega arith) }

-- A seek from the start of a section only moves on.
seek-Post :
    (view : SectionView) (p : ℕ)
    → IsWord (length view)
    → Post 0 (cursor view) (seek p (cursor view))
unfolding seek
seek-Post view p w = elim (Bool-cases (ltb (length view) p)) [
  | inl past ↦ rw (past, seek) tt
  | inr within ↦
      rw (within, seek)
        record { same_bytes = refl; ahead = omega arith; still_inside = ground arith }
]

-- Safe from the start of this section on.
pub record IsSafeOn {ℓ} {A : Type ℓ} (view : SectionView) (m : Reader A) : Type 0 where
  pub apply : Post 0 (cursor view) (m (cursor view))

pub seek-IsSafeOn {ℓ} :
    {A : Type ℓ} (view : SectionView) (p n : ℕ) {m : Reader A}
    → IsWord (length view)
    → IsSafe n m
    → IsSafeOn view (seek p >> m)
seek-IsSafeOn view p n {m} w s = record {
  apply =
      Post-bind 0 n 0 (cursor view) (seek p (cursor view)) (λ _. m)
        (record { inside = omega arith; size_word = w }) (omega arith) (seek-Post view p w)
        (λ _. s);
}

on_section-Post {ℓ} :
    {A : Type ℓ} (view : SectionView) (c : Cursor) (r : Outcome A)
    → IsInside c
    → Post 0 (cursor view) r
    → Post 0 c
        (elim r [ ok a c' ↦ ok (some a) c | refused ↦ ok none c | fault ↦ fault | stuck ↦ stuck ])
on_section-Post view c (ok a c') i p = record {
  same_bytes = refl;
  ahead = omega arith;
  still_inside = i.inside;
}
on_section-Post view c refused i p = record {
  same_bytes = refl;
  ahead = omega arith;
  still_inside = i.inside;
}
on_section-Post view c fault i p = p
on_section-Post view c stuck i p = p

pub on_section-IsSafe {ℓ} :
    {A : Type ℓ} (view : SectionView) (m : Reader A)
    → IsSafeOn view m
    → IsSafe 0 (on_section view m)
unfolding on_section
on_section-IsSafe view m h = record {
  apply = λ c i. on_section-Post view c (m (cursor view)) i h.apply;
}
