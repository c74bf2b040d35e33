-- ===== src/Dwarf/Module/Functions.antt =====
-- The function that `function_at` of src/debug/dwarf/module.cc finds.
use fpag.Common.{
  ℕ, ◌+◌, ◌≤◌, ◌<◌, ◌^◌, ◌≡◌, refl, arith, true, false, Option, none, some, List, [], ◌∷◌, ◌++◌,
}
use fpag.Common.{All, ltb, leb, if◌then◌else◌, le→ltb, lt→ltb, add64, Bool-cases, inl, inr}
use native.Mathlib.Nat.{mod-eq_of_lt}
use fpag.Dwarf.Module.{Function, last_at, function_at}

last_at-after :
    (link_address : ℕ) (last : Option Function) (after : List Function)
    → All (λ g. link_address < g.address) after
    → last_at link_address last after ≡ last
unfolding last_at
last_at-after link_address last [] h = refl
last_at-after link_address last (g ∷ after) h = rw (lt→ltb link_address g.address h.0) refl

last_at-append :
    (link_address : ℕ) (last : Option Function) (before after : List Function) (f : Function)
    → All (λ g. g.address ≤ link_address) before
    → f.address ≤ link_address
    → All (λ g. link_address < g.address) after
    → last_at link_address last (before ++ (f ∷ after)) ≡ some f
unfolding last_at
last_at-append link_address last [] after f h le g =
    rw (le→ltb link_address f.address le) (last_at-after link_address (some f) after g)
last_at-append link_address last (b ∷ before) after f h le g =
    rw (le→ltb link_address b.address h.0)
      (last_at-append link_address (some b) before after f h.1 le g)

-- Of the functions in order of their addresses, `function_at` looks at the last one f that starts
-- at or before the address, and answers its name exactly if the address is before its end; the end
-- does not wrap.
pub function_at_lem :
    (before after : List Function) (f : Function) (link_address : ℕ)
    → All (λ g. g.address ≤ link_address) before
    → f.address ≤ link_address
    → All (λ g. link_address < g.address) after
    → f.address + f.size < 2 ^ 64
    → function_at (before ++ (f ∷ after)) link_address
      ≡ (if ltb link_address (f.address + f.size) then some f.name else none)
unfolding function_at
function_at_lem before after f link_address h le g w =
    let plain : add64 f.address f.size ≡ f.address + f.size = mod-eq_of_lt w in
    rw (last_at-append link_address none before after f h le g, function_at, plain)
      (elim (Bool-cases (ltb link_address (f.address + f.size))) [
        | inl inside ↦
            let test : leb (f.address + f.size) link_address ≡ false = ground arith in
            rw (inside, test) refl
        | inr past ↦
            let test : leb (f.address + f.size) link_address ≡ true = ground arith in
            rw (past, test) refl
      ])
