-- ===== src/Str/Interner/Names.antt =====
-- Names interned one behind the other: src/str/string_interner.cc.
use mathlib.Core.Path.{subst}
use fpag.Common.{
  ℕ, zero, suc, ◌-◌, Bool, Option, none, some, List, [], ◌∷◌, Text, ◌≡◌, sym, ap, ◌∙◌, ◌↔◌, arith,
  split_if, split_known, get_elem?, ◌&&◌, leb, ◌^◌, ◌/◌, if◌then◌else◌, ◌==◌,
}
use fpag.Str.Pool.{no_pool, StringPool, get_name, new_pool}
use fpag.Str.Pool.Names.{IsPool, IsNew, new_pool-IsNew}
use fpag.Str.Table.{
  InternTable, Turn, interned, no_slot, wait, stopped, find, try_intern, reserve_table, empty,
  slots_for, max_names, default_names, slot_bytes,
}
use fpag.Str.Table.Intern.{
  IsTable, IsInterned, IsIntern, try_intern-IsIntern, find-get_name, some-injective,
}
use fpag.Str.Interner.{
  interned_as, intern, intern_all, put_first, new_interner, table_over, default_pool_capacity,
}

abbrev fits_table : ℕ → Bool
fits_table names =
    let wanted = if names == 0 then default_names else names in
    leb wanted max_names && leb (slots_for wanted) ((2 ^ 64 - 1) / slot_bytes)

same-text : {c d : Text} → some d ≡ some c → c ≡ d
same-text e = ground (arith, e)

module _ (hash : Text → ℕ) where
  -- Each name is found under its id.
  abbrev pub IsNamed : InternTable → List Text → List ℕ → Type 0
  IsNamed t [] [] = Unit
  IsNamed t [] (id ∷ ids) = ⊥
  IsNamed t (c ∷ cs) [] = ⊥
  IsNamed t (c ∷ cs) (id ∷ ids) = (find hash t c ≡ some id) × IsNamed t cs ids

  record IsRun (t : InternTable) (cs : List Text) (ids : List ℕ) (t' : InternTable) : Type 0 where
    table : IsTable t'
    named : IsNamed t' cs ids
    keeps : (c : Text) (k : ℕ) → find hash t c ≡ some k → find hash t' c ≡ some k

  abbrev IsOne : InternTable → Text → Option (ℕ × InternTable) → Type 0
  IsOne t c none = Unit
  IsOne t c (some (id, t')) = IsInterned hash t c id t'

  abbrev IsMany : InternTable → List Text → Option (List ℕ × InternTable) → Type 0
  IsMany t cs none = Unit
  IsMany t cs (some (ids, t')) = IsRun t cs ids t'

  interned_as-IsOne :
      (t : InternTable) (c : Text) (r : Turn) → IsIntern hash t c r → IsOne t c (interned_as hash r)
  interned_as-IsOne t c (interned id t') h = h
  interned_as-IsOne t c no_slot h = tt
  interned_as-IsOne t c wait h = tt
  interned_as-IsOne t c stopped h = tt

  intern-IsOne :
      (commits : Bool) (c : Text) (t : InternTable)
      → IsTable t
      → IsOne t c (intern hash commits c t)
  unfolding intern
  intern-IsOne commits c t i =
      interned_as-IsOne t c (try_intern hash commits c t) (try_intern-IsIntern hash commits c t i)

  put_first-IsMany :
      (t : InternTable) (c : Text) (cs : List Text) (id : ℕ) (t' : InternTable)
      (r : Option (List ℕ × InternTable))
      → IsInterned hash t c id t'
      → IsMany t' cs r
      → IsMany t (c ∷ cs) (put_first hash id r)
  put_first-IsMany t c cs id t' none o m = tt
  put_first-IsMany t c cs id t' (some (ids, u)) o m = record {
    table = m.table;
    named = (m.keeps c id o.finds, m.named);
    keeps = λ d k h. m.keeps d k (o.keeps d k h);
  }

  intern_all-IsMany :
      (commits : Bool) (cs : List Text) (t : InternTable)
      → IsTable t
      → IsMany t cs (intern_all hash commits cs t)
  unfolding intern_all
  intern_all-IsMany commits [] t i = record { table = i; named = tt; keeps = λ c k h. h }
  intern_all-IsMany commits (c ∷ cs) t i =
      split_known (IsMany t (c ∷ cs)) (IsOne t c) (intern hash commits c t)
        (intern-IsOne commits c t i) tt
        (λ r o.
          put_first-IsMany t c cs r.0 r.1 (intern_all hash commits cs r.1) o
            (intern_all-IsMany commits cs r.1 o.table))

  IsNamed-get :
      (t : InternTable) (cs : List Text) (ids : List ℕ)
      → IsNamed t cs ids
      → (i : ℕ) (c : Text) (k : ℕ) → get_elem? cs i ≡ some c
      → get_elem? ids i ≡ some k
      → find hash t c ≡ some k
  IsNamed-get t [] [] n i c k e f = absurd (ground (arith, e))
  IsNamed-get t [] (id ∷ ids) n i c k e f = absurd n
  IsNamed-get t (d ∷ cs) [] n i c k e f = absurd n
  IsNamed-get t (d ∷ cs) (id ∷ ids) n zero c k e f = ap (find hash t) (same-text e) ∙ n.0 ∙ f
  IsNamed-get t (d ∷ cs) (id ∷ ids) n (suc i) c k e f = IsNamed-get t cs ids n.1 i c k e f

abbrev pub IsNewTable : Option InternTable → Type 0
IsNewTable none = Unit
IsNewTable (some t) = IsTable t

reserve_table-IsTable :
    (pages : Bool) (page_size names : ℕ) (t : InternTable)
    → IsPool t.pool
    → IsNewTable (reserve_table pages page_size names t)
unfolding reserve_table
reserve_table-IsTable pages page_size names t i =
    split_if IsNewTable (fits_table names)
      (λ e.
        split_if IsNewTable pages
          (λ h. record { pool = i; entries = λ k f id c. absurd (ground (arith, c)) }) (λ h. tt))
      (λ e. tt)

table_over-IsTable :
    (pages : Bool) (page_size names : ℕ) (p : Option StringPool)
    → IsNew p
    → IsNewTable (table_over pages page_size names p)
table_over-IsTable pages page_size names none i = tt
table_over-IsTable pages page_size names (some p) i =
    reserve_table-IsTable pages page_size names
      (record { pool = p; region = λ k. empty; slots = 0; region_bytes = 0; count = 0 }) i

-- The constructor of the interner, where no check stops the program, leaves a well-formed table.
new_interner-IsTable :
    (pages commits : Bool) (page_size names pool_bytes : ℕ)
    → IsNewTable (new_interner pages commits page_size names pool_bytes)
unfolding new_interner
new_interner-IsTable pages commits page_size names pool_bytes =
    let capacity = if pool_bytes == 0 then default_pool_capacity else pool_bytes in
    table_over-IsTable pages page_size names (new_pool page_size commits capacity)
      (new_pool-IsNew page_size commits capacity no_pool (omega arith)).0

-- When a new interner has interned a list of names, each id that it answered reads as its name to
-- the end, and two of the ids are the same exactly if their names are.
pub intern_all-names :
    (hash : Text → ℕ) (pages commits : Bool) (page_size names pool_bytes : ℕ) (t t' : InternTable)
    (cs : List Text) (ids : List ℕ)
    → new_interner pages commits page_size names pool_bytes ≡ some t
    → intern_all hash commits cs t ≡ some (ids, t')
    → (i j : ℕ) (c d : Text) (k l : ℕ) → get_elem? cs i ≡ some c
    → get_elem? ids i ≡ some k
    → get_elem? cs j ≡ some d
    → get_elem? ids j ≡ some l
    → (get_name t'.pool k ≡ c) × ((k ≡ l) ↔ (c ≡ d))
intern_all-names hash pages commits page_size names pool_bytes t t' cs ids made ran i j c d k l ci
      ki dj lj =
    let table : IsTable t =
      subst IsNewTable made (new_interner-IsTable pages commits page_size names pool_bytes) in
    let many = subst (IsMany hash t cs) ran (intern_all-IsMany hash commits cs t table) in
    let at_i = IsNamed-get hash t' cs ids many.named i c k ci ki in
    let at_j = IsNamed-get hash t' cs ids many.named j d l dj lj in
    let reads_i = find-get_name hash t' c k at_i in
    let reads_j = find-get_name hash t' d l at_j in
    (
      reads_i,
      (
        λ e. sym reads_i ∙ ap (get_name t'.pool) e ∙ reads_j,
        λ e. some-injective (sym at_i ∙ ap (find hash t') e ∙ at_j),
      ),
    )
