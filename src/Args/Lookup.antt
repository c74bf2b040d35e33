-- ===== src/Args/Lookup.antt =====
-- The readers of include/fpag/arg/matches.h.
use fpag.Common.{Bool, true, false, List, [], ◌∷◌, ◌++◌, Text}
use fpag.Common.{
  ◌≡◌, refl, sym, ◌∙◌, ap, if◌then◌else◌, Bool-cases, if_true, if_false, same_text, inl, inr,
  append_assoc, append-nil,
}
use fpag.Args.Matches.{
  Pair, Matches, GetError, out_of_range, Result, ok, err, get, get_in, get_all, collect,
}

-- The values recorded under a name, in their order.
unfoldable pub values_of : List Pair → Text → List Text
values_of [] n = []
values_of (p ∷ ps) n =
    let later = values_of ps n in if same_text p.name n then p.value ∷ later else later

-- The conversions of a list of values, up to the first error.
module _ {T : Type 0} (from_string : Text → Result T GetError) where
  abbrev pub pushed : T → Result (List T) GetError → Result (List T) GetError
  pushed x (ok xs) = ok (x ∷ xs)
  pushed x (err e) = err e

  unfoldable pub convert_all : List Text → Result (List T) GetError
  convert_all [] = ok []
  convert_all (v ∷ vs) = elim (from_string v) [ ok x ↦ pushed x (convert_all vs) | err e ↦ err e ]

  -- `get` of the values under the name, and `get_all` of them.
  abbrev pub first_of : List Text → Result T GetError
  first_of [] = err out_of_range
  first_of (v ∷ vs) = from_string v

  abbrev pub all_of : List Text → Result (List T) GetError
  all_of [] = err out_of_range
  all_of (v ∷ vs) = convert_all (v ∷ vs)

  abbrev before : List T → Result (List T) GetError → Result (List T) GetError
  before found (ok xs) = ok (found ++ xs)
  before found (err e) = err e

  before-pushed :
      (found : List T) (x : T) (r : Result (List T) GetError)
      → before (found ++ (x ∷ [])) r ≡ before found (pushed x r)
  before-pushed found x (ok xs) = ap ok (append_assoc found (x ∷ []) xs)
  before-pushed found x (err e) = refl

  converted :
      (rest : Result (List T) GetError) (found : List T) (go : List T → Result (List T) GetError)
      → ((xs : List T) → go xs ≡ before xs rest)
      → (r : Result T GetError)
      → (elim r [ ok x ↦ go (found ++ (x ∷ [])) | err e ↦ err e ])
        ≡ before found (elim r [ ok x ↦ pushed x rest | err e ↦ err e ])
  converted rest found go h (ok x) = h (found ++ (x ∷ [])) ∙ before-pushed found x rest
  converted rest found go h (err e) = refl

  collect-skips :
      (p : Pair) (ps : List Pair) (n : Text) (b : Bool) (found : List T)
      → same_text p.name n ≡ false
      → collect from_string (p ∷ ps) n b found ≡ collect from_string ps n b found
  unfolding collect
  collect-skips p ps n b found e = rw (e, collect) refl

  values_of-skips :
      (p : Pair) (ps : List Pair) (n : Text)
      → same_text p.name n ≡ false
      → values_of (p ∷ ps) n ≡ values_of ps n
  unfolding values_of
  values_of-skips p ps n e = if_false _ _ e

  values_of-takes :
      (p : Pair) (ps : List Pair) (n : Text)
      → same_text p.name n ≡ true
      → values_of (p ∷ ps) n ≡ p.value ∷ values_of ps n
  unfolding values_of
  values_of-takes p ps n e = if_true _ _ e

  abbrev after : Pair → List Pair → Text → List T → Result (List T) GetError
  after p ps n found = elim (from_string p.value) [
    | ok x ↦ collect from_string ps n true (found ++ (x ∷ []))
    | err e ↦ err e
  ]

  collect-takes :
      (p : Pair) (ps : List Pair) (n : Text) (b : Bool) (found : List T)
      → same_text p.name n ≡ true
      → collect from_string (p ∷ ps) n b found ≡ after p ps n found
  unfolding collect
  collect-takes p ps n b found e = rw (e, collect) refl

  after-found :
      (p : Pair) (ps : List Pair) (n : Text) (found : List T)
      → ((xs : List T)
          → collect from_string ps n true xs ≡ before xs (convert_all (values_of ps n)))
      → after p ps n found ≡ before found (convert_all (p.value ∷ values_of ps n))
  unfolding convert_all
  after-found p ps n found h =
      converted (convert_all (values_of ps n)) found (collect from_string ps n true) h
        (from_string p.value)

  collect-found :
      (ps : List Pair) (n : Text) (found : List T)
      → collect from_string ps n true found ≡ before found (convert_all (values_of ps n))
  unfolding collect convert_all values_of
  collect-found [] n found = ap ok (sym (append-nil found))
  collect-found (p ∷ ps) n found = elim (Bool-cases (same_text p.name n)) [
    | inl e ↦
        collect-takes p ps n true found e
        ∙ after-found p ps n found (collect-found ps n)
        ∙ sym (ap (λ vs. before found (convert_all vs)) (values_of-takes p ps n e))
    | inr e ↦
        collect-skips p ps n true found e
        ∙ collect-found ps n found
        ∙ sym (ap (λ vs. before found (convert_all vs)) (values_of-skips p ps n e))
  ]

  before-none : (r : Result (List T) GetError) → before [] r ≡ r
  before-none (ok xs) = refl
  before-none (err e) = refl

  collect-all :
      (ps : List Pair) (n : Text) → collect from_string ps n false [] ≡ all_of (values_of ps n)
  unfolding collect values_of
  collect-all [] n = refl
  collect-all (p ∷ ps) n = elim (Bool-cases (same_text p.name n)) [
    | inl e ↦
        collect-takes p ps n false [] e
        ∙ after-found p ps n [] (collect-found ps n)
        ∙ before-none (convert_all (p.value ∷ values_of ps n))
        ∙ sym (ap all_of (values_of-takes p ps n e))
    | inr e ↦
        collect-skips p ps n false [] e
        ∙ collect-all ps n
        ∙ sym (ap all_of (values_of-skips p ps n e))
  ]

  get_in-first : (ps : List Pair) (n : Text) → get_in from_string ps n ≡ first_of (values_of ps n)
  unfolding get_in values_of
  get_in-first [] n = refl
  get_in-first (p ∷ ps) n = elim (Bool-cases (same_text p.name n)) [
    | inl e ↦ if_true _ _ e ∙ sym (ap first_of (values_of-takes p ps n e))
    | inr e ↦ if_false _ _ e ∙ get_in-first ps n ∙ sym (ap first_of (values_of-skips p ps n e))
  ]

  -- `get` converts the first value recorded under the name, and `get_all` every one in the order of
  -- the command line and up to the first that does not convert; both refuse a name with no value.
  pub get-get_all :
      (m : Matches) (n : Text)
      → (get from_string m n ≡ first_of (values_of m.values n))
        × (get_all from_string m n ≡ all_of (values_of m.values n))
  get-get_all m n = (get_in-first m.values n, collect-all m.values n)
