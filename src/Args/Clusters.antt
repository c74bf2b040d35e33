-- ===== src/Args/Clusters.antt =====
-- Clusters of short options: `Parser::short_options` of src/arg/parser.cc.
use fpag.Common.{Bool, true, false, Option, some, List, [], ◌∷◌, Text, ℕ}
use fpag.Common.{◌≡◌, refl, sym, ◌∙◌, ap, ◌==◌, if_false, if_true}
use fpag.Args.Arg.{Arg, arg_name}
use fpag.Args.Command.{Command}
use fpag.Args.Matches.{Matches, add}
use fpag.Args.Session.{ParseError, Session, proceed, set_skip}
use fpag.Args.Parser.{
  run, step, by_form, short_letters, declared, find_short, use_short, take_next, record_value,
  flag_value, is_valid_choice, dash, head?,
}
use fpag.Args.Render.Runs.{reading, run-turn}

-- A short flag that the scope declares, whose value "1" is a choice.
pub record IsShortFlag (levels : List Command) (x : ℕ) : Type 0 where
  pub arg : Arg
  pub leads : find_short levels x ≡ declared arg
  pub flag : arg.is_flag ≡ true
  pub valid : is_valid_choice arg flag_value ≡ true
  pub no_dash : (x == dash) ≡ false

-- A short option of the scope that takes the value.
pub record IsShortOption (levels : List Command) (x : ℕ) (value : Text) : Type 0 where
  pub arg : Arg
  pub leads : find_short levels x ≡ declared arg
  pub no_flag : arg.is_flag ≡ false
  pub valid : is_valid_choice arg value ≡ true
  pub no_dash : (x == dash) ≡ false

elim_false {ℓ} :
    {A : Type ℓ} {b : Bool} (x y : A) → b ≡ false → (elim b [ false ↦ y | true ↦ x ]) ≡ y
elim_false x y e = rw e refl

module _ (c : Command) (outer : List Command) (es : List ParseError) (hc : Option Command)
    (u : Option (List Text)) where
  abbrev full : Matches → Session
  full m = reading c outer es hc u m

  cluster-step :
      (x : ℕ) (cluster : Text) (next : Option Text) (m : Matches)
      → (x == dash) ≡ false
      → step (dash ∷ x ∷ cluster) next (full m)
        ≡ short_letters (x ∷ cluster) (dash ∷ x ∷ cluster) next (full m)
  unfolding step by_form
  cluster-step x [] next m e = if_false _ _ e
  cluster-step x (y ∷ cluster) next m e = if_false _ _ e

  option-letters :
      (x : ℕ) (cluster raw : Text) (next : Option Text) (m : Matches) (a : Arg)
      → find_short (c ∷ outer) x ≡ declared a
      → a.is_flag ≡ false
      → short_letters (x ∷ cluster) raw next (full m)
        ≡ proceed (use_short a x cluster next (full m))
  unfolding short_letters
  option-letters x cluster raw next m a e f = rw (e, short_letters) (elim_false _ _ f)

  -- In a parse that is not partial, the value of a short option means the same behind its letter and
  -- in the next argument, when it is not empty and is one of the choices.
  pub attached-run :
      (x y : ℕ) (value : Text) (ts : List Text) (m : Matches)
      (o : IsShortOption (c ∷ outer) x (y ∷ value))
      → run ((dash ∷ x ∷ y ∷ value) ∷ ts) (full m)
        ≡ run ((dash ∷ x ∷ []) ∷ (y ∷ value) ∷ ts) (full m)
  unfolding use_short take_next record_value step
  attached-run x y value ts m o =
      let raw = dash ∷ x ∷ y ∷ value in
      let set = add (arg_name o.arg) (y ∷ value) m in
      let taken = set_skip true (full set) in
      run-turn raw ts (full m) (full set) (
        cluster-step x (y ∷ value) (head? ts) m o.no_dash
        ∙ option-letters x (y ∷ value) raw (head? ts) m o.arg o.leads o.no_flag
        ∙ ap proceed (if_true _ _ o.valid))
      ∙ sym (
          run-turn (dash ∷ x ∷ []) ((y ∷ value) ∷ ts) (full m) taken (
            cluster-step x [] (some (y ∷ value)) m o.no_dash
            ∙ option-letters x [] (dash ∷ x ∷ []) (some (y ∷ value)) m o.arg o.leads o.no_flag
            ∙ ap proceed (if_true _ _ o.valid))
          ∙ run-turn (y ∷ value) ts taken (full set) refl)
