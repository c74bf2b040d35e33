-- ===== src/Args/Render.antt =====
-- Command lines that say what they mean, and what `Parser::parse_impl` makes of them.
pub mod Runs
use fpag.Common.{Bool, true, false, Option, none, some, List, [], ◌∷◌, ◌++◌, Text, ℕ}
use fpag.Common.{◌≡◌, refl, ◌∙◌, ap, All, if_true, if_false, arith, ◌==◌, append_assoc}
use fpag.Args.Arg.{Arg, arg_name, is_empty_text}
use fpag.Args.Command.{Command, find_long_in, find_command_in, find_arg_by_long, find_subcommand}
use fpag.Args.Matches.{Matches, add, add_positional}
use fpag.Args.Session.{Session, ParseError, add_match, proceed, set_skip}
use fpag.Args.Parser.{
  run, step, by_form, long_levels, use_long, take_next, record_value, use_word, use_plain, key_of,
  value_of, flag_value, is_valid_choice, dash, equal_sign, head?,
}

-- What a command line sets: a flag, an option with its value behind '=' or in the next argument, or
-- a positional argument.
pub data Setting : Type 0 where
  flag : Arg → Setting
  joined : Arg → Text → Setting
  separate : Arg → Text → Setting
  word : Text → Setting

unfoldable pub render : Setting → List Text
render (flag a) = (dash ∷ dash ∷ a.long_name) ∷ []
render (joined a v) = (dash ∷ dash ∷ (a.long_name ++ (equal_sign ∷ v))) ∷ []
render (separate a v) = (dash ∷ dash ∷ a.long_name) ∷ v ∷ []
render (word t) = t ∷ []

unfoldable pub render_all : List Setting → List Text
render_all [] = []
render_all (x ∷ xs) = render x ++ render_all xs

-- The matches that a setting stands for.
unfoldable pub apply : Setting → Matches → Matches
apply (flag a) m = add (arg_name a) flag_value m
apply (joined a v) m = add (arg_name a) v m
apply (separate a v) m = add (arg_name a) v m
apply (word t) m = add_positional t m

unfoldable pub apply_all : List Setting → Matches → Matches
apply_all [] m = m
apply_all (x ∷ xs) m = apply_all xs (apply x m)

-- The long name is not empty, has no '=', and leads to the argument.
pub record IsNamed (c : Command) (a : Arg) : Type 0 where
  pub not_empty : is_empty_text a.long_name ≡ false
  pub no_equal : value_of a.long_name ≡ none
  pub leads : find_arg_by_long c a.long_name ≡ some a

pub record IsOption (c : Command) (a : Arg) (v : Text) : Type 0 where
  pub named : IsNamed c a
  pub no_flag : a.is_flag ≡ false
  pub valid : is_valid_choice a v ≡ true

abbrev pub begins_dash : Text → Bool
begins_dash [] = false
begins_dash (c ∷ t) = c == dash

-- Not empty, not an option, and not the name of a subcommand.
pub record IsWord (c : Command) (t : Text) : Type 0 where
  pub not_empty : is_empty_text t ≡ false
  pub no_dash : begins_dash t ≡ false
  pub no_subcommand : find_subcommand c t ≡ none

abbrev pub IsWellFormed : Command → Setting → Type 0
IsWellFormed c (flag a) = IsNamed c a × (a.is_flag ≡ true) × (is_valid_choice a flag_value ≡ true)
IsWellFormed c (joined a v) = IsOption c a v
IsWellFormed c (separate a v) = IsOption c a v × (is_empty_text v ≡ false)
IsWellFormed c (word t) = IsWord c t
