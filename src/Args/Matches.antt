-- ===== src/Args/Matches.antt =====
-- What a parse has matched: include/fpag/arg/matches.h.
use fpag.Common.{Bool, true, false, List, [], ◌∷◌, ◌++◌, Text, if◌then◌else◌, same_text}

-- A value under the name of its argument.
pub record Pair : Type 0 where
  pub name : Text
  pub value : Text

pub record Matches : Type 0 where
  pub values : List Pair
  pub positionals : List Text
  pub command_path : List Text

abbrev pub no_matches : Matches
no_matches = record { values = []; positionals = []; command_path = [] }

abbrev pub add : Text → Text → Matches → Matches
add n v m =
    let pair : Pair = record { name = n; value = v } in
    record m { values = m.values ++ (pair ∷ []) }

abbrev pub add_positional : Text → Matches → Matches
add_positional v m = record m { positionals = m.positionals ++ (v ∷ []) }

unfoldable pub has_in : List Pair → Text → Bool
has_in [] n = false
has_in (p ∷ ps) n = let later = has_in ps n in if same_text p.name n then true else later

abbrev pub has : Matches → Text → Bool
has m n = has_in m.values n

pub data GetError : Type 0 where
  invalid_argument : GetError
  out_of_range : GetError

-- `base::Result`
pub data Result (T E : Type 0) : Type 0 where
  ok : T → Result T E
  err : E → Result T E

-- `Converter<T>::from_string` is a specialisation per type, and is an argument here.
module _ {T : Type 0} (from_string : Text → Result T GetError) where
  unfoldable pub get_in : List Pair → Text → Result T GetError
  get_in [] n = err out_of_range
  get_in (p ∷ ps) n =
      let later = get_in ps n in if same_text p.name n then from_string p.value else later

  abbrev pub get : Matches → Text → Result T GetError
  get m n = get_in m.values n

  -- The loop of `get_all`, with its flag `found` and its results so far.
  unfoldable pub collect : List Pair → Text → Bool → List T → Result (List T) GetError
  collect [] n found results = if found then ok results else err out_of_range
  collect (p ∷ ps) n found results = elim (same_text p.name n) [
    | false ↦ collect ps n found results
    | true ↦ elim (from_string p.value) [
      | err e ↦ err e
      | ok x ↦ collect ps n true (results ++ (x ∷ []))
    ]
  ]

  abbrev pub get_all : Matches → Text → Result (List T) GetError
  get_all m n = collect m.values n false []

abbrev pub select_subcommand : Text → Matches → Matches
select_subcommand n m = record m { command_path = m.command_path ++ (n ∷ []) }

unfoldable pub last_or_empty : List Text → Text
last_or_empty [] = []
last_or_empty (t ∷ []) = t
last_or_empty (t ∷ u ∷ ts) = last_or_empty (u ∷ ts)

abbrev pub selected_command : Matches → Text
selected_command m = last_or_empty m.command_path
