-- ===== src/Args/Tests.antt =====
-- Concrete command lines for src/arg/parser.cc.
use fpag.Common.{true, none, some, List, [], ◌∷◌, Text, ◌≡◌, refl, All, same_text}
use fpag.Args.Arg.{Arg, arg_name, builder, set_short_name, set_is_flag, set_required, set_choices}
use fpag.Args.Command.{
  Command, command_builder, add_arg, add_subcommand, name, args, find_long_in, find_short_in,
  find_command_in,
}
use fpag.Args.Matches.{Matches, has, no_matches, has_in, add}
use fpag.Args.Session.{success}
use fpag.Args.Parser.{
  run, step, by_form, long_levels, use_long, take_next, record_value, key_of, value_of, is_choice,
  find_short, use_word, use_plain,
}
use fpag.Args.Moves.{Elem, here, there}
use fpag.Args.Entry.{
  Parser, new_parser, full_context, parse, parse_impl, parse_into, parse_partial, try_parse,
  try_parse_argv, matches_or, missing_of, missing_in, is_missing,
}
use fpag.Args.Safety.{IsSilent}
use fpag.Args.Results.{IsAgreed, IsOutcome, IsServed, parse_impl-IsAgreed, try_parse-IsOutcome}
use fpag.Args.Partial.{parse_partial-IsQuiet}
use fpag.Args.Render.{
  Setting, flag, joined, separate, word, IsNamed, IsOption, IsWord, IsWellFormed, apply_all, apply,
}
use fpag.Args.Render.Runs.{reading}
use fpag.Args.Roundtrip.{command_line, expected, add_words, parse-render_all}
use fpag.Args.Clusters.{IsShortOption, attached-run}

-- "--quiet", also "-q"
abbrev quiet : Arg
quiet = set_is_flag true (set_short_name 113 (builder (113 ∷ 117 ∷ [])))

-- "--out", also "-o", which is required
abbrev out : Arg
out = set_required true (set_short_name 111 (builder (111 ∷ 117 ∷ [])))

-- "--mode", which is "a" or "b"
abbrev mode : Arg
mode = set_choices ((97 ∷ []) ∷ (98 ∷ []) ∷ []) (builder (109 ∷ []))

abbrev run_command : Command
run_command = add_arg mode (command_builder (114 ∷ []) [])

abbrev tool : Command
tool =
    add_subcommand run_command (add_arg out (add_arg quiet (command_builder (116 ∷ []) (49 ∷ []))))

abbrev tool_parser : Parser
tool_parser = new_parser tool

-- "t --out=x r --m c", whose mode is no choice
abbrev bad_line : List Text
bad_line =
    (116 ∷ [])
    ∷ (45 ∷ 45 ∷ 111 ∷ 117 ∷ 61 ∷ 120 ∷ [])
    ∷ (114 ∷ [])
    ∷ (45 ∷ 45 ∷ 109 ∷ [])
    ∷ (99 ∷ [])
    ∷ []

-- "t --out=x r --m a y"
abbrev good_line : List Text
good_line =
    (116 ∷ [])
    ∷ (45 ∷ 45 ∷ 111 ∷ 117 ∷ 61 ∷ 120 ∷ [])
    ∷ (114 ∷ [])
    ∷ (45 ∷ 45 ∷ 109 ∷ [])
    ∷ (97 ∷ [])
    ∷ (121 ∷ [])
    ∷ []

-- "t -z y"
abbrev unknown_line : List Text
unknown_line = (116 ∷ []) ∷ (45 ∷ 122 ∷ []) ∷ (121 ∷ []) ∷ []

parse_impl-IsAgreed_example :
    IsAgreed tool
      (parse_impl (full_context bad_line (some no_matches)) tool_parser).status
      (parse_impl (full_context bad_line (some no_matches)) tool_parser).parser
parse_impl-IsAgreed_example =
    parse_impl-IsAgreed (full_context bad_line (some no_matches)) tool_parser

try_parse-IsOutcome_example :
    IsOutcome name tool good_line (try_parse name good_line tool_parser)
    × IsOutcome name tool
        ((116 ∷ []) ∷ [] ∷ [])
        (try_parse_argv name 2 (some (116 ∷ []) ∷ none ∷ []) tool_parser)
try_parse-IsOutcome_example =
    try_parse-IsOutcome name good_line 2 (some (116 ∷ []) ∷ none ∷ []) tool_parser

parse_partial-IsQuiet_example :
    All IsSilent (parse_partial unknown_line (some no_matches) (some []) tool_parser).parser.errors
    × ((matches_or
          (parse_partial unknown_line (some no_matches) (some []) tool_parser).matches
          no_matches).positionals
        ≡ [])
parse_partial-IsQuiet_example = parse_partial-IsQuiet unknown_line no_matches (some []) tool_parser

good_line-status : (parse good_line (some no_matches) tool_parser).status ≡ success
unfolding parse_impl parse_into run step by_form long_levels use_long take_next record_value key_of
    value_of is_choice find_long_in find_command_in same_text use_word use_plain missing_of
    missing_in is_missing has_in
good_line-status = refl

abbrev settings : List Setting
settings = flag quiet ∷ joined out (97 ∷ 61 ∷ []) ∷ separate out (45 ∷ []) ∷ word (120 ∷ []) ∷ []

settings_well : All (IsWellFormed tool) settings
unfolding value_of find_long_in find_command_in same_text is_choice
settings_well =
    let q : IsNamed tool quiet = record { not_empty = refl; no_equal = refl; leads = refl } in
    let o : IsNamed tool out = record { not_empty = refl; no_equal = refl; leads = refl } in
    let set : IsOption tool out (97 ∷ 61 ∷ []) = record {
      named = o;
      no_flag = refl;
      valid = refl;
    } in
    let taken : IsOption tool out (45 ∷ []) = record { named = o; no_flag = refl; valid = refl } in
    let plain : IsWord tool (120 ∷ []) = record {
      not_empty = refl;
      no_dash = refl;
      no_subcommand = refl;
    } in
    ((q, refl, refl), (set, ((taken, refl), (plain, tt))))

settings-has :
    (a : Arg)
    → Elem a (args tool)
    → a.is_required ≡ true
    → has (apply_all settings no_matches) (arg_name a) ≡ true
unfolding apply_all apply has_in same_text
settings-has a here r = refl
settings-has a (there here) r = refl
settings-has a (there (there i)) r = elim i [ ]

settings-IsServed : IsServed (apply_all settings no_matches) tool
settings-IsServed = record { matched = settings-has }

-- "t --qu --ou=a= --ou - x -- -q  z", with an empty argument before the last
parse-render_all_example :
    parse
      (command_line (116 ∷ []) settings ((45 ∷ 113 ∷ []) ∷ [] ∷ (122 ∷ []) ∷ []))
      (some no_matches)
      tool_parser
    ≡ expected tool_parser
        (add_words ((45 ∷ 113 ∷ []) ∷ [] ∷ (122 ∷ []) ∷ []) (apply_all settings no_matches))
parse-render_all_example =
    parse-render_all (116 ∷ []) settings ((45 ∷ 113 ∷ []) ∷ [] ∷ (122 ∷ []) ∷ []) no_matches
      tool_parser settings_well settings-IsServed

out_letter : IsShortOption (tool ∷ []) 111 (120 ∷ [])
unfolding find_short find_short_in is_choice
out_letter = record { arg = out; leads = refl; no_flag = refl; valid = refl; no_dash = refl }

-- "-ox y" against "-o x y"
attached-run_example :
    run ((45 ∷ 111 ∷ 120 ∷ []) ∷ (121 ∷ []) ∷ []) (reading tool [] [] none none no_matches)
    ≡ run ((45 ∷ 111 ∷ []) ∷ (120 ∷ []) ∷ (121 ∷ []) ∷ []) (reading tool [] [] none none no_matches)
attached-run_example =
    attached-run tool [] [] none none 111 120 [] ((121 ∷ []) ∷ []) no_matches out_letter

abbrev recorded : Matches
recorded = add (111 ∷ []) (120 ∷ []) (add (113 ∷ []) (49 ∷ []) (add (111 ∷ []) [] no_matches))
