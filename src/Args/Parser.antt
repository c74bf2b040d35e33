-- ===== src/Args/Parser.antt =====
-- The parser: src/arg/parser.cc.
use fpag.Common.{ℕ, Bool, true, false, ◌&&◌}
use fpag.Common.{Option, none, some, List, [], ◌∷◌, Text, if◌then◌else◌, ◌==◌}
use fpag.Common.{same_text}
use fpag.Args.Arg.{Arg, arg_name, is_empty_text}
use fpag.Args.Command.{
  Command, builtin_enabled, find_arg_by_long, find_arg_by_short, find_subcommand,
}
use fpag.Args.Session.{
  unknown_long_option, unknown_short_option, missing_value_for_option, flag_takes_no_value,
  invalid_choice, help_requested, version_requested, Session, add_error, add_match, add_plain,
  keep_unparsed, set_help, stop_flags, set_skip, descend, scope, Step, proceed, stop,
}

abbrev pub dash : ℕ
dash = 45

abbrev pub equal_sign : ℕ
equal_sign = 61

-- "1"
abbrev pub flag_value : Text
flag_value = 49 ∷ []

-- "help", 'h', "version" and 'v'
abbrev pub builtin_help_arg_long : Text
builtin_help_arg_long = 104 ∷ 101 ∷ 108 ∷ 112 ∷ []

abbrev pub builtin_help_arg_short : ℕ
builtin_help_arg_short = 104

abbrev pub builtin_version_arg_long : Text
builtin_version_arg_long = 118 ∷ 101 ∷ 114 ∷ 115 ∷ 105 ∷ 111 ∷ 110 ∷ []

abbrev pub builtin_version_arg_short : ℕ
builtin_version_arg_short = 118

unfoldable pub is_choice : List Text → Text → Bool
is_choice [] v = false
is_choice (c ∷ cs) v = let later = is_choice cs v in if same_text c v then true else later

abbrev pub is_choice_or_free : List Text → Text → Bool
is_choice_or_free [] v = true
is_choice_or_free (c ∷ cs) v = is_choice (c ∷ cs) v

abbrev pub is_valid_choice : Arg → Text → Bool
is_valid_choice a v = is_choice_or_free a.choices v

-- `content.substr(0, content.find('='))`
unfoldable pub key_of : Text → Text
key_of [] = []
key_of (c ∷ t) = let later = key_of t in if c == equal_sign then [] else c ∷ later

-- The text after the first '=', or none where `find` returns npos.
unfoldable pub value_of : Text → Option Text
value_of [] = none
value_of (c ∷ t) = let later = value_of t in if c == equal_sign then some t else later

-- The end of both option handlers: the value is checked and recorded.
unfoldable pub record_value : Arg → Text → Session → Session
record_value a v s =
    if is_valid_choice a v then add_match a v s else add_error invalid_choice (arg_name a) v s

-- A value from the next argument, which has to be there and not empty.
unfoldable pub take_next : Arg → Text → Option Text → Session → Session
take_next a option none s = add_error missing_value_for_option option [] s
take_next a option (some []) s = add_error missing_value_for_option option [] s
take_next a option (some (c ∷ t)) s = record_value a (c ∷ t) (set_skip true s)

-- A long option that a level of the scope declares.
unfoldable pub use_long : Arg → Text → Option Text → Option Text → Session → Session
use_long a key none next s =
    if a.is_flag then record_value a flag_value s else take_next a (dash ∷ dash ∷ key) next s
use_long a key (some v) next s =
    if a.is_flag then add_error flag_takes_no_value (dash ∷ dash ∷ key) [] s else record_value a v s

-- No level knows the option.
unfoldable pub unknown_long : Text → Text → Session → Session
unknown_long raw key s =
    if s.partial_mode then keep_unparsed raw s else add_error unknown_long_option key [] s

-- The loop of `long_option` over the levels, innermost first.
unfoldable pub long_levels : List Command → Text → Text → Option Text → Session → Step
long_levels [] raw content next s = proceed (unknown_long raw (key_of content) s)
long_levels (level ∷ levels) raw content next s =
    let later = long_levels levels raw content next s in
    elim (find_arg_by_long level (key_of content)) [
      | some a ↦ proceed (use_long a (key_of content) (value_of content) next s)
      | none ↦
          if builtin_enabled level && same_text content builtin_help_arg_long
          then stop help_requested (set_help level s)
          else (if builtin_enabled level && same_text content builtin_version_arg_long
              then stop version_requested s
              else later)
    ]

-- `Parser::long_option` for the argument "--" ++ content
abbrev pub long_option : Text → Option Text → Session → Step
long_option content next s = long_levels (scope s) (dash ∷ dash ∷ content) content next s

-- What the levels of the scope know of a short option.
pub data ShortOption : Type 0 where
  declared : Arg → ShortOption
  help : Command → ShortOption
  version_of : ShortOption
  unknown : ShortOption

unfoldable pub find_short : List Command → ℕ → ShortOption
find_short [] c = unknown
find_short (level ∷ levels) c =
    let later = find_short levels c in
    elim (find_arg_by_short level c) [
      | some a ↦ declared a
      | none ↦
          if builtin_enabled level && c == builtin_help_arg_short
          then help level
          else (if builtin_enabled level && c == builtin_version_arg_short
              then version_of
              else later)
    ]

-- A short option with a value: the rest of the cluster, or the next argument.
unfoldable pub use_short : Arg → ℕ → Text → Option Text → Session → Session
use_short a c [] next s = take_next a (dash ∷ c ∷ []) next s
use_short a c (d ∷ rest) next s = record_value a (d ∷ rest) s

unfoldable pub unknown_short : Text → ℕ → Session → Session
unknown_short raw c s =
    if s.partial_mode then keep_unparsed raw s else add_error unknown_short_option (c ∷ []) [] s

-- The loop of `short_options` over the letters of the cluster.
unfoldable pub short_letters : Text → Text → Option Text → Session → Step
short_letters [] raw next s = proceed s
short_letters (c ∷ rest) raw next s = elim (find_short (scope s) c) [
  | help level ↦ stop help_requested (set_help level s)
  | version_of ↦ stop version_requested s
  | unknown ↦ proceed (unknown_short raw c s)
  | declared a ↦ elim a.is_flag [
    | false ↦ proceed (use_short a c rest next s)
    | true ↦ elim (is_valid_choice a flag_value) [
      | false ↦ proceed (add_error invalid_choice (arg_name a) flag_value s)
      | true ↦ short_letters rest raw next (add_match a flag_value s)
    ]
  ]
]

-- `Parser::short_options` for the argument "-" ++ cluster
abbrev pub short_options : Text → Option Text → Session → Step
short_options cluster next s = short_letters cluster (dash ∷ cluster) next s

-- An argument that is not an option: a subcommand's name, or a positional argument.
unfoldable pub use_plain : Text → Session → Session
use_plain t s = if s.partial_mode then keep_unparsed t s else add_plain t s

unfoldable pub use_word : Text → Session → Session
use_word t s = elim (find_subcommand s.current t) [
  | some sub ↦ descend sub s
  | none ↦ use_plain t s
]

-- The argument "--"
unfoldable pub use_separator : Session → Session
use_separator s =
    if s.partial_mode then keep_unparsed (dash ∷ dash ∷ []) (stop_flags s) else stop_flags s

-- The branches on the form of the argument while options are still read.
unfoldable pub by_form : Text → Option Text → Session → Step
by_form [] next s = proceed s
by_form (c ∷ []) next s = proceed (use_word (c ∷ []) s)
by_form (c ∷ d ∷ []) next s =
    if c == dash
    then if d == dash then proceed (use_separator s) else short_options (d ∷ []) next s
    else proceed (use_word (c ∷ d ∷ []) s)
by_form (c ∷ d ∷ e ∷ t) next s =
    if c == dash
    then if d == dash then long_option (e ∷ t) next s else short_options (d ∷ e ∷ t) next s
    else proceed (use_word (c ∷ d ∷ e ∷ t) s)

-- The body of the loop of `parse_impl`.
unfoldable pub step : Text → Option Text → Session → Step
step t next s =
    if s.skip
    then proceed (set_skip false s)
    else (if is_empty_text t
        then proceed s
        else (if s.stop_parsing_flags then proceed (use_plain t s) else by_form t next s))

abbrev pub head? : List Text → Option Text
head? [] = none
head? (t ∷ ts) = some t

-- The loop of `parse_impl`.
unfoldable pub run : List Text → Session → Step
run [] s = proceed s
run (t ∷ ts) s = elim (step t (head? ts) s) [
  | proceed s' ↦ run ts s'
  | stop status s' ↦ stop status s'
]
