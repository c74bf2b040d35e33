-- ===== src/Args/Session.antt =====
-- The state of a parse and the changes that it makes to it: the parser's errors and help command,
-- the matches and the unparsed arguments of its context, and the local variables of
-- `Parser::parse_impl`: include/fpag/arg/parser.h and src/arg/parser.cc.
use fpag.Common.{Bool, true, Option, none, some, List, [], ◌∷◌, ◌++◌, Text}
use fpag.Args.Arg.{Arg, arg_name}
use fpag.Args.Command.{Command, name}
use fpag.Args.Matches.{Matches, add, add_positional, select_subcommand}

pub data ErrorCode : Type 0 where
  no_error : ErrorCode
  invalid_arg_count : ErrorCode
  null_matches_pointer : ErrorCode
  unknown_long_option : ErrorCode
  unknown_short_option : ErrorCode
  missing_value_for_option : ErrorCode
  flag_takes_no_value : ErrorCode
  missing_required_argument : ErrorCode
  duplicate_option : ErrorCode
  invalid_choice : ErrorCode
  invalid_value : ErrorCode

pub record ParseError : Type 0 where
  pub code : ErrorCode
  pub context : Text
  pub value : Text

pub data ParseStatus : Type 0 where
  success : ParseStatus
  error : ParseStatus
  help_requested : ParseStatus
  version_requested : ParseStatus

-- The scope's last command is `current`, and those before it are `outer`, innermost first.
-- `skip` holds when the option before has taken the next argument as its value, where the source
-- moves its index on.
pub record Session : Type 0 where
  pub errors : List ParseError
  pub help_command : Option Command
  pub matches : Matches
  pub unparsed : Option (List Text)
  pub partial_mode : Bool
  pub current : Command
  pub outer : List Command
  pub stop_parsing_flags : Bool
  pub skip : Bool

abbrev pub add_error : ErrorCode → Text → Text → Session → Session
add_error c t v s =
    let e : ParseError = record { code = c; context = t; value = v } in
    record s { errors = s.errors ++ (e ∷ []) }

abbrev pub add_match : Arg → Text → Session → Session
add_match a v s = record s { matches = add (arg_name a) v s.matches }

abbrev pub add_plain : Text → Session → Session
add_plain t s = record s { matches = add_positional t s.matches }

abbrev pub appended : Text → Option (List Text) → Option (List Text)
appended t none = none
appended t (some ts) = some (ts ++ (t ∷ []))

-- `if (ctx.unparsed) ctx.unparsed->push_back(t)`
abbrev pub keep_unparsed : Text → Session → Session
keep_unparsed t s = record s { unparsed = appended t s.unparsed }

abbrev pub set_help : Command → Session → Session
set_help c s = record s { help_command = some c }

abbrev pub stop_flags : Session → Session
stop_flags s = record s { stop_parsing_flags = true }

abbrev pub set_skip : Bool → Session → Session
set_skip b s = record s { skip = b }

abbrev pub descend : Command → Session → Session
descend sub s = record s {
  matches = select_subcommand (name sub) s.matches;
  current = sub;
  outer = s.current ∷ s.outer;
}

-- The scope, innermost first.
abbrev pub scope : Session → List Command
scope s = s.current ∷ s.outer

-- What one argument does: the loop goes on, or the parse ends with a status.
pub data Step : Type 0 where
  proceed : Session → Step
  stop : ParseStatus → Session → Step

abbrev pub session : Step → Session
session (proceed s) = s
session (stop status s) = s
