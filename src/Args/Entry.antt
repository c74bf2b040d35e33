-- ===== src/Args/Entry.antt =====
-- The parser's entry points: src/arg/parser.cc, and include/fpag/arg/parse_result.h.
use fpag.Common.{ℕ, zero, suc, ◌+◌, ◌-◌, ◌/◌, ◌%◌, ◌^◌, Bool, true, false, ◌&&◌, not}
use fpag.Common.{Option, none, some, List, [], ◌∷◌, ◌++◌, Text, if◌then◌else◌, ◌==◌, ltb}
use fpag.Common.{take, map}
use fpag.Args.Arg.{Arg, arg_name, is_empty_text}
use fpag.Args.Command.{Command, version, args}
use fpag.Args.Matches.{Matches, no_matches, has}
use fpag.Args.Session.{
  ErrorCode, invalid_arg_count, null_matches_pointer, missing_required_argument, ParseError,
  ParseStatus, success, error, help_requested, version_requested, Session, scope, Step, proceed,
  stop,
}
use fpag.Args.Parser.{dash, run}

pub record Parser : Type 0 where
  pub root_cmd : Command
  pub errors : List ParseError
  pub help_command : Option Command

-- `matches` and `unparsed` are pointers, that may be null.
pub record ParseContext : Type 0 where
  pub args : List Text
  pub matches : Option Matches
  pub unparsed : Option (List Text)
  pub partial_mode : Bool

-- What a parse returns and leaves behind its pointers.
pub record Parsed : Type 0 where
  pub status : ParseStatus
  pub parser : Parser
  pub matches : Option Matches
  pub unparsed : Option (List Text)

abbrev pub new_parser : Command → Parser
new_parser root = record { root_cmd = root; errors = []; help_command = none }

abbrev pub parser_error : ErrorCode → Text → Parser → Parser
parser_error c t p =
    let e : ParseError = record { code = c; context = t; value = [] } in
    record p { errors = p.errors ++ (e ∷ []) }

abbrev pub letter_or : Option ℕ → ℕ → ℕ
letter_or none d = d
letter_or (some c) d = c

-- How a missing argument is named: "--long", or "-s", or "-?".
unfoldable pub option_text : Arg → Text
option_text a =
    if is_empty_text a.long_name
    then dash ∷ letter_or a.short_name 63 ∷ []
    else dash ∷ dash ∷ a.long_name

unfoldable pub is_missing : Arg → Matches → Bool
is_missing a m = a.is_required && not (has m (arg_name a))

-- The errors that the check of one command's required arguments adds.
unfoldable pub missing_of : List Arg → Matches → List ParseError
missing_of [] m = []
missing_of (a ∷ rest) m =
    let later = missing_of rest m in
    let e : ParseError = record {
      code = missing_required_argument;
      context = option_text a;
      value = [];
    } in
    if is_missing a m then e ∷ later else later

-- The errors of a scope, which is given innermost first and checked outermost first.
unfoldable pub missing_in : List Command → Matches → List ParseError
missing_in [] m = []
missing_in (level ∷ levels) m = missing_in levels m ++ missing_of (args level) m

abbrev pub is_empty_errors : List ParseError → Bool
is_empty_errors [] = true
is_empty_errors (e ∷ es) = false

abbrev pub final_status : List ParseError → ParseStatus
final_status es = if is_empty_errors es then success else error

-- The session that a parse begins.
abbrev pub start : ParseContext → Matches → Command → Session
start ctx m root = record {
  errors = [];
  help_command = none;
  matches = m;
  unparsed = ctx.unparsed;
  partial_mode = ctx.partial_mode;
  current = root;
  outer = [];
  stop_parsing_flags = false;
  skip = false;
}

abbrev pub leave : Parser → ParseStatus → Session → Parsed
leave p st s = record {
  status = st;
  parser = record p { errors = s.errors; help_command = s.help_command };
  matches = some s.matches;
  unparsed = s.unparsed;
}

abbrev pub check_required : Session → Session
check_required s = record s { errors = s.errors ++ missing_in (scope s) s.matches }

abbrev pub finish : Parser → Step → Parsed
finish p (proceed s) = leave p (final_status (check_required s).errors) (check_required s)
finish p (stop st s) = leave p st s

-- The arguments after the program's name.
abbrev pub tail : List Text → List Text
tail [] = []
tail (t ∷ ts) = ts

-- `parse_impl` once the pointer to the matches is known not to be null.
unfoldable pub parse_into : Matches → ParseContext → Parser → Parsed
parse_into m ctx p = finish p (run (tail ctx.args) (start ctx m p.root_cmd))

abbrev pub refuse_parse : ErrorCode → Text → ParseContext → Parser → Parsed
refuse_parse c t ctx p = record {
  status = error;
  parser = parser_error c t p;
  matches = ctx.matches;
  unparsed = ctx.unparsed;
}

unfoldable pub parse_impl : ParseContext → Parser → Parsed
parse_impl ctx p = elim ctx.matches [
  | none ↦ refuse_parse null_matches_pointer [] ctx p
  | some m ↦ parse_into m ctx p
]

-- An i32 stands as its bit pattern.
abbrev pub is_positive : ℕ → Bool
is_positive n = not (n == 0) && ltb n (2 ^ 31)

-- The decimal digits of a number; ten are enough for 32 bits.
unfoldable pub decimal : ℕ → ℕ → Text
decimal zero n = []
decimal (suc fuel) n =
    let higher = decimal fuel (n / 10) in
    if ltb n 10 then (48 + n) ∷ [] else higher ++ ((48 + n % 10) ∷ [])

-- `std::to_string` of an i32
unfoldable pub to_string : ℕ → Text
to_string n = if ltb n (2 ^ 31) then decimal 10 n else dash ∷ decimal 10 (2 ^ 32 - n)

-- `get_from_argv`
abbrev pub from_argv : Option Text → Text
from_argv none = []
from_argv (some t) = t

-- `parse` and `parse_partial` over `argc` and an `argv` that holds at least as many pointers.
unfoldable pub parse_counted : ℕ → List (Option Text) → ParseContext → Parser → Parsed
parse_counted argc argv ctx p =
    if is_positive argc
    then parse_impl (record ctx { args = map from_argv (take argc argv) }) p
    else refuse_parse invalid_arg_count (to_string argc) ctx p

abbrev pub full_context : List Text → Option Matches → ParseContext
full_context ts m = record { args = ts; matches = m; unparsed = none; partial_mode = false }

abbrev pub partial_context : List Text → Option Matches → Option (List Text) → ParseContext
partial_context ts m u = record { args = ts; matches = m; unparsed = u; partial_mode = true }

abbrev pub parse_argv : ℕ → List (Option Text) → Option Matches → Parser → Parsed
parse_argv argc argv m p = parse_counted argc argv (full_context [] m) p

abbrev pub parse : List Text → Option Matches → Parser → Parsed
parse ts m p = parse_impl (full_context ts m) p

abbrev pub parse_partial_argv :
    ℕ → List (Option Text) → Option Matches → Option (List Text) → Parser → Parsed
parse_partial_argv argc argv m u p = parse_counted argc argv (partial_context [] m u) p

abbrev pub parse_partial : List Text → Option Matches → Option (List Text) → Parser → Parsed
parse_partial ts m u p = parse_impl (partial_context ts m u) p

-- Each constructor fixes the status that the class keeps beside its storage.
pub data ParseResult (T : Type 0) : Type 0 where
  make_ok : T → ParseResult T
  make_err : List ParseError → ParseResult T
  make_help : Text → ParseResult T
  make_version : Text → ParseResult T

abbrev pub status_of : {T : Type 0} → ParseResult T → ParseStatus
status_of (make_ok x) = success
status_of (make_err es) = error
status_of (make_help t) = help_requested
status_of (make_version t) = version_requested

abbrev pub command_or : Option Command → Command → Command
command_or none root = root
command_or (some c) root = c

abbrev pub matches_or : Option Matches → Matches → Matches
matches_or none d = d
matches_or (some m) d = m

-- The formatter of the help text is an argument, as it is of the template `help_message`.
module _ (format_help : Command → Text) where
  abbrev pub help_message : Parser → Text
  help_message p = format_help (command_or p.help_command p.root_cmd)

  abbrev pub result_of : Matches → Parser → ParseStatus → ParseResult Matches
  result_of m p success = make_ok m
  result_of m p error = make_err p.errors
  result_of m p help_requested = make_help (help_message p)
  result_of m p version_requested = make_version (version p.root_cmd)

  -- `try_parse`, whose own matches are never null.
  unfoldable pub try_parse : List Text → Parser → ParseResult Matches
  try_parse ts p =
      let r = parse ts (some no_matches) p in
      result_of (matches_or r.matches no_matches) r.parser r.status

  unfoldable pub try_parse_argv : ℕ → List (Option Text) → Parser → ParseResult Matches
  try_parse_argv argc argv p =
      let r = parse_argv argc argv (some no_matches) p in
      result_of (matches_or r.matches no_matches) r.parser r.status
