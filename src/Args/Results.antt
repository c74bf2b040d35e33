-- ===== src/Args/Results.antt =====
-- What a finished parse of src/arg/parser.cc has established.
use fpag.Common.{true, false, Option, none, some, List, [], ◌∷◌, ◌++◌, Text}
use fpag.Common.{◌≡◌, ◌≢◌, refl, map, take, ◌∙◌, ℕ, All, split_if, split_option, arith}
use fpag.Args.Arg.{Arg, arg_name}
use fpag.Args.Command.{Command, args, version}
use fpag.Args.Matches.{Matches, no_matches, has}
use fpag.Args.Session.{
  null_matches_pointer, invalid_arg_count, ParseError, ParseStatus, success, error, help_requested,
  version_requested, Session, scope, Step, proceed, stop,
}
use fpag.Args.Parser.{run}
use fpag.Args.Moves.{Elem, here, there, Stop, helped, versioned, Reaches}
use fpag.Args.Steps.{run-Moves}
use fpag.Args.Reads.{Reads}
use fpag.Args.Accepts.{Accepts, run-Reads}
use fpag.Args.Safety.{
  IsChain, at_root, InTree, IsChain-InTree, IsRecorded, IsSound, Moves-IsSound, Moves-fixed,
}
use fpag.Args.Entry.{
  Parser, ParseContext, Parsed, is_missing, missing_of, missing_in, check_required, is_empty_errors,
  final_status, start, leave, finish, tail, parse_into, parse_impl, full_context, ParseResult,
  make_ok, make_err, make_help, make_version, result_of, matches_or, try_parse, parse_counted,
  try_parse_argv, is_positive, from_argv, to_string,
}

-- Every required argument of a command has a match.
pub record IsServed (m : Matches) (level : Command) : Type 0 where
  pub matched : (a : Arg) → Elem a (args level) → a.is_required ≡ true → has m (arg_name a) ≡ true

missing_of-served :
    (xs : List Arg) (m : Matches)
    → missing_of xs m ≡ []
    → (a : Arg) → Elem a xs
    → a.is_required ≡ true
    → has m (arg_name a) ≡ true
unfolding missing_of is_missing
missing_of-served [] m h a i r = elim i [ ]
missing_of-served (x ∷ xs) m h _ here r = ground arith
missing_of-served (x ∷ xs) m h a (there i) r = missing_of-served xs m (ground arith) a i r

append-empty {ℓ} : {A : Type ℓ} (xs ys : List A) → xs ++ ys ≡ [] → (xs ≡ []) × (ys ≡ [])
append-empty [] ys h = (refl, h)
append-empty (x ∷ xs) ys h = absurd (ground arith)

missing_in-IsServed :
    (levels : List Command) (m : Matches)
    → missing_in levels m ≡ []
    → (l : Command) → Elem l levels
    → IsServed m l
unfolding missing_in
missing_in-IsServed [] m h l i = elim i [ ]
missing_in-IsServed (level ∷ levels) m h _ here =
    let e = (append-empty (missing_in levels m) (missing_of (args level) m) h).1 in
    record { matched = missing_of-served (args level) m e }
missing_in-IsServed (level ∷ levels) m h l (there i) =
    let e = (append-empty (missing_in levels m) (missing_of (args level) m) h).0 in
    missing_in-IsServed levels m e l i

-- What the status says of the parser that it comes with.
abbrev pub IsAgreed : Command → ParseStatus → Parser → Type 0
IsAgreed root success p = p.errors ≡ []
IsAgreed root error p = p.errors ≢ []
IsAgreed root help_requested p = (c : Command) × (p.help_command ≡ some c) × InTree root c
IsAgreed root version_requested p = p.help_command ≡ none

final_status-IsAgreed :
    (root c : Command) (es : List ParseError) (h : Option Command)
    → IsAgreed root (final_status es) (record { root_cmd = c; errors = es; help_command = h })
final_status-IsAgreed root c [] h = refl
final_status-IsAgreed root c (e ∷ es) h = λ e. absurd (ground arith)

snoc-not_empty {ℓ} : {A : Type ℓ} (xs : List A) (x : A) → xs ++ (x ∷ []) ≢ []
snoc-not_empty [] x h = absurd (ground arith)
snoc-not_empty (y ∷ ys) x h = absurd (ground arith)

-- The session that a parse begins.
pub start-IsSound :
    (ctx : ParseContext) (m : Matches) (root : Command) → IsSound root m (start ctx m root)
start-IsSound ctx m root = record { chain = at_root; recorded = λ h. h }

Stop-IsAgreed :
    (p : Parser) {s u : Session} {st : ParseStatus}
    → ((l : Command) → Elem l (scope s) → InTree p.root_cmd l)
    → s.help_command ≡ none
    → Stop s st u
    → IsAgreed p.root_cmd st (leave p st u).parser
Stop-IsAgreed p within e (helped level i) = (level, refl, within level i)
Stop-IsAgreed p within e versioned = e

finish-IsAgreed :
    (p : Parser) (m : Matches) (s : Session) (o : Step)
    → IsSound p.root_cmd m s
    → s.help_command ≡ none
    → Reaches s o
    → IsAgreed p.root_cmd (finish p o).status (finish p o).parser
finish-IsAgreed p m s (proceed t) i e r =
    let es = (check_required t).errors in
    final_status-IsAgreed p.root_cmd p.root_cmd es t.help_command
finish-IsAgreed p m s (stop st t) i e r =
    let sound = Moves-IsSound p.root_cmd m r.1 i in
    Stop-IsAgreed p (λ l d. IsChain-InTree sound.chain d) ((Moves-fixed r.1).0 ∙ e) r.2

-- `parse_impl` leaves the parser as its status says: no error on success, at least one on error, a
-- command of the tree as the one whose help is asked for, and none when the version is.
pub parse_impl-IsAgreed :
    (ctx : ParseContext) (p : Parser)
    → IsAgreed p.root_cmd (parse_impl ctx p).status (parse_impl ctx p).parser
unfolding parse_impl parse_into
parse_impl-IsAgreed ctx p =
    split_option (λ (r : Parsed). IsAgreed p.root_cmd r.status r.parser) ctx.matches
      (λ e.
        snoc-not_empty p.errors (record { code = null_matches_pointer; context = []; value = [] }))
      (λ m e.
        finish-IsAgreed p m (start ctx m p.root_cmd) (run (tail ctx.args) (start ctx m p.root_cmd))
          (start-IsSound ctx m p.root_cmd) refl
          (run-Moves (tail ctx.args) (start ctx m p.root_cmd)))

-- The session in which a parse that is not partial begins.
abbrev pub first_session : Command → Session
first_session root = start (full_context [] (some no_matches)) no_matches root

-- An accepted command line and its matches: the arguments behind the program's name are read one
-- after the other in a form that the commands declare, and this leaves the matches. The path leads
-- down the tree, every value is declared and legal, and no command of the path lacks a required
-- argument.
pub record IsAccepted (root : Command) (ts : List Text) (m : Matches) : Type 0 where
  pub last : Session
  pub reads : Reads (first_session root) (tail ts) last
  pub result : last.matches ≡ m
  pub levels : List Command
  pub chain : IsChain root [] levels m.command_path
  pub recorded : All (IsRecorded root) m.values
  pub served : (l : Command) → Elem l levels → IsServed m l

empty_errors : (es : List ParseError) → is_empty_errors es ≡ true → es ≡ []
empty_errors [] h = refl
empty_errors (e ∷ es) h = absurd (ground arith)

some_errors : (es : List ParseError) → is_empty_errors es ≡ false → es ≢ []
some_errors [] h = absurd (ground arith)
some_errors (e ∷ es) h = λ h. absurd (ground arith)

IsSound-IsAccepted :
    (root : Command) (ts : List Text) (t : Session)
    → IsSound root no_matches t
    → Accepts (Reads (first_session root) (tail ts)) (proceed t)
    → (check_required t).errors ≡ []
    → IsAccepted root ts t.matches
IsSound-IsAccepted root ts t i read e =
    let (none_before, none_missing) = append-empty t.errors (missing_in (scope t) t.matches) e in
    record {
      last = t;
      reads = read none_before;
      result = refl;
      levels = scope t;
      chain = i.chain;
      recorded = i.recorded tt;
      served = missing_in-IsServed (scope t) t.matches none_missing;
    }

module _ (format_help : Command → Text) where
  -- What every result of `try_parse` says.
  abbrev pub IsOutcome : Command → List Text → ParseResult Matches → Type 0
  IsOutcome root ts (make_ok m) = IsAccepted root ts m
  IsOutcome root ts (make_err es) = es ≢ []
  IsOutcome root ts (make_help t) = (c : Command) × InTree root c × (t ≡ format_help c)
  IsOutcome root ts (make_version t) = t ≡ version root

  abbrev returned : Parsed → ParseResult Matches
  returned r = result_of format_help (matches_or r.matches no_matches) r.parser r.status

  Stop-IsOutcome :
      (p : Parser) (ts : List Text) {s u : Session} {st : ParseStatus}
      → ((l : Command) → Elem l (scope s) → InTree p.root_cmd l)
      → Stop s st u
      → IsOutcome p.root_cmd ts (returned (leave p st u))
  Stop-IsOutcome p ts within (helped level i) = (level, within level i, refl)
  Stop-IsOutcome p ts within versioned = refl

  finish-IsOutcome :
      (p : Parser) (ts : List Text) (s : Session) (o : Step)
      → IsSound p.root_cmd no_matches s
      → Reaches s o
      → Accepts (Reads (first_session p.root_cmd) (tail ts)) o
      → IsOutcome p.root_cmd ts (returned (finish p o))
  finish-IsOutcome p ts s (proceed t) i r h =
      let es = (check_required t).errors in
      split_if
        (λ (st : ParseStatus). IsOutcome p.root_cmd ts (returned (leave p st (check_required t))))
        (is_empty_errors es)
        (λ e.
          IsSound-IsAccepted p.root_cmd ts t (Moves-IsSound p.root_cmd no_matches r i) h
            (empty_errors es e))
        (λ e. some_errors es e)
  finish-IsOutcome p ts s (stop st t) i r h =
      let sound = Moves-IsSound p.root_cmd no_matches r.1 i in
      Stop-IsOutcome p ts (λ l d. IsChain-InTree sound.chain d) r.2

  parse_into-IsOutcome :
      (ts : List Text) (p : Parser)
      → IsOutcome p.root_cmd ts
          (returned (parse_into no_matches (full_context ts (some no_matches)) p))
  unfolding parse_into
  parse_into-IsOutcome ts p =
      let s = first_session p.root_cmd in
      let sound = start-IsSound (full_context ts (some no_matches)) no_matches p.root_cmd in
      finish-IsOutcome p ts s (run (tail ts) s) sound (run-Moves (tail ts) s)
        (run-Reads (tail ts) s refl)

  -- `try_parse` answers with matches only when each argument behind the program's name is read in a
  -- form of an argument, a command or a word that the scope admits there, one after the other, and
  -- they are what this leaves; when the path they hold leads down the command tree from the root, every recorded value is of an argument declared in the tree, among its choices and
  -- "1" for a flag, and each command of the path has a match for each of its required arguments.
  -- An error result has at least one error, a help result is the help of a command of the tree, and
  -- a version result the version of the root. Both overloads have this.
  pub try_parse-IsOutcome :
      (ts : List Text) (argc : ℕ) (argv : List (Option Text)) (p : Parser)
      → IsOutcome p.root_cmd ts (try_parse format_help ts p)
        × IsOutcome p.root_cmd
            (map from_argv (take argc argv))
            (try_parse_argv format_help argc argv p)
  unfolding try_parse try_parse_argv parse_impl parse_counted
  try_parse-IsOutcome ts argc argv p = (
    parse_into-IsOutcome ts p,
    split_if (λ (r : Parsed). IsOutcome p.root_cmd (map from_argv (take argc argv)) (returned r))
        (is_positive argc) (λ e. parse_into-IsOutcome (map from_argv (take argc argv)) p)
        (λ e.
          snoc-not_empty p.errors
            (record { code = invalid_arg_count; context = to_string argc; value = [] })),
  )
