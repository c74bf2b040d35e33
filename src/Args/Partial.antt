-- ===== src/Args/Partial.antt =====
-- Partial parsing: `Parser::parse_partial` of src/arg/parser.cc.
use fpag.Common.{true, Option, some, List, [], ◌∷◌, ◌++◌, Text}
use fpag.Common.{◌≡◌, refl, ◌∙◌, All, split_if}
use fpag.Args.Arg.{Arg}
use fpag.Args.Command.{Command, args}
use fpag.Args.Matches.{Matches, no_matches}
use fpag.Args.Session.{missing_required_argument, Session, scope, Step, proceed, stop, ParseStatus}
use fpag.Args.Parser.{run}
use fpag.Args.Moves.{IsUnknown, Stop, helped, versioned, Reaches}
use fpag.Args.Steps.{run-Moves}
use fpag.Args.Safety.{IsSilent, IsModal, Moves-IsModal, Moves-fixed}
use fpag.Args.Entry.{
  Parser, Parsed, is_missing, missing_of, missing_in, start, finish, leave, tail, parse_into,
  parse_impl, parse_partial, partial_context, matches_or,
}

All-append {ℓ κ} :
    {A : Type ℓ} (P : A → Type κ) (xs ys : List A) → All P xs → All P ys → All P (xs ++ ys)
All-append P [] ys hx hy = hy
All-append P (x ∷ xs) ys hx hy = (hx.0, All-append P xs ys hx.1 hy)

missing-silent : ¬ (IsUnknown missing_required_argument)
missing-silent u = elim u [ ]

missing_of-IsSilent : (xs : List Arg) (m : Matches) → All IsSilent (missing_of xs m)
unfolding missing_of
missing_of-IsSilent [] m = tt
missing_of-IsSilent (a ∷ xs) m =
    split_if (All IsSilent) (is_missing a m) (λ e. (missing-silent, missing_of-IsSilent xs m))
      (λ e. missing_of-IsSilent xs m)

missing_in-IsSilent : (levels : List Command) (m : Matches) → All IsSilent (missing_in levels m)
unfolding missing_in
missing_in-IsSilent [] m = tt
missing_in-IsSilent (l ∷ levels) m =
    All-append IsSilent (missing_in levels m) (missing_of (args l) m) (missing_in-IsSilent levels m)
      (missing_of-IsSilent (args l) m)

abbrev IsQuiet : List Text → Parsed → Type 0
IsQuiet ps r = All IsSilent r.parser.errors × ((matches_or r.matches no_matches).positionals ≡ ps)

Stop-IsQuiet :
    (p : Parser) (ps : List Text) {s u : Session} {st : ParseStatus}
    → s.partial_mode ≡ true
    → IsModal ps s
    → Stop s st u
    → IsQuiet ps (leave p st u)
Stop-IsQuiet p ps e i (helped l m) = (i.reported e, i.positional e)
Stop-IsQuiet p ps e i versioned = (i.reported e, i.positional e)

finish-IsQuiet :
    (p : Parser) (s : Session) (o : Step)
    → s.partial_mode ≡ true
    → s.errors ≡ []
    → Reaches s o
    → IsQuiet s.matches.positionals (finish p o)
finish-IsQuiet p s (proceed t) e h r =
    let before : IsModal s.matches.positionals s = record {
      reported = λ q. rw h tt;
      positional = λ q. refl;
    } in
    let i = Moves-IsModal s.matches.positionals r before in
    let mode = (Moves-fixed r).1 ∙ e in
    (
      All-append IsSilent t.errors (missing_in (scope t) t.matches) (i.reported mode)
          (missing_in-IsSilent (scope t) t.matches),
      i.positional mode,
    )
finish-IsQuiet p s (stop st t) e h r =
    let before : IsModal s.matches.positionals s = record {
      reported = λ q. rw h tt;
      positional = λ q. refl;
    } in
    let i = Moves-IsModal s.matches.positionals r.1 before in
    Stop-IsQuiet p s.matches.positionals ((Moves-fixed r.1).1 ∙ e) i r.2

-- A partial parse reports no unknown option, and leaves the positional arguments of the matches as
-- they were.
pub parse_partial-IsQuiet :
    (ts : List Text) (m : Matches) (u : Option (List Text)) (p : Parser)
    → All IsSilent (parse_partial ts (some m) u p).parser.errors
      × ((matches_or (parse_partial ts (some m) u p).matches no_matches).positionals
          ≡ m.positionals)
unfolding parse_impl parse_into
parse_partial-IsQuiet ts m u p =
    let ctx = partial_context ts (some m) u in
    let s = start ctx m p.root_cmd in
    finish-IsQuiet p s (run (tail ts) s) refl refl (run-Moves (tail ts) s)
