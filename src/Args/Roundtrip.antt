-- ===== src/Args/Roundtrip.antt =====
-- What `Parser::parse` of src/arg/parser.cc reads back from a command line.
use fpag.Common.{true, Option, none, some, List, [], ◌∷◌, ◌++◌, Text}
use fpag.Common.{
  ◌≡◌, refl, sym, ◌∙◌, ap, All, arith, append_assoc, append-nil, Bool-cases, inl, inr,
}
use fpag.Args.Arg.{Arg, arg_name}
use fpag.Args.Command.{Command, args}
use fpag.Args.Matches.{Matches, has}
use fpag.Args.Session.{ParseError, success, Session, Step, proceed, stop_flags}
use fpag.Args.Parser.{run, step, by_form, use_plain, use_separator, dash}
use fpag.Args.Entry.{
  Parser, Parsed, parse, parse_impl, parse_into, finish, leave, missing_of, missing_in, is_missing,
  final_status,
}
use fpag.Args.Moves.{Elem, here, there}
use fpag.Args.Results.{IsServed}
use fpag.Args.Render.{Setting, render_all, apply_all, IsWellFormed}
use fpag.Args.Render.Runs.{reading, settings-run}

-- The arguments after "--" that are not empty.
unfoldable pub words : List Text → List Text
words [] = []
words ([] ∷ ts) = words ts
words ((c ∷ t) ∷ ts) = (c ∷ t) ∷ words ts

abbrev pub add_words : List Text → Matches → Matches
add_words ts m = record m { positionals = m.positionals ++ words ts }

served-missing_of :
    (xs : List Arg) (m : Matches)
    → ((a : Arg) → Elem a xs → a.is_required ≡ true → has m (arg_name a) ≡ true)
    → missing_of xs m ≡ []
unfolding missing_of is_missing
served-missing_of [] m h = refl
served-missing_of (x ∷ xs) m h =
    let later = served-missing_of xs m (λ a i. h a (there i)) in
    elim (Bool-cases x.is_required) [
      | inl e ↦ ground (arith, h x here e, later, e)
      | inr e ↦ ground (arith, later, e)
    ]

module _ (c : Command) (outer : List Command) (es : List ParseError) (hc : Option Command)
    (u : Option (List Text)) where
  abbrev separated : Matches → Session
  separated m = stop_flags (reading c outer es hc u m)

  abbrev with_positionals : Matches → List Text → Step
  with_positionals m l = proceed (separated (record m { positionals = l }))

  words-run :
      (ts : List Text) (m : Matches) → run ts (separated m) ≡ proceed (separated (add_words ts m))
  unfolding run words step use_plain
  words-run [] m = ap (with_positionals m) (sym (append-nil m.positionals))
  words-run ([] ∷ ts) m = words-run ts m
  words-run ((x ∷ t) ∷ ts) m =
      let w = x ∷ t in
      words-run ts (record m { positionals = m.positionals ++ (w ∷ []) })
      ∙ ap (with_positionals m) (append_assoc m.positionals (w ∷ []) (words ts))

  separator-run :
      (ts : List Text) (m : Matches)
      → run ((dash ∷ dash ∷ []) ∷ ts) (reading c outer es hc u m)
        ≡ proceed (separated (add_words ts m))
  unfolding run step by_form use_separator
  separator-run ts m = words-run ts m

-- The command line that sets the settings, and then gives the texts after "--".
abbrev pub command_line : Text → List Setting → List Text → List Text
command_line program xs ts = program ∷ (render_all xs ++ ((dash ∷ dash ∷ []) ∷ ts))

abbrev pub expected : Parser → Matches → Parsed
expected p m = record {
  status = success;
  parser = record { root_cmd = p.root_cmd; errors = []; help_command = none };
  matches = some m;
  unparsed = none;
}

-- A command line made of well-formed settings of the root command and of texts after "--" parses
-- with success into exactly the settings and the texts that are not empty, in their order, when the
-- settings have a match for each required argument of the root.
pub parse-render_all :
    (program : Text) (xs : List Setting) (ts : List Text) (m : Matches) (p : Parser)
    → All (IsWellFormed p.root_cmd) xs
    → IsServed (apply_all xs m) p.root_cmd
    → parse (command_line program xs ts) (some m) p ≡ expected p (add_words ts (apply_all xs m))
unfolding parse_impl parse_into missing_in
parse-render_all program xs ts m p w served =
    let root = p.root_cmd in
    let set = apply_all xs m in
    let e = settings-run root [] [] none none xs ((dash ∷ dash ∷ []) ∷ ts) m w in
    let d = separator-run root [] [] none none ts set in
    ap (finish p) (e ∙ d)
    ∙ ap
        (λ es.
          leave p (final_status es)
            (record (separated root [] [] none none (add_words ts set)) { errors = es }))
        (served-missing_of (args root) (add_words ts set) served.matched)
