-- ===== src/Args/Accepts.antt =====
-- What the loop of `Parser::parse_impl` makes of an argument when it reports no error.
use mathlib.Core.Path.{subst}
use fpag.Common.{
  ℕ, ◌≡◌, refl, sym, ap, ◌∙◌, arith, if◌then◌else◌, true, false, not, ◌&&◌, ◌==◌, ==_iff, Option,
  none, some, List, [], ◌∷◌, ◌++◌, Text, split_if, split_option, Bool-cases, inl, inr, same_text,
  same_text_iff,
}
use fpag.Args.Arg.{Arg, arg_name}
use fpag.Args.Command.{
  Command, Commands, nil, cons, args, name, subcommands, builtin_enabled, find_arg_by_long,
  find_arg_by_short, find_subcommand, find_long_in, find_short_in, find_command_in, is_short,
}
use fpag.Args.Session.{
  ParseError, ErrorCode, Session, add_error, add_match, set_skip, scope, Step, proceed, stop,
}
use fpag.Args.Parser.{
  dash, equal_sign, flag_value, is_valid_choice, key_of, value_of, record_value, take_next,
  use_long, unknown_long, long_levels, ShortOption, declared, help, version_of, unknown, find_short,
  use_short, unknown_short, short_letters, short_options, long_option, use_plain, use_word,
  use_separator, by_form, step, head?, run, builtin_help_arg_long, builtin_version_arg_long,
  builtin_help_arg_short, builtin_version_arg_short,
}
use fpag.Args.Moves.{
  Elem, here, there, Moves, done, next, Move, known, unknown_option, matched, plain, kept,
  descended, separated, skipped, Reaches, find_long-Elem, find_short-Elem, find_command-IsSub,
}
use fpag.Args.Steps.{step-Moves, run-Moves, split_bool, split_step}
use fpag.Args.Safety.{Moves-fixed}
use fpag.Args.Reads.{
  IsLong, IsShort, Letters, no_more, flag_letter, attached, apart, is_word, Form, separator,
  long_flag, long_value, long_apart, cluster, command, word, Read, taken, blank, behind, form,
  Reads, at_end, one_more,
}

-- Where the parse goes on without an error, the session is as R says.
abbrev pub Accepts : (Session → Type 0) → Step → Type 0
Accepts R (proceed t) = t.errors ≡ [] → R t
Accepts R (stop st t) = Unit

refused :
    (R : Session → Type 0) (s : Session) (c : ErrorCode) (t v : Text)
    → Accepts R (proceed (add_error c t v s))
refused R s c t v = λ e. absurd (full s.errors _ e)
  where
    full : (es : List ParseError) (x : ParseError) → es ++ (x ∷ []) ≡ [] → ⊥
    full [] x h = ground arith
    full (y ∷ es) x h = ground arith

long_name_lem : (xs : List Arg) (t : Text) (a : Arg) → find_long_in xs t ≡ some a → a.long_name ≡ t
unfolding find_long_in
long_name_lem [] t a h = absurd (ground arith)
long_name_lem (x ∷ xs) t a h = elim (Bool-cases (same_text x.long_name t)) [
  | inl e ↦
      let y : x ≡ a = ground arith in
      subst (λ b. b.long_name ≡ t) y ((same_text_iff x.long_name t).0 e)
  | inr e ↦ long_name_lem xs t a (ground arith)
]

short_name_lem :
    (xs : List Arg) (c : ℕ) (a : Arg) → find_short_in xs c ≡ some a → a.short_name ≡ some c
unfolding find_short_in
short_name_lem [] c a h = absurd (ground arith)
short_name_lem (x ∷ xs) c a h = elim (Bool-cases (is_short x.short_name c)) [
  | inl e ↦
      let y : x ≡ a = ground arith in subst (λ b. b.short_name ≡ some c) y (letter x.short_name e)
  | inr e ↦ short_name_lem xs c a (ground arith)
]
  where
    letter : (o : Option ℕ) → is_short o c ≡ true → o ≡ some c
    letter none e = absurd (ground arith)
    letter (some d) e = ap some ((==_iff d c).0 e)

command_name_lem :
    (cs : Commands) (t : Text) (c : Command) → find_command_in cs t ≡ some c → name c ≡ t
unfolding find_command_in
command_name_lem nil t c h = absurd (ground arith)
command_name_lem (cons d cs) t c h = elim (Bool-cases (same_text (name d) t)) [
  | inl e ↦
      let y : d ≡ c = ground arith in subst (λ b. name b ≡ t) y ((same_text_iff (name d) t).0 e)
  | inr e ↦ command_name_lem cs t c (ground arith)
]

-- The text of a long option against its key and its value.
abbrev Parts : Text → Text → Option Text → Type 0
Parts t key none = t ≡ key
Parts t key (some v) = t ≡ key ++ (equal_sign ∷ v)

Parts-cons : (c : ℕ) (t key : Text) (o : Option Text) → Parts t key o → Parts (c ∷ t) (c ∷ key) o
Parts-cons c t key none h = ap (◌∷◌ c) h
Parts-cons c t key (some v) h = ap (◌∷◌ c) h

parts_lem : (t : Text) → Parts t (key_of t) (value_of t)
unfolding key_of value_of
parts_lem [] = refl
parts_lem (c ∷ t) = elim (Bool-cases (c == equal_sign)) [
  | inl e ↦ rw e (ap (λ d. d ∷ t) ((==_iff c equal_sign).0 e))
  | inr e ↦ rw e (Parts-cons c t (key_of t) (value_of t) (parts_lem t))
]

record_value_lem :
    (R : Session → Type 0) (a : Arg) (v : Text) (s : Session)
    → (is_valid_choice a v ≡ true → R (add_match a v s))
    → Accepts R (proceed (record_value a v s))
unfolding record_value
record_value_lem R a v s h =
    split_if (λ u. Accepts R (proceed u)) (is_valid_choice a v) (λ e f. h e)
      (λ e. refused R s _ (arg_name a) v)

take_next_lem :
    (R : Option Text → Session → Type 0) (a : Arg) (o : Text) (n : Option Text) (s : Session)
    → ((c : ℕ) (v : Text)
        → is_valid_choice a (c ∷ v) ≡ true
        → R (some (c ∷ v)) (add_match a (c ∷ v) (set_skip true s)))
    → Accepts (R n) (proceed (take_next a o n s))
unfolding take_next
take_next_lem R a o none s h = refused (R none) s _ o []
take_next_lem R a o (some []) s h = refused (R (some [])) s _ o []
take_next_lem R a o (some (c ∷ v)) s h =
    record_value_lem (R (some (c ∷ v))) a (c ∷ v) (set_skip true s) (h c v)

use_long_lem :
    (a : Arg) (e : ℕ) (t key : Text) (o n : Option Text) (s : Session)
    → Parts (e ∷ t) key o
    → IsLong s key a
    → Accepts (Form s (dash ∷ dash ∷ e ∷ t) n) (proceed (use_long a key o n s))
unfolding use_long
use_long_lem a e t key none n s p l =
    split_if (λ u. Accepts (Form s (dash ∷ dash ∷ e ∷ t) n) (proceed u)) a.is_flag
      (λ f.
        record_value_lem (Form s (dash ∷ dash ∷ e ∷ t) n) a flag_value s
          (long_flag a e t key p l f))
      (λ f.
        take_next_lem (Form s (dash ∷ dash ∷ e ∷ t)) a (dash ∷ dash ∷ key) n s
          (λ c v h. long_apart a e t key c v p l f h))
use_long_lem a e t key (some v) n s p l =
    let R = Form s (dash ∷ dash ∷ e ∷ t) n in
    split_if (λ u. Accepts R (proceed u)) a.is_flag (λ f. refused R s _ (dash ∷ dash ∷ key) [])
      (λ f. record_value_lem R a v s (long_value a e t key v p l f))

unknown_long_lem :
    (R : Session → Type 0) (raw key : Text) (s : Session)
    → s.partial_mode ≡ false
    → Accepts R (proceed (unknown_long raw key s))
unfolding unknown_long
unknown_long_lem R raw key s full =
    split_if (λ u. Accepts R (proceed u)) s.partial_mode (λ e. absurd (ground (arith, e, full)))
      (λ e. refused R s _ key [])

long_levels_lem :
    (levels : List Command) (raw : Text) (e : ℕ) (t : Text) (n : Option Text) (s : Session)
    → s.partial_mode ≡ false
    → ((l : Command) → Elem l levels → Elem l (scope s))
    → Accepts (Form s (dash ∷ dash ∷ e ∷ t) n) (long_levels levels raw (e ∷ t) n s)
unfolding long_levels
long_levels_lem [] raw e t n s full within =
    unknown_long_lem (Form s (dash ∷ dash ∷ e ∷ t) n) raw (key_of (e ∷ t)) s full
long_levels_lem (level ∷ levels) raw e t n s full within =
    let R = Form s (dash ∷ dash ∷ e ∷ t) n in
    let key = key_of (e ∷ t) in
    let later = long_levels_lem levels raw e t n s full (λ l m. within l (there m)) in
    split_option (Accepts R) (find_arg_by_long level key)
      (λ _.
        split_if (Accepts R) (builtin_enabled level && same_text (e ∷ t) builtin_help_arg_long)
          (λ _. tt)
          (λ _.
            split_if (Accepts R)
              (builtin_enabled level && same_text (e ∷ t) builtin_version_arg_long) (λ _. tt)
              (λ _. later)))
      (λ a h. use_long_lem a e t key (value_of (e ∷ t)) n s (parts_lem (e ∷ t)) (record {
        level = level;
        in_scope = within level here;
        in_args = find_long-Elem (args level) key a h;
        named = long_name_lem (args level) key a h;
      }))

-- What `find_short` answers has the letter.
IsLetter : Session → ℕ → ShortOption → Type 0
IsLetter s x (declared a) = IsShort s x a
IsLetter s x (help level) = Unit
IsLetter s x version_of = Unit
IsLetter s x unknown = Unit

find_short-IsLetter :
    (levels : List Command) (x : ℕ) (s : Session)
    → ((l : Command) → Elem l levels → Elem l (scope s))
    → IsLetter s x (find_short levels x)
unfolding find_short IsLetter
find_short-IsLetter [] x s within = tt
find_short-IsLetter (level ∷ levels) x s within =
    let later = find_short-IsLetter levels x s (λ l m. within l (there m)) in
    split_option (IsLetter s x) (find_arg_by_short level x)
      (λ _.
        split_if (IsLetter s x) (builtin_enabled level && x == builtin_help_arg_short) (λ _. tt)
          (λ _.
            split_if (IsLetter s x) (builtin_enabled level && x == builtin_version_arg_short)
              (λ _. tt) (λ _. later)))
      (λ a h. record {
        level = level;
        in_scope = within level here;
        in_args = find_short-Elem (args level) x a h;
        named = short_name_lem (args level) x a h;
      })

split_letter :
    (P : Step → Type 0) (s : Session) (x : ℕ) (o : ShortOption) {d : Arg → Step}
    {h : Command → Step} {v u : Step}
    → IsLetter s x o
    → ((a : Arg) → IsShort s x a → P (d a))
    → ((l : Command) → P (h l))
    → P v
    → P u
    → P (elim o [ help l ↦ h l | version_of ↦ v | unknown ↦ u | declared a ↦ d a ])
unfolding IsLetter
split_letter P s x (declared a) l hd hh hv hu = hd a l
split_letter P s x (help level) l hd hh hv hu = hh level
split_letter P s x version_of l hd hh hv hu = hv
split_letter P s x unknown l hd hh hv hu = hu

Accepts-map :
    (R Q : Session → Type 0) (o : Step) → ((u : Session) → R u → Q u) → Accepts R o → Accepts Q o
Accepts-map R Q (proceed u) f h = λ e. f u (h e)
Accepts-map R Q (stop st u) f h = tt

use_short_lem :
    (a : Arg) (x : ℕ) (rest : Text) (n : Option Text) (s : Session)
    → IsShort s x a
    → a.is_flag ≡ false
    → Accepts (Letters s (x ∷ rest) n) (proceed (use_short a x rest n s))
unfolding use_short
use_short_lem a x [] n s l f =
    take_next_lem (Letters s (x ∷ [])) a (dash ∷ x ∷ []) n s (λ c v h. apart a x c v l f h)
use_short_lem a x (c ∷ v) n s l f =
    record_value_lem (Letters s (x ∷ c ∷ v) n) a (c ∷ v) s (attached a x c v l f)

unknown_short_lem :
    (R : Session → Type 0) (raw : Text) (x : ℕ) (s : Session)
    → s.partial_mode ≡ false
    → Accepts R (proceed (unknown_short raw x s))
unfolding unknown_short
unknown_short_lem R raw x s full =
    split_if (λ u. Accepts R (proceed u)) s.partial_mode (λ e. absurd (ground (arith, e, full)))
      (λ e. refused R s _ (x ∷ []) [])

short_letters_lem :
    (letters raw : Text) (n : Option Text) (s : Session)
    → s.partial_mode ≡ false
    → Accepts (Letters s letters n) (short_letters letters raw n s)
unfolding short_letters
short_letters_lem [] raw n s full = λ e. no_more
short_letters_lem (x ∷ rest) raw n s full =
    let R = Letters s (x ∷ rest) n in
    split_letter (Accepts R) s x (find_short (scope s) x)
      (find_short-IsLetter (scope s) x s (λ l m. m))
      (λ a l.
        split_bool (Accepts R) a.is_flag
          (λ f.
            split_bool (Accepts R) (is_valid_choice a flag_value)
              (λ v.
                let set = add_match a flag_value s in
                Accepts-map (Letters set rest n) R (short_letters rest raw n set)
                  (λ u r. flag_letter a x rest l f v r) (short_letters_lem rest raw n set full))
              (λ v. refused R s _ (arg_name a) flag_value))
          (λ f. use_short_lem a x rest n s l f))
      (λ l. tt) tt (unknown_short_lem R raw x s full)

use_word_lem :
    (t : Text) (n : Option Text) (s : Session)
    → s.partial_mode ≡ false
    → is_word t ≡ true
    → Accepts (Form s t n) (proceed (use_word t s))
unfolding use_word use_plain
use_word_lem t n s full w =
    let R = λ (u : Session). Accepts (Form s t n) (proceed u) in
    split_option R (find_subcommand s.current t)
      (λ h. split_if R s.partial_mode (λ e. absurd (ground (arith, e, full))) (λ e f. word t w h))
      (λ sub h f.
        command t sub w (find_command-IsSub (subcommands s.current) t sub h)
          (command_name_lem (subcommands s.current) t sub h))

use_separator_lem :
    (n : Option Text) (s : Session)
    → s.partial_mode ≡ false
    → Accepts (Form s (dash ∷ dash ∷ []) n) (proceed (use_separator s))
unfolding use_separator
use_separator_lem n s full =
    split_if (λ u. Accepts (Form s (dash ∷ dash ∷ []) n) (proceed u)) s.partial_mode
      (λ e. absurd (ground (arith, e, full))) (λ e f. separator)

short_options_lem :
    (x : ℕ) (rest : Text) (n : Option Text) (s : Session)
    → s.partial_mode ≡ false
    → (x == dash) ≡ false
    → Accepts (Form s (dash ∷ x ∷ rest) n) (short_options (x ∷ rest) n s)
short_options_lem x rest n s full e =
    let letters = short_letters (x ∷ rest) (dash ∷ x ∷ rest) n s in
    Accepts-map (Letters s (x ∷ rest) n) (Form s (dash ∷ x ∷ rest) n) letters
      (λ u r. cluster x rest e r) (short_letters_lem (x ∷ rest) (dash ∷ x ∷ rest) n s full)

-- Whatever begins with a dash, once the first byte is known to be one.
dashed :
    (c : ℕ) (t : Text) (n : Option Text) (s : Session) (o : Step)
    → (c == dash) ≡ true
    → Accepts (Form s (dash ∷ t) n) o
    → Accepts (Form s (c ∷ t) n) o
dashed c t n s o e h = subst (λ k. Accepts (Form s (k ∷ t) n) o) (sym ((==_iff c dash).0 e)) h

twice_dashed :
    (d : ℕ) (t : Text) (n : Option Text) (s : Session) (o : Step)
    → (d == dash) ≡ true
    → Accepts (Form s (dash ∷ dash ∷ t) n) o
    → Accepts (Form s (dash ∷ d ∷ t) n) o
twice_dashed d t n s o e h =
    subst (λ k. Accepts (Form s (dash ∷ k ∷ t) n) o) (sym ((==_iff d dash).0 e)) h

by_form_lem :
    (c : ℕ) (t : Text) (n : Option Text) (s : Session)
    → s.partial_mode ≡ false
    → Accepts (Form s (c ∷ t) n) (by_form (c ∷ t) n s)
unfolding by_form
by_form_lem c [] n s full = use_word_lem (c ∷ []) n s full refl
by_form_lem c (d ∷ []) n s full =
    split_if (Accepts (Form s (c ∷ d ∷ []) n)) (c == dash)
      (λ e.
        dashed c (d ∷ []) n s
          (if d == dash then proceed (use_separator s) else short_options (d ∷ []) n s) e
          (split_if (Accepts (Form s (dash ∷ d ∷ []) n)) (d == dash)
            (λ f. twice_dashed d [] n s (proceed (use_separator s)) f (use_separator_lem n s full))
            (λ f. short_options_lem d [] n s full f)))
      (λ e. use_word_lem (c ∷ d ∷ []) n s full (ap not e))
by_form_lem c (d ∷ x ∷ t) n s full =
    split_if (Accepts (Form s (c ∷ d ∷ x ∷ t) n)) (c == dash)
      (λ e.
        dashed c (d ∷ x ∷ t) n s
          (if d == dash then long_option (x ∷ t) n s else short_options (d ∷ x ∷ t) n s) e
          (split_if (Accepts (Form s (dash ∷ d ∷ x ∷ t) n)) (d == dash)
            (λ f.
              twice_dashed d (x ∷ t) n s (long_option (x ∷ t) n s) f
                (long_levels_lem (scope s) (dash ∷ dash ∷ x ∷ t) x t n s full (λ l m. m)))
            (λ f. short_options_lem d (x ∷ t) n s full f)))
      (λ e. use_word_lem (c ∷ d ∷ x ∷ t) n s full (ap not e))

step_lem :
    (t : Text) (n : Option Text) (s : Session)
    → s.partial_mode ≡ false
    → Accepts (Read s t n) (step t n s)
unfolding step use_plain
step_lem [] n s full = split_if (Accepts (Read s [] n)) s.skip (λ k e. taken k) (λ k e. blank k)
step_lem (c ∷ t) n s full =
    split_if (Accepts (Read s (c ∷ t) n)) s.skip (λ k e. taken k)
      (λ k.
        split_if (Accepts (Read s (c ∷ t) n)) s.stop_parsing_flags
          (λ g.
            split_if (λ u. Accepts (Read s (c ∷ t) n) (proceed u)) s.partial_mode
              (λ e. absurd (ground (arith, e, full))) (λ e f. behind k g))
          (λ g.
            Accepts-map (Form s (c ∷ t) n) (Read s (c ∷ t) n) (by_form (c ∷ t) n s)
              (λ u r. form k g r) (by_form_lem c t n s full)))

-- Errors stay.
Move-errors : {s t : Session} → Move s t → t.errors ≡ [] → s.errors ≡ []
Move-errors (known {s} c t v k) e = absurd (refused (λ u. ⊥) s c t v e)
Move-errors (unknown_option {s} c t v k p) e = absurd (refused (λ u. ⊥) s c t v e)
Move-errors (matched level a v m d l) e = e
Move-errors (plain t p) e = e
Move-errors (kept t p) e = e
Move-errors (descended sub m) e = e
Move-errors separated e = e
Move-errors (skipped b) e = e

Moves-errors : {s t : Session} → Moves s t → t.errors ≡ [] → s.errors ≡ []
Moves-errors done e = e
Moves-errors (next q m) e = Moves-errors q (Move-errors m e)

go_on :
    (s u : Session) (t : Text) (ts : List Text) (o : Step)
    → (u.errors ≡ [] → Read s t (head? ts) u)
    → Reaches u o
    → Accepts (Reads u ts) o
    → Accepts (Reads s (t ∷ ts)) o
go_on s u t ts (proceed v) r m h = λ e. one_more (r (Moves-errors m e)) (h e)
go_on s u t ts (stop st v) r m h = tt

-- A parse that is not partial and goes to the end of its arguments without an error has read each.
pub run-Reads :
    (ts : List Text) (s : Session) → s.partial_mode ≡ false → Accepts (Reads s ts) (run ts s)
unfolding run
run-Reads [] s full = λ e. at_end
run-Reads (t ∷ ts) s full =
    let o = step t (head? ts) s in
    split_step (Accepts (Reads s (t ∷ ts))) (λ o. Reaches s o × Accepts (Read s t (head? ts)) o) o
      (step-Moves t (head? ts) s, step_lem t (head? ts) s full)
      (λ u q.
        go_on s u t ts (run ts u) q.1 (run-Moves ts u)
          (run-Reads ts u ((Moves-fixed q.0).1 ∙ full)))
      (λ st u q. tt)
