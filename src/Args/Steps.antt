-- ===== src/Args/Steps.antt =====
-- The loop of `Parser::parse_impl` against its changes.
use fpag.Common.{Bool, true, false, ◌&&◌, Option, none, some, List, [], ◌∷◌, Text, ◌≡◌, refl, ◌==◌}
use fpag.Common.{Bool-cases, split_if, split_option, arith, same_text, ℕ, inl, inr}
use fpag.Args.Arg.{Arg, arg_name, is_empty_text}
use fpag.Args.Command.{
  Command, args, subcommands, builtin_enabled, find_arg_by_long, find_arg_by_short, find_subcommand,
}
use fpag.Args.Session.{
  unknown_long_option, unknown_short_option, missing_value_for_option, flag_takes_no_value,
  invalid_choice, Session, add_match, set_skip, scope, Step, proceed, stop, ParseStatus,
}
use fpag.Args.Parser.{
  flag_value, is_valid_choice, record_value, take_next, use_long, unknown_long, long_levels,
  ShortOption, declared, help, version_of, unknown, find_short, use_short, unknown_short,
  short_letters, use_plain, use_word, use_separator, by_form, step, head?, run, dash, key_of,
  value_of, builtin_help_arg_long, builtin_version_arg_long, builtin_help_arg_short,
  builtin_version_arg_short,
}
use fpag.Args.Moves.{
  Elem, here, there, IsLegal, missing, no_value, choice, long, short, known, unknown_option,
  matched, plain, kept, descended, separated, skipped, Moves, done, next, one_move, chain, helped,
  versioned, Reaches, onward, find_long-Elem, find_short-Elem, find_command-IsSub,
}

-- A level of the scope and an argument that it declares.
record IsDeclared (s : Session) (a : Arg) : Type 0 where
  level : Command
  in_scope : Elem level (scope s)
  in_args : Elem a (args level)

match_legal :
    (s : Session) (a : Arg) (v : Text) → IsDeclared s a → IsLegal a v → Moves s (add_match a v s)
match_legal s a v d l = one_move (matched d.level a v d.in_scope d.in_args l)

record_value-Moves :
    (s : Session) (a : Arg) (v : Text)
    → IsDeclared s a
    → (a.is_flag ≡ true → v ≡ flag_value)
    → Moves s (record_value a v s)
unfolding record_value
record_value-Moves s a v d one = elim (Bool-cases (is_valid_choice a v)) [
  | inl e ↦ rw e (match_legal s a v d (record { valid = e; one = one }))
  | inr e ↦ rw e (one_move (known invalid_choice (arg_name a) v choice))
]

take_next-Moves :
    (s : Session) (a : Arg) (o : Text) (n : Option Text)
    → IsDeclared s a
    → a.is_flag ≡ false
    → Moves s (take_next a o n s)
unfolding take_next
take_next-Moves s a o none d f = one_move (known missing_value_for_option o [] missing)
take_next-Moves s a o (some []) d f = one_move (known missing_value_for_option o [] missing)
take_next-Moves s a o (some (c ∷ t)) d f = chain (one_move (skipped true)) (
    record_value-Moves (set_skip true s) a (c ∷ t)
      (record { level = d.level; in_scope = d.in_scope; in_args = d.in_args })
      (λ e. absurd (ground arith)))

use_long-Moves :
    (s : Session) (a : Arg) (key : Text) (v n : Option Text)
    → IsDeclared s a
    → Moves s (use_long a key v n s)
unfolding use_long
use_long-Moves s a key none n d =
    split_if (Moves s) a.is_flag (λ e. record_value-Moves s a flag_value d (λ h. refl))
      (λ e. take_next-Moves s a (dash ∷ dash ∷ key) n d e)
use_long-Moves s a key (some v) n d =
    split_if (Moves s) a.is_flag
      (λ e. one_move (known flag_takes_no_value (dash ∷ dash ∷ key) [] no_value))
      (λ e. record_value-Moves s a v d (λ h. absurd (ground arith)))

unknown_long-Moves : (s : Session) (raw key : Text) → Moves s (unknown_long raw key s)
unfolding unknown_long
unknown_long-Moves s raw key =
    split_if (Moves s) s.partial_mode (λ e. one_move (kept raw e))
      (λ e. one_move (unknown_option unknown_long_option key [] long e))

long_levels-Moves :
    (levels : List Command) (raw content : Text) (n : Option Text) (s : Session)
    → ((l : Command) → Elem l levels → Elem l (scope s))
    → Reaches s (long_levels levels raw content n s)
unfolding long_levels
long_levels-Moves [] raw content n s within = unknown_long-Moves s raw (key_of content)
long_levels-Moves (level ∷ levels) raw content n s within =
    let later = long_levels-Moves levels raw content n s (λ l m. within l (there m)) in
    split_option (Reaches s) (find_arg_by_long level (key_of content))
      (λ e.
        split_if (Reaches s) (builtin_enabled level && same_text content builtin_help_arg_long)
          (λ h. (s, done, helped level (within level here)))
          (λ h.
            split_if (Reaches s)
              (builtin_enabled level && same_text content builtin_version_arg_long)
              (λ v. (s, done, versioned)) (λ v. later)))
      (λ a e. use_long-Moves s a (key_of content) (value_of content) n (record {
        level = level;
        in_scope = within level here;
        in_args = find_long-Elem (args level) (key_of content) a e;
      }))

-- What `find_short` answers is declared in the scope.
IsFound : Session → ShortOption → Type 0
IsFound s (declared a) = IsDeclared s a
IsFound s (help level) = Elem level (scope s)
IsFound s version_of = Unit
IsFound s unknown = Unit

find_short-IsFound :
    (levels : List Command) (c : ℕ) (s : Session)
    → ((l : Command) → Elem l levels → Elem l (scope s))
    → IsFound s (find_short levels c)
unfolding find_short IsFound
find_short-IsFound [] c s within = tt
find_short-IsFound (level ∷ levels) c s within =
    let later = find_short-IsFound levels c s (λ l m. within l (there m)) in
    split_option (IsFound s) (find_arg_by_short level c)
      (λ e.
        split_if (IsFound s) (builtin_enabled level && c == builtin_help_arg_short)
          (λ h. within level here)
          (λ h.
            split_if (IsFound s) (builtin_enabled level && c == builtin_version_arg_short) (λ v. tt)
              (λ v. later)))
      (λ a e. record {
        level = level;
        in_scope = within level here;
        in_args = find_short-Elem (args level) c a e;
      })

-- A property of every branch on what `find_short` answers.
split_short :
    (P : Step → Type 0) (s : Session) (o : ShortOption) {d : Arg → Step} {h : Command → Step}
    {v u : Step}
    → IsFound s o
    → ((a : Arg) → IsDeclared s a → P (d a))
    → ((l : Command) → Elem l (scope s) → P (h l))
    → P v
    → P u
    → P (elim o [ help l ↦ h l | version_of ↦ v | unknown ↦ u | declared a ↦ d a ])
unfolding IsFound
split_short P s (declared a) found hd hh hv hu = hd a found
split_short P s (help level) found hd hh hv hu = hh level found
split_short P s version_of found hd hh hv hu = hv
split_short P s unknown found hd hh hv hu = hu

unknown_short-Moves : (s : Session) (raw : Text) (c : ℕ) → Moves s (unknown_short raw c s)
unfolding unknown_short
unknown_short-Moves s raw c =
    split_if (Moves s) s.partial_mode (λ e. one_move (kept raw e))
      (λ e. one_move (unknown_option unknown_short_option (c ∷ []) [] short e))

use_short-Moves :
    (s : Session) (a : Arg) (c : ℕ) (rest : Text) (n : Option Text)
    → IsDeclared s a
    → a.is_flag ≡ false
    → Moves s (use_short a c rest n s)
unfolding use_short
use_short-Moves s a c [] n d e = take_next-Moves s a (dash ∷ c ∷ []) n d e
use_short-Moves s a c (x ∷ rest) n d e =
    record_value-Moves s a (x ∷ rest) d (λ h. absurd (ground arith))

pub split_bool {κ μ} :
    {B : Type κ} (P : B → Type μ) (b : Bool) {x y : B}
    → (b ≡ true → P x)
    → (b ≡ false → P y)
    → P (elim b [ false ↦ y | true ↦ x ])
split_bool P true hx hy = hx refl
split_bool P false hx hy = hy refl

short_letters-Moves :
    (cluster raw : Text) (n : Option Text) (s : Session) → Reaches s (short_letters cluster raw n s)
unfolding short_letters
short_letters-Moves [] raw n s = done
short_letters-Moves (c ∷ rest) raw n s =
    split_short (Reaches s) s (find_short (scope s) c) (find_short-IsFound (scope s) c s (λ l m. m))
      (λ a d.
        split_bool (Reaches s) a.is_flag
          (λ f.
            split_bool (Reaches s) (is_valid_choice a flag_value)
              (λ v.
                onward (match_legal s a flag_value d (record { valid = v; one = λ h. refl }))
                  (short_letters rest raw n (add_match a flag_value s))
                  (short_letters-Moves rest raw n (add_match a flag_value s)))
              (λ v. one_move (known invalid_choice (arg_name a) flag_value choice)))
          (λ f. use_short-Moves s a c rest n d f))
      (λ l m. (s, done, helped l m)) (s, done, versioned) (unknown_short-Moves s raw c)

use_plain-Moves : (s : Session) (t : Text) → Moves s (use_plain t s)
unfolding use_plain
use_plain-Moves s t =
    split_if (Moves s) s.partial_mode (λ e. one_move (kept t e)) (λ e. one_move (plain t e))

use_word-Moves : (s : Session) (t : Text) → Moves s (use_word t s)
unfolding use_word
use_word-Moves s t =
    split_option (Moves s) (find_subcommand s.current t) (λ e. use_plain-Moves s t)
      (λ sub e. one_move (descended sub (find_command-IsSub (subcommands s.current) t sub e)))

use_separator-Moves : (s : Session) → Moves s (use_separator s)
unfolding use_separator
use_separator-Moves s =
    split_if (Moves s) s.partial_mode (λ e. next (one_move separated) (kept (dash ∷ dash ∷ []) e))
      (λ e. one_move separated)

by_form-Moves : (t : Text) (n : Option Text) (s : Session) → Reaches s (by_form t n s)
unfolding by_form
by_form-Moves [] n s = done
by_form-Moves (c ∷ []) n s = use_word-Moves s (c ∷ [])
by_form-Moves (c ∷ d ∷ []) n s =
    split_if (Reaches s) (c == dash)
      (λ e.
        split_if (Reaches s) (d == dash) (λ f. use_separator-Moves s)
          (λ f. short_letters-Moves (d ∷ []) (dash ∷ d ∷ []) n s))
      (λ e. use_word-Moves s (c ∷ d ∷ []))
by_form-Moves (c ∷ d ∷ x ∷ t) n s =
    split_if (Reaches s) (c == dash)
      (λ e.
        split_if (Reaches s) (d == dash)
          (λ f. long_levels-Moves (scope s) (dash ∷ dash ∷ x ∷ t) (x ∷ t) n s (λ l m. m))
          (λ f. short_letters-Moves (d ∷ x ∷ t) (dash ∷ d ∷ x ∷ t) n s))
      (λ e. use_word-Moves s (c ∷ d ∷ x ∷ t))

pub step-Moves : (t : Text) (n : Option Text) (s : Session) → Reaches s (step t n s)
unfolding step
step-Moves t n s =
    split_if (Reaches s) s.skip (λ e. one_move (skipped false))
      (λ e.
        split_if (Reaches s) (is_empty_text t) (λ f. done)
          (λ f.
            split_if (Reaches s) s.stop_parsing_flags (λ g. use_plain-Moves s t)
              (λ g. by_form-Moves t n s)))

-- A property of both outcomes of a step, under another that holds of the outcome.
pub split_step {μ κ} :
    (P : Step → Type μ) (Q : Step → Type κ) (o : Step) {f : Session → Step}
    → Q o
    → ((s : Session) → Q (proceed s) → P (f s))
    → ((st : ParseStatus) (s : Session) → Q (stop st s) → P (stop st s))
    → P (elim o [ proceed s ↦ f s | stop st s ↦ stop st s ])
split_step P Q (proceed s) q hp hs = hp s q
split_step P Q (stop st s) q hp hs = hs st s q

-- Whatever the loop does to a session is a sequence of its changes.
pub run-Moves : (ts : List Text) (s : Session) → Reaches s (run ts s)
unfolding run
run-Moves [] s = done
run-Moves (t ∷ ts) s =
    split_step (Reaches s) (Reaches s) (step t (head? ts) s) (step-Moves t (head? ts) s)
      (λ u m. onward m (run ts u) (run-Moves ts u)) (λ st u r. r)
