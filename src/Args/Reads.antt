-- ===== src/Args/Reads.antt =====
-- The forms in which src/arg/parser.cc takes an argument without an error, in a parse that is not
-- partial.
use fpag.Common.{
  ℕ, ◌≡◌, Bool, true, false, not, ◌==◌, Option, none, some, List, [], ◌∷◌, ◌++◌, Text,
}
use fpag.Args.Arg.{Arg}
use fpag.Args.Command.{Command, args, name, subcommands, find_subcommand}
use fpag.Args.Session.{Session, add_match, add_plain, stop_flags, set_skip, descend, scope}
use fpag.Args.Parser.{dash, equal_sign, flag_value, is_valid_choice, head?}
use fpag.Args.Moves.{Elem, IsSub}

-- A command of the scope has the argument, under the long name.
pub record IsLong (s : Session) (key : Text) (a : Arg) : Type 0 where
  pub level : Command
  pub in_scope : Elem level (scope s)
  pub in_args : Elem a (args level)
  pub named : a.long_name ≡ key

-- The same for a letter.
pub record IsShort (s : Session) (x : ℕ) (a : Arg) : Type 0 where
  pub level : Command
  pub in_scope : Elem level (scope s)
  pub in_args : Elem a (args level)
  pub named : a.short_name ≡ some x

-- The letters of a cluster: flags, and a last option with its value behind it or in the next
-- argument.
pub data Letters : Session → Text → Option Text → Session → Type 0 where
  no_more : {s : Session} {n : Option Text} → Letters s [] n s
  flag_letter :
      {s u : Session} {n : Option Text} (a : Arg) (x : ℕ) (rest : Text)
      → IsShort s x a
      → a.is_flag ≡ true
      → is_valid_choice a flag_value ≡ true
      → Letters (add_match a flag_value s) rest n u
      → Letters s (x ∷ rest) n u
  attached :
      {s : Session} {n : Option Text} (a : Arg) (x c : ℕ) (v : Text)
      → IsShort s x a
      → a.is_flag ≡ false
      → is_valid_choice a (c ∷ v) ≡ true
      → Letters s (x ∷ c ∷ v) n (add_match a (c ∷ v) s)
  apart :
      {s : Session} (a : Arg) (x c : ℕ) (v : Text)
      → IsShort s x a
      → a.is_flag ≡ false
      → is_valid_choice a (c ∷ v) ≡ true
      → Letters s (x ∷ []) (some (c ∷ v)) (add_match a (c ∷ v) (set_skip true s))

-- A single byte, or a text that does not begin with a dash.
abbrev pub is_word : Text → Bool
is_word [] = false
is_word (c ∷ []) = true
is_word (c ∷ d ∷ t) = not (c == dash)

-- An argument while options are read, with the next one.
pub data Form : Session → Text → Option Text → Session → Type 0 where
  separator : {s : Session} {n : Option Text} → Form s (dash ∷ dash ∷ []) n (stop_flags s)
  long_flag :
      {s : Session} {n : Option Text} (a : Arg) (e : ℕ) (t key : Text)
      → e ∷ t ≡ key
      → IsLong s key a
      → a.is_flag ≡ true
      → is_valid_choice a flag_value ≡ true
      → Form s (dash ∷ dash ∷ e ∷ t) n (add_match a flag_value s)
  long_value :
      {s : Session} {n : Option Text} (a : Arg) (e : ℕ) (t key v : Text)
      → e ∷ t ≡ key ++ (equal_sign ∷ v)
      → IsLong s key a
      → a.is_flag ≡ false
      → is_valid_choice a v ≡ true
      → Form s (dash ∷ dash ∷ e ∷ t) n (add_match a v s)
  long_apart :
      {s : Session} (a : Arg) (e : ℕ) (t key : Text) (c : ℕ) (v : Text)
      → e ∷ t ≡ key
      → IsLong s key a
      → a.is_flag ≡ false
      → is_valid_choice a (c ∷ v) ≡ true
      → Form s (dash ∷ dash ∷ e ∷ t) (some (c ∷ v)) (add_match a (c ∷ v) (set_skip true s))
  cluster :
      {s u : Session} {n : Option Text} (x : ℕ) (rest : Text)
      → (x == dash) ≡ false
      → Letters s (x ∷ rest) n u
      → Form s (dash ∷ x ∷ rest) n u
  command :
      {s : Session} {n : Option Text} (t : Text) (sub : Command)
      → is_word t ≡ true
      → IsSub sub (subcommands s.current)
      → name sub ≡ t
      → Form s t n (descend sub s)
  word :
      {s : Session} {n : Option Text} (t : Text)
      → is_word t ≡ true
      → find_subcommand s.current t ≡ none
      → Form s t n (add_plain t s)

-- An argument: one that an option has taken already, an empty one, one behind the separator, or a
-- form.
pub data Read : Session → Text → Option Text → Session → Type 0 where
  taken : {s : Session} {t : Text} {n : Option Text} → s.skip ≡ true → Read s t n (set_skip false s)
  blank : {s : Session} {n : Option Text} → s.skip ≡ false → Read s [] n s
  behind :
      {s : Session} {t : Text} {n : Option Text}
      → s.skip ≡ false
      → s.stop_parsing_flags ≡ true
      → Read s t n (add_plain t s)
  form :
      {s u : Session} {t : Text} {n : Option Text}
      → s.skip ≡ false
      → s.stop_parsing_flags ≡ false
      → Form s t n u
      → Read s t n u

-- The arguments one after the other.
pub data Reads : Session → List Text → Session → Type 0 where
  at_end : {s : Session} → Reads s [] s
  one_more :
      {s u v : Session} {t : Text} {ts : List Text}
      → Read s t (head? ts) u
      → Reads u ts v
      → Reads s (t ∷ ts) v
