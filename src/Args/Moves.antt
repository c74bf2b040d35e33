-- ===== src/Args/Moves.antt =====
-- The changes that the loop of `Parser::parse_impl` makes, as a step relation on the session.
use fpag.Common.{Bool, true, false, some, List, [], ◌∷◌, Text, ◌≡◌, ℕ, inl, inr}
use fpag.Common.{Bool-cases, arith, same_text}
use fpag.Args.Arg.{Arg}
use fpag.Args.Command.{
  Command, Commands, nil, cons, name, args, subcommands, find_long_in, find_short_in,
  find_command_in, is_short,
}
use fpag.Args.Session.{
  ErrorCode, unknown_long_option, unknown_short_option, missing_value_for_option,
  flag_takes_no_value, invalid_choice, Session, add_error, add_match, add_plain, keep_unparsed,
  set_help, stop_flags, set_skip, descend, scope, Step, proceed, stop, ParseStatus, help_requested,
  version_requested,
}
use fpag.Args.Parser.{flag_value, is_valid_choice}

pub data Elem {ℓ} {A : Type ℓ} (a : A) : List A → Type ℓ where
  here : {xs : List A} → Elem a (a ∷ xs)
  there : {x : A} {xs : List A} → Elem a xs → Elem a (x ∷ xs)

pub data IsSub (c : Command) : Commands → Type 0 where
  first : {cs : Commands} → IsSub c (cons c cs)
  later : {d : Command} {cs : Commands} → IsSub c cs → IsSub c (cons d cs)

-- The value that a match may carry.
pub record IsLegal (a : Arg) (v : Text) : Type 0 where
  pub valid : is_valid_choice a v ≡ true
  pub one : a.is_flag ≡ true → v ≡ flag_value

-- An error of a parse that is not about an unknown option.
pub data IsKnown : ErrorCode → Type 0 where
  missing : IsKnown missing_value_for_option
  no_value : IsKnown flag_takes_no_value
  choice : IsKnown invalid_choice

pub data IsUnknown : ErrorCode → Type 0 where
  long : IsUnknown unknown_long_option
  short : IsUnknown unknown_short_option

-- One change.
pub data Move : Session → Session → Type 0 where
  known : {s : Session} (c : ErrorCode) (t v : Text) → IsKnown c → Move s (add_error c t v s)
  unknown_option :
      {s : Session} (c : ErrorCode) (t v : Text)
      → IsUnknown c
      → s.partial_mode ≡ false
      → Move s (add_error c t v s)
  matched :
      {s : Session} (level : Command) (a : Arg) (v : Text)
      → Elem level (scope s)
      → Elem a (args level)
      → IsLegal a v
      → Move s (add_match a v s)
  plain : {s : Session} (t : Text) → s.partial_mode ≡ false → Move s (add_plain t s)
  kept : {s : Session} (t : Text) → s.partial_mode ≡ true → Move s (keep_unparsed t s)
  descended :
      {s : Session} (sub : Command) → IsSub sub (subcommands s.current) → Move s (descend sub s)
  separated : {s : Session} → Move s (stop_flags s)
  skipped : {s : Session} (b : Bool) → Move s (set_skip b s)

-- How a parse ends before its last argument.
pub data Stop : Session → ParseStatus → Session → Type 0 where
  helped :
      {s : Session} (level : Command)
      → Elem level (scope s)
      → Stop s help_requested (set_help level s)
  versioned : {s : Session} → Stop s version_requested s

pub data Moves (s : Session) : Session → Type 0 where
  done : Moves s s
  next : {t u : Session} → Moves s t → Move t u → Moves s u

pub one_move : {s t : Session} → Move s t → Moves s t
one_move m = next done m

pub chain : {s t u : Session} → Moves s t → Moves t u → Moves s u
chain p done = p
chain p (next q m) = next (chain p q) m

abbrev pub Reaches : Session → Step → Type 0
Reaches s (proceed t) = Moves s t
Reaches s (stop st t) = (u : Session) × Moves s u × Stop u st t

pub onward : {s t : Session} → Moves s t → (st : Step) → Reaches t st → Reaches s st
onward m (proceed u) r = chain m r
onward m (stop st u) r = (r.0, chain m r.1, r.2)

Elem-head {ℓ} : {A : Type ℓ} {a x : A} {xs : List A} → x ≡ a → Elem a (x ∷ xs)
Elem-head {a = a} e = rw e here

pub find_long-Elem : (xs : List Arg) (t : Text) (a : Arg) → find_long_in xs t ≡ some a → Elem a xs
unfolding find_long_in
find_long-Elem [] t a h = absurd (ground arith)
find_long-Elem (x ∷ xs) t a h = elim (Bool-cases (same_text x.long_name t)) [
  | inl e ↦ Elem-head (ground arith)
  | inr e ↦ there (find_long-Elem xs t a (ground arith))
]

pub find_short-Elem : (xs : List Arg) (c : ℕ) (a : Arg) → find_short_in xs c ≡ some a → Elem a xs
unfolding find_short_in
find_short-Elem [] c a h = absurd (ground arith)
find_short-Elem (x ∷ xs) c a h = elim (Bool-cases (is_short x.short_name c)) [
  | inl e ↦ Elem-head (ground arith)
  | inr e ↦ there (find_short-Elem xs c a (ground arith))
]

IsSub-first : {c d : Command} {cs : Commands} → d ≡ c → IsSub c (cons d cs)
IsSub-first e = rw e first

pub find_command-IsSub :
    (cs : Commands) (t : Text) (c : Command) → find_command_in cs t ≡ some c → IsSub c cs
unfolding find_command_in
find_command-IsSub nil t c h = absurd (ground arith)
find_command-IsSub (cons d cs) t c h = elim (Bool-cases (same_text (name d) t)) [
  | inl e ↦ IsSub-first (ground arith)
  | inr e ↦ later (find_command-IsSub cs t c (ground arith))
]
