-- ===== src/Args/Render/Runs.antt =====
-- What the loop of `Parser::parse_impl` does with the arguments of a rendered setting.
use fpag.Common.{true, false, Option, none, some, List, [], ◌∷◌, ◌++◌, Text, ℕ}
use fpag.Common.{◌≡◌, refl, ◌∙◌, ap, All, if_true, if_false, arith, ◌==◌, append_assoc}
use fpag.Args.Arg.{Arg, is_empty_text}
use fpag.Args.Command.{Command, find_long_in, find_command_in, find_arg_by_long, find_subcommand}
use fpag.Args.Matches.{Matches, add_positional}
use fpag.Args.Session.{Session, ParseError, add_match, proceed, set_skip}
use fpag.Args.Parser.{
  run, step, by_form, long_levels, use_long, take_next, record_value, use_word, use_plain, key_of,
  value_of, flag_value, is_valid_choice, dash, equal_sign, head?,
}
use fpag.Args.Render.{
  Setting, flag, joined, separate, word, render, render_all, apply, apply_all, IsOption, IsWord,
  IsWellFormed,
}

value_of-tail :
    (c : ℕ) (n : Text) → value_of (c ∷ n) ≡ none → ((c == equal_sign) ≡ false) × (value_of n ≡ none)
unfolding value_of
value_of-tail c n h = ground arith

key_of-plain : (n : Text) → value_of n ≡ none → key_of n ≡ n
unfolding key_of
key_of-plain [] h = refl
key_of-plain (c ∷ n) h = let e = value_of-tail c n h in rw (e.0, key_of-plain n e.1) refl

key_of-joined : (n v : Text) → value_of n ≡ none → key_of (n ++ (equal_sign ∷ v)) ≡ n
unfolding key_of
key_of-joined [] v h = refl
key_of-joined (c ∷ n) v h = let e = value_of-tail c n h in rw (e.0, key_of-joined n v e.1) refl

value_of-joined : (n v : Text) → value_of n ≡ none → value_of (n ++ (equal_sign ∷ v)) ≡ some v
unfolding value_of
value_of-joined [] v h = refl
value_of-joined (c ∷ n) v h = let e = value_of-tail c n h in rw (e.0, value_of-joined n v e.1) refl

use_long-flag :
    (a : Arg) (key : Text) (next : Option Text) (s : Session)
    → a.is_flag ≡ true
    → is_valid_choice a flag_value ≡ true
    → use_long a key none next s ≡ add_match a flag_value s
unfolding use_long record_value
use_long-flag a key next s f v = if_true _ _ f ∙ if_true _ _ v

use_long-joined :
    (a : Arg) (key v : Text) (next : Option Text) (s : Session)
    → a.is_flag ≡ false
    → is_valid_choice a v ≡ true
    → use_long a key (some v) next s ≡ add_match a v s
unfolding use_long record_value
use_long-joined a key v next s f e = if_false _ _ f ∙ if_true _ _ e

take_next-taken :
    (a : Arg) (option v : Text) (s : Session)
    → is_valid_choice a v ≡ true
    → is_empty_text v ≡ false
    → take_next a option (some v) s ≡ add_match a v (set_skip true s)
unfolding take_next record_value
take_next-taken a option [] s e f = absurd (ground arith)
take_next-taken a option (c ∷ v) s e f = if_true _ _ e

use_long-separate :
    (a : Arg) (key v : Text) (s : Session)
    → a.is_flag ≡ false
    → is_valid_choice a v ≡ true
    → is_empty_text v ≡ false
    → use_long a key none (some v) s ≡ add_match a v (set_skip true s)
unfolding use_long
use_long-separate a key v s f e g = if_false _ _ f ∙ take_next-taken a (dash ∷ dash ∷ key) v s e g

-- One turn of the loop.
pub run-turn :
    (t : Text) (ts : List Text) (s s' : Session)
    → step t (head? ts) s ≡ proceed s'
    → run (t ∷ ts) s ≡ run ts s'
unfolding run
run-turn t ts s s' e = rw (e, run) refl

prefix-not_empty : (n t : Text) → is_empty_text n ≡ false → is_empty_text (n ++ t) ≡ false
prefix-not_empty [] t h = absurd (ground arith)
prefix-not_empty (c ∷ n) t h = refl

module _ (c : Command) (outer : List Command) (es : List ParseError) (hc : Option Command)
    (u : Option (List Text)) where
  -- A session of the full mode in which options are read.
  abbrev pub reading : Matches → Session
  reading m = record {
    errors = es;
    help_command = hc;
    matches = m;
    unparsed = u;
    partial_mode = false;
    current = c;
    outer = outer;
    stop_parsing_flags = false;
    skip = false;
  }

  long-declared_at :
      (content : Text) (a : Arg) (next : Option Text) (m : Matches)
      → is_empty_text content ≡ false
      → find_arg_by_long c (key_of content) ≡ some a
      → step (dash ∷ dash ∷ content) next (reading m)
        ≡ proceed (use_long a (key_of content) (value_of content) next (reading m))
  unfolding step by_form long_levels find_long_in use_long
  long-declared_at [] a next m i e = absurd (ground arith)
  long-declared_at (x ∷ content) a next m i e = rw e refl

  -- A long option that the innermost command declares.
  long-declared :
      (content key : Text) (a : Arg) (next : Option Text) (m : Matches)
      → is_empty_text content ≡ false
      → key_of content ≡ key
      → find_arg_by_long c key ≡ some a
      → step (dash ∷ dash ∷ content) next (reading m)
        ≡ proceed (use_long a key (value_of content) next (reading m))
  long-declared content key a next m i k e =
      long-declared_at content a next m i (ap (find_arg_by_long c) k ∙ e)
      ∙ ap (λ x. proceed (use_long a x (value_of content) next (reading m))) k

  flag-run :
      (a : Arg) (ts : List Text) (m : Matches)
      → IsWellFormed c (flag a)
      → run (render (flag a) ++ ts) (reading m) ≡ run ts (reading (apply (flag a) m))
  unfolding render apply
  flag-run a ts m w =
      let n = a.long_name in
      let s = reading m in
      let k = key_of-plain n w.0.no_equal in
      run-turn (dash ∷ dash ∷ n) ts s (add_match a flag_value s) (
        long-declared n n a (head? ts) m w.0.not_empty k w.0.leads
        ∙ ap (λ v. proceed (use_long a n v (head? ts) s)) w.0.no_equal
        ∙ ap proceed (use_long-flag a n (head? ts) s w.1 w.2))

  joined-run :
      (a : Arg) (v : Text) (ts : List Text) (m : Matches)
      → IsOption c a v
      → run (render (joined a v) ++ ts) (reading m) ≡ run ts (reading (apply (joined a v) m))
  unfolding render apply
  joined-run a v ts m w =
      let n = a.long_name in
      let s = reading m in
      let content = n ++ (equal_sign ∷ v) in
      let k = key_of-joined n v w.named.no_equal in
      let i = prefix-not_empty n (equal_sign ∷ v) w.named.not_empty in
      run-turn (dash ∷ dash ∷ content) ts s (add_match a v s) (
        long-declared content n a (head? ts) m i k w.named.leads
        ∙ ap (λ x. proceed (use_long a n x (head? ts) s)) (value_of-joined n v w.named.no_equal)
        ∙ ap proceed (use_long-joined a n v (head? ts) s w.no_flag w.valid))

  separate-run :
      (a : Arg) (v : Text) (ts : List Text) (m : Matches)
      → IsOption c a v
      → is_empty_text v ≡ false
      → run (render (separate a v) ++ ts) (reading m) ≡ run ts (reading (apply (separate a v) m))
  unfolding render apply step
  separate-run a v ts m w f =
      let n = a.long_name in
      let s = reading m in
      let k = key_of-plain n w.named.no_equal in
      let taken = add_match a v (set_skip true s) in
      run-turn (dash ∷ dash ∷ n) (v ∷ ts) s taken (
        long-declared n n a (some v) m w.named.not_empty k w.named.leads
        ∙ ap (λ x. proceed (use_long a n x (some v) s)) w.named.no_equal
        ∙ ap proceed (use_long-separate a n v s w.no_flag w.valid f))
      ∙ run-turn v ts taken (set_skip false taken) refl

  word-step :
      (b : ℕ) (t : Text) (next : Option Text) (m : Matches)
      → (b == dash) ≡ false
      → find_subcommand c (b ∷ t) ≡ none
      → step (b ∷ t) next (reading m) ≡ proceed (reading (add_positional (b ∷ t) m))
  unfolding step by_form use_word use_plain find_command_in
  word-step b [] next m d e = rw e refl
  word-step b (x ∷ []) next m d e = rw (d, e) refl
  word-step b (x ∷ y ∷ t) next m d e = rw (d, e) refl

  word-run :
      (t : Text) (ts : List Text) (m : Matches)
      → IsWord c t
      → run (t ∷ ts) (reading m) ≡ run ts (reading (add_positional t m))
  word-run [] ts m w = absurd (ground (arith, w.not_empty))
  word-run (b ∷ t) ts m w =
      let turned = reading (add_positional (b ∷ t) m) in
      run-turn (b ∷ t) ts (reading m) turned (word-step b t (head? ts) m w.no_dash w.no_subcommand)

  pub setting-run :
      (x : Setting) (ts : List Text) (m : Matches)
      → IsWellFormed c x
      → run (render x ++ ts) (reading m) ≡ run ts (reading (apply x m))
  unfolding render apply
  setting-run (flag a) ts m w = flag-run a ts m w
  setting-run (joined a v) ts m w = joined-run a v ts m w
  setting-run (separate a v) ts m w = separate-run a v ts m w.0 w.1
  setting-run (word t) ts m w = word-run t ts m w

  pub settings-run :
      (xs : List Setting) (ts : List Text) (m : Matches)
      → All (IsWellFormed c) xs
      → run (render_all xs ++ ts) (reading m) ≡ run ts (reading (apply_all xs m))
  unfolding render_all apply_all
  settings-run [] ts m w = refl
  settings-run (x ∷ xs) ts m w =
      ap (λ l. run l (reading m)) (append_assoc (render x) (render_all xs) ts)
      ∙ setting-run x (render_all xs ++ ts) m w.0
      ∙ settings-run xs ts (apply x m) w.1
