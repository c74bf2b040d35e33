-- ===== src/Args/Safety.antt =====
-- What holds of a session of src/arg/parser.cc from its start to its end.
use fpag.Common.{Bool, true, false, List, [], ◌∷◌, ◌++◌, Text}
use fpag.Common.{◌≡◌, refl, ◌∙◌, All, arith}
use fpag.Args.Arg.{Arg, arg_name}
use fpag.Args.Command.{Command, name, args, subcommands}
use fpag.Args.Matches.{Pair, Matches}
use fpag.Args.Session.{ErrorCode, ParseError, Session, scope}
use fpag.Args.Moves.{
  Elem, here, there, IsSub, IsLegal, IsKnown, missing, no_value, choice, IsUnknown, Move, known,
  unknown_option, matched, plain, kept, descended, separated, skipped, Moves, done, next,
}

-- The commands from the root, the innermost first, and the path that selects them after a given
-- path.
pub data IsChain (root : Command) (before : List Text) : List Command → List Text → Type 0 where
  at_root : IsChain root before (root ∷ []) before
  down :
      {c : Command} {cs : List Command} {path : List Text} (d : Command)
      → IsChain root before (c ∷ cs) path
      → IsSub d (subcommands c)
      → IsChain root before (d ∷ c ∷ cs) (path ++ (name d ∷ []))

-- A command of the tree below the root.
pub data InTree (root : Command) : Command → Type 0 where
  itself : InTree root root
  below : {c : Command} (d : Command) → InTree root c → IsSub d (subcommands c) → InTree root d

-- A recorded value belongs to an argument that a command of the tree declares, is one of its
-- choices, and is "1" for a flag.
pub record IsRecorded (root : Command) (p : Pair) : Type 0 where
  pub owner : Command
  pub in_tree : InTree root owner
  pub arg : Arg
  pub in_args : Elem arg (args owner)
  pub named : p.name ≡ arg_name arg
  pub legal : IsLegal arg p.value

pub IsChain-head :
    {root : Command} {before : List Text} {c : Command} {cs : List Command} {path : List Text}
    → IsChain root before (c ∷ cs) path
    → InTree root c
IsChain-head at_root = itself
IsChain-head (down d chain sub) = below d (IsChain-head chain) sub

pub IsChain-InTree :
    {root l : Command} {before : List Text} {cs : List Command} {path : List Text}
    → IsChain root before cs path
    → Elem l cs
    → InTree root l
IsChain-InTree at_root here = itself
IsChain-InTree at_root (there m) = elim m [ ]
IsChain-InTree (down d chain sub) here = below d (IsChain-head chain) sub
IsChain-InTree (down d chain sub) (there m) = IsChain-InTree chain m

pub All-snoc {ℓ κ} :
    {A : Type ℓ} (P : A → Type κ) (xs : List A) (x : A) → All P xs → P x → All P (xs ++ (x ∷ []))
All-snoc P [] x h p = (p, tt)
All-snoc P (y ∷ ys) x h p = (h.0, All-snoc P ys x h.1 p)

-- The session keeps the selected path and what it has recorded within the tree.
pub record IsSound (root : Command) (m : Matches) (s : Session) : Type 0 where
  pub chain : IsChain root m.command_path (scope s) s.matches.command_path
  pub recorded : All (IsRecorded root) m.values → All (IsRecorded root) s.matches.values

Move-IsSound :
    (root : Command) (m0 : Matches) {s t : Session}
    → Move s t
    → IsSound root m0 s
    → IsSound root m0 t
Move-IsSound root m0 (known c t v k) i = record { chain = i.chain; recorded = i.recorded }
Move-IsSound root m0 (unknown_option c t v k e) i = record {
  chain = i.chain;
  recorded = i.recorded;
}
Move-IsSound root m0 (matched {s} level a v m d l) i =
    let p : Pair = record { name = arg_name a; value = v } in
    record {
      chain = i.chain;
      recorded = λ h. All-snoc (IsRecorded root) s.matches.values p (i.recorded h) (record {
        owner = level;
        in_tree = IsChain-InTree i.chain m;
        arg = a;
        in_args = d;
        named = refl;
        legal = l;
      });
    }
Move-IsSound root m0 (plain t e) i = record { chain = i.chain; recorded = i.recorded }
Move-IsSound root m0 (kept t e) i = record { chain = i.chain; recorded = i.recorded }
Move-IsSound root m0 (descended sub m) i = record {
  chain = down sub i.chain m;
  recorded = i.recorded;
}
Move-IsSound root m0 separated i = record { chain = i.chain; recorded = i.recorded }
Move-IsSound root m0 (skipped b) i = record { chain = i.chain; recorded = i.recorded }

pub Moves-IsSound :
    (root : Command) (m0 : Matches) {s t : Session}
    → Moves s t
    → IsSound root m0 s
    → IsSound root m0 t
Moves-IsSound root m0 done i = i
Moves-IsSound root m0 (next q m) i = Move-IsSound root m0 m (Moves-IsSound root m0 q i)

-- An error that is not about an unknown option.
abbrev pub IsSilent : ParseError → Type 0
IsSilent e = ¬ IsUnknown e.code

IsKnown-apart : {c : ErrorCode} → IsKnown c → ¬ (IsUnknown c)
IsKnown-apart missing u = elim u [ ]
IsKnown-apart no_value u = elim u [ ]
IsKnown-apart choice u = elim u [ ]

-- In the partial mode only options that are known are reported, and nothing becomes
-- positional.
pub record IsModal (positionals : List Text) (s : Session) : Type 0 where
  pub reported : s.partial_mode ≡ true → All IsSilent s.errors
  pub positional : s.partial_mode ≡ true → s.matches.positionals ≡ positionals

clash : {A : Type 0} {b : Bool} → b ≡ true → b ≡ false → A
clash h e = absurd (ground arith)

Move-IsModal : (ps : List Text) {s t : Session} → Move s t → IsModal ps s → IsModal ps t
Move-IsModal ps (known {s} c t v k) i = record {
  reported = λ h.
      let e : ParseError = record { code = c; context = t; value = v } in
      All-snoc IsSilent s.errors e (i.reported h) (IsKnown-apart k);
  positional = i.positional;
}
Move-IsModal ps (unknown_option c t v k e) i = record {
  reported = λ h. clash h e;
  positional = i.positional;
}
Move-IsModal ps (matched level a v m d l) i = record {
  reported = i.reported;
  positional = i.positional;
}
Move-IsModal ps (plain t e) i = record { reported = i.reported; positional = λ h. clash h e }
Move-IsModal ps (kept t e) i = record { reported = i.reported; positional = i.positional }
Move-IsModal ps (descended sub m) i = record { reported = i.reported; positional = i.positional }
Move-IsModal ps separated i = record { reported = i.reported; positional = i.positional }
Move-IsModal ps (skipped b) i = record { reported = i.reported; positional = i.positional }

pub Moves-IsModal : (ps : List Text) {s t : Session} → Moves s t → IsModal ps s → IsModal ps t
Moves-IsModal ps done i = i
Moves-IsModal ps (next q m) i = Move-IsModal ps m (Moves-IsModal ps q i)

-- No change before the end touches the help command or the mode.
Move-fixed :
    {s t : Session}
    → Move s t
    → (t.help_command ≡ s.help_command) × (t.partial_mode ≡ s.partial_mode)
Move-fixed (known c t v k) = (refl, refl)
Move-fixed (unknown_option c t v k e) = (refl, refl)
Move-fixed (matched level a v m d l) = (refl, refl)
Move-fixed (plain t e) = (refl, refl)
Move-fixed (kept t e) = (refl, refl)
Move-fixed (descended sub m) = (refl, refl)
Move-fixed separated = (refl, refl)
Move-fixed (skipped b) = (refl, refl)

pub Moves-fixed :
    {s t : Session}
    → Moves s t
    → (t.help_command ≡ s.help_command) × (t.partial_mode ≡ s.partial_mode)
Moves-fixed done = (refl, refl)
Moves-fixed (next q m) = let a = Moves-fixed q in let b = Move-fixed m in (b.0 ∙ a.0, b.1 ∙ a.1)
