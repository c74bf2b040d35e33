-- ===== src/Args/Command.antt =====
-- Commands, their builder and the searches in them: include/fpag/arg/command.h and
-- src/arg/command.cc.
use fpag.Common.{ℕ, Bool, true, false, Option, none, some, List, [], ◌∷◌, ◌++◌, Text}
use fpag.Common.{if◌then◌else◌, ◌==◌, same_text}
use fpag.Args.Arg.{Arg}

mutual
  -- The fields of CommandState, in its order.
  pub data Command : Type 0 where
    command : Text → Text → Text → List Arg → Commands → Bool → Command

  -- `std::vector<Command>`
  pub data Commands : Type 0 where
    nil : Commands
    cons : Command → Commands → Commands

abbrev pub name : Command → Text
name (command n v a args subs b) = n

abbrev pub version : Command → Text
version (command n v a args subs b) = v

abbrev pub about : Command → Text
about (command n v a args subs b) = a

abbrev pub args : Command → List Arg
args (command n v a xs subs b) = xs

abbrev pub subcommands : Command → Commands
subcommands (command n v a xs subs b) = subs

abbrev pub builtin_enabled : Command → Bool
builtin_enabled (command n v a xs subs b) = b

-- The builder's constructor.
abbrev pub command_builder : Text → Text → Command
command_builder n v = command n v [] [] nil true

abbrev pub set_about : Text → Command → Command
set_about d (command n v a xs subs b) = command n v d xs subs b

abbrev pub set_builtin_enabled : Bool → Command → Command
set_builtin_enabled e (command n v a xs subs b) = command n v a xs subs e

abbrev pub add_arg : Arg → Command → Command
add_arg x (command n v a xs subs b) = command n v a (xs ++ (x ∷ [])) subs b

abbrev pub push_back : Commands → Command → Commands
push_back nil c = cons c nil
push_back (cons d cs) c = cons d (push_back cs c)

abbrev pub add_subcommand : Command → Command → Command
add_subcommand c (command n v a xs subs b) = command n v a xs (push_back subs c) b

abbrev pub is_short : Option ℕ → ℕ → Bool
is_short none c = false
is_short (some d) c = d == c

unfoldable pub find_short_in : List Arg → ℕ → Option Arg
find_short_in [] c = none
find_short_in (x ∷ xs) c =
    let later = find_short_in xs c in if is_short x.short_name c then some x else later

-- `Command::find_arg_by_short`
abbrev pub find_arg_by_short : Command → ℕ → Option Arg
find_arg_by_short cmd c = find_short_in (args cmd) c

unfoldable pub find_long_in : List Arg → Text → Option Arg
find_long_in [] t = none
find_long_in (x ∷ xs) t =
    let later = find_long_in xs t in if same_text x.long_name t then some x else later

-- `Command::find_arg_by_long`
abbrev pub find_arg_by_long : Command → Text → Option Arg
find_arg_by_long cmd t = find_long_in (args cmd) t

unfoldable pub find_command_in : Commands → Text → Option Command
find_command_in nil t = none
find_command_in (cons c cs) t =
    let later = find_command_in cs t in if same_text (name c) t then some c else later

-- `Command::find_subcommand`
abbrev pub find_subcommand : Command → Text → Option Command
find_subcommand cmd t = find_command_in (subcommands cmd) t
