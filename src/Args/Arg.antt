-- ===== src/Args/Arg.antt =====
-- The definition of one argument and its builder: include/fpag/arg/arg.h.
use fpag.Common.{ℕ, Bool, true, false, not, ◌&&◌, Option, none, some, List, [], ◌∷◌, Text}
use fpag.Common.{if◌then◌else◌}

pub record ArgState : Type 0 where
  pub name : Option Text
  pub help : Text
  pub long_name : Text
  pub default_value : Text
  pub value_name : Text
  pub choices : List Text
  pub short_name : Option ℕ
  pub is_required : Bool
  pub is_flag : Bool

-- The class holds its state alone, and each of its readers but `name` returns a field.
abbrev pub Arg : Type 0
Arg = ArgState

abbrev pub text_or : Option Text → Text → Text
text_or none d = d
text_or (some t) d = t

-- `Arg::name`
abbrev pub arg_name : Arg → Text
arg_name a = text_or a.name a.long_name

abbrev pub is_empty_text : Text → Bool
is_empty_text [] = true
is_empty_text (c ∷ t) = false

abbrev pub has_text : Option Text → Bool
has_text none = false
has_text (some t) = true

-- The builder's constructor, over the default of each field.
abbrev pub builder : Text → ArgState
builder n = record {
  name = none;
  help = [];
  long_name = n;
  default_value = [];
  value_name = [];
  choices = [];
  short_name = none;
  is_required = false;
  is_flag = false;
}

abbrev pub set_short_name : ℕ → ArgState → ArgState
set_short_name c s = record s { short_name = some c }

abbrev pub set_long_name : Text → ArgState → ArgState
set_long_name n s = record s { long_name = n }

abbrev pub set_name : Text → ArgState → ArgState
set_name n s = record s { name = some n }

abbrev pub set_help_text : Text → ArgState → ArgState
set_help_text h s = record s { help = h }

abbrev pub set_default_value : Text → ArgState → ArgState
set_default_value d s = record s { default_value = d }

abbrev pub set_value_name : Text → ArgState → ArgState
set_value_name v s = record s { value_name = v }

abbrev pub set_choices : List Text → ArgState → ArgState
set_choices c s = record s { choices = c }

abbrev pub set_required : Bool → ArgState → ArgState
set_required r s = record s { is_required = r }

abbrev pub set_is_flag : Bool → ArgState → ArgState
set_is_flag f s = record s { is_flag = f }

unfoldable pub build : ArgState → Arg
build s =
    if not (has_text s.name) && not (is_empty_text s.long_name)
    then record s { name = some s.long_name }
    else s
