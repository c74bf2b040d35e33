-- ===== src/Dwarf/Cursor.antt =====
-- `SectionView` and `Cursor` of src/debug/dwarf/reader.h and reader.cc: bounded reads of a section
-- of an object file. A section is the list of its bytes (`data_` and `size_`). A read that `false`
-- answers is `refused`; the cursor that it leaves is not kept, since no caller reads on without a
-- seek. Two further outcomes are no answers of the source: `fault` is an access outside the
-- section, and `stuck` a loop that has used up its fuel.
pub mod Safety
pub mod Fuel
pub mod Values
pub mod Uleb
use fpag.Common.{
  ℕ, zero, suc, ◌+◌, ◌-◌, ◌*◌, ◌^◌, ◌%◌, Bool, true, false, not, ◌||◌, ◌&&◌, Option, none, some,
}
use fpag.Common.{List, [], ◌∷◌, ltb, leb, ◌==◌, if◌then◌else◌, length, get_elem?, drop}
use fpag.Common.{word_size, add64, sub64, not64, bit_and, bit_or}

abbrev pub SectionView : Type 0
SectionView = List ℕ

pub record Cursor : Type 0 where
  pub bytes : SectionView
  pub position : ℕ

pub data Outcome {ℓ} (A : Type ℓ) : Type ℓ where
  ok : A → Cursor → Outcome A
  refused fault stuck : Outcome A

-- A read of the cursor.
abbrev pub Reader {ℓ} : Type ℓ → Type ℓ
Reader A = Cursor → Outcome A

infixl 5 ◌>>=◌ ◌>>◌
abbrev pub ◌>>=◌ {ℓ κ} : {A : Type ℓ} {B : Type κ} → Reader A → (A → Reader B) → Reader B
◌>>=◌ m f c = elim (m c) [ ok a c' ↦ f a c' | refused ↦ refused | fault ↦ fault | stuck ↦ stuck ]

abbrev pub ◌>>◌ {ℓ κ} : {A : Type ℓ} {B : Type κ} → Reader A → Reader B → Reader B
m >> k = m >>= λ _. k

abbrev pub pure {ℓ} : {A : Type ℓ} → A → Reader A
pure a c = ok a c

abbrev pub refuse {ℓ} : {A : Type ℓ} → Reader A
refuse c = refused

-- `if (!test) return false;`
abbrev pub require : Bool → Reader (Unit {0})
require true c = ok tt c
require false c = refused

-- A value that is only there if the access was inside the section.
abbrev pub from_memory {ℓ} : {A : Type ℓ} → Option A → (A → Outcome A) → Outcome A
from_memory none k = fault
from_memory (some a) k = k a

abbrev pub size : Cursor → ℕ
size c = length c.bytes

-- `size_ - position_`
abbrev pub remaining : Cursor → ℕ
remaining c = sub64 (size c) c.position

abbrev pub cursor : SectionView → Cursor
cursor view = record { bytes = view; position = 0 }

-- `SectionView::at`: the offset, if the bytes are all inside.
unfoldable pub at : SectionView → ℕ → ℕ → Option ℕ
at view offset bytes =
    if ltb (length view) offset || ltb (sub64 (length view) offset) bytes then none else some offset

-- The bytes before the first NUL, as `std::memchr` finds it.
unfoldable pub c_string : List ℕ → Option (List ℕ)
c_string [] = none
c_string (b ∷ bytes) =
    let rest = c_string bytes in
    if b == 0 then some [] else elim rest [ none ↦ none | some text ↦ some (b ∷ text) ]

unfoldable pub string_at : SectionView → ℕ → Option (List ℕ)
unfolding c_string
string_at view offset = if leb (length view) offset then none else c_string (drop offset view)

unfoldable pub seek : ℕ → Reader (Unit {0})
seek position c =
    if ltb (size c) position then refused else ok tt (record c { position = position })

-- `value |= static_cast<u64>(data_[position_ + index]) << (index * 8)` for each index in turn; the
-- first number counts the rounds left.
unfoldable pub fixed_loop : ℕ → List ℕ → ℕ → ℕ → ℕ → Option ℕ
fixed_loop zero bytes position index value = some value
fixed_loop (suc n) bytes position index value = elim (get_elem? bytes (add64 position index)) [
  | none ↦ none
  | some byte ↦
      fixed_loop n bytes position (index + 1) (bit_or value (byte * 2 ^ (index * 8) % word_size))
]

unfoldable pub fixed : ℕ → Reader ℕ
unfolding fixed_loop
fixed bytes c =
    if bytes == 0 || (ltb 8 bytes || ltb (remaining c) bytes)
    then refused
    else from_memory (fixed_loop bytes c.bytes c.position 0 0)
        (λ value. ok value (record c { position = add64 c.position bytes }))

-- `if (shift < 64) value |= (byte & 0x7F) << shift;`
abbrev pub add_group : ℕ → ℕ → ℕ → ℕ
add_group value byte shift =
    if ltb shift 64 then bit_or value (bit_and byte 0x7F * 2 ^ shift % word_size) else value

unfoldable pub uleb_loop : ℕ → ℕ → ℕ → Reader ℕ
unfolding fixed
uleb_loop zero value shift = refuse
uleb_loop (suc count) value shift = do
  byte ← fixed 1
  let value' = add_group value byte shift
  if bit_and byte 0x80 == 0 then pure value' else uleb_loop count value' (shift + 7)

unfoldable pub uleb : Reader ℕ
unfolding uleb_loop
uleb = uleb_loop 10 0 0

-- The last byte carries the sign in the bit above the value.
abbrev pub extend_sign : ℕ → ℕ → ℕ → ℕ
extend_sign value byte shift =
    if ltb shift 64 && not (bit_and byte 0x40 == 0)
    then bit_or value (not64 0 * 2 ^ shift % word_size)
    else value

unfoldable pub sleb_loop : ℕ → ℕ → ℕ → Reader ℕ
unfolding fixed
sleb_loop zero value shift = refuse
sleb_loop (suc count) value shift = do
  byte ← fixed 1
  let value' = add_group value byte shift
  if bit_and byte 0x80 == 0
      then pure (extend_sign value' byte (shift + 7))
      else sleb_loop count value' (shift + 7)

-- An i64 as its bit pattern.
unfoldable pub sleb : Reader ℕ
unfolding sleb_loop
sleb = sleb_loop 10 0 0

unfoldable pub skip : ℕ → Reader (Unit {0})
skip bytes c =
    if ltb (remaining c) bytes
    then refused
    else ok tt (record c { position = add64 c.position bytes })

unfoldable pub string : Reader (List ℕ)
unfolding c_string
string c = if leb (size c) c.position then refused else elim (c_string (drop c.position c.bytes)) [
  | none ↦ refused
  | some text ↦ ok text (record c { position = add64 c.position (length text + 1) })
]

-- `position()` and `size()`.
abbrev pub here : Reader ℕ
here c = ok c.position c

abbrev pub section_size : Reader ℕ
section_size c = ok (size c) c

-- A read of another section, from its start; the cursor at hand stays where it is.
unfoldable pub on_section {ℓ} : {A : Type ℓ} → SectionView → Reader A → Reader (Option A)
on_section view m c = elim (m (cursor view)) [
  | ok a c' ↦ ok (some a) c
  | refused ↦ ok none c
  | fault ↦ fault
  | stuck ↦ stuck
]

-- A loop each of whose rounds takes a byte at least ends within as many rounds as the section has
-- bytes, and one more.
unfoldable pub with_fuel {ℓ} : {A : Type ℓ} → (ℕ → Reader A) → Reader A
with_fuel loop c = loop (suc (size c)) c
