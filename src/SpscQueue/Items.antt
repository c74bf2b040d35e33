-- ===== src/SpscQueue/Items.antt =====
-- The queue as a client of src/container/spsc_queue.cc sees it: the records that were enqueued and
-- not yet dequeued, each with its bytes and its alignment, oldest first.
use fpag.Common.{ℕ, ◌+◌, ◌-◌, ◌%◌, ◌^◌, ◌≤◌, ◌≡◌, refl, sym, ap, ◌∙◌, arith}
use fpag.Common.{List, [], ◌∷◌, ◌++◌, length, IsWord, add64, true}
use fpag.MathUtil.Round.{padding, word_split}
use fpag.SpscQueue.{SpscQueue}
use fpag.SpscQueue.Ring.{Bytes, load, store, load-store_other}
use native.Mathlib.Nat.{mod-mod_of_dvd, mod-add-mod, dvd-mul_right}
use mathlib.Core.Path.{subst}
use Prim.Native.Nat.{◌∣◌}

pub record Item : Type 0 where
  pub bytes : List ℕ
  pub exponent : ℕ

-- The alignment is a power of two.
abbrev pub align : Item → ℕ
align i = 2 ^ i.exponent

abbrev pub IsAlignable : Item → Type 0
IsAlignable i = i.exponent ≤ 63

-- The room that a record takes at a position: its padding and its bytes.
abbrev pub room : ℕ → Item → ℕ
room p i = padding p (align i) + length i.bytes

-- The room that a list of records takes from a position on, and the position after them.
unfoldable pub span : ℕ → List Item → ℕ
span p [] = 0
span p (i ∷ items) = room p i + span (add64 p (room p i)) items

-- The bytes of each record stand in the ring behind its padding.
unfoldable pub Holds : ℕ → Bytes → ℕ → List Item → Type 0
Holds c ring p [] = Unit {0}
Holds c ring p (i ∷ items) =
    (load c ring (p + padding p (align i)) (length i.bytes) ≡ i.bytes)
    × Holds c ring (add64 p (room p i)) items

-- A queue of capacity 2 ^ k that holds these records, between two calls.
pub record Contains (k : ℕ) (q : SpscQueue) (items : List Item) : Type 0 where
  pub mapped_data : q.mapped ≡ true
  pub capacity_pow : q.capacity ≡ 2 ^ k
  pub capacity_small : k ≤ 35
  pub head_word : IsWord q.head
  pub head_sync : q.head_cache ≡ q.head
  pub tail_sync : q.tail_cache ≡ q.tail
  pub tail_end : q.tail ≡ add64 q.head (span q.head items)
  pub fits : span q.head items ≤ 2 ^ k
  pub holds : Holds (2 ^ k) q.ring q.head items

-- The capacity divides the word size, so wrapped positions name the same byte of the ring.
pub add64_mod : (k p x : ℕ) → k ≤ 64 → add64 p x % 2 ^ k ≡ (p + x) % 2 ^ k
add64_mod k p x h =
    mod-mod_of_dvd (2 ^ k) (p + x)
      (subst (λ t. 2 ^ k ∣ t) (word_split k h) (dvd-mul_right (2 ^ k) (2 ^ (64 - k))))

pub add64_mod_shift : (k p x y : ℕ) → k ≤ 64 → (add64 p x + y) % 2 ^ k ≡ (p + (x + y)) % 2 ^ k
add64_mod_shift k p x y h =
    sym (mod-add-mod (add64 p x) (2 ^ k) y)
    ∙ ap (λ t. (t + y) % 2 ^ k) (add64_mod k p x h)
    ∙ mod-add-mod (p + x) (2 ^ k) y
    ∙ ap (λ t. t % 2 ^ k) (omega arith)

pub add64_zero : (p : ℕ) → IsWord p → add64 p 0 ≡ p
add64_zero p w = omega arith

pub add64_assoc : (p x y : ℕ) → add64 (add64 p x) y ≡ add64 p (x + y)
add64_assoc p x y = omega arith

pub span-append :
    (p : ℕ) (items : List Item) (i : Item)
    → IsWord p
    → span p (items ++ (i ∷ [])) ≡ span p items + room (add64 p (span p items)) i
unfolding span
span-append p [] i w = omega (arith, ap (λ (t : ℕ). room t i) (add64_zero p w))
span-append p (j ∷ items) i w = omega (
  arith,
  span-append (add64 p (room p j)) items i (omega arith),
  ap (λ (t : ℕ). room t i) (add64_assoc p (room p j) (span (add64 p (room p j)) items)),
)

-- A store behind the records leaves them in place.
pub Holds-store :
    (k : ℕ) (ring : Bytes) (p s d : ℕ) (bytes : List ℕ) (items : List Item)
    → k ≤ 35
    → s % 2 ^ k ≡ (p + d) % 2 ^ k
    → span p items ≤ d
    → d + length bytes ≤ 2 ^ k
    → Holds (2 ^ k) ring p items
    → Holds (2 ^ k) (store (2 ^ k) ring s bytes) p items
unfolding span Holds
Holds-store k ring p s d bytes [] small e below fits h = tt
Holds-store k ring p s d bytes (i ∷ items) small e below fits h = (
  load-store_other (2 ^ k) ring s bytes (p + padding p (align i)) (length i.bytes)
        (d - padding p (align i)) (e ∙ ap (λ t. t % 2 ^ k) (omega arith)) (omega arith)
        (omega arith)
      ∙ h.0,
  Holds-store k ring (add64 p (room p i)) s (d - room p i) bytes items small
      (e
        ∙ ap (λ t. (p + t) % 2 ^ k) (omega arith)
        ∙ sym (add64_mod_shift k p (room p i) (d - room p i) (omega arith)))
      (omega arith) (omega arith) h.1,
)

pub Holds-append :
    (c : ℕ) (ring : Bytes) (p : ℕ) (items : List Item) (i : Item)
    → IsWord p
    → Holds c ring p items
    → Holds c ring (add64 p (span p items)) (i ∷ [])
    → Holds c ring p (items ++ (i ∷ []))
unfolding span Holds
Holds-append c ring p [] i w h new = subst (λ t. Holds c ring t (i ∷ [])) (add64_zero p w) new
Holds-append c ring p (j ∷ items) i w h new = (
  h.0,
  Holds-append c ring (add64 p (room p j)) items i (omega arith) h.1 (
      subst (λ t. Holds c ring t (i ∷ []))
        (sym (add64_assoc p (room p j) (span (add64 p (room p j)) items))) new),
)

-- The consumer publishes the position behind the oldest record.
pub Contains-advance :
    {k : ℕ} {q : SpscQueue} (i : Item) (items : List Item)
    → Contains k q (i ∷ items)
    → Contains k
        (record q {
          head_cache = add64 q.head (room q.head i);
          head = add64 q.head (room q.head i);
        })
        items
unfolding span Holds
Contains-advance {q = q} i items c = record {
  mapped_data = c.mapped_data;
  capacity_pow = c.capacity_pow;
  capacity_small = c.capacity_small;
  head_word = omega arith;
  head_sync = refl;
  tail_sync = c.tail_sync;
  tail_end = c.tail_end ∙ sym (add64_assoc q.head (room q.head i) _);
  fits = omega (arith, c.fits);
  holds = c.holds.1;
}
