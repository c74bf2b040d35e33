-- ===== src/SpscQueue/Ring.antt =====
-- The bytes behind `data_` in src/container/spsc_queue.cc: `capacity_` physical bytes, mapped twice
-- in a row by `mem::allocate_aliased_pages`, so that `data_[i]` is the byte `i % capacity_`.
-- `load` and `store` are the `memcpy` out of and into that mapping.
use fpag.Common.{ℕ, zero, suc, ◌+◌, ◌-◌, ◌%◌, ◌≤◌, ◌<◌, ◌≡◌, ◌≢◌, refl, sym, ap, ◌∙◌, arith}
use fpag.Common.{List, [], ◌∷◌, ◌++◌, length, ◌==◌, ==_iff, if◌then◌else◌, split_if}
use mathlib.Core.Path.{ap₂, fun_ext}
use native.Mathlib.Decide.{dec_lt}
use native.Mathlib.Nat.{mod-add-mod, mod-eq_of_lt, mod-eq-sub-mod, mod-lt}

abbrev pub Bytes : Type 0
Bytes = ℕ → ℕ

unfoldable pub write_byte : Bytes → ℕ → ℕ → Bytes
write_byte ring i b j = if i == j then b else ring j

module _ (capacity : ℕ) where
  unfoldable pub load : Bytes → ℕ → ℕ → List ℕ
  load ring offset zero = []
  load ring offset (suc n) = ring (offset % capacity) ∷ load ring (offset + 1) n

  unfoldable pub store : Bytes → ℕ → List ℕ → Bytes
  unfolding write_byte
  store ring offset [] = ring
  store ring offset (b ∷ bytes) = store (write_byte ring (offset % capacity) b) (offset + 1) bytes

-- Fewer than `c` steps round the ring do not come back to the start.
mod_step_ne : (c x e : ℕ) → 0 < e → e < c → (x + e) % c ≢ x % c
mod_step_ne c x e pos lt =
    let low : x % c < c = mod-lt x (omega arith) in
    elim (dec_lt (x % c + e) c) [
      | yes p ↦ omega (arith, mod-add-mod x c e, mod-eq_of_lt p)
      | no p ↦ omega (
        arith,
        mod-add-mod x c e,
        mod-eq-sub-mod {n = x % c + e} {m = c} (omega arith),
        mod-eq_of_lt {n = x % c + e - c} {m = c} (omega arith),
      )
    ]

write_byte_ne : (ring : Bytes) (i b j : ℕ) → i ≢ j → write_byte ring i b j ≡ ring j
unfolding write_byte
write_byte_ne ring i b j ne = ground arith

write_byte_self : (ring : Bytes) (i b : ℕ) → write_byte ring i b i ≡ b
unfolding write_byte
write_byte_self ring i b = ground arith

-- A store that begins `d` bytes after position `x` and ends before it comes round leaves `x` alone.
store_other :
    (c : ℕ) (ring : Bytes) (s : ℕ) (bytes : List ℕ) (x d : ℕ)
    → s % c ≡ (x + d) % c
    → 0 < d
    → d + length bytes ≤ c
    → store c ring s bytes (x % c) ≡ ring (x % c)
unfolding store
store_other c ring s [] x d e pos fits = refl
store_other c ring s (b ∷ bytes) x d e pos fits =
    store_other c (write_byte ring (s % c) b) (s + 1) bytes x (d + 1) (next_position c s x d e)
      (omega arith) (omega arith)
    ∙ write_byte_ne ring (s % c) b (x % c) (λ p. mod_step_ne c x d pos (omega arith) (sym e ∙ p))
  where
    next_position : (c s x d : ℕ) → s % c ≡ (x + d) % c → (s + 1) % c ≡ (x + (d + 1)) % c
    next_position c s x d e =
        sym (mod-add-mod s c 1)
        ∙ ap (λ t. (t + 1) % c) e
        ∙ mod-add-mod (x + d) c 1
        ∙ ap (λ t. t % c) (omega arith)

-- A store leaves alone every byte of a region that it does not reach.
pub load-store_other :
    (c : ℕ) (ring : Bytes) (s : ℕ) (bytes : List ℕ) (x n d : ℕ)
    → s % c ≡ (x + d) % c
    → n ≤ d
    → d + length bytes ≤ c
    → load c (store c ring s bytes) x n ≡ load c ring x n
unfolding load
load-store_other c ring s bytes x zero d e below fits = refl
load-store_other c ring s bytes x (suc n) d e below fits =
    ap₂ ◌∷◌ (store_other c ring s bytes x d e (omega arith) fits) (
      load-store_other c ring s bytes (x + 1) n (d - 1) (e ∙ ap (λ t. t % c) (omega arith))
        (omega arith) (omega arith))

-- What is stored is loaded again.
pub load-store :
    (c : ℕ) (ring : Bytes) (s : ℕ) (bytes : List ℕ)
    → length bytes ≤ c
    → load c (store c ring s bytes) s (length bytes) ≡ bytes
unfolding load store
load-store c ring s [] fits = refl
load-store c ring s (b ∷ bytes) fits =
    ap₂ ◌∷◌
      (store_other c (write_byte ring (s % c) b) (s + 1) bytes s 1 refl (omega arith) (omega arith)
        ∙ write_byte_self ring (s % c) b)
      (load-store c (write_byte ring (s % c) b) (s + 1) bytes (omega arith))

-- Only the position modulo the capacity counts.
pub load_mod :
    (c : ℕ) (ring : Bytes) (x y n : ℕ) → x % c ≡ y % c → load c ring x n ≡ load c ring y n
unfolding load
load_mod c ring x y zero e = refl
load_mod c ring x y (suc n) e = ap₂ ◌∷◌ (ap ring e) (
    load_mod c ring (x + 1) (y + 1) n
      (sym (mod-add-mod x c 1) ∙ ap (λ t. (t + 1) % c) e ∙ mod-add-mod y c 1))

pub length-load : (c : ℕ) (ring : Bytes) (x n : ℕ) → length (load c ring x n) ≡ n
unfolding load
length-load c ring x zero = refl
length-load c ring x (suc n) = ap suc (length-load c ring (x + 1) n)

pub store-append :
    (c : ℕ) (ring : Bytes) (s : ℕ) (front back : List ℕ)
    → store c ring s (front ++ back) ≡ store c (store c ring s front) (s + length front) back
unfolding store
store-append c ring s [] back = ap (λ t. store c ring t back) (omega arith)
store-append c ring s (b ∷ front) back =
    store-append c (write_byte ring (s % c) b) (s + 1) front back
    ∙ ap (λ t. store c (store c (write_byte ring (s % c) b) (s + 1) front) t back) (omega arith)

write_byte-same : (ring : Bytes) (i : ℕ) → write_byte ring i (ring i) ≡ ring
unfolding write_byte
write_byte-same ring i = fun_ext (λ j. same i j)
  where
    same : (i j : ℕ) → (if i == j then ring i else ring j) ≡ ring j
    same i j = split_if (λ x. x ≡ ring j) (i == j) (λ e. ap ring ((==_iff i j).0 e)) (λ e. refl)

-- A byte that stands in the ring already can be stored or left.
pub store-load : (c : ℕ) (ring : Bytes) (s n : ℕ) → store c ring s (load c ring s n) ≡ ring
unfolding store load
store-load c ring s zero = refl
store-load c ring s (suc n) =
    ap (λ r. store c r (s + 1) (load c ring (s + 1) n)) (write_byte-same ring (s % c))
    ∙ store-load c ring (s + 1) n

write_byte_comm :
    (ring : Bytes) (i j a b : ℕ)
    → i ≢ j
    → write_byte (write_byte ring i a) j b ≡ write_byte (write_byte ring j b) i a
unfolding write_byte
write_byte_comm ring i j a b h = fun_ext (λ k. both i j k (ring k) h)
  where
    both :
        (i j k r : ℕ)
        → i ≢ j
        → (if j == k then b else if i == k then a else r)
          ≡ (if i == k then a else if j == k then b else r)
    both i j k r h = ground arith

-- A byte in front of a store that does not come round to it.
write_byte-store :
    (c : ℕ) (ring : Bytes) (s d b : ℕ) (bytes : List ℕ)
    → 0 < d
    → d + length bytes ≤ c
    → write_byte (store c ring (s + d) bytes) (s % c) b
      ≡ store c (write_byte ring (s % c) b) (s + d) bytes
unfolding store
write_byte-store c ring s d b [] pos fits = refl
write_byte-store c ring s d b (x ∷ bytes) pos fits =
    let apart : (s + d) % c ≢ s % c = mod_step_ne c s d pos (omega arith) in
    let next : s + d + 1 ≡ s + (d + 1) = omega arith in
    ap (λ t. write_byte (store c (write_byte ring ((s + d) % c) x) t bytes) (s % c) b) next
    ∙ write_byte-store c (write_byte ring ((s + d) % c) x) s (d + 1) b bytes (omega arith)
        (omega arith)
    ∙ ap (λ r. store c r (s + (d + 1)) bytes) (write_byte_comm ring ((s + d) % c) (s % c) x b apart)
    ∙ ap (λ t. store c (write_byte (write_byte ring (s % c) b) ((s + d) % c) x) t bytes) (sym next)

-- Two stores one behind the other, the second one first.
pub store-store :
    (c : ℕ) (ring : Bytes) (s : ℕ) (front back : List ℕ)
    → length front + length back ≤ c
    → store c (store c ring (s + length front) back) s front ≡ store c ring s (front ++ back)
unfolding store
store-store c ring s [] back fits = ap (λ t. store c ring t back) (omega arith)
store-store c ring s (b ∷ front) back fits =
    let next : s + suc (length front) ≡ s + 1 + length front = omega arith in
    ap (λ r. store c r (s + 1) front)
      (write_byte-store c ring s (suc (length front)) b back (omega arith) (omega arith))
    ∙ ap (λ t. store c (store c (write_byte ring (s % c) b) t back) (s + 1) front) next
    ∙ store-store c (write_byte ring (s % c) b) (s + 1) front back (omega arith)

pub load-append :
    (c : ℕ) (ring : Bytes) (s m n : ℕ)
    → load c ring s (m + n) ≡ load c ring s m ++ load c ring (s + m) n
unfolding load
load-append c ring s zero n =
    ap (load c ring s) (omega arith) ∙ ap (λ t. load c ring t n) (omega arith)
load-append c ring s (suc m) n =
    ap (load c ring s) (shift m n)
    ∙ ap (◌∷◌ (ring (s % c))) (load-append c ring (s + 1) m n)
    ∙ ap (λ t. ring (s % c) ∷ (load c ring (s + 1) m ++ load c ring t n)) (omega arith)
  where
    shift : (m n : ℕ) → suc m + n ≡ suc (m + n)
    shift m n = omega arith
