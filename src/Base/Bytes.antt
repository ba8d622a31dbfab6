-- ===== src/Base/Bytes.antt =====
-- Byte buffers. A read or a write that leaves the buffer is undefined behaviour in C: `none`.
use conftron.Base.Tests.{leb, ◌==◌, if◌then◌else◌, le→leb, ne→==_false}
use conftron.Base.Lists.{length, take, drop, length-append, take-append-drop, length-take}
use Prim.Native.Nat.add
use Prim.Native.Nat.{ℕ, zero, suc, ◌+◌, ◌<◌, ◌≤◌}
use mathlib.Core.Path.{◌≡◌, refl, sym, ap}
use mathlib.Core.Option.{Option, none, some}
use mathlib.Core.List.{List, [], ◌∷◌, ◌++◌, append-nil}
use native.Mathlib.Omega.{arith}

infixl 5 ◌>>=◌
abbrev pub ◌>>=◌ {ℓ κ} : {A : Type ℓ} {B : Type κ} → Option A → (A → Option B) → Option B
none >>= f = none
some a >>= f = f a

abbrev pub Buf : Type 0
Buf = List ℕ

abbrev pub IsByte : ℕ → Type 0
IsByte b = b < 256

abbrev pub All {ℓ κ} : {A : Type ℓ} → (A → Type κ) → List A → Type κ
All P [] = Unit
All P (x ∷ xs) = P x × All P xs

-- The text at the start of a buffer, up to its NUL.
abbrev pub until_nul : Buf → List ℕ
until_nul [] = []
until_nul (c ∷ s) = let rest = until_nul s in if c == 0 then [] else c ∷ rest

-- memcpy out of, and into, the buffer at `pos`.
unfoldable pub read_bytes : Buf → ℕ → ℕ → Option (List ℕ)
read_bytes buf pos n = if leb (pos + n) (length buf) then some (take n (drop pos buf)) else none

unfoldable pub write_bytes : Buf → ℕ → List ℕ → Option Buf
write_bytes buf pos bs =
    if leb (pos + length bs) (length buf)
    then some (take pos buf ++ (bs ++ drop (pos + length bs) buf))
    else none

module _ {ℓ} {A : Type ℓ} where
  pub take-length_append : (xs ys : List A) → take (length xs) (xs ++ ys) ≡ xs
  take-length_append [] ys = refl
  take-length_append (x ∷ xs) ys = ap (λ t. x ∷ t) (take-length_append xs ys)

  pub drop-length_append : (xs ys : List A) → drop (length xs) (xs ++ ys) ≡ ys
  drop-length_append [] ys = refl
  drop-length_append (x ∷ xs) ys = drop-length_append xs ys

  drop_nil : (k : ℕ) → drop {A = A} k [] ≡ []
  drop_nil zero = refl
  drop_nil (suc k) = refl

  pub drop-add : (m n : ℕ) (xs : List A) → drop (m + n) xs ≡ drop n (drop m xs)
  drop-add zero n xs = rw (add.zero n)
  drop-add (suc m) n [] = rw (add.suc m n, drop_nil n)
  drop-add (suc m) n (x ∷ xs) = rw (add.suc m n) (drop-add m n xs)

  pub drop-length_three :
      (pre old post : List A) {n : ℕ}
      → n ≡ length old
      → drop (length pre + n) (pre ++ (old ++ post)) ≡ post
  drop-length_three pre old post e =
      rw (e, drop-add (length pre) (length old), drop-length_append, drop-length_append)

  -- Cut a block at `n`.
  pub split_at :
      (n : ℕ) (xs : List A)
      → n ≤ length xs
      → (front : List A) × (back : List A) × (xs ≡ front ++ back) × (length front ≡ n)
  split_at n xs h =
      (take n xs, drop n xs, sym (take-append-drop n xs), omega (arith, length-take n xs))

-- A buffer is seen as what stands before the place, the bytes at the place, and the rest.
pub read_bytes-at :
    (pre bs post : List ℕ) → read_bytes (pre ++ (bs ++ post)) (length pre) (length bs) ≡ some bs
unfolding read_bytes
read_bytes-at pre bs post =
    rw (le→leb (length pre + length bs) (length (pre ++ (bs ++ post))) room)
      (rw (drop-length_append, take-length_append))
  where
    room : length pre + length bs ≤ length (pre ++ (bs ++ post))
    room = omega (arith, length-append pre (bs ++ post), length-append bs post)

pub read_bytes-whole : (bs : List ℕ) → read_bytes bs 0 (length bs) ≡ some bs
read_bytes-whole bs = rw append-nil at (read_bytes-at [] bs [])

pub write_bytes-at :
    (pre old post bs : List ℕ)
    → length old ≡ length bs
    → write_bytes (pre ++ (old ++ post)) (length pre) bs ≡ some (pre ++ (bs ++ post))
unfolding write_bytes
write_bytes-at pre old post bs e =
    rw (le→leb (length pre + length bs) (length (pre ++ (old ++ post))) room)
      (rw (take-length_append, drop-length_three pre old post (sym e)))
  where
    room : length pre + length bs ≤ length (pre ++ (old ++ post))
    room = omega (arith, length-append pre (old ++ post), length-append old post)

-- A text without NUL is all of it.
pub until_nul_lem : (s : List ℕ) → All (λ c. 0 < c) s → until_nul s ≡ s
until_nul_lem [] h = refl
until_nul_lem (c ∷ s) (h, hs) =
    rw (ne→==_false c 0 (λ e. omega arith)) (ap (λ t. c ∷ t) (until_nul_lem s hs))
