-- ===== src/CoreTypes/Bounds.antt =====
-- What the decoders of lcm_coretypes.h do on a message that no encoder wrote.
use conftron.Base.{
  ℕ, suc, ◌+◌, ◌*◌, ◌^◌, ◌<◌, ◌≤◌, ◌≡◌, refl, Option, some, none, List, [], ◌∷◌, ◌++◌, ◌⊎◌, length,
  arith, ℤ, pos, minus_one, negsuc, ◌-◌, ◌-ℤ◌, ◌≤ℤ◌, to_int, Buf, All,
}
use conftron.CoreTypes.{bytes32, int8_t_decode_array, string_decode_array, string_decode_loop}
use conftron.CoreTypes.Strings.{int32_t_one}

-- Either `maxlen` is too small, or the whole array is read.
abbrev pub Decoded : ℕ → ℕ → ℕ → ℕ → Option (ℤ × List ℕ) → Type 0
Decoded size bits n m result =
    ((m < size * n) × (result ≡ some (minus_one, [])))
    ⊎ ((size * n ≤ m)
        × ((p : List ℕ) × (result ≡ some (pos (size * n), p))
            × (length p ≡ n)
            × All (λ v. v < 2 ^ bits) p))

to_int-neg : (v : ℕ) → 2 ^ 31 ≤ v → v < 2 ^ 32 → (k : ℕ) × (to_int v ≡ negsuc k)
unfolding to_int
to_int-neg v high fits = (2 ^ 32 - 1 - v, ground arith)

negative_memcpy :
    (buf : Buf) (offset k : ℕ) (maxlen : ℤ)
    → pos 0 ≤ℤ maxlen
    → int8_t_decode_array buf offset maxlen (negsuc k) ≡ none
unfolding int8_t_decode_array
negative_memcpy buf offset k maxlen room = ground arith

-- A length field with its top bit set is read as a negative number, which no `maxlen` excludes: the
-- decoder goes on to copy a negative number of bytes. This holds for every such field, every rest of the
-- message and every `maxlen` that has room for the field.
pub string_decode_negative :
    (v m n : ℕ) (front post : List ℕ)
    → 2 ^ 31 ≤ v
    → v < 2 ^ 32
    → 4 ≤ m
    → string_decode_array (front ++ (bytes32 v ++ post)) (length front) (pos m) (suc n) ≡ none
unfolding string_decode_array string_decode_loop
string_decode_negative v m n front post high fits room = rw (
  (int32_t_one front post {k = length front + 0} (omega arith) (pos m -ℤ pos 0) v
      (0 ∷ 0 ∷ 0 ∷ 0 ∷ []) fits refl (ground arith)).1,
  (to_int-neg v high fits).1,
  negative_memcpy _ _ _ (pos m -ℤ pos 4) nonneg,
)
  where
    nonneg : pos 0 ≤ℤ (pos m -ℤ pos 4)
    nonneg = ground arith
