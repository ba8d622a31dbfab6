-- ===== src/CoreTypes/Words.antt =====
-- The fixed-width types of lcm_coretypes.h: what their encoders write, and that the decoders read it.
use conftron.Base.{
  ℕ, suc, ◌*◌, ◌^◌, ◌<◌, ◌≡◌, refl, sym, some, List, [], ◌∷◌, ◌++◌, append_assoc, length,
  length-append, arith, ℤ, pos, ◌≤ℤ◌, to_int, read_bytes, read_bytes-at, write_bytes-at, split_at,
  ◌>>=◌, All, ap, ◌∙◌,
}
use conftron.CoreTypes.{
  encode_array, decode_array, store_elements, load_elements, bytes16, value16, bytes32, value32,
  bytes64, value64, int16_t_encode_array, int16_t_decode_array, int32_t_encode_array,
  int32_t_decode_array, int64_t_encode_array, int64_t_decode_array,
}

-- The bytes of an array, in the order of its elements.
abbrev pub wire : (ℕ → List ℕ) → List ℕ → List ℕ
wire bytes [] = []
wire bytes (v ∷ p) = bytes v ++ wire bytes p

pub to_int-pos : (n : ℕ) → n < 2 ^ 31 → to_int n ≡ pos n
unfolding to_int
to_int-pos n h = ground arith

-- Four bytes hold an int32_t, and so on.
value16-bytes16 : (v : ℕ) → v < 2 ^ 16 → value16 (bytes16 v) ≡ v
value16-bytes16 v h = omega arith

pub value32-bytes32 : (v : ℕ) → v < 2 ^ 32 → value32 (bytes32 v) ≡ v
value32-bytes32 v h = omega arith

value64-bytes64 : (v : ℕ) → v < 2 ^ 64 → value64 (bytes64 v) ≡ v
value64-bytes64 v h = ground arith

module _ (size : ℕ) (bytes : ℕ → List ℕ) (length-bytes : (v : ℕ) → length (bytes v) ≡ size) where
  pub length-wire : (p : List ℕ) → length (wire bytes p) ≡ size * length p
  length-wire [] = omega arith
  length-wire (v ∷ p) =
      omega (arith, length-append (bytes v) (wire bytes p), length-wire p, length-bytes v)

  store_elements-cons :
      (v : ℕ) (p pre front back post : List ℕ)
      → length front ≡ size
      → store_elements bytes (v ∷ p) (pre ++ ((front ++ back) ++ post)) (length pre)
        ≡ store_elements bytes p ((pre ++ bytes v) ++ (back ++ post)) (length (pre ++ bytes v))
  unfolding store_elements
  store_elements-cons v p pre front back post e = rw (
    append_assoc front back post,
    write_bytes-at pre front (back ++ post) (bytes v) (e ∙ sym (length-bytes v)),
    append_assoc pre (bytes v) (back ++ post),
    length-append pre (bytes v),
  )

  -- The stores of a whole array replace exactly the bytes at the place.
  pub store_elements-at :
      (p pre old post : List ℕ)
      → length old ≡ size * length p
      → store_elements bytes p (pre ++ (old ++ post)) (length pre)
        ≡ some (pre ++ (wire bytes p ++ post))
  store_elements-at [] pre [] post h = unfold store_elements in refl
  store_elements-at [] pre (x ∷ old) post h = absurd (omega arith)
  store_elements-at (v ∷ p) pre old post h =
      let (front, back, e, len) = split_at size old (omega arith) in
      rw (e, store_elements-cons v p pre front back post len)
        (store_elements-at p (pre ++ bytes v) back post
            (omega (arith, ap (length {A = ℕ}) e, length-append front back))
          ∙ rw (append_assoc pre (bytes v), append_assoc (bytes v) (wire bytes p) post))

  module _ (value : List ℕ → ℕ) (Fits : ℕ → Type 0)
      (value-bytes : (v : ℕ) → Fits v → value (bytes v) ≡ v) where
    load_elements-cons :
        (v n : ℕ) (pre rest : List ℕ)
        → Fits v
        → load_elements size value (suc n) (pre ++ (bytes v ++ rest)) (length pre) ≡ (
            load_elements size value n ((pre ++ bytes v) ++ rest) (length (pre ++ bytes v)) >>= λ p.
            some (v ∷ p))
    unfolding load_elements
    load_elements-cons v n pre rest fits = rw (
      head,
      value-bytes v fits,
      append_assoc pre (bytes v) rest,
      length-append pre (bytes v),
      length-bytes v,
    )
      where
        head : read_bytes (pre ++ (bytes v ++ rest)) (length pre) size ≡ some (bytes v)
        head = rw (← length-bytes v) (read_bytes-at pre (bytes v) rest)

    -- The loads of a whole array read back what the stores wrote.
    pub load_elements-at :
        (p pre post : List ℕ)
        → All Fits p
        → load_elements size value (length p) (pre ++ (wire bytes p ++ post)) (length pre) ≡ some p
    load_elements-at [] pre post h = unfold load_elements in refl
    load_elements-at (v ∷ p) pre post (fits, h) = rw (
      append_assoc (bytes v) (wire bytes p) post,
      load_elements-cons v (length p) pre (wire bytes p ++ post) fits,
      load_elements-at p (pre ++ bytes v) post h,
    )

  -- An encoder writes the whole array and nothing else, and answers its size.
  encode_array-at :
      (p pre old post : List ℕ) (maxlen : ℤ)
      → length old ≡ size * length p
      → size * length p < 2 ^ 31
      → pos (size * length p) ≤ℤ maxlen
      → encode_array size bytes (pre ++ (old ++ post)) (length pre) maxlen p
        ≡ some (pos (size * length p), pre ++ (wire bytes p ++ post))
  unfolding encode_array
  encode_array-at p pre old post maxlen e small room =
      rw (to_int-pos (size * length p) small) (ground (arith, store_elements-at p pre old post e))

  module _ (value : List ℕ → ℕ) (Fits : ℕ → Type 0)
      (value-bytes : (v : ℕ) → Fits v → value (bytes v) ≡ v) where
    -- The matching decoder reads the array back.
    decode_array-at :
        (p pre post : List ℕ) (maxlen : ℤ)
        → All Fits p
        → size * length p < 2 ^ 31
        → pos (size * length p) ≤ℤ maxlen
        → decode_array size value (pre ++ (wire bytes p ++ post)) (length pre) maxlen (length p)
          ≡ some (pos (size * length p), p)
    unfolding decode_array
    decode_array-at p pre post maxlen fits small room =
        rw (to_int-pos (size * length p) small)
          (ground (arith, load_elements-at value Fits value-bytes p pre post fits))

-- On every array of int16_t whose 2 bytes an element fit in `maxlen` and in an int,
-- __int16_t_encode_array replaces exactly the bytes at the offset by the big-endian array and answers
-- their number, and __int16_t_decode_array reads the same array back from the result.
pub int16_t_decode-encode :
    (p pre old post : List ℕ) (maxlen : ℤ)
    → All (λ v. v < 2 ^ 16) p
    → length old ≡ 2 * length p
    → 2 * length p < 2 ^ 31
    → pos (2 * length p) ≤ℤ maxlen
    → let buf = pre ++ (wire bytes16 p ++ post) in
      (int16_t_encode_array (pre ++ (old ++ post)) (length pre) maxlen p
        ≡ some (pos (2 * length p), buf))
      × (int16_t_decode_array buf (length pre) maxlen (length p) ≡ some (pos (2 * length p), p))
unfolding int16_t_encode_array int16_t_decode_array
int16_t_decode-encode p pre old post maxlen fits e small room = (
  encode_array-at 2 bytes16 (λ v. refl) p pre old post maxlen e small room,
  decode_array-at 2 bytes16 (λ v. refl) value16 (λ v. v < 2 ^ 16) value16-bytes16 p pre post maxlen
      fits small room,
)

-- On every array of int32_t whose 4 bytes an element fit in `maxlen` and in an int,
-- __int32_t_encode_array replaces exactly the bytes at the offset by the big-endian array and answers
-- their number, and __int32_t_decode_array reads the same array back from the result.
pub int32_t_decode-encode :
    (p pre old post : List ℕ) (maxlen : ℤ)
    → All (λ v. v < 2 ^ 32) p
    → length old ≡ 4 * length p
    → 4 * length p < 2 ^ 31
    → pos (4 * length p) ≤ℤ maxlen
    → let buf = pre ++ (wire bytes32 p ++ post) in
      (int32_t_encode_array (pre ++ (old ++ post)) (length pre) maxlen p
        ≡ some (pos (4 * length p), buf))
      × (int32_t_decode_array buf (length pre) maxlen (length p) ≡ some (pos (4 * length p), p))
unfolding int32_t_encode_array int32_t_decode_array
int32_t_decode-encode p pre old post maxlen fits e small room = (
  encode_array-at 4 bytes32 (λ v. refl) p pre old post maxlen e small room,
  decode_array-at 4 bytes32 (λ v. refl) value32 (λ v. v < 2 ^ 32) value32-bytes32 p pre post maxlen
      fits small room,
)

-- On every array of int64_t whose 8 bytes an element fit in `maxlen` and in an int,
-- __int64_t_encode_array replaces exactly the bytes at the offset by the big-endian array and answers
-- their number, and __int64_t_decode_array reads the same array back from the result.
pub int64_t_decode-encode :
    (p pre old post : List ℕ) (maxlen : ℤ)
    → All (λ v. v < 2 ^ 64) p
    → length old ≡ 8 * length p
    → 8 * length p < 2 ^ 31
    → pos (8 * length p) ≤ℤ maxlen
    → let buf = pre ++ (wire bytes64 p ++ post) in
      (int64_t_encode_array (pre ++ (old ++ post)) (length pre) maxlen p
        ≡ some (pos (8 * length p), buf))
      × (int64_t_decode_array buf (length pre) maxlen (length p) ≡ some (pos (8 * length p), p))
unfolding int64_t_encode_array int64_t_decode_array
int64_t_decode-encode p pre old post maxlen fits e small room = (
  encode_array-at 8 bytes64 (λ v. refl) p pre old post maxlen e small room,
  decode_array-at 8 bytes64 (λ v. refl) value64 (λ v. v < 2 ^ 64) value64-bytes64 p pre post maxlen
      fits small room,
)
