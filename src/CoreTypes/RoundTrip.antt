-- ===== src/CoreTypes/RoundTrip.antt =====
-- upstream/lcm/lcm_coretypes.h: the arrays of the three longer integer types, together.
use conftron.Base.{ℕ, ◌*◌, ◌^◌, ◌<◌, ◌≡◌, Option, some, List, ◌++◌, length, All, ℤ, pos, ◌≤ℤ◌}
use conftron.CoreTypes.{
  bytes16, bytes32, bytes64, int16_t_encode_array, int16_t_decode_array, int32_t_encode_array,
  int32_t_decode_array, int64_t_encode_array, int64_t_decode_array,
}
use conftron.CoreTypes.Words.{
  wire, int16_t_decode-encode, int32_t_decode-encode, int64_t_decode-encode,
}

pub data IntType : Type 0 where
  int16_t int32_t int64_t : IntType

-- The size of an element, and its bytes in a message.
abbrev pub element_size : IntType → ℕ
element_size int16_t = 2
element_size int32_t = 4
element_size int64_t = 8

abbrev pub element_bytes : IntType → ℕ → List ℕ
element_bytes int16_t = bytes16
element_bytes int32_t = bytes32
element_bytes int64_t = bytes64

abbrev pub encode_array_of : IntType → List ℕ → ℕ → ℤ → List ℕ → Option (ℤ × List ℕ)
encode_array_of int16_t = int16_t_encode_array
encode_array_of int32_t = int32_t_encode_array
encode_array_of int64_t = int64_t_encode_array

abbrev pub decode_array_of : IntType → List ℕ → ℕ → ℤ → ℕ → Option (ℤ × List ℕ)
decode_array_of int16_t = int16_t_decode_array
decode_array_of int32_t = int32_t_decode_array
decode_array_of int64_t = int64_t_decode_array

-- On every array of int16_t, int32_t or int64_t whose elements, each in the range of its type, fit in
-- `maxlen` and in an int, the encoder of the type replaces exactly the bytes at the offset by the
-- big-endian array and answers their number, and the decoder reads the same array back from the result.
pub int_decode-encode :
    (t : IntType) (p pre old post : List ℕ) (maxlen : ℤ)
    → All (λ v. v < 2 ^ (8 * element_size t)) p
    → length old ≡ element_size t * length p
    → element_size t * length p < 2 ^ 31
    → pos (element_size t * length p) ≤ℤ maxlen
    → let buf = pre ++ (wire (element_bytes t) p ++ post) in
      (encode_array_of t (pre ++ (old ++ post)) (length pre) maxlen p
        ≡ some (pos (element_size t * length p), buf))
      × (decode_array_of t buf (length pre) maxlen (length p)
          ≡ some (pos (element_size t * length p), p))
int_decode-encode int16_t = int16_t_decode-encode
int_decode-encode int32_t = int32_t_decode-encode
int_decode-encode int64_t = int64_t_decode-encode
