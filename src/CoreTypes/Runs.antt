-- ===== src/CoreTypes/Runs.antt =====
-- Runs of the encoders and decoders on small arrays, and the theorems at concrete inputs.
use conftron.Base.{
  ◌-◌, ◌^◌, ◌≡◌, refl, some, none, [], ◌∷◌, arith, pos, minus_one, read_bytes, write_bytes, to_int,
}
use conftron.CoreTypes.{
  int16_t_encode_array, int32_t_encode_array, int32_t_decode_array, int8_t_encode_array,
  string_encode_array, string_decode_array, string_encode_loop, double_decode_array,
  string_encoded_array_size, string_sizes,
}
use conftron.CoreTypes.RoundTrip.{int32_t, int_decode-encode}
use conftron.CoreTypes.Strings.{string_decode-encode}
use conftron.CoreTypes.Bounds.{string_decode_negative}

-- -2 and 258, two bytes into a buffer of seven.
int16_run :
    int16_t_encode_array (9 ∷ 9 ∷ 9 ∷ 9 ∷ 9 ∷ 9 ∷ 9 ∷ []) 2 (pos 5) (0xfffe ∷ 258 ∷ [])
    ≡ some (pos 4, 9 ∷ 9 ∷ 255 ∷ 254 ∷ 1 ∷ 2 ∷ 9 ∷ [])
unfolding int16_t_encode_array write_bytes to_int
int16_run = refl

int16_no_room :
    int16_t_encode_array (9 ∷ 9 ∷ 9 ∷ []) 0 (pos 3) (1 ∷ 2 ∷ []) ≡ some (minus_one, 9 ∷ 9 ∷ 9 ∷ [])
unfolding int16_t_encode_array to_int
int16_no_room = refl

-- -1 comes back from eight bytes 0xff.
int64_run :
    double_decode_array (255 ∷ 255 ∷ 255 ∷ 255 ∷ 255 ∷ 255 ∷ 255 ∷ 255 ∷ []) 0 (pos 8) 1
    ≡ some (pos 8, (2 ^ 64 - 1) ∷ [])
unfolding double_decode_array read_bytes to_int
int64_run = refl

string_run :
    string_encode_array (9 ∷ 9 ∷ 9 ∷ 9 ∷ 9 ∷ 9 ∷ 9 ∷ 9 ∷ []) 0 (pos 8) ((b'h' ∷ b'i' ∷ []) ∷ [])
    ≡ some (pos 7, 0 ∷ 0 ∷ 0 ∷ 3 ∷ b'h' ∷ b'i' ∷ 0 ∷ 9 ∷ [])
unfolding string_encode_array string_encode_loop int32_t_encode_array int8_t_encode_array read_bytes
    write_bytes to_int
string_run = refl

int_decode-encode_example :
    (int32_t_encode_array (9 ∷ 9 ∷ 9 ∷ 9 ∷ 9 ∷ []) 0 (pos 5) (0x01020304 ∷ [])
      ≡ some (pos 4, 1 ∷ 2 ∷ 3 ∷ 4 ∷ 9 ∷ []))
    × (int32_t_decode_array (1 ∷ 2 ∷ 3 ∷ 4 ∷ 9 ∷ []) 0 (pos 5) 1 ≡ some (pos 4, 0x01020304 ∷ []))
int_decode-encode_example =
    int_decode-encode int32_t (0x01020304 ∷ []) [] (9 ∷ 9 ∷ 9 ∷ 9 ∷ []) (9 ∷ []) (pos 5)
      (omega arith) refl (omega arith) (omega arith)

string_decode-encode_example :
    (pos 7 ≡ string_encoded_array_size ((b'h' ∷ b'i' ∷ []) ∷ []))
    × (string_encode_array (9 ∷ 9 ∷ 9 ∷ 9 ∷ 9 ∷ 9 ∷ 9 ∷ 9 ∷ []) 0 (pos 8) ((b'h' ∷ b'i' ∷ []) ∷ [])
        ≡ some (
          string_encoded_array_size ((b'h' ∷ b'i' ∷ []) ∷ []),
          0 ∷ 0 ∷ 0 ∷ 3 ∷ b'h' ∷ b'i' ∷ 0 ∷ 9 ∷ [],
        ))
    × (string_decode_array (0 ∷ 0 ∷ 0 ∷ 3 ∷ b'h' ∷ b'i' ∷ 0 ∷ 9 ∷ []) 0 (pos 8) 1
        ≡ some (string_encoded_array_size ((b'h' ∷ b'i' ∷ []) ∷ []), (b'h' ∷ b'i' ∷ 0 ∷ []) ∷ []))
unfolding string_sizes
string_decode-encode_example =
    string_decode-encode ((b'h' ∷ b'i' ∷ []) ∷ []) [] (9 ∷ 9 ∷ 9 ∷ 9 ∷ 9 ∷ 9 ∷ 9 ∷ []) (9 ∷ []) 8
      refl (omega arith) (omega arith) (omega arith)

string_decode_negative_example :
    string_decode_array (255 ∷ 255 ∷ 255 ∷ 251 ∷ 104 ∷ []) 0 (pos 5) 1 ≡ none
string_decode_negative_example =
    string_decode_negative (2 ^ 32 - 5) 5 0 [] (104 ∷ []) (omega arith) (omega arith) (omega arith)
