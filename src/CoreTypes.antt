-- ===== src/CoreTypes.antt =====
-- upstream/lcm/lcm_coretypes.h: the encoders and decoders of LCM's primitive types, which every
-- generated message type calls. A value of intN_t is its bit pattern, a number below 2 ^ N; an array
-- is the list of its elements. An encoder answers C's return value and the buffer; `none` is undefined
-- behaviour, an access outside the buffer or a memcpy of a negative size.
pub mod Words
pub mod RoundTrip
pub mod Strings
pub mod Bounds
mod Runs
use conftron.Base.{
  ℕ, zero, suc, ◌+◌, ◌-◌, ◌*◌, ◌/◌, ◌%◌, ◌^◌, Bool, true, false, Option, none, some, List, [], ◌∷◌,
  ◌++◌, map, length, get_or, drop, if◌then◌else◌, ltb, leb, ℤ, pos, negsuc, minus_one, pos_part,
  ◌-ℤ◌, ltb_ℤ, is_neg, to_int, Buf, read_bytes, write_bytes, ◌>>=◌,
}

-- __byte_encoded_array_size, __int8_t_encoded_array_size
pub byte_encoded_array_size : List ℕ → ℤ
byte_encoded_array_size p = to_int (length p)

-- __byte_encode_array; `elements` bytes are copied from `p`.
pub byte_encode_array : Buf → ℕ → ℤ → List ℕ → ℤ → Option (ℤ × Buf)
byte_encode_array buf offset maxlen p elements =
    if ltb_ℤ maxlen elements then some (minus_one, buf) else elim elements [
      | pos n ↦ read_bytes p 0 n >>= λ bs. write_bytes buf offset bs >>= λ buf'. some (pos n, buf')
      | negsuc n ↦ none
    ]

-- __byte_decode_array
pub byte_decode_array : Buf → ℕ → ℤ → ℤ → Option (ℤ × List ℕ)
byte_decode_array buf offset maxlen elements =
    if ltb_ℤ maxlen elements then some (minus_one, []) else elim elements [
      | pos n ↦ read_bytes buf offset n >>= λ bs. some (pos n, bs)
      | negsuc n ↦ none
    ]

-- __int8_t_encode_array
pub int8_t_encode_array : Buf → ℕ → ℤ → List ℕ → ℤ → Option (ℤ × Buf)
unfolding byte_encode_array
int8_t_encode_array buf offset maxlen p elements = byte_encode_array buf offset maxlen p elements

-- __int8_t_decode_array
pub int8_t_decode_array : Buf → ℕ → ℤ → ℤ → Option (ℤ × List ℕ)
unfolding byte_decode_array
int8_t_decode_array buf offset maxlen elements = byte_decode_array buf offset maxlen elements

-- The loop of the encoders of wider types: `bytes v` are the stores `buf[pos++] = …` of one element.
pub store_elements : (ℕ → List ℕ) → List ℕ → Buf → ℕ → Option Buf
store_elements bytes [] buf place = some buf
store_elements bytes (v ∷ p) buf place = write_bytes buf place (bytes v) >>= λ buf'.
    store_elements bytes p buf' (place + length (bytes v))

-- The loop of the decoders: `value` combines the `width` bytes at the place.
pub load_elements : ℕ → (List ℕ → ℕ) → ℕ → Buf → ℕ → Option (List ℕ)
load_elements width value zero buf place = some []
load_elements width value (suc elements) buf place = read_bytes buf place width >>= λ bs.
    load_elements width value elements buf (place + width) >>= λ p. some (value bs ∷ p)

-- What the encoders of wider types do round their loop, `size` being sizeof of an element.
pub encode_array : ℕ → (ℕ → List ℕ) → Buf → ℕ → ℤ → List ℕ → Option (ℤ × Buf)
unfolding store_elements
encode_array size bytes buf offset maxlen p =
    let total_size = to_int (size * length p) in
    if ltb_ℤ maxlen total_size
    then some (minus_one, buf)
    else store_elements bytes p buf offset >>= λ buf'. some (total_size, buf')

-- The same of the decoders.
pub decode_array : ℕ → (List ℕ → ℕ) → Buf → ℕ → ℤ → ℕ → Option (ℤ × List ℕ)
unfolding load_elements
decode_array size value buf offset maxlen elements =
    let total_size = to_int (size * elements) in
    if ltb_ℤ maxlen total_size
    then some (minus_one, [])
    else load_elements size value elements buf offset >>= λ p. some (total_size, p)

-- (v>>8)&0xff and v&0xff; the shift of a negative `v` brings copies of its sign above bit 15 only.
abbrev pub bytes16 : ℕ → List ℕ
bytes16 v = (v / 2 ^ 8 % 256) ∷ (v % 256) ∷ []

abbrev pub value16 : List ℕ → ℕ
value16 bs = (get_or bs 0 0 * 2 ^ 8 + get_or bs 1 0) % 2 ^ 16

-- __int16_t_encode_array
pub int16_t_encode_array : Buf → ℕ → ℤ → List ℕ → Option (ℤ × Buf)
unfolding encode_array
int16_t_encode_array = encode_array 2 bytes16

-- __int16_t_decode_array
pub int16_t_decode_array : Buf → ℕ → ℤ → ℕ → Option (ℤ × List ℕ)
unfolding decode_array
int16_t_decode_array = decode_array 2 value16

abbrev pub bytes32 : ℕ → List ℕ
bytes32 v = (v / 2 ^ 24 % 256) ∷ (v / 2 ^ 16 % 256) ∷ (v / 2 ^ 8 % 256) ∷ (v % 256) ∷ []

abbrev pub value32 : List ℕ → ℕ
value32 bs =
    (get_or bs 0 0 * 2 ^ 24 + get_or bs 1 0 * 2 ^ 16 + get_or bs 2 0 * 2 ^ 8 + get_or bs 3 0)
    % 2 ^ 32

-- __int32_t_encode_array
pub int32_t_encode_array : Buf → ℕ → ℤ → List ℕ → Option (ℤ × Buf)
unfolding encode_array
int32_t_encode_array = encode_array 4 bytes32

-- __int32_t_decode_array
pub int32_t_decode_array : Buf → ℕ → ℤ → ℕ → Option (ℤ × List ℕ)
unfolding decode_array
int32_t_decode_array = decode_array 4 value32

abbrev pub bytes64 : ℕ → List ℕ
bytes64 v =
    (v / 2 ^ 56 % 256) ∷ (v / 2 ^ 48 % 256) ∷ (v / 2 ^ 40 % 256) ∷ (v / 2 ^ 32 % 256) ∷ bytes32 v

-- The conversion from int to int64_t copies the sign into the upper half.
abbrev pub sign_extend : ℕ → ℕ
sign_extend a = if ltb a (2 ^ 31) then a else a + (2 ^ 64 - 2 ^ 32)

-- (a<<32) + (b&0xffffffff)
abbrev pub value64 : List ℕ → ℕ
value64 bs =
    let a = sign_extend (value32 bs) in
    let b = sign_extend (value32 (drop 4 bs)) in (a * 2 ^ 32 % 2 ^ 64 + b % 2 ^ 32) % 2 ^ 64

-- __int64_t_encode_array
pub int64_t_encode_array : Buf → ℕ → ℤ → List ℕ → Option (ℤ × Buf)
unfolding encode_array
int64_t_encode_array = encode_array 8 bytes64

-- __int64_t_decode_array
pub int64_t_decode_array : Buf → ℕ → ℤ → ℕ → Option (ℤ × List ℕ)
unfolding decode_array
int64_t_decode_array = decode_array 8 value64

-- __int16_t_encoded_array_size, __int32_t_encoded_array_size, __int64_t_encoded_array_size
pub int16_t_encoded_array_size : List ℕ → ℤ
int16_t_encoded_array_size p = to_int (2 * length p)

pub int32_t_encoded_array_size : List ℕ → ℤ
int32_t_encoded_array_size p = to_int (4 * length p)

pub int64_t_encoded_array_size : List ℕ → ℤ
int64_t_encoded_array_size p = to_int (8 * length p)

-- A float is cast to the int32_t with its bits, a double to the int64_t.
-- __float_encode_array, __float_decode_array
pub float_encode_array : Buf → ℕ → ℤ → List ℕ → Option (ℤ × Buf)
unfolding int32_t_encode_array
float_encode_array = int32_t_encode_array

pub float_decode_array : Buf → ℕ → ℤ → ℕ → Option (ℤ × List ℕ)
unfolding int32_t_decode_array
float_decode_array = int32_t_decode_array

-- __double_encode_array, __double_decode_array
pub double_encode_array : Buf → ℕ → ℤ → List ℕ → Option (ℤ × Buf)
unfolding int64_t_encode_array
double_encode_array = int64_t_encode_array

pub double_decode_array : Buf → ℕ → ℤ → ℕ → Option (ℤ × List ℕ)
unfolding int64_t_decode_array
double_decode_array = int64_t_decode_array

-- The memory of a C string: its characters, none of them NUL, and the terminator.
abbrev pub c_string : List ℕ → List ℕ
c_string s = s ++ (0 ∷ [])

-- size += 4 + strlen(s[element]) + 1
pub string_sizes : List (List ℕ) → ℕ
string_sizes [] = 0
string_sizes (s ∷ p) = 4 + length s + 1 + string_sizes p

-- __string_encoded_array_size, whose sum is an int
unfoldable pub string_encoded_array_size : List (List ℕ) → ℤ
unfolding string_sizes
string_encoded_array_size p = to_int (string_sizes p)

-- The loop of __string_encode_array; `place` is its variable `pos`.
pub string_encode_loop : Buf → ℕ → ℤ → List (List ℕ) → ℕ → Option (ℤ × Buf)
string_encode_loop buf offset maxlen [] place = some (pos place, buf)
string_encode_loop buf offset maxlen (s ∷ p) place =
    let len = (length s + 1) % 2 ^ 32 in
    int32_t_encode_array buf (offset + place) (maxlen -ℤ pos place) (len ∷ []) >>= λ (r, buf1).
    let place1 = place + pos_part r in
    if is_neg r
    then some (r, buf1)
    else int8_t_encode_array buf1 (offset + place1) (maxlen -ℤ pos place1) (c_string s) (to_int len)
      >>= λ (r', buf2).
          if is_neg r'
          then some (r', buf2)
          else string_encode_loop buf2 offset maxlen p (place1 + pos_part r')

-- __string_encode_array
pub string_encode_array : Buf → ℕ → ℤ → List (List ℕ) → Option (ℤ × Buf)
string_encode_array buf offset maxlen p = string_encode_loop buf offset maxlen p 0

-- The loop of __string_decode_array. A decoded string is the block that was allocated for it; after
-- an error the blocks read so far are kept.
pub string_decode_loop : Buf → ℕ → ℤ → ℕ → ℕ → Option (ℤ × List (List ℕ))
string_decode_loop buf offset maxlen zero place = some (pos place, [])
string_decode_loop buf offset maxlen (suc elements) place =
    int32_t_decode_array buf (offset + place) (maxlen -ℤ pos place) 1 >>= λ (r, lens).
    let place1 = place + pos_part r in
    if is_neg r
    then some (r, [])
    else int8_t_decode_array buf (offset + place1) (maxlen -ℤ pos place1) (to_int (get_or lens 0 0))
      >>= λ (r', s).
          if is_neg r'
          then some (r', [])
          else string_decode_loop buf offset maxlen elements (place1 + pos_part r') >>= λ (r'', p).
              some (r'', s ∷ p)

-- __string_decode_array
pub string_decode_array : Buf → ℕ → ℤ → ℕ → Option (ℤ × List (List ℕ))
string_decode_array buf offset maxlen elements = string_decode_loop buf offset maxlen elements 0
