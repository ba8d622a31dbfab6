-- ===== src/CoreTypes/Strings.antt =====
-- The string type of lcm_coretypes.h: a big-endian length that counts the terminator, the characters,
-- and the terminator.
use conftron.Base.{
  to_int, ℕ, suc, ◌+◌, ◌%◌, ◌^◌, ◌<◌, ◌≤◌, ◌≡◌, refl, ap, ◌∙◌, Option, ap₂, some, List, [], ◌∷◌,
  ◌++◌, append_assoc, length, length-append, map, arith, ℤ, pos, ◌-ℤ◌, ◌≤ℤ◌, read_bytes-at,
  read_bytes-whole, write_bytes-at, split_at, ◌>>=◌, All,
}
use Prim.Native.Nat.add
use conftron.CoreTypes.{
  bytes32, c_string, int8_t_encode_array, int8_t_decode_array, int32_t_encode_array,
  int32_t_decode_array, string_sizes, string_encoded_array_size, string_encode_loop,
  string_encode_array, string_decode_loop, string_decode_array,
}
use conftron.CoreTypes.Words.{to_int-pos, int32_t_decode-encode}

-- What an array of strings looks like in a message.
abbrev pub string_wire : List (List ℕ) → List ℕ
string_wire [] = []
string_wire (s ∷ p) = bytes32 (length s + 1) ++ (c_string s ++ string_wire p)

pub length-string_wire : (p : List (List ℕ)) → length (string_wire p) ≡ string_sizes p
unfolding string_sizes
length-string_wire [] = refl
length-string_wire (s ∷ p) = omega (
  arith,
  length-append (c_string s) (string_wire p),
  length-append s (0 ∷ []),
  length-string_wire p,
)

module _ (front post : List ℕ) {k : ℕ} (e : k ≡ length front) (maxlen : ℤ) where
  pub int32_t_one :
      (v : ℕ) (old : List ℕ)
      → v < 2 ^ 32
      → length old ≡ 4
      → pos 4 ≤ℤ maxlen
      → let buf = front ++ (bytes32 v ++ post) in
        (int32_t_encode_array (front ++ (old ++ post)) k maxlen (v ∷ []) ≡ some (pos 4, buf))
        × (int32_t_decode_array buf k maxlen 1 ≡ some (pos 4, v ∷ []))
  int32_t_one v old fits len room =
      rw e (int32_t_decode-encode (v ∷ []) front old post maxlen (fits, tt) len (omega arith) room)

  int8_t_block :
      (bs old : List ℕ)
      → length old ≡ length bs
      → pos (length bs) ≤ℤ maxlen
      → let buf = front ++ (bs ++ post) in
        (int8_t_encode_array (front ++ (old ++ post)) k maxlen bs (pos (length bs))
          ≡ some (pos (length bs), buf))
        × (int8_t_decode_array buf k maxlen (pos (length bs)) ≡ some (pos (length bs), bs))
  unfolding int8_t_encode_array int8_t_decode_array
  int8_t_block bs old len room = rw e (
      ground (
        arith,
        read_bytes-whole bs,
        write_bytes-at front old post bs len,
        read_bytes-at front bs post,
      ))

length-c_string : (s : List ℕ) → length (c_string s) ≡ length s + 1
length-c_string s = length-append s (0 ∷ [])

small_mod : (n : ℕ) → n < 2 ^ 31 → n % 2 ^ 32 ≡ n
small_mod n h = omega arith

-- One string, at a place of the buffer: its length field, then its characters and terminator.
module _ (s front post : List ℕ) (offset place m : ℕ) (spot : offset + place ≡ length front)
    (small : length s + 1 < 2 ^ 31) (room : place + (length s + 5) ≤ m) where
  length_field :
      (o1 rest : List ℕ)
      → length o1 ≡ 4
      → let buf = front ++ (bytes32 (length s + 1) ++ rest) in
        (int32_t_encode_array
            (front ++ (o1 ++ rest))
            (offset + place)
            (pos m -ℤ pos place)
            ((length s + 1) ∷ [])
          ≡ some (pos 4, buf))
        × (int32_t_decode_array buf (offset + place) (pos m -ℤ pos place) 1
            ≡ some (pos 4, (length s + 1) ∷ []))
  length_field o1 rest len =
      int32_t_one front rest spot (pos m -ℤ pos place) (length s + 1) o1 (omega arith) len
        (ground arith)

  characters :
      (o2 : List ℕ)
      → length o2 ≡ length s + 1
      → let head = bytes32 (length s + 1) in
        (int8_t_encode_array
            (front ++ (head ++ (o2 ++ post)))
            (offset + (place + 4))
            (pos m -ℤ pos (place + 4))
            (c_string s)
            (pos (length s + 1))
          ≡ some (pos (length s + 1), front ++ (head ++ (c_string s ++ post))))
        × (int8_t_decode_array
              (front ++ (head ++ (c_string s ++ post)))
              (offset + (place + 4))
              (pos m -ℤ pos (place + 4))
              (pos (length s + 1))
            ≡ some (pos (length s + 1), c_string s))
  characters o2 len =
      rw (length-c_string s, append_assoc front head, append_assoc front head) at
        (int8_t_block (front ++ head) post {k = offset + (place + 4)}
          (omega (arith, length-append front head)) (pos m -ℤ pos (place + 4)) (c_string s) o2
          (omega (arith, length-c_string s)) (ground (arith, length-c_string s)))
    where
      head : List ℕ
      head = bytes32 (length s + 1)

  string_encode_loop-cons :
      (p : List (List ℕ)) (o1 o2 : List ℕ)
      → length o1 ≡ 4
      → length o2 ≡ length s + 1
      → string_encode_loop (front ++ (o1 ++ (o2 ++ post))) offset (pos m) (s ∷ p) place
        ≡ string_encode_loop
            (front ++ (bytes32 (length s + 1) ++ (c_string s ++ post)))
            offset
            (pos m)
            p
            (place + 4 + (length s + 1))
  unfolding string_encode_loop
  string_encode_loop-cons p o1 o2 len1 len2 = rw (
    small_mod (length s + 1) small,
    to_int-pos (length s + 1) small,
    (length_field o1 (o2 ++ post) len1).0,
    (characters o2 len2).0,
  )

  string_decode_loop-cons :
      (n : ℕ)
      → string_decode_loop
          (front ++ (bytes32 (length s + 1) ++ (c_string s ++ post)))
          offset
          (pos m)
          (suc n)
          place
        ≡ (string_decode_loop
              (front ++ (bytes32 (length s + 1) ++ (c_string s ++ post)))
              offset
              (pos m)
              n
              (place + 4 + (length s + 1))
            >>= λ (r, p). some (r, c_string s ∷ p))
  unfolding string_decode_loop
  string_decode_loop-cons n = rw (
    (length_field (bytes32 (length s + 1)) (c_string s ++ post) refl).1,
    to_int-pos (length s + 1) small,
    (characters (c_string s) (length-c_string s)).1,
  )

regroup :
    (front head chars rest : List ℕ)
    → front ++ (head ++ (chars ++ rest)) ≡ (front ++ (head ++ chars)) ++ rest
regroup front head chars rest =
    rw (append_assoc front (head ++ chars) rest, append_assoc head chars rest)

-- What both loops answer after the last string, in the form of the statement.
finish :
    (front head chars wired post : List ℕ) {r r' : ℕ}
    → r ≡ r'
    → ◌≡◌ {A = Option (ℤ × List ℕ)}
        (some (pos r, (front ++ (head ++ chars)) ++ (wired ++ post)))
        (some (pos r', front ++ ((head ++ (chars ++ wired)) ++ post)))
finish front head chars wired post e =
    ap₂ (λ k t. some (pos k, t)) e
      (rw (
        append_assoc front (head ++ chars) (wired ++ post),
        append_assoc head chars (wired ++ post),
        append_assoc head (chars ++ wired) post,
        append_assoc chars wired post,
      ))

length-front :
    (front s : List ℕ)
    → length (front ++ (bytes32 (length s + 1) ++ c_string s)) ≡ length front + (length s + 5)
length-front front s =
    omega (arith, length-append front (bytes32 (length s + 1) ++ c_string s), length-c_string s)

-- The whole array is in `front ++ (old ++ post)` behind `front`, which reaches up to the place.
string_encode_loop-at :
    (p : List (List ℕ)) (front old post : List ℕ) (offset place m : ℕ)
    → offset + place ≡ length front
    → length old ≡ string_sizes p
    → All (λ (s : List ℕ). length s + 1 < 2 ^ 31) p
    → place + string_sizes p ≤ m
    → string_encode_loop (front ++ (old ++ post)) offset (pos m) p place
      ≡ some (pos (place + string_sizes p), front ++ (string_wire p ++ post))
unfolding string_sizes
string_encode_loop-at [] front [] post offset place m spot len small room =
    unfold string_encode_loop in ap (λ k. some (pos k, front ++ post)) (omega arith)
string_encode_loop-at [] front (x ∷ old) post offset place m spot len small room =
    absurd (omega arith)
string_encode_loop-at (s ∷ p) front old post offset place m spot len (small, smalls) room =
    let (o1, back, e1, len1) = split_at 4 old (omega arith) in
    let (o2, old', e2, len2) =
      split_at (length s + 1) back (omega (arith, ap (length {A = ℕ}) e1, length-append o1 back)) in
    let head = bytes32 (length s + 1) in
    let place' = place + 4 + (length s + 1) in
    rw (e1, e2, append_assoc o1 (o2 ++ old') post, append_assoc o2 old' post)
      (string_encode_loop-cons s front (old' ++ post) offset place m spot small (omega arith) p o1
          o2 len1 len2
        ∙ ap (λ t. string_encode_loop t offset (pos m) p place')
            (regroup front head (c_string s) (old' ++ post))
        ∙ string_encode_loop-at p (front ++ (head ++ c_string s)) old' post offset place' m
            (omega (arith, length-front front s))
            (omega (
              arith,
              ap (length {A = ℕ}) e1,
              length-append o1 back,
              ap (length {A = ℕ}) e2,
              length-append o2 old',
            ))
            smalls (omega arith)
        ∙ finish front head (c_string s) (string_wire p) post (omega arith))

string_decode_loop-at :
    (p : List (List ℕ)) (front post : List ℕ) (offset place m : ℕ)
    → offset + place ≡ length front
    → All (λ (s : List ℕ). length s + 1 < 2 ^ 31) p
    → place + string_sizes p ≤ m
    → string_decode_loop (front ++ (string_wire p ++ post)) offset (pos m) (length p) place
      ≡ some (pos (place + string_sizes p), map c_string p)
unfolding string_sizes
string_decode_loop-at [] front post offset place m spot small room =
    unfold string_decode_loop in ap (λ k. some (pos k, [])) (omega arith)
string_decode_loop-at (s ∷ p) front post offset place m spot (small, smalls) room =
    let head = bytes32 (length s + 1) in
    let place' = place + 4 + (length s + 1) in
    rw (append_assoc (c_string s) (string_wire p) post) (
      string_decode_loop-cons s front (string_wire p ++ post) offset place m spot small
        (omega arith) (length p)
      ∙ rw
          (
            regroup front head (c_string s) (string_wire p ++ post),
            string_decode_loop-at p (front ++ (head ++ c_string s)) post offset place' m
                (omega (arith, length-front front s)) smalls (omega arith),
          )
          (ap (λ k. some (pos k, c_string s ∷ map c_string p)) (omega arith)))

-- The round trip, with the sum of the sizes as it is.
sized_decode-encode :
    (p : List (List ℕ)) (front old post : List ℕ) (m : ℕ)
    → length old ≡ string_sizes p
    → All (λ (s : List ℕ). length s + 1 < 2 ^ 31) p
    → string_sizes p ≤ m
    → let buf = front ++ (string_wire p ++ post) in
      let size = pos (string_sizes p) in
      (string_encode_array (front ++ (old ++ post)) (length front) (pos m) p ≡ some (size, buf))
      × (string_decode_array buf (length front) (pos m) (length p) ≡ some (size, map c_string p))
unfolding string_encode_array string_decode_array
sized_decode-encode p front old post m len small room = rw (add.zero (string_sizes p)) at both
  where
    both :
        (string_encode_loop (front ++ (old ++ post)) (length front) (pos m) p 0
          ≡ some (pos (0 + string_sizes p), front ++ (string_wire p ++ post)))
        × (string_decode_loop (front ++ (string_wire p ++ post)) (length front) (pos m) (length p) 0
            ≡ some (pos (0 + string_sizes p), map c_string p))
    both = (
      string_encode_loop-at p front old post (length front) 0 m (omega arith) len small
          (omega arith),
      string_decode_loop-at p front post (length front) 0 m (omega arith) small (omega arith),
    )

-- On every array of strings whose lengths fit an int32_t and whose sizes add up to no more than `m`,
-- the maxlen, an int, __string_encode_array replaces exactly as many bytes at the offset as
-- __string_encoded_array_size answers, and answers their number, and __string_decode_array reads from
-- the result the blocks of the same strings, each with its terminator.
pub string_decode-encode :
    (p : List (List ℕ)) (front old post : List ℕ) (m : ℕ)
    → length old ≡ string_sizes p
    → All (λ (s : List ℕ). length s + 1 < 2 ^ 31) p
    → string_sizes p ≤ m
    → m < 2 ^ 31
    → let buf = front ++ (string_wire p ++ post) in
      let size = string_encoded_array_size p in
      (pos (length old) ≡ size)
      × (string_encode_array (front ++ (old ++ post)) (length front) (pos m) p ≡ some (size, buf))
      × (string_decode_array buf (length front) (pos m) (length p) ≡ some (size, map c_string p))
unfolding string_encoded_array_size
string_decode-encode p front old post m len small room int =
    rw size_lem (ap pos len, both.0, both.1)
  where
    both :
        (string_encode_array (front ++ (old ++ post)) (length front) (pos m) p
          ≡ some (pos (string_sizes p), front ++ (string_wire p ++ post)))
        × (string_decode_array (front ++ (string_wire p ++ post)) (length front) (pos m) (length p)
            ≡ some (pos (string_sizes p), map c_string p))
    both = sized_decode-encode p front old post m len small room

    size_lem : to_int (string_sizes p) ≡ pos (string_sizes p)
    size_lem = unfold to_int in ground (arith, room, int)
