-- ===== src/Lcmgen/Numbers.antt =====
-- strtol and strtoll of stdlib.h with base 0, as lcmgen calls them. A long has 64 bits.
use conftron.Base.{
  ℕ, ◌+◌, ◌-◌, ◌*◌, ◌%◌, ◌^◌, Bool, true, false, ◌&&◌, ◌||◌, Option, none, some, [], ◌∷◌, min, ltb,
  ◌==◌, if◌then◌else◌, ℤ, pos, negsuc, sub_ℕ, to_int,
}
use conftron.Lcmgen.Text.{Text, between, isspace}

-- The value of a digit, and 36 for another character.
abbrev pub digit : ℕ → ℕ
digit c =
    if between b'0' b'9' c
    then c - 48
    else if between b'a' b'z' c
    then c - 87
    else if between b'A' b'Z' c
    then c - 55
    else 36

abbrev pub is_digit_of : ℕ → Text → Bool
is_digit_of base [] = false
is_digit_of base (c ∷ s) = ltb (digit c) base

abbrev pub read_digits : ℕ → ℕ → Text → ℕ × Text
read_digits base v [] = (v, [])
read_digits base v (c ∷ s) =
    let more = read_digits base (v * base + digit c) s in
    if ltb (digit c) base then more else (v, c ∷ s)

abbrev pub read_number : ℕ → Text → Option (ℕ × Text)
read_number base s = if is_digit_of base s then some (read_digits base 0 s) else none

-- 0x and a digit, 0, or another digit.
abbrev pub hexadecimal : ℕ → ℕ → Text → Bool
hexadecimal c x s = (c == b'0') && (((x == b'x') || (x == b'X')) && is_digit_of 16 s)

abbrev pub read_unsigned : Text → Option (ℕ × Text)
read_unsigned [] = none
read_unsigned (c ∷ []) = read_number (if c == b'0' then 8 else 10) (c ∷ [])
read_unsigned (c ∷ x ∷ s) =
    if hexadecimal c x s
    then read_number 16 s
    else read_number (if c == b'0' then 8 else 10) (c ∷ x ∷ s)

abbrev pub signed : Bool → Option (ℕ × Text) → Option (ℤ × Text)
signed negative none = none
signed false (some (v, rest)) = some (pos (min v (2 ^ 63 - 1)), rest)
signed true (some (v, rest)) = some (sub_ℕ 0 (min v (2 ^ 63)), rest)

abbrev pub after_space : Text → Option (ℤ × Text)
after_space [] = none
after_space (c ∷ s) =
    if c == b'-'
    then signed true (read_unsigned s)
    else if c == b'+'
    then signed false (read_unsigned s)
    else signed false (read_unsigned (c ∷ s))

abbrev pub skip_space : Text → Text
skip_space [] = []
skip_space (c ∷ s) = let rest = skip_space s in if isspace c then rest else c ∷ s

-- The value, and the text at *endptr; `none` if that is the whole text, and the value 0.
unfoldable pub strtoll : Text → Option (ℤ × Text)
strtoll s = after_space (skip_space s)

abbrev pub or_zero : Option (ℤ × Text) → ℤ
or_zero none = pos 0
or_zero (some (v, rest)) = v

-- A long converted to a signed number of 32 bits.
abbrev pub narrow : ℤ → ℤ
narrow (pos n) = to_int n
narrow (negsuc n) = to_int (2 ^ 32 - 1 - n % 2 ^ 32)

-- (int) strtol(s, NULL, 0)
unfoldable pub strtol : Text → ℤ
unfolding strtoll to_int
strtol s = narrow (or_zero (strtoll s))
