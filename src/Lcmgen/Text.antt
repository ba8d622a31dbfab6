-- ===== src/Lcmgen/Text.antt =====
-- Texts, and what lcmgen uses of string.h, ctype.h and stdlib.h.
use Prim.Native.Char.{code}
use Prim.Native.String.{String}
use conftron.Base.{ℕ, ◌≡◌, refl, Bool, true, false, ◌&&◌, ◌||◌, List, [], ◌∷◌, ◌==◌, leb, arith}

abbrev pub Text : Type 0
Text = List ℕ

-- A literal of the source.
abbrev pub codes : String → Text
codes String.[] = []
codes (String.◌∷◌ c s) = code c ∷ codes s

-- strcmp(s, t) == 0
abbrev pub streq : Text → Text → Bool
streq [] [] = true
streq [] (b ∷ t) = false
streq (a ∷ s) [] = false
streq (a ∷ s) (b ∷ t) = (a == b) && streq s t

abbrev pub between : ℕ → ℕ → ℕ → Bool
between low high c = leb low c && leb c high

abbrev pub isdigit : ℕ → Bool
isdigit = between b'0' b'9'

abbrev pub isalpha : ℕ → Bool
isalpha c = between b'a' b'z' c || between b'A' b'Z' c

abbrev pub isspace : ℕ → Bool
isspace c = between 9 13 c || (c == 32)

pub streq_eq : (s t : Text) → streq s t ≡ true → s ≡ t
streq_eq [] [] h = refl
streq_eq (a ∷ s) (b ∷ t) h = ground (arith, streq_eq s t)
streq_eq [] (b ∷ t) h = ground arith
streq_eq (a ∷ s) [] h = ground arith

pub streq_refl : (s : Text) → streq s s ≡ true
streq_refl [] = refl
streq_refl (a ∷ s) = ground (arith, streq_refl s)
