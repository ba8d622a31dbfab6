-- ===== src/Lcmgen/Ahead.antt =====
-- upstream/lcmgen/tokenize.c: the characters that are still to come, in the line buffer and in the
-- file.
use conftron.Base.{
  ℕ, zero, suc, ◌^◌, ◌≤◌, ◌<◌, ◌≡◌, refl, ap, ◌⊎◌, inl, inr, Bool, List, [], ◌∷◌, ◌++◌, length,
  drop, get_or, if◌then◌else◌, ◌==◌, ltb, All, arith, Bool-cases,
}
use conftron.Lcmgen.Tokenize.{Tokenizer, eof, widen, fgets}

-- A character of a text of seven bits.
abbrev pub IsAscii : ℕ → Type 0
IsAscii c = (0 < c) × (c < 128)

pub record IsReady (t : Tokenizer) : Type 0 where
  pub in_line : t.buffer_column ≤ t.buffer_len
  pub line_length : t.buffer_len ≡ length t.buffer
  pub line_ascii : All IsAscii t.buffer
  pub file_ascii : All IsAscii t.file
  pub unget_ascii : (t.unget_char ≡ eof) ⊎ IsAscii t.unget_char

-- What is put back.
abbrev pub put_back : ℕ → List ℕ
put_back c = if ltb c (2 ^ 31) then c ∷ [] else []

-- The characters still to come.
abbrev pub ahead : Tokenizer → List ℕ
ahead t = put_back t.unget_char ++ (drop t.buffer_column t.buffer ++ t.file)

-- The character `c` has been read, with the token and the flag as they were, and `rest` is still to come.
pub record Reads (token : List ℕ) (hasnext : Bool) (c : ℕ) (rest : List ℕ) (r : ℕ × Tokenizer)
    : Type 0 where
  pub char : r.0 ≡ c
  pub ready : IsReady r.1
  pub still : ahead r.1 ≡ rest
  pub current : r.1.current_char ≡ c
  pub no_unget : r.1.unget_char ≡ eof
  pub token_kept : r.1.token ≡ token
  pub hasnext_kept : r.1.hasnext ≡ hasnext

pub fgets-append : (n : ℕ) (file : List ℕ) → (fgets n file).0 ++ (fgets n file).1 ≡ file
fgets-append zero file = refl
fgets-append (suc n) [] = refl
fgets-append (suc n) (c ∷ file) = elim (Bool-cases (c == b'\n')) [
  | inl e ↦ rw e refl
  | inr e ↦ rw e (ap (λ s. c ∷ s) (fgets-append n file))
]

pub fgets_first : (n c : ℕ) (file : List ℕ) → 0 < length (fgets (suc n) (c ∷ file)).0
fgets_first n c file = elim (Bool-cases (c == b'\n')) [
  | inl e ↦ rw e (omega arith)
  | inr e ↦ rw e (omega arith)
]

pub All-parts : (xs ys : List ℕ) → All IsAscii (xs ++ ys) → All IsAscii xs × All IsAscii ys
All-parts [] ys h = (tt, h)
All-parts (x ∷ xs) ys h = let (hx, hy) = All-parts xs ys h.1 in ((h.0, hx), hy)

-- The character at a place of the line.
pub drop-get_or :
    (xs : List ℕ) (k m : ℕ) → k < length xs → m ≡ suc k → drop k xs ≡ get_or xs k 0 ∷ drop m xs
drop-get_or [] k m h e = absurd (omega arith)
drop-get_or (x ∷ xs) zero m h e = rw e refl
drop-get_or (x ∷ xs) (suc k) m h e = rw e (drop-get_or xs k (suc k) (omega arith) refl)

pub get_or-IsAscii :
    (xs : List ℕ) (k : ℕ) → All IsAscii xs → k < length xs → IsAscii (get_or xs k 0)
get_or-IsAscii [] k h l = absurd (omega arith)
get_or-IsAscii (x ∷ xs) zero h l = h.0
get_or-IsAscii (x ∷ xs) (suc k) h l = get_or-IsAscii xs k h.1 (omega arith)

pub widen-IsAscii : (c : ℕ) → IsAscii c → widen c ≡ c
widen-IsAscii c h = ground arith

pub put_back-eof : (c : ℕ) → c ≡ eof → put_back c ≡ []
put_back-eof c e = rw e refl
