-- ===== src/Lcmgen/Chars.antt =====
-- upstream/lcmgen/tokenize.c: the line buffer and the character put back are a plain stream of
-- characters.
use conftron.Base.{
  head_eq, tail_eq, ℕ, suc, ◌+◌, ◌-◌, ◌^◌, ◌<◌, ◌≡◌, refl, sym, ap, ap₂, ◌∙◌, subst, ◌≢◌, inl, inr,
  Bool, true, false, List, [], ◌∷◌, ◌++◌, length, drop, get_or, if◌then◌else◌, ◌==◌, ltb, All,
  arith, ==_iff,
}
use conftron.Lcmgen.Tokenize.{
  Tokenizer, eof, widen, fgets, take_char, with_line, next_line, take_unget, tokenize_next_char,
  max_line_len,
}
use conftron.Lcmgen.Ahead.{
  IsAscii, IsReady, ahead, Reads, fgets-append, fgets_first, All-parts, drop-get_or, get_or-IsAscii,
  widen-IsAscii, put_back-eof,
}

-- Reading from the line, with no character put back.
take_char-Reads :
    (t : Tokenizer) (c : ℕ) (rest : List ℕ)
    → IsReady t
    → t.unget_char ≡ eof
    → t.buffer_column < t.buffer_len
    → drop t.buffer_column t.buffer ++ t.file ≡ c ∷ rest
    → Reads t.token t.hasnext c rest (take_char t)
take_char-Reads t c rest h u l e = record {
  char = same;
  ready = record {
    in_line = omega arith;
    line_length = h.line_length;
    line_ascii = h.line_ascii;
    file_ascii = h.file_ascii;
    unget_ascii = h.unget_ascii;
  };
  still = rw (put_back-eof t.unget_char u) (tail_eq split);
  current = same;
  no_unget = u;
  token_kept = refl;
  hasnext_kept = refl;
}
  where
    here : t.buffer_column < length t.buffer
    here = omega (arith, h.line_length)

    split :
        get_or t.buffer t.buffer_column 0 ∷ (drop (t.buffer_column + 1) t.buffer ++ t.file)
        ≡ c ∷ rest
    split =
        ap (λ xs. xs ++ t.file)
          (sym (drop-get_or t.buffer t.buffer_column (t.buffer_column + 1) here (omega arith)))
        ∙ e

    same : widen (get_or t.buffer t.buffer_column 0) ≡ c
    same =
        widen-IsAscii _ (get_or-IsAscii t.buffer t.buffer_column h.line_ascii here) ∙ head_eq split

take_unget-Reads :
    (t : Tokenizer) (c : ℕ) (rest : List ℕ)
    → IsReady t
    → ltb t.unget_char (2 ^ 31) ≡ true
    → ahead t ≡ c ∷ rest
    → Reads t.token t.hasnext c rest (take_unget t)
take_unget-Reads t c rest h u e = record {
  char = head_eq split;
  ready = record {
    in_line = h.in_line;
    line_length = h.line_length;
    line_ascii = h.line_ascii;
    file_ascii = h.file_ascii;
    unget_ascii = inl refl;
  };
  still = tail_eq split;
  current = head_eq split;
  no_unget = refl;
  token_kept = refl;
  hasnext_kept = refl;
}
  where
    split : t.unget_char ∷ (drop t.buffer_column t.buffer ++ t.file) ≡ c ∷ rest
    split = rw u at e

no_put_back : (t : Tokenizer) → IsReady t → ltb t.unget_char (2 ^ 31) ≡ false → t.unget_char ≡ eof
no_put_back t h u = elim h.unget_ascii [ inl e ↦ e | inr a ↦ absurd (ground (arith, a, u)) ]

drop_all : (n : ℕ) (xs : List ℕ) → n ≡ length xs → drop n xs ≡ []
drop_all n [] e = rw e refl
drop_all n (x ∷ xs) e = rw e (drop_all (length xs) xs refl)

line_of-Reads :
    (t : Tokenizer) (r : List ℕ × List ℕ) (c : ℕ) (rest : List ℕ)
    → All IsAscii r.0 × All IsAscii r.1
    → t.unget_char ≡ eof
    → 0 < length r.0
    → r.0 ++ r.1 ≡ c ∷ rest
    → Reads t.token t.hasnext c rest (take_char (with_line t r))
line_of-Reads t (line, left) c rest a u l e =
    take_char-Reads (with_line t (line, left)) c rest
      (record {
        in_line = omega arith;
        line_length = refl;
        line_ascii = a.0;
        file_ascii = a.1;
        unget_ascii = inl u;
      })
      u l e

next_line-Reads :
    (t : Tokenizer) (file : List ℕ) (c : ℕ) (rest : List ℕ)
    → All IsAscii file
    → t.unget_char ≡ eof
    → file ≡ c ∷ rest
    → Reads t.token t.hasnext c rest (next_line t file)
next_line-Reads t [] c rest a u e = absurd (cc e)
next_line-Reads t (d ∷ file) c rest a u e =
    let whole = fgets-append (max_line_len - 1) (d ∷ file) in
    line_of-Reads t (fgets (max_line_len - 1) (d ∷ file)) c rest
      (All-parts _ _ (subst (All IsAscii) (sym whole) a)) u (fgets_first 1022 d file) (whole ∙ e)

Reads-if :
    {token : List ℕ} {hasnext : Bool} {c : ℕ} {rest : List ℕ} (b : Bool) (x y : ℕ × Tokenizer)
    → (b ≡ true → Reads token hasnext c rest x)
    → (b ≡ false → Reads token hasnext c rest y)
    → Reads token hasnext c rest (if b then x else y)
Reads-if true x y h k = h refl
Reads-if false x y h k = k refl

-- The stream when nothing is put back.
pub ahead_line :
    (t : Tokenizer) (xs : List ℕ)
    → t.unget_char ≡ eof
    → ahead t ≡ xs
    → drop t.buffer_column t.buffer ++ t.file ≡ xs
ahead_line t xs u e = rw (put_back-eof t.unget_char u) at e

at_end :
    (t : Tokenizer)
    → IsReady t
    → (t.buffer_column == t.buffer_len) ≡ true
    → drop t.buffer_column t.buffer ≡ []
at_end t h e =
    drop_all t.buffer_column t.buffer ((==_iff t.buffer_column t.buffer_len).0 e ∙ h.line_length)

-- tokenize_next_char gives the first of the characters ahead.
pub tokenize_next_char_lem :
    (t : Tokenizer) (c : ℕ) (rest : List ℕ)
    → IsReady t
    → ahead t ≡ c ∷ rest
    → Reads t.token t.hasnext c rest (tokenize_next_char t)
unfolding tokenize_next_char
tokenize_next_char_lem t c rest h e =
    Reads-if (ltb t.unget_char (2 ^ 31)) _ _ (λ u. take_unget-Reads t c rest h u e)
      λ u.
        let none = no_put_back t h u in
        let line = ahead_line t (c ∷ rest) none e in
        Reads-if (t.buffer_column == t.buffer_len) _ _
          (λ full. next_line-Reads t t.file c rest h.file_ascii none (rw (at_end t h full) at line))
          (λ open_line. take_char-Reads t c rest h none (ground (arith, open_line, h.in_line)) line)

either-eq {ℓ} :
    {A : Type ℓ} (b : Bool) (x y z : A)
    → (b ≡ true → x ≡ z)
    → (b ≡ false → y ≡ z)
    → (if b then x else y) ≡ z
either-eq true x y z h k = h refl
either-eq false x y z h k = k refl

next_line-eof : (t : Tokenizer) (file : List ℕ) → file ≡ [] → next_line t file ≡ (eof, t)
next_line-eof t [] e = refl
next_line-eof t (c ∷ file) e = absurd (cc e)

append-eq-nil : (xs ys : List ℕ) → xs ++ ys ≡ [] → ys ≡ []
append-eq-nil [] ys e = e
append-eq-nil (x ∷ xs) ys e = absurd (cc e)

not_at_end : (xs ys : List ℕ) (k n : ℕ) → n ≡ length xs → k < n → drop k xs ++ ys ≢ []
not_at_end xs ys k n e l h =
    let split = drop-get_or xs k (suc k) (omega arith) refl in cc (rw split at h)

-- At the end of the characters it gives EOF, and the state does not change.
pub tokenize_next_char-eof :
    (t : Tokenizer) → IsReady t → ahead t ≡ [] → tokenize_next_char t ≡ (eof, t)
unfolding tokenize_next_char
tokenize_next_char-eof t h e =
    either-eq (ltb t.unget_char (2 ^ 31)) _ _ _ (λ u. absurd (cc (rw u at e)))
      λ u.
        let line = ahead_line t [] (no_put_back t h u) e in
        either-eq (t.buffer_column == t.buffer_len) _ _ _
          (λ full. next_line-eof t t.file (append-eq-nil _ t.file line))
          (λ open_line. absurd (
            not_at_end t.buffer t.file t.buffer_column t.buffer_len h.line_length
              (ground (arith, open_line, h.in_line)) line))

-- A stream of characters, which gives EOF at its end.
abbrev pub pop : List ℕ → ℕ × List ℕ
pop [] = (eof, [])
pop (c ∷ rest) = (c, rest)

pops :
    (t : Tokenizer) (xs : List ℕ)
    → IsReady t
    → ahead t ≡ xs
    → IsReady (tokenize_next_char t).1
      × (Path (ℕ × List ℕ) ((tokenize_next_char t).0, ahead (tokenize_next_char t).1) (pop xs))
pops t [] h e =
    let same = tokenize_next_char-eof t h e in (rw same h, rw same (ap (λ s. (eof, s)) e))
pops t (c ∷ rest) h e =
    let r = tokenize_next_char_lem t c rest h e in (r.ready, ap₂ (λ d s. (d, s)) r.char r.still)

-- In a state whose line buffer and file hold characters of seven bits, reading a character is popping
-- the stream of the characters ahead, and gives such a state again.
pub tokenize_next_char-pop :
    (t : Tokenizer)
    → IsReady t
    → IsReady (tokenize_next_char t).1
      × (Path
          (ℕ × List ℕ)
          ((tokenize_next_char t).0, ahead (tokenize_next_char t).1)
          (pop (ahead t)))
tokenize_next_char-pop t h = pops t (ahead t) h refl
