-- ===== src/Lcmgen/Lexing.antt =====
-- upstream/lcmgen/tokenize.c: the tokens that tokenize_next_internal finds in a text.
use conftron.Base.{
  ℕ, zero, suc, ◌+◌, ◌%◌, ◌^◌, ◌<◌, ◌≡◌, refl, sym, ap, ◌∙◌, subst, ◌⊎◌, ◌≢◌, inl, inr, Bool, true,
  false, List, [], ◌∷◌, ◌++◌, length, ◌==◌, All, arith, length-append, append_assoc, lt→leb_false,
  lt→ltb,
}
use conftron.Lcmgen.Text.{isspace}
use conftron.Lcmgen.Tokenize.{
  Tokenizer, eof, tokenize_next_char, tokenize_ungetc, is_single, is_op, Lexed, put, end_tok,
  behind_char, in_tok, with_char, operator,
}
use conftron.Lcmgen.Ahead.{IsAscii, IsReady, ahead}
use conftron.Lcmgen.Chars.{ahead_line, tokenize_next_char_lem}

-- A separator of tokens.
abbrev pub IsSeparator : ℕ → Type 0
IsSeparator c = (c ≡ b'\n') ⊎ (c ≡ b' ')

-- A character inside of a blob.
abbrev pub IsBlobChar : ℕ → Type 0
IsBlobChar c = IsAscii c × (is_single c ≡ false) × (is_op c ≡ false) × (isspace c ≡ false)

abbrev pub IsOpChar : ℕ → Type 0
IsOpChar c = IsAscii c × (is_op c ≡ true) × (isspace c ≡ false)

-- A token of one character, not a quote.
abbrev pub IsSingleChar : ℕ → Type 0
IsSingleChar c =
    IsAscii c
    × (is_single c ≡ true)
    × (is_op c ≡ false)
    × (isspace c ≡ false)
    × (c ≢ b'\'')
    × (c ≢ b'"')

-- The scan ends with the token `w`, and `rest` is still to come.
pub record Scanned (l : Lexed) (w rest token : List ℕ) (hasnext : Bool) : Type 0 where
  pub state : Tokenizer
  pub result : l ≡ end_tok state w
  pub ready : IsReady state
  pub still : ahead state ≡ rest
  pub token_kept : state.token ≡ token
  pub hasnext_kept : state.hasnext ≡ hasnext

-- A read, as an equation.
abbrev pub next_state : Tokenizer → Tokenizer
next_state t = (tokenize_next_char t).1

pub next_eq :
    (t : Tokenizer) (c : ℕ) (rest : List ℕ)
    → IsReady t
    → ahead t ≡ c ∷ rest
    → tokenize_next_char t ≡ (c, next_state t)
next_eq t c rest h e = ap (λ d. (d, next_state t)) (tokenize_next_char_lem t c rest h e).char

low : (c : ℕ) → IsAscii c → c % 256 ≡ c
low c h = omega (arith, h)

pub not_eof : (c : ℕ) → IsAscii c → (c == eof) ≡ false
not_eof c h = ground arith

put_lem : (written : List ℕ) (c : ℕ) → IsAscii c → put written c ≡ written ++ (c ∷ [])
put_lem written c h = rw (low c h) refl

put-append : (written cs : List ℕ) (c : ℕ) → IsAscii c → put written c ++ cs ≡ written ++ (c ∷ cs)
put-append written cs c h = rw (put_lem written c h, append_assoc) refl

length-put : (written : List ℕ) (c : ℕ) → length (put written c) ≡ suc (length written)
length-put written c = rw (length-append written (c % 256 ∷ [])) (omega arith)

-- Blobs

behind_blob :
    (go : ℕ → Tokenizer → Lexed) (written : List ℕ) (c : ℕ) (t : Tokenizer)
    → IsBlobChar c
    → behind_char go written (c, t) ≡ go c t
behind_blob go written c t (a, single, op, space) = rw (single, op, space, not_eof c a) refl

behind_separator :
    (go : ℕ → Tokenizer → Lexed) (written : List ℕ) (c : ℕ) (t : Tokenizer)
    → IsSeparator c
    → behind_char go written (c, t) ≡ end_tok t written
behind_separator go written c t (inl e) = rw e refl
behind_separator go written c t (inr e) = rw e refl

in_tok_step :
    (n : ℕ) (written : List ℕ) (c d : ℕ) (rest : List ℕ) (t : Tokenizer)
    → IsReady t
    → ahead t ≡ d ∷ rest
    → IsBlobChar c
    → length written < 1024
    → in_tok (suc n) written c t
      ≡ behind_char (in_tok n (put written c)) (put written c) (d, next_state t)
in_tok_step n written c d rest t h e (a, single, op, space) l =
    rw (lt→leb_false 1024 (length written) l, single)
      (ap (behind_char (in_tok n (put written c)) (put written c)) (next_eq t d rest h e))

pub in_tok-Scanned :
    (n : ℕ) (written : List ℕ) (c : ℕ) (cs : List ℕ) (sep : ℕ) (rest : List ℕ) (t : Tokenizer)
    → IsReady t
    → ahead t ≡ cs ++ (sep ∷ rest)
    → IsSeparator sep
    → IsBlobChar c
    → All IsBlobChar cs
    → length written + length cs < 1023
    → length cs < n
    → Scanned (in_tok n written c t) (written ++ (c ∷ cs)) rest t.token t.hasnext
in_tok-Scanned zero written c cs sep rest t h e s b bs l f = absurd (omega arith)
in_tok-Scanned (suc n) written c [] sep rest t h e s b bs l f =
    let r = tokenize_next_char_lem t sep rest h e in
    record {
      state = next_state t;
      result =
          in_tok_step n written c sep rest t h e b (omega arith)
          ∙ (behind_separator (in_tok n (put written c)) (put written c) sep (next_state t) s
              ∙ ap (end_tok (next_state t)) (put_lem written c b.0));
      ready = r.ready;
      still = r.still;
      token_kept = r.token_kept;
      hasnext_kept = r.hasnext_kept;
    }
in_tok-Scanned (suc n) written c (d ∷ ds) sep rest t h e s b (bd, bds) l f =
    let r = tokenize_next_char_lem t d (ds ++ (sep ∷ rest)) h e in
    let more =
      in_tok-Scanned n (put written c) d ds sep rest (next_state t) r.ready r.still s bd bds
        (omega (arith, length-put written c)) (omega arith) in
    record {
      state = more.state;
      result =
          in_tok_step n written c d (ds ++ (sep ∷ rest)) t h e b (omega arith)
          ∙ (behind_blob (in_tok n (put written c)) (put written c) d (next_state t) bd
              ∙ (more.result ∙ ap (end_tok more.state) (put-append written (d ∷ ds) c b.0)));
      ready = more.ready;
      still = more.still;
      token_kept = more.token_kept ∙ r.token_kept;
      hasnext_kept = more.hasnext_kept ∙ r.hasnext_kept;
    }

-- Tokens of one character

pub single-Scanned :
    (n : ℕ) (c : ℕ) (t : Tokenizer)
    → IsReady t
    → IsSingleChar c
    → Scanned (in_tok (suc n) [] c t) (c ∷ []) (ahead t) t.token t.hasnext
single-Scanned n c t h (a, single, op, space, quote, quotes) = record {
  state = t;
  result = rw (single, low c a) refl;
  ready = h;
  still = refl;
  token_kept = refl;
  hasnext_kept = refl;
}

-- Operators

pub separator-IsAscii : (c : ℕ) → IsSeparator c → IsAscii c
separator-IsAscii c (inl e) = rw e (omega arith)
separator-IsAscii c (inr e) = rw e (omega arith)

separator_no_op : (c : ℕ) → IsSeparator c → is_op c ≡ false
separator_no_op c (inl e) = rw e refl
separator_no_op c (inr e) = rw e refl

-- The character that was read last, put back.
ungetc-IsReady :
    (t : Tokenizer) (c : ℕ)
    → IsReady t
    → t.current_char ≡ c
    → IsAscii c
    → IsReady (tokenize_ungetc t)
ungetc-IsReady t c h e a = record {
  in_line = h.in_line;
  line_length = h.line_length;
  line_ascii = h.line_ascii;
  file_ascii = h.file_ascii;
  unget_ascii = inr (subst IsAscii (sym e) a);
}

ahead-ungetc :
    (t : Tokenizer) (c : ℕ) (rest : List ℕ)
    → t.current_char ≡ c
    → t.unget_char ≡ eof
    → IsAscii c
    → ahead t ≡ rest
    → ahead (tokenize_ungetc t) ≡ c ∷ rest
ahead-ungetc t c rest e u a h =
    rw (e, lt→ltb c (2 ^ 31) (omega arith)) (ap (λ s. c ∷ s) (ahead_line t rest u h))

operator_end :
    (n : ℕ) (written : List ℕ) (c : ℕ) (t : Tokenizer)
    → is_op c ≡ false
    → operator (suc n) written c t ≡ end_tok (tokenize_ungetc t) written
operator_end n written c t e = rw e refl

operator_step :
    (n : ℕ) (written : List ℕ) (c d : ℕ) (rest : List ℕ) (t : Tokenizer)
    → IsReady t
    → ahead t ≡ d ∷ rest
    → is_op c ≡ true
    → length written < 1024
    → operator (suc n) written c t ≡ operator n (put written c) d (next_state t)
operator_step n written c d rest t h e op l =
    rw (op, lt→leb_false 1024 (length written) l)
      (ap (with_char (operator n (put written c))) (next_eq t d rest h e))

pub operator-Scanned :
    (n : ℕ) (written : List ℕ) (c : ℕ) (cs : List ℕ) (sep : ℕ) (rest : List ℕ) (t : Tokenizer)
    → IsReady t
    → ahead t ≡ cs ++ (sep ∷ rest)
    → IsSeparator sep
    → IsOpChar c
    → All IsOpChar cs
    → length written + length cs < 1023
    → suc (length cs) < n
    → Scanned (operator n written c t) (written ++ (c ∷ cs)) (sep ∷ rest) t.token t.hasnext
operator-Scanned zero written c cs sep rest t h e s b bs l f = absurd (omega arith)
operator-Scanned (suc zero) written c cs sep rest t h e s b bs l f = absurd (omega arith)
operator-Scanned (suc (suc n)) written c [] sep rest t h e s b bs l f =
    let r = tokenize_next_char_lem t sep rest h e in
    let a = separator-IsAscii sep s in
    record {
      state = tokenize_ungetc (next_state t);
      result =
          operator_step (suc n) written c sep rest t h e b.1 (omega arith)
          ∙ (operator_end n (put written c) sep (next_state t) (separator_no_op sep s)
              ∙ ap (end_tok (tokenize_ungetc (next_state t))) (put_lem written c b.0));
      ready = ungetc-IsReady (next_state t) sep r.ready r.current a;
      still = ahead-ungetc (next_state t) sep rest r.current r.no_unget a r.still;
      token_kept = r.token_kept;
      hasnext_kept = r.hasnext_kept;
    }
operator-Scanned (suc n) written c (d ∷ ds) sep rest t h e s b (bd, bds) l f =
    let r = tokenize_next_char_lem t d (ds ++ (sep ∷ rest)) h e in
    let more =
      operator-Scanned n (put written c) d ds sep rest (next_state t) r.ready r.still s bd bds
        (omega (arith, length-put written c)) (omega arith) in
    record {
      state = more.state;
      result =
          operator_step n written c d (ds ++ (sep ∷ rest)) t h e b.1 (omega arith)
          ∙ (more.result ∙ ap (end_tok more.state) (put-append written (d ∷ ds) c b.0));
      ready = more.ready;
      still = more.still;
      token_kept = more.token_kept ∙ r.token_kept;
      hasnext_kept = more.hasnext_kept ∙ r.hasnext_kept;
    }
