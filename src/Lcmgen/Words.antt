-- ===== src/Lcmgen/Words.antt =====
-- upstream/lcmgen/tokenize.c: tokenize_next on a text of words and separators.
use conftron.Base.{
  ℕ, zero, suc, ◌+◌, ◌<◌, ◌≡◌, refl, ap, ◌∙◌, ◌≢◌, inl, inr, Bool, true, false, not, List, [], ◌∷◌,
  ◌++◌, length, All, arith, minus_one, ne→==_false,
}
use conftron.Lcmgen.Text.{Text, isspace}
use conftron.Lcmgen.Tokenize.{
  Tokenizer, tokenize_next_internal, is_single, is_op, Lexed, lexed, in_tok, operator, mark,
  start_token, after_white,
}
use conftron.Lcmgen.Ahead.{IsAscii, IsReady, ahead}
use conftron.Lcmgen.Chars.{tokenize_next_char_lem, tokenize_next_char-eof}
use conftron.Lcmgen.Lexing.{
  IsSeparator, IsBlobChar, IsOpChar, IsSingleChar, Scanned, next_state, next_eq, not_eof,
  in_tok-Scanned, single-Scanned, operator-Scanned,
}

-- The three kinds of tokens, without the literals.
pub data Shape : Text → Type 0 where
  blob : (c : ℕ) (cs : Text) → IsBlobChar c → All IsBlobChar cs → Shape (c ∷ cs)
  single : (c : ℕ) → IsSingleChar c → Shape (c ∷ [])
  op : (c : ℕ) (cs : Text) → IsOpChar c → All IsOpChar cs → Shape (c ∷ cs)

-- What is left of the separator behind a word.
abbrev pub left_of : {w : Text} → Shape w → ℕ → List ℕ
left_of (blob c cs b bs) sep = []
left_of (single c h) sep = sep ∷ []
left_of (op c cs o os) sep = sep ∷ []

mark-IsReady : (t : Tokenizer) → IsReady t → IsReady (mark t)
mark-IsReady t h = record {
  in_line = h.in_line;
  line_length = h.line_length;
  line_ascii = h.line_ascii;
  file_ascii = h.file_ascii;
  unget_ascii = h.unget_ascii;
}

-- A token starts, of a blob or alone, or an operator.
start_blob :
    (n c : ℕ) (t : Tokenizer)
    → c ≢ b'\''
    → c ≢ b'"'
    → is_op c ≡ false
    → start_token n c t ≡ in_tok n [] c t
start_blob n c t q1 q2 e = rw (ne→==_false c 39 q1, ne→==_false c 34 q2, e) refl

start_op :
    (n c : ℕ) (t : Tokenizer)
    → c ≢ b'\''
    → c ≢ b'"'
    → is_op c ≡ true
    → start_token n c t ≡ operator n [] c t
start_op n c t q1 q2 e = rw (ne→==_false c 39 q1, ne→==_false c 34 q2, e) refl

apart : (p : ℕ → Bool) (c d : ℕ) (b : Bool) → p c ≡ b → p d ≡ not b → c ≢ d
apart p c d true h k e = cc (h, k, ap p e)
apart p c d false h k e = cc (h, k, ap p e)

after_white_token :
    (go : Tokenizer → Lexed) (n c : ℕ) (t : Tokenizer)
    → IsAscii c
    → isspace c ≡ false
    → after_white go n (c, t) ≡ start_token n c (mark t)
after_white_token go n c t a e = rw (not_eof c a, e) refl

after_white_separator :
    (go : Tokenizer → Lexed) (n c : ℕ) (t : Tokenizer)
    → IsSeparator c
    → after_white go n (c, t) ≡ go t
after_white_separator go n c t (inl e) = rw e refl
after_white_separator go n c t (inr e) = rw e refl

internal_token :
    (n c : ℕ) (rest : List ℕ) (t : Tokenizer)
    → IsReady t
    → ahead t ≡ c ∷ rest
    → isspace c ≡ false
    → IsAscii c
    → tokenize_next_internal (suc n) t ≡ start_token n c (mark (next_state t))
unfolding tokenize_next_internal
internal_token n c rest t h e space a =
    ap (after_white (tokenize_next_internal n) n) (next_eq t c rest h e)
    ∙ after_white_token (tokenize_next_internal n) n c (next_state t) a space

internal_separator :
    (n c : ℕ) (rest : List ℕ) (t : Tokenizer)
    → IsReady t
    → ahead t ≡ c ∷ rest
    → IsSeparator c
    → tokenize_next_internal (suc n) t ≡ tokenize_next_internal n (next_state t)
unfolding tokenize_next_internal
internal_separator n c rest t h e s =
    ap (after_white (tokenize_next_internal n) n) (next_eq t c rest h e)
    ∙ after_white_separator (tokenize_next_internal n) n c (next_state t) s

-- The same scan, by an equation, from a state with the same token.
rescan :
    {l m : Lexed} {w rest rest1 token token1 : List ℕ} {hasnext hasnext1 : Bool}
    → l ≡ m
    → rest ≡ rest1
    → token ≡ token1
    → hasnext ≡ hasnext1
    → Scanned m w rest token hasnext
    → Scanned l w rest1 token1 hasnext1
rescan e r k f s = record {
  state = s.state;
  result = e ∙ s.result;
  ready = s.ready;
  still = s.still ∙ r;
  token_kept = s.token_kept ∙ k;
  hasnext_kept = s.hasnext_kept ∙ f;
}

-- One word, at which the characters ahead start.
word-Scanned :
    (n : ℕ) (w : Text) (shape : Shape w) (sep : ℕ) (rest : List ℕ) (t : Tokenizer)
    → IsReady t
    → ahead t ≡ w ++ (sep ∷ rest)
    → IsSeparator sep
    → length w < 1024
    → length w < n
    → Scanned (tokenize_next_internal (suc n) t) w (left_of shape sep ++ rest) t.token t.hasnext
word-Scanned n w (blob c cs b bs) sep rest t h e s l f =
    let r = tokenize_next_char_lem t c (cs ++ (sep ∷ rest)) h e in
    rescan
      (internal_token n c (cs ++ (sep ∷ rest)) t h e b.3 b.0
        ∙ start_blob n c (mark (next_state t)) (apart is_single c b'\'' false b.1 refl)
            (apart is_single c b'"' false b.1 refl) b.2)
      refl r.token_kept r.hasnext_kept
      (in_tok-Scanned n [] c cs sep rest (mark (next_state t)) (mark-IsReady (next_state t) r.ready)
        r.still s b bs (omega arith) (omega arith))
word-Scanned zero w (single c i) sep rest t h e s l f = absurd (omega arith)
word-Scanned (suc n) w (single c i) sep rest t h e s l f =
    let r = tokenize_next_char_lem t c (sep ∷ rest) h e in
    rescan
      (internal_token (suc n) c (sep ∷ rest) t h e i.3 i.0
        ∙ start_blob (suc n) c (mark (next_state t)) i.4 i.5 i.2)
      r.still r.token_kept r.hasnext_kept
      (single-Scanned n c (mark (next_state t)) (mark-IsReady (next_state t) r.ready) i)
word-Scanned n w (op c cs o os) sep rest t h e s l f =
    let r = tokenize_next_char_lem t c (cs ++ (sep ∷ rest)) h e in
    rescan
      (internal_token n c (cs ++ (sep ∷ rest)) t h e o.2 o.0
        ∙ start_op n c (mark (next_state t)) (apart is_op c b'\'' true o.1 refl)
            (apart is_op c b'"' true o.1 refl) o.1)
      refl r.token_kept r.hasnext_kept
      (operator-Scanned n [] c cs sep rest (mark (next_state t))
        (mark-IsReady (next_state t) r.ready) r.still s o os (omega arith) (omega arith))

-- A word behind separators.
pub words-Scanned :
    (seps : List ℕ) (n : ℕ) (w : Text) (shape : Shape w) (sep : ℕ) (rest : List ℕ) (t : Tokenizer)
    → IsReady t
    → All IsSeparator seps
    → ahead t ≡ seps ++ (w ++ (sep ∷ rest))
    → IsSeparator sep
    → length w < 1024
    → length seps + length w < n
    → Scanned (tokenize_next_internal (suc n) t) w (left_of shape sep ++ rest) t.token t.hasnext
words-Scanned [] n w shape sep rest t h a e s l f =
    word-Scanned n w shape sep rest t h e s l (omega arith)
words-Scanned (d ∷ ds) zero w shape sep rest t h a e s l f = absurd (omega arith)
words-Scanned (d ∷ ds) (suc n) w shape sep rest t h (ad, ads) e s l f =
    let r = tokenize_next_char_lem t d (ds ++ (w ++ (sep ∷ rest))) h e in
    rescan (internal_separator (suc n) d (ds ++ (w ++ (sep ∷ rest))) t h e ad) refl r.token_kept
      r.hasnext_kept
      (words-Scanned ds n w shape sep rest (next_state t) r.ready ads r.still s l (omega arith))

-- Only separators are left.
pub internal-eof :
    (seps : List ℕ) (n : ℕ) (t : Tokenizer)
    → IsReady t
    → All IsSeparator seps
    → ahead t ≡ seps
    → length seps < n
    → (u : Tokenizer) × (tokenize_next_internal n t ≡ lexed minus_one u)
unfolding tokenize_next_internal
internal-eof seps zero t h a e f = absurd (omega arith)
internal-eof [] (suc n) t h a e f =
    (t, ap (after_white (tokenize_next_internal n) n) (tokenize_next_char-eof t h e))
internal-eof (d ∷ ds) (suc n) t h (ad, ads) e f =
    let r = tokenize_next_char_lem t d ds h e in
    let (u, ended) = internal-eof ds n (next_state t) r.ready ads r.still (omega arith) in
    (u, internal_separator n d ds t h e ad ∙ ended)
