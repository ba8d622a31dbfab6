-- ===== src/Lcmgen/Texts.antt =====
-- upstream/lcmgen: a file of separated words gives the parser just these words.
use conftron.Base.{
  until_nul, ℕ, zero, suc, ◌+◌, ◌≤◌, ◌<◌, ◌≡◌, refl, inl, ap, ◌∙◌, Bool, false, List, [], ◌∷◌, ◌++◌,
  length, All, arith, pos, minus_one, map, length-append, lt→ltb, ne→==_false, Option, drop,
  append-nil,
}
use conftron.Lcmgen.Types.{Lcmgen}
use conftron.Lcmgen.Text.{Text, codes}
use conftron.Lcmgen.Tokenize.{
  Tokenizer, tokenize_create, tokenize_next_internal, Lexed, lexed, store, end_tok,
}
use conftron.Lcmgen.Result.{Result, ok, ◌>>=◌}
use conftron.Lcmgen.Parser.{Floats, Tokens}
use conftron.Lcmgen.Entities.{parse_tokens}
use conftron.Lcmgen.Comments.{
  starts_two, after_token, outside, tokenize_flush_line, skip_comments, tokenize_next, collect,
  tokens_of, lcmgen_handle_file,
}
use conftron.Lcmgen.Ahead.{IsAscii, IsReady, ahead}
use conftron.Lcmgen.Lexing.{IsSeparator, IsBlobChar, IsOpChar, separator-IsAscii}
use conftron.Lcmgen.Words.{Shape, blob, single, op, left_of, words-Scanned, internal-eof}

-- A token that starts no comment, and the separator behind it.
pub record IsWord (w : Text × ℕ) : Type 0 where
  pub shape : Shape w.0
  pub separator : IsSeparator w.1
  pub short : length w.0 < 1024
  pub no_block : starts_two w.0 (codes "/*") ≡ false
  pub no_line : starts_two w.0 (codes "//") ≡ false

-- The text of a list of words.
abbrev pub text_of : List (Text × ℕ) → List ℕ
text_of [] = []
text_of ((w, sep) ∷ ws) = w ++ (sep ∷ text_of ws)

abbrev pub words_of : List (Text × ℕ) → Tokens
words_of = map (λ (w : Text × ℕ). w.0)

blobs-IsAscii : (cs : Text) → All IsBlobChar cs → All IsAscii cs
blobs-IsAscii [] h = tt
blobs-IsAscii (c ∷ cs) h = (h.0.0, blobs-IsAscii cs h.1)

ops-IsAscii : (cs : Text) → All IsOpChar cs → All IsAscii cs
ops-IsAscii [] h = tt
ops-IsAscii (c ∷ cs) h = (h.0.0, ops-IsAscii cs h.1)

Shape-IsAscii : (w : Text) → Shape w → All IsAscii w
Shape-IsAscii w (blob c cs b bs) = (b.0, blobs-IsAscii cs bs)
Shape-IsAscii w (single c h) = (h.0, tt)
Shape-IsAscii w (op c cs o os) = (o.0, ops-IsAscii cs os)

All-append {ℓ κ} :
    {A : Type ℓ} (P : A → Type κ) (xs ys : List A) → All P xs → All P ys → All P (xs ++ ys)
All-append P [] ys hx hy = hy
All-append P (x ∷ xs) ys hx hy = (hx.0, All-append P xs ys hx.1 hy)

text-IsAscii : (ws : List (Text × ℕ)) → All IsWord ws → All IsAscii (text_of ws)
text-IsAscii [] h = tt
text-IsAscii ((w, sep) ∷ ws) (hw, hws) =
    All-append IsAscii w (sep ∷ text_of ws) (Shape-IsAscii w hw.shape)
      (separator-IsAscii sep hw.separator, text-IsAscii ws hws)

-- The NUL behind the text ends it.
until_nul_lem : (w xs : List ℕ) → All IsAscii w → until_nul ((w ++ (0 ∷ [])) ++ xs) ≡ w
until_nul_lem [] xs h = refl
until_nul_lem (c ∷ w) xs h =
    rw (ne→==_false c 0 (λ e. omega (arith, e, h.0.0))) (ap (λ s. c ∷ s) (until_nul_lem w xs h.1))

left_short : (w : Text) (shape : Shape w) (sep : ℕ) → length (left_of shape sep) ≤ 1
left_short w (blob c cs b bs) sep = omega arith
left_short w (single c h) sep = omega arith
left_short w (op c cs o os) sep = omega arith

left_separators :
    (w : Text) (shape : Shape w) (sep : ℕ) → IsSeparator sep → All IsSeparator (left_of shape sep)
left_separators w (blob c cs b bs) sep s = tt
left_separators w (single c h) sep s = (s, tt)
left_separators w (op c cs o os) sep s = (s, tt)

-- The token as end_tok leaves it.
abbrev closed : Tokenizer → List ℕ → Tokenizer
closed u w = store u (w ++ (0 ∷ []))

outside_word :
    (go : Bool → Tokenizer → Lexed) (flush : Tokenizer → Option Tokenizer) (w : Text) (sep : ℕ)
    (u : Tokenizer)
    → IsWord (w, sep)
    → outside go flush (pos (length w)) (closed u w) ≡ lexed (pos (length w)) (closed u w)
outside_word go flush w sep u h =
    rw
      (
        until_nul_lem w (drop (length (w ++ (0 ∷ []))) u.token) (Shape-IsAscii w h.shape),
        h.no_block,
        h.no_line,
      )
      refl

end_tok_lem :
    (u : Tokenizer) (w : List ℕ)
    → length w < 1024
    → end_tok u w ≡ lexed (pos (length w)) (closed u w)
end_tok_lem u w l = rw (lt→ltb (length w) 1024 l) refl

tokenize_next_lem :
    (n : ℕ) (t : Tokenizer) → t.hasnext ≡ false → tokenize_next n t ≡ skip_comments n false t
unfolding tokenize_next
tokenize_next_lem n t e = rw e refl

-- tokenize_next gives a word that stands behind separators.
word_step :
    (n : ℕ) (seps : List ℕ) (w : Text) (sep : ℕ) (u t : Tokenizer)
    → IsWord (w, sep)
    → t.hasnext ≡ false
    → tokenize_next_internal n t ≡ end_tok u w
    → tokenize_next (suc n) t ≡ lexed (pos (length w)) (closed u w)
unfolding skip_comments
word_step n seps w sep u t h e scan =
    tokenize_next_lem (suc n) t e
    ∙ (ap (after_token (skip_comments n) (tokenize_flush_line n) false)
          (scan ∙ end_tok_lem u w h.short)
        ∙ outside_word (skip_comments n) (tokenize_flush_line n) w sep u h)

closed-IsReady : (u : Tokenizer) (w : List ℕ) → IsReady u → IsReady (closed u w)
closed-IsReady u w h = record {
  in_line = h.in_line;
  line_length = h.line_length;
  line_ascii = h.line_ascii;
  file_ascii = h.file_ascii;
  unget_ascii = h.unget_ascii;
}

length_word :
    (w rest : List ℕ) (sep : ℕ) → length (w ++ (sep ∷ rest)) ≡ length w + suc (length rest)
length_word w rest sep = length-append w (sep ∷ rest)

add_word :
    (r : Result Tokens) (tok w : Text) (ws : Tokens)
    → r ≡ ok ws
    → tok ≡ w
    → (r >>= (λ ts. ok (tok ∷ ts))) ≡ ok (w ∷ ws)
add_word r tok w ws e h = rw (e, h) refl

eof_step :
    (n : ℕ) (u t : Tokenizer)
    → t.hasnext ≡ false
    → tokenize_next_internal n t ≡ lexed minus_one u
    → tokenize_next (suc n) t ≡ lexed minus_one u
unfolding skip_comments
eof_step n u t e scan =
    tokenize_next_lem (suc n) t e
    ∙ ap (after_token (skip_comments n) (tokenize_flush_line n) false) scan

tokens_of-text :
    (ws : List (Text × ℕ)) (seps : List ℕ) (m n : ℕ) (t : Tokenizer)
    → IsReady t
    → t.hasnext ≡ false
    → All IsSeparator seps
    → All IsWord ws
    → ahead t ≡ seps ++ text_of ws
    → length seps + length (text_of ws) + 1 < n
    → length ws < m
    → tokens_of m (suc n) t ≡ ok (words_of ws)
unfolding tokens_of
tokens_of-text ws seps zero n t h f s hs e l k = absurd (omega arith)
tokens_of-text [] seps (suc m) n t h f s hs e l k =
    let (u, ended) = internal-eof seps n t h s (rw append-nil at e) (omega arith) in
    ap (collect (tokens_of m (suc n))) (eof_step n u t f ended)
tokens_of-text ((w, sep) ∷ ws) seps (suc m) zero t h f s hs e l k = absurd (omega arith)
tokens_of-text ((w, sep) ∷ ws) seps (suc m) (suc n) t h f s (hw, hws) e l k =
    let scan =
      words-Scanned seps n w hw.shape sep (text_of ws) t h s e hw.separator hw.short
        (omega (arith, length_word w (text_of ws) sep)) in
    ap (collect (tokens_of m (suc (suc n))))
      (word_step (suc n) seps w sep scan.state t hw f scan.result)
    ∙ add_word (tokens_of m (suc (suc n)) (closed scan.state w))
        (until_nul (closed scan.state w).token) w (words_of ws)
        (tokens_of-text ws (left_of hw.shape sep) m (suc n) (closed scan.state w)
          (closed-IsReady scan.state w scan.ready) (scan.hasnext_kept ∙ f)
          (left_separators w hw.shape sep hw.separator) hws scan.still
          (omega (arith, left_short w hw.shape sep, length_word w (text_of ws) sep)) (omega arith))
        (until_nul_lem w (drop (length (w ++ (0 ∷ []))) scan.state.token)
          (Shape-IsAscii w hw.shape))

create-IsReady : (contents : List ℕ) → All IsAscii contents → IsReady (tokenize_create contents)
unfolding tokenize_create
create-IsReady contents h = record {
  in_line = omega arith;
  line_length = refl;
  line_ascii = tt;
  file_ascii = h;
  unget_ascii = inl refl;
}

ahead-create : (contents : List ℕ) → ahead (tokenize_create contents) ≡ contents
unfolding tokenize_create
ahead-create contents = refl

hasnext-create : (contents : List ℕ) → (tokenize_create contents).hasnext ≡ false
unfolding tokenize_create
hasnext-create contents = refl

length-text_of : (ws : List (Text × ℕ)) → length ws ≤ length (text_of ws)
length-text_of [] = omega arith
length-text_of ((w, sep) ∷ ws) = omega (arith, length_word w (text_of ws) sep, length-text_of ws)

-- A file of words, each with a newline or a space behind it, is parsed as the list of its words, if
-- each has fewer than 1024 characters, starts no comment, and is an operator, a punctuation mark, or
-- made of characters that are none of these, no quotes and no white space.
pub lcmgen_handle_file-text :
    (floats : Floats) (lcmgen : Lcmgen) (path : Text) (ws : List (Text × ℕ))
    → All IsWord ws
    → lcmgen_handle_file floats lcmgen path (text_of ws)
      ≡ parse_tokens floats lcmgen path (words_of ws)
unfolding lcmgen_handle_file
lcmgen_handle_file-text floats lcmgen path ws h =
    let contents = text_of ws in
    ap (λ (r : Result Tokens). r >>= parse_tokens floats lcmgen path)
      (tokens_of-text ws [] (suc (length contents)) (length contents + 2) (tokenize_create contents)
        (create-IsReady contents (text-IsAscii ws h)) (hasnext-create contents) tt h
        (ahead-create contents) (omega arith) (omega (arith, length-text_of ws)))
