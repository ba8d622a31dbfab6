-- ===== src/Lcmgen/Comments.antt =====
-- upstream/lcmgen/tokenize.c: tokenize_next, which leaves out the comments, and tokenize_peek; and the
-- reading of a whole file by lcmgen_handle_file of lcmgen.c. The tokens are read before the parser
-- runs, which differs from the code only where they never end or overrun their buffer.
use conftron.Base.{
  until_nul, ℕ, zero, suc, ◌+◌, ◌-◌, Bool, true, false, ◌&&◌, ◌||◌, Option, none, some, List, [],
  ◌∷◌, length, take, drop, if◌then◌else◌, ◌==◌, leb, ℤ, pos, negsuc, minus_one,
}
use conftron.Lcmgen.Types.{Lcmgen}
use conftron.Lcmgen.Text.{Text, codes, streq}
use conftron.Lcmgen.Tokenize.{
  Tokenizer, tokenize_create, tokenize_next_char, tokenize_next_internal, eof, Lexed, lexed,
  overrun, no_fuel,
}
use conftron.Lcmgen.Result.{Result, ok, undefined, out_of_fuel, ◌>>=◌}
use conftron.Lcmgen.Parser.{Floats, Tokens}
use conftron.Lcmgen.Entities.{parse_tokens}

-- strncmp(s, prefix, 2) == 0
abbrev pub starts_two : Text → Text → Bool
starts_two s prefix = streq (take 2 s) prefix

abbrev pub ends_comment : Text → Bool
ends_comment s = leb 2 (length s) && streq (drop (length s - 2) s) (codes "*/")

abbrev pub is_eof : ℤ → Bool
is_eof (pos n) = false
is_eof (negsuc n) = n == 0

abbrev pub flush_char : (Tokenizer → Option Tokenizer) → ℕ × Tokenizer → Option Tokenizer
flush_char go (c, t) = if (c == eof) || (c == b'\n') then some t else go t

-- tokenize_flush_line
unfoldable pub tokenize_flush_line : ℕ → Tokenizer → Option Tokenizer
unfolding tokenize_next_char
tokenize_flush_line zero t = none
tokenize_flush_line (suc n) t = flush_char (tokenize_flush_line n) (tokenize_next_char t)

abbrev pub flushed : (Tokenizer → Lexed) → Option Tokenizer → Lexed
flushed go none = no_fuel
flushed go (some t) = go t

-- A token inside of a comment, and one outside.
abbrev pub in_comment : (Bool → Tokenizer → Lexed) → ℤ → Tokenizer → Lexed
in_comment go res t =
    if is_eof res
    then lexed (negsuc 9) t
    else if ends_comment (until_nul t.token)
    then go false t
    else go true t

abbrev pub outside :
    (Bool → Tokenizer → Lexed) → (Tokenizer → Option Tokenizer) → ℤ → Tokenizer → Lexed
outside go flush res t =
    if is_eof res
    then lexed minus_one t
    else if starts_two (until_nul t.token) (codes "/*")
    then go true t
    else if starts_two (until_nul t.token) (codes "//")
    then flushed (go false) (flush t)
    else lexed res t

abbrev pub after_token :
    (Bool → Tokenizer → Lexed) → (Tokenizer → Option Tokenizer) → Bool → Lexed → Lexed
after_token go flush comment overrun = overrun
after_token go flush comment no_fuel = no_fuel
after_token go flush true (lexed res t) = in_comment go res t
after_token go flush false (lexed res t) = outside go flush res t

-- The two loops of tokenize_next; the flag says whether a block comment is open.
unfoldable pub skip_comments : ℕ → Bool → Tokenizer → Lexed
unfolding tokenize_next_internal tokenize_flush_line
skip_comments zero comment t = no_fuel
skip_comments (suc n) comment t =
    after_token (skip_comments n) (tokenize_flush_line n) comment (tokenize_next_internal n t)

unfoldable pub tokenize_next : ℕ → Tokenizer → Lexed
unfolding skip_comments
tokenize_next n t =
    if t.hasnext then lexed (pos 0) (record t { hasnext = false }) else skip_comments n false t

abbrev pub peeked : Lexed → Lexed
peeked (lexed res t) = lexed res (record t { hasnext = true })
peeked overrun = overrun
peeked no_fuel = no_fuel

unfoldable pub tokenize_peek : ℕ → Tokenizer → Lexed
unfolding tokenize_next
tokenize_peek n t = if t.hasnext then lexed (pos 0) t else peeked (tokenize_next n t)

-- What the parser sees of a token, and the tokens behind it.
abbrev pub collect : (Tokenizer → Result Tokens) → Lexed → Result Tokens
collect go overrun = undefined
collect go no_fuel = out_of_fuel
collect go (lexed res t) =
    if is_eof res then ok [] else go t >>= (λ ts. ok (until_nul t.token ∷ ts))

-- The tokens up to the end of the file.
unfoldable pub tokens_of : ℕ → ℕ → Tokenizer → Result Tokens
unfolding tokenize_next
tokens_of zero n t = out_of_fuel
tokens_of (suc m) n t = collect (tokens_of m n) (tokenize_next n t)

-- lcmgen_handle_file, of a file that opens, without the option to print the tokens
unfoldable pub lcmgen_handle_file : Floats → Lcmgen → Text → List ℕ → Result Lcmgen
unfolding tokens_of tokenize_create parse_tokens
lcmgen_handle_file floats lcmgen path contents =
    tokens_of (suc (length contents)) (suc (length contents + 2)) (tokenize_create contents)
    >>= parse_tokens floats lcmgen path
