-- ===== src/Lcmgen/Tokenize.antt =====
-- upstream/lcmgen/tokenize.c. An int is its 32-bit pattern, so that EOF and a negative char are large
-- numbers. A file is the list of its bytes, of which none is NUL; the line buffer is what fgets put
-- into it before the NUL. A loop spends one unit of fuel for each round.
use conftron.Base.{
  ℕ, zero, suc, ◌+◌, ◌-◌, ◌%◌, ◌^◌, Bool, true, false, ◌||◌, List, [], ◌∷◌, ◌++◌, length, drop,
  replicate, get_or, if◌then◌else◌, ◌==◌, ltb, leb, ℤ, pos, negsuc, minus_one,
}
use conftron.Lcmgen.Text.{Text, codes, isspace}

abbrev pub eof : ℕ
eof = 2 ^ 32 - 1

abbrev pub max_token_len : ℕ
max_token_len = 1024

abbrev pub max_line_len : ℕ
max_line_len = 1024

-- A char as an int.
abbrev pub widen : ℕ → ℕ
widen c = if ltb (c % 256) 128 then c % 256 else c % 256 + (2 ^ 32 - 256)

-- struct tokenize, without the path; `file` is what is still to be read.
pub record Tokenizer : Type 0 where
  pub token : List ℕ
  pub token_line : ℤ
  pub token_column : ℤ
  pub current_char : ℕ
  pub current_line : ℕ
  pub current_column : ℕ
  pub unget_char : ℕ
  pub unget_line : ℕ
  pub unget_column : ℕ
  pub buffer : List ℕ
  pub buffer_line : ℕ
  pub buffer_column : ℕ
  pub buffer_len : ℕ
  pub file : List ℕ
  pub hasnext : Bool

-- tokenize_create, of a file that opens
unfoldable pub tokenize_create : List ℕ → Tokenizer
tokenize_create file = record {
  token = replicate max_token_len 0;
  token_line = minus_one;
  token_column = minus_one;
  current_char = 0;
  current_line = 0;
  current_column = 0;
  unget_char = eof;
  unget_line = 0;
  unget_column = 0;
  buffer = [];
  buffer_line = 0;
  buffer_column = 0;
  buffer_len = 0;
  file = file;
  hasnext = false;
}

-- fgets of at most `n` characters: the line, and the rest of the file.
abbrev pub line_step : ℕ → List ℕ → List ℕ × List ℕ → List ℕ × List ℕ
line_step c file (line, rest) = if c == b'\n' then (c ∷ [], file) else (c ∷ line, rest)

abbrev pub fgets : ℕ → List ℕ → List ℕ × List ℕ
fgets zero file = ([], file)
fgets (suc n) [] = ([], [])
fgets (suc n) (c ∷ file) = line_step c file (fgets n file)

abbrev pub take_char : Tokenizer → ℕ × Tokenizer
take_char t =
    let c = widen (get_or t.buffer t.buffer_column 0) in
    (
      c,
      record t {
        current_char = c;
        current_line = t.buffer_line;
        current_column = t.buffer_column;
        buffer_column = t.buffer_column + 1;
      },
    )

abbrev pub with_line : Tokenizer → List ℕ × List ℕ → Tokenizer
with_line t (line, rest) = record t {
  buffer = line;
  buffer_len = length line;
  buffer_line = t.buffer_line + 1;
  buffer_column = 0;
  file = rest;
}

abbrev pub next_line : Tokenizer → List ℕ → ℕ × Tokenizer
next_line t [] = (eof, t)
next_line t (c ∷ file) = take_char (with_line t (fgets (max_line_len - 1) (c ∷ file)))

abbrev pub take_unget : Tokenizer → ℕ × Tokenizer
take_unget t = (
  t.unget_char,
  record t {
    current_char = t.unget_char;
    current_line = t.unget_line;
    current_column = t.unget_column;
    unget_char = eof;
  },
)

-- tokenize_next_char
unfoldable pub tokenize_next_char : Tokenizer → ℕ × Tokenizer
tokenize_next_char t =
    if ltb t.unget_char (2 ^ 31)
    then take_unget t
    else if t.buffer_column == t.buffer_len
    then next_line t t.file
    else take_char t

-- tokenize_ungetc
abbrev pub tokenize_ungetc : Tokenizer → Tokenizer
tokenize_ungetc t = record t {
  unget_char = t.current_char;
  unget_column = t.current_column;
  unget_line = t.current_line;
}

-- strchr(s, c) != NULL, which also holds for the NUL
abbrev pub is_among : ℕ → Text → Bool
is_among c [] = c == 0
is_among c (x ∷ s) = if c == x then true else is_among c s

abbrev pub is_single : ℕ → Bool
is_single c = is_among (c % 256) (codes "();\",:'[]")

abbrev pub is_op : ℕ → Bool
is_op c = is_among (c % 256) (codes "!~<>=&|^%*+=/")

abbrev pub unescape : ℕ → ℕ
unescape c =
    if c % 256 == b'n'
    then 10
    else if c % 256 == b'r'
    then 13
    else if c % 256 == b't'
    then 9
    else widen c

-- What a call gives: its result and the state; a write behind the end of the token; or no fuel.
pub data Lexed : Type 0 where
  lexed : ℤ → Tokenizer → Lexed
  overrun : Lexed
  no_fuel : Lexed

-- The characters written, over what the token held.
abbrev pub store : Tokenizer → List ℕ → Tokenizer
store t written = record t { token = written ++ drop (length written) t.token }

-- end_tok
abbrev pub end_tok : Tokenizer → List ℕ → Lexed
end_tok t written =
    if ltb (length written) max_token_len
    then lexed (pos (length written)) (store t (written ++ (0 ∷ [])))
    else overrun

abbrev pub too_long : Tokenizer → List ℕ → Lexed
too_long t written = lexed (negsuc 1) (store t written)

abbrev pub put : List ℕ → ℕ → List ℕ
put written c = written ++ (c % 256 ∷ [])

abbrev pub close_char : List ℕ → ℕ × Tokenizer → Lexed
close_char written (c, t) =
    if c == b'\'' then end_tok t (put written c) else lexed (negsuc 4) (store t written)

abbrev pub second_char : ℕ × Tokenizer → Lexed
second_char (c, t) =
    if c == eof
    then lexed (negsuc 3) (store t (b'\'' ∷ []))
    else close_char (put (b'\'' ∷ []) c) (tokenize_next_char t)

abbrev pub unescaped : ℕ × Tokenizer → ℕ × Tokenizer
unescaped (c, t) = (unescape c, t)

abbrev pub first_char : ℕ × Tokenizer → Lexed
first_char (c, t) = second_char (if c == b'\\' then unescaped (tokenize_next_char t) else (c, t))

abbrev pub char_literal : Tokenizer → Lexed
char_literal t = first_char (tokenize_next_char t)

-- What a character of a string literal does; `go` is the next round.
abbrev pub string_char : (Bool → List ℕ → Tokenizer → Lexed) → Bool → List ℕ → ℕ × Tokenizer → Lexed
string_char go escape written (c, t) =
    if c == eof
    then end_tok t written
    else if escape
    then go false written t
    else if c == b'"'
    then end_tok t (put written c)
    else if c == b'\\'
    then go true written t
    else go false (put written c) t

abbrev pub string_literal : ℕ → Bool → List ℕ → Tokenizer → Lexed
string_literal zero escape written t = no_fuel
string_literal (suc n) escape written t =
    if leb max_token_len (length written)
    then too_long t written
    else string_char (string_literal n) escape written (tokenize_next_char t)

abbrev pub with_char : (ℕ → Tokenizer → Lexed) → ℕ × Tokenizer → Lexed
with_char go (c, t) = go c t

abbrev pub operator : ℕ → List ℕ → ℕ → Tokenizer → Lexed
operator zero written c t = no_fuel
operator (suc n) written c t =
    if is_op c
    then if leb max_token_len (length written)
      then too_long t written
      else with_char (operator n (put written c)) (tokenize_next_char t)
    else end_tok (tokenize_ungetc t) written

-- The character behind one of a blob.
abbrev pub behind_char : (ℕ → Tokenizer → Lexed) → List ℕ → ℕ × Tokenizer → Lexed
behind_char go written (c, t) =
    if is_single c || is_op c
    then end_tok (tokenize_ungetc t) written
    else if isspace c || (c == eof)
    then end_tok t written
    else go c t

-- in_tok
abbrev pub in_tok : ℕ → List ℕ → ℕ → Tokenizer → Lexed
in_tok zero written c t = no_fuel
in_tok (suc n) written c t =
    if leb max_token_len (length written)
    then too_long t written
    else if is_single c
    then end_tok t (put written c)
    else behind_char (in_tok n (put written c)) (put written c) (tokenize_next_char t)

abbrev pub mark : Tokenizer → Tokenizer
mark t = record t { token_line = pos t.current_line; token_column = pos t.current_column }

abbrev pub start_token : ℕ → ℕ → Tokenizer → Lexed
start_token n c t =
    if c == b'\''
    then char_literal t
    else if c == b'"'
    then string_literal n false (c ∷ []) t
    else if is_op c
    then operator n [] c t
    else in_tok n [] c t

abbrev pub after_white : (Tokenizer → Lexed) → ℕ → ℕ × Tokenizer → Lexed
after_white go n (c, t) =
    if c == eof then lexed minus_one t else if isspace c then go t else start_token n c (mark t)

-- tokenize_next_internal
unfoldable pub tokenize_next_internal : ℕ → Tokenizer → Lexed
unfolding tokenize_next_char
tokenize_next_internal zero t = no_fuel
tokenize_next_internal (suc n) t = after_white (tokenize_next_internal n) n (tokenize_next_char t)
