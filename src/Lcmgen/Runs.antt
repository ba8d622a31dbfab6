-- ===== src/Lcmgen/Runs.antt =====
-- Runs of lcmgen's reading at concrete inputs.
use conftron.Base.{
  ℕ, ◌≡◌, refl, map, ◌⊎◌, ◌<◌, length, inl, inr, All, arith, true, false, List, [], ◌∷◌, none,
  negsuc,
}
use conftron.Lcmgen.Text.{Text, codes}
use conftron.Lcmgen.Types.{lcm_is_primitive_type, Lcmgen, Struct, Typename, Constant, Member}
use conftron.Lcmgen.Numbers.{strtol}
use conftron.Lcmgen.Result.{◌>>=◌, Result, ok, out_of_fuel, Sat}
use conftron.Lcmgen.Parser.{Floats}
use conftron.Lcmgen.Entities.{parse_tokens}
use conftron.Lcmgen.Ahead.{IsReady, ahead}
use conftron.Lcmgen.Chars.{pop, tokenize_next_char-pop}
use conftron.Lcmgen.Words.{Shape, blob, op}
use conftron.Lcmgen.Tokenize.{tokenize_create, tokenize_next_char}
use conftron.Lcmgen.Comments.{starts_two, tokens_of, lcmgen_handle_file}
use conftron.Lcmgen.Texts.{IsWord, text_of, words_of, lcmgen_handle_file-text}
use conftron.Lcmgen.Files.{IsAccepted, parse_tokens-IsAccepted}
use conftron.Lcmgen.Hash.{SameLayout, hash_chars, signature, lcm_struct_hash_lem, lcm_struct_hash}

-- Doubles that are never read.
abbrev no_floats : Floats
no_floats = record { strtod = λ s. none; in_float_range = λ v. true; to_float = λ v. v }

abbrev empty : Lcmgen
empty = record { package_name = []; structs = []; enums = [] }

strtol_runs : strtol (codes "-0x1F]") ≡ negsuc 30
unfolding strtol
strtol_runs = refl

abbrev words : List Text
words =
    codes "struct"
    ∷ codes "point"
    ∷ codes "{"
    ∷ codes "int32_t"
    ∷ codes "n"
    ∷ codes "["
    ∷ codes "n"
    ∷ codes "]"
    ∷ codes ";"
    ∷ codes "const"
    ∷ codes "int8_t"
    ∷ codes "A"
    ∷ codes "="
    ∷ codes "-128"
    ∷ codes ","
    ∷ codes "B"
    ∷ codes "="
    ∷ codes "0x7f"
    ∷ codes ";"
    ∷ codes "}"
    ∷ []

abbrev names : Result Lcmgen → Result (List (List Text × List Text))
names r = r >>= λ lcmgen. ok (
    map
      (λ (lr : Struct). (
        map (λ (lm : Member). lm.membername) lr.members,
        map (λ (lc : Constant). lc.val_str) lr.constants,
      ))
      lcmgen.structs)

-- A member may be its own array size.
parse_tokens_runs :
    names (parse_tokens no_floats empty [] words)
    ≡ ok ((codes "n" ∷ [], codes "-128" ∷ codes "0x7f" ∷ []) ∷ [])
unfolding parse_tokens
parse_tokens_runs = refl

tokenize_next_char-pop_example :
    IsReady (tokenize_next_char (tokenize_create (codes "a\n"))).1
    × (Path
        (ℕ × List ℕ)
        (
          (tokenize_next_char (tokenize_create (codes "a\n"))).0,
          ahead (tokenize_next_char (tokenize_create (codes "a\n"))).1,
        )
        (pop (ahead (tokenize_create (codes "a\n")))))
tokenize_next_char-pop_example = tokenize_next_char-pop (tokenize_create (codes "a\n")) ready
  where
    ready : IsReady (tokenize_create (codes "a\n"))
    ready =
        unfold tokenize_create in
        record {
          in_line = omega arith;
          line_length = refl;
          line_ascii = tt;
          file_ascii = omega arith;
          unget_ascii = inl refl;
        }

parse_tokens-IsAccepted_example : Sat (IsAccepted no_floats) (parse_tokens no_floats empty [] words)
parse_tokens-IsAccepted_example = parse_tokens-IsAccepted no_floats empty [] words (tt, tt)

-- enum A { B = 3 }
abbrev enum_text : List (Text × ℕ)
enum_text =
    (codes "enum", 32)
    ∷ (codes "A", 10)
    ∷ (codes "{", 32)
    ∷ (codes "B", 32)
    ∷ (codes "=", 32)
    ∷ (codes "3", 32)
    ∷ (codes "}", 10)
    ∷ []

lcmgen_handle_file-text_example :
    lcmgen_handle_file no_floats empty [] (text_of enum_text)
    ≡ parse_tokens no_floats empty [] (words_of enum_text)
lcmgen_handle_file-text_example = lcmgen_handle_file-text no_floats empty [] enum_text all_words
  where
    word :
        (w : Text) (sep : ℕ)
        → Shape w
        → (sep ≡ 10) ⊎ (sep ≡ 32)
        → length w < 1024
        → starts_two w (codes "/*") ≡ false
        → starts_two w (codes "//") ≡ false
        → IsWord (w, sep)
    word w sep shape separator short no_block no_line = record {
      shape = shape;
      separator = separator;
      short = short;
      no_block = no_block;
      no_line = no_line;
    }

    all_words : All IsWord enum_text
    all_words = (
      word (codes "enum") 32 (blob _ _ (ground arith) (ground arith)) (inr refl) (omega arith) refl
          refl,
      (
        word (codes "A") 10 (blob _ _ (ground arith) tt) (inl refl) (omega arith) refl refl,
        (
          word (codes "{") 32 (blob _ _ (ground arith) tt) (inr refl) (omega arith) refl refl,
          (
            word (codes "B") 32 (blob _ _ (ground arith) tt) (inr refl) (omega arith) refl refl,
            (
              word (codes "=") 32 (op _ _ (ground arith) tt) (inr refl) (omega arith) refl refl,
              (
                word (codes "3") 32 (blob _ _ (ground arith) tt) (inr refl) (omega arith) refl refl,
                (
                  word (codes "}") 10 (blob _ _ (ground arith) tt) (inl refl) (omega arith) refl
                      refl,
                  tt,
                ),
              ),
            ),
          ),
        ),
      ),
    )

-- An operator at the very end of a file is given again and again.
operator_at_end : tokens_of 5 9 (tokenize_create (codes "/* a */")) ≡ out_of_fuel
unfolding tokens_of tokenize_create
operator_at_end = refl

-- The same text with a newline behind it has no tokens.
newline_at_end : tokens_of 5 12 (tokenize_create (codes "/* a */\n")) ≡ ok []
unfolding tokens_of tokenize_create
newline_at_end = refl

-- An empty block comment hides what stands behind it.
empty_comment : tokens_of 9 20 (tokenize_create (codes "/**/ a /* */\nb\n")) ≡ ok (codes "b" ∷ [])
unfolding tokens_of tokenize_create
empty_comment = refl

-- The escaped characters of a string literal are dropped.
string_escape : tokens_of 9 20 (tokenize_create (codes "\"a\\nb\"\n")) ≡ ok (codes "\"ab\"" ∷ [])
unfolding tokens_of tokenize_create
string_escape = refl

abbrev typename : Text → Typename
typename name = record { lctypename = name; package_name = []; shortname = name }

abbrev member : Text → Text → Member
member type name = record { type = typename type; membername = name; dimensions = [] }

abbrev struct : Text → List Member → Struct
struct name members = record {
  structname = typename name;
  members = members;
  constants = [];
  lcmfile = [];
  hash = 0;
}

abbrev circle : Struct
circle =
    struct (codes "circle")
      (member (codes "double") (codes "r") ∷ member (codes "point") (codes "p") ∷ [])

abbrev disc : Struct
disc =
    struct (codes "disc")
      (member (codes "double") (codes "r") ∷ member (codes "place") (codes "p") ∷ [])

same_layout : SameLayout circle.members disc.members
unfolding lcm_is_primitive_type
same_layout = (refl, refl, refl, λ e. refl, (refl, refl, refl, λ e. absurd (cc e), tt))

-- Two structs that differ in their names and in that of a compound type.
lcm_struct_hash_lem_example :
    (lcm_struct_hash circle ≡ hash_chars 0x12345678 (signature circle.members))
    × (lcm_struct_hash circle ≡ lcm_struct_hash disc)
lcm_struct_hash_lem_example = lcm_struct_hash_lem circle disc same_layout
