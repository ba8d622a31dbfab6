-- ===== src/Lcmgen/Parser.antt =====
-- upstream/lcmgen/lcmgen.c: the recursive descent. Its input is the list of the tokens that
-- tokenize_next is going to give; a loop spends one unit of fuel for each round.
use conftron.Base.{
  ℕ, zero, suc, Bool, true, false, ◌&&◌, Option, none, some, List, [], ◌∷◌, ◌++◌, if◌then◌else◌,
  ◌==◌, pos, ltb_ℤ, length,
}
use conftron.Lcmgen.Types.{
  Typename, DimensionMode, Dimension, lcm_const, lcm_var, Member, Constant, Struct,
  lcm_is_array_dimension_type, lcm_is_legal_member_name, lcm_typename_create, lcm_find_member,
  lcm_find_const,
}
use conftron.Lcmgen.Text.{Text, codes, streq, isdigit}
use conftron.Lcmgen.Numbers.{strtol}
use conftron.Lcmgen.Result.{
  Result, ok, parse_error, semantic_error, out_of_fuel, ◌>>=◌, ◌>>◌, require,
}

-- strtod with the comparison with FLT_MAX and the conversion to float, on the bits of doubles.
pub record Floats : Type 0 where
  pub strtod : Text → Option (ℕ × Text)
  pub in_float_range : ℕ → Bool
  pub to_float : ℕ → ℕ

abbrev pub Tokens : Type 0
Tokens = List Text

abbrev pub parse_try_consume : Text → Tokens → Result (Bool × Tokens)
parse_try_consume tok [] = parse_error
parse_try_consume tok (t ∷ ts) = ok (streq t tok, if streq t tok then ts else t ∷ ts)

abbrev pub parse_require : Text → Tokens → Result Tokens
parse_require tok [] = parse_error
parse_require tok (t ∷ ts) = if streq t tok then ok ts else parse_error

abbrev pub tokenize_next_or_fail : Tokens → Result (Text × Tokens)
tokenize_next_or_fail [] = parse_error
tokenize_next_or_fail (t ∷ ts) = ok (t, ts)

abbrev pub is_none {ℓ} : {A : Type ℓ} → Option A → Bool
is_none none = true
is_none (some a) = false

-- The name is not yet taken.
abbrev pub is_fresh : List Member → List Constant → Text → Bool
is_fresh members constants name =
    is_none (lcm_find_member members name) && is_none (lcm_find_const constants name)

-- The test of isdigit on the first character of a token.
abbrev pub starts_number : Text → Bool
starts_number [] = false
starts_number (c ∷ t) = isdigit c

abbrev pub starts_with : ℕ → Text → Bool
starts_with b [] = false
starts_with b (c ∷ t) = c == b

-- Dimensions

abbrev pub size_of : DimensionMode → Text → Dimension
size_of mode size = record { mode = mode; size = size }

abbrev pub const_dimension : Text → Result Dimension
const_dimension tok =
    if ltb_ℤ (pos 0) (strtol tok) then ok (size_of lcm_const tok) else semantic_error

abbrev pub is_scalar : Member → Bool
is_scalar lm = length lm.dimensions == 0

-- Whether the member can be the size of an array.
unfoldable pub is_index : Member → Bool
unfolding lcm_is_array_dimension_type
is_index lm = is_scalar lm && lcm_is_array_dimension_type lm.type.lctypename

-- The search for the member that a dimension names.
unfoldable pub var_dimension : List Member → Text → Result Dimension
unfolding is_index
var_dimension [] tok = semantic_error
var_dimension (lm ∷ members) tok =
    if streq lm.membername tok
    then if is_index lm then ok (size_of lcm_var tok) else semantic_error
    else var_dimension members tok

-- The dimension that a token stands for.
unfoldable pub array_dimension : List Member → Text → Result Dimension
unfolding var_dimension lcm_is_legal_member_name strtol
array_dimension members tok =
    if starts_number tok
    then const_dimension tok
    else if starts_with b']' tok
    then semantic_error
    else if lcm_is_legal_member_name tok
    then var_dimension members tok
    else semantic_error

abbrev pub add_dimension : Member → Dimension → Member
add_dimension lm dim = record lm { dimensions = lm.dimensions ++ (dim ∷ []) }

abbrev pub with_dimension :
    (Member → Tokens → Result (Member × Tokens))
    → List Member
    → Member
    → Bool × Tokens
    → Result (Member × Tokens)
with_dimension next before lm (false, ts) = ok (lm, ts)
with_dimension next before lm (true, ts) = do
  (tok, ts1) ← tokenize_next_or_fail ts
  dim ← array_dimension (before ++ (lm ∷ [])) tok
  ts2 ← parse_require (codes "]") ts1
  next (add_dimension lm dim) ts2

-- The loop over the dimensions of the member `lm`, which stands behind `before` in the struct.
unfoldable pub parse_dimensions : ℕ → List Member → Member → Tokens → Result (Member × Tokens)
unfolding array_dimension
parse_dimensions zero before lm ts = out_of_fuel
parse_dimensions (suc n) before lm ts =
    parse_try_consume (codes "[") ts >>= with_dimension (parse_dimensions n before) before lm

-- Members

abbrev pub add_member : Struct → Member → Struct
add_member lr lm = record lr { members = lr.members ++ (lm ∷ []) }

-- After a member: another one behind a comma, or the semicolon.
abbrev pub end_or_next :
    (Struct → Tokens → Result (Struct × Tokens)) → Struct → Bool × Tokens → Result (Struct × Tokens)
end_or_next next lr (true, ts) = next lr ts
end_or_next next lr (false, ts) = do ts1 ← parse_require (codes ";") ts; ok (lr, ts1)

-- The loop over the members of one declaration.
unfoldable pub parse_names : ℕ → Typename → Struct → Tokens → Result (Struct × Tokens)
unfolding parse_dimensions lcm_is_legal_member_name lcm_find_member lcm_find_const
parse_names zero lt lr ts = out_of_fuel
parse_names (suc n) lt lr ts = do
  (name, ts1) ← tokenize_next_or_fail ts
  require (lcm_is_legal_member_name name) parse_error
  require (is_fresh lr.members lr.constants name) semantic_error
  (lm, ts2) ←
      parse_dimensions n lr.members (record { type = lt; membername = name; dimensions = [] }) ts1
  (more, ts3) ← parse_try_consume (codes ",") ts2
  end_or_next (parse_names n lt) (add_member lr lm) (more, ts3)

unfoldable pub parse_declaration : ℕ → Text → Struct → Tokens → Result (Struct × Tokens)
unfolding parse_names lcm_is_legal_member_name lcm_typename_create
parse_declaration n current lr ts = do
  (name, ts1) ← tokenize_next_or_fail ts
  require (lcm_is_legal_member_name name) parse_error
  parse_names n (lcm_typename_create current name) lr ts1
