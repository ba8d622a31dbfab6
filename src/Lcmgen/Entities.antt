-- ===== src/Lcmgen/Entities.antt =====
-- upstream/lcmgen/lcmgen.c: parse_struct, parse_enum, parse_entity and the loop of lcmgen_handle_file.
use conftron.Base.{
  ℕ, zero, suc, ◌^◌, ◌-◌, Bool, true, false, ◌||◌, List, [], ◌∷◌, ◌++◌, if◌then◌else◌, ◌==◌, ◌&&◌,
  ℤ, pos, ltb_ℤ, ◌+ℤ◌, pos_part, neg_part, length,
}
use conftron.Lcmgen.Types.{Struct, EnumValue, Enum, Lcmgen, lcm_typename_create}
use conftron.Lcmgen.Text.{Text, codes, streq}
use conftron.Lcmgen.Numbers.{strtol}
use conftron.Lcmgen.Hash.{lcm_struct_hash, lcm_enum_hash}
use conftron.Lcmgen.Result.{
  Result, ok, parse_error, semantic_error, undefined, out_of_fuel, ◌>>=◌, ◌>>◌, require,
}
use conftron.Lcmgen.Parser.{Floats, Tokens, parse_try_consume, parse_require, tokenize_next_or_fail}
use conftron.Lcmgen.Consts.{parse_member}

abbrev pub eq_ℤ : ℤ → ℤ → Bool
eq_ℤ a b = (pos_part a == pos_part b) && (neg_part a == neg_part b)

abbrev pub max_value : ℤ → List EnumValue → ℤ
max_value max [] = max
max_value max (tmp ∷ values) =
    let higher = if ltb_ℤ max tmp.value then tmp.value else max in max_value higher values

-- max + 1 in an int32_t
abbrev pub next_value : ℤ → Result ℤ
next_value max = if ltb_ℤ max (pos (2 ^ 31 - 1)) then ok (max +ℤ pos 1) else undefined

-- The value that is written, or the next one.
abbrev pub enum_number : List EnumValue → Bool × Tokens → Result (ℤ × Tokens)
enum_number values (true, ts) = do (tok, ts1) ← tokenize_next_or_fail ts; ok (strtol tok, ts1)
enum_number values (false, ts) = do v ← next_value (max_value (pos 0) values); ok (v, ts)

-- The value and the name are not yet taken.
unfoldable pub is_new : Text → ℤ → List EnumValue → Bool
is_new name value [] = true
is_new name value (tmp ∷ values) =
    if eq_ℤ tmp.value value || streq tmp.valuename name then false else is_new name value values

abbrev pub add_value : Enum → EnumValue → Enum
add_value le lev = record le { values = le.values ++ (lev ∷ []) }

unfoldable pub parse_enum_value : Enum → Tokens → Result (Enum × Tokens)
unfolding is_new strtol
parse_enum_value le ts = do
  (name, ts1) ← tokenize_next_or_fail ts
  (given, ts2) ← parse_try_consume (codes "=") ts1
  (value, ts3) ← enum_number le.values (given, ts2)
  require (is_new name value le.values) semantic_error
  ok (add_value le (record { valuename = name; value = value }), ts3)

abbrev pub with_enum_value :
    (Enum → Tokens → Result (Enum × Tokens)) → Enum → Bool × Tokens → Result (Enum × Tokens)
with_enum_value next le (true, ts) = ok (le, ts)
with_enum_value next le (false, ts) = do
  (le1, ts1) ← parse_enum_value le ts
  (comma, ts2) ← parse_try_consume (codes ",") ts1
  (semicolon, ts3) ← parse_try_consume (codes ";") ts2
  next le1 ts3

-- The loop of parse_enum.
unfoldable pub parse_enum_values : ℕ → Enum → Tokens → Result (Enum × Tokens)
unfolding parse_enum_value
parse_enum_values zero le ts = out_of_fuel
parse_enum_values (suc n) le ts =
    parse_try_consume (codes "}") ts >>= with_enum_value (parse_enum_values n) le

abbrev pub lcm_enum_create : Text → Text → Text → Enum
lcm_enum_create current lcmfile name = record {
  enumname = lcm_typename_create current name;
  values = [];
  lcmfile = lcmfile;
  hash = 0;
}

abbrev pub with_enum_hash : Enum → Enum
with_enum_hash le = record le { hash = lcm_enum_hash le }

unfoldable pub parse_enum : ℕ → Text → Text → Tokens → Result (Enum × Tokens)
unfolding parse_enum_values lcm_enum_hash lcm_typename_create
parse_enum n current lcmfile ts = do
  (name, ts1) ← tokenize_next_or_fail ts
  ts2 ← parse_require (codes "{") ts1
  (le, ts3) ← parse_enum_values n (lcm_enum_create current lcmfile name) ts2
  ok (with_enum_hash le, ts3)

abbrev pub lcm_struct_create : Text → Text → Text → Struct
lcm_struct_create current lcmfile name = record {
  structname = lcm_typename_create current name;
  members = [];
  constants = [];
  lcmfile = lcmfile;
  hash = 0;
}

abbrev pub with_struct_hash : Struct → Struct
with_struct_hash lr = record lr { hash = lcm_struct_hash lr }

module _ (floats : Floats) where
  abbrev pub with_member :
      ℕ
      → Text
      → (Struct → Tokens → Result (Struct × Tokens))
      → Struct
      → Bool × Tokens
      → Result (Struct × Tokens)
  with_member n current next lr (true, ts) = ok (lr, ts)
  with_member n current next lr (false, ts) = do
    (lr1, ts1) ← parse_member floats n current lr ts
    next lr1 ts1

  -- The loop of parse_struct.
  unfoldable pub parse_struct_members : ℕ → Text → Struct → Tokens → Result (Struct × Tokens)
  unfolding parse_member
  parse_struct_members zero current lr ts = out_of_fuel
  parse_struct_members (suc n) current lr ts =
      parse_try_consume (codes "}") ts >>= with_member n current (parse_struct_members n current) lr

  unfoldable pub parse_struct : ℕ → Text → Text → Tokens → Result (Struct × Tokens)
  unfolding parse_struct_members lcm_struct_hash lcm_typename_create
  parse_struct n current lcmfile ts = do
    (name, ts1) ← tokenize_next_or_fail ts
    ts2 ← parse_require (codes "{") ts1
    (lr, ts3) ← parse_struct_members n current (lcm_struct_create current lcmfile name) ts2
    ok (with_struct_hash lr, ts3)

  abbrev pub parse_package : Lcmgen → Tokens → Result (Lcmgen × Tokens)
  parse_package lcmgen ts = do
    (name, ts1) ← tokenize_next_or_fail ts
    ts2 ← parse_require (codes ";") ts1
    ok (record lcmgen { package_name = name }, ts2)

  abbrev pub add_struct : Lcmgen → Struct × Tokens → Result (Lcmgen × Tokens)
  add_struct lcmgen (lr, ts) = ok (record lcmgen { structs = lcmgen.structs ++ (lr ∷ []) }, ts)

  abbrev pub add_enum : Lcmgen → Enum × Tokens → Result (Lcmgen × Tokens)
  add_enum lcmgen (le, ts) = ok (record lcmgen { enums = lcmgen.enums ++ (le ∷ []) }, ts)

  -- parse_entity, when the first token is `t`
  unfoldable pub parse_entity : ℕ → Lcmgen → Text → Text → Tokens → Result (Lcmgen × Tokens)
  unfolding parse_struct parse_enum
  parse_entity n lcmgen lcmfile t ts =
      if streq t (codes "package")
      then parse_package lcmgen ts
      else if streq t (codes "struct")
      then parse_struct n lcmgen.package_name lcmfile ts >>= add_struct lcmgen
      else if streq t (codes "enum")
      then parse_enum n lcmgen.package_name lcmfile ts >>= add_enum lcmgen
      else parse_error

  -- The loop of lcmgen_handle_file, over the tokens of the file.
  unfoldable pub parse_entities : ℕ → Lcmgen → Text → Tokens → Result Lcmgen
  unfolding parse_entity
  parse_entities zero lcmgen lcmfile ts = out_of_fuel
  parse_entities (suc n) lcmgen lcmfile [] = ok lcmgen
  parse_entities (suc n) lcmgen lcmfile (t ∷ ts) = do
    (lcmgen1, ts1) ← parse_entity n lcmgen lcmfile t ts
    parse_entities n lcmgen1 lcmfile ts1

  unfoldable pub parse_tokens : Lcmgen → Text → Tokens → Result Lcmgen
  unfolding parse_entities
  parse_tokens lcmgen lcmfile ts = parse_entities (suc (length ts)) lcmgen lcmfile ts
