-- ===== src/Lcmgen/Consts.antt =====
-- upstream/lcmgen/lcmgen.c: parse_const, and parse_member, which calls it.
use conftron.Base.{
  ℕ, zero, suc, ◌^◌, ◌-◌, Bool, true, false, not, ◌&&◌, Option, none, some, [], ◌∷◌, ◌++◌,
  if◌then◌else◌, ℤ, pos, negsuc, ltb_ℤ,
}
use conftron.Lcmgen.Types.{
  Val, i8, i16, i32, i64, f, d, Constant, Struct, lcm_is_legal_const_type, lcm_is_legal_member_name,
  lcm_find_member, lcm_find_const,
}
use conftron.Lcmgen.Text.{Text, codes, streq}
use conftron.Lcmgen.Numbers.{strtoll}
use conftron.Lcmgen.Result.{
  Result, ok, parse_error, semantic_error, aborted, out_of_fuel, ◌>>=◌, ◌>>◌, require,
}
use conftron.Lcmgen.Parser.{
  Floats, Tokens, parse_try_consume, parse_require, tokenize_next_or_fail, is_fresh, end_or_next,
  parse_declaration,
}

-- The conversion has read the token to its end.
abbrev pub whole {ℓ} : {A : Type ℓ} → Option (A × Text) → Result A
whole none = parse_error
whole (some (v, [])) = ok v
whole (some (v, c ∷ s)) = parse_error

abbrev pub in_range : ℤ → ℤ → ℤ → Bool
in_range low high v = not (ltb_ℤ v low) && not (ltb_ℤ high v)

abbrev pub integer_value : (ℤ → Val) → ℤ → ℤ → Text → Result Val
integer_value wrap low high tok = do
  v ← whole (strtoll tok)
  require (in_range low high v) semantic_error
  ok (wrap v)

module _ (floats : Floats) where
  open floats use {strtod, in_float_range, to_float}

  abbrev pub float_value : Text → Result Val
  float_value tok = do
    v ← whole (strtod tok)
    require (in_float_range v) semantic_error
    ok (f (to_float v))

  -- The value of a constant of the type `ty`.
  unfoldable pub const_value : Text → Text → Result Val
  unfolding strtoll
  const_value ty tok =
      if streq ty (codes "int8_t")
      then integer_value i8 (negsuc (2 ^ 7 - 1)) (pos (2 ^ 7 - 1)) tok
      else if streq ty (codes "int16_t")
      then integer_value i16 (negsuc (2 ^ 15 - 1)) (pos (2 ^ 15 - 1)) tok
      else if streq ty (codes "int32_t")
      then integer_value i32 (negsuc (2 ^ 31 - 1)) (pos (2 ^ 31 - 1)) tok
      else if streq ty (codes "int64_t")
      then whole (strtoll tok) >>= (λ v. ok (i64 v))
      else if streq ty (codes "float")
      then float_value tok
      else if streq ty (codes "double")
      then whole (strtod tok) >>= (λ v. ok (d v))
      else aborted

  abbrev pub add_constant : Struct → Constant → Struct
  add_constant lr lc = record lr { constants = lr.constants ++ (lc ∷ []) }

  -- The loop from another_constant on.
  unfoldable pub parse_constants : ℕ → Text → Struct → Tokens → Result (Struct × Tokens)
  unfolding const_value lcm_is_legal_member_name lcm_find_member lcm_find_const
  parse_constants zero ty lr ts = out_of_fuel
  parse_constants (suc n) ty lr ts = do
    (name, ts1) ← tokenize_next_or_fail ts
    require (lcm_is_legal_member_name name) parse_error
    require (is_fresh lr.members lr.constants name) semantic_error
    ts2 ← parse_require (codes "=") ts1
    (val_str, ts3) ← tokenize_next_or_fail ts2
    val ← const_value ty val_str
    (more, ts4) ← parse_try_consume (codes ",") ts3
    end_or_next (parse_constants n ty)
        (add_constant lr
          (record { lctypename = ty; membername = name; val = val; val_str = val_str }))
        (more, ts4)

  -- parse_const
  unfoldable pub parse_const : ℕ → Struct → Tokens → Result (Struct × Tokens)
  unfolding parse_constants lcm_is_legal_const_type
  parse_const n lr ts = do
    (ty, ts1) ← tokenize_next_or_fail ts
    require (lcm_is_legal_const_type ty) parse_error
    parse_constants n ty lr ts1

  -- A token that is an error where it stands.
  abbrev pub refuse : Text → Tokens → Result Tokens
  refuse tok ts = do
    (found, ts1) ← parse_try_consume tok ts
    require (not found) parse_error
    ok ts1

  abbrev pub const_or_member : ℕ → Text → Struct → Bool × Tokens → Result (Struct × Tokens)
  const_or_member n current lr (true, ts) = parse_const n lr ts
  const_or_member n current lr (false, ts) = parse_declaration n current lr ts

  -- parse_member, with the current package
  unfoldable pub parse_member : ℕ → Text → Struct → Tokens → Result (Struct × Tokens)
  unfolding parse_const parse_declaration
  parse_member n current lr ts = do
    ts1 ← refuse (codes "struct") ts
    ts2 ← refuse (codes "enum") ts1
    ts3 ← refuse (codes "union") ts2
    (is_const, ts4) ← parse_try_consume (codes "const") ts3
    const_or_member n current lr (is_const, ts4)
