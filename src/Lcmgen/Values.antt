-- ===== src/Lcmgen/Values.antt =====
-- upstream/lcmgen/lcmgen.c: parse_const keeps a struct well formed; its assertion never fails.
use conftron.Base.{
  ℕ, zero, suc, ◌-◌, ◌^◌, ◌≤◌, ◌<◌, ◌≡◌, refl, sym, Bool, true, false, Option, none, some, List, [],
  ◌∷◌, ◌++◌, if◌then◌else◌, length, arith, ℤ, pos, negsuc, append_assoc, append-nil, ◌==◌,
}
use conftron.Lcmgen.Types.{
  Val, i8, i16, i32, Constant, Struct, lcm_is_legal_const_type, lcm_is_legal_member_name,
}
use conftron.Lcmgen.Text.{Text, codes, streq, streq_eq}
use conftron.Lcmgen.Numbers.{strtoll, signed, read_unsigned, after_space, skip_space}
use conftron.Lcmgen.Result.{Sat, Sat-bind}
use conftron.Lcmgen.Parser.{
  Floats, Tokens, parse_try_consume, parse_require, tokenize_next_or_fail, is_fresh,
}
use conftron.Lcmgen.Consts.{
  whole, in_range, integer_value, const_value, add_constant, parse_constants, parse_const,
}
use conftron.Lcmgen.WellFormed.{
  Fits, NoDup, member_names, constant_names, IsConstant, IsWellFormed, All-snoc, NoDup-insert,
  NotIn-append,
}
use conftron.Lcmgen.Declared.{
  Tried, Shorter, Next, parse_try_consume-Sat, parse_require-Sat, tokenize_next_or_fail-Sat,
  Sat-weaken, Sat-if, Sat-parse_error, Sat-semantic_error,
}
use conftron.Lcmgen.Members.{map-snoc, StructRead, fresh_parts, end_or_next-Sat}

streq_sym : (s t : Text) → streq s t ≡ streq t s
streq_sym [] [] = refl
streq_sym [] (b ∷ t) = refl
streq_sym (a ∷ s) [] = refl
streq_sym (a ∷ s) (b ∷ t) = ground (arith, streq_sym s t)

-- strtoll stays within a long long.
abbrev IsBounded : Option (ℤ × Text) → Type 0
IsBounded none = Unit
IsBounded (some (v, rest)) = in_range (negsuc (2 ^ 63 - 1)) (pos (2 ^ 63 - 1)) v ≡ true

signed-IsBounded : (negative : Bool) (o : Option (ℕ × Text)) → IsBounded (signed negative o)
signed-IsBounded negative none = tt
signed-IsBounded false (some (v, rest)) = ground arith
signed-IsBounded true (some (v, rest)) = ground arith

either-IsBounded :
    (b : Bool) (x y : Option (ℤ × Text))
    → IsBounded x
    → IsBounded y
    → IsBounded (if b then x else y)
either-IsBounded true x y hx hy = hx
either-IsBounded false x y hx hy = hy

after_space-IsBounded : (s : Text) → IsBounded (after_space s)
after_space-IsBounded [] = tt
after_space-IsBounded (c ∷ s) =
    either-IsBounded (c == b'-') _ _ (signed-IsBounded true (read_unsigned s)) (
      either-IsBounded (c == b'+') _ _ (signed-IsBounded false (read_unsigned s))
        (signed-IsBounded false (read_unsigned (c ∷ s))))

strtoll-IsBounded : (s : Text) → IsBounded (strtoll s)
unfolding strtoll
strtoll-IsBounded s = after_space-IsBounded (skip_space s)

whole-Sat : (o : Option (ℤ × Text)) → IsBounded o → Sat (λ v. IsBounded (some (v, []))) (whole o)
whole-Sat none h = tt
whole-Sat (some (v, [])) h = h
whole-Sat (some (v, c ∷ s)) h = tt

whole-Sat_any : {A : Type 0} (o : Option (A × Text)) → Sat (λ v. Unit {0}) (whole o)
whole-Sat_any none = tt
whole-Sat_any (some (v, [])) = tt
whole-Sat_any (some (v, c ∷ s)) = tt

integer_value-Sat :
    (P : Val → Type 0) (wrap : ℤ → Val) (low high : ℤ) (tok : Text)
    → ((v : ℤ) → in_range low high v ≡ true → P (wrap v))
    → Sat P (integer_value wrap low high tok)
integer_value-Sat P wrap low high tok h =
    Sat-bind (λ v. Unit {0}) P (whole (strtoll tok)) _ (whole-Sat_any (strtoll tok))
      λ v u. Sat-semantic_error P (in_range low high v) _ (h v)

-- Only the types of the list are legal.
not_legal :
    (ty : Text)
    → streq ty (codes "int8_t") ≡ false
    → streq ty (codes "int16_t") ≡ false
    → streq ty (codes "int32_t") ≡ false
    → streq ty (codes "int64_t") ≡ false
    → streq ty (codes "float") ≡ false
    → streq ty (codes "double") ≡ false
    → lcm_is_legal_const_type ty ≡ false
unfolding lcm_is_legal_const_type
not_legal ty e1 e2 e3 e4 e5 e6 =
    rw
      (
        streq_sym (codes "int8_t") ty,
        e1,
        streq_sym (codes "int16_t") ty,
        e2,
        streq_sym (codes "int32_t") ty,
        e3,
        streq_sym (codes "int64_t") ty,
        e4,
        streq_sym (codes "float") ty,
        e5,
        streq_sym (codes "double") ty,
        e6,
      )
      refl

abbrev constant : Text → Text → Val → Text → Constant
constant ty name val val_str = record {
  lctypename = ty;
  membername = name;
  val = val;
  val_str = val_str;
}

module _ (floats : Floats) where
  const_value-Sat :
      (ty tok : Text)
      → lcm_is_legal_const_type ty ≡ true
      → Sat (Fits floats ty) (const_value floats ty tok)
  unfolding const_value
  const_value-Sat ty tok legal =
      let Q = Fits floats ty in
      Sat-if Q (streq ty (codes "int8_t")) _ _
        (λ e.
          integer_value-Sat Q i8 (negsuc (2 ^ 7 - 1)) (pos (2 ^ 7 - 1)) tok
            (λ v h. (sym (streq_eq ty (codes "int8_t") e), h)))
        λ e1.
          Sat-if Q (streq ty (codes "int16_t")) _ _
            (λ e.
              integer_value-Sat Q i16 (negsuc (2 ^ 15 - 1)) (pos (2 ^ 15 - 1)) tok
                (λ v h. (sym (streq_eq ty (codes "int16_t") e), h)))
            λ e2.
              Sat-if Q (streq ty (codes "int32_t")) _ _
                (λ e.
                  integer_value-Sat Q i32 (negsuc (2 ^ 31 - 1)) (pos (2 ^ 31 - 1)) tok
                    (λ v h. (sym (streq_eq ty (codes "int32_t") e), h)))
                λ e3.
                  Sat-if Q (streq ty (codes "int64_t")) _ _
                    (λ e.
                      Sat-bind (λ v. IsBounded (some (v, []))) Q (whole (strtoll tok)) _
                        (whole-Sat (strtoll tok) (strtoll-IsBounded tok))
                        λ v h. (sym (streq_eq ty (codes "int64_t") e), h))
                    λ e4.
                      Sat-if Q (streq ty (codes "float")) _ _
                        (λ e.
                          Sat-bind (λ v. Unit {0}) Q (whole (floats.strtod tok)) _
                            (whole-Sat_any (floats.strtod tok))
                            λ v u.
                              Sat-semantic_error Q (floats.in_float_range v) _
                                λ h. (sym (streq_eq ty (codes "float") e), (v, h, refl)))
                        λ e5.
                          Sat-if Q (streq ty (codes "double")) _ _
                            (λ e.
                              Sat-bind (λ v. Unit {0}) Q (whole (floats.strtod tok)) _
                                (whole-Sat_any (floats.strtod tok))
                                λ v u. sym (streq_eq ty (codes "double") e))
                            λ e6. cc (legal, not_legal ty e1 e2 e3 e4 e5 e6)

  add_constant-IsWellFormed :
      (lr : Struct) (lc : Constant)
      → IsWellFormed floats lr
      → lcm_is_legal_member_name lc.membername ≡ true
      → is_fresh lr.members lr.constants lc.membername ≡ true
      → Fits floats lc.lctypename lc.val
      → IsWellFormed floats (add_constant floats lr lc)
  add_constant-IsWellFormed lr lc h legal fresh fits = record {
    distinct = distinct1;
    declared = h.declared;
    constants_fit = All-snoc (IsConstant floats) lr.constants lc h.constants_fit (legal, fits);
  }
    where
      names : List Text
      names = member_names lr.members ++ constant_names lr.constants

      added : NoDup (names ++ (lc.membername ∷ []))
      added =
          let (members, constants) = fresh_parts lr lc.membername fresh in
          NoDup-insert names [] lc.membername (rw append-nil h.distinct)
            (NotIn-append lc.membername _ _ members constants) tt

      distinct1 : NoDup (member_names lr.members ++ constant_names (lr.constants ++ (lc ∷ [])))
      distinct1 =
          rw (map-snoc (λ (c : Constant). c.membername) lr.constants lc, ← append_assoc) added

  parse_constants-Sat :
      (n : ℕ) (ty : Text) (lr : Struct) (ts : Tokens)
      → length ts < n
      → lcm_is_legal_const_type ty ≡ true
      → IsWellFormed floats lr
      → Sat (StructRead floats ts) (parse_constants floats n ty lr ts)
  unfolding parse_constants
  parse_constants-Sat zero ty lr ts h legal w = absurd (omega arith)
  parse_constants-Sat (suc n) ty lr ts h legal_type w =
      let Q = StructRead floats ts in
      Sat-bind (Next ts) Q (tokenize_next_or_fail ts) _ (tokenize_next_or_fail-Sat ts)
        λ (name, ts1) t1. Sat-parse_error Q (lcm_is_legal_member_name name) _ λ legal.
          Sat-semantic_error Q (is_fresh lr.members lr.constants name) _ λ fresh.
            Sat-bind (Shorter ts1) Q (parse_require (codes "=") ts1) _
              (parse_require-Sat (codes "=") ts1)
              λ ts2 t2.
                Sat-bind (Next ts2) Q (tokenize_next_or_fail ts2) _ (tokenize_next_or_fail-Sat ts2)
                  λ (val_str, ts3) t3.
                    Sat-bind (Fits floats ty) Q (const_value floats ty val_str) _
                      (const_value-Sat ty val_str legal_type)
                      λ val fits.
                        Sat-bind (Tried ts3) Q (parse_try_consume (codes ",") ts3) _
                          (parse_try_consume-Sat (codes ",") ts3)
                          λ (more, ts4) t4.
                            Sat-weaken (StructRead floats ts3) Q _
                              (λ (lr1, ts5) (w1, t5). (w1, omega arith))
                              (let lc = constant ty name val val_str in
                                let w1 = add_constant-IsWellFormed lr lc w legal fresh fits in
                                end_or_next-Sat floats (parse_constants floats n ty)
                                  (add_constant floats lr lc) ts3 ts4 more t4
                                  (λ ts5 t5.
                                    parse_constants-Sat n ty (add_constant floats lr lc) ts5
                                      (omega arith) legal_type w1)
                                  w1)

  pub parse_const-Sat :
      (n : ℕ) (lr : Struct) (ts : Tokens)
      → length ts ≤ n
      → IsWellFormed floats lr
      → Sat (StructRead floats ts) (parse_const floats n lr ts)
  unfolding parse_const
  parse_const-Sat n lr ts h w =
      let Q = StructRead floats ts in
      Sat-bind (Next ts) Q (tokenize_next_or_fail ts) _ (tokenize_next_or_fail-Sat ts)
        λ (ty, ts1) t1. Sat-parse_error Q (lcm_is_legal_const_type ty) _ λ legal.
          Sat-weaken (StructRead floats ts1) Q _ (λ (lr1, ts2) (w1, t2). (w1, omega arith))
            (parse_constants-Sat n ty lr ts1 (omega arith) legal w)
