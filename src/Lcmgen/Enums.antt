-- ===== src/Lcmgen/Enums.antt =====
-- upstream/lcmgen/lcmgen.c: the enums that the parser accepts.
use conftron.Base.{
  ℕ, zero, suc, ◌≤◌, ◌<◌, ◌≡◌, refl, ◌≢◌, Bool, true, false, ◌||◌, List, [], ◌∷◌, inl, inr,
  Bool-cases, length, arith, ℤ, pos, append-nil, map,
}
use conftron.Lcmgen.Types.{EnumValue, Enum}
use conftron.Lcmgen.Text.{Text, codes, streq, streq_refl}
use conftron.Lcmgen.Hash.{lcm_enum_hash}
use conftron.Lcmgen.Result.{Result, Sat, Sat-bind}
use conftron.Lcmgen.Parser.{Tokens, parse_try_consume, parse_require, tokenize_next_or_fail}
use conftron.Lcmgen.Entities.{
  eq_ℤ, max_value, next_value, enum_number, is_new, add_value, parse_enum_value, with_enum_value,
  parse_enum_values, lcm_enum_create, with_enum_hash, parse_enum,
}
use conftron.Lcmgen.WellFormed.{NotIn, IsWellFormedEnum, NoDup-insert}
use conftron.Lcmgen.Declared.{
  Tried, Shorter, Next, parse_try_consume-Sat, parse_require-Sat, tokenize_next_or_fail-Sat,
  Sat-weaken, Sat-semantic_error,
}
use conftron.Lcmgen.Members.{map-snoc}

abbrev name_of : EnumValue → Text
name_of lev = lev.valuename

abbrev value_of : EnumValue → ℤ
value_of lev = lev.value

eq_ℤ_refl : (a : ℤ) → eq_ℤ a a ≡ true
eq_ℤ_refl a = ground arith

clash_value : (a b : ℤ) (c : Bool) → (eq_ℤ a b || c) ≡ false → b ≢ a
clash_value a b c h e = absurd (cc (h, eq_ℤ_refl a, e))

clash_name : (c : Bool) (s t : Text) → (c || streq s t) ≡ false → t ≢ s
clash_name true s t h e = cc h
clash_name false s t h e = cc (h, streq_refl s, e)

is_new_lem :
    (name : Text) (value : ℤ) (values : List EnumValue)
    → is_new name value values ≡ true
    → NotIn name (map name_of values) × NotIn value (map value_of values)
unfolding is_new
is_new_lem name value [] h = (tt, tt)
is_new_lem name value (tmp ∷ values) h =
    elim (Bool-cases (eq_ℤ tmp.value value || streq tmp.valuename name)) [
      | inl e ↦ absurd (cc (rw e at h))
      | inr e ↦
          let (names, others) = is_new_lem name value values (rw e at h) in
          (
            (clash_name (eq_ℤ tmp.value value) tmp.valuename name e, names),
            (clash_value tmp.value value _ e, others),
          )
    ]

abbrev EnumRead : Tokens → Enum × Tokens → Type 0
EnumRead ts (le, ts1) = IsWellFormedEnum le × (length ts1 < length ts)

abbrev EnumLeft : Tokens → Enum × Tokens → Type 0
EnumLeft ts (le, ts1) = IsWellFormedEnum le × (length ts1 ≤ length ts)

-- An enum as the parser returns it.
abbrev pub IsEnum : Enum → Type 0
IsEnum le = IsWellFormedEnum le × (le.hash ≡ lcm_enum_hash le)

abbrev pub EnumDone : Tokens → Enum × Tokens → Type 0
EnumDone ts (le, ts1) = IsEnum le × (length ts1 < length ts)

abbrev NumberRead : Tokens → ℤ × Tokens → Type 0
NumberRead ts (v, ts1) = length ts1 ≤ length ts

next_value-Sat : (max : ℤ) → Sat (λ v. Unit {0}) (next_value max)
next_value-Sat max = ground arith

enum_number-Sat :
    (values : List EnumValue) (ts ts1 : Tokens) (given : Bool)
    → Tried ts (given, ts1)
    → Sat (NumberRead ts) (enum_number values (given, ts1))
enum_number-Sat values ts ts1 true t =
    Sat-bind (Next ts1) (NumberRead ts) (tokenize_next_or_fail ts1) _
      (tokenize_next_or_fail-Sat ts1) λ (tok, ts2) t2. omega arith
enum_number-Sat values ts ts1 false t =
    Sat-bind (λ v. Unit {0}) (NumberRead ts) (next_value (max_value (pos 0) values)) _
      (next_value-Sat (max_value (pos 0) values)) λ v u. t

add_value-IsWellFormedEnum :
    (le : Enum) (name : Text) (value : ℤ)
    → IsWellFormedEnum le
    → is_new name value le.values ≡ true
    → IsWellFormedEnum (add_value le (record { valuename = name; value = value }))
add_value-IsWellFormedEnum le name value w h =
    let (names, others) = is_new_lem name value le.values h in
    record {
      names_distinct =
          rw (map-snoc name_of le.values lev)
            (NoDup-insert _ [] name (rw append-nil w.names_distinct) names tt);
      values_distinct =
          rw (map-snoc value_of le.values lev)
            (NoDup-insert _ [] value (rw append-nil w.values_distinct) others tt);
    }
  where
    lev : EnumValue
    lev = record { valuename = name; value = value }

parse_enum_value-Sat :
    (le : Enum) (ts : Tokens) → IsWellFormedEnum le → Sat (EnumRead ts) (parse_enum_value le ts)
unfolding parse_enum_value
parse_enum_value-Sat le ts w =
    let Q = EnumRead ts in
    Sat-bind (Next ts) Q (tokenize_next_or_fail ts) _ (tokenize_next_or_fail-Sat ts)
      λ (name, ts1) t1.
        Sat-bind (Tried ts1) Q (parse_try_consume (codes "=") ts1) _
          (parse_try_consume-Sat (codes "=") ts1)
          λ (given, ts2) t2.
            Sat-bind (NumberRead ts1) Q (enum_number le.values (given, ts2)) _
              (enum_number-Sat le.values ts1 ts2 given t2)
              λ (value, ts3) t3.
                Sat-semantic_error Q (is_new name value le.values) _
                  λ new. (add_value-IsWellFormedEnum le name value w new, omega arith)

optional :
    (tok : Text) (ts : Tokens)
    → Sat (λ (r : Bool × Tokens). length r.1 ≤ length ts) (parse_try_consume tok ts)
optional tok ts =
    Sat-weaken (Tried ts) _ (parse_try_consume tok ts) shorter (parse_try_consume-Sat tok ts)
  where
    shorter : (r : Bool × Tokens) → Tried ts r → length r.1 ≤ length ts
    shorter (true, ts1) t = omega arith
    shorter (false, ts1) t = t

with_enum_value-Sat :
    (next : Enum → Tokens → Result (Enum × Tokens)) (le : Enum) (ts : Tokens) (r : Bool × Tokens)
    → Tried ts r
    → ((le1 : Enum) (ts2 : Tokens)
        → length ts2 < length ts
        → IsWellFormedEnum le1
        → Sat (EnumLeft ts2) (next le1 ts2))
    → IsWellFormedEnum le
    → Sat (EnumLeft ts) (with_enum_value next le r)
with_enum_value-Sat next le ts (true, ts1) t ih w = (w, omega arith)
with_enum_value-Sat next le ts (false, ts1) t ih w =
    let Q = EnumLeft ts in
    Sat-bind (EnumRead ts1) Q (parse_enum_value le ts1) _ (parse_enum_value-Sat le ts1 w)
      λ (le1, ts2) (w1, t2).
        Sat-bind (λ (r : Bool × Tokens). length r.1 ≤ length ts2) Q
          (parse_try_consume (codes ",") ts2) _ (optional (codes ",") ts2)
          λ (comma, ts3) t3.
            Sat-bind (λ (r : Bool × Tokens). length r.1 ≤ length ts3) Q
              (parse_try_consume (codes ";") ts3) _ (optional (codes ";") ts3)
              λ (semicolon, ts4) t4.
                Sat-weaken (EnumLeft ts4) Q _ (λ (le2, ts5) (w2, t5). (w2, omega arith))
                  (ih le1 ts4 (omega arith) w1)

parse_enum_values-Sat :
    (n : ℕ) (le : Enum) (ts : Tokens)
    → length ts < n
    → IsWellFormedEnum le
    → Sat (EnumLeft ts) (parse_enum_values n le ts)
unfolding parse_enum_values
parse_enum_values-Sat zero le ts h w = absurd (omega arith)
parse_enum_values-Sat (suc n) le ts h w =
    Sat-bind (Tried ts) (EnumLeft ts) (parse_try_consume (codes "}") ts) _
      (parse_try_consume-Sat (codes "}") ts)
      λ r t.
        with_enum_value-Sat (parse_enum_values n) le ts r t
          (λ le1 ts2 t2 w1. parse_enum_values-Sat n le1 ts2 (omega arith) w1) w

hashed : (le : Enum) → IsWellFormedEnum le → IsWellFormedEnum (with_enum_hash le)
hashed le w = record { names_distinct = w.names_distinct; values_distinct = w.values_distinct }

hash_kept : (le : Enum) → lcm_enum_hash le ≡ lcm_enum_hash (with_enum_hash le)
unfolding lcm_enum_hash
hash_kept le = refl

pub parse_enum-Sat :
    (n : ℕ) (current lcmfile : Text) (ts : Tokens)
    → length ts ≤ n
    → Sat (EnumDone ts) (parse_enum n current lcmfile ts)
unfolding parse_enum
parse_enum-Sat n current lcmfile ts h =
    let Q = EnumDone ts in
    Sat-bind (Next ts) Q (tokenize_next_or_fail ts) _ (tokenize_next_or_fail-Sat ts)
      λ (name, ts1) t1.
        Sat-bind (Shorter ts1) Q (parse_require (codes "{") ts1) _
          (parse_require-Sat (codes "{") ts1)
          λ ts2 t2.
            let le = lcm_enum_create current lcmfile name in
            Sat-bind (EnumLeft ts2) Q (parse_enum_values n le ts2) _
              (parse_enum_values-Sat n le ts2 (omega arith)
                (record { names_distinct = tt; values_distinct = tt }))
              λ (le1, ts3) (w1, t3). ((hashed le1 w1, hash_kept le1), omega arith)
