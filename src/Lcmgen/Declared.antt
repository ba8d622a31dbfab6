-- ===== src/Lcmgen/Declared.antt =====
-- upstream/lcmgen/lcmgen.c: the member declarations that the parser accepts are well formed, and each
-- loop ends, a round taking at least one token.
use conftron.Base.{
  ℕ, zero, suc, ◌≤◌, ◌<◌, ◌≡◌, refl, inl, inr, Bool, true, false, ◌&&◌, List, [], ◌∷◌, ◌++◌,
  if◌then◌else◌, All, length, arith, pos, ltb_ℤ, ◌==◌,
}
use conftron.Lcmgen.Types.{
  lcm_const, lcm_var, Dimension, Member, lcm_is_legal_member_name, lcm_is_array_dimension_type,
  lcm_find_member,
}
use conftron.Lcmgen.Text.{Text, codes, streq, streq_eq}
use conftron.Lcmgen.Numbers.{strtol}
use conftron.Lcmgen.Result.{Result, ok, parse_error, semantic_error, ◌>>◌, require, Sat, Sat-bind}
use conftron.Lcmgen.Parser.{
  Tokens, parse_try_consume, parse_require, tokenize_next_or_fail, is_scalar, is_index, size_of,
  add_dimension, starts_number, starts_with, var_dimension, array_dimension, with_dimension,
  parse_dimensions,
}
use conftron.Lcmgen.WellFormed.{IsIndex, SizeOf, IsSize, All-snoc}

-- The primitives

abbrev pub Tried : Tokens → Bool × Tokens → Type 0
Tried ts (true, ts1) = length ts1 < length ts
Tried ts (false, ts1) = length ts1 ≤ length ts

abbrev pub Shorter : Tokens → Tokens → Type 0
Shorter ts ts1 = length ts1 < length ts

abbrev pub Next : Tokens → Text × Tokens → Type 0
Next ts (tok, ts1) = length ts1 < length ts

pub parse_try_consume-Sat : (tok : Text) (ts : Tokens) → Sat (Tried ts) (parse_try_consume tok ts)
parse_try_consume-Sat tok [] = tt
parse_try_consume-Sat tok (t ∷ ts) = tried (streq t tok)
  where
    tried : (b : Bool) → Tried (t ∷ ts) (b, if b then ts else t ∷ ts)
    tried true = omega arith
    tried false = omega arith

pub parse_require-Sat : (tok : Text) (ts : Tokens) → Sat (Shorter ts) (parse_require tok ts)
parse_require-Sat tok [] = tt
parse_require-Sat tok (t ∷ ts) = required (streq t tok)
  where
    required : (b : Bool) → Sat (Shorter (t ∷ ts)) (if b then ok ts else parse_error)
    required true = omega arith
    required false = tt

pub tokenize_next_or_fail-Sat : (ts : Tokens) → Sat (Next ts) (tokenize_next_or_fail ts)
tokenize_next_or_fail-Sat [] = tt
tokenize_next_or_fail-Sat (t ∷ ts) = omega arith

-- Behind a test, or after its error.
pub Sat-parse_error {ℓ} :
    {A : Type ℓ} (Q : A → Type 0) (b : Bool) (m : Result A)
    → (b ≡ true → Sat Q m)
    → Sat Q (require b parse_error >> m)
Sat-parse_error Q true m h = h refl
Sat-parse_error Q false m h = tt

pub Sat-semantic_error {ℓ} :
    {A : Type ℓ} (Q : A → Type 0) (b : Bool) (m : Result A)
    → (b ≡ true → Sat Q m)
    → Sat Q (require b semantic_error >> m)
Sat-semantic_error Q true m h = h refl
Sat-semantic_error Q false m h = tt

-- Dimensions

pub Sat-if {ℓ} :
    {A : Type ℓ} (Q : A → Type 0) (b : Bool) (x y : Result A)
    → (b ≡ true → Sat Q x)
    → (b ≡ false → Sat Q y)
    → Sat Q (if b then x else y)
Sat-if Q true x y h k = h refl
Sat-if Q false x y h k = k refl

accept {ℓ} :
    {A : Type ℓ} (Q : A → Type 0) (b : Bool) (a : A)
    → (b ≡ true → Q a)
    → Sat Q (if b then ok a else semantic_error)
accept Q true a h = h refl
accept Q false a h = tt

pub &&-parts : (a b : Bool) → (a && b) ≡ true → (a ≡ true) × (b ≡ true)
&&-parts a b h = ground arith

scalar_nil : (lm : Member) → is_scalar lm ≡ true → lm.dimensions ≡ []
scalar_nil lm h = no_dimensions lm.dimensions h
  where
    no_dimensions : (dims : List Dimension) → (length dims == 0) ≡ true → dims ≡ []
    no_dimensions [] e = refl
    no_dimensions (dim ∷ dims) e = absurd (ground (arith, e))

index_parts :
    (lm : Member)
    → is_index lm ≡ true
    → (lm.dimensions ≡ []) × (lcm_is_array_dimension_type lm.type.lctypename ≡ true)
unfolding is_index
index_parts lm h = let (scalar, type) = &&-parts _ _ h in (scalar_nil lm scalar, type)

-- A dimension of the member `lm` behind `before`.
abbrev IsVarSize : List Member → Member → Text → Dimension → Type 0
IsVarSize before lm tok dim =
    (dim.mode ≡ lcm_var) × (dim.size ≡ tok) × SizeOf before lm.membername lm.type lcm_var tok

found_later :
    (m : Member) (before : List Member) (tok : Text)
    → streq m.membername tok ≡ false
    → IsIndex before tok
    → IsIndex (m ∷ before) tok
unfolding lcm_find_member
found_later m before tok e (lm, found, dims, type) = (lm, rw e found, dims, type)

later_var :
    (m : Member) (before : List Member) (lm : Member) (tok : Text) (dim : Dimension)
    → streq m.membername tok ≡ false
    → IsVarSize before lm tok dim
    → IsVarSize (m ∷ before) lm tok dim
later_var m before lm tok dim e (mode, size, inl index) =
    (mode, size, inl (found_later m before tok e index))
later_var m before lm tok dim e (mode, size, inr own) = (mode, size, inr own)

pub Sat-weaken {ℓ} :
    {A : Type ℓ} (P Q : A → Type 0) (m : Result A) → ((a : A) → P a → Q a) → Sat P m → Sat Q m
Sat-weaken P Q (ok a) k h = k a h
Sat-weaken P Q Result.parse_error k h = tt
Sat-weaken P Q Result.semantic_error k h = tt
Sat-weaken P Q Result.aborted k h = h
Sat-weaken P Q Result.undefined k h = tt
Sat-weaken P Q Result.out_of_fuel k h = h

var_dimension-Sat :
    (before : List Member) (lm : Member) (tok : Text)
    → Sat (IsVarSize before lm tok) (var_dimension (before ++ (lm ∷ [])) tok)
unfolding var_dimension lcm_find_member
var_dimension-Sat [] lm tok =
    let Q = IsVarSize [] lm tok in
    Sat-if Q (streq lm.membername tok) _ _
      (λ e.
        accept Q (is_index lm) (size_of lcm_var tok)
          (λ h. (refl, refl, inr (streq_eq lm.membername tok e, (index_parts lm h).1))))
      (λ e. tt)
var_dimension-Sat (m ∷ before) lm tok =
    let Q = IsVarSize (m ∷ before) lm tok in
    Sat-if Q (streq m.membername tok) _ _
      (λ e.
        accept Q (is_index m) (size_of lcm_var tok)
          (λ h. (refl, refl, inl (m, rw e refl, (index_parts m h).0, (index_parts m h).1))))
      (λ e.
        Sat-weaken (IsVarSize before lm tok) Q _ (λ dim. later_var m before lm tok dim e)
          (var_dimension-Sat before lm tok))

var-IsSize :
    (before : List Member) (lm : Member) (tok : Text) (dim : Dimension)
    → IsVarSize before lm tok dim
    → IsSize before lm.membername lm.type dim
var-IsSize before lm tok dim (mode, size, h) = rw (mode, size) h

array_dimension-Sat :
    (before : List Member) (lm : Member) (tok : Text)
    → Sat (IsSize before lm.membername lm.type) (array_dimension (before ++ (lm ∷ [])) tok)
unfolding array_dimension
array_dimension-Sat before lm tok =
    let Q = IsSize before lm.membername lm.type in
    Sat-if Q (starts_number tok) _ _
      (λ e. accept Q (ltb_ℤ (pos 0) (strtol tok)) (size_of lcm_const tok) (λ h. (e, h)))
      (λ e.
        Sat-if Q (starts_with b']' tok) _ _ (λ h. tt)
          (λ h.
            Sat-if Q (lcm_is_legal_member_name tok) _ _
              (λ legal.
                Sat-weaken (IsVarSize before lm tok) Q _ (λ dim. var-IsSize before lm tok dim)
                  (var_dimension-Sat before lm tok))
              (λ legal. tt)))

-- What the loop over the dimensions leaves of the member and of the tokens.
abbrev pub DimsRead : List Member → Member → Tokens → Member × Tokens → Type 0
DimsRead before lm ts (lm1, ts1) =
    (lm1.membername ≡ lm.membername)
    × All (IsSize before lm1.membername lm1.type) lm1.dimensions
    × (length ts1 ≤ length ts)

-- One round, with what the next ones promise.
with_dimension-Sat :
    (next : Member → Tokens → Result (Member × Tokens)) (before : List Member) (lm : Member)
    (ts : Tokens) (r : Bool × Tokens)
    → Tried ts r
    → All (IsSize before lm.membername lm.type) lm.dimensions
    → ((dim : Dimension) (ts3 : Tokens)
        → length ts3 < length ts
        → All (IsSize before lm.membername lm.type) (add_dimension lm dim).dimensions
        → Sat (DimsRead before (add_dimension lm dim) ts3) (next (add_dimension lm dim) ts3))
    → Sat (DimsRead before lm ts) (with_dimension next before lm r)
with_dimension-Sat next before lm ts (false, ts1) t sizes ih = (refl, sizes, t)
with_dimension-Sat next before lm ts (true, ts1) t sizes ih =
    let Q = DimsRead before lm ts in
    Sat-bind (Next ts1) Q (tokenize_next_or_fail ts1) _ (tokenize_next_or_fail-Sat ts1)
      λ (tok, ts2) t2.
        Sat-bind (IsSize before lm.membername lm.type) Q (array_dimension (before ++ (lm ∷ [])) tok)
          _ (array_dimension-Sat before lm tok)
          λ dim size.
            Sat-bind (Shorter ts2) Q (parse_require (codes "]") ts2) _
              (parse_require-Sat (codes "]") ts2)
              λ ts3 t3.
                Sat-weaken (DimsRead before (add_dimension lm dim) ts3) Q _
                  (λ (lm1, ts4) (name, sizes1, t4). (name, sizes1, omega arith))
                  (ih dim ts3 (omega arith) (All-snoc _ lm.dimensions dim sizes size))

pub parse_dimensions-Sat :
    (n : ℕ) (before : List Member) (lm : Member) (ts : Tokens)
    → length ts < n
    → All (IsSize before lm.membername lm.type) lm.dimensions
    → Sat (DimsRead before lm ts) (parse_dimensions n before lm ts)
unfolding parse_dimensions
parse_dimensions-Sat zero before lm ts h sizes = absurd (omega arith)
parse_dimensions-Sat (suc n) before lm ts h sizes =
    Sat-bind (Tried ts) (DimsRead before lm ts) (parse_try_consume (codes "[") ts) _
      (parse_try_consume-Sat (codes "[") ts)
      λ r t.
        with_dimension-Sat (parse_dimensions n before) before lm ts r t sizes (λ dim ts3 shorter.
          parse_dimensions-Sat n before (add_dimension lm dim) ts3 (omega arith))
