-- ===== src/Lcmgen/WellFormed.antt =====
-- What a struct and an enum that lcmgen accepts satisfy, and the lemmas on names that this needs.
use conftron.Base.{
  ℕ, ◌^◌, ◌-◌, ◌≡◌, sym, ◌≢◌, ◌⊎◌, inl, inr, true, false, some, List, [], ◌∷◌, ◌++◌, map, All,
  Bool-cases, pos, negsuc, ltb_ℤ, append-nil, append_assoc, subst, arith,
}
use conftron.Lcmgen.Types.{
  DimensionMode, lcm_const, lcm_var, Typename, Dimension, Member, Val, i8, i16, i32, i64, f, d,
  Constant, Struct, EnumValue, Enum, lcm_is_legal_member_name, lcm_is_array_dimension_type,
  lcm_find_member, lcm_find_const,
}
use conftron.Lcmgen.Text.{Text, codes, streq, streq_refl}
use conftron.Lcmgen.Numbers.{strtol}
use conftron.Lcmgen.Parser.{Floats, is_none, starts_number}
use conftron.Lcmgen.Consts.{in_range}

abbrev pub NotIn {ℓ} : {A : Type ℓ} → A → List A → Type ℓ
NotIn name = All (λ other. name ≢ other)

-- No name twice.
abbrev pub NoDup {ℓ} : {A : Type ℓ} → List A → Type ℓ
NoDup [] = Unit
NoDup (name ∷ names) = NotIn name names × NoDup names

abbrev pub member_names : List Member → List Text
member_names = map (λ lm. lm.membername)

abbrev pub constant_names : List Constant → List Text
constant_names = map (λ lc. lc.membername)

-- The name is that of a scalar of an integer type.
abbrev pub IsIndex : List Member → Text → Type 0
IsIndex before name =
    (lm : Member) × (lcm_find_member before name ≡ some lm)
    × (lm.dimensions ≡ [])
    × (lcm_is_array_dimension_type lm.type.lctypename ≡ true)

-- The size of a dimension of a member with this name and type: a positive number, or an index among
-- the members before it, or the member itself, if its type is one of the integers.
abbrev pub SizeOf : List Member → Text → Typename → DimensionMode → Text → Type 0
SizeOf before name type lcm_const size =
    (starts_number size ≡ true) × (ltb_ℤ (pos 0) (strtol size) ≡ true)
SizeOf before name type lcm_var size =
    IsIndex before size ⊎ ((name ≡ size) × (lcm_is_array_dimension_type type.lctypename ≡ true))

abbrev pub IsSize : List Member → Text → Typename → Dimension → Type 0
IsSize before name type dim = SizeOf before name type dim.mode dim.size

abbrev pub IsDeclared : List Member → Member → Type 0
IsDeclared before lm =
    (lcm_is_legal_member_name lm.membername ≡ true)
    × All (IsSize before lm.membername lm.type) lm.dimensions

abbrev pub AllDeclared : List Member → List Member → Type 0
AllDeclared before [] = Unit
AllDeclared before (lm ∷ members) = IsDeclared before lm × AllDeclared (before ++ (lm ∷ [])) members

-- The value is of the constant's type, and within its bounds.
abbrev pub Fits : Floats → Text → Val → Type 0
Fits floats type (i8 v) =
    (codes "int8_t" ≡ type) × (in_range (negsuc (2 ^ 7 - 1)) (pos (2 ^ 7 - 1)) v ≡ true)
Fits floats type (i16 v) =
    (codes "int16_t" ≡ type) × (in_range (negsuc (2 ^ 15 - 1)) (pos (2 ^ 15 - 1)) v ≡ true)
Fits floats type (i32 v) =
    (codes "int32_t" ≡ type) × (in_range (negsuc (2 ^ 31 - 1)) (pos (2 ^ 31 - 1)) v ≡ true)
Fits floats type (i64 v) =
    (codes "int64_t" ≡ type) × (in_range (negsuc (2 ^ 63 - 1)) (pos (2 ^ 63 - 1)) v ≡ true)
Fits floats type (f v) =
    (codes "float" ≡ type) × ((x : ℕ) × (floats.in_float_range x ≡ true) × (floats.to_float x ≡ v))
Fits floats type (d v) = codes "double" ≡ type

abbrev pub IsConstant : Floats → Constant → Type 0
IsConstant floats lc =
    (lcm_is_legal_member_name lc.membername ≡ true) × Fits floats lc.lctypename lc.val

-- No name twice, and no value twice.
pub record IsWellFormedEnum (le : Enum) : Type 0 where
  pub names_distinct : NoDup (map (λ (lev : EnumValue). lev.valuename) le.values)
  pub values_distinct : NoDup (map (λ (lev : EnumValue). lev.value) le.values)

pub record IsWellFormed (floats : Floats) (lr : Struct) : Type 0 where
  pub distinct : NoDup (member_names lr.members ++ constant_names lr.constants)
  pub declared : AllDeclared [] lr.members
  pub constants_fit : All (IsConstant floats) lr.constants

pub All-snoc {ℓ κ} :
    {A : Type ℓ} (P : A → Type κ) (xs : List A) (x : A) → All P xs → P x → All P (xs ++ (x ∷ []))
All-snoc P [] x h p = (p, tt)
All-snoc P (y ∷ ys) x h p = (h.0, All-snoc P ys x h.1 p)

All-insert {ℓ κ} :
    {A : Type ℓ} (P : A → Type κ) (xs ys : List A) (x : A)
    → All P (xs ++ ys)
    → P x
    → All P (xs ++ (x ∷ ys))
All-insert P [] ys x h p = (p, h)
All-insert P (z ∷ zs) ys x h p = (h.0, All-insert P zs ys x h.1 p)

pub NoDup-insert {ℓ} :
    {A : Type ℓ} (xs ys : List A) (x : A)
    → NoDup (xs ++ ys)
    → NotIn x xs
    → NotIn x ys
    → NoDup (xs ++ (x ∷ ys))
NoDup-insert [] ys x h nx ny = (ny, h)
NoDup-insert (z ∷ zs) ys x h nx ny =
    (All-insert (λ y. z ≢ y) zs ys x h.0 (λ e. nx.0 (sym e)), NoDup-insert zs ys x h.1 nx.1 ny)

pub NotIn-append {ℓ} :
    {A : Type ℓ} (x : A) (xs ys : List A) → NotIn x xs → NotIn x ys → NotIn x (xs ++ ys)
NotIn-append x [] ys hx hy = hy
NotIn-append x (z ∷ zs) ys hx hy = (hx.0, NotIn-append x zs ys hx.1 hy)

pub AllDeclared-snoc :
    (before members : List Member) (lm : Member)
    → AllDeclared before members
    → IsDeclared (before ++ members) lm
    → AllDeclared before (members ++ (lm ∷ []))
AllDeclared-snoc before [] lm h p = (subst (λ ms. IsDeclared ms lm) (append-nil before) p, tt)
AllDeclared-snoc before (m ∷ members) lm h p = (
  h.0,
  AllDeclared-snoc (before ++ (m ∷ [])) members lm h.1
      (subst (λ ms. IsDeclared ms lm) (sym (append_assoc before (m ∷ []) members)) p),
)

differs : (s t : Text) → streq s t ≡ false → t ≢ s
differs s t h e = cc (h, streq_refl s, e)

pub NotIn-members :
    (members : List Member) (name : Text)
    → is_none (lcm_find_member members name) ≡ true
    → NotIn name (member_names members)
unfolding lcm_find_member
NotIn-members [] name h = tt
NotIn-members (lm ∷ members) name h = elim (Bool-cases (streq lm.membername name)) [
  | inl e ↦ absurd (ground (arith, h, e))
  | inr e ↦ (differs _ _ e, NotIn-members members name (rw e at h))
]

pub NotIn-constants :
    (constants : List Constant) (name : Text)
    → is_none (lcm_find_const constants name) ≡ true
    → NotIn name (constant_names constants)
unfolding lcm_find_const
NotIn-constants [] name h = tt
NotIn-constants (lc ∷ constants) name h = elim (Bool-cases (streq lc.membername name)) [
  | inl e ↦ absurd (ground (arith, h, e))
  | inr e ↦ (differs _ _ e, NotIn-constants constants name (rw e at h))
]
