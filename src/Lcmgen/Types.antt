-- ===== src/Lcmgen/Types.antt =====
-- The types of upstream/lcmgen/lcmgen.h, and the tests on names, lcm_typename_create and the lookups of
-- lcmgen.c. A text is the list of its bytes before the NUL.
use conftron.Base.{
  ℕ, Bool, true, false, Option, none, some, List, [], ◌∷◌, ◌++◌, ℤ, if◌then◌else◌, ◌==◌, ◌||◌,
}
use conftron.Lcmgen.Text.{Text, codes, streq, isalpha}

-- lcm_typename_t
pub record Typename : Type 0 where
  pub lctypename : Text
  pub package_name : Text
  pub shortname : Text

-- lcm_dimension_mode_t
pub data DimensionMode : Type 0 where
  lcm_const lcm_var : DimensionMode

-- lcm_dimension_t
pub record Dimension : Type 0 where
  pub mode : DimensionMode
  pub size : Text

-- lcm_member_t
pub record Member : Type 0 where
  pub type : Typename
  pub membername : Text
  pub dimensions : List Dimension

-- The union of lcm_constant_t; a float or a double is its bit pattern.
pub data Val : Type 0 where
  i8 i16 i32 i64 : ℤ → Val
  f d : ℕ → Val

-- lcm_constant_t
pub record Constant : Type 0 where
  pub lctypename : Text
  pub membername : Text
  pub val : Val
  pub val_str : Text

-- lcm_struct_t; the lists of local structs and enums, which are never filled, are left out.
pub record Struct : Type 0 where
  pub structname : Typename
  pub members : List Member
  pub constants : List Constant
  pub lcmfile : Text
  pub hash : ℕ

-- lcm_enum_value_t
pub record EnumValue : Type 0 where
  pub valuename : Text
  pub value : ℤ

-- lcm_enum_t
pub record Enum : Type 0 where
  pub enumname : Typename
  pub values : List EnumValue
  pub lcmfile : Text
  pub hash : ℕ

-- lcmgen_t, without the options
pub record Lcmgen : Type 0 where
  pub package_name : Text
  pub structs : List Struct
  pub enums : List Enum

abbrev pub primitive_types : List Text
primitive_types =
    codes "int8_t"
    ∷ codes "int16_t"
    ∷ codes "int32_t"
    ∷ codes "int64_t"
    ∷ codes "byte"
    ∷ codes "float"
    ∷ codes "double"
    ∷ codes "string"
    ∷ codes "boolean"
    ∷ []

abbrev pub array_dimension_types : List Text
array_dimension_types = codes "int8_t" ∷ codes "int16_t" ∷ codes "int32_t" ∷ codes "int64_t" ∷ []

abbrev pub const_types : List Text
const_types =
    codes "int8_t"
    ∷ codes "int16_t"
    ∷ codes "int32_t"
    ∷ codes "int64_t"
    ∷ codes "float"
    ∷ codes "double"
    ∷ []

-- string_in_array
unfoldable pub string_in_array : Text → List Text → Bool
string_in_array t [] = false
string_in_array t (s ∷ ts) = if streq s t then true else string_in_array t ts

unfoldable pub lcm_is_primitive_type : Text → Bool
unfolding string_in_array
lcm_is_primitive_type t = string_in_array t primitive_types

unfoldable pub lcm_is_array_dimension_type : Text → Bool
unfolding string_in_array
lcm_is_array_dimension_type t = string_in_array t array_dimension_types

unfoldable pub lcm_is_legal_const_type : Text → Bool
unfolding string_in_array
lcm_is_legal_const_type t = string_in_array t const_types

-- t[0] is the NUL if the text is empty.
unfoldable pub lcm_is_legal_member_name : Text → Bool
lcm_is_legal_member_name [] = false
lcm_is_legal_member_name (c ∷ t) = isalpha c || (c == b'_')

-- strrchr for '.': the parts before and behind the last one.
abbrev pub last_dot : ℕ → Text → Option (Text × Text) → Option (Text × Text)
last_dot c s none = if c == b'.' then some ([], s) else none
last_dot c s (some (before, behind)) = some (c ∷ before, behind)

unfoldable pub strrchr : Text → Option (Text × Text)
strrchr [] = none
strrchr (c ∷ s) = last_dot c s (strrchr s)

-- The package with its dot, if there is one.
abbrev pub prefix_of : Text → Text
prefix_of [] = []
prefix_of (c ∷ package_name) = c ∷ (package_name ++ codes ".")

abbrev pub typename_of : Text → Text → Option (Text × Text) → Typename
typename_of current name none =
    if lcm_is_primitive_type name
    then record { lctypename = name; package_name = []; shortname = name }
    else record { lctypename = prefix_of current ++ name; package_name = current; shortname = name }
typename_of current name (some (package_name, shortname)) = record {
  lctypename = name;
  package_name = package_name;
  shortname = shortname;
}

-- lcm_typename_create, with the package of the last directive
unfoldable pub lcm_typename_create : Text → Text → Typename
unfolding strrchr lcm_is_primitive_type
lcm_typename_create package_name name = typename_of package_name name (strrchr name)

-- lcm_find_member
unfoldable pub lcm_find_member : List Member → Text → Option Member
lcm_find_member [] name = none
lcm_find_member (lm ∷ members) name =
    if streq lm.membername name then some lm else lcm_find_member members name

-- lcm_find_const
unfoldable pub lcm_find_const : List Constant → Text → Option Constant
lcm_find_const [] name = none
lcm_find_const (lc ∷ constants) name =
    if streq lc.membername name then some lc else lcm_find_const constants name

abbrev pub is_var : DimensionMode → Bool
is_var lcm_const = false
is_var lcm_var = true

-- lcm_is_constant_size_array
unfoldable pub lcm_is_constant_size_array : List Dimension → Bool
lcm_is_constant_size_array [] = true
lcm_is_constant_size_array (dim ∷ dims) =
    if is_var dim.mode then false else lcm_is_constant_size_array dims
