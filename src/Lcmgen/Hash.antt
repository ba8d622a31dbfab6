-- ===== src/Lcmgen/Hash.antt =====
-- upstream/lcmgen/lcmgen.c: the hash of a type declaration. An int64_t is its bit pattern.
use Prim.Native.Nat.{bit_xor}
use conftron.Base.{
  ℕ, ◌+◌, ◌-◌, ◌*◌, ◌/◌, ◌%◌, ◌^◌, ◌≡◌, refl, sym, ap, ◌∙◌, Bool, true, false, List, [], ◌∷◌, ◌++◌,
  length, if◌then◌else◌, ltb,
}
use conftron.Lcmgen.Types.{
  DimensionMode, lcm_const, lcm_var, Dimension, Member, Struct, Enum, lcm_is_primitive_type,
}
use conftron.Lcmgen.Text.{Text}

-- A number passed as a char, which is signed, and widened to 64 bits.
abbrev pub as_char : ℕ → ℕ
as_char n = if ltb (n % 256) 128 then n % 256 else n % 256 + (2 ^ 64 - 256)

-- v >> 55 of a signed number.
abbrev pub shift_right : ℕ → ℕ
shift_right v = if ltb v (2 ^ 63) then v / 2 ^ 55 else v / 2 ^ 55 + (2 ^ 64 - 2 ^ 9)

unfoldable pub hash_update : ℕ → ℕ → ℕ
hash_update v c = (bit_xor (v * 2 ^ 8 % 2 ^ 64) (shift_right v) + as_char c) % 2 ^ 64

abbrev pub hash_chars : ℕ → Text → ℕ
hash_chars v [] = v
hash_chars v (c ∷ s) = hash_chars (hash_update v c) s

unfoldable pub hash_string_update : ℕ → Text → ℕ
hash_string_update v s = hash_chars (hash_update v (length s)) s

abbrev pub mode_number : DimensionMode → ℕ
mode_number lcm_const = 0
mode_number lcm_var = 1

-- The loop over the dimensions.
abbrev pub hash_dimensions : ℕ → List Dimension → ℕ
hash_dimensions v [] = v
hash_dimensions v (dim ∷ dims) =
    hash_dimensions (hash_string_update (hash_update v (mode_number dim.mode)) dim.size) dims

abbrev pub hash_type : ℕ → Bool → Text → ℕ
hash_type v primitive name = if primitive then hash_string_update v name else v

-- The loop over the members.
abbrev pub hash_members : ℕ → List Member → ℕ
hash_members v [] = v
hash_members v (lm ∷ members) =
    hash_members
      (hash_dimensions
        (hash_update
          (hash_type (hash_string_update v lm.membername) (lcm_is_primitive_type lm.type.lctypename)
            lm.type.lctypename)
          (length lm.dimensions))
        lm.dimensions)
      members

unfoldable pub lcm_struct_hash : Struct → ℕ
lcm_struct_hash lr = hash_members 0x12345678 lr.members

unfoldable pub lcm_enum_hash : Enum → ℕ
lcm_enum_hash le = hash_string_update 0x87654321 le.enumname.shortname

-- What the hash of a struct depends on, as one sequence of numbers.
abbrev pub counted_text : Text → List ℕ
counted_text s = length s ∷ s

abbrev pub dimensions_signature : List Dimension → List ℕ
dimensions_signature [] = []
dimensions_signature (dim ∷ dims) =
    mode_number dim.mode ∷ (counted_text dim.size ++ dimensions_signature dims)

abbrev pub type_signature : Bool → Text → List ℕ
type_signature primitive name = if primitive then counted_text name else []

abbrev pub signature : List Member → List ℕ
signature [] = []
signature (lm ∷ members) =
    counted_text lm.membername
    ++ (type_signature (lcm_is_primitive_type lm.type.lctypename) lm.type.lctypename
        ++ (length lm.dimensions ∷ (dimensions_signature lm.dimensions ++ signature members)))

hash_chars-append : (v : ℕ) (s t : List ℕ) → hash_chars v (s ++ t) ≡ hash_chars (hash_chars v s) t
hash_chars-append v [] t = refl
hash_chars-append v (c ∷ s) t = hash_chars-append (hash_update v c) s t

-- A part of the sequence, and the rest.
absorb :
    (s t : List ℕ) (v : ℕ) {w z : ℕ}
    → w ≡ hash_chars v s
    → z ≡ hash_chars w t
    → z ≡ hash_chars v (s ++ t)
absorb s t v e h = rw (hash_chars-append v s t, ← e) h

hash_type_lem : (b : Bool) (s : Text) (v : ℕ) → hash_type v b s ≡ hash_chars v (type_signature b s)
unfolding hash_string_update
hash_type_lem true s v = refl
hash_type_lem false s v = refl

hash_dimensions_lem :
    (dims : List Dimension) (v : ℕ)
    → hash_dimensions v dims ≡ hash_chars v (dimensions_signature dims)
unfolding hash_string_update
hash_dimensions_lem [] v = refl
hash_dimensions_lem (dim ∷ dims) v =
    absorb (mode_number dim.mode ∷ counted_text dim.size) _ v refl (hash_dimensions_lem dims _)

hash_members_lem :
    (members : List Member) (v : ℕ) → hash_members v members ≡ hash_chars v (signature members)
unfolding hash_string_update
hash_members_lem [] v = refl
hash_members_lem (lm ∷ members) v =
    let primitive = lcm_is_primitive_type lm.type.lctypename in
    let name = lm.type.lctypename in
    let named = hash_string_update v lm.membername in
    let dims = length lm.dimensions ∷ dimensions_signature lm.dimensions in
    absorb (counted_text lm.membername)
      (type_signature primitive name ++ (dims ++ signature members)) v refl
      (absorb (type_signature primitive name) (dims ++ signature members) named
        (hash_type_lem primitive name named)
        (absorb dims (signature members) (hash_type named primitive name)
          (hash_dimensions_lem lm.dimensions _) (hash_members_lem members _)))

-- The members have the same names and dimensions, and the same types where these are primitive.
abbrev pub SameLayout : List Member → List Member → Type 0
SameLayout [] [] = Unit
SameLayout [] (ls ∷ others) = ⊥
SameLayout (lm ∷ members) [] = ⊥
SameLayout (lm ∷ members) (ls ∷ others) =
    (lm.membername ≡ ls.membername)
    × (lm.dimensions ≡ ls.dimensions)
    × (lcm_is_primitive_type lm.type.lctypename ≡ lcm_is_primitive_type ls.type.lctypename)
    × (lcm_is_primitive_type lm.type.lctypename ≡ true → lm.type.lctypename ≡ ls.type.lctypename)
    × SameLayout members others

type_signature_eq :
    (b c : Bool) (s t : Text) → b ≡ c → (b ≡ true → s ≡ t) → type_signature b s ≡ type_signature c t
type_signature_eq true c s t e h = cc (e, h refl)
type_signature_eq false c s t e h = cc e

signature_eq :
    (members others : List Member)
    → SameLayout members others
    → signature members ≡ signature others
signature_eq [] [] h = refl
signature_eq [] (ls ∷ others) h = absurd h
signature_eq (lm ∷ members) [] h = absurd h
signature_eq (lm ∷ members) (ls ∷ others) (name, dims, primitive, type, rest) =
    cc (name, dims, type_signature_eq _ _ _ _ primitive type, signature_eq members others rest)

-- The hash of a struct is its start value after the numbers of its signature in order; and two structs
-- have one hash if their members agree in number, names and dimensions, in whether their types are
-- primitive, and in their types where these are: whatever the structs, their constants and the compound
-- types are called.
pub lcm_struct_hash_lem :
    (lr ls : Struct)
    → SameLayout lr.members ls.members
    → (lcm_struct_hash lr ≡ hash_chars 0x12345678 (signature lr.members))
      × (lcm_struct_hash lr ≡ lcm_struct_hash ls)
unfolding lcm_struct_hash
lcm_struct_hash_lem lr ls h =
    let folded = λ (lt : Struct). hash_members_lem lt.members 0x12345678 in
    (
      folded lr,
      folded lr
          ∙ (ap (hash_chars 0x12345678) (signature_eq lr.members ls.members h) ∙ sym (folded ls)),
    )
