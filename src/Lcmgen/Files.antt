-- ===== src/Lcmgen/Files.antt =====
-- upstream/lcmgen/lcmgen.c: what a file of declarations can give, whatever its tokens.
use conftron.Base.{ℕ, zero, suc, ◌≤◌, ◌<◌, [], ◌∷◌, All, length, arith}
use conftron.Lcmgen.Types.{Lcmgen}
use conftron.Lcmgen.Text.{Text, codes, streq}
use conftron.Lcmgen.Result.{Sat, Sat-bind}
use conftron.Lcmgen.Parser.{Floats, Tokens, parse_require, tokenize_next_or_fail}
use conftron.Lcmgen.Entities.{
  parse_struct, parse_enum, parse_package, parse_entity, parse_entities, parse_tokens,
}
use conftron.Lcmgen.WellFormed.{All-snoc}
use conftron.Lcmgen.Declared.{Shorter, Next, parse_require-Sat, tokenize_next_or_fail-Sat, Sat-if}
use conftron.Lcmgen.Accepted.{IsStruct, StructDone, parse_struct-Sat}
use conftron.Lcmgen.Enums.{IsEnum, EnumDone, parse_enum-Sat}

-- All that has been read is well formed and carries its hash.
abbrev pub IsAccepted : Floats → Lcmgen → Type 0
IsAccepted floats lcmgen = All (IsStruct floats) lcmgen.structs × All IsEnum lcmgen.enums

abbrev Step : Floats → Tokens → Lcmgen × Tokens → Type 0
Step floats ts (lcmgen, ts1) = IsAccepted floats lcmgen × (length ts1 ≤ length ts)

module _ (floats : Floats) where
  parse_package-Sat :
      (lcmgen : Lcmgen) (ts : Tokens)
      → IsAccepted floats lcmgen
      → Sat (Step floats ts) (parse_package floats lcmgen ts)
  parse_package-Sat lcmgen ts w =
      let Q = Step floats ts in
      Sat-bind (Next ts) Q (tokenize_next_or_fail ts) _ (tokenize_next_or_fail-Sat ts)
        λ (name, ts1) t1.
          Sat-bind (Shorter ts1) Q (parse_require (codes ";") ts1) _
            (parse_require-Sat (codes ";") ts1) λ ts2 t2. (w, omega arith)

  parse_entity-Sat :
      (n : ℕ) (lcmgen : Lcmgen) (lcmfile t : Text) (ts : Tokens)
      → length ts ≤ n
      → IsAccepted floats lcmgen
      → Sat (Step floats ts) (parse_entity floats n lcmgen lcmfile t ts)
  unfolding parse_entity
  parse_entity-Sat n lcmgen lcmfile t ts h w =
      let Q = Step floats ts in
      let current = lcmgen.package_name in
      Sat-if Q (streq t (codes "package")) _ _ (λ e. parse_package-Sat lcmgen ts w)
        λ e.
          Sat-if Q (streq t (codes "struct")) _ _
            (λ e1.
              Sat-bind (StructDone floats ts) Q (parse_struct floats n current lcmfile ts) _
                (parse_struct-Sat floats n current lcmfile ts h)
                λ (lr, ts1) (s, t1).
                  ((All-snoc (IsStruct floats) lcmgen.structs lr w.0 s, w.1), omega arith))
            λ e1.
              Sat-if Q (streq t (codes "enum")) _ _
                (λ e2.
                  Sat-bind (EnumDone ts) Q (parse_enum n current lcmfile ts) _
                    (parse_enum-Sat n current lcmfile ts h)
                    λ (le, ts1) (s, t1).
                      ((w.0, All-snoc IsEnum lcmgen.enums le w.1 s), omega arith))
                λ e2. tt

  parse_entities-Sat :
      (n : ℕ) (lcmgen : Lcmgen) (lcmfile : Text) (ts : Tokens)
      → length ts < n
      → IsAccepted floats lcmgen
      → Sat (IsAccepted floats) (parse_entities floats n lcmgen lcmfile ts)
  unfolding parse_entities
  parse_entities-Sat zero lcmgen lcmfile ts h w = absurd (omega arith)
  parse_entities-Sat (suc n) lcmgen lcmfile [] h w = w
  parse_entities-Sat (suc n) lcmgen lcmfile (t ∷ ts) h w =
      Sat-bind (Step floats ts) (IsAccepted floats) (parse_entity floats n lcmgen lcmfile t ts) _
        (parse_entity-Sat n lcmgen lcmfile t ts (omega arith) w)
        λ (lcmgen1, ts1) (w1, t1). parse_entities-Sat n lcmgen1 lcmfile ts1 (omega arith) w1

  -- Whatever the tokens, the fuel for them is enough and no assertion of the parser fails; and if what
  -- was read before is well formed, so is all that is returned: the names of a struct are distinct and
  -- legal, its array sizes are positive numbers or integer scalars among the members up to the array
  -- itself, its constants are within the bounds of their types, the names and the values of an enum are
  -- distinct, and the hashes are those of lcm_struct_hash and lcm_enum_hash.
  pub parse_tokens-IsAccepted :
      (lcmgen : Lcmgen) (lcmfile : Text) (ts : Tokens)
      → IsAccepted floats lcmgen
      → Sat (IsAccepted floats) (parse_tokens floats lcmgen lcmfile ts)
  unfolding parse_tokens
  parse_tokens-IsAccepted lcmgen lcmfile ts w =
      parse_entities-Sat (suc (length ts)) lcmgen lcmfile ts (omega arith) w
