-- ===== src/Lcmgen/Accepted.antt =====
-- upstream/lcmgen/lcmgen.c: what a file of declarations can give, whatever its tokens.
use conftron.Base.{ℕ, zero, suc, ◌≤◌, ◌<◌, ◌≡◌, refl, Bool, true, false, not, length, arith}
use conftron.Lcmgen.Types.{Struct}
use conftron.Lcmgen.Text.{Text, codes}
use conftron.Lcmgen.Hash.{lcm_struct_hash}
use conftron.Lcmgen.Result.{Result, Sat, Sat-bind}
use conftron.Lcmgen.Parser.{Floats, Tokens, parse_try_consume, parse_require, tokenize_next_or_fail}
use conftron.Lcmgen.Consts.{refuse, const_or_member, parse_member}
use conftron.Lcmgen.Entities.{
  lcm_struct_create, with_struct_hash, with_member, parse_struct_members, parse_struct,
}
use conftron.Lcmgen.WellFormed.{IsWellFormed}
use conftron.Lcmgen.Declared.{
  Tried, Shorter, Next, parse_try_consume-Sat, parse_require-Sat, tokenize_next_or_fail-Sat,
  Sat-weaken, Sat-parse_error,
}
use conftron.Lcmgen.Members.{StructRead, parse_declaration-Sat}
use conftron.Lcmgen.Values.{parse_const-Sat}

-- Structs

abbrev AtMost : Tokens → Tokens → Type 0
AtMost ts ts1 = length ts1 ≤ length ts

refuse-Sat : (floats : Floats) (tok : Text) (ts : Tokens) → Sat (AtMost ts) (refuse floats tok ts)
refuse-Sat floats tok ts =
    Sat-bind (Tried ts) (AtMost ts) (parse_try_consume tok ts) _ (parse_try_consume-Sat tok ts)
      λ (found, ts1) t. Sat-parse_error (AtMost ts) (not found) _ (shrinks found ts1 t)
  where
    shrinks : (b : Bool) (ts1 : Tokens) → Tried ts (b, ts1) → not b ≡ true → length ts1 ≤ length ts
    shrinks true ts1 t h = absurd (ground (arith, h))
    shrinks false ts1 t h = t

-- The struct that a loop leaves, and a rest of the tokens.
abbrev StructLeft : Floats → Tokens → Struct × Tokens → Type 0
StructLeft floats ts (lr, ts1) = IsWellFormed floats lr × (length ts1 ≤ length ts)

-- A struct as the parser returns it.
abbrev pub IsStruct : Floats → Struct → Type 0
IsStruct floats lr = IsWellFormed floats lr × (lr.hash ≡ lcm_struct_hash lr)

abbrev pub StructDone : Floats → Tokens → Struct × Tokens → Type 0
StructDone floats ts (lr, ts1) = IsStruct floats lr × (length ts1 < length ts)

hash_kept : (lr : Struct) → lcm_struct_hash lr ≡ lcm_struct_hash (with_struct_hash lr)
unfolding lcm_struct_hash
hash_kept lr = refl

module _ (floats : Floats) where
  hashed : (lr : Struct) → IsWellFormed floats lr → IsWellFormed floats (with_struct_hash lr)
  hashed lr w = record {
    distinct = w.distinct;
    declared = w.declared;
    constants_fit = w.constants_fit;
  }

  const_or_member-Sat :
      (n : ℕ) (current : Text) (lr : Struct) (ts ts1 : Tokens) (is_const : Bool)
      → length ts ≤ n
      → IsWellFormed floats lr
      → Tried ts (is_const, ts1)
      → Sat (StructRead floats ts) (const_or_member floats n current lr (is_const, ts1))
  const_or_member-Sat n current lr ts ts1 true h w t =
      Sat-weaken (StructRead floats ts1) (StructRead floats ts) _
        (λ (lr1, ts2) (w1, t2). (w1, omega arith)) (parse_const-Sat floats n lr ts1 (omega arith) w)
  const_or_member-Sat n current lr ts ts1 false h w t =
      Sat-weaken (StructRead floats ts1) (StructRead floats ts) _
        (λ (lr1, ts2) (w1, t2). (w1, omega arith))
        (parse_declaration-Sat floats n current lr ts1 (omega arith) w)

  parse_member-Sat :
      (n : ℕ) (current : Text) (lr : Struct) (ts : Tokens)
      → length ts ≤ n
      → IsWellFormed floats lr
      → Sat (StructRead floats ts) (parse_member floats n current lr ts)
  unfolding parse_member
  parse_member-Sat n current lr ts h w =
      let Q = StructRead floats ts in
      Sat-bind (AtMost ts) Q (refuse floats (codes "struct") ts) _
        (refuse-Sat floats (codes "struct") ts)
        λ ts1 t1.
          Sat-bind (AtMost ts1) Q (refuse floats (codes "enum") ts1) _
            (refuse-Sat floats (codes "enum") ts1)
            λ ts2 t2.
              Sat-bind (AtMost ts2) Q (refuse floats (codes "union") ts2) _
                (refuse-Sat floats (codes "union") ts2)
                λ ts3 t3.
                  Sat-bind (Tried ts3) Q (parse_try_consume (codes "const") ts3) _
                    (parse_try_consume-Sat (codes "const") ts3)
                    λ (is_const, ts4) t4.
                      Sat-weaken (StructRead floats ts3) Q _
                        (λ (lr1, ts5) (w1, t5). (w1, omega arith))
                        (const_or_member-Sat n current lr ts3 ts4 is_const (omega arith) w t4)

  with_member-Sat :
      (n : ℕ) (current : Text) (next : Struct → Tokens → Result (Struct × Tokens)) (lr : Struct)
      (ts ts1 : Tokens) (close : Bool)
      → Tried ts (close, ts1)
      → length ts ≤ n
      → ((lr1 : Struct) (ts2 : Tokens)
          → length ts2 < length ts
          → IsWellFormed floats lr1
          → Sat (StructLeft floats ts2) (next lr1 ts2))
      → IsWellFormed floats lr
      → Sat (StructLeft floats ts) (with_member floats n current next lr (close, ts1))
  with_member-Sat n current next lr ts ts1 true t h ih w = (w, omega arith)
  with_member-Sat n current next lr ts ts1 false t h ih w =
      Sat-bind (StructRead floats ts1) (StructLeft floats ts) (parse_member floats n current lr ts1)
        _ (parse_member-Sat n current lr ts1 (omega arith) w)
        λ (lr1, ts2) (w1, t2).
          Sat-weaken (StructLeft floats ts2) (StructLeft floats ts) _
            (λ (lr2, ts3) (w2, t3). (w2, omega arith)) (ih lr1 ts2 (omega arith) w1)

  parse_struct_members-Sat :
      (n : ℕ) (current : Text) (lr : Struct) (ts : Tokens)
      → length ts < n
      → IsWellFormed floats lr
      → Sat (StructLeft floats ts) (parse_struct_members floats n current lr ts)
  unfolding parse_struct_members
  parse_struct_members-Sat zero current lr ts h w = absurd (omega arith)
  parse_struct_members-Sat (suc n) current lr ts h w =
      Sat-bind (Tried ts) (StructLeft floats ts) (parse_try_consume (codes "}") ts) _
        (parse_try_consume-Sat (codes "}") ts)
        λ (close, ts1) t.
          with_member-Sat n current (parse_struct_members floats n current) lr ts ts1 close t
            (omega arith)
            (λ lr1 ts2 t2 w1. parse_struct_members-Sat n current lr1 ts2 (omega arith) w1) w

  pub parse_struct-Sat :
      (n : ℕ) (current lcmfile : Text) (ts : Tokens)
      → length ts ≤ n
      → Sat (StructDone floats ts) (parse_struct floats n current lcmfile ts)
  unfolding parse_struct
  parse_struct-Sat n current lcmfile ts h =
      let Q = StructDone floats ts in
      Sat-bind (Next ts) Q (tokenize_next_or_fail ts) _ (tokenize_next_or_fail-Sat ts)
        λ (name, ts1) t1.
          Sat-bind (Shorter ts1) Q (parse_require (codes "{") ts1) _
            (parse_require-Sat (codes "{") ts1)
            λ ts2 t2.
              let lr = lcm_struct_create current lcmfile name in
              Sat-bind (StructLeft floats ts2) Q (parse_struct_members floats n current lr ts2) _
                (parse_struct_members-Sat n current lr ts2 (omega arith)
                  (record { distinct = tt; declared = tt; constants_fit = tt }))
                λ (lr1, ts3) (w1, t3). ((hashed lr1 w1, hash_kept lr1), omega arith)
