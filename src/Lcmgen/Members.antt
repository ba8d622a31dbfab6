-- ===== src/Lcmgen/Members.antt =====
-- upstream/lcmgen/lcmgen.c: parse_member keeps a struct well formed, whatever the tokens.
use conftron.Base.{
  ℕ, zero, suc, ◌≤◌, ◌<◌, ◌≡◌, refl, sym, ap, subst, Bool, true, false, List, [], ◌∷◌, ◌++◌, All,
  length, arith, append_assoc, map,
}
use conftron.Lcmgen.Types.{Typename, Member, Struct, lcm_is_legal_member_name, lcm_typename_create}
use conftron.Lcmgen.Text.{Text, codes}
use conftron.Lcmgen.Result.{Result, Sat, Sat-bind}
use conftron.Lcmgen.Parser.{
  Floats, Tokens, parse_try_consume, parse_require, tokenize_next_or_fail, is_fresh,
  parse_dimensions, add_member, end_or_next, parse_names, parse_declaration,
}
use conftron.Lcmgen.WellFormed.{
  NotIn, NoDup, member_names, constant_names, IsSize, IsWellFormed, NoDup-insert, AllDeclared-snoc,
  NotIn-members, NotIn-constants,
}
use conftron.Lcmgen.Declared.{
  Tried, Shorter, Next, parse_try_consume-Sat, parse_require-Sat, tokenize_next_or_fail-Sat,
  Sat-weaken, Sat-parse_error, Sat-semantic_error, DimsRead, parse_dimensions-Sat, &&-parts,
}

pub map-snoc {ℓ κ} :
    {A : Type ℓ} {B : Type κ} (g : A → B) (xs : List A) (x : A)
    → map g (xs ++ (x ∷ [])) ≡ map g xs ++ (g x ∷ [])
map-snoc g [] x = refl
map-snoc g (y ∷ ys) x = ap (λ zs. g y ∷ zs) (map-snoc g ys x)

-- The struct that a step leaves, and a shorter rest of the tokens.
abbrev pub StructRead : Floats → Tokens → Struct × Tokens → Type 0
StructRead floats ts (lr, ts1) = IsWellFormed floats lr × (length ts1 < length ts)

pub fresh_parts :
    (lr : Struct) (name : Text)
    → is_fresh lr.members lr.constants name ≡ true
    → NotIn name (member_names lr.members) × NotIn name (constant_names lr.constants)
fresh_parts lr name h =
    let (members, constants) = &&-parts _ _ h in
    (NotIn-members lr.members name members, NotIn-constants lr.constants name constants)

-- The member that a name starts.
abbrev bare : Typename → Text → Member
bare lt name = record { type = lt; membername = name; dimensions = [] }

module _ (floats : Floats) where
  add_member-IsWellFormed :
      (lr : Struct) (lm : Member) (name : Text)
      → IsWellFormed floats lr
      → lm.membername ≡ name
      → lcm_is_legal_member_name name ≡ true
      → is_fresh lr.members lr.constants name ≡ true
      → All (IsSize lr.members lm.membername lm.type) lm.dimensions
      → IsWellFormed floats (add_member lr lm)
  add_member-IsWellFormed lr lm name h e legal fresh sizes = record {
    distinct = distinct1;
    declared =
        AllDeclared-snoc [] lr.members lm h.declared
          (subst (λ n. lcm_is_legal_member_name n ≡ true) (sym e) legal, sizes);
    constants_fit = h.constants_fit;
  }
    where
      new :
          NotIn lm.membername (member_names lr.members)
          × NotIn lm.membername (constant_names lr.constants)
      new = rw e (fresh_parts lr name fresh)

      distinct1 : NoDup (member_names (lr.members ++ (lm ∷ [])) ++ constant_names lr.constants)
      distinct1 =
          rw (map-snoc (λ (m : Member). m.membername) lr.members lm, append_assoc)
            (NoDup-insert _ _ _ h.distinct new.0 new.1)

  pub end_or_next-Sat :
      (next : Struct → Tokens → Result (Struct × Tokens)) (lr : Struct) (ts ts1 : Tokens)
      (more : Bool)
      → Tried ts (more, ts1)
      → ((ts2 : Tokens) → length ts2 < length ts → Sat (StructRead floats ts2) (next lr ts2))
      → IsWellFormed floats lr
      → Sat (StructRead floats ts) (end_or_next next lr (more, ts1))
  end_or_next-Sat next lr ts ts1 true t h w =
      Sat-weaken (StructRead floats ts1) (StructRead floats ts) _
        (λ (lr1, ts2) (w1, t2). (w1, omega arith)) (h ts1 t)
  end_or_next-Sat next lr ts ts1 false t h w =
      Sat-bind (Shorter ts1) (StructRead floats ts) (parse_require (codes ";") ts1) _
        (parse_require-Sat (codes ";") ts1) λ ts2 t2. (w, omega arith)

  parse_names-Sat :
      (n : ℕ) (lt : Typename) (lr : Struct) (ts : Tokens)
      → length ts < n
      → IsWellFormed floats lr
      → Sat (StructRead floats ts) (parse_names n lt lr ts)
  unfolding parse_names
  parse_names-Sat zero lt lr ts h w = absurd (omega arith)
  parse_names-Sat (suc n) lt lr ts h w =
      let Q = StructRead floats ts in
      Sat-bind (Next ts) Q (tokenize_next_or_fail ts) _ (tokenize_next_or_fail-Sat ts)
        λ (name, ts1) t1. Sat-parse_error Q (lcm_is_legal_member_name name) _ λ legal.
          Sat-semantic_error Q (is_fresh lr.members lr.constants name) _ λ fresh.
            Sat-bind (DimsRead lr.members (bare lt name) ts1) Q
              (parse_dimensions n lr.members (bare lt name) ts1) _
              (parse_dimensions-Sat n lr.members (bare lt name) ts1 (omega arith) tt)
              λ (lm, ts2) (e, sizes, t2).
                Sat-bind (Tried ts2) Q (parse_try_consume (codes ",") ts2) _
                  (parse_try_consume-Sat (codes ",") ts2)
                  λ (more, ts3) t3.
                    Sat-weaken (StructRead floats ts2) Q _
                      (λ (lr1, ts4) (w1, t4). (w1, omega arith))
                      (end_or_next-Sat (parse_names n lt) (add_member lr lm) ts2 ts3 more t3
                        (λ ts4 t4.
                          parse_names-Sat n lt (add_member lr lm) ts4 (omega arith)
                            (add_member-IsWellFormed lr lm name w e legal fresh sizes))
                        (add_member-IsWellFormed lr lm name w e legal fresh sizes))

  pub parse_declaration-Sat :
      (n : ℕ) (current : Text) (lr : Struct) (ts : Tokens)
      → length ts ≤ n
      → IsWellFormed floats lr
      → Sat (StructRead floats ts) (parse_declaration n current lr ts)
  unfolding parse_declaration
  parse_declaration-Sat n current lr ts h w =
      let Q = StructRead floats ts in
      Sat-bind (Next ts) Q (tokenize_next_or_fail ts) _ (tokenize_next_or_fail-Sat ts)
        λ (name, ts1) t1. Sat-parse_error Q (lcm_is_legal_member_name name) _ λ legal.
          Sat-weaken (StructRead floats ts1) Q _ (λ (lr1, ts2) (w1, t2). (w1, omega arith))
            (parse_names-Sat n (lcm_typename_create current name) lr ts1 (omega arith) w)
