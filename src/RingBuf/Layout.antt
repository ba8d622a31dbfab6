-- ===== src/RingBuf/Layout.antt =====
-- Where the live chunks of upstream/lcm/ringbuffer.c lie. A chunk is its offset and its length.
use conftron.Base.{ℕ, ◌+◌, ◌<◌, ◌≤◌, ◌≡◌, refl, ◌⊎◌, inl, inr, List, [], ◌∷◌, ◌++◌, All, arith}

abbrev pub Chunk : Type 0
Chunk = ℕ × ℕ

-- The chunks follow one another upwards, from `a` on and below `b`.
abbrev pub Run : ℕ → List Chunk → ℕ → Type 0
Run a [] b = a ≤ b
Run a ((o, l) ∷ cs) b = (a ≤ o) × (0 < l) × Run (o + l) cs b

-- Where the last chunk ends.
abbrev pub end_of : ℕ → List Chunk → ℕ
end_of a [] = a
end_of a ((o, l) ∷ cs) = end_of (o + l) cs

abbrev pub total : List Chunk → ℕ
total [] = 0
total ((o, l) ∷ cs) = l + total cs

abbrev pub Apart : ℕ → ℕ → Chunk → Type 0
Apart o l c = (o + l ≤ c.0) ⊎ (c.0 + c.1 ≤ o)

-- No two chunks share a byte.
abbrev pub Disjoint : List Chunk → Type 0
Disjoint [] = Unit
Disjoint ((o, l) ∷ cs) = (0 < l) × All (Apart o l) cs × Disjoint cs

pub Run-weaken : (xs : List Chunk) (a b a' b' : ℕ) → a' ≤ a → b ≤ b' → Run a xs b → Run a' xs b'
Run-weaken [] a b a' b' h k r = omega arith
Run-weaken ((o, l) ∷ xs) a b a' b' h k (r0, r1, r2) =
    (omega arith, r1, Run-weaken xs (o + l) b (o + l) b' (omega arith) k r2)

pub end_of-le : (xs : List Chunk) (a b : ℕ) → Run a xs b → (a ≤ end_of a xs) × (end_of a xs ≤ b)
end_of-le [] a b r = omega arith
end_of-le ((o, l) ∷ xs) a b (r0, r1, r2) = omega (arith, end_of-le xs (o + l) b r2)

pub total-le : (xs : List Chunk) (a b : ℕ) → Run a xs b → a + total xs ≤ b
total-le [] a b r = omega arith
total-le ((o, l) ∷ xs) a b (r0, r1, r2) = omega (arith, total-le xs (o + l) b r2)

pub total-append : (xs ys : List Chunk) → total (xs ++ ys) ≡ total xs + total ys
total-append [] ys = omega arith
total-append ((o, l) ∷ xs) ys = omega (arith, total-append xs ys)

-- One more chunk above the last.
pub Run-snoc :
    (xs : List Chunk) (a b o l b' : ℕ)
    → Run a xs b
    → end_of a xs ≤ o
    → 0 < l
    → o + l ≤ b'
    → Run a (xs ++ ((o, l) ∷ [])) b'
Run-snoc [] a b o l b' r h p k = (h, p, k)
Run-snoc ((o', l') ∷ xs) a b o l b' (r0, r1, r2) h p k =
    (r0, r1, Run-snoc xs (o' + l') b o l b' r2 h p k)

pub end_of-snoc : (xs : List Chunk) (a o l : ℕ) → end_of a (xs ++ ((o, l) ∷ [])) ≡ o + l
end_of-snoc [] a o l = refl
end_of-snoc ((o', l') ∷ xs) a o l = end_of-snoc xs (o' + l') o l

-- All but the last chunk.
pub Run-front :
    (xs : List Chunk) (a b o l : ℕ)
    → Run a (xs ++ ((o, l) ∷ [])) b
    → Run a xs o × (end_of a xs ≤ o) × (0 < l) × (o + l ≤ b)
Run-front [] a b o l (r0, r1, r2) = (r0, r0, r1, r2)
Run-front ((o', l') ∷ xs) a b o l (r0, r1, r2) =
    let (s0, s1, s2, s3) = Run-front xs (o' + l') b o l r2 in ((r0, r1, s0), s1, s2, s3)

-- A block beside a run is apart from all its chunks.
pub Run-Apart :
    (xs : List Chunk) (a b o l : ℕ) → Run a xs b → (o + l ≤ a) ⊎ (b ≤ o) → All (Apart o l) xs
Run-Apart [] a b o l r h = tt
Run-Apart ((o', l') ∷ xs) a b o l (r0, r1, r2) (inl h) =
    (inl (omega arith), Run-Apart xs (o' + l') b o l r2 (inl (omega arith)))
Run-Apart ((o', l') ∷ xs) a b o l (r0, r1, r2) (inr h) =
    (inr (omega (arith, end_of-le xs (o' + l') b r2)), Run-Apart xs (o' + l') b o l r2 (inr h))

pub All-append {κ} :
    (P : Chunk → Type κ) (xs ys : List Chunk) → All P xs → All P ys → All P (xs ++ ys)
All-append P [] ys p q = q
All-append P (x ∷ xs) ys (p, ps) q = (p, All-append P xs ys ps q)

Run-Disjoint : (xs : List Chunk) (a b : ℕ) → Run a xs b → Disjoint xs
Run-Disjoint [] a b r = tt
Run-Disjoint ((o, l) ∷ xs) a b (r0, r1, r2) =
    (r1, Run-Apart xs (o + l) b o l r2 (inl (omega arith)), Run-Disjoint xs (o + l) b r2)

-- A run and one below it.
pub Run-two-Disjoint :
    (xs ys : List Chunk) (a b c : ℕ) → Run a xs b → Run c ys a → Disjoint (xs ++ ys)
Run-two-Disjoint [] ys a b c r s = Run-Disjoint ys c a s
Run-two-Disjoint ((o, l) ∷ xs) ys a b c (r0, r1, r2) s = (
  r1,
  All-append (Apart o l) xs ys (Run-Apart xs (o + l) b o l r2 (inl (omega arith)))
      (Run-Apart ys c a o l s (inr (omega arith))),
  Run-two-Disjoint xs ys (o + l) b c r2 (Run-weaken ys c a c (o + l) (omega arith) (omega arith) s),
)

pub All-front {κ} :
    (P : Chunk → Type κ) (xs : List Chunk) (c : Chunk) → All P (xs ++ (c ∷ [])) → All P xs
All-front P [] c p = tt
All-front P (x ∷ xs) c (p, ps) = (p, All-front P xs c ps)

pub Disjoint-front : (xs : List Chunk) (c : Chunk) → Disjoint (xs ++ (c ∷ [])) → Disjoint xs
Disjoint-front [] c d = tt
Disjoint-front ((o, l) ∷ xs) c (p, a, d) = (p, All-front (Apart o l) xs c a, Disjoint-front xs c d)
