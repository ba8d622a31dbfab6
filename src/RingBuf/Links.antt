-- ===== src/RingBuf/Links.antt =====
-- The doubly linked list of headers in upstream/lcm/ringbuffer.c.
use conftron.Base.{
  ℕ, ◌<◌, ◌≡◌, ◌≢◌, refl, ap, ◌∙◌, inl, inr, Option, none, some, List, [], ◌∷◌, ◌++◌, All, arith,
  eq→==, ne→==_false,
}
use conftron.RingBuf.{Rec, update, magic}
use conftron.RingBuf.Layout.{Chunk, Apart, Disjoint}

abbrev pub first : List Chunk → Option ℕ
first [] = none
first ((o, l) ∷ cs) = some o

abbrev pub last : List Chunk → Option ℕ
last [] = none
last ((o, l) ∷ []) = some o
last (c ∷ d ∷ cs) = last (d ∷ cs)

-- The header of a live chunk.
abbrev pub live : Option ℕ → Option ℕ → ℕ → Rec
live prev next l = record { magic_of = magic; prev = prev; next = next; len = l }

-- The headers of the chunks are linked in both directions, in the order of the list.
abbrev pub Links : (ℕ → Rec) → Option ℕ → List Chunk → Type 0
Links mem prev [] = Unit
Links mem prev ((o, l) ∷ cs) = (mem o ≡ live prev (first cs) l) × Links mem (some o) cs

-- No chunk of the list begins at `o`.
abbrev pub Fresh : ℕ → List Chunk → Type 0
Fresh o cs = All (λ (c : Chunk). c.0 ≢ o) cs

-- The headers of these chunks are the same in both memories.
abbrev pub Same : (ℕ → Rec) → (ℕ → Rec) → List Chunk → Type 0
Same mem mem' cs = All (λ (c : Chunk). mem' c.0 ≡ mem c.0) cs

pub update_self : (mem : ℕ → Rec) (o : ℕ) (r : Rec) → update mem o r o ≡ r
update_self mem o r = rw (eq→== o o refl)

pub update-ne : (mem : ℕ → Rec) (o k : ℕ) (r : Rec) → k ≢ o → update mem o r k ≡ mem k
update-ne mem o k r h = rw (ne→==_false k o h)

pub update-Same :
    (cs : List Chunk) (mem : ℕ → Rec) (o : ℕ) (r : Rec) → Fresh o cs → Same mem (update mem o r) cs
update-Same [] mem o r f = tt
update-Same (c ∷ cs) mem o r (f, fs) = (update-ne mem o c.0 r f, update-Same cs mem o r fs)

pub Same-refl : (cs : List Chunk) (mem : ℕ → Rec) → Same mem mem cs
Same-refl [] mem = tt
Same-refl (c ∷ cs) mem = (refl, Same-refl cs mem)

pub Same-trans :
    (cs : List Chunk) (m m' m'' : ℕ → Rec) → Same m m' cs → Same m' m'' cs → Same m m'' cs
Same-trans [] m m' m'' s t = tt
Same-trans (c ∷ cs) m m' m'' (s, ss) (t, ts) = (t ∙ s, Same-trans cs m m' m'' ss ts)

pub Links-Same :
    (cs : List Chunk) (mem mem' : ℕ → Rec) (prev : Option ℕ)
    → Same mem mem' cs
    → Links mem prev cs
    → Links mem' prev cs
Links-Same [] mem mem' prev s k = tt
Links-Same ((o, l) ∷ cs) mem mem' prev (s, ss) (k, ks) =
    (s ∙ k, Links-Same cs mem mem' (some o) ss ks)

pub first-append :
    (fs : List Chunk) (t l l' : ℕ) (rest rest' : List Chunk)
    → first (fs ++ ((t, l) ∷ rest)) ≡ first (fs ++ ((t, l') ∷ rest'))
first-append [] t l l' rest rest' = refl
first-append (c ∷ fs) t l l' rest rest' = refl

-- The list behind the chunk at `t` may change with its header: what stands before it stays linked.
pub Links-change :
    (fs : List Chunk) (t l l' : ℕ) (rest rest' : List Chunk) (mem mem' : ℕ → Rec) (prev : Option ℕ)
    → Same mem mem' fs
    → Links mem prev (fs ++ ((t, l) ∷ rest))
    → (p : Option ℕ) × (mem t ≡ live p (first rest) l)
      × Links mem (some t) rest
      × (mem' t ≡ live p (first rest') l'
          → Links mem' (some t) rest'
          → Links mem' prev (fs ++ ((t, l') ∷ rest')))
Links-change [] t l l' rest rest' mem mem' prev s (k, ks) = (prev, k, ks, λ e es. (e, es))
Links-change ((o, m) ∷ fs) t l l' rest rest' mem mem' prev (s, ss) (k, ks) =
    let (p, e, r, back) = Links-change fs t l l' rest rest' mem mem' (some o) ss ks in
    (
      p,
      e,
      r,
      λ e' es. (s ∙ k ∙ ap (λ n. live prev n m) (first-append fs t l l' rest rest'), back e' es),
    )

pub Apart-Fresh :
    (cs : List Chunk) (o l : ℕ) → 0 < l → All (Apart o l) cs → Disjoint cs → Fresh o cs
Apart-Fresh [] o l p a d = tt
Apart-Fresh ((o', l') ∷ cs) o l p (a, as') (d, ds, dd) =
    ((λ e. apart a (omega arith)), Apart-Fresh cs o l p as' dd)
  where
    apart : Apart o l (o', l') → o' ≡ o → ⊥
    apart (inl h) e = omega arith
    apart (inr h) e = omega arith

-- In a disjoint list the chunk at `t` begins where no chunk before it does.
pub Disjoint-Fresh :
    (fs : List Chunk) (t l : ℕ) (rest : List Chunk)
    → Disjoint (fs ++ ((t, l) ∷ rest))
    → Fresh t fs × (0 < l)
Disjoint-Fresh [] t l rest (p, a, d) = (tt, p)
Disjoint-Fresh ((o, m) ∷ fs) t l rest (p, a, d) =
    let (f, q) = Disjoint-Fresh fs t l rest d in ((apart q (member fs a), f), q)
  where
    member : (gs : List Chunk) → All (Apart o m) (gs ++ ((t, l) ∷ rest)) → Apart o m (t, l)
    member [] (x, xs) = x
    member (g ∷ gs) (x, xs) = member gs xs

    apart : 0 < l → Apart o m (t, l) → o ≢ t
    apart q (inl h) e = omega arith
    apart q (inr h) e = omega arith

pub last-snoc : (fs : List Chunk) (t l : ℕ) → last (fs ++ ((t, l) ∷ [])) ≡ some t
last-snoc [] t l = refl
last-snoc (c ∷ []) t l = refl
last-snoc (c ∷ d ∷ fs) t l = last-snoc (d ∷ fs) t l

-- A list that is not empty has a last chunk.
pub snoc_view :
    (c : Chunk) (cs : List Chunk)
    → (fs : List Chunk) × (t : ℕ) × (l : ℕ) × (c ∷ cs ≡ fs ++ ((t, l) ∷ []))
snoc_view (o, l) [] = ([], o, l, refl)
snoc_view c (d ∷ cs) = let (fs, t, l, e) = snoc_view d cs in (c ∷ fs, t, l, ap (λ ds. c ∷ ds) e)
