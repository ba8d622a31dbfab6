-- ===== src/RingBuf/Dealloc.antt =====
-- lcm_ringbuf_dealloc (upstream/lcm/ringbuffer.c) on a ring with the invariant.
use conftron.Base.{
  ℕ, ◌+◌, ◌^◌, ◌<◌, ◌≤◌, ◌≡◌, refl, sym, ap, true, ◌||◌, List, [], ◌∷◌, ◌++◌, All, arith, ap₂,
  append-nil, subst, eq→==,
}
use conftron.RingBuf.{RingBuf, Result, done, magic, is_at, offsetof_buf, dealloc, release, forget}
use conftron.RingBuf.Layout.{Chunk, Run, Disjoint, Run-weaken, total}
use conftron.RingBuf.Links.{Fresh, Apart-Fresh}
use conftron.RingBuf.Inv.{IsRing, Starts, IsRing-Disjoint, Aligned}
use conftron.RingBuf.Release.{IsQueue, dealloc_lem, release-size}
use conftron.RingBuf.Unlink.{release_head}

-- The call ends with a ring that holds the chunks `cs`, with the invariant.
abbrev pub Released : List Chunk → Result RingBuf → Type 0
Released cs result =
    (ring' : RingBuf) × (start' : ℕ) × (xs' : List Chunk) × (ys' : List Chunk) × (result
      ≡ done ring')
    × (xs' ++ ys' ≡ cs)
    × IsRing ring' start' xs' ys'

-- A way to lay out the queue `cs` as two runs.
abbrev pub Laid : ℕ → List Chunk → Type 0
Laid size cs =
    (start : ℕ) × (xs : List Chunk) × (ys : List Chunk) × (xs ++ ys ≡ cs)
    × Starts start xs ys
    × Run start xs size
    × Run 0 ys start

-- Without the head the chunks behind it begin a run.
Laid-head :
    (size start o l : ℕ) (xs ys : List Chunk)
    → Run start ((o, l) ∷ xs) size
    → Run 0 ys start
    → Laid size (xs ++ ys)
Laid-head size start o l [] [] (r0, r1, r2) s = (0, [], [], refl, refl, omega arith, omega arith)
Laid-head size start o l [] ((o', l') ∷ ys) (r0, r1, r2) (s0, s1, s2) = (
  o',
  (o', l') ∷ ys,
  [],
  append-nil _,
  refl,
  (omega arith, s1, Run-weaken ys (o' + l') start (o' + l') size (omega arith) (omega arith) s2),
  omega arith,
)
Laid-head size start o l ((o', l') ∷ xs) ys (r0, r1, r2) s = (
  o',
  (o', l') ∷ xs,
  ys,
  refl,
  refl,
  (omega arith, r2.1, r2.2),
  Run-weaken ys 0 start 0 o' (omega arith) (omega arith) s,
)

-- The call on either end, from what its two parts promise.
pub released_lem :
    (ring : RingBuf) (o : ℕ) (cs : List Chunk)
    → (is_at ring.head o || is_at ring.tail o) ≡ true
    → (ring.mem o).magic_of ≡ magic
    → IsQueue (release ring o) cs
    → Disjoint cs
    → Fresh o cs
    → All Aligned cs
    → ring.size < 2 ^ 32
    → Laid ring.size cs
    → Released cs (dealloc ring (o + offsetof_buf))
released_lem ring o cs at_end good q d fresh aligned bounded
      (start', xs', ys', e, starts, upper, lower) =
    let (result, valid) =
      dealloc_lem ring o start' xs' ys' at_end good (rw e q) (rw e d)
        (subst (Fresh o) (sym e) fresh) (subst (All Aligned) (sym e) aligned)
        (rw (release-size ring o) bounded) starts (rw (release-size ring o) upper) lower in
    (forget (release ring o) o, start', xs', ys', result, e, valid)

-- Giving back the oldest chunk of a ring with the invariant succeeds; the queue loses that chunk and
-- nothing else, and the invariant holds again.
pub dealloc_head :
    (ring : RingBuf) (start o l : ℕ) (xs ys : List Chunk)
    → IsRing ring start ((o, l) ∷ xs) ys
    → Released (xs ++ ys) (dealloc ring (o + offsetof_buf))
dealloc_head ring start o l xs ys v =
    released_lem ring o (xs ++ ys) (rw v.head_is (rw (eq→== o o refl)))
      (ap (λ r. r.magic_of) v.links.0)
      (release_head ring o l (xs ++ ys) queue facts.0 (omega (arith, facts, v.bounded))) facts.0.2
      (Apart-Fresh (xs ++ ys) o l facts.0.0 facts.0.1 facts.0.2) v.aligned.1 v.bounded
      (Laid-head ring.size start o l xs ys v.upper v.lower)
  where
    facts : Disjoint ((o, l) ∷ (xs ++ ys)) × (total ((o, l) ∷ (xs ++ ys)) ≤ ring.size)
    facts = IsRing-Disjoint ring start ((o, l) ∷ xs) ys v

    queue : IsQueue ring ((o, l) ∷ (xs ++ ys))
    queue = record {
      head_is = v.head_is;
      tail_is = v.tail_is;
      used_is = v.used_is;
      links = v.links;
    }

pub snoc-injective :
    (as' bs : List Chunk) (c d : Chunk) → as' ++ (c ∷ []) ≡ bs ++ (d ∷ []) → (as' ≡ bs) × (c ≡ d)
snoc-injective [] [] c d e = (refl, cc)
snoc-injective [] (b ∷ []) c d e = absurd (cc)
snoc-injective [] (b ∷ b' ∷ bs) c d e = absurd (cc)
snoc-injective (a ∷ []) [] c d e = absurd (cc)
snoc-injective (a ∷ a' ∷ as') [] c d e = absurd (cc)
snoc-injective (a ∷ as') (b ∷ bs) c d e =
    let same : a ≡ b = cc in
    let (h, k) = snoc-injective as' bs c d (cc) in (ap₂ (λ x xs. x ∷ xs) same h, k)
