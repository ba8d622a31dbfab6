-- ===== src/RingBuf/Alloc.antt =====
-- lcm_ringbuf_alloc (upstream/lcm/ringbuffer.c): the queue of chunks grows at its end.
use conftron.Base.{
  ℕ, ◌+◌, ◌%◌, ◌^◌, ◌<◌, ◌≤◌, ◌≡◌, ◌≢◌, refl, sym, ap, ◌∙◌, ◌⊎◌, inl, inr, Option, none, some, List,
  [], ◌∷◌, ◌++◌, All, arith, append_assoc, dec_lt, le→ltb_false, lt→ltb,
}
use conftron.RingBuf.{RingBuf, Result, done, alloc_first, append_rec, update, offsetof_buf, Rec}
use conftron.RingBuf.Layout.{
  Chunk, Run, Disjoint, Apart, end_of, total, total-append, total-le, All-append,
}
use conftron.RingBuf.Links.{
  first, Links, live, Fresh, update_self, update-ne, update-Same, Same-trans, Links-change,
  Apart-Fresh, Disjoint-Fresh, last-snoc,
}
use conftron.RingBuf.Inv.{IsRing, Starts, IsRing-Disjoint, Aligned}

Fresh-split :
    (o : ℕ) (fs : List Chunk) (t l : ℕ) → Fresh o (fs ++ ((t, l) ∷ [])) → Fresh o fs × (t ≢ o)
Fresh-split o [] t l (f, fs) = (tt, f)
Fresh-split o (c ∷ gs) t l (f, fs) = let (h, k) = Fresh-split o gs t l fs in ((f, h), k)

-- Linking a header at a fresh place behind the last chunk.
append_rec-Links :
    (ring : RingBuf) (fs : List Chunk) (t l o n : ℕ)
    → Links ring.mem none (fs ++ ((t, l) ∷ []))
    → Disjoint (fs ++ ((t, l) ∷ []))
    → Fresh o (fs ++ ((t, l) ∷ []))
    → Links (append_rec ring t o n).mem none ((fs ++ ((t, l) ∷ [])) ++ ((o, n) ∷ []))
unfolding append_rec
append_rec-Links ring fs t l o n links dis fresh =
    let (before, ne) = Fresh-split o fs t l fresh in
    let (others, _) = Disjoint-Fresh fs t l [] dis in
    let same =
      Same-trans fs ring.mem mem1 mem2 (update-Same fs ring.mem o (live (some t) none n) before)
        (update-Same fs mem1 t (record (mem1 t) { next = some o }) others) in
    let (p, e, _, back) = Links-change fs t l l [] ((o, n) ∷ []) ring.mem mem2 none same links in
    rw (append_assoc fs ((t, l) ∷ []) ((o, n) ∷ [])) (
      back
        (update_self mem1 t (record (mem1 t) { next = some o })
          ∙ ap (λ r. link_next r) (update-ne ring.mem o t (live (some t) none n) ne ∙ e))
        (
          update-ne mem1 t o (record (mem1 t) { next = some o }) (λ h. ne (sym h))
              ∙ update_self ring.mem o (live (some t) none n),
          tt,
        ))
  where
    mem1 : ℕ → Rec
    mem1 = update ring.mem o (live (some t) none n)

    mem2 : ℕ → Rec
    mem2 = update mem1 t (record (mem1 t) { next = some o })

    link_next : Rec → Rec
    link_next r = record r { next = some o }

-- The new chunk at `o` extends one of the two runs; everything else follows.
pub append_rec-IsRing :
    (ring : RingBuf) (start : ℕ) (xs ys fs xs' ys' : List Chunk) (t l o n : ℕ)
    → IsRing ring start xs ys
    → xs ++ ys ≡ fs ++ ((t, l) ∷ [])
    → xs' ++ ys' ≡ (xs ++ ys) ++ ((o, n) ∷ [])
    → All (Apart o n) (xs ++ ys)
    → 0 < n
    → Aligned (o, n)
    → Starts start xs' ys'
    → first (xs ++ ys) ≡ first (xs' ++ ys')
    → Run start xs' ring.size
    → Run 0 ys' start
    → IsRing (append_rec ring t o n) start xs' ys'
unfolding append_rec
append_rec-IsRing ring start xs ys fs xs' ys' t l o n v e whole apart some_bytes aligned starts
      same_head upper lower =
    record {
      bounded = v.bounded;
      starts = starts;
      upper = upper;
      lower = lower;
      head_is = v.head_is ∙ same_head;
      tail_is = rw whole (sym (last-snoc (xs ++ ys) o n));
      used_is = omega (
        arith,
        v.used_is,
        ap total whole,
        total-append (xs ++ ys) ((o, n) ∷ []),
        total-append xs' ys',
        total-le xs' start ring.size upper,
        total-le ys' 0 start lower,
        v.bounded,
      );
      links =
          rw (whole, e)
            (append_rec-Links ring fs t l o n (rw e at v.links) (rw e at disjoint)
              (rw e at (Apart-Fresh (xs ++ ys) o n some_bytes apart disjoint)));
      aligned = rw whole (All-append Aligned (xs ++ ys) ((o, n) ∷ []) v.aligned (aligned, tt));
    }
  where
    disjoint : Disjoint (xs ++ ys)
    disjoint = (IsRing-Disjoint ring start xs ys v).0

-- Neither free part of the area has room for `n` bytes.
abbrev pub NoRoom : ℕ → ℕ → List Chunk → List Chunk → ℕ → Type 0
NoRoom size start [] ys n = size < n
NoRoom size start (x ∷ xs) [] n = (size < end_of start (x ∷ xs) + n) × (start ≤ n)
NoRoom size start (x ∷ xs) (y ∷ ys) n = start < end_of 0 (y ∷ ys) + n

-- The call returns a new chunk at the end of the queue, in a ring that keeps the invariant.
abbrev pub Granted : List Chunk → ℕ → Result (Option ℕ × RingBuf) → Type 0
Granted cs n result =
    (o : ℕ) × (ring' : RingBuf) × (start' : ℕ) × (xs' : List Chunk) × (ys' : List Chunk) × (result
      ≡ done (some (o + offsetof_buf), ring'))
    × (xs' ++ ys' ≡ cs ++ ((o, n) ∷ []))
    × IsRing ring' start' xs' ys'

abbrev pub Refused :
    RingBuf → ℕ → List Chunk → List Chunk → ℕ → Result (Option ℕ × RingBuf) → Type 0
Refused ring start xs ys n result = NoRoom ring.size start xs ys n × (result ≡ done (none, ring))

pub alloc_first_lem :
    (ring : RingBuf) (n : ℕ)
    → ring.size < 2 ^ 32
    → ring.used ≡ 0
    → 0 < n
    → n % 32 ≡ 0
    → Refused ring 0 [] [] n (done (alloc_first ring n)) ⊎ Granted [] n (done (alloc_first ring n))
unfolding alloc_first
alloc_first_lem ring n bounded unused some_bytes aligned = elim (dec_lt ring.size n) [
  | yes h ↦ inl (h, rw (lt→ltb ring.size n h))
  | no h ↦ inr (
    0,
    ring',
    0,
    (0, n) ∷ [],
    [],
    rw (le→ltb_false ring.size n (omega arith)),
    refl,
    valid (omega arith),
  )
]
  where
    ring' : RingBuf
    ring' = record ring {
      head = some 0;
      tail = some 0;
      used = (ring.used + n) % 2 ^ 32;
      mem = update ring.mem 0 (live none none n);
    }

    valid : n ≤ ring.size → IsRing ring' 0 ((0, n) ∷ []) []
    valid h = record {
      bounded = bounded;
      starts = refl;
      upper = omega arith;
      lower = omega arith;
      head_is = refl;
      tail_is = refl;
      used_is = omega arith;
      links = (update_self ring.mem 0 (live none none n), tt);
      aligned = omega arith;
    }
