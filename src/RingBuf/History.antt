-- ===== src/RingBuf/History.antt =====
-- upstream/lcm/ringbuffer.c: the chunks of a ring after any calls since it was made.
use conftron.Base.{
  ℕ, ◌+◌, ◌^◌, ◌<◌, ◌≤◌, ◌≡◌, ◌≢◌, refl, sym, ap, subst, ◌∙◌, inl, inr, Option, none, some, List,
  [], ◌∷◌, ◌++◌, arith, append_assoc, append-nil,
}
use conftron.RingBuf.{
  RingBuf, Result, done, aborted, new, padded, alloc, dealloc, shrink_last, offsetof_buf,
}
use conftron.RingBuf.Layout.{Chunk, Disjoint, total}
use conftron.RingBuf.Links.{Fresh, Disjoint-Fresh, snoc_view}
use conftron.RingBuf.Inv.{IsRing, new-IsRing, IsRing-Disjoint}
use conftron.RingBuf.Alloc.{Granted}
use conftron.RingBuf.Extend.{alloc_lem}
use conftron.RingBuf.Release.{dealloc_elsewhere}
use conftron.RingBuf.Dealloc.{Released, dealloc_head}
use conftron.RingBuf.Shrink.{dealloc_tail, shrink_last_lem}

-- A ring that the calls that returned have left, and the chunks that its user holds, the oldest first:
-- each with its place and its padded length. The user gives back the bytes of chunks that it holds, and
-- shrinks the newest.
pub data History : RingBuf → List Chunk → Type 0 where
  made : (size : ℕ) → size < 2 ^ 32 → History (new size) []
  allocates :
      (ring : RingBuf) (cs : List Chunk) (len o : ℕ) (ring' : RingBuf)
      → History ring cs
      → len + 63 < 2 ^ 32
      → alloc ring len ≡ done (some (o + offsetof_buf), ring')
      → History ring' (cs ++ ((o, padded len) ∷ []))
  refuses :
      (ring : RingBuf) (cs : List Chunk) (len : ℕ) (ring' : RingBuf)
      → History ring cs
      → len + 63 < 2 ^ 32
      → alloc ring len ≡ done (none, ring')
      → History ring' cs
  frees :
      (ring : RingBuf) (fs : List Chunk) (o l : ℕ) (gs : List Chunk) (ring' : RingBuf)
      → History ring (fs ++ ((o, l) ∷ gs))
      → dealloc ring (o + offsetof_buf) ≡ done ring'
      → History ring' (fs ++ gs)
  shrinks :
      (ring : RingBuf) (fs : List Chunk) (o l newlen : ℕ) (ring' : RingBuf)
      → History ring (fs ++ ((o, l) ∷ []))
      → newlen + 63 < 2 ^ 32
      → shrink_last ring (o + offsetof_buf) newlen ≡ done ring'
      → History ring' (fs ++ ((o, padded newlen) ∷ []))

-- The invariant, however the chunks are laid out.
abbrev Holds : RingBuf → List Chunk → Type 0
Holds ring cs =
    (start : ℕ) × (xs : List Chunk) × (ys : List Chunk) × (xs ++ ys ≡ cs) × IsRing ring start xs ys

abbrev after_alloc : RingBuf → Result (Option ℕ × RingBuf) → Option ℕ × RingBuf
after_alloc ring aborted = (none, ring)
after_alloc ring (done r) = r

abbrev after_free : RingBuf → Result RingBuf → RingBuf
after_free ring aborted = ring
after_free ring (done ring') = ring'

Released-Holds :
    (ring' : RingBuf) (cs : List Chunk) (r : Result RingBuf)
    → Released cs r
    → r ≡ done ring'
    → Holds ring' cs
Released-Holds ring' cs r (ring2, start, xs, ys, e, whole, v) f =
    (start, xs, ys, whole, subst (λ x. IsRing x start xs ys) (ap (after_free ring') (sym e ∙ f)) v)

Granted-Holds :
    (cs : List Chunk) (n o : ℕ) (ring' : RingBuf) (r : Result (Option ℕ × RingBuf))
    → Granted cs n r
    → r ≡ done (some (o + offsetof_buf), ring')
    → Holds ring' (cs ++ ((o, n) ∷ []))
Granted-Holds cs n o ring' r (o2, ring2, start, xs, ys, e, whole, v) f = (
  start,
  xs,
  ys,
  whole ∙ ap (λ k. cs ++ ((k, n) ∷ [])) same,
  subst (λ x. IsRing x start xs ys) (ap (λ x. (after_alloc ring' x).1) (sym e ∙ f)) v,
)
  where
    place : Option ℕ → ℕ
    place none = 0
    place (some k) = k

    same : o2 ≡ o
    same = omega (arith, ap (λ x. place (after_alloc ring' x).0) (sym e ∙ f))

Fresh-middle :
    (t : ℕ) (fs : List Chunk) (c : Chunk) (gs : List Chunk) → Fresh t (fs ++ (c ∷ gs)) → c.0 ≢ t
Fresh-middle t [] c gs h = h.0
Fresh-middle t (f ∷ fs) c gs h = Fresh-middle t fs c gs h.1

plus_ne : (a b : ℕ) → a ≢ b → a + offsetof_buf ≢ b + offsetof_buf
plus_ne a b h e = h (omega (arith, e))

-- A chunk between others cannot be given back.
middle-aborted :
    (ring : RingBuf) (a b : ℕ) (fs : List Chunk) (o l : ℕ) (g : Chunk) (gs : List Chunk)
    → Holds ring (((a, b) ∷ fs) ++ ((o, l) ∷ g ∷ gs))
    → dealloc ring (o + offsetof_buf) ≡ aborted
middle-aborted ring a b fs o l g gs (start, [], ys, whole, v) = absurd (cc (v.starts, whole))
middle-aborted ring a b fs o l g gs (start, (a2, b2) ∷ xs, ys, whole, v) =
    let (hs, t, m, e) = snoc_view g gs in
    let front = (a, b) ∷ (fs ++ ((o, l) ∷ hs)) in
    let split : ((a2, b2) ∷ xs) ++ ys ≡ front ++ ((t, m) ∷ []) =
      whole
      ∙ (ap (λ k. (a, b) ∷ (fs ++ ((o, l) ∷ k))) e
          ∙ ap (λ k. (a, b) ∷ k) (sym (append_assoc fs ((o, l) ∷ hs) ((t, m) ∷ [])))) in
    let d = (IsRing-Disjoint ring start ((a2, b2) ∷ xs) ys v).0 in
    let old = (Disjoint-Fresh ((a, b) ∷ fs) o l (g ∷ gs) (subst Disjoint whole d)).0 in
    let new_one = (Disjoint-Fresh front t m [] (subst Disjoint split d)).0 in
    dealloc_elsewhere ring start xs ys front a2 b2 t m (o + offsetof_buf) v split
      (plus_ne o a2 (λ f. old.0 (cc (whole, f))))
      (plus_ne o t (Fresh-middle t ((a, b) ∷ fs) (o, l) hs new_one))

frees-Holds :
    (ring : RingBuf) (fs : List Chunk) (o l : ℕ) (gs : List Chunk) (ring' : RingBuf)
    → Holds ring (fs ++ ((o, l) ∷ gs))
    → dealloc ring (o + offsetof_buf) ≡ done ring'
    → Holds ring' (fs ++ gs)
frees-Holds ring [] o l gs ring' (start, [], ys, whole, v) e = absurd (cc (v.starts, whole))
frees-Holds ring [] o l gs ring' (start, (a, b) ∷ xs, ys, whole, v) e =
    Released-Holds ring' gs (dealloc ring (o + offsetof_buf))
      (subst (λ k. Released k (dealloc ring (o + offsetof_buf))) (cc (whole))
        (subst (λ k. Released (xs ++ ys) (dealloc ring (k + offsetof_buf))) (cc (whole))
          (dealloc_head ring start a b xs ys v)))
      e
frees-Holds ring (f ∷ fs) o l [] ring' (start, xs, ys, whole, v) e =
    let (hs, p, m, s) = snoc_view f fs in
    let split =
      whole ∙ (ap (λ k. k ++ ((o, l) ∷ [])) s ∙ append_assoc hs ((p, m) ∷ []) ((o, l) ∷ [])) in
    subst (Holds ring') (sym s ∙ sym (append-nil (f ∷ fs))) (
      Released-Holds ring' (hs ++ ((p, m) ∷ [])) (dealloc ring (o + offsetof_buf))
        (dealloc_tail ring start xs ys hs p m o l v split) e)
frees-Holds ring ((a, b) ∷ fs) o l (g ∷ gs) ring' h e =
    absurd (cc (e, middle-aborted ring a b fs o l g gs h))

shrinks-Holds :
    (ring : RingBuf) (fs : List Chunk) (o l newlen : ℕ) (ring' : RingBuf)
    → Holds ring (fs ++ ((o, l) ∷ []))
    → newlen + 63 < 2 ^ 32
    → shrink_last ring (o + offsetof_buf) newlen ≡ done ring'
    → Holds ring' (fs ++ ((o, padded newlen) ∷ []))
shrinks-Holds ring fs o l newlen ring' (start, xs, ys, whole, v) small e =
    elim (shrink_last_lem ring start xs ys fs o l newlen v whole small) [
      | inl (fits, released) ↦ Released-Holds ring' _ _ released e
      | inr (longer, refused) ↦ absurd (cc (e, refused))
    ]

allocates-Holds :
    (ring : RingBuf) (cs : List Chunk) (len o : ℕ) (ring' : RingBuf)
    → Holds ring cs
    → len + 63 < 2 ^ 32
    → alloc ring len ≡ done (some (o + offsetof_buf), ring')
    → Holds ring' (cs ++ ((o, padded len) ∷ []))
allocates-Holds ring cs len o ring' (start, xs, ys, whole, v) small e =
    elim (alloc_lem ring start xs ys len v small) [
      | inl (full, refused) ↦ absurd (cc (e, refused))
      | inr granted ↦
          subst (λ k. Holds ring' (k ++ ((o, padded len) ∷ []))) whole
            (Granted-Holds (xs ++ ys) (padded len) o ring' (alloc ring len) granted e)
    ]

refuses-Holds :
    (ring : RingBuf) (cs : List Chunk) (len : ℕ) (ring' : RingBuf)
    → Holds ring cs
    → len + 63 < 2 ^ 32
    → alloc ring len ≡ done (none, ring')
    → Holds ring' cs
refuses-Holds ring cs len ring' (start, xs, ys, whole, v) small e =
    elim (alloc_lem ring start xs ys len v small) [
      | inl (full, refused) ↦ (
        start,
        xs,
        ys,
        whole,
        subst (λ x. IsRing x start xs ys) (ap (λ x. (after_alloc ring' x).1) (sym refused ∙ e)) v,
      )
      | inr (o2, ring2, s2, xs2, ys2, granted, rest, valid) ↦ absurd (cc (e, granted))
    ]

History-Holds : (ring : RingBuf) (cs : List Chunk) → History ring cs → Holds ring cs
History-Holds ring cs (made size h) = (0, [], [], refl, new-IsRing size h)
History-Holds ring cs (allocates r ds len o r' h small e) =
    allocates-Holds r ds len o r' (History-Holds r ds h) small e
History-Holds ring cs (refuses r ds len r' h small e) =
    refuses-Holds r ds len r' (History-Holds r ds h) small e
History-Holds ring cs (frees r fs o l gs r' h e) =
    frees-Holds r fs o l gs r' (History-Holds r (fs ++ ((o, l) ∷ gs)) h) e
History-Holds ring cs (shrinks r fs o l newlen r' h small e) =
    shrinks-Holds r fs o l newlen r' (History-Holds r (fs ++ ((o, l) ∷ [])) h) small e

-- After any calls of lcm_ringbuf_alloc, lcm_ringbuf_dealloc and lcm_ringbuf_shrink_last that returned,
-- since lcm_ringbuf_new made the ring, each with a length whose padding does not pass 2^32 and with the
-- bytes of a chunk that is held, the chunks that are held share no byte, together are no larger than the
-- area, and are what the ring counts as used.
pub History-Disjoint :
    (ring : RingBuf) (cs : List Chunk)
    → History ring cs
    → Disjoint cs × (total cs ≤ ring.size) × (ring.used ≡ total cs)
History-Disjoint ring cs h =
    let (start, xs, ys, whole, v) = History-Holds ring cs h in
    let (d, fits) = IsRing-Disjoint ring start xs ys v in
    subst (λ k. Disjoint k × (total k ≤ ring.size) × (ring.used ≡ total k)) whole
      (d, fits, v.used_is)
