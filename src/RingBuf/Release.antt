-- ===== src/RingBuf/Release.antt =====
-- lcm_ringbuf_dealloc (upstream/lcm/ringbuffer.c): the queue of chunks shrinks at one of its ends.
use conftron.Base.{
  ℕ, ◌+◌, ◌-◌, ◌^◌, ◌<◌, ◌≡◌, ◌≢◌, sym, ap, ◌∙◌, true, ◌||◌, Option, none, some, List, [], ◌∷◌,
  ◌++◌, All, arith, subst, eq→==,
}
use conftron.RingBuf.{
  RingBuf, Rec, done, aborted, magic, is_at, offsetof_buf, dealloc, dealloc_rec, release, forget,
  drop_head, drop_tail, ends_are_open, empty_if_unused,
}
use conftron.RingBuf.Layout.{Chunk, Run, Disjoint, total}
use conftron.RingBuf.Links.{
  first, last, Links, Fresh, update-Same, Links-Same, last-snoc, snoc_view,
}
use conftron.RingBuf.Inv.{IsRing, Starts, Aligned}

dealloc_at : (ring : RingBuf) (o : ℕ) → dealloc ring (o + offsetof_buf) ≡ dealloc_rec ring o
unfolding dealloc
dealloc_at ring o = ground (arith, plus_minus)
  where
    plus_minus : o + offsetof_buf - offsetof_buf ≡ o
    plus_minus = omega arith

-- The assertions, one by one.
dealloc_rec_lem :
    (ring : RingBuf) (o : ℕ)
    → (is_at ring.head o || is_at ring.tail o) ≡ true
    → (ring.mem o).magic_of ≡ magic
    → ends_are_open (release ring o) ≡ true
    → empty_if_unused (release ring o) ≡ true
    → dealloc_rec ring o ≡ done (forget (release ring o) o)
unfolding dealloc_rec
dealloc_rec_lem ring o at_end good apart unused =
    rw (at_end, eq→== (ring.mem o).magic_of magic good, apart, unused)

-- Neither end: an assertion fails.
pub dealloc_elsewhere :
    (ring : RingBuf) (start : ℕ) (xs ys fs : List Chunk) (o l t m buf : ℕ)
    → IsRing ring start ((o, l) ∷ xs) ys
    → ((o, l) ∷ xs) ++ ys ≡ fs ++ ((t, m) ∷ [])
    → buf ≢ o + offsetof_buf
    → buf ≢ t + offsetof_buf
    → dealloc ring buf ≡ aborted
unfolding dealloc dealloc_rec
dealloc_elsewhere ring start xs ys fs o l t m buf v e not_head not_tail =
    ground (arith, v.head_is, tail_at)
  where
    tail_at : ring.tail ≡ some t
    tail_at = v.tail_is ∙ ap last e ∙ last-snoc fs t m

-- The last header of a linked list has no next.
tail_next :
    (fs : List Chunk) (t l : ℕ) (mem : ℕ → Rec) (prev : Option ℕ)
    → Links mem prev (fs ++ ((t, l) ∷ []))
    → (mem t).next ≡ none
tail_next [] t l mem prev (k, _) = ap (λ r. r.next) k
tail_next ((o, m) ∷ fs) t l mem prev (k, ks) = tail_next fs t l mem (some o) ks

-- A ring whose ends are those of a linked list passes the assertion.
ends_open_lem :
    (ring : RingBuf) (cs : List Chunk)
    → ring.head ≡ first cs
    → ring.tail ≡ last cs
    → Links ring.mem none cs
    → ends_are_open ring ≡ true
unfolding ends_are_open
ends_open_lem ring [] h t k = ground arith
ends_open_lem ring ((o, l) ∷ cs) h t (k, ks) =
    let (fs, p, m, e) = snoc_view (o, l) cs in
    ground (
      arith,
      ap (λ r. r.prev) k,
      t ∙ ap last e ∙ last-snoc fs p m,
      tail_next fs p m ring.mem none (subst (λ ds. Links ring.mem none ds) e (k, ks)),
    )

unused_lem :
    (ring : RingBuf) (cs : List Chunk)
    → ring.head ≡ first cs
    → ring.tail ≡ last cs
    → ring.used ≡ total cs
    → Disjoint cs
    → empty_if_unused ring ≡ true
unfolding empty_if_unused
unused_lem ring [] h t u d = ground arith
unused_lem ring ((o, l) ∷ cs) h t u (p, _, _) = ground arith

forget-Links :
    (ring : RingBuf) (o : ℕ) (cs : List Chunk)
    → Fresh o cs
    → Links ring.mem none cs
    → Links (forget ring o).mem none cs
unfolding forget
forget-Links ring o cs fresh links =
    Links-Same cs ring.mem (forget ring o).mem none
      (update-Same cs ring.mem o (record (ring.mem o) { magic_of = 0 }) fresh) links

pub release-size : (ring : RingBuf) (o : ℕ) → (release ring o).size ≡ ring.size
unfolding release drop_head drop_tail
release-size ring o = ground arith

-- What the invariant says of the queue alone.
pub record IsQueue (ring : RingBuf) (cs : List Chunk) : Type 0 where
  pub head_is : ring.head ≡ first cs
  pub tail_is : ring.tail ≡ last cs
  pub used_is : ring.used ≡ total cs
  pub links : Links ring.mem none cs

-- A queue that is laid out as two runs has the invariant.
pub IsQueue-IsRing :
    (ring : RingBuf) (start : ℕ) (xs ys cs : List Chunk)
    → xs ++ ys ≡ cs
    → IsQueue ring cs
    → All Aligned cs
    → ring.size < 2 ^ 32
    → Starts start xs ys
    → Run start xs ring.size
    → Run 0 ys start
    → IsRing ring start xs ys
IsQueue-IsRing ring start xs ys cs e q aligned bounded starts upper lower =
    let q' = subst (IsQueue ring) (sym e) q in
    record {
      bounded = bounded;
      starts = starts;
      upper = upper;
      lower = lower;
      head_is = q'.head_is;
      tail_is = q'.tail_is;
      used_is = q'.used_is;
      links = q'.links;
      aligned = subst (All Aligned) (sym e) aligned;
    }

-- The call succeeds if what is left is a queue, and the invariant holds if it is laid out as one.
pub dealloc_lem :
    (ring : RingBuf) (o start' : ℕ) (xs' ys' : List Chunk)
    → (is_at ring.head o || is_at ring.tail o) ≡ true
    → (ring.mem o).magic_of ≡ magic
    → IsQueue (release ring o) (xs' ++ ys')
    → Disjoint (xs' ++ ys')
    → Fresh o (xs' ++ ys')
    → All Aligned (xs' ++ ys')
    → (release ring o).size < 2 ^ 32
    → Starts start' xs' ys'
    → Run start' xs' (release ring o).size
    → Run 0 ys' start'
    → (dealloc ring (o + offsetof_buf) ≡ done (forget (release ring o) o))
      × IsRing (forget (release ring o) o) start' xs' ys'
dealloc_lem ring o start' xs' ys' at_end good q d fresh aligned bounded starts upper lower = (
  dealloc_at ring o
      ∙ dealloc_rec_lem ring o at_end good
          (ends_open_lem (release ring o) (xs' ++ ys') q.head_is q.tail_is q.links)
          (unused_lem (release ring o) (xs' ++ ys') q.head_is q.tail_is q.used_is d),
  record {
    bounded = unfold forget in bounded;
    starts = starts;
    upper = unfold forget in upper;
    lower = lower;
    head_is = unfold forget in q.head_is;
    tail_is = unfold forget in q.tail_is;
    used_is = unfold forget in q.used_is;
    links = forget-Links (release ring o) o (xs' ++ ys') fresh q.links;
    aligned = aligned;
  },
)
