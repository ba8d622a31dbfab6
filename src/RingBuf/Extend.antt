-- ===== src/RingBuf/Extend.antt =====
-- lcm_ringbuf_alloc (upstream/lcm/ringbuffer.c) on a ring that holds chunks: behind the tail, or at the
-- start of the area.
use conftron.Base.{
  ℕ, ◌+◌, ◌%◌, ◌^◌, ◌<◌, ◌≤◌, ◌≡◌, refl, sym, ap, ◌∙◌, ◌⊎◌, inl, inr, Option, none, some, List, [],
  ◌∷◌, ◌++◌, All, arith, append_assoc, append-nil, subst,
}
use conftron.RingBuf.{
  RingBuf, done, alloc, alloc_first, alloc_next, append_rec, candidate, padded, Rec, offsetof_buf,
}
use conftron.RingBuf.Layout.{
  Chunk, Run, Apart, Run-snoc, Run-front, Run-Apart, end_of, end_of-snoc, end_of-le, All-append,
}
use conftron.RingBuf.Links.{last, Links, last-snoc, snoc_view}
use conftron.RingBuf.Inv.{IsRing, padded_bounds, padded_wraps, Aligned}
use conftron.RingBuf.Alloc.{append_rec-IsRing, alloc_first_lem, Granted, Refused}

tail_len :
    (fs : List Chunk) (t l : ℕ) (mem : ℕ → Rec) (prev : Option ℕ)
    → Links mem prev (fs ++ ((t, l) ∷ []))
    → (mem t).len ≡ l
tail_len [] t l mem prev (k, _) = ap (λ r. r.len) k
tail_len ((o, m) ∷ fs) t l mem prev (k, ks) = tail_len fs t l mem (some o) ks

tail-Aligned : (fs : List Chunk) (t l : ℕ) → All Aligned (fs ++ ((t, l) ∷ [])) → Aligned (t, l)
tail-Aligned [] t l (a, _) = a
tail-Aligned (c ∷ fs) t l (_, as') = tail-Aligned fs t l as'

module _ (ring : RingBuf) (start t l n : ℕ) (len : (ring.mem t).len ≡ l) where
  candidate_lower_lem :
      t < start
      → ((t + l + n ≤ start) × (candidate ring start t n ≡ some (t + l)))
        ⊎ ((start < t + l + n) × (candidate ring start t n ≡ none))
  unfolding candidate
  candidate_lower_lem below = ground arith

  candidate_upper_lem :
      start ≤ t
      → ((t + l + n ≤ ring.size) × (candidate ring start t n ≡ some (t + l)))
        ⊎ ((ring.size < t + l + n) × (n < start) × (candidate ring start t n ≡ some 0))
        ⊎ ((ring.size < t + l + n) × (start ≤ n) × (candidate ring start t n ≡ none))
  unfolding candidate
  candidate_upper_lem above = ground arith

-- Where the queue ends at its tail, `t`, with `l` bytes.
module _ (ring : RingBuf) (start : ℕ) (x : Chunk) (xs : List Chunk) (n : ℕ) (some_bytes : 0 < n)
    (aligned : n % 32 ≡ 0) where
  extend_upper :
      (fs : List Chunk) (t l : ℕ)
      → IsRing ring start (x ∷ xs) []
      → x ∷ xs ≡ fs ++ ((t, l) ∷ [])
      → Refused ring start (x ∷ xs) [] n (done (alloc_next ring start t n))
        ⊎ Granted ((x ∷ xs) ++ []) n (done (alloc_next ring start t n))
  unfolding alloc_next
  extend_upper fs t l v e = elim (candidate_upper_lem ring start t l n len above) [
    | inl (fits, c) ↦ inr (
      t + l,
      append_rec ring t (t + l) n,
      start,
      (x ∷ xs) ++ ((t + l, n) ∷ []),
      [],
      rw (c, alloc_next),
      append-nil _ ∙ ap (λ cs. cs ++ ((t + l, n) ∷ [])) (sym (append-nil (x ∷ xs))),
      append_rec-IsRing ring start (x ∷ xs) [] fs ((x ∷ xs) ++ ((t + l, n) ∷ [])) [] t l (t + l) n v
          whole (append-nil _ ∙ ap (λ cs. cs ++ ((t + l, n) ∷ [])) (sym (append-nil (x ∷ xs))))
          (subst (λ cs. All (Apart (t + l) n) cs) (sym whole) behind) some_bytes
          (omega (arith, tail-Aligned fs t l (subst (All Aligned) whole v.aligned))) v.starts refl
          (Run-snoc (x ∷ xs) start ring.size (t + l) n ring.size v.upper (omega (arith, ends))
            some_bytes fits)
          v.lower,
    )
    | inr (inl (full, room, c)) ↦ inr (
      0,
      append_rec ring t 0 n,
      start,
      x ∷ xs,
      (0, n) ∷ [],
      rw (c, alloc_next),
      ap (λ cs. cs ++ ((0, n) ∷ [])) (sym (append-nil (x ∷ xs))),
      append_rec-IsRing ring start (x ∷ xs) [] fs (x ∷ xs) ((0, n) ∷ []) t l 0 n v whole
          (ap (λ cs. cs ++ ((0, n) ∷ [])) (sym (append-nil (x ∷ xs))))
          (subst (λ cs. All (Apart 0 n) cs) (sym (append-nil (x ∷ xs)))
            (Run-Apart (x ∷ xs) start ring.size 0 n v.upper (inl (omega arith))))
          some_bytes (omega arith) v.starts refl v.upper (omega arith),
    )
    | inr (inr (full, no_room, c)) ↦ inl ((omega (arith, ends), no_room), rw (c, alloc_next))
  ]
    where
      whole : (x ∷ xs) ++ [] ≡ fs ++ ((t, l) ∷ [])
      whole = append-nil (x ∷ xs) ∙ e

      len : (ring.mem t).len ≡ l
      len = tail_len fs t l ring.mem none (subst (λ cs. Links ring.mem none cs) whole v.links)

      ends : end_of start (x ∷ xs) ≡ t + l
      ends = ap (end_of start) e ∙ end_of-snoc fs start t l

      front : Run start fs t × (end_of start fs ≤ t) × (0 < l) × (t + l ≤ ring.size)
      front = Run-front fs start ring.size t l (subst (λ cs. Run start cs ring.size) e v.upper)

      above : start ≤ t
      above = omega (arith, end_of-le fs start t front.0)

      behind : All (Apart (t + l) n) (fs ++ ((t, l) ∷ []))
      behind =
          Run-Apart (fs ++ ((t, l) ∷ [])) start (t + l) (t + l) n
            (Run-snoc fs start t t l (t + l) front.0 front.1 front.2 (omega arith))
            (inr (omega arith))

  -- The queue ends below its head.
  extend_lower :
      (y : Chunk) (ys gs : List Chunk) (t l : ℕ)
      → IsRing ring start (x ∷ xs) (y ∷ ys)
      → y ∷ ys ≡ gs ++ ((t, l) ∷ [])
      → Refused ring start (x ∷ xs) (y ∷ ys) n (done (alloc_next ring start t n))
        ⊎ Granted ((x ∷ xs) ++ (y ∷ ys)) n (done (alloc_next ring start t n))
  unfolding alloc_next
  extend_lower y ys gs t l v e = elim (candidate_lower_lem ring start t l n len below) [
    | inl (fits, c) ↦ inr (
      t + l,
      append_rec ring t (t + l) n,
      start,
      x ∷ xs,
      (y ∷ ys) ++ ((t + l, n) ∷ []),
      rw (c, alloc_next),
      sym (append_assoc (x ∷ xs) (y ∷ ys) ((t + l, n) ∷ [])),
      append_rec-IsRing ring start (x ∷ xs) (y ∷ ys) ((x ∷ xs) ++ gs) (x ∷ xs)
          ((y ∷ ys) ++ ((t + l, n) ∷ [])) t l (t + l) n v whole
          (sym (append_assoc (x ∷ xs) (y ∷ ys) ((t + l, n) ∷ [])))
          (All-append (Apart (t + l) n) (x ∷ xs) (y ∷ ys)
            (Run-Apart (x ∷ xs) start ring.size (t + l) n v.upper (inl fits))
            (subst (All (Apart (t + l) n)) (sym e) behind))
          some_bytes
          (omega (arith, tail-Aligned ((x ∷ xs) ++ gs) t l (subst (All Aligned) whole v.aligned)))
          v.starts refl v.upper
          (Run-snoc (y ∷ ys) 0 start (t + l) n start v.lower (omega (arith, ends)) some_bytes fits),
    )
    | inr (full, c) ↦ inl (omega (arith, ends), rw (c, alloc_next))
  ]
    where
      whole : (x ∷ xs) ++ (y ∷ ys) ≡ ((x ∷ xs) ++ gs) ++ ((t, l) ∷ [])
      whole = ap (λ cs. (x ∷ xs) ++ cs) e ∙ sym (append_assoc (x ∷ xs) gs ((t, l) ∷ []))

      len : (ring.mem t).len ≡ l
      len =
          tail_len ((x ∷ xs) ++ gs) t l ring.mem none
            (subst (λ cs. Links ring.mem none cs) whole v.links)

      ends : end_of 0 (y ∷ ys) ≡ t + l
      ends = ap (end_of 0) e ∙ end_of-snoc gs 0 t l

      front : Run 0 gs t × (end_of 0 gs ≤ t) × (0 < l) × (t + l ≤ start)
      front = Run-front gs 0 start t l (subst (λ cs. Run 0 cs start) e v.lower)

      below : t < start
      below = omega (arith, front)

      behind : All (Apart (t + l) n) (gs ++ ((t, l) ∷ []))
      behind =
          Run-Apart (gs ++ ((t, l) ∷ [])) 0 (t + l) (t + l) n
            (Run-snoc gs 0 t t l (t + l) front.0 front.1 front.2 (omega arith)) (inr (omega arith))

alloc_of_ends :
    (ring : RingBuf) (h t len : ℕ)
    → ring.head ≡ some h
    → ring.tail ≡ some t
    → alloc ring len ≡ done (alloc_next ring h t (padded len))
unfolding alloc
alloc_of_ends ring h t len eh et = ground arith

alloc_of_nothing :
    (ring : RingBuf) (len : ℕ)
    → ring.head ≡ none
    → ring.tail ≡ none
    → alloc ring len ≡ done (alloc_first ring (padded len))
unfolding alloc
alloc_of_nothing ring len eh et = ground arith

pub alloc_lem :
    (ring : RingBuf) (start : ℕ) (xs ys : List Chunk) (len : ℕ)
    → IsRing ring start xs ys
    → len + 63 < 2 ^ 32
    → Refused ring start xs ys (padded len) (alloc ring len)
      ⊎ Granted (xs ++ ys) (padded len) (alloc ring len)
alloc_lem ring start [] [] len v small = rw (alloc_of_nothing ring len v.head_is v.tail_is) (
    alloc_first_lem ring (padded len) v.bounded v.used_is (omega (arith, padded_bounds len small))
      (padded_bounds len small).2)
alloc_lem ring start [] (y ∷ ys) len v small = cc (v.starts)
alloc_lem ring start ((o, l) ∷ xs) [] len v small =
    let (fs, t, m, e) = snoc_view (o, l) xs in
    rw
      (alloc_of_ends ring start t len (v.head_is ∙ ap some v.starts)
        (v.tail_is ∙ ap last (append-nil ((o, l) ∷ xs) ∙ e) ∙ last-snoc fs t m))
      (extend_upper ring start (o, l) xs (padded len) (omega (arith, padded_bounds len small))
        (padded_bounds len small).2 fs t m v e)
alloc_lem ring start ((o, l) ∷ xs) (y ∷ ys) len v small =
    let (gs, t, m, e) = snoc_view y ys in
    rw
      (alloc_of_ends ring start t len (v.head_is ∙ ap some v.starts) (
        v.tail_is
        ∙ ap last
            (ap (λ cs. ((o, l) ∷ xs) ++ cs) e ∙ sym (append_assoc ((o, l) ∷ xs) gs ((t, m) ∷ [])))
        ∙ last-snoc (((o, l) ∷ xs) ++ gs) t m))
      (extend_lower ring start (o, l) xs (padded len) (omega (arith, padded_bounds len small))
        (padded_bounds len small).2 y ys gs t m v e)

-- Every length of at least 2^32 - 63 bytes is granted at once by any ring of one header or more that
-- holds no chunk, since its padding wraps round: the chunk has fewer bytes than were asked for.
pub alloc_wraps :
    (ring : RingBuf) (len : ℕ)
    → ring.head ≡ none
    → ring.tail ≡ none
    → 32 ≤ ring.size
    → 2 ^ 32 ≤ len + 63
    → len < 2 ^ 32
    → (ring' : RingBuf) × (alloc ring len ≡ done (some offsetof_buf, ring'))
      × ((ring'.mem 0).len < len)
unfolding alloc_first
alloc_wraps ring len no_head no_tail h over fits = (
  (alloc_first ring (padded len)).1,
  alloc_of_nothing ring len no_head no_tail ∙ ground (arith, padded_wraps len over fits),
  ground (arith, padded_wraps len over fits),
)
