-- ===== src/RingBuf/Shrink.antt =====
-- lcm_ringbuf_dealloc and lcm_ringbuf_shrink_last (upstream/lcm/ringbuffer.c) at the tail of the queue.
use conftron.Base.{
  ℕ, ◌+◌, ◌-◌, ◌%◌, ◌^◌, ◌<◌, ◌≤◌, ◌≡◌, refl, sym, ap, ◌∙◌, inl, inr, true, ◌||◌, Option, none,
  List, [], ◌∷◌, ◌++◌, All, arith, append_assoc, append-nil, subst, eq→==, le→leb, lt→leb_false,
  Bool, if◌then◌else◌, leb, dec_lt, ◌⊎◌,
}
use conftron.RingBuf.{
  RingBuf, Rec, done, aborted, magic, is_at, offsetof_buf, dealloc, padded, shrink, shrink_last,
  update,
}
use conftron.RingBuf.Layout.{
  Chunk, Run, Disjoint, Run-weaken, Run-front, total, total-append, Run-snoc, All-append, All-front,
  Disjoint-front,
}
use conftron.RingBuf.Links.{
  live, last-snoc, snoc_view, Links-change, Same-refl, update_self, update-Same, Disjoint-Fresh,
  first-append,
}
use conftron.RingBuf.Inv.{IsRing, Starts, IsRing-Disjoint, Aligned, padded_bounds}
use conftron.RingBuf.Release.{IsQueue, IsQueue-IsRing}
use conftron.RingBuf.Unlink.{release_tail, tail-Fresh}
use conftron.RingBuf.Dealloc.{Released, Laid, released_lem, snoc-injective}

or_true : (a : Bool) {b : Bool} → b ≡ true → (a || b) ≡ true
or_true a h = ground arith

-- The last chunk of the two runs may go, unless it is the only one, and it may become shorter.
abbrev Reshaped : ℕ → List Chunk → ℕ → ℕ → Type 0
Reshaped size fs t n = Laid size (fs ++ ((t, n) ∷ []))

upper_only :
    (size start t l n : ℕ) (fs : List Chunk)
    → Starts start (fs ++ ((t, l) ∷ [])) []
    → Run start (fs ++ ((t, l) ∷ [])) size
    → 0 < n
    → n ≤ l
    → Laid size fs × Reshaped size fs t n
upper_only size start t l n fs starts upper pos le =
    let (front, ends, _, fits) = Run-front fs start size t l upper in
    (
      without fs starts (Run-weaken fs start t start size (omega arith) (omega arith) front),
      (
        start,
        fs ++ ((t, n) ∷ []),
        [],
        append-nil _,
        same_start fs starts,
        Run-snoc fs start t t n size front ends pos (omega arith),
        omega arith,
      ),
    )
  where
    without :
        (gs : List Chunk) → Starts start (gs ++ ((t, l) ∷ [])) [] → Run start gs size → Laid size gs
    without [] s r = (0, [], [], refl, refl, omega arith, omega arith)
    without (g ∷ gs) s r = (start, g ∷ gs, [], append-nil _, s, r, omega arith)

    same_start :
        (gs : List Chunk)
        → Starts start (gs ++ ((t, l) ∷ [])) []
        → Starts start (gs ++ ((t, n) ∷ [])) []
    same_start [] s = s
    same_start (g ∷ gs) s = s

Laid-tail :
    (size start t l n : ℕ) (xs ys fs : List Chunk)
    → Starts start xs ys
    → Run start xs size
    → Run 0 ys start
    → xs ++ ys ≡ fs ++ ((t, l) ∷ [])
    → 0 < n
    → n ≤ l
    → Laid size fs × Reshaped size fs t n
Laid-tail size start t l n xs [] fs starts upper lower e pos le =
    upper_only size start t l n fs (subst (λ cs. Starts start cs []) e' starts)
      (subst (λ cs. Run start cs size) e' upper) pos le
  where
    e' : xs ≡ fs ++ ((t, l) ∷ [])
    e' = sym (append-nil xs) ∙ e
Laid-tail size start t l n [] (y ∷ ys) fs starts upper lower e pos le = absurd (cc starts)
Laid-tail size start t l n (x ∷ xs) (y ∷ ys) fs starts upper lower e pos le =
    let (ws, t', l', ey) = snoc_view y ys in
    let (ef, ec) =
      snoc-injective fs ((x ∷ xs) ++ ws) (t, l) (t', l')
        (sym e ∙ ap (λ cs. (x ∷ xs) ++ cs) ey ∙ sym (append_assoc (x ∷ xs) ws ((t', l') ∷ []))) in
    let et : t' ≡ t = ap (λ (c : Chunk). c.0) (sym ec) in
    let el : l' ≡ l = ap (λ (c : Chunk). c.1) (sym ec) in
    let (front, ends, _, fits) =
      Run-front ws 0 start t' l' (subst (λ cs. Run 0 cs start) ey lower) in
    (
      (
        start,
        x ∷ xs,
        ws,
        sym ef,
        starts,
        upper,
        Run-weaken ws 0 t' 0 start (omega arith) (omega arith) front,
      ),
      (
        start,
        x ∷ xs,
        ws ++ ((t, n) ∷ []),
        sym (append_assoc (x ∷ xs) ws ((t, n) ∷ [])) ∙ ap (λ cs. cs ++ ((t, n) ∷ [])) (sym ef),
        starts,
        upper,
        Run-snoc ws 0 t' t n start front (omega arith) pos (omega arith),
      ),
    )

module _ (ring : RingBuf) (start o l : ℕ) (xs ys fs : List Chunk) (v : IsRing ring start xs ys)
    (e : xs ++ ys ≡ fs ++ ((o, l) ∷ [])) where
  tail_facts :
      Disjoint (fs ++ ((o, l) ∷ []))
      × (total (fs ++ ((o, l) ∷ [])) ≤ ring.size)
      × All Aligned (fs ++ ((o, l) ∷ []))
      × IsQueue ring (fs ++ ((o, l) ∷ []))
  tail_facts =
      let (d, small) = IsRing-Disjoint ring start xs ys v in
      (
        subst Disjoint e d,
        subst (λ cs. total cs ≤ ring.size) e small,
        subst (All Aligned) e v.aligned,
        subst (IsQueue ring) e (record {
          head_is = v.head_is;
          tail_is = v.tail_is;
          used_is = v.used_is;
          links = v.links;
        }),
      )

  tail_offset : (gs : List Chunk) → All Aligned (gs ++ ((o, l) ∷ [])) → o % 32 ≡ 0
  tail_offset [] a = a.0.0
  tail_offset (g ∷ gs) a = tail_offset gs a.1

  tail_rec : (p : Option ℕ) × (ring.mem o ≡ live p none l)
  tail_rec =
      let (p, k, _, _) =
        Links-change fs o l l [] [] ring.mem ring.mem none (Same-refl fs ring.mem)
          tail_facts.3.links in
      (p, k)

  tail_at : is_at ring.tail o ≡ true
  tail_at = rw (tail_facts.3.tail_is, last-snoc fs o l, eq→== o o refl)

  -- The queue after the tail's length has become `n`.
  shrink-IsQueue : (n : ℕ) → 0 < n → n ≤ l → IsQueue (shrink ring o n) (fs ++ ((o, n) ∷ []))
  unfolding shrink
  shrink-IsQueue n pos le =
      let (fresh, _) = Disjoint-Fresh fs o l [] tail_facts.0 in
      let new = record (ring.mem o) { len = n } in
      let (p, k, _, back) =
        Links-change fs o l n [] [] ring.mem (update ring.mem o new) none
          (update-Same fs ring.mem o new fresh) tail_facts.3.links in
      record {
        head_is = tail_facts.3.head_is ∙ first-append fs o l n [] [];
        tail_is = tail_facts.3.tail_is ∙ last-snoc fs o l ∙ sym (last-snoc fs o n);
        used_is = omega (
          arith,
          tail_facts.3.used_is,
          tail_facts.1,
          v.bounded,
          ap (λ r. r.len) k,
          total-append fs ((o, l) ∷ []),
          total-append fs ((o, n) ∷ []),
        );
        links = back (update_self ring.mem o new ∙ ap (λ r. resize r n) k) tt;
      }
    where
      resize : Rec → ℕ → Rec
      resize r k = record r { len = k }

  shrink-IsRing :
      (n : ℕ) → 0 < n → n ≤ l → n % 32 ≡ 0 → Released (fs ++ ((o, n) ∷ [])) (done (shrink ring o n))
  unfolding shrink
  shrink-IsRing n pos le al =
      let (start', xs', ys', e', starts, upper, lower) =
        (Laid-tail ring.size start o l n xs ys fs v.starts v.upper v.lower e pos le).1 in
      (
        shrink ring o n,
        start',
        xs',
        ys',
        refl,
        e',
        IsQueue-IsRing (shrink ring o n) start' xs' ys' (fs ++ ((o, n) ∷ [])) e'
            (shrink-IsQueue n pos le)
            (All-append Aligned fs ((o, n) ∷ []) (All-front Aligned fs (o, l) tail_facts.2)
              ((tail_offset fs tail_facts.2, al), tt))
            v.bounded starts upper lower,
      )

-- Giving back the newest chunk of a ring with the invariant and at least two chunks succeeds; the
-- queue loses that chunk and nothing else, and the invariant holds again.
pub dealloc_tail :
    (ring : RingBuf) (start : ℕ) (xs ys gs : List Chunk) (p m o l : ℕ)
    → IsRing ring start xs ys
    → xs ++ ys ≡ gs ++ ((p, m) ∷ (o, l) ∷ [])
    → Released (gs ++ ((p, m) ∷ [])) (dealloc ring (o + offsetof_buf))
dealloc_tail ring start xs ys gs p m o l v e =
    let whole = sym (append_assoc gs ((p, m) ∷ []) ((o, l) ∷ [])) in
    let (d, small, aligned, q) =
      tail_facts ring start o l xs ys (gs ++ ((p, m) ∷ [])) v (e ∙ whole) in
    let (_, fresh, pos) = tail-Fresh ring gs p m o l (subst Disjoint (sym whole) d) in
    let fs = gs ++ ((p, m) ∷ []) in
    released_lem ring o fs
      (or_true (is_at ring.head o) (tail_at ring start o l xs ys fs v (e ∙ whole)))
      (ap (λ r. r.magic_of) (tail_rec ring start o l xs ys fs v (e ∙ whole)).1)
      (release_tail ring gs p m o l (subst (IsQueue ring) (sym whole) q)
        (subst Disjoint (sym whole) d)
        (subst (λ cs. total cs < 2 ^ 32) (sym whole) (omega (arith, v.bounded))))
      (Disjoint-front fs (o, l) d) fresh (All-front Aligned fs (o, l) aligned) v.bounded
      (Laid-tail ring.size start o l l xs ys fs v.starts v.upper v.lower (e ∙ whole) pos
        (omega arith)).0

-- The assertions of lcm_ringbuf_shrink_last, one by one.
shrink_last_at :
    (ring : RingBuf) (o newlen : ℕ)
    → is_at ring.tail o ≡ true
    → (ring.mem o).magic_of ≡ magic
    → shrink_last ring (o + offsetof_buf) newlen ≡ (
        if leb (padded newlen) (ring.mem o).len
        then done (shrink ring o (padded newlen))
        else aborted)
unfolding shrink_last
shrink_last_at ring o newlen t g = ground (arith, plus_minus)
  where
    plus_minus : o + offsetof_buf - offsetof_buf ≡ o
    plus_minus = omega arith

-- Shrinking the newest chunk of a ring with the invariant to `newlen` bytes, no more than it has,
-- changes its length to the padded one and nothing else, and the invariant holds again. So the bytes
-- freed behind it can be allocated. If the padded length is larger than the chunk, an assertion fails.
pub shrink_last_lem :
    (ring : RingBuf) (start : ℕ) (xs ys fs : List Chunk) (o l newlen : ℕ)
    → IsRing ring start xs ys
    → xs ++ ys ≡ fs ++ ((o, l) ∷ [])
    → newlen + 63 < 2 ^ 32
    → ((padded newlen ≤ l)
        × Released (fs ++ ((o, padded newlen) ∷ [])) (shrink_last ring (o + offsetof_buf) newlen))
      ⊎ ((l < padded newlen) × (shrink_last ring (o + offsetof_buf) newlen ≡ aborted))
shrink_last_lem ring start xs ys fs o l newlen v e small =
    let (d, _, aligned, q) = tail_facts ring start o l xs ys fs v e in
    let (p, k) = tail_rec ring start o l xs ys fs v e in
    let n = padded newlen in
    let (low, _, al) = padded_bounds newlen small in
    rw
      (
        shrink_last_at ring o newlen (tail_at ring start o l xs ys fs v e) (ap (λ r. r.magic_of) k),
        ap (λ r. r.len) k,
      )
      (elim (dec_lt l n) [
        | yes longer ↦ inr (longer, rw (lt→leb_false n l longer))
        | no shorter ↦ inl (
          omega arith,
          rw (le→leb n l (omega arith))
              (shrink-IsRing ring start o l xs ys fs v e n (omega arith) (omega arith) al),
        )
      ])
