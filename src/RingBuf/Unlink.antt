-- ===== src/RingBuf/Unlink.antt =====
-- lcm_ringbuf_dealloc (upstream/lcm/ringbuffer.c): the chunk at an end is unlinked, and the queue stays one.
use conftron.Base.{
  ℕ, ◌+◌, ◌-◌, ◌%◌, ◌^◌, ◌<◌, ◌≡◌, refl, sym, ap, ◌∙◌, false, none, some, List, [], ◌∷◌, ◌++◌,
  arith, append_assoc, ne→==_false,
}
use conftron.RingBuf.{RingBuf, Rec, update, is_at, release, drop_head, drop_tail}
use conftron.RingBuf.Layout.{Chunk, Disjoint, total, total-append}
use conftron.RingBuf.Links.{
  first, Fresh, update_self, update-Same, Links-Same, Links-change, Apart-Fresh, Disjoint-Fresh,
  last-snoc, first-append,
}
use conftron.RingBuf.Release.{IsQueue}

-- The three ways of unlinking.
abbrev less_used : RingBuf → ℕ → ℕ
less_used ring o = (ring.used + 2 ^ 32 - (ring.mem o).len) % 2 ^ 32

release_only :
    (ring : RingBuf) (o : ℕ)
    → ring.head ≡ some o
    → (ring.mem o).next ≡ none
    → release ring o ≡ record ring { used = less_used ring o; head = none; tail = none }
unfolding release drop_head
release_only ring o h n = ground arith

release_first :
    (ring : RingBuf) (o p : ℕ)
    → ring.head ≡ some o
    → (ring.mem o).next ≡ some p
    → release ring o ≡ record ring {
      used = less_used ring o;
      head = some p;
      mem = update ring.mem p (record (ring.mem p) { prev = none });
    }
unfolding release drop_head
release_first ring o p h n = ground arith

release_last :
    (ring : RingBuf) (o p : ℕ)
    → is_at ring.head o ≡ false
    → (ring.mem o).prev ≡ some p
    → release ring o ≡ record ring {
      used = less_used ring o;
      tail = some p;
      mem = update ring.mem p (record (ring.mem p) { next = none });
    }
unfolding release drop_tail
release_last ring o p h n = ground arith

-- Unlinking the head.
pub release_head :
    (ring : RingBuf) (o l : ℕ) (cs : List Chunk)
    → IsQueue ring ((o, l) ∷ cs)
    → Disjoint ((o, l) ∷ cs)
    → total ((o, l) ∷ cs) < 2 ^ 32
    → IsQueue (release ring o) cs
release_head ring o l [] q d small =
    rw (release_only ring o q.head_is (ap (λ r. r.next) q.links.0)) (record {
      head_is = refl;
      tail_is = refl;
      used_is = omega (arith, q.used_is, ap (λ r. r.len) q.links.0);
      links = tt;
    })
release_head ring o l ((o', l') ∷ cs) q (p, a, d) small =
    rw (release_first ring o o' q.head_is (ap (λ r. r.next) q.links.0)) (record {
      head_is = refl;
      tail_is = q.tail_is;
      used_is = omega (arith, q.used_is, ap (λ r. r.len) q.links.0);
      links = (
        update_self ring.mem o' (record (ring.mem o') { prev = none })
            ∙ ap (λ r. unlink r) q.links.1.0,
        Links-Same cs ring.mem (update ring.mem o' (record (ring.mem o') { prev = none })) (some o')
            (update-Same cs ring.mem o' (record (ring.mem o') { prev = none })
              (Apart-Fresh cs o' l' d.0 d.1 d.2))
            q.links.1.1,
      );
    })
  where
    unlink : Rec → Rec
    unlink r = record r { prev = none }

first-ne :
    (gs : List Chunk) (p m o : ℕ) (rest : List Chunk)
    → Fresh o (gs ++ ((p, m) ∷ []))
    → is_at (first (gs ++ ((p, m) ∷ rest))) o ≡ false
first-ne [] p m o rest (f, _) = ne→==_false p o f
first-ne (c ∷ gs) p m o rest (f, _) = ne→==_false c.0 o f

-- Unlinking the tail.
module _ (ring : RingBuf) (gs : List Chunk) (p m o l : ℕ) where
  pub tail-Fresh :
      Disjoint (gs ++ ((p, m) ∷ (o, l) ∷ [])) → Fresh p gs × Fresh o (gs ++ ((p, m) ∷ [])) × (0 < l)
  tail-Fresh d =
      let (f, pos) =
        Disjoint-Fresh (gs ++ ((p, m) ∷ [])) o l []
          (rw (append_assoc gs ((p, m) ∷ []) ((o, l) ∷ [])) d) in
      ((Disjoint-Fresh gs p m ((o, l) ∷ []) d).0, f, pos)

  pub release_tail :
      IsQueue ring (gs ++ ((p, m) ∷ (o, l) ∷ []))
      → Disjoint (gs ++ ((p, m) ∷ (o, l) ∷ []))
      → total (gs ++ ((p, m) ∷ (o, l) ∷ [])) < 2 ^ 32
      → IsQueue (release ring o) (gs ++ ((p, m) ∷ []))
  release_tail q d small =
      let (fresh_p, fresh_o, _) = tail-Fresh d in
      let same = update-Same gs ring.mem p (record (ring.mem p) { next = none }) fresh_p in
      let (before, e, k, back) =
        Links-change gs p m m ((o, l) ∷ []) [] ring.mem
          (update ring.mem p (record (ring.mem p) { next = none })) none same q.links in
      rw
        (release_last ring o p (rw q.head_is (first-ne gs p m o ((o, l) ∷ []) fresh_o))
          (ap (λ r. r.prev) k.0))
        (record {
          head_is = q.head_is ∙ first-append gs p m m ((o, l) ∷ []) [];
          tail_is = sym (last-snoc gs p m);
          used_is = omega (
            arith,
            q.used_is,
            ap (λ r. r.len) k.0,
            total-append gs ((p, m) ∷ (o, l) ∷ []),
            total-append gs ((p, m) ∷ []),
          );
          links =
              back
                (update_self ring.mem p (record (ring.mem p) { next = none })
                  ∙ ap (λ r. unlink r) e)
                tt;
        })
    where
      unlink : Rec → Rec
      unlink r = record r { next = none }
