-- ===== src/RingBuf/Runs.antt =====
-- A run of the ring buffer, and the theorems at its states.
use conftron.Base.{ℕ, ◌-◌, ◌^◌, ◌<◌, ◌≤◌, ◌≡◌, refl, ◌⊎◌, Option, none, some, [], ◌∷◌, arith}
use conftron.RingBuf.{
  RingBuf, Result, done, aborted, ◌>>=◌, update, offsetof_buf, new, alloc, alloc_first, alloc_next,
  append_rec, candidate, padded, dealloc, dealloc_rec, release, forget, drop_head, drop_tail,
  shrink, ends_are_open, empty_if_unused, shrink_last,
}
use conftron.RingBuf.Layout.{Disjoint, total}
use conftron.RingBuf.Links.{live}
use conftron.RingBuf.Inv.{IsRing, new-IsRing}
use conftron.RingBuf.Extend.{alloc_wraps}
use conftron.RingBuf.History.{History, made, allocates, frees, shrinks, History-Disjoint}
use conftron.RingBuf.Dealloc.{Released, dealloc_head}
use conftron.RingBuf.Shrink.{dealloc_tail, shrink_last_lem}

abbrev observe : Result (Option ℕ × RingBuf) → Result (Option ℕ × ℕ × Option ℕ × Option ℕ)
observe r = r >>= λ (p, ring). done (p, ring.used, ring.head, ring.tail)

-- Two chunks of 96 bytes fill an area of 200; the first goes, and 50 bytes fit before the second, the
-- place wrapping round; then nothing more fits.
wrap_run :
    observe (
      alloc (new 200) 40 >>= λ (_, r1).
      alloc r1 40 >>= λ (_, r2). dealloc r2 28 >>= λ r3. alloc r3 20)
    ≡ done (some 28, 160, some 96, some 0)
unfolding alloc alloc_first alloc_next append_rec candidate padded new dealloc dealloc_rec release
    forget drop_head ends_are_open empty_if_unused
wrap_run = refl

full_run :
    observe (alloc (new 200) 40 >>= λ (_, r1). alloc r1 40 >>= λ (_, r2). alloc r2 20)
    ≡ done (none, 192, some 0, some 96)
unfolding alloc alloc_first alloc_next append_rec candidate padded new
full_run = refl

-- Two chunks, at 0 and at 64, in an area of 200 bytes.
abbrev two : RingBuf
two = record {
  size = 200;
  used = 160;
  head = some 0;
  tail = some 64;
  mem =
      update (update (λ o. live none none 0) 0 (live none (some 64) 64)) 64 (live (some 0) none 96);
}

two-IsRing : IsRing two 0 ((0, 64) ∷ (64, 96) ∷ []) []
two-IsRing = record {
  bounded = omega arith;
  starts = refl;
  upper = omega arith;
  lower = omega arith;
  head_is = refl;
  tail_is = refl;
  used_is = refl;
  links = (refl, (refl, tt));
  aligned = omega arith;
}

new-IsRing_example : IsRing (new 200) 0 [] []
new-IsRing_example = new-IsRing 200 (omega arith)

-- Three chunks are made, the oldest is given back, and the newest shrinks.
abbrev after : Result (Option ℕ × RingBuf) → RingBuf
after aborted = new 0
after (done (o, ring)) = ring

abbrev kept : Result RingBuf → RingBuf
kept aborted = new 0
kept (done ring) = ring

abbrev one_made : RingBuf
one_made = after (alloc (new 400) 40)

abbrev two_made : RingBuf
two_made = after (alloc one_made 40)

abbrev three_made : RingBuf
three_made = after (alloc two_made 40)

abbrev oldest_gone : RingBuf
oldest_gone = kept (dealloc three_made 28)

abbrev newest_shrunk : RingBuf
newest_shrunk = kept (shrink_last oldest_gone 220 3)

newest_shrunk-History : History newest_shrunk ((96, 96) ∷ (192, 64) ∷ [])
unfolding alloc alloc_first alloc_next append_rec candidate padded new dealloc dealloc_rec release
    forget drop_head drop_tail ends_are_open empty_if_unused shrink_last shrink
newest_shrunk-History =
    shrinks oldest_gone ((96, 96) ∷ []) 192 96 3 newest_shrunk
      (frees three_made [] 0 96 ((96, 96) ∷ (192, 96) ∷ []) oldest_gone
        (allocates two_made ((0, 96) ∷ (96, 96) ∷ []) 40 192 three_made
          (allocates one_made ((0, 96) ∷ []) 40 96 two_made
            (allocates (new 400) [] 40 0 one_made (made 400 (omega arith)) (omega arith) refl)
            (omega arith) refl)
          (omega arith) refl)
        refl)
      (omega arith) refl

History-Disjoint_example :
    Disjoint ((96, 96) ∷ (192, 64) ∷ [])
    × (total ((96, 96) ∷ (192, 64) ∷ []) ≤ newest_shrunk.size)
    × (newest_shrunk.used ≡ total ((96, 96) ∷ (192, 64) ∷ []))
History-Disjoint_example =
    History-Disjoint newest_shrunk ((96, 96) ∷ (192, 64) ∷ []) newest_shrunk-History

alloc_wraps_example :
    (ring' : RingBuf) × (alloc (new 200) (2 ^ 32 - 1) ≡ done (some offsetof_buf, ring'))
    × ((ring'.mem 0).len < 2 ^ 32 - 1)
unfolding new
alloc_wraps_example =
    alloc_wraps (new 200) (2 ^ 32 - 1) refl refl (omega arith) (omega arith) (omega arith)

dealloc_head_example : Released ((64, 96) ∷ []) (dealloc two 28)
dealloc_head_example = dealloc_head two 0 0 64 ((64, 96) ∷ []) [] two-IsRing

dealloc_tail_example : Released ((0, 64) ∷ []) (dealloc two 92)
dealloc_tail_example = dealloc_tail two 0 ((0, 64) ∷ (64, 96) ∷ []) [] [] 0 64 64 96 two-IsRing refl

shrink_last_lem_example :
    ((padded 10 ≤ 96) × Released ((0, 64) ∷ (64, padded 10) ∷ []) (shrink_last two 92 10))
    ⊎ ((96 < padded 10) × (shrink_last two 92 10 ≡ aborted))
shrink_last_lem_example =
    shrink_last_lem two 0 ((0, 64) ∷ (64, 96) ∷ []) [] ((0, 64) ∷ []) 64 96 10 two-IsRing refl
      (omega arith)
