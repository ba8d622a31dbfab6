-- ===== src/RingBuf/Inv.antt =====
-- The invariant of a ring buffer (upstream/lcm/ringbuffer.c) over the queue of its live chunks, oldest
-- first: `xs` are those from the head up to the end of the area or to the tail, `ys` those that were
-- placed at the start of the area after the end was reached.
use conftron.Base.{ℕ, ◌+◌, ◌%◌, ◌^◌, ◌<◌, ◌≤◌, ◌≡◌, refl, none, List, [], ◌∷◌, ◌++◌, All, arith}
use conftron.RingBuf.{RingBuf, new, padded}
use conftron.RingBuf.Layout.{Chunk, Run, Disjoint, Run-two-Disjoint, total, total-append, total-le}
use conftron.RingBuf.Links.{first, last, Links}

-- `start` is where the chunks `xs` begin; there are `ys` only behind some `xs`.
abbrev pub Starts : ℕ → List Chunk → List Chunk → Type 0
Starts start [] ys = ys ≡ []
Starts start ((o, l) ∷ xs) ys = o ≡ start

-- Headers are written at multiples of the alignment only.
abbrev pub Aligned : Chunk → Type 0
Aligned c = (c.0 % 32 ≡ 0) × (c.1 % 32 ≡ 0)

pub record IsRing (ring : RingBuf) (start : ℕ) (xs ys : List Chunk) : Type 0 where
  pub bounded : ring.size < 2 ^ 32
  pub starts : Starts start xs ys
  pub upper : Run start xs ring.size
  pub lower : Run 0 ys start
  pub head_is : ring.head ≡ first (xs ++ ys)
  pub tail_is : ring.tail ≡ last (xs ++ ys)
  pub used_is : ring.used ≡ total (xs ++ ys)
  pub links : Links ring.mem none (xs ++ ys)
  pub aligned : All Aligned (xs ++ ys)

-- A new ring has no chunks.
pub new-IsRing : (size : ℕ) → size < 2 ^ 32 → IsRing (new size) 0 [] []
unfolding new
new-IsRing size h = record {
  bounded = h;
  starts = refl;
  upper = omega arith;
  lower = omega arith;
  head_is = refl;
  tail_is = refl;
  used_is = refl;
  links = tt;
  aligned = tt;
}

-- The live chunks of a ring lie in its area, share no byte, and together are no larger than it.
pub IsRing-Disjoint :
    (ring : RingBuf) (start : ℕ) (xs ys : List Chunk)
    → IsRing ring start xs ys
    → Disjoint (xs ++ ys) × (total (xs ++ ys) ≤ ring.size)
IsRing-Disjoint ring start xs ys v = (
  Run-two-Disjoint xs ys start ring.size 0 v.upper v.lower,
  omega
      (arith, total-append xs ys, total-le xs start ring.size v.upper, total-le ys 0 start v.lower),
)

-- The length that lcm_ringbuf_alloc and lcm_ringbuf_shrink_last give a chunk for `len` bytes.
pub padded_bounds :
    (len : ℕ)
    → len + 63 < 2 ^ 32
    → (len + 32 ≤ padded len) × (padded len ≤ len + 63) × (padded len % 32 ≡ 0)
unfolding padded
padded_bounds len h = omega arith

-- For a length whose padding passes 2^32 the padded length is at most one header.
pub padded_wraps : (len : ℕ) → 2 ^ 32 ≤ len + 63 → len < 2 ^ 32 → padded len ≤ 32
unfolding padded
padded_wraps len h k = omega arith
