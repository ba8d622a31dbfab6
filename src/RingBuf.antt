-- ===== src/RingBuf.antt =====
-- upstream/lcm/ringbuffer.c: the allocator that holds received packets. Chunks are taken from a fixed
-- area in the order of a queue and given back at either end. Pointers into the area are offsets from
-- `data`; NULL is `none`. The headers of the chunks are a map from offsets: every header starts at a
-- multiple of 32 and takes 28 bytes, so two of them never overlap. EXTRA_RETENTIVE is 0, and so
-- `ringbuf_self_test` does nothing.
pub mod Layout
pub mod Links
pub mod Inv
pub mod Alloc
pub mod Extend
pub mod Release
pub mod Unlink
pub mod Dealloc
pub mod Shrink
pub mod History
mod Runs
use conftron.Base.{
  ℕ, ◌+◌, ◌-◌, ◌*◌, ◌/◌, ◌%◌, ◌^◌, Bool, ◌&&◌, ◌||◌, Option, none, some, if◌then◌else◌, ltb, leb,
  ◌==◌,
}

-- sizeof (lcm_ringbuf_rec_t) and offsetof (lcm_ringbuf_rec_t, buf) with 8-byte pointers.
abbrev pub sizeof_rec : ℕ
sizeof_rec = 32

abbrev pub offsetof_buf : ℕ
offsetof_buf = 28

abbrev pub alignment : ℕ
alignment = 32

abbrev pub magic : ℕ
magic = 0x067f8687

-- struct _lcm_ringbuf_rec
pub record Rec : Type 0 where
  pub magic_of : ℕ
  pub prev : Option ℕ
  pub next : Option ℕ
  pub len : ℕ

-- struct _lcm_ringbuf
pub record RingBuf : Type 0 where
  pub size : ℕ
  pub used : ℕ
  pub head : Option ℕ
  pub tail : Option ℕ
  pub mem : ℕ → Rec

-- What a call does: it returns, or an assertion fails (or NULL is followed) and the program ends.
pub data Result {ℓ} (A : Type ℓ) : Type ℓ where
  done : A → Result A
  aborted : Result A

infixl 5 ◌>>=◌
abbrev pub ◌>>=◌ {ℓ κ} : {A : Type ℓ} {B : Type κ} → Result A → (A → Result B) → Result B
done a >>= f = f a
aborted >>= f = aborted

abbrev pub update : (ℕ → Rec) → ℕ → Rec → ℕ → Rec
update mem o r k = if k == o then r else mem k

abbrev pub is_at : Option ℕ → ℕ → Bool
is_at none o = Bool.false
is_at (some p) o = p == o

abbrev pub is_null : Option ℕ → Bool
is_null none = Bool.true
is_null (some p) = Bool.false

-- len += sizeof (…); len = (len + ALIGNMENT - 1) & ~(ALIGNMENT - 1), in unsigned int.
pub padded : ℕ → ℕ
padded len = ((len + sizeof_rec) % 2 ^ 32 + (alignment - 1)) % 2 ^ 32 / alignment * alignment

-- lcm_ringbuf_new
pub new : ℕ → RingBuf
new ring_size = record {
  size = ring_size;
  used = 0;
  head = none;
  tail = none;
  mem = λ o. record { magic_of = 0; prev = none; next = none; len = 0 };
}

-- The first allocation of lcm_ringbuf_alloc, at the start of the area.
pub alloc_first : RingBuf → ℕ → Option ℕ × RingBuf
alloc_first ring n = if ltb ring.size n then (none, ring) else (
  some offsetof_buf,
  record ring {
    head = some 0;
    tail = some 0;
    used = (ring.used + n) % 2 ^ 32;
    mem = update ring.mem 0 (record { magic_of = magic; prev = none; next = none; len = n });
  },
)

-- Where a chunk of `n` bytes goes, with the head at `h` and the tail at `t`.
pub candidate : RingBuf → ℕ → ℕ → ℕ → Option ℕ
candidate ring h t n =
    let candidate1 = t + (ring.mem t).len in
    if ltb t h
    then (if leb (candidate1 + n) h then some candidate1 else none)
    else (if leb (candidate1 + n) ring.size
        then some candidate1
        else (if ltb n h then some 0 else none))

-- The new chunk at `o` becomes the tail behind `t`.
pub append_rec : RingBuf → ℕ → ℕ → ℕ → RingBuf
append_rec ring t o n =
    let mem1 =
      update ring.mem o (record { magic_of = magic; prev = some t; next = none; len = n }) in
    record ring {
      used = (ring.used + n) % 2 ^ 32;
      tail = some o;
      mem = update mem1 t (record (mem1 t) { next = some o });
    }

pub alloc_next : RingBuf → ℕ → ℕ → ℕ → Option ℕ × RingBuf
alloc_next ring h t n = elim (candidate ring h t n) [
  | none ↦ (none, ring)
  | some o ↦ (some (o + offsetof_buf), append_rec ring t o n)
]

-- lcm_ringbuf_alloc: the pointer to the chunk's bytes, or NULL.
pub alloc : RingBuf → ℕ → Result (Option ℕ × RingBuf)
alloc ring len = elim ring.head [
  | none ↦ if is_null ring.tail then done (alloc_first ring (padded len)) else aborted
  | some h ↦ elim ring.tail [ none ↦ aborted | some t ↦ done (alloc_next ring h t (padded len)) ]
]

-- The chunk's length becomes that of `newlen` bytes.
pub shrink : RingBuf → ℕ → ℕ → RingBuf
shrink ring o n =
    let shrink_amount = (ring.mem o).len - n in
    record ring {
      used = (ring.used + 2 ^ 32 - shrink_amount) % 2 ^ 32;
      mem = update ring.mem o (record (ring.mem o) { len = n });
    }

-- lcm_ringbuf_shrink_last; a `buf` below the first chunk's bytes is no chunk, and so not the tail.
pub shrink_last : RingBuf → ℕ → ℕ → Result RingBuf
unfolding shrink
shrink_last ring buf newlen =
    let o = buf - offsetof_buf in
    let n = padded newlen in
    if ltb buf offsetof_buf
    then aborted
    else if is_at ring.tail o
    then (if (ring.mem o).magic_of == magic
        then (if leb n (ring.mem o).len then done (shrink ring o n) else aborted)
        else aborted)
    else aborted

-- The head is given back.
unfoldable pub drop_head : RingBuf → ℕ → RingBuf
drop_head ring o = elim (ring.mem o).next [
  | none ↦ record ring { head = none; tail = none }
  | some h ↦ record ring {
    head = some h;
    mem = update ring.mem h (record (ring.mem h) { prev = none });
  }
]

-- The tail is given back.
unfoldable pub drop_tail : RingBuf → ℕ → RingBuf
drop_tail ring o = elim (ring.mem o).prev [
  | none ↦ record ring { head = none; tail = none }
  | some t ↦ record ring {
    tail = some t;
    mem = update ring.mem t (record (ring.mem t) { next = none });
  }
]

-- (!head && !tail) || (head->prev == NULL && tail->next == NULL)
unfoldable pub ends_are_open : RingBuf → Bool
ends_are_open ring = elim ring.head [
  | none ↦ is_null ring.tail
  | some h ↦ elim ring.tail [
    | none ↦ Bool.false
    | some t ↦ if is_null (ring.mem h).prev then is_null (ring.mem t).next else Bool.false
  ]
]

-- Both ends are NULL, which is required once nothing is used.
unfoldable pub empty_if_unused : RingBuf → Bool
empty_if_unused ring =
    if ring.used == 0
    then (if is_null ring.head then is_null ring.tail else Bool.false)
    else Bool.true

-- ring->used -= rec->length, and the chunk leaves the list at its end.
unfoldable pub release : RingBuf → ℕ → RingBuf
release ring o =
    let less = record ring { used = (ring.used + 2 ^ 32 - (ring.mem o).len) % 2 ^ 32 } in
    if is_at ring.head o then drop_head less o else drop_tail less o

-- rec->magic = 0
unfoldable pub forget : RingBuf → ℕ → RingBuf
forget ring o = record ring { mem = update ring.mem o (record (ring.mem o) { magic_of = 0 }) }

-- The call on the header at `o`.
unfoldable pub dealloc_rec : RingBuf → ℕ → Result RingBuf
dealloc_rec ring o =
    if is_at ring.head o || is_at ring.tail o
    then (if (ring.mem o).magic_of == magic
        then (if ends_are_open (release ring o) && empty_if_unused (release ring o)
            then done (forget (release ring o) o)
            else aborted)
        else aborted)
    else aborted

-- lcm_ringbuf_dealloc; a `buf` below the first chunk's bytes is no chunk.
unfoldable pub dealloc : RingBuf → ℕ → Result RingBuf
dealloc ring buf = if ltb buf offsetof_buf then aborted else dealloc_rec ring (buf - offsetof_buf)
