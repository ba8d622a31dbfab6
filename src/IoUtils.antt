-- ===== src/IoUtils.antt =====
-- upstream/lcm/ioutils.h: numbers in files, in network order, and the functions of stdio that it and
-- eventlog.c call. A number of w bits is its bit pattern. A file that is written is written at its
-- end, which no caller leaves.
pub mod Reads
pub mod Writes
use conftron.Base.{
  ℕ, ◌+◌, ◌-◌, ◌*◌, ◌/◌, ◌%◌, ◌^◌, Bool, true, false, Option, none, some, List, [], ◌∷◌, ◌++◌,
  length, take, drop, if◌then◌else◌, leb, min,
}
use conftron.CoreTypes.{bytes32, value32}

-- `space` is the number of bytes that the device still takes.
pub record File : Type 0 where
  pub contents : List ℕ
  pub place : ℕ
  pub space : ℕ

-- fwrite of a block; the answer says whether all of it was written.
unfoldable pub fwrite : File → List ℕ → Bool × File
fwrite f bs =
    let n = min (length bs) f.space in
    (
      leb (length bs) f.space,
      record f { contents = f.contents ++ take n bs; place = f.place + n; space = f.space - n },
    )

-- fread of a block of `n` bytes: those that are left, if fewer are.
unfoldable pub fread : File → ℕ → List ℕ × File
fread f n =
    let bs = take n (drop f.place f.contents) in (bs, record f { place = f.place + length bs })

-- fseeko backwards from the place.
unfoldable pub seek_back : File → ℕ → File
seek_back f n = record f { place = f.place - n }

-- One write, and the next if it succeeds.
infixr 4 ◌⨾◌
abbrev pub ◌⨾◌ : (File → Bool × File) → (File → Bool × File) → File → Bool × File
(first ⨾ next) f = let (ok, f') = first f in if ok then next f' else (false, f')

-- fwrite32
unfoldable pub fwrite32 : ℕ → File → Bool × File
unfolding fwrite
fwrite32 v f = fwrite f (bytes32 v)

-- fwrite64
unfoldable pub fwrite64 : ℕ → File → Bool × File
unfolding fwrite32
fwrite64 v64 = fwrite32 (v64 / 2 ^ 32) ⨾ fwrite32 (v64 % 2 ^ 32)

abbrev pub word_of : List ℕ × File → Option ℕ × File
word_of (bs, f) = (if leb 4 (length bs) then some (value32 bs) else none, f)

-- fread32; `none` is the result -1, which leaves *v32 as it was.
unfoldable pub fread32 : File → Option ℕ × File
unfolding fread
fread32 f = word_of (fread f 4)

abbrev pub low_half : ℕ → Option ℕ × File → Option ℕ × File
low_half v1 (none, f) = (none, f)
low_half v1 (some v2, f) = (some (v1 * 2 ^ 32 + v2), f)

abbrev pub high_half : Option ℕ × File → Option ℕ × File
high_half (none, f) = (none, f)
high_half (some v1, f) = low_half v1 (fread32 f)

-- fread64: v1<<32 | v2&0xffffffff, the sign copies of v1 being shifted out.
unfoldable pub fread64 : File → Option ℕ × File
unfolding fread32
fread64 f = high_half (fread32 f)
