-- ===== src/IoUtils/Reads.antt =====
-- What ioutils.h reads back of what it writes.
use conftron.Base.{
  ℕ, ◌/◌, ◌%◌, ◌^◌, ◌<◌, ◌≡◌, ap, ap₂, ◌∙◌, some, List, ◌++◌, length, length-append, append_assoc,
  take-length_append, drop-length_append, arith,
}
use conftron.CoreTypes.{bytes32, value32}
use conftron.IoUtils.{File, fread, fread32, fread64, word_of, low_half, high_half}

value32-bytes32 : (v : ℕ) → v < 2 ^ 32 → value32 (bytes32 v) ≡ v
value32-bytes32 v h = omega (arith, h)

-- A file read up to the end of `pre`.
abbrev pub standing : List ℕ → List ℕ → ℕ → File
standing pre rest space = record { contents = pre ++ rest; place = length pre; space = space }

-- The eight bytes of fwrite64.
abbrev pub bytes_of64 : ℕ → List ℕ
bytes_of64 v = bytes32 (v / 2 ^ 32) ++ bytes32 (v % 2 ^ 32)

pub fread-standing :
    (pre bs post : List ℕ) (space : ℕ)
    → fread (standing pre (bs ++ post) space) (length bs) ≡ (bs, standing (pre ++ bs) post space)
unfolding fread
fread-standing pre bs post space = rw (
  drop-length_append pre (bs ++ post),
  take-length_append bs post,
  append_assoc pre bs post,
  length-append pre bs,
)

pub fread32-standing :
    (v : ℕ) (pre post : List ℕ) (space : ℕ)
    → v < 2 ^ 32
    → fread32 (standing pre (bytes32 v ++ post) space)
      ≡ (some v, standing (pre ++ bytes32 v) post space)
unfolding fread32
fread32-standing v pre post space h =
    ap word_of (fread-standing pre (bytes32 v) post space)
    ∙ ap (λ n. (some n, standing (pre ++ bytes32 v) post space)) (value32-bytes32 v h)

pub fread64-standing :
    (v : ℕ) (pre post : List ℕ) (space : ℕ)
    → v < 2 ^ 64
    → fread64 (standing pre (bytes_of64 v ++ post) space)
      ≡ (some v, standing (pre ++ bytes_of64 v) post space)
unfolding fread64
fread64-standing v pre post space h =
    ap high_half
      (fread32-standing (v / 2 ^ 32) pre (bytes32 (v % 2 ^ 32) ++ post) space (omega (arith, h)))
    ∙ (ap (low_half (v / 2 ^ 32))
          (fread32-standing (v % 2 ^ 32) (pre ++ bytes32 (v / 2 ^ 32)) post space (omega arith))
        ∙ ap₂ (λ n pre'. (some n, standing pre' post space)) (omega arith)
            (append_assoc pre (bytes32 (v / 2 ^ 32)) (bytes32 (v % 2 ^ 32))))
