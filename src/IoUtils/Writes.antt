-- ===== src/IoUtils/Writes.antt =====
-- A chain of the writes of ioutils.h is one write of all the bytes, on a full device too.
use conftron.Base.{
  ℕ, zero, suc, ◌+◌, ◌-◌, ◌/◌, ◌%◌, ◌^◌, ◌<◌, ◌≤◌, ◌≡◌, refl, sym, ap, ◌∙◌, min, Bool, true, false,
  List, ◌++◌, [], ◌∷◌, length, take, length-append, append_assoc, arith, le→leb, lt→leb_false,
  dec_lt,
}
use conftron.CoreTypes.{bytes32}
use conftron.IoUtils.{File, fwrite, fwrite32, fwrite64, ◌⨾◌}
use conftron.IoUtils.Reads.{bytes_of64}

take_short : (n : ℕ) (xs ys : List ℕ) → n ≤ length xs → take n (xs ++ ys) ≡ take n xs
take_short zero xs ys h = refl
take_short (suc n) [] ys h = absurd (omega (arith, h))
take_short (suc n) (x ∷ xs) ys h = ap (λ t. x ∷ t) (take_short n xs ys (omega (arith, h)))

take-append : (xs ys : List ℕ) (n : ℕ) → take (length xs + n) (xs ++ ys) ≡ xs ++ take n ys
take-append [] ys n = ap (λ k. take k ys) (omega arith)
take-append (x ∷ xs) ys n =
    ap (λ k. take k (x ∷ (xs ++ ys))) length_suc ∙ ap (λ t. x ∷ t) (take-append xs ys n)
  where
    length_suc : suc (length xs) + n ≡ suc (length xs + n)
    length_suc = omega arith

take_whole : (xs : List ℕ) (n : ℕ) → length xs ≤ n → take n xs ≡ xs
take_whole [] zero h = refl
take_whole [] (suc n) h = refl
take_whole (x ∷ xs) zero h = absurd (omega (arith, h))
take_whole (x ∷ xs) (suc n) h = ap (λ t. x ∷ t) (take_whole xs n (omega (arith, h)))

-- What the device takes of a block.
abbrev pub written : File → List ℕ → ℕ → File
written f bs n = record f { contents = f.contents ++ bs; place = f.place + n; space = f.space - n }

pub fwrite-fits :
    (f : File) (bs : List ℕ) → length bs ≤ f.space → fwrite f bs ≡ (true, written f bs (length bs))
unfolding fwrite
fwrite-fits f bs h =
    rw (le→leb (length bs) f.space h, all_of, take_whole bs (length bs) (omega arith))
  where
    all_of : min (length bs) f.space ≡ length bs
    all_of = omega (arith, h)

pub fwrite-full :
    (f : File) (bs : List ℕ)
    → f.space < length bs
    → fwrite f bs ≡ (false, written f (take f.space bs) f.space)
unfolding fwrite
fwrite-full f bs h = rw (lt→leb_false (length bs) f.space h, some_of)
  where
    some_of : min (length bs) f.space ≡ f.space
    some_of = omega (arith, h)

pub same_file :
    {ok : Bool} {c1 c2 : List ℕ} {p1 p2 s1 s2 : ℕ}
    → c1 ≡ c2
    → p1 ≡ p2
    → s1 ≡ s2
    → Path
        (Bool × File)
        (ok, record { contents = c1; place = p1; space = s1 })
        (ok, record { contents = c2; place = p2; space = s2 })
same_file e1 e2 e3 = rw (e1, e2, e3)

module _ (w1 w2 : File → Bool × File) (bs1 bs2 : List ℕ)
    (writes1 : (f : File) → w1 f ≡ fwrite f bs1) (writes2 : (f : File) → w2 f ≡ fwrite f bs2)
    (f : File) where
  total : length (bs1 ++ bs2) ≡ length bs1 + length bs2
  total = length-append bs1 bs2

  fits_lem :
      length bs1 ≤ f.space → length bs2 ≤ f.space - length bs1 → (w1 ⨾ w2) f ≡ fwrite f (bs1 ++ bs2)
  fits_lem h k =
      rw
        (
          writes1 f,
          fwrite-fits f bs1 h,
          writes2 (written f bs1 (length bs1)),
          fwrite-fits (written f bs1 (length bs1)) bs2 k,
        )
        (same_file (append_assoc f.contents bs1 bs2) (omega (arith, total)) (omega (arith, total))
          ∙ sym (fwrite-fits f (bs1 ++ bs2) (omega (arith, h, k, total))))

  part_lem :
      length bs1 ≤ f.space → f.space - length bs1 < length bs2 → (w1 ⨾ w2) f ≡ fwrite f (bs1 ++ bs2)
  part_lem h k =
      rw
        (
          writes1 f,
          fwrite-fits f bs1 h,
          writes2 (written f bs1 (length bs1)),
          fwrite-full (written f bs1 (length bs1)) bs2 k,
        )
        (same_file
            (append_assoc f.contents bs1 (take (f.space - length bs1) bs2)
              ∙ ap (λ t. f.contents ++ t)
                  (sym (take-append bs1 bs2 (f.space - length bs1))
                    ∙ ap (λ n. take n (bs1 ++ bs2)) back))
            (omega (arith, h)) (omega (arith, h))
          ∙ sym (fwrite-full f (bs1 ++ bs2) (omega (arith, h, k, total))))
    where
      back : length bs1 + (f.space - length bs1) ≡ f.space
      back = omega (arith, h)

  full_lem : f.space < length bs1 → (w1 ⨾ w2) f ≡ fwrite f (bs1 ++ bs2)
  full_lem h =
      rw (writes1 f, fwrite-full f bs1 h)
        (same_file (ap (λ t. f.contents ++ t) (sym (take_short f.space bs1 bs2 (omega (arith, h)))))
            refl refl
          ∙ sym (fwrite-full f (bs1 ++ bs2) (omega (arith, h, total))))

  pub fwrite-append : (w1 ⨾ w2) f ≡ fwrite f (bs1 ++ bs2)
  fwrite-append = elim (dec_lt f.space (length bs1)) [
    | yes h ↦ full_lem h
    | no h ↦ elim (dec_lt (f.space - length bs1) (length bs2)) [
      | yes k ↦ part_lem (omega (arith, h)) k
      | no k ↦ fits_lem (omega (arith, h)) (omega (arith, k))
    ]
  ]

pub fwrite32_lem : (v : ℕ) (f : File) → fwrite32 v f ≡ fwrite f (bytes32 v)
unfolding fwrite32
fwrite32_lem v f = refl

pub fwrite64_lem : (v : ℕ) (f : File) → fwrite64 v f ≡ fwrite f (bytes_of64 v)
unfolding fwrite64
fwrite64_lem v f =
    fwrite-append (fwrite32 (v / 2 ^ 32)) (fwrite32 (v % 2 ^ 32)) (bytes32 (v / 2 ^ 32))
      (bytes32 (v % 2 ^ 32)) (fwrite32_lem (v / 2 ^ 32)) (fwrite32_lem (v % 2 ^ 32)) f
