-- ===== src/Udp/Rest.antt =====
-- The packets behind the first one that lcm_udpm_publish of lcm_udp.c sends for a long message.
use conftron.Base.{
  ℕ, zero, suc, ◌+◌, ◌-◌, ◌*◌, ◌%◌, ◌^◌, ◌<◌, ◌≤◌, ◌≡◌, refl, sym, ap, ◌∙◌, some, List, [], ◌∷◌,
  ◌++◌, length, min, take, drop, arith, le→leb, eq→==, ℤ, pos, read_bytes, length-take, length-drop,
  drop-add, take-append-drop, All,
}
use conftron.Udp.{HeaderLong, long_bytes, short_message_max_size}
use conftron.Udp.Transmit.{Net, send_rest}
use conftron.Udp.Following.{rest_packets, join}

-- Bytes in `k` parts of 1400.
abbrev pub cut : ℕ → List ℕ → List (List ℕ)
cut zero bytes = []
cut (suc k) bytes = take short_message_max_size bytes ∷ cut k (drop short_message_max_size bytes)

take-min : (n : ℕ) (xs : List ℕ) → take (min n (length xs)) xs ≡ take n xs
take-min zero xs = ap (λ n. take n xs) least
  where
    least : min 0 (length xs) ≡ 0
    least = omega arith
take-min (suc n) [] = ap (λ n. take n []) least
  where
    least : min (suc n) 0 ≡ 0
    least = omega arith
take-min (suc n) (x ∷ xs) = ap (λ n. take n (x ∷ xs)) both ∙ ap (λ t. x ∷ t) (take-min n xs)
  where
    both : min (suc n) (suc (length xs)) ≡ suc (min n (length xs))
    both = omega arith

module _ (net : Net) (accept : List ℕ → net.World → net.World)
    (takes : (p : List ℕ) (w : net.World) → net.sendmsg p w ≡ (pos (length p), accept p w)) where
  abbrev pub accept_all : List (List ℕ) → net.World → net.World
  accept_all [] w = w
  accept_all (p ∷ ps) w = accept_all ps (accept p w)

  abbrev part_at : HeaderLong → List ℕ → List ℕ
  part_at hdr bytes = take short_message_max_size (drop hdr.fragment_offset bytes)

  abbrev advanced : HeaderLong → List ℕ → HeaderLong
  advanced hdr bytes = record hdr {
    fragment_offset = hdr.fragment_offset + length (part_at hdr bytes);
    fragment_no = hdr.fragment_no + 1;
  }

  module _ (hdr : HeaderLong) (bytes : List ℕ) (small : length bytes < 2 ^ 32)
      (within : hdr.fragment_offset ≤ length bytes) where
    fraglen : ℕ
    fraglen = min short_message_max_size ((length bytes + 2 ^ 32 - hdr.fragment_offset) % 2 ^ 32)

    fraglen_is : fraglen ≡ min short_message_max_size (length (drop hdr.fragment_offset bytes))
    unfolding fraglen
    fraglen_is = omega (arith, small, within, length-drop hdr.fragment_offset bytes)

    part_read : read_bytes bytes hdr.fragment_offset fraglen ≡ some (part_at hdr bytes)
    unfolding read_bytes
    part_read =
        rw (le→leb (hdr.fragment_offset + fraglen) (length bytes) room, fraglen_is)
          (ap some (take-min short_message_max_size (drop hdr.fragment_offset bytes)))
      where
        room : hdr.fragment_offset + fraglen ≤ length bytes
        room = omega (arith, within, fraglen_is, length-drop hdr.fragment_offset bytes)

    length_part : length (part_at hdr bytes) ≡ fraglen
    length_part =
        length-take short_message_max_size (drop hdr.fragment_offset bytes) ∙ sym fraglen_is

    send_step :
        (k size : ℕ) (w : net.World)
        → hdr.fragment_no < 2 ^ 16 - 1
        → let packet = long_bytes hdr ++ part_at hdr bytes in
          send_rest net (suc k) hdr bytes size (pos size) w
          ≡ send_rest net k
              (record hdr {
                fragment_offset = hdr.fragment_offset + length (part_at hdr bytes);
                fragment_no = hdr.fragment_no + 1;
              })
              bytes
              (length packet)
              (pos (length packet))
              (accept packet w)
    unfolding send_rest fraglen
    send_step k size w h =
        rw (eq→== size size refl, part_read, takes)
          (same_send _ _
            (omega (
              arith,
              length_part,
              within,
              fraglen_is,
              small,
              length-drop hdr.fragment_offset bytes,
            ))
            (omega (arith, h)) (omega (arith, length_part)))
      where
        same_send :
            {o1 o2 n1 n2 s1 s2 : ℕ} (status : ℤ) (w1 : net.World)
            → o1 ≡ o2
            → n1 ≡ n2
            → s1 ≡ s2
            → send_rest net k
                (record hdr { fragment_offset = o1; fragment_no = n1 })
                bytes
                s1
                status
                w1
              ≡ send_rest net k
                  (record hdr { fragment_offset = o2; fragment_no = n2 })
                  bytes
                  s2
                  status
                  w1
        same_send status w1 e1 e2 e3 = rw (e1, e2, e3)

  send_rest_end :
      (hdr : HeaderLong) (bytes : List ℕ) (size : ℕ) (status : ℤ) (w : net.World)
      → hdr.fragment_offset ≡ length bytes
      → send_rest net 0 hdr bytes size status w ≡ some (status, length bytes, w)
  unfolding send_rest
  send_rest_end hdr bytes size status w e = ap (λ n. some (status, n, w)) e

  -- The packets of the rest go out one after the other, and the data are used up.
  pub send_rest_lem :
      (k : ℕ) (hdr : HeaderLong) (bytes : List ℕ) (size : ℕ) (w : net.World)
      → length bytes < 2 ^ 32
      → hdr.fragment_offset ≤ length bytes
      → length bytes - hdr.fragment_offset ≤ 1400 * k
      → 1400 * k < length bytes - hdr.fragment_offset + 1400
      → hdr.fragment_no + k < 2 ^ 16
      → 0 < size
      → (m : ℕ) × (0 < m)
        × (send_rest net k hdr bytes size (pos size) w
            ≡ some (
              pos m,
              length bytes,
              accept_all (rest_packets hdr (cut k (drop hdr.fragment_offset bytes))) w,
            ))
  send_rest_lem zero hdr bytes size w small within enough tight numbers some_size =
      (size, some_size, send_rest_end hdr bytes size (pos size) w (omega (arith, within, enough)))
  send_rest_lem (suc zero) hdr bytes size w small within enough tight numbers some_size =
      let packet = long_bytes hdr ++ part_at hdr bytes in
      (
        length packet,
        omega arith,
        send_step hdr bytes small within 0 size w (omega (arith, numbers))
            ∙ send_rest_end (advanced hdr bytes) bytes (length packet) (pos (length packet))
                (accept packet w)
                (omega (
                  arith,
                  within,
                  enough,
                  length_part hdr bytes small within,
                  fraglen_is hdr bytes small within,
                  length-drop hdr.fragment_offset bytes,
                )),
      )
  send_rest_lem (suc (suc k)) hdr bytes size w small within enough tight numbers some_size =
      let packet = long_bytes hdr ++ part_at hdr bytes in
      let full : length (part_at hdr bytes) ≡ 1400 = omega (
        arith,
        within,
        tight,
        length_part hdr bytes small within,
        fraglen_is hdr bytes small within,
        length-drop hdr.fragment_offset bytes,
      ) in
      let (m, m_pos, e) =
        send_rest_lem (suc k) (advanced hdr bytes) bytes (length packet) (accept packet w) small
          (omega (arith, within, tight, full)) (omega (arith, enough, full))
          (omega (arith, tight, full, within)) (omega (arith, numbers)) (omega arith) in
      (
        m,
        m_pos,
        send_step hdr bytes small within (suc k) size w (omega (arith, numbers))
            ∙ (e
                ∙ ap
                    (λ rest. some (
                      pos m,
                      length bytes,
                      accept_all (rest_packets (advanced hdr bytes) (cut (suc k) rest))
                          (accept packet w),
                    ))
                    (ap (λ n. drop (hdr.fragment_offset + n) bytes) full
                      ∙ drop-add hdr.fragment_offset 1400 bytes)),
      )

pub join-cut : (k : ℕ) (bs : List ℕ) → length bs ≤ 1400 * k → join (cut k bs) ≡ bs
join-cut zero [] h = refl
join-cut zero (b ∷ bs) h = absurd (omega (arith, h))
join-cut (suc k) bs h =
    ap (λ t. take 1400 bs ++ t) (join-cut k (drop 1400 bs) (omega (arith, h, length-drop 1400 bs)))
    ∙ take-append-drop 1400 bs

pub length-cut : (k : ℕ) (bs : List ℕ) → length (cut k bs) ≡ k
length-cut zero bs = refl
length-cut (suc k) bs = ap suc (length-cut k (drop 1400 bs))

pub cut_fits : (k : ℕ) (bs : List ℕ) → All (λ (p : List ℕ). length p < 2 ^ 16) (cut k bs)
cut_fits zero bs = tt
cut_fits (suc k) bs = (omega (arith, length-take 1400 bs), cut_fits k (drop 1400 bs))
