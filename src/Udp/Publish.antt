-- ===== src/Udp/Publish.antt =====
-- The packets that lcm_udpm_publish of lcm_udp.c sends for a long message, where the socket takes
-- every packet.
use conftron.Base.{
  ℕ, suc, ◌+◌, ◌-◌, ◌*◌, ◌%◌, ◌^◌, ◌<◌, ◌≤◌, ◌≡◌, refl, sym, ap, ap₂, ◌∙◌, some, List, [], ◌∷◌,
  ◌++◌, length, take, drop, arith, le→leb, le→ltb_false, eq→==, ne→==_false, ℕ_discrete, pos,
  length-take, length-drop, take-append-drop, All, length-append,
}
use conftron.CoreTypes.{c_string}
use conftron.CoreTypes.Words.{to_int-pos}
use conftron.Udp.{long_bytes, max_channel_name_length}
use conftron.Udp.Transmit.{
  Net, send_rest, sanity_check, publish_long, publish, first_header, nfragments_of,
}
use conftron.Udp.Following.{rest_packets, join}
use conftron.Udp.Delivery.{message_packets}
use conftron.Udp.Rest.{cut, accept_all, send_rest_lem, join-cut, length-cut, cut_fits}

nfragments_range :
    (net : Net) (p : ℕ)
    → 1400 ≤ p
    → p ≤ 1400 * 65535
    → let n = nfragments_of net p in (1 ≤ n) × (n ≤ 65535) × (p ≤ 1400 * n) × (1400 * n < p + 1400)
nfragments_range net p h k = elim (ℕ_discrete (p % 1400) 0) [
  | yes e ↦ rw (eq→== (p % 1400) 0 e) (omega (arith, e, h, k))
  | no e ↦ rw (ne→==_false (p % 1400) 0 e) (omega (arith, e, h, k))
]

-- The bytes that go with the channel, and the others.
abbrev first_size : List ℕ → ℕ
first_size channel = 1400 - (length channel + 1)

abbrev pub payload : List ℕ → List ℕ → ℕ
payload channel bytes = length channel + 1 + length bytes

module _ (net : Net) (accept : List ℕ → net.World → net.World)
    (takes : (p : List ℕ) (w : net.World) → net.sendmsg p w ≡ (pos (length p), accept p w))
    (channel bytes : List ℕ) (seqno : ℕ) (w : net.World)
    (short : length channel ≤ max_channel_name_length) (long : 1400 ≤ payload channel bytes)
    (bounded : payload channel bytes ≤ 1400 * 65535) where
  abbrev front : List ℕ
  front = take (first_size channel) bytes

  abbrev count : ℕ
  count = nfragments_of net (payload channel bytes)

  abbrev parts : List (List ℕ)
  parts = cut (count - 1) (drop (first_size channel) bytes)

  count_range :
      (1 ≤ count)
      × (count ≤ 65535)
      × (payload channel bytes ≤ 1400 * count)
      × (1400 * count < payload channel bytes + 1400)
  count_range = nfragments_range net (payload channel bytes) long bounded

  parts-join : join (front ∷ parts) ≡ bytes
  parts-join =
      ap (λ t. front ++ t)
        (join-cut (count - 1) (drop (first_size channel) bytes)
          (omega (arith, count_range, length-drop (first_size channel) bytes)))
      ∙ take-append-drop (first_size channel) bytes

  length-front : length front ≡ first_size channel
  length-front = omega (arith, length-take (first_size channel) bytes, long)

  length-parts : suc (length parts) ≡ count
  length-parts =
      omega (arith, count_range, length-cut (count - 1) (drop (first_size channel) bytes))

  -- The packets of a message of these parts, under a header with these numbers.
  abbrev packets_of : ℕ → ℕ → ℕ → List (List ℕ)
  packets_of size n offset =
      (long_bytes (first_header seqno size n) ++ (c_string channel ++ front))
      ∷ rest_packets
          (record (first_header seqno size n) { fragment_offset = offset; fragment_no = 1 }) parts

  packets_same :
      packets_of (length bytes) count (first_size channel)
      ≡ message_packets seqno channel front parts
  packets_same =
      ap (λ size. packets_of size count (first_size channel)) (ap (length {A = ℕ}) (sym parts-join))
      ∙ ap₂ (packets_of (length (join (front ∷ parts)))) (sym length-parts) (sym length-front)

  first_sent :
      let packet =
        long_bytes (first_header seqno (length bytes) count) ++ (c_string channel ++ front) in
      publish_long net seqno channel bytes count w
      ≡ sanity_check net (length bytes) (
          send_rest net
            (count - 1)
            (record (first_header seqno (length bytes) count) {
              fragment_offset = first_size channel;
              fragment_no = 1;
            })
            bytes
            1420
            (pos 1420)
            (accept packet w))
  unfolding publish_long
  first_sent =
      rw (takes, le→leb (first_size channel) (length bytes) (omega (arith, long)))
        (ap
          (λ size. sanity_check net (length bytes) (
            send_rest net (count - 1)
              (record (first_header seqno (length bytes) count) {
                fragment_offset = first_size channel;
                fragment_no = 1;
              })
              bytes 1420 (pos size)
              (accept
                (long_bytes (first_header seqno (length bytes) count)
                  ++ (c_string channel ++ front))
                w)))
          (omega (
            arith,
            length-front,
            length-append (c_string channel) front,
            length-append channel (0 ∷ []),
            short,
          )))

  checked :
      (m : ℕ) (w' : net.World)
      → 0 < m
      → sanity_check net (length bytes) (some (pos m, length bytes, w')) ≡ some (pos 0, w')
  checked m w' h = rw (ne→==_false m 0 (λ e. omega (arith, e, h))) refl

  publish_long_lem :
      publish_long net seqno channel bytes count w
      ≡ some (pos 0, accept_all net accept takes (message_packets seqno channel front parts) w)
  publish_long_lem =
      let packet =
        long_bytes (first_header seqno (length bytes) count) ++ (c_string channel ++ front) in
      let (m, m_pos, e) =
        send_rest_lem net accept takes (count - 1)
          (record (first_header seqno (length bytes) count) {
            fragment_offset = first_size channel;
            fragment_no = 1;
          })
          bytes 1420 (accept packet w) (omega (arith, bounded)) (omega (arith, long))
          (omega (arith, count_range)) (omega (arith, count_range, long))
          (omega (arith, count_range)) (omega arith) in
      first_sent
      ∙ (ap (sanity_check net (length bytes)) e
          ∙ (checked m _ m_pos
              ∙ ap (λ packets. some (pos 0, accept_all net accept takes packets w)) packets_same))

  publish_lem :
      publish net channel bytes seqno w
      ≡ some (
        pos 0,
        (seqno + 1) % 2 ^ 32,
        accept_all net accept takes (message_packets seqno channel front parts) w,
      )
  unfolding publish
  publish_lem =
      rw
        (
          le→ltb_false max_channel_name_length (length channel) short,
          size_lem,
          to_int-pos (payload channel bytes) (omega (arith, bounded)),
          le→ltb_false (payload channel bytes + 0) (1400 + 0) (omega (arith, long)),
          le→ltb_false 65535 count (omega (arith, count_range)),
          publish_long_lem,
        )
        refl
    where
      size_lem : payload channel bytes % 2 ^ 32 ≡ payload channel bytes
      size_lem = omega (arith, bounded)

  -- A long message goes out in parts that make up the data.
  pub publish_parts :
      (part : List ℕ) × (ps : List (List ℕ)) × (publish net channel bytes seqno w
        ≡ some (
          pos 0,
          (seqno + 1) % 2 ^ 32,
          accept_all net accept takes (message_packets seqno channel part ps) w,
        ))
      × (join (part ∷ ps) ≡ bytes)
      × (payload channel bytes ≤ 1400 * suc (length ps))
      × (suc (length ps) ≤ 65535)
      × All (λ (p : List ℕ). length p < 2 ^ 16) (part ∷ ps)
  publish_parts = (
    front,
    parts,
    publish_lem,
    parts-join,
    omega (arith, count_range, length-parts),
    omega (arith, count_range, length-parts),
    (
      omega (arith, length-take (first_size channel) bytes),
      cut_fits (count - 1) (drop (first_size channel) bytes),
    ),
  )
