-- ===== src/Udp/Delivery.antt =====
-- How the receiver of lcm_udp.c takes a whole message in fragments.
use conftron.Base.{
  ℕ, zero, suc, ◌+◌, ◌-◌, ◌%◌, ◌^◌, ◌<◌, ◌≤◌, ◌≡◌, refl, ap, ap₂, ◌∙◌, Bool, true, false, none,
  some, List, [], ◌∷◌, ◌++◌, length, All, arith, append_assoc, length-append, split_at, take,
  take-length_append, le→ltb_false,
}
use conftron.CoreTypes.{c_string}
use conftron.RingBuf.{RingBuf, done, dealloc}
use conftron.Udp.{
  HeaderLong, long_bytes, max_message_size, max_channel_name_length, sizeof_long, strlen,
}
use conftron.Udp.Transmit.{first_header}
use conftron.Udp.Receive.{
  FragBuf, FragTable, Lcmb, Udpm, store_fragment, recv_message_fragment, recv_with_header,
  first_fragment, make_room, add_fragment_buffer, over_limit, frag_buf_new,
}
use conftron.Udp.Reassembly.{
  InRange, IsTable, collecting, whole_message, store_fragment-more, long_header-long_bytes,
}
use conftron.Udp.Following.{
  rest_packets, join, Arrivals, arrive, receive, receive-more, Underway, following_lem,
}

-- The packets of a message of `parts`.
abbrev pub message_packets : ℕ → List ℕ → List ℕ → List (List ℕ) → List (List ℕ)
message_packets seqno channel part parts =
    let hdr = first_header seqno (length (join (part ∷ parts))) (suc (length parts)) in
    (long_bytes hdr ++ (c_string channel ++ part))
    ∷ rest_packets (record hdr { fragment_offset = length part; fragment_no = 1 }) parts

-- A channel's name: no NUL, and not too long.
pub record IsChannel (channel : List ℕ) : Type 0 where
  pub no_nul : All (λ (c : ℕ). 0 < c) channel
  pub short : length channel ≤ max_channel_name_length

pub strlen_lem :
    (s rest : List ℕ) → All (λ (c : ℕ). 0 < c) s → strlen (c_string s ++ rest) ≡ some (length s)
strlen_lem [] rest h = refl
strlen_lem (zero ∷ s) rest h = absurd (omega (arith, h.0))
strlen_lem (suc c ∷ s) rest (h, hs) = rw (strlen_lem s rest hs) refl

module _ (table : FragTable) (malloc : ℕ → List ℕ) (has_handlers : List ℕ → Bool) where
  -- Within the limits nothing is thrown out.
  pub make_room_lem :
      (fuel : ℕ) (u : Udpm table.Table)
      → over_limit table malloc has_handlers u ≡ false
      → make_room table malloc has_handlers fuel u ≡ some u
  unfolding make_room
  make_room_lem zero u h = rw h refl
  make_room_lem (suc fuel) u h = rw h refl

  -- What a message needs to be delivered: a subscriber, room, and no fragments from the sender.
  pub record Ready (u : Udpm table.Table) (a : Arrivals) (channel : List ℕ) (size : ℕ)
      (ring : RingBuf) : Type 0 where
    pub none_yet : table.lookup u.frag_bufs a.sender ≡ none
    pub subscribed : has_handlers channel ≡ true
    pub within_limits : over_limit table malloc has_handlers u ≡ false
    pub fresh_memory : length (malloc size) ≡ size
    pub ring_gives : dealloc u.ringbuf a.chunk ≡ done ring

  module _ (laws : IsTable table) (a : Arrivals) (u : Udpm table.Table) (channel part next : List ℕ)
      (parts : List (List ℕ)) (seqno : ℕ) (ring : RingBuf) (named : IsChannel channel)
      (ready : Ready u a channel (length (join (part ∷ next ∷ parts))) ring)
      (seqno_fits : seqno < 2 ^ 32) (count_fits : length parts + 2 < 2 ^ 16)
      (parts_fit : All (λ (p : List ℕ). length p < 2 ^ 16) (part ∷ next ∷ parts))
      (small : length (join (part ∷ next ∷ parts)) ≤ max_message_size) where
    size : ℕ
    size = length (join (part ∷ next ∷ parts))

    hdr : HeaderLong
    unfolding size
    hdr = first_header seqno size (suc (suc (length parts)))

    lcmb : Lcmb
    unfolding hdr
    lcmb = arrive a 0 (long_bytes hdr ++ (c_string channel ++ part))

    fresh : FragBuf
    unfolding lcmb
    fresh = frag_buf_new table malloc has_handlers lcmb channel hdr

    with_buffer : Udpm table.Table
    unfolding fresh
    with_buffer = record u {
      frag_bufs = table.insert u.frag_bufs a.sender fresh;
      frag_bufs_total_size = (u.frag_bufs_total_size + size) % 2 ^ 32;
    }

    in_range : InRange hdr
    unfolding hdr
    in_range = record {
      seqno_fits = seqno_fits;
      size_fits = omega (arith, small);
      offset_fits = omega arith;
      no_fits = omega arith;
      count_fits = omega (arith, count_fits);
    }

    behind_header : List ℕ
    behind_header = (c_string channel ++ part) ++ a.stale 0

    strlen_here : strlen behind_header ≡ some (length channel)
    unfolding behind_header
    strlen_here =
        ap strlen (append_assoc (c_string channel) part (a.stale 0))
        ∙ strlen_lem channel (part ++ a.stale 0) named.no_nul

    name_here : take (length channel) behind_header ≡ channel
    unfolding behind_header
    name_here =
        ap (take (length channel)) (
          append_assoc (c_string channel) part (a.stale 0)
          ∙ append_assoc channel (0 ∷ []) (part ++ a.stale 0))
        ∙ take-length_append channel (0 ∷ (part ++ a.stale 0))

    no_buffer_yet :
        (sz : ℕ)
        → recv_with_header table malloc has_handlers u lcmb sz (a.clock 0) hdr
          ≡ first_fragment table malloc has_handlers u lcmb
              (a.clock 0)
              hdr
              ((sz + 2 ^ 32 - sizeof_long) % 2 ^ 32)
    unfolding lcmb size
    no_buffer_yet sz = rw (ready.none_yet, le→ltb_false max_message_size size small) refl

    buffer_made :
        (frag_size : ℕ)
        → first_fragment table malloc has_handlers u lcmb (a.clock 0) hdr frag_size
          ≡ store_fragment table malloc has_handlers with_buffer lcmb
              (a.clock 0)
              fresh
              0
              (sizeof_long + length channel + 1)
              ((frag_size + 2 ^ 32 - (length channel + 1)) % 2 ^ 32)
    unfolding with_buffer first_fragment add_fragment_buffer behind_header
    buffer_made frag_size =
        rw
          (
            strlen_here,
            name_here,
            le→ltb_false max_channel_name_length (length channel) named.short,
            ready.subscribed,
            make_room_lem (table.size_of u.frag_bufs) u ready.within_limits,
          )
          refl

    first_lem :
        recv_message_fragment table malloc has_handlers u lcmb
          (length (long_bytes hdr ++ (c_string channel ++ part)))
          (a.clock 0)
        ≡ store_fragment table malloc has_handlers with_buffer lcmb
            (a.clock 0)
            fresh
            0
            (length (long_bytes hdr ++ c_string channel))
            (length part)
    unfolding lcmb recv_message_fragment
    first_lem =
        let sz = length (long_bytes hdr ++ (c_string channel ++ part)) in
        ap (recv_with_header table malloc has_handlers u lcmb sz (a.clock 0))
          (long_header-long_bytes hdr ((c_string channel ++ part) ++ a.stale 0) in_range)
        ∙ (no_buffer_yet sz
            ∙ (buffer_made ((sz + 2 ^ 32 - sizeof_long) % 2 ^ 32)
                ∙ ap₂
                    (store_fragment table malloc has_handlers with_buffer lcmb (a.clock 0) fresh 0)
                    (omega (arith, length-append channel (0 ∷ [])))
                    (omega (
                      arith,
                      length-append (c_string channel) part,
                      length-append channel (0 ∷ []),
                      named.short,
                      parts_fit.0,
                    ))))

    size_small : size ≤ max_message_size
    size_small = unfold size in small

    size_sum : size ≡ length part + length (join (next ∷ parts))
    size_sum = unfold size in length-append part (join (next ∷ parts))

    memory_size : length (malloc size) ≡ size
    memory_size = unfold size in ready.fresh_memory

    -- The first fragment fills the front of fresh memory, `old ++ rest`.
    module _ (old rest : List ℕ) (split : malloc size ≡ old ++ rest)
        (same : length old ≡ length part) where
      length_size : size ≡ length part + length rest
      length_size =
          omega (arith, memory_size, ap (length {A = ℕ}) split, length-append old rest, same)

      first_stored :
          recv_message_fragment table malloc has_handlers u lcmb
            (length (long_bytes hdr ++ (c_string channel ++ part)))
            (a.clock 0)
          ≡ some (
            none,
            record with_buffer {
              frag_bufs = table.insert with_buffer.frag_bufs a.sender (
                  collecting channel a.sender size seqno
                    (a.utime 0)
                    (a.clock 0)
                    part
                    rest
                    (suc (length parts)));
            },
          )
      unfolding fresh
      first_stored =
          first_lem
          ∙ (ap
                (λ bytes.
                  store_fragment table malloc has_handlers with_buffer lcmb (a.clock 0)
                    (record fresh { data_of = bytes }) 0
                    (length (long_bytes hdr ++ c_string channel)) (length part))
                split
              ∙ store_fragment-more table malloc has_handlers channel a.sender size seqno
                  (a.utime 0) (record { tv_sec = 0; tv_usec = 0 }) (a.clock 0) with_buffer lcmb []
                  part old rest (long_bytes hdr ++ c_string channel) (a.stale 0)
                  (omega (arith, length_size)) (omega (arith, size_small)) same
                  (ap (λ t. long_bytes hdr ++ t) (append_assoc (c_string channel) part (a.stale 0)))
                  (length parts) (omega (arith, count_fits)))

      first-Underway :
          Underway table malloc has_handlers a laws channel
            (a.utime 0)
            ring
            (record with_buffer {
              frag_bufs = table.insert with_buffer.frag_bufs a.sender (
                  collecting channel a.sender size seqno
                    (a.utime 0)
                    (a.clock 0)
                    part
                    rest
                    (suc (length parts)));
            })
            (record hdr { fragment_offset = length part; fragment_no = 1 })
            part
            rest
            (next ∷ parts)
            (a.clock 0)
      unfolding hdr with_buffer
      first-Underway = record {
        found = laws.lookup-insert with_buffer.frag_bufs a.sender (
            collecting channel a.sender size seqno (a.utime 0) (a.clock 0) part rest
              (suc (length parts)));
        reached = refl;
        size_is = length_size;
        size_fits = size_small;
        left_is = omega (arith, length_size, size_sum);
        seqno_fits = seqno_fits;
        count_fits = omega (arith, count_fits);
        no_fits = omega (arith, count_fits);
        not_first = omega arith;
        parts_fit = parts_fit.1;
        ring_gives = ready.ring_gives;
      }

    -- The packets of a message, received in order, make the message, and its fragments are let go.
    pub receive-message_packets :
        (u' : Udpm table.Table) × (receive table malloc has_handlers a u 0
            (message_packets seqno channel part (next ∷ parts))
          ≡ some (
            whole_message channel
                  (length (join (part ∷ next ∷ parts)))
                  (a.utime 0)
                  (join (part ∷ next ∷ parts))
                ∷ [],
            u',
          ))
        × (table.lookup u'.frag_bufs a.sender ≡ none)
    unfolding lcmb
    receive-message_packets =
        let (old, rest, split, same) =
          split_at (length part) (malloc size) (omega (arith, memory_size, size_sum)) in
        let (u', e, gone) =
          following_lem table malloc has_handlers a laws channel (a.utime 0) ring _
            (record hdr { fragment_offset = length part; fragment_no = 1 }) part rest next parts
            (a.clock 0) 1 (first-Underway old rest split same) in
        (
          u',
          receive-more table malloc has_handlers a u _ 0 _ _ (first_stored old rest split same) ∙ e,
          gone,
        )
