-- ===== src/Udp/Following.antt =====
-- How the receiver of lcm_udp.c takes the fragments behind the first, one packet after the other.
use conftron.Base.{
  ℕ, suc, ◌+◌, ◌^◌, ◌<◌, ◌≤◌, ◌≡◌, refl, sym, ap, ◌∙◌, Bool, Option, none, some, List, [], ◌∷◌,
  ◌++◌, length, All, ◌>>=◌, arith, append-nil, append_assoc, length-append, split_at,
}
use conftron.RingBuf.{RingBuf, done, dealloc}
use conftron.Udp.{HeaderLong, long_bytes, max_message_size, sizeof_long}
use conftron.Udp.Receive.{
  Addr, TimeVal, FragBuf, FragTable, Lcmb, Message, Udpm, store_fragment, recv_message_fragment,
}
use conftron.Udp.Reassembly.{
  InRange, IsTable, collecting, whole_message, store_fragment-more, store_fragment-last,
  recv-store_fragment,
}

-- The packets that carry `parts`, the first of them under `hdr`.
abbrev pub rest_packets : HeaderLong → List (List ℕ) → List (List ℕ)
rest_packets hdr [] = []
rest_packets hdr (part ∷ parts) =
    (long_bytes hdr ++ part)
    ∷ rest_packets
        (record hdr {
          fragment_offset = hdr.fragment_offset + length part;
          fragment_no = hdr.fragment_no + 1;
        })
        parts

abbrev pub join : List (List ℕ) → List ℕ
join [] = []
join (part ∷ parts) = part ++ join parts

abbrev pub add_message : Option Message → List Message → List Message
add_message none ms = ms
add_message (some m) ms = m ∷ ms

-- Packets that arrive from one sender: the chunk that each is put in, and for each by its number the
-- bytes behind it in the chunk, the time that the kernel gives, and the time of the clock.
pub record Arrivals : Type 0 where
  pub sender : Addr
  pub chunk : ℕ
  pub stale : ℕ → List ℕ
  pub utime : ℕ → ℕ
  pub clock : ℕ → TimeVal

abbrev pub arrive : Arrivals → ℕ → List ℕ → Lcmb
arrive a k packet = record {
  buf = packet ++ a.stale k;
  chunk = a.chunk;
  sender = a.sender;
  recv_utime = a.utime k;
}

module _ (table : FragTable) (malloc : ℕ → List ℕ) (has_handlers : List ℕ → Bool)
    (a : Arrivals) where
  -- Fragments received in order.
  pub receive : Udpm table.Table → ℕ → List (List ℕ) → Option (List Message × Udpm table.Table)
  receive u k [] = some ([], u)
  receive u k (packet ∷ packets) =
      recv_message_fragment table malloc has_handlers u (arrive a k packet) (length packet)
        (a.clock k)
      >>= λ (m, u1). receive u1 (k + 1) packets >>= λ (ms, u2). some (add_message m ms, u2)

  pub receive-more :
      (u u1 : Udpm table.Table) (k : ℕ) (packet : List ℕ) (packets : List (List ℕ))
      → recv_message_fragment table malloc has_handlers u
          (arrive a k packet)
          (length packet)
          (a.clock k)
        ≡ some (none, u1)
      → receive u k (packet ∷ packets) ≡ receive u1 (k + 1) packets
  unfolding receive
  receive-more u u1 k packet packets e = rw e (same_pair (receive u1 (k + 1) packets))
    where
      same_pair :
          (o : Option (List Message × Udpm table.Table))
          → (o >>= λ (ms, u2). some (add_message none ms, u2)) ≡ o
      same_pair none = refl
      same_pair (some p) = refl

  pub receive-last :
      (u u1 : Udpm table.Table) (k : ℕ) (packet : List ℕ) (m : Message)
      → recv_message_fragment table malloc has_handlers u
          (arrive a k packet)
          (length packet)
          (a.clock k)
        ≡ some (some m, u1)
      → receive u k (packet ∷ []) ≡ some (m ∷ [], u1)
  unfolding receive
  receive-last u u1 k packet m e = rw e refl

  module _ (laws : IsTable table) (channel : List ℕ) (utime : ℕ) (ring : RingBuf) where
    -- What is known when `parts` are still to come.
    pub record Underway (u : Udpm table.Table) (hdr : HeaderLong) (front back : List ℕ)
        (parts : List (List ℕ)) (time : TimeVal) : Type 0 where
      pub found :
          table.lookup u.frag_bufs a.sender
          ≡ some (
              collecting channel a.sender hdr.msg_size hdr.msg_seqno utime time front back
                (length parts))
      pub reached : hdr.fragment_offset ≡ length front
      pub size_is : hdr.msg_size ≡ length front + length back
      pub size_fits : hdr.msg_size ≤ max_message_size
      pub left_is : length back ≡ length (join parts)
      pub seqno_fits : hdr.msg_seqno < 2 ^ 32
      pub count_fits : hdr.fragments_in_msg < 2 ^ 16
      pub no_fits : hdr.fragment_no + length parts < 2 ^ 16 + 1
      pub not_first : 0 < hdr.fragment_no
      pub parts_fit : All (λ (part : List ℕ). length part < 2 ^ 16) parts
      pub ring_gives : dealloc u.ringbuf a.chunk ≡ done ring

    in_range :
        (u : Udpm table.Table) (hdr : HeaderLong) (front back part : List ℕ) (parts : List (List ℕ))
        (time : TimeVal)
        → Underway u hdr front back (part ∷ parts) time
        → InRange hdr
    in_range u hdr front back part parts time h = record {
      seqno_fits = h.seqno_fits;
      size_fits = omega (arith, h.size_fits);
      offset_fits = omega (arith, h.reached, h.size_is, h.size_fits);
      no_fits = omega (arith, h.no_fits);
      count_fits = h.count_fits;
    }

    recv_lem :
        (u : Udpm table.Table) (hdr : HeaderLong) (front back part : List ℕ) (parts : List (List ℕ))
        (time : TimeVal) (k : ℕ)
        → Underway u hdr front back (part ∷ parts) time
        → recv_message_fragment table malloc has_handlers u
            (arrive a k (long_bytes hdr ++ part))
            (length (long_bytes hdr ++ part))
            (a.clock k)
          ≡ store_fragment table malloc has_handlers u
              (arrive a k (long_bytes hdr ++ part))
              (a.clock k)
              (collecting channel a.sender hdr.msg_size hdr.msg_seqno utime time front back
                (suc (length parts)))
              (length front)
              (length (long_bytes hdr))
              (length part)
    recv_lem u hdr front back part parts time k h =
        let lcmb = arrive a k (long_bytes hdr ++ part) in
        let fbuf =
          collecting channel a.sender hdr.msg_size hdr.msg_seqno utime time front back
            (suc (length parts)) in
        ap (λ n. recv_message_fragment table malloc has_handlers u lcmb n (a.clock k)) (omega arith)
        ∙ (recv-store_fragment table malloc has_handlers u lcmb (a.clock k) fbuf hdr part
              (a.stale k) (in_range u hdr front back part parts time h) h.size_fits refl
              (h.parts_fit).0 h.found refl refl
            ∙ ap
                (λ offset.
                  store_fragment table malloc has_handlers u lcmb (a.clock k) fbuf offset
                    sizeof_long (length part))
                h.reached)

    last_lem :
        (u : Udpm table.Table) (hdr : HeaderLong) (front back part : List ℕ) (time : TimeVal)
        (k : ℕ)
        → Underway u hdr front back (part ∷ []) time
        → (u' : Udpm table.Table) × (receive u k (rest_packets hdr (part ∷ []))
            ≡ some (whole_message channel hdr.msg_size utime (front ++ join (part ∷ [])) ∷ [], u'))
          × (table.lookup u'.frag_bufs a.sender ≡ none)
    last_lem u hdr front back part time k h =
        let lcmb = arrive a k (long_bytes hdr ++ part) in
        let (u', e, removed) =
          store_fragment-last table malloc has_handlers channel a.sender hdr.msg_size hdr.msg_seqno
            utime time (a.clock k) u lcmb front part back [] (long_bytes hdr) (a.stale k)
            (omega (arith, h.size_is, whole)) (omega (arith, h.size_fits)) whole refl ring
            h.ring_gives in
        (
          u',
          receive-last u u' k (long_bytes hdr ++ part)
                (whole_message channel hdr.msg_size utime ((front ++ part) ++ []))
                (recv_lem u hdr front back part [] time k h
                  ∙ (ap
                        (λ bytes.
                          store_fragment table malloc has_handlers u lcmb (a.clock k)
                            (record (collecting channel a.sender hdr.msg_size hdr.msg_seqno utime
                              time front back 1) { data_of = front ++ bytes })
                            (length front) (length (long_bytes hdr)) (length part))
                        (sym (append-nil back))
                      ∙ e))
              ∙ ap (λ bytes. some (whole_message channel hdr.msg_size utime bytes ∷ [], u'))
                  (append_assoc front part []),
          ap (λ t. table.lookup t a.sender) removed ∙ laws.lookup-remove u.frag_bufs a.sender,
        )
      where
        whole : length back ≡ length part
        whole = omega (arith, h.left_is, length-append part [])

    abbrev advanced : HeaderLong → List ℕ → HeaderLong
    advanced hdr part = record hdr {
      fragment_offset = hdr.fragment_offset + length part;
      fragment_no = hdr.fragment_no + 1;
    }

    -- One fragment that is not the last; it replaces `old` in the fragment buffer.
    module _ (u : Udpm table.Table) (hdr : HeaderLong) (front back part next : List ℕ)
        (parts : List (List ℕ)) (time : TimeVal) (k : ℕ)
        (h : Underway u hdr front back (part ∷ next ∷ parts) time) (old rest : List ℕ)
        (split : back ≡ old ++ rest) (same : length old ≡ length part) where
      stored : FragBuf
      stored =
          collecting channel a.sender hdr.msg_size hdr.msg_seqno utime (a.clock k) (front ++ part)
            rest (suc (length parts))

      after_part : Udpm table.Table
      unfolding stored
      after_part = record u { frag_bufs = table.insert u.frag_bufs a.sender stored }

      length_back : length back ≡ length part + length rest
      length_back = omega (arith, ap (length {A = ℕ}) split, length-append old rest, same)

      more_stored :
          recv_message_fragment table malloc has_handlers u
            (arrive a k (long_bytes hdr ++ part))
            (length (long_bytes hdr ++ part))
            (a.clock k)
          ≡ some (none, after_part)
      unfolding after_part
      more_stored =
          let lcmb = arrive a k (long_bytes hdr ++ part) in
          recv_lem u hdr front back part (next ∷ parts) time k h
          ∙ (ap
                (λ bytes.
                  store_fragment table malloc has_handlers u lcmb (a.clock k)
                    (record (collecting channel a.sender hdr.msg_size hdr.msg_seqno utime time front
                      back (suc (suc (length parts)))) { data_of = front ++ bytes })
                    (length front) (length (long_bytes hdr)) (length part))
                split
              ∙ store_fragment-more table malloc has_handlers channel a.sender hdr.msg_size
                  hdr.msg_seqno utime time (a.clock k) u lcmb front part old rest (long_bytes hdr)
                  (a.stale k) (omega (arith, h.size_is, length_back)) (omega (arith, h.size_fits))
                  same refl (length parts) (omega (arith, h.no_fits, h.not_first)))

      still-Underway :
          Underway after_part (advanced hdr part) (front ++ part) rest (next ∷ parts) (a.clock k)
      unfolding after_part
      still-Underway = record {
        found = laws.lookup-insert u.frag_bufs a.sender stored;
        reached = omega (arith, h.reached, length-append front part);
        size_is = omega (arith, h.size_is, length-append front part, length_back);
        size_fits = h.size_fits;
        left_is = omega (arith, h.left_is, length_back, length-append part (next ++ join parts));
        seqno_fits = h.seqno_fits;
        count_fits = h.count_fits;
        no_fits = omega (arith, h.no_fits);
        not_first = omega arith;
        parts_fit = (h.parts_fit).1;
        ring_gives = h.ring_gives;
      }

    more_lem :
        (u : Udpm table.Table) (hdr : HeaderLong) (front back part next : List ℕ)
        (parts : List (List ℕ)) (time : TimeVal) (k : ℕ)
        → Underway u hdr front back (part ∷ next ∷ parts) time
        → (u1 : Udpm table.Table) × (rest : List ℕ) × (receive u k
              (rest_packets hdr (part ∷ next ∷ parts))
            ≡ receive u1 (k + 1) (rest_packets (advanced hdr part) (next ∷ parts)))
          × Underway u1 (advanced hdr part) (front ++ part) rest (next ∷ parts) (a.clock k)
    more_lem u hdr front back part next parts time k h =
        let (old, rest, split, same) =
          split_at (length part) back
            (omega (arith, h.left_is, length-append part (next ++ join parts))) in
        (
          after_part u hdr front back part next parts time k h old rest split same,
          rest,
          receive-more u _ k (long_bytes hdr ++ part)
              (rest_packets (advanced hdr part) (next ∷ parts))
              (more_stored u hdr front back part next parts time k h old rest split same),
          still-Underway u hdr front back part next parts time k h old rest split same,
        )

    pub following_lem :
        (u : Udpm table.Table) (hdr : HeaderLong) (front back part : List ℕ) (parts : List (List ℕ))
        (time : TimeVal) (k : ℕ)
        → Underway u hdr front back (part ∷ parts) time
        → (u' : Udpm table.Table) × (receive u k (rest_packets hdr (part ∷ parts))
            ≡ some
                (whole_message channel hdr.msg_size utime (front ++ join (part ∷ parts)) ∷ [], u'))
          × (table.lookup u'.frag_bufs a.sender ≡ none)
    following_lem u hdr front back part [] time k h = last_lem u hdr front back part time k h
    following_lem u hdr front back part (next ∷ parts) time k h =
        let (u1, rest, e, h1) = more_lem u hdr front back part next parts time k h in
        let (u', e', gone) =
          following_lem u1 _ (front ++ part) rest next parts (a.clock k) (k + 1) h1 in
        (
          u',
          e
              ∙ (e'
                  ∙ ap (λ bytes. some (whole_message channel hdr.msg_size utime bytes ∷ [], u'))
                      (append_assoc front part (next ++ join parts))),
          gone,
        )
