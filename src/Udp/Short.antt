-- ===== src/Udp/Short.antt =====
-- Messages in one packet, sent and received (lcm_udp.c).
use conftron.Base.{
  ℕ, ◌+◌, ◌%◌, ◌^◌, ◌<◌, ◌≤◌, ◌≡◌, refl, ap, ap₂, ◌∙◌, Bool, true, some, List, [], ◌∷◌, ◌++◌,
  length, take, drop, arith, pos, negsuc, ◌-ℤ◌, le→ltb_false, lt→ltb, eq→==, append_assoc,
  length-append, take-length_append, read_bytes, read_bytes-at,
}
use conftron.CoreTypes.{bytes32, value32, c_string}
use conftron.CoreTypes.Words.{to_int-pos}
use conftron.Udp.{magic_short, max_channel_name_length, sizeof_short, strlen, memory32}
use conftron.Udp.Receive.{FragTable, Lcmb, Message, TimeVal, Udpm, recv_packet, recv_short_message}
use conftron.Udp.Following.{Arrivals, arrive}
use conftron.Udp.Delivery.{IsChannel, strlen_lem}
use conftron.Udp.Transmit.{Net, publish, publish_short}
use conftron.Udp.Publish.{payload}

-- The bytes in front of the channel's name.
abbrev pub short_bytes : ℕ → List ℕ
short_bytes seqno = bytes32 magic_short ++ memory32 seqno

-- What the receiver makes of the memory of a packet of `sz` bytes.
abbrev pub short_message : List ℕ → ℕ → List ℕ → ℕ → Message
short_message channel sz memory utime = record {
  channel_name = channel;
  memory = memory;
  data_offset = 8 + length channel + 1;
  message_size = pos sz -ℤ pos (8 + length channel + 1);
  utime = utime;
  buf_from_ringbuf = true;
}

module _ (table : FragTable) (malloc : ℕ → List ℕ) (has_handlers : List ℕ → Bool) (a : Arrivals)
    (u : Udpm table.Table) (channel : List ℕ) (named : IsChannel channel)
    (subscribed : has_handlers channel ≡ true) (now : TimeVal) where
  -- A packet of 8 bytes or more with a short header, and then in memory a name and a NUL.
  recv_packet_lem :
      (lcmb : Lcmb) (seqno sz : ℕ) (rest : List ℕ)
      → lcmb.buf ≡ short_bytes seqno ++ (c_string channel ++ rest)
      → 8 ≤ sz
      → recv_packet table malloc has_handlers u lcmb sz now
        ≡ some (
          some (short_message channel sz lcmb.buf lcmb.recv_utime),
          record u { udp_rx = (u.udp_rx + 1) % 2 ^ 32 },
        )
  unfolding recv_packet recv_short_message
  recv_packet_lem lcmb seqno sz rest held long =
      rw
        (
          le→ltb_false sz 8 long,
          magic_here,
          strlen_here,
          name_here,
          le→ltb_false max_channel_name_length (length channel) named.short,
          subscribed,
        )
        refl
    where
      magic_here : value32 (take 4 lcmb.buf) ≡ magic_short
      magic_here = ap (λ b. value32 (take 4 b)) held

      strlen_here : strlen (drop sizeof_short lcmb.buf) ≡ some (length channel)
      strlen_here =
          ap (λ b. strlen (drop sizeof_short b)) held ∙ strlen_lem channel rest named.no_nul

      name_here : take (length channel) (drop sizeof_short lcmb.buf) ≡ channel
      name_here =
          ap (λ b. take (length channel) (drop sizeof_short b)) held
          ∙ (ap (take (length channel)) (append_assoc channel (0 ∷ []) rest)
              ∙ take-length_append channel (0 ∷ rest))

  -- A bare short header of 8 bytes, behind which the memory of the packet happens to hold a proper
  -- name with a subscriber, is delivered under that name, with a size of the data below zero: minus
  -- one less the length of the name.
  pub recv_packet-bare :
      (seqno : ℕ) (rest : List ℕ) (lcmb : Lcmb)
      → lcmb.buf ≡ short_bytes seqno ++ (c_string channel ++ rest)
      → (m : Message) × (recv_packet table malloc has_handlers u lcmb 8 now
          ≡ some (some m, record u { udp_rx = (u.udp_rx + 1) % 2 ^ 32 }))
        × (m.channel_name ≡ channel)
        × (m.message_size ≡ negsuc (length channel))
  recv_packet-bare seqno rest lcmb held = (
    short_message channel 8 lcmb.buf lcmb.recv_utime,
    recv_packet_lem lcmb seqno 8 rest held (omega arith),
    refl,
    ground arith,
  )

  abbrev pub short_packet : ℕ → List ℕ → List ℕ
  short_packet seqno bytes = bytes32 magic_short ++ (memory32 seqno ++ (c_string channel ++ bytes))

  layout :
      (bytes : List ℕ) (seqno : ℕ)
      → short_packet seqno bytes ++ a.stale 0
        ≡ short_bytes seqno ++ (c_string channel ++ (bytes ++ a.stale 0))
  layout bytes seqno =
      ap (λ t. short_bytes seqno ++ t) (append_assoc (c_string channel) bytes (a.stale 0))

  data_lem :
      (bytes : List ℕ) (seqno : ℕ)
      → read_bytes (short_packet seqno bytes ++ a.stale 0) (8 + length channel + 1) (length bytes)
        ≡ some bytes
  data_lem bytes seqno =
      ap₂ (λ b o. read_bytes b o (length bytes)) (layout bytes seqno)
        (omega (arith, length-append channel (0 ∷ [])))
      ∙ read_bytes-at (short_bytes seqno ++ c_string channel) bytes (a.stale 0)

  -- A message of fewer than 1400 bytes, channel and NUL counted, is sent by lcm_udpm_publish, on a
  -- socket that takes every packet, as one packet, of which the receiver makes this message: its
  -- channel, the size of its data, and the data at its offset in the packet, whatever bytes stand
  -- behind the packet in memory. The name of the channel is proper and has a subscriber.
  pub publish-recv_packet :
      (net : Net) (accept : List ℕ → net.World → net.World)
      (takes : (p : List ℕ) (w : net.World) → net.sendmsg p w ≡ (pos (length p), accept p w))
      (bytes : List ℕ) (seqno : ℕ) (w : net.World)
      → payload channel bytes < 1400
      → (packet : List ℕ) × (m : Message) × (publish net channel bytes seqno w
          ≡ some (pos 0, (seqno + 1) % 2 ^ 32, accept packet w))
        × (recv_packet table malloc has_handlers u (arrive a 0 packet) (length packet) now
            ≡ some (some m, record u { udp_rx = (u.udp_rx + 1) % 2 ^ 32 }))
        × (m.channel_name ≡ channel)
        × (m.message_size ≡ pos (length bytes))
        × (read_bytes m.memory m.data_offset (length bytes) ≡ some bytes)
  unfolding publish publish_short
  publish-recv_packet net accept takes bytes seqno w small =
      let packet = short_packet seqno bytes in
      (
        packet,
        short_message channel (length packet) (packet ++ a.stale 0) (a.utime 0),
        rw
            (
              le→ltb_false max_channel_name_length (length channel) named.short,
              size_lem,
              to_int-pos (payload channel bytes) (omega (arith, small)),
              lt→ltb (payload channel bytes + 0) (1400 + 0) (omega (arith, small)),
              takes,
              eq→== (length packet) (length packet) refl,
            )
            refl,
        recv_packet_lem (arrive a 0 packet) seqno (length packet) (bytes ++ a.stale 0)
            (layout bytes seqno) (omega arith),
        refl,
        ground (arith, length-append (c_string channel) bytes, length-append channel (0 ∷ [])),
        data_lem bytes seqno,
      )
    where
      size_lem : payload channel bytes % 2 ^ 32 ≡ payload channel bytes
      size_lem = omega (arith, small)
