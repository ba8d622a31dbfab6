-- ===== src/Udp/Receive.antt =====
-- The receiving side of lcm_udp.c: one packet is taken apart, and fragments are put together. The
-- table of fragment buffers is GLib's; `malloc` gives the content of fresh memory, `has_handlers` is
-- lcm_has_handlers. A call that is undefined behaviour or ends the program is `none`.
use conftron.Base.{
  ℕ, zero, suc, ◌+◌, ◌-◌, ◌%◌, ◌^◌, Bool, true, false, not, ◌&&◌, ◌||◌, Option, none, some, List,
  [], ◌∷◌, take, drop, if◌then◌else◌, ltb, ◌==◌, ℤ, pos, ◌-ℤ◌, Buf, read_bytes, write_bytes, ◌>>=◌,
}
use conftron.CoreTypes.{value32}
use conftron.RingBuf.{RingBuf, Result, done, aborted, dealloc}
use conftron.Udp.{
  HeaderLong, long_header, magic_short, magic_long, max_channel_name_length, max_message_size,
  sizeof_short, sizeof_long, strlen,
}

-- struct sockaddr_in
pub record Addr : Type 0 where
  pub sin_port : ℕ
  pub s_addr : ℕ
  pub sin_family : ℕ

-- _sockaddr_in_equal
abbrev pub sockaddr_in_equal : Addr → Addr → Bool
sockaddr_in_equal a b =
    (a.s_addr == b.s_addr) && ((a.sin_port == b.sin_port) && (a.sin_family == b.sin_family))

-- GTimeVal
pub record TimeVal : Type 0 where
  pub tv_sec : ℕ
  pub tv_usec : ℕ

-- _timeval_compare (a, b) < 0
abbrev pub timeval_before : TimeVal → TimeVal → Bool
timeval_before a b =
    not ((a.tv_sec == b.tv_sec) && (a.tv_usec == b.tv_usec))
    && not (ltb b.tv_sec a.tv_sec || ((a.tv_sec == b.tv_sec) && ltb b.tv_usec a.tv_usec))

-- lcm_frag_buf_t
pub record FragBuf : Type 0 where
  pub channel : List ℕ
  pub from : Addr
  pub data_of : Buf
  pub data_size : ℕ
  pub fragments_remaining : ℕ
  pub msg_seqno : ℕ
  pub last_packet_time : TimeVal
  pub first_packet_utime : ℕ

-- The table from addresses to fragment buffers.
pub record FragTable : Type 1 where
  pub Table : Type 0
  pub lookup : Table → Addr → Option FragBuf
  pub insert : Table → Addr → FragBuf → Table
  pub remove : Table → Addr → Table
  pub size_of : Table → ℕ
  -- The values in the order of g_hash_table_foreach.
  pub values : Table → List FragBuf

-- What lcm_buf_t says of a packet: its memory, of which the packet fills the front, and its chunk in
-- the ring buffer.
pub record Lcmb : Type 0 where
  pub buf : Buf
  pub chunk : ℕ
  pub sender : Addr
  pub recv_utime : ℕ

-- What lcm_buf_t says of a whole message.
pub record Message : Type 0 where
  pub channel_name : List ℕ
  pub memory : Buf
  pub data_offset : ℕ
  pub message_size : ℤ
  pub utime : ℕ
  pub buf_from_ringbuf : Bool

-- lcm_udpm_t, as far as a packet concerns it
pub record Udpm (Table : Type 0) : Type 0 where
  pub frag_bufs : Table
  pub frag_bufs_total_size : ℕ
  pub frag_bufs_max_total_size : ℕ
  pub max_n_frag_bufs : ℕ
  pub ringbuf : RingBuf
  pub udp_rx : ℕ
  pub udp_discarded_bad : ℕ

-- _find_lru_frag_buf, over all of the table
abbrev pub find_lru_frag_buf : Option FragBuf → List FragBuf → Option FragBuf
find_lru_frag_buf lru [] = lru
find_lru_frag_buf none (c ∷ rest) = find_lru_frag_buf (some c) rest
find_lru_frag_buf (some l) (c ∷ rest) =
    find_lru_frag_buf (some (if timeval_before c.last_packet_time l.last_packet_time then c else l))
      rest

abbrev pub discard_bad : {Table : Type 0} → Udpm Table → Udpm Table
discard_bad u = record u { udp_discarded_bad = (u.udp_discarded_bad + 1) % 2 ^ 32 }

module _ (table : FragTable) (malloc : ℕ → List ℕ) (has_handlers : List ℕ → Bool) where
  open table use {Table, lookup, insert, remove, size_of, values}

  -- lcm_frag_buf_new; the time of the last packet is set when the packet is stored.
  abbrev pub frag_buf_new : Lcmb → List ℕ → HeaderLong → FragBuf
  frag_buf_new lcmb channel hdr = record {
    channel = channel;
    from = lcmb.sender;
    data_of = malloc hdr.msg_size;
    data_size = hdr.msg_size;
    fragments_remaining = hdr.fragments_in_msg;
    msg_seqno = hdr.msg_seqno;
    last_packet_time = record { tv_sec = 0; tv_usec = 0 };
    first_packet_utime = lcmb.recv_utime;
  }

  -- _destroy_fragment_buffer
  abbrev pub destroy_fragment_buffer : Udpm Table → FragBuf → Udpm Table
  destroy_fragment_buffer u fbuf = record u {
    frag_bufs_total_size = (u.frag_bufs_total_size + 2 ^ 32 - fbuf.data_size) % 2 ^ 32;
    frag_bufs = remove u.frag_bufs fbuf.from;
  }

  abbrev pub over_limit : Udpm Table → Bool
  over_limit u =
      ltb u.frag_bufs_max_total_size u.frag_bufs_total_size
      || ltb u.max_n_frag_bufs (size_of u.frag_bufs)

  abbrev pub drop_lru : Udpm Table → Option FragBuf → Udpm Table
  drop_lru u none = u
  drop_lru u (some fbuf) = destroy_fragment_buffer u fbuf

  -- The loop of _add_fragment_buffer, on fuel; with nothing to remove it goes on for ever.
  unfoldable pub make_room : ℕ → Udpm Table → Option (Udpm Table)
  make_room zero u = if over_limit u then none else some u
  make_room (suc fuel) u =
      let rest = make_room fuel (drop_lru u (find_lru_frag_buf none (values u.frag_bufs))) in
      if over_limit u then rest else some u

  -- _add_fragment_buffer
  unfoldable pub add_fragment_buffer : Udpm Table → FragBuf → Option (Udpm Table)
  add_fragment_buffer u fbuf = make_room (size_of u.frag_bufs) u >>= λ u1. some (record u1 {
    frag_bufs = insert u1.frag_bufs fbuf.from fbuf;
    frag_bufs_total_size = (u1.frag_bufs_total_size + fbuf.data_size) % 2 ^ 32;
  })

  -- The chunk of the packet is given back, and the message takes over the memory of the fragments.
  abbrev pub finish : Udpm Table → FragBuf → Result RingBuf → Option (Option Message × Udpm Table)
  finish u fbuf aborted = none
  finish u fbuf (done ring) = some (
    some (record {
      channel_name = fbuf.channel;
      memory = fbuf.data_of;
      data_offset = 0;
      message_size = pos fbuf.data_size;
      utime = fbuf.first_packet_utime;
      buf_from_ringbuf = false;
    }),
    destroy_fragment_buffer (record u { ringbuf = ring }) fbuf,
  )

  -- The copy of `frag_size` bytes at `start` of the packet into the fragment buffer.
  unfoldable pub store_fragment :
      Udpm Table → Lcmb → TimeVal → FragBuf → ℕ → ℕ → ℕ → Option (Option Message × Udpm Table)
  store_fragment u lcmb now fbuf fragment_offset start frag_size =
      if ltb fbuf.data_size ((fragment_offset + frag_size) % 2 ^ 32)
      then some (none, destroy_fragment_buffer u fbuf)
      else (read_bytes lcmb.buf start frag_size >>= λ bs.
          write_bytes fbuf.data_of fragment_offset bs >>= λ copied.
          let fbuf1 = record fbuf {
            data_of = copied;
            last_packet_time = now;
            fragments_remaining = (fbuf.fragments_remaining + 2 ^ 16 - 1) % 2 ^ 16;
          } in
          let whole = finish u fbuf1 (dealloc u.ringbuf lcmb.chunk) in
          if fbuf1.fragments_remaining == 0
          then whole
          else some (none, record u { frag_bufs = insert u.frag_bufs fbuf.from fbuf1 }))

  -- The first fragment of a message makes a fragment buffer.
  unfoldable pub first_fragment :
      Udpm Table → Lcmb → TimeVal → HeaderLong → ℕ → Option (Option Message × Udpm Table)
  first_fragment u lcmb now hdr frag_size = strlen (drop sizeof_long lcmb.buf) >>= λ channel_sz.
      let channel = take channel_sz (drop sizeof_long lcmb.buf) in
      if ltb max_channel_name_length channel_sz
      then some (none, discard_bad u)
      else if has_handlers channel
      then (let fbuf = frag_buf_new lcmb channel hdr in
          add_fragment_buffer u fbuf >>= λ u1.
          store_fragment u1 lcmb now fbuf hdr.fragment_offset (sizeof_long + channel_sz + 1)
            ((frag_size + 2 ^ 32 - (channel_sz + 1)) % 2 ^ 32))
      else some (none, u)

  -- Fragments of an earlier message from the sender are given up.
  abbrev pub discard_stale : Udpm Table → HeaderLong → Option FragBuf → Option FragBuf × Udpm Table
  discard_stale u hdr none = (none, u)
  discard_stale u hdr (some fbuf) =
      if (fbuf.msg_seqno == hdr.msg_seqno) && (fbuf.data_size == hdr.msg_size)
      then (some fbuf, u)
      else (none, destroy_fragment_buffer u fbuf)

  abbrev pub fragment_for :
      Lcmb
      → TimeVal
      → HeaderLong
      → ℕ
      → Option FragBuf × Udpm Table
      → Option (Option Message × Udpm Table)
  fragment_for lcmb now hdr frag_size (none, u) =
      if hdr.fragment_no == 0 then first_fragment u lcmb now hdr frag_size else some (none, u)
  fragment_for lcmb now hdr frag_size (some fbuf, u) =
      store_fragment u lcmb now fbuf hdr.fragment_offset sizeof_long frag_size

  -- A packet of `sz` bytes with this header.
  abbrev pub recv_with_header :
      Udpm Table → Lcmb → ℕ → TimeVal → HeaderLong → Option (Option Message × Udpm Table)
  recv_with_header u lcmb sz now hdr =
      let frag_size = (sz + 2 ^ 32 - sizeof_long) % 2 ^ 32 in
      let kept = discard_stale u hdr (lookup u.frag_bufs lcmb.sender) in
      if ltb max_message_size hdr.msg_size
      then some (none, kept.1)
      else fragment_for lcmb now hdr frag_size kept

  -- _recv_message_fragment; the answer is the message if this packet completes it.
  unfoldable pub recv_message_fragment :
      Udpm Table → Lcmb → ℕ → TimeVal → Option (Option Message × Udpm Table)
  recv_message_fragment u lcmb sz now = recv_with_header u lcmb sz now (long_header lcmb.buf)

  -- _recv_short_message
  unfoldable pub recv_short_message : Udpm Table → Lcmb → ℕ → Option (Option Message × Udpm Table)
  recv_short_message u lcmb sz = strlen (drop sizeof_short lcmb.buf) >>= λ channel_size.
      let channel = take channel_size (drop sizeof_short lcmb.buf) in
      let counted = record u { udp_rx = (u.udp_rx + 1) % 2 ^ 32 } in
      if ltb max_channel_name_length channel_size
      then some (none, discard_bad u)
      else if has_handlers channel
      then some (
        some (record {
          channel_name = channel;
          memory = lcmb.buf;
          data_offset = sizeof_short + channel_size + 1;
          message_size = pos sz -ℤ pos (sizeof_short + channel_size + 1);
          utime = lcmb.recv_utime;
          buf_from_ringbuf = true;
        }),
        counted,
      )
      else some (none, counted)

  -- What the loop of udp_read_packet does with a packet of `sz` bytes.
  unfoldable pub recv_packet :
      Udpm Table → Lcmb → ℕ → TimeVal → Option (Option Message × Udpm Table)
  recv_packet u lcmb sz now =
      let rcvd_magic = value32 (take 4 lcmb.buf) in
      if ltb sz sizeof_short
      then some (none, discard_bad u)
      else if rcvd_magic == magic_short
      then recv_short_message u lcmb sz
      else if rcvd_magic == magic_long
      then recv_message_fragment u lcmb sz now
      else some (none, discard_bad u)
