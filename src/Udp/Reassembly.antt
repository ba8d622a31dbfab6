-- ===== src/Udp/Reassembly.antt =====
-- How the receiver of lcm_udp.c puts fragments together that come in order.
use conftron.Base.{
  ℕ, suc, ◌+◌, ◌-◌, ◌%◌, ◌^◌, ◌<◌, ◌≤◌, ◌≡◌, refl, ap, ◌∙◌, Bool, false, none, some, List, ◌++◌,
  length, ltb, pos, read_bytes, arith, eq→==, ne→==_false, le→ltb_false, append_assoc,
  read_bytes-at, write_bytes-at,
}
use conftron.RingBuf.{RingBuf, done, dealloc}
use conftron.Udp.{HeaderLong, long_bytes, long_header, max_message_size, sizeof_long}
use conftron.Udp.Receive.{
  Addr, TimeVal, FragBuf, FragTable, Lcmb, Message, Udpm, store_fragment, recv_message_fragment,
  recv_with_header, destroy_fragment_buffer,
}

-- A header whose numbers fit their types.
pub record InRange (hdr : HeaderLong) : Type 0 where
  pub seqno_fits : hdr.msg_seqno < 2 ^ 32
  pub size_fits : hdr.msg_size < 2 ^ 32
  pub offset_fits : hdr.fragment_offset < 2 ^ 32
  pub no_fits : hdr.fragment_no < 2 ^ 16
  pub count_fits : hdr.fragments_in_msg < 2 ^ 16

same_header :
    {a1 a2 b1 b2 c1 c2 d1 d2 e1 e2 : ℕ}
    → a1 ≡ a2
    → b1 ≡ b2
    → c1 ≡ c2
    → d1 ≡ d2
    → e1 ≡ e2
    → Path HeaderLong
        (record {
          msg_seqno = a1;
          msg_size = b1;
          fragment_offset = c1;
          fragment_no = d1;
          fragments_in_msg = e1;
        })
        (record {
          msg_seqno = a2;
          msg_size = b2;
          fragment_offset = c2;
          fragment_no = d2;
          fragments_in_msg = e2;
        })
same_header p1 p2 p3 p4 p5 = rw (p1, p2, p3, p4, p5)

pub long_header-long_bytes :
    (hdr : HeaderLong) (rest : List ℕ) → InRange hdr → long_header (long_bytes hdr ++ rest) ≡ hdr
long_header-long_bytes hdr rest fits =
    same_header (omega (arith, fits)) (omega (arith, fits)) (omega (arith, fits))
      (omega (arith, fits)) (omega (arith, fits))

-- What the code relies on of GLib's table.
pub record IsTable (table : FragTable) : Type 0 where
  pub lookup-insert :
      (t : table.Table) (a : Addr) (f : FragBuf) → table.lookup (table.insert t a f) a ≡ some f
  pub lookup-remove : (t : table.Table) (a : Addr) → table.lookup (table.remove t a) a ≡ none

-- A fragment buffer of which `front` has been filled.
abbrev pub collecting : List ℕ → Addr → ℕ → ℕ → ℕ → TimeVal → List ℕ → List ℕ → ℕ → FragBuf
collecting channel from size seqno utime time front back remaining = record {
  channel = channel;
  from = from;
  data_of = front ++ back;
  data_size = size;
  fragments_remaining = remaining;
  msg_seqno = seqno;
  last_packet_time = time;
  first_packet_utime = utime;
}

-- The whole message.
abbrev pub whole_message : List ℕ → ℕ → ℕ → List ℕ → Message
whole_message channel size utime bytes = record {
  channel_name = channel;
  memory = bytes;
  data_offset = 0;
  message_size = pos size;
  utime = utime;
  buf_from_ringbuf = false;
}

module _ (table : FragTable) (malloc : ℕ → List ℕ) (has_handlers : List ℕ → Bool) where
  module _ (channel : List ℕ) (from : Addr) (size seqno utime : ℕ) (time now : TimeVal)
      (u : Udpm table.Table) (lcmb : Lcmb) (front part old back pre post : List ℕ)
      (room : length front + length part ≤ size) (small : size < 2 ^ 32)
      (same : length old ≡ length part) (held : lcmb.buf ≡ pre ++ (part ++ post)) where
    read_lem : read_bytes lcmb.buf (length pre) (length part) ≡ some part
    read_lem = ap (λ b. read_bytes b (length pre) (length part)) held ∙ read_bytes-at pre part post

    fits_lem : ltb size ((length front + length part) % 2 ^ 32) ≡ false
    fits_lem =
        le→ltb_false size ((length front + length part) % 2 ^ 32) (omega (arith, room, small))

    pub store_fragment-more :
        (r : ℕ)
        → r + 2 < 2 ^ 16
        → store_fragment table malloc has_handlers u lcmb now
            (collecting channel from size seqno utime time front (old ++ back) (suc (suc r)))
            (length front)
            (length pre)
            (length part)
          ≡ some (
            none,
            record u {
              frag_bufs =
                  table.insert u.frag_bufs from
                    (collecting channel from size seqno utime now (front ++ part) back (suc r));
            },
          )
    unfolding store_fragment
    store_fragment-more r h =
        rw
          (
            fits_lem,
            read_lem,
            write_bytes-at front old back part same,
            append_assoc front part back,
            count,
            ne→==_false (suc r) 0 (λ e. omega (arith, e)),
          )
          refl
      where
        count : (suc (suc r) + 2 ^ 16 - 1) % 2 ^ 16 ≡ suc r
        count = omega (arith, h)

    pub store_fragment-last :
        (ring : RingBuf)
        → dealloc u.ringbuf lcmb.chunk ≡ done ring
        → (u' : Udpm table.Table) × (store_fragment table malloc has_handlers u lcmb now
              (collecting channel from size seqno utime time front (old ++ back) 1)
              (length front)
              (length pre)
              (length part)
            ≡ some (some (whole_message channel size utime ((front ++ part) ++ back)), u'))
          × (u'.frag_bufs ≡ table.remove u.frag_bufs from)
    unfolding store_fragment
    store_fragment-last ring e = (
      destroy_fragment_buffer table malloc has_handlers (record u { ringbuf = ring })
          (collecting channel from size seqno utime now front (part ++ back) 0),
      rw
          (
            fits_lem,
            read_lem,
            write_bytes-at front old back part same,
            append_assoc front part back,
            e,
          )
          refl,
      refl,
    )

  -- The part of a packet behind its header goes to the fragment buffer of its sender.
  module _ (u : Udpm table.Table) (lcmb : Lcmb) (now : TimeVal) (fbuf : FragBuf) (hdr : HeaderLong)
      (part stale : List ℕ) (fits : InRange hdr) (small : hdr.msg_size ≤ max_message_size)
      (held : lcmb.buf ≡ (long_bytes hdr ++ part) ++ stale) (short : length part < 2 ^ 16)
      (found : table.lookup u.frag_bufs lcmb.sender ≡ some fbuf)
      (same_message : fbuf.msg_seqno ≡ hdr.msg_seqno)
      (same_size : fbuf.data_size ≡ hdr.msg_size) where
    pub recv-store_fragment :
        recv_message_fragment table malloc has_handlers u lcmb (sizeof_long + length part) now
        ≡ store_fragment table malloc has_handlers u lcmb now fbuf hdr.fragment_offset sizeof_long
            (length part)
    unfolding recv_message_fragment
    recv-store_fragment =
        ap (recv_with_header table malloc has_handlers u lcmb (sizeof_long + length part) now)
          header
        ∙ rw
            (
              found,
              eq→== fbuf.msg_seqno hdr.msg_seqno same_message,
              eq→== fbuf.data_size hdr.msg_size same_size,
              le→ltb_false max_message_size hdr.msg_size small,
            )
            (ap
              (store_fragment table malloc has_handlers u lcmb now fbuf hdr.fragment_offset
                sizeof_long)
              (omega (arith, short)))
      where
        header : long_header lcmb.buf ≡ hdr
        header = ap long_header held ∙ long_header-long_bytes hdr (part ++ stale) fits
