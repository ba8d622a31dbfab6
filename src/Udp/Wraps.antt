-- ===== src/Udp/Wraps.antt =====
-- Fragments that do not fit the message they say they belong to (lcm_udp.c).
use conftron.Base.{
  ℕ, ◌+◌, ◌%◌, ◌^◌, ◌<◌, ◌≤◌, ◌≡◌, ◌≢◌, refl, ap, ◌∙◌, Bool, Option, some, none, List, ◌++◌, length,
  arith, le→ltb_false, lt→ltb, lt→leb_false, read_bytes, read_bytes-at, write_bytes,
}
use conftron.Udp.{HeaderLong, long_bytes, max_message_size, sizeof_long}
use conftron.Udp.Receive.{
  Addr, Message, TimeVal, FragBuf, FragTable, Lcmb, Udpm, store_fragment, recv_message_fragment,
  destroy_fragment_buffer,
}
use conftron.Udp.Reassembly.{IsTable, InRange, recv-store_fragment}

module _ (table : FragTable) (u : Udpm table.Table) (lcmb : Lcmb) (fbuf : FragBuf) where
  -- What is left when the fragments of a sender are given up: no message, no fragments of the sender,
  -- those of the others, and the size of the message less in use.
  abbrev pub GivenUp : Option (Option Message × Udpm table.Table) → Type 0
  GivenUp o =
      (u' : Udpm table.Table) × (o ≡ some (none, u'))
      × (table.lookup u'.frag_bufs lcmb.sender ≡ none)
      × ((a : Addr) → a ≢ lcmb.sender → table.lookup u'.frag_bufs a ≡ table.lookup u.frag_bufs a)
      × (u'.frag_bufs_total_size + fbuf.data_size ≡ u.frag_bufs_total_size)
      × (u'.ringbuf ≡ u.ringbuf)

module _ (table : FragTable) (malloc : ℕ → List ℕ) (has_handlers : List ℕ → Bool)
    (u : Udpm table.Table) (lcmb : Lcmb) (now : TimeVal) (fbuf : FragBuf) (hdr : HeaderLong)
    (part stale : List ℕ) (fits : InRange hdr) (small : hdr.msg_size ≤ max_message_size)
    (held : lcmb.buf ≡ (long_bytes hdr ++ part) ++ stale) (short : length part < 2 ^ 16)
    (found : table.lookup u.frag_bufs lcmb.sender ≡ some fbuf)
    (same_message : fbuf.msg_seqno ≡ hdr.msg_seqno) (same_size : fbuf.data_size ≡ hdr.msg_size)
    (whole : length fbuf.data_of ≡ fbuf.data_size) where
  -- A fragment that ends beyond the message, the sum of its offset and size below 2 ^ 32, makes no
  -- message, and all fragments of its message are given up: the table has none of the sender any more
  -- and keeps those of the others, and their total size is less by the size of the message. The packet's
  -- header fits the fragment buffer of its sender, which is kept under its address and counted in the
  -- total size.
  pub recv_message_fragment-dropped :
      IsTable table
      → ((t : table.Table) (a b : Addr)
          → a ≢ b
          → table.lookup (table.remove t b) a ≡ table.lookup t a)
      → fbuf.from ≡ lcmb.sender
      → fbuf.data_size ≤ u.frag_bufs_total_size
      → u.frag_bufs_total_size < 2 ^ 32
      → fbuf.data_size < hdr.fragment_offset + length part
      → hdr.fragment_offset + length part < 2 ^ 32
      → GivenUp table u lcmb fbuf
          (recv_message_fragment table malloc has_handlers u lcmb (sizeof_long + length part) now)
  unfolding store_fragment
  recv_message_fragment-dropped laws others from counted int over no_wrap = (
    destroy_fragment_buffer table malloc has_handlers u fbuf,
    recv-store_fragment table malloc has_handlers u lcmb now fbuf hdr part stale fits small held
          short found same_message same_size
        ∙ rw
            (lt→ltb fbuf.data_size ((hdr.fragment_offset + length part) % 2 ^ 32)
              (omega (arith, over, no_wrap)))
            refl,
    ap (λ a. table.lookup (table.remove u.frag_bufs a) lcmb.sender) from
        ∙ laws.lookup-remove u.frag_bufs lcmb.sender,
    (λ a other. others u.frag_bufs a fbuf.from (λ e. other (e ∙ from))),
    omega (arith, counted, int),
    refl,
  )

  -- A fragment of one byte or more whose offset and size add up to between 2 ^ 32 and 2 ^ 32 and the
  -- size of the message passes the check, the sum wrapping round, and is copied outside the memory of
  -- the message, which is undefined behaviour. The packet's header fits the fragment buffer of its
  -- sender, whose memory has the size of the message.
  pub recv_message_fragment-wraps :
      0 < length part
      → 2 ^ 32 ≤ hdr.fragment_offset + length part
      → hdr.fragment_offset + length part ≤ 2 ^ 32 + fbuf.data_size
      → recv_message_fragment table malloc has_handlers u lcmb (sizeof_long + length part) now
        ≡ none
  unfolding store_fragment write_bytes
  recv_message_fragment-wraps some_bytes wraps passes =
      recv-store_fragment table malloc has_handlers u lcmb now fbuf hdr part stale fits small held
        short found same_message same_size
      ∙ rw
          (
            le→ltb_false fbuf.data_size ((hdr.fragment_offset + length part) % 2 ^ 32)
                (omega (arith, wraps, passes, fits, short)),
            read_lem,
            lt→leb_false (hdr.fragment_offset + length part) (length fbuf.data_of)
                (omega (arith, wraps, whole, same_size, small)),
          )
          refl
    where
      read_lem : read_bytes lcmb.buf sizeof_long (length part) ≡ some part
      read_lem =
          ap (λ b. read_bytes b sizeof_long (length part)) held
          ∙ read_bytes-at (long_bytes hdr) part stale
