-- ===== src/Udp/Transmit.antt =====
-- lcm_udpm_publish of lcm_udp.c. `sendmsg` is the socket: it takes the bytes of a packet and gives the
-- status. An assertion that fails is `none`.
use conftron.Base.{
  ℕ, zero, suc, ◌+◌, ◌-◌, ◌/◌, ◌%◌, ◌^◌, Bool, false, Option, none, some, List, ◌++◌, length, min,
  take, if◌then◌else◌, ltb, leb, ◌==◌, ℤ, pos, negsuc, minus_one, to_int, ltb_ℤ, read_bytes, ◌>>=◌,
}
use conftron.CoreTypes.{bytes32, c_string}
use conftron.Udp.{
  HeaderLong, long_bytes, magic_short, max_channel_name_length, short_message_max_size, sizeof_long,
  memory32,
}

pub record Net : Type 1 where
  pub World : Type 0
  pub sendmsg : List ℕ → World → ℤ × World

abbrev pub is_size : ℤ → ℕ → Bool
is_size (pos n) m = n == m
is_size (negsuc n) m = false

abbrev pub first_header : ℕ → ℕ → ℕ → HeaderLong
first_header msg_seqno datalen nfragments = record {
  msg_seqno = msg_seqno;
  msg_size = datalen;
  fragment_offset = 0;
  fragment_no = 0;
  fragments_in_msg = nfragments;
}

-- The rest of a long message: `fragments` more are to come, `status` and `packet_size` are of the one
-- before; the last two numbers are the status of the last packet and the offset that is reached.
module _ (net : Net) where
  open net use {World, sendmsg}

  unfoldable pub send_rest : ℕ → HeaderLong → List ℕ → ℕ → ℤ → World → Option (ℤ × ℕ × World)
  send_rest zero hdr bytes packet_size status w = some (status, hdr.fragment_offset, w)
  send_rest (suc fragments) hdr bytes packet_size status w =
      let fraglen =
        min short_message_max_size ((length bytes + 2 ^ 32 - hdr.fragment_offset) % 2 ^ 32) in
      let rest = read_bytes bytes hdr.fragment_offset fraglen >>= λ part.
      let (status1, w1) = sendmsg (long_bytes hdr ++ part) w in
      send_rest fragments
        (record hdr {
          fragment_offset = (hdr.fragment_offset + fraglen) % 2 ^ 32;
          fragment_no = (hdr.fragment_no + 1) % 2 ^ 16;
        })
        bytes (sizeof_long + fraglen) status1 w1 in
      if is_size status packet_size then rest else some (status, hdr.fragment_offset, w)

  -- The assertion behind the loop.
  abbrev pub sanity_check : ℕ → Option (ℤ × ℕ × World) → Option (ℤ × World)
  sanity_check datalen none = none
  sanity_check datalen (some (status, offset, w)) =
      if is_size status 0
      then (if offset == datalen then some (pos 0, w) else none)
      else some (pos 0, w)

  -- A message in fragments.
  unfoldable pub publish_long : ℕ → List ℕ → List ℕ → ℕ → World → Option (ℤ × World)
  publish_long msg_seqno channel bytes nfragments w =
      let firstfrag = short_message_max_size - (length channel + 1) in
      let hdr = first_header msg_seqno (length bytes) nfragments in
      let packet = long_bytes hdr ++ (c_string channel ++ take firstfrag bytes) in
      let (status, w1) = sendmsg packet w in
      if leb firstfrag (length bytes)
      then sanity_check (length bytes) (
          send_rest (nfragments - 1) (record hdr { fragment_offset = firstfrag; fragment_no = 1 })
            bytes (sizeof_long + short_message_max_size) status w1)
      else none

  -- A message in one packet.
  unfoldable pub publish_short : ℕ → List ℕ → List ℕ → World → ℤ × World
  publish_short msg_seqno channel bytes w =
      let packet = bytes32 magic_short ++ (memory32 msg_seqno ++ (c_string channel ++ bytes)) in
      let (status, w1) = sendmsg packet w in
      (if is_size status (length packet) then pos 0 else status, w1)

  -- payload_size / LCM_SHORT_MESSAGE_MAX_SIZE + !!(payload_size % LCM_SHORT_MESSAGE_MAX_SIZE)
  abbrev pub nfragments_of : ℕ → ℕ
  nfragments_of payload_size =
      payload_size / short_message_max_size
      + (if payload_size % short_message_max_size == 0 then 0 else 1)

  abbrev pub with_seqno : ℕ → ℤ × World → ℤ × ℕ × World
  with_seqno msg_seqno (result, w) = (result, (msg_seqno + 1) % 2 ^ 32, w)

  -- lcm_udpm_publish; the state is the counter of messages and the world. The length of the data is
  -- an unsigned int, their sum with the channel an int.
  unfoldable pub publish : List ℕ → List ℕ → ℕ → World → Option (ℤ × ℕ × World)
  publish channel bytes msg_seqno w =
      let payload_size = to_int ((length channel + 1 + length bytes) % 2 ^ 32) in
      if ltb max_channel_name_length (length channel)
      then some (minus_one, msg_seqno, w)
      else if ltb_ℤ payload_size (pos short_message_max_size)
      then some (with_seqno msg_seqno (publish_short msg_seqno channel bytes w))
      else (let nfragments = nfragments_of ((length channel + 1 + length bytes) % 2 ^ 32) in
          if ltb 65535 nfragments
          then some (minus_one, msg_seqno, w)
          else publish_long msg_seqno channel bytes nfragments w >>= λ r.
              some (with_seqno msg_seqno r))
