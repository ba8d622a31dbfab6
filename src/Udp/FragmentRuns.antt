-- ===== src/Udp/FragmentRuns.antt =====
-- Fragments that are dropped or copied too far, and the buffers of a round, on the table that is a list.
use conftron.Base.{
  ◌==◌, ◌&&◌, ◌≢◌, Bool, Bool-cases, inl, inr, false, sym, ◌∙◌, ℕ, ◌+◌, ◌-◌, ◌^◌, ◌<◌, ◌≡◌, refl,
  true, none, List, [], ◌∷◌, ◌++◌, arith,
}
use conftron.Udp.Receive.{sockaddr_in_equal, Addr, FragBuf, Lcmb, Udpm}
use conftron.Udp.{HeaderLong, long_bytes, sizeof_long}
use conftron.Udp.Receive.{recv_message_fragment}
use conftron.Udp.Reassembly.{InRange}
use conftron.Udp.Thread.{Reader, lcm_buf_queue_new, packet, read_round, running, lcm_udpm_handle}
use conftron.Udp.Buffers.{Keeps, KeepsAll, read_round-Keeps, lcm_udpm_handle-KeepsAll}
use conftron.Udp.Wraps.{GivenUp, recv_message_fragment-dropped, recv_message_fragment-wraps}
use conftron.Udp.Runs.{
  list_table, list_table-IsTable, lookup_list, remove_list, receiver, peer, zeros, noon,
}

-- A message of 10 bytes of which two fragments are missing.
abbrev halfway : FragBuf
halfway = record {
  channel = 84 ∷ [];
  from = peer;
  data_of = zeros 10;
  data_size = 10;
  fragments_remaining = 2;
  msg_seqno = 3;
  last_packet_time = noon;
  first_packet_utime = 0;
}

abbrev waiting : Udpm (List (Addr × FragBuf))
waiting = record receiver { frag_bufs = (peer, halfway) ∷ []; frag_bufs_total_size = 10 }

abbrev header_at : ℕ → HeaderLong
header_at offset = record {
  msg_seqno = 3;
  msg_size = 10;
  fragment_offset = offset;
  fragment_no = 1;
  fragments_in_msg = 3;
}

header_at-InRange : (offset : ℕ) → offset < 2 ^ 32 → InRange (header_at offset)
header_at-InRange offset h = record {
  seqno_fits = omega arith;
  size_fits = omega arith;
  offset_fits = h;
  no_fits = omega arith;
  count_fits = omega arith;
}

abbrev fragment_at : ℕ → Lcmb
fragment_at offset = record {
  buf = (long_bytes (header_at offset) ++ (1 ∷ 2 ∷ [])) ++ (0 ∷ []);
  chunk = 28;
  sender = peer;
  recv_utime = 0;
}

and_true : (b c : Bool) → b && c ≡ true → (b ≡ true) × (c ≡ true)
and_true true c h = (refl, h)
and_true false c h = cc h

same_numbers : (a b : ℕ) → (a == b) ≡ true → a ≡ b
same_numbers a b h = ground arith

sockaddr_in_equal_sound : (a b : Addr) → sockaddr_in_equal a b ≡ true → a ≡ b
sockaddr_in_equal_sound a b h =
    let (same_addr, rest) = and_true (a.s_addr == b.s_addr) _ h in
    let (same_port, same_family) = and_true (a.sin_port == b.sin_port) _ rest in
    cc (
      same_numbers a.s_addr b.s_addr same_addr,
      same_numbers a.sin_port b.sin_port same_port,
      same_numbers a.sin_family b.sin_family same_family,
    )

lookup-remove_other :
    (t : List (Addr × FragBuf)) (a b : Addr)
    → a ≢ b
    → lookup_list (remove_list t b) a ≡ lookup_list t a
lookup-remove_other [] a b h = refl
lookup-remove_other ((c, f) ∷ rest) a b h = elim (Bool-cases (sockaddr_in_equal c b)) [
  | inl e ↦ elim (Bool-cases (sockaddr_in_equal c a)) [
    | inl g ↦ absurd (h (sym (sockaddr_in_equal_sound c a g) ∙ sockaddr_in_equal_sound c b e))
    | inr g ↦ rw (e, g) (lookup-remove_other rest a b h)
  ]
  | inr e ↦ elim (Bool-cases (sockaddr_in_equal c a)) [
    | inl g ↦ rw e (rw g refl)
    | inr g ↦ rw e (rw g (lookup-remove_other rest a b h))
  ]
]

recv_message_fragment-dropped_example : GivenUp list_table waiting (fragment_at 9) halfway (
    recv_message_fragment list_table zeros
      (λ c. true)
      waiting
      (fragment_at 9)
      (sizeof_long + 2)
      noon)
recv_message_fragment-dropped_example =
    recv_message_fragment-dropped list_table zeros (λ c. true) waiting (fragment_at 9) noon halfway
      (header_at 9) (1 ∷ 2 ∷ []) (0 ∷ []) (header_at-InRange 9 (omega arith)) (omega arith) refl
      (omega arith) refl refl refl refl list_table-IsTable lookup-remove_other refl (omega arith)
      (omega arith) (omega arith) (omega arith)

recv_message_fragment-wraps_example :
    recv_message_fragment list_table zeros
      (λ c. true)
      waiting
      (fragment_at (2 ^ 32 - 1))
      (sizeof_long + 2)
      noon
    ≡ none
recv_message_fragment-wraps_example =
    recv_message_fragment-wraps list_table zeros (λ c. true) waiting (fragment_at (2 ^ 32 - 1)) noon
      halfway (header_at (2 ^ 32 - 1)) (1 ∷ 2 ∷ []) (0 ∷ [])
      (header_at-InRange (2 ^ 32 - 1) (omega arith)) (omega arith) refl (omega arith) refl refl refl
      refl (omega arith) (omega arith) (omega arith)

-- Two empty buffers, and a packet that no program sends.
abbrev reader : Reader (List (Addr × FragBuf))
reader = record {
  udpm = receiver;
  inbufs_empty = 1 ∷ 2 ∷ [];
  inbufs_filled = lcm_buf_queue_new;
  in_hand = none;
  udp_discarded_buf = 0;
  notified = 0;
}

read_round-Keeps_example :
    Keeps 2 0 (read_round list_table zeros (λ c. true) reader (packet (7 ∷ 7 ∷ []) 2 peer 0 noon))
read_round-Keeps_example =
    read_round-Keeps list_table zeros (λ c. true) reader (packet (7 ∷ 7 ∷ []) 2 peer 0 noon)

lcm_udpm_handle-KeepsAll_example :
    KeepsAll 2
      (lcm_udpm_handle list_table zeros (λ c. true) running true (record reader { notified = 1 }))
lcm_udpm_handle-KeepsAll_example =
    lcm_udpm_handle-KeepsAll list_table zeros (λ c. true) running true
      (record reader { notified = 1 })
