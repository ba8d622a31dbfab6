-- ===== src/Udp/Runs.antt =====
-- A table that is a list, a receiver and a sender, and the theorems for a message of 3000 bytes.
use conftron.Base.{
  ℕ, ◌+◌, ◌^◌, ◌≡◌, refl, true, Option, none, some, List, [], ◌∷◌, ◌++◌, length, map, replicate,
  length-replicate, if◌then◌else◌, eq→==, Bool-cases, inl, inr, pos, arith,
}
use conftron.RingBuf.{
  RingBuf, Result, done, aborted, magic, update, dealloc, dealloc_rec, release, forget, drop_head,
  ends_are_open, empty_if_unused,
}
use conftron.Udp.Receive.{Addr, TimeVal, FragBuf, FragTable, Lcmb, Udpm, sockaddr_in_equal}
use conftron.Udp.Reassembly.{IsTable, whole_message}
use conftron.Udp.Following.{Arrivals, receive}
use conftron.Udp.Delivery.{IsChannel, Ready}
use conftron.Udp.Transmit.{Net, publish}
use conftron.Udp.Rest.{accept_all}
use conftron.Udp.EndToEnd.{publish-receive}
use conftron.Udp.Receive.{Message, recv_packet}
use conftron.Udp.Following.{arrive}
use conftron.Udp.Short.{short_bytes, publish-recv_packet, recv_packet-bare}
use conftron.CoreTypes.{c_string}
use conftron.Base.{negsuc, read_bytes}

abbrev pub lookup_list : List (Addr × FragBuf) → Addr → Option FragBuf
lookup_list [] a = none
lookup_list ((b, f) ∷ rest) a = if sockaddr_in_equal b a then some f else lookup_list rest a

abbrev pub remove_list : List (Addr × FragBuf) → Addr → List (Addr × FragBuf)
remove_list [] a = []
remove_list ((b, f) ∷ rest) a =
    if sockaddr_in_equal b a then remove_list rest a else (b, f) ∷ remove_list rest a

abbrev pub list_table : FragTable
list_table = record {
  Table = List (Addr × FragBuf);
  lookup = lookup_list;
  insert = λ t a f. (a, f) ∷ remove_list t a;
  remove = remove_list;
  size_of = length {A = Addr × FragBuf};
  values = map (λ (a, f). f);
}

sockaddr_in_equal_self : (a : Addr) → sockaddr_in_equal a a ≡ true
sockaddr_in_equal_self a =
    rw
      (
        eq→== a.s_addr a.s_addr refl,
        eq→== a.sin_port a.sin_port refl,
        eq→== a.sin_family a.sin_family refl,
      )
      refl

lookup-remove : (t : List (Addr × FragBuf)) (a : Addr) → lookup_list (remove_list t a) a ≡ none
lookup-remove [] a = refl
lookup-remove ((b, f) ∷ rest) a = elim (Bool-cases (sockaddr_in_equal b a)) [
  | inl e ↦ rw e (lookup-remove rest a)
  | inr e ↦ rw e (rw e (lookup-remove rest a))
]

pub list_table-IsTable : IsTable list_table
list_table-IsTable = record {
  lookup-insert = λ t a f. rw (sockaddr_in_equal_self a) refl;
  lookup-remove = lookup-remove;
}

-- A ring buffer with one chunk.
abbrev one_chunk : RingBuf
one_chunk = record {
  size = 200;
  used = 96;
  head = some 0;
  tail = some 0;
  mem =
      update (λ o. record { magic_of = 0; prev = none; next = none; len = 0 }) 0
        (record { magic_of = magic; prev = none; next = none; len = 96 });
}

abbrev given : Result RingBuf → RingBuf
given (done ring) = ring
given aborted = one_chunk

abbrev pub peer : Addr
peer = record { sin_port = 7667; s_addr = 16; sin_family = 2 }

abbrev arrivals : Arrivals
arrivals = record {
  sender = peer;
  chunk = 28;
  stale = λ k. k ∷ 0 ∷ [];
  utime = λ k. 500 + k;
  clock = λ k. record { tv_sec = k; tv_usec = 0 };
}

abbrev pub receiver : Udpm (List (Addr × FragBuf))
receiver = record {
  frag_bufs = [];
  frag_bufs_total_size = 0;
  frag_bufs_max_total_size = 2 ^ 24;
  max_n_frag_bufs = 1000;
  ringbuf = one_chunk;
  udp_rx = 0;
  udp_discarded_bad = 0;
}

-- A socket that keeps what it is given.
abbrev log_net : Net
log_net = record { World = List (List ℕ); sendmsg = λ p w. (pos (length p), w ++ (p ∷ [])) }

abbrev pub zeros : ℕ → List ℕ
zeros n = replicate n 0

abbrev pub message : List ℕ
message = replicate 3000 7

message-length : length message ≡ 3000
message-length = length-replicate {A = ℕ} 3000 7

telemetry : IsChannel (84 ∷ 77 ∷ [])
telemetry = record { no_nul = (omega arith, (omega arith, tt)); short = omega arith }

receiver-Ready :
    Ready list_table zeros
      (λ c. true)
      receiver
      arrivals
      (84 ∷ 77 ∷ [])
      (length message)
      (given (dealloc one_chunk 28))
unfolding dealloc dealloc_rec release forget drop_head ends_are_open empty_if_unused
receiver-Ready = record {
  none_yet = refl;
  subscribed = refl;
  within_limits = refl;
  fresh_memory = length-replicate {A = ℕ} (length message) 0;
  ring_gives = refl;
}

publish-receive_example :
    (packets : List (List ℕ)) × (publish log_net (84 ∷ 77 ∷ []) message 9 []
      ≡ some (pos 0, 10, accept_all log_net (λ p w. w ++ (p ∷ [])) (λ p w. refl) packets []))
    × (u' : Udpm (List (Addr × FragBuf))) × (receive list_table zeros
          (λ c. true)
          arrivals
          receiver
          0
          packets
        ≡ some (whole_message (84 ∷ 77 ∷ []) (length message) 500 message ∷ [], u'))
    × (lookup_list u'.frag_bufs peer ≡ none)
publish-receive_example =
    publish-receive list_table zeros (λ c. true) list_table-IsTable arrivals receiver (84 ∷ 77 ∷ [])
      9 (given (dealloc one_chunk 28)) telemetry (omega arith) log_net (λ p w. w ++ (p ∷ []))
      (λ p w. refl) message [] (omega (arith, message-length)) (omega (arith, message-length))
      receiver-Ready

abbrev pub noon : TimeVal
noon = record { tv_sec = 12; tv_usec = 0 }

publish-recv_packet_example :
    (packet : List ℕ) × (m : Message) × (publish log_net (84 ∷ 77 ∷ []) (1 ∷ 2 ∷ 3 ∷ []) 9 []
      ≡ some (pos 0, 10, packet ∷ []))
    × (recv_packet list_table zeros
          (λ c. true)
          receiver
          (arrive arrivals 0 packet)
          (length packet)
          noon
        ≡ some (some m, record receiver { udp_rx = 1 }))
    × (m.channel_name ≡ 84 ∷ 77 ∷ [])
    × (m.message_size ≡ pos 3)
    × (read_bytes m.memory m.data_offset 3 ≡ some (1 ∷ 2 ∷ 3 ∷ []))
publish-recv_packet_example =
    publish-recv_packet list_table zeros (λ c. true) arrivals receiver (84 ∷ 77 ∷ []) telemetry refl
      noon log_net (λ p w. w ++ (p ∷ [])) (λ p w. refl) (1 ∷ 2 ∷ 3 ∷ []) 9 [] (omega arith)

-- A bare header in memory that an earlier message has used.
abbrev bare : Lcmb
bare = record {
  buf = short_bytes 9 ++ (c_string (84 ∷ 77 ∷ []) ++ (1 ∷ 2 ∷ []));
  chunk = 28;
  sender = peer;
  recv_utime = 0;
}

recv_packet-bare_example :
    (m : Message) × (recv_packet list_table zeros (λ c. true) receiver bare 8 noon
      ≡ some (some m, record receiver { udp_rx = 1 }))
    × (m.channel_name ≡ 84 ∷ 77 ∷ [])
    × (m.message_size ≡ negsuc 2)
recv_packet-bare_example =
    recv_packet-bare list_table zeros (λ c. true) arrivals receiver (84 ∷ 77 ∷ []) telemetry refl
      noon 9 (1 ∷ 2 ∷ []) bare refl
