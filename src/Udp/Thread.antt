-- ===== src/Udp/Thread.antt =====
-- The receiving thread of lcm_udp.c: udp_read_packet and recv_thread, one round of the loop for each
-- thing that select reports. A buffer of the queues is its address, a number, and a queue is the list
-- of its buffers from the head on; what a filled buffer says is its message.
use conftron.Base.{
  ℕ, zero, suc, ◌+◌, ◌%◌, ◌^◌, Bool, true, false, Option, none, some, List, [], ◌∷◌, ◌++◌,
  if◌then◌else◌, Buf,
}
use conftron.RingBuf.{RingBuf, Result, done, aborted, alloc, shrink_last, dealloc}
use conftron.Udp.Receive.{Addr, TimeVal, FragTable, Message, Udpm, recv_packet, discard_bad}

-- The state of the thread; `in_hand` is the variable lcmb with its chunk, and `notified` the number of
-- bytes written to the notify pipe.
pub record Reader (Table : Type 0) : Type 0 where
  pub udpm : Udpm Table
  pub inbufs_empty : List ℕ
  pub inbufs_filled : List ((ℕ × ℕ) × Message)
  pub in_hand : Option (ℕ × ℕ)
  pub udp_discarded_buf : ℕ
  pub notified : ℕ

-- What a round finds: select fails; an exit command; recvmsg fails; or a packet of `sz` bytes, with
-- the memory of the chunk after it.
pub data Arrival : Type 0 where
  select_failed : Arrival
  exit_command : Arrival
  recvmsg_failed : Arrival
  packet : Buf → ℕ → Addr → ℕ → TimeVal → Arrival

-- What a round does: the loop goes on, or the thread ends, or the program does.
pub data Round (Table : Type 0) : Type 0 where
  goes_on : Reader Table → Round Table
  exits : Reader Table → Round Table
  crashes : Round Table

-- The queue functions: lcm_buf_queue_new, lcm_buf_enqueue and is_buf_queue_empty.
abbrev pub lcm_buf_queue_new : {A : Type 0} → List A
lcm_buf_queue_new = []

abbrev pub lcm_buf_enqueue : {A : Type 0} → List A → A → List A
lcm_buf_enqueue q el = q ++ (el ∷ [])

abbrev pub is_buf_queue_empty : {A : Type 0} → List A → Bool
is_buf_queue_empty [] = true
is_buf_queue_empty (el ∷ q) = false

module _ (table : FragTable) (malloc : ℕ → List ℕ) (has_handlers : List ℕ → Bool) where
  open table use {Table}

  -- udp_discard_packet
  abbrev pub udp_discard_packet : Reader Table → Reader Table
  udp_discard_packet r = record r { udp_discarded_buf = (r.udp_discarded_buf + 1) % 2 ^ 32 }

  abbrev pub with_ringbuf : Reader Table → RingBuf → Reader Table
  with_ringbuf r ring = record r { udpm = record (r.udpm) { ringbuf = ring } }

  -- Room in the ring buffer for the buffer `b`; without it the buffer goes back to the queue.
  abbrev pub place_buffer :
      Reader Table → ℕ → List ℕ → Result (Option ℕ × RingBuf) → Option (Reader Table)
  place_buffer r b rest aborted = none
  place_buffer r b rest (done (none, ring)) =
      some (record (udp_discard_packet (with_ringbuf r ring)) {
        inbufs_empty = lcm_buf_enqueue rest b;
      })
  place_buffer r b rest (done (some chunk, ring)) =
      some (record (with_ringbuf r ring) { inbufs_empty = rest; in_hand = some (b, chunk) })

  abbrev pub dequeue_empty : Reader Table → List ℕ → Option (Reader Table)
  dequeue_empty r [] = some (udp_discard_packet r)
  dequeue_empty r (b ∷ rest) = place_buffer r b rest (alloc r.udpm.ringbuf 65536)

  -- A buffer to receive into; `none` in the state's `in_hand` if the packet was discarded.
  abbrev pub get_buffer : Reader Table → Option (ℕ × ℕ) → Option (Reader Table)
  get_buffer r none = dequeue_empty r r.inbufs_empty
  get_buffer r (some held) = some r

  -- recv_thread: a message is queued, and announced if the queue was empty.
  abbrev pub notify : List ((ℕ × ℕ) × Message) → ℕ → ℕ
  notify queue n = if is_buf_queue_empty queue then suc n else n

  abbrev pub queue_filled : Reader Table → ℕ × ℕ → Message → Round Table
  queue_filled r lcmb m = goes_on (record r {
    in_hand = none;
    inbufs_filled = lcm_buf_enqueue r.inbufs_filled (lcmb, m);
    notified = notify r.inbufs_filled r.notified;
  })

  abbrev pub shrunk : Reader Table → ℕ × ℕ → Message → Result RingBuf → Round Table
  shrunk r lcmb m aborted = crashes
  shrunk r lcmb m (done ring) = queue_filled (with_ringbuf r ring) lcmb m

  -- What becomes of a packet in the buffer in hand.
  abbrev pub after_packet :
      Reader Table → ℕ → ℕ → ℕ → Option (Option Message × Udpm Table) → Round Table
  after_packet r b chunk sz none = crashes
  after_packet r b chunk sz (some (none, u)) = goes_on (record r { udpm = u })
  after_packet r b chunk sz (some (some m, u)) =
      if m.buf_from_ringbuf
      then shrunk (record r { udpm = u }) (b, chunk) m (shrink_last u.ringbuf chunk sz)
      else queue_filled (record r { udpm = u }) (b, chunk) m

  abbrev pub receive_into : Arrival → Reader Table → Option (ℕ × ℕ) → Round Table
  receive_into arrival r none = goes_on r
  receive_into select_failed r (some (b, chunk)) = goes_on r
  receive_into exit_command r (some (b, chunk)) = goes_on r
  receive_into recvmsg_failed r (some (b, chunk)) = goes_on (record r { udpm = discard_bad r.udpm })
  receive_into (packet memory sz sender utime now) r (some (b, chunk)) = after_packet r b chunk sz (
      recv_packet table malloc has_handlers r.udpm
        (record { buf = memory; chunk = chunk; sender = sender; recv_utime = utime }) sz now)

  abbrev pub with_buffer : Arrival → Option (Reader Table) → Round Table
  with_buffer arrival none = crashes
  with_buffer arrival (some r) = receive_into arrival r r.in_hand

  -- One round of udp_read_packet, and of recv_thread if a message is complete.
  unfoldable pub read_round : Reader Table → Arrival → Round Table
  read_round r select_failed = goes_on r
  read_round r exit_command = exits (record r { in_hand = none })
  read_round r recvmsg_failed = with_buffer recvmsg_failed (get_buffer r r.in_hand)
  read_round r (packet memory sz sender utime now) =
      with_buffer (packet memory sz sender utime now) (get_buffer r r.in_hand)

-- Whether the receiving thread is there when lcm_udpm_handle is called; if not, what _setup_recv_thread
-- (Udp/Life) does: it returns 0 and leaves a state with the thread, or -1.
pub data Setup (Table : Type 0) : Type 0 where
  running : Setup Table
  set_up : Reader Table → Setup Table
  not_set_up : Setup Table

-- What a call of lcm_udpm_handle does: it waits, for there is nothing in the notify pipe; it returns -1;
-- the program ends; or it has dispatched a message and returns 0.
pub data Handled (Table : Type 0) : Type 0 where
  waits : Handled Table
  fails : Reader Table → Handled Table
  ends : Handled Table
  dispatches : Message → Reader Table → Handled Table

module _ (table : FragTable) (malloc : ℕ → List ℕ) (has_handlers : List ℕ → Bool) where
  open table use {Table}

  -- The chunk of a message is given back, and its buffer is put with the empty ones.
  abbrev pub give_back : Reader Table → ℕ → Message → Result RingBuf → Handled Table
  give_back r b m aborted = ends
  give_back r b m (done ring) =
      dispatches m (record (with_ringbuf table malloc has_handlers r ring) {
        inbufs_empty = lcm_buf_enqueue r.inbufs_empty b;
      })

  -- Something is put back in the pipe if there are more messages.
  abbrev pub notify_more : List ((ℕ × ℕ) × Message) → ℕ → ℕ
  notify_more queue n = if is_buf_queue_empty queue then n else suc n

  abbrev pub dequeue_filled : Reader Table → List ((ℕ × ℕ) × Message) → Handled Table
  dequeue_filled r [] = fails r
  dequeue_filled r (((b, chunk), m) ∷ rest) =
      let taken = record r { inbufs_filled = rest; notified = notify_more rest r.notified } in
      if m.buf_from_ringbuf
      then give_back taken b m (dealloc r.udpm.ringbuf chunk)
      else give_back taken b m (done r.udpm.ringbuf)

  abbrev pub take_notice : Reader Table → ℕ → Handled Table
  take_notice r zero = waits
  take_notice r (suc n) = dequeue_filled (record r { notified = n }) r.inbufs_filled

  -- The read of the notify pipe gives a character, or nothing or an error.
  abbrev pub read_pipe : Bool → Reader Table → Handled Table
  read_pipe true r = take_notice r r.notified
  read_pipe false r = fails r

  -- _destroy_recv_parts, which a failed set-up calls: the queues and their buffers are gone.
  abbrev pub without_buffers : Reader Table → Reader Table
  without_buffers r = record r {
    inbufs_empty = lcm_buf_queue_new;
    inbufs_filled = lcm_buf_queue_new;
    in_hand = none;
  }

  -- lcm_udpm_handle, with what becomes of the receiving thread, and whether the pipe can be read
  unfoldable pub lcm_udpm_handle : Setup Table → Bool → Reader Table → Handled Table
  lcm_udpm_handle running readable r = read_pipe readable r
  lcm_udpm_handle (set_up r1) readable r = read_pipe readable r1
  lcm_udpm_handle not_set_up readable r = fails (without_buffers r)
