-- ===== src/Udp/Buffers.antt =====
-- The buffers of the receiving thread (lcm_udp.c) are neither lost nor made.
use conftron.Base.{
  ℕ, zero, suc, ◌+◌, ◌≡◌, refl, sym, ap, subst, ◌∙◌, Bool, true, false, Option, none, some, List,
  [], ◌∷◌, length, length-append, if◌then◌else◌, arith,
}
use conftron.RingBuf.{RingBuf, Result, done, aborted, alloc, shrink_last, dealloc}
use conftron.Udp.Receive.{FragTable, Message, Udpm, recv_packet}
use conftron.Udp.Thread.{
  Reader, Arrival, with_ringbuf, select_failed, exit_command, recvmsg_failed, packet, Round,
  goes_on, exits, crashes, read_round, place_buffer, dequeue_empty, get_buffer, queue_filled,
  shrunk, after_packet, receive_into, with_buffer, Handled, waits, fails, ends, dispatches,
  give_back, dequeue_filled, notify_more, take_notice, read_pipe, Setup, running, set_up,
  not_set_up, lcm_udpm_handle,
}

abbrev pub held : Option (ℕ × ℕ) → ℕ
held none = 0
held (some b) = 1

-- The buffers in the two queues and in hand.
abbrev pub buffers : {Table : Type 0} → Reader Table → ℕ
buffers r = length r.inbufs_empty + length r.inbufs_filled + held r.in_hand

-- A round keeps `n` buffers; at the end of the thread the one in hand is freed.
abbrev pub Keeps : {Table : Type 0} → ℕ → ℕ → Round Table → Type 0
Keeps n in_use (goes_on r) = buffers r ≡ n
Keeps n in_use (exits r) = buffers r + in_use ≡ n
Keeps n in_use crashes = Unit

abbrev pub KeepsAll : {Table : Type 0} → ℕ → Handled Table → Type 0
KeepsAll n waits = Unit
KeepsAll n (fails r) = buffers r ≡ n
KeepsAll n ends = Unit
KeepsAll n (dispatches m r) = buffers r ≡ n

abbrev Has : {Table : Type 0} → ℕ → Option (Reader Table) → Type 0
Has n none = Unit
Has n (some r) = buffers r ≡ n

module _ (table : FragTable) (malloc : ℕ → List ℕ) (has_handlers : List ℕ → Bool) where
  queue_filled-Keeps :
      (r : Reader table.Table) (b : ℕ × ℕ) (m : Message) (n in_use : ℕ)
      → length r.inbufs_empty + length r.inbufs_filled + 1 ≡ n
      → Keeps n in_use (queue_filled table malloc has_handlers r b m)
  queue_filled-Keeps r b m n in_use e =
      omega (arith, e, length-append r.inbufs_filled ((b, m) ∷ []))

  shrunk-Keeps :
      (r : Reader table.Table) (b : ℕ × ℕ) (m : Message) (n in_use : ℕ) (result : Result RingBuf)
      → length r.inbufs_empty + length r.inbufs_filled + 1 ≡ n
      → Keeps n in_use (shrunk table malloc has_handlers r b m result)
  shrunk-Keeps r b m n in_use aborted e = tt
  shrunk-Keeps r b m n in_use (done ring) e =
      queue_filled-Keeps (with_ringbuf table malloc has_handlers r ring) b m n in_use e

  either-Keeps :
      (n in_use : ℕ) (t : Bool) (x y : Round table.Table)
      → Keeps n in_use x
      → Keeps n in_use y
      → Keeps n in_use (if t then x else y)
  either-Keeps n in_use true x y h k = h
  either-Keeps n in_use false x y h k = k

  after_packet-Keeps :
      (r : Reader table.Table) (b chunk sz n in_use : ℕ)
      (o : Option (Option Message × Udpm table.Table))
      → length r.inbufs_empty + length r.inbufs_filled + 1 ≡ n
      → r.in_hand ≡ some (b, chunk)
      → Keeps n in_use (after_packet table malloc has_handlers r b chunk sz o)
  after_packet-Keeps r b chunk sz n in_use none e h = tt
  after_packet-Keeps r b chunk sz n in_use (some (none, u)) e h = rw h e
  after_packet-Keeps r b chunk sz n in_use (some (some m, u)) e h =
      either-Keeps n in_use m.buf_from_ringbuf
        (shrunk table malloc has_handlers (record r { udpm = u }) (b, chunk) m
          (shrink_last u.ringbuf chunk sz))
        (queue_filled table malloc has_handlers (record r { udpm = u }) (b, chunk) m)
        (shrunk-Keeps (record r { udpm = u }) (b, chunk) m n in_use (shrink_last u.ringbuf chunk sz)
          e)
        (queue_filled-Keeps (record r { udpm = u }) (b, chunk) m n in_use e)

  receive_into-Keeps :
      (arrival : Arrival) (r : Reader table.Table) (n in_use : ℕ) (hand : Option (ℕ × ℕ))
      → r.in_hand ≡ hand
      → buffers r ≡ n
      → Keeps n in_use (receive_into table malloc has_handlers arrival r hand)
  receive_into-Keeps arrival r n in_use none h e = e
  receive_into-Keeps select_failed r n in_use (some (b, chunk)) h e = e
  receive_into-Keeps exit_command r n in_use (some (b, chunk)) h e = e
  receive_into-Keeps recvmsg_failed r n in_use (some (b, chunk)) h e = e
  receive_into-Keeps (packet memory sz sender utime now) r n in_use (some (b, chunk)) h e =
      after_packet-Keeps r b chunk sz n in_use
        (recv_packet table malloc has_handlers r.udpm
          (record { buf = memory; chunk = chunk; sender = sender; recv_utime = utime }) sz now)
        (ap (λ t. length r.inbufs_empty + length r.inbufs_filled + held t) (sym h) ∙ e) h

  with_buffer-Keeps :
      (arrival : Arrival) (n in_use : ℕ) (o : Option (Reader table.Table))
      → Has n o
      → Keeps n in_use (with_buffer table malloc has_handlers arrival o)
  with_buffer-Keeps arrival n in_use none h = tt
  with_buffer-Keeps arrival n in_use (some r) h =
      receive_into-Keeps arrival r n in_use r.in_hand refl h

  place_buffer-Has :
      (r : Reader table.Table) (b : ℕ) (rest : List ℕ) (result : Result (Option ℕ × RingBuf))
      → r.in_hand ≡ none
      → Has
          (suc (length rest) + length r.inbufs_filled)
          (place_buffer table malloc has_handlers r b rest result)
  place_buffer-Has r b rest aborted h = tt
  place_buffer-Has r b rest (done (none, ring)) h =
      rw h (omega (arith, length-append rest (b ∷ [])))
  place_buffer-Has r b rest (done (some chunk, ring)) h = omega arith

  dequeue_empty-Has :
      (r : Reader table.Table) (queue : List ℕ)
      → r.in_hand ≡ none
      → r.inbufs_empty ≡ queue
      → Has
          (length queue + length r.inbufs_filled)
          (dequeue_empty table malloc has_handlers r queue)
  dequeue_empty-Has r [] h e = rw (h, e) (omega arith)
  dequeue_empty-Has r (b ∷ rest) h e = place_buffer-Has r b rest (alloc r.udpm.ringbuf 65536) h

  get_buffer-Has :
      (r : Reader table.Table) (hand : Option (ℕ × ℕ))
      → r.in_hand ≡ hand
      → Has (buffers r) (get_buffer table malloc has_handlers r hand)
  get_buffer-Has r none h =
      subst (λ n. Has n (dequeue_empty table malloc has_handlers r r.inbufs_empty)) same
        (dequeue_empty-Has r r.inbufs_empty h refl)
    where
      same : length r.inbufs_empty + length r.inbufs_filled ≡ buffers r
      same = rw h (omega arith)
  get_buffer-Has r (some b) h = refl

  -- A round of the receiving thread keeps the number of buffers in the two queues and in hand, unless
  -- the program ends; when the thread ends, the buffer in hand is gone and the others are kept.
  pub read_round-Keeps :
      (r : Reader table.Table) (arrival : Arrival)
      → Keeps (buffers r) (held r.in_hand) (read_round table malloc has_handlers r arrival)
  unfolding read_round
  read_round-Keeps r select_failed = refl
  read_round-Keeps r exit_command = omega arith
  read_round-Keeps r recvmsg_failed =
      with_buffer-Keeps recvmsg_failed (buffers r) (held r.in_hand)
        (get_buffer table malloc has_handlers r r.in_hand) (get_buffer-Has r r.in_hand refl)
  read_round-Keeps r (packet memory sz sender utime now) =
      with_buffer-Keeps (packet memory sz sender utime now) (buffers r) (held r.in_hand)
        (get_buffer table malloc has_handlers r r.in_hand) (get_buffer-Has r r.in_hand refl)

  give_back-KeepsAll :
      (r : Reader table.Table) (b : ℕ) (m : Message) (n : ℕ) (result : Result RingBuf)
      → suc (buffers r) ≡ n
      → KeepsAll n (give_back table malloc has_handlers r b m result)
  give_back-KeepsAll r b m n aborted e = tt
  give_back-KeepsAll r b m n (done ring) e = omega (arith, e, length-append r.inbufs_empty (b ∷ []))

  either-KeepsAll :
      (n : ℕ) (t : Bool) (x y : Handled table.Table)
      → KeepsAll n x
      → KeepsAll n y
      → KeepsAll n (if t then x else y)
  either-KeepsAll n true x y h k = h
  either-KeepsAll n false x y h k = k

  dequeue_filled-KeepsAll :
      (r : Reader table.Table) (queue : List ((ℕ × ℕ) × Message)) (n : ℕ)
      → r.inbufs_filled ≡ queue
      → buffers r ≡ n
      → KeepsAll n (dequeue_filled table malloc has_handlers r queue)
  dequeue_filled-KeepsAll r [] n e h = h
  dequeue_filled-KeepsAll r (((b, chunk), m) ∷ rest) n e h =
      let taken = record r {
        inbufs_filled = rest;
        notified = notify_more table malloc has_handlers rest r.notified;
      } in
      let one_less : suc (buffers taken) ≡ n =
        omega (arith, h, ap (length {A = (ℕ × ℕ) × Message}) e) in
      either-KeepsAll n m.buf_from_ringbuf
        (give_back table malloc has_handlers taken b m (dealloc r.udpm.ringbuf chunk))
        (give_back table malloc has_handlers taken b m (done r.udpm.ringbuf))
        (give_back-KeepsAll taken b m n (dealloc r.udpm.ringbuf chunk) one_less)
        (give_back-KeepsAll taken b m n (done r.udpm.ringbuf) one_less)

  take_notice-KeepsAll :
      (r : Reader table.Table) (k : ℕ)
      → KeepsAll (buffers r) (take_notice table malloc has_handlers r k)
  take_notice-KeepsAll r zero = tt
  take_notice-KeepsAll r (suc k) =
      dequeue_filled-KeepsAll (record r { notified = k }) r.inbufs_filled (buffers r) refl refl

  read_pipe-KeepsAll :
      (readable : Bool) (r : Reader table.Table)
      → KeepsAll (buffers r) (read_pipe table malloc has_handlers readable r)
  read_pipe-KeepsAll true r = take_notice-KeepsAll r r.notified
  read_pipe-KeepsAll false r = refl

  -- The buffers that there are when the receiving thread is there or could not be started.
  abbrev pub available : Setup table.Table → Reader table.Table → ℕ
  available running r = buffers r
  available (set_up r1) r = buffers r1
  available not_set_up r = 0

  -- A call of lcm_udpm_handle that returns keeps the number of buffers in the two queues and in hand,
  -- whether it has found a message or not, and whether the pipe could be read: with the receiving thread
  -- running, that of before the call; where the call has set it up, that which the set-up has left; and
  -- where the set-up has failed, there is none.
  pub lcm_udpm_handle-KeepsAll :
      (setup : Setup table.Table) (readable : Bool) (r : Reader table.Table)
      → KeepsAll (available setup r) (lcm_udpm_handle table malloc has_handlers setup readable r)
  unfolding lcm_udpm_handle
  lcm_udpm_handle-KeepsAll running readable r = read_pipe-KeepsAll readable r
  lcm_udpm_handle-KeepsAll (set_up r1) readable r = read_pipe-KeepsAll readable r1
  lcm_udpm_handle-KeepsAll not_set_up readable r = refl
