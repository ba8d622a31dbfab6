-- ===== src/Udp/Life.antt =====
-- upstream/lcm/lcm_udp.c: how the provider is made, gets ready to receive, and is destroyed, on Linux.
-- The calls of the system are the record Sys over a world; a descriptor is an integer. An address is a
-- number, and a port is not in network order.
use conftron.Base.{
  ℕ, ◌*◌, Bool, true, false, not, Option, none, some, if◌then◌else◌, ◌==◌, ℤ, pos, negsuc,
  minus_one, is_neg, ◌>>=◌,
}
use conftron.Lcmgen.Text.{Text}
use conftron.RingBuf.{RingBuf, new}
use conftron.Udp.SelfTest.{TestNet, udpm_self_test}

abbrev pub lcm_ringbuf_size : ℕ
lcm_ringbuf_size = 1000 * 1024

abbrev pub lcm_default_recv_bufs : ℕ
lcm_default_recv_bufs = 2000

-- udpm_params_t
pub record Params : Type 0 where
  pub mc_addr : ℕ
  pub mc_port : ℕ
  pub mc_ttl : ℕ
  pub recv_buf_size : ℤ

-- The options that setsockopt is asked for.
pub data SocketOption : Type 0 where
  reuse_address timestamp loopback : SocketOption
  receive_buffer : ℤ → SocketOption
  membership : ℕ → SocketOption
  time_to_live : ℕ → SocketOption

-- The answers say whether the call succeeded; `inet_aton` gives its status and the address, which is as
-- it was if the text is none.
pub record Sys : Type 1 where
  pub World : Type 0
  pub inet_aton : Text → ℕ → ℤ × ℕ
  pub socket : World → ℤ × World
  pub setsockopt : ℤ → SocketOption → World → Bool × World
  pub getsockopt_rcvbuf : ℤ → World → ℤ × World
  pub bind : ℤ → ℕ → World → Bool × World
  pub connect : ℤ → ℕ → ℕ → World → Bool × World
  pub pipe_create : World → Option (ℤ × ℤ) × World
  pub write_exit : ℤ → World → Bool × World
  pub set_nonblock : ℤ → World → World
  pub close : ℤ → World → World
  pub create_thread : World → Bool × World
  pub join_thread : World → World

-- lcm_udpm_t, without what packets concern: a queue is the number of its buffers, and `none` is NULL.
pub record Life : Type 0 where
  pub recvfd : ℤ
  pub sendfd : ℤ
  pub params : Params
  pub kernel_rbuf_sz : ℤ
  pub inbufs_empty : Option ℕ
  pub inbufs_filled : Option ℕ
  pub ringbuf : Option RingBuf
  pub thread_created : Bool
  pub notify_pipe : ℤ × ℤ
  pub thread_msg_pipe : ℤ × ℤ
  pub has_frag_bufs : Bool

-- A step of _setup_recv_thread or of lcm_udpm_create, and whether it succeeds; the next one follows if it
-- does.
abbrev pub Step : Type 0 → Type 0
Step World = Life → World → Bool × (Life × World)

abbrev pub then_step : {World : Type 0} → Step World → Bool × (Life × World) → Bool × (Life × World)
then_step next (true, (l, w)) = next l w
then_step next (false, (l, w)) = (false, (l, w))

infixr 4 ◌⨾◌
abbrev pub ◌⨾◌ : {World : Type 0} → Step World → Step World → Step World
(first ⨾ next) l w = then_step next (first l w)

module _ (sys : Sys) where
  open sys use {
    World, inet_aton, socket, setsockopt, getsockopt_rcvbuf, bind, connect, pipe_create, write_exit,
    set_nonblock, close, create_thread, join_thread,
  }

  -- _destroy_recv_parts: the thread, the pipe to it, the socket, and the memory.
  abbrev pub stop_thread : Life → World → World
  stop_thread l w =
      let (ok, w1) = write_exit l.thread_msg_pipe.1 w in
      if l.thread_created then (if ok then join_thread w1 else w1) else w

  abbrev pub close_thread_pipe : Life → World → World
  close_thread_pipe l w =
      if is_neg l.thread_msg_pipe.0
      then w
      else close l.thread_msg_pipe.1 (close l.thread_msg_pipe.0 w)

  abbrev pub close_fd : ℤ → World → World
  close_fd fd w = if is_neg fd then w else close fd w

  unfoldable pub destroy_recv_parts : Life → World → Life × World
  destroy_recv_parts l w = (
    record l {
      thread_created = false;
      thread_msg_pipe =
          (if is_neg l.thread_msg_pipe.0 then l.thread_msg_pipe else (minus_one, minus_one));
      recvfd = if is_neg l.recvfd then l.recvfd else minus_one;
      has_frag_bufs = false;
      inbufs_empty = none;
      inbufs_filled = none;
      ringbuf = none;
    },
    close_fd l.recvfd (close_thread_pipe l (stop_thread l w)),
  )

  -- lcm_udpm_destroy
  unfoldable pub lcm_udpm_destroy : Life → World → World
  unfolding destroy_recv_parts
  lcm_udpm_destroy l w =
      let (l1, w1) = destroy_recv_parts l w in
      close l.notify_pipe.1 (close l.notify_pipe.0 (close_fd l.sendfd w1))

  abbrev pub open_socket : Step World
  open_socket l w = let (fd, w1) = socket w in (not (is_neg fd), (record l { recvfd = fd }, w1))

  abbrev pub set_option : (Params → SocketOption) → Step World
  set_option o l w = let (ok, w1) = setsockopt l.recvfd (o l.params) w in (ok, (l, w1))

  -- An option whose failure is only reported
  abbrev pub try_option : (Params → SocketOption) → Step World
  try_option o l w = (true, (l, (setsockopt l.recvfd (o l.params) w).1))

  abbrev pub read_size : Step World
  read_size l w =
      let (size, w1) = getsockopt_rcvbuf l.recvfd w in
      (true, (record l { kernel_rbuf_sz = size }, w1))

  abbrev pub is_zero : ℤ → Bool
  is_zero (pos n) = n == 0
  is_zero (negsuc n) = false

  abbrev pub request_size : Step World
  request_size l w =
      if is_zero l.params.recv_buf_size
      then (true, (l, w))
      else (try_option (λ p. receive_buffer p.recv_buf_size) ⨾ read_size) l w

  abbrev pub bind_socket : Step World
  bind_socket l w = let (ok, w1) = bind l.recvfd l.params.mc_port w in (ok, (l, w1))

  abbrev pub allocate : Step World
  allocate l w = (
    true,
    (
      record l {
        inbufs_empty = some lcm_default_recv_bufs;
        inbufs_filled = some 0;
        ringbuf = some (new lcm_ringbuf_size);
      },
      w,
    ),
  )

  abbrev pub with_pipe : Life → Option (ℤ × ℤ) × World → Bool × (Life × World)
  with_pipe l (none, w) = (false, (l, w))
  with_pipe l (some p, w) = (true, (record l { thread_msg_pipe = p }, set_nonblock p.1 w))

  abbrev pub make_pipe : Step World
  make_pipe l w = with_pipe l (pipe_create w)

  abbrev pub start_thread : Step World
  start_thread l w = let (ok, w1) = create_thread w in (ok, (record l { thread_created = ok }, w1))

  -- _setup_recv_thread up to the self test: the socket, and what is done with it.
  abbrev pub socket_steps : Step World
  socket_steps =
      set_option (λ p. reuse_address)
      ⨾ read_size
      ⨾ request_size
      ⨾ try_option (λ p. timestamp)
      ⨾ bind_socket
      ⨾ set_option (λ p. membership p.mc_addr)
      ⨾ allocate
      ⨾ make_pipe
      ⨾ start_thread

  abbrev pub setup_steps : Step World
  setup_steps = open_socket ⨾ socket_steps

  abbrev pub end_setup : Bool × (Life × World) → ℤ × (Life × World)
  end_setup (true, (l, w)) = (pos 0, (l, w))
  end_setup (false, (l, w)) = (minus_one, destroy_recv_parts l w)

  abbrev pub run_test : TestNet World → ℕ → Bool × (Life × World) → Option (Bool × (Life × World))
  run_test net fuel (false, (l, w)) = some (false, (l, w))
  run_test net fuel (true, (l, w)) =
      udpm_self_test net fuel l.notify_pipe.0 w >>= λ (passed, w1). some (passed, (l, w1))

  -- _setup_recv_thread; `none` if the fuel for the rounds of the self test runs out
  unfoldable pub setup_recv_thread : TestNet World → ℕ → Life → World → Option (ℤ × (Life × World))
  unfolding destroy_recv_parts
  setup_recv_thread net fuel l w = run_test net fuel (setup_steps l w) >>= λ r. some (end_setup r)

  unfoldable pub lcm_udpm_subscribe : TestNet World → ℕ → Life → World → Option (ℤ × (Life × World))
  unfolding setup_recv_thread
  lcm_udpm_subscribe net fuel l w =
      if l.thread_created then some (pos 0, (l, w)) else setup_recv_thread net fuel l w
