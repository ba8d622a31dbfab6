-- ===== src/Udp/Descriptors.antt =====
-- upstream/lcm/lcm_udp.c: the descriptors that getting ready to receive opens are closed when it fails.
use conftron.Base.{
  ℕ, ◌+◌, ◌-◌, ◌≡◌, refl, sym, ap, ap₂, ◌∙◌, Bool, true, false, not, Option, none, some,
  if◌then◌else◌, ℤ, is_neg, arith,
}
use conftron.Udp.SelfTest.{Span, TestNet}
use conftron.Udp.Life.{
  Params, SocketOption, receive_buffer, reuse_address, timestamp, membership, Sys, Life, Step,
  then_step, ◌⨾◌, open_socket, set_option, try_option, read_size, is_zero, request_size,
  bind_socket, allocate, with_pipe, make_pipe, start_thread, socket_steps, setup_steps,
}

abbrev pub count : ℤ → ℕ
count fd = if is_neg fd then 0 else 1

-- How many descriptors are open, and what the calls do to their number. A descriptor that is not
-- negative is taken to be open.
pub record Counts (sys : Sys) : Type 0 where
  pub fds : sys.World → ℕ
  pub socket_opens : (w : sys.World) → fds (sys.socket w).1 ≡ fds w + count (sys.socket w).0
  pub close_closes : (fd : ℤ) (w : sys.World) → is_neg fd ≡ false → fds (sys.close fd w) ≡ fds w - 1
  pub no_pipe : (w : sys.World) → (sys.pipe_create w).0 ≡ none → fds (sys.pipe_create w).1 ≡ fds w
  pub pipe_opens :
      (w : sys.World) (p : ℤ × ℤ)
      → (sys.pipe_create w).0 ≡ some p
      → (is_neg p.0 ≡ false) × (is_neg p.1 ≡ false) × (fds (sys.pipe_create w).1 ≡ fds w + 2)
  pub setsockopt_same :
      (fd : ℤ) (o : SocketOption) (w : sys.World) → fds (sys.setsockopt fd o w).1 ≡ fds w
  pub getsockopt_same : (fd : ℤ) (w : sys.World) → fds (sys.getsockopt_rcvbuf fd w).1 ≡ fds w
  pub bind_same : (fd : ℤ) (port : ℕ) (w : sys.World) → fds (sys.bind fd port w).1 ≡ fds w
  pub write_same : (fd : ℤ) (w : sys.World) → fds (sys.write_exit fd w).1 ≡ fds w
  pub nonblock_same : (fd : ℤ) (w : sys.World) → fds (sys.set_nonblock fd w) ≡ fds w
  pub create_same : (w : sys.World) → fds (sys.create_thread w).1 ≡ fds w
  pub join_same : (w : sys.World) → fds (sys.join_thread w) ≡ fds w

-- Sending and handling messages opens no descriptor and closes none.
pub record TestCounts {World : Type 0} (fds : World → ℕ) (net : TestNet World) : Type 0 where
  pub subscribe_same : (w : World) → fds (net.subscribe w) ≡ fds w
  pub unsubscribe_same : (w : World) → fds (net.unsubscribe w) ≡ fds w
  pub publish_same : (w : World) → fds (net.publish w) ≡ fds w
  pub handle_same : (w : World) → fds (net.handle w) ≡ fds w
  pub time_same : (w : World) → fds (net.get_current_time w).1 ≡ fds w
  pub select_same : (fd : ℤ) (t : Span) (w : World) → fds (net.select fd t w).1 ≡ fds w

-- What the receiving side holds.
abbrev pub held : Life → ℕ
held l = count l.recvfd + (count l.thread_msg_pipe.0 + count l.thread_msg_pipe.1)

-- Nothing is held for receiving.
pub record IsClosed (l : Life) : Type 0 where
  pub no_socket : is_neg l.recvfd ≡ true
  pub no_pipe : (is_neg l.thread_msg_pipe.0 ≡ true) × (is_neg l.thread_msg_pipe.1 ≡ true)
  pub no_thread : l.thread_created ≡ false
  pub no_queues : (l.inbufs_empty ≡ none) × (l.inbufs_filled ≡ none)
  pub no_ringbuf : l.ringbuf ≡ none

module _ (sys : Sys) (counts : Counts sys) (base : ℕ) where
  open sys use {World, socket, setsockopt, bind, close, pipe_create, create_thread}
  open counts use {fds}

  -- `base` descriptors are open beside those of the receiving side.
  abbrev pub Balanced : Life → World → Type 0
  Balanced l w = (fds w ≡ base + held l) × (is_neg l.thread_msg_pipe.0 ≡ is_neg l.thread_msg_pipe.1)

  -- ... and the pipe to the thread is not made yet.
  abbrev Waiting : Life → World → Type 0
  Waiting l w =
      (fds w ≡ base + held l)
      × ((is_neg l.thread_msg_pipe.0 ≡ true) × (is_neg l.thread_msg_pipe.1 ≡ true))

  Waiting-Balanced : (l : Life) (w : World) → Waiting l w → Balanced l w
  Waiting-Balanced l w (e, (a, b)) = (e, a ∙ sym b)

  abbrev pub After : (Life → World → Type 0) → Bool × (Life × World) → Type 0
  After Q (true, (l, w)) = Q l w
  After Q (false, (l, w)) = Balanced l w

  -- A step of the chain that keeps to Waiting, or from which the chain ends balanced.
  abbrev Keeps : Step World → Type 0
  Keeps step = (l : Life) (w : World) → Waiting l w → After Waiting (step l w)

  then-After :
      (P Q : Life → World → Type 0) (next : Step World) (r : Bool × (Life × World))
      → After P r
      → ((l : Life) (w : World) → P l w → After Q (next l w))
      → After Q (then_step next r)
  then-After P Q next (true, (l, w)) h k = k l w h
  then-After P Q next (false, (l, w)) h k = h

  either-After : (ok : Bool) (l : Life) (w : World) → Waiting l w → After Waiting (ok, (l, w))
  either-After true l w h = h
  either-After false l w h = Waiting-Balanced l w h

  Balanced-After : (ok : Bool) (l : Life) (w : World) → Balanced l w → After Balanced (ok, (l, w))
  Balanced-After true l w h = h
  Balanced-After false l w h = h

  with_no_pipe : (x : ℕ) (a b : ℤ) → is_neg a ≡ true → is_neg b ≡ true → x ≡ x + (count a + count b)
  with_no_pipe x a b ha hb =
      add_none x ∙ ap₂ (λ p q. x + ((if p then 0 else 1) + (if q then 0 else 1))) (sym ha) (sym hb)
    where
      add_none : (x : ℕ) → x ≡ x + (0 + 0)
      add_none x = omega arith

  open_socket-After :
      (l : Life) (w : World) → IsClosed l → fds w ≡ base → After Waiting (open_socket sys l w)
  open_socket-After l w h e =
      either-After (not (is_neg (socket w).0)) (record l { recvfd = (socket w).0 }) (socket w).1
        (
          counts.socket_opens w
              ∙ (ap (λ n. n + count (socket w).0) e
                  ∙ ap (λ n. base + n)
                      (with_no_pipe (count (socket w).0) l.thread_msg_pipe.0 l.thread_msg_pipe.1
                        h.no_pipe.0 h.no_pipe.1)),
          (h.no_pipe.0, h.no_pipe.1),
        )

  set_option-Keeps : (o : Params → SocketOption) → Keeps (set_option sys o)
  set_option-Keeps o l w (e, neg) =
      either-After (setsockopt l.recvfd (o l.params) w).0 l (setsockopt l.recvfd (o l.params) w).1
        (counts.setsockopt_same l.recvfd (o l.params) w ∙ e, neg)

  try_option-Keeps : (o : Params → SocketOption) → Keeps (try_option sys o)
  try_option-Keeps o l w (e, neg) = (counts.setsockopt_same l.recvfd (o l.params) w ∙ e, neg)

  read_size-Keeps : Keeps (read_size sys)
  read_size-Keeps l w (e, neg) = (counts.getsockopt_same l.recvfd w ∙ e, neg)

  bind_socket-Keeps : Keeps (bind_socket sys)
  bind_socket-Keeps l w (e, neg) =
      either-After (bind l.recvfd l.params.mc_port w).0 l (bind l.recvfd l.params.mc_port w).1
        (counts.bind_same l.recvfd l.params.mc_port w ∙ e, neg)

  allocate-Keeps : Keeps (allocate sys)
  allocate-Keeps l w h = h

  then-Keeps :
      (first next : Step World)
      → Keeps first
      → Keeps next
      → Keeps (λ l w. then_step next (first l w))
  then-Keeps first next hf hn l w h = then-After Waiting Waiting next (first l w) (hf l w h) hn

  if-After :
      (b : Bool) (x y : Bool × (Life × World))
      → After Waiting x
      → After Waiting y
      → After Waiting (if b then x else y)
  if-After true x y hx hy = hx
  if-After false x y hx hy = hy

  request_size-Keeps : Keeps (request_size sys)
  request_size-Keeps l w h = if-After (is_zero sys l.params.recv_buf_size) _ _ h (
      then-Keeps (try_option sys (λ p. receive_buffer p.recv_buf_size)) (read_size sys)
        (try_option-Keeps (λ p. receive_buffer p.recv_buf_size)) read_size-Keeps l w h)

  with_pipe-After :
      (l : Life) (w : World) (r : Option (ℤ × ℤ) × World)
      → Waiting l w
      → (r.0 ≡ none → fds r.1 ≡ fds w)
      → ((p : ℤ × ℤ)
          → r.0 ≡ some p
          → (is_neg p.0 ≡ false) × (is_neg p.1 ≡ false) × (fds r.1 ≡ fds w + 2))
      → After Balanced (with_pipe sys l r)
  with_pipe-After l w (none, v) (e, (a, b)) closed opened = (closed refl ∙ e, a ∙ sym b)
  with_pipe-After l w (some (p, q), v) (e, (a, b)) closed opened =
      let (hp, hq, two) = opened (p, q) refl in
      (
        counts.nonblock_same q v
            ∙ (two
                ∙ (ap (λ n. n + 2)
                      (e
                        ∙ ap (λ n. base + n)
                            (sym (
                              with_no_pipe (count l.recvfd) l.thread_msg_pipe.0 l.thread_msg_pipe.1
                                a b)))
                    ∙ (two_more (count l.recvfd)
                        ∙ ap₂
                            (λ s t.
                              base
                              + (count l.recvfd + ((if s then 0 else 1) + (if t then 0 else 1))))
                            (sym hp) (sym hq)))),
        hp ∙ sym hq,
      )
    where
      two_more : (x : ℕ) → base + x + 2 ≡ base + (x + (1 + 1))
      two_more x = omega arith

  -- The chain ends with the thread, or balanced.
  abbrev pub Started : Life → World → Type 0
  Started l w = Balanced l w × (l.thread_created ≡ true)

  start_thread-After : (l : Life) (w : World) → Balanced l w → After Started (start_thread sys l w)
  start_thread-After l w (e, ends) =
      started (create_thread w).0 (create_thread w).1 (counts.create_same w)
    where
      started :
          (ok : Bool) (v : World)
          → fds v ≡ fds w
          → After Started (ok, (record l { thread_created = ok }, v))
      started true v same = ((same ∙ e, ends), refl)
      started false v same = (same ∙ e, ends)

  record Goes (step : Step World) : Type 0 where
    run : (l : Life) (w : World) → Waiting l w → After Started (step l w)

  then-Goes :
      (first : Step World) {next : Step World} → Keeps first → Goes next → Goes (◌⨾◌ first next)
  then-Goes first {next} hf hn = record {
    run = λ l w h. then-After Waiting Started next (first l w) (hf l w h) hn.run;
  }

  pipe_and_thread-Goes : Goes (◌⨾◌ (make_pipe sys) (start_thread sys))
  pipe_and_thread-Goes = record {
    run = λ l w h.
        then-After Balanced Started (start_thread sys) (make_pipe sys l w)
          (with_pipe-After l w (pipe_create w) h (counts.no_pipe w) (counts.pipe_opens w))
          start_thread-After;
  }

  socket_steps-Goes : Goes (socket_steps sys)
  socket_steps-Goes =
      then-Goes (set_option sys (λ p. reuse_address)) (set_option-Keeps (λ p. reuse_address)) (
        then-Goes (read_size sys) read_size-Keeps (
          then-Goes (request_size sys) request_size-Keeps (
            then-Goes (try_option sys (λ p. timestamp)) (try_option-Keeps (λ p. timestamp)) (
              then-Goes (bind_socket sys) bind_socket-Keeps (
                then-Goes (set_option sys (λ p. membership p.mc_addr))
                  (set_option-Keeps (λ p. membership p.mc_addr))
                  (then-Goes (allocate sys) allocate-Keeps pipe_and_thread-Goes))))))

  pub setup_steps-After :
      (l : Life) (w : World) → IsClosed l → fds w ≡ base → After Started (setup_steps sys l w)
  setup_steps-After l w h e =
      then-After Waiting Started (socket_steps sys) (open_socket sys l w)
        (open_socket-After l w h e) socket_steps-Goes.run
