-- ===== src/Udp/Closing.antt =====
-- upstream/lcm/lcm_udp.c: _destroy_recv_parts closes what is held for receiving, and the self test leaves
-- the descriptors as they are.
use conftron.Base.{
  ℕ, zero, suc, ◌+◌, ◌-◌, ◌≡◌, refl, sym, ap, ◌∙◌, Bool, true, false, Option, some, if◌then◌else◌,
  ℤ, minus_one, is_neg, arith,
}
use mathlib.Core.Option.{none-ne-some, some-injective}
use conftron.Udp.Receive.{TimeVal, timeval_before}
use conftron.Udp.SelfTest.{
  TestNet, timeval_subtract, resend, retransmit, handle_ready, test_round, again, test_loop,
}
use conftron.Udp.Life.{Sys, Life, stop_thread, close_thread_pipe, close_fd, destroy_recv_parts}
use conftron.Udp.Descriptors.{count, Counts, TestCounts, IsClosed, Balanced}

neg_or_closed : (b : Bool) (fd : ℤ) → is_neg fd ≡ b → is_neg (if b then fd else minus_one) ≡ true
neg_or_closed true fd e = e
neg_or_closed false fd e = refl

pipe_closed :
    (b : Bool) (p : ℤ × ℤ)
    → is_neg p.0 ≡ b
    → is_neg p.1 ≡ b
    → (is_neg (if b then p else (minus_one, minus_one)).0 ≡ true)
      × (is_neg (if b then p else (minus_one, minus_one)).1 ≡ true)
pipe_closed true p e f = (e, f)
pipe_closed false p e f = (refl, refl)

module _ (sys : Sys) (counts : Counts sys) (base : ℕ) where
  open sys use {World, close, write_exit, join_thread}
  open counts use {fds}

  stop_thread-fds : (l : Life) (w : World) → fds (stop_thread sys l w) ≡ fds w
  stop_thread-fds l w =
      stopped l.thread_created (write_exit l.thread_msg_pipe.1 w).0
        (write_exit l.thread_msg_pipe.1 w).1 (counts.write_same l.thread_msg_pipe.1 w)
    where
      stopped :
          (created ok : Bool) (v : World)
          → fds v ≡ fds w
          → fds (if created then (if ok then join_thread v else v) else w) ≡ fds w
      stopped true true v e = counts.join_same v ∙ e
      stopped true false v e = e
      stopped false ok v e = refl

  pub close_fd-fds : (fd : ℤ) (w : World) → fds (close_fd sys fd w) ≡ fds w - count fd
  close_fd-fds fd w = closed (is_neg fd) refl
    where
      closed :
          (b : Bool)
          → is_neg fd ≡ b
          → fds (if b then w else close fd w) ≡ fds w - (if b then 0 else 1)
      closed true e = omega arith
      closed false e = counts.close_closes fd w e

  close_thread_pipe-fds :
      (l : Life) (w : World)
      → is_neg l.thread_msg_pipe.0 ≡ is_neg l.thread_msg_pipe.1
      → fds (close_thread_pipe sys l w)
        ≡ fds w - (count l.thread_msg_pipe.0 + count l.thread_msg_pipe.1)
  close_thread_pipe-fds l w ends =
      closed (is_neg p) refl (sym ends) ∙ ap (λ b. fds w - (count p + (if b then 0 else 1))) ends
    where
      p : ℤ
      p = l.thread_msg_pipe.0

      q : ℤ
      q = l.thread_msg_pipe.1

      closed :
          (b : Bool)
          → is_neg l.thread_msg_pipe.0 ≡ b
          → is_neg l.thread_msg_pipe.1 ≡ b
          → fds (if b then w else close l.thread_msg_pipe.1 (close l.thread_msg_pipe.0 w))
            ≡ fds w - ((if b then 0 else 1) + (if b then 0 else 1))
      closed true e f = omega arith
      closed false e f =
          counts.close_closes l.thread_msg_pipe.1 (close l.thread_msg_pipe.0 w) f
          ∙ (ap (λ n. n - 1) (counts.close_closes l.thread_msg_pipe.0 w e) ∙ omega arith)

  pub destroy_recv_parts-IsClosed :
      (l : Life) (w : World)
      → Balanced sys counts base l w
      → IsClosed (destroy_recv_parts sys l w).0 × (fds (destroy_recv_parts sys l w).1 ≡ base)
  unfolding destroy_recv_parts
  destroy_recv_parts-IsClosed l w (e, ends) = (
    record {
      no_socket = neg_or_closed (is_neg l.recvfd) l.recvfd refl;
      no_pipe = pipe_closed (is_neg l.thread_msg_pipe.0) l.thread_msg_pipe refl (sym ends);
      no_thread = refl;
      no_queues = (refl, refl);
      no_ringbuf = refl;
    },
    close_fd-fds l.recvfd (close_thread_pipe sys l (stop_thread sys l w))
        ∙ (ap (λ n. n - count l.recvfd)
              (close_thread_pipe-fds l (stop_thread sys l w) ends
                ∙ ap (λ n. n - (count l.thread_msg_pipe.0 + count l.thread_msg_pipe.1))
                    (stop_thread-fds l w ∙ e))
            ∙ all_closed (count l.recvfd) (count l.thread_msg_pipe.0 + count l.thread_msg_pipe.1)),
  )
    where
      all_closed : (r p : ℕ) → base + (r + p) - p - r ≡ base
      all_closed r p = omega arith

module _ {World : Type 0} (fds : World → ℕ) (net : TestNet World) (same : TestCounts fds net) where
  open net use {publish, handle, get_current_time, select}

  resend-fds : (t : Bool) (next now : TimeVal) (w : World) → fds (resend net t next now w).1 ≡ fds w
  resend-fds true next now w = same.publish_same w
  resend-fds false next now w = refl

  handle_ready-fds : (r : Bool × World) → fds (handle_ready net r) ≡ fds r.1
  handle_ready-fds (true, w) = same.handle_same w
  handle_ready-fds (false, w) = refl

  test_round-fds :
      (recvfd : ℤ) (next now : TimeVal) (w : World)
      → fds (test_round net recvfd next now w).1.1 ≡ fds w
  test_round-fds recvfd next now w =
      let reading = get_current_time w in
      let w1 = (retransmit net next reading).1 in
      let r = select recvfd (timeval_subtract next now) w1 in
      same.time_same (handle_ready net r)
      ∙ (handle_ready-fds r
          ∙ (same.select_same recvfd (timeval_subtract next now) w1
              ∙ (resend-fds (timeval_before next reading.0) next reading.0 reading.1
                  ∙ same.time_same w)))

  pub test_loop-fds :
      (fuel : ℕ) (recvfd : ℤ) (end next now : TimeVal) (w v : World)
      → test_loop net fuel recvfd end next now w ≡ some v
      → fds v ≡ fds w
  unfolding test_loop
  test_loop-fds zero recvfd end next now w v h = absurd (none-ne-some v h)
  test_loop-fds (suc fuel) recvfd end next now w v h =
      let r = test_round net recvfd next now w in
      ended (again net r.1.1 r.1.0 end) (test_loop net fuel recvfd end r.0 r.1.0 r.1.1) r.1.1 h
        (λ e. test_loop-fds fuel recvfd end r.0 r.1.0 r.1.1 v e)
      ∙ test_round-fds recvfd next now w
    where
      ended :
          (b : Bool) (rest : Option World) (w1 : World)
          → Path (Option World) (if b then rest else some w1) (some v)
          → (rest ≡ some v → fds v ≡ fds w1)
          → fds v ≡ fds w1
      ended true rest w1 e k = k e
      ended false rest w1 e k = ap fds (sym (some-injective w1 v e))
