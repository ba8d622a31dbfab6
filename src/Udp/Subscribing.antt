-- ===== src/Udp/Subscribing.antt =====
-- upstream/lcm/lcm_udp.c: what lcm_udpm_subscribe leaves behind.
use conftron.Base.{
  suc, ℕ, ◌+◌, ◌≡◌, refl, sym, ap, ◌∙◌, ◌⊎◌, inl, inr, Bool, true, false, Option, none, some, ◌>>=◌,
  if◌then◌else◌, ℤ, pos, minus_one,
}
use mathlib.Core.Option.{none-ne-some, some-injective}
use conftron.Udp.SelfTest.{
  TestNet, timeval_add, retransmit_interval, test_loop, end_test, udpm_self_test,
}
use conftron.Udp.TestEnds.{
  EndsBy, world_of, after_rounds, AllGoOn, loop-EndsBy, loop, end_of_test, first_rounds,
}
use conftron.Udp.Life.{
  destroy_recv_parts, Sys, Life, setup_steps, end_setup, run_test, setup_recv_thread,
  lcm_udpm_subscribe,
}
use conftron.Udp.Descriptors.{
  Counts, TestCounts, IsClosed, Balanced, Started, After, setup_steps-After,
}
use conftron.Udp.Closing.{destroy_recv_parts-IsClosed, test_loop-fds}

module _ (sys : Sys) (counts : Counts sys) where
  open sys use {World}
  open counts use {fds}

  -- The result of a subscription: ready with the thread, or with all closed.
  abbrev pub Outcome : ℕ → ℤ × (Life × World) → Type 0
  Outcome base (ret, (l, w)) =
      ((ret ≡ pos 0) × (l.thread_created ≡ true) × Balanced sys counts base l w)
      ⊎ ((ret ≡ minus_one) × IsClosed l × (l.has_frag_bufs ≡ false) × (fds w ≡ base))

module _ (sys : Sys) (net : TestNet sys.World) where
  -- The self test of a set-up has come to no end: in none of the rounds has the message come in, and after
  -- each the time read has been before the end.
  abbrev pub Busy : ℕ → Bool × (Life × sys.World) → Type 0
  Busy fuel (false, (l, w)) = ⊥
  Busy fuel (true, (l, w)) =
      AllGoOn net l.notify_pipe.0 (end_of_test net l.notify_pipe.0 w) fuel
        (first_rounds net l.notify_pipe.0 w)

module _ (sys : Sys) (counts : Counts sys) (net : TestNet sys.World)
    (same : TestCounts counts.fds net) where
  open sys use {World}
  open counts use {fds}

  self_test-fds :
      (fuel : ℕ) (recvfd : ℤ) (w v : World) (passed : Bool)
      → udpm_self_test net fuel recvfd w ≡ some (passed, v)
      → fds v ≡ fds w
  unfolding udpm_self_test
  self_test-fds fuel recvfd w v passed h =
      let start = net.publish (net.subscribe w) in
      let reading = net.get_current_time start in
      behind
        (test_loop net fuel recvfd
          (record { tv_sec = reading.0.tv_sec + 10; tv_usec = reading.0.tv_usec })
          (timeval_add reading.0 retransmit_interval) reading.0 reading.1)
        (λ w2 e.
          test_loop-fds fds net same fuel recvfd
            (record { tv_sec = reading.0.tv_sec + 10; tv_usec = reading.0.tv_usec })
            (timeval_add reading.0 retransmit_interval) reading.0 reading.1 w2 e
          ∙ (same.time_same start ∙ (same.publish_same (net.subscribe w) ∙ same.subscribe_same w)))
        h
    where
      behind :
          (r : Option World)
          → ((w2 : World) → r ≡ some w2 → fds w2 ≡ fds w)
          → Path (Option (Bool × World)) (r >>= λ w2. some (end_test net w2)) (some (passed, v))
          → fds v ≡ fds w
      behind none k e = absurd (none-ne-some (passed, v) e)
      behind (some w2) k e =
          ap (λ p. fds p.1) (sym (some-injective (end_test net w2) (passed, v) e))
          ∙ (same.unsubscribe_same w2 ∙ k w2 refl)

  failed :
      (base : ℕ) (l : Life) (w : World)
      → Balanced sys counts base l w
      → Outcome sys counts base (end_setup sys (false, (l, w)))
  unfolding destroy_recv_parts
  failed base l w h =
      let (closed, e) = destroy_recv_parts-IsClosed sys counts base l w h in
      inr (refl, closed, refl, e)

  abbrev Ended : ℕ → ℕ → Bool × (Life × World) → Type 0
  Ended fuel base r =
      ((o : ℤ × (Life × World)) × ((run_test sys net fuel r >>= λ r2. some (end_setup sys r2))
          ≡ some o)
        × Outcome sys counts base o)
      ⊎ Busy sys net fuel r

  tested :
      (fuel base : ℕ) (r : Bool × (Life × World))
      → After sys counts base (Started sys counts base) r
      → Ended fuel base r
  unfolding udpm_self_test
  tested fuel base (false, (l, w)) h = inl (end_setup sys (false, (l, w)), refl, failed base l w h)
  tested fuel base (true, (l, w)) ((e, ends), created) = by_test (
      loop-EndsBy net l.notify_pipe.0 (end_of_test net l.notify_pipe.0 w) fuel
        (first_rounds net l.notify_pipe.0 w))
    where
      passed :
          (ok : Bool) (v : World)
          → Balanced sys counts base l v
          → Outcome sys counts base (end_setup sys (ok, (l, v)))
      passed true v b = inl (refl, created, b)
      passed false v b = failed base l v b

      by_test :
          EndsBy net l.notify_pipe.0
              (end_of_test net l.notify_pipe.0 w)
              fuel
              (first_rounds net l.notify_pipe.0 w)
              (loop net l.notify_pipe.0
                (end_of_test net l.notify_pipe.0 w)
                fuel
                (first_rounds net l.notify_pipe.0 w))
            ⊎ AllGoOn net l.notify_pipe.0
                (end_of_test net l.notify_pipe.0 w)
                fuel
                (first_rounds net l.notify_pipe.0 w)
          → Ended fuel base (true, (l, w))
      by_test (inr all) = inr all
      by_test (inl x) =
          let w2 = world_of net l.notify_pipe.0 (
            after_rounds net l.notify_pipe.0 (suc x.rounds) (first_rounds net l.notify_pipe.0 w)) in
          let v = net.unsubscribe w2 in
          let found : udpm_self_test net fuel l.notify_pipe.0 w ≡ some (net.success w2, v) =
            ap (λ o. o >>= λ y. some (end_test net y)) x.returns in
          let kept = self_test-fds fuel l.notify_pipe.0 w v (net.success w2) found ∙ e in
          inl (
            end_setup sys (net.success w2, (l, v)),
            ap (λ t. (t >>= λ (ok, w1). some (ok, (l, w1))) >>= λ r2. some (end_setup sys r2))
                found,
            passed (net.success w2) v (kept, ends),
          )

  -- A subscription when nothing is held for receiving returns 0 with the thread made and with no other
  -- descriptors open than before but the socket and the pipe that the context has, or it returns -1 with
  -- the socket, the pipe, the queues, the ring buffer and the table of fragments gone and as many
  -- descriptors open as before, whichever call of the system failed. The one other case is that the set-up
  -- has come as far as the self test, and no round of that within the fuel has ended it: the message has
  -- not come in, and after each round the time read was before ten seconds after the start. Nothing is
  -- assumed of the clock.
  pub lcm_udpm_subscribe-Outcome :
      (fuel : ℕ) (l : Life) (w : World)
      → IsClosed l
      → ((o : ℤ × (Life × World)) × (lcm_udpm_subscribe sys net fuel l w ≡ some o)
          × Outcome sys counts (fds w) o)
        ⊎ Busy sys net fuel (setup_steps sys l w)
  unfolding lcm_udpm_subscribe setup_recv_thread
  lcm_udpm_subscribe-Outcome fuel l w closed = by_steps (
      tested fuel (fds w) (setup_steps sys l w)
        (setup_steps-After sys counts (fds w) l w closed refl))
    where
      by_steps :
          Ended fuel (fds w) (setup_steps sys l w)
          → ((o : ℤ × (Life × World)) × (lcm_udpm_subscribe sys net fuel l w ≡ some o)
              × Outcome sys counts (fds w) o)
            ⊎ Busy sys net fuel (setup_steps sys l w)
      by_steps (inr busy) = inr busy
      by_steps (inl (o, e, outcome)) = inl (
        o,
        ap (λ b. if b then some (pos 0, (l, w)) else setup_recv_thread sys net fuel l w)
              closed.no_thread
            ∙ e,
        outcome,
      )
