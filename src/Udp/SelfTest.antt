-- ===== src/Udp/SelfTest.antt =====
-- upstream/lcm/lcm_udp.c: udpm_self_test, which sends a message and waits for it to come in. What
-- lcm_udpm_publish, lcm_udpm_handle and the subscription do for it are functions on a world, as select
-- and the clock are.
use conftron.Base.{
  ℕ, zero, suc, ◌+◌, ◌-◌, Bool, true, false, not, ◌&&◌, Option, none, some, ◌>>=◌, if◌then◌else◌,
  ltb, ℤ, sub_ℕ,
}
use conftron.Udp.Receive.{TimeVal, timeval_before}

-- A difference of times: the microseconds are not negative.
pub record Span : Type 0 where
  pub sec : ℤ
  pub usec : ℕ

pub record TestNet (World : Type 0) : Type 0 where
  pub subscribe : World → World
  pub unsubscribe : World → World
  pub publish : World → World
  pub handle : World → World
  -- whether the handler of the message has been called
  pub success : World → Bool
  pub get_current_time : World → TimeVal × World
  -- whether the file has something to read
  pub select : ℤ → Span → World → Bool × World

-- _timeval_add
abbrev pub timeval_add : TimeVal → TimeVal → TimeVal
timeval_add a b =
    if ltb 999999 (a.tv_usec + b.tv_usec)
    then record { tv_sec = a.tv_sec + b.tv_sec + 1; tv_usec = a.tv_usec + b.tv_usec - 1000000 }
    else record { tv_sec = a.tv_sec + b.tv_sec; tv_usec = a.tv_usec + b.tv_usec }

-- _timeval_subtract
abbrev pub timeval_subtract : TimeVal → TimeVal → Span
timeval_subtract a b =
    if ltb a.tv_usec b.tv_usec
    then record { sec = sub_ℕ a.tv_sec (b.tv_sec + 1); usec = a.tv_usec + 1000000 - b.tv_usec }
    else record { sec = sub_ℕ a.tv_sec b.tv_sec; usec = a.tv_usec - b.tv_usec }

abbrev pub retransmit_interval : TimeVal
retransmit_interval = record { tv_sec = 0; tv_usec = 100000 }

module _ {World : Type 0} (net : TestNet World) where
  open net use {subscribe, unsubscribe, publish, handle, success, get_current_time, select}

  -- The message is sent again if its time has come; then the next time is later.
  abbrev pub resend : Bool → TimeVal → TimeVal → World → TimeVal × World
  resend true next now w = (timeval_add now retransmit_interval, publish w)
  resend false next now w = (next, w)

  abbrev pub retransmit : TimeVal → TimeVal × World → TimeVal × World
  retransmit next (now, w) = resend (timeval_before next now) next now w

  abbrev pub handle_ready : Bool × World → World
  handle_ready (true, w) = handle w
  handle_ready (false, w) = w

  -- A round of the loop: the next time to send, and the time and the world behind it.
  abbrev pub test_round : ℤ → TimeVal → TimeVal → World → TimeVal × (TimeVal × World)
  test_round recvfd next now w =
      let (next1, w1) = retransmit next (get_current_time w) in
      (next1, get_current_time (handle_ready (select recvfd (timeval_subtract next now) w1)))

  -- do ... while, on fuel
  abbrev pub again : World → TimeVal → TimeVal → Bool
  again w now endtime = not (success w) && timeval_before now endtime

  unfoldable pub test_loop : ℕ → ℤ → TimeVal → TimeVal → TimeVal → World → Option World
  test_loop zero recvfd endtime next now w = none
  test_loop (suc fuel) recvfd endtime next now w =
      let (next1, (now1, w1)) = test_round recvfd next now w in
      let rest = test_loop fuel recvfd endtime next1 now1 w1 in
      if again w1 now1 endtime then rest else some w1

  abbrev pub end_test : World → Bool × World
  end_test w = (success w, unsubscribe w)

  -- udpm_self_test; the answer says whether it returns 0.
  unfoldable pub udpm_self_test : ℕ → ℤ → World → Option (Bool × World)
  unfolding test_loop
  udpm_self_test fuel recvfd w =
      let (now, w1) = get_current_time (publish (subscribe w)) in
      let endtime : TimeVal = record { tv_sec = now.tv_sec + 10; tv_usec = now.tv_usec } in
      test_loop fuel recvfd endtime (timeval_add now retransmit_interval) now w1 >>= λ w2.
      some (end_test w2)
