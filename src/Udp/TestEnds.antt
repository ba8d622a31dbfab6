-- ===== src/Udp/TestEnds.antt =====
-- upstream/lcm/lcm_udp.c: the self test comes to its end, after the first round that ends it.
use conftron.Base.{
  ℕ, zero, suc, ◌+◌, ◌<◌, ◌≡◌, refl, sym, subst, ◌⊎◌, inl, inr, Bool, true, false, not, ◌&&◌,
  Option, some, if◌then◌else◌, ℤ, arith,
}
use conftron.Udp.Receive.{TimeVal, timeval_before}
use conftron.Udp.SelfTest.{TestNet, timeval_add, retransmit_interval, test_round, again, test_loop}

module _ {World : Type 0} (net : TestNet World) (recvfd : ℤ) where
  open net use {subscribe, unsubscribe, publish, success, get_current_time}

  -- The next time to send, the time that was read last, and the world.
  abbrev pub Rounds : Type 0
  Rounds = TimeVal × (TimeVal × World)

  abbrev pub world_of : Rounds → World
  world_of (next, (now, w)) = w

  abbrev pub one_round : Rounds → Rounds
  one_round (next, (now, w)) = test_round net recvfd next now w

  abbrev pub after_rounds : ℕ → Rounds → Rounds
  after_rounds zero r = r
  after_rounds (suc k) r = after_rounds k (one_round r)

  -- The test stops: the handler of the message has been called, or the time read is not before the end.
  abbrev pub Stops : TimeVal → Rounds → Type 0
  Stops endtime (next, (now, w)) = (success w ≡ true) ⊎ (timeval_before now endtime ≡ false)

  abbrev pub GoesOn : TimeVal → Rounds → Type 0
  GoesOn endtime (next, (now, w)) = (success w ≡ false) × (timeval_before now endtime ≡ true)

  -- None of the next `k` rounds ends the test.
  abbrev pub AllGoOn : TimeVal → ℕ → Rounds → Type 0
  AllGoOn endtime zero r = Unit
  AllGoOn endtime (suc k) r = GoesOn endtime (one_round r) × AllGoOn endtime k (one_round r)

  abbrev pub loop : TimeVal → ℕ → Rounds → Option World
  loop endtime fuel (next, (now, w)) = test_loop net fuel recvfd endtime next now w

  -- A result after `j` rounds and one more, which is the first to end the test.
  pub record EndsBy (endtime : TimeVal) (fuel : ℕ) (r : Rounds) (o : Option World) : Type 0 where
    pub rounds : ℕ
    pub within : rounds < fuel
    pub returns : o ≡ some (world_of (after_rounds (suc rounds) r))
    pub stops : Stops endtime (after_rounds (suc rounds) r)
    pub first : AllGoOn endtime rounds r

  one_more :
      (endtime : TimeVal) (fuel : ℕ) (r : Rounds)
      → GoesOn endtime (one_round r)
      → EndsBy endtime fuel (one_round r) (loop endtime fuel (one_round r))
        ⊎ AllGoOn endtime fuel (one_round r)
      → EndsBy endtime (suc fuel) r (loop endtime fuel (one_round r)) ⊎ AllGoOn endtime (suc fuel) r
  one_more endtime fuel r g (inr all) = inr (g, all)
  one_more endtime fuel r g (inl e) = inl (record {
    rounds = suc e.rounds;
    within = omega (arith, e.within);
    returns = e.returns;
    stops = e.stops;
    first = (g, e.first);
  })

  -- A round, and what the loop does behind it.
  by_round :
      (endtime : TimeVal) (fuel : ℕ) (r : Rounds)
      → EndsBy endtime fuel (one_round r) (loop endtime fuel (one_round r))
        ⊎ AllGoOn endtime fuel (one_round r)
      → EndsBy endtime (suc fuel) r (
          if again net (world_of (one_round r)) (one_round r).1.0 endtime
          then loop endtime fuel (one_round r)
          else some (world_of (one_round r)))
        ⊎ AllGoOn endtime (suc fuel) r
  by_round endtime fuel r rest =
      either (success (world_of (one_round r))) (timeval_before (one_round r).1.0 endtime) refl refl
    where
      Goal : Bool → Type 0
      Goal b =
          EndsBy endtime (suc fuel) r
            (if b then loop endtime fuel (one_round r) else some (world_of (one_round r)))
          ⊎ AllGoOn endtime (suc fuel) r

      at_once :
          Stops endtime (one_round r) → EndsBy endtime (suc fuel) r (some (world_of (one_round r)))
      at_once h = record { rounds = 0; within = omega arith; returns = refl; stops = h; first = tt }

      either :
          (s t : Bool)
          → success (world_of (one_round r)) ≡ s
          → timeval_before (one_round r).1.0 endtime ≡ t
          → Goal
              (not (success (world_of (one_round r))) && timeval_before (one_round r).1.0 endtime)
      either true t e f =
          subst (λ b. Goal (not b && timeval_before (one_round r).1.0 endtime)) (sym e)
            (inl (at_once (inl e)))
      either false true e f =
          subst (λ b. Goal (not b && timeval_before (one_round r).1.0 endtime)) (sym e)
            (subst Goal (sym f) (one_more endtime fuel r (e, f) rest))
      either false false e f =
          subst (λ b. Goal (not b && timeval_before (one_round r).1.0 endtime)) (sym e)
            (subst Goal (sym f) (inl (at_once (inr f))))

  -- The loop ends by its fuel, or none of that many rounds ends it.
  pub loop-EndsBy :
      (endtime : TimeVal) (fuel : ℕ) (r : Rounds)
      → EndsBy endtime fuel r (loop endtime fuel r) ⊎ AllGoOn endtime fuel r
  unfolding test_loop
  loop-EndsBy endtime zero r = inr tt
  loop-EndsBy endtime (suc fuel) (next, (now, w)) =
      by_round endtime fuel (next, (now, w)) (loop-EndsBy endtime fuel (one_round (next, (now, w))))

  -- The start of the test: the time is read, and the end is ten seconds later.
  abbrev pub started_at : World → TimeVal × World
  started_at w = get_current_time (publish (subscribe w))

  abbrev pub end_of_test : World → TimeVal
  end_of_test w =
      let now = (started_at w).0 in record { tv_sec = now.tv_sec + 10; tv_usec = now.tv_usec }

  abbrev pub first_rounds : World → Rounds
  first_rounds w = (timeval_add (started_at w).0 retransmit_interval, started_at w)
