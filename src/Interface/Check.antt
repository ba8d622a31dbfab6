-- ===== src/Interface/Check.antt =====
-- How many messages one call of lcm_check (lcm_interface.c) takes in.
use conftron.Base.{
  ℕ, zero, suc, ◌+◌, ◌-◌, ◌<◌, ◌≤◌, ◌≡◌, ◌∙◌, true, false, none, some, ◌↔◌, dec_lt, arith, ℤ, pos,
  negsuc, le→ltb_false, lt→ltb,
}
use conftron.Interface.{Api, check_round, check_loop, lcm_check, lcm_initialize, max_msgs}

-- A system in which select works and lcm_handle takes one message: `pending` counts the messages
-- that wait on the file of `lcm`.
pub record Works (api : Api) (lcm : api.Lcm) (fd : ℤ) (pending : api.World → ℕ) : Type 0 where
  pub idle :
      (w : api.World)
      → pending w ≡ 0
      → (w' : api.World) × (api.select fd true w ≡ (pos 0, false, w')) × (pending w' ≡ 0)
  pub ready :
      (w : api.World)
      → 0 < pending w
      → (w' : api.World) × (api.select fd true w ≡ (pos 1, true, w')) × (pending w' ≡ pending w)
  pub takes_one : (w : api.World) → 0 < pending w → pending (api.lcm_handle lcm w) + 1 ≡ pending w

module _ (api : Api) (lcm : api.Lcm) (fd : ℤ) (pending : api.World → ℕ)
    (works : Works api lcm fd pending) where
  round_idle :
      (w : api.World)
      → pending w ≡ 0
      → (w' : api.World) × (check_round api lcm fd w ≡ (pos 0, w')) × (pending w' ≡ 0)
  unfolding check_round
  round_idle w h = let (w', e, p) = works.idle w h in (w', rw e, p)

  round_ready :
      (w : api.World)
      → 0 < pending w
      → (w' : api.World) × (check_round api lcm fd w ≡ (pos 1, w')) × (pending w' + 1 ≡ pending w)
  unfolding check_round
  round_ready w h =
      let (w1, e, p) = works.ready w h in
      (api.lcm_handle lcm w1, rw e, works.takes_one w1 (omega (arith, p)) ∙ p)

  -- After `iters` rounds, with fuel for all that are left.
  check_loop_lem :
      (fuel iters : ℕ) (w : api.World)
      → iters < max_msgs
      → max_msgs ≤ fuel + iters
      → (w' : api.World) × (check_loop api fuel iters lcm fd w ≡ some w')
        × (pending w' ≡ pending w - (max_msgs - iters))
  unfolding check_loop
  check_loop_lem zero iters w h k = absurd (omega arith)
  check_loop_lem (suc fuel) iters w h k = elim (dec_lt 0 (pending w)) [
    | yes some_wait ↦
        let (w1, e, p) = round_ready w some_wait in
        elim (dec_lt (iters + 1) max_msgs) [
          | yes more ↦
              let (w2, e2, p2) = check_loop_lem fuel (iters + 1) w1 more (omega (arith, k)) in
              (w2, rw (e, lt→ltb _ _ more, e2), omega (arith, p, p2, h))
          | no last ↦ (
            w1,
            rw (e, le→ltb_false (iters + 1) max_msgs (omega (arith, last))),
            omega (arith, p, last, h),
          )
        ]
    | no none_wait ↦
        let (w1, e, p) = round_idle w (omega (arith, none_wait)) in
        (w1, rw e, omega (arith, p, none_wait))
  ]

  -- Where select reports the file ready just if a message waits, and lcm_handle takes one message,
  -- lcm_check returns and has taken in the messages that wait, 22 of them at most.
  pub lcm_check_lem :
      (w : api.World)
      → (w' : api.World) × (lcm_check api lcm fd w ≡ some w') × (pending w' ≡ pending w - max_msgs)
  unfolding lcm_check
  lcm_check_lem w = check_loop_lem max_msgs 0 w (omega arith) (omega arith)

-- When select fails and leaves the set as it was, lcm_check calls lcm_handle once, whether a message
-- waits or not, and returns.
lcm_check-fails :
    (api : Api) (lcm : api.Lcm) (fd : ℤ) (w w' : api.World) (n : ℕ)
    → api.select fd true w ≡ (negsuc n, true, w')
    → lcm_check api lcm fd w ≡ some (api.lcm_handle lcm w')
unfolding lcm_check check_loop check_round
lcm_check-fails api lcm fd w w' n e = rw e

-- lcm_initialize follows NULL just if lcm_create gives NULL, which it has found and reported.
pub lcm_initialize_iff :
    (api : Api) (provider : api.Provider) (w : api.World)
    → (lcm_initialize api provider w ≡ none) ↔ ((api.lcm_create provider w).0 ≡ none)
unfolding lcm_initialize
lcm_initialize_iff api provider w = ground arith
