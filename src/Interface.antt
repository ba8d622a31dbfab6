-- ===== src/Interface.antt =====
-- lcm_interface.c: how a program that uses conftron opens LCM and takes in messages. What it calls is
-- a record of functions on a world: lcm_create, lcm_get_fileno and lcm_handle of LCM, select of the
-- system. A call that ends the program by following NULL is `none`.
pub mod Check
mod Runs
use conftron.Base.{
  ℕ, zero, suc, ◌+◌, Bool, true, false, Option, none, some, if◌then◌else◌, ltb, ℤ, pos, negsuc,
}

pub record Api : Type 1 where
  pub World : Type 0
  pub Provider : Type 0
  pub Lcm : Type 0
  -- NULL is `none`.
  pub lcm_create : Provider → World → Option Lcm × World
  pub lcm_get_fileno : Lcm → World → ℤ × World
  pub lcm_handle : Lcm → World → World
  -- select on one file for reading with the time-out zero: whether the file is in the set before and
  -- after, and the result.
  pub select : ℤ → Bool → World → ℤ × Bool × World

abbrev pub max_msgs : ℕ
max_msgs = 22

abbrev pub is_positive : ℤ → Bool
is_positive (pos zero) = false
is_positive (pos (suc n)) = true
is_positive (negsuc n) = false

module _ (api : Api) where
  open api use {World, Provider, Lcm, lcm_create, lcm_get_fileno, lcm_handle, select}

  -- lcm_initialize: after the message on stderr the descriptor is asked for all the same, and
  -- lcm_get_fileno reads a field of its argument.
  pub lcm_initialize : Provider → World → Option (Lcm × ℤ × World)
  lcm_initialize provider w =
      let (lcm, w1) = lcm_create provider w in
      elim lcm [ none ↦ none | some l ↦ let (fd, w2) = lcm_get_fileno l w1 in some (l, fd, w2) ]

  -- lcm_wait
  pub lcm_wait : Lcm → World → World
  lcm_wait lcm w = lcm_handle lcm w

  -- One round of the loop of lcm_check: the file is put in the set, select is called, and a message is
  -- dispatched if the file is still in the set.
  pub check_round : Lcm → ℤ → World → ℤ × World
  check_round lcm fd w =
      let (selectres, ready, w1) = select fd true w in
      (selectres, if ready then lcm_handle lcm w1 else w1)

  -- The loop, on fuel; `none` means that the fuel ran out.
  pub check_loop : ℕ → ℕ → Lcm → ℤ → World → Option World
  check_loop zero iters lcm fd w = none
  check_loop (suc fuel) iters lcm fd w =
      let (selectres, w1) = check_round lcm fd w in
      let rest = check_loop fuel (iters + 1) lcm fd w1 in
      if is_positive selectres
      then (if ltb (iters + 1) max_msgs then rest else some w1)
      else some w1

  -- lcm_check
  pub lcm_check : Lcm → ℤ → World → Option World
  lcm_check lcm fd w = check_loop max_msgs 0 lcm fd w
