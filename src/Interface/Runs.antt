-- ===== src/Interface/Runs.antt =====
-- A system of one counter, the number of messages that wait, and the theorems in it.
use conftron.Base.{
  ℕ, zero, suc, ◌+◌, ◌-◌, ◌<◌, ◌≡◌, refl, ap, Bool, true, false, none, some, arith, ℤ, pos, negsuc,
  if◌then◌else◌,
}
use conftron.Interface.{Api, lcm_check, max_msgs}
use conftron.Interface.Check.{Works, lcm_check_lem}

-- The result and the set of the next select, and the world.
abbrev answer : ℕ → ℤ × Bool × ℕ
answer zero = (pos 0, false, 0)
answer (suc n) = (pos 1, true, suc n)

-- A provider is `true` if it can be opened; on a file that is not 3 select fails.
abbrev select_of : ℤ → Bool → ℕ → ℤ × Bool × ℕ
select_of (pos fd) ready w = answer w
select_of (negsuc fd) ready w = (negsuc 0, ready, w)

abbrev counter : Api
counter = record {
  World = ℕ;
  Provider = Bool;
  Lcm = Bool;
  lcm_create = λ provider w. (if provider then some true else none, w);
  lcm_get_fileno = λ _ w. (pos 3, w);
  lcm_handle = λ _ w. w - 1;
  select = select_of;
}

abbrev counter_works : Works counter true (pos 3) (λ w. w)
counter_works = record {
  idle = λ w h. (0, ap answer h, refl);
  ready = ready_lem;
  takes_one = takes_one_lem;
}
  where
    ready_lem : (w : ℕ) → 0 < w → (w' : ℕ) × (answer w ≡ (pos 1, true, w')) × (w' ≡ w)
    ready_lem zero h = elim h [ ]
    ready_lem (suc n) h = (suc n, refl, refl)

    takes_one_lem : (w : ℕ) → 0 < w → w - 1 + 1 ≡ w
    takes_one_lem w h = omega (arith, h)

lcm_check_lem_example :
    (w' : ℕ) × (lcm_check counter true (pos 3) 30 ≡ some w') × (w' ≡ 30 - max_msgs)
lcm_check_lem_example = lcm_check_lem counter true (pos 3) (λ w. w) counter_works 30
