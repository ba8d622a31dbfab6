-- ===== src/Logprov/Creating.antt =====
-- upstream/lcm/lcm_file.c: lcm_logprov_create, with its arguments.
use conftron.Base.{Bool, true, false, Option, none, some, List, [], ◌∷◌, if◌then◌else◌, ℤ, pos}
use conftron.IoUtils.{File}
use conftron.Lcmgen.Text.{Text, codes, streq}
use conftron.Logprov.{
  Host, Ends, Mode, Logprov, Load, loaded, at_end, ended, load_next_event, opened,
  lcm_logprov_destroy,
}

module _ (host : Host) where
  open host use {World, Speed, one, strtod, pipe_create, write_char, create_thread, fopen}

  -- new_argument
  unfoldable pub new_argument : Text → Text → Mode Speed → Mode Speed
  new_argument key value mode =
      if streq key (codes "speed")
      then record mode { speed = strtod value }
      else if streq key (codes "mode")
      then (if streq value (codes "w") then record mode { writer = true } else mode)
      else mode

  -- g_hash_table_foreach, in the order of the table
  abbrev pub new_arguments : List (Text × Text) → Mode Speed → Mode Speed
  unfolding new_argument
  new_arguments [] mode = mode
  new_arguments ((key, value) ∷ args) mode = new_arguments args (new_argument key value mode)

  -- lcm_logprov_create; the outer `none` is the end of the program.
  abbrev pub Created : Type 0
  Created = Option (Option (Logprov Speed) × World)

  abbrev pub fail_create : Ends → World → Created
  fail_create ends w = some (none, lcm_logprov_destroy host ends w)

  abbrev pub with_thread : Logprov Speed → Bool × World → Created
  with_thread lr (false, w) = fail_create lr.ends w
  with_thread lr (true, w) = some (
    some (record lr { ends = record (lr.ends) { thread_created = true } }),
    write_char lr.ends.notify_pipe.1 w,
  )

  abbrev pub with_first : Load host → World → Created
  with_first (loaded le lr) w = with_thread lr (create_thread w)
  with_first (at_end lr) w = fail_create lr.ends w
  with_first ended w = none

  abbrev pub with_log : Ends → Mode Speed → Option File × World → Created
  with_log ends mode (none, w) = fail_create ends w
  with_log ends mode (some f, w) =
      if mode.writer
      then some (some (opened host ends mode f), w)
      else with_first (load_next_event host (opened host ends mode f)) w

  -- An end of a pipe that was not created is the zero of calloc.
  abbrev pub with_timer : Text → Mode Speed → ℤ × ℤ → Option (ℤ × ℤ) × World → Created
  with_timer target mode notify (none, w) =
      fail_create
        (record { thread_created = false; notify_pipe = notify; timer_pipe = (pos 0, pos 0) }) w
  with_timer target mode notify (some timer, w) =
      with_log (record { thread_created = false; notify_pipe = notify; timer_pipe = timer }) mode
        (fopen target mode.writer w)

  abbrev pub with_notify : Text → Mode Speed → Option (ℤ × ℤ) × World → Created
  with_notify target mode (none, w) =
      fail_create
        (record {
          thread_created = false;
          notify_pipe = (pos 0, pos 0);
          timer_pipe = (pos 0, pos 0);
        })
        w
  with_notify target mode (some notify, w) = with_timer target mode notify (pipe_create w)

  unfoldable pub lcm_logprov_create : Text → List (Text × Text) → World → Created
  unfolding lcm_logprov_destroy load_next_event
  lcm_logprov_create [] args w = some (none, w)
  lcm_logprov_create (c ∷ target) args w =
      with_notify (c ∷ target) (new_arguments args (record { writer = false; speed = one }))
        (pipe_create w)
