-- ===== src/Logprov.antt =====
-- upstream/lcm/lcm_file.c: the provider that plays a log file, or writes one. The pipes, the clock, the
-- timer thread and the numbers for the speed are the record Host over a world. An int64_t is its bit
-- pattern; memory and the closing of the file are left out.
pub mod Published
pub mod Play
pub mod Creating
mod Runs
use conftron.Base.{
  ℕ, zero, suc, ◌+◌, ◌-◌, ◌*◌, ◌/◌, ◌%◌, ◌^◌, Bool, true, false, Option, none, some, List, [], ◌∷◌,
  length, if◌then◌else◌, ltb, leb, ℤ, pos, negsuc, minus_one, is_neg, until_nul,
}
use conftron.IoUtils.{File}
use conftron.EventLog.{
  Event, EventLog, Outcome, event, eof, aborted, undefined, read_next_event, write_event,
}
use conftron.Lcmgen.Text.{Text, codes, streq}

-- What the provider calls. `read_char` and `write_char` are for the character in the notify pipe, with
-- the status; `next_time` is next_clock_time += difference / speed.
pub record Host : Type 1 where
  pub World : Type 0
  pub Speed : Type 0
  pub one : Speed
  pub strtod : Text → Speed
  pub is_positive : Speed → Bool
  pub next_time : ℕ → ℕ → Speed → ℕ
  pub now : World → ℕ
  pub pipe_create : World → Option (ℤ × ℤ) × World
  pub close : ℤ → World → World
  pub read_char : ℤ → World → ℤ × World
  pub write_char : ℤ → World → World
  pub read_time : ℤ → World → Option ℕ × World
  pub write_time : ℤ → ℕ → World → World
  pub select : ℤ → ℕ → ℕ → World → ℤ × World
  pub create_thread : World → Bool × World
  pub join_thread : World → World
  pub fopen : Text → Bool → World → Option File × World

-- What lcm_dispatch_handlers is given.
pub record Message : Type 0 where
  pub channel : List ℕ
  pub bytes : List ℕ
  pub recv_utime : ℕ

-- The fields of lcm_logprov_t that the destructor reads.
pub record Ends : Type 0 where
  pub thread_created : Bool
  pub notify_pipe : ℤ × ℤ
  pub timer_pipe : ℤ × ℤ

-- The fields that the arguments set.
pub record Mode (Speed : Type 0) : Type 0 where
  pub writer : Bool
  pub speed : Speed

-- lcm_logprov_t with an open log
pub record Logprov (Speed : Type 0) : Type 0 where
  pub ends : Ends
  pub mode : Mode Speed
  pub log : EventLog
  pub next_event : Option Event
  pub next_clock_time : ℕ

-- a > b, of signed numbers
abbrev pub is_later : ℕ → ℕ → Bool
is_later a b = ltb ((b + 2 ^ 63) % 2 ^ 64) ((a + 2 ^ 63) % 2 ^ 64)

module _ (host : Host) where
  open host use {
    World, Speed, one, strtod, is_positive, next_time, now, pipe_create, close, read_char,
    write_char, read_time, write_time, select, create_thread, join_thread, fopen,
  }

  -- What load_next_event gives: an event, the end of the file, or the end of the program.
  pub data Load : Type 0 where
    loaded : Event → Logprov Speed → Load
    at_end : Logprov Speed → Load
    ended : Load

  abbrev pub after_read : Logprov Speed → Outcome → Load
  after_read lr (event le log) = loaded le (record lr { log = log; next_event = some le })
  after_read lr (eof log) = at_end (record lr { log = log; next_event = none })
  after_read lr aborted = ended
  after_read lr undefined = ended

  unfoldable pub load_next_event : Logprov Speed → Load
  load_next_event lr = after_read lr (read_next_event lr.log)

  abbrev pub stop_thread : Ends → World → World
  stop_thread ends w =
      if ends.thread_created then join_thread (write_time ends.timer_pipe.1 (2 ^ 64 - 1) w) else w

  abbrev pub close_end : ℤ → World → World
  close_end fd w = if is_neg fd then w else close fd w

  -- lcm_logprov_destroy
  unfoldable pub lcm_logprov_destroy : Ends → World → World
  lcm_logprov_destroy ends w = close_end ends.timer_pipe.1 (
      close_end ends.timer_pipe.0
        (close_end ends.notify_pipe.1 (close_end ends.notify_pipe.0 (stop_thread ends w))))

  -- What the timer thread does with a time: it goes on, or returns.
  abbrev pub after_select : Ends → ℤ × World → World
  after_select ends (pos zero, w) = write_char ends.notify_pipe.1 w
  after_select ends (pos (suc n), w) = w
  after_select ends (negsuc n, w) = w

  abbrev pub wait_for : Ends → ℕ → World → World
  wait_for ends abstime w =
      let sleep_utime = (abstime + (2 ^ 64 - now w)) % 2 ^ 64 in
      if is_later abstime (now w)
      then after_select ends
          (select ends.timer_pipe.0 (sleep_utime / 1000000) (sleep_utime % 1000000) w)
      else write_char ends.notify_pipe.1 w

  -- A round of timer_thread, and whether there is a next one
  abbrev pub with_time : Ends → Option ℕ × World → Bool × World
  with_time ends (none, w) = (false, w)
  with_time ends (some abstime, w) =
      if leb (2 ^ 63) abstime then (false, w) else (true, wait_for ends abstime w)

  unfoldable pub timer_round : Ends → World → Bool × World
  timer_round ends w = with_time ends (read_time ends.timer_pipe.0 w)

  -- The context of lcm_logprov_create with its file.
  abbrev pub opened : Ends → Mode Speed → File → Logprov Speed
  opened ends mode f = record {
    ends = ends;
    mode = mode;
    log = record { f = f; eventcount = 0 };
    next_event = none;
    next_clock_time = 2 ^ 64 - 1;
  }

  -- lcm_logprov_handle: the clock at the first call
  abbrev pub start_clock : Logprov Speed → ℕ → Logprov Speed
  start_clock lr t =
      if leb (2 ^ 63) lr.next_clock_time then record lr { next_clock_time = t } else lr

  abbrev pub message_of : Logprov Speed → Event → Message
  message_of lr le = record {
    channel = until_nul le.channel;
    bytes = le.data_of;
    recv_utime = lr.next_clock_time;
  }

  -- The time of the next event
  abbrev pub set_clock : Logprov Speed → ℕ → ℕ → ℕ → Logprov Speed
  set_clock lr timestamp prev_log_time t = record lr {
    next_clock_time =
        if is_positive lr.mode.speed
        then next_time lr.next_clock_time ((timestamp + (2 ^ 64 - prev_log_time)) % 2 ^ 64)
            lr.mode.speed
        else t;
  }

  abbrev pub wake : Logprov Speed → ℕ → World → World
  wake lr t w =
      if is_later lr.next_clock_time t
      then write_time lr.ends.timer_pipe.1 lr.next_clock_time w
      else write_char lr.ends.notify_pipe.1 w

  -- The status, the message that is dispatched, and the state; `none` is the end of the program.
  abbrev pub Handled : Type 0
  Handled = Option ((ℤ × Option Message) × Logprov Speed × World)

  abbrev pub after_load : Message → ℕ → ℕ → World → Load → Handled
  after_load m prev_log_time t w (loaded le lr) =
      let lr1 = set_clock lr le.timestamp prev_log_time t in
      some ((pos 0, some m), lr1, wake lr1 t w)
  after_load m prev_log_time t w (at_end lr) =
      some ((pos 0, some m), lr, write_char lr.ends.notify_pipe.1 w)
  after_load m prev_log_time t w ended = none

  abbrev pub dispatch : Logprov Speed → Event → ℕ → World → Handled
  dispatch lr le t w = after_load (message_of lr le) le.timestamp t w (load_next_event lr)

  abbrev pub with_status : Logprov Speed → Event → ℤ × World → Handled
  with_status lr le (pos zero, w) = some ((minus_one, none), lr, w)
  with_status lr le (pos (suc n), w) = dispatch (start_clock lr (now w)) le (now w) w
  with_status lr le (negsuc n, w) = some ((minus_one, none), lr, w)

  abbrev pub handle_event : Logprov Speed → Option Event → World → Handled
  handle_event lr none w = some ((minus_one, none), lr, w)
  handle_event lr (some le) w = with_status lr le (read_char lr.ends.notify_pipe.0 w)

  unfoldable pub lcm_logprov_handle : Logprov Speed → World → Handled
  unfolding load_next_event
  lcm_logprov_handle lr w = handle_event lr lr.next_event w

  -- lcm_logprov_publish; the result of the write is not looked at.
  abbrev pub published :
      Logprov Speed → Option ((Bool × EventLog) × Event) → Option (ℤ × Logprov Speed)
  published lr none = none
  published lr (some ((ok, log), le)) = some (pos 0, record lr { log = log })

  abbrev pub event_at : ℕ → List ℕ → List ℕ → Event
  event_at time channel bytes = record {
    eventnum = 0;
    timestamp = time % 2 ^ 64;
    channellen = length channel % 2 ^ 32;
    datalen = length bytes % 2 ^ 32;
    channel = channel;
    data_of = bytes;
  }

  unfoldable pub lcm_logprov_publish :
      Logprov Speed → List ℕ → List ℕ → World → Option (ℤ × Logprov Speed)
  unfolding write_event
  lcm_logprov_publish lr channel bytes w =
      if lr.mode.writer
      then published lr (write_event lr.log (event_at (now w) channel bytes))
      else some (minus_one, lr)
