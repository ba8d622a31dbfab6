-- ===== src/Logger/Runs.antt =====
-- Runs of the logger at concrete inputs.
use conftron.Base.{
  ℕ, ◌^◌, ◌≡◌, refl, Bool, true, false, Option, none, some, List, [], ◌∷◌, arith, length, All,
}
use conftron.EventLog.{Event}
use conftron.Logger.{
  Message, Entry, event, Logger, event_of, idle, waiting, System, Action, receive, push, pop, lock,
  write, stop, mark, Label, run, step,
}
use conftron.Logger.Account.{Then, IsBounded}
use conftron.Logger.Bound.{run-IsBounded}
use conftron.Logger.Order.{IsFifoRun, run-IsFifoRun, pending, handed_of}
use conftron.Logger.Drain.{drain, Drained, drain-Drained}

-- A limit that two small messages reach.
abbrev logger : Logger
logger = record {
  log = record { f = record { contents = []; place = 0; space = 1000 }; eventcount = 0 };
  max_write_queue_size = 100;
  write_queue = [];
  write_queue_size = 0;
  write_thread_exit_flag = false;
  nevents = 0;
  logsize = 0;
  events_since_last_report = 0;
  last_report_time = 0;
  last_report_logsize = 0;
  time0 = 0;
  dropped_packets_count = 0;
  last_drop_report_utime = 0;
  last_drop_report_count = 0;
}

abbrev start : System
start = record { logger = logger; receiver = idle; writer = waiting }

abbrev first : Message
first = record { channel = 65 ∷ []; bytes = 1 ∷ 2 ∷ []; recv_utime = 5 }

abbrev second : Message
second = record { channel = 66 ∷ []; bytes = 3 ∷ []; recv_utime = 6 }

abbrev actions : List Action
actions =
    receive first 10
    ∷ push
    ∷ receive second 11
    ∷ pop
    ∷ push
    ∷ receive first 12
    ∷ lock
    ∷ write false
    ∷ []

abbrev none_ignored : List ℕ → Bool
none_ignored channel = false

-- What is left in the queue, the account, and the dropped packets.
abbrev summary : Option (List Label × System) → Option (List Entry × ℕ × ℕ)
summary none = none
summary (some (ls, s)) =
    some (s.logger.write_queue, s.logger.write_queue_size, s.logger.dropped_packets_count)

run_runs : summary (run none_ignored start actions) ≡ some (event (event_of second) ∷ [], 43, 1)
unfolding step conftron.Base.read_bytes conftron.IoUtils.fwrite32 conftron.IoUtils.fwrite64
run_runs = refl

-- The exit leaves what is in the queue unwritten.
abbrev unwritten : Option (List Label × System) → Option (List Event × List Event)
unwritten none = none
unwritten (some (ls, s)) = some (handed_of ls, pending s)

exit_runs :
    unwritten (run none_ignored start (receive first 10 ∷ push ∷ stop ∷ mark ∷ pop ∷ lock ∷ []))
    ≡ some ([], event_of first ∷ [])
unfolding step
exit_runs = refl

run-IsBounded_example : Then (λ x. IsBounded x.1) (run none_ignored start actions)
run-IsBounded_example =
    run-IsBounded none_ignored start actions (omega arith)
      (record { counted = refl; within = omega arith; limit = omega arith })

run-IsFifoRun_example : Then (IsFifoRun start) (run none_ignored start actions)
run-IsFifoRun_example = run-IsFifoRun none_ignored start actions

abbrev filled : System
filled = record start {
  logger = record logger {
    write_queue = event (event_of first) ∷ event (event_of second) ∷ [];
    write_queue_size = 87;
  };
}

drain-Drained_example :
    Drained filled filled.logger.write_queue
      (run none_ignored filled (drain (length filled.logger.write_queue)))
drain-Drained_example =
    drain-Drained none_ignored filled filled.logger.write_queue refl refl refl (omega arith)
