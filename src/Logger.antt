-- ===== src/Logger.antt =====
-- upstream/lcm-logger/lcm_logger.c: the two threads of the logger, the queue between them and its bound.
-- A run of the threads is the list of their steps, each as long as a thread holds the mutex or the
-- lock of the queue. An int64_t is its bit pattern.
pub mod Account
pub mod Bound
pub mod Order
pub mod Drain
mod Runs
use conftron.Base.{
  ℕ, ◌+◌, ◌-◌, ◌%◌, ◌^◌, Bool, true, false, ◌&&◌, Option, none, some, List, [], ◌∷◌, ◌++◌, length,
  if◌then◌else◌, ltb, ◌>>=◌,
}
use conftron.EventLog.{Event, EventLog, write_event}

-- lcm_recv_buf_t, with the channel
pub record Message : Type 0 where
  pub channel : List ℕ
  pub bytes : List ℕ
  pub recv_utime : ℕ

-- An entry of the queue: an event, or the address of the exit flag.
pub data Entry : Type 0 where
  event : Event → Entry
  exit_mark : Entry

-- struct logger, without the names, the subscription and the mutex
pub record Logger : Type 0 where
  pub log : EventLog
  pub max_write_queue_size : ℕ
  pub write_queue : List Entry
  pub write_queue_size : ℕ
  pub write_thread_exit_flag : Bool
  pub nevents : ℕ
  pub logsize : ℕ
  pub events_since_last_report : ℕ
  pub last_report_time : ℕ
  pub last_report_logsize : ℕ
  pub time0 : ℕ
  pub dropped_packets_count : ℕ
  pub last_drop_report_utime : ℕ
  pub last_drop_report_count : ℕ

-- sizeof(lcm_eventlog_event_t)
abbrev pub sizeof_event : ℕ
sizeof_event = 40

-- An int32_t as an int64_t.
abbrev pub widen : ℕ → ℕ
widen n = if ltb n (2 ^ 31) then n else n + (2 ^ 64 - 2 ^ 32)

-- The memory of an event, as write_thread computes it.
abbrev pub event_size : Event → ℕ
event_size le = (sizeof_event + widen le.channellen + 1 + widen le.datalen) % 2 ^ 64

-- a - b > limit, of signed numbers
abbrev pub exceeds : ℕ → ℕ → ℕ → Bool
exceeds a b limit = let d = (a + (2 ^ 64 - b)) % 2 ^ 64 in ltb d (2 ^ 63) && ltb limit d

-- message_handler up to the mutex: the memory that the message takes.
abbrev pub message_size : Message → ℕ
message_size m = sizeof_event + length m.channel + 1 + length m.bytes

abbrev pub mem_required : Logger → Message → ℕ
mem_required logger m = (message_size m + logger.write_queue_size) % 2 ^ 64

-- mem_required > logger->max_write_queue_size, of signed numbers
abbrev pub too_big : ℕ → ℕ → Bool
too_big required limit = ltb required (2 ^ 63) && ltb limit required

abbrev pub event_of : Message → Event
event_of m = record {
  eventnum = 0;
  timestamp = m.recv_utime;
  channellen = length m.channel % 2 ^ 32;
  datalen = length m.bytes % 2 ^ 32;
  channel = m.channel;
  data_of = m.bytes;
}

-- The report of dropped packets, at the time `now`, if it is due.
abbrev pub report_drop : Bool → Logger → ℕ → Logger
report_drop false logger now = logger
report_drop true logger now = record logger {
  last_drop_report_utime = now;
  last_drop_report_count = logger.dropped_packets_count;
}

-- rc > 0, of an int
abbrev pub is_positive_int : ℕ → Bool
is_positive_int rc = ltb rc (2 ^ 31) && ltb 0 rc

abbrev pub drop_is_due : Logger → ℕ → Bool
drop_is_due logger now =
    exceeds now logger.last_drop_report_utime 1000000
    && is_positive_int
        ((logger.dropped_packets_count + (2 ^ 64 - logger.last_drop_report_count)) % 2 ^ 32)

abbrev pub count_drop : Logger → Logger
count_drop logger = record logger {
  dropped_packets_count = (logger.dropped_packets_count + 1) % 2 ^ 64;
}

abbrev pub drop_packet : Logger → ℕ → Logger
drop_packet logger now = report_drop (drop_is_due (count_drop logger) now) (count_drop logger) now

-- write_thread: the message leaves the queue's account.
abbrev pub account : Logger → Event → Logger
account logger le = record logger {
  write_queue_size = (logger.write_queue_size + (2 ^ 64 - event_size le)) % 2 ^ 64;
}

-- The report of events, if it is due.
abbrev pub report_events : Bool → Logger → ℕ → Logger
report_events false logger offset_utime = logger
report_events true logger offset_utime = record logger {
  last_report_time = offset_utime;
  events_since_last_report = 0;
  last_report_logsize = logger.logsize;
}

abbrev pub count_event : Logger → Event → Logger
count_event logger le = record logger {
  nevents = (logger.nevents + 1) % 2 ^ 64;
  events_since_last_report = (logger.events_since_last_report + 1) % 2 ^ 64;
  logsize = (logger.logsize + widen ((24 + le.channellen + 4 + le.datalen) % 2 ^ 32)) % 2 ^ 64;
}

abbrev pub bookkeeping : Logger → Event → Logger
bookkeeping logger le =
    let offset_utime = (le.timestamp + (2 ^ 64 - logger.time0)) % 2 ^ 64 in
    report_events (exceeds offset_utime logger.last_report_time 1000000) (count_event logger le)
      offset_utime

-- The event is written; after a failure the thread goes on, unless the device is full.
abbrev pub after_write : Logger → Bool → (Bool × EventLog) × Event → Option Logger
after_write logger device_full ((true, log), le) =
    some (bookkeeping (record logger { log = log }) le)
after_write logger device_full ((false, log), le) =
    if device_full then none else some (record logger { log = log })

abbrev pub write_out : Logger → Bool → Event → Option Logger
write_out logger device_full le = write_event logger.log le >>= after_write logger device_full

-- Where the receiving thread stands: in the main loop, in message_handler before the push, or at the
-- exit, before and behind the push of the mark.
pub data Receiver : Type 0 where
  idle : Receiver
  reserved : Event → Receiver
  stopping stopped : Receiver

-- Where the writing thread stands: before the pop, behind it, behind the account, or at its end, with
-- the entry that it took last.
pub data Writer : Type 0 where
  waiting : Writer
  popped : Entry → Writer
  accounted : Event → Writer
  ended : Entry → Writer

pub record System : Type 0 where
  pub logger : Logger
  pub receiver : Receiver
  pub writer : Writer

-- The steps. `receive` has a message and the time; `write` whether a failure is that of a full device.
pub data Action : Type 0 where
  receive : Message → ℕ → Action
  push pop lock : Action
  write : Bool → Action
  stop mark : Action

-- What a step does to the events: one is accepted into the queue, or handed to the log.
pub data Label : Type 0 where
  silent : Label
  accepted handed : Event → Label

-- message_handler behind the test of the size.
abbrev pub take_message : Bool → System → Message → ℕ → Label × System
take_message true s m now = (silent, record s { logger = drop_packet s.logger now })
take_message false s m now = (
  accepted (event_of m),
  record s {
    logger = record (s.logger) { write_queue_size = mem_required s.logger m };
    receiver = reserved (event_of m);
  },
)

-- message_handler, with the test for an inverted channel
abbrev pub handle : (List ℕ → Bool) → System → Message → ℕ → Label × System
handle ignored s m now =
    if ignored m.channel
    then (silent, s)
    else take_message (too_big (mem_required s.logger m) s.logger.max_write_queue_size) s m now

abbrev pub enqueue : Logger → Entry → Logger
enqueue logger e = record logger { write_queue = logger.write_queue ++ (e ∷ []) }

-- Steps of the receiving thread.
abbrev pub receiver_step : (List ℕ → Bool) → System → Receiver → Action → Option (Label × System)
receiver_step ignored s idle (receive m now) = some (handle ignored s m now)
receiver_step ignored s idle stop = some (
  silent,
  record s { logger = record (s.logger) { write_thread_exit_flag = true }; receiver = stopping },
)
receiver_step ignored s (reserved le) push =
    some (silent, record s { logger = enqueue s.logger (event le); receiver = idle })
receiver_step ignored s stopping mark =
    some (silent, record s { logger = enqueue s.logger exit_mark; receiver = stopped })
receiver_step ignored s r a = none

abbrev pub pop_entry : System → List Entry → Option (Label × System)
pop_entry s [] = none
pop_entry s (e ∷ queue) =
    some
      (silent, record s { logger = record (s.logger) { write_queue = queue }; writer = popped e })

-- Behind the lock: the thread ends, or takes the event; the mark without the flag would be read as an
-- event, which no run reaches.
abbrev pub locked : System → Bool → Entry → Option (Label × System)
locked s true e = some (silent, record s { writer = ended e })
locked s false (event le) =
    some (silent, record s { logger = account s.logger le; writer = accounted le })
locked s false exit_mark = none

abbrev pub written : System → Event → Option Logger → Option (Label × System)
written s le none = none
written s le (some logger) = some (handed le, record s { logger = logger; writer = waiting })

-- Steps of write_thread.
abbrev pub writer_step : System → Writer → Action → Option (Label × System)
writer_step s waiting pop = pop_entry s s.logger.write_queue
writer_step s (popped e) lock = locked s s.logger.write_thread_exit_flag e
writer_step s (accounted le) (write full) = written s le (write_out s.logger full le)
writer_step s w a = none

-- Which thread takes the step.
unfoldable pub step : (List ℕ → Bool) → System → Action → Option (Label × System)
unfolding write_event
step ignored s pop = writer_step s s.writer pop
step ignored s lock = writer_step s s.writer lock
step ignored s (write full) = writer_step s s.writer (write full)
step ignored s (receive m now) = receiver_step ignored s s.receiver (receive m now)
step ignored s push = receiver_step ignored s s.receiver push
step ignored s stop = receiver_step ignored s s.receiver stop
step ignored s mark = receiver_step ignored s s.receiver mark

abbrev pub add_label : Label → List Label × System → List Label × System
add_label l (ls, s) = (l ∷ ls, s)

-- A run; `none` if a step is not the thread's next one, or ends the program.
abbrev pub run : (List ℕ → Bool) → System → List Action → Option (List Label × System)
run ignored s [] = some ([], s)
run ignored s (a ∷ actions) =
    step ignored s a >>= λ (l, s1). run ignored s1 actions >>= λ r. some (add_label l r)
