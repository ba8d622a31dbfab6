-- ===== src/Logger/Account.antt =====
-- upstream/lcm-logger/lcm_logger.c: the memory that the queue accounts for, and what the reports leave as it is.
use conftron.Base.{
  ℕ, ◌+◌, ◌-◌, ◌%◌, ◌^◌, ◌≤◌, ◌<◌, ◌≡◌, refl, Bool, true, false, Option, none, some, List, [], ◌∷◌,
  ◌++◌, length, ◌>>=◌, arith,
}
use conftron.EventLog.{Event, EventLog, write_event}
use conftron.Logger.{
  Message, Entry, event, exit_mark, Logger, exceeds, event_size, message_size, event_of,
  report_drop, drop_is_due, count_drop, drop_packet, report_events, count_event, bookkeeping,
  after_write, write_out, Receiver, reserved, Writer, popped, ended, System, Action, receive,
}

-- The property of what there is.
abbrev pub Then {ℓ} : {A : Type ℓ} → (A → Type 0) → Option A → Type 0
Then P none = Unit
Then P (some a) = P a

pub Then-bind {ℓ κ} :
    {A : Type ℓ} {B : Type κ} (P : A → Type 0) (Q : B → Type 0) (o : Option A) (f : A → Option B)
    → Then P o
    → ((a : A) → P a → Then Q (f a))
    → Then Q (o >>= f)
Then-bind P Q none f h k = tt
Then-bind P Q (some a) f h k = k a h

abbrev pub entry_size : Entry → ℕ
entry_size (event le) = event_size le
entry_size exit_mark = 0

abbrev pub queue_size : List Entry → ℕ
queue_size [] = 0
queue_size (e ∷ queue) = entry_size e + queue_size queue

abbrev pub receiver_size : Receiver → ℕ
receiver_size (reserved le) = event_size le
receiver_size r = 0

abbrev pub writer_size : Writer → ℕ
writer_size (popped e) = entry_size e
writer_size (ended e) = entry_size e
writer_size w = 0

-- What is held in memory between the handler and the account.
abbrev pub held : System → ℕ
held s = writer_size s.writer + (queue_size s.logger.write_queue + receiver_size s.receiver)

pub record IsBounded (s : System) : Type 0 where
  pub counted : s.logger.write_queue_size ≡ held s
  pub within : s.logger.write_queue_size ≤ s.logger.max_write_queue_size
  pub limit : s.logger.max_write_queue_size < 2 ^ 62

-- The lengths of a message are ints.
abbrev pub IsSane : Action → Type 0
IsSane (receive m now) = (length m.channel < 2 ^ 31) × (length m.bytes < 2 ^ 31)
IsSane a = Unit

pub event_size_of :
    (m : Message)
    → length m.channel < 2 ^ 31
    → length m.bytes < 2 ^ 31
    → event_size (event_of m) ≡ message_size m
event_size_of m hc hb = ground arith

pub queue_size-snoc :
    (queue : List Entry) (e : Entry)
    → queue_size (queue ++ (e ∷ [])) ≡ queue_size queue + entry_size e
queue_size-snoc [] e = omega arith
queue_size-snoc (d ∷ queue) e = omega (arith, queue_size-snoc queue e)

-- What the reports do not change.
pub record SameQueue (a b : Logger) : Type 0 where
  pub queue : a.write_queue ≡ b.write_queue
  pub size : a.write_queue_size ≡ b.write_queue_size
  pub max : a.max_write_queue_size ≡ b.max_write_queue_size
  pub flag : a.write_thread_exit_flag ≡ b.write_thread_exit_flag

unchanged :
    (a b : Logger)
    → a.write_queue ≡ b.write_queue
    → a.write_queue_size ≡ b.write_queue_size
    → a.max_write_queue_size ≡ b.max_write_queue_size
    → a.write_thread_exit_flag ≡ b.write_thread_exit_flag
    → SameQueue a b
unchanged a b q s m f = record { queue = q; size = s; max = m; flag = f }

report_drop-SameQueue :
    (due : Bool) (logger : Logger) (now : ℕ) → SameQueue (report_drop due logger now) logger
report_drop-SameQueue true logger now = unchanged _ logger refl refl refl refl
report_drop-SameQueue false logger now = unchanged logger logger refl refl refl refl

pub drop_packet-SameQueue : (logger : Logger) (now : ℕ) → SameQueue (drop_packet logger now) logger
drop_packet-SameQueue logger now =
    let same =
      report_drop-SameQueue (drop_is_due (count_drop logger) now) (count_drop logger) now in
    unchanged _ logger same.queue same.size same.max same.flag

report_events-SameQueue :
    (due : Bool) (logger : Logger) (offset : ℕ) → SameQueue (report_events due logger offset) logger
report_events-SameQueue true logger offset = unchanged _ logger refl refl refl refl
report_events-SameQueue false logger offset = unchanged logger logger refl refl refl refl

bookkeeping-SameQueue : (logger : Logger) (le : Event) → SameQueue (bookkeeping logger le) logger
bookkeeping-SameQueue logger le =
    let offset = (le.timestamp + (2 ^ 64 - logger.time0)) % 2 ^ 64 in
    let same =
      report_events-SameQueue (exceeds offset logger.last_report_time 1000000)
        (count_event logger le) offset in
    unchanged _ logger same.queue same.size same.max same.flag

after_write-SameQueue :
    (logger : Logger) (full : Bool) (r : (Bool × EventLog) × Event)
    → Then (λ l. SameQueue l logger) (after_write logger full r)
after_write-SameQueue logger full ((true, log), le) =
    let same = bookkeeping-SameQueue (record logger { log = log }) le in
    unchanged _ logger same.queue same.size same.max same.flag
after_write-SameQueue logger true ((false, log), le) = tt
after_write-SameQueue logger false ((false, log), le) = unchanged _ logger refl refl refl refl

pub write_out-SameQueue :
    (logger : Logger) (full : Bool) (le : Event)
    → Then (λ l. SameQueue l logger) (write_out logger full le)
write_out-SameQueue logger full le = written_out (write_event logger.log le)
  where
    written_out :
        (o : Option ((Bool × EventLog) × Event))
        → Then (λ l. SameQueue l logger) (o >>= after_write logger full)
    written_out none = tt
    written_out (some r) = after_write-SameQueue logger full r
