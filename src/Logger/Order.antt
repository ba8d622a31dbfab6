-- ===== src/Logger/Order.antt =====
-- upstream/lcm-logger/lcm_logger.c: the events go to the log in the order in which they were accepted,
-- each one once.
use conftron.Base.{
  ℕ, ◌≡◌, refl, sym, ap, ◌∙◌, Bool, true, false, Option, none, some, List, [], ◌∷◌, ◌++◌,
  if◌then◌else◌, append_assoc, append-nil,
}
use conftron.EventLog.{Event}
use conftron.Logger.{
  Message, Entry, event, exit_mark, Logger, mem_required, too_big, event_of, write_out, drop_packet,
  Receiver, idle, reserved, stopping, Writer, waiting, popped, accounted, ended, System, Action,
  receive, push, pop, lock, write, stop, mark, Label, silent, accepted, handed, take_message,
  handle, receiver_step, pop_entry, locked, written, writer_step, step, run,
}
use conftron.Logger.Account.{Then, Then-bind, SameQueue, drop_packet-SameQueue, write_out-SameQueue}

abbrev pub entry_events : Entry → List Event
entry_events (event le) = le ∷ []
entry_events exit_mark = []

abbrev pub queue_events : List Entry → List Event
queue_events [] = []
queue_events (e ∷ queue) = entry_events e ++ queue_events queue

abbrev pub receiver_events : Receiver → List Event
receiver_events (reserved le) = le ∷ []
receiver_events r = []

abbrev pub writer_events : Writer → List Event
writer_events (popped e) = entry_events e
writer_events (accounted le) = le ∷ []
writer_events (ended e) = entry_events e
writer_events waiting = []

-- The events that are on their way, the oldest one first.
abbrev pub pending : System → List Event
pending s =
    writer_events s.writer ++ (queue_events s.logger.write_queue ++ receiver_events s.receiver)

abbrev pub accepted_by : Label → List Event
accepted_by (accepted le) = le ∷ []
accepted_by l = []

abbrev pub handed_by : Label → List Event
handed_by (handed le) = le ∷ []
handed_by l = []

abbrev pub accepted_of : List Label → List Event
accepted_of [] = []
accepted_of (l ∷ ls) = accepted_by l ++ accepted_of ls

abbrev pub handed_of : List Label → List Event
handed_of [] = []
handed_of (l ∷ ls) = handed_by l ++ handed_of ls

-- A step as one of a queue: what is accepted goes in behind, what is handed comes out in front.
abbrev pub IsFifo : System → Label × System → Type 0
IsFifo s (l, t) = pending s ++ accepted_by l ≡ handed_by l ++ pending t

-- The same events pending, and none taken or given.
steady : (s t : System) → pending s ≡ pending t → IsFifo s (silent, t)
steady s t e = append-nil (pending s) ∙ e

queue_events-snoc :
    (queue : List Entry) (e : Entry)
    → queue_events (queue ++ (e ∷ [])) ≡ queue_events queue ++ entry_events e
queue_events-snoc [] e = append-nil (entry_events e)
queue_events-snoc (d ∷ queue) e =
    ap (λ xs. entry_events d ++ xs) (queue_events-snoc queue e)
    ∙ sym (append_assoc (entry_events d) (queue_events queue) (entry_events e))

put_behind : (w q r x : List Event) → r ≡ [] → (w ++ (q ++ r)) ++ x ≡ w ++ (q ++ x)
put_behind w q r x e = rw (e, append-nil q) (append_assoc w q x)

pushed : (w q r q1 x : List Event) → r ≡ x → q1 ≡ q ++ x → w ++ (q ++ r) ≡ w ++ (q1 ++ [])
pushed w q r q1 x e h = rw (e, h, append-nil (q ++ x)) refl

popped_front : (w q r x q1 : List Event) → w ≡ [] → q ≡ x ++ q1 → w ++ (q ++ r) ≡ x ++ (q1 ++ r)
popped_front w q r x q1 e h = rw (e, h) (append_assoc x q1 r)

handed_front :
    (w q r q1 : List Event) (le : Event)
    → w ≡ le ∷ []
    → q1 ≡ q
    → (w ++ (q ++ r)) ++ [] ≡ le ∷ (q1 ++ r)
handed_front w q r q1 le e h = rw (append-nil (w ++ (q ++ r)), e, h) refl

take_message-IsFifo :
    (big : Bool) (s : System) (m : Message) (now : ℕ)
    → s.receiver ≡ idle
    → IsFifo s (take_message big s m now)
take_message-IsFifo true s m now e =
    steady s (record s { logger = drop_packet s.logger now })
      (ap (λ q. writer_events s.writer ++ (queue_events q ++ receiver_events s.receiver))
        (sym (drop_packet-SameQueue s.logger now).queue))
take_message-IsFifo false s m now e =
    put_behind (writer_events s.writer) (queue_events s.logger.write_queue)
      (receiver_events s.receiver) (event_of m ∷ []) (ap receiver_events e)

handle-IsFifo :
    (ignored : List ℕ → Bool) (s : System) (m : Message) (now : ℕ)
    → s.receiver ≡ idle
    → IsFifo s (handle ignored s m now)
handle-IsFifo ignored s m now e = tested (ignored m.channel)
  where
    tested :
        (t : Bool)
        → IsFifo s (
            if t
            then (silent, s)
            else take_message
                (too_big (mem_required s.logger m) s.logger.max_write_queue_size)
                s
                m
                now)
    tested true = steady s s refl
    tested false = take_message-IsFifo _ s m now e

receiver_step-IsFifo :
    (ignored : List ℕ → Bool) (s : System) (r : Receiver) (a : Action)
    → s.receiver ≡ r
    → Then (IsFifo s) (receiver_step ignored s r a)
receiver_step-IsFifo ignored s idle (receive m now) e = handle-IsFifo ignored s m now e
receiver_step-IsFifo ignored s idle stop e =
    append-nil (pending s)
    ∙ ap (λ r. writer_events s.writer ++ (queue_events s.logger.write_queue ++ r))
        (ap receiver_events e)
receiver_step-IsFifo ignored s (reserved le) push e =
    append-nil (pending s)
    ∙ pushed (writer_events s.writer) (queue_events s.logger.write_queue) _ _ (le ∷ [])
        (ap receiver_events e) (queue_events-snoc s.logger.write_queue (event le))
receiver_step-IsFifo ignored s stopping mark e =
    append-nil (pending s)
    ∙ pushed (writer_events s.writer) (queue_events s.logger.write_queue) _ _ []
        (ap receiver_events e) (queue_events-snoc s.logger.write_queue exit_mark)
receiver_step-IsFifo ignored s r a e = tt

pop_entry-IsFifo :
    (s : System) (queue : List Entry)
    → s.logger.write_queue ≡ queue
    → writer_events s.writer ≡ []
    → Then (IsFifo s) (pop_entry s queue)
pop_entry-IsFifo s [] q w = tt
pop_entry-IsFifo s (e ∷ queue) q w =
    append-nil (pending s)
    ∙ popped_front (writer_events s.writer) (queue_events s.logger.write_queue)
        (receiver_events s.receiver) (entry_events e) (queue_events queue) w (ap queue_events q)

with_writer : System → List Event → List Event
with_writer s w = w ++ (queue_events s.logger.write_queue ++ receiver_events s.receiver)

locked-IsFifo :
    (s : System) (flag : Bool) (e : Entry) → s.writer ≡ popped e → Then (IsFifo s) (locked s flag e)
unfolding with_writer
locked-IsFifo s true e w = append-nil (pending s) ∙ ap (with_writer s) (ap writer_events w)
locked-IsFifo s false (event le) w =
    append-nil (pending s) ∙ ap (with_writer s) (ap writer_events w)
locked-IsFifo s false exit_mark w = tt

written-IsFifo :
    (s : System) (le : Event) (o : Option Logger)
    → s.writer ≡ accounted le
    → Then (λ l. SameQueue l s.logger) o
    → Then (IsFifo s) (written s le o)
written-IsFifo s le none w same = tt
written-IsFifo s le (some logger) w same =
    handed_front (writer_events s.writer) (queue_events s.logger.write_queue)
      (receiver_events s.receiver) (queue_events logger.write_queue) le (ap writer_events w)
      (ap queue_events same.queue)

writer_step-IsFifo :
    (s : System) (w : Writer) (a : Action) → s.writer ≡ w → Then (IsFifo s) (writer_step s w a)
writer_step-IsFifo s waiting pop e =
    pop_entry-IsFifo s s.logger.write_queue refl (ap writer_events e)
writer_step-IsFifo s (popped x) lock e = locked-IsFifo s s.logger.write_thread_exit_flag x e
writer_step-IsFifo s (accounted le) (write full) e =
    written-IsFifo s le (write_out s.logger full le) e (write_out-SameQueue s.logger full le)
writer_step-IsFifo s w a e = tt

step-IsFifo :
    (ignored : List ℕ → Bool) (s : System) (a : Action) → Then (IsFifo s) (step ignored s a)
unfolding step
step-IsFifo ignored s pop = writer_step-IsFifo s s.writer pop refl
step-IsFifo ignored s lock = writer_step-IsFifo s s.writer lock refl
step-IsFifo ignored s (write full) = writer_step-IsFifo s s.writer (write full) refl
step-IsFifo ignored s a = receiver_step-IsFifo ignored s s.receiver a refl

-- A run as one of a queue.
abbrev pub IsFifoRun : System → List Label × System → Type 0
IsFifoRun s (ls, t) = pending s ++ accepted_of ls ≡ handed_of ls ++ pending t

chain :
    (p a1 a2 h1 q h2 r : List Event)
    → p ++ a1 ≡ h1 ++ q
    → q ++ a2 ≡ h2 ++ r
    → p ++ (a1 ++ a2) ≡ (h1 ++ h2) ++ r
chain p a1 a2 h1 q h2 r e f =
    sym (append_assoc p a1 a2)
    ∙ (ap (λ xs. xs ++ a2) e
        ∙ (append_assoc h1 q a2 ∙ (ap (λ xs. h1 ++ xs) f ∙ sym (append_assoc h1 h2 r))))

-- After every run of the two threads, whatever the order of their steps, the events that were pending
-- and those that were accepted are, in this order, those that were handed to the log and those that
-- are pending: none is lost, doubled or moved. An event that the exit overtakes stays pending.
pub run-IsFifoRun :
    (ignored : List ℕ → Bool) (s : System) (actions : List Action)
    → Then (IsFifoRun s) (run ignored s actions)
run-IsFifoRun ignored s [] = append-nil (pending s)
run-IsFifoRun ignored s (a ∷ actions) =
    Then-bind (IsFifo s) (IsFifoRun s) (step ignored s a) _ (step-IsFifo ignored s a) λ (l, s1) h1.
      Then-bind (IsFifoRun s1) (IsFifoRun s) (run ignored s1 actions) _
        (run-IsFifoRun ignored s1 actions)
        λ (ls, t) h2.
          chain (pending s) (accepted_by l) (accepted_of ls) (handed_by l) (pending s1)
            (handed_of ls) (pending t) h1 h2
