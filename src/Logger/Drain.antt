-- ===== src/Logger/Drain.antt =====
-- upstream/lcm-logger/lcm_logger.c: the writing thread empties the queue.
use conftron.Base.{
  ℕ, ◌+◌, ◌≤◌, ◌≡◌, refl, sym, ap, subst, ◌∙◌, Bool, true, false, Option, none, some, List, [], ◌∷◌,
  length, ◌>>=◌, All, read_bytes, take, arith, le→leb, zero, suc,
}
use conftron.EventLog.{Event, EventLog, write_event}
use conftron.Logger.{
  Entry, event, exit_mark, Logger, account, report_events, count_event, after_write, write_out,
  waiting, popped, accounted, System, Action, pop, lock, write, Label, silent, handed, pop_entry,
  locked, written, writer_step, step, run, add_label,
}
use conftron.Logger.Account.{Then, SameQueue, write_out-SameQueue}
use conftron.Logger.Order.{queue_events, accepted_of, handed_of}

-- An event whose lengths are within its blocks.
abbrev pub IsWritable : Entry → Type 0
IsWritable (event le) = (le.channellen ≤ length le.channel) × (le.datalen ≤ length le.data_of)
IsWritable exit_mark = ⊥

-- The steps of write_thread for `n` events, on a device that is not full.
abbrev pub drain : ℕ → List Action
drain zero = []
drain (suc n) = pop ∷ lock ∷ write false ∷ drain n

run-step :
    (ignored : List ℕ → Bool) (s t : System) (a : Action) (l : Label) (actions : List Action)
    (r : List Label × System)
    → step ignored s a ≡ some (l, t)
    → run ignored t actions ≡ some r
    → run ignored s (a ∷ actions) ≡ some (add_label l r)
run-step ignored s t a l actions r e f =
    ap (λ o. o >>= (λ (l1, s1). run ignored s1 actions >>= (λ x. some (add_label l1 x)))) e
    ∙ ap (λ o. o >>= (λ x. some (add_label l x))) f

read_bytes_works : (bs : List ℕ) (n : ℕ) → n ≤ length bs → read_bytes bs 0 n ≡ some (take n bs)
unfolding read_bytes
read_bytes_works bs n h = rw (le→leb (0 + n) (length bs) (omega arith)) refl

after_write_works :
    (logger : Logger) (r : (Bool × EventLog) × Event)
    → (l : Logger) × (after_write logger false r ≡ some l)
after_write_works logger ((true, log), le) = (_, refl)
after_write_works logger ((false, log), le) = (_, refl)

-- Two reads that succeed, and what is made of them.
both :
    {R : Type 0} (o p : Option (List ℕ)) (f : List ℕ → List ℕ → Option R) (c b : List ℕ)
    → o ≡ some c
    → p ≡ some b
    → ((c1 b1 : List ℕ) → (r : R) × (f c1 b1 ≡ some r))
    → (r : R) × ((o >>= λ c1. p >>= λ b1. f c1 b1) ≡ some r)
both none p f c b e h k = absurd (cc e)
both (some c1) none f c b e h k = absurd (cc h)
both (some c1) (some b1) f c b e h k = k c1 b1

write_event_works :
    (log : EventLog) (le : Event)
    → IsWritable (event le)
    → (r : (Bool × EventLog) × Event) × (write_event log le ≡ some r)
unfolding write_event
write_event_works log le (hc, hd) =
    both (read_bytes le.channel 0 le.channellen) (read_bytes le.data_of 0 le.datalen) _ _ _
      (read_bytes_works le.channel le.channellen hc) (read_bytes_works le.data_of le.datalen hd)
      (λ c b. (_, refl))

write_out_works :
    (logger : Logger) (le : Event)
    → IsWritable (event le)
    → (l : Logger) × (write_out logger false le ≡ some l)
write_out_works logger le h =
    let (r, wrote) = write_event_works logger.log le h in
    let (l, went_on) = after_write_works logger r in
    (l, ap (λ o. o >>= after_write logger false) wrote ∙ went_on)

-- lcm_eventlog_write_event for the events of a queue, one after another, whether it succeeds or not.
abbrev pub log_of : Bool × EventLog → EventLog
log_of (ok, log) = log

abbrev pub write_all : EventLog → List Entry → Option EventLog
write_all log [] = some log
write_all log (exit_mark ∷ queue) = none
write_all log (event le ∷ queue) = write_event log le >>= λ (r, le1). write_all (log_of r) queue

report_events-log :
    (b : Bool) (logger : Logger) (offset_utime : ℕ)
    → (report_events b logger offset_utime).log ≡ logger.log
report_events-log true logger offset_utime = refl
report_events-log false logger offset_utime = refl

write_out-write_event :
    (logger l : Logger) (le : Event)
    → write_out logger false le ≡ some l
    → (write_event logger.log le >>= (λ (r, le1). some (log_of r))) ≡ some l.log
write_out-write_event logger l le h = logged (write_event logger.log le) h
  where
    log_in : Option Logger → EventLog
    log_in none = logger.log
    log_in (some x) = x.log

    logged :
        (o : Option ((Bool × EventLog) × Event))
        → (o >>= after_write logger false) ≡ some l
        → Path (Option EventLog) (o >>= (λ (r, le1). some (log_of r))) (some l.log)
    logged none e = absurd (cc e)
    logged (some ((true, log), le2)) e =
        ap some (sym (report_events-log _ (count_event (record logger { log = log }) le2) _))
        ∙ ap (λ x. some (log_in x)) e
    logged (some ((false, log), le2)) e = ap (λ x. some (log_in x)) e

write_all-step :
    (log log1 : EventLog) (le : Event) (queue : List Entry)
    → (write_event log le >>= (λ (r, le1). some (log_of r))) ≡ some log1
    → write_all log (event le ∷ queue) ≡ write_all log1 queue
write_all-step log log1 le queue h = first (write_event log le) h
  where
    first :
        (o : Option ((Bool × EventLog) × Event))
        → Path (Option EventLog) (o >>= (λ (r, le1). some (log_of r))) (some log1)
        → Path
            (Option EventLog)
            (o >>= (λ (r, le1). write_all (log_of r) queue))
            (write_all log1 queue)
    first none e = absurd (cc e)
    first (some (r, le2)) e = ap (λ o. o >>= λ l. write_all l queue) e

-- The end of a run that hands over the events of `queue`.
pub record Drained (s : System) (queue : List Entry) (o : Option (List Label × System))
    : Type 0 where
  pub labels : List Label
  pub final : System
  pub ends : o ≡ some (labels, final)
  pub empty : final.logger.write_queue ≡ []
  pub waits : final.writer ≡ waiting
  pub all_handed : handed_of labels ≡ queue_events queue
  pub none_accepted : accepted_of labels ≡ []
  pub logged : write_all s.logger.log queue ≡ some final.logger.log

-- With the writing thread at its start, no exit asked for, and a queue of events whose lengths are
-- within their blocks, on a device whose failures are not those of a full one, three steps of that
-- thread for each event are possible; after them lcm_eventlog_write_event has been called for all the
-- events in their order, each time on the log that the call before has left, the log is the one that
-- the last call left, and the queue is empty.
pub drain-Drained :
    (ignored : List ℕ → Bool) (s : System) (queue : List Entry)
    → s.writer ≡ waiting
    → s.logger.write_thread_exit_flag ≡ false
    → s.logger.write_queue ≡ queue
    → All IsWritable queue
    → Drained s queue (run ignored s (drain (length queue)))
unfolding step
drain-Drained ignored s [] w f q h = record {
  labels = [];
  final = s;
  ends = refl;
  empty = q;
  waits = w;
  all_handed = refl;
  none_accepted = refl;
  logged = refl;
}
drain-Drained ignored s (exit_mark ∷ queue) w f q h = absurd h.0
drain-Drained ignored s (event le ∷ queue) w f q h =
    let s1 : System = record s {
      logger = record (s.logger) { write_queue = queue };
      writer = popped (event le);
    } in
    let s2 : System = record s1 { logger = account s1.logger le; writer = accounted le } in
    let (l3, wrote) = write_out_works s2.logger le h.0 in
    let s3 : System = record s2 { logger = l3; writer = waiting } in
    let same : SameQueue l3 s2.logger =
      subst (Then (λ l. SameQueue l s2.logger)) wrote (write_out-SameQueue s2.logger false le) in
    let rest = drain-Drained ignored s3 queue refl (same.flag ∙ f) same.queue h.1 in
    record {
      labels = silent ∷ silent ∷ handed le ∷ rest.labels;
      final = rest.final;
      ends =
          run-step ignored s s1 pop silent (lock ∷ write false ∷ drain (length queue)) _
            (ap (λ x. writer_step s x pop) w ∙ ap (pop_entry s) q)
            (run-step ignored s1 s2 lock silent (write false ∷ drain (length queue)) _
              (ap (λ x. locked s1 x (event le)) f)
              (run-step ignored s2 s3 (write false) (handed le) _ _ (ap (written s2 le) wrote)
                rest.ends));
      empty = rest.empty;
      waits = rest.waits;
      all_handed = ap (λ xs. le ∷ xs) rest.all_handed;
      none_accepted = rest.none_accepted;
      logged =
          write_all-step s.logger.log l3.log le queue (write_out-write_event s2.logger l3 le wrote)
          ∙ rest.logged;
    }
