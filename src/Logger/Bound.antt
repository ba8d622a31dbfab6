-- ===== src/Logger/Bound.antt =====
-- upstream/lcm-logger/lcm_logger.c: the account of the queue is what its events take, and never above
-- the limit.
use conftron.Base.{
  ℕ, ◌+◌, ◌%◌, ◌^◌, ◌≤◌, ◌<◌, ◌≡◌, refl, sym, ap, ◌∙◌, Bool, true, false, Option, none, some, List,
  [], ◌∷◌, length, if◌then◌else◌, arith, All,
}
use conftron.EventLog.{Event}
use conftron.Logger.{
  Message, Entry, event, exit_mark, Logger, event_size, message_size, mem_required, too_big,
  event_of, drop_packet, write_out, Receiver, idle, reserved, stopping, stopped, Writer, waiting,
  popped, accounted, System, Action, receive, push, pop, lock, write, stop, mark, silent,
  take_message, handle, enqueue, receiver_step, pop_entry, locked, written, writer_step, step, run,
}
use conftron.Logger.Account.{
  Then, Then-bind, entry_size, queue_size, receiver_size, writer_size, IsBounded, IsSane,
  event_size_of, queue_size-snoc, SameQueue, drop_packet-SameQueue, write_out-SameQueue,
}

-- Steps of the receiving thread

same-IsBounded :
    (s : System) (logger : Logger)
    → SameQueue logger s.logger
    → IsBounded s
    → IsBounded (record s { logger = logger })
same-IsBounded s logger same h = record {
  counted =
      same.size
      ∙ (h.counted
          ∙ ap (λ q. writer_size s.writer + (queue_size q + receiver_size s.receiver))
              (sym same.queue));
  within = omega (arith, same.size, same.max, h.within);
  limit = omega (arith, same.max, h.limit);
}

fits :
    (m size max : ℕ)
    → m < 2 ^ 33
    → size ≤ max
    → max < 2 ^ 62
    → too_big ((m + size) % 2 ^ 64) max ≡ false
    → (m + size) % 2 ^ 64 ≤ max
fits m size max hm hs hmax small = ground arith

take_message-IsBounded :
    (big : Bool) (s : System) (m : Message) (now : ℕ)
    → too_big (mem_required s.logger m) s.logger.max_write_queue_size ≡ big
    → length m.channel < 2 ^ 31
    → length m.bytes < 2 ^ 31
    → s.receiver ≡ idle
    → IsBounded s
    → IsBounded (take_message big s m now).1
take_message-IsBounded true s m now big hc hb e h =
    same-IsBounded s (drop_packet s.logger now) (drop_packet-SameQueue s.logger now) h
take_message-IsBounded false s m now big hc hb e h = record {
  counted = required;
  within =
      fits (message_size m) s.logger.write_queue_size s.logger.max_write_queue_size (omega arith)
        h.within h.limit big;
  limit = h.limit;
}
  where
    nothing : receiver_size s.receiver ≡ 0
    nothing = ap receiver_size e

    required :
        mem_required s.logger m
        ≡ writer_size s.writer + (queue_size s.logger.write_queue + event_size (event_of m))
    required = omega (arith, h.counted, nothing, event_size_of m hc hb, h.within, h.limit)

handle-IsBounded :
    (ignored : List ℕ → Bool) (s : System) (m : Message) (now : ℕ)
    → length m.channel < 2 ^ 31
    → length m.bytes < 2 ^ 31
    → s.receiver ≡ idle
    → IsBounded s
    → IsBounded (handle ignored s m now).1
handle-IsBounded ignored s m now hc hb e h = tested (ignored m.channel)
  where
    tested :
        (t : Bool)
        → IsBounded
            (if t
              then (silent, s)
              else take_message
                  (too_big (mem_required s.logger m) s.logger.max_write_queue_size)
                  s
                  m
                  now).1
    tested true = h
    tested false = take_message-IsBounded _ s m now refl hc hb e h

enqueue-IsBounded :
    (s : System) (e : Entry) (r : Receiver)
    → entry_size e + receiver_size r ≡ receiver_size s.receiver
    → IsBounded s
    → IsBounded (record s { logger = enqueue s.logger e; receiver = r })
enqueue-IsBounded s e r same h = record {
  counted = omega (arith, h.counted, same, queue_size-snoc s.logger.write_queue e);
  within = h.within;
  limit = h.limit;
}

receiver_step-IsBounded :
    (ignored : List ℕ → Bool) (s : System) (r : Receiver) (a : Action)
    → IsSane a
    → s.receiver ≡ r
    → IsBounded s
    → Then (λ x. IsBounded x.1) (receiver_step ignored s r a)
receiver_step-IsBounded ignored s idle (receive m now) sane e h =
    handle-IsBounded ignored s m now sane.0 sane.1 e h
receiver_step-IsBounded ignored s idle stop sane e h = record {
  counted = omega (arith, h.counted, ap receiver_size e);
  within = h.within;
  limit = h.limit;
}
receiver_step-IsBounded ignored s (reserved le) push sane e h =
    enqueue-IsBounded s (event le) idle (omega (arith, ap receiver_size e)) h
receiver_step-IsBounded ignored s stopping mark sane e h =
    enqueue-IsBounded s exit_mark stopped (omega (arith, ap receiver_size e)) h
receiver_step-IsBounded ignored s r a sane e h = tt

-- Steps of the writing thread

pop_entry-IsBounded :
    (s : System) (queue : List Entry)
    → s.logger.write_queue ≡ queue
    → writer_size s.writer ≡ 0
    → IsBounded s
    → Then (λ x. IsBounded x.1) (pop_entry s queue)
pop_entry-IsBounded s [] q w h = tt
pop_entry-IsBounded s (e ∷ queue) q w h = record {
  counted = omega (arith, h.counted, w, ap queue_size q);
  within = h.within;
  limit = h.limit;
}

locked-IsBounded :
    (s : System) (flag : Bool) (e : Entry)
    → s.writer ≡ popped e
    → IsBounded s
    → Then (λ x. IsBounded x.1) (locked s flag e)
locked-IsBounded s true e w h = record {
  counted = omega (arith, h.counted, ap writer_size w);
  within = h.within;
  limit = h.limit;
}
locked-IsBounded s false (event le) w h = record {
  counted = omega (arith, h.counted, ap writer_size w, h.within, h.limit);
  within = omega (arith, h.counted, ap writer_size w, h.within, h.limit);
  limit = h.limit;
}
locked-IsBounded s false exit_mark w h = tt

written-IsBounded :
    (s : System) (le : Event) (o : Option Logger)
    → s.writer ≡ accounted le
    → Then (λ l. SameQueue l s.logger) o
    → IsBounded s
    → Then (λ x. IsBounded x.1) (written s le o)
written-IsBounded s le none w same h = tt
written-IsBounded s le (some logger) w same h =
    let kept = same-IsBounded s logger same h in
    record {
      counted = omega (arith, kept.counted, ap writer_size w);
      within = kept.within;
      limit = kept.limit;
    }

writer_step-IsBounded :
    (s : System) (w : Writer) (a : Action)
    → s.writer ≡ w
    → IsBounded s
    → Then (λ x. IsBounded x.1) (writer_step s w a)
writer_step-IsBounded s waiting pop e h =
    pop_entry-IsBounded s s.logger.write_queue refl (ap writer_size e) h
writer_step-IsBounded s (popped x) lock e h =
    locked-IsBounded s s.logger.write_thread_exit_flag x e h
writer_step-IsBounded s (accounted le) (write full) e h =
    written-IsBounded s le (write_out s.logger full le) e (write_out-SameQueue s.logger full le) h
writer_step-IsBounded s w a e h = tt

step-IsBounded :
    (ignored : List ℕ → Bool) (s : System) (a : Action)
    → IsSane a
    → IsBounded s
    → Then (λ x. IsBounded x.1) (step ignored s a)
unfolding step
step-IsBounded ignored s pop sane h = writer_step-IsBounded s s.writer pop refl h
step-IsBounded ignored s lock sane h = writer_step-IsBounded s s.writer lock refl h
step-IsBounded ignored s (write full) sane h = writer_step-IsBounded s s.writer (write full) refl h
step-IsBounded ignored s a sane h = receiver_step-IsBounded ignored s s.receiver a sane refl h

-- After every run of the two threads, whatever the order of their steps, the account of the queue is
-- the memory of the events between the handler and the account, without wrapping round, and at most
-- the limit; if this holds before, the limit is below 2 ^ 62, and the lengths of messages are ints.
pub run-IsBounded :
    (ignored : List ℕ → Bool) (s : System) (actions : List Action)
    → All IsSane actions
    → IsBounded s
    → Then (λ x. IsBounded x.1) (run ignored s actions)
run-IsBounded ignored s [] sane h = h
run-IsBounded ignored s (a ∷ actions) sane h =
    Then-bind (λ x. IsBounded x.1) (λ x. IsBounded x.1) (step ignored s a) _
      (step-IsBounded ignored s a sane.0 h)
      λ (l, s1) h1.
        Then-bind (λ x. IsBounded x.1) (λ x. IsBounded x.1) (run ignored s1 actions) _
          (run-IsBounded ignored s1 actions sane.1 h1) λ x hx. hx
