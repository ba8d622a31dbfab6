-- ===== src/EventLog/Writes.antt =====
-- What lcm_eventlog_write_event (eventlog.c) does to the file, on a full device too, and that the
-- event can be read back.
use conftron.Base.{
  ℕ, ◌+◌, ◌-◌, ◌%◌, ◌^◌, ◌<◌, ◌≤◌, ◌≡◌, refl, ap, ap₂, le→leb, leb, ◌∙◌, ◌⊎◌, inl, inr, true, false,
  some, List, ◌++◌, [], length, take, append-nil, arith, dec_lt, read_bytes, read_bytes-whole,
  if◌then◌else◌,
}
use conftron.CoreTypes.{bytes32}
use conftron.IoUtils.{File, fwrite, fwrite32, fwrite64, ◌⨾◌}
use conftron.IoUtils.Reads.{standing, bytes_of64}
use conftron.IoUtils.Writes.{
  written, fwrite-append, fwrite-fits, fwrite-full, fwrite32_lem, fwrite64_lem,
}
use conftron.EventLog.{
  Event, EventLog, event, magic_of_log, find_magic, read_next_event, write_event, write_fields,
  counted,
}
use conftron.EventLog.RoundTrip.{IsEvent, record_of, read_next_event-record_of}

-- The event under the number that the log gives it.
abbrev pub numbered : EventLog → Event → Event
numbered l le = record le { eventnum = l.eventcount }

module _ (le : Event) where
  write_data_lem :
      (f : File)
      → ((λ f. fwrite f le.channel) ⨾ (λ f. fwrite f le.data_of)) f
        ≡ fwrite f (le.channel ++ le.data_of)
  write_data_lem f =
      fwrite-append (λ f. fwrite f le.channel) (λ f. fwrite f le.data_of) le.channel le.data_of
        (λ f. refl) (λ f. refl) f

  write_fields_lem :
      (f : File)
      → (fwrite32 magic_of_log ⨾ write_fields le le.channel le.data_of) f ≡ fwrite f (record_of le)
  unfolding write_fields
  write_fields_lem =
      let last = λ (f : File). fwrite f le.data_of in
      let w5 = (λ (f : File). fwrite f le.channel) ⨾ last in
      let w4 = fwrite32 le.datalen ⨾ w5 in
      let w3 = fwrite32 le.channellen ⨾ w4 in
      let w2 = fwrite64 le.timestamp ⨾ w3 in
      let w1 = fwrite64 le.eventnum ⨾ w2 in
      let b5 = le.channel ++ le.data_of in
      let b4 = bytes32 le.datalen ++ b5 in
      let b3 = bytes32 le.channellen ++ b4 in
      let b2 = bytes_of64 le.timestamp ++ b3 in
      let b1 = bytes_of64 le.eventnum ++ b2 in
      fwrite-append (fwrite32 magic_of_log) w1 (bytes32 magic_of_log) b1 (fwrite32_lem magic_of_log)
        (fwrite-append (fwrite64 le.eventnum) w2 (bytes_of64 le.eventnum) b2
          (fwrite64_lem le.eventnum)
          (fwrite-append (fwrite64 le.timestamp) w3 (bytes_of64 le.timestamp) b3
            (fwrite64_lem le.timestamp)
            (fwrite-append (fwrite32 le.channellen) w4 (bytes32 le.channellen) b4
              (fwrite32_lem le.channellen)
              (fwrite-append (fwrite32 le.datalen) w5 (bytes32 le.datalen) b5
                (fwrite32_lem le.datalen) write_data_lem))))

module _ (l : EventLog) (le : Event) where
  abbrev pub new_record : List ℕ
  new_record = record_of (numbered l le)

  -- The event as the call leaves it.
  abbrev pub left_as : Event
  left_as = if leb 4 l.f.space then numbered l le else le

  marked_lem : (fwrite32 magic_of_log l.f).0 ≡ leb 4 l.f.space
  marked_lem = ap (λ r. r.0) (fwrite32_lem magic_of_log l.f) ∙ marked_bytes
    where
      marked_bytes : (fwrite l.f (bytes32 magic_of_log)).0 ≡ leb 4 l.f.space
      marked_bytes = unfold fwrite in refl

  abbrev pub log_after : EventLog
  log_after = record {
    f = written l.f new_record (length new_record);
    eventcount = (l.eventcount + 1) % 2 ^ 64;
  }

  abbrev pub log_when_full : EventLog
  log_when_full = record {
    f = written l.f (take l.f.space new_record) l.f.space;
    eventcount = l.eventcount;
  }

  module _ (ok : IsEvent le) where
    write_event-fwrite :
        write_event l le ≡ some (counted l.eventcount (fwrite l.f new_record), left_as)
    unfolding write_event
    write_event-fwrite =
        rw (channel_read, data_read)
          (ap₂ (λ r b. some (counted l.eventcount r, (if b then numbered l le else le)))
            (write_fields_lem (numbered l le) l.f) marked_lem)
      where
        channel_read : read_bytes le.channel 0 le.channellen ≡ some le.channel
        channel_read = ap (read_bytes le.channel 0) ok.channel_whole ∙ read_bytes-whole le.channel

        data_read : read_bytes le.data_of 0 le.datalen ≡ some le.data_of
        data_read = ap (read_bytes le.data_of 0) ok.data_whole ∙ read_bytes-whole le.data_of

    write_event-fits :
        length new_record ≤ l.f.space → write_event l le ≡ some ((true, log_after), numbered l le)
    write_event-fits h =
        write_event-fwrite
        ∙ ap₂ (λ r e. some (counted l.eventcount r, e)) (fwrite-fits l.f new_record h)
            (ap (λ b. if b then numbered l le else le) (le→leb 4 l.f.space (omega (arith, h))))

    write_event-full :
        l.f.space < length new_record → write_event l le ≡ some ((false, log_when_full), left_as)
    write_event-full h =
        write_event-fwrite
        ∙ ap (λ r. some (counted l.eventcount r, left_as)) (fwrite-full l.f new_record h)

-- For an event whose numbers fit their types and whose lengths are those of its blocks,
-- lcm_eventlog_write_event has two outcomes: the device has room for the whole record, which is then
-- appended to the file, and 0 is returned and the count goes up by one (modulo 2 ^ 64); or the device
-- takes the first bytes of the record, as many as there is room for, and -1 is returned and the count
-- stays. The event has been given the count as its number, unless there was no room for the marker.
pub write_event_lem :
    (l : EventLog) (le : Event)
    → IsEvent le
    → ((length (new_record l le) ≤ l.f.space)
        × (write_event l le ≡ some ((true, log_after l le), numbered l le)))
      ⊎ ((l.f.space < length (new_record l le))
          × (write_event l le ≡ some ((false, log_when_full l le), left_as l le)))
write_event_lem l le ok = elim (dec_lt l.f.space (length (new_record l le))) [
  | yes h ↦ inr (h, write_event-full l le ok h)
  | no h ↦ inl (omega (arith, h), write_event-fits l le ok (omega (arith, h)))
]

-- If the device has room for the record and the channel has fewer than 1000 bytes, then
-- lcm_eventlog_write_event returns 0, and lcm_eventlog_read_next_event at the place where the file
-- ended before reads the same event under the number it was given, up to the end of the file. The
-- event's numbers and the count fit their types, and its lengths are those of its blocks.
pub read_next_event-write_event :
    (l : EventLog) (le : Event) (count : ℕ)
    → IsEvent le
    → l.eventcount < 2 ^ 64
    → le.channellen < 1000
    → length (new_record l le) ≤ l.f.space
    → (write_event l le ≡ some ((true, log_after l le), numbered l le))
      × (read_next_event (record {
        f = standing l.f.contents (new_record l le) (l.f.space - length (new_record l le));
        eventcount = count;
      })
          ≡ event (numbered l le) (record {
            f =
                standing
                  (l.f.contents ++ new_record l le)
                  []
                  (l.f.space - length (new_record l le));
            eventcount = (l.eventcount + 1) % 2 ^ 64;
          }))
read_next_event-write_event l le count ok num_fits small room = (
  write_event-fits l le ok room,
  rw (append-nil (new_record l le), append-nil l.f.contents) at read,
)
  where
    fits : IsEvent (numbered l le)
    fits = record {
      num_fits = num_fits;
      time_fits = ok.time_fits;
      channel_whole = ok.channel_whole;
      data_whole = ok.data_whole;
      channel_fits = ok.channel_fits;
      data_fits = ok.data_fits;
    }

    left : ℕ
    left = l.f.space - length (new_record l le)

    read :
        read_next_event
          (record { f = standing l.f.contents (new_record l le ++ []) left; eventcount = count })
        ≡ event (numbered l le) (record {
          f = standing ((l.f.contents ++ []) ++ new_record l le) [] left;
          eventcount = (l.eventcount + 1) % 2 ^ 64;
        })
    read =
        read_next_event-record_of (numbered l le) l.f.contents [] [] left count fits small
          (unfold find_magic in refl)
