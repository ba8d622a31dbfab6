-- ===== src/EventLog/Runs.antt =====
-- Runs of the log files, and the theorems at concrete files.
use conftron.Base.{
  ℕ, ltb, if◌then◌else◌, ◌+◌, ◌%◌, ◌^◌, ◌-◌, ◌<◌, ◌≤◌, ◌≡◌, refl, ◌⊎◌, true, false, some, List,
  ◌++◌, [], ◌∷◌, length, length-replicate, replicate, sym, read_bytes, arith,
}
use conftron.CoreTypes.{bytes32}
use conftron.IoUtils.{fwrite, fwrite32, fwrite64}
use conftron.IoUtils.Reads.{standing}
use conftron.EventLog.{
  Event, EventLog, event, aborted, magic_of_log, find_magic, write_fields, read_next_event,
  write_event, get_event_time,
}
use conftron.EventLog.RoundTrip.{IsEvent, record_of, read_next_event_lem}
use conftron.EventLog.Writes.{
  numbered, new_record, log_after, log_when_full, left_as, write_event_lem,
  read_next_event-write_event,
}
use conftron.EventLog.Times.{get_event_time-record_of}
use conftron.EventLog.Truncated.{read_next_event-truncated}

abbrev ping : Event
ping = record {
  eventnum = 7;
  timestamp = 1000;
  channellen = 2;
  datalen = 3;
  channel = 80 ∷ 81 ∷ [];
  data_of = 1 ∷ 2 ∷ 3 ∷ [];
}

ping-IsEvent : IsEvent ping
ping-IsEvent = record {
  num_fits = omega arith;
  time_fits = omega arith;
  channel_whole = refl;
  data_whole = refl;
  channel_fits = omega arith;
  data_fits = omega arith;
}

-- A log with room for 100 bytes behind the byte 9.
abbrev log_of : ℕ → EventLog
log_of space = record { f = record { contents = 9 ∷ []; place = 1; space = space }; eventcount = 4 }

-- A write that finds room for 20 bytes fails and leaves them in the file.
full_run :
    write_event (log_of 20) ping
    ≡ some ((false, log_when_full (log_of 20) ping), numbered (log_of 20) ping)
unfolding write_event write_fields fwrite fwrite32 fwrite64 read_bytes
full_run = refl

read_next_event-write_event_example :
    (write_event (log_of 100) ping
      ≡ some ((true, log_after (log_of 100) ping), numbered (log_of 100) ping))
    × (read_next_event (record {
      f =
          standing
            (9 ∷ [])
            (new_record (log_of 100) ping)
            (100 - length (new_record (log_of 100) ping));
      eventcount = 0;
    })
        ≡ event (numbered (log_of 100) ping) (record {
          f =
              standing
                ((9 ∷ []) ++ new_record (log_of 100) ping)
                []
                (100 - length (new_record (log_of 100) ping));
          eventcount = 5;
        }))
read_next_event-write_event_example =
    read_next_event-write_event (log_of 100) ping 0 ping-IsEvent (omega arith) (omega arith)
      (omega arith)

write_event_lem_example :
    ((length (new_record (log_of 20) ping) ≤ 20)
      × (write_event (log_of 20) ping
          ≡ some ((true, log_after (log_of 20) ping), numbered (log_of 20) ping)))
    ⊎ ((20 < length (new_record (log_of 20) ping))
        × (write_event (log_of 20) ping
            ≡ some ((false, log_when_full (log_of 20) ping), left_as (log_of 20) ping)))
write_event_lem_example = write_event_lem (log_of 20) ping ping-IsEvent

-- Garbage that holds a part of the marker.
abbrev garbage : List ℕ
garbage = 0xED ∷ 0xA1 ∷ 5 ∷ []

none_found : (find_magic 0 garbage 1).0 ≡ false
unfolding find_magic
none_found = refl

get_event_time-record_of_example :
    get_event_time
      (record { f = standing (9 ∷ []) (garbage ++ (record_of ping ++ (8 ∷ []))) 0; eventcount = 3 })
    ≡ (
      1000,
      record { f = standing ((9 ∷ []) ++ garbage) (record_of ping ++ (8 ∷ [])) 0; eventcount = 7 },
    )
get_event_time-record_of_example =
    get_event_time-record_of ping (9 ∷ []) garbage (8 ∷ []) 0 3 ping-IsEvent none_found

read_next_event-truncated_example :
    (le : Event) × (l : EventLog) × (read_next_event (record {
      f = standing (9 ∷ []) (garbage ++ (bytes32 magic_of_log ++ (1 ∷ 2 ∷ []))) 0;
      eventcount = 3;
    })
      ≡ event le l)
    × (le.channellen ≡ 0)
    × (le.datalen ≡ 0)
read_next_event-truncated_example =
    read_next_event-truncated (9 ∷ []) garbage (1 ∷ 2 ∷ []) 0 3 none_found (omega arith)

abbrev long : Event
long = record {
  eventnum = 0;
  timestamp = 0;
  channellen = 1000;
  datalen = 0;
  channel = replicate 1000 65;
  data_of = [];
}

long-IsEvent : IsEvent long
long-IsEvent = record {
  num_fits = omega arith;
  time_fits = omega arith;
  channel_whole = sym (length-replicate {A = ℕ} 1000 65);
  data_whole = refl;
  channel_fits = omega arith;
  data_fits = omega arith;
}

read_next_event_lem_example :
    read_next_event
      (record { f = standing [] (garbage ++ (record_of long ++ [])) 0; eventcount = 0 })
    ≡ (if ltb long.channellen 1000
        then event long (record {
          f = standing (garbage ++ record_of long) [] 0;
          eventcount = (long.eventnum + 1) % 2 ^ 64;
        })
        else aborted)
read_next_event_lem_example =
    read_next_event_lem long [] garbage [] 0 0 long-IsEvent none_found_here
  where
    none_found_here : (find_magic 0 garbage 0).0 ≡ false
    none_found_here = unfold find_magic in refl
