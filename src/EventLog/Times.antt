-- ===== src/EventLog/Times.antt =====
-- How get_event_time (eventlog.c) looks at the time of the next event without reading the event.
use conftron.Base.{ℕ, ◌≡◌, refl, ap₂, false, List, ◌++◌, length, append_assoc, length-append, arith}
use conftron.CoreTypes.{bytes32}
use conftron.IoUtils.{seek_back}
use conftron.IoUtils.Reads.{standing, bytes_of64, fread64-standing}
use conftron.EventLog.{Event, magic_of_log, find_magic, get_event_time}
use conftron.EventLog.Search.{find_event-marker}
use conftron.EventLog.RoundTrip.{IsEvent, record_of}

seek_back-standing :
    (pre bs post : List ℕ) (space n : ℕ)
    → n ≡ length bs
    → seek_back (standing (pre ++ bs) post space) n ≡ standing pre (bs ++ post) space
unfolding seek_back
seek_back-standing pre bs post space n e =
    ap₂ (λ contents place. record { contents = contents; place = place; space = space })
      (append_assoc pre bs post) (omega (arith, e, length-append pre bs))

-- get_event_time gives the time of the event whose record comes next, and stands before its marker
-- with the event's number as the count of the log, so that the event is read next; other bytes may
-- come before in which the search for a marker finds nothing. The event's numbers fit their types,
-- and its lengths are those of its blocks.
pub get_event_time-record_of :
    (le : Event) (pre garbage post : List ℕ) (space count : ℕ)
    → IsEvent le
    → (find_magic 0 garbage (length pre)).0 ≡ false
    → get_event_time
        (record { f = standing pre (garbage ++ (record_of le ++ post)) space; eventcount = count })
      ≡ (
        le.timestamp,
        record {
          f = standing (pre ++ garbage) (record_of le ++ post) space;
          eventcount = le.eventnum;
        },
      )
unfolding get_event_time
get_event_time-record_of le pre garbage post space count ok none_before =
    let marker = bytes32 magic_of_log in
    let num = bytes_of64 le.eventnum in
    let time = bytes_of64 le.timestamp in
    let rest =
      bytes32 le.channellen ++ (bytes32 le.datalen ++ ((le.channel ++ le.data_of) ++ post)) in
    rw
      (
        find_event-marker pre garbage (num ++ (time ++ rest)) space none_before,
        fread64-standing le.eventnum ((pre ++ garbage) ++ marker) (time ++ rest) space ok.num_fits,
        fread64-standing le.timestamp (((pre ++ garbage) ++ marker) ++ num) rest space ok.time_fits,
        append_assoc ((pre ++ garbage) ++ marker) num time,
        append_assoc (pre ++ garbage) marker (num ++ time),
        seek_back-standing (pre ++ garbage) (marker ++ (num ++ time)) rest space 20 refl,
      )
      refl
