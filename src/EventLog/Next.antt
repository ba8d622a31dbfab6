-- ===== src/EventLog/Next.antt =====
-- lcm_eventlog_read_next_event (eventlog.c) where a record comes next, and at the end of the file.
use conftron.Base.{
  ℕ, ◌+◌, ◌%◌, ◌^◌, ◌<◌, ◌≡◌, refl, ap, ◌∙◌, List, [], ◌++◌, length, append-nil, drop-length_append,
}
use conftron.IoUtils.Reads.{standing}
use conftron.EventLog.{
  Event, EventLog, event, eof, find_magic, find_event, read_next_event, after_search, read_header,
}
use conftron.EventLog.RoundTrip.{IsEvent, record_of, read_next_event-record_of}

pub read_next_event-next :
    (le : Event) (pre post : List ℕ) (space count : ℕ)
    → IsEvent le
    → le.channellen < 1000
    → read_next_event (record { f = standing pre (record_of le ++ post) space; eventcount = count })
      ≡ event le (record {
        f = standing (pre ++ record_of le) post space;
        eventcount = (le.eventnum + 1) % 2 ^ 64;
      })
read_next_event-next le pre post space count ok small =
    read_next_event-record_of le pre [] post space count ok small (unfold find_magic in refl)
    ∙ ap
        (λ front. event le (record {
          f = standing (front ++ record_of le) post space;
          eventcount = (le.eventnum + 1) % 2 ^ 64;
        }))
        (append-nil pre)

pub read_next_event-end :
    (pre : List ℕ) (space count : ℕ)
    → (l : EventLog) × (read_next_event (record { f = standing pre [] space; eventcount = count })
        ≡ eof l)
unfolding read_next_event find_event find_magic
read_next_event-end pre space count = (
  _,
  ap
      (λ xs. after_search read_header count (
        (find_magic 0 xs (length pre)).0,
        record { contents = pre ++ []; place = (find_magic 0 xs (length pre)).1; space = space },
      ))
      (drop-length_append pre []),
)
