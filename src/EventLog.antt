-- ===== src/EventLog.antt =====
-- upstream/lcm/eventlog.c: log files of events. An int64_t or an int32_t is its bit pattern. The blocks
-- for the channel and the data are the bytes in them, without the NUL that the reader puts behind.
pub mod Search
pub mod RoundTrip
pub mod Writes
pub mod Times
pub mod Truncated
pub mod Next
mod Runs
use conftron.Base.{
  ℕ, ◌+◌, ◌*◌, ◌%◌, ◌^◌, Bool, true, false, Option, none, some, List, [], ◌∷◌, length, drop,
  if◌then◌else◌, ltb, leb, ◌-◌, ◌==◌, ◌>>=◌, read_bytes,
}
use conftron.IoUtils.{File, fread, seek_back, fwrite, fwrite32, fwrite64, fread32, fread64, ◌⨾◌}

abbrev pub magic_of_log : ℕ
magic_of_log = 0xEDA1DA01

-- lcm_eventlog_event_t
pub record Event : Type 0 where
  pub eventnum : ℕ
  pub timestamp : ℕ
  pub channellen : ℕ
  pub datalen : ℕ
  pub channel : List ℕ
  pub data_of : List ℕ

-- lcm_eventlog_t
pub record EventLog : Type 0 where
  pub f : File
  pub eventcount : ℕ

-- What a read gives: an event; NULL at the end of the file; a failed assertion; or fread of a negative
-- length into the block allocated for it, which is undefined behaviour.
pub data Outcome : Type 0 where
  event : Event → EventLog → Outcome
  eof : EventLog → Outcome
  aborted : Outcome
  undefined : Outcome

-- The loop that looks for the marker, over the bytes that are left; the answer says whether it is
-- found, and the place behind it or the end of the file.
pub find_magic : ℕ → List ℕ → ℕ → Bool × ℕ
find_magic magic [] place = (false, place)
find_magic magic (r ∷ rest) place =
    let magic' = (magic * 2 ^ 8 + r) % 2 ^ 32 in
    let later = find_magic magic' rest (place + 1) in
    if magic' == magic_of_log then (true, place + 1) else later

pub find_event : File → Bool × File
unfolding find_magic
find_event f =
    let (found, place) = find_magic 0 (drop f.place f.contents) f.place in
    (found, record f { place = place })

-- A field that was allocated as zero, after a read whose result is not looked at.
abbrev pub field : Option ℕ → ℕ
field none = 0
field (some v) = v

-- The data have been read, as far as the file has them.
abbrev pub with_data : Event → ℕ → List ℕ × File → Outcome
with_data le eventcount (bs, f) =
    if length bs == le.datalen
    then event (record le { data_of = bs })
        (record { f = f; eventcount = (eventcount + 1) % 2 ^ 64 })
    else eof (record { f = f; eventcount = eventcount })

pub read_data : Event → EventLog → Outcome
read_data le l =
    if ltb le.datalen (2 ^ 31) then with_data le l.eventcount (fread l.f le.datalen) else undefined

abbrev pub with_channel : Event → ℕ → List ℕ × File → Outcome
with_channel le eventcount (bs, f) =
    if length bs == le.channellen
    then read_data (record le { channel = bs }) (record { f = f; eventcount = eventcount })
    else eof (record { f = f; eventcount = eventcount })

pub read_channel : Event → EventLog → Outcome
read_channel le l =
    if ltb le.channellen (2 ^ 31)
    then with_channel le l.eventcount (fread l.f le.channellen)
    else undefined

-- The four numbers behind the marker.
pub read_fields : File → Event × File
read_fields f =
    let (eventnum, f1) = fread64 f in
    let (timestamp, f2) = fread64 f1 in
    let (channellen, f3) = fread32 f2 in
    let (datalen, f4) = fread32 f3 in
    (
      record {
        eventnum = field eventnum;
        timestamp = field timestamp;
        channellen = field channellen;
        datalen = field datalen;
        channel = [];
        data_of = [];
      },
      f4,
    )

-- The assertion compares an int32_t, of which one from 2 ^ 31 on is negative.
abbrev pub small_channel : ℕ → Bool
small_channel channellen = if ltb channellen 1000 then true else leb (2 ^ 31) channellen

abbrev pub check_channel : Event × File → Outcome
check_channel (le, f) =
    if small_channel le.channellen
    then read_channel le (record { f = f; eventcount = le.eventnum })
    else aborted

pub read_header : EventLog → Outcome
read_header l = check_channel (read_fields l.f)

abbrev pub after_search : (EventLog → Outcome) → ℕ → Bool × File → Outcome
after_search next count (true, f) = next (record { f = f; eventcount = count })
after_search next count (false, f) = eof (record { f = f; eventcount = count })

-- lcm_eventlog_read_next_event
pub read_next_event : EventLog → Outcome
read_next_event l = after_search read_header l.eventcount (find_event l.f)

-- The writes behind the marker.
pub write_fields : Event → List ℕ → List ℕ → File → Bool × File
write_fields le channel bytes =
    fwrite64 le.eventnum
    ⨾ fwrite64 le.timestamp
    ⨾ fwrite32 le.channellen
    ⨾ fwrite32 le.datalen
    ⨾ (λ f. fwrite f channel)
    ⨾ (λ f. fwrite f bytes)

-- The count goes up if all was written; the result is 0 or -1.
abbrev pub counted : ℕ → Bool × File → Bool × EventLog
counted count (true, f) = (true, record { f = f; eventcount = (count + 1) % 2 ^ 64 })
counted count (false, f) = (false, record { f = f; eventcount = count })

-- lcm_eventlog_write_event; the answer is whether it returns 0, the log, and the event, which is given
-- the count of the log as its number. `none` is a length beyond the block.
unfoldable pub write_event : EventLog → Event → Option ((Bool × EventLog) × Event)
unfolding write_fields
write_event l le = read_bytes le.channel 0 le.channellen >>= λ channel.
    read_bytes le.data_of 0 le.datalen >>= λ bytes.
    let numbered = record le { eventnum = l.eventcount } in
    let marked = fwrite32 magic_of_log l.f in
    some (
      counted l.eventcount ((fwrite32 magic_of_log ⨾ write_fields numbered channel bytes) l.f),
      if marked.0 then numbered else le,
    )

-- The 20 bytes that get_event_time goes back are the marker and the two numbers.
abbrev pub time_of : Option ℕ × File → Option ℕ × File → ℕ × EventLog → ℕ × EventLog
time_of (none, f1) second (err, l) = (err, record l { f = f1 })
time_of (some eventnum, f1) (none, f2) (err, l) = (err, record l { f = f2 })
time_of (some eventnum, f1) (some timestamp, f2) (err, l) =
    (timestamp, record { f = seek_back f2 20; eventcount = eventnum })

abbrev pub time_after : ℕ → Bool × File → ℕ × EventLog
time_after count (true, f) =
    time_of (fread64 f) (fread64 (fread64 f).1) (2 ^ 64 - 1, record { f = f; eventcount = count })
time_after count (false, f) = (2 ^ 64 - 1, record { f = f; eventcount = count })

-- get_event_time; -1 is 2 ^ 64 - 1.
pub get_event_time : EventLog → ℕ × EventLog
get_event_time l = time_after l.eventcount (find_event l.f)
