-- ===== src/EventLog/Truncated.antt =====
-- What lcm_eventlog_read_next_event (eventlog.c) makes of a log that ends within an event.
use conftron.Base.{
  ℕ, ◌+◌, ◌-◌, ◌%◌, ◌^◌, ◌<◌, ◌≤◌, ◌≡◌, refl, ap, false, some, none, Option, List, ◌++◌, [], length,
  take, drop, length-append, length-take, length-drop, arith, lt→leb_false,
}
use conftron.CoreTypes.{bytes32}
use conftron.IoUtils.{File, fread, fread32, fread64, high_half, low_half}
use conftron.IoUtils.Reads.{standing}
use conftron.EventLog.{
  Event, EventLog, event, magic_of_log, find_magic, read_next_event, read_header, read_fields,
  read_channel, read_data, field, check_channel,
}
use conftron.EventLog.Search.{find_event-marker}

-- The number of bytes that are left to read.
abbrev left_in : File → ℕ
left_in f = length f.contents - f.place

left-fread : (f : File) (n : ℕ) → left_in (fread f n).1 ≤ left_in f - n
unfolding fread
left-fread f n =
    omega (arith, length-take n (drop f.place f.contents), length-drop f.place f.contents)

left-fread32 : (f : File) → left_in (fread32 f).1 ≤ left_in f - 4
unfolding fread32
left-fread32 f = left-fread f 4

fread32_short : (f : File) → left_in f < 4 → (fread32 f).0 ≡ none
unfolding fread32 fread
fread32_short f h = rw (lt→leb_false 4 (length (take 4 (drop f.place f.contents))) short) refl
  where
    short : length (take 4 (drop f.place f.contents)) < 4
    short =
        omega (arith, h, length-take 4 (drop f.place f.contents), length-drop f.place f.contents)

fread32-none : (f : File) → (fread32 f).0 ≡ none → left_in f < 4
unfolding fread32 fread
fread32-none f h =
    ground (arith, h, length-take 4 (drop f.place f.contents), length-drop f.place f.contents)

left-low_half : (v1 : ℕ) (r : Option ℕ × File) → left_in (low_half v1 r).1 ≡ left_in r.1
left-low_half v1 (none, f) = refl
left-low_half v1 (some v2, f) = refl

left-high_half :
    (r : Option ℕ × File)
    → (r.0 ≡ none → left_in r.1 ≡ 0)
    → left_in (high_half r).1 ≤ left_in r.1 - 4
left-high_half (none, f) h = omega (arith, h refl)
left-high_half (some v1, f) h = omega (arith, left-low_half v1 (fread32 f), left-fread32 f)

left-fread64 : (f : File) → left_in (fread64 f).1 ≤ left_in f - 8
unfolding fread64
left-fread64 f = omega (
  arith,
  left-fread32 f,
  left-high_half (fread32 f) (λ e. omega (arith, fread32-none f e, left-fread32 f)),
)

-- With less than 20 bytes left, the lengths are not read, and count as zero.
read_fields_short :
    (f : File)
    → left_in f < 20
    → ((read_fields f).0.channellen ≡ 0) × ((read_fields f).0.datalen ≡ 0)
unfolding read_fields
read_fields_short f h =
    let f1 = (fread64 f).1 in
    let f2 = (fread64 f1).1 in
    let f3 = (fread32 f2).1 in
    (
      ap field (fread32_short f2 (omega (arith, h, left-fread64 f, left-fread64 f1))),
      ap field
          (fread32_short f3 (omega (arith, h, left-fread64 f, left-fread64 f1, left-fread32 f2))),
    )

check_channel_empty :
    (r : Event × File)
    → r.0.channellen ≡ 0
    → r.0.datalen ≡ 0
    → (le : Event) × (l : EventLog) × (check_channel r ≡ event le l)
      × (le.channellen ≡ 0)
      × (le.datalen ≡ 0)
unfolding read_channel read_data fread
check_channel_empty (le, f) h k = (
  record le { channel = []; data_of = [] },
  record { f = record f { place = f.place + 0 + 0 }; eventcount = (le.eventnum + 1) % 2 ^ 64 },
  rw (h, k) refl,
  h,
  k,
)

-- When a log ends less than 20 bytes behind a marker, lcm_eventlog_read_next_event does not report
-- the end of the file: it gives an event with the lengths zero. Bytes may come before the marker in
-- which the search finds nothing.
pub read_next_event-truncated :
    (pre garbage rest : List ℕ) (space count : ℕ)
    → (find_magic 0 garbage (length pre)).0 ≡ false
    → length rest < 20
    → (le : Event) × (l : EventLog) × (read_next_event (record {
      f = standing pre (garbage ++ (bytes32 magic_of_log ++ rest)) space;
      eventcount = count;
    })
        ≡ event le l)
      × (le.channellen ≡ 0)
      × (le.datalen ≡ 0)
unfolding read_next_event read_header
read_next_event-truncated pre garbage rest space count none_before short =
    let front = (pre ++ garbage) ++ bytes32 magic_of_log in
    let (e1, e2) =
      read_fields_short (standing front rest space)
        (omega (arith, short, length-append front rest)) in
    rw (find_event-marker pre garbage rest space none_before)
      (check_channel_empty (read_fields (standing front rest space)) e1 e2)
