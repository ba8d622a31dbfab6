-- ===== src/EventLog/RoundTrip.antt =====
-- What lcm_eventlog_write_event puts in a file, and what lcm_eventlog_read_next_event and
-- get_event_time read of it (eventlog.c).
use conftron.Base.{
  ℕ, ◌+◌, ◌%◌, ◌^◌, ◌<◌, ◌≤◌, ◌≡◌, refl, ap, false, List, ◌++◌, [], length, append_assoc, arith,
  lt→ltb, le→ltb_false, if◌then◌else◌, ltb, ltb→lt, ltb_false→le, Bool-cases, inl, inr,
  lt→leb_false, eq→==,
}
use conftron.CoreTypes.{bytes32}
use conftron.IoUtils.Reads.{
  standing, bytes_of64, fread-standing, fread32-standing, fread64-standing,
}
use conftron.EventLog.{
  Event, event, aborted, magic_of_log, find_magic, read_fields, read_header, read_data,
  read_channel, read_next_event,
}
use conftron.EventLog.Search.{find_event-marker}

-- The bytes of an event in a file.
abbrev pub header : Event → List ℕ
header le =
    bytes_of64 le.eventnum
    ++ (bytes_of64 le.timestamp ++ (bytes32 le.channellen ++ bytes32 le.datalen))

abbrev pub record_of : Event → List ℕ
record_of le = bytes32 magic_of_log ++ (header le ++ (le.channel ++ le.data_of))

-- An event whose numbers fit their types, with the lengths of its blocks.
pub record IsEvent (le : Event) : Type 0 where
  pub num_fits : le.eventnum < 2 ^ 64
  pub time_fits : le.timestamp < 2 ^ 64
  pub channel_whole : le.channellen ≡ length le.channel
  pub data_whole : le.datalen ≡ length le.data_of
  pub channel_fits : le.channellen < 2 ^ 31
  pub data_fits : le.datalen < 2 ^ 31

abbrev without_blocks : Event → Event
without_blocks le = record le { channel = []; data_of = [] }

assoc_four : (pre a b c d : List ℕ) → (((pre ++ a) ++ b) ++ c) ++ d ≡ pre ++ (a ++ (b ++ (c ++ d)))
assoc_four pre a b c d = rw (
  append_assoc ((pre ++ a) ++ b) c d,
  append_assoc (pre ++ a) b (c ++ d),
  append_assoc pre a (b ++ (c ++ d)),
)

read_fields-standing :
    (le : Event) (pre post : List ℕ) (space : ℕ)
    → IsEvent le
    → read_fields (standing pre (header le ++ post) space)
      ≡ (without_blocks le, standing (pre ++ header le) post space)
unfolding read_fields
read_fields-standing le pre post space ok =
    let num = bytes_of64 le.eventnum in
    let time = bytes_of64 le.timestamp in
    let clen = bytes32 le.channellen in
    let dlen = bytes32 le.datalen in
    rw
      (
        fread64-standing le.eventnum pre (time ++ (clen ++ (dlen ++ post))) space ok.num_fits,
        fread64-standing le.timestamp (pre ++ num) (clen ++ (dlen ++ post)) space ok.time_fits,
        fread32-standing le.channellen ((pre ++ num) ++ time) (dlen ++ post) space
            (omega (arith, ok)),
        fread32-standing le.datalen (((pre ++ num) ++ time) ++ clen) post space (omega (arith, ok)),
      )
      (ap (λ front. (without_blocks le, standing front post space))
        (assoc_four pre num time clen dlen))

module _ (le : Event) (bs pre post : List ℕ) (space count : ℕ) where
  read_data-standing :
      le.datalen ≡ length bs
      → le.datalen < 2 ^ 31
      → read_data le (record { f = standing pre (bs ++ post) space; eventcount = count })
        ≡ event
            (record le { data_of = bs })
            (record { f = standing (pre ++ bs) post space; eventcount = (count + 1) % 2 ^ 64 })
  unfolding read_data
  read_data-standing e h =
      rw
        (
          lt→ltb le.datalen (2 ^ 31) h,
          e,
          fread-standing pre bs post space,
          eq→== (length bs) (length bs) refl,
        )
        refl

  read_channel-standing :
      le.channellen ≡ length bs
      → le.channellen < 2 ^ 31
      → read_channel le (record { f = standing pre (bs ++ post) space; eventcount = count })
        ≡ read_data
            (record le { channel = bs })
            (record { f = standing (pre ++ bs) post space; eventcount = count })
  unfolding read_channel
  read_channel-standing e h =
      rw
        (
          lt→ltb le.channellen (2 ^ 31) h,
          e,
          fread-standing pre bs post space,
          eq→== (length bs) (length bs) refl,
        )
        refl

-- An event with a short channel is read.
pub read_next_event-record_of :
    (le : Event) (pre garbage post : List ℕ) (space count : ℕ)
    → IsEvent le
    → le.channellen < 1000
    → (find_magic 0 garbage (length pre)).0 ≡ false
    → read_next_event
        (record { f = standing pre (garbage ++ (record_of le ++ post)) space; eventcount = count })
      ≡ event le (record {
        f = standing ((pre ++ garbage) ++ record_of le) post space;
        eventcount = (le.eventnum + 1) % 2 ^ 64;
      })
unfolding read_next_event read_header
read_next_event-record_of le pre garbage post space count ok small none_before =
    let pre1 = (pre ++ garbage) ++ bytes32 magic_of_log in
    let pre2 = pre1 ++ header le in
    rw
      (
        append_assoc le.channel le.data_of post,
        find_event-marker pre garbage (header le ++ (le.channel ++ (le.data_of ++ post))) space
            none_before,
        read_fields-standing le pre1 (le.channel ++ (le.data_of ++ post)) space ok,
        lt→ltb le.channellen 1000 small,
        read_channel-standing (without_blocks le) le.channel pre2 (le.data_of ++ post) space
            le.eventnum ok.channel_whole ok.channel_fits,
        read_data-standing (record le { data_of = [] }) le.data_of (pre2 ++ le.channel) post space
            le.eventnum ok.data_whole ok.data_fits,
      )
      (ap
        (λ front.
          event le
            (record { f = standing front post space; eventcount = (le.eventnum + 1) % 2 ^ 64 }))
        (assoc_four (pre ++ garbage) (bytes32 magic_of_log) (header le) le.channel le.data_of))

-- One with a long channel is not.
read_next_event-long :
    (le : Event) (pre garbage post : List ℕ) (space count : ℕ)
    → IsEvent le
    → 1000 ≤ le.channellen
    → (find_magic 0 garbage (length pre)).0 ≡ false
    → read_next_event
        (record { f = standing pre (garbage ++ (record_of le ++ post)) space; eventcount = count })
      ≡ aborted
unfolding read_next_event read_header
read_next_event-long le pre garbage post space count ok long none_before =
    let pre1 = (pre ++ garbage) ++ bytes32 magic_of_log in
    rw
      (
        append_assoc le.channel le.data_of post,
        find_event-marker pre garbage (header le ++ (le.channel ++ (le.data_of ++ post))) space
            none_before,
        read_fields-standing le pre1 (le.channel ++ (le.data_of ++ post)) space ok,
        le→ltb_false le.channellen 1000 long,
        lt→leb_false (2 ^ 31) le.channellen ok.channel_fits,
      )
      refl

-- When a record of an event comes next, whatever follows and whatever bytes come before in which the
-- search for a marker finds nothing, lcm_eventlog_read_next_event gives the event and stands behind its
-- record with the number after the event's as its count, if the channel has fewer than 1000 bytes; if it
-- has more, though lcm_eventlog_write_event wrote it, the reader fails its assertion and ends the
-- program. The event's numbers fit their types, and its lengths are those of its blocks.
pub read_next_event_lem :
    (le : Event) (pre garbage post : List ℕ) (space count : ℕ)
    → IsEvent le
    → (find_magic 0 garbage (length pre)).0 ≡ false
    → read_next_event
        (record { f = standing pre (garbage ++ (record_of le ++ post)) space; eventcount = count })
      ≡ (if ltb le.channellen 1000
          then event le (record {
            f = standing ((pre ++ garbage) ++ record_of le) post space;
            eventcount = (le.eventnum + 1) % 2 ^ 64;
          })
          else aborted)
read_next_event_lem le pre garbage post space count ok none_before =
    elim (Bool-cases (ltb le.channellen 1000)) [
      | inl e ↦ rw e (
          read_next_event-record_of le pre garbage post space count ok (ltb→lt le.channellen 1000 e)
            none_before)
      | inr e ↦ rw e (
          read_next_event-long le pre garbage post space count ok
            (ltb_false→le le.channellen 1000 e) none_before)
    ]
