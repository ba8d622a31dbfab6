-- ===== src/Logprov/Published.antt =====
-- upstream/lcm/lcm_file.c: what publishing puts in a log file.
use conftron.Base.{
  ℕ, ◌+◌, ◌%◌, ◌^◌, ◌<◌, ◌≤◌, ◌≡◌, refl, sym, ap, ◌∙◌, true, Option, some, List, [], ◌∷◌, ◌++◌,
  length, pos, minus_one, All, ◌>>=◌, arith, append_assoc, append-nil, length-append, if◌then◌else◌,
}
use conftron.EventLog.{Event, write_event}
use conftron.EventLog.RoundTrip.{IsEvent, record_of}
use conftron.EventLog.Writes.{log_after, read_next_event-write_event}
use conftron.Logprov.{Host, Logprov, published, event_at, lcm_logprov_publish}

module _ (host : Host) where
  open host use {World, Speed, now, read_char}

  -- A call of lcm_logprov_publish.
  pub record Sent : Type 0 where
    pub channel : List ℕ
    pub bytes : List ℕ
    pub moment : World

  abbrev pub IsSent : Sent → Type 0
  IsSent s = All (λ c. 0 < c) s.channel × (length s.channel < 1000) × (length s.bytes < 2 ^ 31)

  abbrev pub publish_all : Logprov Speed → List Sent → Option (Logprov Speed)
  publish_all lr [] = some lr
  publish_all lr (s ∷ sents) =
      lcm_logprov_publish host lr s.channel s.bytes s.moment >>= λ (status, lr1).
      publish_all lr1 sents

  -- The event of a call under its number, and those of several calls in a file.
  abbrev pub entry : ℕ → Sent → Event
  entry k s = record (event_at host (now s.moment) s.channel s.bytes) { eventnum = k }

  abbrev pub records : ℕ → List Sent → List ℕ
  records k [] = []
  records k (s ∷ sents) = record_of (entry k s) ++ records ((k + 1) % 2 ^ 64) sents

  pub entry-IsEvent : (k : ℕ) (s : Sent) → k < 2 ^ 64 → IsSent s → IsEvent (entry k s)
  entry-IsEvent k s h (text, hc, hb) = record {
    num_fits = h;
    time_fits = omega arith;
    channel_whole = omega (arith, hc);
    data_whole = omega (arith, hb);
    channel_fits = omega (arith, hc);
    data_fits = omega (arith, hb);
  }

  publish-write_event :
      (lr : Logprov Speed) (s : Sent)
      → lr.mode.writer ≡ true
      → lr.log.eventcount < 2 ^ 64
      → IsSent s
      → length (record_of (entry lr.log.eventcount s)) ≤ lr.log.f.space
      → lcm_logprov_publish host lr s.channel s.bytes s.moment
        ≡ some (
          pos 0,
          record lr { log = log_after lr.log (event_at host (now s.moment) s.channel s.bytes) },
        )
  unfolding lcm_logprov_publish
  publish-write_event lr s mode count ok room =
      ap (λ b. if b then published host lr (write_event lr.log le) else some (minus_one, lr)) mode
      ∙ ap (published host lr)
          (read_next_event-write_event lr.log (event_at host (now s.moment) s.channel s.bytes) 0
            (entry-IsEvent 0 s (omega arith) ok) count (omega (arith, ok.1)) room).0
    where
      le : Event
      le = event_at host (now s.moment) s.channel s.bytes

  -- Publishing appends the records to the file.
  pub publish_all-records :
      (sents : List Sent) (lr : Logprov Speed)
      → lr.mode.writer ≡ true
      → lr.log.eventcount < 2 ^ 64
      → All IsSent sents
      → length (records lr.log.eventcount sents) ≤ lr.log.f.space
      → (lr1 : Logprov Speed) × ((publish_all lr sents ≡ some lr1)
          × (lr1.log.f.contents ≡ lr.log.f.contents ++ records lr.log.eventcount sents))
  publish_all-records [] lr mode count ok room = (lr, (refl, sym (append-nil lr.log.f.contents)))
  publish_all-records (s ∷ sents) lr mode count (h, hs) room =
      let first = record_of (entry lr.log.eventcount s) in
      let later = records ((lr.log.eventcount + 1) % 2 ^ 64) sents in
      let le = event_at host (now s.moment) s.channel s.bytes in
      let step =
        publish-write_event lr s mode count h (omega (arith, room, length-append first later)) in
      let (lr1, (e, c)) =
        publish_all-records sents (record lr { log = log_after lr.log le }) mode (omega arith) hs
          (omega (arith, room, length-append first later)) in
      (
        lr1,
        (
          ap (λ o. o >>= λ (status, x). publish_all x sents) step ∙ e,
          c ∙ append_assoc lr.log.f.contents first later,
        ),
      )
