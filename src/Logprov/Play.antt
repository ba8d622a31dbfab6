-- ===== src/Logprov/Play.antt =====
-- upstream/lcm/lcm_file.c: a log that is written by publishing is played as it was published.
use conftron.Base.{
  ℕ, zero, suc, ◌+◌, ◌%◌, ◌^◌, ◌<◌, ◌≤◌, ◌≡◌, refl, sym, ap, ap₂, ◌∙◌, Bool, true, false, Option,
  none, some, List, [], ◌∷◌, ◌++◌, length, leb, ℤ, pos, until_nul_lem, All, map, ◌>>=◌, arith,
  if◌then◌else◌, subst,
}
use conftron.IoUtils.Reads.{standing}
use conftron.EventLog.{Event, EventLog, read_next_event}
use conftron.EventLog.RoundTrip.{IsEvent, record_of}
use conftron.EventLog.Next.{read_next_event-next, read_next_event-end}
use conftron.Logprov.{
  Host, Message, Ends, Mode, Logprov, Load, loaded, at_end, ended, after_read, load_next_event,
  opened, start_clock, message_of, after_load, dispatch, with_status, handle_event,
  lcm_logprov_handle,
}
use conftron.Logprov.Published.{
  Sent, IsSent, publish_all, entry, records, entry-IsEvent, publish_all-records,
}

module _ (host : Host) where
  open host use {World, Speed, now, read_char}

  abbrev pub Played : Type 0
  Played = Option (List Message × Logprov Speed × World)

  abbrev add_message : Message → List Message × Logprov Speed × World → Played
  add_message m (ms, lr, w) = some (m ∷ ms, lr, w)

  abbrev collect :
      (Logprov Speed → World → Played) → (ℤ × Option Message) × Logprov Speed × World → Played
  collect go ((status, none), lr, w) = go lr w
  collect go ((status, some m), lr, w) = go lr w >>= add_message m

  -- The messages that `n` calls of lcm_logprov_handle dispatch.
  abbrev pub play : ℕ → Logprov Speed → World → Played
  play zero lr w = some ([], lr, w)
  play (suc n) lr w = lcm_logprov_handle host lr w >>= collect (play n)

  abbrev pub play_from : ℕ → World → Load host → Played
  play_from n w (loaded le lr) = play n lr w
  play_from n w (at_end lr) = none
  play_from n w ended = none

  -- The provider on a file with these contents, as lcm_logprov_create leaves it, and `n` calls.
  abbrev pub playback : Ends → Mode Speed → ℕ → World → List ℕ → Played
  playback ends mode n w contents = play_from n w (
      load_next_event host
        (opened host ends mode (record { contents = contents; place = 0; space = 0 })))

  abbrev pub parts : Message → List ℕ × List ℕ
  parts m = (m.channel, m.bytes)

  abbrev pub sent_parts : Sent host → List ℕ × List ℕ
  sent_parts s = (s.channel, s.bytes)

  -- What was dispatched is what was sent, and the log is at its end.
  abbrev pub IsPlayed : List (Sent host) → Played → Type 0
  IsPlayed sents none = ⊥
  IsPlayed sents (some (ms, lr, w)) = (map parts ms ≡ map sent_parts sents) × (lr.next_event ≡ none)

  -- The reader before a record, and at the end of the file.
  load-record :
      (lr : Logprov Speed) (le : Event) (pre post : List ℕ) (space count : ℕ)
      → IsEvent le
      → le.channellen < 1000
      → lr.log ≡ record { f = standing pre (record_of le ++ post) space; eventcount = count }
      → load_next_event host lr
        ≡ loaded le (record lr {
          log = record {
            f = standing (pre ++ record_of le) post space;
            eventcount = (le.eventnum + 1) % 2 ^ 64;
          };
          next_event = some le;
        })
  unfolding load_next_event
  load-record lr le pre post space count ok small e =
      ap (λ l. after_read host lr (read_next_event l)) e
      ∙ ap (after_read host lr) (read_next_event-next le pre post space count ok small)

  load-end :
      (lr : Logprov Speed) (pre : List ℕ) (space count : ℕ)
      → lr.log ≡ record { f = standing pre [] space; eventcount = count }
      → (l : EventLog) × (load_next_event host lr
          ≡ at_end (record lr { log = l; next_event = none }))
  unfolding load_next_event
  load-end lr pre space count e =
      let (l, h) = read_next_event-end pre space count in
      (l, ap (λ x. after_read host lr (read_next_event x)) e ∙ ap (after_read host lr) h)

  start_clock-log : (lr : Logprov Speed) (t : ℕ) → (start_clock host lr t).log ≡ lr.log
  start_clock-log lr t = either (leb (2 ^ 63) lr.next_clock_time)
    where
      either :
          (b : Bool)
          → Path EventLog ((if b then record lr { next_clock_time = t } else lr).log) lr.log
      either true = refl
      either false = refl

  -- A read of the notify pipe gives a character; the writing end is open.
  abbrev pub Notifies : Type 0
  Notifies = (fd : ℤ) (w : World) → (n : ℕ) × ((v : World) × (read_char fd w ≡ (pos (suc n), v)))

  handle-dispatch :
      (lr : Logprov Speed) (le : Event) (w : World)
      → Notifies
      → lr.next_event ≡ some le
      → (v : World) × (lcm_logprov_handle host lr w
          ≡ dispatch host (start_clock host lr (now v)) le (now v) v)
  unfolding lcm_logprov_handle
  handle-dispatch lr le w notifies e =
      let (n, (v, h)) = notifies lr.ends.notify_pipe.0 w in
      (v, ap (λ o. handle_event host lr o w) e ∙ ap (with_status host lr le) h)

  add_message-IsPlayed :
      (s : Sent host) (sents : List (Sent host)) (m : Message) (o : Played)
      → parts m ≡ sent_parts s
      → IsPlayed sents o
      → IsPlayed (s ∷ sents) (o >>= add_message m)
  add_message-IsPlayed s sents m none e h = h
  add_message-IsPlayed s sents m (some (ms, lr, w)) e (same, last) =
      (ap₂ (λ x xs. x ∷ xs) e same, last)

  message_of-parts :
      (lr : Logprov Speed) (k : ℕ) (s : Sent host)
      → IsSent host s
      → parts (message_of host lr (entry host k s)) ≡ sent_parts s
  message_of-parts lr k s h = ap (λ c. (c, s.bytes)) (until_nul_lem s.channel h.0)

  -- The events that are left in the file are played.
  play-IsPlayed :
      (sents : List (Sent host)) (s : Sent host) (j k : ℕ) (lr : Logprov Speed) (pre : List ℕ)
      (space count : ℕ) (w : World)
      → Notifies
      → All (IsSent host) (s ∷ sents)
      → k < 2 ^ 64
      → lr.next_event ≡ some (entry host j s)
      → lr.log ≡ record { f = standing pre (records host k sents) space; eventcount = count }
      → IsPlayed (s ∷ sents) (play (suc (length sents)) lr w)
  play-IsPlayed [] s j k lr pre space count w notifies (h, hs) fits e f =
      let (v, called) = handle-dispatch lr (entry host j s) w notifies e in
      let lr1 = start_clock host lr (now v) in
      let m = message_of host lr1 (entry host j s) in
      let (l, at) = load-end lr1 pre space count (start_clock-log lr (now v) ∙ f) in
      subst (λ o. IsPlayed (s ∷ []) (o >>= collect (play 0)))
        (sym (called ∙ ap (after_load host m (entry host j s).timestamp (now v) v) at))
        (add_message-IsPlayed s [] m
          (some (
            [],
            record lr1 { log = l; next_event = none },
            host.write_char lr1.ends.notify_pipe.1 v,
          ))
          (message_of-parts lr1 j s h) (refl, refl))
  play-IsPlayed (s2 ∷ sents) s j k lr pre space count w notifies (h, hs) fits e f =
      let (v, called) = handle-dispatch lr (entry host j s) w notifies e in
      let lr1 = start_clock host lr (now v) in
      let m = message_of host lr1 (entry host j s) in
      let later = records host ((k + 1) % 2 ^ 64) sents in
      let at =
        load-record lr1 (entry host k s2) pre later space count (entry-IsEvent host k s2 fits hs.0)
          (omega (arith, hs.0.1)) (start_clock-log lr (now v) ∙ f) in
      subst (λ o. IsPlayed (s ∷ s2 ∷ sents) (o >>= collect (play (suc (length sents)))))
        (sym (called ∙ ap (after_load host m (entry host j s).timestamp (now v) v) at))
        (add_message-IsPlayed s (s2 ∷ sents) m _ (message_of-parts lr1 j s h) (
          play-IsPlayed sents s2 k ((k + 1) % 2 ^ 64) _ (pre ++ record_of (entry host k s2)) space _
            _ notifies hs (omega arith) refl refl))

  -- The messages that lcm_logprov_publish writes to an empty file, one at least, are the messages that
  -- lcm_logprov_handle dispatches of this file, in their order, with their channels and bytes, and the
  -- log is then at its end; if the device has room for their records host, the notify pipe gives a character
  -- at each read, and no channel has a NUL or 1000 bytes, and no payload 2 ^ 31.
  pub playback-publish :
      (ends player_ends : Ends) (mode player_mode : Mode Speed) (s : Sent host)
      (sents : List (Sent host)) (space : ℕ) (w : World)
      → Notifies
      → mode.writer ≡ true
      → All (IsSent host) (s ∷ sents)
      → length (records host 0 (s ∷ sents)) ≤ space
      → (lr : Logprov Speed) × ((publish_all host
              (opened host ends mode (record { contents = []; place = 0; space = space }))
              (s ∷ sents)
            ≡ some lr)
          × IsPlayed
              (s ∷ sents)
              (playback player_ends player_mode (suc (length sents)) w lr.log.f.contents))
  playback-publish ends player_ends mode player_mode s sents space w notifies writes ok room =
      let (lr, (e, c)) =
        publish_all-records host (s ∷ sents)
          (opened host ends mode (record { contents = []; place = 0; space = space })) writes
          (omega arith) ok room in
      (
        lr,
        (
          e,
          subst
              (λ xs.
                IsPlayed (s ∷ sents) (playback player_ends player_mode (suc (length sents)) w xs))
              (sym c) playing,
        ),
      )
    where
      player : Logprov Speed
      player =
          opened host player_ends player_mode
            (record { contents = records host 0 (s ∷ sents); place = 0; space = 0 })

      playing :
          IsPlayed
            (s ∷ sents)
            (playback player_ends player_mode (suc (length sents)) w (records host 0 (s ∷ sents)))
      playing =
          subst (λ o. IsPlayed (s ∷ sents) (play_from (suc (length sents)) w o))
            (sym (
              load-record player (entry host 0 s) [] (records host 1 sents) 0 0
                (entry-IsEvent host 0 s (omega arith) ok.0) (omega (arith, ok.0.1)) refl))
            (play-IsPlayed sents s 0 1 _ (record_of (entry host 0 s)) 0 1 w notifies ok
              (omega arith) refl refl)
